-- ===== src/Wrappers/Open.antt =====
-- wrap_openat of ports/linux/guts, and fopen, freopen, opendir, mkostemps, chdir, fchdir, dup, dup2,
-- close, fclose, closedir, faccessat2 and access of ports/unix/guts. The lock and the mask of signals
-- that openat gives up for a pipe are left out, and so is PSEUDO_FORCE_ASYNC. The flags have the values
-- of Linux; base_stat is base_fstatat without flags. The
-- copying of the last letters into the caller's template is left out.
use pseudo.Prelude.{
  ℕ, ◌-◌, ◌^◌, ◌%◌, Bool, true, false, ◌&&◌, ◌==◌, not, Option, none, some, Str, ℤ, pos,
  if◌then◌else◌,
}
use Prim.Native.Nat.{bit_and, bit_or}
use pseudo.Message
use pseudo.Message.{Msg, Op, creat, open_file}
use pseudo.Wrappers.Modes.{fs_mode, db_mode}
use pseudo.Wrappers.Create.{masked}
use pseudo.Wrappers.Access.{has, psa_of_flags, access_fopen, psa_read, psa_write}
use pseudo.Client.Request.{Stat, Request}
use pseudo.Wrappers.Calls.{
  RealCall, Wrapper, return, base_fstatat, base_fstat, real_call, client_op, real_open, real_fopen,
  real_freopen, real_opendir, real_chdir, real_fchdir, real_dup, real_dup2, real_mkostemps,
  real_fchmod, real_close, ◌>>=◌, ◌>>◌, minus_one, at_fdcwd, at_symlink_nofollow, failed, on_path,
}

abbrev pub o_creat : ℕ
o_creat = 0o100

abbrev pub o_nonblock : ℕ
o_nonblock = 0o4000

abbrev o_nofollow : ℕ
o_nofollow = 0o400000

abbrev o_tmpfile : ℕ
o_tmpfile = 0o20200000

abbrev pub is_tmpfile : ℕ → Bool
is_tmpfile flags = bit_and flags o_tmpfile == o_tmpfile

abbrev at_flags : ℕ → ℕ
at_flags flags = if has flags o_nofollow then at_symlink_nofollow else 0

-- pseudo_client_op(OP_OPEN, access, fd, dirfd, path, buf)
abbrev pub opened : ℕ → ℤ → ℤ → Str → Option Stat → Request
opened access fd dirfd path buf = record {
  op = open_file;
  access = access;
  fd = fd;
  dirfd = dirfd;
  path = some path;
  buf = buf;
  extra = none;
  value = none;
}

-- pseudo_client_op(op, 0, fd, dirfd, 0, 0)
abbrev pub plain : Op → ℤ → ℤ → Request
plain op fd dirfd = record {
  op = op;
  access = 0;
  fd = fd;
  dirfd = dirfd;
  path = none;
  buf = none;
  extra = none;
  value = none;
}

-- A new file is made known, and its mode on disk is set, before it is said to be open.
abbrev pub report_new : Bool → ℤ → ℕ → Request → Wrapper → Wrapper
report_new true fd mode created rest = rest
report_new false fd mode created rest = do
  real_call (real_fchmod fd (fs_mode mode false))
  client_op created
  rest

abbrev pub openat_known : ℤ → Str → ℕ → ℕ → Bool → ℤ → Option Stat → Wrapper
openat_known dirfd path flags mode existed rc none = do
  client_op (opened (psa_of_flags flags) rc dirfd path none)
  return rc
openat_known dirfd path flags mode existed rc (some st) =
    let buf = some (record st { mode = db_mode st.mode mode }) in
    report_new existed rc mode (on_path creat dirfd path buf)
      (do client_op (opened (psa_of_flags flags) rc dirfd path buf); return rc)

-- A file without a name is not made known.
abbrev pub openat_done : ℤ → Str → ℕ → ℕ → Bool → ℤ → Wrapper
openat_done dirfd path flags mode existed rc =
    if is_tmpfile flags
    then (do real_call (real_fchmod rc (fs_mode mode false)); return rc)
    else base_fstatat dirfd path (at_flags flags) (openat_known dirfd path flags mode existed rc)

abbrev pub openat_call : ℤ → Str → ℕ → ℕ → Bool → Wrapper
openat_call dirfd path flags mode existed = do
  rc ← real_call (real_open dirfd path flags (fs_mode mode false))
  if failed rc then return rc else openat_done dirfd path flags mode existed rc

-- A file that may be a pipe is examined before it is opened.
abbrev pub openat_ready : ℤ → Str → ℕ → ℕ → Bool → Wrapper
openat_ready dirfd path flags mode existed =
    if not (has flags o_nonblock) && not (flags % 4 == 2)
    then base_fstatat dirfd path (at_flags flags) (λ _. openat_call dirfd path flags mode existed)
    else openat_call dirfd path flags mode existed

abbrev pub is_found : Option Stat → Bool
is_found none = false
is_found (some st) = true

unfoldable pub openat : ℕ → ℤ → Str → ℕ → ℕ → Wrapper
openat umask dirfd path flags mode0 =
    let mode = masked umask mode0 in
    if is_tmpfile flags
    then openat_ready dirfd path flags mode false
    else if has flags o_creat
    then base_fstatat dirfd path (at_flags flags)
        (λ st. openat_ready dirfd path flags mode (is_found st))
    else openat_ready dirfd path flags mode true

-- The int of pseudo_access_fopen as a bit pattern
abbrev pub access_of : Option ℕ → ℕ
access_of none = 2 ^ 32 - 1
access_of (some access) = access

abbrev pub fopen_known : ℕ → Str → Str → Bool → ℤ → Option Stat → Wrapper
fopen_known umask path mode existed fd none = do
  client_op (opened (access_of (access_fopen mode)) fd minus_one path none)
  return fd
fopen_known umask path mode existed fd (some st) =
    report_new existed fd (masked umask 0o666) (on_path creat minus_one path (some st))
      (do client_op (opened (access_of (access_fopen mode)) fd minus_one path (some st)); return fd)

-- fopen and freopen differ in the real call.
abbrev pub open_stream : RealCall → ℕ → Str → Str → Wrapper
open_stream call umask path mode = do
  before ← base_fstatat at_fdcwd path 0
  fd ← real_call call
  if failed fd then return fd else base_fstat fd (fopen_known umask path mode (is_found before) fd)

unfoldable pub fopen : ℕ → Str → Str → Wrapper
fopen umask path mode = open_stream (real_fopen path mode) umask path mode

unfoldable pub freopen : ℕ → Str → Str → Wrapper
freopen umask path mode = open_stream (real_freopen path mode) umask path mode

unfoldable pub opendir : Str → Wrapper
opendir path = do
  fd ← real_call (real_opendir path)
  if failed fd
      then return fd
      else (do st ← base_fstat fd; client_op (opened psa_read fd minus_one path st); return fd)

abbrev pub mkostemps_known : Str → ℤ → Option Stat → Wrapper
mkostemps_known made rc none = do
  client_op (opened (bit_or psa_read psa_write) rc minus_one made none)
  return rc
mkostemps_known made rc (some st) = do
  real_call (real_fchmod rc (fs_mode 0o600 false))
  client_op (on_path creat minus_one made (some st))
  client_op (opened (bit_or psa_read psa_write) rc minus_one made (some st))
  return rc

-- A null template gives 0; `none` is a template that cannot be resolved. `made` is what the real call
-- leaves in the resolved template.
unfoldable pub mkostemps : Option (Option Str) → Str → ℕ → ℕ → Wrapper
mkostemps none made suffixlen oflags = return (pos 0)
mkostemps (some none) made suffixlen oflags = return minus_one
mkostemps (some (some template)) made suffixlen oflags = do
  rc ← real_call (real_mkostemps template suffixlen oflags)
  if failed rc then return rc else base_fstat rc (mkostemps_known made rc)

unfoldable pub chdir : Option Str → Wrapper
chdir none = return minus_one
chdir (some path) = do
  rc ← real_call (real_chdir path)
  if failed rc
      then return rc
      else (do client_op (on_path Message.chdir minus_one path none); return rc)

unfoldable pub fchdir : ℤ → Wrapper
fchdir dirfd = do
  rc ← real_call (real_fchdir dirfd)
  if failed rc then return rc else (do client_op (plain Message.chdir minus_one dirfd); return rc)

unfoldable pub dup : ℤ → Wrapper
dup fd = do rc ← real_call (real_dup fd); client_op (plain Message.dup fd rc); return rc

-- The descriptor that is taken is closed first.
unfoldable pub dup2 : ℤ → ℤ → Wrapper
dup2 oldfd newfd = do
  client_op (plain Message.close newfd minus_one)
  rc ← real_call (real_dup2 oldfd newfd)
  client_op (plain Message.dup oldfd newfd)
  return rc

-- close; fclose and closedir, where a null pointer is refused.
unfoldable pub close : ℤ → Wrapper
close fd = do client_op (plain Message.close fd minus_one); real_call (real_close fd) return

unfoldable pub fclose : ℤ → Wrapper
unfolding close
fclose fd = if failed fd then return minus_one else close fd

-- Root may do everything but run a file that nobody may run.
abbrev pub may_access : ℕ → Option Stat → Wrapper
may_access mode none = return minus_one
may_access mode (some st) =
    if has mode 1 && not (has st.mode 0o111) then return minus_one else return (pos 0)

unfoldable pub faccessat2 : ℤ → Str → ℕ → ℕ → Wrapper
faccessat2 dirfd path mode flags =
    base_fstatat dirfd path (bit_and flags at_symlink_nofollow) (may_access mode)

unfoldable pub access : Str → ℕ → Wrapper
access path mode = base_fstatat at_fdcwd path 0 (may_access mode)

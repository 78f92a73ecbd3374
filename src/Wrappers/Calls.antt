-- ===== src/Wrappers/Calls.antt =====
-- What a wrapper of ports/unix/guts or ports/linux/guts does: it asks the file system for a file's
-- data, it makes a real system call, and it sends an operation by pseudo_client_op of
-- pseudo_client.c. The answers come from outside, so a wrapper is the tree of what it does for each
-- answer, and `rc` at its leaves is what it returns; -1 is failure. errno is left out.
-- PSEUDO_NO_REAL_AT_FUNCTIONS is not defined. A FILE or a DIR is named by its descriptor, and a null
-- pointer by -1.
use pseudo.Prelude.{ℕ, Bool, true, false, Option, none, some, Str, ℤ, negsuc, int_eq, if◌then◌else◌}
use pseudo.Client.Request.{Stat, Request}
use pseudo.Message.{Msg, Op, Res, result_none, succeed, fail, error, abort}

pub data RealCall : Type 0 where
  real_unlinkat : ℤ → Str → ℕ → RealCall
  real_rmdir : Str → RealCall
  real_rename : Str → Str → RealCall
  real_renameat : ℤ → Str → ℤ → Str → RealCall
  real_mkdirat real_openat real_mkfifoat : ℤ → Str → ℕ → RealCall
  real_linkat : ℤ → Str → ℤ → Str → ℕ → RealCall
  real_link : Str → Str → RealCall
  real_symlinkat : Str → ℤ → Str → RealCall
  real_fchmodat : ℤ → Str → ℕ → ℕ → RealCall
  real_fchmod : ℤ → ℕ → RealCall
  real_close : ℤ → RealCall
  real_open : ℤ → Str → ℕ → ℕ → RealCall
  real_fopen real_freopen : Str → Str → RealCall
  real_opendir real_chdir : Str → RealCall
  real_fchdir real_dup : ℤ → RealCall
  real_dup2 : ℤ → ℤ → RealCall
  real_mkostemps : Str → ℕ → ℕ → RealCall

-- A failed stat answers `none`. The last one is pseudo_client_linked_paths.
pub data Wrapper : Type 0 where
  return : ℤ → Wrapper
  base_fstatat : ℤ → Str → ℕ → (Option Stat → Wrapper) → Wrapper
  base_lstat : Str → (Option Stat → Wrapper) → Wrapper
  base_fstat : ℤ → (Option Stat → Wrapper) → Wrapper
  real_call : RealCall → (ℤ → Wrapper) → Wrapper
  client_op : Request → (Option Msg → Wrapper) → Wrapper
  linked_paths : Str → Str → Wrapper → Wrapper

infixl 5 ◌>>=◌ ◌>>◌
abbrev pub ◌>>=◌ : {A : Type 0} → ((A → Wrapper) → Wrapper) → (A → Wrapper) → Wrapper
m >>= k = m k

abbrev pub ◌>>◌ : {A : Type 0} → ((A → Wrapper) → Wrapper) → Wrapper → Wrapper
m >> k = m (λ _. k)

abbrev pub minus_one : ℤ
minus_one = negsuc 0

-- AT_FDCWD and AT_SYMLINK_NOFOLLOW of Linux
abbrev pub at_fdcwd : ℤ
at_fdcwd = negsuc 99

abbrev pub at_symlink_nofollow : ℕ
at_symlink_nofollow = 0x100

-- rc == -1
abbrev pub failed : ℤ → Bool
failed rc = int_eq rc minus_one

-- msg && msg->result == RESULT_SUCCEED
abbrev pub is_succeed : Res → Bool
is_succeed succeed = true
is_succeed result_none = false
is_succeed fail = false
is_succeed error = false
is_succeed abort = false

abbrev pub succeeded : Option Msg → Bool
succeeded none = false
succeeded (some m) = is_succeed m.result

-- msg && msg->result != RESULT_SUCCEED
abbrev pub refused : Option Msg → Bool
refused none = false
refused (some m) = if is_succeed m.result then false else true

-- The buffer after a call to stat: a failed one leaves it as it was.
abbrev pub filled : Stat → Option Stat → Stat
filled buf none = buf
filled buf (some st) = st

-- pseudo_client_op(op, 0, -1, dirfd, path, buf)
abbrev pub on_path : Op → ℤ → Str → Option Stat → Request
on_path op dirfd path buf = record {
  op = op;
  access = 0;
  fd = minus_one;
  dirfd = dirfd;
  path = some path;
  buf = buf;
  extra = none;
  value = none;
}

-- pseudo_client_op(op, 0, fd, -1, 0, &buf)
abbrev pub on_fd : Op → ℤ → Stat → Request
on_fd op fd buf = record {
  op = op;
  access = 0;
  fd = fd;
  dirfd = minus_one;
  path = none;
  buf = some buf;
  extra = none;
  value = none;
}

-- pseudo_client_op(op, ...) if `test` holds; its answer is not used.
abbrev pub op_if : Bool → Request → (Option Msg → Wrapper) → Wrapper
op_if true request k = client_op request k
op_if false request k = k none

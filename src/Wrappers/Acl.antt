-- ===== src/Wrappers/Acl.antt =====
-- shared_setxattr of ports/linux/xattr/pseudo_wrappers.c, with the reading of a POSIX ACL, on a machine
-- that stores the low byte first.
use pseudo.Prelude.{
  ℕ, ◌+◌, ◌-◌, ◌*◌, ◌/◌, ◌%◌, ◌^◌, Bool, true, false, not, ◌&&◌, ◌||◌, ◌==◌, ltb, [], ◌∷◌, ◌++◌,
  Option, none, some, Str, str_eq, is_prefix, length, ℤ, pos, if◌then◌else◌,
}
use Prim.Native.Nat.{bit_and, bit_or}
use pseudo.Message.{Msg, Op, Res, stat, fstat, set_xattr, create_xattr, replace_xattr}
use pseudo.Client.Request.{Stat, Request}
use pseudo.Wrappers.Calls.{
  Wrapper, return, base_fstatat, base_fstat, base_lstat, real_call, client_op, linked_paths,
  minus_one, at_fdcwd, at_symlink_nofollow, on_path, on_fd,
}
use pseudo.Wrappers.Change.{fchmodat, fchmod_fd, merged}

-- One wrapper after another, whose result is not used.
unfoldable pub then_do : Wrapper → Wrapper → Wrapper
then_do (return rc) rest = rest
then_do (base_fstatat dirfd path flags next) rest =
    base_fstatat dirfd path flags (λ st. then_do (next st) rest)
then_do (base_lstat path next) rest = base_lstat path (λ st. then_do (next st) rest)
then_do (base_fstat fd next) rest = base_fstat fd (λ st. then_do (next st) rest)
then_do (real_call call next) rest = real_call call (λ rc. then_do (next rc) rest)
then_do (client_op request next) rest = client_op request (λ m. then_do (next m) rest)
then_do (linked_paths old new next) rest = linked_paths old new (then_do next rest)

-- What posix_permissions returns: 0 with the mode and the number of entries beside it, or 1, or -1.
pub data Permissions : Type 0 where
  permissions : ℕ → ℕ → Permissions
  unknown_tag : Permissions
  unknown_version : Permissions

abbrev add_entry : ℕ → ℕ → ℕ → ℕ → Option (ℕ × ℕ)
add_entry tag perm mode extra =
    if tag == 0x01
    then some (bit_or mode (perm * 2 ^ 6), extra)
    else if tag == 0x04
    then some (bit_or mode (perm * 2 ^ 3), extra)
    else if tag == 0x20
    then some (bit_or mode perm, extra)
    else if tag == 0x02 || (tag == 0x08 || tag == 0x10)
    then some (mode, extra + 1)
    else none

-- Entries of eight bytes: a tag, the permissions and an id.
unfoldable pub read_entries : ℕ → ℕ → Str → Permissions
read_entries mode extra (t ∷ t' ∷ p ∷ p' ∷ a ∷ b ∷ c ∷ d ∷ entries) =
    elim (add_entry (t + 2 ^ 8 * t') (p + 2 ^ 8 * p') mode extra) [
      | none ↦ unknown_tag
      | some (m, e) ↦ read_entries m e entries
    ]
read_entries mode extra _ = permissions mode extra

unfoldable pub posix_permissions : Str → Permissions
unfolding read_entries
posix_permissions (a ∷ b ∷ c ∷ d ∷ entries) =
    if a + 2 ^ 8 * b + 2 ^ 16 * c + 2 ^ 24 * d == 2
    then read_entries 0 0 entries
    else unknown_version
posix_permissions _ = unknown_version

abbrev pub acl_prefix : Str
acl_prefix =
    b's' ∷ b'y' ∷ b's' ∷ b't' ∷ b'e' ∷ b'm' ∷ b'.' ∷ b'p' ∷ b'o' ∷ b's' ∷ b'i' ∷ b'x' ∷ b'_' ∷ b'a'
    ∷ b'c' ∷ b'l' ∷ b'_' ∷ []

abbrev pub acl_access : Str
acl_access = acl_prefix ++ (b'a' ∷ b'c' ∷ b'c' ∷ b'e' ∷ b's' ∷ b's' ∷ [])

abbrev pub pseudo_data : Str
pseudo_data =
    b'u' ∷ b's' ∷ b'e' ∷ b'r' ∷ b'.' ∷ b'p' ∷ b's' ∷ b'e' ∷ b'u' ∷ b'd' ∷ b'o' ∷ b'_' ∷ b'd' ∷ b'a'
    ∷ b't' ∷ b'a' ∷ []

-- Whether the value of a name of an ACL is not a header and whole entries, or a header alone.
abbrev pub is_corrupt : Str → Str → Bool
is_corrupt name value =
    is_prefix acl_prefix name && (ltb (length value) 4 || not ((length value - 4) % 8 == 0))

abbrev pub is_void : Str → Str → Bool
is_void name value = is_prefix acl_prefix name && (length value - 4) / 8 == 0

-- XATTR_CREATE and XATTR_REPLACE
abbrev pub operation : ℕ → Op
operation flags =
    if flags == 1 then create_xattr else if flags == 2 then replace_xattr else set_xattr

abbrev is_set_xattr : ℕ → Bool
is_set_xattr flags = not (flags == 1 || flags == 2)

-- Only RESULT_FAIL is a failure of the two other operations.
abbrev is_fail : Res → Bool
is_fail Res.fail = true
is_fail _ = false

abbrev pub answered : ℕ → Option Msg → ℤ
answered flags none = if is_set_xattr flags then pos 0 else minus_one
answered flags (some m) =
    if is_set_xattr flags then pos 0 else if is_fail m.result then minus_one else pos 0

abbrev pub store_attribute : Option Str → ℤ → Stat → Str → Str → ℕ → Wrapper
store_attribute path fd buf name value flags =
    if str_eq name pseudo_data
    then return minus_one
    else client_op
        (record {
          op = operation flags;
          access = 0;
          fd = fd;
          dirfd = minus_one;
          path = path;
          buf = some buf;
          extra = some name;
          value = some value;
        })
        (λ m. return (answered flags m))

-- wrap_chmod is wrap_fchmodat in the working directory.
abbrev pub change_mode : Option Str → ℤ → ℕ → Wrapper
change_mode none fd mode = fchmod_fd fd mode
change_mode (some path) fd mode = fchmodat at_fdcwd path mode 0

-- lstat64 and fstat64, which are the wrappers of ports/linux/guts, for a path that has been resolved and
-- is not ignored: the real call, and the server's entry over its answer
abbrev pub asked : Request → Stat → (Option Stat → Wrapper) → Wrapper
asked request buf next = client_op request (λ msg. next (some (merged buf msg)))

abbrev pub lstat_asked : Str → (Option Stat → Wrapper) → Option Stat → Wrapper
lstat_asked path next none = next none
lstat_asked path next (some buf) = asked (on_path stat at_fdcwd path (some buf)) buf next

abbrev pub lstat64 : Str → (Option Stat → Wrapper) → Wrapper
lstat64 path next = base_fstatat at_fdcwd path at_symlink_nofollow (lstat_asked path next)

abbrev pub fstat_asked : ℤ → (Option Stat → Wrapper) → Option Stat → Wrapper
fstat_asked fd next none = next none
fstat_asked fd next (some buf) = asked (on_fd fstat fd buf) buf next

abbrev pub fstat64 : ℤ → (Option Stat → Wrapper) → Wrapper
fstat64 fd next = base_fstat fd (fstat_asked fd next)

-- S_ISUID | S_ISGID | S_ISVTX of the mode; the -1 of a failure has every bit.
abbrev pub special_bits : Option Stat → ℕ
special_bits none = 2 ^ 32 - 1
special_bits (some buf) = bit_and buf.mode 0o7000

unfoldable pub get_special_bits : Option Str → ℤ → (ℕ → Wrapper) → Wrapper
get_special_bits none fd next = fstat64 fd (λ st. next (special_bits st))
get_special_bits (some path) fd next = lstat64 path (λ st. next (special_bits st))

abbrev pub acl_mode : ℕ → ℕ → Option Str → ℤ → Stat → Str → Str → ℕ → ℕ → Wrapper
acl_mode mode extra path fd buf name value flags special =
    then_do (change_mode path fd (bit_or mode special))
      (if extra == 0 then return (pos 0) else store_attribute path fd buf name value flags)

abbrev pub set_acl : Permissions → Option Str → ℤ → Stat → Str → Str → ℕ → Wrapper
unfolding get_special_bits
set_acl (permissions mode extra) path fd buf name value flags =
    get_special_bits path fd (acl_mode mode extra path fd buf name value flags)
set_acl unknown_tag path fd buf name value flags = store_attribute path fd buf name value flags
set_acl unknown_version path fd buf name value flags = return minus_one

abbrev pub set_known : Option Str → ℤ → Str → Str → ℕ → Option Stat → Wrapper
set_known path fd name value flags none = return minus_one
set_known path fd name value flags (some buf) =
    if is_corrupt name value
    then return minus_one
    else if is_void name value
    then return (pos 0)
    else if str_eq name acl_access
    then set_acl (posix_permissions value) path fd buf name value flags
    else store_attribute path fd buf name value flags

-- The value is as long as its size says.
unfoldable pub shared_setxattr : Option Str → ℤ → Str → Str → ℕ → Wrapper
shared_setxattr none fd name value flags = base_fstat fd (set_known none fd name value flags)
shared_setxattr (some path) fd name value flags =
    base_lstat path (set_known (some path) fd name value flags)

-- ===== src/Client/Base.antt =====
-- Relative paths, directory descriptors and the change of root: base_path of pseudo_client.c.
use pseudo.Prelude.{
  ℕ, Bool, true, not, ◌&&◌, ◌||◌, Option, none, some, [], ◌∷◌, Str, is_prefix, length, get_elem?,
  leb, ◌==◌, ℤ, pos, negsuc, if◌then◌else◌,
}
use pseudo.Paths.Fix.{Fixed, fix_path, is_absolute, is_byte}
use pseudo.Client.Descriptors.{Table, fd_path}

-- neither -1 nor AT_FDCWD
abbrev pub is_other_dir : ℤ → Bool
is_other_dir (pos fd) = true
is_other_dir (negsuc n) = not (n == 0) && not (n == 99)

abbrev pub at_end : Option ℕ → Bool
at_end none = true
at_end (some c) = c == 0

-- The base is the path of the new root or lies below it. `chroot` is empty if there is none.
unfoldable pub in_chroot : Str → Str → Bool
in_chroot chroot base =
    not (length chroot == 0)
    && leb (length chroot) (length base)
    && is_prefix chroot base
    && (at_end (get_elem? base (length chroot)) || is_byte b'/' (get_elem? base (length chroot)))

abbrev pub directory : ℤ → Table → Option Str
directory (pos fd) t = fd_path (pos fd) t
directory (negsuc n) t = none

-- `basepath` for a relative path
unfoldable pub relative_base : ℤ → Table → Option Str
relative_base dirfd t = if is_other_dir dirfd then directory dirfd t else t.cwd

abbrev pub with_minlen : Str → Option Str → Option (Str × ℕ)
with_minlen chroot none = none
with_minlen chroot (some base) = some (base, if in_chroot chroot base then length chroot else 0)

-- `basepath` and `minlen`, none if there is no base for a relative path
unfoldable pub base_of : Str → ℤ → Str → Table → Option (Str × ℕ)
base_of chroot dirfd path t =
    let relative = with_minlen chroot (relative_base dirfd t) in
    if is_absolute path then some (chroot, length chroot) else relative

abbrev pub result_of : Str → Fixed → Option Str
result_of path Fixed.unchanged = some path
result_of path Fixed.failed = none
result_of path (Fixed.fixed r) = some r

module _ (lstat : Str → Option ℕ) (readlink : ℕ → Str → Option Str) (path_max : ℕ) where
  abbrev pub resolve_from : Str → Bool → Option (Str × ℕ) → Option Str
  resolve_from path leave_last none = none
  resolve_from path leave_last (some (base, minlen)) =
      result_of path (fix_path lstat readlink path_max base path minlen (length base) leave_last)

  unfoldable pub base_path : Str → ℤ → Option Str → Bool → Table → Option Str
  base_path chroot dirfd none leave_last t = none
  base_path chroot dirfd (some []) leave_last t =
      if is_other_dir dirfd then fd_path dirfd t else some []
  base_path chroot dirfd (some (c ∷ path)) leave_last t =
      resolve_from (c ∷ path) leave_last (base_of chroot dirfd (c ∷ path) t)

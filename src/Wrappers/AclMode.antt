-- ===== src/Wrappers/AclMode.antt =====
-- The ACL that says no more than a mode does.
use pseudo.Prelude.{
  ℕ, ◌-◌, ◌^◌, ◌/◌, ◌%◌, ◌<◌, ◌≡◌, refl, ap, Bool, true, false, ◌&&◌, ◌==◌, [], ◌∷◌, ◌++◌, Option,
  none, some, Str, ℤ, pos, all_below, all_below-lt, arith, if◌then◌else◌, Bool-cases, inl, inr,
}
use Prim.Native.Nat.{bit_and, bit_or}
use mathlib.Core.Path.{fun_ext}
use pseudo.Message.{Msg, chmod, stat, merge_mode, is_dir, is_lnk}
use pseudo.Client.Request.{Stat}
use pseudo.Wrappers.Modes.{fs_mode}
use pseudo.Wrappers.Calls.{
  Wrapper, return, base_lstat, base_fstatat, real_call, client_op, real_fchmodat, minus_one,
  at_fdcwd, at_symlink_nofollow, on_path, succeeded,
}
use pseudo.Wrappers.Change.{fchmodat, fchmodat_known, merged}
use pseudo.Wrappers.Acl.{
  Permissions, permissions, unknown_tag, unknown_version, posix_permissions, acl_access, then_do,
  change_mode, special_bits, lstat_asked, get_special_bits, set_known, shared_setxattr,
}

abbrev entry_of : ℕ → ℕ → Str
entry_of tag perm = tag ∷ 0 ∷ perm ∷ 0 ∷ 255 ∷ 255 ∷ 255 ∷ 255 ∷ []

-- version 2 with the entries of the owner, the group and the others
abbrev pub acl_of : ℕ → Str
acl_of mode =
    2
    ∷ 0
    ∷ 0
    ∷ 0
    ∷ (entry_of 0x01 (mode / 64) ++ (entry_of 0x04 (mode / 8 % 8) ++ entry_of 0x20 (mode % 8)))

abbrev is_mode : ℕ → Permissions → Bool
is_mode m (permissions mode extra) = mode == m && extra == 0
is_mode m unknown_tag = false
is_mode m unknown_version = false

eq_of_is_mode : (m : ℕ) (p : Permissions) → is_mode m p ≡ true → p ≡ permissions m 0
eq_of_is_mode m (permissions mode extra) h = ground (arith, h)
eq_of_is_mode m unknown_tag h = cc
eq_of_is_mode m unknown_version h = cc

acl_table : all_below 512 (λ m. is_mode m (posix_permissions (acl_of m))) ≡ true
unfolding posix_permissions
acl_table = refl

posix_permissions-acl_of :
    (mode : ℕ) → mode < 512 → posix_permissions (acl_of mode) ≡ permissions mode 0
posix_permissions-acl_of mode h =
    eq_of_is_mode mode _
      (all_below-lt 512 (λ m. is_mode m (posix_permissions (acl_of m))) mode acl_table h)

-- The calls of a chmod of a path, and the 0 at their end, whatever they answer: the file's mode on disk
-- is set, and the server is told the new one, unless the path is a link or cannot be found.
abbrev pub chmod_found : Str → ℕ → Option Stat → Wrapper
chmod_found path mode none = return (pos 0)
chmod_found path mode (some st) =
    if is_lnk st.mode
    then return (pos 0)
    else real_call (real_fchmodat at_fdcwd path (fs_mode mode (is_dir st.mode)) 0) (λ _.
      client_op (on_path chmod at_fdcwd path (some (record st { mode = merge_mode mode st.mode })))
        (λ _. return (pos 0)))

abbrev pub chmod_calls : Str → ℕ → Wrapper
chmod_calls path mode = base_fstatat at_fdcwd path 0 (chmod_found path mode)

-- The same after the special bits are asked for: the file's own, or the server's where it has an entry; all
-- bits if the file cannot be found any more.
abbrev pub chmod_asked : Str → ℕ → Option Stat → Wrapper
chmod_asked path mode none = chmod_calls path (bit_or mode (2 ^ 32 - 1))
chmod_asked path mode (some buf) = client_op (on_path stat at_fdcwd path (some buf)) (λ msg.
    chmod_calls path (
      bit_or mode (
        bit_and
          (elim msg [
            | none ↦ buf.mode
            | some m ↦ (if succeeded (some m) then m.mode else buf.mode)
          ])
          0o7000)))

abbrev pub chmod_known : Str → ℕ → Option Stat → Wrapper
chmod_known path mode none = return minus_one
chmod_known path mode (some buf) =
    base_fstatat at_fdcwd path at_symlink_nofollow (chmod_asked path mode)

found_lem :
    (path : Str) (mode : ℕ)
    → then_do (change_mode (some path) minus_one mode) (return (pos 0)) ≡ chmod_calls path mode
unfolding fchmodat then_do
found_lem path mode = ap (base_fstatat at_fdcwd path 0) (fun_ext found)
  where
    found :
        (st : Option Stat)
        → then_do (fchmodat_known at_fdcwd path mode 0 st) (return (pos 0))
          ≡ chmod_found path mode st
    found none = refl
    found (some st) = elim (Bool-cases (is_lnk st.mode)) [ inl e ↦ rw e refl | inr e ↦ rw e refl ]

answer_lem :
    (path : Str) (mode : ℕ) (buf : Stat) (msg : Option Msg)
    → then_do
        (change_mode (some path) minus_one (bit_or mode (special_bits (some (merged buf msg)))))
        (return (pos 0))
      ≡ chmod_calls path (
          bit_or mode (
            bit_and
              (elim msg [
                | none ↦ buf.mode
                | some m ↦ (if succeeded (some m) then m.mode else buf.mode)
              ])
              0o7000))
answer_lem path mode buf none = found_lem path (bit_or mode (bit_and buf.mode 0o7000))
answer_lem path mode buf (some m) = elim (Bool-cases (succeeded (some m))) [
  | inl e ↦ rw e (found_lem path (bit_or mode (bit_and m.mode 0o7000)))
  | inr e ↦ rw e (found_lem path (bit_or mode (bit_and buf.mode 0o7000)))
]

asked_lem :
    (path : Str) (mode : ℕ) (st : Option Stat)
    → lstat_asked path
        (λ s.
          then_do
            (change_mode (some path) minus_one (bit_or mode (special_bits s)))
            (return (pos 0)))
        st
      ≡ chmod_asked path mode st
asked_lem path mode none = found_lem path (bit_or mode (2 ^ 32 - 1))
asked_lem path mode (some buf) =
    ap (client_op (on_path stat at_fdcwd path (some buf))) (fun_ext (answer_lem path mode buf))

known_lem :
    (fd : ℤ) (path : Str) (mode flags : ℕ) (st : Option Stat)
    → mode < 512
    → set_known (some path) fd acl_access (acl_of mode) flags st ≡ chmod_known path mode st
unfolding get_special_bits
known_lem fd path mode flags none h = refl
known_lem fd path mode flags (some buf) h =
    rw (posix_permissions-acl_of mode h)
      (ap (base_fstatat at_fdcwd path at_symlink_nofollow) (fun_ext (asked_lem path mode)))

-- An access ACL with the entries of the owner, the group and the others alone, for each of the 512
-- permissions, is read as that mode with no entry beside it. Setting it as an attribute of a path, with
-- any flags, asks for the file's special bits, of the server's entry if there is one, and then
-- makes the calls of a chmod to the mode with those bits; no attribute is stored.
pub shared_setxattr-acl_of :
    (fd : ℤ) (path : Str) (mode flags : ℕ)
    → mode < 512
    → (posix_permissions (acl_of mode) ≡ permissions mode 0)
      × (shared_setxattr (some path) fd acl_access (acl_of mode) flags
          ≡ base_lstat path (chmod_known path mode))
unfolding shared_setxattr
shared_setxattr-acl_of fd path mode flags h = (
  posix_permissions-acl_of mode h,
  ap (base_lstat path) (fun_ext (λ st. known_lem fd path mode flags st h)),
)

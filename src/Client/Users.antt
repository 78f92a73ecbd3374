-- ===== src/Client/Users.antt =====
-- The directories with the user files: build_passwd_paths of pseudo_client.c and pseudo_etc_file of
-- pseudo_util.c, as they are on Linux. `try_open` gives a descriptor or a negative number.
use pseudo.Prelude.{
  ℕ, ◌-◌, ◌≡◌, refl, false, Option, none, some, List, [], ◌∷◌, ◌++◌, Str, split, take, append-nil,
  ◌==◌, ℤ, pos, negsuc,
}

abbrev at_most_one : Option Str → List Str
at_most_one none = []
at_most_one (some s) = s ∷ []

abbrev pub parts : Option Str → List Str
parts none = []
parts (some s) = split b':' s

-- passwd_paths, from pseudo_chroot, pseudo_passwd and PSEUDO_PASSWD_FALLBACK
unfoldable pub build_passwd_paths : Option Str → Option Str → Option Str → List Str
build_passwd_paths chroot passwd fallback =
    at_most_one chroot ++ (parts passwd ++ at_most_one fallback)

abbrev first : List Str → Str
first [] = []
first (s ∷ ss) = s

-- pseudo_passwd afterwards: its first separator has become a NUL.
unfoldable pub cut_passwd : Option Str → Option Str
cut_passwd none = none
cut_passwd (some s) = some (first (split b':' s))

-- Without directories, and after a failure in each, it is -1.
unfoldable pub etc_file : (Str → ℤ) → ℕ → Str → List Str → ℤ
etc_file try_open path_max file [] = negsuc 0
etc_file try_open path_max file (dir ∷ dirs) =
    let name = take (path_max - 1) (dir ++ (b'/' ∷ b'e' ∷ b't' ∷ b'c' ∷ b'/' ∷ file)) in
    let rest = etc_file try_open path_max file dirs in
    elim (try_open name) [ pos fd ↦ pos fd | negsuc n ↦ rest ]

-- No byte is a separator.
abbrev pub IsPart : Str → Type 0
IsPart [] = Unit
IsPart (c ∷ s) = ((c == b':') ≡ false) × IsPart s

pub split-part : (s rest : Str) → IsPart s → split b':' (s ++ (b':' ∷ rest)) ≡ s ∷ split b':' rest
split-part [] rest h = refl
split-part (c ∷ s) rest h = rw (h.0, split-part s rest h.1) refl

pub split_part : (s : Str) → IsPart s → split b':' s ≡ s ∷ []
split_part [] h = refl
split_part (c ∷ s) h = rw (h.0, split_part s h.1) refl

-- The first time, every directory of PSEUDO_PASSWD is searched; when the paths are built again for another root, only the first of them is left.
pub build_passwd_paths-again :
    (root fallback : Option Str) (s rest : Str)
    → IsPart s
    → let passwd = some (s ++ (b':' ∷ rest)) in
      (build_passwd_paths none passwd none ≡ s ∷ split b':' rest)
      × (build_passwd_paths root (cut_passwd passwd) fallback
          ≡ build_passwd_paths root (some s) fallback)
      × (build_passwd_paths none (cut_passwd passwd) none ≡ s ∷ [])
unfolding build_passwd_paths cut_passwd
build_passwd_paths-again root fallback s rest h = (
  rw append-nil (split-part s rest h),
  rw (split-part s rest h) refl,
  rw (split-part s rest h) (rw append-nil (split_part s h)),
)

-- ===== src/Client/Ignored.antt =====
-- pseudo_client_ignore_path_chroot of pseudo_client.c: the paths below PSEUDO_IGNORE_PATHS.
use pseudo.Prelude.{
  Bool, true, false, not, ◌&&◌, ◌||◌, Option, none, some, List, [], ◌∷◌, Str, is_prefix, ◌==◌,
  if◌then◌else◌,
}

-- The parts of the list between its commas.
abbrev pub split_commas : Str → List Str
split_commas [] = [] ∷ []
split_commas (c ∷ cs) = elim (split_commas cs) [
  | [] ↦ (c ∷ []) ∷ []
  | word ∷ rest ↦ if c == b',' then [] ∷ word ∷ rest else (c ∷ word) ∷ rest
]

abbrev pub is_empty : Str → Bool
is_empty [] = true
is_empty (c ∷ cs) = false

-- *p && !strncmp (path, p, strlen (p))
abbrev pub ignores_one : Str → List Str → Bool
ignores_one path [] = false
ignores_one path (p ∷ ps) = (not (is_empty p) && is_prefix p path) || ignores_one path ps

-- `env` is the value of PSEUDO_IGNORE_PATHS, and `chroot` pseudo_chroot, the empty string where there is
-- none.
unfoldable pub ignore_path_chroot : Option Str → Str → Option Str → Bool → Bool
ignore_path_chroot env chroot none ignore_chroot = false
ignore_path_chroot none chroot (some path) ignore_chroot = false
ignore_path_chroot (some list) chroot (some path) ignore_chroot =
    if ignore_chroot && (not (is_empty chroot) && is_prefix chroot path)
    then false
    else ignores_one path (split_commas list)

-- ===== src/Tests/Resolving.antt =====
-- Runs of pseudo_fix_path below the root /j, with a link /j/l that points to /../../e.
use pseudo.Prelude.{
  split, ℕ, ◌+◌, ◌≤◌, ◌≡◌, refl, Option, some, [], ◌∷◌, Str, str_eq, length, false, if◌then◌else◌,
  arith,
}
use pseudo.Paths.Elements.{elements, inside}
use pseudo.Paths.Fix.{
  Fixed, fix_path, walk_elements, walk_link, append_element, go_up, go_down, follow, expand,
  previous_slash, start_walk, finish, without_slashes,
}
use pseudo.Paths.Contained.{Below, fix_path-Below, fix_path-fits}
use pseudo.Paths.Dots.{render}
use pseudo.Paths.Names.{resolve_names, ends_in_slash}
use pseudo.Paths.Directories.{closed, fix_path-resolve}

abbrev jail : Str
jail = b'/' ∷ b'j' ∷ []

abbrev link_path : Str
link_path = b'/' ∷ b'j' ∷ b'/' ∷ b'l' ∷ []

abbrev target : Str
target = b'/' ∷ b'.' ∷ b'.' ∷ b'/' ∷ b'.' ∷ b'.' ∷ b'/' ∷ b'e' ∷ []

abbrev all_dirs : Str → Option ℕ
all_dirs p = some 0o40755

abbrev one_link : Str → Option ℕ
one_link p = if str_eq p link_path then some 0o120777 else some 0o40755

abbrev to_target : ℕ → Str → Option Str
to_target n p = some target

-- l/x
abbrev through_link : Str
through_link = b'l' ∷ b'/' ∷ b'x' ∷ []

-- x/./..//../y/
abbrev dots : Str
dots = b'x' ∷ b'/' ∷ b'.' ∷ b'/' ∷ b'.' ∷ b'.' ∷ b'/' ∷ b'/' ∷ b'.' ∷ b'.' ∷ b'/' ∷ b'y' ∷ b'/' ∷ []

-- /j/e/x
abbrev resolved : Str
resolved = b'/' ∷ b'j' ∷ b'/' ∷ b'e' ∷ b'/' ∷ b'x' ∷ []

fix_path-through_link :
    fix_path one_link to_target 4096 jail through_link 2 2 false ≡ Fixed.fixed resolved
unfolding fix_path walk_elements walk_link append_element go_up go_down follow expand previous_slash
    start_walk finish without_slashes elements inside
fix_path-through_link = refl

fix_path-Below_example : Below 2 jail resolved
fix_path-Below_example =
    fix_path-Below one_link to_target 4096 jail through_link 2 2 false resolved (omega arith)
      (omega arith) fix_path-through_link

fix_path-fits_example : length resolved + 1 ≤ 4096
fix_path-fits_example =
    fix_path-fits one_link to_target 4096 jail through_link 2 2 false resolved (λ h. cc)
      fix_path-through_link

fix_path-resolve_example :
    fix_path all_dirs to_target 4096 link_path dots 2 4 false
    ≡ Fixed.fixed (
        closed 2
          (ends_in_slash dots)
          (render jail (resolve_names ((b'l' ∷ []) ∷ []) (split b'/' dots))))
fix_path-resolve_example =
    fix_path-resolve all_dirs to_target 4096 jail ((b'l' ∷ []) ∷ []) link_path dots 2 4 false
      (λ p. refl) (((λ h. ground arith), tt), tt) refl refl (omega arith)

-- Behind /j/l, the path x/./..//../y/ is /j/y/.
fix_path-dots :
    fix_path all_dirs to_target 4096 link_path dots 2 4 false
    ≡ Fixed.fixed (b'/' ∷ b'j' ∷ b'/' ∷ b'y' ∷ b'/' ∷ [])
unfolding fix_path walk_elements walk_link append_element go_up go_down follow expand previous_slash
    start_walk finish without_slashes elements inside
fix_path-dots = refl

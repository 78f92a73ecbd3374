-- ===== src/Paths/Directories.antt =====
-- pseudo_fix_path where every path is a directory's, against a stack of names.
use pseudo.Prelude.{
  ap₂, ◌∙◌, split, ℕ, ◌+◌, ◌-◌, ◌≤◌, ◌<◌, ◌≡◌, ◌≢◌, refl, Bool, true, false, not, ◌&&◌, ◌||◌,
  Option, some, List, [], ◌∷◌, ◌++◌, Str, length, ltb, leb, ◌==◌, ne_of_==, if◌then◌else◌, arith,
  Bool-cases, inl, inr, All,
}
use pseudo.Message.{is_dir, s_ifdir}
use pseudo.Paths.Elements.{Element, elements, inside, prepend, is_empty}
use pseudo.Paths.Fix.{
  Fixed, mode_of, walk_elements, walk_link, start_walk, start_text, fix_path, finish, root_length,
  max_link_recursion, without_slashes, is_absolute,
}
use pseudo.Paths.Contained.{length-take_le_self}
use pseudo.Paths.Names.{resolve_names, ends_in_slash, resolve-elements, without_slashes-ends}
use pseudo.Paths.Dots.{NoSlash, render, enter, resolve, cost, length-enter, walk_elements-render}

abbrev pub Names : List Element → Type 0
Names = All (λ (e : Element). NoSlash e.text)

prepend-Names : (c : ℕ) (es : List Element) → c ≢ b'/' → Names es → Names (prepend c es)
prepend-Names c [] ne h = tt
prepend-Names c (e ∷ es) ne h = ((ne, h.0), h.1)

-- The elements of a path hold no slash.
inside-Names : (limit : ℕ) (path : Str) → Names (inside limit path)
unfolding inside
inside-Names limit [] = (tt, tt)
inside-Names limit (c ∷ r) = elim (Bool-cases (c == b'/')) [
  | inl e ↦ elim (Bool-cases ((limit - 1 == 0) || is_empty r)) [
    | inl f ↦ rw (e, f) (tt, tt)
    | inr f ↦ rw (e, f) (tt, inside-Names (limit - 1) r)
  ]
  | inr e ↦ rw e (prepend-Names c _ (ne_of_== c b'/' e) (inside-Names (limit - 1) r))
]

elements-Names : (limit : ℕ) (path : Str) → Names (elements limit path)
unfolding elements
elements-Names limit path = elim (Bool-cases ((limit == 0) || is_empty path)) [
  | inl e ↦ rw e tt
  | inr e ↦ rw e (inside-Names limit path)
]

cost-prepend : (c : ℕ) (es : List Element) → cost (prepend c es) ≤ 1 + cost es
cost-prepend c [] = omega arith
cost-prepend c (e ∷ es) = omega arith

cost-inside : (limit : ℕ) (path : Str) → cost (inside limit path) ≤ length path + 1
unfolding inside
cost-inside limit [] = omega arith
cost-inside limit (c ∷ r) = elim (Bool-cases (c == b'/')) [
  | inl e ↦ elim (Bool-cases ((limit - 1 == 0) || is_empty r)) [
    | inl f ↦ rw (e, f) (omega arith)
    | inr f ↦ rw (e, f) (omega (arith, cost-inside (limit - 1) r))
  ]
  | inr e ↦ rw e (omega (arith, cost-prepend c (inside (limit - 1) r), cost-inside (limit - 1) r))
]

cost-elements : (limit : ℕ) (path : Str) → cost (elements limit path) ≤ length path + 1
unfolding elements
cost-elements limit path = elim (Bool-cases ((limit == 0) || is_empty path)) [
  | inl e ↦ rw e (omega arith)
  | inr e ↦ rw e (cost-inside limit path)
]

length-resolve :
    (front : Str) (stack : List Str) (es : List Element)
    → length (render front (resolve stack es)) ≤ length (render front stack) + cost es
length-resolve front stack [] = omega arith
length-resolve front stack (e ∷ es) =
    omega (arith, length-resolve front (enter stack e.text) es, length-enter front stack e.text)

length-start_text :
    (base path : Str) (rootlen baselen : ℕ)
    → length (start_text base path rootlen baselen) ≤ root_length baselen
length-start_text base path rootlen baselen =
    elim (Bool-cases (
      not (root_length baselen == 0)
      && (not (is_absolute path) || not (root_length rootlen == 0)))) [
        | inl e ↦ rw e (length-take_le_self (root_length baselen) base)
        | inr e ↦ rw e (omega arith)
      ]

-- A slash at the end of a path that is empty or had one.
abbrev pub closed : ℕ → Bool → Str → Str
closed root slash t = if (length t == root) || slash then t ++ b'/' ∷ [] else t

finish-closed :
    (path_max root : ℕ) (slash : Bool) (t : Str) (mode : ℕ)
    → length t < path_max
    → finish path_max root slash (some (record { text = t; mode = mode }))
      ≡ Fixed.fixed (closed root slash t)
unfolding finish
finish-closed path_max root slash t mode h = elim (Bool-cases ((length t == root) || slash)) [
  | inl e ↦ rw e (ground arith)
  | inr e ↦ rw e
]

start_mode-dir :
    (lstat : Str → Option ℕ) (b : Bool) (t : Str)
    → ((p : Str) → is_dir (mode_of (lstat p)) ≡ true)
    → is_dir (if b then mode_of (lstat t) else s_ifdir) ≡ true
start_mode-dir lstat true t dirs = dirs t
start_mode-dir lstat false t dirs = refl

lt_of_le : (a b c : ℕ) → a + b + 3 ≤ c → leb c (b + a) ≡ false
lt_of_le a b c h = ground arith

finish-walk :
    (lstat : Str → Option ℕ) (readlink : ℕ → Str → Option Str) (path_max : ℕ) (front : Str)
    (stack : List Str) (root : ℕ) (text : Str) (slash leave : Bool) (es : List Element)
    → ((p : Str) → is_dir (mode_of (lstat p)) ≡ true)
    → All NoSlash stack
    → root ≡ length front
    → text ≡ render front stack
    → Names es
    → length text + cost es + 2 ≤ path_max
    → finish path_max root slash (
        walk_elements lstat readlink path_max root
          (walk_link lstat readlink path_max root max_link_recursion)
          leave
          es
          (start_walk lstat readlink path_max root text))
      ≡ Fixed.fixed (closed (length front) slash (render front (resolve stack es)))
unfolding start_walk
finish-walk lstat readlink path_max front stack root text slash leave es dirs free r s names fits =
    let (mode, e) =
      walk_elements-render lstat readlink path_max front dirs
        (walk_link lstat readlink path_max (length front) max_link_recursion) leave es stack
        (if ltb (length front) (length (render front stack))
          then mode_of (lstat (render front stack))
          else s_ifdir)
        (start_mode-dir lstat _ (render front stack) dirs) free names (rw s at fits) in
    rw (r, s, e)
      (finish-closed path_max (length front) slash (render front (resolve stack es)) mode
        (omega (arith, length-resolve front stack es, rw s at fits)))

fix_path-elements :
    (lstat : Str → Option ℕ) (readlink : ℕ → Str → Option Str) (path_max : ℕ) (front : Str)
    (stack : List Str) (base path : Str) (rootlen baselen : ℕ) (leave_last : Bool)
    → ((p : Str) → is_dir (mode_of (lstat p)) ≡ true)
    → All NoSlash stack
    → root_length rootlen ≡ length front
    → start_text base path rootlen baselen ≡ render front stack
    → root_length baselen + length path + 3 ≤ path_max
    → let pathlen = without_slashes path (length path) in
      fix_path lstat readlink path_max base path rootlen baselen leave_last
      ≡ Fixed.fixed (
          closed
            (length front)
            (ltb pathlen (length path))
            (render front (resolve stack (elements pathlen path))))
unfolding fix_path start_walk
fix_path-elements lstat readlink path_max front stack base path rootlen baselen leave_last dirs free
      r s fits =
    rw (lt_of_le (root_length baselen) (length path) path_max fits) (
      finish-walk lstat readlink path_max front stack (root_length rootlen)
        (start_text base path rootlen baselen) _ leave_last
        (elements (without_slashes path (length path)) path) dirs free r s (elements-Names _ path)
        (omega (
          arith,
          length-start_text base path rootlen baselen,
          cost-elements (without_slashes path (length path)) path,
        )))

-- If every path is that of a directory and the path leaves three bytes of the buffer behind the
-- base, where the starting text is a front as long as the root and a stack of names without
-- slashes, the result is the front and the names that the stack is left with after
-- the parts of the path between its slashes, where "." and an empty part do nothing, ".." takes the last
-- name off and any other part is put on, with a slash at the end if the path had one or no
-- name is left.
pub fix_path-resolve :
    (lstat : Str → Option ℕ) (readlink : ℕ → Str → Option Str) (path_max : ℕ) (front : Str)
    (stack : List Str) (base path : Str) (rootlen baselen : ℕ) (leave_last : Bool)
    → ((p : Str) → is_dir (mode_of (lstat p)) ≡ true)
    → All NoSlash stack
    → root_length rootlen ≡ length front
    → start_text base path rootlen baselen ≡ render front stack
    → root_length baselen + length path + 3 ≤ path_max
    → fix_path lstat readlink path_max base path rootlen baselen leave_last
      ≡ Fixed.fixed (
          closed
            (length front)
            (ends_in_slash path)
            (render front (resolve_names stack (split b'/' path))))
fix_path-resolve lstat readlink path_max front stack base path rootlen baselen leave_last dirs free
      r s fits =
    fix_path-elements lstat readlink path_max front stack base path rootlen baselen leave_last dirs
      free r s fits
    ∙ ap₂ (λ slash names. Fixed.fixed (closed (length front) slash (render front names)))
        (without_slashes-ends path) (resolve-elements stack path)

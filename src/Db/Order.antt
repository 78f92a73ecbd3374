-- ===== src/Db/Order.antt =====
-- The range of paths of pdb_unlink_contents and pdb_rename_file,
-- `path > (? || '/') AND path < (? || '0')`, under SQLite's byte-wise order of texts.
use pseudo.Prelude.{
  ℕ, ◌≡◌, refl, Bool, true, false, ◌&&◌, [], ◌∷◌, ◌++◌, Str, ltb, ◌==◌, if◌then◌else◌, arith,
}

-- a < b in the order of memcmp, a shorter text before its extensions
abbrev pub str_lt : Str → Str → Bool
str_lt [] [] = false
str_lt [] (y ∷ ys) = true
str_lt (x ∷ xs) [] = false
str_lt (x ∷ xs) (y ∷ ys) = let rest = str_lt xs ys in if x == y then rest else ltb x y

-- path > (dir || '/') AND path < (dir || '0')
unfoldable pub in_subtree : Str → Str → Bool
in_subtree dir path = str_lt (dir ++ b'/' ∷ []) path && str_lt path (dir ++ b'0' ∷ [])

-- path is dir, a slash and at least one byte more
unfoldable pub is_below : Str → Str → Bool
is_below [] [] = false
is_below [] (c ∷ []) = false
is_below [] (c ∷ d ∷ r) = c == b'/'
is_below (x ∷ dir) [] = false
is_below (x ∷ dir) (y ∷ path) = (x == y) && is_below dir path

-- The two comparisons of the SQL statements select exactly the paths below the directory.
pub in_subtree-is_below : (dir path : Str) → in_subtree dir path ≡ is_below dir path
unfolding in_subtree is_below
in_subtree-is_below [] [] = refl
in_subtree-is_below [] (c ∷ []) = ground arith
in_subtree-is_below [] (c ∷ d ∷ r) = ground arith
in_subtree-is_below (x ∷ dir) [] = refl
in_subtree-is_below (x ∷ dir) (y ∷ path) = ground (arith, in_subtree-is_below dir path)

-- A path below a directory is the directory, a slash and a rest that is not empty.
pub is_below-append : (dir : Str) (c : ℕ) (r : Str) → is_below dir (dir ++ b'/' ∷ c ∷ r) ≡ true
unfolding is_below
is_below-append [] c r = refl
is_below-append (x ∷ dir) c r = ground (arith, is_below-append dir c r)

pub append_of_is_below :
    (dir path : Str) → is_below dir path ≡ true → (c : ℕ) × (r : Str) × (path ≡ dir ++ b'/' ∷ c ∷ r)
unfolding is_below
append_of_is_below [] [] h = cc
append_of_is_below [] (c ∷ []) h = cc
append_of_is_below [] (c ∷ d ∷ r) h = (d, r, ground arith)
append_of_is_below (x ∷ dir) [] h = cc
append_of_is_below (x ∷ dir) (y ∷ path) h =
    let (c, r, e) = append_of_is_below dir path (ground arith) in (c, r, ground (arith, e))

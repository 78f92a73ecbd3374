-- ===== src/Paths/Elements.antt =====
-- How pseudo_append_elements (pseudo_util.c) cuts a path into its elements.
use pseudo.Prelude.{ℕ, ◌-◌, Bool, true, false, ◌||◌, List, [], ◌∷◌, Str, ◌==◌, if◌then◌else◌}

-- An element, and whether no slash follows it.
pub record Element : Type 0 where
  pub text : Str
  pub last : Bool

abbrev pub prepend : ℕ → List Element → List Element
prepend c [] = []
prepend c (e ∷ es) = record e { text = c ∷ e.text } ∷ es

abbrev pub is_empty : Str → Bool
is_empty [] = true
is_empty (c ∷ r) = false

-- The loop from inside an element: `limit` bytes are left of `elen`. strchr looks for the slash in the
-- whole string, so an element ends behind the limit, but none starts there.
unfoldable pub inside : ℕ → Str → List Element
inside limit [] = record { text = []; last = true } ∷ []
inside limit (c ∷ r) =
    let more = inside (limit - 1) r in
    if c == b'/'
    then record { text = []; last = false } ∷ (if (limit - 1 == 0) || is_empty r then [] else more)
    else prepend c more

-- `while (path < (start + elen) && *path)`
unfoldable pub elements : ℕ → Str → List Element
elements limit path = if (limit == 0) || is_empty path then [] else inside limit path

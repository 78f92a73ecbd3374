-- ===== src/Paths/Inside.antt =====
-- pseudo_fix_path against its root: the result is the root itself or goes on behind it with a slash.
use pseudo.Prelude.{
  ℕ, zero, suc, ◌+◌, ◌≤◌, ◌≡◌, ◌⊎◌, inr, refl, Bool, true, false, Option, none, some, [], ◌∷◌, ◌++◌,
  Str, length, take, get_elem?, if◌then◌else◌, arith,
}
use pseudo.Paths.Fix.{Fixed, fix_path, previous_slash, root_length, is_absolute}
use pseudo.Paths.Walks.{Steps}
use pseudo.Paths.Contained.{
  Below, Below-Steps, Below-start, fix_path-cases, result_has, root_length-le,
}

-- The byte behind the root: none, or the NUL or the slash that ends a name.
abbrev pub AtEdge : Option ℕ → Type 0
AtEdge none = Unit
AtEdge (some c) = (c ≡ 0) ⊎ (c ≡ b'/')

-- A path that is the root's, whose text is `front`, or below it
abbrev pub Inside : ℕ → Str → Str → Type 0
Inside root front t = Below root front t × AtEdge (get_elem? t root)

take-AtEdge : (n p : ℕ) (t : Str) → AtEdge (get_elem? t n) → AtEdge (get_elem? (take p t) n)
take-AtEdge n zero t h = tt
take-AtEdge n (suc p) [] h = tt
take-AtEdge zero (suc p) (c ∷ t) h = h
take-AtEdge (suc n) (suc p) (c ∷ t) h = take-AtEdge n p t h

append-AtEdge :
    (n : ℕ) (t e : Str)
    → n ≤ length t
    → AtEdge (get_elem? t n)
    → AtEdge (get_elem? (t ++ b'/' ∷ e) n)
append-AtEdge zero [] e le h = inr refl
append-AtEdge (suc n) [] e le h = absurd (omega arith)
append-AtEdge zero (c ∷ t) e le h = h
append-AtEdge (suc n) (c ∷ t) e le h = append-AtEdge n t e (omega arith) h

Inside-Steps : (path_max root : ℕ) (front : Str) → Steps (Inside root front) path_max root
Inside-Steps path_max root front =
    let below = Below-Steps path_max root front in
    record {
      up = λ t h above.
          (below.up t h.0 above, take-AtEdge root (previous_slash root t (length t)) t h.1);
      down = λ t e h fits. (below.down t e h.0 fits, append-AtEdge root t e h.0.0 h.1);
      top = λ t h. (below.top t h.0, take-AtEdge root root t h.1);
    }

start-AtEdge :
    (root from : ℕ) (b : Bool) (base : Str)
    → AtEdge (get_elem? base root)
    → AtEdge (get_elem? (if b then take from base else []) root)
start-AtEdge root from true base h = take-AtEdge root from base h
start-AtEdge root from false base h = tt

module _ (lstat : Str → Option ℕ) (readlink : ℕ → Str → Option Str) (path_max : ℕ) (base path : Str)
    (rootlen baselen : ℕ) (leave_last : Bool) (r : Str) where
  pub fix_path-Inside :
      root_length rootlen ≤ root_length baselen
      → baselen ≤ length base
      → AtEdge (get_elem? base (root_length rootlen))
      → fix_path lstat readlink path_max base path rootlen baselen leave_last ≡ Fixed.fixed r
      → Inside (root_length rootlen) (take (root_length rootlen) base) r
  fix_path-Inside inner fits edge e =
      result_has (Inside (root_length rootlen) (take (root_length rootlen) base)) _ r
        (fix_path-cases lstat readlink path_max base path rootlen baselen leave_last r
          (Inside (root_length rootlen) (take (root_length rootlen) base))
          (Inside-Steps path_max (root_length rootlen) _)
          (λ small. (
            Below-start (root_length rootlen) (root_length baselen) (is_absolute path) base inner
                (omega (arith, root_length-le baselen)),
            start-AtEdge (root_length rootlen) (root_length baselen) _ base edge,
          ))
          e)
        (λ t h. h)
        (λ t h. (Inside-Steps (length t + 3) (root_length rootlen) _).down t [] h (omega arith))

-- ===== src/Paths/Names.antt =====
-- The elements of a path against a plain splitting of it: the names between its slashes, where the names
-- that only slashes at the end leave are empty and change nothing.
use pseudo.Prelude.{
  ℕ, zero, suc, ◌-◌, ◌≤◌, ◌≡◌, refl, sym, ap, ◌∙◌, Bool, true, false, ◌||◌, List, [], ◌∷◌, All, Str,
  split, extend, length, ltb, ◌==◌, get_elem?, arith, Bool-cases, inl, inr,
}
use mathlib.Core.Path.{subst}
use pseudo.Paths.Elements.{Element, elements, inside, prepend, is_empty}
use pseudo.Paths.Fix.{is_byte, without_slashes}
use pseudo.Paths.Dots.{enter, resolve}

abbrev pub resolve_names : List Str → List Str → List Str
resolve_names stack [] = stack
resolve_names stack (name ∷ names) = resolve_names (enter stack name) names

abbrev pub ends_in_slash : Str → Bool
ends_in_slash [] = false
ends_in_slash (c ∷ []) = b'/' == c
ends_in_slash (c ∷ d ∷ r) = ends_in_slash (d ∷ r)

-- The same names, but for empty ones at the end
abbrev Same : List Element → List Str → Type 0
Same [] names = All (λ (s : Str). s ≡ []) names
Same (e ∷ es) [] = true ≡ false
Same (e ∷ es) (s ∷ names) = (e.text ≡ s) × Same es names

resolve-Same :
    (stack : List Str) (es : List Element) (names : List Str)
    → Same es names
    → resolve stack es ≡ resolve_names stack names
unfolding enter
resolve-Same stack [] [] h = refl
resolve-Same stack [] (s ∷ names) h = rw h.0 (resolve-Same stack [] names h.1)
resolve-Same stack (e ∷ es) [] h = cc
resolve-Same stack (e ∷ es) (s ∷ names) h = rw h.0 (resolve-Same (enter stack s) es names h.1)

-- From the n-th byte on, the path has slashes only.
abbrev SlashFrom : ℕ → Str → Type 0
SlashFrom n [] = Unit
SlashFrom zero (c ∷ r) = ((c == b'/') ≡ true) × SlashFrom zero r
SlashFrom (suc n) (c ∷ r) = SlashFrom n r

SlashFrom-length : (p : Str) → SlashFrom (length p) p
SlashFrom-length [] = tt
SlashFrom-length (c ∷ p) = SlashFrom-length p

slash_sym : (c : ℕ) → (b'/' == c) ≡ true → (c == b'/') ≡ true
slash_sym c h = ground arith

one_more :
    (n : ℕ) (p : Str) → is_byte b'/' (get_elem? p n) ≡ true → SlashFrom (suc n) p → SlashFrom n p
one_more n [] b h = tt
one_more zero (c ∷ p) b h = (slash_sym c b, h)
one_more (suc n) (c ∷ p) b h = one_more n p b h

without_slashes-SlashFrom : (p : Str) (n : ℕ) → SlashFrom n p → SlashFrom (without_slashes p n) p
unfolding without_slashes
without_slashes-SlashFrom p zero h = h
without_slashes-SlashFrom p (suc n) h = elim (Bool-cases (is_byte b'/' (get_elem? p n))) [
  | inl e ↦ rw e (without_slashes-SlashFrom p n (one_more n p e h))
  | inr e ↦ rw e h
]

without_slashes-le : (p : Str) (n : ℕ) → without_slashes p n ≤ n
unfolding without_slashes
without_slashes-le p zero = omega arith
without_slashes-le p (suc n) = ground (arith, without_slashes-le p n)

last_byte : (c : ℕ) (r : Str) → ends_in_slash (c ∷ r) ≡ is_byte b'/' (get_elem? (c ∷ r) (length r))
last_byte c [] = refl
last_byte c (d ∷ r) = last_byte d r

-- The path loses slashes exactly if it ends in one.
pub without_slashes-ends :
    (p : Str) → ltb (without_slashes p (length p)) (length p) ≡ ends_in_slash p
unfolding without_slashes
without_slashes-ends [] = refl
without_slashes-ends (c ∷ r) = elim (Bool-cases (is_byte b'/' (get_elem? (c ∷ r) (length r)))) [
  | inl e ↦ rw e (ground (arith, without_slashes-le (c ∷ r) (length r))) ∙ sym (last_byte c r ∙ e)
  | inr e ↦ rw e (ground arith) ∙ sym (last_byte c r ∙ e)
]

empty_parts : (p : Str) → SlashFrom zero p → All (λ (s : Str). s ≡ []) (split b'/' p)
empty_parts [] h = (refl, tt)
empty_parts (c ∷ p) h = rw h.0 (refl, empty_parts p h.1)

behind : (limit c : ℕ) (r : Str) → SlashFrom limit (c ∷ r) → SlashFrom (limit - 1) r
behind zero c r h = h.1
behind (suc n) c r h = subst (λ k. SlashFrom k r) (omega arith) h

abbrev NotNil : List Element → Type 0
NotNil [] = true ≡ false
NotNil (e ∷ es) = Unit

prepend-NotNil : (c : ℕ) (es : List Element) → NotNil es → NotNil (prepend c es)
prepend-NotNil c [] h = h
prepend-NotNil c (e ∷ es) h = tt

inside-NotNil : (limit : ℕ) (p : Str) → NotNil (inside limit p)
unfolding inside
inside-NotNil limit [] = tt
inside-NotNil limit (c ∷ r) = elim (Bool-cases (c == b'/')) [
  | inl e ↦ rw e tt
  | inr e ↦ rw e (prepend-NotNil c _ (inside-NotNil (limit - 1) r))
]

prepend-Same :
    (c : ℕ) (es : List Element) (names : List Str)
    → NotNil es
    → Same es names
    → Same (prepend c es) (extend c names)
prepend-Same c [] names n h = cc
prepend-Same c (e ∷ es) [] n h = cc
prepend-Same c (e ∷ es) (s ∷ names) n h = (ap (λ t. c ∷ t) h.0, h.1)

at_limit :
    (limit : ℕ) (r : Str)
    → SlashFrom limit r
    → ((limit == 0) || is_empty r) ≡ true
    → All (λ (s : Str). s ≡ []) (split b'/' r)
at_limit zero r h e = empty_parts r h
at_limit (suc n) [] h e = (refl, tt)
at_limit (suc n) (c ∷ r) h e = absurd (ground arith)

inside-Same : (limit : ℕ) (p : Str) → SlashFrom limit p → Same (inside limit p) (split b'/' p)
unfolding inside
inside-Same limit [] h = (refl, tt)
inside-Same limit (c ∷ r) h = elim (Bool-cases (c == b'/')) [
  | inl e ↦ elim (Bool-cases ((limit - 1 == 0) || is_empty r)) [
    | inl f ↦ rw (e, f) (refl, at_limit (limit - 1) r (behind limit c r h) f)
    | inr f ↦ rw (e, f) (refl, inside-Same (limit - 1) r (behind limit c r h))
  ]
  | inr e ↦ rw e (
      prepend-Same c _ _ (inside-NotNil (limit - 1) r)
        (inside-Same (limit - 1) r (behind limit c r h)))
]

elements-Same : (limit : ℕ) (p : Str) → SlashFrom limit p → Same (elements limit p) (split b'/' p)
unfolding elements
elements-Same limit p h = elim (Bool-cases ((limit == 0) || is_empty p)) [
  | inl e ↦ rw e (at_limit limit p h e)
  | inr e ↦ rw e (inside-Same limit p h)
]

-- The elements of a path without the slashes at its end resolve as the names between its slashes.
pub resolve-elements :
    (stack : List Str) (p : Str)
    → resolve stack (elements (without_slashes p (length p)) p) ≡ resolve_names stack (split b'/' p)
resolve-elements stack p =
    resolve-Same stack _ _
      (elements-Same _ p (without_slashes-SlashFrom p (length p) (SlashFrom-length p)))

-- ===== src/Paths/Contained.antt =====
-- The result of pseudo_fix_path against its root and its buffer.
use pseudo.Prelude.{
  ℕ, zero, suc, ◌+◌, ◌≤◌, ◌<◌, ◌≡◌, ◌≢◌, ◌⊎◌, refl, ap, ◌∙◌, Bool, true, false, not, ◌&&◌, ◌||◌,
  Option, none, some, [], ◌∷◌, ◌++◌, Str, length, length-append, take, ltb, leb, ◌==◌,
  if◌then◌else◌, arith, Bool-cases, inl, inr, get_elem?,
}
use pseudo.Paths.Fix.{
  Walk, Fixed, previous_slash, fix_path, finish, root_length, max_link_recursion, start_walk,
  start_text, is_absolute, is_byte,
}
use pseudo.Paths.Walks.{Held, Steps, Held-walk}

length-take : (n : ℕ) (t : Str) → n ≤ length t → length (take n t) ≡ n
length-take zero t h = refl
length-take (suc n) [] h = absurd (omega arith)
length-take (suc n) (c ∷ t) h = ap suc (length-take n t (omega arith))

length-take_le : (n : ℕ) (t : Str) → length (take n t) ≤ length t
length-take_le zero t = omega arith
length-take_le (suc n) [] = omega arith
length-take_le (suc n) (c ∷ t) = omega (arith, length-take_le n t)

pub length-take_le_self : (n : ℕ) (t : Str) → length (take n t) ≤ n
length-take_le_self zero t = omega arith
length-take_le_self (suc n) [] = omega arith
length-take_le_self (suc n) (c ∷ t) = omega (arith, length-take_le_self n t)

take-take : (m n : ℕ) (t : Str) → m ≤ n → take m (take n t) ≡ take m t
take-take zero n t h = refl
take-take (suc m) zero t h = absurd (omega arith)
take-take (suc m) (suc n) [] h = refl
take-take (suc m) (suc n) (c ∷ t) h = ap (λ s. c ∷ s) (take-take m n t (omega arith))

take-append : (m : ℕ) (t s : Str) → m ≤ length t → take m (t ++ s) ≡ take m t
take-append zero t s h = refl
take-append (suc m) [] s h = absurd (omega arith)
take-append (suc m) (c ∷ t) s h = ap (λ r. c ∷ r) (take-append m t s (omega arith))

previous_slash-le : (root : ℕ) (t : Str) (n : ℕ) → previous_slash root t n ≤ n
unfolding previous_slash
previous_slash-le root t zero = omega arith
previous_slash-le root t (suc n) = ground (arith, previous_slash-le root t n)

root-previous_slash : (root : ℕ) (t : Str) (n : ℕ) → root ≤ n → root ≤ previous_slash root t n
unfolding previous_slash
root-previous_slash root t zero h = h
root-previous_slash root t (suc n) h = elim (Bool-cases (leb (suc n) root)) [
  | inl e ↦ rw e h
  | inr e ↦ elim (Bool-cases (is_byte b'/' (get_elem? t (suc n)))) [
    | inl f ↦ rw (e, f) h
    | inr f ↦ rw (e, f) (root-previous_slash root t n (below e))
  ]
]
  where
    below : leb (suc n) root ≡ false → root ≤ n
    below e = ground arith

-- The path has the root's text in front.
abbrev pub Below : ℕ → Str → Str → Type 0
Below root front t = (root ≤ length t) × (take root t ≡ front)

pub Below-Steps : (path_max root : ℕ) (front : Str) → Steps (Below root front) path_max root
Below-Steps path_max root front = record {
  up = λ t h above.
      let le = previous_slash-le root t (length t) in
      let ge = root-previous_slash root t (length t) h.0 in
      (
        rw (length-take (previous_slash root t (length t)) t le) ge,
        take-take root (previous_slash root t (length t)) t ge ∙ h.1,
      );
  down = λ t e h fits.
      (omega (arith, h.0, length-append t (b'/' ∷ e)), take-append root t (b'/' ∷ e) h.0 ∙ h.1);
  top = λ t h. (omega (arith, length-take root t h.0), take-take root root t (omega arith) ∙ h.1);
}

-- The path leaves room for a slash and the NUL.
abbrev pub Roomy : ℕ → Str → Type 0
Roomy path_max t = length t + 2 ≤ path_max

Roomy-Steps : (path_max root : ℕ) → Steps (Roomy path_max) path_max root
Roomy-Steps path_max root = record {
  up = λ t h above. omega (arith, length-take_le (previous_slash root t (length t)) t);
  down = λ t e h fits. omega (arith, length-append t (b'/' ∷ e));
  top = λ t h. omega (arith, length-take_le root t);
}

fixed-injective : (r t : Str) → Fixed.fixed t ≡ Fixed.fixed r → r ≡ t
fixed-injective r t e = cc

-- What the walk of fix_path keeps holds of the result, before the last slash.
finish-cases :
    (path_max root : ℕ) (slash : Bool) (o : Option Walk) (r : Str) (P : Str → Type 0)
    → finish path_max root slash o ≡ Fixed.fixed r
    → Held P o
    → (t : Str) × P t × ((r ≡ t) ⊎ (r ≡ t ++ b'/' ∷ []))
unfolding finish
finish-cases path_max root slash none r P e h = cc
finish-cases path_max root slash (some w) r P e h =
    elim (Bool-cases (((length w.text == root) || slash) && ltb (length w.text) path_max)) [
      | inl f ↦ (w.text, h, inr (fixed-injective r _ (rw f at e)))
      | inr f ↦ (w.text, h, inl (fixed-injective r _ (rw f at e)))
    ]

lt_of_leb : (a b : ℕ) → leb a b ≡ false → b < a
lt_of_leb a b h = ground arith

pub root_length-le : (n : ℕ) → root_length n ≤ n
root_length-le n = ground arith

pub result_has :
    (P Q : Str → Type 0) (r : Str)
    → (t : Str) × P t × ((r ≡ t) ⊎ (r ≡ t ++ b'/' ∷ []))
    → ((t : Str) → P t → Q t)
    → ((t : Str) → P t → Q (t ++ b'/' ∷ []))
    → Q r
result_has P Q r (t, h, inl e) same slash = rw e (same t h)
result_has P Q r (t, h, inr e) same slash = rw e (slash t h)

pub Below-start :
    (root from : ℕ) (absolute : Bool) (base : Str)
    → root ≤ from
    → from ≤ length base
    → Below root
        (take root base)
        (if not (from == 0) && (not absolute || not (root == 0)) then take from base else [])
Below-start zero from absolute base inner fits = (omega arith, refl)
Below-start (suc n) from absolute base inner fits =
    elim (Bool-cases (not (from == 0) && (not absolute || not (suc n == 0)))) [
      | inl e ↦ rw e (rw (length-take from base fits) inner, take-take (suc n) from base inner)
      | inr e ↦ absurd (ground arith)
    ]

Roomy-start :
    (path_max from : ℕ) (path base : Str) (b : Bool)
    → path ≢ []
    → length path + from < path_max
    → Roomy path_max (if b then take from base else [])
Roomy-start path_max from [] base b ne small = absurd (ne refl)
Roomy-start path_max from (c ∷ path) base true ne small =
    omega (arith, length-take_le_self from base)
Roomy-start path_max from (c ∷ path) base false ne small = omega arith

unchanged-ne-fixed : (r : Str) → Fixed.unchanged ≢ Fixed.fixed r
unchanged-ne-fixed r h = cc

module _ (lstat : Str → Option ℕ) (readlink : ℕ → Str → Option Str) (path_max : ℕ) (base path : Str)
    (rootlen baselen : ℕ) (leave_last : Bool) (r : Str) where
  pub fix_path-cases :
      (P : Str → Type 0)
      → Steps P path_max (root_length rootlen)
      → (length path + root_length baselen < path_max → P (start_text base path rootlen baselen))
      → fix_path lstat readlink path_max base path rootlen baselen leave_last ≡ Fixed.fixed r
      → (t : Str) × P t × ((r ≡ t) ⊎ (r ≡ t ++ b'/' ∷ []))
  unfolding fix_path start_walk
  fix_path-cases P steps h e =
      elim (Bool-cases (leb path_max (length path + root_length baselen))) [
        | inl f ↦ absurd (unchanged-ne-fixed r (rw f at e))
        | inr f ↦ finish-cases path_max (root_length rootlen) _ _ r P (rw f at e) (
            Held-walk lstat readlink path_max (root_length rootlen) P steps max_link_recursion
              leave_last _
              (start_walk lstat readlink path_max (root_length rootlen)
                (start_text base path rootlen baselen))
              (h (lt_of_leb _ _ f)))
      ]

  -- No path, whatever its elements "..", and no symbolic link, absolute or relative, leads out of
  -- the root: a path that pseudo_fix_path puts in its buffer starts with the first rootlen bytes
  -- of the base, if the root is not longer than the base part and that lies in the base.
  pub fix_path-Below :
      root_length rootlen ≤ root_length baselen
      → baselen ≤ length base
      → fix_path lstat readlink path_max base path rootlen baselen leave_last ≡ Fixed.fixed r
      → Below (root_length rootlen) (take (root_length rootlen) base) r
  fix_path-Below inner fits e =
      result_has (Below (root_length rootlen) (take (root_length rootlen) base)) _ r
        (fix_path-cases (Below (root_length rootlen) (take (root_length rootlen) base))
          (Below-Steps path_max (root_length rootlen) _)
          (λ small.
            Below-start (root_length rootlen) (root_length baselen) (is_absolute path) base inner
              (omega (arith, root_length-le baselen)))
          e)
        (λ t h. h)
        (λ t h. (Below-Steps (length t + 3) (root_length rootlen) _).down t [] h (omega arith))

  -- A result that pseudo_fix_path puts in its buffer fits it with its NUL, if the path is not
  -- empty.
  pub fix_path-fits :
      path ≢ []
      → fix_path lstat readlink path_max base path rootlen baselen leave_last ≡ Fixed.fixed r
      → length r + 1 ≤ path_max
  fix_path-fits ne e =
      result_has (Roomy path_max) (λ t. length t + 1 ≤ path_max) r
        (fix_path-cases (Roomy path_max) (Roomy-Steps path_max (root_length rootlen))
          (λ small. Roomy-start path_max (root_length baselen) path base _ ne small) e)
        (λ t h. omega arith) (λ t h. omega (arith, length-append t (b'/' ∷ [])))

-- ===== src/Prelude/Lists.antt =====
-- Lists over the native numbers, filters by Boolean tests, and predicates on all items.
use Prim.Native.Nat.{◌≤◌, ℕ, zero, suc, ◌+◌, ◌<◌}
use mathlib.Core.Path.{◌≡◌, refl, ap}
use mathlib.Core.Logic.{◌≢◌, inl, inr}
use mathlib.Core.Bool.{Bool, true, false, ◌&&◌}
use mathlib.Core.Option.{Option, none, some}
use mathlib.Core.List.{List, [], ◌∷◌, ◌++◌}
use native.Mathlib.Omega.{arith}
use pseudo.Prelude.Tests.{if◌then◌else◌, Bool-cases}

module _ {ℓ} {A : Type ℓ} where
  abbrev pub length : List A → ℕ
  length [] = 0
  length (x ∷ xs) = suc (length xs)

  abbrev pub get_elem? : List A → ℕ → Option A
  get_elem? [] i = none
  get_elem? (x ∷ xs) zero = some x
  get_elem? (x ∷ xs) (suc i) = get_elem? xs i

  -- A write out of bounds changes nothing.
  abbrev pub set : List A → ℕ → A → List A
  set [] i v = []
  set (x ∷ xs) zero v = v ∷ xs
  set (x ∷ xs) (suc i) v = x ∷ set xs i v

  abbrev pub take : ℕ → List A → List A
  take zero xs = []
  take (suc n) [] = []
  take (suc n) (x ∷ xs) = x ∷ take n xs

  abbrev pub drop : ℕ → List A → List A
  drop zero xs = xs
  drop (suc n) [] = []
  drop (suc n) (x ∷ xs) = drop n xs

  abbrev pub replicate : ℕ → A → List A
  replicate zero a = []
  replicate (suc n) a = a ∷ replicate n a

  -- The items that pass a test, in order: the rows of a WHERE clause.
  abbrev pub keep : (A → Bool) → List A → List A
  keep p [] = []
  keep p (x ∷ xs) = let rest = keep p xs in if p x then x ∷ rest else rest

  -- An update of the items that pass a test.
  abbrev pub update_where : (A → Bool) → (A → A) → List A → List A
  update_where p f [] = []
  update_where p f (x ∷ xs) = (if p x then f x else x) ∷ update_where p f xs

module _ {ℓ κ} {A : Type ℓ} where
  abbrev pub All : (A → Type κ) → List A → Type κ
  All P [] = Unit
  All P (x ∷ xs) = P x × All P xs

module _ {ℓ} {A : Type ℓ} where
  pub cons-ne-nil : {x : A} {xs : List A} → x ∷ xs ≢ []
  cons-ne-nil h = cc

  pub length-append : (xs ys : List A) → length (xs ++ ys) ≡ length xs + length ys
  length-append [] ys = omega arith
  length-append (x ∷ xs) ys = omega (arith, length-append xs ys)

  pub take-le : (n : ℕ) (xs : List A) → length xs ≤ n → take n xs ≡ xs
  take-le zero [] h = refl
  take-le zero (x ∷ xs) h = absurd (omega arith)
  take-le (suc n) [] h = refl
  take-le (suc n) (x ∷ xs) h = ap (λ t. x ∷ t) (take-le n xs (omega arith))

  pub length-set : (xs : List A) (i : ℕ) (v : A) → length (set xs i v) ≡ length xs
  length-set [] i v = refl
  length-set (x ∷ xs) zero v = refl
  length-set (x ∷ xs) (suc i) v = ap suc (length-set xs i v)

  pub length-replicate : (n : ℕ) (a : A) → length (replicate n a) ≡ n
  length-replicate zero a = refl
  length-replicate (suc n) a = ap suc (length-replicate n a)

  pub get_elem?-set_self :
      (xs : List A) (i : ℕ) (v : A) → i < length xs → get_elem? (set xs i v) i ≡ some v
  get_elem?-set_self [] i v h = elim h [ ]
  get_elem?-set_self (x ∷ xs) zero v h = refl
  get_elem?-set_self (x ∷ xs) (suc i) v h = get_elem?-set_self xs i v (omega arith)

  pub get_elem?-set_ne :
      (xs : List A) (i j : ℕ) (v : A) → i ≢ j → get_elem? (set xs i v) j ≡ get_elem? xs j
  get_elem?-set_ne [] i j v h = refl
  get_elem?-set_ne (x ∷ xs) zero zero v h = absurd (h refl)
  get_elem?-set_ne (x ∷ xs) zero (suc j) v h = refl
  get_elem?-set_ne (x ∷ xs) (suc i) zero v h = refl
  get_elem?-set_ne (x ∷ xs) (suc i) (suc j) v h = get_elem?-set_ne xs i j v (λ e. h (ap suc e))

  pub All-append {κ} : (P : A → Type κ) (xs ys : List A) → All P xs → All P ys → All P (xs ++ ys)
  All-append P [] ys hx hy = hy
  All-append P (x ∷ xs) ys hx hy = (hx.0, All-append P xs ys hx.1 hy)

  pub All-map {κ μ} :
      (P : A → Type κ) (Q : A → Type μ) (xs : List A) → ((x : A) → P x → Q x) → All P xs → All Q xs
  All-map P Q [] f h = tt
  All-map P Q (x ∷ xs) f h = (f x h.0, All-map P Q xs f h.1)

  -- Every kept item passes the test, and what held of all items still does.
  pub All-keep : (p : A → Bool) (xs : List A) → All (λ x. p x ≡ true) (keep p xs)
  All-keep p [] = tt
  All-keep p (x ∷ xs) = elim (Bool-cases (p x)) [
    | inl e ↦ rw e (e, All-keep p xs)
    | inr e ↦ rw e (All-keep p xs)
  ]

  pub keep-All {κ} : (P : A → Type κ) (p : A → Bool) (xs : List A) → All P xs → All P (keep p xs)
  keep-All P p [] h = tt
  keep-All P p (x ∷ xs) h = elim (Bool-cases (p x)) [
    | inl e ↦ rw e (h.0, keep-All P p xs h.1)
    | inr e ↦ rw e (keep-All P p xs h.1)
  ]

  pub keep-append : (p : A → Bool) (xs ys : List A) → keep p (xs ++ ys) ≡ keep p xs ++ keep p ys
  keep-append p [] ys = refl
  keep-append p (x ∷ xs) ys = elim (Bool-cases (p x)) [
    | inl e ↦ rw e (ap (λ l. x ∷ l) (keep-append p xs ys))
    | inr e ↦ rw e (keep-append p xs ys)
  ]

  pub keep-eq-nil : (p : A → Bool) (xs : List A) → All (λ x. p x ≡ false) xs → keep p xs ≡ []
  keep-eq-nil p [] h = refl
  keep-eq-nil p (x ∷ xs) h = rw h.0 (keep-eq-nil p xs h.1)

  pub All-of_keep-eq-nil : (p : A → Bool) (xs : List A) → keep p xs ≡ [] → All (λ x. p x ≡ false) xs
  All-of_keep-eq-nil p [] h = tt
  All-of_keep-eq-nil p (x ∷ xs) h = elim (Bool-cases (p x)) [
    | inl e ↦ absurd (cons-ne-nil (rw e at h))
    | inr e ↦ (e, All-of_keep-eq-nil p xs (rw e at h))
  ]

  pub keep_self : (p : A → Bool) (xs : List A) → All (λ x. p x ≡ true) xs → keep p xs ≡ xs
  keep_self p [] h = refl
  keep_self p (x ∷ xs) h = rw h.0 (ap (λ l. x ∷ l) (keep_self p xs h.1))

  pub keep_congr : (p q : A → Bool) (xs : List A) → All (λ x. p x ≡ q x) xs → keep p xs ≡ keep q xs
  keep_congr p q [] h = refl
  keep_congr p q (x ∷ xs) h = elim (Bool-cases (q x)) [
    | inl e ↦ rw (h.0, e) (ap (λ l. x ∷ l) (keep_congr p q xs h.1))
    | inr e ↦ rw (h.0, e) (keep_congr p q xs h.1)
  ]

  pub All-of_All {κ} : (P : A → Type κ) (xs : List A) → ((x : A) → P x) → All P xs
  All-of_All P [] h = tt
  All-of_All P (x ∷ xs) h = (h x, All-of_All P xs h)

  -- Two tests in a row are one test.
  pub keep-keep : (p q : A → Bool) (xs : List A) → keep p (keep q xs) ≡ keep (λ x. q x && p x) xs
  keep-keep p q [] = refl
  keep-keep p q (x ∷ xs) = elim (Bool-cases (q x)) [
    | inl e ↦ elim (Bool-cases (p x)) [
      | inl f ↦ rw (e, f) (ap (λ l. x ∷ l) (keep-keep p q xs))
      | inr f ↦ rw (e, f) (keep-keep p q xs)
    ]
    | inr e ↦ rw e (keep-keep p q xs)
  ]

  pub All-zip {κ μ} :
      (P : A → Type κ) (Q : A → Type μ) (xs : List A)
      → All P xs
      → All Q xs
      → All (λ x. P x × Q x) xs
  All-zip P Q [] h k = tt
  All-zip P Q (x ∷ xs) h k = ((h.0, k.0), All-zip P Q xs h.1 k.1)

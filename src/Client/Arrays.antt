-- ===== src/Client/Arrays.antt =====
-- The arrays of paths, entry by entry.
use pseudo.Prelude.{
  ℕ, zero, suc, ◌+◌, ◌-◌, ◌≤◌, ◌<◌, ◌≡◌, refl, ap, ◌∙◌, true, false, Option, none, List, [], ◌∷◌,
  ◌++◌, Str, length, length-set, length-append, set, replicate, leb, ◌==◌, if◌then◌else◌, arith,
  Bool-cases, inl, inr,
}
use pseudo.Client.Descriptors.{entry, store, each}

length-replicate_some : (n : ℕ) → length (replicate {A = Option Str} n none) ≡ n
length-replicate_some zero = refl
length-replicate_some (suc n) = ap suc (length-replicate_some n)

-- Storing makes the array just long enough.
pub length-store :
    (fd : ℕ) (p : Option Str) (paths : List (Option Str))
    → length (store fd p paths) ≡ (if leb (length paths) fd then fd + 1 else length paths)
unfolding store
length-store fd p paths = elim (Bool-cases (leb (length paths) fd)) [
  | inl e ↦ rw e (
      grown e (length-append paths (replicate (fd - length paths) none ++ p ∷ []))
        (length-append (replicate (fd - length paths) none) (p ∷ []))
        (length-replicate_some (fd - length paths)))
  | inr e ↦ rw e (length-set paths fd p)
]
  where
    grown :
        {a b c : ℕ}
        → leb (length paths) fd ≡ true
        → a ≡ length paths + b
        → b ≡ c + 1
        → c ≡ fd - length paths
        → a ≡ fd + 1
    grown e f g h = ground arith

entry-set :
    (paths : List (Option Str)) (i j : ℕ) (p : Option Str)
    → i < length paths
    → entry (set paths i p) j ≡ (if i == j then p else entry paths j)
entry-set [] i j p h = absurd (omega arith)
entry-set (q ∷ paths) zero zero p h = refl
entry-set (q ∷ paths) zero (suc j) p h = ground arith
entry-set (q ∷ paths) (suc i) zero p h = ground arith
entry-set (q ∷ paths) (suc i) (suc j) p h = entry-set paths i j p (omega arith) ∙ ground arith

entry-grow_nil :
    (k j : ℕ) (p : Option Str) → entry (replicate k none ++ p ∷ []) j ≡ (if k == j then p else none)
entry-grow_nil zero zero p = refl
entry-grow_nil zero (suc j) p = ground arith
entry-grow_nil (suc k) zero p = ground arith
entry-grow_nil (suc k) (suc j) p = entry-grow_nil k j p ∙ ground arith

from_zero : (fd k : ℕ) → fd ≡ 0 + k → fd ≡ k
from_zero fd k h = omega arith

entry-grow :
    (paths : List (Option Str)) (fd k j : ℕ) (p : Option Str)
    → fd ≡ length paths + k
    → entry (paths ++ (replicate k none ++ p ∷ [])) j ≡ (if fd == j then p else entry paths j)
entry-grow [] fd k j p h = rw (from_zero fd k h) (entry-grow_nil k j p)
entry-grow (q ∷ paths) zero k j p h = absurd (omega arith)
entry-grow (q ∷ paths) (suc fd) k zero p h = ground arith
entry-grow (q ∷ paths) (suc fd) k (suc j) p h =
    entry-grow paths fd k j p (omega arith) ∙ ground arith

-- What was stored is found, and the other entries are as they were, those past the end included.
pub entry-store :
    (fd j : ℕ) (p : Option Str) (paths : List (Option Str))
    → entry (store fd p paths) j ≡ (if fd == j then p else entry paths j)
unfolding store
entry-store fd j p paths = elim (Bool-cases (leb (length paths) fd)) [
  | inl e ↦ rw e (entry-grow paths fd (fd - length paths) j p (exact e))
  | inr e ↦ rw e (entry-set paths fd j p (inside e))
]
  where
    exact : leb (length paths) fd ≡ true → fd ≡ length paths + (fd - length paths)
    exact e = ground arith

    inside : leb (length paths) fd ≡ false → fd < length paths
    inside e = ground arith

-- what every round of a loop keeps
pub each-keeps {ℓ} :
    {A : Type ℓ} (P : A → Type 0) (count from : ℕ) (body : ℕ → A → A) (a : A)
    → ((fd : ℕ) (b : A) → from ≤ fd → fd < from + count → P b → P (body fd b))
    → P a
    → P (each count from body a)
each-keeps P zero from body a k h = h
each-keeps P (suc count) from body a k h =
    each-keeps P count (suc from) body (body from a)
      (λ fd b ge lt p. k fd b (omega arith) (omega arith) p)
      (k from a (omega arith) (omega arith) h)

-- ===== src/Tests/Engine.antt =====
-- A concrete SQL engine: the first row that matches, the textual replace, and one more than the
-- largest id.
use pseudo.Prelude.{
  ℕ, zero, suc, ◌+◌, ◌<◌, ◌≡◌, ◌≢◌, refl, ap, true, false, Option, none, some, List, [], ◌∷◌, ◌++◌,
  All, Str, is_prefix, length, Bool-cases, inl, inr, if◌then◌else◌, arith, ==-refl,
}
use pseudo.Db.Tables.{Sqlite, occurs}

abbrev pub head {ℓ} : {A : Type ℓ} → List A → Option A
head [] = none
head (x ∷ xs) = some x

pub head-from {ℓ} :
    {A : Type ℓ} (P : A → Type 0) (xs : List A) (x : A) → All P xs → head xs ≡ some x → P x
head-from P [] x h e = cc
head-from P (y ∷ ys) x h e = ground (arith, h.0, e)

abbrev pub tail_length : Str → ℕ
tail_length [] = 0
tail_length (c ∷ y) = length y

-- replace() with the number of bytes still to be skipped
abbrev pub replace_from : ℕ → Str → Str → Str → Str
replace_from n y z [] = []
replace_from (suc n) y z (c ∷ x) = replace_from n y z x
replace_from zero y z (c ∷ x) =
    let hit = z ++ replace_from (tail_length y) y z x in
    let miss = c ∷ replace_from 0 y z x in if is_prefix y (c ∷ x) then hit else miss

abbrev pub max_id : List ℕ → ℕ
max_id [] = 0
max_id (i ∷ is) = i + max_id is

is_prefix-append : (y r : Str) → is_prefix y (y ++ r) ≡ true
is_prefix-append [] r = refl
is_prefix-append (c ∷ y) r = ground (arith, is_prefix-append y r)

skip-append : (s r y z : Str) → replace_from (length s) y z (s ++ r) ≡ replace_from 0 y z r
skip-append [] r y z = refl
skip-append (c ∷ s) r y z = skip-append s r y z

pub replace-hit : (y z r : Str) → y ≢ [] → replace_from 0 y z (y ++ r) ≡ z ++ replace_from 0 y z r
replace-hit [] z r ne = absurd (ne refl)
replace-hit (c ∷ y) z r ne =
    rw (==-refl c, is_prefix-append y r) (ap (λ t. z ++ t) (skip-append y r (c ∷ y) z))

true-ne-false : true ≢ false
true-ne-false h = cc

pub replace-miss : (x y z : Str) → occurs y x ≡ false → replace_from 0 y z x ≡ x
replace-miss [] y z h = refl
replace-miss (c ∷ x) y z h = elim (Bool-cases (is_prefix y (c ∷ x))) [
  | inl e ↦ absurd (true-ne-false (rw (e, occurs) at h))
  | inr e ↦ rw e (ap (λ t. c ∷ t) (replace-miss x y z (rw (e, occurs) at h)))
]

pub above-All : (n : ℕ) (is : List ℕ) → max_id is < n → All (λ i. i ≢ n) is
above-All n [] h = tt
above-All n (i ∷ is) h = (omega arith, above-All n is (omega arith))

abbrev pub engine : Sqlite
engine = record {
  first_file = head;
  first_file-nil = refl;
  first_file-cons = λ r rs h. cc;
  first_file-from = head-from;
  first_xattr = head;
  first_xattr-nil = refl;
  first_xattr-cons = λ r rs h. cc;
  first_xattr-from = head-from;
  order_by_name = λ rs. rs;
  replace = λ x y z. replace_from 0 y z x;
  replace-hit = λ y z r h. replace-hit y z r h;
  replace-miss = λ x y z h. replace-miss x y z h;
  new_id = λ is. suc (max_id is);
  new_id-fresh = λ is. above-All (suc (max_id is)) is (omega arith);
}

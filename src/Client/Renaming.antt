-- ===== src/Client/Renaming.antt =====
-- What a rename and a close do to the remembered paths, descriptor by descriptor.
use pseudo.Prelude.{
  ℕ, zero, suc, ◌+◌, ◌-◌, ◌≤◌, ◌≡◌, refl, ap, ◌∙◌, Bool, true, false, ◌&&◌, Option, none, some,
  List, [], ◌∷◌, Str, length, set, leb, ltb, ◌==◌, ==-refl, eq_of_==, pos, if◌then◌else◌, arith,
  Bool-cases, inl, inr,
}
use pseudo.Client.Descriptors.{
  Table, entry, matches, is_set, each, rename_step, rename_linked_step, client_rename_path, forget,
  client_closefrom,
}
use pseudo.Client.Arrays.{entry-store, each-keeps}
use pseudo.Client.Bounds.{InBounds}

-- the descriptors of a loop
abbrev pub in_loop : ℕ → ℕ → ℕ → Bool
in_loop count from j = leb from j && ltb j (from + count)

entry-rename_step :
    (old new : Str) (fd j : ℕ) (t : Table)
    → entry (rename_step old new fd t).fd_paths j
      ≡ (if (fd == j) && matches old (entry t.fd_paths j) then some new else entry t.fd_paths j)
unfolding rename_step
entry-rename_step old new fd j t = elim (Bool-cases (fd == j)) [
  | inl e ↦ elim (Bool-cases (matches old (entry t.fd_paths j))) [
    | inl f ↦
        rw (eq_of_== fd j e, f, ==-refl j) (entry-store j j (some new) t.fd_paths ∙ rw (==-refl j))
    | inr f ↦ rw (eq_of_== fd j e, f, ==-refl j)
  ]
  | inr e ↦ elim (Bool-cases (matches old (entry t.fd_paths fd))) [
    | inl f ↦ rw (e, f) (entry-store fd j (some new) t.fd_paths ∙ rw e)
    | inr f ↦ rw (e, f)
  ]
]

pub empty_loop : (from j : ℕ) → in_loop 0 from j ≡ false
empty_loop from j = ground arith

pub first_round :
    (count from j : ℕ)
    → (from == j) ≡ true
    → (in_loop count (suc from) j ≡ false) × (in_loop (suc count) from j ≡ true)
first_round count from j e = (ground arith, ground arith)

pub later_round :
    (count from j : ℕ)
    → (from == j) ≡ false
    → in_loop count (suc from) j ≡ in_loop (suc count) from j
later_round count from j e = ground arith

rename_next :
    (old new : Str) (o : Option Str) (count from j : ℕ)
    → (if in_loop count (suc from) j
          && matches old (if (from == j) && matches old o then some new else o)
        then some new
        else (if (from == j) && matches old o then some new else o))
      ≡ (if in_loop (suc count) from j && matches old o then some new else o)
rename_next old new o count from j = elim (Bool-cases (from == j)) [
  | inl e ↦ let (a, b) = first_round count from j e in rw (a, b, e)
  | inr e ↦ rw (later_round count from j e, e)
]

forget_next :
    (o : Option Str) (count from j : ℕ)
    → (if in_loop count (suc from) j then none else (if from == j then none else o))
      ≡ (if in_loop (suc count) from j then none else o)
forget_next o count from j = elim (Bool-cases (from == j)) [
  | inl e ↦ let (a, b) = first_round count from j e in rw (a, b, e)
  | inr e ↦ rw (later_round count from j e, e)
]

entry-rename_loop :
    (old new : Str) (count from j : ℕ) (t : Table)
    → entry (each count from (rename_step old new) t).fd_paths j ≡ (
        if in_loop count from j && matches old (entry t.fd_paths j)
        then some new
        else entry t.fd_paths j)
entry-rename_loop old new zero from j t = rw (empty_loop from j)
entry-rename_loop old new (suc count) from j t =
    entry-rename_loop old new count (suc from) j (rename_step old new from t)
    ∙ rw (entry-rename_step old new from j t)
        (rename_next old new (entry t.fd_paths j) count from j)

entry-set-none :
    (paths : List (Option Str)) (i j : ℕ)
    → entry (set paths i none) j ≡ (if i == j then none else entry paths j)
entry-set-none [] i j = ground arith
entry-set-none (q ∷ paths) zero zero = refl
entry-set-none (q ∷ paths) zero (suc j) = ground arith
entry-set-none (q ∷ paths) (suc i) zero = ground arith
entry-set-none (q ∷ paths) (suc i) (suc j) = entry-set-none paths i j ∙ ground arith

pub entry-beyond : (paths : List (Option Str)) (j : ℕ) → length paths ≤ j → entry paths j ≡ none
entry-beyond [] j h = refl
entry-beyond (q ∷ paths) zero h = absurd (omega arith)
entry-beyond (q ∷ paths) (suc j) h = entry-beyond paths j (omega arith)

-- a loop whose rounds each clear one entry of an array
entry-each :
    (paths : Table → List (Option Str)) (body : ℕ → Table → Table) (count from j : ℕ) (t : Table)
    → ((i : ℕ) (b : Table)
        → entry (paths (body i b)) j ≡ (if i == j then none else entry (paths b) j))
    → entry (paths (each count from body t)) j
      ≡ (if in_loop count from j then none else entry (paths t) j)
entry-each paths body zero from j t k = rw (empty_loop from j)
entry-each paths body (suc count) from j t k =
    entry-each paths body count (suc from) j (body from t) k
    ∙ rw (k from t) (forget_next (entry (paths t) j) count from j)

pub entry-forget :
    (i j : ℕ) (t : Table)
    → entry (forget i t).fd_paths j ≡ (if i == j then none else entry t.fd_paths j)
unfolding forget
entry-forget i j t = entry-set-none t.fd_paths i j

pub entry-forget_linked :
    (i j : ℕ) (t : Table)
    → entry (forget i t).linked_fd_paths j ≡ (if i == j then none else entry t.linked_fd_paths j)
unfolding forget
entry-forget_linked i j t = elim (Bool-cases (ltb i (length t.linked_fd_paths))) [
  | inl e ↦ rw e (entry-set-none t.linked_fd_paths i j)
  | inr e ↦ rw e (elim (Bool-cases (i == j)) [
    | inl q ↦ rw q (entry-beyond t.linked_fd_paths j (beyond e (eq_of_== i j q)))
    | inr q ↦ rw q
  ])
]
  where
    beyond : ltb i (length t.linked_fd_paths) ≡ false → i ≡ j → length t.linked_fd_paths ≤ j
    beyond e q = ground arith

pub in_range : (n fd j : ℕ) → leb n j ≡ false → in_loop (n - fd) fd j ≡ leb fd j
in_range n fd j e = ground arith

pub le_of_leb : (a b : ℕ) → leb a b ≡ true → a ≤ b
le_of_leb a b e = ground arith

if_same : (b c : Bool) (x : Option Str) → (if b then x else x) ≡ (if c then x else x)
if_same true true x = refl
if_same true false x = refl
if_same false true x = refl
if_same false false x = refl

if-and_false :
    (b c : Bool) (x y : Option Str) → (if b && false then x else y) ≡ (if c && false then x else y)
if-and_false true true x y = refl
if-and_false true false x y = refl
if-and_false false true x y = refl
if-and_false false false x y = refl

loop_lem :
    (n fd j : ℕ) (o : Option Str)
    → (n ≤ j → o ≡ none)
    → (if in_loop (n - fd) fd j then none else o) ≡ (if leb fd j then none else o)
loop_lem n fd j o h = elim (Bool-cases (leb n j)) [
  | inl e ↦ rw (h (le_of_leb n j e)) (if_same (in_loop (n - fd) fd j) (leb fd j) none)
  | inr e ↦ rw (in_range n fd j e)
]

rename_range :
    (old new : Str) (n j : ℕ) (o : Option Str)
    → (n ≤ j → o ≡ none)
    → (if in_loop (n - 3) 3 j && matches old o then some new else o)
      ≡ (if leb 3 j && matches old o then some new else o)
rename_range old new n j o h = elim (Bool-cases (leb n j)) [
  | inl e ↦ rw (h (le_of_leb n j e)) (if-and_false (in_loop (n - 3) 3 j) (leb 3 j) (some new) none)
  | inr e ↦ rw (in_range n 3 j e)
]

linked_only :
    (old new : Str) (fd : ℕ) (b : Table) → (rename_linked_step old new fd b).fd_paths ≡ b.fd_paths
unfolding rename_linked_step
linked_only old new fd b =
    elim (Bool-cases (is_set (entry b.fd_paths fd) && matches old (entry b.linked_fd_paths fd))) [
      | inl e ↦ rw e
      | inr e ↦ rw e
    ]

-- After closefrom, no descriptor from fd up has a path or a linked path, and those below keep
-- theirs, if the array of linked paths is not longer than that of paths.
pub client_closefrom_lem :
    (fd j : ℕ) (t : Table)
    → InBounds t
    → (entry (client_closefrom (pos fd) t).fd_paths j
        ≡ (if leb fd j then none else entry t.fd_paths j))
      × (entry (client_closefrom (pos fd) t).linked_fd_paths j
          ≡ (if leb fd j then none else entry t.linked_fd_paths j))
unfolding client_closefrom InBounds
client_closefrom_lem fd j t h = (
  entry-each (λ t. t.fd_paths) forget _ fd j t (λ i b. entry-forget i j b)
      ∙ loop_lem (length t.fd_paths) fd j _ (entry-beyond t.fd_paths j),
  entry-each (λ t. t.linked_fd_paths) forget _ fd j t (λ i b. entry-forget_linked i j b)
      ∙ loop_lem (length t.fd_paths) fd j _
          (λ le. entry-beyond t.linked_fd_paths j (omega (arith, h))),
)

-- After a rename, exactly the descriptors from 3 up that had the old path have the new one, and
-- the others have the path they had.
pub client_rename_path_lem :
    (old new : Str) (j : ℕ) (t : Table)
    → entry (client_rename_path old new t).fd_paths j
      ≡ (if leb 3 j && matches old (entry t.fd_paths j) then some new else entry t.fd_paths j)
unfolding client_rename_path
client_rename_path_lem old new j t =
    ap (λ ps. entry ps j)
      (each-keeps (λ (b : Table). b.fd_paths ≡ named.fd_paths) (length named.linked_fd_paths) 0
        (rename_linked_step old new) named (λ fd b ge lt e. linked_only old new fd b ∙ e) refl)
    ∙ entry-rename_loop old new (length t.fd_paths - 3) 3 j t
    ∙ rename_range old new (length t.fd_paths) j (entry t.fd_paths j) (entry-beyond t.fd_paths j)
  where
    named : Table
    named = each (length t.fd_paths - 3) 3 (rename_step old new) t

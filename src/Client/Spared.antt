-- ===== src/Client/Spared.antt =====
-- What closefrom spares.
use pseudo.Prelude.{
  ℕ, zero, suc, ◌+◌, ◌≤◌, ◌≡◌, ◌≢◌, refl, sym, ◌∙◌, ◌⊎◌, inl, inr, Bool, true, false, ◌||◌, List,
  [], ◌∷◌, ◌++◌, All, ℤ, pos, negsuc, int_eq, int_eq_refl, eq_of_int_eq, int_eq_of_ne, Bool-cases,
  arith,
}
use mathlib.Core.Path.{subst}
use pseudo.Client.Descriptors.{Table}
use pseudo.Client.Closing.{
  int_lt, next, distance, raise, start_from, among, closed_below, closefrom,
}

lt-next : (a : ℤ) → int_lt a (next a) ≡ true
lt-next (pos n) = ground arith
lt-next (negsuc zero) = refl
lt-next (negsuc (suc n)) = ground arith

lt-next_trans : (a b : ℤ) → int_lt a b ≡ true → int_lt a (next b) ≡ true
lt-next_trans (pos a) (pos b) h = ground arith
lt-next_trans (pos a) (negsuc b) h = cc
lt-next_trans (negsuc a) (pos b) h = refl
lt-next_trans (negsuc a) (negsuc zero) h = refl
lt-next_trans (negsuc a) (negsuc (suc b)) h = ground arith

lt_trans : (a b c : ℤ) → int_lt a b ≡ true → int_lt b c ≡ true → int_lt a c ≡ true
lt_trans (pos a) (pos b) (pos c) h k = ground arith
lt_trans (pos a) (pos b) (negsuc c) h k = cc
lt_trans (pos a) (negsuc b) c h k = cc
lt_trans (negsuc a) (pos b) (pos c) h k = refl
lt_trans (negsuc a) (pos b) (negsuc c) h k = cc
lt_trans (negsuc a) (negsuc b) (pos c) h k = refl
lt_trans (negsuc a) (negsuc b) (negsuc c) h k = ground arith

lt_of_ne : (a b : ℤ) → a ≢ b → int_lt a b ≡ false → int_lt b a ≡ true
lt_of_ne (pos a) (pos b) ne h = ground arith
lt_of_ne (pos a) (negsuc b) ne h = refl
lt_of_ne (negsuc a) (pos b) ne h = cc
lt_of_ne (negsuc a) (negsuc b) ne h = ground arith

-- The start never falls.
lt-raise : (a start own : ℤ) → int_lt a start ≡ true → int_lt a (raise start own) ≡ true
lt-raise a start own h = elim (Bool-cases (int_lt start own)) [
  | inl e ↦ rw e (lt-next_trans a own (lt_trans a start own h e))
  | inr e ↦ rw e h
]

lt-start_from :
    (a start : ℤ) (own : List ℤ) → int_lt a start ≡ true → int_lt a (start_from start own) ≡ true
lt-start_from a start [] h = h
lt-start_from a start (o ∷ own) h = lt-start_from a (raise start o) own (lt-raise a start o h)

own-raise : (start own : ℤ) → own ≢ start → int_lt own (raise start own) ≡ true
own-raise start own ne = elim (Bool-cases (int_lt start own)) [
  | inl e ↦ rw e (lt-next own)
  | inr e ↦ rw e (lt_of_ne start own (λ q. ne (sym q)) e)
]

start_from-append :
    (start : ℤ) (before after : List ℤ)
    → start_from start (before ++ after) ≡ start_from (start_from start before) after
start_from-append start [] after = refl
start_from-append start (o ∷ before) after = start_from-append (raise start o) before after

true-ne-false : true ≢ false
true-ne-false x = cc

or_right : (a b : Bool) → b ≡ true → (a || b) ≡ true
or_right true b h = refl
or_right false b h = h

among-append : (own : ℤ) (before after : List ℤ) → among own (before ++ own ∷ after) ≡ true
among-append own [] after = rw int_eq_refl
among-append own (o ∷ before) after = or_right _ _ (among-append own before after)

none_own :
    (p : ℤ) (own : List ℤ) (count : ℕ) (i : ℤ)
    → among p own ≡ true
    → All (λ d. int_eq d p ≡ false) (closed_below own count i)
none_own p own zero i h = tt
none_own p own (suc count) i h = elim (Bool-cases (among i own)) [
  | inl e ↦ rw e (none_own p own count (next i) h)
  | inr e ↦ rw e (int_eq_of_ne i p (λ q. differ q e), none_own p own count (next i) h)
]
  where
    differ : i ≡ p → among i own ≡ false → ⊥
    differ q e = true-ne-false (sym (subst (λ x. among x own ≡ true) (sym q) h) ∙ e)

distance-next : (i d : ℤ) → int_lt i d ≡ true → distance i d ≡ distance (next i) d + 1
distance-next (pos i) (pos d) h = ground arith
distance-next (pos i) (negsuc d) h = cc
distance-next (negsuc zero) (pos d) h = ground arith
distance-next (negsuc (suc i)) (pos d) h = ground arith
distance-next (negsuc zero) (negsuc d) h = ground arith
distance-next (negsuc (suc i)) (negsuc d) h = ground arith

lt_next_of_lt : (i d : ℤ) → int_lt i d ≡ true → int_lt d (next i) ≡ false
lt_next_of_lt (pos i) (pos d) h = ground arith
lt_next_of_lt (pos i) (negsuc d) h = cc
lt_next_of_lt (negsuc zero) (pos d) h = ground arith
lt_next_of_lt (negsuc (suc i)) (pos d) h = refl
lt_next_of_lt (negsuc zero) (negsuc d) h = ground arith
lt_next_of_lt (negsuc (suc i)) (negsuc d) h = ground arith

distance-lt :
    (i d start : ℤ)
    → int_lt d i ≡ false
    → int_lt d start ≡ true
    → distance i d + 1 ≤ distance i start
distance-lt (pos i) (pos d) (pos s) h k = ground arith
distance-lt (pos i) (pos d) (negsuc s) h k = cc
distance-lt (pos i) (negsuc d) s h k = cc
distance-lt (negsuc i) (pos d) (pos s) h k = ground arith
distance-lt (negsuc i) (pos d) (negsuc s) h k = cc
distance-lt (negsuc i) (negsuc d) (pos s) h k = ground arith
distance-lt (negsuc i) (negsuc d) (negsuc s) h k = ground arith

closed-others :
    (d : ℤ) (own : List ℤ) (count : ℕ) (i : ℤ)
    → among d own ≡ false
    → int_lt d i ≡ false
    → distance i d + 1 ≤ count
    → among d (closed_below own count i) ≡ true
closed-others d own zero i o h k = absurd (omega arith)
closed-others d own (suc count) i o h k = elim (Bool-cases (int_eq i d)) [
  | inl e ↦ rw (
    subst (λ x. among x own ≡ false) (sym (eq_of_int_eq i d e)) o,
    eq_of_int_eq i d e,
    int_eq_refl d,
  )
  | inr e ↦
      let lt = lt_of_ne d i (apart e) h in
      later (
        closed-others d own count (next i) o (lt_next_of_lt i d lt)
          (omega (arith, distance-next i d lt, k)))
]
  where
    apart : int_eq i d ≡ false → d ≢ i
    apart e q = true-ne-false (sym (subst (λ x. int_eq x d ≡ true) q (int_eq_refl d)) ∙ e)

    later :
        among d (closed_below own count (next i)) ≡ true
        → among d (closed_below own (suc count) i) ≡ true
    later rest = elim (Bool-cases (among i own)) [
      | inl e ↦ rw e rest
      | inr e ↦ rw e (or_right _ _ rest)
    ]

others_closed :
    (d fd start : ℤ) (own : List ℤ)
    → (among d own ≡ true)
      ⊎ ((int_lt d fd ≡ true)
          ⊎ ((int_lt d start ≡ false) ⊎ (among d (closed_below own (distance fd start) fd) ≡ true)))
others_closed d fd start own = elim (Bool-cases (among d own)) [
  | inl o ↦ inl o
  | inr o ↦ elim (Bool-cases (int_lt d fd)) [
    | inl l ↦ inr (inl l)
    | inr l ↦ elim (Bool-cases (int_lt d start)) [
      | inl h ↦
          inr (
            inr (inr (closed-others d own (distance fd start) fd o l (distance-lt fd d start l h))))
      | inr h ↦ inr (inr (inl h))
    ]
  ]
]

-- An internal descriptor p that differs from the start which closefrom has reached when it looks at
-- it is not closed: it is below the start that the caller closes from and not among those that are
-- closed one by one. Any descriptor d is internal, or below fd, or not below that start, or
-- is closed one by one.
pub closefrom-spares :
    (before after : List ℤ) (p d fd : ℤ) (t : Table)
    → p ≢ start_from fd before
    → let own = before ++ p ∷ after in
      let closing = closefrom own fd t in
      (int_lt p closing.from ≡ true)
      × All (λ i. int_eq i p ≡ false) closing.one_by_one
      × ((among d own ≡ true)
          ⊎ ((int_lt d fd ≡ true)
              ⊎ ((int_lt d closing.from ≡ false) ⊎ (among d closing.one_by_one ≡ true))))
unfolding closefrom
closefrom-spares before after p d fd t ne = (
  rw (start_from-append fd before (p ∷ after)) (
      lt-start_from p (raise (start_from fd before) p) after
        (own-raise (start_from fd before) p ne)),
  none_own p (before ++ p ∷ after) _ fd (among-append p before after),
  others_closed d fd (start_from fd (before ++ p ∷ after)) (before ++ p ∷ after),
)

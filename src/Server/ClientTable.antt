-- ===== src/Server/ClientTable.antt =====
-- The table of clients under connections and disconnections: open_client and close_client.
use pseudo.Prelude.{
  ℕ, zero, suc, ◌+◌, ◌-◌, ◌<◌, ◌≤◌, ◌≡◌, ◌≢◌, refl, sym, ap, ◌∙◌, Bool, true, false, Option, none,
  some, List, [], ◌∷◌, ◌++◌, length, get_elem?, set, replicate, ltb, ◌==◌, if◌then◌else◌, arith,
  length-set, length-append, get_elem?-set_ne, get_elem?-set_self, eq_of_==, Bool-cases,
  Option-cases, inl, inr,
}
use native.Mathlib.Decide.{dec_lt}
use pseudo.Server.Clients.{
  Client, Table, free_slot, new_client, is_open, start, first_free, next_slot, open_client,
  close_client, lower_highest,
}

-- how many slots are in use
abbrev pub count_open : List Client → ℕ
count_open [] = 0
count_open (c ∷ cs) = if is_open c then suc (count_open cs) else count_open cs

-- No slot above `h` is in use.
abbrev pub FreeAbove : ℕ → List Client → Type 0
FreeAbove h cs = (i : ℕ) (c : Client) → get_elem? cs i ≡ some c → h < i → is_open c ≡ false

-- Slot 0 is in use, `active_clients` counts the slots in use, none of them lies above
-- `highest_client`, and that is a slot of the table.
pub record IsValid (t : Table) : Type 0 where
  pub active : t.active_clients ≡ count_open t.clients
  pub in_range : t.highest_client < length t.clients
  pub above : FreeAbove t.highest_client t.clients
  pub listening : (c : Client) × (get_elem? t.clients 0 ≡ some c) × (is_open c ≡ true)

next_slot-zero : (o : Option ℕ) → next_slot o ≢ some 0
next_slot-zero none h = cc
next_slot-zero (some i) h = ground arith

next_slot-suc : (o : Option ℕ) (i : ℕ) → next_slot o ≡ some (suc i) → o ≡ some i
next_slot-suc none i h = cc
next_slot-suc (some j) i h = ground arith

-- The slot that is found is free.
first_free-free :
    (cs : List Client) (i : ℕ)
    → first_free cs ≡ some i
    → (c : Client) × (get_elem? cs i ≡ some c) × (is_open c ≡ false)
unfolding first_free
first_free-free [] i h = cc
first_free-free (c ∷ cs) zero h = elim (Bool-cases (is_open c)) [
  | inl e ↦ absurd (next_slot-zero (first_free cs) (rw e at h))
  | inr e ↦ (c, refl, e)
]
first_free-free (c ∷ cs) (suc i) h = elim (Bool-cases (is_open c)) [
  | inl e ↦ first_free-free cs i (next_slot-suc (first_free cs) i (rw e at h))
  | inr e ↦ absurd (some-zero-suc i (rw e at h))
]
  where
    some-zero-suc : (j : ℕ) → ◌≡◌ {A = Option ℕ} (some 0) (some (suc j)) → ⊥
    some-zero-suc j k = ground arith

pub get_elem?-lt {ℓ} :
    {A : Type ℓ} (cs : List A) (i : ℕ) {c : A} → get_elem? cs i ≡ some c → i < length cs
get_elem?-lt [] i h = cc
get_elem?-lt (x ∷ cs) zero h = omega arith
get_elem?-lt (x ∷ cs) (suc i) h = omega (arith, get_elem?-lt cs i h)

pub count_open-set :
    (cs : List Client) (i : ℕ) (c d : Client)
    → get_elem? cs i ≡ some c
    → count_open (set cs i d) + (if is_open c then 1 else 0)
      ≡ count_open cs + (if is_open d then 1 else 0)
count_open-set [] i c d h = cc
count_open-set (x ∷ cs) zero c d h = ground (arith, ap is_open_of h)
  where
    is_open_of : Option Client → Bool
    is_open_of none = false
    is_open_of (some k) = is_open k
count_open-set (x ∷ cs) (suc i) c d h = ground (arith, count_open-set cs i c d h)

count_open-append : (cs ds : List Client) → count_open (cs ++ ds) ≡ count_open cs + count_open ds
count_open-append [] ds = omega arith
count_open-append (c ∷ cs) ds = ground (arith, count_open-append cs ds)

count_open-replicate : (n : ℕ) → count_open (replicate n free_slot) ≡ 0
count_open-replicate zero = refl
count_open-replicate (suc n) = count_open-replicate n

get_elem?-replicate :
    (n i : ℕ) (c : Client) → get_elem? (replicate n free_slot) i ≡ some c → is_open c ≡ false
get_elem?-replicate zero i c h = cc
get_elem?-replicate (suc n) zero c h = cc
get_elem?-replicate (suc n) (suc i) c h = get_elem?-replicate n i c h

get_elem?-append_left {ℓ} :
    {A : Type ℓ} (cs ds : List A) (i : ℕ) (c : A)
    → get_elem? cs i ≡ some c
    → get_elem? (cs ++ ds) i ≡ some c
get_elem?-append_left [] ds i c h = cc
get_elem?-append_left (x ∷ cs) ds zero c h = h
get_elem?-append_left (x ∷ cs) ds (suc i) c h = get_elem?-append_left cs ds i c h

-- an entry beyond a table and one more slot is one of the free slots behind it
free_beyond :
    (cs : List Client) (d : Client) (n i : ℕ) (c : Client)
    → get_elem? (cs ++ d ∷ replicate n free_slot) i ≡ some c
    → length cs < i
    → is_open c ≡ false
free_beyond [] d n zero c h lt = absurd (omega arith)
free_beyond [] d n (suc i) c h lt = get_elem?-replicate n i c h
free_beyond (x ∷ cs) d n zero c h lt = absurd (omega arith)
free_beyond (x ∷ cs) d n (suc i) c h lt = free_beyond cs d n i c h (omega arith)

-- The table that the server loop starts with is valid.
pub start-IsValid : (fd pid : ℕ) → IsValid (start fd pid)
unfolding start
start-IsValid fd pid = record {
  active = refl;
  in_range = omega arith;
  above = λ i c e lt. above_start i c e lt;
  listening = (_, refl, refl);
}
  where
    above_start :
        (i : ℕ) (c : Client)
        → get_elem?
            (record { fd = some fd; pid = pid; tag = none; program = none }
              ∷ replicate 15 free_slot)
            i
          ≡ some c
        → 0 < i
        → is_open c ≡ false
    above_start zero c e lt = absurd (omega arith)
    above_start (suc i) c e lt = get_elem?-replicate 15 i c e

false-ne-true : false ≢ true
false-ne-true h = cc

same_open : {a b : Client} → ◌≡◌ {A = Option Client} (some a) (some b) → is_open a ≡ is_open b
same_open {a} {b} h = ground (arith, h)

le_absurd : (h : ℕ) {i j : ℕ} → i ≡ j → (if ltb h i then i else h) < j → ⊥
le_absurd h e lt = ground arith

count_grow : {a b c : ℕ} → a ≡ b → c ≡ b + 1 → a + 1 ≡ c
count_grow p q = omega arith

-- the table with a new client in a free slot
reuse-IsValid :
    (t : Table) (i fd : ℕ) (old : Client)
    → IsValid t
    → get_elem? t.clients i ≡ some old
    → is_open old ≡ false
    → IsValid (record {
      clients = set t.clients i (new_client fd);
      active_clients = t.active_clients + 1;
      highest_client = if ltb t.highest_client i then i else t.highest_client;
    })
reuse-IsValid t i fd old v e f = record {
  active = ground (arith, v.active, f, count_open-set t.clients i old (new_client fd) e);
  in_range =
      ground
        (arith, v.in_range, get_elem?-lt t.clients i e, length-set t.clients i (new_client fd));
  above = λ j c g lt. v.above j c (unset j c g lt) (ground (arith, lt));
  listening = (
    v.listening.0,
    get_elem?-set_ne t.clients i 0 (new_client fd) taken ∙ v.listening.1,
    v.listening.2,
  );
}
  where
    taken : i ≢ 0
    taken z =
        false-ne-true
          (sym f ∙ same_open (sym e ∙ ap (get_elem? t.clients) z ∙ v.listening.1) ∙ v.listening.2)

    unset :
        (j : ℕ) (c : Client)
        → get_elem? (set t.clients i (new_client fd)) j ≡ some c
        → (if ltb t.highest_client i then i else t.highest_client) < j
        → get_elem? t.clients j ≡ some c
    unset j c g lt =
        sym (get_elem?-set_ne t.clients i j (new_client fd) (λ z. le_absurd t.highest_client z lt))
        ∙ g

-- the table with sixteen more slots, the new client in the first of them
grow-IsValid :
    (t : Table) (fd : ℕ)
    → IsValid t
    → IsValid (record {
      clients = t.clients ++ new_client fd ∷ replicate 15 free_slot;
      active_clients = t.active_clients + 1;
      highest_client = length t.clients + 1;
    })
grow-IsValid t fd v = record {
  active =
      count_grow v.active (count_open-append t.clients (new_client fd ∷ replicate 15 free_slot));
  in_range = omega (arith, length-append {0} t.clients (new_client fd ∷ replicate 15 free_slot));
  above = λ j c e lt. free_beyond t.clients (new_client fd) 15 j c e (omega arith);
  listening = (v.listening.0, get_elem?-append_left t.clients _ 0 _ v.listening.1, v.listening.2);
}

-- Accepting a connection keeps a valid table valid, in a free slot, in a larger table, and when
-- there is no memory for one.
pub open_client-IsValid :
    (enough : Bool) (fd : ℕ) (t : Table) → IsValid t → IsValid (open_client enough fd t).1
unfolding open_client
open_client-IsValid enough fd t v = elim (Option-cases (first_free t.clients)) [
  | inl e ↦ elim (Bool-cases enough) [
    | inl m ↦ rw (e, m) (grow-IsValid t fd v)
    | inr m ↦ rw (e, m) v
  ]
  | inr (i, e) ↦
      let (old, g, f) = first_free-free t.clients i e in rw e (reuse-IsValid t i fd old v g f)
]

-- The loop that should lower `highest_client` stops at once, since the slot was freed before it.
lower_highest-set :
    (h : ℕ) (cs : List Client) → h < length cs → lower_highest h (set cs h free_slot) ≡ h
unfolding lower_highest
lower_highest-set zero cs h = refl
lower_highest-set (suc n) cs h = rw (get_elem?-set_self cs (suc n) free_slot h)

lower_highest-same :
    (client h : ℕ) (cs : List Client)
    → h < length cs
    → (client == h) ≡ true
    → lower_highest h (set cs client free_slot) ≡ h
lower_highest-same client h cs lt e = rw (eq_of_== client h e) (lower_highest-set h cs lt)

-- Closing a client never changes highest_client of a valid table, also if the client was the
-- highest one.
pub highest_client-close_client :
    (client : ℕ) (t : Table) → IsValid t → (close_client client t).highest_client ≡ t.highest_client
unfolding close_client
highest_client-close_client client t v = elim (Bool-cases (client == t.highest_client)) [
  | inl e ↦ ground (arith, lower_highest-same client t.highest_client t.clients v.in_range e)
  | inr e ↦ ground arith
]

clients-close_client :
    (client : ℕ) (t : Table)
    → client ≤ t.highest_client
    → client ≢ 0
    → ((close_client client t).clients ≡ set t.clients client free_slot)
      × ((close_client client t).active_clients ≡ t.active_clients - 1)
unfolding close_client
clients-close_client client t le ne = (ground arith, ground arith)

-- Closing a connected client of a valid table other than the listening socket frees its slot,
-- leaves every other slot alone and keeps the table valid.
pub close_client-IsValid :
    (client : ℕ) (old : Client) (t : Table)
    → IsValid t
    → client ≢ 0
    → get_elem? t.clients client ≡ some old
    → is_open old ≡ true
    → ((close_client client t).clients ≡ set t.clients client free_slot)
      × IsValid (close_client client t)
close_client-IsValid client old t v ne e o = (
  parts.0,
  record {
    active =
        rw (parts.0, parts.1)
          (ground (arith, v.active, o, count_open-set t.clients client old free_slot e));
    in_range = rw (parts.0, highest, length-set) v.in_range;
    above = λ j c g lt. stays j c (rw parts.0 at g) (rw highest at lt);
    listening = (
      v.listening.0,
      rw parts.0 (get_elem?-set_ne t.clients client 0 free_slot ne ∙ v.listening.1),
      v.listening.2,
    );
  },
)
  where
    le : client ≤ t.highest_client
    le = elim (dec_lt t.highest_client client) [
      | yes lt ↦ absurd (false-ne-true (sym (v.above client old e lt) ∙ o))
      | no nl ↦ omega arith
    ]

    parts :
        ((close_client client t).clients ≡ set t.clients client free_slot)
        × ((close_client client t).active_clients ≡ t.active_clients - 1)
    parts = clients-close_client client t le ne

    highest : (close_client client t).highest_client ≡ t.highest_client
    highest = highest_client-close_client client t v

    stays :
        (j : ℕ) (c : Client)
        → get_elem? (set t.clients client free_slot) j ≡ some c
        → t.highest_client < j
        → is_open c ≡ false
    stays j c g lt =
        v.above j c (sym (get_elem?-set_ne t.clients client j free_slot (omega (arith, le))) ∙ g) lt

-- ===== src/Client/View.antt =====
-- The two arrays of paths as one slot for each descriptor, on which each call acts by itself.
use pseudo.Prelude.{
  ℕ, zero, suc, ◌-◌, ◌≤◌, ◌≡◌, refl, sym, ◌∙◌, Bool, true, false, ◌&&◌, Option, none, some, List,
  [], ◌∷◌, Str, leb, ◌==◌, ℤ, pos, negsuc, if◌then◌else◌, arith, Bool-cases, inl, inr,
}
use pseudo.Client.Descriptors.{Table, entry, matches, is_set, each}
use pseudo.Client.Bounds.{Call}
use pseudo.Client.Renaming.{in_loop, empty_loop, first_round, later_round, in_range, le_of_leb}

-- What is known of one descriptor.
pub record Slot : Type 0 where
  pub path : Option Str
  pub linked : Option Str

abbrev pub slot_at : ℕ → Table → Slot
slot_at j t = record { path = entry t.fd_paths j; linked = entry t.linked_fd_paths j }

abbrev pub empty_slot : Slot
empty_slot = record { path = none; linked = none }

-- The calls on one slot: a hard link is remembered beside the path that is its file's, and comes in the
-- path's place when that is removed.
abbrev pub link_slot : Str → Str → Slot → Slot
link_slot old new s = record s { linked = (if matches old s.path then some new else s.linked) }

abbrev pub rename_path_slot : Str → Str → Slot → Slot
rename_path_slot old new s = record s { path = (if matches old s.path then some new else s.path) }

abbrev pub rename_link_slot : Str → Str → Slot → Slot
rename_link_slot old new s = record s {
  linked = (if is_set s.path && matches old s.linked then some new else s.linked);
}

abbrev pub unlink_slot : Str → Slot → Slot
unlink_slot path s = record s {
  path = (if is_set s.linked && matches path s.path then s.linked else s.path);
}

abbrev pub at_descriptor : ℤ → ℕ → Bool
at_descriptor (pos fd) j = fd == j
at_descriptor (negsuc n) j = false

abbrev pub from_descriptor : ℤ → ℕ → Bool
from_descriptor (pos fd) j = leb fd j
from_descriptor (negsuc n) j = false

-- The specification: what a call does to the slot of descriptor j.
abbrev pub act_on : Call → ℕ → Slot → Slot
act_on (Call.path fd p) j s = if at_descriptor fd j then record s { path = p } else s
act_on (Call.linked old new) j s = if leb 3 j then link_slot old new s else s
act_on (Call.rename old new) j s =
    rename_link_slot old new (if leb 3 j then rename_path_slot old new s else s)
act_on (Call.unlinked path) j s = unlink_slot path s
act_on (Call.close fd) j s = if at_descriptor fd j then empty_slot else s
act_on (Call.closefrom fd) j s = if from_descriptor fd j then empty_slot else s

abbrev pub act_on_all : List Call → ℕ → Slot → Slot
act_on_all [] j s = s
act_on_all (c ∷ calls) j s = act_on_all calls j (act_on c j s)

slot_next :
    (f : Slot → Slot) (s : Slot) (count from j : ℕ)
    → (if in_loop count (suc from) j
        then f (if from == j then f s else s)
        else (if from == j then f s else s))
      ≡ (if in_loop (suc count) from j then f s else s)
slot_next f s count from j = elim (Bool-cases (from == j)) [
  | inl e ↦ let (a, b) = first_round count from j e in rw (a, b, e)
  | inr e ↦ rw (later_round count from j e, e)
]

-- A loop whose rounds act on one slot each.
pub slot-each :
    (body : ℕ → Table → Table) (f : Slot → Slot) (count from j : ℕ) (t : Table)
    → ((i : ℕ) (b : Table)
        → slot_at j (body i b) ≡ (if i == j then f (slot_at j b) else slot_at j b))
    → slot_at j (each count from body t)
      ≡ (if in_loop count from j then f (slot_at j t) else slot_at j t)
slot-each body f zero from j t k = rw (empty_loop from j)
slot-each body f (suc count) from j t k =
    slot-each body f count (suc from) j (body from t) k
    ∙ rw (k from t) (slot_next f (slot_at j t) count from j)

pub range_lem :
    (f : Slot → Slot) (s : Slot) (n from j : ℕ)
    → (n ≤ j → f s ≡ s)
    → (if in_loop (n - from) from j then f s else s) ≡ (if leb from j then f s else s)
range_lem f s n from j h = elim (Bool-cases (leb n j)) [
  | inl e ↦ both (in_loop (n - from) from j) (leb from j) (h (le_of_leb n j e))
  | inr e ↦ rw (in_range n from j e)
]
  where
    both : (a b : Bool) → f s ≡ s → (if a then f s else s) ≡ (if b then f s else s)
    both true true q = refl
    both true false q = q
    both false true q = sym q
    both false false q = refl

pub whole_range :
    (f : Slot → Slot) (s : Slot) (n j : ℕ)
    → (n ≤ j → f s ≡ s)
    → (if in_loop n 0 j then f s else s) ≡ f s
whole_range f s n j h = elim (Bool-cases (in_loop n 0 j)) [
  | inl e ↦ rw e
  | inr e ↦ rw e (sym (h (ground (arith, e))))
]

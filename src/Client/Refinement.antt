-- ===== src/Client/Refinement.antt =====
-- The arrays of paths against the specification by slots.
use pseudo.Prelude.{
  ℕ, ◌-◌, ◌≤◌, ◌≡◌, refl, ap, ap₂, ◌∙◌, Bool, true, false, ◌&&◌, Option, some, List, [], ◌∷◌, Str,
  length, leb, ◌==◌, ==-refl, eq_of_==, ℤ, pos, negsuc, if◌then◌else◌, arith, Bool-cases, inl, inr,
}
use pseudo.Client.Descriptors.{
  Table, entry, store, matches, is_set, each, client_path, client_path_set, linked_step,
  client_linked_paths, rename_step, rename_linked_step, client_rename_path, unlinked_step,
  client_unlinked_path, client_close, client_closefrom,
}
use pseudo.Client.Arrays.{entry-store}
use pseudo.Client.Bounds.{
  InBounds, Call, run, path-InBounds, linked_paths-InBounds, rename_path-InBounds,
  unlinked_path-InBounds, close-InBounds, closefrom-InBounds,
}
use pseudo.Client.Renaming.{entry-beyond, entry-forget, entry-forget_linked, client_closefrom_lem}
use pseudo.Client.View.{
  Slot, slot_at, link_slot, rename_path_slot, rename_link_slot, unlink_slot, act_on, act_on_all,
  slot-each, range_lem, whole_range,
}

abbrev slot_of : Option Str → Option Str → Slot
slot_of p l = record { path = p; linked = l }

stored_same : (i : ℕ) (p : Option Str) (paths : List (Option Str)) → entry (store i p paths) i ≡ p
stored_same i p paths = entry-store i i p paths ∙ rw (==-refl i)

stored_other :
    (i j : ℕ) (p : Option Str) (paths : List (Option Str))
    → (i == j) ≡ false
    → entry (store i p paths) j ≡ entry paths j
stored_other i j p paths e = entry-store i j p paths ∙ rw e

-- A round that may store in one of the arrays acts on the slot of its descriptor.
link_round :
    (test : ℕ → Bool) (value : ℕ → Option Str) (i j : ℕ) (t : Table)
    → slot_at j
        (if test i then record t { linked_fd_paths = store i (value i) t.linked_fd_paths } else t)
      ≡ (if i == j
          then slot_of (entry t.fd_paths j) (if test j then value j else entry t.linked_fd_paths j)
          else slot_at j t)
link_round test value i j t = elim (Bool-cases (i == j)) [
  | inl e ↦ elim (Bool-cases (test j)) [
    | inl f ↦
        rw (eq_of_== i j e, f, ==-refl j)
          (ap (slot_of (entry t.fd_paths j)) (stored_same j (value j) t.linked_fd_paths))
    | inr f ↦ rw (eq_of_== i j e, f, ==-refl j)
  ]
  | inr e ↦ elim (Bool-cases (test i)) [
    | inl f ↦
        rw (e, f)
          (ap (slot_of (entry t.fd_paths j)) (stored_other i j (value i) t.linked_fd_paths e))
    | inr f ↦ rw (e, f)
  ]
]

path_round :
    (test : ℕ → Bool) (value : ℕ → Option Str) (i j : ℕ) (t : Table)
    → slot_at j (if test i then record t { fd_paths = store i (value i) t.fd_paths } else t) ≡ (
        if i == j
        then slot_of (if test j then value j else entry t.fd_paths j) (entry t.linked_fd_paths j)
        else slot_at j t)
path_round test value i j t = elim (Bool-cases (i == j)) [
  | inl e ↦ elim (Bool-cases (test j)) [
    | inl f ↦
        rw (eq_of_== i j e, f, ==-refl j)
          (ap (λ p. slot_of p (entry t.linked_fd_paths j)) (stored_same j (value j) t.fd_paths))
    | inr f ↦ rw (eq_of_== i j e, f, ==-refl j)
  ]
  | inr e ↦ elim (Bool-cases (test i)) [
    | inl f ↦
        rw (e, f)
          (ap (λ p. slot_of p (entry t.linked_fd_paths j))
            (stored_other i j (value i) t.fd_paths e))
    | inr f ↦ rw (e, f)
  ]
]

and_false : (b : Bool) → (b && false) ≡ false
and_false true = refl
and_false false = refl

slot-linked_paths :
    (old new : Str) (j : ℕ) (t : Table)
    → slot_at j (client_linked_paths old new t) ≡ act_on (Call.linked old new) j (slot_at j t)
unfolding client_linked_paths linked_step
slot-linked_paths old new j t =
    slot-each (linked_step old new) (link_slot old new) (length t.fd_paths - 3) 3 j t
      (λ i b. link_round (λ k. matches old (entry b.fd_paths k)) (λ k. some new) i j b)
    ∙ range_lem (link_slot old new) (slot_at j t) (length t.fd_paths) 3 j
        (λ h. rw (entry-beyond t.fd_paths j h))

slot-rename_path :
    (old new : Str) (j : ℕ) (t : Table)
    → slot_at j (client_rename_path old new t) ≡ act_on (Call.rename old new) j (slot_at j t)
unfolding client_rename_path rename_step rename_linked_step
slot-rename_path old new j t =
    slot-each (rename_linked_step old new) (rename_link_slot old new) (length named.linked_fd_paths)
      0 j named
      (λ i b.
        link_round (λ k. is_set (entry b.fd_paths k) && matches old (entry b.linked_fd_paths k))
          (λ k. some new) i j b)
    ∙ whole_range (rename_link_slot old new) (slot_at j named) (length named.linked_fd_paths) j
        (λ h.
          rw (entry-beyond named.linked_fd_paths j h, and_false (is_set (entry named.fd_paths j))))
    ∙ ap (rename_link_slot old new) renamed
  where
    named : Table
    named = each (length t.fd_paths - 3) 3 (rename_step old new) t

    renamed :
        slot_at j named ≡ (if leb 3 j then rename_path_slot old new (slot_at j t) else slot_at j t)
    renamed =
        slot-each (rename_step old new) (rename_path_slot old new) (length t.fd_paths - 3) 3 j t
          (λ i b. path_round (λ k. matches old (entry b.fd_paths k)) (λ k. some new) i j b)
        ∙ range_lem (rename_path_slot old new) (slot_at j t) (length t.fd_paths) 3 j
            (λ h. rw (entry-beyond t.fd_paths j h))

slot-unlinked_path :
    (path : Str) (j : ℕ) (t : Table)
    → slot_at j (client_unlinked_path path t) ≡ act_on (Call.unlinked path) j (slot_at j t)
unfolding client_unlinked_path unlinked_step
slot-unlinked_path path j t =
    slot-each (unlinked_step path) (unlink_slot path) (length t.linked_fd_paths) 0 j t (λ i b.
      path_round (λ k. is_set (entry b.linked_fd_paths k) && matches path (entry b.fd_paths k))
        (λ k. entry b.linked_fd_paths k) i j b)
    ∙ whole_range (unlink_slot path) (slot_at j t) (length t.linked_fd_paths) j
        (λ h. rw (entry-beyond t.linked_fd_paths j h))

slot-path :
    (fd : ℤ) (p : Option Str) (j : ℕ) (t : Table)
    → slot_at j (client_path fd p t) ≡ act_on (Call.path fd p) j (slot_at j t)
unfolding client_path client_path_set
slot-path (negsuc n) p j t = refl
slot-path (pos fd) p j t = elim (Bool-cases (fd == j)) [
  | inl e ↦ ap (λ q. slot_of q (entry t.linked_fd_paths j)) (entry-store fd j p t.fd_paths) ∙ rw e
  | inr e ↦ ap (λ q. slot_of q (entry t.linked_fd_paths j)) (entry-store fd j p t.fd_paths) ∙ rw e
]

slot-close :
    (fd : ℤ) (j : ℕ) (t : Table)
    → InBounds t
    → slot_at j (client_close fd t) ≡ act_on (Call.close fd) j (slot_at j t)
unfolding client_close InBounds
slot-close (negsuc n) j t h = refl
slot-close (pos fd) j t h = elim (Bool-cases (leb (length t.fd_paths) fd)) [
  | inl e ↦ rw e (elim (Bool-cases (fd == j)) [
    | inl q ↦ rw q (
        ap₂ slot_of (entry-beyond t.fd_paths j (beyond e q))
          (entry-beyond t.linked_fd_paths j (omega (arith, h, beyond e q))))
    | inr q ↦ rw q
  ])
  | inr e ↦ rw e (elim (Bool-cases (fd == j)) [
    | inl q ↦ rw q (ap₂ slot_of (entry-forget fd j t ∙ rw q) (entry-forget_linked fd j t ∙ rw q))
    | inr q ↦ rw q (ap₂ slot_of (entry-forget fd j t ∙ rw q) (entry-forget_linked fd j t ∙ rw q))
  ])
]
  where
    beyond : leb (length t.fd_paths) fd ≡ true → (fd == j) ≡ true → length t.fd_paths ≤ j
    beyond e q = ground arith

slot-closefrom :
    (fd : ℤ) (j : ℕ) (t : Table)
    → InBounds t
    → slot_at j (client_closefrom fd t) ≡ act_on (Call.closefrom fd) j (slot_at j t)
slot-closefrom (negsuc n) j t h = unfold client_closefrom in refl
slot-closefrom (pos fd) j t h = elim (Bool-cases (leb fd j)) [
  | inl e ↦ rw e (
      ap₂ slot_of ((client_closefrom_lem fd j t h).0 ∙ rw e)
        ((client_closefrom_lem fd j t h).1 ∙ rw e))
  | inr e ↦ rw e (
      ap₂ slot_of ((client_closefrom_lem fd j t h).0 ∙ rw e)
        ((client_closefrom_lem fd j t h).1 ∙ rw e))
]

-- If the array of linked paths is not longer than that of paths, any sequence of calls on the two
-- arrays acts on each descriptor as the specification on its own slot of a path and a linked path
-- says, whatever the lengths of the arrays and the order of the loops.
pub run-act_on_all :
    (calls : List Call) (j : ℕ) (t : Table)
    → InBounds t
    → slot_at j (run calls t) ≡ act_on_all calls j (slot_at j t)
unfolding run
run-act_on_all [] j t h = refl
run-act_on_all (Call.path fd p ∷ calls) j t h =
    run-act_on_all calls j (client_path fd p t) (path-InBounds fd p t h)
    ∙ ap (act_on_all calls j) (slot-path fd p j t)
run-act_on_all (Call.linked old new ∷ calls) j t h =
    run-act_on_all calls j (client_linked_paths old new t) (linked_paths-InBounds old new t h)
    ∙ ap (act_on_all calls j) (slot-linked_paths old new j t)
run-act_on_all (Call.rename old new ∷ calls) j t h =
    run-act_on_all calls j (client_rename_path old new t) (rename_path-InBounds old new t h)
    ∙ ap (act_on_all calls j) (slot-rename_path old new j t)
run-act_on_all (Call.unlinked path ∷ calls) j t h =
    run-act_on_all calls j (client_unlinked_path path t) (unlinked_path-InBounds path t h)
    ∙ ap (act_on_all calls j) (slot-unlinked_path path j t)
run-act_on_all (Call.close fd ∷ calls) j t h =
    run-act_on_all calls j (client_close fd t) (close-InBounds fd t h)
    ∙ ap (act_on_all calls j) (slot-close fd j t h)
run-act_on_all (Call.closefrom fd ∷ calls) j t h =
    run-act_on_all calls j (client_closefrom fd t) (closefrom-InBounds fd t h)
    ∙ ap (act_on_all calls j) (slot-closefrom fd j t h)

-- ===== src/Client/Bounds.antt =====
-- The lengths of the two arrays of paths under sequences of calls.
use pseudo.Prelude.{
  ℕ, ◌+◌, ◌-◌, ◌≤◌, ◌<◌, ◌≡◌, refl, ◌&&◌, Option, some, List, [], ◌∷◌, Str, length, length-set, leb,
  ltb, ℤ, pos, negsuc, if◌then◌else◌, arith, Bool-cases, inl, inr,
}
use pseudo.Client.Descriptors.{
  Table, entry, client_path_set, client_path, matches, is_set, each, linked_step,
  client_linked_paths, rename_step, rename_linked_step, client_rename_path, unlinked_step,
  client_unlinked_path, forget, client_close, client_closefrom,
}
use pseudo.Client.Arrays.{length-store, each-keeps}

-- `linked_nfds <= nfds`: the loops that run to linked_nfds read fd_paths in its bounds.
unfoldable pub InBounds : Table → Type 0
InBounds t = length t.linked_fd_paths ≤ length t.fd_paths

-- a call that changes the tables
pub data Call : Type 0 where
  path : ℤ → Option Str → Call
  linked rename : Str → Str → Call
  unlinked : Str → Call
  close closefrom : ℤ → Call

unfoldable pub run : List Call → Table → Table
run [] t = t
run (Call.path fd p ∷ calls) t = run calls (client_path fd p t)
run (Call.linked old new ∷ calls) t = run calls (client_linked_paths old new t)
run (Call.rename old new ∷ calls) t = run calls (client_rename_path old new t)
run (Call.unlinked p ∷ calls) t = run calls (client_unlinked_path p t)
run (Call.close fd ∷ calls) t = run calls (client_close fd t)
run (Call.closefrom fd ∷ calls) t = run calls (client_closefrom fd t)

-- The arrays keep their order of lengths while fd_paths has `n` entries.
Within : ℕ → Table → Type 0
Within n t = (length t.fd_paths ≡ n) × (length t.linked_fd_paths ≤ n)

Within-linked_step :
    (old new : Str) (n fd : ℕ) (t : Table)
    → fd < n
    → Within n t
    → Within n (linked_step old new fd t)
unfolding linked_step Within
Within-linked_step old new n fd t lt h = elim (Bool-cases (matches old (entry t.fd_paths fd))) [
  | inl e ↦ rw e (h.0, stays (length-store fd (some new) t.linked_fd_paths))
  | inr e ↦ rw e h
]
  where
    stays :
        {a : ℕ}
        → a ≡ (if leb (length t.linked_fd_paths) fd then fd + 1 else length t.linked_fd_paths)
        → a ≤ n
    stays e = ground (arith, h.1, lt, e)

Within-rename_step :
    (old new : Str) (n fd : ℕ) (t : Table)
    → fd < n
    → Within n t
    → Within n (rename_step old new fd t)
unfolding rename_step Within
Within-rename_step old new n fd t lt h = elim (Bool-cases (matches old (entry t.fd_paths fd))) [
  | inl e ↦ rw e (stays (length-store fd (some new) t.fd_paths), h.1)
  | inr e ↦ rw e h
]
  where
    stays : {a : ℕ} → a ≡ (if leb (length t.fd_paths) fd then fd + 1 else length t.fd_paths) → a ≡ n
    stays e = ground (arith, h.0, lt, e)

Within-rename_linked_step :
    (old new : Str) (n fd : ℕ) (t : Table)
    → fd < n
    → Within n t
    → Within n (rename_linked_step old new fd t)
unfolding rename_linked_step Within
Within-rename_linked_step old new n fd t lt h =
    elim (Bool-cases (is_set (entry t.fd_paths fd) && matches old (entry t.linked_fd_paths fd))) [
      | inl e ↦ rw e (h.0, stays (length-store fd (some new) t.linked_fd_paths))
      | inr e ↦ rw e h
    ]
  where
    stays :
        {a : ℕ}
        → a ≡ (if leb (length t.linked_fd_paths) fd then fd + 1 else length t.linked_fd_paths)
        → a ≤ n
    stays e = ground (arith, h.1, lt, e)

Within-unlinked_step :
    (gone : Str) (n fd : ℕ) (t : Table) → fd < n → Within n t → Within n (unlinked_step gone fd t)
unfolding unlinked_step Within
Within-unlinked_step gone n fd t lt h =
    elim (Bool-cases (is_set (entry t.linked_fd_paths fd) && matches gone (entry t.fd_paths fd))) [
      | inl e ↦ rw e (stays (length-store fd (entry t.linked_fd_paths fd) t.fd_paths), h.1)
      | inr e ↦ rw e h
    ]
  where
    stays : {a : ℕ} → a ≡ (if leb (length t.fd_paths) fd then fd + 1 else length t.fd_paths) → a ≡ n
    stays e = ground (arith, h.0, lt, e)

Within-forget : (n fd : ℕ) (t : Table) → Within n t → Within n (forget fd t)
unfolding forget Within
Within-forget n fd t h = elim (Bool-cases (ltb fd (length t.linked_fd_paths))) [
  | inl e ↦ rw (e, length-set, length-set) h
  | inr e ↦ rw (e, length-set) h
]

InBounds-of_Within : (n : ℕ) (t : Table) → Within n t → InBounds t
unfolding Within InBounds
InBounds-of_Within n t h = omega (arith, h.0, h.1)

Within-of_InBounds : (t : Table) → InBounds t → Within (length t.fd_paths) t
unfolding Within InBounds
Within-of_InBounds t h = (refl, h)

pub linked_paths-InBounds :
    (old new : Str) (t : Table) → InBounds t → InBounds (client_linked_paths old new t)
unfolding client_linked_paths
linked_paths-InBounds old new t h = InBounds-of_Within (length t.fd_paths) _ (
    each-keeps (Within (length t.fd_paths)) (length t.fd_paths - 3) 3 _ t
      (λ fd b ge lt w. Within-linked_step old new (length t.fd_paths) fd b (omega arith) w)
      (Within-of_InBounds t h))

pub rename_path-InBounds :
    (old new : Str) (t : Table) → InBounds t → InBounds (client_rename_path old new t)
unfolding client_rename_path Within
rename_path-InBounds old new t h = InBounds-of_Within (length t.fd_paths) _ (
    each-keeps (Within (length t.fd_paths)) _ 0 _ named
      (λ fd b ge lt w.
        Within-rename_linked_step old new (length t.fd_paths) fd b (inside within lt) w)
      within)
  where
    named : Table
    named = each (length t.fd_paths - 3) 3 (rename_step old new) t

    within : Within (length t.fd_paths) named
    within =
        each-keeps (Within (length t.fd_paths)) (length t.fd_paths - 3) 3 _ t
          (λ fd b ge lt w. Within-rename_step old new (length t.fd_paths) fd b (omega arith) w)
          (Within-of_InBounds t h)

    inside : {n fd : ℕ} → Within n named → fd < 0 + length named.linked_fd_paths → fd < n
    inside w lt = omega (arith, w.1)

pub unlinked_path-InBounds :
    (gone : Str) (t : Table) → InBounds t → InBounds (client_unlinked_path gone t)
unfolding client_unlinked_path InBounds
unlinked_path-InBounds gone t h = InBounds-of_Within (length t.fd_paths) _ (
    each-keeps (Within (length t.fd_paths)) (length t.linked_fd_paths) 0 _ t
      (λ fd b ge lt w. Within-unlinked_step gone (length t.fd_paths) fd b (inside h lt) w)
      (Within-of_InBounds t h))
  where
    inside : {fd : ℕ} → InBounds t → fd < 0 + length t.linked_fd_paths → fd < length t.fd_paths
    inside w lt = omega (arith, w)

pub path-InBounds :
    (fd : ℤ) (p : Option Str) (t : Table) → InBounds t → InBounds (client_path fd p t)
unfolding client_path client_path_set InBounds
path-InBounds (pos fd) p t h = longer (length-store fd p t.fd_paths)
  where
    longer :
        {a : ℕ}
        → a ≡ (if leb (length t.fd_paths) fd then fd + 1 else length t.fd_paths)
        → length t.linked_fd_paths ≤ a
    longer e = ground (arith, h, e)
path-InBounds (negsuc n) p t h = h

pub close-InBounds : (fd : ℤ) (t : Table) → InBounds t → InBounds (client_close fd t)
unfolding client_close
close-InBounds (negsuc n) t h = h
close-InBounds (pos fd) t h = elim (Bool-cases (leb (length t.fd_paths) fd)) [
  | inl e ↦ rw e h
  | inr e ↦ rw e (
      InBounds-of_Within (length t.fd_paths) _
        (Within-forget (length t.fd_paths) fd t (Within-of_InBounds t h)))
]

pub closefrom-InBounds : (fd : ℤ) (t : Table) → InBounds t → InBounds (client_closefrom fd t)
unfolding client_closefrom
closefrom-InBounds (negsuc n) t h = h
closefrom-InBounds (pos fd) t h = InBounds-of_Within (length t.fd_paths) _ (
    each-keeps (Within (length t.fd_paths)) (length t.fd_paths - fd) fd forget t
      (λ i b ge lt w. Within-forget (length t.fd_paths) i b w) (Within-of_InBounds t h))

-- If the array of linked paths is not longer than that of paths, it is not longer after any
-- sequence of calls, so the loops over it, which also read the other array, stay in bounds.
pub run-InBounds : (calls : List Call) (t : Table) → InBounds t → InBounds (run calls t)
unfolding run
run-InBounds [] t h = h
run-InBounds (Call.path fd p ∷ calls) t h = run-InBounds calls _ (path-InBounds fd p t h)
run-InBounds (Call.linked old new ∷ calls) t h =
    run-InBounds calls _ (linked_paths-InBounds old new t h)
run-InBounds (Call.rename old new ∷ calls) t h =
    run-InBounds calls _ (rename_path-InBounds old new t h)
run-InBounds (Call.unlinked p ∷ calls) t h = run-InBounds calls _ (unlinked_path-InBounds p t h)
run-InBounds (Call.close fd ∷ calls) t h = run-InBounds calls _ (close-InBounds fd t h)
run-InBounds (Call.closefrom fd ∷ calls) t h = run-InBounds calls _ (closefrom-InBounds fd t h)

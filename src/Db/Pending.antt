-- ===== src/Db/Pending.antt =====
-- The deletion of a file in two steps: OP_MAY_UNLINK marks its entries with the client's id,
-- OP_CANCEL_UNLINK takes the mark off and OP_DID_UNLINK deletes what that client marked.
use pseudo.Prelude.{
  ℕ, ◌≡◌, ◌≢◌, refl, sym, ap, ap₂, true, not, ◌&&◌, some, List, [], ◌∷◌, keep, All, Bool-cases,
  int_eq, int_eq_refl, int_eq_of_ne, inl, inr, arith, Str,
}
use pseudo.Message.{Msg}
use pseudo.Db.Column.{as_int}
use pseudo.Db.Tables.{FileRow, Db, at_path}
use pseudo.Db.Files.{
  may_unlink_file, cancel_unlink_file, did_unlink_file, mark_path, text_of, has_path,
}

-- A path's entries are not marked.
abbrev pub Unmarked : Str → FileRow → Type 0
Unmarked path r = at_path path r ≡ true → r.deleting ≡ as_int 0

-- Unmarking undoes marking.
mark-mark :
    (path : Str) (n : ℕ) (rows : List FileRow)
    → All (Unmarked path) rows
    → mark_path path 0 (mark_path path n rows) ≡ rows
unfolding mark_path
mark-mark path n [] h = refl
mark-mark path n (r ∷ rows) h = elim (Bool-cases (at_path path r)) [
  | inl e ↦
      rw (e, e)
        (ap₂ (λ d l. record r { deleting = d } ∷ l) (sym (h.0 e)) (mark-mark path n rows h.1))
  | inr e ↦ rw (e, e) (ap (λ l. r ∷ l) (mark-mark path n rows h.1))
]

-- Deleting what one client marked at a path, after that client marked the path.
delete-mark_self :
    (path : Str) (n : ℕ) (rows : List FileRow)
    → keep (λ r. not (at_path path r && int_eq r.deleting (as_int n))) (mark_path path n rows)
      ≡ keep (λ r. not (at_path path r)) rows
unfolding mark_path
delete-mark_self path n [] = refl
delete-mark_self path n (r ∷ rows) = elim (Bool-cases (at_path path r)) [
  | inl e ↦ rw (e, e, int_eq_refl (as_int n)) (delete-mark_self path n rows)
  | inr e ↦ rw (e, e) (ap (λ l. r ∷ l) (delete-mark_self path n rows))
]

delete-mark_ne :
    (path : Str) (n m : ℕ) (rows : List FileRow)
    → as_int n ≢ as_int m
    → keep (λ r. not (at_path path r && int_eq r.deleting (as_int m))) (mark_path path n rows)
      ≡ mark_path path n rows
unfolding mark_path
delete-mark_ne path n m [] h = refl
delete-mark_ne path n m (r ∷ rows) h = elim (Bool-cases (at_path path r)) [
  | inl e ↦
      rw (e, e, int_eq_of_ne _ _ h)
        (ap (λ l. record r { deleting = as_int n } ∷ l) (delete-mark_ne path n m rows h))
  | inr e ↦ rw (e, e) (ap (λ l. r ∷ l) (delete-mark_ne path n m rows h))
]

-- In an open database, if no entry of the message's path is marked, a client that marks it and
-- cancels leaves the entries as they were.
pub cancel-may_unlink :
    (msg : Msg) (db : Db) (n : ℕ)
    → db.is_open ≡ true
    → has_path msg ≡ true
    → All (Unmarked (text_of msg)) db.files
    → (cancel_unlink_file msg (may_unlink_file msg n db).1).1.files ≡ db.files
unfolding may_unlink_file cancel_unlink_file
cancel-may_unlink msg db n h p u = ground (arith, mark-mark (text_of msg) n db.files u)

-- In an open database, after a client has marked the message's path, its OP_DID_UNLINK deletes
-- exactly the entries at that path, and that of a client with another id deletes none of them.
pub did-may_unlink :
    (msg : Msg) (db : Db) (n m : ℕ)
    → db.is_open ≡ true
    → has_path msg ≡ true
    → as_int n ≢ as_int m
    → ((did_unlink_file msg.path (some msg) n (may_unlink_file msg n db).1).1.files
        ≡ keep (λ r. not (at_path (text_of msg) r)) db.files)
      × ((did_unlink_file msg.path (some msg) m (may_unlink_file msg n db).1).1.files
          ≡ (may_unlink_file msg n db).1.files)
unfolding may_unlink_file did_unlink_file
did-may_unlink msg db n m h p ne = (
  ground (arith, delete-mark_self (text_of msg) n db.files),
  ground (arith, delete-mark_ne (text_of msg) n m db.files ne),
)

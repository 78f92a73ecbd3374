-- ===== src/Db/Rename.antt =====
-- pdb_rename_file on a directory tree: which paths change, and how.
use pseudo.Prelude.{
  ℕ, ◌≡◌, ◌≢◌, refl, ap, ap₂, ◌∙◌, true, false, some, List, [], ◌∷◌, ◌++◌, map, All, Bool-cases,
  inl, inr, if◌then◌else◌, arith, Str, str_eq, length, drop, c_str, cons-ne-nil,
}
use pseudo.Message.{Msg}
use pseudo.Db.Column.{as_int}
use pseudo.Db.Tables.{FileRow, Db, Sqlite, at_path, occurs}
use pseudo.Db.Order.{is_below, in_subtree-is_below, append_of_is_below, is_below-append}
use pseudo.Db.Files.{rename_rows, rename_file, text_of, has_path}

-- The entry after its tree has moved: the old prefix becomes the new one.
unfoldable pub moved : Str → Str → FileRow → FileRow
moved old new r =
    if at_path old r
    then record r { path = new; deleting = as_int 0 }
    else if is_below old r.path
    then record r { path = new ++ drop (length old) r.path; deleting = as_int 0 }
    else r

-- The old path does not occur again in the rest of a path below it.
abbrev pub NoRepeat : Str → FileRow → Type 0
NoRepeat old r = is_below old r.path ≡ true → occurs old (drop (length old) r.path) ≡ false

drop-append : (p s : Str) → drop (length p) (p ++ s) ≡ s
drop-append [] s = refl
drop-append (x ∷ p) s = drop-append p s

str_eq-longer : (p : Str) (c : ℕ) (s : Str) → str_eq (p ++ c ∷ s) p ≡ false
str_eq-longer [] c s = refl
str_eq-longer (x ∷ p) c s = ground (arith, str_eq-longer p c s)

module _ (sql : Sqlite) (old new : Str) (ne : old ≢ []) (outside : is_below old new ≡ false) where
  replace_prefix :
      (path : Str)
      → is_below old path ≡ true
      → occurs old (drop (length old) path) ≡ false
      → sql.replace path old new ≡ new ++ drop (length old) path
  replace_prefix path b o =
      let (c, r, e) = append_of_is_below old path b in
      rw (e, drop-append old)
        (sql.replace-hit old new _ ne
          ∙ ap (λ t. new ++ t) (sql.replace-miss _ old new (rw (e, drop-append old) at o)))

  pub rename_rows-moved :
      (rows : List FileRow)
      → All (NoRepeat old) rows
      → rename_rows sql old new rows ≡ map (moved old new) rows
  unfolding rename_rows moved
  rename_rows-moved [] h = refl
  rename_rows-moved (r ∷ rows) h = elim (Bool-cases (at_path old r)) [
    | inl e ↦
        rw (e, in_subtree-is_below, outside)
          (ap (λ l. record r { path = new; deleting = as_int 0 } ∷ l) (rename_rows-moved rows h.1))
    | inr e ↦ elim (Bool-cases (is_below old r.path)) [
      | inl b ↦
          rw (e, in_subtree-is_below, b)
            (ap₂ (λ t l. record r { path = t; deleting = as_int 0 } ∷ l)
              (replace_prefix r.path b (h.0 b)) (rename_rows-moved rows h.1))
      | inr b ↦ rw (e, in_subtree-is_below, b) (ap (λ l. r ∷ l) (rename_rows-moved rows h.1))
    ]
  ]

-- In an open database, a rename to a path outside the old tree gives the entry of the old path the
-- new path, gives every entry below it the new prefix in place of the old one, takes the deletion
-- marks off these, and changes no other entry, if the message has a path and the old path is not
-- empty and does not occur again in the rest of a path below it.
pub rename_file-moved :
    (sql : Sqlite) (oldpath : Str) (msg : Msg) (db : Db)
    → db.is_open ≡ true
    → has_path msg ≡ true
    → c_str oldpath ≢ []
    → is_below (c_str oldpath) (text_of msg) ≡ false
    → All (NoRepeat (c_str oldpath)) db.files
    → (rename_file sql (some oldpath) msg db).1.files
      ≡ map (moved (c_str oldpath) (text_of msg)) db.files
unfolding rename_file
rename_file-moved sql oldpath msg db h p ne outside once =
    rw (h, p) (rename_rows-moved sql (c_str oldpath) (text_of msg) ne outside db.files once)

-- An entry whose path is the old path, an absolute one of two bytes at least, twice and then a
-- rest in which it does not occur has both replaced by the new path: replace() changes every
-- occurrence, so /a/b/a/b/x becomes /c/c/x in a rename of the tree /a/b to /c.
pub rename_rows-repeat :
    (sql : Sqlite) (c : ℕ) (o new s : Str) (r : FileRow)
    → let old = b'/' ∷ c ∷ o in
      r.path ≡ old ++ (old ++ s)
      → occurs old s ≡ false
      → rename_rows sql old new (r ∷ [])
        ≡ record r { path = new ++ (new ++ s); deleting = as_int 0 } ∷ []
unfolding rename_rows
rename_rows-repeat sql c o new s r e once = rw (
  e,
  str_eq-longer (b'/' ∷ c ∷ o) b'/' (c ∷ (o ++ s)),
  in_subtree-is_below,
  is_below-append (b'/' ∷ c ∷ o) c (o ++ s),
  sql.replace-hit (b'/' ∷ c ∷ o) new ((b'/' ∷ c ∷ o) ++ s) cons-ne-nil,
  sql.replace-hit (b'/' ∷ c ∷ o) new s cons-ne-nil,
  sql.replace-miss s (b'/' ∷ c ∷ o) new once,
)

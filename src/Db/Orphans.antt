-- ===== src/Db/Orphans.antt =====
-- Attributes without a file: which deletions leave none behind.
use pseudo.Prelude.{
  ◌≡◌, ◌≢◌, refl, ap, ◌∙◌, Bool, true, false, not, ◌&&◌, List, [], keep, All, All-keep, All-map,
  All-of_All, keep-keep, keep_congr, keep-eq-nil, Bool-cases, ℤ, int_eq, eq_of_int_eq, inl, inr,
  arith, All-zip, keep-All,
}
use pseudo.Message.{Msg}
use pseudo.Db.Tables.{FileRow, XattrRow, Db, at_inode, xattr_at, links, is_nil}
use pseudo.Db.Order.{in_subtree, is_below, in_subtree-is_below}
use pseudo.Db.Xattrs.{clear_unused_xattrs, dev_key, ino_key}
use pseudo.Db.Files.{unlink_file_dev, unlink_contents, text_of, has_path}

-- the attribute belongs to an inode that some entry of `files` has
abbrev pub HasFile : List FileRow → XattrRow → Type 0
HasFile files x = is_nil (links x.dev x.ino files) ≡ false

-- Every attribute belongs to an inode of `files`.
abbrev pub NoOrphans : Db → Type 0
NoOrphans db = All (HasFile db.files) db.xattrs

false-ne-true : false ≢ true
false-ne-true h = cc

not-true : (b : Bool) → not b ≡ true → b ≡ false
not-true true h = cc
not-true false h = refl

-- The sweep leaves no orphan, whatever was there before.
pub clear_unused_xattrs-NoOrphans :
    (db : Db) → db.is_open ≡ true → NoOrphans (clear_unused_xattrs db)
unfolding clear_unused_xattrs
clear_unused_xattrs-NoOrphans db h = rw h (
    All-map _ (HasFile db.files) _ (λ x e. not-true _ e)
      (All-keep (λ x. not (is_nil (links x.dev x.ino db.files))) db.xattrs))

-- the rows of another inode are untouched by a deletion of one inode
at_other :
    (d i e j : ℤ) (r : FileRow)
    → (int_eq e d && int_eq j i) ≡ false
    → (not (at_inode d i r) && at_inode e j r) ≡ at_inode e j r
at_other d i e j r h = ground (arith, eq_of_int_eq r.dev e, eq_of_int_eq r.ino j)

-- No row of an inode is left after the deletion of the inode.
at_same : (d i : ℤ) (r : FileRow) → (not (at_inode d i r) && at_inode d i r) ≡ false
at_same d i r = ground arith

links_after_other :
    (d i e j : ℤ) (rows : List FileRow)
    → (int_eq e d && int_eq j i) ≡ false
    → links e j (keep (λ r. not (at_inode d i r)) rows) ≡ links e j rows
links_after_other d i e j rows h =
    keep-keep (at_inode e j) (λ r. not (at_inode d i r)) rows
    ∙ keep_congr _ _ rows (All-of_All _ rows (λ r. at_other d i e j r h))

links_after_same :
    (d i : ℤ) (rows : List FileRow) → links d i (keep (λ r. not (at_inode d i r)) rows) ≡ []
links_after_same d i rows =
    keep-keep (at_inode d i) (λ r. not (at_inode d i r)) rows
    ∙ keep-eq-nil _ rows (All-of_All _ rows (λ r. at_same d i r))

-- what holds of an attribute that pdb_clear_xattrs keeps after the deletion
keeps_file :
    (d i : ℤ) (rows : List FileRow) (x : XattrRow)
    → HasFile rows x
    → not (xattr_at d i x && is_nil (links d i (keep (λ r. not (at_inode d i r)) rows))) ≡ true
    → HasFile (keep (λ r. not (at_inode d i r)) rows) x
keeps_file d i rows x h k = elim (Bool-cases (xattr_at d i x)) [
  | inl e ↦ absurd (false-ne-true (rw (e, links_after_same d i rows) at k))
  | inr e ↦ rw (links_after_other d i x.dev x.ino rows e) h
]

-- Deleting every entry of an inode keeps a database free of attributes without a file.
pub unlink_file_dev-NoOrphans :
    (msg : Msg) (db : Db) → NoOrphans db → NoOrphans (unlink_file_dev msg db).1
unfolding unlink_file_dev
unlink_file_dev-NoOrphans msg db h = elim (Bool-cases db.is_open) [
  | inl e ↦ rw e (
      All-map _ (HasFile (keep (λ r. not (at_inode (dev_key msg) (ino_key msg) r)) db.files)) _
        (λ x p. keeps_file (dev_key msg) (ino_key msg) db.files x p.0 p.1)
        (All-zip _ _ _ (keep-All (HasFile db.files) _ db.xattrs h) (All-keep _ db.xattrs)))
  | inr e ↦ rw e h
]

-- In an open database, removing the contents of a path that is not empty keeps exactly the entries
-- that are not below it, and leaves no attribute without a file.
pub unlink_contents_lem :
    (msg : Msg) (db : Db)
    → db.is_open ≡ true
    → has_path msg ≡ true
    → ((unlink_contents msg db).1.files ≡ keep (λ r. not (is_below (text_of msg) r.path)) db.files)
      × NoOrphans (unlink_contents msg db).1
unfolding unlink_contents
unlink_contents_lem msg db h p = rw h (
    rw p (
      keep_congr _ _ db.files
          (All-of_All _ db.files (λ r. ap not (in_subtree-is_below (text_of msg) r.path))),
      sweep,
    ))
  where
    sweep :
        All
          (λ x.
            is_nil (links x.dev x.ino (keep (λ r. not (in_subtree (text_of msg) r.path)) db.files))
            ≡ false)
          (keep
            (λ x. not (
              is_nil
                (links x.dev x.ino (keep (λ r. not (in_subtree (text_of msg) r.path)) db.files))))
            db.xattrs)
    sweep = All-map _ _ _ (λ x e. not-true _ e) (All-keep _ db.xattrs)

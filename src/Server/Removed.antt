-- ===== src/Server/Removed.antt =====
-- A file whose last link is removed: OP_UNLINK, and the OP_STAT that follows.
use pseudo.Prelude.{
  ◌≡◌, refl, ap, ◌∙◌, Bool, true, false, not, List, [], ◌∷◌, keep, keep-eq-nil, All, All-map,
  All-keep, keep-All, Bool-cases, inl, inr,
}
use pseudo.Message.{Msg, Op, Res}
use pseudo.Db.Tables.{FileRow, Db, Sqlite, at_path, at_inode, links, is_nil}
use pseudo.Db.Order.{in_subtree}
use pseudo.Db.Xattrs.{dev_key, ino_key, check_xattrs, clear_xattrs, clear_unused_xattrs}
use pseudo.Db.Files.{text_of, has_path, unlink_file, unlink_contents, unlink_file_dev}
use pseudo.Server.Context.{fresh, prefers_ino}
use pseudo.Server.Lookup.{check_path, check_ino}
use pseudo.Server.Handlers.{do_unlink, do_stat, dispatch}
use pseudo.Server.Respond.{Reply, pseudo_op, run_checked, reply_of, mark_unlinked}
use pseudo.Server.Known.{
  exact_rows, IsPlain, accepted, known, SameKind, prepare-plain, pseudo_op-known,
}
use pseudo.Server.Illusion.{SameFile}
use pseudo.Server.Unknown.{path_rows, inode_rows, find_entries-unknown}

-- a step that keeps the database open and the entries that do not satisfy p
abbrev Drops : (FileRow → Bool) → Db → Db → Type 0
Drops p db after = (after.is_open ≡ true) × (after.files ≡ keep (λ r. not (p r)) db.files)

unlink_file-Drops :
    (m : Msg) (db : Db)
    → db.is_open ≡ true
    → has_path m ≡ true
    → Drops (at_path (text_of m)) db (unlink_file m db).1
unfolding unlink_file check_xattrs clear_xattrs
unlink_file-Drops m db o p =
    elim (Bool-cases
      (is_nil (links (dev_key m) (ino_key m) (keep (λ r. not (at_path (text_of m) r)) db.files)))) [
        | inl e ↦ rw (o, p, e) (refl, refl)
        | inr e ↦ rw (o, p, e) (refl, refl)
      ]

unlink_contents-Drops :
    (m : Msg) (db : Db)
    → db.is_open ≡ true
    → has_path m ≡ true
    → Drops (λ r. in_subtree (text_of m) r.path) db (unlink_contents m db).1
unfolding unlink_contents clear_unused_xattrs
unlink_contents-Drops m db o p = rw (o, p) (refl, refl)

unlink_file_dev-Drops :
    (m : Msg) (db : Db)
    → db.is_open ≡ true
    → Drops (at_inode (dev_key m) (ino_key m)) db (unlink_file_dev m db).1
unfolding unlink_file_dev clear_xattrs
unlink_file_dev-Drops m db o = rw o (refl, refl)

not-true : (b : Bool) → not b ≡ true → b ≡ false
not-true true h = cc
not-true false h = refl

none_left :
    (p : FileRow → Bool) (rows : List FileRow) → All (λ r. p r ≡ false) (keep (λ r. not (p r)) rows)
none_left p rows = All-map _ _ _ (λ r e. not-true (p r) e) (All-keep (λ r. not (p r)) rows)

still_none :
    (p q : FileRow → Bool) (rows left : List FileRow)
    → left ≡ keep q rows
    → All (λ r. p r ≡ false) rows
    → All (λ r. p r ≡ false) left
still_none p q rows left e h = rw e (keep-All _ _ rows h)

first_none :
    (p : FileRow → Bool) (rows left : List FileRow)
    → left ≡ keep (λ r. not (p r)) rows
    → All (λ r. p r ≡ false) left
first_none p rows left e = rw e (none_left p rows)

-- the database after an unlink of the last link
abbrev removed : Msg → Db → Db
removed m db = (unlink_file_dev m (unlink_contents m (unlink_file m db).1).1).1

rows-removed :
    (m : Msg) (db : Db)
    → db.is_open ≡ true
    → has_path m ≡ true
    → ((removed m db).is_open ≡ true)
      × (path_rows m (removed m db) ≡ [])
      × (inode_rows m (removed m db) ≡ [])
rows-removed m db o p =
    let a = unlink_file-Drops m db o p in
    let b = unlink_contents-Drops m _ a.0 p in
    let c = unlink_file_dev-Drops m _ b.0 in
    (
      c.0,
      keep-eq-nil (at_path (text_of m)) _ (
          still_none (at_path (text_of m)) _ _ _ c.1 (
            still_none (at_path (text_of m)) _ _ _ b.1 (first_none (at_path (text_of m)) _ _ a.1))),
      keep-eq-nil (at_inode (dev_key m) (ino_key m)) _
          (first_none (at_inode (dev_key m) (ino_key m)) _ _ c.1),
    )

pseudo_op-unlink :
    (sql : Sqlite) (held m : Msg) (db : Db) (r : FileRow)
    → db.is_open ≡ true
    → IsPlain m
    → m.op ≡ Op.unlink
    → m.nlink ≡ 1
    → exact_rows m db ≡ r ∷ []
    → SameKind m r
    → (pseudo_op sql held m db).db ≡ removed (accepted m) db
unfolding known do_unlink dispatch mark_unlinked prefers_ino reply_of
pseudo_op-unlink sql held m db r o h u n e k =
    ap (λ (y : Reply). y.db) (pseudo_op-known sql held m db r o h (rw u) e k) ∙ rw (u, n)

-- A stat of a file whose path and inode have no entry fails.
stat-unknown :
    (sql : Sqlite) (held q : Msg) (db : Db)
    → db.is_open ≡ true
    → IsPlain q
    → q.op ≡ Op.stat
    → path_rows q db ≡ []
    → inode_rows q db ≡ []
    → (pseudo_op sql held q db).msg ≡ record q { result = Res.fail }
unfolding pseudo_op run_checked check_path check_ino fresh dispatch do_stat mark_unlinked
    prefers_ino reply_of
stat-unknown sql held q db o h s e i =
    rw (prepare-plain q db h, find_entries-unknown sql q db o h e i, s)

-- In an open database, after a plain unlink, with a link count of 1, of a file that has one entry
-- with its path, device and inode, of the kind that the request says, a plain OP_STAT of the same
-- file fails.
pub stat-unlink :
    (sql : Sqlite) (held m q : Msg) (db : Db) (r : FileRow)
    → db.is_open ≡ true
    → IsPlain m
    → IsPlain q
    → m.op ≡ Op.unlink
    → m.nlink ≡ 1
    → q.op ≡ Op.stat
    → SameFile m q
    → exact_rows m db ≡ r ∷ []
    → SameKind m r
    → (pseudo_op sql held q (pseudo_op sql held m db).db).msg ≡ record q { result = Res.fail }
stat-unlink sql held m q db r o hm hq u n s f e k =
    let (opened, by_path, by_inode) = rows-removed (accepted m) db o hm.path in
    ap (λ d. (pseudo_op sql held q d).msg) (pseudo_op-unlink sql held m db r o hm u n e k)
    ∙ stat-unknown sql held q (removed (accepted m) db) opened hq s (rw f.path by_path)
        (rw (f.dev, f.ino) by_inode)

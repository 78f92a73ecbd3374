-- ===== src/Server/Known.antt =====
-- An operation on a file that the database knows by path, device and inode, or does not know at
-- all: what reaches the switch over the operations in pseudo_op.
use pseudo.Prelude.{
  ◌-◌, ◌≡◌, refl, true, false, ◌&&◌, some, List, [], ◌∷◌, keep, Bool-cases, inl, inr, str_eq_refl,
  ==-refl,
}
use pseudo.Message.{Msg, Op, Res}
use pseudo.Db.Tables.{FileRow, Db, Sqlite, at_path, at_inode}
use pseudo.Db.Xattrs.{dev_key, ino_key}
use pseudo.Db.Files.{text_of, has_path, read_owner}
use pseudo.Db.Find.{find_file_exact-one}
use pseudo.Server.Context.{
  Context, fresh, split_paths, stash_header, has_two_paths, slash_at, prefers_ino,
}
use pseudo.Server.Lookup.{
  find_exact, find_entries, check_path, check_ino, same_kind, drop_marked, match_paths,
  drop_wrong_kind, is_mismatch, is_op, has_inode,
}
use pseudo.Server.Handlers.{dispatch}
use pseudo.Server.Respond.{reply_of, mark_unlinked, run_checked, prepare, pseudo_op}

-- The entries with the message's path, device and inode.
abbrev pub exact_rows : Msg → Db → List FileRow
exact_rows m db = keep (λ x. at_path (text_of m) x && at_inode (dev_key m) (ino_key m) x) db.files

-- A request with a path that ends in no slash, a device and an inode, of an operation with one path.
pub record IsPlain (m : Msg) : Type 0 where
  pub path : has_path m ≡ true
  pub inode : has_inode m ≡ true
  pub no_slash : slash_at m.path (m.pathlen - 1) ≡ false
  pub one_path : has_two_paths m.op ≡ false

abbrev pub accepted : Msg → Msg
accepted m = record m { result = Res.succeed }

-- the local variables when the entry r was found by path, device and inode
unfoldable pub known : Msg → Db → FileRow → Context
unfolding fresh read_owner
known m db r = record (fresh m db) {
  by_path = read_owner r (accepted m);
  by_ino = read_owner r (accepted m);
  path_by_ino = some (text_of m);
  found_path = true;
  found_ino = true;
  found_exact = true;
}

split_paths-plain : (c : Context) → has_two_paths c.msg.op ≡ false → split_paths c ≡ c
unfolding split_paths
split_paths-plain c h = elim (Bool-cases (has_path c.msg)) [ inl p ↦ rw (p, h) | inr p ↦ rw p ]

stash_header-plain :
    (c : Context)
    → slash_at c.msg.path (c.msg.pathlen - 1) ≡ false
    → stash_header c ≡ record c { header = c.msg; by_ino = c.msg }
unfolding stash_header
stash_header-plain c h = elim (Bool-cases (has_path c.msg)) [ inl p ↦ rw (p, h) | inr p ↦ rw p ]

-- A plain request reaches the lookups as it came.
pub prepare-plain : (m : Msg) (db : Db) → IsPlain m → prepare m db ≡ fresh m db
unfolding prepare fresh
prepare-plain m db h =
    rw (split_paths-plain (fresh m db) h.one_path) (stash_header-plain (fresh m db) h.no_slash)

module _ (sql : Sqlite) (m : Msg) (db : Db) (o : db.is_open ≡ true) (h : IsPlain m) where
  find_exact-known :
      (r : FileRow) → exact_rows m db ≡ r ∷ [] → find_exact sql (fresh m db) ≡ known m db r
  unfolding find_exact known fresh read_owner prefers_ino
  find_exact-known r e = rw (find_file_exact-one sql (accepted m) db o r e, h.path, h.inode)

  pub find_entries-known :
      (r : FileRow) → exact_rows m db ≡ r ∷ [] → find_entries sql (fresh m db) ≡ known m db r
  unfolding find_entries known
  find_entries-known r e = rw (find_exact-known r e)

-- The entry is of the same kind of file as the request says.
abbrev pub SameKind : Msg → FileRow → Type 0
SameKind m r = same_kind (read_owner r m) m ≡ true

drop_marked-known : (m : Msg) (db : Db) (r : FileRow) → drop_marked (known m db r) ≡ known m db r
unfolding drop_marked known fresh read_owner
drop_marked-known m db r = rw (==-refl m.ino)

check_path-known :
    (m : Msg) (db : Db) (r : FileRow)
    → is_op m.op Op.did_unlink ≡ false
    → SameKind m r
    → check_path (known m db r) ≡ known m db r
unfolding check_path known
check_path-known m db r d k = rw (drop_marked-known m db r, d, k)

is_mismatch-known :
    (m : Msg) (db : Db) (r : FileRow)
    → has_two_paths m.op ≡ false
    → is_mismatch m.op (known m db r) (text_of m) ≡ false
unfolding is_mismatch known fresh has_two_paths
is_mismatch-known m db r h = go m.op h
  where
    go : (p : Op) → has_two_paths p ≡ false → is_mismatch p (known m db r) (text_of m) ≡ false
    go Op.link k = refl
    go Op.exec k = refl
    go Op.rename k = cc
    go _ k = rw (str_eq_refl (text_of m))

check_ino-known :
    (m : Msg) (db : Db) (r : FileRow)
    → IsPlain m
    → is_op m.op Op.did_unlink ≡ false
    → SameKind m r
    → check_ino (known m db r) ≡ some (known m db r)
unfolding check_ino match_paths drop_wrong_kind known
check_ino-known m db r h d k = rw (d, h.path, is_mismatch-known m db r h.one_path, k)

-- In an open database, a plain request other than did-unlink on a file that has one entry with its
-- path, device and inode, of the kind that the request says, reaches its case of the switch with
-- the entry found by path and by inode, and no sanity check changes the database.
pub pseudo_op-known :
    (sql : Sqlite) (held m : Msg) (db : Db) (r : FileRow)
    → db.is_open ≡ true
    → IsPlain m
    → is_op m.op Op.did_unlink ≡ false
    → exact_rows m db ≡ r ∷ []
    → SameKind m r
    → pseudo_op sql held m db ≡ reply_of (mark_unlinked (dispatch sql held m.op (known m db r)))
unfolding pseudo_op run_checked known
pseudo_op-known sql held m db r o h d e k = rw (
  prepare-plain m db h,
  find_entries-known sql m db o h r e,
  check_path-known m db r d k,
  check_ino-known m db r h d k,
)

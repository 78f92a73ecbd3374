-- ===== src/Server/Unknown.antt =====
-- An operation on a path that has no entry: a new file, or an inode that is known by another path.
use pseudo.Prelude.{
  ◌≡◌, refl, sym, ◌∙◌, Bool, true, false, not, ◌&&◌, none, some, List, [], ◌∷◌, keep, keep-keep,
  Str, str_eq,
}
use pseudo.Message.{Msg, Op, Res}
use pseudo.Db.Column.{to_u32}
use pseudo.Db.Tables.{FileRow, Db, Sqlite, at_path, at_inode, nameless}
use pseudo.Db.Xattrs.{dev_key, ino_key}
use pseudo.Db.Files.{text_of, read_owner, link_file}
use pseudo.Db.Find.{find_file_exact-nil, find_file_path-nil, find_file_dev-nil, find_file_dev-one}
use pseudo.Server.Context.{Context, fresh, prefers_ino}
use pseudo.Server.Lookup.{
  find_exact, find_path, find_ino, find_entries, check_path, check_ino, match_paths, is_mismatch,
  is_op,
}
use pseudo.Server.Handlers.{dispatch, do_creat}
use pseudo.Server.Respond.{reply_of, mark_unlinked, run_checked, pseudo_op}
use pseudo.Server.Known.{exact_rows, IsPlain, accepted, prepare-plain}

abbrev pub path_rows : Msg → Db → List FileRow
path_rows m db = keep (at_path (text_of m)) db.files

abbrev pub inode_rows : Msg → Db → List FileRow
inode_rows m db = keep (at_inode (dev_key m) (ino_key m)) db.files

pub exact_rows-nil : (m : Msg) (db : Db) → path_rows m db ≡ [] → exact_rows m db ≡ []
exact_rows-nil m db e =
    sym (keep-keep (at_inode (dev_key m) (ino_key m)) (at_path (text_of m)) db.files) ∙ rw e

-- the operations that are refused if the inode is known by another path
abbrev pub checks_path : Op → Bool
checks_path Op.link = false
checks_path Op.exec = false
checks_path Op.rename = false
checks_path Op.did_unlink = false
checks_path _ = true

module _ (sql : Sqlite) (m : Msg) (db : Db) (o : db.is_open ≡ true) (h : IsPlain m)
    (e : path_rows m db ≡ []) where
  find_exact-unknown : find_exact sql (fresh m db) ≡ fresh m db
  unfolding find_exact fresh
  find_exact-unknown =
      rw (find_file_exact-nil sql (accepted m) db o (exact_rows-nil m db e), h.path, h.inode)

  find_path-unknown : find_path sql (fresh m db) ≡ fresh m db
  unfolding find_path fresh
  find_path-unknown = rw (find_file_path-nil sql (accepted m) db o e, h.path)

  find_ino-unknown : inode_rows m db ≡ [] → find_ino sql (fresh m db) ≡ fresh m db
  unfolding find_ino fresh
  find_ino-unknown i = rw (find_file_dev-nil sql (accepted m) db o none i, h.inode)

  -- the local variables when only the inode is known, as r
  found_elsewhere : FileRow → Context
  found_elsewhere r = record (fresh m db) {
    by_ino = read_owner r (accepted m);
    path_by_ino = some r.path;
    found_ino = true;
  }

  find_ino-elsewhere :
      (r : FileRow) → inode_rows m db ≡ r ∷ [] → find_ino sql (fresh m db) ≡ found_elsewhere r
  unfolding find_ino fresh found_elsewhere
  find_ino-elsewhere r i = rw (find_file_dev-one sql (accepted m) db o r none i, h.inode)

  pub find_entries-unknown : inode_rows m db ≡ [] → find_entries sql (fresh m db) ≡ fresh m db
  unfolding find_entries fresh
  find_entries-unknown i = rw (find_exact-unknown, find_path-unknown, find_ino-unknown i)

  find_entries-elsewhere :
      (r : FileRow) → inode_rows m db ≡ r ∷ [] → find_entries sql (fresh m db) ≡ found_elsewhere r
  unfolding find_entries fresh
  find_entries-elsewhere r i = rw (find_exact-unknown, find_path-unknown, find_ino-elsewhere r i)

  -- A creation of a file that is new to the database links the request's data, and nothing else.
  pub pseudo_op-creat :
      (held : Msg)
      → m.op ≡ Op.creat
      → inode_rows m db ≡ []
      → (pseudo_op sql held m db).db ≡ (link_file (accepted m) db).1
  unfolding pseudo_op run_checked check_path check_ino fresh dispatch do_creat mark_unlinked
      prefers_ino reply_of
  pseudo_op-creat held c i = rw (prepare-plain m db h, find_entries-unknown i, c)

is_mismatch-checked :
    (p : Op) (c : Context) (found : Str)
    → checks_path p ≡ true
    → is_mismatch p c found ≡ not (str_eq (text_of c.msg) found) && not (str_eq found nameless)
unfolding is_mismatch
is_mismatch-checked Op.link c found h = cc
is_mismatch-checked Op.exec c found h = cc
is_mismatch-checked Op.rename c found h = cc
is_mismatch-checked _ c found h = refl

did_unlink-checked : (p : Op) → checks_path p ≡ true → is_op p Op.did_unlink ≡ false
did_unlink-checked Op.did_unlink h = cc
did_unlink-checked _ h = refl

-- In an open database, a plain request whose path has no entry and whose inode has one entry, of
-- another path, that has a name and is not about to be deleted, is answered with RESULT_ABORT and
-- changes nothing, for every operation but link, exec, rename and did-unlink.
pub pseudo_op-mismatch :
    (sql : Sqlite) (held m : Msg) (db : Db) (r : FileRow)
    → db.is_open ≡ true
    → IsPlain m
    → path_rows m db ≡ []
    → inode_rows m db ≡ r ∷ []
    → checks_path m.op ≡ true
    → str_eq (text_of m) r.path ≡ false
    → str_eq r.path nameless ≡ false
    → to_u32 r.deleting ≡ 0
    → pseudo_op sql held m db ≡ record {
      code = 0;
      msg = record m { result = Res.abort };
      response = none;
      response_len = 0;
      db = db;
    }
unfolding pseudo_op run_checked check_path check_ino match_paths fresh reply_of read_owner
    found_elsewhere
pseudo_op-mismatch sql held m db r o h e i c ne nn d = rw (
  prepare-plain m db h,
  find_entries-elsewhere sql m db o h e r i,
  did_unlink-checked m.op c,
  h.path,
  is_mismatch-checked m.op (found_elsewhere sql m db o h e r) r.path c,
  ne,
  nn,
  d,
)

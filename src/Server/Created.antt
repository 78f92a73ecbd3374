-- ===== src/Server/Created.antt =====
-- A file that is new to the database: OP_CREAT, and the OP_STAT that follows.
use pseudo.Prelude.{◌≡◌, ap, ◌∙◌, true, [], ◌∷◌, keep-append, str_eq_refl, int_eq_refl}
use pseudo.Message.{Msg, Op}
use pseudo.Db.Tables.{Db, Sqlite}
use pseudo.Db.Xattrs.{dev_key, ino_key}
use pseudo.Db.Files.{text_of, link_file, new_row}
use pseudo.Db.Find.{Fits, read_owner-new_row, is_open-link_file, files-link_file}
use pseudo.Server.Lookup.{same_kind}
use pseudo.Server.Respond.{Reply, pseudo_op}
use pseudo.Server.Known.{exact_rows, IsPlain, accepted}
use pseudo.Server.Stat.{is_stat, pseudo_op-stat}
use pseudo.Server.Illusion.{SameFile, exact_rows-SameFile, answer}
use pseudo.Server.Unknown.{path_rows, inode_rows, exact_rows-nil, pseudo_op-creat}

exact_rows-link_file :
    (m q : Msg) (db : Db)
    → db.is_open ≡ true
    → IsPlain m
    → SameFile m q
    → path_rows m db ≡ []
    → exact_rows q (link_file (accepted m) db).1 ≡ new_row (accepted m) ∷ []
unfolding new_row
exact_rows-link_file m q db o h f e =
    exact_rows-SameFile m q (link_file (accepted m) db).1 f
    ∙ rw (
      files-link_file (accepted m) db o,
      keep-append,
      exact_rows-nil m db e,
      h.path,
      str_eq_refl (text_of m),
      int_eq_refl (dev_key m),
      int_eq_refl (ino_key m),
    )

-- In an open database, a plain creation of a file whose path and inode have no entry is answered,
-- by a plain stat of the same file and kind, with the owner, group, mode and device number of the
-- creation, if these fit their columns.
pub stat-creat :
    (sql : Sqlite) (held m q : Msg) (db : Db)
    → db.is_open ≡ true
    → IsPlain m
    → IsPlain q
    → m.op ≡ Op.creat
    → is_stat q.op ≡ true
    → SameFile m q
    → path_rows m db ≡ []
    → inode_rows m db ≡ []
    → Fits m
    → same_kind m q ≡ true
    → (pseudo_op sql held q (pseudo_op sql held m db).db).msg ≡ answer q m.uid m.gid m.mode m.rdev 0
stat-creat sql held m q db o hm hq cm sq f e i fits k =
    ap (λ d. (pseudo_op sql held q d).msg) (pseudo_op-creat sql m db o hm e held cm i)
    ∙ ap (λ (y : Reply). y.msg)
        (pseudo_op-stat sql held q (link_file (accepted m) db).1 (new_row (accepted m))
          (is_open-link_file (accepted m) db ∙ o) hq sq (exact_rows-link_file m q db o hm f e)
          (rw
            (read_owner-new_row (accepted m) q (record {
              dev = fits.dev;
              ino = fits.ino;
              uid = fits.uid;
              gid = fits.gid;
              mode = fits.mode;
              rdev = fits.rdev;
            }))
            k))
    ∙ read_owner-new_row (accepted m) (accepted q) (record {
      dev = fits.dev;
      ino = fits.ino;
      uid = fits.uid;
      gid = fits.gid;
      mode = fits.mode;
      rdev = fits.rdev;
    })

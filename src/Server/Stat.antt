-- ===== src/Server/Stat.antt =====
-- OP_STAT, OP_CHOWN and OP_CHMOD on a known file.
use pseudo.Prelude.{◌≡◌, refl, Bool, true, false, none, [], ◌∷◌, Bool-cases, inl, inr, arith}
use pseudo.Message.{Msg, Op}
use pseudo.Db.Tables.{FileRow, Db, Sqlite}
use pseudo.Db.Files.{read_owner, update_file}
use pseudo.Server.Context.{Context, prefers_ino}
use pseudo.Server.Lookup.{is_op}
use pseudo.Server.Handlers.{dispatch, do_stat, do_chown, do_chmod, change_file, set_owner, set_mode}
use pseudo.Server.Respond.{reply_of, mark_unlinked, pseudo_op}
use pseudo.Server.Known.{exact_rows, IsPlain, accepted, known, SameKind, pseudo_op-known}

-- a request to stat
abbrev pub is_stat : Op → Bool
is_stat Op.stat = true
is_stat Op.fstat = true
is_stat _ = false

abbrev pub is_chown : Op → Bool
is_chown Op.chown = true
is_chown Op.fchown = true
is_chown _ = false

abbrev pub is_chmod : Op → Bool
is_chmod Op.chmod = true
is_chmod Op.fchmod = true
is_chmod _ = false

mark_unlinked-found : (c : Context) → c.found_path ≡ true → mark_unlinked c ≡ c
unfolding mark_unlinked
mark_unlinked-found c h = elim (Bool-cases (prefers_ino c.msg.op)) [
  | inl e ↦ rw (e, h)
  | inr e ↦ rw e
]

do_stat-known :
    (m : Msg) (db : Db) (r : FileRow)
    → do_stat (known m db r) ≡ record (known m db r) { msg = read_owner r (accepted m) }
unfolding do_stat known
do_stat-known m db r = elim (Bool-cases (prefers_ino m.op)) [ inl e ↦ rw e | inr e ↦ rw e ]

dispatch-stat :
    (sql : Sqlite) (held : Msg) (p : Op) (c : Context)
    → is_stat p ≡ true
    → dispatch sql held p c ≡ do_stat c
unfolding dispatch
dispatch-stat sql held Op.stat c h = refl
dispatch-stat sql held Op.fstat c h = refl
dispatch-stat sql held _ c h = cc

dispatch-chown :
    (sql : Sqlite) (held : Msg) (p : Op) (c : Context)
    → is_chown p ≡ true
    → dispatch sql held p c ≡ do_chown c
unfolding dispatch
dispatch-chown sql held Op.chown c h = refl
dispatch-chown sql held Op.fchown c h = refl
dispatch-chown sql held _ c h = cc

dispatch-chmod :
    (sql : Sqlite) (held : Msg) (p : Op) (c : Context)
    → is_chmod p ≡ true
    → dispatch sql held p c ≡ do_chmod c
unfolding dispatch
dispatch-chmod sql held Op.chmod c h = refl
dispatch-chmod sql held Op.fchmod c h = refl
dispatch-chmod sql held _ c h = cc

-- the entry's data with what the request changes
abbrev pub merged : (Msg → Msg → Msg) → Msg → FileRow → Msg
merged merge m r = merge (accepted m) (read_owner r (accepted m))

abbrev changed : (Msg → Msg → Msg) → Msg → Db → FileRow → Context
changed merge m db r = record (known m db r) {
  msg = merged merge m r;
  db = (update_file (merged merge m r) db).1;
}

change_file-known :
    (merge : Msg → Msg → Msg) (m : Msg) (db : Db) (r : FileRow)
    → change_file merge (known m db r) ≡ changed merge m db r
unfolding change_file known
change_file-known merge m db r = refl

do_chown-known :
    (m : Msg) (db : Db) (r : FileRow)
    → do_chown (known m db r) ≡ change_file set_owner (known m db r)
unfolding do_chown known
do_chown-known m db r = refl

do_chmod-known :
    (m : Msg) (db : Db) (r : FileRow)
    → do_chmod (known m db r) ≡ change_file set_mode (known m db r)
unfolding do_chmod known
do_chmod-known m db r = refl

no_unlink-stat : (p : Op) → is_stat p ≡ true → is_op p Op.did_unlink ≡ false
no_unlink-stat Op.stat t = refl
no_unlink-stat Op.fstat t = refl
no_unlink-stat _ t = ground arith

no_unlink-chown : (p : Op) → is_chown p ≡ true → is_op p Op.did_unlink ≡ false
no_unlink-chown Op.chown t = refl
no_unlink-chown _ t = ground arith

no_unlink-chmod : (p : Op) → is_chmod p ≡ true → is_op p Op.did_unlink ≡ false
no_unlink-chmod Op.chmod t = refl
no_unlink-chmod _ t = ground arith

module _ (sql : Sqlite) (held m : Msg) (db : Db) (r : FileRow) where
  -- A stat of a known file answers with the owner, mode and device number of its entry, and changes
  -- nothing in the database.
  pub pseudo_op-stat :
      db.is_open ≡ true
      → IsPlain m
      → is_stat m.op ≡ true
      → exact_rows m db ≡ r ∷ []
      → SameKind m r
      → pseudo_op sql held m db ≡ record {
        code = 0;
        msg = read_owner r (accepted m);
        response = none;
        response_len = 0;
        db = db;
      }
  unfolding reply_of known
  pseudo_op-stat o h s e k = rw (
    pseudo_op-known sql held m db r o h (no_unlink-stat m.op s) e k,
    dispatch-stat sql held m.op (known m db r) s,
    do_stat-known m db r,
    mark_unlinked-found (record (known m db r) { msg = read_owner r (accepted m) }) refl,
  )

  -- The change of the owner of a known file.
  pub pseudo_op-chown :
      db.is_open ≡ true
      → IsPlain m
      → is_chown m.op ≡ true
      → exact_rows m db ≡ r ∷ []
      → SameKind m r
      → (pseudo_op sql held m db).db ≡ (update_file (merged set_owner m r) db).1
  unfolding reply_of known
  pseudo_op-chown o h s e k = rw (
    pseudo_op-known sql held m db r o h (no_unlink-chown m.op s) e k,
    dispatch-chown sql held m.op (known m db r) s,
    do_chown-known m db r,
    change_file-known set_owner m db r,
    mark_unlinked-found (changed set_owner m db r) refl,
  )

  pub pseudo_op-chmod :
      db.is_open ≡ true
      → IsPlain m
      → is_chmod m.op ≡ true
      → exact_rows m db ≡ r ∷ []
      → SameKind m r
      → (pseudo_op sql held m db).db ≡ (update_file (merged set_mode m r) db).1
  unfolding reply_of known
  pseudo_op-chmod o h s e k = rw (
    pseudo_op-known sql held m db r o h (no_unlink-chmod m.op s) e k,
    dispatch-chmod sql held m.op (known m db r) s,
    do_chmod-known m db r,
    change_file-known set_mode m db r,
    mark_unlinked-found (changed set_mode m db r) refl,
  )

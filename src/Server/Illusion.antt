-- ===== src/Server/Illusion.antt =====
-- The illusion of ownership: OP_STAT after OP_CHOWN and after OP_CHMOD.
use pseudo.Prelude.{
  ℕ, ◌<◌, ◌%◌, ◌/◌, ◌^◌, ◌≡◌, refl, sym, ap, ◌∙◌, true, ◌&&◌, [], ◌∷◌, All-keep, and_right, arith,
  ℤ, pos, negsuc,
}
use pseudo.Message.{Msg, merge_mode, merge_mode_parts}
use pseudo.Db.Column.{as_int, to_u32, to_u64, to_u64-as_int, to_u32-as_int}
use pseudo.Db.Tables.{FileRow, Db, Sqlite, at_path, at_inode}
use pseudo.Db.Xattrs.{dev_key, ino_key}
use pseudo.Db.Named.{keep-update_where}
use pseudo.Db.Files.{text_of, read_owner, update_file}
use pseudo.Server.Lookup.{same_kind}
use pseudo.Server.Handlers.{set_owner, set_mode}
use pseudo.Server.Respond.{Reply, pseudo_op}
use pseudo.Server.Known.{exact_rows, IsPlain, accepted, SameKind}
use pseudo.Server.Stat.{
  is_stat, is_chown, is_chmod, merged, pseudo_op-stat, pseudo_op-chown, pseudo_op-chmod,
}

-- the entry with the owner, mode and device number of a message
abbrev pub stored : Msg → FileRow → FileRow
stored m r = record r {
  uid = as_int m.uid;
  gid = as_int m.gid;
  mode = as_int m.mode;
  rdev = as_int m.rdev;
}

at_inode_of_exact :
    (m : Msg) (db : Db) (r : FileRow)
    → exact_rows m db ≡ r ∷ []
    → at_inode (dev_key m) (ino_key m) r ≡ true
at_inode_of_exact m db r e =
    and_right (at_path (text_of m) r) (at_inode (dev_key m) (ino_key m) r)
      (rw e at
        (All-keep (λ x. at_path (text_of m) x && at_inode (dev_key m) (ino_key m) x) db.files)).0

-- An update of the inode changes the entry that the exact lookup finds, and adds none.
exact_rows-update_file :
    (u q : Msg) (db : Db) (r : FileRow)
    → db.is_open ≡ true
    → u.dev ≡ q.dev
    → u.ino ≡ q.ino
    → exact_rows q db ≡ r ∷ []
    → exact_rows q (update_file u db).1 ≡ stored u r ∷ []
unfolding update_file
exact_rows-update_file u q db r o d i e =
    rw (o, d, i)
      (keep-update_where (λ x. at_path (text_of q) x && at_inode (dev_key q) (ino_key q) x) _
          (λ x. stored u x) db.files (λ x. refl)
        ∙ rw (e, at_inode_of_exact q db r e))

is_open-update_file : (u : Msg) (db : Db) → (update_file u db).1.is_open ≡ db.is_open
unfolding update_file
is_open-update_file u db = ground arith

-- Two requests name the same file.
pub record SameFile (m q : Msg) : Type 0 where
  pub path : text_of q ≡ text_of m
  pub dev : q.dev ≡ m.dev
  pub ino : q.ino ≡ m.ino

-- what a stat answers of an entry
abbrev pub answer : Msg → ℕ → ℕ → ℕ → ℕ → ℕ → Msg
answer q uid gid mode rdev deleting = record (accepted q) {
  uid = uid;
  gid = gid;
  mode = mode;
  rdev = rdev;
  deleting = deleting;
}

read_owner-stored :
    (u q : Msg) (r : FileRow)
    → u.uid < 2 ^ 32
    → u.gid < 2 ^ 32
    → u.mode < 2 ^ 31
    → u.rdev < 2 ^ 31
    → read_owner (stored u r) (accepted q) ≡ answer q u.uid u.gid u.mode u.rdev (to_u32 r.deleting)
unfolding read_owner
read_owner-stored u q r bu bg bm br = rw (
  to_u32-as_int u.uid bu,
  to_u32-as_int u.gid bg,
  to_u64-as_int u.mode bm,
  to_u64-as_int u.rdev br,
)

same_kind-stored :
    (u q : Msg) (r : FileRow) → u.mode < 2 ^ 31 → same_kind u q ≡ true → SameKind q (stored u r)
unfolding read_owner
same_kind-stored u q r bm k = rw (to_u64-as_int u.mode bm) k

-- a stat after the entries of its inode were updated
stat-update_file :
    (sql : Sqlite) (held u q : Msg) (db : Db) (r : FileRow)
    → db.is_open ≡ true
    → IsPlain q
    → is_stat q.op ≡ true
    → exact_rows q db ≡ r ∷ []
    → u.dev ≡ q.dev
    → u.ino ≡ q.ino
    → u.uid < 2 ^ 32
    → u.gid < 2 ^ 32
    → u.mode < 2 ^ 31
    → u.rdev < 2 ^ 31
    → same_kind u q ≡ true
    → (pseudo_op sql held q (update_file u db).1).msg
      ≡ answer q u.uid u.gid u.mode u.rdev (to_u32 r.deleting)
stat-update_file sql held u q db r o hq sq e d i bu bg bm br k =
    ap (λ (y : Reply). y.msg)
      (pseudo_op-stat sql held q (update_file u db).1 (stored u r) (is_open-update_file u db ∙ o) hq
        sq (exact_rows-update_file u q db r o d i e) (same_kind-stored u q r bm k))
    ∙ read_owner-stored u q r bu bg bm br

to_u32-lt : (c : ℤ) → to_u32 c < 2 ^ 32
unfolding to_u32
to_u32-lt (pos n) = omega arith
to_u32-lt (negsuc n) = omega arith

-- The entries of one file are the same for two requests that name it.
pub exact_rows-SameFile : (m q : Msg) (db : Db) → SameFile m q → exact_rows q db ≡ exact_rows m db
exact_rows-SameFile m q db f = rw (f.path, f.dev, f.ino)

merge_mode-lt : (new old : ℕ) → old < 2 ^ 31 → merge_mode new old < 2 ^ 31
unfolding merge_mode
merge_mode-lt new old h = omega arith

merge_mode_bits :
    (new old : ℕ)
    → (merge_mode new old % 2 ^ 12 ≡ new % 2 ^ 12) × (merge_mode new old / 2 ^ 12 ≡ old / 2 ^ 12)
unfolding merge_mode
merge_mode_bits new old = (omega arith, omega arith)

same_kind-merge_mode :
    (m q : Msg) (r : FileRow) → SameKind q r → same_kind (merged set_mode m r) q ≡ true
unfolding set_mode read_owner
same_kind-merge_mode m q r k =
    let parts = merge_mode_parts m.mode (to_u64 r.mode) in rw (parts.2, parts.3) k

module _ (sql : Sqlite) (held m q : Msg) (db : Db) (r : FileRow) where
  -- In an open database, after a plain chown of a file that has one entry with its path, device
  -- and inode, of the kind that both requests say, a plain stat of the same file answers with the
  -- new owner and group, and with the mode, device number and deletion mark that the entry had, if
  -- owner and group are below 2^32 and mode and device number below 2^31.
  pub stat-chown :
      db.is_open ≡ true
      → IsPlain m
      → IsPlain q
      → is_chown m.op ≡ true
      → is_stat q.op ≡ true
      → SameFile m q
      → exact_rows m db ≡ r ∷ []
      → SameKind m r
      → SameKind q r
      → m.uid < 2 ^ 32
      → m.gid < 2 ^ 32
      → to_u64 r.mode < 2 ^ 31
      → to_u64 r.rdev < 2 ^ 31
      → (pseudo_op sql held q (pseudo_op sql held m db).db).msg
        ≡ answer q m.uid m.gid (to_u64 r.mode) (to_u64 r.rdev) (to_u32 r.deleting)
  unfolding set_owner read_owner
  stat-chown o hm hq cm sq f e km kq bu bg bm br =
      ap (λ d. (pseudo_op sql held q d).msg) (pseudo_op-chown sql held m db r o hm cm e km)
      ∙ stat-update_file sql held (merged set_owner m r) q db r o hq sq
          (exact_rows-SameFile m q db f ∙ e) (sym f.dev) (sym f.ino) bu bg bm br kq

  stat-chmod_merged :
      db.is_open ≡ true
      → IsPlain m
      → IsPlain q
      → is_chmod m.op ≡ true
      → is_stat q.op ≡ true
      → SameFile m q
      → exact_rows m db ≡ r ∷ []
      → SameKind m r
      → SameKind q r
      → to_u64 r.mode < 2 ^ 31
      → to_u64 r.rdev < 2 ^ 31
      → (pseudo_op sql held q (pseudo_op sql held m db).db).msg
        ≡ answer q
            (to_u32 r.uid)
            (to_u32 r.gid)
            (merge_mode m.mode (to_u64 r.mode))
            (to_u64 r.rdev)
            (to_u32 r.deleting)
  unfolding set_mode read_owner
  stat-chmod_merged o hm hq cm sq f e km kq bm br =
      ap (λ d. (pseudo_op sql held q d).msg) (pseudo_op-chmod sql held m db r o hm cm e km)
      ∙ stat-update_file sql held (merged set_mode m r) q db r o hq sq
          (exact_rows-SameFile m q db f ∙ e) (sym f.dev) (sym f.ino) (to_u32-lt r.uid)
          (to_u32-lt r.gid) (merge_mode-lt m.mode (to_u64 r.mode) bm) br
          (same_kind-merge_mode m q r kq)

  -- In an open database, after a plain chmod of a file that has one entry with its path, device
  -- and inode, of the kind that both requests say, a plain stat of the same file answers with a mode
  -- whose low twelve bits are those of the new mode and whose other bits are those that the entry
  -- had, and with the owner, group, device number and deletion mark that the entry had, if mode
  -- and device number are below 2^31.
  pub stat-chmod :
      db.is_open ≡ true
      → IsPlain m
      → IsPlain q
      → is_chmod m.op ≡ true
      → is_stat q.op ≡ true
      → SameFile m q
      → exact_rows m db ≡ r ∷ []
      → SameKind m r
      → SameKind q r
      → to_u64 r.mode < 2 ^ 31
      → to_u64 r.rdev < 2 ^ 31
      → let told = (pseudo_op sql held q (pseudo_op sql held m db).db).msg in
        (told.mode % 2 ^ 12 ≡ m.mode % 2 ^ 12)
        × (told.mode / 2 ^ 12 ≡ to_u64 r.mode / 2 ^ 12)
        × (told
            ≡ answer q (to_u32 r.uid) (to_u32 r.gid) told.mode (to_u64 r.rdev) (to_u32 r.deleting))
  stat-chmod o hm hq cm sq f e km kq bm br =
      let told = stat-chmod_merged o hm hq cm sq f e km kq bm br in
      let mode = ap (λ (x : Msg). x.mode) told in
      let bits = merge_mode_bits m.mode (to_u64 r.mode) in
      (
        ap (λ n. n % 2 ^ 12) mode ∙ bits.0,
        ap (λ n. n / 2 ^ 12) mode ∙ bits.1,
        told
            ∙ ap (λ n. answer q (to_u32 r.uid) (to_u32 r.gid) n (to_u64 r.rdev) (to_u32 r.deleting))
                (sym mode),
      )

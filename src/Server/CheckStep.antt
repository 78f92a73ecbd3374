-- ===== src/Server/CheckStep.antt =====
-- What pseudo_db_check with `fix` does with one row.
use pseudo.Prelude.{
  ℕ, ◌≡◌, refl, ap, ◌∙◌, inl, inr, true, not, Option, some, update_where, Str, c_str, Bool-cases,
  Option-cases, eq_of_==,
}
use pseudo.Message.{Msg, is_dir, is_lnk}
use pseudo.Db.Column.{to_u64}
use pseudo.Db.Tables.{FileRow, Sqlite, at_path}
use pseudo.Db.Files.{text_of, has_path}
use pseudo.Db.Corrected.{relocated, marked, update_inode-files, may_unlink_file-files}
use pseudo.Client.Request.{Stat}
use pseudo.Server.Check.{
  file_message, same_type, same_inode, fixup_needed, Scan, do_fixup, check_file,
}
use pseudo.Server.Checked.{Agrees, and_parts, eq_of_bool_eq, text_of-file_message, has_text}

-- The file system has the entry's file, of the same type.
abbrev pub SameType : (Str → Option Stat) → FileRow → Stat → Type 0
SameType lstat r st =
    (lstat (c_str r.path) ≡ some st)
    × (is_lnk st.mode ≡ is_lnk (to_u64 r.mode))
    × (is_dir st.mode ≡ is_dir (to_u64 r.mode))

-- What the loop does with a row: nothing, if it agrees; or it corrects the inode or marks the entries
-- of its path.
pub data Step (lstat : Str → Option Stat) (cookie : ℕ) (r : FileRow) (s s' : Scan) : Type 0 where
  unchanged : s' ≡ s → Agrees lstat r → Step lstat cookie r s s'
  corrected :
      (st : Stat) (m : Msg)
      → SameType lstat r st
      → m.ino ≡ st.ino
      → m.dev ≡ st.dev
      → s'.db.files ≡ update_where (at_path (c_str r.path)) (relocated m) s.db.files
      → s'.db.is_open ≡ true
      → s'.delete_some ≡ s.delete_some
      → Step lstat cookie r s s'
  deleted :
      s'.db.files ≡ update_where (at_path (c_str r.path)) (marked cookie) s.db.files
      → s'.db.is_open ≡ true
      → s'.delete_some ≡ true
      → Step lstat cookie r s s'

module _ (sql : Sqlite) (lstat : Str → Option Stat) (held fresh : ℕ → Msg) (cookie : ℕ) where
  do_fixup-delete :
      (n : ℕ) (r : FileRow) (m : Msg) (s : Scan)
      → s.db.is_open ≡ true
      → has_path m ≡ true
      → text_of m ≡ c_str r.path
      → Step lstat cookie r s (do_fixup sql lstat held fresh cookie true n 2 m s)
  unfolding do_fixup
  do_fixup-delete n r m s h p e =
      let d = may_unlink_file-files m cookie s.db h p in
      deleted (d.0 ∙ ap (λ t. update_where (at_path t) (marked cookie) s.db.files) e) d.1 refl

  do_fixup-correct :
      (n : ℕ) (r : FileRow) (st : Stat) (m : Msg) (s : Scan)
      → s.db.is_open ≡ true
      → has_path m ≡ true
      → text_of m ≡ c_str r.path
      → SameType lstat r st
      → m.ino ≡ st.ino
      → m.dev ≡ st.dev
      → Step lstat cookie r s (do_fixup sql lstat held fresh cookie true n 1 m s)
  unfolding do_fixup
  do_fixup-correct n r st m s h p e k i v =
      let d = update_inode-files sql (held n) m s.db h p in
      corrected st m k i v (d.0 ∙ ap (λ t. update_where (at_path t) (relocated m) s.db.files) e) d.1
        refl

  same_type-SameType :
      (f : Msg) (r : FileRow) (st : Stat)
      → lstat (c_str r.path) ≡ some st
      → same_type st.mode (file_message f r).mode ≡ true
      → SameType lstat r st
  unfolding file_message
  same_type-SameType f r st e k =
      let b = and_parts _ _ k in (e, eq_of_bool_eq _ _ b.0, eq_of_bool_eq _ _ b.1)

  same_inode-Agrees :
      (f : Msg) (r : FileRow) (st : Stat)
      → SameType lstat r st
      → same_inode st (file_message f r) ≡ true
      → Agrees lstat r
  unfolding file_message
  same_inode-Agrees f r st k i =
      let b = and_parts _ _ i in (st, k.0, k.1, k.2, eq_of_== _ _ b.0, eq_of_== _ _ b.1)

  do_fixup-found :
      (n : ℕ) (f : Msg) (r : FileRow) (st : Stat) (s : Scan)
      → s.db.is_open ≡ true
      → lstat (c_str r.path) ≡ some st
      → Step lstat cookie r s (
          do_fixup sql lstat held fresh cookie true n
            (fixup_needed st (file_message f r))
            (record (file_message f r) { ino = st.ino; dev = st.dev })
            s)
  unfolding fixup_needed do_fixup
  do_fixup-found n f r st s h e =
      let m = file_message f r in
      let m' : Msg = record m { ino = st.ino; dev = st.dev } in
      let p = ap not (has_text sql lstat held fresh cookie f r) in
      let text = text_of-file_message sql lstat held fresh cookie f r in
      elim (Bool-cases (same_type st.mode m.mode)) [
        | inl k ↦ rw k (elim (Bool-cases (same_inode st m)) [
          | inl i ↦
              rw i (unchanged refl (same_inode-Agrees f r st (same_type-SameType f r st e k) i))
          | inr i ↦
              rw i (do_fixup-correct n r st m' s h p text (same_type-SameType f r st e k) refl refl)
        ])
        | inr k ↦ rw k (do_fixup-delete n r m' s h p text)
      ]

  pub check_file-Step :
      (n : ℕ) (f : Msg) (r : FileRow) (s : Scan)
      → s.db.is_open ≡ true
      → Step lstat cookie r s (check_file sql lstat held fresh cookie true n (file_message f r) s)
  unfolding check_file
  check_file-Step n f r s h =
      rw
        (
          has_text sql lstat held fresh cookie f r,
          text_of-file_message sql lstat held fresh cookie f r,
        )
        (elim (Option-cases (lstat (c_str r.path))) [
          | inl e ↦ rw e (
              do_fixup-delete n r (file_message f r) s h
                (ap not (has_text sql lstat held fresh cookie f r))
                (text_of-file_message sql lstat held fresh cookie f r))
          | inr (st, e) ↦ rw e (do_fixup-found n f r st s h e)
        ])

-- ===== src/Server/Checked.antt =====
-- What pseudo_db_check finds: the entries that differ from the file system.
use pseudo.Prelude.{
  ℕ, ◌≡◌, ◌≢◌, refl, sym, ap, ◌∙◌, ◌↔◌, inl, inr, Bool, true, false, ◌&&◌, Option, none, some, List,
  [], ◌∷◌, All, Str, c_str, c_str-append_nul, NoNul-c_str, length, Bool-cases, Option-cases, ◌==◌,
  ==-refl, eq_of_==, if◌then◌else◌, arith,
}
use pseudo.Message.{Msg, is_dir, is_lnk}
use pseudo.Db.Column.{to_u64}
use pseudo.Db.Tables.{FileRow, Db, Sqlite}
use pseudo.Db.Files.{text_of}
use pseudo.Client.Request.{Stat}
use pseudo.Server.Lookup.{bool_eq}
use pseudo.Server.Check.{
  file_message, same_type, same_inode, fixup_needed, Scan, do_fixup, check_file, scan, finish,
  db_check,
}

bool_eq_refl : (a : Bool) → bool_eq a a ≡ true
bool_eq_refl true = refl
bool_eq_refl false = refl

pub eq_of_bool_eq : (a b : Bool) → bool_eq a b ≡ true → a ≡ b
eq_of_bool_eq true b h = sym h
eq_of_bool_eq false true h = h
eq_of_bool_eq false false h = refl

pub and_parts : (a b : Bool) → (a && b) ≡ true → (a ≡ true) × (b ≡ true)
and_parts true b h = (refl, h)
and_parts false b h = cc

-- The file system has the entry's file, with its inode, and with its type where it is a link or a
-- directory.
abbrev pub Agrees : (Str → Option Stat) → FileRow → Type 0
Agrees lstat r =
    (st : Stat) × (lstat (c_str r.path) ≡ some st)
    × (is_lnk st.mode ≡ is_lnk (to_u64 r.mode))
    × (is_dir st.mode ≡ is_dir (to_u64 r.mode))
    × (st.ino ≡ to_u64 r.ino)
    × (st.dev ≡ to_u64 r.dev)

kinds_agree : (a b : ℕ) → is_lnk a ≡ is_lnk b → is_dir a ≡ is_dir b → same_type a b ≡ true
kinds_agree a b l d = rw (l, d, bool_eq_refl (is_lnk b), bool_eq_refl (is_dir b)) refl

-- fixup_needed is 0 exactly if nothing differs.
fixup_needed-agrees :
    (st : Stat) (m : Msg)
    → is_lnk st.mode ≡ is_lnk m.mode
    → is_dir st.mode ≡ is_dir m.mode
    → st.ino ≡ m.ino
    → st.dev ≡ m.dev
    → fixup_needed st m ≡ 0
unfolding fixup_needed
fixup_needed-agrees st m l d i v =
    rw (kinds_agree st.mode m.mode l d, i, v, ==-refl m.ino, ==-refl m.dev) refl

agrees-fixup_needed :
    (st : Stat) (m : Msg)
    → fixup_needed st m ≡ 0
    → (same_type st.mode m.mode ≡ true) × (same_inode st m ≡ true)
unfolding fixup_needed
agrees-fixup_needed st m h = ground arith

two_ne_zero : ◌≢◌ {A = ℕ} 2 0
two_ne_zero h = omega arith

one_ne_zero : ◌≢◌ {A = ℕ} 1 0
one_ne_zero h = omega arith

-- What the loop finds to do for a row, from what lstat says
abbrev needs : Msg → Option Stat → ℕ
needs m none = 2
needs m (some st) = fixup_needed st m

module _ (sql : Sqlite) (lstat : Str → Option Stat) (held fresh : ℕ → Msg) (cookie : ℕ) where
  needs-Agrees :
      (f : Msg) (r : FileRow) → Agrees lstat r → needs (file_message f r) (lstat (c_str r.path)) ≡ 0
  unfolding file_message
  needs-Agrees f r (st, e, l, d, i, v) = rw e (fixup_needed-agrees st (file_message f r) l d i v)

  Agrees-needs :
      (f : Msg) (r : FileRow) → needs (file_message f r) (lstat (c_str r.path)) ≡ 0 → Agrees lstat r
  unfolding file_message
  Agrees-needs f r h = elim (Option-cases (lstat (c_str r.path))) [
    | inl e ↦ absurd (two_ne_zero (sym (ap (needs (file_message f r)) e) ∙ h))
    | inr (st, e) ↦
        (let p =
            agrees-fixup_needed st (file_message f r) (sym (ap (needs (file_message f r)) e) ∙ h) in
          let k = and_parts _ _ p.0 in
          let i = and_parts _ _ p.1 in
          (st, e, eq_of_bool_eq _ _ k.0, eq_of_bool_eq _ _ k.1, eq_of_== _ _ i.0, eq_of_== _ _ i.1))
  ]

  pub text_of-file_message : (f : Msg) (r : FileRow) → text_of (file_message f r) ≡ c_str r.path
  unfolding file_message
  text_of-file_message f r = c_str-append_nul (c_str r.path) [] (NoNul-c_str r.path)

  pub has_text : (f : Msg) (r : FileRow) → ((file_message f r).pathlen == 0) ≡ false
  unfolding file_message
  has_text f r = ground arith

  check_file-Agrees :
      (fix : Bool) (n : ℕ) (f : Msg) (r : FileRow) (s : Scan)
      → Agrees lstat r
      → check_file sql lstat held fresh cookie fix n (file_message f r) s ≡ s
  unfolding check_file do_fixup
  check_file-Agrees fix n f r s (st, e, l, d, i, v) =
      rw (has_text f r, text_of-file_message f r, e)
        (rw (sym (ap (needs (file_message f r)) e) ∙ needs-Agrees f r (st, e, l, d, i, v)) refl)

  -- Without `fix` only the result can change.
  check_file-unfixed :
      (n : ℕ) (f : Msg) (r : FileRow) (s : Scan)
      → check_file sql lstat held fresh cookie false n (file_message f r) s ≡ (
          if needs (file_message f r) (lstat (c_str r.path)) == 0
          then s
          else record s { errors = 1 })
  unfolding check_file do_fixup
  check_file-unfixed n f r s =
      rw (has_text f r, text_of-file_message f r)
        (elim (Option-cases (lstat (c_str r.path))) [ inl e ↦ rw e refl | inr (st, e) ↦ rw e refl ])

  scan-Agrees :
      (fix : Bool) (rows : List FileRow) (s : Scan)
      → All (Agrees lstat) rows
      → scan sql lstat held fresh cookie fix rows s ≡ s
  unfolding scan
  scan-Agrees fix [] s h = refl
  scan-Agrees fix (r ∷ rows) s h =
      rw (check_file-Agrees fix (length rows) (fresh (length rows)) r s h.0)
        (scan-Agrees fix rows s h.1)

  -- Once there is an error, the result stays.
  scan-failed :
      (rows : List FileRow) (s : Scan)
      → s.errors ≡ 1
      → (scan sql lstat held fresh cookie false rows s).errors ≡ 1
  unfolding scan
  scan-failed [] s h = h
  scan-failed (r ∷ rows) s h =
      rw (scan, check_file-unfixed (length rows) (fresh (length rows)) r s)
        (elim (Bool-cases
          (needs (file_message (fresh (length rows)) r) (lstat (c_str r.path)) == 0)) [
            | inl e ↦ rw e (scan-failed rows s h)
            | inr e ↦ rw e (scan-failed rows _ refl)
          ])

  scan-unfixed :
      (rows : List FileRow) (s : Scan)
      → ((scan sql lstat held fresh cookie false rows s).db ≡ s.db)
        × ((scan sql lstat held fresh cookie false rows s).delete_some ≡ s.delete_some)
        × ((scan sql lstat held fresh cookie false rows s).errors ≡ 0 → All (Agrees lstat) rows)
  unfolding scan
  scan-unfixed [] s = (refl, refl, λ h. tt)
  scan-unfixed (r ∷ rows) s =
      rw (scan, check_file-unfixed (length rows) (fresh (length rows)) r s)
        (elim (Bool-cases
          (needs (file_message (fresh (length rows)) r) (lstat (c_str r.path)) == 0)) [
            | inl e ↦ rw e (
                let rest = scan-unfixed rows s in
                (
                  rest.0,
                  rest.1,
                  λ h. (Agrees-needs (fresh (length rows)) r (eq_of_== _ _ e), rest.2 h),
                ))
            | inr e ↦ rw e (
                let s' : Scan = record s { errors = 1 } in
                let rest = scan-unfixed rows s' in
                (rest.0, rest.1, λ h. absurd (one_ne_zero (sym (scan-failed rows s' refl) ∙ h))))
          ])

  abbrev pub start : Db → Scan
  start db = record { errors = 0; delete_some = false; db = db }

  pub db_check-open :
      (fix : Bool) (rows : List FileRow) (db : Db)
      → db.is_open ≡ true
      → db_check sql lstat held fresh cookie fix rows db
        ≡ finish sql lstat held fresh cookie fix
            (scan sql lstat held fresh cookie fix rows (start db))
  unfolding db_check
  db_check-open fix rows db h = simp (h)

  finish-plain :
      (fix : Bool) (s : Scan)
      → s.delete_some ≡ false
      → finish sql lstat held fresh cookie fix s ≡ (s.errors, s.db)
  finish-plain fix s h = simp (h)

  -- In an open database, a check without `fix` leaves the database as it is, and it succeeds exactly if
  -- for every row that is read the file system has the file, with its device, its inode and its
  -- type where it is a link or a directory.
  pub db_check-unfixed :
      (rows : List FileRow) (db : Db)
      → db.is_open ≡ true
      → ((db_check sql lstat held fresh cookie false rows db).1 ≡ db)
        × ((db_check sql lstat held fresh cookie false rows db).0 ≡ 0 ↔ All (Agrees lstat) rows)
  db_check-unfixed rows db h =
      let kept = scan-unfixed rows (start db) in
      let run = db_check-open false rows db h ∙ finish-plain false _ kept.1 in
      (
        ap (λ x. x.1) run ∙ kept.0,
        (
          (λ e. kept.2 (sym (ap (λ x. x.0) run) ∙ e)),
          (λ a. ap (λ x. x.0) run ∙ ap (λ x. x.errors) (scan-Agrees false rows (start db) a)),
        ),
      )

  -- With `fix` or without, the check of an open database that agrees with the file system succeeds and
  -- changes nothing.
  pub db_check-Agrees :
      (fix : Bool) (rows : List FileRow) (db : Db)
      → db.is_open ≡ true
      → All (Agrees lstat) rows
      → db_check sql lstat held fresh cookie fix rows db ≡ (0, db)
  db_check-Agrees fix rows db h a =
      db_check-open fix rows db h
      ∙ ap (finish sql lstat held fresh cookie fix) (scan-Agrees fix rows (start db) a)

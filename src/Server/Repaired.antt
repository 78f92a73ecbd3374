-- ===== src/Server/Repaired.antt =====
-- What pseudo_db_check with `fix` leaves: the entries that agree with the file system.
use pseudo.Prelude.{
  ℕ, ◌≡◌, ◌≢◌, inr, Bool, true, false, Option, List, [], ◌∷◌, All, All-map, Str, NoNul, c_str-NoNul,
  length, if◌then◌else◌,
}
use pseudo.Message.{Msg}
use pseudo.Db.Tables.{FileRow, Db, Sqlite}
use pseudo.Db.Corrected.{did_unlink_files-files}
use pseudo.Db.Files.{did_unlink_files}
use pseudo.Client.Request.{Stat}
use pseudo.Server.Check.{file_message, Scan, check_file, scan, finish, db_check}
use pseudo.Server.Checked.{Agrees, db_check-open, start}
use pseudo.Server.CheckStep.{check_file-Step}
use pseudo.Server.SettledRows.{
  InRange, Settled, Step-Settled, Waits-self, remain-Agrees, none_deleted,
}

module _ (sql : Sqlite) (lstat : Str → Option Stat) (held fresh : ℕ → Msg) (cookie : ℕ) where
  scan-Settled :
      (rows : List FileRow) (s : Scan)
      → InRange lstat
      → All (λ r. NoNul r.path) rows
      → s.db.is_open ≡ true
      → All (Settled lstat cookie s.delete_some rows) s.db.files
      → let s' = scan sql lstat held fresh cookie true rows s in
        All (Settled lstat cookie s'.delete_some []) s'.db.files × (s'.db.is_open ≡ true)
  unfolding scan
  scan-Settled [] s range texts h all = (all, h)
  scan-Settled (r ∷ rows) s range texts h all =
      let n = length rows in
      let s' = check_file sql lstat held fresh cookie true n (file_message (fresh n) r) s in
      let step = check_file-Step sql lstat held fresh cookie n (fresh n) r s h in
      let next =
        Step-Settled lstat cookie rows r s s' range (c_str-NoNul r.path texts.0) h step all in
      scan-Settled rows s' range texts.1 next.1 next.0

  finished :
      (deleting : Bool) (e e' : ℕ) (db : Db)
      → cookie ≢ 0
      → db.is_open ≡ true
      → All (Settled lstat cookie deleting []) db.files
      → let ended : ℕ × Db = if deleting then (e, (did_unlink_files cookie db).1) else (e', db) in
        All (Agrees lstat) ended.1.files
  finished true e e' db ne h all =
      rw (did_unlink_files-files cookie db h ne) (remain-Agrees lstat cookie db.files all)
  finished false e e' db ne h all = All-map _ _ db.files (none_deleted lstat cookie) all

  finish-Agrees :
      (s : Scan)
      → cookie ≢ 0
      → s.db.is_open ≡ true
      → All (Settled lstat cookie s.delete_some []) s.db.files
      → All (Agrees lstat) (finish sql lstat held fresh cookie true s).1.files
  finish-Agrees s ne h all = finished s.delete_some _ _ s.db ne h all

  -- In an open database whose paths hold no NUL byte, if the process id is not 0 and the file
  -- system's inode numbers fit 64 bits and its device numbers 31 bits, a check with `fix` that reads
  -- every row leaves only entries that agree with the file system.
  pub db_check-repairs :
      (db : Db)
      → db.is_open ≡ true
      → All (λ r. NoNul r.path) db.files
      → cookie ≢ 0
      → InRange lstat
      → All (Agrees lstat) (db_check sql lstat held fresh cookie true db.files db).1.files
  db_check-repairs db h texts ne range =
      let before = All-map _ _ db.files (λ x w. inr (inr w)) (Waits-self lstat cookie db.files) in
      let after =
        scan-Settled db.files (start sql lstat held fresh cookie db) range texts h before in
      rw (db_check-open sql lstat held fresh cookie true db.files db h)
        (finish-Agrees _ ne after.1 after.0)

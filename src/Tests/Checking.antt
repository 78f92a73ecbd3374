-- ===== src/Tests/Checking.antt =====
-- Runs of the check of the database.
use pseudo.Prelude.{
  ℕ, ◌≡◌, refl, ◌↔◌, Bool, true, false, ap, ◌≢◌, ◌<◌, ◌^◌, Option, none, some, All, Str, str_eq,
  if◌then◌else◌, arith,
}
use pseudo.Message.{Op, Msg}
use pseudo.Client.Request.{Stat}
use pseudo.Server.Check.{db_check}
use pseudo.Server.Checked.{Agrees, db_check-unfixed}
use pseudo.Server.SettledRows.{InRange}
use pseudo.Server.Repaired.{db_check-repairs}
use pseudo.Tests.Engine.{engine}
use pseudo.Tests.Data.{request, file_path, mode_file, three_files}

-- Only the file is there, with another inode.
abbrev renumbered : Stat
renumbered = record { uid = 0; gid = 0; dev = 5; ino = 12; mode = mode_file; rdev = 0; nlink = 1 }

abbrev disk : Str → Option Stat
disk path = if str_eq path file_path then some renumbered else none

abbrev memory : ℕ → Msg
memory n = request Op.stat file_path 0 mode_file

db_check-unfixed_example :
    ((db_check engine disk memory memory 77 false three_files.files three_files).1 ≡ three_files)
    × ((db_check engine disk memory memory 77 false three_files.files three_files).0 ≡ 0
        ↔ All (Agrees disk) three_files.files)
db_check-unfixed_example =
    db_check-unfixed engine disk memory memory 77 three_files.files three_files refl

no_file : ◌≢◌ {A = ℕ} 0 1
no_file h = omega arith

abbrev number : (Stat → ℕ) → Option Stat → ℕ
number field none = 0
number field (some st) = field st

disk-InRange : InRange disk
disk-InRange p st h = disk_cases (str_eq p file_path) st h
  where
    disk_cases :
        (b : Bool) (st : Stat)
        → (if b then some renumbered else none) ≡ some st
        → (st.ino < 2 ^ 64) × (st.dev < 2 ^ 31)
    disk_cases true st h =
        let i = ap (number (λ z. z.ino)) h in
        let d = ap (number (λ z. z.dev)) h in (omega arith, omega arith)
    disk_cases false st h = absurd (no_file (ap (number (λ z. 1)) h))

db_check-repairs_example :
    All
      (Agrees disk)
      (db_check engine disk memory memory 77 true three_files.files three_files).1.files
db_check-repairs_example =
    db_check-repairs engine disk memory memory 77 three_files refl (ground arith) (λ h. omega arith)
      disk-InRange

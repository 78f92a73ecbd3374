-- ===== src/Tests/Jail.antt =====
-- A run of base_path below the new root /j, on the path ../../x of the directory that descriptor 3 is.
use pseudo.Prelude.{ℕ, Option, none, some, [], ◌∷◌, Str}
use pseudo.Paths.Inside.{Inside}
use pseudo.Client.Descriptors.{Table}

abbrev new_root : Str
new_root = b'/' ∷ b'j' ∷ []

abbrev inner_dir : Str
inner_dir = b'/' ∷ b'j' ∷ b'/' ∷ b'd' ∷ []

abbrev with_dir : Table
with_dir = record {
  fd_paths = none ∷ none ∷ none ∷ some inner_dir ∷ [];
  linked_fd_paths = [];
  cwd = none;
}

abbrev upwards : Str
upwards = b'.' ∷ b'.' ∷ b'/' ∷ b'.' ∷ b'.' ∷ b'/' ∷ b'x' ∷ []

abbrev all_directories : Str → Option ℕ
all_directories p = some 0o40755

abbrev no_link : ℕ → Str → Option Str
no_link n p = none

abbrev inside_root : Str
inside_root = b'/' ∷ b'j' ∷ b'/' ∷ b'x' ∷ []

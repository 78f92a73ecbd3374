-- ===== src/Tests/Remembering.antt =====
-- Runs of the tables of paths: descriptor 3 is "a", 4 is "b", 5 is "a" again, and 4 is linked as "a".
use pseudo.Prelude.{◌≡◌, refl, List, [], ◌∷◌, none, some, Str, pos, leb, ◌&&◌, arith, if◌then◌else◌}
use pseudo.Client.Descriptors.{
  Table, entry, store, matches, client_rename_path, rename_step, rename_linked_step,
}
use pseudo.Client.Bounds.{Call, InBounds, run, run-InBounds}
use pseudo.Client.View.{slot_at, act_on_all}
use pseudo.Client.Refinement.{run-act_on_all}
use pseudo.Client.Renaming.{client_rename_path_lem}

abbrev name_a : Str
name_a = b'a' ∷ []

abbrev name_b : Str
name_b = b'b' ∷ []

abbrev name_c : Str
name_c = b'c' ∷ []

abbrev five : Table
five = record {
  fd_paths = none ∷ none ∷ none ∷ some name_a ∷ some name_b ∷ some name_a ∷ [];
  linked_fd_paths = none ∷ none ∷ none ∷ none ∷ some name_a ∷ [];
  cwd = none;
}

abbrev empty_table : Table
empty_table = record { fd_paths = []; linked_fd_paths = []; cwd = none }

abbrev calls : List Call
calls =
    Call.path (pos 3) (some name_a)
    ∷ Call.linked name_a name_b
    ∷ Call.rename name_a name_c
    ∷ Call.closefrom (pos 3)
    ∷ []

rename_five : client_rename_path name_a name_c five ≡ record five {
  fd_paths = none ∷ none ∷ none ∷ some name_c ∷ some name_b ∷ some name_c ∷ [];
  linked_fd_paths = none ∷ none ∷ none ∷ none ∷ some name_c ∷ [];
}
unfolding client_rename_path rename_step rename_linked_step store
rename_five = refl

run-InBounds_example : InBounds (run calls empty_table)
unfolding InBounds
run-InBounds_example = run-InBounds calls empty_table (omega arith)

client_rename_path_lem_example : entry (client_rename_path name_a name_c five).fd_paths 5 ≡ (
    if leb 3 5 && matches name_a (entry five.fd_paths 5)
    then some name_c
    else entry five.fd_paths 5)
client_rename_path_lem_example = client_rename_path_lem name_a name_c 5 five

run-act_on_all_example :
    slot_at 3 (run calls empty_table) ≡ act_on_all calls 3 (slot_at 3 empty_table)
unfolding InBounds
run-act_on_all_example = run-act_on_all calls 3 empty_table (omega arith)

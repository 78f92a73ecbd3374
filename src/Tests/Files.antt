-- ===== src/Tests/Files.antt =====
-- Runs of the database.
use pseudo.Prelude.{◌≡◌, refl, some, [], ◌∷◌, arith, Str, length, keep, not, map, if◌then◌else◌}
use pseudo.Message.{Op, Msg}
use pseudo.Db.Column.{as_int}
use pseudo.Db.Tables.{at_path, is_nil}
use pseudo.Db.Order.{in_subtree, is_below, in_subtree-is_below}
use pseudo.Db.Xattrs.{get_xattr, set_xattr}
use pseudo.Db.Files.{
  text_of, may_unlink_file, cancel_unlink_file, did_unlink_file, unlink_contents, rename_file,
}
use pseudo.Db.Orphans.{NoOrphans, unlink_contents_lem}
use pseudo.Db.Pending.{cancel-may_unlink, did-may_unlink}
use pseudo.Db.Named.{rows_of, value_of, set_xattr_codes, get-set_xattr_new}
use pseudo.Db.Rename.{moved, rename_file-moved}
use pseudo.Tests.Engine.{engine}
use pseudo.Tests.Data.{
  request, dir_path, file_path, mode_file, three_files, name_and_value, with_attribute,
}

abbrev set_request : Msg
set_request = request Op.set_xattr file_path 0 mode_file

-- the same on a device number that does not fit 31 bits
abbrev wide_request : Msg
wide_request = record set_request { dev = 3000000000 }

abbrev elsewhere : Str
elsewhere = b'/' ∷ b'm' ∷ []

-- a rename to /m
abbrev rename_request : Msg
rename_request = request Op.rename elsewhere 0 0o40755

abbrev dir_request : Msg
dir_request = request Op.unlink dir_path 0 0o40755

in_subtree-is_below_example : in_subtree dir_path file_path ≡ is_below dir_path file_path
in_subtree-is_below_example = in_subtree-is_below dir_path file_path

cancel-may_unlink_example :
    (cancel_unlink_file set_request (may_unlink_file set_request 3 three_files).1).1.files
    ≡ three_files.files
unfolding as_int
cancel-may_unlink_example =
    cancel-may_unlink set_request three_files 3 refl refl (λ e. refl, (λ e. refl, (λ e. refl, tt)))

did-may_unlink_example :
    ((did_unlink_file file_path
        (some set_request)
        3
        (may_unlink_file set_request 3 three_files).1).1.files
      ≡ keep (λ r. not (at_path (text_of set_request) r)) three_files.files)
    × ((did_unlink_file file_path
          (some set_request)
          4
          (may_unlink_file set_request 3 three_files).1).1.files
        ≡ (may_unlink_file set_request 3 three_files).1.files)
unfolding as_int
did-may_unlink_example = did-may_unlink set_request three_files 3 4 refl refl (λ h. ground arith)

unlink_contents_lem_example :
    ((unlink_contents dir_request three_files).1.files
      ≡ keep (λ r. not (is_below (text_of dir_request) r.path)) three_files.files)
    × NoOrphans (unlink_contents dir_request three_files).1
unlink_contents_lem_example = unlink_contents_lem dir_request three_files refl refl

rename_file-moved_example :
    (rename_file engine (some dir_path) rename_request three_files).1.files
    ≡ map (moved dir_path elsewhere) three_files.files
unfolding is_below
rename_file-moved_example =
    rename_file-moved engine dir_path rename_request three_files refl refl (λ h. cc) refl
      (λ h. refl, (λ h. refl, (λ h. refl, tt)))

set_xattr_codes_example :
    ((set_xattr engine set_request name_and_value 10 0 with_attribute).0 ≡ 0)
    × ((set_xattr engine set_request name_and_value 10 1 with_attribute).0
        ≡ (if is_nil (rows_of set_request name_and_value with_attribute) then 0 else 1))
    × ((set_xattr engine set_request name_and_value 10 2 with_attribute).0
        ≡ (if is_nil (rows_of set_request name_and_value with_attribute) then 1 else 0))
set_xattr_codes_example = set_xattr_codes engine set_request name_and_value 10 with_attribute refl

get-set_xattr_new_example :
    get_xattr engine set_request name_and_value 0
      (set_xattr engine set_request name_and_value 10 0 three_files).1
    ≡ (0, value_of name_and_value 10, length (value_of name_and_value 10))
unfolding as_int
get-set_xattr_new_example =
    get-set_xattr_new engine set_request name_and_value 10 three_files 0 name_and_value 0 refl
      (λ h. ground arith) (omega arith) refl (omega arith) refl

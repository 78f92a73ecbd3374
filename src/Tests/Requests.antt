-- ===== src/Tests/Requests.antt =====
-- Runs of the server.
use pseudo.Prelude.{◌%◌, ◌/◌, ◌^◌, ◌≡◌, refl, none, [], ◌∷◌, arith}
use pseudo.Message.{Op, Res, Msg}
use pseudo.Db.Column.{as_int, signed_ino, to_u64, to_u32}
use pseudo.Db.Files.{read_owner}
use pseudo.Server.Context.{has_two_paths}
use pseudo.Db.Find.{Fits}
use pseudo.Server.Respond.{pseudo_op}
use pseudo.Server.Known.{IsPlain}
use pseudo.Server.Illusion.{stat-chown, stat-chmod, answer}
use pseudo.Server.Unknown.{pseudo_op-mismatch}
use pseudo.Server.Created.{stat-creat}
use pseudo.Server.Removed.{stat-unlink}
use pseudo.Tests.Engine.{engine}
use pseudo.Tests.Data.{request, entry, file_path, mode_file, three_files, no_files}

abbrev stat_request : Msg
stat_request = request Op.stat file_path 1000 mode_file

abbrev chown_request : Msg
chown_request = request Op.chown file_path 1000 mode_file

abbrev chmod_request : Msg
chmod_request = request Op.fchmod file_path 1000 0o100600

abbrev creat_request : Msg
creat_request = request Op.creat file_path 0 mode_file

abbrev wrong_path : Msg
wrong_path = request Op.chmod (b'/' ∷ b'z' ∷ []) 0 mode_file

stat-IsPlain : IsPlain stat_request
unfolding has_two_paths
stat-IsPlain = record { path = refl; inode = refl; no_slash = refl; one_path = refl }

chown-IsPlain : IsPlain chown_request
unfolding has_two_paths
chown-IsPlain = record { path = refl; inode = refl; no_slash = refl; one_path = refl }

chmod-IsPlain : IsPlain chmod_request
unfolding has_two_paths
chmod-IsPlain = record { path = refl; inode = refl; no_slash = refl; one_path = refl }

creat-IsPlain : IsPlain creat_request
unfolding has_two_paths
creat-IsPlain = record { path = refl; inode = refl; no_slash = refl; one_path = refl }

wrong_path-IsPlain : IsPlain wrong_path
unfolding has_two_paths
wrong_path-IsPlain = record { path = refl; inode = refl; no_slash = refl; one_path = refl }

creat-Fits : Fits creat_request
creat-Fits = record {
  dev = omega arith;
  ino = omega arith;
  uid = omega arith;
  gid = omega arith;
  mode = omega arith;
  rdev = omega arith;
}

stat-chown_example :
    (pseudo_op engine stat_request stat_request
      (pseudo_op engine stat_request chown_request three_files).db).msg
    ≡ answer stat_request 1000 100 mode_file 0 0
unfolding as_int signed_ino read_owner to_u64 to_u32
stat-chown_example =
    stat-chown engine stat_request chown_request stat_request three_files (entry file_path 7) refl
      chown-IsPlain stat-IsPlain refl refl (record { path = refl; dev = refl; ino = refl }) refl
      refl refl (omega arith) (omega arith) (omega arith) (omega arith)

stat-chmod_example :
    let told =
      (pseudo_op engine stat_request stat_request
        (pseudo_op engine stat_request chmod_request three_files).db).msg in
    (told.mode % 2 ^ 12 ≡ 0o600)
    × (told.mode / 2 ^ 12 ≡ 0o10)
    × (told ≡ answer stat_request 0 0 told.mode 0 0)
unfolding as_int signed_ino read_owner to_u64 to_u32
stat-chmod_example =
    stat-chmod engine stat_request chmod_request stat_request three_files (entry file_path 7) refl
      chmod-IsPlain stat-IsPlain refl refl (record { path = refl; dev = refl; ino = refl }) refl
      refl refl (omega arith) (omega arith)

stat-creat_example :
    (pseudo_op engine stat_request stat_request
      (pseudo_op engine stat_request creat_request no_files).db).msg
    ≡ answer stat_request 0 100 mode_file 0 0
stat-creat_example =
    stat-creat engine stat_request creat_request stat_request no_files refl creat-IsPlain
      stat-IsPlain refl refl (record { path = refl; dev = refl; ino = refl }) refl refl creat-Fits
      refl

pseudo_op-mismatch_example : pseudo_op engine stat_request wrong_path three_files ≡ record {
  code = 0;
  msg = record wrong_path { result = Res.abort };
  response = none;
  response_len = 0;
  db = three_files;
}
unfolding as_int signed_ino to_u32
pseudo_op-mismatch_example =
    pseudo_op-mismatch engine stat_request wrong_path three_files (entry file_path 7) refl
      wrong_path-IsPlain refl refl refl refl refl refl

abbrev unlink_request : Msg
unlink_request = request Op.unlink file_path 0 mode_file

unlink-IsPlain : IsPlain unlink_request
unfolding has_two_paths
unlink-IsPlain = record { path = refl; inode = refl; no_slash = refl; one_path = refl }

stat-unlink_example :
    (pseudo_op engine stat_request stat_request
      (pseudo_op engine stat_request unlink_request three_files).db).msg
    ≡ record stat_request { result = Res.fail }
unfolding as_int signed_ino read_owner to_u64 to_u32
stat-unlink_example =
    stat-unlink engine stat_request unlink_request stat_request three_files (entry file_path 7) refl
      unlink-IsPlain stat-IsPlain refl refl refl (record { path = refl; dev = refl; ino = refl })
      refl refl

-- ===== src/Server/Respond.antt =====
-- pseudo_op as a whole, and pseudo_server_response (pseudo.c).
use pseudo.Prelude.{ℕ, Bool, false, not, ◌&&◌, Option, none, some, Str, ◌==◌, if◌then◌else◌}
use pseudo.Message.{MsgType, Msg, Res}
use pseudo.Db.Tables.{Db, Sqlite}
use pseudo.Db.Files.{may_unlink_file}
use pseudo.Server.Context.{Context, fresh, split_paths, stash_header, prefers_ino}
use pseudo.Server.Lookup.{find_entries, check_path, check_ino}
use pseudo.Server.Handlers.{with_db, with_result, dispatch}

-- what the caller of pseudo_op sees: the result code, the message, the response and the database
pub record Reply : Type 0 where
  pub code : ℕ
  pub msg : Msg
  pub response : Option Str
  pub response_len : ℕ
  pub db : Db

-- An f* operation on a file that has no entry and no link marks the entry at its path.
unfoldable pub mark_unlinked : Context → Context
mark_unlinked c =
    if prefers_ino c.msg.op && not c.found_path && not c.found_ino && c.msg.nlink == 0
    then with_db c (may_unlink_file c.msg c.msg.client c.db)
    else c

unfoldable pub reply_of : Context → Reply
reply_of c = record {
  code = 0;
  msg = c.msg;
  response = c.response;
  response_len = c.response_len;
  db = c.db;
}

unfoldable pub prepare : Msg → Db → Context
prepare msg db = stash_header (split_paths (fresh msg db))

module _ (sql : Sqlite) (held : Msg) where
  -- `none` is the mismatch that ends in RESULT_ABORT.
  unfoldable pub run_checked : Context → Option Context → Context
  run_checked before none = with_result (record before { found_ino = false }) Res.abort
  run_checked before (some c) = mark_unlinked (dispatch sql held c.msg.op c)

  unfoldable pub pseudo_op : Msg → Db → Reply
  pseudo_op msg db =
      let c = check_path (find_entries sql (prepare msg db)) in
      reply_of (run_checked c (check_ino c))

  -- `logging` is opt_l. A message that is no request is refused with 1.
  unfoldable pub server_response : Bool → MsgType → Msg → Db → Reply
  server_response logging MsgType.ping msg db = record {
    code = 0;
    msg = record msg { result = if logging then Res.succeed else Res.fail };
    response = none;
    response_len = 0;
    db = db;
  }
  server_response logging MsgType.op msg db = pseudo_op msg db
  server_response logging MsgType.fastop msg db = pseudo_op msg db
  server_response logging _ msg db = record {
    code = 1;
    msg = msg;
    response = none;
    response_len = 0;
    db = db;
  }

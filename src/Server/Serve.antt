-- ===== src/Server/Serve.antt =====
-- serve_client of pseudo_server.c: one message of a client, or none where the receive failed. `print`
-- gives the decimal digits of a number, as printf does.
use pseudo.Prelude.{
  ℕ, zero, suc, ◌+◌, ◌-◌, Bool, true, false, not, ◌&&◌, Option, none, some, [], ◌∷◌, ◌++◌, length,
  take, get_elem?, set, ltb, ◌==◌, if◌then◌else◌, Str, c_str, past_nul, strlen,
}
use pseudo.Message.{Msg, MsgType}
use pseudo.Db.Tables.{Db, Sqlite}
use pseudo.Server.Respond.{Reply, server_response}
use pseudo.Server.Clients.{Client, Table, free_slot, is_open, close_client}

-- The variables of the server: the clients, the database, pseudo_server_timeout, and the two flags.
pub record Server : Type 0 where
  pub table : Table
  pub db : Db
  pub timeout : ℕ
  pub die_peacefully : Bool
  pub die_forcefully : Bool

abbrev pub is_ping : MsgType → Bool
is_ping MsgType.ping = true
is_ping _ = false

abbrev pub is_shutdown : MsgType → Bool
is_shutdown MsgType.shutdown = true
is_shutdown _ = false

-- a slot out of range reads as a free one
abbrev pub slot_of : Option Client → Client
slot_of none = free_slot
slot_of (some c) = c

abbrev pub slot : ℕ → Table → Client
slot i t = slot_of (get_elem? t.clients i)

abbrev pub put_slot : ℕ → Client → Table → Table
put_slot i c t = record t { clients = set t.clients i c }

-- The first ping of a client tells its process, its program and, behind a NUL, its tag.
abbrev pub registered : Msg → Client → Client
registered m c =
    if m.pathlen == 0
    then record c { pid = m.client }
    else if ltb (strlen m.path) m.pathlen
    then record c {
      pid = m.client;
      program = some (c_str m.path);
      tag = some (c_str (past_nul m.path));
    }
    else record c { pid = m.client; program = some (c_str m.path) }

unfoldable pub register : ℕ → Msg → Table → Table
register i m t =
    if is_ping m.type && (slot i t).pid == 0 then put_slot i (registered m (slot i t)) t else t

-- snprintf (s, 8, "%d ", pid), for a pid of at most 7 digits
abbrev pub pid_text : Str → Str
pid_text digits = if ltb (length digits) 7 then digits ++ b' ' ∷ [] else take 7 digits ++ 0 ∷ []

-- `for (j = from; j < from + count; ++j)`: the processes of the other clients
unfoldable pub pid_list : (ℕ → Str) → ℕ → ℕ → ℕ → Table → Str
pid_list print i zero j t = []
pid_list print i (suc count) j t =
    let rest = pid_list print i count (suc j) t in
    if is_open (slot j t) && not (j == i) then pid_text (print (slot j t).pid) ++ rest else rest

-- Other clients delay a shutdown; it is to come soon after they are gone.
unfoldable pub refuse_shutdown : (ℕ → Str) → ℕ → Msg → Server → Server × Msg
refuse_shutdown print i m s =
    let text = pid_list print i s.table.highest_client 1 s.table in
    (
      record s { timeout = 3 },
      record m {
        type = MsgType.nak;
        fd = s.table.active_clients - 2;
        pathlen = length text + 1;
        path = text ++ 0 ∷ [];
      },
    )

abbrev pub accept_shutdown : ℕ → Msg → Server → Server × Msg
accept_shutdown i m s =
    (record s { die_peacefully = true }, record m { type = MsgType.ack; pathlen = 0; client = i })

unfoldable pub shut_down : (ℕ → Str) → ℕ → Msg → Server → Server × Msg
shut_down print i m s =
    let known = if (slot i s.table).pid == 0 then record m { client = 0 } else m in
    if ltb 2 s.table.active_clients
    then refuse_shutdown print i known s
    else accept_shutdown i known s

abbrev pub text_of_response : Option Str → Str
text_of_response none = []
text_of_response (some text) = text

-- The type of the message has changed when FASTOP is tested for, so a fast operation is answered like
-- any other.
abbrev pub response_of : ℕ → Reply → Msg
response_of i r = record r.msg {
  type = (if r.code == 0 then MsgType.ack else MsgType.nak);
  client = i;
  pathlen = elim r.response [ none ↦ 0 | some text ↦ r.response_len ];
  path = text_of_response r.response;
}

unfoldable pub answer_request : Sqlite → Msg → Bool → ℕ → Msg → Server → Server × Msg
answer_request sql held logging i m s =
    let r = server_response sql held logging m.type m s.db in
    (record s { db = r.db }, response_of i r)

module _ (sql : Sqlite) (held : Msg) (logging : Bool) (print : ℕ → Str) where
  -- The second part of the result is the message that is sent to the client.
  unfoldable pub serve_client : ℕ → Option Msg → Server → Server × Option Msg
  serve_client i none s = (record s { table = close_client i s.table }, none)
  serve_client i (some m) s =
      let s' = record s { table = register i m s.table } in
      if is_shutdown m.type
      then (let (after, r) = shut_down print i m s' in (after, some r))
      else (let (after, r) = answer_request sql held logging i m s' in (after, some r))

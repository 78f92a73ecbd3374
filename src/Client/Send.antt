-- ===== src/Client/Send.antt =====
-- pseudo_client_request and pseudo_client_op of pseudo_client.c.
use pseudo.Prelude.{
  ℕ, zero, suc, ◌+◌, ◌-◌, Bool, true, false, not, ◌&&◌, Option, none, some, [], Str, c_str, length,
  take, get_elem?, ltb, ◌==◌, ℤ, if◌then◌else◌,
}
use pseudo.Message.{Msg, MsgType, Op, Res, result_none}
use pseudo.Client.Descriptors.{client_path}
use pseudo.Client.Request.{Request, msg_stat, known_path, combined}
use pseudo.Client.Ignored.{ignore_path_chroot}
use pseudo.Client.Operation.{Client, Step, act, bits, with_table}

-- One try of pseudo_client_request: pseudo_msg_send fails, and pseudo_client_setup is called; or
-- pseudo_msg_receive gives nothing; or it gives a message.
pub data Attempt : Type 0 where
  not_sent : Attempt
  no_response : Attempt
  response : Msg → Attempt

pub data Answer : Type 0 where
  aborted : Answer
  answer : Option Msg → Answer

abbrev pub is_ack : MsgType → Bool
is_ack MsgType.ack = true
is_ack _ = false

-- `tries` counts up while `left` attempts are left; the world decides how each of them ends.
unfoldable pub try_request : (ℕ → Msg → Attempt) → ℕ → ℕ → Msg → Answer
try_request world zero tries m = aborted
try_request world (suc left) tries m =
    let again = try_request world left (tries + 1) m in
    elim (world tries m) [
      | not_sent ↦ again
      | no_response ↦ again
      | response r ↦ answer (if is_ack r.type then some r else none)
    ]

abbrev pub pseudo_retries : ℕ
pseudo_retries = 250

unfoldable pub client_request : (ℕ → Msg → Attempt) → Msg → Answer
client_request world m = try_request world pseudo_retries 0 m

-- `wait` of enums/op.in
unfoldable pub op_wait : Op → Bool
op_wait Op.fstat = true
op_wait Op.mknod = true
op_wait Op.stat = true
op_wait Op.may_unlink = true
op_wait Op.get_xattr = true
op_wait Op.list_xattr = true
op_wait Op.remove_xattr = true
op_wait Op.create_xattr = true
op_wait Op.replace_xattr = true
op_wait _ = false

-- the operations with a further argument, and those with a value
unfoldable pub takes_extra : Op → Bool
takes_extra Op.rename = true
takes_extra Op.set_xattr = true
takes_extra Op.create_xattr = true
takes_extra Op.replace_xattr = true
takes_extra Op.get_xattr = true
takes_extra Op.remove_xattr = true
takes_extra _ = false

unfoldable pub takes_value : Op → Bool
takes_value Op.set_xattr = true
takes_value Op.create_xattr = true
takes_value Op.replace_xattr = true
takes_value _ = false

-- the operations that an ignored path does not stop
unfoldable pub never_ignored : Op → Bool
never_ignored Op.chroot = true
never_ignored Op.chdir = true
never_ignored Op.close = true
never_ignored Op.closefrom = true
never_ignored Op.dup = true
never_ignored _ = false

abbrev is_open : Op → Bool
is_open Op.open_file = true
is_open _ = false

abbrev is_rename : Op → Bool
is_rename Op.rename = true
is_rename _ = false

-- Undefined behaviour: a copy of 2 ^ 64 - 1 bytes, or strlen of a null pointer.
pub data Outcome : Type 0 where
  undefined : Outcome
  stopped : Outcome
  returns : Client → Option Msg → Outcome

abbrev is_slash : Option ℕ → Bool
is_slash none = false
is_slash (some c) = c == b'/'

-- The path of an ignored file that is opened is remembered without its last slash.
abbrev pub without_slash : Str → Str
without_slash path =
    if ltb 2 (length path) && is_slash (get_elem? path (length path - 1))
    then take (length path - 1) path
    else path

abbrev pub remember : Request → Option Str → Client → Client
remember r none s = s
remember r (some path) s =
    if is_open r.op then with_table s (client_path r.fd (some (without_slash path)) s.table) else s

abbrev pub blank : Msg
blank = record {
  type = MsgType.op;
  op = Op.unknown_op;
  result = result_none;
  access = 0;
  client = 0;
  fd = 0;
  dev = 0;
  ino = 0;
  uid = 0;
  gid = 0;
  mode = 0;
  rdev = 0;
  pathlen = 0;
  nlink = 0;
  deleting = 0;
  path = [];
}

-- The message before the switch.
abbrev pub message : Request → Client → Msg
message r s = record (msg_stat blank r.buf) {
  op = r.op;
  fd = bits r.fd;
  access = r.access;
  client = s.pid;
}

-- What is sent: the header, with the buffer behind it.
abbrev pub sent : Step → Str → Msg
sent st buffer = record st.msg {
  type = (if op_wait st.msg.op then MsgType.op else MsgType.fastop);
  pathlen = length buffer;
  path = buffer;
}

abbrev is_abort : Res → Bool
is_abort Res.abort = true
is_abort _ = false

abbrev pub received : Client → Answer → Outcome
received s aborted = stopped
received s (answer none) = returns s none
received s (answer (some m)) = if is_abort m.result then stopped else returns s (some m)

abbrev pub deliver : (ℕ → Msg → Attempt) → Step → Str → Outcome
deliver world st buffer =
    if st.do_request && not st.client.local_only
    then received st.client (client_request world (sent st buffer))
    else returns st.client st.answer

abbrev pub perform :
    (ℕ → Msg → Attempt) → (ℤ → ℤ) → Option Str → Request → Client → Option Str → Outcome
perform world copy cwd r s none = undefined
perform world copy cwd r s (some buffer) =
    deliver world (act copy cwd r (c_str buffer) r.op s (message r s)) buffer

-- Without the further argument a rename is given up, and the name of an attribute is read at address 0.
abbrev pub prepare :
    (ℕ → Msg → Attempt)
    → (ℤ → ℤ)
    → Option Str
    → Request
    → Client
    → Option Str
    → Option Str
    → Outcome
prepare world copy cwd r s path none =
    if is_rename r.op
    then returns s none
    else if takes_extra r.op
    then undefined
    else perform world copy cwd r s (combined path none none)
prepare world copy cwd r s none (some extra) =
    if is_rename r.op
    then returns s none
    else if takes_extra r.op
    then perform world copy cwd r s (combined none (some extra) none)
    else perform world copy cwd r s (combined none none none)
prepare world copy cwd r s (some path) (some extra) =
    if takes_extra r.op
    then perform world copy cwd r s
        (combined (some path) (some extra) (if takes_value r.op then r.value else none))
    else perform world copy cwd r s (combined (some path) none none)

-- `world` is the connection, `copy` and `cwd` what pseudo_fd and getcwd give.
unfoldable pub client_op : (ℕ → Msg → Attempt) → (ℤ → ℤ) → Option Str → Request → Client → Outcome
client_op world copy cwd r s =
    let path = known_path r s.table in
    if not (never_ignored r.op) && ignore_path_chroot s.ignored s.chroot path false
    then returns (remember r path s) none
    else prepare world copy cwd r s path r.extra

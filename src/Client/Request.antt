-- ===== src/Client/Request.antt =====
-- The arguments of pseudo_client_op (pseudo_client.c), and the path buffer that it makes of them for the
-- message. The buffer is as long as the message's pathlen.
use pseudo.Prelude.{
  ℕ, ◌+◌, ◌-◌, Bool, false, ◌&&◌, Option, none, some, [], ◌∷◌, ◌++◌, Str, length, take, get_elem?,
  ltb, leb, ◌==◌, ℤ, pos, negsuc, if◌then◌else◌,
}
use pseudo.Message.{Msg, Op}
use pseudo.Client.Descriptors.{Table, fd_path}

-- The fields of PSEUDO_STATBUF that are sent.
pub record Stat : Type 0 where
  pub uid : ℕ
  pub gid : ℕ
  pub dev : ℕ
  pub ino : ℕ
  pub mode : ℕ
  pub rdev : ℕ
  pub nlink : ℕ

-- `extra` is the old path of a rename or the name of an attribute, and `value` the attribute's value.
pub record Request : Type 0 where
  pub op : Op
  pub access : ℕ
  pub fd : ℤ
  pub dirfd : ℤ
  pub path : Option Str
  pub buf : Option Stat
  pub extra : Option Str
  pub value : Option Str

-- pseudo_msg_stat
abbrev pub msg_stat : Msg → Option Stat → Msg
msg_stat m none = m
msg_stat m (some buf) = record m {
  uid = buf.uid;
  gid = buf.gid;
  dev = buf.dev;
  ino = buf.ino;
  mode = buf.mode;
  rdev = buf.rdev;
  nlink = buf.nlink;
}

-- pseudo_stat_msg: nlink, dev and ino stay.
abbrev pub stat_msg : Stat → Msg → Stat
stat_msg buf m = record buf { uid = m.uid; gid = m.gid; mode = m.mode; rdev = m.rdev }

-- if path isn't available, try to find one?
unfoldable pub known_path : Request → Table → Option Str
known_path r t = elim r.path [ some p ↦ some p | none ↦ fd_path_from r.fd t ]
  where
    fd_path_from : ℤ → Table → Option Str
    fd_path_from (pos n) t = if leb n (length t.fd_paths) then fd_path (pos n) t else none
    fd_path_from (negsuc n) t = none

-- path[pathlen - 2] == '/', where pathlen counts the NUL; a root alone keeps its slash.
abbrev is_slash : Option ℕ → Bool
is_slash none = false
is_slash (some c) = c == b'/'

unfoldable pub strip_slash : Str → Bool
strip_slash path = ltb 2 (length path + 1) && is_slash (get_elem? path (length path - 1))

abbrev pub stripped : Str → Str
stripped path = if strip_slash path then take (length path - 1) path else path

-- What stands behind the path and its NUL.
abbrev pub tail_of : Str → Option Str → Str
tail_of extra none = extra ++ 0 ∷ []
tail_of extra (some value) = extra ++ 0 ∷ (value ++ 0 ∷ [])

-- The buffer; `none` is a memcpy of 2 ^ 64 - 1 bytes, the length that comes of an absent path. A single
-- path keeps its length when its slash is overwritten.
unfoldable pub combined : Option Str → Option Str → Option Str → Option Str
combined none none value = some []
combined (some path) none value =
    some (if strip_slash path then stripped path ++ 0 ∷ 0 ∷ [] else path ++ 0 ∷ [])
combined none (some extra) value = none
combined (some path) (some extra) value = some (stripped path ++ 0 ∷ tail_of extra value)

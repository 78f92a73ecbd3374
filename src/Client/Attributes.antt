-- ===== src/Client/Attributes.antt =====
-- An extended attribute on its way: the client's request, the server's split of it, and the database.
use pseudo.Prelude.{
  ℕ, zero, suc, ◌+◌, ◌-◌, ◌%◌, ◌^◌, ◌<◌, ◌≤◌, ◌≡◌, refl, ap, inl, inr, Bool-cases, true, false,
  Option, none, some, [], ◌∷◌, ◌++◌, Str, NoNul, c_str-append_nul, past_nul-append_nul, length,
  take, arith, ℤ, negsuc,
}
use pseudo.Message.{Msg, Op}
use pseudo.Db.Tables.{Db, Sqlite}
use pseudo.Db.Xattrs.{get_xattr, set_xattr}
use pseudo.Db.Named.{value_of, as_int-small}
use pseudo.Server.Context.{Context, fresh, split_paths, has_two_paths, is_rename}
use pseudo.Server.Handlers.{buffer_of, do_get_xattr, do_set_xattr}
use pseudo.Client.Ignored.{ignore_path_chroot}
use pseudo.Client.Request.{known_path, Stat, Request, stripped, strip_slash, tail_of, combined}
use pseudo.Client.Operation.{Client, act}
use pseudo.Client.Send.{
  Attempt, client_op, client_request, received, message, sent, takes_extra, takes_value,
  never_ignored,
}
use pseudo.Client.Split.{divided, split_paths-divided, length-append_nul}

-- the arguments of shared_setxattr's and shared_getxattr's calls of pseudo_client_op
abbrev pub attribute : Op → ℤ → Str → Stat → Str → Option Str → Request
attribute op fd path buf name value = record {
  op = op;
  access = 0;
  fd = fd;
  dirfd = negsuc 0;
  path = some path;
  buf = some buf;
  extra = some name;
  value = value;
}

NoNul-take : (n : ℕ) (s : Str) → NoNul s → NoNul (take n s)
NoNul-take zero s h = tt
NoNul-take (suc n) [] h = tt
NoNul-take (suc n) (c ∷ s) h = (h.0, NoNul-take n s h.1)

pub NoNul-stripped : (path : Str) → NoNul path → NoNul (stripped path)
NoNul-stripped path h = elim (Bool-cases (strip_slash path)) [
  | inl e ↦ rw e (NoNul-take (length path - 1) path h)
  | inr e ↦ rw e h
]

-- The buffer's part behind the path: the name, a NUL, the value and a NUL.
pub value_of-tail :
    (name value : Str)
    → NoNul name
    → length name + 1 + length value < 2 ^ 31
    → value_of (tail_of name (some value)) (length (tail_of name (some value)) - 1) ≡ value
value_of-tail name value clean small = rw (
  c_str-append_nul name (value ++ 0 ∷ []) clean,
  past_nul-append_nul name (value ++ 0 ∷ []) clean,
  length-append_nul name (value ++ 0 ∷ []),
  length-append_nul value [],
  left,
  as_int-small (length value) (omega arith),
  take_front value,
)
  where
    left :
        (length name + 1 + (length value + 1 + 0) - 1 + 2 ^ 64 - (length name + 1)) % 2 ^ 64
        ≡ length value
    left = omega arith

    take_front : (v : Str) → take (length v) (v ++ 0 ∷ []) ≡ v
    take_front [] = refl
    take_front (c ∷ v) = ap (λ w. c ∷ w) (take_front v)

-- The message of an attribute's request.
abbrev pub attribute_message : Op → ℤ → Str → Stat → Str → Option Str → Client → Msg
attribute_message op fd path buf name value s =
    let r = attribute op fd path buf name value in
    sent (record { client = s; msg = message r s; do_request = true; answer = none })
      (stripped path ++ 0 ∷ tail_of name value)

pub client_op-set_xattr :
    (world : ℕ → Msg → Attempt) (copy : ℤ → ℤ) (cwd : Option Str) (s : Client) (fd : ℤ)
    (path name value : Str) (buf : Stat)
    → ignore_path_chroot s.ignored s.chroot (some path) false ≡ false
    → s.local_only ≡ false
    → client_op world copy cwd (attribute Op.set_xattr fd path buf name (some value)) s
      ≡ received s
          (client_request world (attribute_message Op.set_xattr fd path buf name (some value) s))
unfolding client_op known_path act combined takes_extra takes_value never_ignored
client_op-set_xattr world copy cwd s fd path name value buf i l = rw (i, l)

pub client_op-get_xattr :
    (world : ℕ → Msg → Attempt) (copy : ℤ → ℤ) (cwd : Option Str) (s : Client) (fd : ℤ)
    (path name : Str) (buf : Stat)
    → ignore_path_chroot s.ignored s.chroot (some path) false ≡ false
    → s.local_only ≡ false
    → client_op world copy cwd (attribute Op.get_xattr fd path buf name none) s
      ≡ received s (client_request world (attribute_message Op.get_xattr fd path buf name none s))
unfolding client_op known_path act combined takes_extra takes_value never_ignored
client_op-get_xattr world copy cwd s fd path name buf i l = rw (i, l)

pub split_paths-attribute :
    (op : Op) (fd : ℤ) (path : Str) (buf : Stat) (name : Str) (value : Option Str) (s : Client)
    (db : Db)
    → has_two_paths op ≡ true
    → is_rename op ≡ false
    → NoNul (stripped path)
    → 1 ≤ length (tail_of name value)
    → length (stripped path) + 1 + length (tail_of name value) < 2 ^ 64
    → split_paths (fresh (attribute_message op fd path buf name value s) db)
      ≡ divided
          (attribute_message op fd path buf name value s)
          db
          (length (stripped path))
          (tail_of name value)
split_paths-attribute op fd path buf name value s db two one clean some_tail fits =
    split_paths-divided (attribute_message op fd path buf name value s) db (stripped path)
      (tail_of name value) two one clean some_tail refl
      (length-append_nul (stripped path) (tail_of name value))
      (rw (length-append_nul (stripped path) (tail_of name value)) fits)

pub do_set_xattr-db :
    (sql : Sqlite) (flags : ℕ) (c : Context)
    → (do_set_xattr sql flags c).db
      ≡ (set_xattr sql c.msg (buffer_of c.oldpath) c.oldpathlen flags c.db).1
unfolding do_set_xattr
do_set_xattr-db sql flags c = ground arith

pub do_get_xattr-found :
    (sql : Sqlite) (c : Context) (value : Str)
    → get_xattr sql c.msg (buffer_of c.oldpath) c.oldpathlen c.db ≡ (0, value, length value)
    → ((do_get_xattr sql c).response ≡ some value)
      × ((do_get_xattr sql c).response_len ≡ length value)
unfolding do_get_xattr
do_get_xattr-found sql c value e = (rw e, rw e)

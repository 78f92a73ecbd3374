-- ===== src/Client/Stored.antt =====
-- An extended attribute that is set and then asked for.
use pseudo.Prelude.{
  ℕ, ◌+◌, ◌-◌, ◌^◌, ◌<◌, ◌≤◌, ◌≡◌, refl, sym, ap, ◌∙◌, true, false, Option, none, some, [], ◌∷◌,
  ◌++◌, Str, NoNul, c_str, c_str-append_nul, c_str-NoNul, keep, length, arith, ℤ,
}
use pseudo.Message.{Msg, Op}
use pseudo.Db.Tables.{Db, Sqlite, xattr_named}
use mathlib.Core.Path.{subst}
use pseudo.Db.Xattrs.{dev_key, ino_key, get_xattr, set_xattr}
use pseudo.Db.Named.{rows_of, value_of, get-set_xattr_new}
use pseudo.Server.Context.{Context, fresh, split_paths, has_two_paths, is_rename}
use pseudo.Server.Handlers.{do_get_xattr, do_set_xattr}
use pseudo.Client.Ignored.{ignore_path_chroot}
use pseudo.Client.Request.{Stat, stripped, tail_of}
use pseudo.Client.Operation.{Client}
use pseudo.Client.Send.{Attempt, client_op, client_request, received}
use pseudo.Client.Split.{divided, length-append_nul}
use pseudo.Client.Attributes.{
  attribute, attribute_message, value_of-tail, NoNul-stripped, split_paths-attribute,
  do_set_xattr-db, do_get_xattr-found, client_op-set_xattr, client_op-get_xattr,
}

module _ (sql : Sqlite) (db : Db) (s : Client) (fd : ℤ) (path name value : Str) (buf : Stat) where
  abbrev pub set_message : Msg
  set_message = attribute_message Op.set_xattr fd path buf name (some value) s

  abbrev pub get_message : Msg
  get_message = attribute_message Op.get_xattr fd path buf name none s

  abbrev pub stored : Db
  stored = (do_set_xattr sql 0 (split_paths (fresh set_message db))).db

  abbrev both : Str
  both = tail_of name (some value)

  abbrev arrived : Context
  arrived = divided set_message db (length (stripped path)) both

  same_name : NoNul name → c_str both ≡ c_str name
  same_name plain = c_str-append_nul name (value ++ 0 ∷ []) plain ∙ sym (c_str-NoNul name plain)

  get-set_arrived :
      db.is_open ≡ true
      → NoNul name
      → buf.dev < 2 ^ 31
      → 1 ≤ length value
      → length name + 1 + length value < 2 ^ 31
      → rows_of set_message name db ≡ []
      → (tail : Str) (n : ℕ) → c_str tail ≡ c_str both
      → get_xattr sql arrived.msg tail n (set_xattr sql arrived.msg both (length both - 1) 0 db).1
        ≡ (0, value, length value)
  get-set_arrived h plain small some_value fits new tail n same =
      subst
        (λ v.
          get_xattr sql arrived.msg tail n (set_xattr sql arrived.msg both (length both - 1) 0 db).1
          ≡ (0, v, length v))
        found
        (get-set_xattr_new sql arrived.msg both (length both - 1) db 0 tail n h (omega arith) small
          none_yet (subst (λ v. 1 ≤ length v) (sym found) some_value) same)
    where
      found : value_of both (length both - 1) ≡ value
      found = value_of-tail name value plain fits

      none_yet : rows_of arrived.msg both db ≡ []
      none_yet =
          ap (λ x. keep (xattr_named (dev_key set_message) (ino_key set_message) x) db.xattrs)
            (same_name plain)
          ∙ new

  stored-set_xattr :
      NoNul (stripped path)
      → length (stripped path) + 1 + length both < 2 ^ 64
      → 1 ≤ length both
      → stored ≡ (set_xattr sql arrived.msg both (length both - 1) 0 db).1
  unfolding has_two_paths is_rename fresh
  stored-set_xattr clean fits long =
      ap (λ c. (do_set_xattr sql 0 c).db)
        (split_paths-attribute Op.set_xattr fd path buf name (some value) s db refl refl clean long
          fits)
      ∙ do_set_xattr-db sql 0 arrived

  got :
      db.is_open ≡ true
      → NoNul (stripped path)
      → NoNul name
      → buf.dev < 2 ^ 31
      → 1 ≤ length value
      → length (stripped path) + length name + length value < 2 ^ 30
      → rows_of set_message name db ≡ []
      → ((do_get_xattr sql (split_paths (fresh get_message stored))).response ≡ some value)
        × ((do_get_xattr sql (split_paths (fresh get_message stored))).response_len ≡ length value)
  unfolding has_two_paths is_rename fresh get_xattr
  got h clean plain small some_value fits new =
      subst
        (λ c.
          ((do_get_xattr sql c).response ≡ some value)
          × ((do_get_xattr sql c).response_len ≡ length value))
        (sym (
          split_paths-attribute Op.get_xattr fd path buf name none s stored refl refl clean
            (omega (arith, short)) (omega (arith, short))))
        (do_get_xattr-found sql _ value kept)
    where
      long : length both ≡ length name + 1 + (length value + 1)
      long = rw (length-append_nul name (value ++ 0 ∷ []), length-append_nul value []) (omega arith)

      short : length (tail_of name none) ≡ length name + 1
      short = rw (length-append_nul name []) (omega arith)

      kept :
          get_xattr sql arrived.msg (tail_of name none) (length (tail_of name none) - 1) stored
          ≡ (0, value, length value)
      kept =
          ap (λ d. get_xattr sql arrived.msg (tail_of name none) (length (tail_of name none) - 1) d)
            (stored-set_xattr clean (omega (arith, long)) (omega (arith, long)))
          ∙ get-set_arrived h plain small some_value (omega arith) new (tail_of name none) _
              (c_str-append_nul name [] plain ∙ sym (c_str-append_nul name (value ++ 0 ∷ []) plain))

  -- For a path that is not ignored, with the server in use, OP_SET_XATTR and OP_GET_XATTR each
  -- send a message. In an open database, the handlers of the two, on the paths as the server
  -- splits them, give the value back: storing the first one's attribute, one that does not exist
  -- yet, and then getting the second one's answers with the bytes of the value, NULs included, if
  -- they are at least one, path and name hold no NUL, the device number is below 2^31 and the
  -- lengths together below 2^30.
  pub getxattr-setxattr :
      (world : ℕ → Msg → Attempt) (copy : ℤ → ℤ) (cwd : Option Str)
      → ignore_path_chroot s.ignored s.chroot (some path) false ≡ false
      → s.local_only ≡ false
      → db.is_open ≡ true
      → NoNul path
      → NoNul name
      → buf.dev < 2 ^ 31
      → 1 ≤ length value
      → length (stripped path) + length name + length value < 2 ^ 30
      → rows_of set_message name db ≡ []
      → (client_op world copy cwd (attribute Op.set_xattr fd path buf name (some value)) s
          ≡ received s (client_request world set_message))
        × (client_op world copy cwd (attribute Op.get_xattr fd path buf name none) s
            ≡ received s (client_request world get_message))
        × ((do_get_xattr sql (split_paths (fresh get_message stored))).response ≡ some value)
        × ((do_get_xattr sql (split_paths (fresh get_message stored))).response_len ≡ length value)
  getxattr-setxattr world copy cwd ignored local h clean plain small some_value fits new = (
    client_op-set_xattr world copy cwd s fd path name value buf ignored local,
    client_op-get_xattr world copy cwd s fd path name buf ignored local,
    answered.0,
    answered.1,
  )
    where
      answered :
          ((do_get_xattr sql (split_paths (fresh get_message stored))).response ≡ some value)
          × ((do_get_xattr sql (split_paths (fresh get_message stored))).response_len
              ≡ length value)
      answered = got h (NoNul-stripped path clean) plain small some_value fits new

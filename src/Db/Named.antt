-- ===== src/Db/Named.antt =====
-- pdb_set_xattr and pdb_get_xattr against each other.
use pseudo.Prelude.{
  ℕ, ◌+◌, ◌-◌, ◌%◌, ◌<◌, ◌≤◌, ◌^◌, ◌≡◌, ◌≢◌, refl, ap, ◌∙◌, Bool, true, none, some, List, [], ◌∷◌,
  keep, keep-append, update_where, map, Bool-cases, inl, inr, if◌then◌else◌, arith, Str,
  str_eq_refl, int_eq, int_eq_refl, int_eq_of_ne, length, leb, c_str, past_nul, strlen, pos,
}
use pseudo.Message.{Msg}
use pseudo.Db.Column.{as_int, as_int64}
use pseudo.Db.Tables.{XattrRow, Db, Sqlite, xattr_named, is_nil}
use pseudo.Db.Select.{first_xattr-one, first_xattr-cases}
use pseudo.Db.Xattrs.{dev_key, ino_key, bound_text, insert_xattr, get_xattr, set_xattr, put_xattr}

-- the device fits the 32-bit binding of the SELECT statements
pub as_int64-as_int : (x : ℕ) → x < 2 ^ 31 → as_int64 x ≡ as_int x
unfolding as_int64 as_int
as_int64-as_int x h = ground arith

pub as_int64-ne-as_int : (x : ℕ) → 2 ^ 31 ≤ x → x < 2 ^ 32 → as_int64 x ≢ as_int x
unfolding as_int64 as_int
as_int64-ne-as_int x h k = ground arith

pub as_int-small : (x : ℕ) → x < 2 ^ 31 → as_int x ≡ pos x
unfolding as_int
as_int-small x h = ground arith

le→leb : (a b : ℕ) → a ≤ b → leb a b ≡ true
le→leb a b h = ground arith

-- the rows that a SELECT for the attribute `value` of the message's inode finds
abbrev pub rows_of : Msg → Str → Db → List XattrRow
rows_of msg value db = keep (xattr_named (dev_key msg) (ino_key msg) (c_str value)) db.xattrs

-- the text behind the name in a request of `len` bytes
abbrev pub value_of : Str → ℕ → Str
value_of value len =
    bound_text (as_int ((len + 2 ^ 64 - (strlen value + 1)) % 2 ^ 64)) (past_nul value)

-- An UPDATE that leaves a WHERE clause's columns alone commutes with the selection.
pub keep-update_where {ℓ} :
    {A : Type ℓ} (p q : A → Bool) (f : A → A) (xs : List A)
    → ((x : A) → p (f x) ≡ p x)
    → keep p (update_where q f xs) ≡ update_where q f (keep p xs)
keep-update_where p q f [] h = refl
keep-update_where p q f (x ∷ xs) h = elim (Bool-cases (q x)) [
  | inl e ↦ elim (Bool-cases (p x)) [
    | inl k ↦ rw (e, h x, k, e) (ap (λ l. f x ∷ l) (keep-update_where p q f xs h))
    | inr k ↦ rw (e, h x, k) (keep-update_where p q f xs h)
  ]
  | inr e ↦ elim (Bool-cases (p x)) [
    | inl k ↦ rw (e, k, e) (ap (λ l. x ∷ l) (keep-update_where p q f xs h))
    | inr k ↦ rw (e, k) (keep-update_where p q f xs h)
  ]
]

module _ (sql : Sqlite) (msg : Msg) (value : Str) (len : ℕ) (db : Db) where
  -- the attribute rows after an insertion
  rows-insert :
      msg.dev < 2 ^ 31
      → rows_of msg value db ≡ []
      → (v : Str)
      → keep
          (xattr_named (dev_key msg) (ino_key msg) (c_str value))
          (insert_xattr sql (as_int64 msg.dev) (ino_key msg) (c_str value) v db.xattrs)
        ≡ record {
          id = sql.new_id (map (λ (x : XattrRow). x.id) db.xattrs);
          dev = as_int64 msg.dev;
          ino = ino_key msg;
          name = c_str value;
          value = v;
        }
          ∷ []
  unfolding insert_xattr
  rows-insert fits e v =
      rw (keep-append, e, as_int64-as_int msg.dev fits, int_eq_refl, int_eq_refl, str_eq_refl)

  rows-insert_wide :
      2 ^ 31 ≤ msg.dev
      → msg.dev < 2 ^ 32
      → rows_of msg value db ≡ []
      → (v : Str)
      → keep
          (xattr_named (dev_key msg) (ino_key msg) (c_str value))
          (insert_xattr sql (as_int64 msg.dev) (ino_key msg) (c_str value) v db.xattrs)
        ≡ []
  unfolding insert_xattr
  rows-insert_wide lo hi e v =
      rw (keep-append, e, int_eq_of_ne _ _ (as_int64-ne-as_int msg.dev lo hi))

  get-put_new :
      (name : Str) (n : ℕ) (v : Str)
      → db.is_open ≡ true
      → msg.dev < 2 ^ 31
      → rows_of msg value db ≡ []
      → 1 ≤ length v
      → c_str name ≡ c_str value
      → get_xattr sql msg name n (put_xattr sql none msg (c_str value) v db) ≡ (0, v, length v)
  unfolding put_xattr get_xattr
  get-put_new name n v h fits e long same =
      rw (h, same, rows-insert fits e v, first_xattr-one sql, le→leb 1 (length v) long)

  get-put_old :
      (row : XattrRow) (name : Str) (n : ℕ) (v : Str)
      → db.is_open ≡ true
      → row.id < 2 ^ 31
      → rows_of msg value db ≡ row ∷ []
      → 1 ≤ length v
      → c_str name ≡ c_str value
      → get_xattr sql msg name n (put_xattr sql (some row) msg (c_str value) v db)
        ≡ (0, v, length v)
  unfolding put_xattr get_xattr
  get-put_old row name n v h fits e long same =
      rw (h, same, updated, first_xattr-one sql, le→leb 1 (length v) long)
    where
      updated :
          keep (xattr_named (dev_key msg) (ino_key msg) (c_str value)) (
            update_where
              (λ (x : XattrRow). int_eq (pos x.id) (as_int row.id))
              (λ (x : XattrRow). record x { value = v })
              db.xattrs)
          ≡ record row { value = v } ∷ []
      updated =
          keep-update_where (xattr_named (dev_key msg) (ino_key msg) (c_str value)) _
            (λ (x : XattrRow). record x { value = v }) db.xattrs (λ x. refl)
          ∙ rw (e, as_int-small row.id fits, int_eq_refl)

  get-put_wide :
      (n : ℕ) (v : Str)
      → db.is_open ≡ true
      → 2 ^ 31 ≤ msg.dev
      → msg.dev < 2 ^ 32
      → rows_of msg value db ≡ []
      → (get_xattr sql msg value n (put_xattr sql none msg (c_str value) v db)).0 ≡ 1
  unfolding put_xattr get_xattr
  get-put_wide n v h lo hi e = rw (h, rows-insert_wide lo hi e v, sql.first_xattr-nil)

  set-put_new :
      (flags : ℕ)
      → db.is_open ≡ true
      → flags ≢ 2
      → rows_of msg value db ≡ []
      → (set_xattr sql msg value len flags db).1
        ≡ put_xattr sql none msg (c_str value) (value_of value len) db
  unfolding set_xattr
  set-put_new flags h ok e = rw (e, sql.first_xattr-nil) (ground arith)

  set-code_new :
      (flags : ℕ)
      → db.is_open ≡ true
      → flags ≢ 2
      → rows_of msg value db ≡ []
      → (set_xattr sql msg value len flags db).0 ≡ 0
  unfolding set_xattr
  set-code_new flags h ok e = rw (e, sql.first_xattr-nil) (ground arith)

  set-put_old :
      (row : XattrRow) (flags : ℕ)
      → db.is_open ≡ true
      → flags ≢ 1
      → rows_of msg value db ≡ row ∷ []
      → (set_xattr sql msg value len flags db).1
        ≡ put_xattr sql (some row) msg (c_str value) (value_of value len) db
  unfolding set_xattr
  set-put_old row flags h ok e = rw (e, first_xattr-one sql) (ground arith)

  -- In an open database, with XATTR_CREATE (1) the request fails exactly if the attribute exists,
  -- with XATTR_REPLACE (2) exactly if it does not, and with no flag it succeeds.
  pub set_xattr_codes :
      db.is_open ≡ true
      → ((set_xattr sql msg value len 0 db).0 ≡ 0)
        × (set_xattr sql msg value len 1 db).0 ≡ (if is_nil (rows_of msg value db) then 0 else 1)
        × (set_xattr sql msg value len 2 db).0 ≡ (if is_nil (rows_of msg value db) then 1 else 0)
  unfolding set_xattr
  set_xattr_codes h = elim (first_xattr-cases sql (rows_of msg value db)) [
    | inl (n, e) ↦ (rw h, rw (h, e, n), rw (h, e, n))
    | inr (r, n, e) ↦ (rw h, rw (h, e, n), rw (h, e, n))
  ]

  -- Setting an attribute changes nothing if its result is 1, whatever its flags.
  pub set_xattr_failed :
      (flags : ℕ)
      → (set_xattr sql msg value len flags db).0 ≡ 1
      → (set_xattr sql msg value len flags db).1 ≡ db
  unfolding set_xattr
  set_xattr_failed flags f = ground arith

  -- A new attribute in an open database: unless XATTR_REPLACE (2) is asked for, getting it returns
  -- the bytes that were set, if they are at least one and the device number is below 2^31.
  pub get-set_xattr_new :
      (flags : ℕ) (name : Str) (n : ℕ)
      → db.is_open ≡ true
      → flags ≢ 2
      → msg.dev < 2 ^ 31
      → rows_of msg value db ≡ []
      → 1 ≤ length (value_of value len)
      → c_str name ≡ c_str value
      → get_xattr sql msg name n (set_xattr sql msg value len flags db).1
        ≡ (0, value_of value len, length (value_of value len))
  get-set_xattr_new flags name n h ok fits e long same =
      ap (λ d. get_xattr sql msg name n d) (set-put_new flags h ok e)
      ∙ get-put_new name n (value_of value len) h fits e long same

  -- An attribute that exists once in an open database: unless XATTR_CREATE (1) is asked for,
  -- getting it returns the new bytes, if they are at least one and the row's id is below 2^31.
  pub get-set_xattr_old :
      (row : XattrRow) (flags : ℕ) (name : Str) (n : ℕ)
      → db.is_open ≡ true
      → flags ≢ 1
      → row.id < 2 ^ 31
      → rows_of msg value db ≡ row ∷ []
      → 1 ≤ length (value_of value len)
      → c_str name ≡ c_str value
      → get_xattr sql msg name n (set_xattr sql msg value len flags db).1
        ≡ (0, value_of value len, length (value_of value len))
  get-set_xattr_old row flags name n h ok fits e long same =
      ap (λ d. get_xattr sql msg name n d) (set-put_old row flags h ok e)
      ∙ get-put_old row name n (value_of value len) h fits e long same

  -- For a device number from 2^31 up to 2^32, the INSERT binds 64 bits and the SELECT 32: in an
  -- open database, unless XATTR_REPLACE (2) is asked for, a new attribute is set successfully, and
  -- getting it fails.
  pub get-set_xattr_wide :
      (flags n : ℕ)
      → db.is_open ≡ true
      → flags ≢ 2
      → 2 ^ 31 ≤ msg.dev
      → msg.dev < 2 ^ 32
      → rows_of msg value db ≡ []
      → ((set_xattr sql msg value len flags db).0 ≡ 0)
        × ((get_xattr sql msg value n (set_xattr sql msg value len flags db).1).0 ≡ 1)
  get-set_xattr_wide flags n h ok lo hi e = (
    set-code_new flags h ok e,
    ap (λ d. (get_xattr sql msg value n d).0) (set-put_new flags h ok e)
        ∙ get-put_wide n (value_of value len) h lo hi e,
  )

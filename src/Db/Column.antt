-- ===== src/Db/Column.antt =====
-- How a message's numbers pass through the 64-bit integer columns: `signed_ino` and the
-- `sqlite3_bind_int` / `sqlite3_bind_int64` / `sqlite3_column_int64` calls of pseudo_db.c.
use pseudo.Prelude.{
  ℕ, ◌+◌, ◌-◌, ◌%◌, ◌^◌, ◌<◌, ◌≡◌, sym, ap, ◌∙◌, ℤ, pos, negsuc, sub_ℕ, ltb, if◌then◌else◌, arith,
}

-- (int) x, what sqlite3_bind_int stores
unfoldable pub as_int : ℕ → ℤ
as_int x = let r = x % 2 ^ 32 in if ltb r (2 ^ 31) then pos r else negsuc (2 ^ 32 - 1 - r)

-- (int64_t) x
unfoldable pub as_int64 : ℕ → ℤ
as_int64 x = let r = x % 2 ^ 64 in if ltb r (2 ^ 63) then pos r else negsuc (2 ^ 64 - 1 - r)

-- `(int64_t) (ino + INT64_MIN) + INT64_MIN`: the first sum is modulo 2^64, the second is signed.
unfoldable pub signed_ino : ℕ → ℤ
signed_ino ino = if ltb (2 ^ 63 - 1) ino then sub_ℕ ((ino + 2 ^ 63) % 2 ^ 64) (2 ^ 63) else pos ino

-- (unsigned long long) of a column
unfoldable pub to_u64 : ℤ → ℕ
to_u64 (pos n) = n % 2 ^ 64
to_u64 (negsuc n) = 2 ^ 64 - 1 - n % 2 ^ 64

-- (uid_t) or (int) of a column, as a bit pattern
unfoldable pub to_u32 : ℤ → ℕ
to_u32 (pos n) = n % 2 ^ 32
to_u32 (negsuc n) = 2 ^ 32 - 1 - n % 2 ^ 32

-- The column of an inode number below 2^64 is the same as the plain conversion to a signed number,
-- and it comes back from the column.
pub to_u64-signed_ino :
    (ino : ℕ) → ino < 2 ^ 64 → (to_u64 (signed_ino ino) ≡ ino) × (signed_ino ino ≡ as_int64 ino)
unfolding to_u64 signed_ino as_int64
to_u64-signed_ino ino h = (ground arith, ground arith)

-- A 32-bit field comes back.
pub to_u32-as_int : (x : ℕ) → x < 2 ^ 32 → to_u32 (as_int x) ≡ x
unfolding to_u32 as_int
to_u32-as_int x h = ground arith

-- A 64-bit field that is bound by sqlite3_bind_int comes back exactly when it is below 2^31.
pub to_u64-as_int_iff : (x : ℕ) → x < 2 ^ 32 → (to_u64 (as_int x) ≡ x → x < 2 ^ 31)
unfolding to_u64 as_int
to_u64-as_int_iff x h e = ground arith

pub to_u64-as_int : (x : ℕ) → x < 2 ^ 31 → to_u64 (as_int x) ≡ x
unfolding to_u64 as_int
to_u64-as_int x h = ground arith

pub signed_ino-injective : (a b : ℕ) → a < 2 ^ 64 → b < 2 ^ 64 → signed_ino a ≡ signed_ino b → a ≡ b
signed_ino-injective a b ha hb e =
    sym (to_u64-signed_ino a ha).0 ∙ ap to_u64 e ∙ (to_u64-signed_ino b hb).0

-- ===== src/Wrappers/Modes.antt =====
-- PSEUDO_FS_MODE and PSEUDO_DB_MODE of pseudo_client.h: the mode that a file gets on disk, and the mode
-- that the database gets of what is on disk and what was asked for. A mode has 32 bits.
use pseudo.Prelude.{
  ℕ, ◌-◌, ◌^◌, ◌<◌, ◌≡◌, refl, Bool, true, false, ◌==◌, eq_of_==, all_below, all_below-lt,
  if◌then◌else◌,
}
use Prim.Native.Nat.{bit_and, bit_or}

-- ~mask on 32 bits
abbrev pub flip : ℕ → ℕ
flip mask = 2 ^ 32 - 1 - mask

-- ((mode | S_IRUSR | S_IWUSR | (isdir ? S_IXUSR : 0)) & ~(S_IWGRP | S_IWOTH))
unfoldable pub fs_mode : ℕ → Bool → ℕ
fs_mode mode is_dir =
    bit_and (bit_or (bit_or mode 0o600) (if is_dir then 0o100 else 0)) (flip 0o022)

-- ((fs_mode & ~0722) | (user_mode & 0722))
unfoldable pub db_mode : ℕ → ℕ → ℕ
db_mode on_disk mode = bit_or (bit_and on_disk (flip 0o722)) (bit_and mode 0o722)

abbrev comes_back : ℕ → Bool → ℕ → Bool
comes_back type dir mode = db_mode (bit_or type (fs_mode mode dir)) mode == bit_or type mode

dir_table : all_below 4096 (comes_back 0o40000 true) ≡ true
unfolding db_mode fs_mode
dir_table = refl

file_table : all_below 4096 (comes_back 0o100000 false) ≡ true
unfolding db_mode fs_mode
file_table = refl

fifo_table : all_below 4096 (comes_back 0o010000 false) ≡ true
unfolding db_mode fs_mode
fifo_table = refl

-- For each of the 4096 permissions, the mode that the database gets of a new directory, file or
-- pipe that was made on disk with PSEUDO_FS_MODE is the mode that was asked for.
pub db_mode-fs_mode :
    (mode : ℕ)
    → mode < 4096
    → (db_mode (bit_or 0o40000 (fs_mode mode true)) mode ≡ bit_or 0o40000 mode)
      × (db_mode (bit_or 0o100000 (fs_mode mode false)) mode ≡ bit_or 0o100000 mode)
      × (db_mode (bit_or 0o010000 (fs_mode mode false)) mode ≡ bit_or 0o010000 mode)
db_mode-fs_mode mode h = (
  eq_of_== _ _ (all_below-lt 4096 (comes_back 0o40000 true) mode dir_table h),
  eq_of_== _ _ (all_below-lt 4096 (comes_back 0o100000 false) mode file_table h),
  eq_of_== _ _ (all_below-lt 4096 (comes_back 0o010000 false) mode fifo_table h),
)

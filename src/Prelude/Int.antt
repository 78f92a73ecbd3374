-- ===== src/Prelude/Int.antt =====
-- Signed integers over the native numbers, under the library's names.
use Prim.Native.Nat.{ℕ, ◌-◌}
use mathlib.Core.Path.{◌≡◌, ap}
use mathlib.Core.Logic.{◌≢◌, inl, inr}
use mathlib.Core.Bool.{Bool, true, false}
use pseudo.Prelude.Tests.{◌==◌, leb, if◌then◌else◌, ==-refl, eq_of_==, Bool-cases}

-- `negsuc n` is -(n + 1).
pub data ℤ : Type 0 where
  pos : ℕ → ℤ
  negsuc : ℕ → ℤ

-- a - b, as an integer.
abbrev pub sub_ℕ : ℕ → ℕ → ℤ
sub_ℕ a b = if leb b a then pos (a - b) else negsuc (b - a - 1)

abbrev pub int_eq : ℤ → ℤ → Bool
int_eq (pos a) (pos b) = a == b
int_eq (pos a) (negsuc b) = false
int_eq (negsuc a) (pos b) = false
int_eq (negsuc a) (negsuc b) = a == b

pub int_eq_refl : (a : ℤ) → int_eq a a ≡ true
int_eq_refl (pos a) = ==-refl a
int_eq_refl (negsuc a) = ==-refl a

pub eq_of_int_eq : (a b : ℤ) → int_eq a b ≡ true → a ≡ b
eq_of_int_eq (pos a) (pos b) h = ap pos (eq_of_== a b h)
eq_of_int_eq (pos a) (negsuc b) h = cc
eq_of_int_eq (negsuc a) (pos b) h = cc
eq_of_int_eq (negsuc a) (negsuc b) h = ap negsuc (eq_of_== a b h)

pub int_eq_of_ne : (a b : ℤ) → a ≢ b → int_eq a b ≡ false
int_eq_of_ne a b h = elim (Bool-cases (int_eq a b)) [
  | inl e ↦ absurd (h (eq_of_int_eq a b e))
  | inr e ↦ e
]

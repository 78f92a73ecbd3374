-- ===== src/Prelude/Strings.antt =====
-- C strings and buffers: lists of bytes. A buffer may hold NUL bytes; a string ends at the first.
use Prim.Native.Nat.{ℕ, zero, suc, ◌<◌}
use mathlib.Core.Path.{◌≡◌, refl, sym, ap, ap₂}
use mathlib.Core.Logic.{◌≢◌, inl, inr}
use mathlib.Core.Bool.{Bool, true, false, ◌&&◌}
use mathlib.Core.List.{List, [], ◌∷◌, ◌++◌}
use native.Mathlib.Omega.{arith}
use pseudo.Prelude.Tests.{◌==◌, ==-refl, eq_of_==, Bool-cases, if◌then◌else◌}
use pseudo.Prelude.Lists.{length, drop}

abbrev pub Str : Type 0
Str = List ℕ

-- strcmp (a, b) == 0
abbrev pub str_eq : Str → Str → Bool
str_eq [] [] = true
str_eq [] (y ∷ ys) = false
str_eq (x ∷ xs) [] = false
str_eq (x ∷ xs) (y ∷ ys) = (x == y) && str_eq xs ys

-- memcmp (a, p, strlen (p)) == 0, for a of at least that length
abbrev pub is_prefix : Str → Str → Bool
is_prefix [] a = true
is_prefix (p ∷ ps) [] = false
is_prefix (p ∷ ps) (a ∷ as') = (p == a) && is_prefix ps as'

-- The bytes of a buffer up to the first NUL, and those behind it.
abbrev pub c_str : Str → Str
c_str [] = []
c_str (zero ∷ r) = []
c_str (suc c ∷ r) = suc c ∷ c_str r

abbrev pub past_nul : Str → Str
past_nul [] = []
past_nul (zero ∷ r) = r
past_nul (suc c ∷ r) = past_nul r

-- strlen
abbrev pub strlen : Str → ℕ
strlen s = length (c_str s)

abbrev pub extend : ℕ → List Str → List Str
extend c [] = (c ∷ []) ∷ []
extend c (w ∷ ws) = (c ∷ w) ∷ ws

-- The parts of a text between the separators, empty ones included.
abbrev pub split : ℕ → Str → List Str
split sep [] = [] ∷ []
split sep (c ∷ s) = if c == sep then [] ∷ split sep s else extend c (split sep s)

-- No byte of the string is NUL.
abbrev pub NoNul : Str → Type 0
NoNul [] = Unit
NoNul (c ∷ r) = (0 < c) × NoNul r

pub str_eq_refl : (a : Str) → str_eq a a ≡ true
str_eq_refl [] = refl
str_eq_refl (x ∷ xs) = ap₂ ◌&&◌ (==-refl x) (str_eq_refl xs)

pub and_left : (a b : Bool) → (a && b) ≡ true → a ≡ true
and_left true b h = refl
and_left false b h = cc

pub and_right : (a b : Bool) → (a && b) ≡ true → b ≡ true
and_right true b h = h
and_right false b h = cc

pub eq_of_str_eq : (a b : Str) → str_eq a b ≡ true → a ≡ b
eq_of_str_eq [] [] h = refl
eq_of_str_eq [] (y ∷ ys) h = cc
eq_of_str_eq (x ∷ xs) [] h = cc
eq_of_str_eq (x ∷ xs) (y ∷ ys) h =
    ap₂ ◌∷◌ (eq_of_== x y (and_left (x == y) (str_eq xs ys) h))
      (eq_of_str_eq xs ys (and_right (x == y) (str_eq xs ys) h))

pub str_eq_of_ne : (a b : Str) → a ≢ b → str_eq a b ≡ false
str_eq_of_ne a b h = elim (Bool-cases (str_eq a b)) [
  | inl e ↦ absurd (h (eq_of_str_eq a b e))
  | inr e ↦ e
]

pub c_str-append_nul : (s r : Str) → NoNul s → c_str (s ++ 0 ∷ r) ≡ s
c_str-append_nul [] r h = refl
c_str-append_nul (zero ∷ s) r h = absurd (omega arith)
c_str-append_nul (suc c ∷ s) r h = ap (λ t. suc c ∷ t) (c_str-append_nul s r h.1)

pub past_nul-append_nul : (s r : Str) → NoNul s → past_nul (s ++ 0 ∷ r) ≡ r
past_nul-append_nul [] r h = refl
past_nul-append_nul (zero ∷ s) r h = absurd (omega arith)
past_nul-append_nul (suc c ∷ s) r h = past_nul-append_nul s r h.1

pub c_str-NoNul : (s : Str) → NoNul s → c_str s ≡ s
c_str-NoNul [] h = refl
c_str-NoNul (zero ∷ s) h = absurd (omega arith)
c_str-NoNul (suc c ∷ s) h = ap (λ t. suc c ∷ t) (c_str-NoNul s h.1)

pub NoNul-c_str : (s : Str) → NoNul (c_str s)
NoNul-c_str [] = tt
NoNul-c_str (zero ∷ r) = tt
NoNul-c_str (suc c ∷ r) = (omega arith, NoNul-c_str r)

pub is_prefix-append : (p s : Str) → is_prefix p (p ++ s) ≡ true
is_prefix-append [] s = refl
is_prefix-append (x ∷ p) s = ap₂ ◌&&◌ (==-refl x) (is_prefix-append p s)

pub append_of_is_prefix : (p s : Str) → is_prefix p s ≡ true → s ≡ p ++ drop (length p) s
append_of_is_prefix [] s h = refl
append_of_is_prefix (x ∷ p) [] h = cc
append_of_is_prefix (x ∷ p) (y ∷ s) h =
    ap₂ ◌∷◌ (sym (eq_of_== x y (and_left (x == y) (is_prefix p s) h)))
      (append_of_is_prefix p s (and_right (x == y) (is_prefix p s) h))

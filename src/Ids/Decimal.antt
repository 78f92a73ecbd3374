-- ===== src/Ids/Decimal.antt =====
-- "%d" of printf and scanf for an int, and the "%d,%d,%d,%d" that pseudo_client.c prints ids with
-- and reads them by. An int has ten digits at most.
use pseudo.Prelude.{
  ℕ, zero, suc, ◌+◌, ◌-◌, ◌*◌, ◌/◌, ◌%◌, ◌^◌, ◌<◌, ◌≤◌, ◌≡◌, refl, ◌∙◌, ◌==◌, Bool-cases, inl, inr,
  leb, ltb, Bool, true, false, ◌&&◌, ◌||◌, Option, none, some, List, [], ◌∷◌, ◌++◌, append-nil,
  append_assoc, Str, length, length-append, ℤ, pos, negsuc, if◌then◌else◌, arith,
}

-- At most `k` digits.
pub digits : ℕ → ℕ → Str
digits zero n = []
digits (suc k) n =
    let front = digits k (n / 10) in
    if ltb n 10 then (b'0' + n) ∷ [] else front ++ (b'0' + n % 10) ∷ []

unfoldable pub print_int : ℤ → Str
unfolding digits
print_int (pos n) = digits 10 n
print_int (negsuc n) = b'-' ∷ digits 10 (suc n)

abbrev is_digit : ℕ → Bool
is_digit c = leb b'0' c && leb c b'9'

abbrev is_space : ℕ → Bool
is_space c = (c == b' ') || (leb 9 c && leb c 13)

-- The digits in front of a text, after a number; an int that overflows is not defined in C.
scan_digits : Str → ℕ → ℕ × Str
scan_digits [] n = (n, [])
scan_digits (c ∷ s) n =
    let rest = scan_digits s (n * 10 + (c - b'0')) in if is_digit c then rest else (n, c ∷ s)

abbrev starts_number : Str → Bool
starts_number [] = false
starts_number (c ∷ s) = is_digit c

abbrev negated : ℕ → ℤ
negated zero = pos 0
negated (suc n) = negsuc n

scan_number : (ℕ → ℤ) → Str → Option (ℤ × Str)
scan_number sign s =
    let (n, rest) = scan_digits s 0 in if starts_number s then some (sign n, rest) else none

skip_space : Str → Str
skip_space [] = []
skip_space (c ∷ s) = let rest = skip_space s in if is_space c then rest else c ∷ s

scan_signed : Str → Option (ℤ × Str)
scan_signed [] = none
scan_signed (c ∷ s) =
    if c == b'-'
    then scan_number negated s
    else if c == b'+'
    then scan_number pos s
    else scan_number pos (c ∷ s)

pub scan_int : Str → Option (ℤ × Str)
scan_int s = scan_signed (skip_space s)

abbrev after_comma : Str → Option Str
after_comma [] = none
after_comma (c ∷ s) = if c == b',' then some s else none

-- What the conversions of "%d,%d,…" assign, in order, up to the first that fails.
pub scan_ints : ℕ → Str → List ℤ
scan_ints zero s = []
scan_ints (suc k) s = elim (scan_int s) [
  | none ↦ []
  | some (n, rest) ↦ n ∷ elim (after_comma rest) [ none ↦ [] | some t ↦ scan_ints k t ]
]

abbrev pub NoDigit : Str → Type 0
NoDigit s = starts_number s ≡ false

scan_digits-stop : (s : Str) (n : ℕ) → NoDigit s → scan_digits s n ≡ (n, s)
unfolding scan_digits
scan_digits-stop [] n h = refl
scan_digits-stop (c ∷ s) n h = rw h

scan_digits-digits :
    (k n : ℕ) (rest : Str)
    → n < 10 ^ k
    → 0 < k
    → scan_digits (digits k n ++ rest) 0 ≡ scan_digits rest n
unfolding digits scan_digits
scan_digits-digits zero n rest h p = absurd (omega arith)
scan_digits-digits (suc zero) n rest h p = ground arith
scan_digits-digits (suc (suc k)) n rest h p = elim (Bool-cases (ltb n 10)) [
  | inl e ↦ rw e (ground arith)
  | inr e ↦
      rw (e, append_assoc)
        (scan_digits-digits (suc k) (n / 10) ((b'0' + n % 10) ∷ rest) (grind arith) (omega arith)
          ∙ ground arith)
]

digits-starts : (k n : ℕ) (rest : Str) → 0 < k → starts_number (digits k n ++ rest) ≡ true
unfolding digits
digits-starts zero n rest p = absurd (omega arith)
digits-starts (suc zero) n rest p = ground arith
digits-starts (suc (suc k)) n rest p = elim (Bool-cases (ltb n 10)) [
  | inl e ↦ rw e (ground arith)
  | inr e ↦ rw (e, append_assoc) (digits-starts (suc k) (n / 10) _ (omega arith))
]

length-digits : (k n : ℕ) → length (digits k n) ≤ k
unfolding digits
length-digits zero n = omega arith
length-digits (suc k) n = elim (Bool-cases (ltb n 10)) [
  | inl e ↦ rw e (omega arith)
  | inr e ↦ rw (e, length-append) (omega (arith, length-digits k (n / 10)))
]

abbrev pub Fits : ℤ → Type 0
Fits (pos n) = n < 10 ^ 10
Fits (negsuc n) = suc n < 10 ^ 10

scan_number-digits :
    (sign : ℕ → ℤ) (n : ℕ) (rest : Str)
    → n < 10 ^ 10
    → NoDigit rest
    → scan_number sign (digits 10 n ++ rest) ≡ some (sign n, rest)
unfolding scan_number
scan_number-digits sign n rest h e = rw (
  scan_digits-digits 10 n rest h (omega arith),
  scan_digits-stop rest n e,
  digits-starts 10 n rest (omega arith),
)

-- A text that starts with a digit has no space to skip and no sign.
scan_int-unsigned : (s : Str) → starts_number s ≡ true → scan_int s ≡ scan_number pos s
unfolding scan_int scan_signed skip_space
scan_int-unsigned [] h = cc
scan_int-unsigned (c ∷ s) h = ground arith

scan_int-print_int :
    (z : ℤ) (rest : Str) → Fits z → NoDigit rest → scan_int (print_int z ++ rest) ≡ some (z, rest)
unfolding print_int
scan_int-print_int (pos n) rest h e =
    scan_int-unsigned (digits 10 n ++ rest) (digits-starts 10 n rest (omega arith))
    ∙ scan_number-digits pos n rest h e
scan_int-print_int (negsuc n) rest h e =
    unfold scan_int scan_signed skip_space in scan_number-digits negated (suc n) rest h e

pub length-print_int : (z : ℤ) → length (print_int z) ≤ 11
unfolding print_int
length-print_int (pos n) = omega (arith, length-digits 10 n)
length-print_int (negsuc n) = omega (arith, length-digits 10 (suc n))

-- snprintf with "%d,%d,%d,%d"
unfoldable pub print_four : ℤ → ℤ → ℤ → ℤ → Str
print_four a b c d =
    print_int a ++ (b',' ∷ (print_int b ++ (b',' ∷ (print_int c ++ (b',' ∷ print_int d)))))

scan_ints_comma :
    (k : ℕ) (z : ℤ) (rest : Str)
    → Fits z
    → scan_ints (suc k) (print_int z ++ (b',' ∷ rest)) ≡ z ∷ scan_ints k rest
unfolding scan_ints
scan_ints_comma k z rest h = rw (scan_int-print_int z (b',' ∷ rest) h refl, scan_ints)

scan_ints_last : (k : ℕ) (z : ℤ) → Fits z → scan_ints (suc k) (print_int z) ≡ z ∷ []
unfolding scan_ints
scan_ints_last k z h = rw (rw append-nil at (scan_int-print_int z [] h refl), scan_ints)

pub scan_ints-print_four :
    (a b c d : ℤ)
    → Fits a
    → Fits b
    → Fits c
    → Fits d
    → scan_ints 4 (print_four a b c d) ≡ a ∷ b ∷ c ∷ d ∷ []
unfolding print_four
scan_ints-print_four a b c d ha hb hc hd = rw (
  scan_ints_comma 3 a _ ha,
  scan_ints_comma 2 b _ hb,
  scan_ints_comma 1 c _ hc,
  scan_ints_last 0 d hd,
)

-- 47 bytes at most, so the buffer of 256 bytes cuts nothing off.
pub length-print_four : (a b c d : ℤ) → length (print_four a b c d) ≤ 47
unfolding print_four
length-print_four a b c d =
    rw (length-append, length-append, length-append)
      (omega
        (arith, length-print_int a, length-print_int b, length-print_int c, length-print_int d))

-- ===== src/Log/Printed.antt =====
-- The modes that ls prints, read back.
use pseudo.Prelude.{
  ℕ, ◌+◌, ◌%◌, ◌/◌, ◌^◌, ◌<◌, ◌≡◌, refl, sym, ap, ◌∙◌, Bool, true, false, ◌&&◌, ◌==◌, eq_of_==,
  Option, none, some, List, [], ◌∷◌, All, Str, if◌then◌else◌, all_below, all_below-lt, and_left,
  and_right,
}
use pseudo.Prelude.{arith}
use pseudo.Log.Modes.{parse_file_type, parse_permissions, parse_mode_string}

-- The letters of a mode as ls prints them.
abbrev letter : Bool → ℕ → ℕ
letter set c = if set then c else b'-'

abbrev bit : ℕ → ℕ → Bool
bit k mode = (mode / 2 ^ k) % 2 == 1

abbrev exec_letter : Bool → Bool → ℕ → ℕ → ℕ
exec_letter special x both only = if special then (if x then both else only) else letter x b'x'

abbrev pub print_mode : ℕ → Str
print_mode mode =
    letter (bit 8 mode) b'r'
    ∷ letter (bit 7 mode) b'w'
    ∷ exec_letter (bit 11 mode) (bit 6 mode) b's' b'S'
    ∷ letter (bit 5 mode) b'r'
    ∷ letter (bit 4 mode) b'w'
    ∷ exec_letter (bit 10 mode) (bit 3 mode) b's' b'S'
    ∷ letter (bit 2 mode) b'r'
    ∷ letter (bit 1 mode) b'w'
    ∷ exec_letter (bit 9 mode) (bit 0 mode) b't' b'T'
    ∷ []

abbrev is_value : ℕ → Option ℕ → Bool
is_value m none = false
is_value m (some n) = n == m

eq_of_is_value : (m : ℕ) (o : Option ℕ) → is_value m o ≡ true → o ≡ some m
eq_of_is_value m none h = cc
eq_of_is_value m (some n) h = ap some (eq_of_== n m h)

-- A test on each file type
abbrev each_type : (ℕ → Bool) → Bool
each_type p =
    p 0o060000
    && (p 0o020000 && (p 0o040000 && (p 0o100000 && (p 0o120000 && (p 0o010000 && p 0o140000)))))

abbrev comes_back : ℕ → Bool
comes_back mode =
    is_value mode (parse_permissions 0 (print_mode mode))
    && each_type (λ type. is_value (type + mode) (parse_permissions type (print_mode mode)))

mode_table : all_below 4096 comes_back ≡ true
unfolding parse_permissions
mode_table = refl

injective : (a b : ℕ) → some a ≡ some b → a ≡ b
injective a b q = cc

-- Each branch of a choice between values
choose :
    (p : ℕ → Bool) (b : Bool) (t type : ℕ) (other : Option ℕ)
    → (if b then some t else other) ≡ some type
    → p t ≡ true
    → (other ≡ some type → p type ≡ true)
    → p type ≡ true
choose p true t type other e h k = ap p (sym (injective t type e)) ∙ h
choose p false t type other e h k = k e

parsed_type :
    (p : ℕ → Bool) (c type : ℕ) → each_type p ≡ true → parse_file_type c ≡ some type → p type ≡ true
unfolding parse_file_type
parsed_type p c type h e = choose p (c == b'b') 0o060000 type _ e (ground (arith, h)) λ e1.
    choose p (c == b'c') 0o020000 type _ e1 (ground (arith, h)) λ e2.
      choose p (c == b'd') 0o040000 type _ e2 (ground (arith, h)) λ e3.
        choose p (c == b'-') 0o100000 type _ e3 (ground (arith, h)) λ e4.
          choose p (c == b'f') 0o100000 type _ e4 (ground (arith, h)) λ e5.
            choose p (c == b'l') 0o120000 type _ e5 (ground (arith, h)) λ e6.
              choose p (c == b'p') 0o010000 type _ e6 (ground (arith, h))
                λ e7. choose p (c == b's') 0o140000 type none e7 (ground (arith, h)) λ e8. cc

parsed :
    (mode : ℕ) (c type : ℕ)
    → mode < 4096
    → parse_file_type c ≡ some type
    → parse_permissions type (print_mode mode) ≡ some (type + mode)
parsed mode c type lt e = eq_of_is_value (type + mode) _ (
    parsed_type (λ x. is_value (x + mode) (parse_permissions x (print_mode mode))) c type
      (and_right _ _ (all_below-lt 4096 comes_back mode mode_table lt)) e)

-- The letter of each file type, as ls and find print it, and the type's bits of a mode
abbrev pub types : List (ℕ × ℕ)
types =
    (b'b', 0o060000)
    ∷ (b'c', 0o020000)
    ∷ (b'd', 0o040000)
    ∷ (b'-', 0o100000)
    ∷ (b'f', 0o100000)
    ∷ (b'l', 0o120000)
    ∷ (b'p', 0o010000)
    ∷ (b's', 0o140000)
    ∷ []

parsed_typed :
    (mode : ℕ)
    → mode < 4096
    → All (λ t. parse_mode_string (t.0 ∷ print_mode mode) ≡ some (t.1 + mode)) types
unfolding parse_mode_string parse_file_type
parsed_typed mode lt = (
  parsed mode b'b' 0o060000 lt refl,
  (
    parsed mode b'c' 0o020000 lt refl,
    (
      parsed mode b'd' 0o040000 lt refl,
      (
        parsed mode b'-' 0o100000 lt refl,
        (
          parsed mode b'f' 0o100000 lt refl,
          (
            parsed mode b'l' 0o120000 lt refl,
            (parsed mode b'p' 0o010000 lt refl, (parsed mode b's' 0o140000 lt refl, tt)),
          ),
        ),
      ),
    ),
  ),
)

-- The nine letters that ls prints for each of the 4096 permissions, special bits included, are
-- read back as that mode, and with a letter before them, b, c, d, - or f, l, p or s, as that mode with the
-- bits of a block device, a character device, a directory, a file, a link, a pipe or a socket.
pub parse_mode_string-print_mode :
    (mode : ℕ)
    → mode < 4096
    → (parse_mode_string (print_mode mode) ≡ some mode)
      × All (λ t. parse_mode_string (t.0 ∷ print_mode mode) ≡ some (t.1 + mode)) types
unfolding parse_mode_string
parse_mode_string-print_mode mode lt = (
  eq_of_is_value mode _ (and_left _ _ (all_below-lt 4096 comes_back mode mode_table lt)),
  parsed_typed mode lt,
)

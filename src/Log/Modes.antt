-- ===== src/Log/Modes.antt =====
-- The modes of a query: parse_file_type, parse_partial_mode and parse_mode_string of pseudolog.c.
-- (mode_t) -1 is none.
use pseudo.Prelude.{
  ℕ, ◌*◌, ◌%◌, ◌^◌, ◌==◌, Option, none, some, [], ◌∷◌, Str, length, leb, if◌then◌else◌,
}
use Prim.Native.Nat.{bit_or}

unfoldable pub parse_file_type : ℕ → Option ℕ
parse_file_type c =
    if c == b'b'
    then some 0o060000
    else if c == b'c'
    then some 0o020000
    else if c == b'd'
    then some 0o040000
    else if c == b'-'
    then some 0o100000
    else if c == b'f'
    then some 0o100000
    else if c == b'l'
    then some 0o120000
    else if c == b'p'
    then some 0o010000
    else if c == b's'
    then some 0o140000
    else none

abbrev read_bit : ℕ → Option ℕ
read_bit c = if c == b'r' then some 4 else if c == b'-' then some 0 else none

abbrev write_bit : ℕ → Option ℕ
write_bit c = if c == b'w' then some 2 else if c == b'-' then some 0 else none

-- 010 is the special bit of a triple.
abbrev exec_bits : ℕ → Option ℕ
exec_bits c =
    if c == b'x'
    then some 1
    else if c == b't'
    then some 0o11
    else if c == b's'
    then some 0o11
    else if c == b'T'
    then some 0o10
    else if c == b'S'
    then some 0o10
    else if c == b'-'
    then some 0
    else none

infixl 5 ◌>>=◌
abbrev ◌>>=◌ : Option ℕ → (ℕ → Option ℕ) → Option ℕ
none >>= f = none
some a >>= f = f a

unfoldable pub parse_partial_mode : ℕ → ℕ → ℕ → Option ℕ
parse_partial_mode a b c = do
  r ← read_bit a
  w ← write_bit b
  x ← exec_bits c
  some (bit_or (bit_or r w) x)

-- The bits of a triple go to their place, the special one to its own.
abbrev put_bits : ℕ → ℕ → ℕ → ℕ → ℕ
put_bits special shift mode bits =
    bit_or (if leb 0o10 bits then bit_or mode special else mode) (bits % 0o10 * 2 ^ shift)

unfoldable pub parse_permissions : ℕ → Str → Option ℕ
unfolding parse_partial_mode
parse_permissions mode (a ∷ b ∷ c ∷ d ∷ e ∷ f ∷ g ∷ h ∷ i ∷ []) = do
  user ← parse_partial_mode a b c
  group ← parse_partial_mode d e f
  other ← parse_partial_mode g h i
  some (put_bits 0o1000 0 (put_bits 0o2000 3 (put_bits 0o4000 6 mode user) group) other)
parse_permissions mode _ = none

parse_typed : Str → Option ℕ
unfolding parse_file_type parse_permissions
parse_typed [] = none
parse_typed (c ∷ string) = do mode ← parse_file_type c; parse_permissions mode string

unfoldable pub parse_mode_string : Str → Option ℕ
unfolding parse_typed parse_permissions
parse_mode_string string =
    if length string == 9
    then parse_permissions 0 string
    else if length string == 10
    then parse_typed string
    else none

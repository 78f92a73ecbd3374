-- ===== src/Wrappers/Access.antt =====
-- How a file is opened, as the server is told: PSEUDO_ACCESS of pseudo_ipc.h for the flags of open, and
-- pseudo_access_fopen of pseudo_util.c for the mode of fopen. The flags have the values of Linux.
use pseudo.Prelude.{
  ℕ, ◌%◌, ◌≡◌, refl, ap, Bool, true, false, ◌==◌, ◌||◌, Option, none, some, [], ◌∷◌, Str,
  Bool-cases, inl, inr, ltb, eq_of_==, ◌∙◌, if◌then◌else◌, arith,
}
use Prim.Native.Nat.{bit_and, bit_or}

abbrev pub psa_read : ℕ
psa_read = 4

abbrev pub psa_write : ℕ
psa_write = 2

abbrev psa_exec : ℕ
psa_exec = 1

abbrev psa_append : ℕ
psa_append = 8

-- mode & mask, as a test
abbrev pub has : ℕ → ℕ → Bool
has mode mask = ltb 0 (bit_and mode mask)

abbrev o_append : ℕ
o_append = 0o2000

unfoldable pub psa_of_flags : ℕ → ℕ
psa_of_flags flags =
    let mode = flags % 4 in
    bit_or
      (bit_or (bit_or (if mode == 0 then psa_read else 0) (if mode == 1 then psa_write else 0))
        (if mode == 2 then bit_or psa_read psa_write else 0))
      (if has flags o_append then psa_append else 0)

-- One letter; none is the access -1, which stays.
abbrev pub letter : ℕ → ℕ → Option ℕ
letter access c =
    if c == b'a'
    then some (bit_or access (bit_or psa_append psa_write))
    else if c == b'r'
    then some (bit_or access psa_read)
    else if c == b'w'
    then some (bit_or access psa_write)
    else if c == b'x'
    then some (bit_or access psa_exec)
    else if c == b'b' || (c == b'c' || (c == b'e' || c == b'm'))
    then some access
    else if c == b'+'
    then some (bit_or access (bit_or psa_read psa_write))
    else none

pub letters : Option ℕ → Str → Option ℕ
letters access [] = access
letters none (c ∷ mode) = letters none mode
letters (some access) (c ∷ mode) = letters (letter access c) mode

unfoldable pub access_fopen : Str → Option ℕ
unfolding letters
access_fopen mode = letters (some 0) mode

-- The letters that may follow the first one: the flags of fopen are those of POSIX and glibc but "x".
abbrev is_modifier : ℕ → Bool
is_modifier c = c == b'+' || (c == b'b' || (c == b'c' || (c == b'e' || c == b'm')))

abbrev pub AreModifiers : Str → Type 0
AreModifiers [] = Unit
AreModifiers (c ∷ s) = (is_modifier c ≡ true) × AreModifiers s

abbrev has_plus : Str → Bool
has_plus [] = false
has_plus (c ∷ s) = c == b'+' || has_plus s

-- The flags of open that fopen uses, as its documentation has them: O_RDWR with a "+"; O_CREAT and
-- O_TRUNC with "w", O_CREAT and O_APPEND with "a".
abbrev pub flags_fopen : ℕ → Str → ℕ
flags_fopen c rest =
    if c == b'r'
    then (if has_plus rest then 2 else 0)
    else if c == b'w'
    then (if has_plus rest then 0o1102 else 0o1101)
    else (if has_plus rest then 0o2102 else 0o2101)

-- What the rest of a mode adds.
abbrev raised : ℕ → Bool → ℕ
raised access plus = if plus then bit_or access 6 else access

letter_plus : (access c : ℕ) → (c == b'+') ≡ true → letter access c ≡ some (bit_or access 6)
letter_plus access c h = rw (eq_of_== c b'+' h) refl

letter_other :
    (access c : ℕ) → is_modifier c ≡ true → (c == b'+') ≡ false → letter access c ≡ some access
letter_other access c m h = ground arith

raised_twice :
    (access : ℕ) (plus : Bool)
    → bit_or (bit_or access 6) 6 ≡ bit_or access 6
    → raised (bit_or access 6) plus ≡ bit_or access 6
raised_twice access true h = h
raised_twice access false h = refl

letters-modifiers :
    (access : ℕ) (rest : Str)
    → bit_or (bit_or access 6) 6 ≡ bit_or access 6
    → AreModifiers rest
    → letters (some access) rest ≡ some (raised access (has_plus rest))
unfolding letters
letters-modifiers access [] h m = refl
letters-modifiers access (c ∷ rest) h m = elim (Bool-cases (c == b'+')) [
  | inl e ↦
      rw (letter_plus access c e, e)
        (letters-modifiers (bit_or access 6) rest (ap (λ (n : ℕ). bit_or n 6) h) m.1
          ∙ ap some (raised_twice access (has_plus rest) h))
  | inr e ↦ rw (letter_other access c m.0 e, e) (letters-modifiers access rest h m.1)
]

-- For "r", "w" or "a" and then any of "+", "b", "c", "e" and "m", the access that fopen reports is the
-- one that open reports for the flags that fopen uses.
pub access_fopen-flags_fopen :
    (rest : Str)
    → AreModifiers rest
    → (access_fopen (b'r' ∷ rest) ≡ some (psa_of_flags (flags_fopen b'r' rest)))
      × (access_fopen (b'w' ∷ rest) ≡ some (psa_of_flags (flags_fopen b'w' rest)))
      × (access_fopen (b'a' ∷ rest) ≡ some (psa_of_flags (flags_fopen b'a' rest)))
unfolding access_fopen psa_of_flags
access_fopen-flags_fopen rest m = elim (Bool-cases (has_plus rest)) [
  | inl e ↦ (
    letters-modifiers 4 rest refl m ∙ rw e refl,
    letters-modifiers 2 rest refl m ∙ rw e refl,
    letters-modifiers 10 rest refl m ∙ rw e refl,
  )
  | inr e ↦ (
    letters-modifiers 4 rest refl m ∙ rw e refl,
    letters-modifiers 2 rest refl m ∙ rw e refl,
    letters-modifiers 10 rest refl m ∙ rw e refl,
  )
]

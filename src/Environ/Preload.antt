-- ===== src/Environ/Preload.antt =====
-- A list of preloaded libraries: without_libpseudo and with_libpseudo of pseudo_util.c, as they are
-- on Linux. The regular expression "(^|=| )[^ ]*libpseudo[^ ]*\.so($| )" finds the first of the words
-- between spaces that has "libpseudo" somewhere before a ".so" at its end, with the space in front of
-- it, or the start of the text, and the space behind it.
use pseudo.Prelude.{
  ℕ, zero, suc, ◌+◌, ◌-◌, ◌==◌, Bool, false, ◌&&◌, ◌||◌, Option, none, some, List, [], ◌∷◌, ◌++◌,
  Str, str_eq, is_prefix, length, take, drop, split, if◌then◌else◌,
}

abbrev pub libpseudo : Str
libpseudo = b'l' ∷ b'i' ∷ b'b' ∷ b'p' ∷ b's' ∷ b'e' ∷ b'u' ∷ b'd' ∷ b'o' ∷ []

abbrev pub dot_so : Str
dot_so = b'.' ∷ b's' ∷ b'o' ∷ []

abbrev pub libpseudo_name : Str
libpseudo_name = libpseudo ++ dot_so

-- [^ ]*\.so up to the end
abbrev ends_so : Str → Bool
ends_so [] = false
ends_so (c ∷ s) = str_eq (c ∷ s) dot_so || ends_so s

-- [^ ]*libpseudo[^ ]*\.so of a text without spaces
abbrev pub is_libpseudo : Str → Bool
is_libpseudo [] = false
is_libpseudo (c ∷ s) = (is_prefix libpseudo (c ∷ s) && ends_so (drop 9 (c ∷ s))) || is_libpseudo s

-- The words between the spaces, empty ones included.
abbrev pub words : Str → List Str
words s = split b' ' s

abbrev pub past_space : List Str → ℕ
past_space [] = 0
past_space (w ∷ ws) = 1

-- rm_so and rm_eo of the match, for words that start at an offset.
unfoldable pub match_words : ℕ → List Str → Option (ℕ × ℕ)
match_words at [] = none
match_words at (w ∷ ws) =
    let later = match_words (at + length w + 1) ws in
    if is_libpseudo w then some (at - 1, at + length w + past_space ws) else later

unfoldable pub regexec : Str → Option (ℕ × ℕ)
unfolding match_words
regexec list = match_words 0 (words list)

-- One removal: memmove(start + skip_start, end, …).
abbrev pub cut : ℕ → Str → ℕ × ℕ → Str
cut skip list (start, stop) = take (start + skip) list ++ drop stop list

-- It gives up once more than five libraries have been taken out.
unfoldable pub cut_all : ℕ → ℕ → Str → Str
unfolding regexec
cut_all zero skip list = list
cut_all (suc rounds) skip list = elim (regexec list) [
  | none ↦ list
  | some m ↦ cut_all rounds skip (cut skip list m)
]

-- Whether the list starts with '=' or a separator.
abbrev pub skip_start : Str → ℕ
skip_start [] = 0
skip_start (c ∷ s) = if c == b'=' || c == b' ' then 1 else 0

unfoldable pub without_libpseudo : Str → Str
unfolding cut_all
without_libpseudo list = cut_all 6 (skip_start list) list

abbrev pub separator : Str → Str
separator [] = []
separator (c ∷ s) = b' ' ∷ []

unfoldable pub with_libpseudo : Str → Str
unfolding regexec
with_libpseudo list = elim (regexec list) [
  | none ↦ list ++ (separator list ++ libpseudo_name)
  | some m ↦ list
]

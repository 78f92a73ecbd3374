-- ===== src/Environ/Found.antt =====
-- with_libpseudo of pseudo_util.c: the library is found in what it returns.
use pseudo.Prelude.{
  ℕ, ◌+◌, length, ◌≡◌, ◌≢◌, refl, ap, inl, inr, true, ◌==◌, none, List, [], ◌∷◌, ◌++◌, Str,
  Bool-cases, Option-cases,
}
use pseudo.Environ.Preload.{
  words, is_libpseudo, match_words, libpseudo_name, regexec, with_libpseudo,
}

pub words-cons : (s : Str) → (w : Str) × (ws : List Str) × (words s ≡ w ∷ ws)
words-cons [] = ([], [], refl)
words-cons (c ∷ s) =
    let (w, ws, e) = words-cons s in
    elim (Bool-cases (c == b' ')) [ inl q ↦ ([], words s, rw q) | inr q ↦ (c ∷ w, ws, rw (q, e)) ]

-- The words of a text with a space are those of its two parts.
pub words-space : (s t : Str) → words (s ++ (b' ' ∷ t)) ≡ words s ++ words t
words-space [] t = refl
words-space (c ∷ s) t =
    let (w, ws, e) = words-cons s in
    elim (Bool-cases (c == b' ')) [
      | inl q ↦ rw q (ap (λ l. [] ∷ l) (words-space s t))
      | inr q ↦ rw (q, words-space s t, e) refl
    ]

pub match_words-last :
    (at : ℕ) (ws : List Str) (w : Str)
    → is_libpseudo w ≡ true
    → match_words at (ws ++ w ∷ []) ≢ none
unfolding match_words
match_words-last at [] w h = rw h (cc)
match_words-last at (v ∷ ws) w h = elim (Bool-cases (is_libpseudo v)) [
  | inl t ↦ rw t (cc)
  | inr t ↦ rw t (match_words-last (at + length v + 1) ws w h)
]

-- With the library in it, a list has a match.
pub regexec-with_libpseudo : (list : Str) → regexec (with_libpseudo list) ≢ none
unfolding with_libpseudo regexec match_words
regexec-with_libpseudo [] = cc
regexec-with_libpseudo (c ∷ s) = elim (Option-cases (regexec (c ∷ s))) [
  | inl e ↦
      rw (e, with_libpseudo)
        (rw words-space (match_words-last 0 (words (c ∷ s)) libpseudo_name refl))
  | inr (m, e) ↦ rw (e, with_libpseudo, e) (cc)
]

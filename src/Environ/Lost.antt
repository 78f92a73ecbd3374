-- ===== src/Environ/Lost.antt =====
-- pseudo_dropenvp on an LD_PRELOAD entry whose first library is pseudo's.
use pseudo.Prelude.{
  ℕ, zero, suc, ◌+◌, ◌-◌, arith, length, drop, str_eq, ◌≡◌, refl, ap, ◌∙◌, true, false, ◌==◌, none,
  some, List, [], ◌∷◌, ◌++◌, Str,
}
use pseudo.Environ.Preload.{
  without_libpseudo, cut, cut_all, skip_start, words, is_libpseudo, match_words, regexec,
}
use pseudo.Environ.Setup.{dropenvp, libraries_entry}
use pseudo.Environ.Found.{words-space, words-cons}

-- No byte of the text is a space.
abbrev pub NoSpace : Str → Type 0
NoSpace [] = Unit
NoSpace (c ∷ s) = ((c == b' ') ≡ false) × NoSpace s

words-NoSpace : (s : Str) → NoSpace s → words s ≡ s ∷ []
words-NoSpace [] h = refl
words-NoSpace (c ∷ s) h = rw (h.0, words-NoSpace s h.1) refl

drop_all : (s : Str) → drop (length s) s ≡ []
drop_all [] = refl
drop_all (c ∷ s) = drop_all s

-- For a count that does not compute.
drop-suc : (d n : ℕ) (s : Str) {m : ℕ} → m ≡ suc n → drop m (d ∷ s) ≡ drop n s
drop-suc d n s e = rw e refl

drop-past : (s : Str) (c : ℕ) (t : Str) → drop (length s + 1) (s ++ (c ∷ t)) ≡ t
drop-past [] c t = refl
drop-past (d ∷ s) c t = drop-suc d (length s + 1) (s ++ (c ∷ t)) (omega arith) ∙ drop-past s c t

regexec-alone : (e : Str) → NoSpace e → is_libpseudo e ≡ true → regexec e ≡ some (0, length e)
unfolding regexec match_words
regexec-alone e n h = rw (words-NoSpace e n, h) (ap (λ (k : ℕ). some (0 - 1, k)) (omega arith))

regexec-first :
    (e rest : Str)
    → NoSpace e
    → is_libpseudo e ≡ true
    → regexec (e ++ (b' ' ∷ rest)) ≡ some (0, length e + 1)
unfolding regexec match_words
regexec-first e rest n h =
    let (w, ws, q) = words-cons rest in
    rw (words-space e rest, words-NoSpace e n, h, q) (ap (λ (k : ℕ). some (0 - 1, k)) (omega arith))

-- Once the text has no match, the loop ends.
cut_all-none :
    (rounds skip : ℕ) (list : Str) → regexec list ≡ none → cut_all rounds skip list ≡ list
unfolding cut_all
cut_all-none zero skip list h = refl
cut_all-none (suc rounds) skip list h = rw (h, cut_all) refl

cut_all-some :
    (rounds skip : ℕ) (list : Str) {m : ℕ × ℕ}
    → regexec list ≡ some m
    → cut_all (suc rounds) skip list ≡ cut_all rounds skip (cut skip list m)
unfolding cut_all
cut_all-some rounds skip list h = rw (h, cut_all) refl

without-alone :
    (e : Str) → NoSpace e → skip_start e ≡ 0 → is_libpseudo e ≡ true → without_libpseudo e ≡ []
unfolding without_libpseudo
without-alone e n k h = rw k (
    cut_all-some 5 0 e (regexec-alone e n h)
    ∙ ap (cut_all 5 0) (drop_all e)
    ∙ cut_all-none 5 0 [] (unfold regexec match_words in refl))

without-first :
    (e rest : Str)
    → NoSpace e
    → skip_start (e ++ (b' ' ∷ rest)) ≡ 0
    → is_libpseudo e ≡ true
    → regexec rest ≡ none
    → without_libpseudo (e ++ (b' ' ∷ rest)) ≡ rest
unfolding without_libpseudo
without-first e rest n k h clean = rw k (
    cut_all-some 5 0 (e ++ (b' ' ∷ rest)) (regexec-first e rest n h)
    ∙ ap (cut_all 5 0) (drop-past e b' ' rest)
    ∙ cut_all-none 5 0 rest clean)

NoSpace-entry : (l : Str) → NoSpace l → NoSpace (libraries_entry ++ l)
NoSpace-entry l n =
    (refl, (refl, (refl, (refl, (refl, (refl, (refl, (refl, (refl, (refl, (refl, n)))))))))))

-- If the first library of LD_PRELOAD is pseudo's, pseudo_dropenvp takes the name of the variable out
-- with it: what is left of the entry is the empty text, if it was the only library, and else the rest
-- behind the space, if that names pseudo's library no more and is not "LD_PRELOAD=".
pub dropenvp-first :
    (l rest : Str) (envp : List Str)
    → NoSpace l
    → is_libpseudo l ≡ true
    → regexec rest ≡ none
    → str_eq rest libraries_entry ≡ false
    → (dropenvp ((libraries_entry ++ l) ∷ envp) ≡ [] ∷ dropenvp envp)
      × (dropenvp (((libraries_entry ++ l) ++ (b' ' ∷ rest)) ∷ envp) ≡ rest ∷ dropenvp envp)
unfolding dropenvp
dropenvp-first l rest envp n h clean other = (
  rw (without-alone (libraries_entry ++ l) (NoSpace-entry l n) refl h) refl,
  rw (without-first (libraries_entry ++ l) rest (NoSpace-entry l n) refl h clean, other) refl,
)

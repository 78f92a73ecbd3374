-- ===== src/Environ/Entries.antt =====
-- The entries of an environment by their kind, for the proofs about pseudo_setupenvp.
use mathlib.Core.Path.{subst}
use pseudo.Prelude.{
  ◌≡◌, refl, ap, ap₂, ◌∙◌, inl, inr, Bool, true, false, not, ◌&&◌, ◌||◌, ◌==◌, Option, none, some,
  List, [], ◌∷◌, ◌++◌, append-nil, Str, is_prefix, append_of_is_prefix, is_prefix-append, and_left,
  and_right, Bool-cases, if◌then◌else◌,
}
use pseudo.Values.{Variable}
use pseudo.Environ.Setup.{
  path_entry, is_libraries, is_path, or_this, last_entry, contains, both_dirs, new_path, reject,
  any_starts, named, add_value, add_variables,
}

-- The entries that pass a test.
abbrev pub keep : (Str → Bool) → List Str → List Str
keep test [] = []
keep test (e ∷ es) = if test e then e ∷ keep test es else keep test es

abbrev pub prefix : Str
prefix = b'P' ∷ b'S' ∷ b'E' ∷ b'U' ∷ b'D' ∷ b'O' ∷ b'_' ∷ []

-- Every key of the table is one of the library's.
abbrev pub AllOwn : List Variable → Type 0
AllOwn [] = Unit
AllOwn (v ∷ vs) = (is_prefix prefix v.key ≡ true) × AllOwn vs

-- A variable that is the program's alone.
abbrev pub is_plain : Str → Bool
is_plain e = not (is_libraries e || (is_path e || is_prefix prefix e))

pub is_prefix-longer : (p s t : Str) → is_prefix p s ≡ true → is_prefix p (s ++ t) ≡ true
is_prefix-longer [] s t h = refl
is_prefix-longer (x ∷ p) [] t h = cc
is_prefix-longer (x ∷ p) (y ∷ s) t h =
    ap₂ ◌&&◌ (and_left _ _ h) (is_prefix-longer p s t (and_right (x == y) (is_prefix p s) h))

-- The three kinds of entry differ in their first four bytes.
pub not_libraries_of_path : (e : Str) → is_path e ≡ true → is_libraries e ≡ false
not_libraries_of_path e h = rw (append_of_is_prefix path_entry e h) refl

pub not_libraries_of_prefix : (e : Str) → is_prefix prefix e ≡ true → is_libraries e ≡ false
not_libraries_of_prefix e h = rw (append_of_is_prefix prefix e h) refl

pub or_this-test :
    (test : Str → Bool) (later : Option Str) (d : Str) {e : Str}
    → (later ≡ some e → test e ≡ true)
    → or_this later (test d) d ≡ some e
    → test e ≡ true
or_this-test test (some e') d k h = k h
or_this-test test none d {e} k h = elim (Bool-cases (test d)) [
  | inl t ↦ subst (λ x. test x ≡ true) (cc (rw (t, or_this) at h)) t
  | inr t ↦ cc (rw (t, or_this) at h)
]

pub last_entry-test :
    (test : Str → Bool) (es : List Str) {e : Str} → last_entry test es ≡ some e → test e ≡ true
last_entry-test test [] h = cc
last_entry-test test (d ∷ es) h =
    or_this-test test (last_entry test es) d (last_entry-test test es) h

pub new_path-IsPath :
    (libdir : Str) (old : Option Str)
    → ((e : Str) → old ≡ some e → is_path e ≡ true)
    → is_path (new_path libdir old) ≡ true
new_path-IsPath libdir none h = is_prefix-append path_entry (both_dirs libdir)
new_path-IsPath libdir (some e) h = elim (Bool-cases (contains libdir e)) [
  | inl t ↦ rw t (h e refl)
  | inr t ↦ rw t (is_prefix-longer path_entry e (b':' ∷ both_dirs libdir) (h e refl))
]

pub keep-reject :
    (p q : Str → Bool) (es : List Str)
    → ((e : Str) → q e ≡ false → p e ≡ false)
    → keep p (reject q es) ≡ []
keep-reject p q [] h = refl
keep-reject p q (e ∷ es) h = elim (Bool-cases (q e)) [
  | inl t ↦ rw t (keep-reject p q es h)
  | inr t ↦ rw (t, h e t) (keep-reject p q es h)
]

pub keep-reject_same :
    (p q : Str → Bool) (es : List Str)
    → ((e : Str) → q e ≡ true → p e ≡ false)
    → keep p (reject q es) ≡ keep p es
keep-reject_same p q [] h = refl
keep-reject_same p q (e ∷ es) h = elim (Bool-cases (q e)) [
  | inl t ↦ rw (t, h e t) (keep-reject_same p q es h)
  | inr t ↦ rw t (ap (λ t. if p e then e ∷ t else t) (keep-reject_same p q es h))
]

pub keep-append :
    (test : Str → Bool) (xs ys : List Str) → keep test (xs ++ ys) ≡ keep test xs ++ keep test ys
keep-append test [] ys = refl
keep-append test (x ∷ xs) ys = elim (Bool-cases (test x)) [
  | inl e ↦ rw e (ap (λ t. x ∷ t) (keep-append test xs ys))
  | inr e ↦ rw e (keep-append test xs ys)
]

-- A round adds entries of the library only.
pub keep-add_value :
    (test : Str → Bool) (key : Str) (value : Option Str) (envp : List Str)
    → ((e : Str) → is_prefix prefix e ≡ true → test e ≡ false)
    → is_prefix prefix key ≡ true
    → keep test (add_value key value envp) ≡ keep test envp
keep-add_value test key none envp h own = refl
keep-add_value test key (some x) envp h own = elim (Bool-cases (any_starts key envp)) [
  | inl t ↦ rw t refl
  | inr t ↦
      rw (t, keep-append, h (named key x) (is_prefix-longer prefix key (b'=' ∷ x) own))
        (append-nil (keep test envp))
]

pub keep-add_variables :
    (test : Str → Bool) (vs : List Variable) (envp : List Str)
    → ((e : Str) → is_prefix prefix e ≡ true → test e ≡ false)
    → AllOwn vs
    → keep test (add_variables vs envp) ≡ keep test envp
unfolding add_variables
keep-add_variables test [] envp h own = refl
keep-add_variables test (v ∷ vs) envp h own =
    keep-add_variables test vs (add_value v.key v.value envp) h own.1
    ∙ keep-add_value test v.key v.value envp h own.0

pub keep-yes :
    (test : Str → Bool) (e : Str) (es : List Str)
    → test e ≡ true
    → keep test (e ∷ es) ≡ e ∷ keep test es
keep-yes test e es h = rw h

pub keep-not :
    (test : Str → Bool) (e : Str) (es : List Str)
    → test e ≡ false
    → keep test (e ∷ es) ≡ keep test es
keep-not test e es h = rw h

pub first_of_or : (a b : Bool) → (a || b) ≡ false → a ≡ false
first_of_or true b h = cc
first_of_or false b h = refl

pub not_plain : (a b c : Bool) → (a || b) ≡ true → not (a || (b || c)) ≡ false
not_plain true b c h = refl
not_plain false b c h = rw h

pub not_plain_last : (a b c : Bool) → c ≡ true → not (a || (b || c)) ≡ false
not_plain_last true b c h = refl
not_plain_last false true c h = refl
not_plain_last false false c h = rw h

pub second_of_or : (a b : Bool) → b ≡ true → (a || b) ≡ true
second_of_or true b h = refl
second_of_or false b h = h

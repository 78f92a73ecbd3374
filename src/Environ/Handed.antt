-- ===== src/Environ/Handed.antt =====
-- Which variables a program gets that is run by execv or execvp, and the child of a fork.
use pseudo.Prelude.{
  ◌≡◌, refl, sym, ap, ap₂, ◌∙◌, inl, inr, false, Option, none, some, List, [], ◌∷◌, Str, str_eq,
  str_eq_refl, eq_of_str_eq, Bool-cases,
}
use pseudo.Values.{Variable, Variables, lookup, has_unload}
use pseudo.Environ.Setup.{
  prelink_libraries, prelink_path, set_if, fresh_value, set_variables, setupenv, dropenv, exec_env,
}

-- The first value, or the second if there is none.
abbrev pub or_else : Option Str → Option Str → Option Str
or_else none value = value
or_else (some old) value = some old

-- No key stands twice in the table.
abbrev pub Unique : List Variable → Type 0
Unique [] = Unit
Unique (v ∷ vs) = (lookup v.key vs ≡ none) × Unique vs

set_if-other :
    (value : Option Str) (key : Str) (env : Str → Option Str) (k : Str)
    → str_eq key k ≡ false
    → set_if value key env k ≡ env k
set_if-other none key env k h = refl
set_if-other (some x) key env k h = rw h

-- One round of the loop.
abbrev step : Variable → (Str → Option Str) → Str → Option Str
step v env = set_if (fresh_value (env v.key) v.value) v.key env

set_if-fresh_value :
    (key : Str) (env : Str → Option Str) (old value : Option Str)
    → env key ≡ old
    → set_if (fresh_value old value) key env key ≡ or_else old value
set_if-fresh_value key env none none h = h
set_if-fresh_value key env none (some x) h = rw (str_eq_refl key)
set_if-fresh_value key env (some old) value h = h

set_variables-absent :
    (vs : List Variable) (env : Str → Option Str) (k : Str)
    → lookup k vs ≡ none
    → set_variables vs env k ≡ env k
unfolding set_variables lookup
set_variables-absent [] env k h = refl
set_variables-absent (v ∷ vs) env k h = elim (Bool-cases (str_eq v.key k)) [
  | inl e ↦ absurd (cc (rw e at h))
  | inr e ↦
      set_variables-absent vs (step v env) k (rw e at h)
      ∙ set_if-other (fresh_value (env v.key) v.value) v.key env k e
]

set_variables-value :
    (vs : List Variable) (env : Str → Option Str) (k : Str) {value : Option Str}
    → Unique vs
    → lookup k vs ≡ some value
    → set_variables vs env k ≡ or_else (env k) value
unfolding set_variables lookup
set_variables-value [] env k u h = cc
set_variables-value (v ∷ vs) env k {value} u h = elim (Bool-cases (str_eq v.key k)) [
  | inl e ↦
      let same = eq_of_str_eq v.key k e in
      ap (set_variables vs (step v env)) (sym same)
      ∙ set_variables-absent vs (step v env) v.key u.0
      ∙ set_if-fresh_value v.key env (env v.key) v.value refl
      ∙ ap₂ or_else (ap env same) (cc (rw e at h))
  | inr e ↦
      set_variables-value vs (step v env) k u.1 (rw e at h)
      ∙ ap (λ o. or_else o value) (set_if-other (fresh_value (env v.key) v.value) v.key env k e)
]

setupenv-value :
    (libdir : Str) (table : List Variable) (env : Str → Option Str) (k : Str) {value : Option Str}
    → Unique table
    → lookup k table ≡ some value
    → str_eq prelink_path k ≡ false
    → str_eq prelink_libraries k ≡ false
    → setupenv libdir table env k ≡ or_else (env k) value
unfolding setupenv
setupenv-value libdir table env k u h p l = rw l (
    set_if-other _ prelink_path (set_variables table env) k p ∙ set_variables-value table env k u h)

-- A program is given each of the library's variables, other than the two that name libraries, with
-- the value that the environment of the process has, and only if that has none with the value that
-- the library holds: a value that was set since the process started does not replace the old one.
pub exec_env-value :
    (libdir : Str) (s : Variables) (env : Str → Option Str) (k : Str) {value : Option Str}
    → Unique s.table
    → lookup k s.table ≡ some value
    → str_eq prelink_path k ≡ false
    → str_eq prelink_libraries k ≡ false
    → exec_env libdir s env k ≡ or_else (env k) value
unfolding exec_env dropenv
exec_env-value libdir s env k u h p l =
    let ready = setupenv-value libdir s.table env k u h p l in
    elim (Bool-cases (has_unload (setupenv libdir s.table env) [] s)) [
      | inl e ↦ rw e (set_if-other _ prelink_libraries (setupenv libdir s.table env) k l ∙ ready)
      | inr e ↦ rw e ready
    ]

-- ===== src/Values.antt =====
-- The library's variables: pseudo_env with pseudo_get_value, pseudo_set_value, pseudo_init_util and
-- pseudo_has_unload of pseudo_util.c. `getenv` is the process's environment. The levels of the debug
-- output are left out, and strdup does not fail.
pub mod Loaded
use pseudo.Prelude.{
  ◌≡◌, refl, ap, ◌∙◌, inl, inr, Bool, true, false, ◌||◌, Option, none, some, List, [], ◌∷◌, ◌++◌,
  Str, str_eq, eq_of_str_eq, is_prefix, Bool-cases, if◌then◌else◌,
}

pub record Variable : Type 0 where
  pub key : Str
  pub value : Option Str

-- `pseudo_env` up to its terminator, and whether pseudo_init_util has run.
pub record Variables : Type 0 where
  pub loaded : Bool
  pub table : List Variable

-- The value of the first entry of a key; none for an unknown key.
unfoldable pub lookup : Str → List Variable → Option (Option Str)
lookup key [] = none
lookup key (v ∷ vs) = if str_eq v.key key then some v.value else lookup key vs

unfoldable pub put : Str → Option Str → List Variable → List Variable
put key value [] = []
put key value (v ∷ vs) =
    let rest = put key value vs in
    if str_eq v.key key then record v { value = value } ∷ vs else v ∷ rest

-- `for (i = 0; pseudo_env[i].key; i++)`
unfoldable pub load : (Str → Option Str) → List Variable → List Variable → List Variable
load getenv [] table = table
load getenv (v ∷ vs) table =
    load getenv vs (elim (getenv v.key) [ none ↦ table | some x ↦ put v.key (some x) table ])

unfoldable pub init_util : (Str → Option Str) → Variables → Variables
init_util getenv s = record { loaded = true; table = load getenv s.table s.table }

abbrev pub ensure_loaded : (Str → Option Str) → Variables → Variables
ensure_loaded getenv s = if s.loaded then s else init_util getenv s

abbrev pub is_known : Option (Option Str) → Bool
is_known none = false
is_known (some value) = true

-- -EINVAL for an unknown key
pub data Code : Type 0 where
  success : Code
  invalid : Code

unfoldable pub set_value : (Str → Option Str) → Str → Option Str → Variables → Code × Variables
set_value getenv key value s =
    let ready = ensure_loaded getenv s in
    if is_known (lookup key ready.table)
    then (success, record ready { table = put key value ready.table })
    else (invalid, ready)

abbrev pub flatten : Option (Option Str) → Option Str
flatten none = none
flatten (some value) = value

-- The environment has it and we don't: something went wrong, so the variables are loaded again.
abbrev pub recover : Option (Option Str) → Option Str → Bool
recover none env = false
recover (some (some x)) env = false
recover (some none) none = false
recover (some none) (some x) = true

unfoldable pub get_value : (Str → Option Str) → Str → Variables → Option Str × Variables
get_value getenv key s =
    let ready = ensure_loaded getenv s in
    let again =
      if recover (lookup key ready.table) (getenv key) then init_util getenv ready else ready in
    (flatten (lookup key again.table), again)

abbrev unload : Str
unload =
    b'P' ∷ b'S' ∷ b'E' ∷ b'U' ∷ b'D' ∷ b'O' ∷ b'_' ∷ b'U' ∷ b'N' ∷ b'L' ∷ b'O' ∷ b'A' ∷ b'D' ∷ []

abbrev pub is_some : Option Str → Bool
is_some none = false
is_some (some x) = true

abbrev any_prefix : Str → List Str → Bool
any_prefix p [] = false
any_prefix p (e ∷ es) = is_prefix p e || any_prefix p es

-- `envp` is the environment of the program that is to be run.
unfoldable pub has_unload : (Str → Option Str) → List Str → Variables → Bool
has_unload getenv envp s =
    is_some (getenv unload)
    || (is_some (flatten (lookup unload (ensure_loaded getenv s).table))
        || any_prefix (unload ++ b'=' ∷ []) envp)

pub lookup-put_same :
    (key : Str) (value : Option Str) (vs : List Variable)
    → is_known (lookup key vs) ≡ true
    → lookup key (put key value vs) ≡ some value
unfolding lookup put
lookup-put_same key value [] h = cc
lookup-put_same key value (v ∷ vs) h = elim (Bool-cases (str_eq v.key key)) [
  | inl e ↦ rw (e, e)
  | inr e ↦ rw (e, e) (lookup-put_same key value vs (rw e at h))
]

pub lookup-put_other :
    (key other : Str) (value : Option Str) (vs : List Variable)
    → str_eq key other ≡ false
    → lookup other (put key value vs) ≡ lookup other vs
unfolding lookup put
lookup-put_other key other value [] h = refl
lookup-put_other key other value (v ∷ vs) h = elim (Bool-cases (str_eq v.key key)) [
  | inl e ↦ rw (e, apart e)
  | inr e ↦ rw e (
      ap (λ o. if str_eq v.key other then some v.value else o)
        (lookup-put_other key other value vs h))
]
  where
    apart : str_eq v.key key ≡ true → str_eq v.key other ≡ false
    apart e = ap (λ k. str_eq k other) (eq_of_str_eq v.key key e) ∙ h

pub ensure_loaded-loaded :
    (getenv : Str → Option Str) (s : Variables) → (ensure_loaded getenv s).loaded ≡ true
unfolding init_util
ensure_loaded-loaded getenv s = elim (Bool-cases s.loaded) [ inl e ↦ rw e | inr e ↦ rw e ]

pub get_value-loaded :
    (getenv : Str → Option Str) (key value : Str) (s : Variables)
    → s.loaded ≡ true
    → lookup key s.table ≡ some (some value)
    → (get_value getenv key s).0 ≡ some value
unfolding get_value
get_value-loaded getenv key value s l e = rw (l, e, e)

-- Setting a known variable, after the variables are loaded if they were not, succeeds; getting it
-- then gives the value that was set, and the entry of another key is as it was, whatever the
-- environment holds.
pub get_value-set_value :
    (getenv : Str → Option Str) (key other value : Str) (s : Variables)
    → is_known (lookup key (ensure_loaded getenv s).table) ≡ true
    → str_eq key other ≡ false
    → ((set_value getenv key (some value) s).0 ≡ success)
      × ((get_value getenv key (set_value getenv key (some value) s).1).0 ≡ some value)
      × (lookup other (set_value getenv key (some value) s).1.table
          ≡ lookup other (ensure_loaded getenv s).table)
unfolding set_value
get_value-set_value getenv key other value s h ne = (
  rw h,
  rw h (
      get_value-loaded getenv key value _ (ensure_loaded-loaded getenv s)
        (lookup-put_same key (some value) (ensure_loaded getenv s).table h)),
  rw h (lookup-put_other key other (some value) (ensure_loaded getenv s).table ne),
)

-- ===== src/Values/Loaded.antt =====
-- What pseudo_init_util of pseudo_util.c loads into a variable.
use pseudo.Prelude.{
  ◌≡◌, refl, ap, ◌∙◌, inl, inr, true, false, Option, none, some, List, [], ◌∷◌, Str, str_eq,
  eq_of_str_eq, Bool-cases, Option-cases,
}
use pseudo.Values.{
  Variable, Variables, lookup, put, load, init_util, get_value, set_value, is_known, recover,
  lookup-put_same, lookup-put_other,
}

recover_self : (value : Option Str) → recover (some value) value ≡ false
recover_self none = refl
recover_self (some x) = refl

module _ (getenv : Str → Option Str) (key : Str) where
  -- One round of the loop.
  abbrev step : Variable → List Variable → List Variable
  step v table = elim (getenv v.key) [ none ↦ table | some x ↦ put v.key (some x) table ]

  lookup-step_other :
      (v : Variable) (table : List Variable)
      → str_eq v.key key ≡ false
      → lookup key (step v table) ≡ lookup key table
  lookup-step_other v table h =
      elim (getenv v.key)
        as (λ o.
          lookup key (elim o [ none ↦ table | some x ↦ put v.key (some x) table ])
          ≡ lookup key table) [ none ↦ refl | some x ↦ lookup-put_other v.key key (some x) table h ]

  lookup-step_same :
      (v : Variable) (table : List Variable) {x : Str}
      → str_eq v.key key ≡ true
      → getenv key ≡ some x
      → is_known (lookup key table) ≡ true
      → lookup key (step v table) ≡ some (some x)
  lookup-step_same v table {x} h e k =
      let same = eq_of_str_eq v.key key h in
      rw (ap getenv same ∙ e, step) (rw same (lookup-put_same key (some x) table k))

  load-absent :
      (vs table : List Variable)
      → getenv key ≡ none
      → lookup key (load getenv vs table) ≡ lookup key table
  unfolding load
  load-absent [] table h = refl
  load-absent (v ∷ vs) table h = elim (Bool-cases (str_eq v.key key)) [
    | inl e ↦ rw (ap getenv (eq_of_str_eq v.key key e) ∙ h, step) (load-absent vs table h)
    | inr e ↦ load-absent vs (step v table) h ∙ lookup-step_other v table e
  ]

  load-held :
      (vs table : List Variable) {x : Str}
      → getenv key ≡ some x
      → lookup key table ≡ some (some x)
      → lookup key (load getenv vs table) ≡ some (some x)
  unfolding load
  load-held [] table h e = e
  load-held (v ∷ vs) table h e = elim (Bool-cases (str_eq v.key key)) [
    | inl q ↦ load-held vs (step v table) h (lookup-step_same v table q h (ap is_known e))
    | inr q ↦ load-held vs (step v table) h (lookup-step_other v table q ∙ e)
  ]

  load-present :
      (vs table : List Variable) {x : Str}
      → getenv key ≡ some x
      → is_known (lookup key vs) ≡ true
      → is_known (lookup key table) ≡ true
      → lookup key (load getenv vs table) ≡ some (some x)
  unfolding load lookup
  load-present [] table h known k = cc
  load-present (v ∷ vs) table h known k = elim (Bool-cases (str_eq v.key key)) [
    | inl q ↦ load-held vs (step v table) h (lookup-step_same v table q h k)
    | inr q ↦ load-present vs (step v table) h (rw q at known) (rw (lookup-step_other v table q) k)
  ]

  -- A fresh variable takes the value that the environment has.
  pub lookup-init_util :
      (s : Variables)
      → lookup key s.table ≡ some none
      → lookup key (init_util getenv s).table ≡ some (getenv key)
  unfolding init_util
  lookup-init_util s h = elim (Option-cases (getenv key)) [
    | inl e ↦ rw e (load-absent s.table s.table e ∙ h)
    | inr (x, e) ↦ rw e (load-present s.table s.table e (ap is_known h) (ap is_known h))
  ]

  -- So pseudo_get_value gives it, whether the variables were loaded before or not.
  pub get_value-fresh :
      (s : Variables)
      → s.loaded ≡ false
      → lookup key s.table ≡ some none
      → get_value getenv key s ≡ (getenv key, init_util getenv s)
  unfolding get_value lookup init_util
  get_value-fresh s l h =
      rw (l, lookup-init_util s h, recover_self (getenv key), lookup-init_util s h)

  pub get_value-held :
      (s : Variables)
      → s.loaded ≡ true
      → lookup key s.table ≡ some (getenv key)
      → get_value getenv key s ≡ (getenv key, s)
  unfolding get_value
  get_value-held s l h = rw (l, h, recover_self (getenv key), h)

  -- Setting a known variable, once the variables are loaded, changes its entry only.
  pub set_value-loaded :
      (value : Option Str) (s : Variables) {old : Option Str}
      → s.loaded ≡ true
      → lookup key s.table ≡ some old
      → (set_value getenv key value s).1 ≡ record s { table = put key value s.table }
  unfolding set_value
  set_value-loaded value s l h = rw (l, ap is_known h)

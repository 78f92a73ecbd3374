-- ===== src/Ids/Inherited.antt =====
-- A program that is run takes over the ids of the process that runs it, by the variables.
use mathlib.Core.Path.{subst}
use pseudo.Prelude.{
  ℕ, ◌^◌, ◌<◌, ◌≡◌, refl, sym, ap, ◌∙◌, ◌||◌, ◌⊎◌, inl, inr, Bool, true, false, Option, none, some,
  List, [], ◌∷◌, Str, take-le, Bool-cases, if◌then◌else◌, arith,
}
use pseudo.Db.Column.{as_int, to_u32, to_u32-as_int}
use pseudo.Values.{
  Variables, lookup, init_util, is_known, is_some, lookup-put_same, lookup-put_other,
}
use pseudo.Values.Loaded.{set_value-loaded, lookup-init_util, get_value-fresh, get_value-held}
use pseudo.Ids.Decimal.{Fits, print_four, scan_ints, scan_ints-print_four, length-print_four}
use pseudo.Ids.State.{Ids, Process, pseudo_uids, pseudo_gids, print_ids, touchuid, touchgid}
use pseudo.Ids.Calls.{
  Call, uid, euid, gid, egid, fsuid, fsgid, reuid, regid, resuid, resgid, call, run, all_ids,
  is_root, holds, is_forbidden, effective_only, two, three, setuid, setgid, seteuid, setegid,
  setreuid, setresuid,
}
use pseudo.Ids.Startup.{take_uids, take_gids, init_ids}
use pseudo.Ids.Within.{refuse, allow}

pub record Word (i : Ids) : Type 0 where
  pub real : i.real < 2 ^ 32
  pub effective : i.effective < 2 ^ 32
  pub saved : i.saved < 2 ^ 32
  pub fs : i.fs < 2 ^ 32

-- The calls that note the ids which they change.
abbrev pub notes : Call → Bool
notes (uid a) = true
notes (euid a) = true
notes (gid a) = true
notes (egid a) = true
notes (reuid a b) = true
notes (resuid a b c) = true
notes (fsuid a) = false
notes (fsgid a) = false
notes (regid a b) = false
notes (resgid a b c) = false

abbrev pub AllNote : List Call → Type 0
AllNote [] = Unit
AllNote (c ∷ cs) = (notes c ≡ true) × AllNote cs

-- A variable tells the ids: by its text, or by having none if they are all 0, as at the start.
abbrev pub Tells : Option Str → Ids → Type 0
Tells value i = (value ≡ some (print_ids i)) ⊎ ((value ≡ none) × (i ≡ all_ids 0))

pub record Noted (p : Process) : Type 0 where
  pub loaded : p.vars.loaded ≡ true
  pub uids_value : Option Str
  pub uids_held : lookup pseudo_uids p.vars.table ≡ some uids_value
  pub uids_told : Tells uids_value p.uids
  pub gids_value : Option Str
  pub gids_held : lookup pseudo_gids p.vars.table ≡ some gids_value
  pub gids_told : Tells gids_value p.gids

Fits-as_int : (x : ℕ) → Fits (as_int x)
unfolding as_int
Fits-as_int x = ground arith

scan_ints-print_ids :
    (i : Ids)
    → scan_ints 4 (print_ids i)
      ≡ as_int i.real ∷ as_int i.effective ∷ as_int i.saved ∷ as_int i.fs ∷ []
unfolding print_ids
scan_ints-print_ids i =
    rw
      (take-le 255 (print_four (as_int i.real) (as_int i.effective) (as_int i.saved) (as_int i.fs))
        (omega (
          arith,
          length-print_four (as_int i.real) (as_int i.effective) (as_int i.saved) (as_int i.fs),
        )))
      (scan_ints-print_four _ _ _ _ (Fits-as_int _) (Fits-as_int _) (Fits-as_int _) (Fits-as_int _))

module _ (getenv : Str → Option Str) where
  touchuid-Noted :
      (p : Process) (i : Ids) → Noted p → Noted (touchuid getenv (record p { uids = i }))
  unfolding touchuid
  touchuid-Noted p i n =
      rw (set_value-loaded getenv pseudo_uids (some (print_ids i)) p.vars n.loaded n.uids_held)
        record {
          loaded = n.loaded;
          uids_value = some (print_ids i);
          uids_held = lookup-put_same pseudo_uids _ p.vars.table (ap is_known n.uids_held);
          uids_told = inl refl;
          gids_value = n.gids_value;
          gids_held = lookup-put_other pseudo_uids pseudo_gids _ p.vars.table refl ∙ n.gids_held;
          gids_told = n.gids_told;
        }

  touchgid-Noted :
      (p : Process) (i : Ids) → Noted p → Noted (touchgid getenv (record p { gids = i }))
  unfolding touchgid
  touchgid-Noted p i n =
      rw (set_value-loaded getenv pseudo_gids (some (print_ids i)) p.vars n.loaded n.gids_held)
        record {
          loaded = n.loaded;
          uids_value = n.uids_value;
          uids_held = lookup-put_other pseudo_gids pseudo_uids _ p.vars.table refl ∙ n.uids_held;
          uids_told = n.uids_told;
          gids_value = some (print_ids i);
          gids_held = lookup-put_same pseudo_gids _ p.vars.table (ap is_known n.gids_held);
          gids_told = inl refl;
        }

  call-Noted : (c : Call) (p : Process) → notes c ≡ true → Noted p → Noted (call getenv c p).1
  unfolding call setuid setgid seteuid setegid setreuid setresuid
  call-Noted (uid a) p h n = elim (Bool-cases (is_root p)) [
    | inl e ↦ rw e (touchuid-Noted p (all_ids a) n)
    | inr e ↦
        rw e (allow Noted (holds p.uids a) n (λ _. touchuid-Noted p (effective_only a p.uids) n))
  ]
  call-Noted (gid a) p h n = elim (Bool-cases (is_root p)) [
    | inl e ↦ rw e (touchgid-Noted p (all_ids a) n)
    | inr e ↦
        rw e (allow Noted (holds p.gids a) n (λ _. touchgid-Noted p (effective_only a p.gids) n))
  ]
  call-Noted (euid a) p h n =
      allow Noted (is_root p || holds p.uids a) n
        (λ _. touchuid-Noted p (effective_only a p.uids) n)
  call-Noted (egid a) p h n =
      allow Noted (is_root p || holds p.gids a) n
        (λ _. touchgid-Noted p (effective_only a p.gids) n)
  call-Noted (reuid a b) p h n =
      refuse Noted (is_forbidden p p.uids a || is_forbidden p p.uids b) n
        (λ _. touchuid-Noted p (two a b p.uids) n)
  call-Noted (resuid a b c) p h n =
      refuse Noted (is_forbidden p p.uids a || (is_forbidden p p.uids b || is_forbidden p p.uids c))
        n (λ _. touchuid-Noted p (three a b c p.uids) n)
  call-Noted (fsuid a) p h n = cc
  call-Noted (fsgid a) p h n = cc
  call-Noted (regid a b) p h n = cc
  call-Noted (resgid a b c) p h n = cc

  pub run-Noted : (cs : List Call) (p : Process) → AllNote cs → Noted p → Noted (run getenv cs p)
  unfolding run
  run-Noted [] p h n = n
  run-Noted (c ∷ cs) p h n = run-Noted cs (call getenv c p).1 h.1 (call-Noted c p h.0 n)

-- An id below 2^32 comes back through "%d".
words :
    (i : Ids)
    → Word i
    → record {
      real = to_u32 (as_int i.real);
      effective = to_u32 (as_int i.effective);
      saved = to_u32 (as_int i.saved);
      fs = to_u32 (as_int i.fs);
    }
      ≡ i
words i w = λ k. record {
  real = to_u32-as_int i.real w.real k;
  effective = to_u32-as_int i.effective w.effective k;
  saved = to_u32-as_int i.saved w.saved k;
  fs = to_u32-as_int i.fs w.fs k;
}

took-uids :
    (value : Option Str) (i : Ids) (c : Process)
    → Tells value i
    → Word i
    → c.uids ≡ all_ids 0
    → ((take_uids value c).uids ≡ i)
      × ((take_uids value c).gids ≡ c.gids)
      × ((take_uids value c).vars ≡ c.vars)
unfolding take_uids
took-uids value i c (inl e) w z = rw e (rw (scan_ints-print_ids i) (words i w, refl, refl))
took-uids value i c (inr (e, o)) w z = rw e (z ∙ sym o, refl, refl)

took-gids :
    (value : Option Str) (i : Ids) (c : Process)
    → Tells value i
    → Word i
    → c.gids ≡ all_ids 0
    → ((take_gids value c).gids ≡ record i { fs = 0 })
      × ((take_gids value c).uids
          ≡ record c.uids { fs = if is_some value then i.fs else c.uids.fs })
unfolding take_gids
took-gids value i c (inl e) w z = rw e (
    rw (scan_ints-print_ids i) (
      ap (λ (g : Ids). record g { fs = c.gids.fs }) (words i w)
          ∙ ap (λ (g : Ids). record i { fs = g.fs }) z,
      ap (λ (n : ℕ). record c.uids { fs = n }) (to_u32-as_int i.fs w.fs),
    ))
took-gids value i c (inr (e, o)) w z =
    rw e (z ∙ sym (ap (λ (g : Ids). record g { fs = 0 }) o), refl)

-- A program that has just been started: no id has been set, and no variable is loaded.
pub record Fresh (c : Process) : Type 0 where
  pub loaded : c.vars.loaded ≡ false
  pub uids_known : lookup pseudo_uids c.vars.table ≡ some none
  pub gids_known : lookup pseudo_gids c.vars.table ≡ some none
  pub uids : c.uids ≡ all_ids 0
  pub gids : c.gids ≡ all_ids 0

module _ (getenv child_env : Str → Option Str) where
  take_uids-vars :
      (value : Option Str) (c : Process) (vars : Variables)
      → take_uids value (record c { vars = vars }) ≡ record (take_uids value c) { vars = vars }
  unfolding take_uids
  take_uids-vars none c vars = refl
  take_uids-vars (some s) c vars = refl

  init_ids-Fresh :
      (c : Process)
      → Fresh c
      → (vars : Variables) × (init_ids child_env c
          ≡ take_gids
              (child_env pseudo_gids)
              (record (take_uids (child_env pseudo_uids) c) { vars = vars }))
  unfolding init_ids
  init_ids-Fresh c f =
      let vars = init_util child_env c.vars in
      (
        vars,
        rw
            (
              get_value-fresh child_env pseudo_uids c.vars f.loaded f.uids_known,
              take_uids-vars (child_env pseudo_uids) c vars,
              get_value-held child_env pseudo_gids vars (unfold init_util in refl)
                  (lookup-init_util child_env pseudo_gids c.vars f.gids_known),
            )
            refl,
      )

  -- Of a process whose variables the program finds in its environment.
  pub init_ids-run :
      (cs : List Call) (p c : Process)
      → Noted p
      → AllNote cs
      → Word (run getenv cs p).uids
      → Word (run getenv cs p).gids
      → lookup pseudo_uids (run getenv cs p).vars.table ≡ some (child_env pseudo_uids)
      → lookup pseudo_gids (run getenv cs p).vars.table ≡ some (child_env pseudo_gids)
      → Fresh c
      → ((init_ids child_env c).gids ≡ record (run getenv cs p).gids { fs = 0 })
        × ((init_ids child_env c).uids ≡ record (run getenv cs p).uids {
          fs =
              if is_some (child_env pseudo_gids)
              then (run getenv cs p).gids.fs
              else (run getenv cs p).uids.fs;
        })
  init_ids-run cs p c n all wu wg eu eg f =
      let noted = run-Noted getenv cs p all n in
      let uids_told =
        subst (λ v. Tells v (run getenv cs p).uids) (cc (noted.uids_held)) noted.uids_told in
      let gids_told =
        subst (λ v. Tells v (run getenv cs p).gids) (cc (noted.gids_held)) noted.gids_told in
      let (vars, started) = init_ids-Fresh c f in
      let (u, g, v) =
        took-uids (child_env pseudo_uids) (run getenv cs p).uids c uids_told wu f.uids in
      let (gids, uids) =
        took-gids (child_env pseudo_gids) (run getenv cs p).gids
          (record (take_uids (child_env pseudo_uids) c) { vars = vars }) gids_told wg
          (g ∙ f.gids) in
      (
        ap (λ (q : Process). q.gids) started ∙ gids,
        ap (λ (q : Process). q.uids) started
            ∙ uids
            ∙ ap
                (λ (i : Ids). record i {
                  fs = if is_some (child_env pseudo_gids) then (run getenv cs p).gids.fs else i.fs;
                })
                u,
      )

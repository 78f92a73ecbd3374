-- ===== src/Ids/Within.antt =====
-- A process that has given up root keeps to the ids that it has.
use mathlib.Core.Path.{subst}
use pseudo.Prelude.{
  ℕ, ◌==◌, ◌≡◌, refl, sym, Bool, true, false, ◌&&◌, ◌||◌, not, inl, inr, Bool-cases, Option, List,
  [], ◌∷◌, Str, ℤ, pos, if◌then◌else◌, eq_of_==, ==_of_ne,
}
use pseudo.Ids.State.{Ids, Process, no_id, touchuid, touchgid}
use pseudo.Ids.Calls.{
  Call, uid, euid, gid, egid, fsuid, fsgid, reuid, regid, resuid, resgid, call, run, is_root, holds,
  is_forbidden, chosen, setuid, setgid, seteuid, setegid, setreuid, setregid, setresuid, setresgid,
  setfsuid, setfsgid, effective_only, two, three, denied,
}

-- Each of the four ids is one of those that P holds of.
pub record Within (P : ℕ → Type 0) (i : Ids) : Type 0 where
  pub real : P i.real
  pub effective : P i.effective
  pub saved : P i.saved
  pub fs : P i.fs

holds-P : (P : ℕ → Type 0) (i : Ids) (id : ℕ) → Within P i → holds i id ≡ true → P id
holds-P P i id w h = elim (Bool-cases (id == i.effective)) [
  | inl e ↦ subst P (sym (eq_of_== id i.effective e)) w.effective
  | inr e ↦ elim (Bool-cases (id == i.real)) [
    | inl e' ↦ subst P (sym (eq_of_== id i.real e')) w.real
    | inr e' ↦ subst P (sym (eq_of_== id i.saved (rw (e, e') at h))) w.saved
  ]
]

all_fail : (a b c : Bool) → a ≡ false → b ≡ false → c ≡ false → (not a && (not b && not c)) ≡ true
all_fail a b c ha hb hc = rw (ha, hb, hc)

-- A process whose effective uid is not 0 passes only the test of an id that it has, or of none.
chosen-P :
    (P : ℕ → Type 0) (p : Process) (i : Ids) (id old : ℕ)
    → is_root p ≡ false
    → Within P i
    → P old
    → is_forbidden p i id ≡ false
    → P (chosen old id)
chosen-P P p i id old root w o h = elim (Bool-cases (id == no_id)) [
  | inl e ↦ rw e o
  | inr e ↦ rw e (elim (Bool-cases (holds i id)) [
    | inl e' ↦ holds-P P i id w e'
    | inr e' ↦ absurd (cc (all_fail (is_root p) (id == no_id) (holds i id) root e e'))
  ])
]

or-false : (a b : Bool) → (a || b) ≡ false → (a ≡ false) × (b ≡ false)
or-false true b h = absurd (cc)
or-false false b h = (refl, h)

module _ (P : ℕ → Type 0) where
  -- The ids that the three kinds of call leave.
  only-Within : (i : Ids) (id : ℕ) → Within P i → P id → Within P (effective_only id i)
  only-Within i id w h = record { real = w.real; effective = h; saved = w.saved; fs = h }

  fs-Within : (i : Ids) (id : ℕ) → Within P i → P id → Within P (record i { fs = id })
  fs-Within i id w h = record { real = w.real; effective = w.effective; saved = w.saved; fs = h }

  two-Within :
      (p : Process) (i : Ids) (r e : ℕ)
      → is_root p ≡ false
      → Within P i
      → (is_forbidden p i r || is_forbidden p i e) ≡ false
      → Within P (two r e i)
  two-Within p i r e root w h =
      let (hr, he) = or-false _ _ h in
      let effective = chosen-P P p i e i.effective root w w.effective he in
      record {
        real = chosen-P P p i r i.real root w w.real hr;
        effective = effective;
        saved = w.saved;
        fs = effective;
      }

  three-Within :
      (p : Process) (i : Ids) (r e s : ℕ)
      → is_root p ≡ false
      → Within P i
      → (is_forbidden p i r || (is_forbidden p i e || is_forbidden p i s)) ≡ false
      → Within P (three r e s i)
  three-Within p i r e s root w h =
      let (hr, h') = or-false _ _ h in
      let (he, hs) = or-false _ _ h' in
      let effective = chosen-P P p i e i.effective root w w.effective he in
      record {
        real = chosen-P P p i r i.real root w w.real hr;
        effective = effective;
        saved = chosen-P P p i s i.saved root w w.saved hs;
        fs = effective;
      }

not_root : (P : ℕ → Type 0) (p : Process) → ¬ P 0 → Within P p.uids → is_root p ≡ false
not_root P p none w = ==_of_ne p.uids.effective 0 (λ e. none (subst P e w.effective))

-- A property of the process after a call that is refused, or allowed, by a test.
pub refuse :
    (T : Process → Type 0) (b : Bool) {p q : Process}
    → T p
    → (b ≡ false → T q)
    → T (if◌then◌else◌ {A = ℤ × Process} b (denied, p) (pos 0, q)).1
refuse T true h k = h
refuse T false h k = k refl

pub allow :
    (T : Process → Type 0) (b : Bool) {p q : Process}
    → T p
    → (b ≡ true → T q)
    → T (if◌then◌else◌ {A = ℤ × Process} b (pos 0, q) (denied, p)).1
allow T true h k = k refl
allow T false h k = h

-- What a call keeps of a process.
abbrev pub Keeps : (P Q : ℕ → Type 0) → Process → Type 0
Keeps P Q p = Within P p.uids × Within Q p.gids

module _ (getenv : Str → Option Str) (P Q : ℕ → Type 0) (apart : ¬ P 0) where
  call-Keeps : (c : Call) (p : Process) → Keeps P Q p → Keeps P Q (call getenv c p).1
  unfolding call setuid setgid seteuid setegid setreuid setregid setresuid setresgid setfsuid
      setfsgid touchuid touchgid
  call-Keeps (uid a) p (u, g) = rw (not_root P p apart u) (
      allow (Keeps P Q) (holds p.uids a) (u, g)
        (λ e. (only-Within P p.uids a u (holds-P P p.uids a u e), g)))
  call-Keeps (euid a) p (u, g) = rw (not_root P p apart u) (
      allow (Keeps P Q) (holds p.uids a) (u, g)
        (λ e. (only-Within P p.uids a u (holds-P P p.uids a u e), g)))
  call-Keeps (gid a) p (u, g) = rw (not_root P p apart u) (
      allow (Keeps P Q) (holds p.gids a) (u, g)
        (λ e. (u, only-Within Q p.gids a g (holds-P Q p.gids a g e))))
  call-Keeps (egid a) p (u, g) = rw (not_root P p apart u) (
      allow (Keeps P Q) (holds p.gids a) (u, g)
        (λ e. (u, only-Within Q p.gids a g (holds-P Q p.gids a g e))))
  call-Keeps (fsuid a) p (u, g) = rw (not_root P p apart u) (
      allow (Keeps P Q) (holds p.uids a) (u, g)
        (λ e. (fs-Within P p.uids a u (holds-P P p.uids a u e), g)))
  call-Keeps (fsgid a) p (u, g) = rw (not_root P p apart u) (
      allow (Keeps P Q) (holds p.gids a) (u, g)
        (λ e. (u, fs-Within Q p.gids a g (holds-P Q p.gids a g e))))
  call-Keeps (reuid a b) p (u, g) =
      refuse (Keeps P Q) _ (u, g) (λ e. (two-Within P p p.uids a b (not_root P p apart u) u e, g))
  call-Keeps (regid a b) p (u, g) =
      refuse (Keeps P Q) _ (u, g) (λ e. (u, two-Within Q p p.gids a b (not_root P p apart u) g e))
  call-Keeps (resuid a b c) p (u, g) =
      refuse (Keeps P Q) _ (u, g)
        (λ e. (three-Within P p p.uids a b c (not_root P p apart u) u e, g))
  call-Keeps (resgid a b c) p (u, g) =
      refuse (Keeps P Q) _ (u, g)
        (λ e. (u, three-Within Q p p.gids a b c (not_root P p apart u) g e))

  -- Once 0 is none of a process's four uids, no sequence of calls gives it a uid or gid that it does
  -- not have: every predicate that holds of its uids and not of 0 holds of its uids afterwards, and
  -- every predicate that holds of its gids holds of its gids afterwards.
  pub run-Within :
      (cs : List Call) (p : Process)
      → Within P p.uids
      → Within Q p.gids
      → Within P (run getenv cs p).uids × Within Q (run getenv cs p).gids
  unfolding run
  run-Within [] p u g = (u, g)
  run-Within (c ∷ cs) p u g =
      let (u', g') = call-Keeps c p (u, g) in run-Within cs (call getenv c p).1 u' g'

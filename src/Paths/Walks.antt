-- ===== src/Paths/Walks.antt =====
-- What a walk along elements and links keeps: a property of the path that going up, going down and
-- going back to the root keep.
use pseudo.Prelude.{
  ℕ, zero, suc, ◌+◌, ◌≤◌, ◌<◌, ◌≡◌, Bool, false, not, ◌&&◌, ◌||◌, Option, none, some, List, [], ◌∷◌,
  ◌++◌, Str, str_eq, length, take, ltb, leb, arith, Bool-cases, inl, inr,
}
use pseudo.Message.{is_dir, is_lnk}
use pseudo.Paths.Elements.{Element}
use pseudo.Paths.Fix.{
  Walk, Walker, previous_slash, and_then, expand, follow, go_up, go_down, append_element, is_nil,
  dot, dot_dot, walk_elements, walk_link, is_absolute,
}

-- The path of a walk that does not fail has the property.
abbrev pub Held : (Str → Type 0) → Option Walk → Type 0
Held P none = Unit
Held P (some w) = P w.text

abbrev pub Keeps : (Str → Type 0) → Option Walker → Type 0
Keeps P none = Unit
Keeps P (some walk) = (es : List Element) (w : Walk) → P w.text → Held P (walk es w)

pub record Steps (P : Str → Type 0) (path_max root : ℕ) : Type 0 where
  pub up : (t : Str) → P t → root < length t → P (take (previous_slash root t (length t)) t)
  pub down : (t e : Str) → P t → length t + length e + 3 ≤ path_max → P (t ++ b'/' ∷ e)
  pub top : (t : Str) → P t → P (take root t)

lt_of_leb : (a b : ℕ) → leb a b ≡ false → b < a
lt_of_leb a b h = ground arith

le_of_ltb : (a b : ℕ) → ltb a b ≡ false → b ≤ a
le_of_ltb a b h = ground arith

Held-and_then :
    (P : Str → Type 0) (o : Option Walk) (f : Walk → Option Walk)
    → Held P o
    → ((w : Walk) → P w.text → Held P (f w))
    → Held P (and_then o f)
Held-and_then P none f h k = tt
Held-and_then P (some w) f h k = k w h

module _ (lstat : Str → Option ℕ) (readlink : ℕ → Str → Option Str) (path_max root : ℕ)
    (P : Str → Type 0) (steps : Steps P path_max root) where
  Held-expand :
      (walk : Walker) (before full : Str) (mode : ℕ) (target : Option Str)
      → Keeps P (some walk)
      → P before
      → P full
      → Held P (expand lstat readlink path_max root walk before full mode target)
  unfolding expand
  Held-expand walk before full mode none k b f = f
  Held-expand walk before full mode (some target) k b f =
      k _ _ (elim (Bool-cases (is_absolute target)) [
        | inl e ↦ rw e (steps.top before b)
        | inr e ↦ rw e b
      ])

  Held-follow :
      (deeper : Option Walker) (before full : Str) (mode : ℕ)
      → Keeps P deeper
      → P before
      → P full
      → Held P (follow lstat readlink path_max root deeper before full mode)
  unfolding follow
  Held-follow none before full mode k b f = f
  Held-follow (some walk) before full mode k b f = elim (Bool-cases (is_lnk mode)) [
    | inl e ↦ rw e (Held-expand walk before full mode (readlink path_max full) k b f)
    | inr e ↦ rw e f
  ]

  held-go_up : (w : Walk) → P w.text → P (go_up root w).text
  unfolding go_up
  held-go_up w h = elim (Bool-cases (leb (length w.text) root)) [
    | inl e ↦ rw e h
    | inr e ↦ rw e (steps.up w.text h (lt_of_leb _ _ e))
  ]

  Held-go_down :
      (deeper : Option Walker) (element : Str) (leave : Bool) (w : Walk)
      → Keeps P deeper
      → P w.text
      → Held P (go_down lstat readlink path_max root deeper element leave w)
  unfolding go_down
  Held-go_down deeper element leave w k h =
      elim (Bool-cases (ltb path_max (length w.text + length element + 3))) [
        | inl e ↦ rw e tt
        | inr e ↦
            let full = steps.down w.text element h (le_of_ltb _ _ e) in
            elim (Bool-cases (not leave && is_dir w.mode)) [
              | inl f ↦ rw (e, f) (Held-follow deeper w.text _ _ k h full)
              | inr f ↦ rw (e, f) full
            ]
      ]

  Held-append_element :
      (deeper : Option Walker) (element : Str) (leave : Bool) (w : Walk)
      → Keeps P deeper
      → P w.text
      → Held P (append_element lstat readlink path_max root deeper element leave w)
  unfolding append_element
  Held-append_element deeper element leave w k h =
      elim (Bool-cases (is_dir w.mode && (is_nil element || str_eq element dot))) [
        | inl e ↦ rw e h
        | inr e ↦ elim (Bool-cases (is_dir w.mode && str_eq element dot_dot)) [
          | inl f ↦ rw (e, f) (held-go_up w h)
          | inr f ↦ rw (e, f) (Held-go_down deeper element leave w k h)
        ]
      ]

  Held-walk_elements :
      (deeper : Option Walker) (leave : Bool)
      → Keeps P deeper
      → Keeps P (some (walk_elements lstat readlink path_max root deeper leave))
  unfolding walk_elements
  Held-walk_elements deeper leave k [] w h = h
  Held-walk_elements deeper leave k (e ∷ es) w h =
      Held-and_then P _ _ (Held-append_element deeper e.text (e.last && leave) w k h)
        (λ v p. Held-walk_elements deeper leave k es v p)

  Keeps-walk_link : (links : ℕ) → Keeps P (walk_link lstat readlink path_max root links)
  unfolding walk_link
  Keeps-walk_link zero = tt
  Keeps-walk_link (suc links) =
      Held-walk_elements (walk_link lstat readlink path_max root links) false
        (Keeps-walk_link links)

  -- A property of paths that the three steps keep holds at the end of a walk that it held at the start of.
  pub Held-walk :
      (links : ℕ) (leave : Bool) (es : List Element) (w : Walk)
      → P w.text
      → Held P (
          walk_elements lstat readlink path_max root
            (walk_link lstat readlink path_max root links)
            leave
            es
            w)
  Held-walk links leave es w h =
      Held-walk_elements (walk_link lstat readlink path_max root links) leave
        (Keeps-walk_link links) es w h

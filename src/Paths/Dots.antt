-- ===== src/Paths/Dots.antt =====
-- A path through directories only: pseudo_fix_path against a stack of names, on which "." and an empty
-- name do nothing and ".." takes the last name off.
use pseudo.Prelude.{
  ℕ, zero, suc, ◌+◌, ◌≤◌, ◌≡◌, ◌≢◌, refl, sym, ap, ◌∙◌, Bool, true, false, not, ◌&&◌, Option, none,
  some, List, [], ◌∷◌, ◌++◌, Str, str_eq, length, length-append, take, ltb, leb, ==_of_ne,
  if◌then◌else◌, arith, Bool-cases, inl, inr, get_elem?, All,
}
use pseudo.Message.{is_dir, is_lnk}
use pseudo.Paths.Elements.{Element}
use pseudo.Paths.Fix.{
  Walker, dot, dot_dot, is_byte, previous_slash, mode_of, follow, go_up, go_down, append_element,
  walk_elements,
}

abbrev pub NoSlash : Str → Type 0
NoSlash = All (λ c. c ≢ b'/')

-- A front and the names behind it, the last name first.
abbrev pub render : Str → List Str → Str
render front [] = front
render front (name ∷ stack) = render front stack ++ b'/' ∷ name

abbrev pub pop : List Str → List Str
pop [] = []
pop (name ∷ stack) = stack

unfoldable pub enter : List Str → Str → List Str
enter stack [] = stack
enter stack (c ∷ name) =
    if str_eq (c ∷ name) (b'.' ∷ [])
    then stack
    else if str_eq (c ∷ name) (b'.' ∷ b'.' ∷ [])
    then pop stack
    else (c ∷ name) ∷ stack

abbrev pub resolve : List Str → List Element → List Str
resolve stack [] = stack
resolve stack (e ∷ es) = resolve (enter stack e.text) es

abbrev pub cost : List Element → ℕ
cost [] = 0
cost (e ∷ es) = length e.text + 1 + cost es

get_elem?-beyond : (t s : Str) (n k : ℕ) → n ≡ length t + k → get_elem? (t ++ s) n ≡ get_elem? s k
get_elem?-beyond [] s n k h = ap (get_elem? s) (omega arith)
get_elem?-beyond (c ∷ t) s zero k h = absurd (omega arith)
get_elem?-beyond (c ∷ t) s (suc n) k h = get_elem?-beyond t s n k (omega arith)

is_byte-NoSlash : (e : Str) (k : ℕ) → NoSlash e → is_byte b'/' (get_elem? e k) ≡ false
is_byte-NoSlash [] k h = refl
is_byte-NoSlash (c ∷ e) zero h = ==_of_ne _ _ (λ same. h.0 (sym same))
is_byte-NoSlash (c ∷ e) (suc k) h = is_byte-NoSlash e k h.1

-- The slash before the last name is found.
previous_slash-name :
    (root : ℕ) (t e : Str) (n k : ℕ)
    → NoSlash e
    → root ≤ length t
    → n ≡ length t + k
    → previous_slash root (t ++ b'/' ∷ e) n ≡ length t
unfolding previous_slash
previous_slash-name root t e zero k free h eq = omega arith
previous_slash-name root t e (suc n) zero free h eq =
    rw (get_elem?-beyond t (b'/' ∷ e) (suc n) zero eq) (ground arith)
previous_slash-name root t e (suc n) (suc k) free h eq =
    rw (get_elem?-beyond t (b'/' ∷ e) (suc n) (suc k) eq, is_byte-NoSlash e k free)
      (ground (arith, previous_slash-name root t e n k free h (omega arith)))

take-length : (t s : Str) → take (length t) (t ++ s) ≡ t
take-length [] s = refl
take-length (c ∷ t) s = ap (λ r. c ∷ r) (take-length t s)

length-render : (front : Str) (stack : List Str) → length front ≤ length (render front stack)
length-render front [] = omega arith
length-render front (name ∷ stack) =
    omega (arith, length-append (render front stack) (b'/' ∷ name), length-render front stack)

length-pop :
    (front : Str) (stack : List Str)
    → length (render front (pop stack)) ≤ length (render front stack)
length-pop front [] = omega arith
length-pop front (name ∷ stack) = omega (arith, length-append (render front stack) (b'/' ∷ name))

dir_not_link : (mode : ℕ) → is_dir mode ≡ true → is_lnk mode ≡ false
dir_not_link mode h = ground arith

go_up-render :
    (front : Str) (stack : List Str) (mode : ℕ)
    → All NoSlash stack
    → go_up (length front) (record { text = render front stack; mode = mode })
      ≡ record { text = render front (pop stack); mode = mode }
unfolding go_up
go_up-render front [] mode free = ground arith
go_up-render front (name ∷ stack) mode free = rw (
  above (length-append (render front stack) (b'/' ∷ name)),
  previous_slash-name (length front) (render front stack) name _ (length name + 1) free.0
      (length-render front stack) (length-append (render front stack) (b'/' ∷ name) ∙ omega arith),
  take-length (render front stack) (b'/' ∷ name),
)
  where
    above :
        length (render front stack ++ b'/' ∷ name) ≡ length (render front stack) + suc (length name)
        → leb (length (render front stack ++ b'/' ∷ name)) (length front) ≡ false
    above eq = ground (arith, length-render front stack)

enter-NoSlash :
    (stack : List Str) (name : Str)
    → All NoSlash stack
    → NoSlash name
    → All NoSlash (enter stack name)
unfolding enter
enter-NoSlash stack [] free n = free
enter-NoSlash stack (c ∷ name) free n = elim (Bool-cases (str_eq (c ∷ name) dot)) [
  | inl e ↦ rw e free
  | inr e ↦ elim (Bool-cases (str_eq (c ∷ name) dot_dot)) [
    | inl f ↦ rw (e, f) (pop-NoSlash stack free)
    | inr f ↦ rw (e, f) (n, free)
  ]
]
  where
    pop-NoSlash : (stack : List Str) → All NoSlash stack → All NoSlash (pop stack)
    pop-NoSlash [] free = tt
    pop-NoSlash (name ∷ stack) free = free.1

pub length-enter :
    (front : Str) (stack : List Str) (name : Str)
    → length (render front (enter stack name)) ≤ length (render front stack) + length name + 1
unfolding enter
length-enter front stack [] = omega arith
length-enter front stack (c ∷ name) = elim (Bool-cases (str_eq (c ∷ name) dot)) [
  | inl e ↦ rw e (omega arith)
  | inr e ↦ elim (Bool-cases (str_eq (c ∷ name) dot_dot)) [
    | inl f ↦ rw (e, f) (omega (arith, length-pop front stack))
    | inr f ↦ rw (e, f) (omega (arith, length-append (render front stack) (b'/' ∷ c ∷ name)))
  ]
]

room_left : (a b c : ℕ) → a + b + 3 ≤ c → ltb c (a + b + 3) ≡ false
room_left a b c h = ground arith

module _ (lstat : Str → Option ℕ) (readlink : ℕ → Str → Option Str) (path_max : ℕ) (front : Str)
    (dirs : (p : Str) → is_dir (mode_of (lstat p)) ≡ true) where
  follow-dir :
      (deeper : Option Walker) (before full : Str) (mode : ℕ)
      → is_lnk mode ≡ false
      → follow lstat readlink path_max (length front) deeper before full mode
        ≡ some (record { text = full; mode = mode })
  unfolding follow
  follow-dir none before full mode n = refl
  follow-dir (some walk) before full mode n = rw n

  go_down-render :
      (deeper : Option Walker) (leave : Bool) (name : Str) (stack : List Str) (mode : ℕ)
      → length (render front stack) + length name + 3 ≤ path_max
      → go_down lstat readlink path_max
          (length front)
          deeper
          name
          leave
          (record { text = render front stack; mode = mode })
        ≡ some (record {
          text = render front (name ∷ stack);
          mode = mode_of (lstat (render front (name ∷ stack)));
        })
  unfolding go_down
  go_down-render deeper leave name stack mode fits = elim (Bool-cases (not leave && is_dir mode)) [
    | inl e ↦
        rw (room_left _ _ _ fits, e)
          (follow-dir deeper (render front stack) _ _
            (dir_not_link _ (dirs (render front (name ∷ stack)))))
    | inr e ↦ rw (room_left _ _ _ fits, e)
  ]

  append_element-render :
      (deeper : Option Walker) (leave : Bool) (name : Str) (stack : List Str) (mode : ℕ)
      → is_dir mode ≡ true
      → All NoSlash stack
      → length (render front stack) + length name + 3 ≤ path_max
      → (next : ℕ) × (append_element lstat readlink path_max
            (length front)
            deeper
            name
            leave
            (record { text = render front stack; mode = mode })
          ≡ some (record { text = render front (enter stack name); mode = next }))
        × (is_dir next ≡ true)
  unfolding append_element enter
  append_element-render deeper leave [] stack mode d free fits = (mode, rw d refl, d)
  append_element-render deeper leave (c ∷ name) stack mode d free fits =
      elim (Bool-cases (str_eq (c ∷ name) dot)) [
        | inl e ↦ (mode, rw (d, e), d)
        | inr e ↦ elim (Bool-cases (str_eq (c ∷ name) dot_dot)) [
          | inl f ↦ (mode, rw (d, e, f) (ap some (go_up-render front stack mode free)), d)
          | inr f ↦ (
            _,
            rw (d, e, f) (go_down-render deeper leave (c ∷ name) stack mode fits),
            dirs (render front ((c ∷ name) ∷ stack)),
          )
        ]
      ]

  -- a walk whose elements fit the buffer
  pub walk_elements-render :
      (deeper : Option Walker) (leave : Bool) (es : List Element) (stack : List Str) (mode : ℕ)
      → is_dir mode ≡ true
      → All NoSlash stack
      → All (λ (e : Element). NoSlash e.text) es
      → length (render front stack) + cost es + 2 ≤ path_max
      → (next : ℕ) × (walk_elements lstat readlink path_max
            (length front)
            deeper
            leave
            es
            (record { text = render front stack; mode = mode })
          ≡ some (record { text = render front (resolve stack es); mode = next }))
  unfolding walk_elements
  walk_elements-render deeper leave [] stack mode d free names fits = (mode, refl)
  walk_elements-render deeper leave (e ∷ es) stack mode d free names fits =
      let (m, one, dir) =
        append_element-render deeper (e.last && leave) e.text stack mode d free (omega arith) in
      let (n, rest) =
        walk_elements-render deeper leave es (enter stack e.text) m dir
          (enter-NoSlash stack e.text free names.0) names.1
          (omega (arith, length-enter front stack e.text)) in
      (n, rw one rest)

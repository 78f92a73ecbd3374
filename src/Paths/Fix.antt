-- ===== src/Paths/Fix.antt =====
-- pseudo_append_element, pseudo_append_elements and pseudo_fix_path (pseudo_util.c). `newpath` is the
-- text up to `current`, at which it always has its NUL, and `root` is an offset into it.
use pseudo.Prelude.{
  ℕ, zero, suc, ◌+◌, Bool, true, false, not, ◌&&◌, ◌||◌, Option, none, some, List, [], ◌∷◌, ◌++◌,
  Str, str_eq, c_str, length, take, get_elem?, ltb, leb, ◌==◌, if◌then◌else◌,
}
use pseudo.Message.{is_dir, is_lnk, s_ifdir}
use pseudo.Paths.Elements.{Element, elements}

-- The path so far and the mode in the shared stat buffer.
pub record Walk : Type 0 where
  pub text : Str
  pub mode : ℕ

abbrev pub dot : Str
dot = b'.' ∷ []

abbrev pub dot_dot : Str
dot_dot = b'.' ∷ b'.' ∷ []

abbrev pub is_byte : ℕ → Option ℕ → Bool
is_byte c none = false
is_byte c (some d) = c == d

-- `while (current > root && *current != '/') --current;`
unfoldable pub previous_slash : ℕ → Str → ℕ → ℕ
previous_slash root text zero = zero
previous_slash root text (suc n) =
    let lower = previous_slash root text n in
    if leb (suc n) root || is_byte b'/' (get_elem? text (suc n)) then suc n else lower

-- A walk along elements: from a path on, `none` for -1.
abbrev pub Walker : Type 0
Walker = List Element → Walk → Option Walk

abbrev pub is_nil : Str → Bool
is_nil [] = true
is_nil (c ∷ r) = false

abbrev pub is_absolute : Str → Bool
is_absolute [] = false
is_absolute (c ∷ r) = c == b'/'

abbrev pub and_then {ℓ κ} : {A : Type ℓ} {B : Type κ} → Option A → (A → Option B) → Option B
and_then none f = none
and_then (some a) f = f a

abbrev pub mode_of : Option ℕ → ℕ
mode_of none = 0
mode_of (some mode) = mode

-- "..", which never goes above the root
unfoldable pub go_up : ℕ → Walk → Walk
go_up root w =
    let len = length w.text in
    if leb len root then w else record w { text = take (previous_slash root w.text len) w.text }

-- lstat gives the mode, readlink the bytes that it puts in a buffer of path_max; the file system is not
-- changed during a walk.
module _ (lstat : Str → Option ℕ) (readlink : ℕ → Str → Option Str) (path_max root : ℕ) where
  -- A symbolic link at `full`: its elements are appended to the root, or to what was before it.
  unfoldable pub expand : Walker → Str → Str → ℕ → Option Str → Option Walk
  expand walk before full mode none = some (record { text = full; mode = mode })
  expand walk before full mode (some target) =
      walk (elements (length target) (c_str target))
        (record { text = if is_absolute target then take root before else before; mode = s_ifdir })

  -- `deeper` is the walk along a link's elements, `none` at PSEUDO_MAX_LINK_RECURSION.
  unfoldable pub follow : Option Walker → Str → Str → ℕ → Option Walk
  follow none before full mode = some (record { text = full; mode = mode })
  follow (some walk) before full mode =
      let link = expand walk before full mode (readlink path_max full) in
      if is_lnk mode then link else some (record { text = full; mode = mode })

  -- any other element, and the link that it may be
  unfoldable pub go_down : Option Walker → Str → Bool → Walk → Option Walk
  go_down deeper element leave_this w =
      let full = w.text ++ b'/' ∷ element in
      let mode = mode_of (lstat full) in
      if ltb path_max (length w.text + length element + 3)
      then none
      else if not leave_this && is_dir w.mode
      then follow deeper w.text full mode
      else some (record { text = full; mode = mode })

  -- The results 0 and 1 are both `some`: the callers only test for -1.
  unfoldable pub append_element : Option Walker → Str → Bool → Walk → Option Walk
  append_element deeper element leave_this w =
      if is_dir w.mode && (is_nil element || str_eq element dot)
      then some w
      else if is_dir w.mode && str_eq element dot_dot
      then some (go_up root w)
      else go_down deeper element leave_this w

  -- the loop over the elements; `leave_last` holds for one that no slash follows
  unfoldable pub walk_elements : Option Walker → Bool → Walker
  walk_elements deeper leave_last [] w = some w
  walk_elements deeper leave_last (e ∷ es) w =
      and_then (append_element deeper e.text (e.last && leave_last) w)
        (walk_elements deeper leave_last es)

  -- pseudo_append_elements for the elements of a link, `links` more of which may be nested in it
  unfoldable pub walk_link : ℕ → Option Walker
  walk_link zero = none
  walk_link (suc links) = some (walk_elements (walk_link links) false)

  -- The stat buffer starts with the mode of the path so far, or as a directory at the root.
  unfoldable pub start_walk : Str → Walk
  start_walk text = record {
    text = text;
    mode = if ltb root (length text) then mode_of (lstat text) else s_ifdir;
  }

-- The result: the path as it came, the null pointer, or the buffer with its length in *lenp.
pub data Fixed : Type 0 where
  unchanged failed : Fixed
  fixed : Str → Fixed

abbrev pub max_link_recursion : ℕ
max_link_recursion = 16

-- `while (pathlen > 0 && path[pathlen - 1] == '/')`
unfoldable pub without_slashes : Str → ℕ → ℕ
without_slashes path zero = zero
without_slashes path (suc n) =
    let shorter = without_slashes path n in
    if is_byte b'/' (get_elem? path n) then shorter else suc n

-- a length of 1 is that of the path "/"
abbrev pub root_length : ℕ → ℕ
root_length n = if n == 1 then 0 else n

-- the slash for an empty path, or for one that had slashes at its end
unfoldable pub finish : ℕ → ℕ → Bool → Option Walk → Fixed
finish path_max root slash none = Fixed.failed
finish path_max root slash (some w) =
    if ((length w.text == root) || slash) && ltb (length w.text) path_max
    then Fixed.fixed (w.text ++ b'/' ∷ [])
    else Fixed.fixed w.text

-- The base is used for a relative path, and for an absolute one below a root.
abbrev pub start_text : Str → Str → ℕ → ℕ → Str
start_text base path rootlen baselen =
    if not (root_length baselen == 0) && (not (is_absolute path) || not (root_length rootlen == 0))
    then take (root_length baselen) base
    else []

module _ (lstat : Str → Option ℕ) (readlink : ℕ → Str → Option Str) (path_max : ℕ) where
  -- `base`, `path` and their lengths as pseudo_fix_path gets them; malloc gives the buffer.
  unfoldable pub fix_path : Str → Str → ℕ → ℕ → Bool → Fixed
  fix_path base path rootlen baselen leave_last =
      let from = root_length baselen in
      let root = root_length rootlen in
      let whole = length path in
      let pathlen = without_slashes path whole in
      if leb path_max (whole + from)
      then Fixed.unchanged
      else finish path_max root (ltb pathlen whole) (
          walk_elements lstat readlink path_max root
            (walk_link lstat readlink path_max root max_link_recursion) leave_last
            (elements pathlen path)
            (start_walk lstat readlink path_max root (start_text base path rootlen baselen)))

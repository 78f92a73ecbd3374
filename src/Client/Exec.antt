-- ===== src/Client/Exec.antt =====
-- The file that an exec is told to be of: populate_path_segs and pseudo_exec_path of pseudo_client.c.
-- Memory does not run out, and the file name is no null pointer. `stat` gives the mode of a file.
use pseudo.Prelude.{
  eq_of_==, ap, ◌∙◌, str_eq_refl, ℕ, ◌≡◌, refl, Bool, true, false, not, ◌&&◌, Option, none, some,
  List, [], ◌∷◌, ◌++◌, Str, split, str_eq, length, if◌then◌else◌,
}
use pseudo.Message.{is_dir}
use pseudo.Paths.Fix.{Fixed, fix_path, is_absolute}
use pseudo.Client.Base.{result_of}
use pseudo.Client.Users.{IsPart, split-part, split_part}
use pseudo.Wrappers.Access.{has}

-- previous_path up to its first NUL, and path_segs; none are null pointers.
pub record PathCache : Type 0 where
  pub previous_path : Option Str
  pub path_segs : Option (List Str)

abbrev pub no_path : PathCache
no_path = record { previous_path = none; path_segs = none }

abbrev is_previous : Str → Option Str → Bool
is_previous path none = false
is_previous path (some previous) = str_eq previous path

abbrev first : List Str → Option Str
first [] = none
first (s ∷ ss) = some s

-- populate_path_segs: the separators in previous_path itself become NULs.
unfoldable pub populate_path_segs : Str → PathCache
populate_path_segs path = record {
  previous_path = first (split b':' path);
  path_segs = some (split b':' path);
}

-- The segments are made anew if PATH is not the previous one.
unfoldable pub refresh : Option Str → PathCache → PathCache
unfolding populate_path_segs
refresh none cache = no_path
refresh (some path) cache =
    if is_previous path cache.previous_path then cache else populate_path_segs path

abbrev is_empty : Str → Bool
is_empty [] = true
is_empty (c ∷ s) = false

-- The path is empty or a single dot.
abbrev is_here : Str → Bool
is_here segment = if is_empty segment then true else str_eq segment (b'.' ∷ [])

-- Not a directory, and somebody may run it.
abbrev pub can_run : Option ℕ → Bool
can_run none = false
can_run (some mode) = not (is_dir mode) && has mode 0o111

module _ (lstat : Str → Option ℕ) (readlink : ℕ → Str → Option Str) (path_max : ℕ)
    (stat : Str → Option ℕ) (cwd filename : Str) where
  -- pseudo_fix_path(base, path, 0, strlen(base), …, 0)
  abbrev pub fixed_in : Str → Str → Option Str
  fixed_in base path =
      result_of path (fix_path lstat readlink path_max base path 0 (length base) false)

  abbrev in_dir : Option Str → Option Str
  in_dir none = none
  in_dir (some dir) = fixed_in dir filename

  -- The candidate in a segment of PATH
  unfoldable pub candidate : Str → Option Str
  candidate segment =
      if is_here segment
      then fixed_in cwd filename
      else if is_absolute segment
      then fixed_in segment filename
      else in_dir (fixed_in cwd segment)

  abbrev pub runs : Option Str → Bool
  runs none = false
  runs (some path) = can_run (stat path)

  -- The loop over the segments; at its end the name is a blind guess.
  unfoldable pub search_path_segs : List Str → Option Str
  search_path_segs [] = some filename
  search_path_segs (segment ∷ rest) =
      if runs (candidate segment) then candidate segment else search_path_segs rest

  -- The answer from the segments, where there are any
  unfoldable pub exec_from : Option (List Str) → Bool → Option Str
  exec_from segments search_path =
      if is_absolute filename
      then fixed_in [] filename
      else if search_path
      then elim segments [ none ↦ fixed_in cwd filename | some segs ↦ search_path_segs segs ]
      else fixed_in cwd filename

  -- `path` is the value of PATH; the result, and the variables afterwards
  unfoldable pub exec_path : Option Str → Bool → PathCache → Option Str × PathCache
  unfolding refresh exec_from
  exec_path path search_path cache =
      let next = refresh path cache in (exec_from next.path_segs search_path, next)

-- An absolute directory is neither empty nor a single dot.
absolute_elsewhere : (s : Str) → is_absolute s ≡ true → is_here s ≡ false
absolute_elsewhere [] h = cc
absolute_elsewhere (c ∷ []) h = rw (eq_of_== c b'/' h) refl
absolute_elsewhere (c ∷ d ∷ s) h = rw (eq_of_== c b'/' h) refl

module _ (lstat : Str → Option ℕ) (readlink : ℕ → Str → Option Str) (path_max : ℕ)
    (stat : Str → Option ℕ) (cwd filename : Str) where
  candidate-absolute :
      (s e : Str)
      → is_absolute s ≡ true
      → fix_path lstat readlink path_max s filename 0 (length s) false ≡ Fixed.fixed e
      → candidate lstat readlink path_max stat cwd filename s ≡ some e
  unfolding candidate
  candidate-absolute s e h f = rw (absolute_elsewhere s h, h, f) refl

  skipped :
      (s e : Str) (rest : List Str)
      → candidate lstat readlink path_max stat cwd filename s ≡ some e
      → stat e ≡ none
      → search_path_segs lstat readlink path_max stat cwd filename (s ∷ rest)
        ≡ search_path_segs lstat readlink path_max stat cwd filename rest
  unfolding search_path_segs
  skipped s e rest c n = rw (c, n) refl

  taken :
      (s e : Str) (rest : List Str) (mode : ℕ)
      → candidate lstat readlink path_max stat cwd filename s ≡ some e
      → stat e ≡ some mode
      → is_dir mode ≡ false
      → has mode 0o111 ≡ true
      → search_path_segs lstat readlink path_max stat cwd filename (s ∷ rest) ≡ some e
  unfolding search_path_segs
  taken s e rest mode c n d x = rw (c, n, d, x) refl

  none_left : search_path_segs lstat readlink path_max stat cwd filename [] ≡ some filename
  unfolding search_path_segs
  none_left = refl

  exec_from-searched :
      (segs : List Str)
      → is_absolute filename ≡ false
      → exec_from lstat readlink path_max stat cwd filename (some segs) true
        ≡ search_path_segs lstat readlink path_max stat cwd filename segs
  unfolding exec_from
  exec_from-searched segs h = rw h refl

  -- Let PATH have two absolute directories, with no separator in their names, of which the first does not
  -- have the file and the second has it, as a file that somebody may run and no directory; and let the
  -- name be relative. Then pseudo_exec_path finds the file in the second directory. It finds it
  -- there again in a second call where PATH is the first directory alone, although a call with that
  -- PATH at the start finds nothing and answers the name itself: previous_path has been cut at its
  -- first separator and compares equal to the new PATH.
  pub exec_path-kept :
      (first second missing found : Str) (mode : ℕ)
      → IsPart first
      → IsPart second
      → is_absolute first ≡ true
      → is_absolute second ≡ true
      → is_absolute filename ≡ false
      → fix_path lstat readlink path_max first filename 0 (length first) false ≡ Fixed.fixed missing
      → fix_path lstat readlink path_max second filename 0 (length second) false ≡ Fixed.fixed found
      → stat missing ≡ none
      → stat found ≡ some mode
      → is_dir mode ≡ false
      → has mode 0o111 ≡ true
      → let exec = exec_path lstat readlink path_max stat cwd filename in
        let before = exec (some (first ++ b':' ∷ second)) true no_path in
        (before.0 ≡ some found)
        × ((exec (some first) true before.1).0 ≡ some found)
        × ((exec (some first) true no_path).0 ≡ some filename)
  unfolding exec_path refresh populate_path_segs
  exec_path-kept first second missing found mode p q a b r f g m n d x =
      let both =
        skipped first missing (second ∷ []) (candidate-absolute first missing a f) m
        ∙ taken second found [] mode (candidate-absolute second found b g) n d x in
      let segs = split-part first second p ∙ ap (λ l. first ∷ l) (split_part second q) in
      (
        rw segs (exec_from-searched (first ∷ second ∷ []) r ∙ both),
        rw (segs, str_eq_refl first) (exec_from-searched (first ∷ second ∷ []) r ∙ both),
        rw (split_part first p) (
            exec_from-searched (first ∷ []) r
            ∙ skipped first missing [] (candidate-absolute first missing a f) m
            ∙ none_left),
      )

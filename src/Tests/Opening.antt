-- ===== src/Tests/Opening.antt =====
-- Runs of the calls that open files and of the search for a program.
use pseudo.Prelude.{
  ◌++◌, ℕ, ◌≡◌, refl, true, Option, none, some, [], ◌∷◌, Str, str_eq, pos, if◌then◌else◌,
}
use pseudo.Wrappers.Calls.{at_fdcwd}
use pseudo.Wrappers.Access.{psa_of_flags, access_fopen, flags_fopen, access_fopen-flags_fopen}
use pseudo.Wrappers.Open.{openat, fopen, freopen, opendir, mkostemps, chdir, fchdir, dup, dup2}
use pseudo.Wrappers.Honest.{Honest}
use pseudo.Wrappers.Honest.Opening.{openers-Honest}
use pseudo.Paths.Elements.{elements, inside}
use pseudo.Paths.Fix.{
  fix_path, walk_elements, walk_link, append_element, go_up, go_down, follow, expand,
  previous_slash, start_walk, finish, without_slashes,
}
use pseudo.Client.Exec.{exec_path, no_path, exec_path-kept}

abbrev path_a : Str
path_a = b'/' ∷ b'a' ∷ []

abbrev mode_w : Str
mode_w = b'w' ∷ []

openers-Honest_example :
    Honest none (openat 0o022 at_fdcwd path_a 0o101 0o666)
    × Honest none (fopen 0o022 path_a mode_w)
    × Honest none (freopen 0o022 path_a mode_w)
    × Honest none (opendir path_a)
    × Honest none (mkostemps (some (some path_a)) path_a 0 0o101)
    × Honest none (chdir (some path_a))
    × Honest none (fchdir at_fdcwd)
    × Honest none (dup at_fdcwd)
    × Honest none (dup2 at_fdcwd (pos 7))
openers-Honest_example =
    openers-Honest 0o022 at_fdcwd (pos 7) path_a mode_w path_a (some (some path_a)) 0o101 0o666 0

abbrev plus_b : Str
plus_b = b'b' ∷ b'+' ∷ []

access_fopen-flags_fopen_example :
    (access_fopen (b'r' ∷ plus_b) ≡ some (psa_of_flags (flags_fopen b'r' plus_b)))
    × (access_fopen (b'w' ∷ plus_b) ≡ some (psa_of_flags (flags_fopen b'w' plus_b)))
    × (access_fopen (b'a' ∷ plus_b) ≡ some (psa_of_flags (flags_fopen b'a' plus_b)))
access_fopen-flags_fopen_example = access_fopen-flags_fopen plus_b (refl, (refl, tt))

-- /b/p is a program.
abbrev search : Str
search = b'/' ∷ b'a' ∷ b':' ∷ b'/' ∷ b'b' ∷ []

abbrev program : Str
program = b'p' ∷ []

abbrev directories : Str → Option ℕ
directories path = some 0o040755

abbrev no_link : ℕ → Str → Option Str
no_link size path = none

abbrev programs : Str → Option ℕ
programs path = if str_eq path (b'/' ∷ b'b' ∷ b'/' ∷ b'p' ∷ []) then some 0o100755 else none

abbrev path_b : Str
path_b = b'/' ∷ b'b' ∷ []

exec_path-kept_example :
    let exec = exec_path directories no_link 4096 programs path_a program in
    let before = exec (some search) true no_path in
    (before.0 ≡ some (path_b ++ b'/' ∷ program))
    × ((exec (some path_a) true before.1).0 ≡ some (path_b ++ b'/' ∷ program))
    × ((exec (some path_a) true no_path).0 ≡ some program)
unfolding fix_path walk_elements walk_link append_element go_up go_down follow expand previous_slash
    start_walk finish without_slashes elements inside
exec_path-kept_example =
    exec_path-kept directories no_link 4096 programs path_a program path_a path_b
      (path_a ++ b'/' ∷ program) (path_b ++ b'/' ∷ program) 0o100755 (refl, (refl, tt))
      (refl, (refl, tt)) refl refl refl refl refl refl refl refl refl

-- ===== src/Environ/Setup.antt =====
-- pseudo_setupenv, pseudo_setupenvp, pseudo_dropenv, pseudo_dropenvp and pseudo_append_path of
-- pseudo_util.c, as they are on Linux, and the environment that an exec of
-- ports/common/guts gives to a program. Memory does not run out. `libdir` is what pseudo_libdir_path
-- gives, after the evaluation of the prefix and the directories.
use pseudo.Prelude.{
  ◌==◌, Bool, true, false, ◌||◌, Option, none, some, List, [], ◌∷◌, ◌++◌, Str, str_eq, is_prefix,
  if◌then◌else◌,
}
use pseudo.Values.{Variable, Variables, has_unload}
use pseudo.Environ.Preload.{with_libpseudo, without_libpseudo}

abbrev pub prelink_libraries : Str
prelink_libraries = b'L' ∷ b'D' ∷ b'_' ∷ b'P' ∷ b'R' ∷ b'E' ∷ b'L' ∷ b'O' ∷ b'A' ∷ b'D' ∷ []

abbrev pub prelink_path : Str
prelink_path =
    b'L' ∷ b'D' ∷ b'_' ∷ b'L' ∷ b'I' ∷ b'B' ∷ b'R' ∷ b'A' ∷ b'R' ∷ b'Y' ∷ b'_' ∷ b'P' ∷ b'A' ∷ b'T'
    ∷ b'H' ∷ []

-- PRELINK_LIBRARIES "=" and PRELINK_PATH "="
abbrev pub libraries_entry : Str
libraries_entry = prelink_libraries ++ b'=' ∷ []

abbrev pub path_entry : Str
path_entry = prelink_path ++ b'=' ∷ []

abbrev pub is_libraries : Str → Bool
is_libraries e = is_prefix libraries_entry e

abbrev pub is_path : Str → Bool
is_path e = is_prefix path_entry e

-- strstr(text, part) != NULL
abbrev pub contains : Str → Str → Bool
contains part [] = is_prefix part []
contains part (c ∷ s) = is_prefix part (c ∷ s) || contains part s

abbrev pub both_dirs : Str → Str
both_dirs libdir = libdir ++ (b':' ∷ (libdir ++ b'6' ∷ b'4' ∷ []))

abbrev pub or_this : Option Str → Bool → Str → Option Str
or_this (some later) test e = some later
or_this none true e = some e
or_this none false e = none

-- The last entry that passes a test.
abbrev pub last_entry : (Str → Bool) → List Str → Option Str
last_entry test [] = none
last_entry test (e ∷ es) = or_this (last_entry test es) (test e) e

abbrev pub new_path : Str → Option Str → Str
new_path libdir none = path_entry ++ both_dirs libdir
new_path libdir (some e) = if contains libdir e then e else e ++ (b':' ∷ both_dirs libdir)

abbrev pub new_libraries : Option Str → Str
new_libraries none = libraries_entry ++ with_libpseudo []
new_libraries (some e) = with_libpseudo e

-- The entries that do not pass a test.
abbrev pub reject : (Str → Bool) → List Str → List Str
reject test [] = []
reject test (e ∷ es) = if test e then reject test es else e ∷ reject test es

abbrev pub is_prelink : Str → Bool
is_prelink e = is_libraries e || is_path e

-- strncmp(key, entry, strlen(key)) == 0 for some entry
abbrev pub any_starts : Str → List Str → Bool
any_starts key [] = false
any_starts key (e ∷ es) = is_prefix key e || any_starts key es

abbrev pub named : Str → Str → Str
named key value = key ++ (b'=' ∷ value)

-- One round of the loop over pseudo_env.
abbrev pub add_value : Str → Option Str → List Str → List Str
add_value key none envp = envp
add_value key (some x) envp = if any_starts key envp then envp else envp ++ named key x ∷ []

unfoldable pub add_variables : List Variable → List Str → List Str
add_variables [] envp = envp
add_variables (v ∷ vs) envp = add_variables vs (add_value v.key v.value envp)

unfoldable pub setupenvp : Str → List Variable → List Str → List Str
unfolding with_libpseudo
setupenvp libdir table envp = add_variables table (
    new_path libdir (last_entry is_path envp)
    ∷ new_libraries (last_entry is_libraries envp)
    ∷ reject is_prelink envp)

unfoldable pub dropenvp : List Str → List Str
unfolding without_libpseudo
dropenvp [] = []
dropenvp (e ∷ es) =
    let rest = dropenvp es in
    let dropped = without_libpseudo e in
    if is_libraries e
    then (if str_eq dropped libraries_entry then rest else dropped ∷ rest)
    else e ∷ rest

-- The environment of the process itself, as a function.
abbrev pub setenv : Str → Str → (Str → Option Str) → Str → Option Str
setenv key value env k = if str_eq key k then some value else env k

-- setenv, if there is something to set.
abbrev pub set_if : Option Str → Str → (Str → Option Str) → Str → Option Str
set_if none key env = env
set_if (some value) key env = setenv key value env

-- SETENV(key, value, 0) of a value that is set: an old value stays.
abbrev pub fresh_value : Option Str → Option Str → Option Str
fresh_value none value = value
fresh_value (some old) value = none

unfoldable pub set_variables : List Variable → (Str → Option Str) → Str → Option Str
set_variables [] env = env
set_variables (v ∷ vs) env = set_variables vs (set_if (fresh_value (env v.key) v.value) v.key env)

abbrev path_value : Str → Option Str → Option Str
path_value libdir none = some (both_dirs libdir)
path_value libdir (some old) =
    if contains libdir old then none else some (old ++ (b':' ∷ both_dirs libdir))

-- A variable that is not set counts as empty.
abbrev text : Option Str → Str
text none = []
text (some old) = old

abbrev pub set_path : Str → (Str → Option Str) → Str → Option Str
set_path libdir env = set_if (path_value libdir (env prelink_path)) prelink_path env

abbrev pub set_libraries : (Str → Option Str) → Str → Option Str
set_libraries env = setenv prelink_libraries (with_libpseudo (text (env prelink_libraries))) env

unfoldable pub setupenv : Str → List Variable → (Str → Option Str) → Str → Option Str
setupenv libdir table env = set_libraries (set_path libdir (set_variables table env))

abbrev dropped_value : Option Str → Option Str
dropped_value none = none
dropped_value (some old) = some (without_libpseudo old)

unfoldable pub dropenv : (Str → Option Str) → Str → Option Str
dropenv env = set_if (dropped_value (env prelink_libraries)) prelink_libraries env

-- execv, execvp and a child of fork; execve and posix_spawn.
unfoldable pub exec_env : Str → Variables → (Str → Option Str) → Str → Option Str
exec_env libdir s env =
    let ready = setupenv libdir s.table env in
    if has_unload ready [] s then dropenv ready else ready

unfoldable pub exec_envp : Str → Variables → (Str → Option Str) → List Str → List Str
exec_envp libdir s env envp =
    let ready = setupenvp libdir s.table envp in
    if has_unload env ready s then dropenvp ready else ready

abbrev trim : Str → Str
trim [] = []
trim (c ∷ s) = elim (trim s) [ [] ↦ if c == b'/' then [] else c ∷ [] | d ∷ t ↦ c ∷ d ∷ t ]

-- Without the slashes at the end of the prefix; a missing file leaves the prefix as it is.
unfoldable pub append_path : Str → Option Str → Str
append_path prefix none = prefix
append_path prefix (some file) = trim prefix ++ (b'/' ∷ file)

-- ===== src/Tests/Values.antt =====
-- Runs of the library's variables and of the modes of a query.
use pseudo.Prelude.{
  All, ◌≡◌, ◌+◌, refl, Option, none, some, [], ◌∷◌, Str, str_eq, if◌then◌else◌, false, arith,
}
use pseudo.Values.{Variables, lookup, set_value, get_value, init_util, load, put}
use pseudo.Log.Modes.{parse_mode_string}
use pseudo.Log.Printed.{types, print_mode, parse_mode_string-print_mode}

abbrev key_a : Str
key_a = b'A' ∷ []

abbrev key_b : Str
key_b = b'B' ∷ []

-- The environment has a value for B only.
abbrev environment : Str → Option Str
environment k = if str_eq k key_b then some (b'e' ∷ []) else none

abbrev variables : Variables
variables = record {
  loaded = false;
  table = record { key = key_a; value = none } ∷ record { key = key_b; value = none } ∷ [];
}

-- A variable that is unset while the environment has it comes back.
unset_comes_back :
    (get_value environment key_b (set_value environment key_b none variables).1).0
    ≡ some (b'e' ∷ [])
unfolding lookup init_util load put get_value set_value
unset_comes_back = refl

parse_mode_string-print_mode_example :
    (parse_mode_string (print_mode 0o4751) ≡ some 0o4751)
    × All (λ t. parse_mode_string (t.0 ∷ print_mode 0o4751) ≡ some (t.1 + 0o4751)) types
parse_mode_string-print_mode_example = parse_mode_string-print_mode 0o4751 (omega arith)

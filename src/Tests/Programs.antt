-- ===== src/Tests/Programs.antt =====
-- Runs of the ids and of the environment of a program.
use pseudo.Prelude.{
  ◌<◌, ◌≡◌, refl, inr, true, false, Option, none, some, List, [], ◌∷◌, ◌++◌, Str, str_eq,
  if◌then◌else◌, arith,
}
use pseudo.Values.{Variable, Variables, lookup, is_some, put, set_value}
use pseudo.Ids.State.{Ids, Process, pseudo_uids, pseudo_gids, touchuid, touchgid}
use pseudo.Ids.Calls.{Call, uid, gid, resuid, fsuid, call, run, all_ids, setgid, setresuid}
use pseudo.Ids.Startup.{init_ids}
use pseudo.Ids.Within.{Within, run-Within}
use pseudo.Ids.Inherited.{Noted, AllNote, Word, Fresh}
use pseudo.Ids.Executed.{init_ids-exec_env}
use pseudo.Environ.Preload.{regexec, match_words, libpseudo_name}
use pseudo.Environ.Setup.{dropenvp, exec_env, libraries_entry}
use pseudo.Environ.Handed.{Unique, or_else, exec_env-value}
use pseudo.Environ.Lost.{dropenvp-first}

abbrev no_env : Str → Option Str
no_env k = none

abbrev table : List Variable
table = record { key = pseudo_uids; value = none } ∷ record { key = pseudo_gids; value = none } ∷ []

-- The first process: root, with nothing noted.
abbrev root : Process
root = record { uids = all_ids 0; gids = all_ids 0; vars = record { loaded = true; table = table } }

abbrev started : Process
started = record {
  uids = all_ids 0;
  gids = all_ids 0;
  vars = record { loaded = false; table = table };
}

abbrev user : Ids
user = record { real = 1000; effective = 1000; saved = 1001; fs = 1000 }

-- A process that has given up root for two users.
abbrev plain_user : Process
plain_user = record root { uids = user; gids = all_ids 100 }

abbrev tries : List Call
tries = uid 0 ∷ resuid 1001 1001 1001 ∷ gid 0 ∷ fsuid 0 ∷ []

run-Within_example :
    Within (λ x. 0 < x) (run no_env tries plain_user).uids
    × Within (λ x. 0 < x) (run no_env tries plain_user).gids
run-Within_example =
    run-Within no_env (λ x. 0 < x) (λ x. 0 < x) (λ h. omega arith) tries plain_user
      record { real = omega arith; effective = omega arith; saved = omega arith; fs = omega arith }
      record { real = omega arith; effective = omega arith; saved = omega arith; fs = omega arith }

abbrev drops : List Call
drops = gid 100 ∷ resuid 1000 1000 1001 ∷ []

root-Noted : Noted root
unfolding lookup
root-Noted = record {
  loaded = refl;
  uids_value = none;
  uids_held = refl;
  uids_told = inr (refl, refl);
  gids_value = none;
  gids_held = refl;
  gids_told = inr (refl, refl);
}

started-Fresh : Fresh started
unfolding lookup
started-Fresh = record {
  loaded = refl;
  uids_known = refl;
  gids_known = refl;
  uids = refl;
  gids = refl;
}

drops-Word : Word (run no_env drops root).uids × Word (run no_env drops root).gids
unfolding run call setgid setresuid touchuid touchgid
drops-Word = (
  record { real = omega arith; effective = omega arith; saved = omega arith; fs = omega arith },
  record { real = omega arith; effective = omega arith; saved = omega arith; fs = omega arith },
)

drops-Unique : Unique (run no_env drops root).vars.table
unfolding run call setgid setresuid touchuid touchgid set_value put lookup
drops-Unique = (refl, (refl, tt))

drops-AllNote : AllNote drops
drops-AllNote = (refl, (refl, tt))

init_ids-exec_env_example :
    let q = run no_env drops root in
    let child_env = exec_env [] q.vars no_env in
    ((init_ids child_env started).gids ≡ record q.gids { fs = 0 })
    × ((init_ids child_env started).uids
        ≡ record q.uids { fs = if is_some (child_env pseudo_gids) then q.gids.fs else q.uids.fs })
init_ids-exec_env_example =
    init_ids-exec_env no_env no_env [] drops root started root-Noted drops-AllNote drops-Word.0
      drops-Word.1 drops-Unique refl refl started-Fresh

abbrev old_env : Str → Option Str
old_env k = if str_eq k pseudo_uids then some (b'0' ∷ []) else none

table-Unique : Unique table
unfolding lookup
table-Unique = (refl, (refl, tt))

-- The old value stays.
abbrev later : Variables
later = record {
  loaded = true;
  table = record { key = pseudo_uids; value = some (b'7' ∷ []) } ∷ [];
}

exec_env-value_example :
    exec_env [] later old_env pseudo_uids ≡ or_else (old_env pseudo_uids) (some (b'7' ∷ []))
unfolding lookup
exec_env-value_example = exec_env-value [] later old_env pseudo_uids (refl, tt) refl refl refl

abbrev lib_a : Str
lib_a = b'a' ∷ b'.' ∷ b's' ∷ b'o' ∷ []

abbrev given_envp : List Str
given_envp = (b'X' ∷ b'=' ∷ []) ∷ (libraries_entry ++ lib_a) ∷ libraries_entry ∷ []

dropenvp-first_example :
    (dropenvp ((libraries_entry ++ libpseudo_name) ∷ []) ≡ [] ∷ dropenvp [])
    × (dropenvp (((libraries_entry ++ libpseudo_name) ++ (b' ' ∷ lib_a)) ∷ [])
        ≡ lib_a ∷ dropenvp [])
unfolding regexec match_words
dropenvp-first_example =
    dropenvp-first libpseudo_name lib_a []
      (
        refl,
        (refl, (refl, (refl, (refl, (refl, (refl, (refl, (refl, (refl, (refl, (refl, tt))))))))))),
      )
      refl refl refl

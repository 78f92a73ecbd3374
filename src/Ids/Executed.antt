-- ===== src/Ids/Executed.antt =====
-- The ids of a program that execv runs: ports/common/guts/execv.c with pseudo_setupenv, then
-- pseudo_init_client in the new program.
use pseudo.Prelude.{◌≡◌, sym, ap, ◌∙◌, Option, none, some, List, Str, refl, if◌then◌else◌}
use pseudo.Values.{is_some}
use pseudo.Environ.Setup.{exec_env}
use pseudo.Environ.Handed.{Unique, or_else, exec_env-value}
use pseudo.Ids.State.{Process, pseudo_uids, pseudo_gids}
use pseudo.Ids.Calls.{Call, run}
use pseudo.Ids.Startup.{init_ids}
use pseudo.Ids.Inherited.{Noted, AllNote, Word, Fresh, run-Noted, init_ids-run}

module _ (getenv env : Str → Option Str) (libdir : Str) where
  -- A process whose ids are noted in its variables makes any calls of setuid, seteuid, setreuid,
  -- setresuid, setgid and setegid, and runs a program. If its own environment has neither PSEUDO_UIDS
  -- nor PSEUDO_GIDS, no key stands twice among the variables and its ids are below 2^32, the program
  -- starts with the same real, effective and saved uids and gids; its pseudo_fgid is 0, and its
  -- pseudo_fuid is the fgid of the process if PSEUDO_GIDS is set, and its fuid if not.
  pub init_ids-exec_env :
      (cs : List Call) (p c : Process)
      → Noted p
      → AllNote cs
      → Word (run getenv cs p).uids
      → Word (run getenv cs p).gids
      → Unique (run getenv cs p).vars.table
      → env pseudo_uids ≡ none
      → env pseudo_gids ≡ none
      → Fresh c
      → let q = run getenv cs p in
        let child_env = exec_env libdir q.vars env in
        ((init_ids child_env c).gids ≡ record q.gids { fs = 0 })
        × ((init_ids child_env c).uids ≡ record q.uids {
          fs = if is_some (child_env pseudo_gids) then q.gids.fs else q.uids.fs;
        })
  init_ids-exec_env cs p c n all wu wg unique nu ng f =
      let q = run getenv cs p in
      let noted = run-Noted getenv cs p all n in
      init_ids-run getenv (exec_env libdir q.vars env) cs p c n all wu wg
        (noted.uids_held
          ∙ ap some (
              sym (
                exec_env-value libdir q.vars env pseudo_uids unique noted.uids_held refl refl
                ∙ ap (λ o. or_else o noted.uids_value) nu)))
        (noted.gids_held
          ∙ ap some (
              sym (
                exec_env-value libdir q.vars env pseudo_gids unique noted.gids_held refl refl
                ∙ ap (λ o. or_else o noted.gids_value) ng)))
        f

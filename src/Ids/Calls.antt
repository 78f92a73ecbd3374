-- ===== src/Ids/Calls.antt =====
-- The calls that change the ids: ports/uids_generic/guts and ports/linux/guts. errno is left out.
use pseudo.Prelude.{
  ℕ, ◌==◌, Bool, not, ◌&&◌, ◌||◌, Option, List, [], ◌∷◌, Str, ℤ, pos, negsuc, if◌then◌else◌,
}
use pseudo.Ids.State.{Ids, Process, no_id, touchuid, touchgid}

abbrev pub is_root : Process → Bool
is_root p = p.uids.effective == 0

-- id == effective || id == real || id == saved
abbrev pub holds : Ids → ℕ → Bool
holds i id = id == i.effective || (id == i.real || id == i.saved)

-- The test of one argument: pseudo_euid != 0 && id != -1 && id != … && …
abbrev pub is_forbidden : Process → Ids → ℕ → Bool
is_forbidden p i id = not (is_root p) && (not (id == no_id) && not (holds i id))

-- if (id != (uid_t) -1) old = id
abbrev pub chosen : ℕ → ℕ → ℕ
chosen old id = if id == no_id then old else id

abbrev pub all_ids : ℕ → Ids
all_ids id = record { real = id; effective = id; saved = id; fs = id }

abbrev pub effective_only : ℕ → Ids → Ids
effective_only id i = record i { effective = id; fs = id }

abbrev pub denied : ℤ
denied = negsuc 0

abbrev pub three : ℕ → ℕ → ℕ → Ids → Ids
three r e s i = record {
  real = chosen i.real r;
  effective = chosen i.effective e;
  saved = chosen i.saved s;
  fs = chosen i.effective e;
}

abbrev pub two : ℕ → ℕ → Ids → Ids
two r e i = record i {
  real = chosen i.real r;
  effective = chosen i.effective e;
  fs = chosen i.effective e;
}

module _ (getenv : Str → Option Str) where
  unfoldable pub setuid : ℕ → Process → ℤ × Process
  setuid id p =
      if is_root p
      then (pos 0, touchuid getenv (record p { uids = all_ids id }))
      else if holds p.uids id
      then (pos 0, touchuid getenv (record p { uids = effective_only id p.uids }))
      else (denied, p)

  unfoldable pub setgid : ℕ → Process → ℤ × Process
  setgid id p =
      if is_root p
      then (pos 0, touchgid getenv (record p { gids = all_ids id }))
      else if holds p.gids id
      then (pos 0, touchgid getenv (record p { gids = effective_only id p.gids }))
      else (denied, p)

  unfoldable pub seteuid : ℕ → Process → ℤ × Process
  seteuid id p =
      if is_root p || holds p.uids id
      then (pos 0, touchuid getenv (record p { uids = effective_only id p.uids }))
      else (denied, p)

  unfoldable pub setegid : ℕ → Process → ℤ × Process
  setegid id p =
      if is_root p || holds p.gids id
      then (pos 0, touchgid getenv (record p { gids = effective_only id p.gids }))
      else (denied, p)

  unfoldable pub setreuid : ℕ → ℕ → Process → ℤ × Process
  setreuid r e p =
      if is_forbidden p p.uids r || is_forbidden p p.uids e
      then (denied, p)
      else (pos 0, touchuid getenv (record p { uids = two r e p.uids }))

  -- It notes the uids, not the gids.
  unfoldable pub setregid : ℕ → ℕ → Process → ℤ × Process
  setregid r e p =
      if is_forbidden p p.gids r || is_forbidden p p.gids e
      then (denied, p)
      else (pos 0, touchuid getenv (record p { gids = two r e p.gids }))

  unfoldable pub setresuid : ℕ → ℕ → ℕ → Process → ℤ × Process
  setresuid r e s p =
      if is_forbidden p p.uids r || (is_forbidden p p.uids e || is_forbidden p p.uids s)
      then (denied, p)
      else (pos 0, touchuid getenv (record p { uids = three r e s p.uids }))

  -- It notes the uids, not the gids.
  unfoldable pub setresgid : ℕ → ℕ → ℕ → Process → ℤ × Process
  setresgid r e s p =
      if is_forbidden p p.gids r || (is_forbidden p p.gids e || is_forbidden p p.gids s)
      then (denied, p)
      else (pos 0, touchuid getenv (record p { gids = three r e s p.gids }))

unfoldable pub setfsuid : ℕ → Process → ℤ × Process
setfsuid id p =
    if is_root p || holds p.uids id
    then (pos 0, record p { uids = record p.uids { fs = id } })
    else (denied, p)

unfoldable pub setfsgid : ℕ → Process → ℤ × Process
setfsgid id p =
    if is_root p || holds p.gids id
    then (pos 0, record p { gids = record p.gids { fs = id } })
    else (denied, p)

-- getuid, geteuid, getgid, getegid
unfoldable pub getuid : Process → ℕ
getuid p = p.uids.real

unfoldable pub geteuid : Process → ℕ
geteuid p = p.uids.effective

unfoldable pub getgid : Process → ℕ
getgid p = p.gids.real

unfoldable pub getegid : Process → ℕ
getegid p = p.gids.effective

-- The calls, as data for sequences of them.
pub data Call : Type 0 where
  uid euid gid egid fsuid fsgid : ℕ → Call
  reuid regid : ℕ → ℕ → Call
  resuid resgid : ℕ → ℕ → ℕ → Call

module _ (getenv : Str → Option Str) where
  unfoldable pub call : Call → Process → ℤ × Process
  call (uid a) p = setuid getenv a p
  call (euid a) p = seteuid getenv a p
  call (gid a) p = setgid getenv a p
  call (egid a) p = setegid getenv a p
  call (fsuid a) p = setfsuid a p
  call (fsgid a) p = setfsgid a p
  call (reuid a b) p = setreuid getenv a b p
  call (regid a b) p = setregid getenv a b p
  call (resuid a b c) p = setresuid getenv a b c p
  call (resgid a b c) p = setresgid getenv a b c p

  unfoldable pub run : List Call → Process → Process
  run [] p = p
  run (c ∷ cs) p = run cs (call c p).1

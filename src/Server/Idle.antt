-- ===== src/Server/Idle.antt =====
-- The end of the server.
use pseudo.Prelude.{
  ℕ, zero, suc, ◌-◌, ◌*◌, ◌≤◌, ◌<◌, ◌≡◌, refl, sym, inl, inr, Bool, true, false, List, [], ◌∷◌,
  replicate, leb, Bool-cases, Str, arith,
}
use mathlib.Core.Path.{subst}
use pseudo.Message.{Msg}
use pseudo.Db.Tables.{Sqlite}
use pseudo.Server.Loop.{
  Event, idle, Loop, Status, running, quit, broken, wait_for_clients, round, rounds,
}

leb-le : (a b : ℕ) → a ≤ b → leb a b ≡ true
leb-le a b h = ground arith

leb-gt : (a b : ℕ) → b < a → leb a b ≡ false
leb-gt a b h = ground arith

-- The server has exited.
abbrev pub Exited : Status → Type 0
Exited (running l) = ⊥
Exited (quit l) = Unit
Exited (broken l) = ⊥

module _ (sql : Sqlite) (held : Msg) (logging : Bool) (print : ℕ → Str) where
  rounds-quit :
      (events : List Event) (l : Loop) → rounds sql held logging print events (quit l) ≡ quit l
  unfolding rounds
  rounds-quit [] l = refl
  rounds-quit (e ∷ events) l = refl

  bored :
      (l : Loop)
      → l.server.table.active_clients ≡ 1
      → l.loop_timeout ≤ 2
      → Exited (round sql held logging print idle l)
  unfolding round wait_for_clients
  bored l one le = rw (one, leb-le l.loop_timeout 2 le) tt

  waits :
      (l : Loop)
      → l.server.table.active_clients ≡ 1
      → l.server.die_peacefully ≡ false
      → l.server.die_forcefully ≡ false
      → 2 < l.loop_timeout
      → round sql held logging print idle l
        ≡ running (record l { loop_timeout = l.loop_timeout - 2 })
  unfolding round wait_for_clients
  waits l one peace force lt = rw (one, leb-gt l.loop_timeout 2 lt, peace, force)

  Exited-rounds :
      (events : List Event) (s : Status)
      → Exited s
      → Exited (rounds sql held logging print events s)
  Exited-rounds events (running l) h = absurd h
  Exited-rounds events (quit l) h = rw rounds-quit tt
  Exited-rounds events (broken l) h = absurd h

  -- A server without clients that has not been told to end exits within n idle rounds of its loop,
  -- for each n of at least one for which 2 n, the seconds that they take, reaches the rest of the
  -- timeout.
  pub rounds-idle :
      (n : ℕ) (l : Loop)
      → l.server.table.active_clients ≡ 1
      → l.server.die_peacefully ≡ false
      → l.server.die_forcefully ≡ false
      → 1 ≤ n
      → l.loop_timeout ≤ 2 * n
      → Exited (rounds sql held logging print (replicate n idle) (running l))
  unfolding rounds
  rounds-idle zero l one peace force some_round enough = absurd (omega arith)
  rounds-idle (suc n) l one peace force some_round enough =
      elim (Bool-cases (leb l.loop_timeout 2)) [
        | inl e ↦ Exited-rounds (replicate n idle) _ (bored l one (ground (arith, e)))
        | inr e ↦
            subst (λ s. Exited (rounds sql held logging print (replicate n idle) s))
              (sym (waits l one peace force (ground (arith, e))))
              (rounds-idle n (record l { loop_timeout = l.loop_timeout - 2 }) one peace force
                (ground (arith, e)) (ground (arith, e)))
      ]

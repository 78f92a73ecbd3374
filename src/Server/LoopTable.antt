-- ===== src/Server/LoopTable.antt =====
-- The table of clients over the rounds of the server's loop.
use pseudo.Prelude.{
  ℕ, zero, suc, ◌<◌, ◌≡◌, ◌≢◌, refl, sym, ◌∙◌, Bool, true, false, ◌&&◌, ◌||◌, Option, none, some,
  List, [], ◌∷◌, get_elem?, set, ◌==◌, if◌then◌else◌, arith, Str, length-set, get_elem?-set_ne,
  eq_of_==, ne_of_==, Bool-cases, inl, inr,
}
use mathlib.Core.Path.{subst}
use pseudo.Message.{Msg}
use pseudo.Db.Tables.{Sqlite}
use pseudo.Server.Clients.{Client, Table, is_open, close_client}
use pseudo.Server.ClientTable.{IsValid, count_open-set, open_client-IsValid, close_client-IsValid}
use pseudo.Server.Serve.{
  Server, slot, slot_of, put_slot, registered, register, is_shutdown, is_ping, serve_client,
  shut_down, refuse_shutdown, answer_request,
}
use pseudo.Server.Loop.{
  Event, idle, signalled, select_failed, ready, Input, silent, hang_up, input, Door, closed,
  connected, too_many_files, accept_failed, Loop, Status, running, quit, broken, wait_for_clients,
  open_door, after_round, serve_slot, serve_slots, serve_ready, round, rounds,
}

abbrev pub loop_of : Status → Loop
loop_of (running l) = l
loop_of (quit l) = l
loop_of (broken l) = l

some-slot_of : (o : Option Client) → is_open (slot_of o) ≡ true → o ≡ some (slot_of o)
some-slot_of none h = cc
some-slot_of (some c) h = refl

open_slot :
    (i : ℕ) (t : Table) → is_open (slot i t) ≡ true → get_elem? t.clients i ≡ some (slot i t)
open_slot i t h = some-slot_of (get_elem? t.clients i) h

false-ne-true : false ≢ true
false-ne-true h = cc

put_slot-IsValid :
    (i : ℕ) (c : Client) (t : Table)
    → IsValid t
    → i ≢ 0
    → is_open (slot i t) ≡ true
    → is_open c ≡ true
    → IsValid (put_slot i c t)
put_slot-IsValid i c t v ne o k = record {
  active = ground (arith, v.active, count_open-set t.clients i (slot i t) c e, o, k);
  in_range = rw length-set v.in_range;
  above = λ j d g lt. v.above j d (unset j d g lt) lt;
  listening = (v.listening.0, get_elem?-set_ne t.clients i 0 c ne ∙ v.listening.1, v.listening.2);
}
  where
    e : get_elem? t.clients i ≡ some (slot i t)
    e = open_slot i t o

    unset :
        (j : ℕ) (d : Client)
        → get_elem? (set t.clients i c) j ≡ some d
        → t.highest_client < j
        → get_elem? t.clients j ≡ some d
    unset j d g lt = elim (Bool-cases (i == j)) [
      | inl q ↦ absurd (
          false-ne-true (
            sym
              (v.above i (slot i t) e (subst (λ x. t.highest_client < x) (sym (eq_of_== i j q)) lt))
            ∙ o))
      | inr q ↦ sym (get_elem?-set_ne t.clients i j c (ne_of_== i j q)) ∙ g
    ]

close-IsValid :
    (i : ℕ) (t : Table) → IsValid t → i ≢ 0 → is_open (slot i t) ≡ true → IsValid (close_client i t)
close-IsValid i t v ne o = (close_client-IsValid i (slot i t) t v ne (open_slot i t o) o).1

registered_open : (m : Msg) (c : Client) → is_open (registered m c) ≡ is_open c
registered_open m c = ground arith

register-IsValid :
    (i : ℕ) (m : Msg) (t : Table)
    → IsValid t
    → i ≢ 0
    → is_open (slot i t) ≡ true
    → IsValid (register i m t)
unfolding register
register-IsValid i m t v ne o = elim (Bool-cases (is_ping m.type && (slot i t).pid == 0)) [
  | inl e ↦
      rw e
        (put_slot-IsValid i (registered m (slot i t)) t v ne o (registered_open m (slot i t) ∙ o))
  | inr e ↦ rw e v
]

shut_down-table :
    (print : ℕ → Str) (i : ℕ) (m : Msg) (s : Server) → (shut_down print i m s).0.table ≡ s.table
unfolding shut_down refuse_shutdown
shut_down-table print i m s = ground arith

module _ (sql : Sqlite) (held : Msg) (logging : Bool) (print : ℕ → Str) where
  serve_client-IsValid :
      (i : ℕ) (m : Option Msg) (s : Server)
      → IsValid s.table
      → i ≢ 0
      → is_open (slot i s.table) ≡ true
      → IsValid (serve_client sql held logging print i m s).0.table
  unfolding serve_client answer_request
  serve_client-IsValid i none s v ne o = close-IsValid i s.table v ne o
  serve_client-IsValid i (some m) s v ne o = elim (Bool-cases (is_shutdown m.type)) [
    | inl e ↦
        rw (e, shut_down-table print i m (record s { table = register i m s.table }))
          (register-IsValid i m s.table v ne o)
    | inr e ↦ rw e (register-IsValid i m s.table v ne o)
  ]

  serve_slot-IsValid :
      (m : Input) (i : ℕ) (l : Loop)
      → IsValid l.server.table
      → i ≢ 0
      → is_open (slot i l.server.table) ≡ true
      → IsValid (serve_slot sql held logging print m i l).server.table
  unfolding serve_slot
  serve_slot-IsValid silent i l v ne o = elim (Bool-cases l.hit_max_files) [
    | inl e ↦ rw e (close-IsValid i l.server.table v ne o)
    | inr e ↦ rw e v
  ]
  serve_slot-IsValid hang_up i l v ne o = close-IsValid i l.server.table v ne o
  serve_slot-IsValid (input m) i l v ne o = serve_client-IsValid i m l.server v ne o

  next_slot-IsValid :
      (m : Input) (i : ℕ) (l : Loop)
      → IsValid l.server.table
      → i ≢ 0
      → IsValid
          (if is_open (slot i l.server.table)
            then serve_slot sql held logging print m i l
            else l).server.table
  next_slot-IsValid m i l v ne = elim (Bool-cases (is_open (slot i l.server.table))) [
    | inl e ↦ rw e (serve_slot-IsValid m i l v ne e)
    | inr e ↦ rw e v
  ]

  serve_slots-IsValid :
      (inputs : ℕ → Input) (count i : ℕ) (l : Loop)
      → IsValid l.server.table
      → i ≢ 0
      → IsValid (serve_slots sql held logging print inputs count i l).server.table
  unfolding serve_slots
  serve_slots-IsValid inputs zero i l v ne = v
  serve_slots-IsValid inputs (suc count) i l v ne =
      let now = next_slot-IsValid (inputs i) i l v ne in
      let later = serve_slots-IsValid inputs count (suc i) _ now (omega arith) in
      elim (Bool-cases (is_open (slot i l.server.table) && l.server.die_forcefully)) [
        | inl e ↦ rw e now
        | inr e ↦ rw e later
      ]

  open_door-IsValid :
      (door : Door) (enough : Bool) (l : Loop)
      → IsValid l.server.table
      → IsValid (open_door door enough l).server.table
  unfolding open_door
  open_door-IsValid closed enough l v = v
  open_door-IsValid (connected fd) enough l v = open_client-IsValid enough fd l.server.table v
  open_door-IsValid too_many_files enough l v = v
  open_door-IsValid accept_failed enough l v = v

  serve_ready-IsValid :
      (inputs : ℕ → Input) (door : Door) (enough : Bool) (l : Loop)
      → IsValid l.server.table
      → IsValid (serve_ready sql held logging print inputs door enough l).server.table
  unfolding serve_ready
  serve_ready-IsValid inputs door enough l v =
      let served =
        serve_slots sql held logging print inputs l.server.table.highest_client 1
          (record l { loop_timeout = l.server.timeout }) in
      let w =
        serve_slots-IsValid inputs l.server.table.highest_client 1
          (record l { loop_timeout = l.server.timeout }) v (omega arith) in
      elim (Bool-cases served.server.die_forcefully) [
        | inl e ↦ rw e w
        | inr e ↦ rw e (open_door-IsValid door enough (record served { hit_max_files = false }) w)
      ]

  after_round-loop : (l : Loop) → loop_of (after_round l) ≡ l
  after_round-loop l = elim (Bool-cases (l.server.die_peacefully || l.server.die_forcefully)) [
    | inl e ↦ rw e
    | inr e ↦ rw e
  ]

  wait_for_clients-table : (l : Loop) → (wait_for_clients l).server.table ≡ l.server.table
  unfolding wait_for_clients
  wait_for_clients-table l = ground arith

  round-IsValid :
      (e : Event) (l : Loop)
      → IsValid l.server.table
      → IsValid (loop_of (round sql held logging print e l)).server.table
  unfolding round
  round-IsValid idle l v = rw (after_round-loop (wait_for_clients l), wait_for_clients-table l) v
  round-IsValid signalled l v =
      let l' = record l { server = record l.server { die_forcefully = true } } in
      rw (after_round-loop (wait_for_clients l'), wait_for_clients-table l') v
  round-IsValid select_failed l v = v
  round-IsValid (ready inputs door enough) l v =
      rw (after_round-loop (serve_ready sql held logging print inputs door enough l))
        (serve_ready-IsValid inputs door enough l v)

  -- Whatever select, accept and the clients' messages are, a valid table of clients is valid after
  -- any rounds of the server's loop, in which clients connect, register, are served, hang up or
  -- are dropped, and stays so when the loop ends.
  pub rounds-IsValid :
      (events : List Event) (s : Status)
      → IsValid (loop_of s).server.table
      → IsValid (loop_of (rounds sql held logging print events s)).server.table
  unfolding rounds
  rounds-IsValid [] s v = v
  rounds-IsValid (e ∷ events) (running l) v =
      rounds-IsValid events (round sql held logging print e l) (round-IsValid e l v)
  rounds-IsValid (e ∷ events) (quit l) v = v
  rounds-IsValid (e ∷ events) (broken l) v = v

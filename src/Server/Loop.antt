-- ===== src/Server/Loop.antt =====
-- pseudo_server_loop of pseudo_server.c, the loop over select (PSEUDO_EPOLL is not defined): what it does
-- in a round is decided by what select and accept tell.
use pseudo.Prelude.{
  ℕ, zero, suc, ◌-◌, Bool, true, false, ◌&&◌, ◌||◌, Option, List, [], ◌∷◌, leb, ◌==◌, if◌then◌else◌,
  Str,
}
use pseudo.Message.{Msg}
use pseudo.Db.Tables.{Db, Sqlite}
use pseudo.Server.Clients.{Table, start, is_open, open_client, close_client}
use pseudo.Server.Serve.{Server, slot, serve_client}

-- LOOP_DELAY, the seconds that select waits, and DEFAULT_PSEUDO_SERVER_TIMEOUT
abbrev pub loop_delay : ℕ
loop_delay = 2

abbrev pub default_timeout : ℕ
default_timeout = 30

-- What select tells of a connected client: nothing, input of no bytes, or what is received from it.
pub data Input : Type 0 where
  silent : Input
  hang_up : Input
  input : Option Msg → Input

-- What select and accept tell of the listening socket; a descriptor 2 has been moved away already.
pub data Door : Type 0 where
  closed : Door
  connected : ℕ → Door
  too_many_files : Door
  accept_failed : Door

-- A round: a timeout or an interruption, one by a signal that ends the server, a failure of select, or
-- descriptors that are ready; `enough` tells whether malloc gives a larger table.
pub data Event : Type 0 where
  idle : Event
  signalled : Event
  select_failed : Event
  ready : (ℕ → Input) → Door → Bool → Event

pub record Loop : Type 0 where
  pub server : Server
  pub loop_timeout : ℕ
  pub hit_max_files : Bool

-- The loop goes on, the server has exited, or select has failed.
pub data Status : Type 0 where
  running : Loop → Status
  quit : Loop → Status
  broken : Loop → Status

abbrev pub with_clients : Table → Loop → Loop
with_clients t l = record l { server = record l.server { table = t } }

-- If there's no clients, start timing out. If there are active clients, never time out.
unfoldable pub wait_for_clients : Loop → Loop
wait_for_clients l =
    if l.server.table.active_clients == 1
    then (if leb l.loop_timeout loop_delay
        then record l {
          loop_timeout = l.loop_timeout - loop_delay;
          server = record l.server { die_peacefully = true };
        }
        else record l { loop_timeout = l.loop_timeout - loop_delay })
    else l

-- A new client cancels a shutdown; at the limit of open files a client is dropped in the next round.
unfoldable pub open_door : Door → Bool → Loop → Loop
open_door closed enough l = l
open_door (connected fd) enough l = record l {
  server = record l.server {
    table = (open_client enough fd l.server.table).1;
    timeout = default_timeout;
    die_peacefully = false;
  };
}
open_door too_many_files enough l = record l { hit_max_files = true }
open_door accept_failed enough l = l

-- The flags are looked at after each round.
abbrev pub after_round : Loop → Status
after_round l = if l.server.die_peacefully || l.server.die_forcefully then quit l else running l

module _ (sql : Sqlite) (held : Msg) (logging : Bool) (print : ℕ → Str) where
  unfoldable pub serve_slot : Input → ℕ → Loop → Loop
  serve_slot silent i l =
      if l.hit_max_files
      then record l {
        server = record l.server { table = close_client i l.server.table };
        hit_max_files = false;
      }
      else l
  serve_slot hang_up i l = with_clients (close_client i l.server.table) l
  serve_slot (input m) i l = record l {
    server = (serve_client sql held logging print i m l.server).0;
  }

  -- `for (i = from; i < from + count; ++i)`, which die_forcefully ends after a client
  unfoldable pub serve_slots : (ℕ → Input) → ℕ → ℕ → Loop → Loop
  serve_slots inputs zero i l = l
  serve_slots inputs (suc count) i l =
      let next = if is_open (slot i l.server.table) then serve_slot (inputs i) i l else l in
      let rest = serve_slots inputs count (suc i) next in
      if is_open (slot i l.server.table) && l.server.die_forcefully then next else rest

  unfoldable pub serve_ready : (ℕ → Input) → Door → Bool → Loop → Loop
  serve_ready inputs door enough l =
      let fresh = record l { loop_timeout = l.server.timeout } in
      let served = serve_slots inputs l.server.table.highest_client 1 fresh in
      let settled = record served { hit_max_files = false } in
      if settled.server.die_forcefully then settled else open_door door enough settled

  unfoldable pub round : Event → Loop → Status
  round idle l = after_round (wait_for_clients l)
  round signalled l =
      after_round
        (wait_for_clients (record l { server = record l.server { die_forcefully = true } }))
  round select_failed l = broken l
  round (ready inputs door enough) l = after_round (serve_ready inputs door enough l)

  -- Rounds until the loop ends.
  unfoldable pub rounds : List Event → Status → Status
  rounds [] s = s
  rounds (e ∷ events) (running l) = rounds events (round e l)
  rounds (e ∷ events) (quit l) = quit l
  rounds (e ∷ events) (broken l) = broken l

-- The loop as it starts, with the timeout that the server was started with.
unfoldable pub first_loop : ℕ → ℕ → ℕ → Db → Loop
first_loop listen_fd pid timeout db = record {
  server = record {
    table = start listen_fd pid;
    db = db;
    timeout = timeout;
    die_peacefully = false;
    die_forcefully = false;
  };
  loop_timeout = timeout;
  hit_max_files = false;
}

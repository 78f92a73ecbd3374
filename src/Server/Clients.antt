-- ===== src/Server/Clients.antt =====
-- The server's table of clients: open_client and close_client of pseudo_server.c, and the slot 0
-- that pseudo_server_loop gives to the listening socket.
use pseudo.Prelude.{
  ℕ, zero, suc, ◌+◌, ◌-◌, Bool, true, false, ◌||◌, Option, none, some, List, [], ◌∷◌, ◌++◌, length,
  get_elem?, set, replicate, ltb, ◌==◌, if◌then◌else◌, Str,
}

-- `pseudo_client_t`; `fd` is none for -1. The pid of a slot is 0 until its client has sent a ping.
pub record Client : Type 0 where
  pub fd : Option ℕ
  pub pid : ℕ
  pub tag : Option Str
  pub program : Option Str

-- `clients[]`, of length `max_clients`, with the counters of the file.
pub record Table : Type 0 where
  pub clients : List Client
  pub active_clients : ℕ
  pub highest_client : ℕ

abbrev pub free_slot : Client
free_slot = record { fd = none; pid = 0; tag = none; program = none }

abbrev pub new_client : ℕ → Client
new_client fd = record { fd = some fd; pid = 0; tag = none; program = none }

abbrev pub is_open : Client → Bool
is_open c = elim c.fd [ none ↦ false | some f ↦ true ]

-- The table as the server loop starts: slot 0 is the listening socket.
unfoldable pub start : ℕ → ℕ → Table
start listen_fd pid = record {
  clients =
      record { fd = some listen_fd; pid = pid; tag = none; program = none }
      ∷ replicate 15 free_slot;
  active_clients = 1;
  highest_client = 0;
}

abbrev pub next_slot : Option ℕ → Option ℕ
next_slot none = none
next_slot (some i) = some (suc i)

-- the first slot with fd == -1
unfoldable pub first_free : List Client → Option ℕ
first_free [] = none
first_free (c ∷ cs) = let rest = first_free cs in if is_open c then next_slot rest else some 0

-- `enough` tells whether malloc() gives the larger table. The result is the slot, 0 on failure.
open_in : Option ℕ → Bool → ℕ → Table → ℕ × Table
open_in (some i) enough fd t = (
  i,
  record {
    clients = set t.clients i (new_client fd);
    active_clients = t.active_clients + 1;
    highest_client = if ltb t.highest_client i then i else t.highest_client;
  },
)
open_in none enough fd t =
    if enough
    then (
      length t.clients,
      record {
        clients = t.clients ++ new_client fd ∷ replicate 15 free_slot;
        active_clients = t.active_clients + 1;
        highest_client = length t.clients + 1;
      },
    )
    else (0, t)

unfoldable pub open_client : Bool → ℕ → Table → ℕ × Table
unfolding open_in first_free
open_client enough fd t = open_in (first_free t.clients) enough fd t

abbrev slot_open : Option Client → Bool
slot_open none = false
slot_open (some c) = is_open c

-- `while (clients[highest].fd != -1 && highest > 0) --highest;`
unfoldable pub lower_highest : ℕ → List Client → ℕ
lower_highest zero cs = 0
lower_highest (suc h) cs =
    let rest = lower_highest h cs in if slot_open (get_elem? cs (suc h)) then rest else suc h

unfoldable pub close_client : ℕ → Table → Table
unfolding lower_highest
close_client client t =
    let closed = set t.clients client free_slot in
    if ltb t.highest_client client || client == 0 then t else record {
      clients = closed;
      active_clients = t.active_clients - 1;
      highest_client =
          if client == t.highest_client
          then lower_highest t.highest_client closed
          else t.highest_client;
    }

-- ===== src/Tests/Looping.antt =====
-- Runs of the server's loop: a client connects, shuts the server down, and goes.
use pseudo.Prelude.{ℕ, refl, some, List, [], ◌∷◌, Str, true, false, replicate, arith}
use pseudo.Message.{Msg, MsgType, Op}
use pseudo.Server.Clients.{start}
use pseudo.Server.ClientTable.{IsValid, start-IsValid}
use pseudo.Server.Loop.{
  Event, idle, ready, Input, hang_up, input, closed, connected, Loop, running, rounds, first_loop,
}
use pseudo.Server.LoopTable.{loop_of, rounds-IsValid}
use pseudo.Server.Idle.{Exited, rounds-idle}
use pseudo.Tests.Engine.{engine}
use pseudo.Tests.Data.{request, no_files, file_path}

abbrev some_message : Msg
some_message = request Op.stat file_path 5 6

abbrev digits : ℕ → Str
digits n = b'1' ∷ []

abbrev at_start : Loop
at_start = first_loop 7 99 30 no_files

abbrev shut_down_request : ℕ → Input
shut_down_request i = input (some (record some_message { type = MsgType.shutdown }))

abbrev goes : ℕ → Input
goes i = hang_up

abbrev events : List Event
events =
    ready goes (connected 8) true
    ∷ ready goes (connected 9) true
    ∷ ready shut_down_request closed true
    ∷ ready goes closed true
    ∷ idle
    ∷ []

rounds-idle_example :
    Exited (rounds engine some_message false digits (replicate 15 idle) (running at_start))
unfolding first_loop start
rounds-idle_example =
    rounds-idle engine some_message false digits 15 at_start refl refl refl (omega arith)
      (omega arith)

rounds-IsValid_example :
    IsValid
      (loop_of (rounds engine some_message false digits events (running at_start))).server.table
unfolding first_loop
rounds-IsValid_example =
    rounds-IsValid engine some_message false digits events (running at_start) (start-IsValid 7 99)

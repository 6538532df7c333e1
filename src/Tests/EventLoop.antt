-- ===== src/Tests/EventLoop.antt =====
-- A socket that is accepted, hangs up, and is accepted again.
use project_moon.Base.{
  ℕ, ◌<◌, ◌≡◌, ◌≢◌, refl, true, Option, none, some, List, [], ◌∷◌, arith, nat_eq, ok, Exec, pure,
}
use project_moon.Base.Dict.{lookup, emplace, erase}
use project_moon.Base.Text.{codes}
use project_moon.Net.Packet.{Packet}
use project_moon.Net.RequestContext.{IncomingPacket}
use project_moon.Net.TcpServer.{Connection}
use project_moon.Net.EventLoop.{
  EpollTcpServer, new_server, accepted, would_block, accept_connections, accept_one, new_connection,
  Event, listening, ready, close_connection, read_part, settle, handle_event, run,
}
use project_moon.Net.EventLoop.Table.{IsTable}
use project_moon.Net.EventLoop.Numbering.{run-IsTable, new_server-IsTable}

-- The handler answers nothing, and the disconnect handler keeps the ids that left.
abbrev silent : IncomingPacket → Exec (List ℕ) (Option Packet)
silent incoming = pure none

abbrev leave : ℕ → List ℕ → List ℕ
leave id gone = id ∷ gone

abbrev two_come : List Event
two_come =
    listening (
      accepted 7 true true (codes "10.0.0.1:4000")
      ∷ accepted 8 true true (codes "10.0.0.2:4000")
      ∷ would_block
      ∷ [])
    ∷ []

abbrev opened : EpollTcpServer
opened = record {
  connections =
      (
        7,
        record { id = 1; peer_address = codes "10.0.0.1:4000"; read_buffer = []; write_queue = [] },
      )
      ∷ (
        8,
        record { id = 2; peer_address = codes "10.0.0.2:4000"; read_buffer = []; write_queue = [] },
      )
      ∷ [];
  next_connection_id = 3;
}

opened_lem : run silent leave two_come new_server [] ≡ (ok (true, opened), [])
unfolding run handle_event accept_connections accept_one new_connection emplace lookup
opened_lem = refl

-- The first one hangs up, and its descriptor comes again.
abbrev reused : List Event
reused =
    ready 7 true none none
    ∷ listening (accepted 7 true true (codes "10.0.0.3:4000") ∷ would_block ∷ [])
    ∷ []

abbrev afterwards : EpollTcpServer
afterwards = record {
  connections =
      (
        8,
        record { id = 2; peer_address = codes "10.0.0.2:4000"; read_buffer = []; write_queue = [] },
      )
      ∷ (
        7,
        record { id = 3; peer_address = codes "10.0.0.3:4000"; read_buffer = []; write_queue = [] },
      )
      ∷ [];
  next_connection_id = 4;
}

afterwards_lem : run silent leave reused opened [] ≡ (ok (true, afterwards), 1 ∷ [])
unfolding run handle_event accept_connections accept_one new_connection close_connection settle
    read_part lookup emplace erase
afterwards_lem = refl

run-IsTable_example :
    IsTable afterwards
    × ((id : ℕ)
        → id < opened.next_connection_id
        → ((fd : ℕ) (c : Connection) → lookup fd opened.connections ≡ some c → c.id ≢ id)
        → (fd : ℕ) (c : Connection) → lookup fd afterwards.connections ≡ some c
        → c.id ≢ id)
run-IsTable_example =
    run-IsTable silent leave reused opened afterwards true [] (1 ∷ [])
      (run-IsTable silent leave two_come new_server opened true [] [] new_server-IsTable
        (omega arith) opened_lem).0
      (omega arith) afterwards_lem

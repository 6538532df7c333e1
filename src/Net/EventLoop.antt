-- ===== src/Net/EventLoop.antt =====
-- common/src/net/tcp_server.cpp: accepting, the loop of Run over the events of epoll, and closing.
-- What accept and the calls behind it come back with is given call by call; the sets of events that
-- are registered with epoll are not modelled.
pub mod Table
pub mod Ids
pub mod Numbering
use project_moon.Base.{
  ℕ, ◌+◌, ◌%◌, ◌^◌, Bool, true, false, not, Option, none, some, List, [], ◌∷◌, Bytes, nat_eq,
  if◌then◌else◌, Exec, pure, ◌>>=◌,
}
use project_moon.Base.Dict.{Dict, lookup, insert, emplace, erase}
use project_moon.Net.Packet.{Packet}
use project_moon.Net.RequestContext.{IncomingPacket}
use project_moon.Net.TcpServer.{Connection, Recv, Send, handle_read, flush}

-- `connections_` and `next_connection_id_`
pub record EpollTcpServer : Type 0 where
  pub connections : Dict ℕ Connection
  pub next_connection_id : ℕ

-- `EpollTcpServer()`
abbrev pub new_server : EpollTcpServer
new_server = record { connections = []; next_connection_id = 1 }

-- What one accept comes back with: a socket with whether it could be made non-blocking and
-- registered, and its peer's address; EAGAIN; or another error.
pub data Accepted : Type 0 where
  accepted : ℕ → Bool → Bool → Bytes → Accepted
  would_block : Accepted
  accept_failed : Accepted

-- The connection of a new socket
unfoldable pub new_connection : ℕ → Bytes → Connection
new_connection id peer_address = record {
  id = id;
  peer_address = peer_address;
  read_buffer = [];
  write_queue = [];
}

-- A socket that could be made non-blocking takes an id, and a place in the table if it could be
-- registered.
unfoldable pub accept_one : ℕ → Bool → Bytes → EpollTcpServer → EpollTcpServer
unfolding new_connection
accept_one fd registered peer_address server =
    let next : ℕ = (server.next_connection_id + 1) % 2 ^ 64 in
    if not registered then record server { next_connection_id = next } else record {
      connections =
          emplace fd (new_connection server.next_connection_id peer_address) server.connections;
      next_connection_id = next;
    }

-- AcceptConnections. A run whose list is used up has nothing more to accept.
unfoldable pub accept_connections : List Accepted → EpollTcpServer → Bool × EpollTcpServer
accept_connections [] server = (true, server)
accept_connections (would_block ∷ calls) server = (true, server)
accept_connections (accept_failed ∷ calls) server = (false, server)
accept_connections (accepted fd non_blocking registered peer_address ∷ calls) server =
    accept_connections calls
      (if not non_blocking then server else accept_one fd registered peer_address server)

-- An event of epoll_wait: the listening socket, with what accept comes back with, or a socket with
-- whether it hung up, what recv comes back with where it is readable, and, where it is writable, what
-- send comes back with and whether epoll_ctl works once the queue is empty; or an epoll_wait that
-- failed, other than by an interrupt.
pub data Event : Type 0 where
  listening : List Accepted → Event
  ready : ℕ → Bool → Option (List Recv) → Option (List Send × Bool) → Event
  wait_failed : Event

-- HandleWrite once the sending is over: with nothing left the socket is registered anew.
unfoldable pub written : Bool → List Bytes → Connection → Option Connection
written registered [] connection =
    if registered then some (record connection { write_queue = [] }) else none
written registered (front ∷ queue) connection =
    some (record connection { write_queue = front ∷ queue })

-- The part of the loop that writes
unfoldable pub write_part : Option (List Send × Bool) → Connection → Option Connection
unfolding written
write_part writable connection = elim writable [
  | none ↦ some connection
  | some (calls, registered) ↦ elim (flush calls connection.write_queue) [
    | none ↦ none
    | some queue ↦ written registered queue connection
  ]
]

module _ {W : Type 0} (packet_handler : IncomingPacket → Exec W (Option Packet)) where
  -- The part of the loop that reads: the connection afterwards, or `none` where it is to be closed
  unfoldable pub read_part : Bool → Option (List Recv) → Connection → Exec W (Option Connection)
  read_part hung_up readable connection = if hung_up then pure none else elim readable [
    | none ↦ pure (some connection)
    | some calls ↦ handle_read packet_handler calls connection
  ]

module _ {W : Type 0} (disconnect_handler : ℕ → W → W) where
  -- CloseConnection
  unfoldable pub close_connection : ℕ → EpollTcpServer → W → EpollTcpServer × W
  close_connection fd server w = elim (lookup fd server.connections) [
    | none ↦ (server, w)
    | some connection ↦ (
      record server { connections = erase fd server.connections },
      disconnect_handler connection.id w,
    )
  ]

  -- The connection back into the table, or closed
  unfoldable pub settle : ℕ → Option Connection → EpollTcpServer → Exec W EpollTcpServer
  unfolding close_connection
  settle fd none server w = let (server', w') = close_connection fd server w in pure server' w'
  settle fd (some connection) server w =
      pure (record server { connections = insert fd connection server.connections }) w

module _ {W : Type 0} (packet_handler : IncomingPacket → Exec W (Option Packet))
    (disconnect_handler : ℕ → W → W) where
  -- One event of Run: the server afterwards, and false where Run comes back with 1
  unfoldable pub handle_event : Event → EpollTcpServer → Exec W (Bool × EpollTcpServer)
  unfolding read_part write_part settle accept_connections
  handle_event wait_failed server = pure (false, server)
  handle_event (listening calls) server = pure (accept_connections calls server)
  handle_event (ready fd hung_up readable writable) server = elim (lookup fd server.connections) [
    | none ↦ pure (true, server)
    | some connection ↦ do
      kept ← read_part packet_handler hung_up readable connection
      after ←
          settle disconnect_handler fd (elim kept [ none ↦ none | some c ↦ write_part writable c ])
            server
      pure (true, after)
  ]

  -- The loop of Run over the events that come; an exception of the handler leaves it.
  unfoldable pub run : List Event → EpollTcpServer → Exec W (Bool × EpollTcpServer)
  run [] server = pure (true, server)
  run (event ∷ events) server = do
    (good, after) ← handle_event event server
    (if good then run events after else pure (false, after))

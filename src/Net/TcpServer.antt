-- ===== src/Net/TcpServer.antt =====
-- common/src/net/tcp_server.cpp: one connection's reading, queueing and writing. The sockets are
-- not modelled: what recv and send come back with, call by call, is a list that the run is given.
pub mod Framing
pub mod Writing
use project_moon.Base.{
  ℕ, zero, suc, Bool, true, false, Option, none, some, List, [], ◌∷◌, ◌++◌, Bytes, length, drop,
  ◌==◌, nat_eq, if◌then◌else◌, Exec, pure, ◌>>=◌,
}
use project_moon.Net.Packet.{Packet, encode_packet, try_extract_packet}
use project_moon.Net.RequestContext.{IncomingPacket}

pub record Connection : Type 0 where
  pub id : ℕ
  pub peer_address : Bytes
  pub read_buffer : Bytes
  pub write_queue : List Bytes

-- What one recv comes back with; `would_block` is EAGAIN, `interrupted` EINTR.
pub data Recv : Type 0 where
  bytes : Bytes → Recv
  closed would_block interrupted broken : Recv

-- The first loop of HandleRead: the buffer afterwards, or `none` where the connection ends. A run
-- whose list is used up has had nothing more to read.
unfoldable pub receive : List Recv → Bytes → Option Bytes
receive [] read_buffer = some read_buffer
receive (bytes s ∷ calls) read_buffer = receive calls (read_buffer ++ s)
receive (interrupted ∷ calls) read_buffer = receive calls read_buffer
receive (would_block ∷ calls) read_buffer = some read_buffer
receive (closed ∷ calls) read_buffer = none
receive (broken ∷ calls) read_buffer = none

-- The second loop of HandleRead, without the handler: the packets that come out and what stays in
-- the buffer. Every packet takes at least its header, so the buffer's length is fuel enough.
unfoldable pub drain : ℕ → Bytes → List Packet × Bytes
drain zero read_buffer = ([], read_buffer)
drain (suc fuel) read_buffer =
    let (rest, found) = try_extract_packet read_buffer in
    let (packets, last) = drain fuel rest in
    elim found [ none ↦ ([], rest) | some packet ↦ (packet ∷ packets, last) ]

-- QueueResponse, without the change of the epoll events.
unfoldable pub queue_response : Packet → Connection → Connection
queue_response packet connection = record connection {
  write_queue = connection.write_queue ++ (encode_packet packet.header packet.body ∷ []);
}

-- The handler on every packet in turn, its answer queued.
unfoldable pub dispatch :
    {W : Type 0}
    → (IncomingPacket → Exec W (Option Packet))
    → List Packet
    → Connection
    → Exec W Connection
dispatch packet_handler [] connection = pure connection
dispatch packet_handler (packet ∷ packets) connection = do
  response ← packet_handler (record {
    connection_id = connection.id;
    packet = packet;
    peer_address = connection.peer_address;
  })
  dispatch packet_handler packets
      (elim response [ none ↦ connection | some answer ↦ queue_response answer connection ])

-- HandleRead: the connection afterwards, or `none` where it is to be closed.
unfoldable pub handle_read :
    {W : Type 0}
    → (IncomingPacket → Exec W (Option Packet))
    → List Recv
    → Connection
    → Exec W (Option Connection)
handle_read packet_handler calls connection = elim (receive calls connection.read_buffer) [
  | none ↦ pure none
  | some read_buffer ↦ do
    let (packets, rest) = drain (suc (length read_buffer)) read_buffer
    after ← dispatch packet_handler packets (record connection { read_buffer = rest })
    pure (some after)
]

-- What one send comes back with: the number of bytes that were taken, or why none were.
pub data Send : Type 0 where
  taken : ℕ → Send
  would_block interrupted broken : Send

-- HandleWrite: the write queue afterwards, or `none` where the connection is to be closed. A run
-- whose list is used up has no more sends.
unfoldable pub flush : List Send → List Bytes → Option (List Bytes)
flush calls [] = some []
flush [] (current ∷ queue) = some (current ∷ queue)
flush (Send.would_block ∷ calls) (current ∷ queue) = some (current ∷ queue)
flush (Send.interrupted ∷ calls) (current ∷ queue) = flush calls (current ∷ queue)
flush (Send.broken ∷ calls) (current ∷ queue) = none
flush (taken n ∷ calls) (current ∷ queue) =
    let next = flush calls queue in
    if n == length current then next else some (drop n current ∷ queue)

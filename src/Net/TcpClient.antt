-- ===== src/Net/TcpClient.antt =====
-- common/src/net/tcp_client.cpp: PersistentTcpClient, under its mutex. The sockets are not modelled:
-- what the calls come back with, one by one, is given to a run. A run whose list is used up has not
-- come back yet: that is `none`.
pub mod Reading
pub mod Sockets
use project_moon.Base.{
  ℕ, Bool, true, false, Option, none, some, List, [], ◌∷◌, ◌++◌, Bytes, take, drop, ℤ, pos,
  if◌then◌else◌,
}
use project_moon.Base.Text.{codes}
use project_moon.Base.Decimal.{to_string}
use project_moon.Base.Calls.{Result, done, failed}
use project_moon.Net.Packet.{Packet, encode_packet, try_extract_packet}

-- What poll comes back with: `ready bad` with whether one of the error bits is set, or the message
-- of errno.
pub data Poll : Type 0 where
  ready : Bool → Poll
  timed_out : Poll
  poll_failed : Bytes → Poll

-- WaitForEvent: the message where it is false.
unfoldable pub wait_for_event : Poll → Option Bytes
wait_for_event (ready bad) = if bad then some (codes "socket error") else none
wait_for_event timed_out = some (codes "timeout")
wait_for_event (poll_failed m) = some m

-- What send comes back with: how many bytes were taken, EINTR, or the message of errno.
pub data Sending : Type 0 where
  taken : ℕ → Sending
  interrupted : Sending
  send_failed : Bytes → Sending

-- The loop of WritePacket, on what is not written yet: the bytes that were taken, and the result.
unfoldable pub write_rest : List (Poll × Sending) → Bytes → Bytes × Option (Result (Unit {0}))
write_rest calls [] = ([], some (done tt))
write_rest [] (c ∷ rest) = ([], none)
write_rest ((poll, taken n) ∷ calls) (c ∷ rest) =
    let (sent, result) = write_rest calls (drop n (c ∷ rest)) in
    elim (wait_for_event poll) [
      | some m ↦ ([], some (failed m))
      | none ↦ (take n (c ∷ rest) ++ sent, result)
    ]
write_rest ((poll, interrupted) ∷ calls) (c ∷ rest) =
    let later = write_rest calls (c ∷ rest) in
    elim (wait_for_event poll) [ some m ↦ ([], some (failed m)) | none ↦ later ]
write_rest ((poll, send_failed m) ∷ calls) (c ∷ rest) = elim (wait_for_event poll) [
  | some waited ↦ ([], some (failed waited))
  | none ↦ ([], some (failed m))
]

unfoldable pub write_packet : List (Poll × Sending) → Packet → Bytes × Option (Result (Unit {0}))
unfolding write_rest wait_for_event
write_packet calls request = write_rest calls (encode_packet request.header request.body)

-- What recv comes back with: some bytes, the end of the stream, EINTR, or the message of errno.
pub data Receiving : Type 0 where
  bytes : Bytes → Receiving
  closed : Receiving
  interrupted : Receiving
  recv_failed : Bytes → Receiving

-- The loop of ReadPacket on its buffer.
unfoldable pub read_into : List (Poll × Receiving) → Bytes → Option (Result Packet)
read_into [] buffer = elim (try_extract_packet buffer).1 [
  | some packet ↦ some (done packet)
  | none ↦ none
]
read_into ((poll, bytes s) ∷ calls) buffer =
    let (rest, found) = try_extract_packet buffer in
    let later = read_into calls (rest ++ s) in
    elim found [
      | some packet ↦ some (done packet)
      | none ↦ elim (wait_for_event poll) [ some m ↦ some (failed m) | none ↦ later ]
    ]
read_into ((poll, Receiving.interrupted) ∷ calls) buffer =
    let (rest, found) = try_extract_packet buffer in
    let later = read_into calls rest in
    elim found [
      | some packet ↦ some (done packet)
      | none ↦ elim (wait_for_event poll) [ some m ↦ some (failed m) | none ↦ later ]
    ]
read_into ((poll, closed) ∷ calls) buffer = elim (try_extract_packet buffer).1 [
  | some packet ↦ some (done packet)
  | none ↦ elim (wait_for_event poll) [
    | some m ↦ some (failed m)
    | none ↦ some (failed (codes "peer closed connection"))
  ]
]
read_into ((poll, recv_failed m) ∷ calls) buffer = elim (try_extract_packet buffer).1 [
  | some packet ↦ some (done packet)
  | none ↦ elim (wait_for_event poll) [
    | some waited ↦ some (failed waited)
    | none ↦ some (failed m)
  ]
]

unfoldable pub read_packet : List (Poll × Receiving) → Option (Result Packet)
unfolding read_into wait_for_event
read_packet calls = read_into calls []

-- The loop of Connect over the addresses, each with the socket that is made for it and whether
-- connect goes well: the socket that is kept, and those that are closed.
unfoldable pub try_addresses : List (Option ℕ × Bool) → Option ℕ × List ℕ
try_addresses [] = (none, [])
try_addresses ((none, _) ∷ results) = try_addresses results
try_addresses ((some fd, connected) ∷ results) =
    let (kept, shut) = try_addresses results in
    if connected then (some fd, []) else (kept, fd ∷ shut)

-- The calls of one SendAndReceive: what getaddrinfo finds, `none` where it fails, and the results
-- of the calls in the two loops.
pub record Calls : Type 0 where
  pub addresses : Option (List (Option ℕ × Bool))
  pub writes : List (Poll × Sending)
  pub reads : List (Poll × Receiving)

pub record PersistentTcpClient : Type 0 where
  pub host : Bytes
  pub port : ℤ
  pub socket_fd : Option ℕ

-- What a run leaves: the client, the sockets that were closed in it, the bytes that were sent, and
-- the result.
pub record Exchange : Type 0 where
  pub client : PersistentTcpClient
  pub shut : List ℕ
  pub sent : Bytes
  pub result : Option (Result Packet)

-- The messages of Connect
unfoldable pub getaddrinfo_failed : PersistentTcpClient → Bytes
getaddrinfo_failed client =
    codes "getaddrinfo failed for " ++ (client.host ++ b':' ∷ to_string client.port)

unfoldable pub connect_failed : PersistentTcpClient → Bytes
connect_failed client = codes "connect failed to " ++ (client.host ++ b':' ∷ to_string client.port)

-- EnsureConnected with Connect: the client, the sockets closed, and the message where it is false.
unfoldable pub ensure_connected :
    Option (List (Option ℕ × Bool))
    → PersistentTcpClient
    → PersistentTcpClient × List ℕ × Option Bytes
unfolding try_addresses
ensure_connected addresses client = elim client.socket_fd [
  | some fd ↦ (client, [], none)
  | none ↦ elim addresses [
    | none ↦ (client, [], some (getaddrinfo_failed client))
    | some results ↦
        let (kept, shut) = try_addresses results in
        elim kept [
          | some fd ↦ (record client { socket_fd = some fd }, shut, none)
          | none ↦ (client, shut, some (connect_failed client))
        ]
  ]
]

-- Close: the client and the socket that is closed.
unfoldable pub close : PersistentTcpClient → PersistentTcpClient × List ℕ
close client = elim client.socket_fd [
  | none ↦ (client, [])
  | some fd ↦ (record client { socket_fd = none }, fd ∷ [])
]

-- An end of the run behind EnsureConnected: a failure closes the socket.
end_with : PersistentTcpClient → List ℕ → Bytes → Option (Result Packet) → Exchange
unfolding close
end_with client shut sent result =
    let over : Exchange = record { client = client; shut = shut; sent = sent; result = result } in
    elim result [
      | none ↦ over
      | some r ↦ elim r [
        | done packet ↦ over
        | failed m ↦ record over { client = (close client).0; shut = shut ++ (close client).1 }
      ]
    ]

-- SendAndReceive, from what EnsureConnected, WritePacket and ReadPacket come back with
carry_on :
    PersistentTcpClient × List ℕ × Option Bytes
    → Bytes × Option (Result (Unit {0}))
    → Option (Result Packet)
    → Exchange
unfolding end_with
carry_on (client, shut, some m) written response = record {
  client = client;
  shut = shut;
  sent = [];
  result = some (failed m);
}
carry_on (client, shut, none) (sent, none) response = end_with client shut sent none
carry_on (client, shut, none) (sent, some (failed m)) response =
    end_with client shut sent (some (failed m))
carry_on (client, shut, none) (sent, some (done u)) response = end_with client shut sent response

unfoldable pub send_and_receive : Packet → Calls → PersistentTcpClient → Exchange
unfolding carry_on
send_and_receive request calls client =
    carry_on (ensure_connected calls.addresses client) (write_packet calls.writes request)
      (read_packet calls.reads)

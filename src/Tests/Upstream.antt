-- ===== src/Tests/Upstream.antt =====
-- The client of an upstream server, and the pool of clients.
use project_moon.Base.{
  ℕ, ◌+◌, ◌%◌, ◌^◌, ◌<◌, ◌≡◌, ◌≢◌, refl, true, false, Option, none, some, List, [], ◌∷◌, ◌++◌,
  Bytes, arith, length, get_elem?, set, pos, take, drop,
}
use project_moon.Base.Text.{codes}
use project_moon.Base.Calls.{done, failed}
use project_moon.Net.Packet.{
  Packet, encode_packet, store_header, store32, store64, try_extract_packet,
}
use project_moon.Net.TcpClient.{
  Poll, ready, timed_out, Sending, taken, interrupted, bytes, Calls, PersistentTcpClient, Exchange,
  write_packet, read_packet, send_and_receive, ensure_connected,
}
use project_moon.Net.TcpClient.Reading.{write_packet_sent, rounds, brought, read_packet-frame}
use project_moon.Net.TcpClient.Sockets.{made_by, held, send_and_receive_sockets}
use project_moon.Net.Upstream.{UpstreamClientPool, make_pool, index_of, send_on_pool}
use project_moon.Net.Upstream.Turns.{
  make_pool-IsFilled, send_on_pool_one, run_calls, every_client_has_its_turn,
}
use project_moon.Tests.Net.{header, body, packet, framed}

-- The packet in two parts, with an interruption between them and another text behind.
abbrev reads : List (Option Bytes)
reads =
    some (take 10 (encode_packet header body))
    ∷ none
    ∷ some (drop 10 (encode_packet header body) ++ codes "next")
    ∷ []

reads_lem : brought reads ≡ encode_packet header body ++ codes "next"
unfolding encode_packet store_header store32 store64
reads_lem = refl

read_packet-frame_example : read_packet (rounds reads) ≡ some (done packet)
read_packet-frame_example = read_packet-frame packet (codes "next") framed reads reads_lem

abbrev writes : List (Poll × Sending)
writes = (ready false, taken 20) ∷ (ready false, interrupted) ∷ (ready false, taken 6) ∷ []

all_written : write_packet writes packet ≡ (encode_packet header body, some (done tt))
unfolding write_packet encode_packet store_header store32 store64
all_written = refl

write_packet_sent_example :
    ((rest : Bytes) × (encode_packet header body ++ rest ≡ encode_packet header body))
    × ((u : Unit {0})
        → some (done tt) ≡ some (done u)
        → encode_packet header body ≡ encode_packet header body)
write_packet_sent_example =
    write_packet_sent writes packet (encode_packet header body) (some (done tt)) all_written

-- The first address refuses, the second accepts; the answer does not come in time.
abbrev calls : Calls
calls = record {
  addresses = some ((some 7, false) ∷ (some 8, true) ∷ []);
  writes = writes;
  reads = (timed_out, bytes []) ∷ [];
}

abbrev client : PersistentTcpClient
client = record { host = codes "localhost"; port = pos 7000; socket_fd = none }

abbrev timed : Exchange
timed = record {
  client = client;
  shut = 7 ∷ 8 ∷ [];
  sent = encode_packet header body;
  result = some (failed (codes "timeout"));
}

times_out : send_and_receive packet calls client ≡ timed
unfolding send_and_receive ensure_connected write_packet read_packet encode_packet store_header
    store32 store64 try_extract_packet
times_out = refl

send_and_receive_sockets_example :
    ((m : Bytes) → timed.result ≡ some (failed m) → client.socket_fd ≡ none)
    × ((p : Packet) → timed.result ≡ some (done p) → client.socket_fd ≢ none)
    × (held client.socket_fd ++ made_by calls client ≡ timed.shut ++ held client.socket_fd)
send_and_receive_sockets_example = send_and_receive_sockets packet calls client timed times_out

abbrev pool : UpstreamClientPool
pool = make_pool (codes "localhost") (pos 7000) (pos 2)

send_on_pool_one_example :
    (index_of pool < length pool.clients)
    × (c : PersistentTcpClient) × (get_elem? pool.clients (index_of pool) ≡ some c)
    × (send_on_pool packet calls pool ≡ (
      record {
        clients = set pool.clients (index_of pool) (send_and_receive packet calls c).client;
        next_index = (pool.next_index + 1) % 2 ^ 64;
      },
      (send_and_receive packet calls c).result,
    ))
send_on_pool_one_example =
    send_on_pool_one packet calls pool (make_pool-IsFilled (codes "localhost") (pos 7000) (pos 2))

abbrev requests : List (Packet × Calls)
requests = (packet, calls) ∷ (packet, calls) ∷ []

every_client_has_its_turn_example :
    (j : ℕ) × (p : Packet) × (cs : Calls) × (c : PersistentTcpClient) × (get_elem? requests j
      ≡ some (p, cs))
    × (get_elem? (run_calls (take j requests) pool).clients 1 ≡ some c)
    × (send_on_pool p cs (run_calls (take j requests) pool) ≡ (
      record {
        clients = set (run_calls (take j requests) pool).clients 1 (send_and_receive p cs c).client;
        next_index = ((run_calls (take j requests) pool).next_index + 1) % 2 ^ 64;
      },
      (send_and_receive p cs c).result,
    ))
unfolding make_pool
every_client_has_its_turn_example =
    every_client_has_its_turn requests pool 1
      (make_pool-IsFilled (codes "localhost") (pos 7000) (pos 2)) refl (omega arith) (omega arith)

-- ===== src/Net/TcpServer/Framing.antt =====
-- A stream of encoded packets comes apart into the packets, however it was cut into reads.
use project_moon.Base.{
  append_nil, append_assoc, concat, ℕ, zero, suc, ◌≤◌, ◌<◌, ◌≡◌, sym, ap, ◌∙◌, Option, none, some,
  List, [], ◌∷◌, ◌++◌, arith, Bytes, length, length-append, All, map, Exec, pure, ◌>>=◌,
}
use project_moon.Net.Packet.{Packet, encode_packet, try_extract_packet}
use project_moon.Net.Packet.Laws.{IsFramed, try_extract_packet-encode_packet, length-encode_packet}
use project_moon.Net.TcpServer.{bytes, Connection, receive, drain, dispatch, handle_read}
use project_moon.Net.RequestContext.{IncomingPacket}

-- The bytes of a sequence of packets.
unfoldable pub stream : List Packet → Bytes
stream [] = []
stream (p ∷ packets) = encode_packet p.header p.body ++ stream packets

short_tail : (tail : Bytes) → length tail < 24 → try_extract_packet tail ≡ (tail, none)
unfolding try_extract_packet
short_tail tail short = ground (arith, short)

-- Every packet takes room.
length-stream : (packets : List Packet) → length packets ≤ length (stream packets)
unfolding stream
length-stream [] = omega arith
length-stream (p ∷ packets) = omega (
  arith,
  length-stream packets,
  length-append (encode_packet p.header p.body) (stream packets),
  length-encode_packet p.header p.body,
)

receive-bytes :
    (chunks : List Bytes) (read_buffer : Bytes)
    → receive (map bytes chunks) read_buffer ≡ some (read_buffer ++ concat chunks)
unfolding receive
receive-bytes [] read_buffer = ap some (sym (append_nil read_buffer))
receive-bytes (s ∷ chunks) read_buffer =
    receive-bytes chunks (read_buffer ++ s) ∙ ap some (append_assoc read_buffer s (concat chunks))

drain_one :
    (fuel : ℕ) (read_buffer rest : Bytes) (p : Packet)
    → try_extract_packet read_buffer ≡ (rest, some p)
    → drain (suc fuel) read_buffer ≡ (p ∷ (drain fuel rest).0, (drain fuel rest).1)
unfolding drain
drain_one fuel read_buffer rest p e =
    ap
      (λ r. elim r.1 [
        | none ↦ ([], r.0)
        | some packet ↦ (packet ∷ (drain fuel r.0).0, (drain fuel r.0).1)
      ])
      e

-- Packets in front of a tail that is too short for a header are all found, and the tail stays,
-- with any fuel that is larger than the number of packets.
drain-stream :
    (fuel : ℕ) (packets : List Packet) (tail : Bytes)
    → All (λ p. IsFramed p.header p.body) packets
    → length tail < 24
    → length packets < fuel
    → drain fuel (stream packets ++ tail) ≡ (packets, tail)
unfolding drain stream
drain-stream zero packets tail framed short enough = absurd (omega (arith, enough))
drain-stream (suc fuel) [] tail framed short enough =
    rw (drain, stream, short_tail tail short) (ap (λ r. ([], r.0)) (short_tail tail short))
drain-stream (suc fuel) (p ∷ packets) tail framed short enough =
    ap (λ s. drain (suc fuel) s)
      (append_assoc (encode_packet p.header p.body) (stream packets) tail)
    ∙ (drain_one fuel _ (stream packets ++ tail) p
          (try_extract_packet-encode_packet p.header p.body (stream packets ++ tail) framed.0)
        ∙ ap (λ r. (p ∷ r.0, r.1))
            (drain-stream fuel packets tail framed.1 short (omega (arith, enough))))

-- Reads that, behind what is in the buffer, bring well-framed encoded packets and a tail that is too short for a header hand exactly
-- these packets to the handler, in their order, wherever the stream was cut, and keep the tail.
pub handle_read-stream :
    {W : Type 0} (packet_handler : IncomingPacket → Exec W (Option Packet))
    (connection : Connection) (chunks : List Bytes) (packets : List Packet) (tail : Bytes)
    → All (λ p. IsFramed p.header p.body) packets
    → length tail < 24
    → connection.read_buffer ++ concat chunks ≡ stream packets ++ tail
    → handle_read packet_handler (map bytes chunks) connection ≡ (do
      after ← dispatch packet_handler packets (record connection { read_buffer = tail })
      pure (some after))
unfolding handle_read
handle_read-stream packet_handler connection chunks packets tail framed short same = rw (
  handle_read,
  receive-bytes chunks connection.read_buffer,
  same,
  drain-stream (suc (length (stream packets ++ tail))) packets tail framed short
      (omega (arith, length-append (stream packets) tail, length-stream packets)),
)

-- ===== src/Tests/Net.antt =====
-- Packets, the stream of a connection, and texts.
use project_moon.Base.{
  ◌≡◌, refl, Bool, true, false, concat, Option, some, List, [], ◌∷◌, ◌++◌, map, Bytes, ℤ, pos, ok,
  Exec, pure, ◌>>=◌, ◌==◌, bytes_eq, arith,
}
use project_moon.Base.Text.{codes, is_empty}
use project_moon.Base.Decimal.{to_string}
use project_moon.Model.{PlayerDungeonProgress}
use project_moon.Net.Packet.{
  PacketHeader, Packet, default_header, store_header, store32, store64, encode_packet,
  try_extract_packet,
}
use project_moon.Net.Packet.Laws.{IsFramed, try_extract_packet-encode_packet}
use project_moon.Net.RequestContext.{IncomingPacket}
use project_moon.Net.TcpServer.{Connection, bytes, taken, flush, dispatch, handle_read}
use project_moon.Net.TcpServer.Framing.{stream, handle_read-stream}
use project_moon.Net.TcpServer.Writing.{sent, sent-flush}
use project_moon.Player.Progress.{serialize_progress, parse_progress}
use project_moon.Player.Progress.RoundTrip.{parse_progress-serialize_progress}
use project_moon.Session.SessionId.{make_session_id_account}
use project_moon.Security.{to_hex, from_hex, hash_password, build_encoded_hash, verify_password}
use project_moon.Security.Laws.{AreBytes, from_hex-to_hex, verify_password-build_encoded_hash}

abbrev pub header : PacketHeader
header = record default_header { msg_id = 1001; body_len = 2; request_id = 77 }

abbrev pub body : Bytes
body = codes "hi"

pub framed : IsFramed header body
framed = record {
  magic_right = refl;
  version_fits = omega arith;
  msg_id_fits = omega arith;
  body_len_fits = omega arith;
  request_id_fits = omega arith;
  body_len_right = refl;
}

try_extract_packet-encode_packet_example :
    try_extract_packet (encode_packet header body ++ codes "next")
    ≡ (codes "next", some (record { header = header; body = body }))
try_extract_packet-encode_packet_example =
    try_extract_packet-encode_packet header body (codes "next") framed

abbrev pub packet : Packet
packet = record { header = header; body = body }

abbrev connection : Connection
connection = record {
  id = 5;
  peer_address = codes "10.0.0.1:4000";
  read_buffer = [];
  write_queue = [];
}

-- The handler sends every packet back.
abbrev echo : IncomingPacket → Exec Bool (Option Packet)
echo incoming = pure (some incoming.packet)

abbrev chunks : List Bytes
chunks = encode_packet header body ∷ (encode_packet header body ++ codes "tail") ∷ []

chunks_lem : connection.read_buffer ++ concat chunks ≡ stream (packet ∷ packet ∷ []) ++ codes "tail"
unfolding stream encode_packet store_header store32 store64
chunks_lem = refl

handle_read-stream_example : handle_read echo (map bytes chunks) connection ≡ (do
  after ← dispatch echo (packet ∷ packet ∷ []) (record connection { read_buffer = codes "tail" })
  pure (some after))
handle_read-stream_example =
    handle_read-stream echo connection chunks (packet ∷ packet ∷ []) (codes "tail")
      (framed, (framed, tt)) (omega arith) chunks_lem

flushes : flush (taken 2 ∷ taken 1 ∷ []) (codes "hi" ∷ codes "you" ∷ []) ≡ some (codes "ou" ∷ [])
unfolding flush
flushes = refl

sent-flush_example :
    sent (taken 2 ∷ taken 1 ∷ []) (codes "hi" ∷ codes "you" ∷ []) ++ concat (codes "ou" ∷ [])
    ≡ concat (codes "hi" ∷ codes "you" ∷ [])
sent-flush_example =
    sent-flush (taken 2 ∷ taken 1 ∷ []) (codes "hi" ∷ codes "you" ∷ []) (codes "ou" ∷ []) flushes

abbrev progress : List PlayerDungeonProgress
progress =
    record { dungeon_id = pos 1001; best_star = pos 3; is_first_clear = true }
    ∷ record { dungeon_id = pos 1002; best_star = pos 1; is_first_clear = false }
    ∷ []

parse_progress-serialize_progress_example :
    parse_progress (serialize_progress progress) ≡ ok progress
parse_progress-serialize_progress_example =
    parse_progress-serialize_progress progress ((refl, refl), ((refl, refl), tt))

make_session_id_account_example : pos 1 ≡ pos 1
make_session_id_account_example = make_session_id_account (pos 1) (pos 1) (pos 7) (pos 7) 4 4 refl

pub salt-AreBytes : AreBytes (codes "salt")
salt-AreBytes = (omega arith, (omega arith, (omega arith, (omega arith, tt))))

from_hex-to_hex_example : from_hex (to_hex (codes "salt")) ≡ some (codes "salt")
from_hex-to_hex_example = from_hex-to_hex (codes "salt") salt-AreBytes

-- A key derivation that puts password and salt together.
abbrev pub joined : Bytes → Bytes → ℤ → Option Bytes
joined password salt iterations = some (password ++ salt)

abbrev pub encoded : Bytes
encoded =
    codes "pbkdf2_sha256"
    ++ (b'$' ∷ to_string (pos 5)
        ++ (b'$' ∷ to_hex (codes "salt")
            ++ (b'$' ∷ hash_password joined (codes "moon") (codes "salt") (pos 5))))

pub built : build_encoded_hash joined (codes "moon") (codes "salt") (pos 5) ≡ some encoded
unfolding build_encoded_hash is_empty hash_password to_hex
built = refl

verify_password-build_encoded_hash_example : verify_password joined (codes "sun") encoded ≡ (
    hash_password joined (codes "sun") (codes "salt") (pos 5)
    == hash_password joined (codes "moon") (codes "salt") (pos 5))
verify_password-build_encoded_hash_example =
    verify_password-build_encoded_hash joined (codes "moon") (codes "sun") (codes "salt") encoded
      (pos 5) salt-AreBytes refl built

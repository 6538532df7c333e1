-- ===== src/Net/Packet.antt =====
-- common/include/common/net/packet.h and common/src/net/packet.cpp, on a little-endian host.
pub mod Laws
use project_moon.Base.{
  ℕ, zero, suc, ◌+◌, ◌*◌, ◌/◌, ◌%◌, ◌^◌, Bool, Option, none, some, List, [], ◌∷◌, ◌++◌, ltb, ◌==◌,
  nat_eq, if◌then◌else◌, not, Bytes, length, take, drop,
}

pub record PacketHeader : Type 0 where
  pub magic : ℕ
  pub version : ℕ
  pub msg_id : ℕ
  pub body_len : ℕ
  pub request_id : ℕ

pub record Packet : Type 0 where
  pub header : PacketHeader
  pub body : Bytes

abbrev pub default_magic : ℕ
default_magic = 0x4D47424B

-- `PacketHeader{}`
abbrev pub default_header : PacketHeader
default_header = record {
  magic = default_magic;
  version = 1;
  msg_id = 0;
  body_len = 0;
  request_id = 0;
}

abbrev pub packet_header_size : ℕ
packet_header_size = 24

-- htonl and ntohl on a little-endian host: the four bytes in reverse.
unfoldable pub htonl : ℕ → ℕ
htonl v = v % 256 * 2 ^ 24 + v / 2 ^ 8 % 256 * 2 ^ 16 + v / 2 ^ 16 % 256 * 2 ^ 8 + v / 2 ^ 24 % 256

unfoldable pub host_to_network64 : ℕ → ℕ
host_to_network64 value =
    let high = htonl (value / 2 ^ 32 % 2 ^ 32) in
    let low = htonl (value % 2 ^ 32) in low * 2 ^ 32 % 2 ^ 64 + high

-- The bytes of an integer in memory.
unfoldable pub store32 : ℕ → Bytes
store32 v = v % 256 ∷ v / 2 ^ 8 % 256 ∷ v / 2 ^ 16 % 256 ∷ v / 2 ^ 24 % 256 ∷ []

unfoldable pub store64 : ℕ → Bytes
store64 v = store32 (v % 2 ^ 32) ++ store32 (v / 2 ^ 32 % 2 ^ 32)

-- The integer at the front of a memory block; the callers have checked that it is long enough.
unfoldable pub load32 : Bytes → ℕ
load32 (a ∷ b ∷ c ∷ d ∷ s) = a + b * 2 ^ 8 + c * 2 ^ 16 + d * 2 ^ 24
load32 _ = 0

unfoldable pub load64 : Bytes → ℕ
load64 s = load32 s + load32 (drop 4 s) * 2 ^ 32

-- memcpy of a header whose fields are in network order
unfoldable pub store_header : PacketHeader → Bytes
store_header h =
    store32 h.magic
    ++ (store32 h.version ++ (store32 h.msg_id ++ (store32 h.body_len ++ store64 h.request_id)))

unfoldable pub encode_packet : PacketHeader → Bytes → Bytes
encode_packet header body =
    let network_header : PacketHeader = record {
      magic = htonl header.magic;
      version = htonl header.version;
      msg_id = htonl header.msg_id;
      body_len = htonl header.body_len;
      request_id = host_to_network64 header.request_id;
    } in
    store_header network_header ++ body

-- The header at the front of the buffer, in host order. NetworkToHost64 is HostToNetwork64's text.
unfoldable pub load_header : Bytes → PacketHeader
load_header buffer = record {
  magic = htonl (load32 buffer);
  version = htonl (load32 (drop 4 buffer));
  msg_id = htonl (load32 (drop 8 buffer));
  body_len = htonl (load32 (drop 12 buffer));
  request_id = host_to_network64 (load64 (drop 16 buffer));
}

-- The buffer afterwards, and the packet where the result is true.
unfoldable pub try_extract_packet : Bytes → Bytes × Option Packet
try_extract_packet buffer =
    if ltb (length buffer) packet_header_size
    then (buffer, none)
    else (let host_header = load_header buffer in
        if not (host_header.magic == default_magic)
        then ([], none)
        else (let total_size = packet_header_size + host_header.body_len in
            if ltb (length buffer) total_size then (buffer, none) else (
              drop total_size buffer,
              some (record {
                header = host_header;
                body = take host_header.body_len (drop packet_header_size buffer);
              }),
            )))

-- ===== src/Net/Packet/Laws.antt =====
-- A packet that was encoded is extracted again, whatever follows it in the buffer.
use project_moon.Base.{
  append_nil, append_prefix, sym, none, [], inl, inr, Bool-cases, ltb, refl, ◌≤◌, ℕ, ◌+◌, ◌/◌, ◌%◌,
  ◌^◌, ◌<◌, ◌≡◌, ap, ◌∙◌, some, ◌++◌, arith, Bytes, length, take, drop, length-append, take-append,
  drop-append,
}
use project_moon.Net.Packet.{
  PacketHeader, default_magic, htonl, host_to_network64, store32, store64, load32, load64,
  store_header, encode_packet, load_header, try_extract_packet,
}

-- The byte swap stays in range and undoes itself; memory gives back what was stored.
htonl-lt : (v : ℕ) → htonl v < 2 ^ 32
unfolding htonl
htonl-lt v = omega arith

htonl-htonl : (v : ℕ) → v < 2 ^ 32 → htonl (htonl v) ≡ v
unfolding htonl
htonl-htonl v h = omega arith

load32-store32 : (v : ℕ) (s : Bytes) → v < 2 ^ 32 → load32 (store32 v ++ s) ≡ v
unfolding load32 store32
load32-store32 v s h = omega arith

load64-store64 : (v : ℕ) (s : Bytes) → v < 2 ^ 64 → load64 (store64 v ++ s) ≡ v
unfolding load64 store64 store32
load64-store64 v s h = omega (
  arith,
  load32-store32 (v % 2 ^ 32) (store32 (v / 2 ^ 32 % 2 ^ 32) ++ s) (omega arith),
  load32-store32 (v / 2 ^ 32 % 2 ^ 32) s (omega arith),
)

host_to_network64_parts :
    (v : ℕ)
    → (host_to_network64 v % 2 ^ 32 ≡ htonl (v / 2 ^ 32 % 2 ^ 32))
      × (host_to_network64 v / 2 ^ 32 % 2 ^ 32 ≡ htonl (v % 2 ^ 32))
      × (host_to_network64 v < 2 ^ 64)
unfolding host_to_network64
host_to_network64_parts v = omega (arith, htonl-lt (v / 2 ^ 32 % 2 ^ 32), htonl-lt (v % 2 ^ 32))

host_to_network64_twice : (v : ℕ) → v < 2 ^ 64 → host_to_network64 (host_to_network64 v) ≡ v
host_to_network64_twice v h =
    let p = host_to_network64_parts v in
    let q = host_to_network64_parts (host_to_network64 v) in
    omega (
      arith,
      q.0,
      q.1,
      ap htonl p.0,
      ap htonl p.1,
      htonl-htonl (v / 2 ^ 32 % 2 ^ 32) (omega arith),
      htonl-htonl (v % 2 ^ 32) (omega arith),
    )

-- The fields of a header have the widths of the struct, and the length and the magic are right.
pub record IsFramed (header : PacketHeader) (body : Bytes) : Type 0 where
  pub magic_right : header.magic ≡ default_magic
  pub version_fits : header.version < 2 ^ 32
  pub msg_id_fits : header.msg_id < 2 ^ 32
  pub body_len_fits : header.body_len < 2 ^ 32
  pub request_id_fits : header.request_id < 2 ^ 64
  pub body_len_right : header.body_len ≡ length body

-- The fields of a header alone
record FitsHeader (header : PacketHeader) : Type 0 where
  magic_right : header.magic ≡ default_magic
  version_fits : header.version < 2 ^ 32
  msg_id_fits : header.msg_id < 2 ^ 32
  body_len_fits : header.body_len < 2 ^ 32
  request_id_fits : header.request_id < 2 ^ 64

IsFramed-FitsHeader : {h : PacketHeader} {body : Bytes} → IsFramed h body → FitsHeader h
IsFramed-FitsHeader v = record {
  magic_right = v.magic_right;
  version_fits = v.version_fits;
  msg_id_fits = v.msg_id_fits;
  body_len_fits = v.body_len_fits;
  request_id_fits = v.request_id_fits;
}

swap_back : (v : ℕ) (s : Bytes) → v < 2 ^ 32 → htonl (load32 (store32 (htonl v) ++ s)) ≡ v
swap_back v s h = ap htonl (load32-store32 (htonl v) s (htonl-lt v)) ∙ htonl-htonl v h

swap_back64 :
    (v : ℕ) (s : Bytes)
    → v < 2 ^ 64
    → host_to_network64 (load64 (store64 (host_to_network64 v) ++ s)) ≡ v
swap_back64 v s h =
    ap host_to_network64 (load64-store64 (host_to_network64 v) s (host_to_network64_parts v).2)
    ∙ host_to_network64_twice v h

pub length-encode_packet :
    (h : PacketHeader) (body : Bytes) → length (encode_packet h body) ≡ 24 + length body
unfolding encode_packet store_header store32 store64
length-encode_packet h body = omega arith

load_header-encode_packet :
    (h : PacketHeader) (body rest : Bytes)
    → FitsHeader h
    → load_header (encode_packet h body ++ rest) ≡ h
unfolding load_header encode_packet store_header store32 store64
load_header-encode_packet h body rest v =
    let frame = encode_packet h body ++ rest in
    λ i. record {
      magic = swap_back h.magic (drop 4 frame) (omega arith) i;
      version = swap_back h.version (drop 8 frame) v.version_fits i;
      msg_id = swap_back h.msg_id (drop 12 frame) v.msg_id_fits i;
      body_len = swap_back h.body_len (drop 16 frame) v.body_len_fits i;
      request_id = swap_back64 h.request_id (drop 24 frame) v.request_id_fits i;
    }

module _ (h : PacketHeader) (body rest : Bytes) (v : IsFramed h body) where
  length-frame : length (encode_packet h body ++ rest) ≡ 24 + length body + length rest
  length-frame =
      omega (arith, length-append (encode_packet h body) rest, length-encode_packet h body)

  drop-frame : drop (24 + h.body_len) (encode_packet h body ++ rest) ≡ rest
  drop-frame =
      let e : 24 + h.body_len ≡ length (encode_packet h body) =
        omega (arith, length-encode_packet h body) in
      ap (λ n. drop n (encode_packet h body ++ rest)) e ∙ drop-append (encode_packet h body) rest

  take-frame : take h.body_len (drop 24 (encode_packet h body ++ rest)) ≡ body
  unfolding encode_packet store_header store32 store64
  take-frame = ap (λ n. take n (body ++ rest)) v.body_len_right ∙ take-append body rest

  -- For a header whose fields fit their widths, whose magic is right and whose length is the body's:
  -- extraction gives the encoded packet back and leaves what follows it.
  pub try_extract_packet-encode_packet :
      try_extract_packet (encode_packet h body ++ rest)
      ≡ (rest, some (record { header = h; body = body }))
  unfolding try_extract_packet
  try_extract_packet-encode_packet = ground (
    arith,
    load_header-encode_packet h body rest (IsFramed-FitsHeader v),
    length-frame,
    drop-frame,
    take-frame,
  )

part_of :
    (h : PacketHeader) (body part more tail : Bytes)
    → part ++ more ≡ encode_packet h body ++ tail
    → 24 ≤ length part
    → part ≡ encode_packet h (drop 24 part)
unfolding encode_packet store_header store32 store64
part_of h body part more tail same long =
    append_prefix (encode_packet h []) part (body ++ tail) more same long

-- A buffer that holds the beginning of an encoded packet and not all of it gives nothing, and is
-- kept.
pub try_extract_packet_partial :
    (h : PacketHeader) (body part more tail : Bytes)
    → IsFramed h body
    → part ++ more ≡ encode_packet h body ++ tail
    → length part < 24 + length body
    → try_extract_packet part ≡ (part, none)
unfolding try_extract_packet
try_extract_packet_partial h body part more tail v same short =
    elim (Bool-cases (ltb (length part) 24)) [
      | inl no_header ↦ rw no_header refl
      | inr header ↦
          let whole = part_of h body part more tail same (ground (arith, header)) in
          let read : load_header part ≡ h =
            ap load_header (whole ∙ sym (append_nil (encode_packet h (drop 24 part))))
            ∙ load_header-encode_packet h (drop 24 part) [] (IsFramed-FitsHeader v) in
          ground (arith, header, short, v.body_len_right, v.magic_right, read)
    ]

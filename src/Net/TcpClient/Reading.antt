-- ===== src/Net/TcpClient/Reading.antt =====
-- What WritePacket sends and what ReadPacket makes of a stream.
use project_moon.Base.{
  append_nil, append_assoc, append_prefix, length-append, take-drop, ℕ, ◌+◌, ◌≤◌, ◌≡◌, inl, inr,
  refl, sym, ap, subst, ◌∙◌, true, false, Bool-cases, ltb, ltb→lt, Option, none, some, List, [],
  ◌∷◌, ◌++◌, Bytes, length, take, drop, arith, Option-cases,
}
use project_moon.Base.Calls.{Result, done}
use project_moon.Net.Packet.{Packet, encode_packet, try_extract_packet}
use project_moon.Net.Packet.Laws.{
  IsFramed, try_extract_packet-encode_packet, try_extract_packet_partial, length-encode_packet,
}
use project_moon.Net.TcpClient.{
  Poll, ready, wait_for_event, Sending, taken, interrupted, send_failed, write_rest, write_packet,
  Receiving, bytes, read_into, read_packet,
}

-- What the loop of WritePacket has sent is the front of what it was to send, and all of it where it
-- comes back true.
record Written (whole : Bytes) (r : Bytes × Option (Result (Unit {0}))) : Type 0 where
  rest : Bytes
  front : r.0 ++ rest ≡ whole
  all : (u : Unit {0}) → r.1 ≡ some (done u) → rest ≡ []

sent_then :
    (n : ℕ) (whole sent rest all : Bytes)
    → all ≡ take n whole ++ sent
    → sent ++ rest ≡ drop n whole
    → all ++ rest ≡ whole
sent_then n whole sent rest all e h =
    ap (λ s. s ++ rest) e
    ∙ append_assoc (take n whole) sent rest
    ∙ ap (λ s. take n whole ++ s) h
    ∙ take-drop n whole

write_rest-Written :
    (calls : List (Poll × Sending)) (whole : Bytes) → Written whole (write_rest calls whole)
unfolding write_rest
write_rest-Written calls [] = record { rest = []; front = refl; all = λ u e. refl }
write_rest-Written [] (c ∷ whole) = record { rest = c ∷ whole; front = refl; all = λ u e. cc }
write_rest-Written ((poll, taken n) ∷ calls) (c ∷ whole) =
    let ih = write_rest-Written calls (drop n (c ∷ whole)) in
    elim (Option-cases (wait_for_event poll)) [
      | inr (m, stopped) ↦ record {
        rest = c ∷ whole;
        front = ground (arith, stopped);
        all = λ u e. ground (arith, stopped, e);
      }
      | inl waited ↦ record {
        rest = ih.rest;
        front = sent_then n (c ∷ whole) _ ih.rest _ (ground (arith, waited)) ih.front;
        all = λ u e. ih.all u (ground (arith, waited, e));
      }
    ]
write_rest-Written ((poll, interrupted) ∷ calls) (c ∷ whole) =
    let ih = write_rest-Written calls (c ∷ whole) in
    elim (Option-cases (wait_for_event poll)) [
      | inr (m, stopped) ↦ record {
        rest = c ∷ whole;
        front = ground (arith, stopped);
        all = λ u e. ground (arith, stopped, e);
      }
      | inl waited ↦ record {
        rest = ih.rest;
        front = ground (arith, waited, ih.front);
        all = λ u e. ih.all u (ground (arith, waited, e));
      }
    ]
write_rest-Written ((poll, send_failed m) ∷ calls) (c ∷ whole) =
    elim (Option-cases (wait_for_event poll)) [
      | inr (m', stopped) ↦ record {
        rest = c ∷ whole;
        front = ground (arith, stopped);
        all = λ u e. ground (arith, stopped, e);
      }
      | inl waited ↦ record {
        rest = c ∷ whole;
        front = ground (arith, waited);
        all = λ u e. ground (arith, waited, e);
      }
    ]

-- What WritePacket has sent, whatever the calls come back with, is the front of the encoded packet;
-- where it comes back true it is the whole.
pub write_packet_sent :
    (calls : List (Poll × Sending)) (request : Packet) (sent : Bytes)
    (result : Option (Result (Unit {0})))
    → write_packet calls request ≡ (sent, result)
    → ((rest : Bytes) × (sent ++ rest ≡ encode_packet request.header request.body))
      × ((u : Unit {0}) → result ≡ some (done u) → sent ≡ encode_packet request.header request.body)
unfolding write_packet
write_packet_sent calls request sent result e =
    let w =
      subst (Written (encode_packet request.header request.body)) e (write_rest-Written calls _) in
    (
      (w.rest, w.front),
      λ u done. sym (append_nil sent) ∙ ap (λ r. sent ++ r) (sym (w.all u done)) ∙ w.front,
    )

-- A run of reads: some bytes each, or an interruption.
abbrev pub rounds : List (Option Bytes) → List (Poll × Receiving)
rounds [] = []
rounds (none ∷ reads) = (ready false, Receiving.interrupted) ∷ rounds reads
rounds (some s ∷ reads) = (ready false, bytes s) ∷ rounds reads

abbrev pub brought : List (Option Bytes) → Bytes
brought [] = []
brought (none ∷ reads) = brought reads
brought (some s ∷ reads) = s ++ brought reads

-- A packet that is there is taken before anything else is read.
found_first :
    (calls : List (Poll × Receiving)) (buffer rest : Bytes) (p : Packet)
    → try_extract_packet buffer ≡ (rest, some p)
    → read_into calls buffer ≡ some (done p)
unfolding read_into
found_first [] buffer rest p e = ground (arith, e)
found_first ((poll, bytes s) ∷ calls) buffer rest p e = ground (arith, e)
found_first ((poll, Receiving.interrupted) ∷ calls) buffer rest p e = ground (arith, e)
found_first ((poll, Receiving.closed) ∷ calls) buffer rest p e = ground (arith, e)
found_first ((poll, Receiving.recv_failed m) ∷ calls) buffer rest p e = ground (arith, e)

read_on :
    (calls : List (Poll × Receiving)) (buffer s : Bytes)
    → try_extract_packet buffer ≡ (buffer, none)
    → (read_into ((ready false, bytes s) ∷ calls) buffer ≡ read_into calls (buffer ++ s))
      × (read_into ((ready false, Receiving.interrupted) ∷ calls) buffer ≡ read_into calls buffer)
unfolding read_into wait_for_event
read_on calls buffer s e = ground (arith, e)

module _ (p : Packet) (tail : Bytes) (framed : IsFramed p.header p.body) where
  abbrev frame : Bytes
  frame = encode_packet p.header p.body ++ tail

  read_whole :
      (calls : List (Poll × Receiving)) (buffer more : Bytes)
      → buffer ++ more ≡ frame
      → 24 + length p.body ≤ length buffer
      → read_into calls buffer ≡ some (done p)
  read_whole calls buffer more same long =
      let front = encode_packet p.header p.body in
      let is =
        append_prefix front buffer tail more same
          (omega (arith, long, length-encode_packet p.header p.body)) in
      let rest = drop (length front) buffer in
      found_first calls buffer rest p
        (ap try_extract_packet is ∙ try_extract_packet-encode_packet p.header p.body rest framed)

  too_short :
      (buffer more : Bytes)
      → buffer ++ more ≡ frame
      → ltb (length buffer) (24 + length p.body) ≡ true
      → try_extract_packet buffer ≡ (buffer, none)
  too_short buffer more same short =
      try_extract_packet_partial p.header p.body buffer more tail framed same
        (ltb→lt (length buffer) (24 + length p.body) short)

  read_into-frame :
      (reads : List (Option Bytes)) (buffer : Bytes)
      → buffer ++ brought reads ≡ frame
      → read_into (rounds reads) buffer ≡ some (done p)
  read_into-frame [] buffer same = read_whole [] buffer [] same (
      omega (
        arith,
        ap length same,
        length-append buffer [],
        length-append (encode_packet p.header p.body) tail,
        length-encode_packet p.header p.body,
      ))
  read_into-frame (none ∷ reads) buffer same =
      elim (Bool-cases (ltb (length buffer) (24 + length p.body))) [
        | inr long ↦
            read_whole (rounds (none ∷ reads)) buffer (brought reads) same (ground (arith, long))
        | inl short ↦
            (read_on (rounds reads) buffer [] (too_short buffer (brought reads) same short)).1
            ∙ read_into-frame reads buffer same
      ]
  read_into-frame (some s ∷ reads) buffer same =
      elim (Bool-cases (ltb (length buffer) (24 + length p.body))) [
        | inr long ↦
            read_whole (rounds (some s ∷ reads)) buffer (s ++ brought reads) same
              (ground (arith, long))
        | inl short ↦
            (read_on (rounds reads) buffer s (too_short buffer (s ++ brought reads) same short)).0
            ∙ read_into-frame reads (buffer ++ s) (append_assoc buffer s (brought reads) ∙ same)
      ]

  -- From a stream that begins with an encoded packet, well-framed, ReadPacket comes back with this
  -- packet, wherever the stream was cut into reads and wherever a read was interrupted.
  pub read_packet-frame :
      (reads : List (Option Bytes))
      → brought reads ≡ encode_packet p.header p.body ++ tail
      → read_packet (rounds reads) ≡ some (done p)
  unfolding read_packet
  read_packet-frame reads same = read_into-frame reads [] same

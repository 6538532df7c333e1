-- ===== src/Net/MessageId/Laws.antt =====
-- The numbers on the wire and the ids name each other.
use project_moon.Base.{ℕ, ◌≡◌, ◌↔◌, some, true, arith}
use project_moon.Net.MessageId.{MessageId, to_int, message_id_from_int, same_id}

-- Decoding the number of an id gives the id.
pub message_id_from_int-to_int : (m : MessageId) → message_id_from_int (to_int m) ≡ some m
unfolding message_id_from_int to_int
message_id_from_int-to_int m = ground arith

-- A number decodes to an id exactly when it is the number of that id.
pub message_id_from_int_iff :
    (n : ℕ) (m : MessageId) → (message_id_from_int n ≡ some m) ↔ (n ≡ to_int m)
unfolding message_id_from_int to_int
message_id_from_int_iff n m = (ground arith, ground arith)

pub same_id_iff : (a b : MessageId) → (same_id a b ≡ true) ↔ (a ≡ b)
unfolding same_id
same_id_iff a b = ground arith

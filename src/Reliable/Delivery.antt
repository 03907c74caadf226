-- ===== src/Reliable/Delivery.antt =====
-- The packet of a reliable message and its acknowledgement, as the engine reads them (src/net/engine.rs).
use mint_connect_unit.Packet.Datagram.{
  CompactPacketType, acknowledge, compact, frame_compact, join_ack, parse-frame_compact,
  parse_datagram, reliable, to_byte, try_from_byte, try_from_byte_iff,
}
use mint_connect_unit.Prelude.{
  List, Option, arith, none, refl, some, ℕ, ◌%◌, ◌*◌, ◌++◌, ◌+◌, ◌/◌, ◌^◌, ◌∷◌, ◌≡◌,
}
use mint_connect_unit.Reliable.Channel.{ack_packet, reliable_packet, u32_be_bytes}

-- `u32::from_be_bytes`
unfoldable pub from_be_bytes_u32 : ℕ → ℕ → ℕ → ℕ → ℕ
from_be_bytes_u32 a b c d = a * 2 ^ 24 + b * 2 ^ 16 + c * 2 ^ 8 + d

-- The sequence number and the body of a reliable packet, if it is a join acknowledgement.
abbrev join_body : ℕ → Option CompactPacketType → List ℕ → Option (ℕ × List ℕ)
join_body seq (some join_ack) rest = some (seq, rest)
join_body seq _ rest = none

unfoldable pub read_reliable : List ℕ → Option (ℕ × List ℕ)
read_reliable (a ∷ b ∷ c ∷ d ∷ e ∷ rest) =
    join_body (from_be_bytes_u32 a b c d) (try_from_byte e) rest
read_reliable body = none

-- The sequence number of an acknowledgement.
unfoldable pub read_ack : List ℕ → Option ℕ
read_ack (a ∷ b ∷ c ∷ d ∷ rest) = some (from_be_bytes_u32 a b c d)
read_ack body = none

from_be_bytes_u32_lem :
    (x : ℕ) → from_be_bytes_u32 (x / 2 ^ 24) (x / 2 ^ 16 % 256) (x / 2 ^ 8 % 256) (x % 256) ≡ x
unfolding from_be_bytes_u32
from_be_bytes_u32_lem x = omega arith

-- A reliable join acknowledgement is read as its sequence number and its body, and the acknowledgement of that number is
-- read as that number.
pub delivery_roundtrip :
    (seq : ℕ) (body : List ℕ)
    → ((b : List ℕ) × (parse_datagram (reliable_packet seq join_ack body)
          ≡ some (compact reliable b))
        × (read_reliable b ≡ some (seq, body)))
      × ((b : List ℕ) × (parse_datagram (ack_packet seq) ≡ some (compact acknowledge b))
          × (read_ack b ≡ some seq))
unfolding reliable_packet ack_packet frame_compact u32_be_bytes read_reliable read_ack
delivery_roundtrip seq body = (
  (
    u32_be_bytes seq ++ to_byte join_ack ∷ body,
    parse-frame_compact reliable (u32_be_bytes seq ++ to_byte join_ack ∷ body),
    rw (from_be_bytes_u32_lem seq, (try_from_byte_iff (to_byte join_ack) join_ack).1 refl) refl,
  ),
  (
    u32_be_bytes seq,
    parse-frame_compact acknowledge (u32_be_bytes seq),
    rw (from_be_bytes_u32_lem seq) refl,
  ),
)

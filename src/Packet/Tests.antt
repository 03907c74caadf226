-- ===== src/Packet/Tests.antt =====
-- Runs of the functions for datagrams (src/net/packet.rs) on the inputs of its own tests, and instances of
-- the theorems.
use mint_connect_unit.Packet.Datagram.{
  acknowledge, compact, control, data_packet, frame_compact, frame_with_tag, parse-frame_compact,
  parse-frame_with_tag, parse_datagram, parse_datagram-compact, ping, to_byte, try_from_byte,
  try_from_byte_iff,
}
use mint_connect_unit.Packet.Mctl.{
  encode_mctl, encode_mctl-some, known_flags, parse-encode_mctl, parse_mctl,
}
use mint_connect_unit.Prelude.{
  List, [], is_some, length, none, refl, some, true, ℕ, ◌++◌, ◌↔◌, ◌∷◌, ◌≡◌, ◌≤◌,
}

-- `frame_compact_exact_bytes`
exact_bytes : frame_compact data_packet (120 ∷ 121 ∷ []) ≡ 1 ∷ 120 ∷ 121 ∷ []
unfolding frame_compact to_byte
exact_bytes = refl

-- `compact_type_rejects_reserved`
rejects_reserved :
    (try_from_byte 0 ≡ none)
    × (try_from_byte 0xff ≡ none)
    × (try_from_byte 0xfa ≡ none)
    × (try_from_byte 9 ≡ none)
unfolding try_from_byte
rejects_reserved = (refl, refl, refl, refl)

abbrev join_tag : List ℕ
join_tag = 77 ∷ 80 ∷ 74 ∷ 78 ∷ []

abbrev some_vip : List ℕ
some_vip = 49 ∷ 48 ∷ 46 ∷ 49 ∷ []

try_from_byte_iff_example : (try_from_byte 7 ≡ some ping) ↔ (7 ≡ to_byte ping)
try_from_byte_iff_example = try_from_byte_iff 7 ping

parse-frame_compact_example :
    parse_datagram (frame_compact acknowledge (0 ∷ 1 ∷ []))
    ≡ some (compact acknowledge (0 ∷ 1 ∷ []))
parse-frame_compact_example = parse-frame_compact acknowledge (0 ∷ 1 ∷ [])

parse-frame_with_tag_example :
    parse_datagram (frame_with_tag join_tag (123 ∷ 125 ∷ []))
    ≡ some (control join_tag (123 ∷ 125 ∷ []))
parse-frame_with_tag_example = parse-frame_with_tag join_tag (123 ∷ 125 ∷ []) refl refl

parse_datagram-compact_example : 5 ∷ 0 ∷ [] ≡ frame_compact acknowledge (0 ∷ [])
unfolding parse_datagram try_from_byte
parse_datagram-compact_example = parse_datagram-compact (5 ∷ 0 ∷ []) acknowledge (0 ∷ []) refl

parse-encode_mctl_example :
    parse_mctl ((3 ∷ 0 ∷ 4 ∷ some_vip) ++ (9 ∷ []))
    ≡ some (record { flags = 3; vip = some some_vip; signaling_ok = true })
unfolding encode_mctl
parse-encode_mctl_example = parse-encode_mctl 7 some_vip (3 ∷ 0 ∷ 4 ∷ some_vip) (9 ∷ []) refl

encode_mctl-some_example :
    (is_some (encode_mctl 5 (some some_vip)) ≡ true)
    ↔ ((1 ≤ known_flags 5) × (1 ≤ length some_vip) × (length some_vip ≤ 255))
encode_mctl-some_example = encode_mctl-some 5 some_vip

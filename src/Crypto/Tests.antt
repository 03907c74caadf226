-- ===== src/Crypto/Tests.antt =====
-- Runs of src/crypto.rs and instances of the theorems about it. The cipher of the instances adds nothing to
-- the plaintext but a tag of 16 zeros, and the alphabet of the invitations is the bytes themselves.
use mint_connect_unit.Bits.{set_bit, test_bit}
use mint_connect_unit.Crypto.Frame.{
  Cipher, CipherLaws, PlaneAead, encrypt_framed_packet_into, framed_packet_roundtrip, open_into,
}
use mint_connect_unit.Crypto.Replay.{allows-is_fresh, committed, contains, is_fresh, no_replay}
use mint_connect_unit.Crypto.Sources.{CtrlReplayTable, table_allows, table_commit, table_commit_lem}
use mint_connect_unit.Crypto.Window.{allows, commit, empty_window}
use mint_connect_unit.Crypto.Wire.{
  InvitePayload, data_replay_max_counter, decode_invite, decode_wire_counter, encode_invite,
  encode_wire_counter, invite_roundtrip, wire_counter_len, wire_counter_roundtrip,
}
use mint_connect_unit.Packet.Datagram.{compact, encrypted, parse_datagram}
use mint_connect_unit.Prelude.{
  List, [], arith, false, length, none, refl, some, true, ℕ, ◌++◌, ◌<◌, ◌∷◌, ◌≡◌, ◌≤◌,
}

abbrev zero_tag : List ℕ
zero_tag = 0 ∷ 0 ∷ 0 ∷ 0 ∷ 0 ∷ 0 ∷ 0 ∷ 0 ∷ 0 ∷ 0 ∷ 0 ∷ 0 ∷ 0 ∷ 0 ∷ 0 ∷ 0 ∷ []

abbrev plain_cipher : Cipher
plain_cipher = record {
  encrypt = λ key nonce aad plain. (plain, zero_tag);
  decrypt = λ key nonce aad sealed tag. some sealed;
}

plain_cipher-CipherLaws : CipherLaws plain_cipher
plain_cipher-CipherLaws = record {
  tag_length = λ key nonce aad plain. refl;
  opens = λ key nonce aad plain. refl;
}

abbrev some_plane : PlaneAead
some_plane = record { key = zero_tag; salt = 1 ∷ 2 ∷ [] }

abbrev key_32 : List ℕ
key_32 = zero_tag ++ zero_tag

abbrev some_invite : InvitePayload
some_invite = record { version = 1; protocol = 1; key = key_32 }

abbrev some_table : CtrlReplayTable
some_table = record { sources = (7, (record { top = some 3; bits = 1 }, 10)) ∷ []; max_sources = 1 }

-- A counter out of order is taken once.
reordered : (allows (committed (5 ∷ [])) 3 ≡ true) × (allows (committed (3 ∷ 5 ∷ [])) 3 ≡ false)
unfolding allows committed commit empty_window test_bit set_bit
reordered = (refl, refl)

allows-is_fresh_example : allows (committed (3 ∷ 5 ∷ [])) 4 ≡ is_fresh (3 ∷ 5 ∷ []) 4
allows-is_fresh_example = allows-is_fresh (3 ∷ 5 ∷ []) 4

no_replay_example : allows (committed (3 ∷ 5 ∷ [])) 5 ≡ false
unfolding contains
no_replay_example = no_replay (3 ∷ 5 ∷ []) 5 refl

table_commit_lem_example :
    (length (table_commit some_table 8 4 20).sources ≤ 1)
    × (table_allows (table_commit some_table 8 4 20) 8 4 ≡ false)
table_commit_lem_example = table_commit_lem some_table 8 4 20 (omega arith) (omega arith)

wire_counter_roundtrip_example :
    (1000 ≤ data_replay_max_counter
      → (w : List ℕ) × (encode_wire_counter 1000 ≡ some w)
        × (length w ≡ wire_counter_len)
        × (decode_wire_counter w ≡ 1000))
    × (data_replay_max_counter < 1000 → encode_wire_counter 1000 ≡ none)
wire_counter_roundtrip_example = wire_counter_roundtrip 1000

invite_roundtrip_example :
    decode_invite (λ raw. raw) some (encode_invite (λ raw. raw) some some_invite) ≡ some some_invite
invite_roundtrip_example = invite_roundtrip (λ raw. raw) some (λ raw. refl) some_invite refl refl

framed_packet_roundtrip_example :
    (packet counter_wire payload : List ℕ) × (encrypt_framed_packet_into plain_cipher some_plane
        1000 []
        (9 ∷ [])
      ≡ some packet)
    × (parse_datagram packet ≡ some (compact encrypted (counter_wire ++ payload)))
    × (length counter_wire ≡ wire_counter_len)
    × (decode_wire_counter counter_wire ≡ 1000)
    × (open_into plain_cipher some_plane counter_wire [] payload ≡ some (9 ∷ []))
framed_packet_roundtrip_example =
    framed_packet_roundtrip plain_cipher plain_cipher-CipherLaws some_plane 1000 [] (9 ∷ [])
      (omega arith)

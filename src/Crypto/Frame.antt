-- ===== src/Crypto/Frame.antt =====
-- Sealed frames (src/crypto.rs). The cipher and the key derivation are parameters: `encrypt` gives the
-- ciphertext and the tag for a key, a nonce, associated data and a plaintext; `decrypt` gives the plaintext
-- or refuses; `expand` is HKDF-SHA256 under the salt of the program, for a key, an info and a length.
use mathlib.Core.Path.{subst}
use mint_connect_unit.Crypto.Wire.{
  data_replay_max_counter, decode_wire_counter, encode_wire_counter, nonce_from_counter,
  wire_counter_len, wire_counter_roundtrip,
}
use mint_connect_unit.Packet.Datagram.{
  compact, encrypted, frame_compact, parse-frame_compact, parse_datagram, to_byte,
}
use mint_connect_unit.Prelude.{
  List, Option, [], arith, drop, drop-append_length, false, if◌then◌else◌, length, length-append,
  le→ltb_false, ltb, none, some, take, take-append_length, ℕ, ◌%◌, ◌++◌, ◌+◌, ◌-◌, ◌/◌, ◌^◌, ◌∷◌,
  ◌≡◌, ◌≤◌,
}

abbrev pub aead_key_len : ℕ
aead_key_len = 16

abbrev pub data_salt_len : ℕ
data_salt_len = 10

abbrev pub data_tag_len : ℕ
data_tag_len = 16

-- `DataPlaneAead` and `ControlPlaneAead`: the same two fields.
pub record PlaneAead : Type 0 where
  pub key : List ℕ
  pub salt : List ℕ

pub record Cipher : Type 0 where
  pub encrypt : List ℕ → List ℕ → List ℕ → List ℕ → List ℕ × List ℕ
  pub decrypt : List ℕ → List ℕ → List ℕ → List ℕ → List ℕ → Option (List ℕ)

-- The documented behaviour of the cipher: a tag of 16 bytes, and what was encrypted is decrypted.
pub record CipherLaws (c : Cipher) : Type 0 where
  pub tag_length :
      (key nonce aad plain : List ℕ) → length (c.encrypt key nonce aad plain).1 ≡ data_tag_len
  pub opens :
      (key nonce aad plain : List ℕ)
      → let sealed = c.encrypt key nonce aad plain in
        c.decrypt key nonce aad sealed.0 sealed.1 ≡ some plain

module _ (c : Cipher) where
  -- The counter, the ciphertext and the tag; `none` for "counter exhausted".
  unfoldable pub seal_into : PlaneAead → ℕ → List ℕ → List ℕ → Option (List ℕ)
  seal_into plane counter aad plaintext = elim (encode_wire_counter counter) [
    | none ↦ none
    | some counter_wire ↦
        let sealed =
          c.encrypt plane.key (nonce_from_counter plane.salt counter_wire) aad plaintext in
        some (counter_wire ++ (sealed.0 ++ sealed.1))
  ]

  -- The same after the type byte of an encrypted packet.
  unfoldable pub encrypt_framed_packet_into : PlaneAead → ℕ → List ℕ → List ℕ → Option (List ℕ)
  encrypt_framed_packet_into plane counter aad plaintext = elim (encode_wire_counter counter) [
    | none ↦ none
    | some counter_wire ↦
        let sealed =
          c.encrypt plane.key (nonce_from_counter plane.salt counter_wire) aad plaintext in
        some (to_byte encrypted ∷ counter_wire ++ (sealed.0 ++ sealed.1))
  ]

  -- `none` for "packet too short" and "decrypt failure"; the two planes share it, with their own data.
  unfoldable pub open_into : PlaneAead → List ℕ → List ℕ → List ℕ → Option (List ℕ)
  open_into plane counter_wire aad payload =
      if ltb (length payload) data_tag_len
      then none
      else (let tag_start = length payload - data_tag_len in
          c.decrypt plane.key (nonce_from_counter plane.salt counter_wire) aad
            (take tag_start payload) (drop tag_start payload))

  open-seal :
      (laws : CipherLaws c) (plane : PlaneAead) (counter_wire aad plaintext : List ℕ)
      → let sealed =
          c.encrypt plane.key (nonce_from_counter plane.salt counter_wire) aad plaintext in
        open_into plane counter_wire aad (sealed.0 ++ sealed.1) ≡ some plaintext
  unfolding open_into
  open-seal laws plane counter_wire aad plaintext =
      let nonce = nonce_from_counter plane.salt counter_wire in
      let sealed = c.encrypt plane.key nonce aad plaintext in
      let n = laws.tag_length plane.key nonce aad plaintext in
      let all = length-append sealed.0 sealed.1 in
      let long : ltb (length (sealed.0 ++ sealed.1)) data_tag_len ≡ false =
        le→ltb_false _ _ (omega (arith, n, all)) in
      let start : length sealed.0 ≡ length (sealed.0 ++ sealed.1) - data_tag_len =
        omega (arith, n, all) in
      let front : take (length (sealed.0 ++ sealed.1) - data_tag_len) (sealed.0 ++ sealed.1)
          ≡ sealed.0 =
        subst (λ k. take k (sealed.0 ++ sealed.1) ≡ sealed.0) start
          (take-append_length sealed.0 sealed.1) in
      let back : drop (length (sealed.0 ++ sealed.1) - data_tag_len) (sealed.0 ++ sealed.1)
          ≡ sealed.1 =
        subst (λ k. drop k (sealed.0 ++ sealed.1) ≡ sealed.1) start
          (drop-append_length sealed.0 sealed.1) in
      rw (long, front, back) (laws.opens plane.key nonce aad plaintext)

  -- A packet that the data plane seals is read from the wire as an encrypted packet, whose body is six
  -- bytes that decode to the counter and a payload that opens to the plaintext; a counter of at most 48 bits
  -- is always sealed.
  pub framed_packet_roundtrip :
      (laws : CipherLaws c) (plane : PlaneAead) (counter : ℕ) (aad plaintext : List ℕ)
      → counter ≤ data_replay_max_counter
      → (packet counter_wire payload : List ℕ) × (encrypt_framed_packet_into plane counter aad
            plaintext
          ≡ some packet)
        × (parse_datagram packet ≡ some (compact encrypted (counter_wire ++ payload)))
        × (length counter_wire ≡ wire_counter_len)
        × (decode_wire_counter counter_wire ≡ counter)
        × (open_into plane counter_wire aad payload ≡ some plaintext)
  unfolding encrypt_framed_packet_into frame_compact
  framed_packet_roundtrip laws plane counter aad plaintext h =
      let (w, e, n, back) = (wire_counter_roundtrip counter).0 h in
      let sealed = c.encrypt plane.key (nonce_from_counter plane.salt w) aad plaintext in
      let body = w ++ (sealed.0 ++ sealed.1) in
      (
        to_byte encrypted ∷ body,
        w,
        sealed.0 ++ sealed.1,
        rw (encrypt_framed_packet_into, e),
        parsed body,
        n,
        back,
        open-seal laws plane w aad plaintext,
      )
    where
      parsed :
          (body : List ℕ)
          → parse_datagram (to_byte encrypted ∷ body) ≡ some (compact encrypted body)
      parsed body = parse-frame_compact encrypted body

-- The last bytes of the info of a data key: the two addresses, the highest byte first.
unfoldable pub be_bytes_u32 : ℕ → List ℕ
be_bytes_u32 n = n / 2 ^ 24 % 256 ∷ n / 2 ^ 16 % 256 ∷ n / 2 ^ 8 % 256 ∷ n % 256 ∷ []

-- `b"data"` and `b"ctrl"`
abbrev pub hkdf_domain_info : List ℕ
hkdf_domain_info = 100 ∷ 97 ∷ 116 ∷ 97 ∷ []

abbrev pub hkdf_domain_info_ctrl : List ℕ
hkdf_domain_info_ctrl = 99 ∷ 116 ∷ 114 ∷ 108 ∷ []

module _ (expand : List ℕ → List ℕ → ℕ → Option (List ℕ)) where
  -- The key and the salt out of the bytes of the expansion.
  unfoldable pub split_material : Option (List ℕ) → Option PlaneAead
  split_material none = none
  split_material (some okm) =
      some (record { key = take aead_key_len okm; salt = drop aead_key_len okm })

  unfoldable pub derive_data_plane_material : List ℕ → ℕ → ℕ → Option PlaneAead
  unfolding split_material be_bytes_u32
  derive_data_plane_material network_key sender_vip receiver_vip = split_material (
      expand network_key
        (hkdf_domain_info ++ (be_bytes_u32 sender_vip ++ be_bytes_u32 receiver_vip))
        (aead_key_len + data_salt_len))

  unfoldable pub derive_control_plane_material : List ℕ → Option PlaneAead
  unfolding split_material
  derive_control_plane_material network_key =
      split_material (expand network_key hkdf_domain_info_ctrl (aead_key_len + data_salt_len))

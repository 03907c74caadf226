-- ===== src/Packet/Datagram.antt =====
-- Datagrams (src/net/packet.rs): the type byte of a compact one, the four-byte tag of a control one.
use mathlib.Core.Option.{some-injective}
use mathlib.Core.Path.{subst}
use mint_connect_unit.Prelude.{
  Bool-cases, List, Option, Option-cases, [], arith, drop, drop-append_length, eqb, false,
  get_elem?, if◌then◌else◌, inl, inr, length, length-append, le→ltb_false, ltb, min, none, refl,
  some, take, take-append_length, true, ℕ, ◌++◌, ◌↔◌, ◌∷◌, ◌≡◌,
}

pub data CompactPacketType : Type 0 where
  data_packet encrypted fec reliable acknowledge join_ack ping pong : CompactPacketType

unfoldable pub to_byte : CompactPacketType → ℕ
to_byte data_packet = 1
to_byte encrypted = 2
to_byte fec = 3
to_byte reliable = 4
to_byte acknowledge = 5
to_byte join_ack = 6
to_byte ping = 7
to_byte pong = 8

-- `none` for `InvalidCompactType`; the three arms that give it are one here.
unfoldable pub try_from_byte : ℕ → Option CompactPacketType
try_from_byte b =
    if eqb b 1
    then some data_packet
    else if eqb b 2
    then some encrypted
    else if eqb b 3
    then some fec
    else if eqb b 4
    then some reliable
    else if eqb b 5
    then some acknowledge
    else if eqb b 6
    then some join_ack
    else if eqb b 7
    then some ping
    else if eqb b 8
    then some pong
    else none

pub data DatagramKind : Type 0 where
  compact : CompactPacketType → List ℕ → DatagramKind
  control : List ℕ → List ℕ → DatagramKind

abbrev pub control_tag_len : ℕ
control_tag_len = 4

-- The byte of the letter M.
abbrev pub letter_m : ℕ
letter_m = 77

unfoldable pub parse_compact : List ℕ → Option (CompactPacketType × List ℕ)
parse_compact [] = none
parse_compact (b ∷ rest) = elim (try_from_byte b) [ none ↦ none | some ty ↦ some (ty, rest) ]

unfoldable pub parse_datagram : List ℕ → Option DatagramKind
parse_datagram [] = none
parse_datagram (b ∷ rest) =
    let buf = b ∷ rest in
    if eqb b letter_m
    then (if ltb (length buf) control_tag_len
        then none
        else some (control (take control_tag_len buf) (drop control_tag_len buf)))
    else elim (try_from_byte b) [ none ↦ none | some ty ↦ some (compact ty rest) ]

unfoldable pub frame_compact : CompactPacketType → List ℕ → List ℕ
frame_compact ty body = to_byte ty ∷ body

unfoldable pub frame_with_tag : List ℕ → List ℕ → List ℕ
frame_with_tag tag body = tag ++ body

unfoldable pub parse_tag : List ℕ → Option (List ℕ × List ℕ)
parse_tag buf = if ltb (length buf) 4 then none else some (take 4 buf, drop 4 buf)

-- One hop more, if the count that came in is not 0.
unfoldable pub prxy_forwarded_ttl : ℕ → Option ℕ
prxy_forwarded_ttl inbound_ttl = if ltb 0 (min inbound_ttl 1) then some 0 else none

-- A byte is the type byte of `ty` exactly if it is read as `ty`.
pub try_from_byte_iff :
    (b : ℕ) (ty : CompactPacketType) → (try_from_byte b ≡ some ty) ↔ (b ≡ to_byte ty)
unfolding try_from_byte to_byte
try_from_byte_iff b data_packet = ground arith
try_from_byte_iff b encrypted = ground arith
try_from_byte_iff b fec = ground arith
try_from_byte_iff b reliable = ground arith
try_from_byte_iff b acknowledge = ground arith
try_from_byte_iff b join_ack = ground arith
try_from_byte_iff b ping = ground arith
try_from_byte_iff b pong = ground arith

not_letter_m : (ty : CompactPacketType) → eqb (to_byte ty) letter_m ≡ false
unfolding to_byte
not_letter_m data_packet = refl
not_letter_m encrypted = refl
not_letter_m fec = refl
not_letter_m reliable = refl
not_letter_m acknowledge = refl
not_letter_m join_ack = refl
not_letter_m ping = refl
not_letter_m pong = refl

-- A compact datagram is read back as its type and its body, and never as a control one.
pub parse-frame_compact :
    (ty : CompactPacketType) (body : List ℕ)
    → parse_datagram (frame_compact ty body) ≡ some (compact ty body)
unfolding parse_datagram frame_compact
parse-frame_compact ty body = rw (not_letter_m ty, (try_from_byte_iff (to_byte ty) ty).1 refl)

-- A control datagram whose tag has four bytes and begins with the letter M is read back as its tag and its body.
pub parse-frame_with_tag :
    (tag body : List ℕ)
    → length tag ≡ control_tag_len
    → get_elem? tag 0 ≡ some letter_m
    → parse_datagram (frame_with_tag tag body) ≡ some (control tag body)
unfolding parse_datagram frame_with_tag
parse-frame_with_tag [] body h m = absurd (cc m)
parse-frame_with_tag (t ∷ tag) body h m =
    let head : eqb t letter_m ≡ true = ground (arith, some-injective t letter_m m) in
    let long : ltb (length ((t ∷ tag) ++ body)) control_tag_len ≡ false =
      le→ltb_false _ _ (omega (arith, h, length-append tag body)) in
    let front : take control_tag_len ((t ∷ tag) ++ body) ≡ t ∷ tag =
      subst (λ n. take n ((t ∷ tag) ++ body) ≡ t ∷ tag) h (take-append_length (t ∷ tag) body) in
    let back : drop control_tag_len ((t ∷ tag) ++ body) ≡ body =
      subst (λ n. drop n ((t ∷ tag) ++ body) ≡ body) h (drop-append_length (t ∷ tag) body) in
    rw (head, long, front, back)

-- Two datagrams that are read as the same compact packet are the same bytes.
pub parse_datagram-compact :
    (buf : List ℕ) (ty : CompactPacketType) (body : List ℕ)
    → parse_datagram buf ≡ some (compact ty body)
    → buf ≡ frame_compact ty body
unfolding parse_datagram frame_compact
parse_datagram-compact [] ty body h = absurd (cc h)
parse_datagram-compact (b ∷ rest) ty body h = elim (Bool-cases (eqb b letter_m)) [
  | inl m ↦ elim (Bool-cases (ltb (length (b ∷ rest)) control_tag_len)) [
    | inl short ↦ absurd (cc (rw (m, short) at h))
    | inr long ↦ absurd (cc (rw (m, long) at h))
  ]
  | inr m ↦ elim (Option-cases (try_from_byte b)) [
    | inl e ↦ absurd (cc (rw (m, e) at h))
    | inr (t, e) ↦
        let r : compact t rest ≡ compact ty body = some-injective _ _ (rw (m, e) at h) in
        let same : b ≡ to_byte t = (try_from_byte_iff b t).0 e in cc (r, same)
  ]
]

-- ===== src/Crypto/Wire.antt =====
-- The counter on the wire, the nonce and the invitation (src/crypto.rs). A byte is a number below 256. The
-- base-64 alphabet is a parameter.
use mathlib.Core.Path.{subst}
use native.Mathlib.Nat.{pow-suc}
use mint_connect_unit.Prelude.{
  List, Option, [], ap, arith, eqb, if◌then◌else◌, length, le→ltb_false, ltb, lt→ltb, none, not,
  refl, some, suc, sym, take, true, zero, ℕ, ◌%◌, ◌*◌, ◌++◌, ◌+◌, ◌-◌, ◌/◌, ◌<◌, ◌^◌, ◌||◌, ◌∷◌,
  ◌≡◌, ◌≤◌,
}

abbrev pub wire_counter_len : ℕ
wire_counter_len = 6

abbrev pub data_replay_max_counter : ℕ
data_replay_max_counter = 2 ^ 48 - 1

-- The low `n` bytes of a number, the lowest first, and the number that such bytes stand for.
unfoldable pub le_bytes : ℕ → ℕ → List ℕ
le_bytes zero x = []
le_bytes (suc n) x = x % 256 ∷ le_bytes n (x / 256)

unfoldable pub from_le_bytes : List ℕ → ℕ
from_le_bytes [] = 0
from_le_bytes (b ∷ bs) = b + 256 * from_le_bytes bs

-- `none` for "counter exhausted".
unfoldable pub encode_wire_counter : ℕ → Option (List ℕ)
encode_wire_counter counter =
    if ltb data_replay_max_counter counter then none else some (le_bytes wire_counter_len counter)

-- The two bytes that are not on the wire are 0.
unfoldable pub decode_wire_counter : List ℕ → ℕ
decode_wire_counter counter_wire = from_le_bytes (counter_wire ++ (0 ∷ 0 ∷ []))

unfoldable pub nonce_from_counter : List ℕ → List ℕ → List ℕ
nonce_from_counter salt counter_wire = salt ++ counter_wire

abbrev pub invite_version : ℕ
invite_version = 1

abbrev pub invite_wire_len : ℕ
invite_wire_len = 34

pub record InvitePayload : Type 0 where
  pub version : ℕ
  pub protocol : ℕ
  pub key : List ℕ

unfoldable pub raw_invite : InvitePayload → List ℕ
raw_invite payload = payload.version ∷ payload.protocol ∷ payload.key

-- `none` for "unsupported invite format".
unfoldable pub read_invite : List ℕ → Option InvitePayload
read_invite [] = none
read_invite (v ∷ []) = none
read_invite (v ∷ protocol ∷ rest) =
    if not (eqb (length (v ∷ protocol ∷ rest)) invite_wire_len) || not (eqb v invite_version)
    then none
    else some (record { version = invite_version; protocol = protocol; key = take 32 rest })

-- The bytes that are written and those that are read, for the texts of a base-64 alphabet.
module _ {ℓ} {Text : Type ℓ} (encode : List ℕ → Text) (decode : Text → Option (List ℕ)) where
  unfoldable pub encode_invite : InvitePayload → Text
  unfolding raw_invite
  encode_invite payload = encode (raw_invite payload)

  unfoldable pub decode_invite : Text → Option InvitePayload
  unfolding read_invite
  decode_invite invite = elim (decode invite) [ none ↦ none | some raw ↦ read_invite raw ]

le_bytes_back : (n x : ℕ) → x < 256 ^ n → from_le_bytes (le_bytes n x ++ (0 ∷ 0 ∷ [])) ≡ x
unfolding le_bytes from_le_bytes
le_bytes_back zero x h = omega arith
le_bytes_back (suc n) x h =
    let smaller : x / 256 < 256 ^ n = omega (arith, pow-suc 256 n) in
    let ih = le_bytes_back n (x / 256) smaller in omega (arith, ih)

pub length-le_bytes : (n x : ℕ) → length (le_bytes n x) ≡ n
unfolding le_bytes
length-le_bytes zero x = refl
length-le_bytes (suc n) x = ap suc (length-le_bytes n (x / 256))

-- A counter of at most 48 bits is encoded, as six bytes that decode to it; a larger one is refused.
pub wire_counter_roundtrip :
    (counter : ℕ)
    → (counter ≤ data_replay_max_counter
        → (w : List ℕ) × (encode_wire_counter counter ≡ some w)
          × (length w ≡ wire_counter_len)
          × (decode_wire_counter w ≡ counter))
      × (data_replay_max_counter < counter → encode_wire_counter counter ≡ none)
unfolding encode_wire_counter decode_wire_counter
wire_counter_roundtrip counter = (
  λ h. (
    le_bytes wire_counter_len counter,
    rw (le→ltb_false _ counter h),
    length-le_bytes wire_counter_len counter,
    le_bytes_back wire_counter_len counter (omega arith),
  ),
  λ h. rw (lt→ltb _ counter h),
)

take-length {ℓ} : {A : Type ℓ} (xs : List A) → take (length xs) xs ≡ xs
take-length [] = refl
take-length (x ∷ xs) = ap (◌∷◌ x) (take-length xs)

read_back :
    (p : InvitePayload)
    → p.version ≡ invite_version
    → length p.key ≡ 32
    → read_invite (raw_invite p) ≡ some p
unfolding read_invite raw_invite
read_back p v k =
    let known : eqb p.version invite_version ≡ true = ground arith in
    let long : eqb (length (p.version ∷ p.protocol ∷ p.key)) invite_wire_len ≡ true =
      ground arith in
    let whole : take 32 p.key ≡ p.key = subst (λ n. take n p.key ≡ p.key) k (take-length p.key) in
    rw (known, long, whole) (ap (λ n. some (record p { version = n })) (sym v))

-- An invitation of the known version with a key of 32 bytes is read back as it was, with
-- any alphabet that reads back what it writes.
pub invite_roundtrip {ℓ} :
    {Text : Type ℓ} (encode : List ℕ → Text) (decode : Text → Option (List ℕ))
    → ((raw : List ℕ) → decode (encode raw) ≡ some raw)
    → (payload : InvitePayload) → payload.version ≡ invite_version
    → length payload.key ≡ 32
    → decode_invite encode decode (encode_invite encode decode payload) ≡ some payload
unfolding decode_invite encode_invite read_invite raw_invite
invite_roundtrip encode decode law payload v k =
    rw (decode_invite, law (raw_invite payload)) (read_back payload v k)

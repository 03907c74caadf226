-- ===== src/Packet/Mctl.antt =====
-- The compound control body (src/net/packet.rs). A body is a list of bytes, and `flags` a u16.
use mathlib.Core.Path.{subst}
use mint_connect_unit.Prelude.{
  Bool, List, Option, [], ap, arith, eqb, false, if◌then◌else◌, is_some, length, length-append, ltb,
  none, some, sym, take, take-append_length, true, ℕ, ◌%◌, ◌*◌, ◌++◌, ◌+◌, ◌/◌, ◌<◌, ◌||◌, ◌↔◌, ◌∷◌,
  ◌≡◌, ◌≤◌,
}

pub record MctlParsed : Type 0 where
  pub flags : ℕ
  pub vip : Option (List ℕ)
  pub signaling_ok : Bool

-- `flags & (MCTL_FLAG_HB | MCTL_FLAG_HOL)`: the two low bits.
abbrev pub known_flags : ℕ → ℕ
known_flags flags = flags % 4

-- `flags.to_le_bytes()`, for a u16.
abbrev pub u16_le_bytes : ℕ → List ℕ
u16_le_bytes n = n % 256 ∷ n / 256 % 256 ∷ []

-- Once unknown bits are dropped, flags that are not 0 need the vip.
unfoldable pub encode_mctl : ℕ → Option (List ℕ) → Option (List ℕ)
encode_mctl flags vip =
    if eqb flags 0 then none else if eqb (known_flags flags) 0 then none else elim vip [
      | none ↦ none
      | some v ↦
          if eqb (length v) 0 || ltb 255 (length v)
          then none
          else some (u16_le_bytes (known_flags flags) ++ (length v % 256 ∷ v))
    ]

-- The section of the vip, after the flags.
unfoldable pub parse_vip : ℕ → List ℕ → MctlParsed
parse_vip flags [] = record { flags = flags; vip = none; signaling_ok = false }
parse_vip flags (vip_len ∷ rest) =
    if eqb vip_len 0 || ltb (length rest) vip_len
    then record { flags = flags; vip = none; signaling_ok = false }
    else record { flags = flags; vip = some (take vip_len rest); signaling_ok = true }

unfoldable pub parse_mctl : List ℕ → Option MctlParsed
unfolding parse_vip
parse_mctl [] = none
parse_mctl (a ∷ []) = none
parse_mctl (a ∷ b ∷ rest) =
    let raw_flags = a + 256 * b in
    if eqb raw_flags 0
    then none
    else if eqb (known_flags raw_flags) 0
    then none
    else some (parse_vip (known_flags raw_flags) rest)

-- `encode_mctl` makes a body exactly for flags with a known bit and a vip of 1 to 255 bytes.
pub encode_mctl-some :
    (flags : ℕ) (vip : List ℕ)
    → (is_some (encode_mctl flags (some vip)) ≡ true)
      ↔ ((1 ≤ known_flags flags) × (1 ≤ length vip) × (length vip ≤ 255))
unfolding encode_mctl
encode_mctl-some flags vip = ground arith

-- The bytes of a body.
abbrev body_of : ℕ → List ℕ → List ℕ
body_of flags vip = u16_le_bytes (known_flags flags) ++ (length vip % 256 ∷ vip)

encode_mctl-body_of :
    (flags : ℕ) (vip body : List ℕ)
    → encode_mctl flags (some vip) ≡ some body
    → body_of flags vip ≡ body
unfolding encode_mctl
encode_mctl-body_of flags vip body h = ground arith

flags_back : (f : ℕ) → f < 4 → f % 256 + 256 * (f / 256 % 256) ≡ f
flags_back f h = omega arith

parse_vip-append :
    (flags : ℕ) (vip behind : List ℕ) (n : ℕ)
    → n ≡ length vip
    → 1 ≤ n
    → parse_vip flags (n ∷ vip ++ behind)
      ≡ record { flags = flags; vip = some vip; signaling_ok = true }
unfolding parse_vip
parse_vip-append flags vip behind n e h =
    let fits : (eqb n 0 || ltb (length (vip ++ behind)) n) ≡ false =
      ground (arith, length-append vip behind) in
    let front : take n (vip ++ behind) ≡ vip =
      subst (λ k. take k (vip ++ behind) ≡ vip) (sym e) (take-append_length vip behind) in
    rw (fits, front)

read_back :
    (a b n k : ℕ) (vip behind : List ℕ)
    → a + 256 * b ≡ k
    → 1 ≤ k
    → k < 4
    → n ≡ length vip
    → 1 ≤ length vip
    → parse_mctl (a ∷ b ∷ n ∷ vip ++ behind)
      ≡ some (record { flags = k; vip = some vip; signaling_ok = true })
unfolding parse_mctl
read_back a b n k vip behind e lo hi f one =
    let some_bits : eqb (a + 256 * b) 0 ≡ false = ground arith in
    let known : eqb (known_flags (a + 256 * b)) 0 ≡ false = ground arith in
    let same : known_flags (a + 256 * b) ≡ k = omega arith in
    rw (some_bits, known, same, parse_vip-append k vip behind n f (omega arith))

-- A body that `encode_mctl` makes is read back as the known flags and the vip, also with more bytes
-- behind it.
pub parse-encode_mctl :
    (flags : ℕ) (vip body behind : List ℕ)
    → encode_mctl flags (some vip) ≡ some body
    → parse_mctl (body ++ behind)
      ≡ some (record { flags = known_flags flags; vip = some vip; signaling_ok = true })
parse-encode_mctl flags vip body behind h =
    let (known, one, short) = (encode_mctl-some flags vip).0 (ap is_some h) in
    let k = known_flags flags in
    subst
      (λ b.
        parse_mctl (b ++ behind) ≡ some (record { flags = k; vip = some vip; signaling_ok = true }))
      (encode_mctl-body_of flags vip body h)
      (read_back (k % 256) (k / 256 % 256) (length vip % 256) k vip behind
        (flags_back k (omega arith)) known (omega arith) (omega arith) one)

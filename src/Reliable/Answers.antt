-- ===== src/Reliable/Answers.antt =====
-- What a send enters and an acknowledgement removes, and the estimates of the round trip (src/net/reliable.rs).
use mint_connect_unit.Addr.{SocketAddr, addr_key, same_ip_iff}
use mint_connect_unit.Packet.Datagram.{
  CompactPacketType, compact, frame_compact, parse-frame_compact, parse_datagram, reliable, to_byte,
}
use mint_connect_unit.Prelude.{
  Bool-cases, List, Option, Option-cases, arith, eqb, eqb_iff, inl, inr, leb, length, max, min,
  none, refl, some, true, ℕ, ℕ_key, ◌*◌, ◌++◌, ◌+◌, ◌<◌, ◌^◌, ◌∙◌, ◌∷◌, ◌≡◌, ◌≢◌, ◌≤◌, ◌⊎◌,
}
use mint_connect_unit.Prelude.Table.{
  length-insert, lookup, lookup-insert_ne, lookup-insert_self, lookup-remove, remove,
}
use mint_connect_unit.Reliable.Channel.{
  PendingPacket, ReliableChannel, ack_addr_ok, backpressure, channel_on_ack, enter_packet,
  first_sent, queued, queued_packet, refresh_next_due, reliable_packet, send, take_sample,
  u32_be_bytes,
}
use mint_connect_unit.Reliable.Timer.{
  compute_rto_ms, hinted_rto, initial_rto_for_send, next_rttvar, next_srtt, positive_hint, rto_sum,
  rttvar_sum, srtt_min_ms, srtt_sum, ℤ,
}

pending-refresh : (c : ReliableChannel) → (refresh_next_due c).pending ≡ c.pending
unfolding refresh_next_due
pending-refresh c = refl

pending-sample :
    (now : ℕ) (p : PendingPacket) (c : ReliableChannel) → (take_sample now p c).pending ≡ c.pending
unfolding take_sample
pending-sample now p c = elim (Bool-cases p.retransmitted) [ inl t ↦ rw t refl | inr f ↦ rw f refl ]

ack_addr_ok-ip :
    (from : SocketAddr) (p : PendingPacket) → ack_addr_ok from p ≡ true → from.ip ≡ p.dest.ip
ack_addr_ok-ip from p h = (same_ip_iff from.ip p.dest.ip).0 (ground (arith, h))

-- An acknowledgement leaves the entry of a sequence number as it was, or it is the one acknowledged, its packet went to
-- the IP address of the sender, and the entry is gone.
pub channel_on_ack-pending :
    (c : ReliableChannel) (now seq k : ℕ) (from : SocketAddr)
    → (lookup k (channel_on_ack c now seq from).pending ≡ lookup k c.pending)
      ⊎ ((seq ≡ k)
          × (lookup k (channel_on_ack c now seq from).pending ≡ none)
          × ((p : PendingPacket) × (lookup k c.pending ≡ some p) × (from.ip ≡ p.dest.ip)))
unfolding channel_on_ack
channel_on_ack-pending c now seq k from = elim (Option-cases (lookup seq c.pending)) [
  | inl n ↦ inl (rw (channel_on_ack, n) refl)
  | inr (p, l) ↦ elim (Bool-cases (ack_addr_ok from p)) [
    | inl t ↦
        let removed = record c { pending = remove seq c.pending } in
        let left : (channel_on_ack c now seq from).pending ≡ remove seq c.pending =
          rw (channel_on_ack, l, t)
            (pending-refresh (take_sample now p removed) ∙ pending-sample now p removed) in
        elim (Bool-cases (eqb seq k)) [
          | inl e ↦
              let same : seq ≡ k = (eqb_iff seq k).0 e in
              inr (
                same,
                rw (left, lookup-remove seq k c.pending, e) refl,
                (p, cc (same, l), ack_addr_ok-ip from p t),
              )
          | inr f ↦ inl (rw (left, lookup-remove seq k c.pending, f) refl)
        ]
    | inr f ↦ inl (rw (channel_on_ack, l, f) refl)
  ]
]

entered : ReliableChannel → ℕ → CompactPacketType → List ℕ → SocketAddr → Option ℤ → PendingPacket
entered c now inner body dest hint =
    queued_packet c now (reliable_packet c.next_seq inner body) dest hint

-- With fewer than `max_pending` packets pending, a send gives a packet that is read as a reliable one with the next sequence number in four
-- bytes, and enters it under that number; otherwise it changes nothing. Every other entry stays, and there are never more than
-- `max_pending` after it if there were not before.
pub send_lem :
    (c : ReliableChannel) (now : ℕ) (inner : CompactPacketType) (body : List ℕ) (dest : SocketAddr)
    (hint : Option ℤ)
    → (c.max_pending ≤ length c.pending × (send c now inner body dest hint ≡ (c, backpressure)))
      ⊎ ((bytes : List ℕ) × ((send c now inner body dest hint).1 ≡ queued c.next_seq bytes)
          × (parse_datagram bytes
              ≡ some (compact reliable (u32_be_bytes c.next_seq ++ to_byte inner ∷ body)))
          × (lookup c.next_seq (send c now inner body dest hint).0.pending
              ≡ some (queued_packet c now bytes dest hint))
          × ((k : ℕ)
              → c.next_seq ≢ k
              → lookup k (send c now inner body dest hint).0.pending ≡ lookup k c.pending)
          × (length (send c now inner body dest hint).0.pending ≤ c.max_pending))
unfolding send enter_packet refresh_next_due reliable_packet frame_compact entered
send_lem c now inner body dest hint = elim (Bool-cases (leb c.max_pending (length c.pending))) [
  | inl t ↦ inl (ground (arith, t), rw t refl)
  | inr f ↦ inr (
    reliable_packet c.next_seq inner body,
    rw f refl,
    parse-frame_compact reliable (u32_be_bytes c.next_seq ++ to_byte inner ∷ body),
    rw f (rw (lookup-insert_self c.next_seq (entered c now inner body dest hint) c.pending) refl),
    λ k n. rw f (lookup-insert_ne c.next_seq k (entered c now inner body dest hint) c.pending n),
    rw f (
        ground (arith, f, length-insert c.next_seq (entered c now inner body dest hint) c.pending)),
  )
]

abbrev pub rtt_limit : ℕ
rtt_limit = 2 ^ 28

-- What the estimates of a channel keep.
abbrev pub EstimatesFit : ReliableChannel → Type 0
EstimatesFit c =
    (srtt_min_ms ≤ c.srtt_ms)
    × (c.srtt_ms < rtt_limit)
    × (1 ≤ c.rttvar_ms)
    × (c.rttvar_ms < rtt_limit)

-- No sum of i32 overflows: those of an update by `rtt_ms`, and that of a timeout.
abbrev pub SumsFit : ReliableChannel → ℕ → Type 0
SumsFit c rtt_ms =
    (rttvar_sum c.srtt_ms c.rttvar_ms rtt_ms < 2 ^ 31)
    × (srtt_sum c.srtt_ms rtt_ms < 2 ^ 31)
    × (rto_sum c.srtt_ms c.rttvar_ms < 2 ^ 31)

abbrev pub timeout : ReliableChannel → ℕ
timeout c = compute_rto_ms c.srtt_ms c.rttvar_ms c.rto_min_ms c.rto_max_ms

-- The timeout of the estimates is within its two bounds, and but for these covers the smoothed round trip and four
-- times its variation, with at most 6 milliseconds to spare.
abbrev pub Covers : ReliableChannel → Type 0
Covers c =
    let need = c.srtt_ms + 4 * c.rttvar_ms in
    (c.rto_min_ms ≤ timeout c)
    × (timeout c ≤ c.rto_max_ms)
    × (min c.rto_max_ms need ≤ timeout c)
    × (timeout c ≤ max c.rto_min_ms (need + 6))

-- The first timeout of a packet lies between the lower bound and the timeout of the estimates.
abbrev pub FirstFits : ReliableChannel → Option ℤ → Type 0
FirstFits c hint =
    let first = initial_rto_for_send c.srtt_ms c.rttvar_ms hint c.rto_min_ms c.rto_max_ms in
    (c.rto_min_ms ≤ first) × (first ≤ timeout c)

module _ (c : ReliableChannel) where
  estimates-SumsFit : (rtt_ms : ℕ) → rtt_ms < rtt_limit → EstimatesFit c → SumsFit c rtt_ms
  unfolding rttvar_sum srtt_sum rto_sum
  estimates-SumsFit rtt_ms small f = (omega (arith, f), omega (arith, f), omega (arith, f))

  timeout-Covers : EstimatesFit c → c.rto_min_ms ≤ c.rto_max_ms → Covers c
  unfolding compute_rto_ms rto_sum
  timeout-Covers f tuned = (omega (arith, f), omega (arith, f), omega (arith, f), omega (arith, f))

  initial_rto_for_send-FirstFits :
      (hint : Option ℤ) → c.rto_min_ms ≤ c.rto_max_ms → FirstFits c hint
  unfolding initial_rto_for_send hinted_rto compute_rto_ms rto_sum
  initial_rto_for_send-FirstFits hint tuned = elim (Option-cases (positive_hint hint)) [
    | inl n ↦ rw (initial_rto_for_send, n) (omega arith, omega arith)
    | inr (r, n) ↦ rw (initial_rto_for_send, n) (omega arith, omega arith)
  ]

  take_sample-bounds :
      (now : ℕ) (p : PendingPacket)
      → ((take_sample now p c).rto_min_ms ≡ c.rto_min_ms)
        × ((take_sample now p c).rto_max_ms ≡ c.rto_max_ms)
  unfolding take_sample
  take_sample-bounds now p = elim (Bool-cases p.retransmitted) [
    | inl t ↦ rw t (refl, refl)
    | inr n ↦ rw n (refl, refl)
  ]

  take_sample-Fit :
      (now : ℕ) (p : PendingPacket)
      → now < first_sent p + rtt_limit
      → EstimatesFit c
      → EstimatesFit (take_sample now p c)
  unfolding take_sample next_rttvar next_srtt rttvar_sum srtt_sum
  take_sample-Fit now p recent f = elim (Bool-cases p.retransmitted) [
    | inl t ↦ rw t f
    | inr n ↦ rw n (omega (arith, f), omega (arith, f), omega (arith, f), omega (arith, f))
  ]

-- An acknowledgement leaves the bounds of the timeout alone and keeps the estimates.
channel_on_ack-Estimates :
    (c : ReliableChannel) (now seq : ℕ) (from : SocketAddr)
    → EstimatesFit c
    → ((p : PendingPacket) → lookup seq c.pending ≡ some p → now < first_sent p + rtt_limit)
    → let r = channel_on_ack c now seq from in
      (r.rto_min_ms ≡ c.rto_min_ms) × (r.rto_max_ms ≡ c.rto_max_ms) × EstimatesFit r
unfolding channel_on_ack refresh_next_due
channel_on_ack-Estimates c now seq from f recent = elim (Option-cases (lookup seq c.pending)) [
  | inl n ↦ rw (channel_on_ack, n) (refl, refl, f)
  | inr (p, l) ↦ elim (Bool-cases (ack_addr_ok from p)) [
    | inr b ↦ rw (channel_on_ack, l, b) (refl, refl, f)
    | inl b ↦
        let removed = record c { pending = remove seq c.pending } in
        let (lo, hi) = take_sample-bounds removed now p in
        rw (channel_on_ack, l, b) (lo, hi, take_sample-Fit removed now p (recent p l) f)
  ]
]

-- An acknowledgement leaves the two bounds of the timeout as they were, and if the packet was first sent less
-- than 2^28 milliseconds ago, it keeps the estimates from 5 and from 1 on and below 2^28. With them no sum of
-- the next update, by a round trip below 2^28, reaches 2^31, and no sum of a timeout does; the timeout is
-- within its bounds, and but for these it is at least the smoothed round trip and four times its variation,
-- and at most 6 milliseconds more; and the first timeout of a packet, whatever the hint, lies between the
-- lower bound and that timeout.
pub rtt_estimates-Fit :
    (c : ReliableChannel) (now seq rtt_ms : ℕ) (from : SocketAddr) (hint : Option ℤ)
    → EstimatesFit c
    → c.rto_min_ms ≤ c.rto_max_ms
    → ((p : PendingPacket) → lookup seq c.pending ≡ some p → now < first_sent p + rtt_limit)
    → rtt_ms < rtt_limit
    → let r = channel_on_ack c now seq from in
      (r.rto_min_ms ≡ c.rto_min_ms)
      × (r.rto_max_ms ≡ c.rto_max_ms)
      × EstimatesFit r
      × SumsFit r rtt_ms
      × Covers r
      × FirstFits r hint
rtt_estimates-Fit c now seq rtt_ms from hint f tuned recent small =
    let r = channel_on_ack c now seq from in
    let (lo, hi, g) = channel_on_ack-Estimates c now seq from f recent in
    let bounds : r.rto_min_ms ≤ r.rto_max_ms = omega (arith, lo, hi, tuned) in
    (
      lo,
      hi,
      g,
      estimates-SumsFit r rtt_ms small g,
      timeout-Covers r g bounds,
      initial_rto_for_send-FirstFits r hint bounds,
    )

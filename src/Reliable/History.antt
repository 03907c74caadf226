-- ===== src/Reliable/History.antt =====
-- Any sequence of operations of the channel (src/net/reliable.rs).
use mint_connect_unit.Addr.{SocketAddr, addr_key, same_addr}
use mint_connect_unit.Packet.Datagram.{CompactPacketType}
use mint_connect_unit.Prelude.{
  Bool-cases, List, Option, Option-cases, [], arith, inl, inr, is_some, leb, length, none, refl,
  some, ℕ, ℕ_key, ◌∷◌, ◌≡◌,
}
use mint_connect_unit.Prelude.Table.{lookup}
use mint_connect_unit.Reliable.Channel.{
  ReliableChannel, ReliableTuning, ack_addr_ok, channel_on_ack, clamp_reliable, enter_packet,
  flush_dest, mark_sent, migrate_dest, new_channel, rebuild_due_heap, refresh_next_due,
  reset_session, send, take_sample, tune_channel,
}
use mint_connect_unit.Reliable.Due.{Earliest, Scheduled}
use mint_connect_unit.Reliable.Run.{Tuned, tick-Ends}
use mint_connect_unit.Reliable.Steps.{
  channel_on_ack-Scheduled, flush_dest-Scheduled, mark_sent-Scheduled, migrate_dest-Scheduled,
  new-Scheduled, reset-Scheduled, send-Scheduled, tune-Scheduled,
}
use mint_connect_unit.Reliable.Tick.{TickState, tick_into}
use mint_connect_unit.Reliable.Timer.{ℤ}

-- An operation of the channel, with the instant at which it happens.
pub data Operation : Type 0 where
  op_send : ℕ → CompactPacketType → List ℕ → SocketAddr → Option ℤ → Operation
  op_mark_sent : ℕ → ℕ → Operation
  op_ack : ℕ → ℕ → SocketAddr → Operation
  op_migrate : SocketAddr → SocketAddr → Operation
  op_flush : SocketAddr → Operation
  op_reset : Operation
  op_tune : ReliableTuning → Operation
  op_tick : ℕ → Operation

abbrev ticked : ReliableChannel → Option TickState → ReliableChannel
ticked c none = c
ticked c (some r) = r.channel

unfoldable pub operate : ReliableChannel → Operation → ReliableChannel
operate c (op_send now inner body dest hint) = (send c now inner body dest hint).0
operate c (op_mark_sent seq sent_at) = mark_sent c seq sent_at
operate c (op_ack now seq from) = channel_on_ack c now seq from
operate c (op_migrate a b) = migrate_dest c a b
operate c (op_flush dest) = flush_dest c dest
operate c op_reset = reset_session c
operate c (op_tune t) = tune_channel (clamp_reliable t) c
operate c (op_tick now) = ticked c (tick_into c now)

unfoldable pub operate_all : ReliableChannel → List Operation → ReliableChannel
operate_all c [] = c
operate_all c (o ∷ os) = operate_all (operate c o) os

-- The channel is scheduled and its timeouts are tuned.
pub record Kept (c : ReliableChannel) : Type 0 where
  pub scheduled : Scheduled c
  pub tuned : Tuned c

-- The bounds of the timeouts, which only a tuning changes.
abbrev SameBounds : ReliableChannel → ReliableChannel → Type 0
SameBounds c d = (d.rto_min_ms ≡ c.rto_min_ms) × (d.rto_max_ms ≡ c.rto_max_ms)

module _ (c : ReliableChannel) where
  send-SameBounds :
      (now : ℕ) (inner : CompactPacketType) (body : List ℕ) (dest : SocketAddr) (hint : Option ℤ)
      → SameBounds c (send c now inner body dest hint).0
  unfolding send enter_packet refresh_next_due
  send-SameBounds now inner body dest hint =
      elim (Bool-cases (leb c.max_pending (length c.pending))) [
        | inl t ↦ rw t (refl, refl)
        | inr f ↦ rw f (refl, refl)
      ]

  mark_sent-SameBounds : (seq sent_at : ℕ) → SameBounds c (mark_sent c seq sent_at)
  unfolding mark_sent refresh_next_due
  mark_sent-SameBounds seq sent_at = elim (Option-cases (lookup seq c.pending)) [
    | inl n ↦ rw (mark_sent, n) (refl, refl)
    | inr (p, l) ↦ elim (Bool-cases (is_some p.actual_sent_at)) [
      | inl t ↦ rw (mark_sent, l, t) (refl, refl)
      | inr f ↦ rw (mark_sent, l, f) (refl, refl)
    ]
  ]

  channel_on_ack-SameBounds :
      (now seq : ℕ) (from : SocketAddr) → SameBounds c (channel_on_ack c now seq from)
  unfolding channel_on_ack refresh_next_due take_sample
  channel_on_ack-SameBounds now seq from = elim (Option-cases (lookup seq c.pending)) [
    | inl n ↦ rw (channel_on_ack, n) (refl, refl)
    | inr (p, l) ↦ elim (Bool-cases (ack_addr_ok from p)) [
      | inl t ↦ elim (Bool-cases p.retransmitted) [
        | inl r ↦ rw (channel_on_ack, l, t, r) (refl, refl)
        | inr r ↦ rw (channel_on_ack, l, t, r) (refl, refl)
      ]
      | inr f ↦ rw (channel_on_ack, l, f) (refl, refl)
    ]
  ]

  migrate_dest-SameBounds : (a b : SocketAddr) → SameBounds c (migrate_dest c a b)
  unfolding migrate_dest refresh_next_due
  migrate_dest-SameBounds a b = elim (Bool-cases (same_addr a b)) [
    | inl t ↦ rw t (refl, refl)
    | inr f ↦ rw f (refl, refl)
  ]

  with_bounds : (d : ReliableChannel) → Tuned c → SameBounds c d → Tuned d
  with_bounds d (a, b) (p, q) = rw (p, q) (a, b)

operate-Kept : (c : ReliableChannel) (o : Operation) → Kept c → Kept (operate c o)
unfolding operate clamp_reliable tune_channel reset_session flush_dest rebuild_due_heap
    refresh_next_due
operate-Kept c (op_send now inner body dest hint) k = record {
  scheduled = send-Scheduled c k.scheduled now inner body dest hint;
  tuned =
      with_bounds c (send c now inner body dest hint).0 k.tuned
        (send-SameBounds c now inner body dest hint);
}
operate-Kept c (op_mark_sent seq sent_at) k = record {
  scheduled = mark_sent-Scheduled c k.scheduled seq sent_at;
  tuned = with_bounds c (mark_sent c seq sent_at) k.tuned (mark_sent-SameBounds c seq sent_at);
}
operate-Kept c (op_ack now seq from) k = record {
  scheduled = channel_on_ack-Scheduled c k.scheduled now seq from;
  tuned =
      with_bounds c (channel_on_ack c now seq from) k.tuned
        (channel_on_ack-SameBounds c now seq from);
}
operate-Kept c (op_migrate a b) k = record {
  scheduled = migrate_dest-Scheduled c k.scheduled a b;
  tuned = with_bounds c (migrate_dest c a b) k.tuned (migrate_dest-SameBounds c a b);
}
operate-Kept c (op_flush dest) k = record {
  scheduled = flush_dest-Scheduled c k.scheduled dest;
  tuned = k.tuned;
}
operate-Kept c op_reset k = record { scheduled = reset-Scheduled c k.scheduled; tuned = k.tuned }
operate-Kept c (op_tune t) k = record {
  scheduled = tune-Scheduled c k.scheduled (clamp_reliable t);
  tuned = (omega arith, omega arith);
}
operate-Kept c (op_tick now) k =
    let (r, e, z) = tick-Ends c now k.scheduled k.tuned in
    rw e (record {
      scheduled = record { covered = z.advances.covered; earliest = z.earliest };
      tuned = with_bounds c r.channel k.tuned (z.advances.same_min, z.advances.same_max);
    })

operate_all-Kept : (c : ReliableChannel) (os : List Operation) → Kept c → Kept (operate_all c os)
unfolding operate_all
operate_all-Kept c [] k = k
operate_all-Kept c (o ∷ os) k = operate_all-Kept (operate c o) os (operate-Kept c o k)

new-Kept : Kept new_channel
unfolding new_channel
new-Kept = record { scheduled = new-Scheduled; tuned = (omega arith, omega arith) }

-- After any sequence of operations on a new channel, with tunings as `clamp_all` leaves them, the reported deadline is the least one of the pending packets, or none if there is none.
pub history-Earliest :
    (os : List Operation)
    → Earliest (operate_all new_channel os).next_due_at (operate_all new_channel os).pending
history-Earliest os = (operate_all-Kept new_channel os new-Kept).scheduled.earliest

-- ===== src/Reliable/Steps.antt =====
-- Each operation of the channel but the tick (src/net/reliable.rs) and the deadlines on its heap.
use mathlib.Core.Path.{subst}
use mathlib.Core.Option
use mathlib.Core.Option.{some-injective}
use mint_connect_unit.Addr.{SocketAddr, addr_key, same_addr}
use mint_connect_unit.Packet.Datagram.{CompactPacketType}
use mint_connect_unit.Prelude.{
  Bool-cases, List, Option, Option-cases, [], ap, arith, if-elim, inl, inr, is_some, leb, length,
  not, refl, some, sym, wrapping_add_u32, ℕ, ℕ_key, ◌+◌, ◌∙◌, ◌∷◌, ◌≡◌,
}
use mint_connect_unit.Prelude.Distinct.{Distinct, Distinct-retain, keys-map_values}
use mint_connect_unit.Prelude.Table.{Table, insert, lookup, map_values, modify, remove, retain}
use mint_connect_unit.Reliable.Channel.{
  PendingPacket, ReliableChannel, ReliableTuning, SendResult, ack_addr_ok, backpressure,
  channel_on_ack, enter_packet, flush_dest, mark_sent, migrate_dest, move_packet, new_channel,
  push_deadline, push_due, queued, queued_packet, refresh_next_due, reliable_packet, reset_session,
  send, sent_packet, take_sample, tune_channel,
}
use mint_connect_unit.Reliable.Due.{
  Covered, Covered→but, Scheduled, insert-Covered, modify-Covered, rebuild-Scheduled,
  refresh-Scheduled, remove-Covered,
}
use mint_connect_unit.Reliable.Timer.{ℤ}

lookup-map_values {ℓ} :
    {V : Type ℓ} (f : V → V) (m : Table ℕ V) (k : ℕ)
    → lookup k (map_values f m) ≡ Option.map f (lookup k m)
unfolding lookup
lookup-map_values f [] k = refl
lookup-map_values f ((j, v) ∷ m) k = ground (arith, lookup-map_values f m k)

next_at-move_packet :
    (a b : SocketAddr) (p : PendingPacket) → (move_packet a b p).next_at ≡ p.next_at
next_at-move_packet a b p = ground arith

pub new-Scheduled : Scheduled new_channel
unfolding new_channel lookup
new-Scheduled = record {
  covered = record { distinct = tt; sorted = tt; covers = λ k t p l n. cc };
  earliest = record { reached = λ t e. cc; least = λ k t p l n. cc };
}

take_sample-Covered :
    (now : ℕ) (p : PendingPacket) (c : ReliableChannel)
    → Covered c.pending c.due_heap
    → Covered (take_sample now p c).pending (take_sample now p c).due_heap
unfolding take_sample
take_sample-Covered now p c h = elim (Bool-cases p.retransmitted) [
  | inl t ↦ rw t h
  | inr f ↦ rw f h
]

module _ (c : ReliableChannel) (s : Scheduled c) where
  pub tune-Scheduled : (t : ReliableTuning) → Scheduled (tune_channel t c)
  unfolding tune_channel
  tune-Scheduled t = record { covered = s.covered; earliest = s.earliest }

  pub reset-Scheduled : Scheduled (reset_session c)
  unfolding reset_session new_channel
  reset-Scheduled = record { covered = new-Scheduled.covered; earliest = new-Scheduled.earliest }

  enter_packet-Scheduled :
      (seq : ℕ) (p : PendingPacket) {t : ℕ}
      → p.next_at ≡ some t
      → Scheduled (enter_packet seq p (record c { next_seq = wrapping_add_u32 c.next_seq 1 }))
  unfolding enter_packet push_deadline
  enter_packet-Scheduled seq p {t} n = refresh-Scheduled _ (
      subst (λ d. Covered (insert seq p c.pending) (push_deadline seq d c.due_heap)) (sym n)
        (insert-Covered c.pending c.due_heap seq t p n s.covered))

  pub send-Scheduled :
      (now : ℕ) (inner : CompactPacketType) (body : List ℕ) (dest : SocketAddr) (hint : Option ℤ)
      → Scheduled (send c now inner body dest hint).0
  unfolding send queued_packet
  send-Scheduled now inner body dest hint =
      if-elim {A = ReliableChannel × SendResult} (λ x. Scheduled x.0)
        (leb c.max_pending (length c.pending)) (c, backpressure)
        (
          enter_packet c.next_seq
              (queued_packet c now (reliable_packet c.next_seq inner body) dest hint)
              (record c { next_seq = wrapping_add_u32 c.next_seq 1 }),
          queued c.next_seq (reliable_packet c.next_seq inner body),
        )
        (λ _. s)
        (λ _.
          enter_packet-Scheduled c.next_seq
            (queued_packet c now (reliable_packet c.next_seq inner body) dest hint) refl)

  pub mark_sent-Scheduled : (seq sent_at : ℕ) → Scheduled (mark_sent c seq sent_at)
  unfolding mark_sent
  mark_sent-Scheduled seq sent_at = elim (Option-cases (lookup seq c.pending)) [
    | inl n ↦ rw (mark_sent, n) s
    | inr (p, l) ↦ elim (Bool-cases (is_some p.actual_sent_at)) [
      | inl t ↦ rw (mark_sent, l, t) s
      | inr f ↦
          rw (mark_sent, l, f)
            (refresh-Scheduled
              (record c {
                pending = modify seq (sent_packet sent_at) c.pending;
                due_heap = push_due (sent_at + p.rto_ms, seq) c.due_heap;
              })
              (modify-Covered c.pending c.due_heap seq (sent_at + p.rto_ms) p (sent_packet sent_at)
                l refl (Covered→but seq c.pending c.due_heap s.covered)))
    ]
  ]

  pub channel_on_ack-Scheduled :
      (now seq : ℕ) (from : SocketAddr) → Scheduled (channel_on_ack c now seq from)
  unfolding channel_on_ack
  channel_on_ack-Scheduled now seq from = elim (Option-cases (lookup seq c.pending)) [
    | inl n ↦ rw (channel_on_ack, n) s
    | inr (p, l) ↦ elim (Bool-cases (ack_addr_ok from p)) [
      | inl t ↦
          let removed = record c { pending = remove seq c.pending } in
          rw (channel_on_ack, l, t)
            (refresh-Scheduled (take_sample now p removed) (
              take_sample-Covered now p removed (
                remove-Covered c.pending c.due_heap seq
                  (Covered→but seq c.pending c.due_heap s.covered))))
      | inr f ↦ rw (channel_on_ack, l, f) s
    ]
  ]

  moved-Covered : (a b : SocketAddr) → Covered (map_values (move_packet a b) c.pending) c.due_heap
  moved-Covered a b = record {
    distinct =
        subst Distinct (sym (keys-map_values (move_packet a b) c.pending)) s.covered.distinct;
    sorted = s.covered.sorted;
    covers = λ k t p l n.
        let m = lookup-map_values (move_packet a b) c.pending k in
        elim (Option-cases (lookup k c.pending)) [
          | inl e ↦ absurd (cc (l, m, ap (Option.map (move_packet a b)) e))
          | inr (q, e) ↦
              let r : some (move_packet a b q) ≡ some p =
                sym (m ∙ ap (Option.map (move_packet a b)) e) ∙ l in
              let d : (move_packet a b q).next_at ≡ some t =
                cc (some-injective (move_packet a b q) p r, n) in
              s.covered.covers k t q e (sym (next_at-move_packet a b q) ∙ d)
        ];
  }

  pub migrate_dest-Scheduled : (a b : SocketAddr) → Scheduled (migrate_dest c a b)
  unfolding migrate_dest
  migrate_dest-Scheduled a b =
      if-elim Scheduled (same_addr a b) c
        (refresh_next_due (record c { pending = map_values (move_packet a b) c.pending })) (λ _. s)
        (λ _.
          refresh-Scheduled (record c { pending = map_values (move_packet a b) c.pending })
            (moved-Covered a b))

  pub flush_dest-Scheduled : (dest : SocketAddr) → Scheduled (flush_dest c dest)
  unfolding flush_dest
  flush_dest-Scheduled dest =
      rebuild-Scheduled
        (record c { pending = retain (λ seq p. not (same_addr p.dest dest)) c.pending })
        (Distinct-retain (λ seq p. not (same_addr p.dest dest)) c.pending s.covered.distinct)

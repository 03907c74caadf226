-- ===== src/Reliable/Tests.antt =====
-- Runs of the channel (src/net/reliable.rs) and instances of the theorems about it.
use mint_connect_unit.Addr.{SocketAddr, addr_key, v4}
use mint_connect_unit.Packet.Datagram.{
  acknowledge, compact, join_ack, parse_datagram, reliable, to_byte,
}
use mint_connect_unit.Prelude.{
  List, [], arith, length, none, refl, some, ℕ, ℕ_key, ◌++◌, ◌+◌, ◌<◌, ◌∷◌, ◌≡◌, ◌≢◌, ◌≤◌, ◌⊎◌,
}
use mint_connect_unit.Prelude.Table.{insert, lookup, modify, remove}
use mint_connect_unit.Reliable.Answers.{
  Covers, EstimatesFit, FirstFits, SumsFit, channel_on_ack-pending, rtt_estimates-Fit, rtt_limit,
  send_lem,
}
use mint_connect_unit.Reliable.Channel.{
  PendingPacket, ReliableChannel, ack_packet, backpressure, channel_on_ack, enter_packet,
  first_sent, mark_sent, new_channel, peek_due, pop_stale_top, push_deadline, push_due, queued,
  queued_packet, refresh_next_due, reliable_packet, send, take_sample, u32_be_bytes,
}
use mint_connect_unit.Reliable.Delivery.{delivery_roundtrip, read_ack, read_reliable}
use mint_connect_unit.Reliable.Due.{Earliest, Scheduled}
use mint_connect_unit.Reliable.History.{
  Operation, history-Earliest, op_ack, op_mark_sent, op_send, op_tick, operate_all,
}
use mint_connect_unit.Reliable.Run.{Tuned, tick_into-Scheduled, tick_into-sweep}
use mint_connect_unit.Reliable.Steps.{new-Scheduled, send-Scheduled}
use mint_connect_unit.Reliable.Sweep.{NothingDue, Reported, sweep}
use mint_connect_unit.Reliable.Tick.{TickState, tick_into}
use mint_connect_unit.Reliable.Timer.{
  compute_rto_ms, hinted_rto, initial_rto_for_send, negsuc, next_rttvar, next_srtt, pos,
  positive_hint, rto_sum, rttvar_sum, srtt_sum,
}

abbrev first_seq : ℕ
first_seq = 1

abbrev peer : SocketAddr
peer = record { ip = v4 0x7f000001; port = 4000 }

abbrev one_sent : ReliableChannel
one_sent = (send new_channel 0 join_ack (9 ∷ []) peer none).0

-- The first timeout is 300 milliseconds, and a hint of 20 makes it 60.
first_timeouts :
    (initial_rto_for_send 100 50 none 50 400 ≡ 300)
    × (initial_rto_for_send 100 50 (some (pos 20)) 50 400 ≡ 60)
    × (initial_rto_for_send 100 50 (some (negsuc 4)) 50 400 ≡ 300)
unfolding initial_rto_for_send compute_rto_ms rto_sum hinted_rto positive_hint
first_timeouts = (refl, refl, refl)

deadlines :
    (one_sent.next_due_at ≡ some 300)
    × ((mark_sent one_sent 1 40).next_due_at ≡ some 340)
    × ((channel_on_ack one_sent 30 1 peer).next_due_at ≡ none)
    × ((channel_on_ack one_sent 30 1 peer).srtt_ms ≡ 91)
unfolding new_channel send enter_packet queued_packet push_deadline push_due refresh_next_due
    pop_stale_top peek_due initial_rto_for_send compute_rto_ms rto_sum hinted_rto positive_hint
    insert lookup remove modify mark_sent channel_on_ack take_sample next_srtt next_rttvar srtt_sum
    rttvar_sum reliable_packet
deadlines = (refl, refl, refl, refl)

sent_bytes : reliable_packet 258 join_ack (9 ∷ []) ≡ 4 ∷ 0 ∷ 0 ∷ 1 ∷ 2 ∷ 6 ∷ 9 ∷ []
unfolding reliable_packet u32_be_bytes to_byte
sent_bytes = refl

one_sent-Scheduled : Scheduled one_sent
one_sent-Scheduled = send-Scheduled new_channel new-Scheduled 0 join_ack (9 ∷ []) peer none

one_sent-Tuned : Tuned one_sent
unfolding new_channel send enter_packet refresh_next_due
one_sent-Tuned = (omega arith, omega arith)

tick_into-Scheduled_example :
    (r : TickState) × (tick_into one_sent 1000 ≡ some r)
    × Scheduled r.channel
    × NothingDue 1000 r.channel.pending
    × ((k t : ℕ) (p : PendingPacket)
        → lookup k one_sent.pending ≡ some p
        → p.next_at ≡ some t
        → t ≤ 1000
        → Reported r k p)
tick_into-Scheduled_example = tick_into-Scheduled one_sent 1000 one_sent-Scheduled one_sent-Tuned

tick_into-sweep_example :
    (r : TickState) × (tick_into one_sent 1000 ≡ some r)
    × ((k : ℕ)
        → lookup k r.channel.pending
          ≡ sweep one_sent.rto_min_ms one_sent.rto_max_ms 1000 (lookup k one_sent.pending))
tick_into-sweep_example = tick_into-sweep one_sent 1000 one_sent-Scheduled one_sent-Tuned

abbrev some_operations : List Operation
some_operations =
    op_send 0 join_ack (9 ∷ []) peer none
    ∷ op_mark_sent 1 5
    ∷ op_tick 1000
    ∷ op_ack 1010 1 peer
    ∷ []

history-Earliest_example :
    Earliest
      (operate_all new_channel some_operations).next_due_at
      (operate_all new_channel some_operations).pending
history-Earliest_example = history-Earliest some_operations

channel_on_ack-pending_example :
    (lookup 1 (channel_on_ack one_sent 30 1 peer).pending ≡ lookup 1 one_sent.pending)
    ⊎ ((first_seq ≡ first_seq)
        × (lookup 1 (channel_on_ack one_sent 30 1 peer).pending ≡ none)
        × ((p : PendingPacket) × (lookup 1 one_sent.pending ≡ some p) × (peer.ip ≡ p.dest.ip)))
channel_on_ack-pending_example = channel_on_ack-pending one_sent 30 1 1 peer

send_lem_example :
    (new_channel.max_pending ≤ length new_channel.pending
      × (send new_channel 0 join_ack (9 ∷ []) peer none ≡ (new_channel, backpressure)))
    ⊎ ((bytes : List ℕ) × ((send new_channel 0 join_ack (9 ∷ []) peer none).1
          ≡ queued new_channel.next_seq bytes)
        × (parse_datagram bytes
            ≡ some
                (compact reliable (u32_be_bytes new_channel.next_seq ++ to_byte join_ack ∷ 9 ∷ [])))
        × (lookup new_channel.next_seq one_sent.pending
            ≡ some (queued_packet new_channel 0 bytes peer none))
        × ((k : ℕ)
            → new_channel.next_seq ≢ k
            → lookup k one_sent.pending ≡ lookup k new_channel.pending)
        × (length one_sent.pending ≤ new_channel.max_pending))
send_lem_example = send_lem new_channel 0 join_ack (9 ∷ []) peer none

one_sent-recent :
    (p : PendingPacket) → lookup 1 one_sent.pending ≡ some p → 30 < first_sent p + rtt_limit
one_sent-recent p l = omega arith

one_sent-EstimatesFit : EstimatesFit one_sent
unfolding new_channel send enter_packet refresh_next_due
one_sent-EstimatesFit = ground arith

rtt_estimates-Fit_example :
    let r = channel_on_ack one_sent 30 1 peer in
    (r.rto_min_ms ≡ one_sent.rto_min_ms)
    × (r.rto_max_ms ≡ one_sent.rto_max_ms)
    × EstimatesFit r
    × SumsFit r 40
    × Covers r
    × FirstFits r (some (pos 20))
rtt_estimates-Fit_example =
    rtt_estimates-Fit one_sent 30 1 40 peer (some (pos 20)) one_sent-EstimatesFit one_sent-Tuned.1
      one_sent-recent (omega arith)

delivery_roundtrip_example :
    ((b : List ℕ) × (parse_datagram (reliable_packet 258 join_ack (9 ∷ []))
        ≡ some (compact reliable b))
      × (read_reliable b ≡ some (258, 9 ∷ [])))
    × ((b : List ℕ) × (parse_datagram (ack_packet 258) ≡ some (compact acknowledge b))
        × (read_ack b ≡ some 258))
delivery_roundtrip_example = delivery_roundtrip 258 (9 ∷ [])

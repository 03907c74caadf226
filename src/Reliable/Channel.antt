-- ===== src/Reliable/Channel.antt =====
-- The channel of reliable messages (src/net/reliable.rs). The heap of deadlines is the list of its entries in
-- order, the earliest first; the map of pending packets is a table; a byte is a number below 256. The scratch
-- buffer in which `send` builds a packet keeps no state between the calls and is left out.
use mint_connect_unit.Addr.{SocketAddr, addr_key, same_addr, same_ip}
use mint_connect_unit.Packet.Datagram.{CompactPacketType, acknowledge, reliable, to_byte}
use mint_connect_unit.Prelude.{
  Bool, List, Option, [], eqb, false, if◌then◌else◌, is_some, leb, length, ltb, max, min, none, not,
  some, wrapping_add_u32, ℕ, ℕ_key, ◌%◌, ◌&&◌, ◌++◌, ◌+◌, ◌-◌, ◌/◌, ◌^◌, ◌||◌, ◌∷◌,
}
use mint_connect_unit.Prelude.Table.{Table, insert, lookup, map_values, modify, remove, retain}
use mint_connect_unit.Reliable.Timer.{
  default_rttvar_ms, default_srtt_ms, initial_rto_for_send, next_rttvar, next_srtt, rto_max_default,
  rto_min_default, ℤ,
}

abbrev pub max_pending_default : ℕ
max_pending_default = 256

pub record PendingPacket : Type 0 where
  pub packet : List ℕ
  pub dest : SocketAddr
  pub next_at : Option ℕ
  pub enqueued_at : ℕ
  pub actual_sent_at : Option ℕ
  pub retransmitted : Bool
  pub retries_left : ℕ
  pub rto_ms : ℕ

pub record ReliableChannel : Type 0 where
  pub next_seq : ℕ
  pub pending : Table ℕ PendingPacket
  pub due_heap : List (ℕ × ℕ)
  pub next_due_at : Option ℕ
  pub srtt_ms : ℕ
  pub rttvar_ms : ℕ
  pub rto_min_ms : ℕ
  pub rto_max_ms : ℕ
  pub max_pending : ℕ
  pub retries_left : ℕ

unfoldable pub new_channel : ReliableChannel
new_channel = record {
  next_seq = 1;
  pending = [];
  due_heap = [];
  next_due_at = none;
  srtt_ms = default_srtt_ms;
  rttvar_ms = default_rttvar_ms;
  rto_min_ms = rto_min_default;
  rto_max_ms = rto_max_default;
  max_pending = max_pending_default;
  retries_left = 1;
}

pub record ReliableTuning : Type 0 where
  pub rto_min_ms : ℕ
  pub rto_max_ms : ℕ
  pub max_pending : ℕ
  pub retries_left : ℕ

-- What `AdvancedTuning::clamp_all` makes of the values for the channel.
unfoldable pub clamp_reliable : ReliableTuning → ReliableTuning
clamp_reliable t =
    let rto_min = max t.rto_min_ms 5 in
    record {
      rto_min_ms = rto_min;
      rto_max_ms = max t.rto_max_ms rto_min;
      max_pending = max t.max_pending 16;
      retries_left = min t.retries_left 8;
    }

unfoldable pub tune_channel : ReliableTuning → ReliableChannel → ReliableChannel
tune_channel t c = record c {
  rto_min_ms = t.rto_min_ms;
  rto_max_ms = t.rto_max_ms;
  max_pending = t.max_pending;
  retries_left = t.retries_left;
}

unfoldable pub reset_session : ReliableChannel → ReliableChannel
reset_session c = record c {
  pending = [];
  due_heap = [];
  next_due_at = none;
  next_seq = 1;
  srtt_ms = default_srtt_ms;
  rttvar_ms = default_rttvar_ms;
}

-- `BinaryHeap::push` on the entries in order.
unfoldable pub push_due : ℕ × ℕ → List (ℕ × ℕ) → List (ℕ × ℕ)
push_due e [] = e ∷ []
push_due e (d ∷ h) =
    if ltb e.0 d.0 || eqb e.0 d.0 && leb e.1 d.1 then e ∷ d ∷ h else d ∷ push_due e h

-- `BinaryHeap::peek`, the instant only.
unfoldable pub peek_due : List (ℕ × ℕ) → Option ℕ
peek_due [] = none
peek_due (e ∷ h) = some e.0

abbrev pub same_deadline : Option ℕ → ℕ → Bool
same_deadline none t = false
same_deadline (some u) t = eqb u t

abbrev deadline_valid : ℕ → Option PendingPacket → Bool
deadline_valid t none = false
deadline_valid t (some p) = same_deadline p.next_at t

abbrev pub is_valid_entry : Table ℕ PendingPacket → ℕ × ℕ → Bool
is_valid_entry pending e = deadline_valid e.0 (lookup e.1 pending)

unfoldable pub pop_stale_top : Table ℕ PendingPacket → List (ℕ × ℕ) → List (ℕ × ℕ)
pop_stale_top pending [] = []
pop_stale_top pending (e ∷ h) = if is_valid_entry pending e then e ∷ h else pop_stale_top pending h

unfoldable pub refresh_next_due : ReliableChannel → ReliableChannel
refresh_next_due c =
    let h = pop_stale_top c.pending c.due_heap in
    record c { due_heap = h; next_due_at = peek_due h }

unfoldable pub push_deadline : ℕ → Option ℕ → List (ℕ × ℕ) → List (ℕ × ℕ)
push_deadline seq none h = h
push_deadline seq (some t) h = push_due (t, seq) h

unfoldable pub rebuilt_heap : Table ℕ PendingPacket → List (ℕ × ℕ)
rebuilt_heap [] = []
rebuilt_heap ((seq, p) ∷ m) = push_deadline seq p.next_at (rebuilt_heap m)

unfoldable pub rebuild_due_heap : ReliableChannel → ReliableChannel
rebuild_due_heap c = refresh_next_due (record c { due_heap = rebuilt_heap c.pending })

pub data SendResult : Type 0 where
  queued : ℕ → List ℕ → SendResult
  backpressure : SendResult

-- `to_be_bytes`
unfoldable pub u32_be_bytes : ℕ → List ℕ
u32_be_bytes x = x / 2 ^ 24 ∷ x / 2 ^ 16 % 256 ∷ x / 2 ^ 8 % 256 ∷ x % 256 ∷ []

unfoldable pub reliable_packet : ℕ → CompactPacketType → List ℕ → List ℕ
reliable_packet seq inner body = (to_byte reliable ∷ u32_be_bytes seq) ++ to_byte inner ∷ body

unfoldable pub queued_packet : ReliableChannel → ℕ → List ℕ → SocketAddr → Option ℤ → PendingPacket
queued_packet c now bytes dest rtt_hint_ms =
    let initial_rto =
      initial_rto_for_send c.srtt_ms c.rttvar_ms rtt_hint_ms c.rto_min_ms c.rto_max_ms in
    record {
      packet = bytes;
      dest = dest;
      next_at = some (now + initial_rto);
      enqueued_at = now;
      actual_sent_at = none;
      retransmitted = false;
      retries_left = c.retries_left;
      rto_ms = initial_rto;
    }

-- The pending packet and its deadline are entered, the deadline is refreshed.
unfoldable pub enter_packet : ℕ → PendingPacket → ReliableChannel → ReliableChannel
enter_packet seq p c = refresh_next_due (record c {
  pending = insert seq p c.pending;
  due_heap = push_deadline seq p.next_at c.due_heap;
})

unfoldable pub send :
    ReliableChannel
    → ℕ
    → CompactPacketType
    → List ℕ
    → SocketAddr
    → Option ℤ
    → ReliableChannel × SendResult
send c now inner body dest rtt_hint_ms =
    let seq = c.next_seq in
    let bytes = reliable_packet seq inner body in
    let p = queued_packet c now bytes dest rtt_hint_ms in
    let after = record c { next_seq = wrapping_add_u32 c.next_seq 1 } in
    if leb c.max_pending (length c.pending)
    then (c, backpressure)
    else (enter_packet seq p after, queued seq bytes)

abbrev pub sent_packet : ℕ → PendingPacket → PendingPacket
sent_packet sent_at p = record p {
  actual_sent_at = some sent_at;
  next_at = some (sent_at + p.rto_ms);
}

unfoldable pub mark_sent : ReliableChannel → ℕ → ℕ → ReliableChannel
mark_sent c seq sent_at = elim (lookup seq c.pending) [
  | none ↦ c
  | some p ↦
      if is_some p.actual_sent_at
      then c
      else refresh_next_due (record c {
        pending = modify seq (sent_packet sent_at) c.pending;
        due_heap = push_due (sent_at + p.rto_ms, seq) c.due_heap;
      })
]

unfoldable pub ack_packet : ℕ → List ℕ
ack_packet seq = to_byte acknowledge ∷ u32_be_bytes seq

abbrev pub first_sent : PendingPacket → ℕ
first_sent p = elim p.actual_sent_at [ some t ↦ t | none ↦ p.enqueued_at ]

-- The estimates after the acknowledgement of a packet, which counts only if it was sent once.
unfoldable pub take_sample : ℕ → PendingPacket → ReliableChannel → ReliableChannel
take_sample now p c =
    let rtt_ms = max (now - first_sent p) 1 in
    if p.retransmitted then c else record c {
      rttvar_ms = next_rttvar c.srtt_ms c.rttvar_ms rtt_ms;
      srtt_ms = next_srtt c.srtt_ms rtt_ms;
    }

abbrev pub ack_addr_ok : SocketAddr → PendingPacket → Bool
ack_addr_ok from p = same_addr from p.dest || same_ip from.ip p.dest.ip

unfoldable pub channel_on_ack : ReliableChannel → ℕ → ℕ → SocketAddr → ReliableChannel
channel_on_ack c now seq from = elim (lookup seq c.pending) [
  | none ↦ c
  | some p ↦
      if ack_addr_ok from p
      then refresh_next_due (take_sample now p (record c { pending = remove seq c.pending }))
      else c
]

abbrev pub move_packet : SocketAddr → SocketAddr → PendingPacket → PendingPacket
move_packet old_dest new_dest p =
    if same_addr p.dest old_dest then record p { dest = new_dest } else p

unfoldable pub migrate_dest : ReliableChannel → SocketAddr → SocketAddr → ReliableChannel
migrate_dest c old_dest new_dest =
    if same_addr old_dest new_dest
    then c
    else refresh_next_due
        (record c { pending = map_values (move_packet old_dest new_dest) c.pending })

unfoldable pub flush_dest : ReliableChannel → SocketAddr → ReliableChannel
flush_dest c dest =
    rebuild_due_heap
      (record c { pending = retain (λ seq p. not (same_addr p.dest dest)) c.pending })

-- ===== src/Reliable/Tick.antt =====
-- `tick_into` (src/net/reliable.rs): the loop over the heap, on fuel that its entries and the retries that are
-- left bound.
use mint_connect_unit.Addr.{SocketAddr, addr_key}
use mint_connect_unit.Prelude.{
  Bool, List, Option, [], clamp, eqb, false, if◌then◌else◌, length, ltb, min, none, not, some, suc,
  true, zero, ℕ, ℕ_key, ◌%◌, ◌*◌, ◌++◌, ◌+◌, ◌-◌, ◌^◌, ◌∷◌,
}
use mint_connect_unit.Prelude.Table.{Table, lookup, modify, remove}
use mint_connect_unit.Reliable.Channel.{
  PendingPacket, ReliableChannel, pop_stale_top, push_deadline, rebuild_due_heap, same_deadline,
}

pub record TickState : Type 0 where
  pub channel : ReliableChannel
  pub out : List (List ℕ × SocketAddr)
  pub failures : List (ℕ × SocketAddr)

pub data TickStep : Type 0 where
  finished : TickState → TickStep
  again : TickState → TickStep

abbrev pub with_channel : TickState → ReliableChannel → TickState
with_channel s c = record s { channel = c }

abbrev earlier : Option ℕ → Option ℕ → Option ℕ
earlier none d = d
earlier (some t) none = some t
earlier (some t) (some u) = some (min t u)

-- `values().filter_map(|p| p.next_at).min()`
unfoldable pub min_deadline : Table ℕ PendingPacket → Option ℕ
min_deadline [] = none
min_deadline ((seq, p) ∷ m) = earlier p.next_at (min_deadline m)

abbrev pub is_empty {ℓ} : {A : Type ℓ} → List A → Bool
is_empty [] = true
is_empty (x ∷ xs) = false

-- No deadline is left on the heap.
unfoldable pub tick_empty : TickState → TickStep
tick_empty s =
    let c = s.channel in
    let r = rebuild_due_heap c in
    if is_empty c.pending
    then finished (with_channel s (record c { next_due_at = none }))
    else if is_empty r.due_heap
    then finished (with_channel s (record r { next_due_at = min_deadline r.pending }))
    else again (with_channel s r)

-- The u32 wraps when it is doubled.
unfoldable pub retransmit : ℕ → ℕ → ℕ → PendingPacket → PendingPacket
retransmit rto_min rto_max now p =
    let rto = clamp rto_min rto_max (p.rto_ms * 2 % 2 ^ 32) in
    record p {
      retransmitted = true;
      retries_left = p.retries_left - 1;
      rto_ms = rto;
      next_at = some (now + rto);
    }

unfoldable pub fail_packet : ℕ → PendingPacket → TickState → TickState
fail_packet seq p s = record s {
  channel = record s.channel { pending = remove seq s.channel.pending };
  failures = s.failures ++ ((seq, p.dest) ∷ []);
}

unfoldable pub resend_packet : ℕ → ℕ → PendingPacket → TickState → TickState
resend_packet now seq p s =
    let c = s.channel in
    let q = retransmit c.rto_min_ms c.rto_max_ms now p in
    record s {
      channel = record c {
        pending = modify seq (retransmit c.rto_min_ms c.rto_max_ms now) c.pending;
        due_heap = push_deadline seq q.next_at c.due_heap;
      };
      out = s.out ++ ((p.packet, p.dest) ∷ []);
    }

-- What the loop does with the entry that it popped.
unfoldable pub tick_popped : ℕ → ℕ → ℕ → TickState → TickStep
tick_popped now t seq s = elim (lookup seq s.channel.pending) [
  | none ↦ again s
  | some p ↦
      if not (same_deadline p.next_at t)
      then again s
      else if eqb p.retries_left 0
      then again (fail_packet seq p s)
      else again (resend_packet now seq p s)
]

unfoldable pub tick_top : ℕ → List (ℕ × ℕ) → TickState → TickStep
tick_top now [] s = tick_empty s
tick_top now ((t, seq) ∷ h) s =
    if ltb now t
    then finished (with_channel s (record s.channel { next_due_at = some t }))
    else tick_popped now t seq (with_channel s (record s.channel { due_heap = h }))

unfoldable pub tick_step : ℕ → TickState → TickStep
tick_step now s =
    let h = pop_stale_top s.channel.pending s.channel.due_heap in
    tick_top now h (with_channel s (record s.channel { due_heap = h }))

unfoldable pub tick_loop : ℕ → ℕ → TickState → Option TickState
tick_loop zero now s = none
tick_loop (suc fuel) now s = elim (tick_step now s) [
  | finished r ↦ some r
  | again r ↦ tick_loop fuel now r
]

unfoldable pub total_retries : Table ℕ PendingPacket → ℕ
total_retries [] = 0
total_retries ((seq, p) ∷ m) = p.retries_left + total_retries m

abbrev pub tick_fuel : ReliableChannel → ℕ
tick_fuel c = suc (length c.due_heap + total_retries c.pending)

-- `none` stands for a loop that does not end.
unfoldable pub tick_into : ReliableChannel → ℕ → Option TickState
tick_into c now =
    if is_empty c.pending
    then some (record {
      channel = record c { due_heap = []; next_due_at = none };
      out = [];
      failures = [];
    })
    else tick_loop (tick_fuel c) now (record { channel = c; out = []; failures = [] })

-- ===== src/Reliable/Run.antt =====
-- The channel (src/net/reliable.rs) through a tick and through any sequence of operations.
use mint_connect_unit.Addr.{addr_key}
use mint_connect_unit.Prelude.{
  Bool-cases, Option-cases, [], arith, false, inl, inr, leb, none, refl, some, sym, true, ℕ, ℕ_key,
  ◌<◌, ◌∙◌, ◌∷◌, ◌≡◌, ◌≤◌,
}
use mint_connect_unit.Prelude.Table.{Table, lookup}
use mint_connect_unit.Reliable.Channel.{PendingPacket, ReliableChannel}
use mint_connect_unit.Reliable.Due.{Scheduled}
use mint_connect_unit.Reliable.Loop.{Earliest-NoDeadline, Ends, NoDeadline, loop-Ends}
use mint_connect_unit.Reliable.Sweep.{NothingDue, Reported, sweep, sweep_packet}
use mint_connect_unit.Reliable.Tick.{TickState, is_empty, tick_fuel, tick_into}

abbrev pub Tuned : ReliableChannel → Type 0
Tuned c = (1 ≤ c.rto_min_ms) × (c.rto_min_ms ≤ c.rto_max_ms)

sweep_rest :
    (lo hi now k : ℕ) (m : Table ℕ PendingPacket)
    → NothingDue now m
    → sweep lo hi now (lookup k m) ≡ lookup k m
unfolding sweep_packet
sweep_rest lo hi now k m h = elim (Option-cases (lookup k m)) [
  | inl e ↦ rw e refl
  | inr (p, e) ↦ elim (Option-cases p.next_at) [
    | inl n ↦ rw (e, sweep_packet, n) refl
    | inr (t, n) ↦
        let late : now < t = h k t p e n in
        let rest : leb t now ≡ false = ground (arith, late) in rw (e, sweep_packet, n, rest) refl
  ]
]

abbrev pub start : ReliableChannel → TickState
start c = record { channel = c; out = []; failures = [] }

empty-NoDeadline : (m : Table ℕ PendingPacket) → is_empty m ≡ true → NoDeadline m
unfolding lookup
empty-NoDeadline [] e k t p l = cc
empty-NoDeadline (x ∷ m) e k t p l = cc

pub tick-Ends :
    (c : ReliableChannel) (now : ℕ)
    → Scheduled c
    → Tuned c
    → (r : TickState) × (tick_into c now ≡ some r) × Ends c.rto_min_ms c.rto_max_ms now (start c) r
unfolding tick_into
tick-Ends c now s (a, b) = elim (Bool-cases (is_empty c.pending)) [
  | inl e ↦
      let n : NoDeadline c.pending = empty-NoDeadline c.pending e in
      (
        record {
          channel = record c { due_heap = []; next_due_at = none };
          out = [];
          failures = [];
        },
        rw e refl,
        record {
          advances = record {
            covered = record {
              distinct = s.covered.distinct;
              sorted = tt;
              covers = λ k t p l m. absurd (n k t p l m);
            };
            same_min = refl;
            same_max = refl;
            same_sweep = λ k. refl;
            keeps_failures = λ x o. o;
            keeps_out = λ x o. o;
            reported = λ k p l. inl l;
          };
          earliest = Earliest-NoDeadline c.pending n;
          nothing_due = λ k t p l m. absurd (n k t p l m);
        },
      )
  | inr f ↦
      let (r, e, z) =
        loop-Ends c.rto_min_ms c.rto_max_ms now a b (tick_fuel c) (start c) refl refl s.covered
          (omega arith) in
      (r, rw f e, z)
]

-- A tick ends, if the least timeout is positive and not above the greatest; then the reported deadline is
-- again the least one, no deadline has passed, and every packet whose deadline had passed is among the failures,
-- if it had no retry left, and otherwise among the packets to send.
pub tick_into-Scheduled :
    (c : ReliableChannel) (now : ℕ)
    → Scheduled c
    → Tuned c
    → (r : TickState) × (tick_into c now ≡ some r)
      × Scheduled r.channel
      × NothingDue now r.channel.pending
      × ((k t : ℕ) (p : PendingPacket)
          → lookup k c.pending ≡ some p
          → p.next_at ≡ some t
          → t ≤ now
          → Reported r k p)
tick_into-Scheduled c now s u =
    let (r, e, z) = tick-Ends c now s u in
    (
      r,
      e,
      record { covered = z.advances.covered; earliest = z.earliest },
      z.nothing_due,
      λ k t p l n soon. elim (z.advances.reported k p l) [
        | inl m ↦ absurd (omega (arith, z.nothing_due k t p m n, soon))
        | inr q ↦ q
      ],
    )

-- A tick over the heap does to every packet what a scan of the packets one by one does to it, if the least timeout
-- is positive and not above the greatest.
pub tick_into-sweep :
    (c : ReliableChannel) (now : ℕ)
    → Scheduled c
    → Tuned c
    → (r : TickState) × (tick_into c now ≡ some r)
      × ((k : ℕ)
          → lookup k r.channel.pending ≡ sweep c.rto_min_ms c.rto_max_ms now (lookup k c.pending))
tick_into-sweep c now s u =
    let (r, e, z) = tick-Ends c now s u in
    (
      r,
      e,
      λ k.
          sym (sweep_rest c.rto_min_ms c.rto_max_ms now k r.channel.pending z.nothing_due)
          ∙ z.advances.same_sweep k,
    )

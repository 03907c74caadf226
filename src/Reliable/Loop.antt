-- ===== src/Reliable/Loop.antt =====
-- The loop of a tick (src/net/reliable.rs): it ends, with no deadline left that has passed.
use mathlib.Core.Path.{subst}
use mint_connect_unit.Prelude.{
  Bool-cases, List, Option, Option-cases, [], arith, eqb_iff, inl, inr, length, ltb, ltb→lt, none,
  refl, same_ne, some, suc, sym, true, zero, ℕ, ℕ_key, ◌+◌, ◌<◌, ◌∙◌, ◌∷◌, ◌≡◌, ◌≢◌, ◌≤◌, ◌⊎◌,
}
use mint_connect_unit.Prelude.Distinct.{All-keys-lookup, Distinct}
use mint_connect_unit.Prelude.Table.{Table, keys, lookup}
use mint_connect_unit.Reliable.Channel.{
  PendingPacket, is_valid_entry, peek_due, pop_stale_top, rebuild_due_heap, rebuilt_heap,
  refresh_next_due,
}
use mint_connect_unit.Reliable.Due.{Covered, Earliest, peek-Earliest, pop_stale-Covered}
use mint_connect_unit.Reliable.Heap.{
  Sorted-least, length-pop_stale, pop_stale_top_lem, valid→pending,
}
use mint_connect_unit.Reliable.Sweep.{Advances, Advances-trans, NothingDue, popped-cases, work}
use mint_connect_unit.Reliable.Tick.{
  TickState, TickStep, again, finished, is_empty, min_deadline, tick_empty, tick_loop, tick_step,
  tick_top, total_retries, with_channel,
}

min_deadline-none :
    (m : Table ℕ PendingPacket)
    → Distinct (keys m)
    → ((k t : ℕ) (p : PendingPacket) → lookup k m ≡ some p → p.next_at ≢ some t)
    → min_deadline m ≡ none
unfolding min_deadline lookup
min_deadline-none [] d h = refl
min_deadline-none ((j, q) ∷ m) (d, ds) h =
    let rest : min_deadline m ≡ none = min_deadline-none m ds (λ k t p l n.
      let ne : j ≢ k = All-keys-lookup (λ y. j ≢ y) k m d l in h k t p (rw (same_ne j k ne) l) n) in
    elim (Option-cases q.next_at) [
      | inl n ↦ rw (n, rest) refl
      | inr (t, n) ↦ absurd (h j t q (rw ((eqb_iff j j).1 refl) refl) n)
    ]

pub record Ends (lo hi now : ℕ) (s r : TickState) : Type 0 where
  pub advances : Advances lo hi now s r
  pub earliest : Earliest r.channel.next_due_at r.channel.pending
  pub nothing_due : NothingDue now r.channel.pending

Step : ℕ → ℕ → ℕ → TickState → ℕ → TickStep → Type 0
Step lo hi now s bound step =
    ((r : TickState) × (step ≡ finished r) × Ends lo hi now s r)
    ⊎ ((r : TickState) × (step ≡ again r) × Advances lo hi now s r × (work r < bound))

abbrev pub NoDeadline : Table ℕ PendingPacket → Type 0
NoDeadline m = (k t : ℕ) (p : PendingPacket) → lookup k m ≡ some p → p.next_at ≢ some t

pop_stale-NoDeadline :
    (m : Table ℕ PendingPacket) (h : List (ℕ × ℕ)) → NoDeadline m → pop_stale_top m h ≡ []
unfolding pop_stale_top
pop_stale-NoDeadline m [] n = refl
pop_stale-NoDeadline m (e ∷ h) n = elim (Bool-cases (is_valid_entry m e)) [
  | inl v ↦ let (p, l, d) = valid→pending m e v in absurd (n e.1 e.0 p l d)
  | inr f ↦ rw f (pop_stale-NoDeadline m h n)
]

pub Earliest-NoDeadline : (m : Table ℕ PendingPacket) → NoDeadline m → Earliest none m
Earliest-NoDeadline m n = record { reached = λ t e. cc; least = λ k t p l d. absurd (n k t p l d) }

module _ (lo hi now : ℕ) (a : 1 ≤ lo) (b : lo ≤ hi) (s : TickState)
    (same_lo : s.channel.rto_min_ms ≡ lo) (same_hi : s.channel.rto_max_ms ≡ hi) where
  still :
      {d : Option ℕ}
      → Covered s.channel.pending s.channel.due_heap
      → Advances lo hi now s (with_channel s (record s.channel { next_due_at = d }))
  still c = record {
    covered = c;
    same_min = refl;
    same_max = refl;
    same_sweep = λ k. refl;
    keeps_failures = λ x o. o;
    keeps_out = λ x o. o;
    reported = λ k p l. inl l;
  }

  empty-Ends :
      (n : NoDeadline s.channel.pending)
      → Covered s.channel.pending s.channel.due_heap
      → (r : TickState) × (tick_empty s ≡ finished r) × Ends lo hi now s r
  unfolding tick_empty rebuild_due_heap refresh_next_due
  empty-Ends n c = elim (Bool-cases (is_empty s.channel.pending)) [
    | inl e ↦ (
      with_channel s (record s.channel { next_due_at = none }),
      rw e refl,
      record {
        advances = still c;
        earliest = Earliest-NoDeadline s.channel.pending n;
        nothing_due = λ k t p l m. absurd (n k t p l m);
      },
    )
    | inr f ↦ (
      with_channel s (record s.channel { due_heap = []; next_due_at = none }),
      rw
          (
            f,
            pop_stale-NoDeadline s.channel.pending (rebuilt_heap s.channel.pending) n,
            min_deadline-none s.channel.pending c.distinct n,
          )
          refl,
      record {
        advances = record {
          covered = record {
            distinct = c.distinct;
            sorted = tt;
            covers = λ k t p l m. absurd (n k t p l m);
          };
          same_min = refl;
          same_max = refl;
          same_sweep = λ k. refl;
          keeps_failures = λ x o. o;
          keeps_out = λ x o. o;
          reported = λ k p l. inl l;
        };
        earliest = Earliest-NoDeadline s.channel.pending n;
        nothing_due = λ k t p l m. absurd (n k t p l m);
      },
    )
  ]

  top-Step :
      (h : List (ℕ × ℕ))
      → s.channel.due_heap ≡ h
      → Covered s.channel.pending h
      → ((e : ℕ × ℕ) (rest : List (ℕ × ℕ))
          → h ≡ e ∷ rest
          → is_valid_entry s.channel.pending e ≡ true)
      → Step lo hi now s (length h + total_retries s.channel.pending) (tick_top now h s)
  unfolding tick_top Step peek_due
  top-Step [] q c v = inl (
      empty-Ends (λ k t p l d. elim (c.covers k t p l d) [ ])
        (subst (Covered s.channel.pending) (sym q) c))
  top-Step ((t, seq) ∷ h) q c v = elim (Bool-cases (ltb now t)) [
    | inl late ↦ inl (
      with_channel s (record s.channel { next_due_at = some t }),
      rw late refl,
      record {
        advances = still (subst (Covered s.channel.pending) (sym q) c);
        earliest = peek-Earliest s.channel.pending ((t, seq) ∷ h) c v;
        nothing_due = λ k u p l n. omega (
          arith,
          Sorted-least (t, seq) (u, k) h c.sorted (c.covers k u p l n),
          ltb→lt now t late,
        );
      },
    )
    | inr soon ↦
        let (p, l, n) = valid→pending s.channel.pending (t, seq) (v (t, seq) h refl) in
        let (r, e, adv, w) =
          popped-cases lo hi now a b s t seq h p l n (ground (arith, soon)) c same_lo same_hi in
        inr (r, rw soon e, adv, omega (arith, w))
  ]

module _ (lo hi now : ℕ) (a : 1 ≤ lo) (b : lo ≤ hi) where
  round_cases :
      (s : TickState)
      → s.channel.rto_min_ms ≡ lo
      → s.channel.rto_max_ms ≡ hi
      → Covered s.channel.pending s.channel.due_heap
      → Step lo hi now s (work s) (tick_step now s)
  unfolding tick_step Step
  round_cases s same_lo same_hi c =
      let h = pop_stale_top s.channel.pending s.channel.due_heap in
      let top = with_channel s (record s.channel { due_heap = h }) in
      let less : length h ≤ length s.channel.due_heap =
        length-pop_stale s.channel.pending s.channel.due_heap in
      let kept : Covered s.channel.pending h =
        pop_stale-Covered s.channel.pending s.channel.due_heap c in
      let first : Advances lo hi now s top = record {
        covered = kept;
        same_min = refl;
        same_max = refl;
        same_sweep = λ k. refl;
        keeps_failures = λ x o. o;
        keeps_out = λ x o. o;
        reported = λ k p l. inl l;
      } in
      elim (top-Step lo hi now a b top same_lo same_hi h refl kept
        (λ e rest q. pop_stale_top_lem s.channel.pending s.channel.due_heap rest e q)) [
          | inl (r, e, z) ↦ inl (
            r,
            e,
            record {
              advances = Advances-trans lo hi now s top r first z.advances;
              earliest = z.earliest;
              nothing_due = z.nothing_due;
            },
          )
          | inr (r, e, adv, w) ↦
              inr (r, e, Advances-trans lo hi now s top r first adv, omega (arith, w, less))
        ]

  loop-last :
      (fuel : ℕ) (s r : TickState)
      → tick_step now s ≡ finished r
      → tick_loop (suc fuel) now s ≡ some r
  unfolding tick_loop
  loop-last fuel s r e = rw (tick_loop, e) refl

  loop-next :
      (fuel : ℕ) (s r : TickState)
      → tick_step now s ≡ again r
      → tick_loop (suc fuel) now s ≡ tick_loop fuel now r
  unfolding tick_loop
  loop-next fuel s r e = rw (tick_loop, e) refl

  pub loop-Ends :
      (fuel : ℕ) (s : TickState)
      → s.channel.rto_min_ms ≡ lo
      → s.channel.rto_max_ms ≡ hi
      → Covered s.channel.pending s.channel.due_heap
      → work s < fuel
      → (r : TickState) × (tick_loop fuel now s ≡ some r) × Ends lo hi now s r
  unfolding Step
  loop-Ends zero s same_lo same_hi c w = absurd (omega (arith, w))
  loop-Ends (suc fuel) s same_lo same_hi c w = elim (round_cases s same_lo same_hi c) [
    | inl (r, e, z) ↦ (r, loop-last fuel s r e, z)
    | inr (q, e, adv, v) ↦
        let (r, g, z) =
          loop-Ends fuel q (adv.same_min ∙ same_lo) (adv.same_max ∙ same_hi) adv.covered
            (omega (arith, v)) in
        (
          r,
          loop-next fuel s q e ∙ g,
          record {
            advances = Advances-trans lo hi now s q r adv z.advances;
            earliest = z.earliest;
            nothing_due = z.nothing_due;
          },
        )
  ]

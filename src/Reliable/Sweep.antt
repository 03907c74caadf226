-- ===== src/Reliable/Sweep.antt =====
-- A tick of the channel (src/net/reliable.rs) against a scan of its packets one by one.
use mathlib.Core.Path.{subst, subst₂}
use mathlib.Core.Option.{some-injective}
use mint_connect_unit.Addr.{SocketAddr, addr_key}
use mint_connect_unit.Prelude.{
  Bool, Bool-cases, List, Option, [], arith, clamp, eqb, eqb_iff, false, if◌then◌else◌, inl, inr,
  leb, length, none, refl, some, sym, true, ℕ, ℕ_key, ◌%◌, ◌*◌, ◌++◌, ◌+◌, ◌<◌, ◌^◌, ◌∙◌, ◌∷◌, ◌≡◌,
  ◌≤◌, ◌⊎◌,
}
use mint_connect_unit.Prelude.Table.{Table, lookup, lookup-modify, lookup-remove, modify, remove}
use mint_connect_unit.Reliable.Channel.{PendingPacket, push_deadline}
use mint_connect_unit.Reliable.Due.{Covered, drop-CoveredBut, modify-Covered, remove-Covered}
use mint_connect_unit.Reliable.Heap.{length-push}
use mint_connect_unit.Reliable.Tick.{
  TickState, again, fail_packet, resend_packet, retransmit, tick_popped, total_retries,
  with_channel,
}

abbrev pub is_due : ℕ → Option ℕ → Bool
is_due now none = false
is_due now (some t) = leb t now

-- What a tick makes of one packet: `none` for one that has failed.
unfoldable pub sweep_packet : ℕ → ℕ → ℕ → PendingPacket → Option PendingPacket
sweep_packet rto_min rto_max now p =
    if is_due now p.next_at
    then if eqb p.retries_left 0 then none else some (retransmit rto_min rto_max now p)
    else some p

abbrev pub sweep : ℕ → ℕ → ℕ → Option PendingPacket → Option PendingPacket
sweep rto_min rto_max now none = none
sweep rto_min rto_max now (some p) = sweep_packet rto_min rto_max now p

abbrev pub Among : {A : Type 0} → A → List A → Type 0
Among x [] = ⊥
Among x (y ∷ ys) = (x ≡ y) ⊎ Among x ys

Among-append : {A : Type 0} (x : A) (ys zs : List A) → Among x ys → Among x (ys ++ zs)
Among-append x [] zs o = elim o [ ]
Among-append x (y ∷ ys) zs o = elim o [ inl e ↦ inl e | inr q ↦ inr (Among-append x ys zs q) ]

Among-last : {A : Type 0} (x : A) (ys : List A) → Among x (ys ++ (x ∷ []))
Among-last x [] = inl refl
Among-last x (y ∷ ys) = inr (Among-last x ys)

-- The packet is reported as failed if no retry was left, and otherwise as one to send again.
abbrev pub Reported : TickState → ℕ → PendingPacket → Type 0
Reported r k p =
    (eqb p.retries_left 0 ≡ true × Among (k, p.dest) r.failures)
    ⊎ (eqb p.retries_left 0 ≡ false × Among (p.packet, p.dest) r.out)

-- A part of the loop leaves a scan of the packets what it was.
pub record Advances (lo hi now : ℕ) (s r : TickState) : Type 0 where
  pub covered : Covered r.channel.pending r.channel.due_heap
  pub same_min : r.channel.rto_min_ms ≡ s.channel.rto_min_ms
  pub same_max : r.channel.rto_max_ms ≡ s.channel.rto_max_ms
  pub same_sweep :
      (k : ℕ)
      → sweep lo hi now (lookup k r.channel.pending) ≡ sweep lo hi now (lookup k s.channel.pending)
  pub keeps_failures : (x : ℕ × SocketAddr) → Among x s.failures → Among x r.failures
  pub keeps_out : (x : List ℕ × SocketAddr) → Among x s.out → Among x r.out
  pub reported :
      (k : ℕ) (p : PendingPacket)
      → lookup k s.channel.pending ≡ some p
      → (lookup k r.channel.pending ≡ some p) ⊎ Reported r k p

pub Advances-trans :
    (lo hi now : ℕ) (s r q : TickState)
    → Advances lo hi now s r
    → Advances lo hi now r q
    → Advances lo hi now s q
Advances-trans lo hi now s r q a b = record {
  covered = b.covered;
  same_min = b.same_min ∙ a.same_min;
  same_max = b.same_max ∙ a.same_max;
  same_sweep = λ k. b.same_sweep k ∙ a.same_sweep k;
  keeps_failures = λ x o. b.keeps_failures x (a.keeps_failures x o);
  keeps_out = λ x o. b.keeps_out x (a.keeps_out x o);
  reported = λ k p l. elim (a.reported k p l) [
    | inl m ↦ b.reported k p m
    | inr (inl (z, o)) ↦ inr (inl (z, b.keeps_failures (k, p.dest) o))
    | inr (inr (z, o)) ↦ inr (inr (z, b.keeps_out (p.packet, p.dest) o))
  ];
}

abbrev pub NothingDue : ℕ → Table ℕ PendingPacket → Type 0
NothingDue now m =
    (k t : ℕ) (p : PendingPacket) → lookup k m ≡ some p → p.next_at ≡ some t → now < t

abbrev pub work : TickState → ℕ
work s = length s.channel.due_heap + total_retries s.channel.pending

total_retries-remove :
    (k : ℕ) (m : Table ℕ PendingPacket) → total_retries (remove k m) ≤ total_retries m
unfolding total_retries remove
total_retries-remove k [] = omega arith
total_retries-remove k ((j, p) ∷ m) = ground (arith, total_retries-remove k m)

total_retries-modify :
    (k : ℕ) (f : PendingPacket → PendingPacket) (m : Table ℕ PendingPacket) (p : PendingPacket)
    → lookup k m ≡ some p
    → (f p).retries_left < p.retries_left
    → total_retries (modify k f m) < total_retries m
unfolding total_retries modify lookup
total_retries-modify k f [] p l h = cc
total_retries-modify k f ((j, q) ∷ m) p l h = elim (Bool-cases (eqb j k)) [
  | inl t ↦
      let e : q ≡ p = some-injective q p (rw t at l) in
      let g : (f q).retries_left < q.retries_left =
        subst (λ x. (f x).retries_left < x.retries_left) (sym e) h in
      rw t (omega (arith, g))
  | inr n ↦ rw n (omega (arith, total_retries-modify k f m p (rw n at l) h))
]

-- A packet that was just sent again is not due.
sweep-retransmit :
    (lo hi now : ℕ) (p : PendingPacket)
    → 1 ≤ lo
    → lo ≤ hi
    → sweep_packet lo hi now (retransmit lo hi now p) ≡ some (retransmit lo hi now p)
unfolding sweep_packet retransmit
sweep-retransmit lo hi now p a b = ground arith

module _ (lo hi now : ℕ) (a : 1 ≤ lo) (b : lo ≤ hi) (s : TickState) (t seq : ℕ) (h : List (ℕ × ℕ))
    (p : PendingPacket) (l : lookup seq s.channel.pending ≡ some p) (n : p.next_at ≡ some t)
    (soon : t ≤ now) (c : Covered s.channel.pending ((t, seq) ∷ h))
    (same_lo : s.channel.rto_min_ms ≡ lo) (same_hi : s.channel.rto_max_ms ≡ hi) where
  abbrev pub popped : TickState
  popped = with_channel s (record s.channel { due_heap = h })

  pub due : is_due now p.next_at ≡ true
  due = rw n (ground (arith, soon))

  same_packet :
      (k : ℕ) (q : PendingPacket) → eqb seq k ≡ true → lookup k s.channel.pending ≡ some q → q ≡ p
  same_packet k q e m = some-injective q p (cc (m, l, (eqb_iff seq k).0 e))

  fail-Advances : eqb p.retries_left 0 ≡ true → Advances lo hi now s (fail_packet seq p popped)
  unfolding fail_packet sweep_packet
  fail-Advances z = record {
    covered = remove-Covered s.channel.pending h seq (drop-CoveredBut s.channel.pending h t seq c);
    same_min = refl;
    same_max = refl;
    same_sweep = λ k. elim (Bool-cases (eqb seq k)) [
      | inl e ↦
          rw (lookup-remove seq k s.channel.pending, e, sym ((eqb_iff seq k).0 e), l, due, z) refl
      | inr f ↦ rw (lookup-remove seq k s.channel.pending, f) refl
    ];
    keeps_failures = λ x o. Among-append x s.failures ((seq, p.dest) ∷ []) o;
    keeps_out = λ x o. o;
    reported = λ k q m. elim (Bool-cases (eqb seq k)) [
      | inl e ↦
          let q≡p : q ≡ p = same_packet k q e m in
          inr (
            inl (
              cc (q≡p, z),
              subst₂ (λ i x. Among (i, x.dest) (s.failures ++ ((seq, p.dest) ∷ [])))
                  ((eqb_iff seq k).0 e) (sym q≡p) (Among-last (seq, p.dest) s.failures),
            ))
      | inr f ↦ inl (rw (lookup-remove seq k s.channel.pending, f) m)
    ];
  }

  resend-Advances :
      eqb p.retries_left 0 ≡ false → Advances lo hi now s (resend_packet now seq p popped)
  unfolding resend_packet push_deadline retransmit sweep_packet
  resend-Advances z =
      let swept : sweep_packet lo hi now p ≡ some (retransmit lo hi now p) =
        rw (sweep_packet, due, z) refl in
      record {
        covered =
            modify-Covered s.channel.pending h seq _ p
              (retransmit s.channel.rto_min_ms s.channel.rto_max_ms now) l refl
              (drop-CoveredBut s.channel.pending h t seq c);
        same_min = refl;
        same_max = refl;
        same_sweep = λ k. elim (Bool-cases (eqb seq k)) [
          | inl e ↦
              rw
                (
                  lookup-modify seq k (retransmit s.channel.rto_min_ms s.channel.rto_max_ms now)
                      s.channel.pending,
                  e,
                  sym ((eqb_iff seq k).0 e),
                  l,
                  same_lo,
                  same_hi,
                )
                (sweep-retransmit lo hi now p a b ∙ sym swept)
          | inr f ↦
              rw
                (
                  lookup-modify seq k (retransmit s.channel.rto_min_ms s.channel.rto_max_ms now)
                      s.channel.pending,
                  f,
                )
                refl
        ];
        keeps_failures = λ x o. o;
        keeps_out = λ x o. Among-append x s.out ((p.packet, p.dest) ∷ []) o;
        reported = λ k q m. elim (Bool-cases (eqb seq k)) [
          | inl e ↦
              let q≡p : q ≡ p = same_packet k q e m in
              inr (
                inr (
                  cc (q≡p, z),
                  subst (λ x. Among (x.packet, x.dest) (s.out ++ ((p.packet, p.dest) ∷ [])))
                      (sym q≡p) (Among-last (p.packet, p.dest) s.out),
                ))
          | inr f ↦ inl (
              rw
                (
                  lookup-modify seq k (retransmit s.channel.rto_min_ms s.channel.rto_max_ms now)
                      s.channel.pending,
                  f,
                )
                m)
        ];
      }

  pub popped-cases :
      (r : TickState) × (tick_popped now t seq popped ≡ again r)
      × Advances lo hi now s r
      × (work r ≤ length h + total_retries s.channel.pending)
  unfolding tick_popped fail_packet resend_packet push_deadline retransmit
  popped-cases = elim (Bool-cases (eqb p.retries_left 0)) [
    | inl z ↦ (
      fail_packet seq p popped,
      rw (tick_popped, l, n, (eqb_iff t t).1 refl, z) refl,
      fail-Advances z,
      omega (arith, total_retries-remove seq s.channel.pending),
    )
    | inr z ↦ (
      resend_packet now seq p popped,
      rw (tick_popped, l, n, (eqb_iff t t).1 refl, z) refl,
      resend-Advances z,
      omega (
        arith,
        length-push
            (now + clamp s.channel.rto_min_ms s.channel.rto_max_ms (p.rto_ms * 2 % 2 ^ 32), seq) h,
        total_retries-modify seq (retransmit s.channel.rto_min_ms s.channel.rto_max_ms now)
            s.channel.pending p l (ground (arith, z)),
      ),
    )
  ]

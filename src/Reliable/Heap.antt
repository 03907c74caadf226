-- ===== src/Reliable/Heap.antt =====
-- The heap of deadlines (src/net/reliable.rs): its order, and the entries that pushing and dropping keep.
use mathlib.Core.Option.{some-injective}
use mint_connect_unit.Prelude.{
  All, Bool-cases, List, Option-cases, [], ap, arith, eqb, eqb_iff, inl, inr, leb, length, ltb,
  refl, some, suc, true, ℕ, ℕ_key, ◌&&◌, ◌||◌, ◌∷◌, ◌≡◌, ◌≤◌, ◌⊎◌,
}
use mint_connect_unit.Prelude.Distinct.{All-map}
use mint_connect_unit.Prelude.Table.{Table, lookup}
use mint_connect_unit.Reliable.Channel.{
  PendingPacket, is_valid_entry, pop_stale_top, push_deadline, push_due, rebuilt_heap,
}

abbrev pub OnHeap : ℕ × ℕ → List (ℕ × ℕ) → Type 0
OnHeap e [] = ⊥
OnHeap e (d ∷ h) = (e ≡ d) ⊎ OnHeap e h

abbrev pub Sorted : List (ℕ × ℕ) → Type 0
Sorted [] = Unit {0}
Sorted (d ∷ h) = All (λ e. d.0 ≤ e.0) h × Sorted h

pub OnHeap-push : (e : ℕ × ℕ) (h : List (ℕ × ℕ)) → OnHeap e (push_due e h)
unfolding push_due
OnHeap-push e [] = inl refl
OnHeap-push e (d ∷ h) = elim (Bool-cases (ltb e.0 d.0 || eqb e.0 d.0 && leb e.1 d.1)) [
  | inl t ↦ rw t (inl refl)
  | inr f ↦ rw f (inr (OnHeap-push e h))
]

pub OnHeap-push_old : (e d : ℕ × ℕ) (h : List (ℕ × ℕ)) → OnHeap e h → OnHeap e (push_due d h)
unfolding push_due
OnHeap-push_old e d [] o = elim o [ ]
OnHeap-push_old e d (c ∷ h) o = elim (Bool-cases (ltb d.0 c.0 || eqb d.0 c.0 && leb d.1 c.1)) [
  | inl t ↦ rw t (inr o)
  | inr f ↦ rw f (elim o [ inl p ↦ inl p | inr q ↦ inr (OnHeap-push_old e d h q) ])
]

All-push :
    (P : ℕ × ℕ → Type 0) (d : ℕ × ℕ) (h : List (ℕ × ℕ)) → P d → All P h → All P (push_due d h)
unfolding push_due
All-push P d [] p a = (p, tt)
All-push P d (c ∷ h) p (a, rest) = elim (Bool-cases (ltb d.0 c.0 || eqb d.0 c.0 && leb d.1 c.1)) [
  | inl t ↦ rw t (p, (a, rest))
  | inr f ↦ rw f (a, All-push P d h p rest)
]

pub push-Sorted : (d : ℕ × ℕ) (h : List (ℕ × ℕ)) → Sorted h → Sorted (push_due d h)
unfolding push_due
push-Sorted d [] s = (tt, tt)
push-Sorted d (c ∷ h) (a, s) = elim (Bool-cases (ltb d.0 c.0 || eqb d.0 c.0 && leb d.1 c.1)) [
  | inl t ↦
      let first : d.0 ≤ c.0 = ground (arith, t) in
      rw t ((first, All-map h (λ e m. omega (arith, m, first)) a), (a, s))
  | inr f ↦ rw f (All-push (λ e. c.0 ≤ e.0) d h (ground (arith, f)) a, push-Sorted d h s)
]

pub Sorted-least : (d e : ℕ × ℕ) (h : List (ℕ × ℕ)) → Sorted (d ∷ h) → OnHeap e (d ∷ h) → d.0 ≤ e.0
Sorted-least d e [] s (inl p) = omega (arith, ap (λ x. x.0) p)
Sorted-least d e [] s (inr o) = elim o [ ]
Sorted-least d e (c ∷ h) s (inl p) = omega (arith, ap (λ x. x.0) p)
Sorted-least d e (c ∷ h) ((le, all), (a, s)) (inr o) = elim o [
  | inl p ↦ omega (arith, ap (λ x. x.0) p, le)
  | inr q ↦ Sorted-least d e h (all, s) (inr q)
]

module _ (pending : Table ℕ PendingPacket) where
  pub pop_stale-Sorted : (h : List (ℕ × ℕ)) → Sorted h → Sorted (pop_stale_top pending h)
  unfolding pop_stale_top
  pop_stale-Sorted [] s = tt
  pop_stale-Sorted (e ∷ h) (a, s) = elim (Bool-cases (is_valid_entry pending e)) [
    | inl t ↦ rw t (a, s)
    | inr f ↦ rw f (pop_stale-Sorted h s)
  ]

  pub OnHeap-pop_stale :
      (e : ℕ × ℕ) (h : List (ℕ × ℕ))
      → is_valid_entry pending e ≡ true
      → OnHeap e h
      → OnHeap e (pop_stale_top pending h)
  unfolding pop_stale_top
  OnHeap-pop_stale e [] v o = elim o [ ]
  OnHeap-pop_stale e (d ∷ h) v o = elim (Bool-cases (is_valid_entry pending d)) [
    | inl t ↦ rw t o
    | inr f ↦ rw f (elim o [
      | inl p ↦ absurd (cc (v, f, ap (is_valid_entry pending) p))
      | inr q ↦ OnHeap-pop_stale e h v q
    ])
  ]

  pub length-pop_stale : (h : List (ℕ × ℕ)) → length (pop_stale_top pending h) ≤ length h
  unfolding pop_stale_top
  length-pop_stale [] = omega arith
  length-pop_stale (e ∷ h) = elim (Bool-cases (is_valid_entry pending e)) [
    | inl t ↦ rw t (omega arith)
    | inr f ↦ rw f (omega (arith, length-pop_stale h))
  ]

  -- What stays on top is the deadline of a pending packet.
  pub pop_stale_top_lem :
      (h rest : List (ℕ × ℕ)) (e : ℕ × ℕ)
      → pop_stale_top pending h ≡ e ∷ rest
      → is_valid_entry pending e ≡ true
  unfolding pop_stale_top
  pop_stale_top_lem [] rest e p = cc
  pop_stale_top_lem (d ∷ h) rest e p = elim (Bool-cases (is_valid_entry pending d)) [
    | inl t ↦ cc (t, rw t at p)
    | inr f ↦ pop_stale_top_lem h rest e (rw f at p)
  ]

  pub valid→pending :
      (e : ℕ × ℕ)
      → is_valid_entry pending e ≡ true
      → (p : PendingPacket) × (lookup e.1 pending ≡ some p) × (p.next_at ≡ some e.0)
  valid→pending e v = elim (Option-cases (lookup e.1 pending)) [
    | inl n ↦ absurd (cc (rw n at v))
    | inr (p, l) ↦ elim (Option-cases p.next_at) [
      | inl n ↦ absurd (cc (rw (l, n) at v))
      | inr (t, h) ↦ (p, l, cc (h, (eqb_iff t e.0).0 (rw (l, h) at v)))
    ]
  ]

  pub pending→valid :
      (k t : ℕ) (p : PendingPacket)
      → lookup k pending ≡ some p
      → p.next_at ≡ some t
      → is_valid_entry pending (t, k) ≡ true
  pending→valid k t p l h = rw (l, h) ((eqb_iff t t).1 refl)

pub length-push : (d : ℕ × ℕ) (h : List (ℕ × ℕ)) → length (push_due d h) ≡ suc (length h)
unfolding push_due
length-push d [] = refl
length-push d (c ∷ h) = ground (arith, length-push d h)

pub OnHeap-rebuilt :
    (m : Table ℕ PendingPacket) (k t : ℕ) (p : PendingPacket)
    → lookup k m ≡ some p
    → p.next_at ≡ some t
    → OnHeap (t, k) (rebuilt_heap m)
unfolding rebuilt_heap push_deadline lookup
OnHeap-rebuilt [] k t p l h = cc
OnHeap-rebuilt ((j, q) ∷ m) k t p l h = elim (Bool-cases (eqb j k)) [
  | inl e ↦
      let q≡p : q ≡ p = some-injective q p (rw e at l) in
      let d : q.next_at ≡ some t = cc (q≡p, h) in
      rw (d, (eqb_iff j k).0 e) (OnHeap-push (t, k) (rebuilt_heap m))
  | inr f ↦
      let o = OnHeap-rebuilt m k t p (rw f at l) h in
      elim (Option-cases q.next_at) [
        | inl n ↦ rw n o
        | inr (u, n) ↦ rw n (OnHeap-push_old (t, k) (u, j) (rebuilt_heap m) o)
      ]
]

pub rebuilt-Sorted : (m : Table ℕ PendingPacket) → Sorted (rebuilt_heap m)
unfolding rebuilt_heap push_deadline
rebuilt-Sorted [] = tt
rebuilt-Sorted ((j, q) ∷ m) = elim (Option-cases q.next_at) [
  | inl n ↦ rw n (rebuilt-Sorted m)
  | inr (u, n) ↦ rw n (push-Sorted (u, j) (rebuilt_heap m) (rebuilt-Sorted m))
]

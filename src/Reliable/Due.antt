-- ===== src/Reliable/Due.antt =====
-- The deadline that the channel reports (src/net/reliable.rs) and those of its pending packets, through every
-- operation but the tick.
use mathlib.Core.Path.{subst}
use mathlib.Core.Option.{some-injective}
use mint_connect_unit.Addr.{addr_key}
use mint_connect_unit.Prelude.{
  Bool-cases, List, Option, [], ap, eqb, eqb_iff, false, inl, inr, refl, some, sym, true, ℕ, ℕ_key,
  ◌∙◌, ◌∷◌, ◌≡◌, ◌≤◌,
}
use mint_connect_unit.Prelude.Distinct.{Distinct, Distinct-insert, Distinct-remove, keys-modify}
use mint_connect_unit.Prelude.Table.{
  Table, insert, keys, lookup, lookup-insert, lookup-modify, lookup-remove, modify, remove,
}
use mint_connect_unit.Reliable.Channel.{
  PendingPacket, ReliableChannel, is_valid_entry, peek_due, pop_stale_top, push_due,
  rebuild_due_heap, rebuilt_heap, refresh_next_due,
}
use mint_connect_unit.Reliable.Heap.{
  OnHeap, OnHeap-pop_stale, OnHeap-push, OnHeap-push_old, OnHeap-rebuilt, Sorted, Sorted-least,
  pending→valid, pop_stale-Sorted, pop_stale_top_lem, push-Sorted, rebuilt-Sorted, valid→pending,
}

-- No packet is twice in the table, and the heap is in order and has the deadline of every pending packet.
pub record Covered (pending : Table ℕ PendingPacket) (h : List (ℕ × ℕ)) : Type 0 where
  pub distinct : Distinct (keys pending)
  pub sorted : Sorted h
  pub covers :
      (k t : ℕ) (p : PendingPacket)
      → lookup k pending ≡ some p
      → p.next_at ≡ some t
      → OnHeap (t, k) h

-- `d` is the least deadline of a pending packet, or `none` if there is none.
pub record Earliest (d : Option ℕ) (pending : Table ℕ PendingPacket) : Type 0 where
  pub reached :
      (t : ℕ)
      → d ≡ some t
      → (k : ℕ) × (p : PendingPacket) × (lookup k pending ≡ some p) × (p.next_at ≡ some t)
  pub least :
      (k t : ℕ) (p : PendingPacket)
      → lookup k pending ≡ some p
      → p.next_at ≡ some t
      → (u : ℕ) × (d ≡ some u) × (u ≤ t)

pub record Scheduled (c : ReliableChannel) : Type 0 where
  pub covered : Covered c.pending c.due_heap
  pub earliest : Earliest c.next_due_at c.pending

pub pop_stale-Covered :
    (pending : Table ℕ PendingPacket) (h : List (ℕ × ℕ))
    → Covered pending h
    → Covered pending (pop_stale_top pending h)
pop_stale-Covered pending h c = record {
  distinct = c.distinct;
  sorted = pop_stale-Sorted pending h c.sorted;
  covers = λ k t p l n.
      OnHeap-pop_stale pending (t, k) h (pending→valid pending k t p l n) (c.covers k t p l n);
}

-- A heap without stale entries on top.
pub peek-Earliest :
    (pending : Table ℕ PendingPacket) (h : List (ℕ × ℕ))
    → Covered pending h
    → ((e : ℕ × ℕ) (rest : List (ℕ × ℕ)) → h ≡ e ∷ rest → is_valid_entry pending e ≡ true)
    → Earliest (peek_due h) pending
unfolding peek_due
peek-Earliest pending [] c v = record {
  reached = λ t e. cc;
  least = λ k t p l n. elim (c.covers k t p l n) [ ];
}
peek-Earliest pending (e ∷ h) c v = record {
  reached = λ t q. let (p, l, n) = valid→pending pending e (v e h refl) in (e.1, p, l, cc (n, q));
  least = λ k t p l n. (e.0, refl, Sorted-least e (t, k) h c.sorted (c.covers k t p l n));
}

pub refresh-Scheduled :
    (c : ReliableChannel) → Covered c.pending c.due_heap → Scheduled (refresh_next_due c)
unfolding refresh_next_due
refresh-Scheduled c h =
    let k = pop_stale-Covered c.pending c.due_heap h in
    record {
      covered = k;
      earliest =
          peek-Earliest c.pending (pop_stale_top c.pending c.due_heap) k
            (λ e rest q. pop_stale_top_lem c.pending c.due_heap rest e q);
    }

pub rebuilt-Covered : (m : Table ℕ PendingPacket) → Distinct (keys m) → Covered m (rebuilt_heap m)
rebuilt-Covered m d = record { distinct = d; sorted = rebuilt-Sorted m; covers = OnHeap-rebuilt m }

pub rebuild-Scheduled :
    (c : ReliableChannel) → Distinct (keys c.pending) → Scheduled (rebuild_due_heap c)
unfolding rebuild_due_heap
rebuild-Scheduled c d =
    refresh-Scheduled (record c { due_heap = rebuilt_heap c.pending }) (rebuilt-Covered c.pending d)

-- A packet that is replaced or entered, its deadline pushed.
pub insert-Covered :
    (m : Table ℕ PendingPacket) (h : List (ℕ × ℕ)) (seq t : ℕ) (p : PendingPacket)
    → p.next_at ≡ some t
    → Covered m h
    → Covered (insert seq p m) (push_due (t, seq) h)
insert-Covered m h seq t p d c = record {
  distinct = Distinct-insert seq p m c.distinct;
  sorted = push-Sorted (t, seq) h c.sorted;
  covers = λ k u q l n. elim (Bool-cases (eqb seq k)) [
    | inl e ↦
        let s : seq ≡ k = (eqb_iff seq k).0 e in
        let r : some p ≡ some q = sym (rw (lookup-insert seq k p m) (rw e refl)) ∙ l in
        let w : t ≡ u = some-injective t u (cc (d, n, some-injective p q r)) in
        subst (λ x. OnHeap x (push_due (t, seq) h)) (cc (s, w)) (OnHeap-push (t, seq) h)
    | inr f ↦
        let r : lookup k m ≡ some q = sym (rw (lookup-insert seq k p m) (rw f refl)) ∙ l in
        OnHeap-push_old (u, k) (t, seq) h (c.covers k u q r n)
  ];
}

-- As `Covered`, for every packet but one.
pub record CoveredBut (seq : ℕ) (pending : Table ℕ PendingPacket) (h : List (ℕ × ℕ)) : Type 0 where
  pub distinct : Distinct (keys pending)
  pub sorted : Sorted h
  pub covers :
      (k t : ℕ) (p : PendingPacket)
      → eqb seq k ≡ false
      → lookup k pending ≡ some p
      → p.next_at ≡ some t
      → OnHeap (t, k) h

pub Covered→but :
    (seq : ℕ) (m : Table ℕ PendingPacket) (h : List (ℕ × ℕ)) → Covered m h → CoveredBut seq m h
Covered→but seq m h c = record {
  distinct = c.distinct;
  sorted = c.sorted;
  covers = λ k t p f. c.covers k t p;
}

-- Without its top entry, the heap still covers the others.
pub drop-CoveredBut :
    (m : Table ℕ PendingPacket) (h : List (ℕ × ℕ)) (t seq : ℕ)
    → Covered m ((t, seq) ∷ h)
    → CoveredBut seq m h
drop-CoveredBut m h t seq c = record {
  distinct = c.distinct;
  sorted = c.sorted.1;
  covers = λ k u p f l n. elim (c.covers k u p l n) [
    | inl e ↦ absurd (cc (f, (eqb_iff seq k).1 (sym (ap (λ x. x.1) e))))
    | inr o ↦ o
  ];
}

pub modify-Covered :
    (m : Table ℕ PendingPacket) (h : List (ℕ × ℕ)) (seq t : ℕ) (p : PendingPacket)
    (f : PendingPacket → PendingPacket)
    → lookup seq m ≡ some p
    → (f p).next_at ≡ some t
    → CoveredBut seq m h
    → Covered (modify seq f m) (push_due (t, seq) h)
modify-Covered m h seq t p f g d c = record {
  distinct = subst Distinct (sym (keys-modify seq f m)) c.distinct;
  sorted = push-Sorted (t, seq) h c.sorted;
  covers = λ k u q l n. elim (Bool-cases (eqb seq k)) [
    | inl e ↦
        let s : seq ≡ k = (eqb_iff seq k).0 e in
        let r : some (f p) ≡ some q = sym (rw (lookup-modify seq k f m, e, sym s, g) refl) ∙ l in
        let w : t ≡ u = some-injective t u (cc (d, n, some-injective (f p) q r)) in
        subst (λ x. OnHeap x (push_due (t, seq) h)) (cc (s, w)) (OnHeap-push (t, seq) h)
    | inr e ↦
        let r : lookup k m ≡ some q = sym (rw (lookup-modify seq k f m) (rw e refl)) ∙ l in
        OnHeap-push_old (u, k) (t, seq) h (c.covers k u q e r n)
  ];
}

pub remove-Covered :
    (m : Table ℕ PendingPacket) (h : List (ℕ × ℕ)) (seq : ℕ)
    → CoveredBut seq m h
    → Covered (remove seq m) h
remove-Covered m h seq c = record {
  distinct = Distinct-remove seq m c.distinct;
  sorted = c.sorted;
  covers = λ k t p l n. elim (Bool-cases (eqb seq k)) [
    | inl e ↦ absurd (cc (l, lookup-remove seq k m, e))
    | inr f ↦ c.covers k t p f (sym (rw (lookup-remove seq k m) (rw f refl)) ∙ l) n
  ];
}

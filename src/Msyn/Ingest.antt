-- ===== src/Msyn/Ingest.antt =====
-- Taking in a part of an epoch (src/net/msyn_sync.rs) keeps the bounds of the buffers.
use mathlib.Core.Path.{subst}
use mint_connect_unit.Addr.{SocketAddr, addr_key, same_addr, same_addr_iff}
use mint_connect_unit.Msyn.Assemble.{
  AssembleMap, MsynHeader, MsynPartPayload, MsynValue, PartialMsyn, add_part, any_newer_buffer,
  buffer_key, buffers_of, enforce_buffer_cap, first_buffer, ingest_checked, ingest_msyn_part,
  is_complete, payload_of, read_header, remove_keys, same_epoch, stale_keys, store_part,
  sweep_assemble, take_complete,
}
use mint_connect_unit.Msyn.Buffers.{
  BufferOk, InRange, Sound, Whole, enforce-BufferOk, enforce-capped, length-buffers_of-insert,
  length-buffers_of-remove, length-buffers_of-retain, length-buffers_of-update, length-enforce,
  read_header-InRange,
}
use mint_connect_unit.Msyn.Epoch.{assemble_max_buffers_per_from, assemble_ttl}
use mint_connect_unit.Prelude.{
  Bool, Bool-cases, List, Option-cases, [], arith, eqb, eqb_iff, false, inl, inr, leb, length, ltb,
  refl, some, true, ℕ, ℕ_key, ◌&&◌, ◌-◌, ◌<◌, ◌∷◌, ◌≡◌, ◌≤◌,
}
use mint_connect_unit.Prelude.Distinct.{All-keys-insert, Distinct-insert}
use mint_connect_unit.Prelude.Pigeonhole.{full_below}
use mint_connect_unit.Prelude.Table.{
  AllEntries-insert, AllEntries-lookup, AllEntries-remove, AllEntries-retain, insert, lookup,
  remove,
}

module _ {V : Type 0} where
  remove-Sound : (k : SocketAddr × ℕ) (m : AssembleMap V) → Sound m → Sound (remove k m)
  remove-Sound k m s = record {
    buffers = AllEntries-remove BufferOk k m s.buffers;
    capped = λ from. omega (arith, length-buffers_of-remove from k m, s.capped from);
  }

  remove_keys-Sound :
      (ks : List (SocketAddr × ℕ)) (m : AssembleMap V) → Sound m → Sound (remove_keys ks m)
  unfolding remove_keys
  remove_keys-Sound [] m s = s
  remove_keys-Sound (k ∷ ks) m s = remove_keys-Sound ks (remove k m) (remove-Sound k m s)

  sweep-Sound : (m : AssembleMap V) (now : ℕ) → Sound m → Sound (sweep_assemble m now)
  unfolding sweep_assemble
  sweep-Sound m now s =
      let f : SocketAddr × ℕ → PartialMsyn V → Bool =
        λ k p. ltb (now - p.first_seen) assemble_ttl in
      record {
        buffers = AllEntries-retain BufferOk f m s.buffers;
        capped = λ from. omega (arith, length-buffers_of-retain from f m, s.capped from);
      }

  take_complete-Sound :
      (k : SocketAddr × ℕ) (first : Bool) (m : AssembleMap V)
      → Sound m
      → Sound (take_complete k first m).0 × Whole (take_complete k first m).1
  unfolding take_complete is_complete
  take_complete-Sound k first m s = elim (Option-cases (lookup k m)) [
    | inl n ↦ rw (take_complete, n) (s, tt)
    | inr (p, l) ↦ elim (Bool-cases (ltb 0 p.parts_total && eqb (length p.parts) p.parts_total)) [
      | inl y ↦
          let b = AllEntries-lookup BufferOk k m s.buffers l in
          rw (take_complete, l, y)
            (
              remove-Sound k m s,
              full_below p.parts_total p.parts b.distinct b.below
                  ((eqb_iff (length p.parts) p.parts_total).0 (ground (arith, y))),
            )
      | inr f ↦ rw (take_complete, l, f) (s, tt)
    ]
  ]

  add_part-BufferOk :
      (k : SocketAddr × ℕ) (h : MsynHeader) (payload : MsynPartPayload V) (p : PartialMsyn V)
      → InRange h
      → same_epoch p h ≡ true
      → BufferOk k p
      → BufferOk k (add_part h payload p)
  add_part-BufferOk k h payload p r e b =
      let same : p.parts_total ≡ h.parts_total =
        (eqb_iff p.parts_total h.parts_total).0 (ground (arith, e)) in
      record {
        same_id = b.same_id;
        positive = b.positive;
        few = b.few;
        distinct = Distinct-insert h.part_idx payload p.parts b.distinct;
        below =
            All-keys-insert (λ i. i < p.parts_total) h.part_idx payload p.parts
              (omega (arith, r.index, same)) b.below;
      }

  first_buffer-BufferOk :
      (from : SocketAddr) (h : MsynHeader) (payload : MsynPartPayload V) (now : ℕ)
      → InRange h
      → BufferOk (from, h.sync_id) (first_buffer h payload now)
  unfolding insert
  first_buffer-BufferOk from h payload now r = record {
    same_id = refl;
    positive = r.positive;
    few = r.few;
    distinct = (tt, tt);
    below = (r.index, tt);
  }

  updated-Sound :
      (k : SocketAddr × ℕ) (p q : PartialMsyn V) (m : AssembleMap V)
      → lookup k m ≡ some q
      → BufferOk k p
      → Sound m
      → Sound (insert k p m)
  updated-Sound k p q m l b s = record {
    buffers = AllEntries-insert BufferOk k p m b s.buffers;
    capped = λ from. omega (arith, length-buffers_of-update from k p q m l, s.capped from);
  }

  entered-Sound :
      (from : SocketAddr) (sid : ℕ) (p : PartialMsyn V) (m : AssembleMap V)
      → BufferOk (from, sid) p
      → Sound m
      → Sound (enforce_buffer_cap (insert (from, sid) p m) from)
  entered-Sound from sid p m b s =
      let k : SocketAddr × ℕ = (from, sid) in
      record {
        buffers =
            enforce-BufferOk (insert k p m) from (AllEntries-insert BufferOk k p m b s.buffers);
        capped = λ f. elim (Bool-cases (same_addr from f)) [
          | inl y ↦
              let c : length (buffers_of from (enforce_buffer_cap (insert k p m) from))
                  ≤ assemble_max_buffers_per_from =
                enforce-capped from (insert k p m)
                  (ground (arith, length-buffers_of-insert from k p m, s.capped from)) in
              subst
                (λ x.
                  length (buffers_of x (enforce_buffer_cap (insert k p m) from))
                  ≤ assemble_max_buffers_per_from)
                ((same_addr_iff from f).0 y) c
          | inr n ↦ ground (
            arith,
            length-enforce f from (insert k p m),
            length-buffers_of-insert f k p m,
            s.capped f,
            n,
          )
        ];
      }

  store_part-Sound :
      (from : SocketAddr) (h : MsynHeader) (payload : MsynPartPayload V) (now : ℕ)
      (m : AssembleMap V)
      → InRange h
      → Sound m
      → Sound (store_part from h payload now m).0 × Whole (store_part from h payload now m).1
  unfolding store_part
  store_part-Sound from h payload now m r s =
      let k : SocketAddr × ℕ = (from, h.sync_id) in
      elim (Option-cases (lookup k m)) [
        | inl n ↦
            rw (store_part, n)
              (take_complete-Sound k true
                (enforce_buffer_cap (insert k (first_buffer h payload now) m) from)
                (entered-Sound from h.sync_id (first_buffer h payload now) m
                  (first_buffer-BufferOk from h payload now r) s))
        | inr (p, l) ↦ elim (Bool-cases (same_epoch p h)) [
          | inl y ↦
              rw (store_part, l, y)
                (take_complete-Sound k false (insert k (add_part h payload p) m) (
                  updated-Sound k (add_part h payload p) p m l
                    (add_part-BufferOk k h payload p r y
                      (AllEntries-lookup BufferOk k m s.buffers l))
                    s))
          | inr f ↦ rw (store_part, l, f) (remove-Sound k m s, tt)
        ]
      ]

  ingest_checked-Sound :
      (from : SocketAddr) (h : MsynHeader) (payload : MsynPartPayload V) (now : ℕ)
      (m : AssembleMap V)
      → InRange h
      → Sound m
      → Sound (ingest_checked from h payload now m).0
        × Whole (ingest_checked from h payload now m).1
  unfolding ingest_checked
  ingest_checked-Sound from h payload now m r s =
      let rest = remove_keys (stale_keys from h m) m in
      let kept = remove_keys-Sound (stale_keys from h m) m s in
      elim (Bool-cases (any_newer_buffer from h rest)) [
        | inl y ↦ rw y (kept, tt)
        | inr f ↦ rw f (store_part-Sound from h payload now rest r kept)
      ]

  -- Whatever part comes in from whomever, every buffer keeps 1 to 64 parts to come, those it has being distinct ones of these, no
  -- sender has more than eight buffers, and an epoch that is reported complete has every one of its parts.
  pub ingest_msyn_part-Sound :
      (m : AssembleMap V) (from : SocketAddr) (v : MsynValue V) (applied_to_rev now : ℕ)
      → Sound m
      → Sound (ingest_msyn_part m from v applied_to_rev now).0
        × Whole (ingest_msyn_part m from v applied_to_rev now).1
  unfolding ingest_msyn_part
  ingest_msyn_part-Sound m from v applied_to_rev now s =
      let swept = sweep-Sound m now s in
      elim (Option-cases (read_header v)) [
        | inl n ↦ rw (ingest_msyn_part, n) (swept, tt)
        | inr (h, e) ↦ elim (Bool-cases (leb h.to_rev applied_to_rev)) [
          | inl y ↦ rw (ingest_msyn_part, e, y) (swept, tt)
          | inr f ↦
              rw (ingest_msyn_part, e, f)
                (ingest_checked-Sound from h (payload_of v) now (sweep_assemble m now)
                  (read_header-InRange v h e) swept)
        ]
      ]

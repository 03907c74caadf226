-- ===== src/Msyn/Buffers.antt =====
-- The buffers of epochs (src/net/msyn_sync.rs): their bounds, and the parts of one that is complete.
use mathlib.Core.Path.{subst}
use mathlib.Core.Option.{some-injective}
use mint_connect_unit.Addr.{SocketAddr, addr_key, same_addr}
use mint_connect_unit.Msyn.Assemble.{
  AssembleMap, IngestOutcome, MsynHeader, MsynValue, PartialMsyn, as_u32, buffer_key, buffers_of,
  checked_header, complete, drop_oldest, enforce_buffer_cap, insert_by_time, is_version,
  read_header, same_buffer_iff, sort_by_time, ◌>>=◌,
}
use mint_connect_unit.Msyn.Epoch.{
  assemble_max_buffers_per_from, assemble_max_parts_total, msyn_proto_ver, msyn_schema_ver,
}
use mint_connect_unit.Prelude.{
  All, Bool, Bool-cases, List, Option, [], arith, eqb, eqb_iff, false, if-elim, if◌then◌else◌, inl,
  inr, is_some, leb, length, ltb, lt→ltb, none, not, refl, some, true, ℕ, ℕ_key, ◌+◌, ◌<◌, ◌||◌,
  ◌∷◌, ◌≡◌, ◌≤◌,
}
use mint_connect_unit.Prelude.Distinct.{All-map, Distinct}
use mint_connect_unit.Prelude.Table.{
  AllEntries, AllEntries-remove, insert, keys, lookup, remove, retain,
}

-- A bind that gives a value bound one.
bind-some {ℓ κ} :
    {A : Type ℓ} {B : Type κ} (o : Option A) (f : A → Option B) (b : B)
    → (o >>= f) ≡ some b
    → (a : A) × (f a ≡ some b)
bind-some none f b e = cc
bind-some (some a) f b e = (a, e)

-- The numbers of a part that is not ignored.
pub record InRange (h : MsynHeader) : Type 0 where
  pub positive : 1 ≤ h.parts_total
  pub few : h.parts_total ≤ assemble_max_parts_total
  pub index : h.part_idx < h.parts_total

checked_header-InRange : (h g : MsynHeader) → checked_header h ≡ some g → InRange g
checked_header-InRange h g e =
    elim (Bool-cases (eqb h.parts_total 0 || ltb assemble_max_parts_total h.parts_total)) [
      | inl y ↦ absurd (cc (rw y at e))
      | inr f ↦ elim (Bool-cases (leb h.parts_total h.part_idx)) [
        | inl y ↦ absurd (cc (rw (f, y) at e))
        | inr n ↦ subst InRange (some-injective h g (rw (f, n) at e)) (record {
          positive = ground (arith, f);
          few = ground (arith, f);
          index = ground (arith, n);
        })
      ]
    ]

pub read_header-InRange :
    {V : Type 0} (v : MsynValue V) (h : MsynHeader) → read_header v ≡ some h → InRange h
unfolding read_header
read_header-InRange v h e =
    elim (Bool-cases (
      not (is_version v.proto_ver msyn_proto_ver)
      || not (is_version v.schema_ver msyn_schema_ver))) [
        | inl y ↦ absurd (cc (rw y at e))
        | inr f ↦
            let (a, p) = bind-some v.sync_id _ h (rw f at e) in
            let (b, q) = bind-some v.from_rev _ h p in
            let (c, r) = bind-some v.to_rev _ h q in
            let (d, s) = bind-some (as_u32 v.part_idx) _ h r in
            let (n, t) = bind-some (as_u32 v.parts_total) _ h s in
            checked_header-InRange
              (record { sync_id = a; from_rev = b; to_rev = c; part_idx = d; parts_total = n }) h t
      ]

abbrev has_sid : ℕ → List (ℕ × ℕ) → Bool
has_sid sid [] = false
has_sid sid (e ∷ ks) = eqb e.0 sid || has_sid sid ks

own_sids : (ks : List (ℕ × ℕ)) → All (λ e. has_sid e.0 ks ≡ true) ks
own_sids [] = tt
own_sids (e ∷ ks) =
    (ground (arith, eqb_iff e.0 e.0), All-map ks (λ d h. ground (arith, h)) (own_sids ks))

length-insert_by_time :
    (e : ℕ × ℕ) (ks : List (ℕ × ℕ)) → length (insert_by_time e ks) ≡ length ks + 1
unfolding insert_by_time
length-insert_by_time e [] = omega arith
length-insert_by_time e (d ∷ ks) = ground (arith, length-insert_by_time e ks)

length-sort_by_time : (ks : List (ℕ × ℕ)) → length (sort_by_time ks) ≡ length ks
unfolding sort_by_time
length-sort_by_time [] = refl
length-sort_by_time (e ∷ ks) =
    omega (arith, length-insert_by_time e (sort_by_time ks), length-sort_by_time ks)

All-insert_by_time :
    (P : ℕ × ℕ → Type 0) (e : ℕ × ℕ) (ks : List (ℕ × ℕ))
    → P e
    → All P ks
    → All P (insert_by_time e ks)
unfolding insert_by_time
All-insert_by_time P e [] p h = (p, tt)
All-insert_by_time P e (d ∷ ks) p (h, hs) = elim (Bool-cases (leb e.1 d.1)) [
  | inl t ↦ rw t (p, (h, hs))
  | inr f ↦ rw f (h, All-insert_by_time P e ks p hs)
]

All-sort_by_time : (P : ℕ × ℕ → Type 0) (ks : List (ℕ × ℕ)) → All P ks → All P (sort_by_time ks)
unfolding sort_by_time
All-sort_by_time P [] h = tt
All-sort_by_time P (e ∷ ks) (h, hs) =
    All-insert_by_time P e (sort_by_time ks) h (All-sort_by_time P ks hs)

leb_false→lt : (a b : ℕ) → leb a b ≡ false → b < a
leb_false→lt a b h = ground arith

module _ {V : Type 0} where
  -- A buffer has 1 to 64 parts to come, of which it has some, each once.
  pub record BufferOk (k : SocketAddr × ℕ) (p : PartialMsyn V) : Type 0 where
    pub same_id : p.sync_id ≡ k.1
    pub positive : 1 ≤ p.parts_total
    pub few : p.parts_total ≤ assemble_max_parts_total
    pub distinct : Distinct (keys p.parts)
    pub below : All (λ i. i < p.parts_total) (keys p.parts)

  -- No sender has more than eight of them.
  pub record Sound (m : AssembleMap V) : Type 0 where
    pub buffers : AllEntries BufferOk m
    pub capped : (from : SocketAddr) → length (buffers_of from m) ≤ assemble_max_buffers_per_from

  -- Every part of a complete epoch is there.
  abbrev pub Whole : IngestOutcome V → Type 0
  Whole (complete p) = (i : ℕ) → i < p.parts_total → is_some (lookup i p.parts) ≡ true
  Whole _ = Unit {0}

  pub length-buffers_of-retain :
      (from : SocketAddr) (f : SocketAddr × ℕ → PartialMsyn V → Bool) (m : AssembleMap V)
      → length (buffers_of from (retain f m)) ≤ length (buffers_of from m)
  unfolding buffers_of
  length-buffers_of-retain from f [] = omega arith
  length-buffers_of-retain from f ((k, p) ∷ m) = ground (arith, length-buffers_of-retain from f m)

  pub length-buffers_of-remove :
      (from : SocketAddr) (k : SocketAddr × ℕ) (m : AssembleMap V)
      → length (buffers_of from (remove k m)) ≤ length (buffers_of from m)
  unfolding buffers_of remove
  length-buffers_of-remove from k [] = omega arith
  length-buffers_of-remove from k ((j, p) ∷ m) = ground (arith, length-buffers_of-remove from k m)

  length-buffers_of-remove_lt :
      (from : SocketAddr) (sid : ℕ) (m : AssembleMap V)
      → has_sid sid (buffers_of from m) ≡ true
      → length (buffers_of from (remove (from, sid) m)) < length (buffers_of from m)
  unfolding buffers_of remove
  length-buffers_of-remove_lt from sid [] h = absurd (cc h)
  length-buffers_of-remove_lt from sid ((j, p) ∷ m) h =
      ground
        (arith, length-buffers_of-remove_lt from sid m, length-buffers_of-remove from (from, sid) m)

  pub length-buffers_of-insert :
      (from : SocketAddr) (k : SocketAddr × ℕ) (p : PartialMsyn V) (m : AssembleMap V)
      → length (buffers_of from (insert k p m))
        ≤ length (buffers_of from m) + (if same_addr k.0 from then 1 else 0)
  unfolding buffers_of insert
  length-buffers_of-insert from k p [] = ground arith
  length-buffers_of-insert from k p ((j, q) ∷ m) =
      ground (arith, length-buffers_of-insert from k p m, same_buffer_iff j k)

  pub length-buffers_of-update :
      (from : SocketAddr) (k : SocketAddr × ℕ) (p q : PartialMsyn V) (m : AssembleMap V)
      → lookup k m ≡ some q
      → length (buffers_of from (insert k p m)) ≤ length (buffers_of from m)
  unfolding buffers_of insert lookup
  length-buffers_of-update from k p q [] h = cc
  length-buffers_of-update from k p q ((j, r) ∷ m) h =
      ground (arith, length-buffers_of-update from k p q m, same_buffer_iff j k)

  -- Dropping the oldest buffers.
  length-drop_oldest :
      (f from : SocketAddr) (ks : List (ℕ × ℕ)) (m : AssembleMap V)
      → length (buffers_of f (drop_oldest from ks m)) ≤ length (buffers_of f m)
  unfolding drop_oldest
  length-drop_oldest f from [] m = omega arith
  length-drop_oldest f from ((sid, t) ∷ ks) m =
      if-elim (λ x. length (buffers_of f x) ≤ length (buffers_of f m))
        (ltb assemble_max_buffers_per_from (length ((sid, t) ∷ ks)))
        (drop_oldest from ks (remove (from, sid) m)) m
        (λ y. omega (
          arith,
          length-drop_oldest f from ks (remove (from, sid) m),
          length-buffers_of-remove f (from, sid) m,
        ))
        (λ n. omega arith)

  drop_oldest-BufferOk :
      (from : SocketAddr) (ks : List (ℕ × ℕ)) (m : AssembleMap V)
      → AllEntries BufferOk m
      → AllEntries BufferOk (drop_oldest from ks m)
  unfolding drop_oldest
  drop_oldest-BufferOk from [] m h = h
  drop_oldest-BufferOk from ((sid, t) ∷ ks) m h =
      if-elim (AllEntries BufferOk) (ltb assemble_max_buffers_per_from (length ((sid, t) ∷ ks)))
        (drop_oldest from ks (remove (from, sid) m)) m
        (λ y.
          drop_oldest-BufferOk from ks (remove (from, sid) m)
            (AllEntries-remove BufferOk (from, sid) m h))
        (λ n. h)

  pub enforce-BufferOk :
      (m : AssembleMap V) (from : SocketAddr)
      → AllEntries BufferOk m
      → AllEntries BufferOk (enforce_buffer_cap m from)
  unfolding enforce_buffer_cap
  enforce-BufferOk m from h =
      if-elim (AllEntries BufferOk) (leb (length (buffers_of from m)) assemble_max_buffers_per_from)
        m (drop_oldest from (sort_by_time (buffers_of from m)) m) (λ y. h)
        (λ n. drop_oldest-BufferOk from (sort_by_time (buffers_of from m)) m h)

  pub length-enforce :
      (f from : SocketAddr) (m : AssembleMap V)
      → length (buffers_of f (enforce_buffer_cap m from)) ≤ length (buffers_of f m)
  unfolding enforce_buffer_cap
  length-enforce f from m =
      if-elim (λ x. length (buffers_of f x) ≤ length (buffers_of f m))
        (leb (length (buffers_of from m)) assemble_max_buffers_per_from) m
        (drop_oldest from (sort_by_time (buffers_of from m)) m) (λ y. omega arith)
        (λ n. length-drop_oldest f from (sort_by_time (buffers_of from m)) m)

  -- One buffer too many goes.
  drop_one :
      (from : SocketAddr) (ks : List (ℕ × ℕ)) (m : AssembleMap V)
      → assemble_max_buffers_per_from < length ks
      → All (λ e. has_sid e.0 (buffers_of from m) ≡ true) ks
      → length (buffers_of from m) ≤ assemble_max_buffers_per_from + 1
      → length (buffers_of from (drop_oldest from ks m)) ≤ assemble_max_buffers_per_from
  unfolding drop_oldest
  drop_one from [] m long h le = absurd (omega (arith, long))
  drop_one from ((sid, t) ∷ ks) m long (h, hs) le =
      rw (lt→ltb assemble_max_buffers_per_from (length ((sid, t) ∷ ks)) long) (
        omega (
          arith,
          length-drop_oldest from from ks (remove (from, sid) m),
          length-buffers_of-remove_lt from sid m h,
          le,
        ))

  pub enforce-capped :
      (from : SocketAddr) (m : AssembleMap V)
      → length (buffers_of from m) ≤ assemble_max_buffers_per_from + 1
      → length (buffers_of from (enforce_buffer_cap m from)) ≤ assemble_max_buffers_per_from
  unfolding enforce_buffer_cap
  enforce-capped from m le =
      let ks = buffers_of from m in
      if-elim (λ x. length (buffers_of from x) ≤ assemble_max_buffers_per_from)
        (leb (length ks) assemble_max_buffers_per_from) m (drop_oldest from (sort_by_time ks) m)
        (λ y. ground (arith, y))
        (λ n.
          drop_one from (sort_by_time ks) m
            (omega (arith, length-sort_by_time ks, leb_false→lt _ _ n))
            (All-sort_by_time (λ e. has_sid e.0 ks ≡ true) ks (own_sids ks)) le)

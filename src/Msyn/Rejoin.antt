-- ===== src/Msyn/Rejoin.antt =====
-- From an owner to a receiver (src/net/msyn_sync.rs): the parts of an epoch, in whatever order they come. `print` and
-- `parse` stand for the texts of JSON objects, `to_json` for the value of a route.
use mathlib.Core.Path.{subst}
use mathlib.Core.Option.{some-injective}
use mint_connect_unit.Addr.{SocketAddr, addr_key}
use mint_connect_unit.Claim.Vip.{Text}
use mint_connect_unit.Msyn.Assemble.{
  AssembleMap, MsynHeader, MsynPartPayload, MsynValue, PartialMsyn, add_part, any_newer_buffer,
  assemble_removed_then_routes, buffer_key, buffered, buffers_of, complete, enforce_buffer_cap,
  ingest_checked, ingest_msyn_part, is_complete, payload_of, read_header, remove_keys, same_buffer,
  same_buffer_iff, same_epoch, stale_keys, store_part, sweep_assemble, take_complete,
}
use mint_connect_unit.Msyn.Contents.{all_removed, all_routes}
use mint_connect_unit.Msyn.Epoch.{
  MsynRouteItem, assemble_max_parts_total, assemble_ttl, msyn_proto_ver, msyn_schema_ver,
}
use mint_connect_unit.Msyn.Shard.{Acc}
use mint_connect_unit.Msyn.Values.{
  assemble_from_lem, deliver, get_elem?-lt, get_elem?-some, indices, length-insert_new, payload,
  present-some_texts, receive, value_of, zero_plus,
}
use mint_connect_unit.Prelude.{
  All, Bool, Bool-cases, List, Option, [], ap, arith, eqb, eqb_iff, false, get_elem?, inl, inr,
  is_some→some, leb, length, ltb, lt→ltb, map, none, refl, same_self, some, suc, sym, true, ℕ,
  ℕ_key, ◌&&◌, ◌+◌, ◌-◌, ◌<◌, ◌^◌, ◌||◌, ◌∙◌, ◌∷◌, ◌≡◌, ◌≤◌,
}
use mint_connect_unit.Prelude.Distinct.{
  All-keys-insert, All-map, All-zip, Distinct, Distinct-insert,
}
use mint_connect_unit.Prelude.Pigeonhole.{full_below}
use mint_connect_unit.Prelude.Table.{
  Table, insert, keys, lookup, lookup-insert, lookup-insert_ne, remove,
}

module _ {V : Type 0} (to_json : MsynRouteItem → V) (from : SocketAddr)
    (from_rev to_rev sync_id n applied first_seen : ℕ) (accs : List Acc)
    (small : n ≤ assemble_max_parts_total) (size : length accs ≡ n) (newer : applied < to_rev) where
  key : SocketAddr × ℕ
  key = (from, sync_id)

  header : ℕ → MsynHeader
  header i = record {
    sync_id = sync_id;
    from_rev = from_rev;
    to_rev = to_rev;
    part_idx = i;
    parts_total = n;
  }

  buffer : Table ℕ (MsynPartPayload V) → PartialMsyn V
  buffer parts = record {
    sync_id = sync_id;
    from_rev = from_rev;
    to_rev = to_rev;
    parts_total = n;
    parts = parts;
    first_seen = first_seen;
  }

  one : Table ℕ (MsynPartPayload V) → AssembleMap V
  one parts = (key, buffer parts) ∷ []

  abbrev pub part_value : ℕ → Acc → MsynValue V
  part_value i a = value_of to_json (record {
    proto_ver = msyn_proto_ver;
    schema_ver = msyn_schema_ver;
    from_rev = from_rev;
    to_rev = to_rev;
    sync_id = sync_id;
    part_idx = i;
    parts_total = n;
    routes = a.routes;
    removed = a.removed;
  })

  read_part : (i : ℕ) (a : Acc) → i < n → read_header (part_value i a) ≡ some (header i)
  unfolding read_header header
  read_part i a lt =
      let i32 : ltb i (2 ^ 32) ≡ true = lt→ltb i (2 ^ 32) (omega (arith, lt, small)) in
      let n32 : ltb n (2 ^ 32) ≡ true = lt→ltb n (2 ^ 32) (omega (arith, small)) in
      let z : eqb n 0 || ltb assemble_max_parts_total n ≡ false = ground (arith, lt, small) in
      let f : leb n i ≡ false = ground (arith, lt) in rw (i32, n32, z, f) refl

  payload_part : (i : ℕ) (a : Acc) → payload_of (part_value i a) ≡ payload to_json a
  unfolding payload_of
  payload_part i a = rw (present-some_texts a.removed) refl

  ingest_first :
      (i : ℕ) (a : Acc)
      → i < n
      → ingest_msyn_part [] from (part_value i a) applied first_seen
        ≡ take_complete key true (one (insert i (payload to_json a) []))
  unfolding ingest_msyn_part sweep_assemble ingest_checked stale_keys remove_keys any_newer_buffer
      store_part lookup insert enforce_buffer_cap buffers_of key one buffer header
  ingest_first i a lt =
      let late : leb to_rev applied ≡ false = ground (arith, newer) in
      rw (ingest_msyn_part, read_part i a lt, late, payload_part i a, same_self from) refl

  sid_same : eqb sync_id sync_id ≡ true
  sid_same = (eqb_iff sync_id sync_id).1 refl

  key_same : same_buffer key key ≡ true
  key_same = (same_buffer_iff key key).1 refl

  none_stale :
      (i : ℕ) (parts : Table ℕ (MsynPartPayload V)) → stale_keys from (header i) (one parts) ≡ []
  unfolding stale_keys one key buffer header
  none_stale i parts = rw (same_self from, sid_same) refl

  none_newer :
      (i : ℕ) (parts : Table ℕ (MsynPartPayload V))
      → any_newer_buffer from (header i) (one parts) ≡ false
  unfolding any_newer_buffer one key buffer header
  none_newer i parts = rw (same_self from, sid_same) refl

  lookup_nothing : (i : ℕ) → lookup {V = MsynPartPayload V} i [] ≡ none
  unfolding lookup
  lookup_nothing i = refl

  found : (parts : Table ℕ (MsynPartPayload V)) → lookup key (one parts) ≡ some (buffer parts)
  unfolding lookup one
  found parts = rw key_same refl

  replaced :
      (p : PartialMsyn V) (parts : Table ℕ (MsynPartPayload V))
      → insert key p (one parts) ≡ (key, p) ∷ []
  unfolding insert one
  replaced p parts = rw key_same refl

  epoch_same :
      (i : ℕ) (parts : Table ℕ (MsynPartPayload V)) → same_epoch (buffer parts) (header i) ≡ true
  unfolding buffer header
  epoch_same i parts = ground (arith, eqb_iff n n, eqb_iff from_rev from_rev, eqb_iff to_rev to_rev)

  store_next :
      (i now : ℕ) (a : Acc) (parts : Table ℕ (MsynPartPayload V))
      → store_part from (header i) (payload to_json a) now (one parts)
        ≡ take_complete key false (one (insert i (payload to_json a) parts))
  unfolding store_part key lookup take_complete one header buffer
  store_next i now a parts =
      rw (store_part, found parts, epoch_same i parts)
        (ap (take_complete key false)
          (replaced (add_part (header i) (payload to_json a) (buffer parts)) parts))

  checked_next :
      (i now : ℕ) (a : Acc) (parts : Table ℕ (MsynPartPayload V))
      → ingest_checked from (header i) (payload to_json a) now (one parts)
        ≡ take_complete key false (one (insert i (payload to_json a) parts))
  unfolding ingest_checked remove_keys
  checked_next i now a parts =
      rw (ingest_checked, none_stale i parts, none_newer i parts) (store_next i now a parts)

  ingest_next :
      (i now : ℕ) (a : Acc) (parts : Table ℕ (MsynPartPayload V))
      → i < n
      → now < first_seen + assemble_ttl
      → ingest_msyn_part (one parts) from (part_value i a) applied now
        ≡ take_complete key false (one (insert i (payload to_json a) parts))
  unfolding ingest_msyn_part sweep_assemble one buffer header
  ingest_next i now a parts lt soon =
      let late : leb to_rev applied ≡ false = ground (arith, newer) in
      let fresh : ltb (now - first_seen) assemble_ttl ≡ true = ground (arith, soon) in
      rw (ingest_msyn_part, read_part i a lt, late, payload_part i a, fresh)
        (checked_next i now a parts)

  -- The parts that are in a buffer are those of the epoch.
  record Holds (parts : Table ℕ (MsynPartPayload V)) : Type 0 where
    distinct : Distinct (keys parts)
    below : All (λ i. i < n) (keys parts)
    faithful :
        (i : ℕ) (p : MsynPartPayload V)
        → lookup i parts ≡ some p
        → (a : Acc) × (get_elem? accs i ≡ some a) × (p ≡ payload to_json a)

  nothing-Holds : Holds []
  unfolding lookup
  nothing-Holds = record { distinct = tt; below = tt; faithful = λ i p e. cc }

  insert-Holds :
      (i : ℕ) (a : Acc) (parts : Table ℕ (MsynPartPayload V))
      → i < n
      → get_elem? accs i ≡ some a
      → Holds parts
      → Holds (insert i (payload to_json a) parts)
  insert-Holds i a parts lt e h = record {
    distinct = Distinct-insert i (payload to_json a) parts h.distinct;
    below = All-keys-insert (λ j. j < n) i (payload to_json a) parts lt h.below;
    faithful = λ j p l. elim (Bool-cases (eqb i j)) [
      | inl t ↦
          let same : i ≡ j = (eqb_iff i j).0 t in
          let r : some (payload to_json a) ≡ some p =
            sym (rw (lookup-insert i j (payload to_json a) parts, t) refl) ∙ l in
          (a, cc (same, e), sym (some-injective (payload to_json a) p r))
      | inr f ↦ h.faithful j p (sym (rw (lookup-insert i j (payload to_json a) parts, f) refl) ∙ l)
    ];
  }

  whole_lem :
      (parts : Table ℕ (MsynPartPayload V))
      → Holds parts
      → length parts ≡ n
      → assemble_removed_then_routes (buffer parts)
        ≡ (all_removed accs, map to_json (all_routes accs))
  unfolding assemble_removed_then_routes buffer
  whole_lem parts h e = rw⁻¹ size (
      assemble_from_lem to_json parts 0 accs (λ j a g.
        let lt : j < n = omega (arith, get_elem?-lt accs j a g, size) in
        let (p, l) = is_some→some (lookup j parts) (full_below n parts h.distinct h.below e j lt) in
        let (b, q, r) = h.faithful j p l in
        let same : a ≡ b = some-injective a b (sym g ∙ q) in
        let here : lookup j parts ≡ some (payload to_json a) = cc (l, r, same) in
        subst (λ x. lookup x parts ≡ some (payload to_json a)) (sym (zero_plus j)) here))

  complete_one :
      (first : Bool) (parts : Table ℕ (MsynPartPayload V))
      → 1 ≤ n
      → length parts ≡ n
      → take_complete key first (one parts) ≡ ([], complete (buffer parts))
  unfolding take_complete is_complete remove one buffer
  complete_one first parts positive e =
      let y : ltb 0 n && eqb (length parts) n ≡ true = ground (arith, positive, e) in
      rw (take_complete, found parts, y, key_same) refl

  waiting_one :
      (first : Bool) (parts : Table ℕ (MsynPartPayload V))
      → length parts < n
      → take_complete key first (one parts) ≡ (one parts, buffered first)
  unfolding take_complete is_complete buffer
  waiting_one first parts lt =
      let f : ltb 0 n && eqb (length parts) n ≡ false = ground (arith, lt) in
      rw (take_complete, found parts, f) refl

  module _ (parse : Text → Option (MsynValue V)) (texts : List Text)
      (reads : (i : ℕ) (a : Acc)
        → get_elem? accs i ≡ some a
        → (x : Text) × (get_elem? texts i ≡ some x) × (parse x ≡ some (part_value i a))) where
    receive_lem :
        (m : AssembleMap V) (now i : ℕ) (a : Acc)
        → get_elem? accs i ≡ some a
        → receive parse from applied m texts (now, i)
          ≡ ingest_msyn_part m from (part_value i a) applied now
    unfolding receive
    receive_lem m now i a e = let (x, g, p) = reads i a e in rw (receive, g, p) refl

    -- Parts that are still to come: each once, none of them there yet.
    record Coming (parts : Table ℕ (MsynPartPayload V)) (es : List (ℕ × ℕ)) : Type 0 where
      distinct : Distinct (indices es)
      below : All (λ i. i < n) (indices es)
      absent : All (λ i. lookup i parts ≡ none) (indices es)
      timely : All (λ e. e.0 < first_seen + assemble_ttl) es

    after-Coming :
        (parts : Table ℕ (MsynPartPayload V)) (e : ℕ × ℕ) (es : List (ℕ × ℕ)) (a : Acc)
        → Coming parts (e ∷ es)
        → Coming (insert e.1 (payload to_json a) parts) es
    after-Coming parts e es a c = record {
      distinct = c.distinct.1;
      below = c.below.1;
      absent =
          All-zip (indices es) (λ j ne h. lookup-insert_ne e.1 j (payload to_json a) parts ne ∙ h)
            c.distinct.0 c.absent.1;
      timely = c.timely.1;
    }

    deliver_rest :
        (parts : Table ℕ (MsynPartPayload V)) (e : ℕ × ℕ) (es : List (ℕ × ℕ))
        → Holds parts
        → Coming parts (e ∷ es)
        → length parts + suc (length es) ≡ n
        → (whole : Table ℕ (MsynPartPayload V)) × (deliver parse from applied (one parts) texts e es
            ≡ complete (buffer whole))
          × Holds whole
          × (length whole ≡ n)
    unfolding deliver
    deliver_rest parts e [] h c size_now =
        let (a, g) = get_elem?-some accs e.1 (omega (arith, c.below.0, size)) in
        let whole = insert e.1 (payload to_json a) parts in
        let full : length whole ≡ n =
          omega (arith, length-insert_new e.1 (payload to_json a) parts c.absent.0, size_now) in
        (
          whole,
          ap (λ x. x.1)
              (receive_lem (one parts) e.0 e.1 a g
                ∙ ingest_next e.1 e.0 a parts c.below.0 c.timely.0
                ∙ complete_one false whole (omega (arith, size_now)) full),
          insert-Holds e.1 a parts c.below.0 g h,
          full,
        )
    deliver_rest parts e (d ∷ es) h c size_now =
        let (a, g) = get_elem?-some accs e.1 (omega (arith, c.below.0, size)) in
        let more = insert e.1 (payload to_json a) parts in
        let grown : length more ≡ length parts + 1 =
          length-insert_new e.1 (payload to_json a) parts c.absent.0 in
        let step : (receive parse from applied (one parts) texts e).0 ≡ one more =
          ap (λ x. x.0)
            (receive_lem (one parts) e.0 e.1 a g
              ∙ ingest_next e.1 e.0 a parts c.below.0 c.timely.0
              ∙ waiting_one false more (omega (arith, grown, size_now))) in
        let (whole, p, hw, lw) =
          deliver_rest more d es (insert-Holds e.1 a parts c.below.0 g h)
            (after-Coming parts e (d ∷ es) a c) (omega (arith, grown, size_now)) in
        (whole, ap (λ m. deliver parse from applied m texts d es) step ∙ p, hw, lw)

    -- The first part makes the buffer.
    pub deliver_order :
        (i : ℕ) (es : List (ℕ × ℕ))
        → Distinct (indices ((first_seen, i) ∷ es))
        → All (λ j. j < n) (indices ((first_seen, i) ∷ es))
        → All (λ e. e.0 < first_seen + assemble_ttl) es
        → suc (length es) ≡ n
        → (p : PartialMsyn V) × (deliver parse from applied [] texts (first_seen, i) es
            ≡ complete p)
          × (assemble_removed_then_routes p ≡ (all_removed accs, map to_json (all_routes accs)))
    unfolding deliver
    deliver_order i [] d b t size_now =
        let (a, g) = get_elem?-some accs i (omega (arith, b.0, size)) in
        let whole = insert i (payload to_json a) [] in
        let full : length whole ≡ n =
          omega (arith, length-insert_new i (payload to_json a) [] (lookup_nothing i), size_now) in
        (
          buffer whole,
          ap (λ x. x.1)
              (receive_lem [] first_seen i a g
                ∙ ingest_first i a b.0
                ∙ complete_one true whole (omega (arith, size_now)) full),
          whole_lem whole (insert-Holds i a [] b.0 g nothing-Holds) full,
        )
    deliver_order i (f ∷ es) d b t size_now =
        let (a, g) = get_elem?-some accs i (omega (arith, b.0, size)) in
        let more = insert i (payload to_json a) [] in
        let grown : length more ≡ 1 =
          length-insert_new i (payload to_json a) [] (lookup_nothing i) in
        let step : (receive parse from applied [] texts (first_seen, i)).0 ≡ one more =
          ap (λ x. x.0)
            (receive_lem [] first_seen i a g
              ∙ ingest_first i a b.0
              ∙ waiting_one true more (omega (arith, grown, size_now))) in
        let coming : Coming more (f ∷ es) = record {
          distinct = d.1;
          below = b.1;
          absent =
              All-map (indices (f ∷ es))
                (λ j ne. lookup-insert_ne i j (payload to_json a) [] ne ∙ lookup_nothing j) d.0;
          timely = t;
        } in
        let (whole, p, hw, lw) =
          deliver_rest more f es (insert-Holds i a [] b.0 g nothing-Holds) coming
            (omega (arith, grown, size_now)) in
        (
          buffer whole,
          ap (λ m. deliver parse from applied m texts f es) step ∙ p,
          whole_lem whole hw lw,
        )

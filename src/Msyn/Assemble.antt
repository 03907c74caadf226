-- ===== src/Msyn/Assemble.antt =====
-- The buffers in which parts of an epoch wait for the others (src/net/msyn_sync.rs). Of a JSON object, `MsynValue` has
-- what the code reads: a number is `none` where `as_u64` gives none, and so are an array and its texts. `V` is the
-- type of the values of routes, which are passed on unread. An instant is a number of milliseconds.
use mint_connect_unit.Addr.{SocketAddr, addr_key, same_addr, same_addr_iff}
use mint_connect_unit.Claim.Vip.{Text}
use mint_connect_unit.Msyn.Epoch.{
  assemble_max_buffers_per_from, assemble_max_parts_total, assemble_ttl, msyn_proto_ver,
  msyn_schema_ver,
}
use mint_connect_unit.Prelude.{
  Bool, Key, List, Option, [], arith, eqb, eqb_iff, false, if◌then◌else◌, leb, length, ltb, none,
  not, some, suc, true, zero, ℕ, ℕ_key, ◌&&◌, ◌++◌, ◌+◌, ◌-◌, ◌^◌, ◌||◌, ◌↔◌, ◌∷◌, ◌≡◌,
}
use mint_connect_unit.Prelude.Table.{Table, insert, lookup, remove, retain}

abbrev pub same_buffer : SocketAddr × ℕ → SocketAddr × ℕ → Bool
same_buffer a b = same_addr a.0 b.0 && eqb a.1 b.1

pub same_buffer_iff : (a b : SocketAddr × ℕ) → (same_buffer a b ≡ true) ↔ (a ≡ b)
same_buffer_iff (a, m) (b, n) = ground (arith, same_addr_iff a b, eqb_iff m n)

instance abbrev pub buffer_key : Key (SocketAddr × ℕ)
buffer_key = record { same = same_buffer; same_iff = same_buffer_iff }

module _ (V : Type 0) where
  pub record MsynValue : Type 0 where
    pub proto_ver : Option ℕ
    pub schema_ver : Option ℕ
    pub sync_id : Option ℕ
    pub from_rev : Option ℕ
    pub to_rev : Option ℕ
    pub part_idx : Option ℕ
    pub parts_total : Option ℕ
    pub routes : Option (List V)
    pub removed : Option (List (Option Text))

  pub record MsynPartPayload : Type 0 where
    pub routes : List V
    pub removed : List Text

  pub record PartialMsyn : Type 0 where
    pub sync_id : ℕ
    pub from_rev : ℕ
    pub to_rev : ℕ
    pub parts_total : ℕ
    pub parts : Table ℕ MsynPartPayload
    pub first_seen : ℕ

  abbrev pub AssembleMap : Type 0
  AssembleMap = Table (SocketAddr × ℕ) PartialMsyn

  pub data IngestOutcome : Type 0 where
    ignored : IngestOutcome
    buffered : Bool → IngestOutcome
    complete : PartialMsyn → IngestOutcome

-- The numbers of a part, once they are read and checked.
pub record MsynHeader : Type 0 where
  pub sync_id : ℕ
  pub from_rev : ℕ
  pub to_rev : ℕ
  pub part_idx : ℕ
  pub parts_total : ℕ

-- `u32::try_from`
abbrev pub as_u32 : Option ℕ → Option ℕ
as_u32 none = none
as_u32 (some n) = if ltb n (2 ^ 32) then some n else none

abbrev pub is_version : Option ℕ → ℕ → Bool
is_version none n = false
is_version (some m) n = eqb m n

abbrev pub checked_header : MsynHeader → Option MsynHeader
checked_header h =
    if eqb h.parts_total 0 || ltb assemble_max_parts_total h.parts_total
    then none
    else if leb h.parts_total h.part_idx
    then none
    else some h

-- `sort_by_key` of the times, which is stable.
unfoldable pub insert_by_time : ℕ × ℕ → List (ℕ × ℕ) → List (ℕ × ℕ)
insert_by_time e [] = e ∷ []
insert_by_time e (d ∷ ks) = if leb e.1 d.1 then e ∷ d ∷ ks else d ∷ insert_by_time e ks

unfoldable pub sort_by_time : List (ℕ × ℕ) → List (ℕ × ℕ)
sort_by_time [] = []
sort_by_time (e ∷ ks) = insert_by_time e (sort_by_time ks)

infixl 5 ◌>>=◌
abbrev pub ◌>>=◌ {ℓ κ} : {A : Type ℓ} {B : Type κ} → Option A → (A → Option B) → Option B
none >>= f = none
some a >>= f = f a

-- `none` wherever the source ignores the part for its numbers alone.
unfoldable pub read_header : {V : Type 0} → MsynValue V → Option MsynHeader
read_header v =
    if not (is_version v.proto_ver msyn_proto_ver) || not (is_version v.schema_ver msyn_schema_ver)
    then none
    else do
      sync_id ← v.sync_id
      from_rev ← v.from_rev
      to_rev ← v.to_rev
      part_idx ← as_u32 v.part_idx
      parts_total ← as_u32 v.parts_total
      checked_header (record {
        sync_id = sync_id;
        from_rev = from_rev;
        to_rev = to_rev;
        part_idx = part_idx;
        parts_total = parts_total;
      })

-- `filter_map`
unfoldable pub present : List (Option Text) → List Text
present [] = []
present (none ∷ xs) = present xs
present (some x ∷ xs) = x ∷ present xs

module _ {V : Type 0} where
  unfoldable pub is_complete : PartialMsyn V → Bool
  is_complete p = ltb 0 p.parts_total && eqb (length p.parts) p.parts_total

  -- The loop over the indices of the parts, from one on.
  unfoldable pub assemble_from : Table ℕ (MsynPartPayload V) → ℕ → ℕ → List Text × List V
  assemble_from parts idx zero = ([], [])
  assemble_from parts idx (suc n) =
      let rest = assemble_from parts (idx + 1) n in
      elim (lookup idx parts) [ none ↦ rest | some p ↦ (p.removed ++ rest.0, p.routes ++ rest.1) ]

  unfoldable pub assemble_removed_then_routes : PartialMsyn V → List Text × List V
  assemble_removed_then_routes p = assemble_from p.parts 0 p.parts_total

  unfoldable pub sweep_assemble : AssembleMap V → ℕ → AssembleMap V
  sweep_assemble m now = retain (λ k p. ltb (now - p.first_seen) assemble_ttl) m

  -- The buffers of a sender, by their identifier and the time of the first part.
  unfoldable pub buffers_of : SocketAddr → AssembleMap V → List (ℕ × ℕ)
  buffers_of from [] = []
  buffers_of from ((k, p) ∷ m) =
      if same_addr k.0 from then (k.1, p.first_seen) ∷ buffers_of from m else buffers_of from m

  unfoldable pub drop_oldest : SocketAddr → List (ℕ × ℕ) → AssembleMap V → AssembleMap V
  drop_oldest from [] m = m
  drop_oldest from ((sid, t) ∷ ks) m =
      if ltb assemble_max_buffers_per_from (length ((sid, t) ∷ ks))
      then drop_oldest from ks (remove (from, sid) m)
      else m

  unfoldable pub enforce_buffer_cap : AssembleMap V → SocketAddr → AssembleMap V
  enforce_buffer_cap m from =
      let ks = buffers_of from m in
      if leb (length ks) assemble_max_buffers_per_from
      then m
      else drop_oldest from (sort_by_time ks) m

  -- An incomplete buffer of the sender for another epoch that is not newer.
  abbrev superseded : SocketAddr → MsynHeader → SocketAddr × ℕ → PartialMsyn V → Bool
  superseded from h k p =
      same_addr k.0 from
      && not (eqb p.sync_id h.sync_id)
      && (ltb p.to_rev h.to_rev || eqb p.to_rev h.to_rev)

  unfoldable pub stale_keys : SocketAddr → MsynHeader → AssembleMap V → List (SocketAddr × ℕ)
  stale_keys from h [] = []
  stale_keys from h ((k, p) ∷ m) =
      if superseded from h k p then k ∷ stale_keys from h m else stale_keys from h m

  unfoldable pub remove_keys : List (SocketAddr × ℕ) → AssembleMap V → AssembleMap V
  remove_keys [] m = m
  remove_keys (k ∷ ks) m = remove_keys ks (remove k m)

  abbrev newer : SocketAddr → MsynHeader → SocketAddr × ℕ → PartialMsyn V → Bool
  newer from h k p = same_addr k.0 from && not (eqb p.sync_id h.sync_id) && ltb h.to_rev p.to_rev

  unfoldable pub any_newer_buffer : SocketAddr → MsynHeader → AssembleMap V → Bool
  any_newer_buffer from h [] = false
  any_newer_buffer from h ((k, p) ∷ m) = newer from h k p || any_newer_buffer from h m

  unfoldable pub payload_of : MsynValue V → MsynPartPayload V
  payload_of v = record {
    routes = elim v.routes [ some rs ↦ rs | none ↦ [] ];
    removed = elim v.removed [ some xs ↦ present xs | none ↦ [] ];
  }

  abbrev pub same_epoch : PartialMsyn V → MsynHeader → Bool
  same_epoch p h =
      eqb p.parts_total h.parts_total && eqb p.from_rev h.from_rev && eqb p.to_rev h.to_rev

  abbrev pub first_buffer : MsynHeader → MsynPartPayload V → ℕ → PartialMsyn V
  first_buffer h payload now = record {
    sync_id = h.sync_id;
    from_rev = h.from_rev;
    to_rev = h.to_rev;
    parts_total = h.parts_total;
    parts = insert h.part_idx payload [];
    first_seen = now;
  }

  abbrev pub add_part : MsynHeader → MsynPartPayload V → PartialMsyn V → PartialMsyn V
  add_part h payload p = record p { parts = insert h.part_idx payload p.parts }

  unfoldable pub take_complete :
      SocketAddr × ℕ → Bool → AssembleMap V → AssembleMap V × IngestOutcome V
  take_complete key first_part m = elim (lookup key m) [
    | none ↦ (m, ignored)
    | some p ↦ if is_complete p then (remove key m, complete p) else (m, buffered first_part)
  ]

  unfoldable pub store_part :
      SocketAddr
      → MsynHeader
      → MsynPartPayload V
      → ℕ
      → AssembleMap V
      → AssembleMap V × IngestOutcome V
  store_part from h payload now m =
      let key : SocketAddr × ℕ = (from, h.sync_id) in
      elim (lookup key m) [
        | some p ↦
            if same_epoch p h
            then take_complete key false (insert key (add_part h payload p) m)
            else (remove key m, ignored)
        | none ↦
            take_complete key true
              (enforce_buffer_cap (insert key (first_buffer h payload now) m) from)
      ]

  unfoldable pub ingest_checked :
      SocketAddr
      → MsynHeader
      → MsynPartPayload V
      → ℕ
      → AssembleMap V
      → AssembleMap V × IngestOutcome V
  ingest_checked from h payload now m =
      let rest = remove_keys (stale_keys from h m) m in
      if any_newer_buffer from h rest then (rest, ignored) else store_part from h payload now rest

  unfoldable pub ingest_msyn_part :
      AssembleMap V → SocketAddr → MsynValue V → ℕ → ℕ → AssembleMap V × IngestOutcome V
  ingest_msyn_part m from v applied_to_rev now =
      let swept = sweep_assemble m now in
      elim (read_header v) [
        | none ↦ (swept, ignored)
        | some h ↦
            if leb h.to_rev applied_to_rev
            then (swept, ignored)
            else ingest_checked from h (payload_of v) now swept
      ]

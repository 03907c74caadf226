-- ===== src/Msyn/Shard.antt =====
-- The parts of an epoch (src/net/msyn_sync.rs). `print` stands for the text of a JSON object with the fields of a
-- part, which serde_json makes.
use mint_connect_unit.Addr.{SocketAddr}
use mint_connect_unit.Claim.Vip.{Text}
use mint_connect_unit.Msyn.Epoch.{
  MsynRouteItem, RouteSyncRow, apply_max_removed, apply_max_routes, assemble_max_parts_total,
  collect_removed_vips, is_empty, modified_routes, msyn_proto_ver, msyn_schema_ver,
}
use mint_connect_unit.Prelude.{
  Bool, List, Option, [], if◌then◌else◌, leb, length, ltb, none, not, some, ℕ, ◌&&◌, ◌++◌, ◌+◌,
  ◌||◌, ◌∷◌,
}

pub data EntryKind : Type 0 where
  route_entry removed_entry : EntryKind

pub data ShardError : Type 0 where
  entry_too_large : EntryKind → ℕ → ShardError
  too_many_parts : ℕ → ShardError
  epoch_too_large : ℕ → ℕ → ShardError

pub data Result {ℓ} (A : Type ℓ) : Type ℓ where
  ok : A → Result A
  err : ShardError → Result A

infixl 5 ◌>>=◌
abbrev ◌>>=◌ {ℓ κ} : {A : Type ℓ} {B : Type κ} → Result A → (A → Result B) → Result B
ok a >>= f = f a
err e >>= f = err e

pub record MsynPart : Type 0 where
  pub proto_ver : ℕ
  pub schema_ver : ℕ
  pub from_rev : ℕ
  pub to_rev : ℕ
  pub sync_id : ℕ
  pub part_idx : ℕ
  pub parts_total : ℕ
  pub routes : List MsynRouteItem
  pub removed : List Text

pub record Acc : Type 0 where
  pub routes : List MsynRouteItem
  pub removed : List Text

abbrev pub empty_acc : Acc
empty_acc = record { routes = []; removed = [] }

pub record Packing : Type 0 where
  pub done : List Acc
  pub cur : Acc

abbrev pub acc_empty : Acc → Bool
acc_empty a = is_empty a.routes && is_empty a.removed

-- What the part that is left aside adds to the finished ones.
abbrev pub close_cur : Packing → List Acc
close_cur s = if acc_empty s.cur then s.done else s.done ++ (s.cur ∷ [])

module _ (print : MsynPart → Text) (from_rev to_rev sync_id : ℕ) where
  abbrev pub part_of : ℕ → ℕ → Acc → MsynPart
  part_of part_idx parts_total a = record {
    proto_ver = msyn_proto_ver;
    schema_ver = msyn_schema_ver;
    from_rev = from_rev;
    to_rev = to_rev;
    sync_id = sync_id;
    part_idx = part_idx;
    parts_total = parts_total;
    routes = a.routes;
    removed = a.removed;
  }

  unfoldable pub serialize_part : ℕ → ℕ → Acc → Text
  serialize_part part_idx parts_total a = print (part_of part_idx parts_total a)

  abbrev pub with_route : MsynRouteItem → Acc → Acc
  with_route r a = record a { routes = a.routes ++ (r ∷ []) }

  abbrev pub with_removed : Text → Acc → Acc
  with_removed v a = record a { removed = a.removed ++ (v ∷ []) }

  -- The length with which `fits` tries a part.
  abbrev pub probe_len : Acc → ℕ
  probe_len a = length (serialize_part 0 1 a)

  module _ (budget : ℕ) where
    unfoldable pub fits : Acc → Bool
    fits a = leb (probe_len a) budget

    -- A part that an entry begins, which is `alone` in it.
    unfoldable pub push_alone : EntryKind → Acc → Packing → Result Packing
    push_alone kind alone s =
        if fits alone
        then ok (record { done = close_cur s; cur = alone })
        else err (entry_too_large kind (probe_len alone))

    unfoldable pub add_removed : Text → Packing → Result Packing
    add_removed v s =
        if fits (with_removed v s.cur)
        then ok (record s { cur = with_removed v s.cur })
        else push_alone removed_entry (with_removed v empty_acc) s

    unfoldable pub add_route : MsynRouteItem → Packing → Result Packing
    add_route r s =
        if fits (with_route r s.cur)
        then ok (record s { cur = with_route r s.cur })
        else push_alone route_entry (with_route r empty_acc) s

    unfoldable pub pack_removed : List Text → Packing → Result Packing
    pack_removed [] s = ok s
    pack_removed (v ∷ vs) s = do t ← add_removed v s; pack_removed vs t

    unfoldable pub pack_routes : List MsynRouteItem → Packing → Result Packing
    pack_routes [] s = ok s
    pack_routes (r ∷ rs) s = do t ← add_route r s; pack_routes rs t

    unfoldable pub pack_epoch : List MsynRouteItem → List Text → Result Packing
    pack_epoch routes removed = do
      t ← pack_removed removed (record { done = []; cur = empty_acc })
      pack_routes routes t

    -- One part at least.
    unfoldable pub finish_parts : Packing → List Acc
    finish_parts s =
        if not (acc_empty s.cur) || is_empty s.done then s.done ++ (s.cur ∷ []) else s.done

    unfoldable pub number_parts : ℕ → ℕ → List Acc → List Text
    number_parts part_idx parts_total [] = []
    number_parts part_idx parts_total (a ∷ accs) =
        serialize_part part_idx parts_total a ∷ number_parts (part_idx + 1) parts_total accs

    unfoldable pub emit_parts : List Acc → Result (List Text)
    emit_parts accs =
        if ltb assemble_max_parts_total (length accs)
        then err (too_many_parts (length accs))
        else ok (number_parts 0 (length accs) accs)

    unfoldable pub shard_msyn_epoch : List MsynRouteItem → List Text → Result (List Text)
    shard_msyn_epoch routes removed =
        if ltb apply_max_routes (length routes) || ltb apply_max_removed (length removed)
        then err (epoch_too_large (length routes) (length removed))
        else do s ← pack_epoch routes removed; emit_parts (finish_parts s)

-- `none` if there is nothing to send.
unfoldable pub build_msyn_delta_shards :
    (MsynPart → Text)
    → (SocketAddr → Text)
    → ℕ
    → ℕ
    → ℕ
    → List RouteSyncRow
    → List (Text × ℕ)
    → Option (List Text)
    → ℕ
    → Result (Option (List Text))
build_msyn_delta_shards print print_addr last current_rev sync_id snapshot tombs pending budget =
    let routes = modified_routes print_addr last snapshot in
    let removed = collect_removed_vips last tombs pending in
    if is_empty routes && is_empty removed then ok none else do
      parts ← shard_msyn_epoch print last current_rev sync_id budget routes removed
      ok (some parts)

unfoldable pub build_msyn_full_shards :
    (MsynPart → Text) → ℕ → ℕ → List MsynRouteItem → List Text → ℕ → Result (List Text)
build_msyn_full_shards print to_rev sync_id routes removed budget =
    shard_msyn_epoch print 0 to_rev sync_id budget routes removed

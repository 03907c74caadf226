-- ===== src/Msyn/Tests.antt =====
-- Runs of the sharding and the assembly (src/net/msyn_sync.rs) and instances of the theorems about them, with a
-- text of parts in which the length of a text or a list comes before it.
use mint_connect_unit.Addr.{SocketAddr, addr_key, v4}
use mint_connect_unit.Claim.Vip.{Text}
use mint_connect_unit.Msyn.Arrival.{epoch_roundtrip}
use mint_connect_unit.Msyn.Assemble.{
  MsynValue, PartialMsyn, assemble_removed_then_routes, buffer_key, buffers_of, complete,
  ingest_msyn_part,
}
use mint_connect_unit.Msyn.Buffers.{Sound, Whole}
use mint_connect_unit.Msyn.Contents.{AnyOf}
use mint_connect_unit.Msyn.Epoch.{
  MsynRouteItem, apply_max_removed, apply_max_routes, effective_msyn_json_budget,
}
use mint_connect_unit.Msyn.Ingest.{ingest_msyn_part-Sound}
use mint_connect_unit.Msyn.Packing.{Parts, shard_msyn_epoch-Parts}
use mint_connect_unit.Msyn.Refusal.{RemovedTooLarge, RouteTooLarge, shard_msyn_epoch-err}
use mint_connect_unit.Msyn.Shard.{
  Acc, MsynPart, add_removed, add_route, emit_parts, entry_too_large, epoch_too_large, err,
  finish_parts, fits, number_parts, ok, pack_epoch, pack_removed, pack_routes, part_of, push_alone,
  removed_entry, serialize_part, shard_msyn_epoch, too_many_parts,
}
use mint_connect_unit.Msyn.Values.{deliver, some_texts, value_of}
use mint_connect_unit.Prelude.{
  List, Option, [], ap, arith, drop, drop-append_length, length, map, none, refl, some, suc, take,
  take-append_length, zero, ℕ, ℕ_key, ◌++◌, ◌<◌, ◌∙◌, ◌∷◌, ◌≡◌, ◌≤◌, ◌⊎◌,
}

abbrev put_text : Text → List ℕ
put_text x = length x ∷ x

abbrev put_texts : List Text → List ℕ
put_texts [] = []
put_texts (x ∷ xs) = put_text x ++ put_texts xs

abbrev put_route : MsynRouteItem → List ℕ → List ℕ
put_route r rest = put_text r.vip ++ (put_text r.ep ++ (put_text r.node_id ++ rest))

abbrev put_routes : List MsynRouteItem → List ℕ → List ℕ
put_routes [] rest = rest
put_routes (r ∷ rs) rest = put_route r (put_routes rs rest)

abbrev print_part : MsynPart → Text
print_part p =
    let body = put_routes p.routes (length p.removed ∷ put_texts p.removed) in
    p.proto_ver
    ∷ p.schema_ver
    ∷ p.from_rev
    ∷ p.to_rev
    ∷ p.sync_id
    ∷ p.part_idx
    ∷ p.parts_total
    ∷ length p.routes
    ∷ body

abbrev get_text : List ℕ → Text × List ℕ
get_text [] = ([], [])
get_text (k ∷ xs) = (take k xs, drop k xs)

abbrev get_texts : ℕ → List ℕ → List Text
get_texts zero xs = []
get_texts (suc n) xs = (get_text xs).0 ∷ get_texts n (get_text xs).1

abbrev get_route : List ℕ → MsynRouteItem × List ℕ
get_route xs =
    let (vip, after_vip) = get_text xs in
    let (ep, after_ep) = get_text after_vip in
    let (node_id, rest) = get_text after_ep in
    (record { vip = vip; ep = ep; node_id = node_id }, rest)

abbrev get_routes : ℕ → List ℕ → List MsynRouteItem × List ℕ
get_routes zero xs = ([], xs)
get_routes (suc n) xs =
    let rest = get_routes n (get_route xs).1 in ((get_route xs).0 ∷ rest.0, rest.1)

abbrev get_removed : List ℕ → List Text
get_removed [] = []
get_removed (n ∷ xs) = get_texts n xs

abbrev same_route : MsynRouteItem → MsynRouteItem
same_route r = r

abbrev parse_part : Text → Option (MsynValue MsynRouteItem)
parse_part (a ∷ b ∷ c ∷ d ∷ e ∷ f ∷ g ∷ n ∷ xs) =
    let (routes, rest) = get_routes n xs in
    some (record {
      proto_ver = some a;
      schema_ver = some b;
      from_rev = some c;
      to_rev = some d;
      sync_id = some e;
      part_idx = some f;
      parts_total = some g;
      routes = some routes;
      removed = some (some_texts (get_removed rest));
    })
parse_part _ = none

get-put_text : (x : Text) (rest : List ℕ) → get_text (put_text x ++ rest) ≡ (x, rest)
get-put_text x rest = rw (take-append_length x rest, drop-append_length x rest) refl

get-put_texts : (xs : List Text) → get_texts (length xs) (put_texts xs) ≡ xs
get-put_texts [] = refl
get-put_texts (x ∷ xs) =
    rw (take-append_length x (put_texts xs), drop-append_length x (put_texts xs))
      (ap (◌∷◌ x) (get-put_texts xs))

get-put_route : (r : MsynRouteItem) (rest : List ℕ) → get_route (put_route r rest) ≡ (r, rest)
get-put_route r rest =
    rw
      (
        take-append_length r.vip (put_text r.ep ++ (put_text r.node_id ++ rest)),
        drop-append_length r.vip (put_text r.ep ++ (put_text r.node_id ++ rest)),
        take-append_length r.ep (put_text r.node_id ++ rest),
        drop-append_length r.ep (put_text r.node_id ++ rest),
        take-append_length r.node_id rest,
        drop-append_length r.node_id rest,
      )
      refl

get-put_routes :
    (rs : List MsynRouteItem) (rest : List ℕ)
    → get_routes (length rs) (put_routes rs rest) ≡ (rs, rest)
get-put_routes [] rest = refl
get-put_routes (r ∷ rs) rest =
    let one = get-put_route r (put_routes rs rest) in
    let others = get-put_routes rs rest in
    ap (λ x. (x.0 ∷ (get_routes (length rs) x.1).0, (get_routes (length rs) x.1).1)) one
    ∙ ap (λ y. (r ∷ y.0, y.1)) others

value_with : MsynPart → List MsynRouteItem × List ℕ → Option (MsynValue MsynRouteItem)
value_with p x = some (record {
  proto_ver = some p.proto_ver;
  schema_ver = some p.schema_ver;
  from_rev = some p.from_rev;
  to_rev = some p.to_rev;
  sync_id = some p.sync_id;
  part_idx = some p.part_idx;
  parts_total = some p.parts_total;
  routes = some x.0;
  removed = some (some_texts (get_removed x.1));
})

map-same_route : (rs : List MsynRouteItem) → map same_route rs ≡ rs
map-same_route [] = refl
map-same_route (r ∷ rs) = ap (◌∷◌ r) (map-same_route rs)

parse-print_part : (p : MsynPart) → parse_part (print_part p) ≡ some (value_of same_route p)
unfolding value_with
parse-print_part p =
    ap (value_with p) (get-put_routes p.routes (length p.removed ∷ put_texts p.removed))
    ∙ rw (get-put_texts p.removed, map-same_route p.routes) refl

abbrev two_removed : List Text
two_removed = (1 ∷ []) ∷ (2 ∷ []) ∷ []

abbrev one_removed : ℕ → Acc
one_removed x = record { routes = []; removed = (x ∷ []) ∷ [] }

-- Two parts, of eleven numbers each.
abbrev two_texts : List Text
two_texts =
    print_part (part_of print_part 3 5 9 0 2 (one_removed 1))
    ∷ print_part (part_of print_part 3 5 9 1 2 (one_removed 2))
    ∷ []

two_sharded : shard_msyn_epoch print_part 3 5 9 12 [] two_removed ≡ ok two_texts
unfolding shard_msyn_epoch pack_epoch pack_removed pack_routes add_removed add_route push_alone fits
    serialize_part finish_parts emit_parts number_parts
two_sharded = refl

too_large :
    shard_msyn_epoch print_part 3 5 9 10 [] two_removed ≡ err (entry_too_large removed_entry 11)
unfolding shard_msyn_epoch pack_epoch pack_removed pack_routes add_removed add_route push_alone fits
    serialize_part finish_parts emit_parts number_parts
too_large = refl

budgets : (effective_msyn_json_budget 1200 ≡ 1148) × (effective_msyn_json_budget 100 ≡ 256)
unfolding effective_msyn_json_budget
budgets = (refl, refl)

shard_msyn_epoch-Parts_example :
    (accs : List Acc) × (two_texts ≡ number_parts print_part 3 5 9 12 0 (length accs) accs)
    × Parts print_part 3 5 9 12 accs [] two_removed
    × (length accs ≤ 64)
shard_msyn_epoch-Parts_example =
    shard_msyn_epoch-Parts print_part 3 5 9 12 [] two_removed two_texts two_sharded

shard_msyn_epoch-err_example :
    ((entry_too_large removed_entry 11 ≡ epoch_too_large 0 2)
      × ((apply_max_routes < 0) ⊎ (apply_max_removed < 2)))
    ⊎ (((n : ℕ) × (entry_too_large removed_entry 11 ≡ too_many_parts n) × (64 < n))
        ⊎ (AnyOf
              (RemovedTooLarge print_part 3 5 9 10 (entry_too_large removed_entry 11))
              two_removed
            ⊎ AnyOf (RouteTooLarge print_part 3 5 9 10 (entry_too_large removed_entry 11)) []))
shard_msyn_epoch-err_example =
    shard_msyn_epoch-err print_part 3 5 9 10 [] two_removed (entry_too_large removed_entry 11)
      too_large

abbrev owner : SocketAddr
owner = record { ip = v4 0x7f000001; port = 4000 }

epoch_roundtrip_example :
    (p : PartialMsyn MsynRouteItem) × (deliver parse_part owner 4 [] two_texts (0, 1) ((20, 0) ∷ [])
      ≡ complete p)
    × (assemble_removed_then_routes p ≡ (two_removed, []))
epoch_roundtrip_example =
    epoch_roundtrip same_route print_part parse_part 3 5 9 12 [] two_removed two_texts owner 4 0 1
      ((20, 0) ∷ []) parse-print_part two_sharded (omega arith)
      (((λ e. absurd (omega (arith, e))), tt), (tt, tt)) (omega arith, (omega arith, tt))
      (omega arith, tt) refl

abbrev first_value : MsynValue MsynRouteItem
first_value = value_of same_route (part_of print_part 3 5 9 0 2 (one_removed 1))

nothing-Sound : Sound {V = MsynRouteItem} []
unfolding buffers_of
nothing-Sound = record { buffers = tt; capped = λ from. omega arith }

ingest_msyn_part-Sound_example :
    Sound (ingest_msyn_part [] owner first_value 4 0).0
    × Whole (ingest_msyn_part [] owner first_value 4 0).1
ingest_msyn_part-Sound_example = ingest_msyn_part-Sound [] owner first_value 4 0 nothing-Sound

-- ===== src/Msyn/Arrival.antt =====
-- An epoch that is sharded, printed, delivered in any order and assembled (src/net/msyn_sync.rs).
use mathlib.Core.Path.{subst}
use mathlib.Core.Option.{some-injective}
use mint_connect_unit.Addr.{SocketAddr, addr_key}
use mint_connect_unit.Claim.Vip.{Text}
use mint_connect_unit.Msyn.Assemble.{MsynValue, PartialMsyn, assemble_removed_then_routes, complete}
use mint_connect_unit.Msyn.Contents.{all_routes}
use mint_connect_unit.Msyn.Epoch.{MsynRouteItem, assemble_ttl}
use mint_connect_unit.Msyn.Packing.{shard_msyn_epoch-Parts}
use mint_connect_unit.Msyn.Rejoin.{deliver_order, part_value}
use mint_connect_unit.Msyn.Shard.{
  Acc, MsynPart, number_parts, ok, part_of, serialize_part, shard_msyn_epoch,
}
use mint_connect_unit.Msyn.Values.{deliver, indices, value_of, zero_plus}
use mint_connect_unit.Prelude.{
  All, List, Option, [], ap, arith, get_elem?, length, map, refl, some, suc, zero, ℕ, ℕ_key, ◌+◌,
  ◌<◌, ◌∙◌, ◌∷◌, ◌≡◌,
}
use mint_connect_unit.Prelude.Distinct.{Distinct}

module _ (print : MsynPart → Text) (from_rev to_rev sync_id budget : ℕ) where
  length-number_parts :
      (k total : ℕ) (accs : List Acc)
      → length (number_parts print from_rev to_rev sync_id budget k total accs) ≡ length accs
  unfolding number_parts
  length-number_parts k total [] = refl
  length-number_parts k total (a ∷ accs) = omega (arith, length-number_parts (k + 1) total accs)

  get_elem?-number_parts :
      (k total i : ℕ) (accs : List Acc) (a : Acc)
      → get_elem? accs i ≡ some a
      → get_elem? (number_parts print from_rev to_rev sync_id budget k total accs) i
        ≡ some (serialize_part print from_rev to_rev sync_id (k + i) total a)
  unfolding number_parts
  get_elem?-number_parts k total i [] a e = cc
  get_elem?-number_parts k total zero (b ∷ accs) a e =
      let here : k ≡ k + 0 = omega arith in cc (some-injective b a e, here)
  get_elem?-number_parts k total (suc i) (b ∷ accs) a e =
      let next : k + 1 + i ≡ k + suc i = omega arith in
      get_elem?-number_parts (k + 1) total i accs a e
      ∙ ap (λ x. some (serialize_part print from_rev to_rev sync_id x total a)) next

-- The texts that a sharding gives, delivered each once and in any order to a receiver with no buffer, the first at some instant and the
-- others less than 30 seconds after it, lead to a complete epoch, which assembles to the removed addresses and the routes that were
-- sharded, in their order; it is required that the receiver has not applied the revision, and that the JSON of a part is
-- read as its fields.
pub epoch_roundtrip :
    {V : Type 0} (to_json : MsynRouteItem → V) (print : MsynPart → Text)
    (parse : Text → Option (MsynValue V)) (from_rev to_rev sync_id budget : ℕ)
    (routes : List MsynRouteItem) (removed : List Text) (texts : List Text) (from : SocketAddr)
    (applied now i : ℕ) (es : List (ℕ × ℕ))
    → ((p : MsynPart) → parse (print p) ≡ some (value_of to_json p))
    → shard_msyn_epoch print from_rev to_rev sync_id budget routes removed ≡ ok texts
    → applied < to_rev
    → Distinct (indices ((now, i) ∷ es))
    → All (λ j. j < length texts) (indices ((now, i) ∷ es))
    → All (λ e. e.0 < now + assemble_ttl) es
    → suc (length es) ≡ length texts
    → (p : PartialMsyn V) × (deliver parse from applied [] texts (now, i) es ≡ complete p)
      × (assemble_removed_then_routes p ≡ (removed, map to_json routes))
unfolding serialize_part
epoch_roundtrip to_json print parse from_rev to_rev sync_id budget routes removed texts from applied
      now i es reads sharded newer distinct below timely all =
    let (accs, same, parts, few) =
      shard_msyn_epoch-Parts print from_rev to_rev sync_id budget routes removed texts sharded in
    let n : ℕ = length accs in
    let size : length texts ≡ n =
      ap length same ∙ length-number_parts print from_rev to_rev sync_id budget 0 n accs in
    let read_at : (j : ℕ) (a : Acc)
        → get_elem? accs j ≡ some a
        → (x : Text) × (get_elem? texts j ≡ some x)
          × (parse x
              ≡ some (
                  part_value to_json from from_rev to_rev sync_id n applied now accs few refl newer
                    j a)) =
      λ j a g. (
        print (part_of print from_rev to_rev sync_id j n a),
        ap (λ t. get_elem? t j) same
            ∙ get_elem?-number_parts print from_rev to_rev sync_id budget 0 n j accs a g
            ∙ ap (λ x. some (serialize_part print from_rev to_rev sync_id x n a)) (zero_plus j),
        reads (part_of print from_rev to_rev sync_id j n a),
      ) in
    let (p, d, e) =
      deliver_order to_json from from_rev to_rev sync_id n applied now accs few refl newer parse
        texts read_at i es distinct
        (subst (λ m. All (λ j. j < m) (indices ((now, i) ∷ es))) size below) timely (all ∙ size) in
    (
      p,
      d,
      e
          ∙ ap (λ x. (x, map to_json (all_routes accs))) parts.same_removed
          ∙ ap (λ x. (removed, map to_json x)) parts.same_routes,
    )

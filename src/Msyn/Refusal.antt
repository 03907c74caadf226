-- ===== src/Msyn/Refusal.antt =====
-- Why an epoch is refused (src/net/msyn_sync.rs).
use mint_connect_unit.Claim.Vip.{Text}
use mint_connect_unit.Msyn.Contents.{AnyOf, Result-cases}
use mint_connect_unit.Msyn.Epoch.{
  MsynRouteItem, apply_max_removed, apply_max_routes, assemble_max_parts_total,
}
use mint_connect_unit.Msyn.Shard.{
  Acc, EntryKind, MsynPart, Packing, Result, ShardError, add_removed, add_route, emit_parts,
  empty_acc, entry_too_large, epoch_too_large, err, finish_parts, fits, ok, pack_epoch,
  pack_removed, pack_routes, probe_len, push_alone, removed_entry, route_entry, shard_msyn_epoch,
  too_many_parts, with_removed, with_route,
}
use mint_connect_unit.Prelude.{
  Bool-cases, List, [], ap, arith, inl, inr, leb, length, ltb, ltb→lt, sym, ℕ, ◌<◌, ◌||◌, ◌∙◌, ◌∷◌,
  ◌≡◌, ◌⊎◌,
}

shard_error : {A : Type 0} → Result A → ShardError → ShardError
shard_error (ok a) x = x
shard_error (err y) x = y

err-injective : {A : Type 0} (x y : ShardError) → Path (Result A) (err x) (err y) → x ≡ y
unfolding shard_error
err-injective x y e = ap (λ r. shard_error r x) e

module _ (print : MsynPart → Text) (from_rev to_rev sync_id budget : ℕ) where
  -- The entry alone in a part does not fit, and the refusal says its kind and its length.
  abbrev pub RemovedTooLarge : ShardError → Text → Type 0
  RemovedTooLarge x v =
      let n = probe_len print from_rev to_rev sync_id (record { routes = []; removed = v ∷ [] }) in
      (x ≡ entry_too_large removed_entry n) × (budget < n)

  abbrev pub RouteTooLarge : ShardError → MsynRouteItem → Type 0
  RouteTooLarge x r =
      let n = probe_len print from_rev to_rev sync_id (record { routes = r ∷ []; removed = [] }) in
      (x ≡ entry_too_large route_entry n) × (budget < n)

  push_alone-err :
      (kind : EntryKind) (alone : Acc) (s : Packing) (x : ShardError)
      → push_alone print from_rev to_rev sync_id budget kind alone s ≡ err x
      → (x ≡ entry_too_large kind (probe_len print from_rev to_rev sync_id alone))
        × (budget < probe_len print from_rev to_rev sync_id alone)
  unfolding push_alone fits
  push_alone-err kind alone s x e =
      let n = probe_len print from_rev to_rev sync_id alone in
      elim (Bool-cases (leb n budget)) [
        | inl y ↦ absurd (cc (rw y at e))
        | inr f ↦ (sym (err-injective (entry_too_large kind n) x (rw f at e)), ground (arith, f))
      ]

  add_removed-err :
      (v : Text) (s : Packing) (x : ShardError)
      → add_removed print from_rev to_rev sync_id budget v s ≡ err x
      → RemovedTooLarge x v
  unfolding add_removed
  add_removed-err v s x e =
      let grown = with_removed print from_rev to_rev sync_id v s.cur in
      elim (Bool-cases (fits print from_rev to_rev sync_id budget grown)) [
        | inl y ↦ absurd (cc (rw y at e))
        | inr f ↦
            push_alone-err removed_entry (record { routes = []; removed = v ∷ [] }) s x (rw f at e)
      ]

  add_route-err :
      (r : MsynRouteItem) (s : Packing) (x : ShardError)
      → add_route print from_rev to_rev sync_id budget r s ≡ err x
      → RouteTooLarge x r
  unfolding add_route
  add_route-err r s x e =
      let grown = with_route print from_rev to_rev sync_id r s.cur in
      elim (Bool-cases (fits print from_rev to_rev sync_id budget grown)) [
        | inl y ↦ absurd (cc (rw y at e))
        | inr f ↦
            push_alone-err route_entry (record { routes = r ∷ []; removed = [] }) s x (rw f at e)
      ]

  pack_removed-err :
      (vs : List Text) (s : Packing) (x : ShardError)
      → pack_removed print from_rev to_rev sync_id budget vs s ≡ err x
      → AnyOf (RemovedTooLarge x) vs
  unfolding pack_removed
  pack_removed-err [] s x e = cc
  pack_removed-err (v ∷ vs) s x e =
      elim (Result-cases (add_removed print from_rev to_rev sync_id budget v s)) [
        | inl (q, d) ↦ inr (pack_removed-err vs q x (rw d at e))
        | inr (y, d) ↦ inl (add_removed-err v s x (d ∙ ap err (err-injective y x (rw d at e))))
      ]

  pack_routes-err :
      (rs : List MsynRouteItem) (s : Packing) (x : ShardError)
      → pack_routes print from_rev to_rev sync_id budget rs s ≡ err x
      → AnyOf (RouteTooLarge x) rs
  unfolding pack_routes
  pack_routes-err [] s x e = cc
  pack_routes-err (r ∷ rs) s x e =
      elim (Result-cases (add_route print from_rev to_rev sync_id budget r s)) [
        | inl (q, d) ↦ inr (pack_routes-err rs q x (rw d at e))
        | inr (y, d) ↦ inl (add_route-err r s x (d ∙ ap err (err-injective y x (rw d at e))))
      ]

  pack_epoch-err :
      (routes : List MsynRouteItem) (removed : List Text) (x : ShardError)
      → pack_epoch print from_rev to_rev sync_id budget routes removed ≡ err x
      → AnyOf (RemovedTooLarge x) removed ⊎ AnyOf (RouteTooLarge x) routes
  unfolding pack_epoch
  pack_epoch-err routes removed x e =
      elim (Result-cases (
        pack_removed print from_rev to_rev sync_id budget removed
          (record { done = []; cur = empty_acc }))) [
            | inl (q, d) ↦ inr (pack_routes-err routes q x (rw d at e))
            | inr (y, d) ↦ inl (
                pack_removed-err removed (record { done = []; cur = empty_acc }) x
                  (d ∙ ap err (err-injective y x (rw d at e))))
          ]

  -- An epoch is refused only for more than 1024 routes or removed addresses, for more than 64 parts, or for a removed address or a route
  -- that alone in a part is longer than the budget.
  pub shard_msyn_epoch-err :
      (routes : List MsynRouteItem) (removed : List Text) (x : ShardError)
      → shard_msyn_epoch print from_rev to_rev sync_id budget routes removed ≡ err x
      → ((x ≡ epoch_too_large (length routes) (length removed))
          × ((apply_max_routes < length routes) ⊎ (apply_max_removed < length removed)))
        ⊎ (((n : ℕ) × (x ≡ too_many_parts n) × (assemble_max_parts_total < n))
            ⊎ (AnyOf (RemovedTooLarge x) removed ⊎ AnyOf (RouteTooLarge x) routes))
  unfolding shard_msyn_epoch emit_parts
  shard_msyn_epoch-err routes removed x e =
      elim (Bool-cases
        (ltb apply_max_routes (length routes) || ltb apply_max_removed (length removed))) [
          | inl y ↦ inl (
            sym (err-injective _ x (rw y at e)),
            elim (Bool-cases (ltb apply_max_routes (length routes))) [
              | inl a ↦ inl (ltb→lt _ _ a)
              | inr b ↦ inr (ground (arith, y, b))
            ],
          )
          | inr n ↦
              inr
                (elim (Result-cases
                  (pack_epoch print from_rev to_rev sync_id budget routes removed)) [
                    | inr (z, d) ↦ inr (
                        pack_epoch-err routes removed x
                          (d ∙ ap err (err-injective z x (rw (n, d) at e))))
                    | inl (s, d) ↦
                        let accs = finish_parts print from_rev to_rev sync_id budget s in
                        elim (Bool-cases (ltb assemble_max_parts_total (length accs))) [
                          | inl y ↦ inl (
                            length accs,
                            sym (err-injective _ x (rw (n, d, y) at e)),
                            ltb→lt _ _ y,
                          )
                          | inr f ↦ absurd (cc (rw (n, d, f) at e))
                        ]
                  ])
        ]

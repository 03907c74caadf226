-- ===== src/Msyn/Packing.antt =====
-- The packing of an epoch into parts (src/net/msyn_sync.rs): nothing is lost, and every part fits.
use mathlib.Core.List.{append-nil, append_assoc}
use mathlib.Core.Path.{subst}
use mint_connect_unit.Claim.Vip.{Text}
use mint_connect_unit.Msyn.Contents.{
  All-append, Result-cases, all_removed, all_removed-append, all_routes, all_routes-append,
  empty-nil, nonempty-length, ok-injective, removed_of, routes_of,
}
use mint_connect_unit.Msyn.Epoch.{
  MsynRouteItem, apply_max_removed, apply_max_routes, assemble_max_parts_total, is_empty,
}
use mint_connect_unit.Msyn.Shard.{
  Acc, EntryKind, MsynPart, Packing, acc_empty, add_removed, add_route, close_cur, emit_parts,
  empty_acc, finish_parts, fits, number_parts, ok, pack_epoch, pack_removed, pack_routes, probe_len,
  push_alone, removed_entry, route_entry, shard_msyn_epoch, with_removed, with_route,
}
use mint_connect_unit.Prelude.{
  All, Bool-cases, List, [], ap, arith, inl, inr, length, length-append, ltb, not, refl, sym, true,
  ℕ, ◌++◌, ◌+◌, ◌||◌, ◌∙◌, ◌∷◌, ◌≡◌, ◌≤◌, ◌⊎◌,
}

module _ (print : MsynPart → Text) (from_rev to_rev sync_id budget : ℕ) where
  -- A part without entries, or one whose probe is within the budget.
  abbrev pub FitsBudget : Acc → Type 0
  FitsBudget a = (acc_empty a ≡ true) ⊎ (probe_len print from_rev to_rev sync_id a ≤ budget)

  fits→FitsBudget : (a : Acc) → fits print from_rev to_rev sync_id budget a ≡ true → FitsBudget a
  unfolding fits
  fits→FitsBudget a h = inr (ground (arith, h))

  record Extends (s t : Packing) (rs : List MsynRouteItem) (vs : List Text) : Type 0 where
    removed : removed_of t ≡ removed_of s ++ vs
    routes : routes_of t ≡ routes_of s ++ rs
    fitting : All FitsBudget t.done
    cur_fits : FitsBudget t.cur

  close_cur-removed : (s : Packing) → all_removed (close_cur s) ≡ removed_of s
  close_cur-removed s = elim (Bool-cases (acc_empty s.cur)) [
    | inl t ↦
        let e : s.cur.removed ≡ [] = empty-nil s.cur.removed (ground (arith, t)) in
        rw (t, e) (sym (append-nil (all_removed s.done)))
    | inr f ↦ rw f (all_removed-append s.done s.cur)
  ]

  close_cur-routes : (s : Packing) → all_routes (close_cur s) ≡ routes_of s
  close_cur-routes s = elim (Bool-cases (acc_empty s.cur)) [
    | inl t ↦
        let e : s.cur.routes ≡ [] = empty-nil s.cur.routes (ground (arith, t)) in
        rw (t, e) (sym (append-nil (all_routes s.done)))
    | inr f ↦ rw f (all_routes-append s.done s.cur)
  ]

  close_cur-fits :
      (s : Packing) → All FitsBudget s.done → FitsBudget s.cur → All FitsBudget (close_cur s)
  close_cur-fits s h c = elim (Bool-cases (acc_empty s.cur)) [
    | inl t ↦ rw t h
    | inr f ↦ rw f (All-append FitsBudget s.done s.cur h c)
  ]

  push_alone-Extends :
      (kind : EntryKind) (alone : Acc) (s t : Packing)
      → All FitsBudget s.done
      → FitsBudget s.cur
      → push_alone print from_rev to_rev sync_id budget kind alone s ≡ ok t
      → Extends s t alone.routes alone.removed
  unfolding push_alone
  push_alone-Extends kind alone s t h c e =
      elim (Bool-cases (fits print from_rev to_rev sync_id budget alone)) [
        | inl y ↦
            let new : Packing = record { done = close_cur s; cur = alone } in
            subst (λ x. Extends s x alone.routes alone.removed) (ok-injective new t (rw y at e))
              (record {
                removed = ap (λ x. x ++ alone.removed) (close_cur-removed s);
                routes = ap (λ x. x ++ alone.routes) (close_cur-routes s);
                fitting = close_cur-fits s h c;
                cur_fits = fits→FitsBudget alone y;
              })
        | inr n ↦ absurd (cc (rw n at e))
      ]

  add_removed-Extends :
      (v : Text) (s t : Packing)
      → All FitsBudget s.done
      → FitsBudget s.cur
      → add_removed print from_rev to_rev sync_id budget v s ≡ ok t
      → Extends s t [] (v ∷ [])
  unfolding add_removed
  add_removed-Extends v s t h c e =
      let grown = with_removed print from_rev to_rev sync_id v s.cur in
      elim (Bool-cases (fits print from_rev to_rev sync_id budget grown)) [
        | inl y ↦
            let new : Packing = record s { cur = grown } in
            subst (λ x. Extends s x [] (v ∷ [])) (ok-injective new t (rw y at e))
              (record {
                removed = sym (append_assoc (all_removed s.done) s.cur.removed (v ∷ []));
                routes = sym (append-nil (routes_of s));
                fitting = h;
                cur_fits = fits→FitsBudget grown y;
              })
        | inr n ↦
            push_alone-Extends removed_entry (record { routes = []; removed = v ∷ [] }) s t h c
              (rw n at e)
      ]

  add_route-Extends :
      (r : MsynRouteItem) (s t : Packing)
      → All FitsBudget s.done
      → FitsBudget s.cur
      → add_route print from_rev to_rev sync_id budget r s ≡ ok t
      → Extends s t (r ∷ []) []
  unfolding add_route
  add_route-Extends r s t h c e =
      let grown = with_route print from_rev to_rev sync_id r s.cur in
      elim (Bool-cases (fits print from_rev to_rev sync_id budget grown)) [
        | inl y ↦
            let new : Packing = record s { cur = grown } in
            subst (λ x. Extends s x (r ∷ []) []) (ok-injective new t (rw y at e))
              (record {
                removed = sym (append-nil (removed_of s));
                routes = sym (append_assoc (all_routes s.done) s.cur.routes (r ∷ []));
                fitting = h;
                cur_fits = fits→FitsBudget grown y;
              })
        | inr n ↦
            push_alone-Extends route_entry (record { routes = r ∷ []; removed = [] }) s t h c
              (rw n at e)
      ]

  Extends-trans :
      (s t u : Packing) (rs qs : List MsynRouteItem) (vs ws : List Text)
      → Extends s t rs vs
      → Extends t u qs ws
      → Extends s u (rs ++ qs) (vs ++ ws)
  Extends-trans s t u rs qs vs ws a b = record {
    removed = b.removed ∙ ap (λ x. x ++ ws) a.removed ∙ append_assoc (removed_of s) vs ws;
    routes = b.routes ∙ ap (λ x. x ++ qs) a.routes ∙ append_assoc (routes_of s) rs qs;
    fitting = b.fitting;
    cur_fits = b.cur_fits;
  }

  same-Extends : (s : Packing) → All FitsBudget s.done → FitsBudget s.cur → Extends s s [] []
  same-Extends s h c = record {
    removed = sym (append-nil (removed_of s));
    routes = sym (append-nil (routes_of s));
    fitting = h;
    cur_fits = c;
  }

  pack_removed-Extends :
      (vs : List Text) (s t : Packing)
      → All FitsBudget s.done
      → FitsBudget s.cur
      → pack_removed print from_rev to_rev sync_id budget vs s ≡ ok t
      → Extends s t [] vs
  unfolding pack_removed
  pack_removed-Extends [] s t h c e =
      subst (λ x. Extends s x [] []) (ok-injective s t e)
        (record {
          removed = sym (append-nil (removed_of s));
          routes = sym (append-nil (routes_of s));
          fitting = h;
          cur_fits = c;
        })
  pack_removed-Extends (v ∷ vs) s t h c e =
      elim (Result-cases (add_removed print from_rev to_rev sync_id budget v s)) [
        | inl (q, d) ↦
            let a = add_removed-Extends v s q h c d in
            Extends-trans s q t [] [] (v ∷ []) vs a
              (pack_removed-Extends vs q t a.fitting a.cur_fits (rw d at e))
        | inr (x, d) ↦ absurd (cc (rw d at e))
      ]

  pack_routes-Extends :
      (rs : List MsynRouteItem) (s t : Packing)
      → All FitsBudget s.done
      → FitsBudget s.cur
      → pack_routes print from_rev to_rev sync_id budget rs s ≡ ok t
      → Extends s t rs []
  unfolding pack_routes
  pack_routes-Extends [] s t h c e =
      subst (λ x. Extends s x [] []) (ok-injective s t e)
        (record {
          removed = sym (append-nil (removed_of s));
          routes = sym (append-nil (routes_of s));
          fitting = h;
          cur_fits = c;
        })
  pack_routes-Extends (r ∷ rs) s t h c e =
      elim (Result-cases (add_route print from_rev to_rev sync_id budget r s)) [
        | inl (q, d) ↦
            let a = add_route-Extends r s q h c d in
            Extends-trans s q t (r ∷ []) rs [] [] a
              (pack_routes-Extends rs q t a.fitting a.cur_fits (rw d at e))
        | inr (x, d) ↦ absurd (cc (rw d at e))
      ]

  -- What the parts of an epoch are.
  pub record Parts (accs : List Acc) (routes : List MsynRouteItem) (removed : List Text)
      : Type 0 where
    pub same_removed : all_removed accs ≡ removed
    pub same_routes : all_routes accs ≡ routes
    pub fitting : All FitsBudget accs
    pub nonempty : 1 ≤ length accs

  start : Packing
  start = record { done = []; cur = empty_acc }

  finish-Parts :
      (s : Packing) (routes : List MsynRouteItem) (removed : List Text)
      → Extends start s routes removed
      → Parts (finish_parts print from_rev to_rev sync_id budget s) routes removed
  unfolding start finish_parts
  finish-Parts s routes removed x = elim (Bool-cases (not (acc_empty s.cur) || is_empty s.done)) [
    | inl t ↦
        let n : length (s.done ++ (s.cur ∷ [])) ≡ length s.done + 1 =
          length-append s.done (s.cur ∷ []) in
        rw t (record {
          same_removed = all_removed-append s.done s.cur ∙ x.removed;
          same_routes = all_routes-append s.done s.cur ∙ x.routes;
          fitting = All-append FitsBudget s.done s.cur x.fitting x.cur_fits;
          nonempty = omega (arith, n);
        })
    | inr f ↦
        let y : acc_empty s.cur ≡ true = ground (arith, f) in
        let q : close_cur s ≡ s.done = rw y refl in
        rw f (record {
          same_removed = sym (ap all_removed q) ∙ close_cur-removed s ∙ x.removed;
          same_routes = sym (ap all_routes q) ∙ close_cur-routes s ∙ x.routes;
          fitting = x.fitting;
          nonempty = nonempty-length s.done (ground (arith, f));
        })
  ]

  pack_epoch-Extends :
      (routes : List MsynRouteItem) (removed : List Text) (t : Packing)
      → pack_epoch print from_rev to_rev sync_id budget routes removed ≡ ok t
      → Extends start t routes removed
  unfolding pack_epoch start
  pack_epoch-Extends routes removed t e =
      elim (Result-cases (pack_removed print from_rev to_rev sync_id budget removed start)) [
        | inl (q, d) ↦
            let a = pack_removed-Extends removed start q tt (inl refl) d in
            let b = pack_routes-Extends routes q t a.fitting a.cur_fits (rw d at e) in
            subst (Extends start t routes) (append-nil removed)
              (Extends-trans start q t [] routes removed [] a b)
        | inr (x, d) ↦ absurd (cc (rw d at e))
      ]

  -- Text that a sharding gives is that of 1 to 64 parts, numbered from 0 on, whose removed addresses and whose routes, one
  -- part after the other, are those of the epoch in their order; the probe of every part is within the budget, or the
  -- part has no entries.
  pub shard_msyn_epoch-Parts :
      (routes : List MsynRouteItem) (removed : List Text) (texts : List Text)
      → shard_msyn_epoch print from_rev to_rev sync_id budget routes removed ≡ ok texts
      → (accs : List Acc) × (texts
          ≡ number_parts print from_rev to_rev sync_id budget 0 (length accs) accs)
        × Parts accs routes removed
        × (length accs ≤ assemble_max_parts_total)
  unfolding shard_msyn_epoch emit_parts
  shard_msyn_epoch-Parts routes removed texts e =
      elim (Bool-cases
        (ltb apply_max_routes (length routes) || ltb apply_max_removed (length removed))) [
          | inl y ↦ absurd (cc (rw y at e))
          | inr n ↦
              elim (Result-cases (pack_epoch print from_rev to_rev sync_id budget routes removed)) [
                | inr (x, d) ↦ absurd (cc (rw (n, d) at e))
                | inl (s, d) ↦
                    let accs = finish_parts print from_rev to_rev sync_id budget s in
                    elim (Bool-cases (ltb assemble_max_parts_total (length accs))) [
                      | inl y ↦ absurd (cc (rw (n, d, y) at e))
                      | inr f ↦ (
                        accs,
                        sym (ok-injective _ texts (rw (n, d, f) at e)),
                        finish-Parts s routes removed (pack_epoch-Extends routes removed s d),
                        ground (arith, f),
                      )
                    ]
              ]
        ]

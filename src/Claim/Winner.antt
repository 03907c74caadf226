-- ===== src/Claim/Winner.antt =====
-- What `settle_duplicate_vips` leaves (src/net/claim_gossip.rs).
use mathlib.Core.Path.{subst}
use mathlib.Core.Option.{some-injective}
use mathlib.Core.List.{append-nil, append_assoc}
use mint_connect_unit.Claim.Gossip.{ClaimRecord, Claims, claims_with_vip, remove_all}
use mint_connect_unit.Claim.Order.{beaten, group_losers-beaten, mem-sort_texts}
use mint_connect_unit.Claim.Removal.{lookup-remove_all, mem_text, unlisted}
use mint_connect_unit.Claim.Settle.{
  group_by_vip, group_losers, nodes_for, settle_duplicate_vips, settle_groups, sort_texts,
}
use mint_connect_unit.Claim.Vip.{Text, same_text, same_text_iff, text_key}
use mint_connect_unit.Prelude.{
  All, Bool, Bool-cases, List, Option, Option-cases, [], ap, arith, drop, false, if◌then◌else◌, inl,
  inr, length, ltb, none, refl, same_ne, some, sym, true, ◌++◌, ◌||◌, ◌∙◌, ◌∷◌, ◌≡◌, ◌≢◌,
}
use mint_connect_unit.Prelude.Distinct.{All-keys-lookup, Distinct, Distinct-insert}
use mint_connect_unit.Prelude.Table.{Table, insert, keys, lookup, lookup-insert, remove}

-- A node joins the group of its address.
nodes_for-insert :
    (vip v : Text) (nodes : List Text) (groups : Table Text (List Text))
    → nodes_for vip (insert v nodes groups)
      ≡ (if same_text v vip then nodes else nodes_for vip groups)
nodes_for-insert vip v nodes groups = elim (Bool-cases (same_text v vip)) [
  | inl t ↦ rw (lookup-insert v vip nodes groups, t) refl
  | inr f ↦ rw (lookup-insert v vip nodes groups, f) refl
]

-- The groups are the nodes that claim each address.
nodes_for-group_by_vip :
    (vip : Text) (claims : Claims) (groups : Table Text (List Text))
    → nodes_for vip (group_by_vip claims groups)
      ≡ nodes_for vip groups ++ claims_with_vip claims vip
unfolding group_by_vip claims_with_vip
nodes_for-group_by_vip vip [] groups = sym (append-nil (nodes_for vip groups))
nodes_for-group_by_vip vip ((nid, r) ∷ claims) groups =
    let grown = insert r.vip (nodes_for r.vip groups ++ (nid ∷ [])) groups in
    let rest = nodes_for-group_by_vip vip claims grown in
    let new = nodes_for-insert vip r.vip (nodes_for r.vip groups ++ (nid ∷ [])) groups in
    elim (Bool-cases (same_text r.vip vip)) [
      | inl t ↦
          let e : r.vip ≡ vip = (same_text_iff r.vip vip).0 t in
          rw t (
            rest
            ∙ ap (λ x. x ++ claims_with_vip claims vip) (rw (new, t, e) refl)
            ∙ append_assoc (nodes_for vip groups) (nid ∷ []) (claims_with_vip claims vip))
      | inr f ↦ rw f (rest ∙ ap (λ x. x ++ claims_with_vip claims vip) (rw (new, f) refl))
    ]

group_by_vip-Distinct :
    (claims : Claims) (groups : Table Text (List Text))
    → Distinct (keys groups)
    → Distinct (keys (group_by_vip claims groups))
unfolding group_by_vip
group_by_vip-Distinct [] groups d = d
group_by_vip-Distinct ((nid, r) ∷ claims) groups d =
    group_by_vip-Distinct claims (insert r.vip (nodes_for r.vip groups ++ (nid ∷ [])) groups)
      (Distinct-insert r.vip (nodes_for r.vip groups ++ (nid ∷ [])) groups d)

nodes_for-cons :
    (vip v : Text) (nodes : List Text) (groups : Table Text (List Text))
    → nodes_for vip ((v, nodes) ∷ groups)
      ≡ (if same_text v vip then nodes else nodes_for vip groups)
unfolding lookup
nodes_for-cons vip v nodes groups = elim (Bool-cases (same_text v vip)) [
  | inl t ↦ rw t refl
  | inr f ↦ rw f refl
]

-- All that lose.
abbrev all_losers : Table Text (List Text) → List Text
all_losers [] = []
all_losers ((vip, nodes) ∷ groups) = group_losers nodes ++ all_losers groups

remove_all-append :
    (xs ys : List Text) (claims : Claims)
    → remove_all (xs ++ ys) claims ≡ remove_all ys (remove_all xs claims)
unfolding remove_all
remove_all-append [] ys claims = refl
remove_all-append (x ∷ xs) ys claims = remove_all-append xs ys (remove x claims)

settle_groups_lem :
    (groups : Table Text (List Text)) (claims : Claims) (losers : List Text)
    → settle_groups groups claims losers
      ≡ (remove_all (all_losers groups) claims, losers ++ all_losers groups)
unfolding settle_groups remove_all
settle_groups_lem [] claims losers = ap (λ x. (claims, x)) (sym (append-nil losers))
settle_groups_lem ((vip, nodes) ∷ groups) claims losers =
    settle_groups_lem groups (remove_all (group_losers nodes) claims) (losers ++ group_losers nodes)
    ∙ ap (λ x. (x, losers ++ group_losers nodes ++ all_losers groups))
        (sym (remove_all-append (group_losers nodes) (all_losers groups) claims))
    ∙ ap (λ x. (remove_all (all_losers ((vip, nodes) ∷ groups)) claims, x))
        (append_assoc losers (group_losers nodes) (all_losers groups))

mem-append :
    (id : Text) (xs ys : List Text) → mem_text id (xs ++ ys) ≡ (mem_text id xs || mem_text id ys)
mem-append id [] ys = refl
mem-append id (x ∷ xs) ys = ground (arith, mem-append id xs ys)

-- Whoever loses, loses in the group of one address.
loser-group :
    (id : Text) (groups : Table Text (List Text))
    → Distinct (keys groups)
    → mem_text id (all_losers groups) ≡ true
    → (vip : Text) × (mem_text id (group_losers (nodes_for vip groups)) ≡ true)
loser-group id [] d m = cc
loser-group id ((vip, nodes) ∷ groups) (d, ds) m =
    elim (Bool-cases (mem_text id (group_losers nodes))) [
      | inl y ↦ (vip, rw (nodes_for-cons vip vip nodes groups, (same_text_iff vip vip).1 refl) y)
      | inr f ↦
          let rest : mem_text id (all_losers groups) ≡ true =
            ground (arith, mem-append id (group_losers nodes) (all_losers groups), f, m) in
          let (v, n) = loser-group id groups ds rest in
          elim (Option-cases (lookup v groups)) [
            | inl none_there ↦ absurd (cc (rw none_there at n))
            | inr (ns, l) ↦
                let ne : vip ≢ v = All-keys-lookup (λ y. vip ≢ y) v groups d l in
                (v, rw (nodes_for-cons v vip nodes groups, same_ne vip v ne) n)
          ]
    ]

group-loser :
    (id vip : Text) (groups : Table Text (List Text))
    → mem_text id (group_losers (nodes_for vip groups)) ≡ true
    → mem_text id (all_losers groups) ≡ true
unfolding lookup
group-loser id vip [] m = cc m
group-loser id vip ((v, nodes) ∷ groups) m = elim (Bool-cases (same_text v vip)) [
  | inl t ↦
      let here : mem_text id (group_losers nodes) ≡ true =
        subst (λ ns. mem_text id (group_losers ns) ≡ true)
          (nodes_for-cons vip v nodes groups ∙ rw t refl) m in
      ground (arith, mem-append id (group_losers nodes) (all_losers groups), here)
  | inr f ↦
      let there : mem_text id (group_losers (nodes_for vip groups)) ≡ true =
        subst (λ ns. mem_text id (group_losers ns) ≡ true)
          (nodes_for-cons vip v nodes groups ∙ rw f refl) m in
      ground (
        arith,
        mem-append id (group_losers nodes) (all_losers groups),
        group-loser id vip groups there,
      )
]

All-claims_with_vip :
    (P : Text → Type 0) (vip : Text) (claims : Claims)
    → All P (keys claims)
    → All P (claims_with_vip claims vip)
unfolding claims_with_vip
All-claims_with_vip P vip [] h = tt
All-claims_with_vip P vip ((nid, r) ∷ claims) (h, hs) = elim (Bool-cases (same_text r.vip vip)) [
  | inl t ↦ rw t (h, All-claims_with_vip P vip claims hs)
  | inr f ↦ rw f (All-claims_with_vip P vip claims hs)
]

claims_with_vip-Distinct :
    (vip : Text) (claims : Claims) → Distinct (keys claims) → Distinct (claims_with_vip claims vip)
unfolding claims_with_vip
claims_with_vip-Distinct vip [] d = tt
claims_with_vip-Distinct vip ((nid, r) ∷ claims) (d, ds) = elim (Bool-cases (same_text r.vip vip)) [
  | inl t ↦
      rw t (All-claims_with_vip (λ y. nid ≢ y) vip claims d, claims_with_vip-Distinct vip claims ds)
  | inr f ↦ rw f (claims_with_vip-Distinct vip claims ds)
]

listed :
    (id : Text) (r : ClaimRecord) (claims : Claims)
    → lookup id claims ≡ some r
    → mem_text id (claims_with_vip claims r.vip) ≡ true
unfolding claims_with_vip lookup
listed id r [] l = cc
listed id r ((nid, c) ∷ claims) l = elim (Bool-cases (same_text nid id)) [
  | inl t ↦
      let e : c ≡ r = some-injective c r (rw t at l) in
      let v : same_text c.vip r.vip ≡ true = (same_text_iff c.vip r.vip).1 (ap (λ x. x.vip) e) in
      rw (v, t) refl
  | inr f ↦
      let rest = listed id r claims (rw f at l) in
      elim (Bool-cases (same_text c.vip r.vip)) [ inl t ↦ rw (t, f) rest | inr o ↦ rw o rest ]
]

listed-vip :
    (id vip : Text) (r : ClaimRecord) (claims : Claims)
    → Distinct (keys claims)
    → mem_text id (claims_with_vip claims vip) ≡ true
    → lookup id claims ≡ some r
    → r.vip ≡ vip
unfolding claims_with_vip lookup
listed-vip id vip r [] d m l = cc
listed-vip id vip r ((nid, c) ∷ claims) (d, ds) m l = elim (Bool-cases (same_text nid id)) [
  | inl t ↦
      let e : c ≡ r = some-injective c r (rw t at l) in
      let same : nid ≡ id = (same_text_iff nid id).0 t in
      elim (Bool-cases (same_text c.vip vip)) [
        | inl v ↦ sym (ap (λ x. x.vip) e) ∙ (same_text_iff c.vip vip).0 v
        | inr f ↦
            let gone =
              unlisted claims vip id (subst (λ x. All (λ y. x ≢ y) (keys claims)) same d) in
            absurd (cc (gone, rw f at m))
      ]
  | inr n ↦ elim (Bool-cases (same_text c.vip vip)) [
    | inl v ↦ listed-vip id vip r claims ds (rw (v, n) at m) (rw n at l)
    | inr f ↦ listed-vip id vip r claims ds (rw f at m) (rw n at l)
  ]
]

mem-drop_one : (id : Text) (xs : List Text) → mem_text id (drop 1 xs) ≡ true → mem_text id xs ≡ true
mem-drop_one id [] m = m
mem-drop_one id (x ∷ xs) m = ground (arith, m)

mem-group_losers :
    (id : Text) (nodes : List Text)
    → mem_text id (group_losers nodes) ≡ true
    → mem_text id nodes ≡ true
mem-group_losers id nodes m = elim (Bool-cases (ltb (length nodes) 2)) [
  | inl t ↦ absurd (cc (rw t at m))
  | inr f ↦ sym (mem-sort_texts id nodes) ∙ mem-drop_one id (sort_texts nodes) (rw f at m)
]

-- What is left of a claim: it goes if a smaller identifier claims the same address.
abbrev pub unless_beaten : Claims → Text → Option ClaimRecord → Option ClaimRecord
unless_beaten claims id none = none
unless_beaten claims id (some r) = if beaten id (claims_with_vip claims r.vip) then none else some r

module _ (claims : Claims) (d : Distinct (keys claims)) (id : Text) where
  groups : Table Text (List Text)
  groups = group_by_vip claims []

  nodes_of-groups : (vip : Text) → nodes_for vip groups ≡ claims_with_vip claims vip
  unfolding groups lookup
  nodes_of-groups vip = nodes_for-group_by_vip vip claims []

  loses-beaten :
      (r : ClaimRecord)
      → lookup id claims ≡ some r
      → mem_text id (all_losers groups) ≡ beaten id (claims_with_vip claims r.vip)
  unfolding groups
  loses-beaten r l =
      let rivals = claims_with_vip claims r.vip in
      let in_group : mem_text id (group_losers rivals) ≡ beaten id rivals =
        group_losers-beaten id rivals (claims_with_vip-Distinct r.vip claims d)
          (listed id r claims l) in
      let distinct = group_by_vip-Distinct claims [] tt in
      elim (Bool-cases (beaten id rivals)) [
        | inl y ↦
            group-loser id r.vip groups (
              subst (λ ns. mem_text id (group_losers ns) ≡ true) (sym (nodes_of-groups r.vip))
                (in_group ∙ y))
            ∙ sym y
        | inr f ↦ elim (Bool-cases (mem_text id (all_losers groups))) [
          | inr o ↦ o ∙ sym f
          | inl y ↦
              let (v, n) = loser-group id groups distinct y in
              let there =
                subst (λ ns. mem_text id (group_losers ns) ≡ true) (nodes_of-groups v) n in
              let same =
                listed-vip id v r claims d (mem-group_losers id (claims_with_vip claims v) there)
                  l in
              absurd (
                cc (
                  subst (λ x. mem_text id (group_losers (claims_with_vip claims x)) ≡ true)
                      (sym same) there,
                  in_group,
                  f,
                ))
        ]
      ]

absent-keys :
    (id : Text) (claims : Claims) → lookup id claims ≡ none → All (λ k. id ≢ k) (keys claims)
unfolding lookup
absent-keys id [] n = tt
absent-keys id ((nid, c) ∷ claims) n = elim (Bool-cases (same_text nid id)) [
  | inl t ↦ absurd (cc (rw t at n))
  | inr f ↦ ((λ e. cc (f, (same_text_iff nid id).1 (sym e))), absent-keys id claims (rw f at n))
]

-- Whether a claim is there and a smaller identifier claims its address.
abbrev pub is_beaten : Claims → Text → Option ClaimRecord → Bool
is_beaten claims id none = false
is_beaten claims id (some r) = beaten id (claims_with_vip claims r.vip)

absent-loser :
    (claims : Claims) (id : Text)
    → lookup id claims ≡ none
    → mem_text id (all_losers (group_by_vip claims [])) ≡ false
unfolding lookup
absent-loser claims id n = elim (Bool-cases (mem_text id (all_losers (group_by_vip claims [])))) [
  | inr f ↦ f
  | inl y ↦
      let (v, m) = loser-group id (group_by_vip claims []) (group_by_vip-Distinct claims [] tt) y in
      let there : mem_text id (group_losers (claims_with_vip claims v)) ≡ true =
        subst (λ ns. mem_text id (group_losers ns) ≡ true) (nodes_for-group_by_vip v claims []) m in
      absurd (
        cc (
          mem-group_losers id (claims_with_vip claims v) there,
          unlisted claims v id (absent-keys id claims n),
        ))
]

-- Where no node has two entries, settling leaves exactly those claims whose address no smaller identifier claims, and
-- reports exactly the nodes of the others.
pub settle_duplicate_vips_lem :
    (claims : Claims) (id : Text)
    → Distinct (keys claims)
    → (lookup id (settle_duplicate_vips claims).0 ≡ unless_beaten claims id (lookup id claims))
      × (mem_text id (settle_duplicate_vips claims).1 ≡ is_beaten claims id (lookup id claims))
unfolding settle_duplicate_vips groups
settle_duplicate_vips_lem claims id d =
    let losers = all_losers (group_by_vip claims []) in
    let settled = settle_groups_lem (group_by_vip claims []) claims [] in
    elim (Option-cases (lookup id claims)) [
      | inl n ↦ (
        ap (λ x. lookup id x.0) settled ∙ lookup-remove_all losers claims id ∙ rw n (ground arith),
        ap (λ x. mem_text id x.1) settled ∙ rw n (absent-loser claims id n),
      )
      | inr (r, l) ↦ (
        ap (λ x. lookup id x.0) settled
            ∙ lookup-remove_all losers claims id
            ∙ rw (l, loses-beaten claims d id r l) refl,
        ap (λ x. mem_text id x.1) settled ∙ rw l (loses-beaten claims d id r l),
      )
    ]

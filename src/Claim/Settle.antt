-- ===== src/Claim/Settle.antt =====
-- The claims of one address by several nodes, the digest of claims, and the tombstones that go with it
-- (src/net/claim_gossip.rs). A sort of texts or of instants is an insertion sort.
use mint_connect_unit.Claim.Gossip.{
  ClaimRecord, Claims, LeaveTombstone, Tombs, is_empty, leave_tombstone_blocks, remove_all, rotated,
}
use mint_connect_unit.Claim.Vip.{Text, node_id_wins, same_text, text_key}
use mint_connect_unit.Prelude.{
  Bool, List, Option, [], drop, eqb, false, if◌then◌else◌, keep, leb, length, ltb, min, none, not,
  some, take, ℕ, ◌%◌, ◌&&◌, ◌++◌, ◌||◌, ◌∷◌,
}
use mint_connect_unit.Prelude.Table.{Table, insert, lookup, remove, values}

-- `Vec::sort` of texts.
unfoldable pub insert_sorted : Text → List Text → List Text
insert_sorted x [] = x ∷ []
insert_sorted x (y ∷ ys) = if node_id_wins y x then y ∷ insert_sorted x ys else x ∷ y ∷ ys

unfoldable pub sort_texts : List Text → List Text
sort_texts [] = []
sort_texts (x ∷ xs) = insert_sorted x (sort_texts xs)

abbrev pub nodes_in : Option (List Text) → List Text
nodes_in none = []
nodes_in (some nodes) = nodes

abbrev pub nodes_for : Text → Table Text (List Text) → List Text
nodes_for vip groups = nodes_in (lookup vip groups)

unfoldable pub group_by_vip : Claims → Table Text (List Text) → Table Text (List Text)
group_by_vip [] groups = groups
group_by_vip ((nid, r) ∷ claims) groups =
    group_by_vip claims (insert r.vip (nodes_for r.vip groups ++ (nid ∷ [])) groups)

-- All nodes of a group but the first in order lose.
abbrev pub group_losers : List Text → List Text
group_losers nodes = if ltb (length nodes) 2 then [] else drop 1 (sort_texts nodes)

unfoldable pub settle_groups : Table Text (List Text) → Claims → List Text → Claims × List Text
settle_groups [] claims losers = (claims, losers)
settle_groups ((vip, nodes) ∷ groups) claims losers =
    let out = group_losers nodes in settle_groups groups (remove_all out claims) (losers ++ out)

unfoldable pub settle_duplicate_vips : Claims → Claims × List Text
settle_duplicate_vips claims = settle_groups (group_by_vip claims []) claims []

unfoldable pub insert_claim : ClaimRecord → List ClaimRecord → List ClaimRecord
insert_claim c [] = c ∷ []
insert_claim c (d ∷ ds) =
    if node_id_wins d.node_id c.node_id then d ∷ insert_claim c ds else c ∷ d ∷ ds

unfoldable pub sort_claims : List ClaimRecord → List ClaimRecord
sort_claims [] = []
sort_claims (c ∷ cs) = insert_claim c (sort_claims cs)

-- The claims of other nodes that no tombstone blocks, in order of their nodes.
unfoldable pub live_others : ClaimRecord → Claims → Tombs → ℕ → List ClaimRecord
live_others own claims tombs now = sort_claims (
    keep
      (λ c.
        not (same_text c.node_id own.node_id)
        && not (leave_tombstone_blocks tombs c.node_id c.vip_epoch now))
      (values claims))

unfoldable pub build_gossip_digest_rotated :
    ClaimRecord → Claims → Tombs → ℕ → ℕ → ℕ → List ClaimRecord
build_gossip_digest_rotated own claims tombs now max_others start_idx =
    let others = live_others own claims tombs now in
    if is_empty others || eqb max_others 0
    then own ∷ []
    else own ∷ rotated (min max_others (length others)) 0 others (start_idx % length others)

unfoldable pub build_gossip_digest : ClaimRecord → Claims → Tombs → ℕ → ℕ → List ClaimRecord
build_gossip_digest own claims tombs now max_others =
    build_gossip_digest_rotated own claims tombs now max_others 0

unfoldable pub insert_tomb : LeaveTombstone → List LeaveTombstone → List LeaveTombstone
insert_tomb t [] = t ∷ []
insert_tomb t (u ∷ us) = if leb u.expires_at t.expires_at then t ∷ u ∷ us else u ∷ insert_tomb t us

unfoldable pub sort_tombs : List LeaveTombstone → List LeaveTombstone
sort_tombs [] = []
sort_tombs (t ∷ ts) = insert_tomb t (sort_tombs ts)

unfoldable pub select_leave_tombs_for_gossip : Tombs → ℕ → ℕ → List LeaveTombstone
select_leave_tombs_for_gossip tombs now most =
    take most (sort_tombs (keep (λ t. ltb now t.expires_at) (values tombs)))

unfoldable pub remove_claim : Claims → Text → Claims × Option ClaimRecord
remove_claim claims node_id = (remove node_id claims, lookup node_id claims)

unfoldable pub stale_allows_ep_refresh : Claims → Text → Text → ℕ → Bool
stale_allows_ep_refresh claims node_id vip vip_epoch = elim (lookup node_id claims) [
  | some c ↦ same_text c.vip vip && eqb c.vip_epoch vip_epoch
  | none ↦ false
]

-- ===== src/Claim/Tests.antt =====
-- Runs of src/net/claim.rs and src/net/claim_gossip.rs, and instances of the theorems about them. Every text
-- stands for the address 10.0.0.2.
use mint_connect_unit.Claim.Gossip.{
  ClaimRecord, Claims, accepted, fight_suppress_blocks, fight_suppress_ttl, install_fight_suppress,
  leave_tombstone_blocks, merge_claim, merge_live, remove_all, remove_claims_for_vip, rotated,
}
use mint_connect_unit.Claim.Merge.{Newer, claim_again, fight_stays_lost, merge_claim_lem}
use mint_connect_unit.Claim.Removal.{mem_text, remove_claims_for_vip_lem, without_vip}
use mint_connect_unit.Claim.Settle.{
  build_gossip_digest_rotated, group_by_vip, insert_claim, insert_sorted, live_others,
  settle_duplicate_vips, settle_groups, sort_claims, sort_texts,
}
use mint_connect_unit.Claim.Vip.{
  Text, claim_vip_valid, node_id_wins, pick_free_host, pick_free_host_lem, same_text_iff,
  should_reroll_for_vip_fight, text_key, valid_address, vip_fight_one_loser,
}
use mint_connect_unit.Claim.Winner.{is_beaten, settle_duplicate_vips_lem, unless_beaten}
use mint_connect_unit.Prelude.{
  Option, [], arith, eqb, false, ltb, none, not, refl, some, true, ℕ, ◌∷◌, ◌≡◌, ◌≢◌, ◌≤◌,
}
use mint_connect_unit.Prelude.Table.{insert, lookup, remove}

abbrev parse_any : Text → Option ℕ
parse_any t = some 0x0a000002

abbrev claim_5 : ClaimRecord
claim_5 = record { node_id = 97 ∷ []; vip = 49 ∷ []; vip_epoch = 5; ep_hints = [] }

abbrev claim_6 : ClaimRecord
claim_6 = record claim_5 { vip = 50 ∷ []; vip_epoch = 6 }

abbrev live : Claims
live = (97 ∷ [], claim_5) ∷ []

-- A later epoch takes the entry over, and the earlier one is stale after that.
newer_epoch : (merge_claim parse_any live claim_6 [] [] 0).2 ≡ accepted
unfolding merge_claim merge_live leave_tombstone_blocks fight_suppress_blocks claim_vip_valid
    valid_address lookup
newer_epoch = refl

merge_claim_lem_example :
    let r = merge_claim parse_any live claim_6 [] [] 0 in
    Newer (lookup (97 ∷ []) live) (lookup (97 ∷ []) r.0)
    × ((other : Text) → 97 ∷ [] ≢ other → lookup other r.0 ≡ lookup other live)
    × (r.2 ≢ accepted → r.0 ≡ live)
merge_claim_lem_example = merge_claim_lem parse_any live claim_6 [] [] 0

fight_stays_lost_example :
    (claim_again parse_any live claim_6 []
      (install_fight_suppress parse_any [] (97 ∷ []) (50 ∷ []) 6 0 fight_suppress_ttl).0
      (20000 ∷ 40000 ∷ 60000 ∷ [])).1
    ≡ live
unfolding claim_vip_valid valid_address lookup
fight_stays_lost_example =
    fight_stays_lost parse_any live claim_6 [] [] 0 (20000 ∷ 40000 ∷ 60000 ∷ []) refl refl
      (omega arith, (omega arith, (omega arith, tt)))

vip_fight_one_loser_example :
    should_reroll_for_vip_fight (98 ∷ []) (49 ∷ []) (97 ∷ []) (49 ∷ [])
    ≡ not (should_reroll_for_vip_fight (97 ∷ []) (49 ∷ []) (98 ∷ []) (49 ∷ []))
vip_fight_one_loser_example =
    vip_fight_one_loser (97 ∷ []) (98 ∷ []) (49 ∷ [])
      (λ e. absurd (cc ((same_text_iff (97 ∷ []) (98 ∷ [])).1 e)))

pick_free_host_lem_example :
    ((h : ℕ) → pick_free_host (λ x. ltb x 10) 1 ≡ some h → (ltb h 10 ≡ false) × (1 ≤ h) × (h ≤ 254))
    × (pick_free_host (λ x. ltb x 10) 1 ≡ none → (h : ℕ) → 1 ≤ h → h ≤ 254 → ltb h 10 ≡ true)
pick_free_host_lem_example = pick_free_host_lem (λ x. ltb x 10) 1

remove_claims_for_vip_lem_example :
    lookup (97 ∷ []) (remove_claims_for_vip live (49 ∷ [])).0
    ≡ without_vip (49 ∷ []) (lookup (97 ∷ []) live)
remove_claims_for_vip_lem_example = remove_claims_for_vip_lem live (49 ∷ []) (97 ∷ []) (tt, tt)

abbrev claim_of : ℕ → ℕ → ClaimRecord
claim_of node vip = record { node_id = node ∷ []; vip = vip ∷ []; vip_epoch = 1; ep_hints = [] }

abbrev rivals : Claims
rivals = (99 ∷ [], claim_of 99 49) ∷ (97 ∷ [], claim_of 97 49) ∷ (98 ∷ [], claim_of 98 50) ∷ []

-- Of two nodes with one address the smaller identifier keeps it.
settled : settle_duplicate_vips rivals ≡ (remove (99 ∷ []) rivals, (99 ∷ []) ∷ [])
unfolding settle_duplicate_vips settle_groups group_by_vip sort_texts insert_sorted remove_all
    node_id_wins lookup insert remove
settled = refl

digest :
    build_gossip_digest_rotated (claim_of 96 48) rivals [] 0 2 5
    ≡ claim_of 96 48 ∷ claim_of 99 49 ∷ claim_of 97 49 ∷ []
unfolding build_gossip_digest_rotated live_others sort_claims insert_claim rotated
    leave_tombstone_blocks node_id_wins lookup
digest = refl

distinct_text : (x y : ℕ) → eqb x y ≡ false → x ∷ [] ≢ y ∷ []
distinct_text x y f e = cc (f, (same_text_iff (x ∷ []) (y ∷ [])).1 e)

settle_duplicate_vips_lem_example :
    (lookup (99 ∷ []) (settle_duplicate_vips rivals).0
      ≡ unless_beaten rivals (99 ∷ []) (lookup (99 ∷ []) rivals))
    × (mem_text (99 ∷ []) (settle_duplicate_vips rivals).1
        ≡ is_beaten rivals (99 ∷ []) (lookup (99 ∷ []) rivals))
settle_duplicate_vips_lem_example = settle_duplicate_vips_lem rivals (99 ∷ []) (
  (distinct_text 99 97 refl, (distinct_text 99 98 refl, tt)),
  ((distinct_text 97 98 refl, tt), (tt, tt)),
)

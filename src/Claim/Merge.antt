-- ===== src/Claim/Merge.antt =====
-- Merging claims (src/net/claim_gossip.rs): the entry of a claim before and after, and the claim of a loser again
-- and again.
use mint_connect_unit.Claim.Gossip.{
  ClaimRecord, Claims, FightSuppress, MergeOutcome, Suppress, Tombs, accepted, blocked_by_fight,
  blocked_by_tombstone, fields_valid, fight_suppress_blocks, fight_suppress_ttl, ignored_stale,
  install_fight_suppress, is_empty, leave_tombstone_blocks, merge_claim, merge_live, rejected,
  same_hints,
}
use mint_connect_unit.Claim.Vip.{Text, same_text, text_key}
use mint_connect_unit.Prelude.{
  Bool-cases, List, Option, Option-cases, [], arith, eqb, eqb_iff, inl, inr, ltb, ltb→lt, lt→ltb,
  none, not, refl, same_self, some, true, ℕ, ◌&&◌, ◌+◌, ◌<◌, ◌∷◌, ◌≡◌, ◌≢◌, ◌≤◌, ◌⊎◌,
}
use mint_connect_unit.Prelude.Table.{insert, lookup, lookup-insert_ne, lookup-insert_self}

-- What a merge may make of an entry of the claims.
abbrev pub Newer : Option ClaimRecord → Option ClaimRecord → Type 0
Newer none o = Unit {0}
Newer (some old) none = ⊥
Newer (some old) (some new) =
    (old.vip_epoch ≤ new.vip_epoch) × (old.vip_epoch ≡ new.vip_epoch → old.vip ≡ new.vip)

Newer-self : (o : Option ClaimRecord) → Newer o o
Newer-self none = tt
Newer-self (some c) = (omega arith, λ _. refl)

-- The ways in which `merge_live` ends: with a new or refreshed entry, or with no change.
Ends : Claims → ClaimRecord → Claims × MergeOutcome → Type 0
Ends claims incoming r =
    ((new : ClaimRecord) × (r ≡ (insert incoming.node_id new claims, accepted))
      × Newer (lookup incoming.node_id claims) (some new))
    ⊎ (r ≡ (claims, ignored_stale))

same_epoch_vip :
    (c incoming : ClaimRecord)
    → (eqb incoming.vip_epoch c.vip_epoch && same_text incoming.vip c.vip) ≡ true
    → Newer (some c) (some (record c { ep_hints = incoming.ep_hints }))
same_epoch_vip c incoming h = (omega arith, λ _. refl)

merge_live-Ends :
    (claims : Claims) (incoming : ClaimRecord) → Ends claims incoming (merge_live claims incoming)
unfolding merge_live Ends
merge_live-Ends claims incoming = elim (Option-cases (lookup incoming.node_id claims)) [
  | inl e ↦ rw (e, merge_live) (inl (incoming, refl, tt))
  | inr (c, e) ↦ elim (Bool-cases (ltb c.vip_epoch incoming.vip_epoch)) [
    | inl up ↦
        let lt = ltb→lt c.vip_epoch incoming.vip_epoch up in
        rw (e, merge_live, up)
          (inl (incoming, refl, (omega (arith, lt), λ same. absurd (omega (arith, lt, same)))))
    | inr low ↦
        elim (Bool-cases (eqb incoming.vip_epoch c.vip_epoch && same_text incoming.vip c.vip)) [
          | inr other ↦ rw (e, merge_live, low, other) (inr refl)
          | inl same ↦
              elim (Bool-cases (
                not (is_empty incoming.ep_hints)
                && not (same_hints incoming.ep_hints c.ep_hints))) [
                  | inl fresh ↦
                      rw (e, merge_live, low, same, fresh)
                        (inl (
                          record c { ep_hints = incoming.ep_hints },
                          refl,
                          same_epoch_vip c incoming same,
                        ))
                  | inr known ↦ rw (e, merge_live, low, same, known) (inr refl)
                ]
        ]
  ]
]

-- What a merge that ends in one of these ways has done.
Kept : Claims → ClaimRecord → Claims → MergeOutcome → Type 0
Kept claims incoming after outcome =
    Newer (lookup incoming.node_id claims) (lookup incoming.node_id after)
    × ((other : Text) → incoming.node_id ≢ other → lookup other after ≡ lookup other claims)
    × (outcome ≢ accepted → after ≡ claims)

Kept-self :
    (claims : Claims) (incoming : ClaimRecord) (outcome : MergeOutcome)
    → Kept claims incoming claims outcome
unfolding Kept
Kept-self claims incoming outcome = (Newer-self _, λ other ne. refl, λ h. refl)

Kept-live :
    (claims : Claims) (incoming : ClaimRecord)
    → let r = merge_live claims incoming in Kept claims incoming r.0 r.1
unfolding Kept Ends
Kept-live claims incoming = elim (merge_live-Ends claims incoming) [
  | inl (new, e, newer) ↦
      rw (e, lookup-insert_self incoming.node_id new claims)
        (
          newer,
          λ other ne. lookup-insert_ne incoming.node_id other new claims ne,
          λ h. absurd (h refl),
        )
  | inr e ↦ rw e (Kept-self claims incoming ignored_stale)
]

-- A merge changes the entry of the claimed node alone, and there the epoch never goes down and the address
-- changes only with it; whenever the outcome is not `accepted`, no claim changes.
pub merge_claim_lem :
    (parse : Text → Option ℕ) (claims : Claims) (incoming : ClaimRecord) (tombs : Tombs)
    (suppress : Suppress) (now : ℕ)
    → let r = merge_claim parse claims incoming tombs suppress now in
      Newer (lookup incoming.node_id claims) (lookup incoming.node_id r.0)
      × ((other : Text) → incoming.node_id ≢ other → lookup other r.0 ≡ lookup other claims)
      × (r.2 ≢ accepted → r.0 ≡ claims)
unfolding merge_claim Kept
merge_claim_lem parse claims incoming tombs suppress now =
    elim (Bool-cases (not (fields_valid parse incoming.node_id incoming.vip))) [
      | inl bad ↦ rw (bad, merge_claim) (Kept-self claims incoming rejected)
      | inr good ↦
          elim (Bool-cases (leave_tombstone_blocks tombs incoming.node_id incoming.vip_epoch now)) [
            | inl gone ↦
                rw (good, merge_claim, gone) (Kept-self claims incoming blocked_by_tombstone)
            | inr here ↦
                elim (Bool-cases (
                  fight_suppress_blocks suppress incoming.node_id incoming.vip incoming.vip_epoch
                    now)) [
                      | inl lost ↦
                          rw (good, merge_claim, here, lost)
                            (Kept-self claims incoming blocked_by_fight)
                      | inr free ↦ rw (good, merge_claim, here, free) (Kept-live claims incoming)
                    ]
          ]
    ]

-- The outcomes of the same losing claim at the times of a list, one after the other.
unfoldable pub claim_again :
    (Text → Option ℕ)
    → Claims
    → ClaimRecord
    → Tombs
    → Suppress
    → List ℕ
    → List MergeOutcome × Claims
claim_again parse claims incoming tombs suppress [] = ([], claims)
claim_again parse claims incoming tombs suppress (now ∷ times) =
    let (m, s, outcome) = merge_claim parse claims incoming tombs suppress now in
    let (outcomes, last) = claim_again parse m incoming tombs s times in (outcome ∷ outcomes, last)

-- Times that each come less than 30 seconds after the one before.
abbrev pub Continuous : ℕ → List ℕ → Type 0
Continuous before [] = Unit {0}
Continuous before (now ∷ times) = (now < before + fight_suppress_ttl) × Continuous now times

-- Suppressions that block a claim until 30 seconds after an instant.
Held : Suppress → ClaimRecord → ℕ → Type 0
Held s incoming since =
    (now : ℕ)
    → now < since + fight_suppress_ttl
    → fight_suppress_blocks s incoming.node_id incoming.vip incoming.vip_epoch now ≡ true

install-Held :
    (parse : Text → Option ℕ) (suppress : Suppress) (incoming : ClaimRecord) (since : ℕ)
    → fields_valid parse incoming.node_id incoming.vip ≡ true
    → Held
        (install_fight_suppress parse suppress incoming.node_id incoming.vip incoming.vip_epoch
          since fight_suppress_ttl).0
        incoming
        since
unfolding install_fight_suppress fight_suppress_blocks Held
install-Held parse suppress incoming since v now h =
    let f : FightSuppress = record {
      node_id = incoming.node_id;
      vip = incoming.vip;
      vip_epoch = incoming.vip_epoch;
      expires_at = since + fight_suppress_ttl;
    } in
    rw
      (
        v,
        fight_suppress_blocks,
        lookup-insert_self incoming.node_id f suppress,
        lt→ltb now (since + fight_suppress_ttl) h,
        same_self incoming.vip,
      )
      ((eqb_iff incoming.vip_epoch incoming.vip_epoch).1 refl)

blocked_again :
    (parse : Text → Option ℕ) (claims : Claims) (incoming : ClaimRecord) (s : Suppress)
    (tombs : Tombs) (now : ℕ)
    → fields_valid parse incoming.node_id incoming.vip ≡ true
    → lookup incoming.node_id tombs ≡ none
    → fight_suppress_blocks s incoming.node_id incoming.vip incoming.vip_epoch now ≡ true
    → merge_claim parse claims incoming tombs s now ≡ (
      claims,
      (install_fight_suppress parse s incoming.node_id incoming.vip incoming.vip_epoch now
          fight_suppress_ttl).0,
      blocked_by_fight,
    )
unfolding merge_claim leave_tombstone_blocks
blocked_again parse claims incoming s tombs now v t b =
    rw (v, merge_claim, leave_tombstone_blocks, t, b)

claim_again-Held :
    (parse : Text → Option ℕ) (claims : Claims) (incoming : ClaimRecord) (s : Suppress)
    (tombs : Tombs) (since : ℕ) (times : List ℕ)
    → fields_valid parse incoming.node_id incoming.vip ≡ true
    → lookup incoming.node_id tombs ≡ none
    → Held s incoming since
    → Continuous since times
    → (claim_again parse claims incoming tombs s times).1 ≡ claims
unfolding claim_again Held
claim_again-Held parse claims incoming s tombs since [] v t h c = refl
claim_again-Held parse claims incoming s tombs since (now ∷ times) v t h c =
    rw (blocked_again parse claims incoming s tombs now v t (h now c.0)) (
      claim_again-Held parse claims incoming
        (install_fight_suppress parse s incoming.node_id incoming.vip incoming.vip_epoch now
          fight_suppress_ttl).0
        tombs now times v t (install-Held parse s incoming now v) c.1)

-- A losing claim that was suppressed at `since`, and that its node repeats with less than 30 seconds between
-- one claim and the next, never comes in, however long that goes on, if the node has no leave tombstone: no
-- claim changes.
pub fight_stays_lost :
    (parse : Text → Option ℕ) (claims : Claims) (incoming : ClaimRecord) (suppress : Suppress)
    (tombs : Tombs) (since : ℕ) (times : List ℕ)
    → fields_valid parse incoming.node_id incoming.vip ≡ true
    → lookup incoming.node_id tombs ≡ none
    → Continuous since times
    → let s =
        (install_fight_suppress parse suppress incoming.node_id incoming.vip incoming.vip_epoch
          since fight_suppress_ttl).0 in
      (claim_again parse claims incoming tombs s times).1 ≡ claims
fight_stays_lost parse claims incoming suppress tombs since times v t c =
    claim_again-Held parse claims incoming _ tombs since times v t
      (install-Held parse suppress incoming since v) c

-- ===== src/Claim/Gossip.antt =====
-- Claims, leave tombstones and the suppression of lost fights (src/net/claim_gossip.rs). An instant is a
-- number of milliseconds. `parse` stands for `str::parse::<Ipv4Addr>`, as in Vip.antt.
use mint_connect_unit.Claim.Vip.{Text, claim_vip_valid, same_text, text_key}
use mint_connect_unit.Prelude.{
  Bool, List, Option, [], eqb, false, get_elem?, if◌then◌else◌, leb, length, ltb, min, none, not,
  some, suc, true, zero, ℕ, ◌%◌, ◌&&◌, ◌+◌, ◌||◌, ◌∷◌,
}
use mint_connect_unit.Prelude.Table.{Table, insert, lookup, remove, retain}

abbrev pub fight_suppress_ttl : ℕ
fight_suppress_ttl = 30000

pub record ClaimRecord : Type 0 where
  pub node_id : Text
  pub vip : Text
  pub vip_epoch : ℕ
  pub ep_hints : List Text

pub record LeaveTombstone : Type 0 where
  pub node_id : Text
  pub vip : Text
  pub vip_epoch : ℕ
  pub expires_at : ℕ

pub record FightSuppress : Type 0 where
  pub node_id : Text
  pub vip : Text
  pub vip_epoch : ℕ
  pub expires_at : ℕ

pub data MergeOutcome : Type 0 where
  accepted ignored_stale blocked_by_tombstone blocked_by_fight rejected : MergeOutcome

abbrev pub Claims : Type 0
Claims = Table Text ClaimRecord

abbrev pub Tombs : Type 0
Tombs = Table Text LeaveTombstone

abbrev pub Suppress : Type 0
Suppress = Table Text FightSuppress

abbrev pub is_empty {ℓ} : {A : Type ℓ} → List A → Bool
is_empty [] = true
is_empty (x ∷ xs) = false

abbrev pub same_hints : List Text → List Text → Bool
same_hints [] [] = true
same_hints [] (y ∷ ys) = false
same_hints (x ∷ xs) [] = false
same_hints (x ∷ xs) (y ∷ ys) = same_text x y && same_hints xs ys

-- The guard of the two `install` functions and, negated, that of `merge_claim`.
abbrev pub fields_valid : (Text → Option ℕ) → Text → Text → Bool
fields_valid parse node_id vip = not (is_empty node_id) && claim_vip_valid parse vip

unfoldable pub install_fight_suppress :
    (Text → Option ℕ) → Suppress → Text → Text → ℕ → ℕ → ℕ → Suppress × Bool
install_fight_suppress parse suppress node_id vip vip_epoch now ttl =
    if fields_valid parse node_id vip
    then (
      insert node_id
          (record { node_id = node_id; vip = vip; vip_epoch = vip_epoch; expires_at = now + ttl })
          suppress,
      true,
    )
    else (suppress, false)

unfoldable pub fight_suppress_blocks : Suppress → Text → Text → ℕ → ℕ → Bool
fight_suppress_blocks suppress node_id vip vip_epoch now = elim (lookup node_id suppress) [
  | none ↦ false
  | some s ↦ ltb now s.expires_at && (same_text s.vip vip && eqb s.vip_epoch vip_epoch)
]

unfoldable pub prune_fight_suppress : Suppress → ℕ → Suppress
prune_fight_suppress suppress now = retain (λ id s. ltb now s.expires_at) suppress

unfoldable pub install_leave_tombstone :
    (Text → Option ℕ) → Tombs → Text → Text → ℕ → ℕ → ℕ → Tombs × Bool
install_leave_tombstone parse tombs node_id vip vip_epoch now ttl =
    if fields_valid parse node_id vip
    then (
      insert node_id
          (record { node_id = node_id; vip = vip; vip_epoch = vip_epoch; expires_at = now + ttl })
          tombs,
      true,
    )
    else (tombs, false)

unfoldable pub leave_tombstone_blocks : Tombs → Text → ℕ → ℕ → Bool
leave_tombstone_blocks tombs node_id claim_epoch now = elim (lookup node_id tombs) [
  | none ↦ false
  | some t ↦ ltb now t.expires_at && leb claim_epoch t.vip_epoch
]

unfoldable pub prune_leave_tombstones : Tombs → ℕ → Tombs
prune_leave_tombstones tombs now = retain (λ id t. ltb now t.expires_at) tombs

-- The end of `merge_claim`: what is in the map for the node decides.
unfoldable pub merge_live : Claims → ClaimRecord → Claims × MergeOutcome
merge_live claims incoming = elim (lookup incoming.node_id claims) [
  | none ↦ (insert incoming.node_id incoming claims, accepted)
  | some existing ↦
      if ltb existing.vip_epoch incoming.vip_epoch
      then (insert incoming.node_id incoming claims, accepted)
      else if eqb incoming.vip_epoch existing.vip_epoch && same_text incoming.vip existing.vip
      then (if not (is_empty incoming.ep_hints)
            && not (same_hints incoming.ep_hints existing.ep_hints)
          then (
            insert incoming.node_id (record existing { ep_hints = incoming.ep_hints }) claims,
            accepted,
          )
          else (claims, ignored_stale))
      else (claims, ignored_stale)
]

-- The claims, the suppressions and the outcome.
unfoldable pub merge_claim :
    (Text → Option ℕ)
    → Claims
    → ClaimRecord
    → Tombs
    → Suppress
    → ℕ
    → Claims × Suppress × MergeOutcome
merge_claim parse claims incoming tombs suppress now =
    if not (fields_valid parse incoming.node_id incoming.vip)
    then (claims, suppress, rejected)
    else if leave_tombstone_blocks tombs incoming.node_id incoming.vip_epoch now
    then (claims, suppress, blocked_by_tombstone)
    else if fight_suppress_blocks suppress incoming.node_id incoming.vip incoming.vip_epoch now
    then (
      claims,
      (install_fight_suppress parse suppress incoming.node_id incoming.vip incoming.vip_epoch now
          fight_suppress_ttl).0,
      blocked_by_fight,
    )
    else (let (m, outcome) = merge_live claims incoming in (m, suppress, outcome))

-- `claim_still_live`, and `stale_allows_ep_refresh`, which has the same body.
unfoldable pub claim_still_live : Claims → Text → Text → ℕ → Bool
claim_still_live claims node_id vip vip_epoch = elim (lookup node_id claims) [
  | none ↦ false
  | some c ↦ same_text c.vip vip && eqb c.vip_epoch vip_epoch
]

unfoldable pub claims_with_vip : Claims → Text → List Text
claims_with_vip [] vip = []
claims_with_vip ((id, c) ∷ m) vip =
    let rest = claims_with_vip m vip in if same_text c.vip vip then id ∷ rest else rest

unfoldable pub remove_all : List Text → Claims → Claims
remove_all [] claims = claims
remove_all (id ∷ ids) claims = remove_all ids (remove id claims)

unfoldable pub remove_claims_for_vip : Claims → Text → Claims × List Text
unfolding claims_with_vip remove_all
remove_claims_for_vip claims vip =
    let doomed = claims_with_vip claims vip in (remove_all doomed claims, doomed)

-- `for i in 0..take`, with `rounds` rounds left; the index is below the length, so a read finds an element.
unfoldable pub rotated {ℓ} : {A : Type ℓ} → ℕ → ℕ → List A → ℕ → List A
rotated zero i eps start = []
rotated (suc rounds) i eps start = elim (get_elem? eps ((start + i) % length eps)) [
  | none ↦ []
  | some ep ↦ ep ∷ rotated rounds (i + 1) eps start
]

unfoldable pub rotate_endpoints {ℓ} : {A : Type ℓ} → List A → ℕ → ℕ → List A
unfolding rotated
rotate_endpoints eps cursor cap =
    if is_empty eps || eqb cap 0
    then []
    else rotated (min cap (length eps)) 0 eps (cursor % length eps)

-- ===== src/Claim/Removal.antt =====
-- The removal of every claim of an address (src/net/claim_gossip.rs).
use mathlib.Core.Path.{subst}
use mint_connect_unit.Claim.Gossip.{
  ClaimRecord, Claims, claims_with_vip, remove_all, remove_claims_for_vip,
}
use mint_connect_unit.Claim.Vip.{Text, same_text, same_text_iff, text_key}
use mint_connect_unit.Prelude.{
  All, Bool, Bool-cases, List, Option, [], arith, false, if◌then◌else◌, inl, inr, none, refl,
  same_ne, some, sym, ◌||◌, ◌∙◌, ◌∷◌, ◌≡◌, ◌≢◌,
}
use mint_connect_unit.Prelude.Distinct.{Distinct}
use mint_connect_unit.Prelude.Table.{keys, lookup, lookup-remove, remove}

abbrev pub mem_text : Text → List Text → Bool
mem_text id [] = false
mem_text id (x ∷ xs) = same_text x id || mem_text id xs

-- What is left of an entry when the address is withdrawn.
abbrev pub without_vip : Text → Option ClaimRecord → Option ClaimRecord
without_vip vip none = none
without_vip vip (some c) = if same_text c.vip vip then none else some c

pub lookup-remove_all :
    (ids : List Text) (claims : Claims) (id : Text)
    → lookup id (remove_all ids claims) ≡ (if mem_text id ids then none else lookup id claims)
unfolding remove_all
lookup-remove_all [] claims id = refl
lookup-remove_all (x ∷ ids) claims id = elim (Bool-cases (same_text x id)) [
  | inl t ↦
      rw (lookup-remove_all ids (remove x claims) id, lookup-remove x id claims, t) (ground arith)
  | inr f ↦ rw (lookup-remove_all ids (remove x claims) id, lookup-remove x id claims, f)
]

pub unlisted :
    (claims : Claims) (vip id : Text)
    → All (λ k. id ≢ k) (keys claims)
    → mem_text id (claims_with_vip claims vip) ≡ false
unfolding claims_with_vip
unlisted [] vip id a = refl
unlisted ((k, c) ∷ claims) vip id a = elim (Bool-cases (same_text c.vip vip)) [
  | inl t ↦ rw (t, same_ne k id (λ e. a.0 (sym e))) (unlisted claims vip id a.1)
  | inr f ↦ rw f (unlisted claims vip id a.1)
]

lookup-claims_with_vip :
    (claims : Claims) (vip id : Text)
    → Distinct (keys claims)
    → (if mem_text id (claims_with_vip claims vip) then none else lookup id claims)
      ≡ without_vip vip (lookup id claims)
unfolding claims_with_vip lookup
lookup-claims_with_vip [] vip id d = refl
lookup-claims_with_vip ((k, c) ∷ claims) vip id d = elim (Bool-cases (same_text k id)) [
  | inl here ↦ elim (Bool-cases (same_text c.vip vip)) [
    | inl t ↦ rw (here, t, here)
    | inr f ↦
        let other = subst (λ x. All (λ y. x ≢ y) (keys claims)) ((same_text_iff k id).0 here) d.0 in
        rw (here, f, unlisted claims vip id other)
  ]
  | inr there ↦ elim (Bool-cases (same_text c.vip vip)) [
    | inl t ↦ rw (there, t, there) (lookup-claims_with_vip claims vip id d.1)
    | inr f ↦ rw (there, f) (lookup-claims_with_vip claims vip id d.1)
  ]
]

-- Where no node has two entries, withdrawing an address removes the claims of that address, whoever made
-- them, and leaves every other claim.
pub remove_claims_for_vip_lem :
    (claims : Claims) (vip id : Text)
    → Distinct (keys claims)
    → lookup id (remove_claims_for_vip claims vip).0 ≡ without_vip vip (lookup id claims)
unfolding remove_claims_for_vip
remove_claims_for_vip_lem claims vip id d =
    lookup-remove_all (claims_with_vip claims vip) claims id
    ∙ lookup-claims_with_vip claims vip id d

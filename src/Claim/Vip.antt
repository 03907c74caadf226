-- ===== src/Claim/Vip.antt =====
-- Texts and addresses of claims (src/net/claim.rs). A text is the list of its bytes, which is what the order
-- of `str` compares. `parse` stands for `str::parse::<Ipv4Addr>` and gives the address as a u32.
use mathlib.Core.Option.{some-injective}
use mathlib.Core.Path.{subst}
use mint_connect_unit.Prelude.{
  Bool, Bool-cases, Key, List, Option, [], arith, eqb, false, if◌then◌else◌, inl, inr, ltb, none,
  not, refl, same_ne, same_self, some, suc, sym, true, zero, ℕ, ◌%◌, ◌&&◌, ◌*◌, ◌+◌, ◌-◌, ◌/◌, ◌<◌,
  ◌^◌, ◌||◌, ◌↔◌, ◌∷◌, ◌≡◌, ◌≢◌, ◌≤◌,
}

abbrev pub Text : Type 0
Text = List ℕ

abbrev pub same_text : Text → Text → Bool
same_text [] [] = true
same_text [] (y ∷ ys) = false
same_text (x ∷ xs) [] = false
same_text (x ∷ xs) (y ∷ ys) = eqb x y && same_text xs ys

pub same_text_iff : (a b : Text) → (same_text a b ≡ true) ↔ (a ≡ b)
same_text_iff [] [] = ground arith
same_text_iff [] (y ∷ ys) = ground arith
same_text_iff (x ∷ xs) [] = ground arith
same_text_iff (x ∷ xs) (y ∷ ys) = ground (arith, same_text_iff xs ys)

instance abbrev pub text_key : Key Text
text_key = record { same = same_text; same_iff = same_text_iff }

-- `local_node_id < remote_node_id`
unfoldable pub node_id_wins : Text → Text → Bool
node_id_wins [] [] = false
node_id_wins [] (y ∷ ys) = true
node_id_wins (x ∷ xs) [] = false
node_id_wins (x ∷ xs) (y ∷ ys) = ltb x y || eqb x y && node_id_wins xs ys

unfoldable pub local_loses_vip_conflict : Text → Text → Bool
local_loses_vip_conflict local_id remote_id =
    not (node_id_wins local_id remote_id) && not (same_text local_id remote_id)

unfoldable pub should_reroll_for_vip_fight : Text → Text → Text → Text → Bool
unfolding local_loses_vip_conflict
should_reroll_for_vip_fight local_id local_vip remote_id remote_vip =
    same_text remote_vip local_vip && local_loses_vip_conflict local_id remote_id

-- An address that is not 0.0.0.0, broadcast, multicast (224/4) or loopback (127/8), with a last byte that
-- is neither 0 nor 255.
unfoldable pub valid_address : ℕ → Bool
valid_address a =
    not (eqb a 0)
    && (not (eqb a (2 ^ 32 - 1))
        && (not (eqb (a / 2 ^ 28) 14)
            && (not (eqb (a / 2 ^ 24) 127) && (not (eqb (a % 256) 0) && not (eqb (a % 256) 255)))))

unfoldable pub claim_vip_valid : (Text → Option ℕ) → Text → Bool
unfolding valid_address
claim_vip_valid parse vip = elim (parse vip) [ none ↦ false | some a ↦ valid_address a ]

-- `subnet` is the prefix of 24 bits that `derive_floatunit_subnet24` derives from the key.
unfoldable pub vip_in_floatunit_subnet : (Text → Option ℕ) → ℕ → Text → Bool
unfolding claim_vip_valid
vip_in_floatunit_subnet parse subnet vip =
    if not (claim_vip_valid parse vip)
    then false
    else elim (parse vip) [ none ↦ false | some a ↦ eqb (a / 256) subnet ]

unfoldable pub accept_wire_claim_vip : (Text → Option ℕ) → Option ℕ → Text → Bool
accept_wire_claim_vip parse (some subnet) vip = vip_in_floatunit_subnet parse subnet vip
accept_wire_claim_vip parse none vip = claim_vip_valid parse vip

-- `pick_free_vip` on the four bytes of the base address: the scan of its 254 hosts, with `rounds` left.
-- A candidate is its host byte, and `occupied` tells of the address with that last byte.
unfoldable pub scan_hosts : (ℕ → Bool) → ℕ → ℕ → ℕ → Option ℕ
scan_hosts occupied start zero offset = none
scan_hosts occupied start (suc rounds) offset =
    let host = (start + offset) % 254 + 1 in
    elim (occupied host) [
      | false ↦ some host
      | true ↦ scan_hosts occupied start rounds (offset + 1)
    ]

unfoldable pub pick_free_host : (ℕ → Bool) → ℕ → Option ℕ
unfolding scan_hosts
pick_free_host occupied last = scan_hosts occupied ((last * 37 % 2 ^ 16 + 17) % 2 ^ 16 % 254) 254 0

pub wins-flip : (a b : Text) → same_text a b ≡ false → node_id_wins b a ≡ not (node_id_wins a b)
unfolding node_id_wins
wins-flip [] [] h = absurd (cc h)
wins-flip [] (y ∷ ys) h = refl
wins-flip (x ∷ xs) [] h = refl
wins-flip (x ∷ xs) (y ∷ ys) h = ground (arith, wins-flip xs ys)

-- Between two nodes with different identifiers exactly one loses, so that of two nodes with one address
-- exactly one rerolls.
pub vip_fight_one_loser :
    (a b vip : Text)
    → a ≢ b
    → should_reroll_for_vip_fight b vip a vip ≡ not (should_reroll_for_vip_fight a vip b vip)
unfolding should_reroll_for_vip_fight local_loses_vip_conflict
vip_fight_one_loser a b vip h =
    let other = same_ne a b h in
    let other' = same_ne b a (λ e. h (sym e)) in
    rw (same_self vip, wins-flip a b other, other, other') (ground arith)

scan_hosts-some :
    (occupied : ℕ → Bool) (start rounds offset h : ℕ)
    → scan_hosts occupied start rounds offset ≡ some h
    → (occupied h ≡ false) × (1 ≤ h) × (h ≤ 254)
unfolding scan_hosts
scan_hosts-some occupied start zero offset h e = absurd (cc e)
scan_hosts-some occupied start (suc rounds) offset h e =
    elim (Bool-cases (occupied ((start + offset) % 254 + 1))) [
      | inl t ↦ scan_hosts-some occupied start rounds (offset + 1) h (rw (t, scan_hosts) at e)
      | inr f ↦
          let same : (start + offset) % 254 + 1 ≡ h =
            some-injective _ _ (rw (f, scan_hosts) at e) in
          (subst (λ x. occupied x ≡ false) same f, omega arith, omega arith)
    ]

scan_hosts-none :
    (occupied : ℕ → Bool) (start rounds offset k : ℕ)
    → scan_hosts occupied start rounds offset ≡ none
    → offset ≤ k
    → k < offset + rounds
    → occupied ((start + k) % 254 + 1) ≡ true
unfolding scan_hosts
scan_hosts-none occupied start zero offset k e lo hi = absurd (omega arith)
scan_hosts-none occupied start (suc rounds) offset k e lo hi =
    elim (Bool-cases (occupied ((start + offset) % 254 + 1))) [
      | inr f ↦ absurd (cc (rw (f, scan_hosts) at e))
      | inl t ↦ elim (Bool-cases (eqb offset k)) [
        | inl here ↦ subst (λ x. occupied ((start + x) % 254 + 1) ≡ true) (ground arith) t
        | inr there ↦
            scan_hosts-none occupied start rounds (offset + 1) k (rw (t, scan_hosts) at e)
              (ground arith) (omega arith)
      ]
    ]

-- The scan for a free address finds a host from 1 to 254 that is not occupied, and it finds none only if
-- all of them are occupied.
pub pick_free_host_lem :
    (occupied : ℕ → Bool) (last : ℕ)
    → ((h : ℕ) → pick_free_host occupied last ≡ some h → (occupied h ≡ false) × (1 ≤ h) × (h ≤ 254))
      × (pick_free_host occupied last ≡ none → (h : ℕ) → 1 ≤ h → h ≤ 254 → occupied h ≡ true)
unfolding pick_free_host
pick_free_host_lem occupied last =
    let start = (last * 37 % 2 ^ 16 + 17) % 2 ^ 16 % 254 in
    (
      λ h e. scan_hosts-some occupied start 254 0 h e,
      λ e h lo hi.
          let k = (h - 1 + 254 - start) % 254 in
          subst (λ x. occupied x ≡ true) (host_back start h (omega arith) lo hi)
            (scan_hosts-none occupied start 254 0 k e (omega arith) (omega arith)),
    )
  where
    host_back :
        (start h : ℕ)
        → start < 254
        → 1 ≤ h
        → h ≤ 254
        → (start + (h - 1 + 254 - start) % 254) % 254 + 1 ≡ h
    host_back start h s lo hi = omega arith

-- ===== src/Pmtud/Inv.antt =====
-- The invariant of one peer (src/pmtud.rs), and that the functions on a peer keep it.
use mint_connect_unit.Prelude.{
  ℕ, ◌+◌, ◌≤◌, ◌<◌, ◌≡◌, ◌⊎◌, true, false, Option, none, some, arith, is_some,
}
use mint_connect_unit.Pmtud.State.{
  PeerState, Inflight, Phase, plateau, raise, binary, revalidate, recheck, down_search, frozen,
  min_mtu, max_mtu, first_bad_sentinel,
}
use mint_connect_unit.Pmtud.Peer.{
  window_closed, raise_target, binary_target, enter_plateau, enter_frozen,
  finish_downsearch_plateau, maybe_budget_freeze, soft_down_last_good, new_peer,
}

-- Sizes stay in the range that can be probed, and the last good size below the first bad one.
pub record Bounds (p : PeerState) : Type 0 where
  pub good_low : min_mtu ≤ p.last_good
  pub good_high : p.last_good ≤ max_mtu
  pub stable_low : min_mtu ≤ p.stable
  pub stable_high : p.stable ≤ max_mtu
  pub window : p.last_good < p.first_bad
  pub bad_high : p.first_bad ≤ first_bad_sentinel

-- A probe in flight tells the two ends of the window apart.
abbrev pub Splits : PeerState → Option Inflight → Type 0
Splits p none = Unit {0}
Splits p (some inf) = (p.last_good < inf.size) × (inf.size < p.first_bad)

-- What a phase promises: a peer at rest has no probe, a search has one that can be made, and only the
-- two checks of `stable` use the grace window.
abbrev pub Shape : ℕ → PeerState → Phase → Type 0
Shape epsilon p plateau = (p.inflight ≡ none) × (p.grace ≡ none)
Shape epsilon p frozen = (p.inflight ≡ none) × (p.grace ≡ none)
Shape epsilon p raise = (p.grace ≡ none) × (is_some (raise_target p) ≡ true) × Splits p p.inflight
Shape epsilon p binary =
    (p.grace ≡ none) × (p.last_good + epsilon < p.first_bad) × Splits p p.inflight
Shape epsilon p down_search =
    (p.grace ≡ none) × (p.last_good + epsilon < p.first_bad) × Splits p p.inflight
Shape epsilon p revalidate = (p.inflight ≡ none) ⊎ (p.grace ≡ none)
Shape epsilon p recheck = (p.inflight ≡ none) ⊎ (p.grace ≡ none)

pub record PeerInv (epsilon : ℕ) (p : PeerState) : Type 0 where
  pub bounds : Bounds p
  pub shape : Shape epsilon p p.phase

module _ (epsilon : ℕ) (p : PeerState) where
  pub new_peer-PeerInv :
      (now raise_period raise_step : ℕ) → PeerInv epsilon (new_peer now raise_period raise_step)
  unfolding new_peer
  new_peer-PeerInv now raise_period raise_step = ground arith

  pub enter_frozen-PeerInv :
      (now raise_period : ℕ) → Bounds p → PeerInv epsilon (enter_frozen p now raise_period)
  unfolding enter_frozen
  enter_frozen-PeerInv now raise_period b = ground arith

  pub enter_plateau-PeerInv :
      (now raise_period raise_step batches : ℕ)
      → Bounds p
      → PeerInv epsilon (enter_plateau p now raise_period raise_step batches)
  unfolding enter_plateau
  enter_plateau-PeerInv now raise_period raise_step batches b = ground arith

  -- Leaving `down_search` may forget the first bad size, which only widens the window.
  pub finish_downsearch-PeerInv :
      (now raise_period raise_step batches : ℕ)
      → Bounds p
      → PeerInv epsilon (finish_downsearch_plateau p now raise_period raise_step batches)
  unfolding finish_downsearch_plateau
  finish_downsearch-PeerInv now raise_period raise_step batches b = ground arith

  pub window_open : window_closed p epsilon ≡ false → p.last_good + epsilon < p.first_bad
  unfolding window_closed
  window_open h = ground arith

  pub soft_down_last_good-Bounds :
      Bounds p → (min_mtu ≤ soft_down_last_good p) × (soft_down_last_good p ≤ max_mtu)
  unfolding soft_down_last_good
  soft_down_last_good-Bounds b = ground arith

  -- A budget freeze or none: both keep the invariant of a peer that had it.
  pub budget_freeze-PeerInv :
      (now raise_period max_probes : ℕ)
      → PeerInv epsilon p
      → PeerInv epsilon (maybe_budget_freeze p now raise_period max_probes).0
  unfolding maybe_budget_freeze
  budget_freeze-PeerInv now raise_period max_probes v = ground arith

-- A raise target lies strictly inside the window, in the range that can be probed.
pub raise_target_inside :
    (p : PeerState) {t : ℕ}
    → raise_target p ≡ some t
    → (p.last_good < t) × (t < p.first_bad) × (t ≤ max_mtu)
unfolding raise_target
raise_target_inside p h = ground arith

pub binary_target_inside :
    (p : PeerState) {t : ℕ}
    → Bounds p
    → binary_target p ≡ some t
    → (p.last_good < t) × (t < p.first_bad) × (t ≤ max_mtu)
unfolding binary_target
binary_target_inside p b h = ground arith

-- With a window of two or more a binary search always has a probe to make.
pub binary_target_some :
    (p : PeerState) → Bounds p → p.last_good + 1 < p.first_bad → is_some (binary_target p) ≡ true
unfolding binary_target
binary_target_some p b h = ground arith

-- ===== src/Pmtud/FailInv.antt =====
-- The invariant of the table of peers (src/pmtud.rs), and that the failure paths keep it.
use mint_connect_unit.Prelude.{
  ℕ, ◌≤◌, ◌<◌, ◌≡◌, refl, inl, inr, Option, none, some, arith, Bool-cases, Option-cases,
}
use mint_connect_unit.Prelude.Table.{
  Table, lookup, keys, AllEntries, AllEntries-lookup, AllEntries-insert,
}
use mint_connect_unit.Prelude.Distinct.{Distinct, Distinct-insert}
use mint_connect_unit.Addr.{SocketAddr, addr_key}
use mint_connect_unit.Pmtud.State.{
  PathMtuDiscovery, PeerState, PmtudEventCounts, Phase, plateau, raise, binary, revalidate, recheck,
  down_search, frozen, min_mtu, max_mtu,
}
use mint_connect_unit.Pmtud.Fail.{
  recalc_min, put_peer, soft_down_peer, apply_soft_down, anomaly_peer, apply_anomaly, recheck_peer,
  enter_recheck, raise_fail_peer, binary_fail_peer, downsearch_fail_peer, confirmed_fail_at,
  apply_timeout_confirmed_fail,
}
use mint_connect_unit.Pmtud.Inv.{Bounds, PeerInv, soft_down_last_good-Bounds}

abbrev pub AllPeers : ℕ → Table SocketAddr PeerState → Type 0
AllPeers epsilon = AllEntries (λ ep p. PeerInv epsilon p)

abbrev pub PinInRange : Option ℕ → Type 0
PinInRange none = Unit {0}
PinInRange (some m) = (min_mtu ≤ m) × (m ≤ max_mtu)

-- Every peer meets its invariant, a pinned size can be probed, no endpoint has two entries, and a
-- search stops before its window is empty.
pub record Inv (d : PathMtuDiscovery) : Type 0 where
  pub peers_ok : AllPeers 1 d.peers
  pub pin_ok : PinInRange d.pinned
  pub distinct : Distinct (keys d.peers)
  pub epsilon_pos : 1 ≤ d.resolve_epsilon

pub recalc_min-Inv : (d : PathMtuDiscovery) → Inv d → Inv (recalc_min d)
unfolding recalc_min
recalc_min-Inv d v = ground arith

pub put_peer-Inv :
    (d : PathMtuDiscovery) (ep : SocketAddr) (p : PeerState)
    → Inv d
    → PeerInv 1 p
    → Inv (put_peer d ep p)
put_peer-Inv d ep p v h = record {
  peers_ok = AllEntries-insert (λ _ q. PeerInv 1 q) ep p d.peers h v.peers_ok;
  pin_ok = v.pin_ok;
  distinct = Distinct-insert ep p d.peers v.distinct;
  epsilon_pos = v.epsilon_pos;
}

pub found-PeerInv :
    (d : PathMtuDiscovery) (ep : SocketAddr) {p : PeerState}
    → Inv d
    → lookup ep d.peers ≡ some p
    → PeerInv 1 p
found-PeerInv d ep v e = AllEntries-lookup (λ _ q. PeerInv 1 q) ep d.peers v.peers_ok e

module _ (d : PathMtuDiscovery) (now : ℕ) (p : PeerState) (one : 1 ≤ d.resolve_epsilon)
    (b : Bounds p) where
  pub soft_down-PeerInv : (ep : SocketAddr) → PeerInv 1 (soft_down_peer d ep now p)
  unfolding soft_down_peer
  soft_down-PeerInv ep = ground (arith, soft_down_last_good-Bounds 1 p b)

  pub anomaly-PeerInv : PeerInv 1 (anomaly_peer d now p)
  unfolding anomaly_peer
  anomaly-PeerInv = ground arith

  pub recheck-PeerInv : PeerInv 1 (recheck_peer p)
  unfolding recheck_peer
  recheck-PeerInv = ground arith

  -- A failed probe inside the window becomes its new upper end.
  pub raise_fail-PeerInv :
      (size : ℕ)
      → p.last_good < size
      → p.grace ≡ none
      → size ≤ max_mtu
      → PeerInv 1 (raise_fail_peer d size now p)
  unfolding raise_fail_peer
  raise_fail-PeerInv size lo g hi = ground arith

  pub binary_fail-PeerInv :
      (size : ℕ)
      → p.last_good < size
      → p.grace ≡ none
      → size ≤ max_mtu
      → p.phase ≡ binary
      → PeerInv 1 (binary_fail_peer d size now p)
  unfolding binary_fail_peer
  binary_fail-PeerInv size lo g hi ph = ground arith

  pub downsearch_fail-PeerInv :
      (size : ℕ)
      → p.last_good < size
      → p.grace ≡ none
      → size ≤ max_mtu
      → p.phase ≡ down_search
      → PeerInv 1 (downsearch_fail_peer d size now p)
  unfolding downsearch_fail_peer
  downsearch_fail-PeerInv size lo g hi ph = ground arith

module _ (d : PathMtuDiscovery) (ep : SocketAddr) (now : ℕ) (ev : PmtudEventCounts)
    (v : Inv d) where
  pub apply_soft_down-Inv : Inv (apply_soft_down d ep now ev).0
  unfolding apply_soft_down
  apply_soft_down-Inv = elim (Option-cases (lookup ep d.peers)) [
    | inl e ↦ rw (e, apply_soft_down) v
    | inr (p, e) ↦
        rw (e, apply_soft_down)
          (recalc_min-Inv _ (
            put_peer-Inv d ep _ v
              (soft_down-PeerInv d now p v.epsilon_pos (found-PeerInv d ep v e).bounds ep)))
  ]

  pub apply_anomaly-Inv : Inv (apply_anomaly d ep now ev).0
  unfolding apply_anomaly
  apply_anomaly-Inv = elim (Option-cases (lookup ep d.peers)) [
    | inl e ↦ rw (e, apply_anomaly) v
    | inr (p, e) ↦
        rw (e, apply_anomaly)
          (put_peer-Inv d ep _ v
            (anomaly-PeerInv d now p v.epsilon_pos (found-PeerInv d ep v e).bounds))
  ]

  pub enter_recheck-Inv : Inv (enter_recheck d ep ev).0
  unfolding enter_recheck
  enter_recheck-Inv = elim (Option-cases (lookup ep d.peers)) [
    | inl e ↦ rw (e, enter_recheck) v
    | inr (p, e) ↦
        rw (e, enter_recheck)
          (put_peer-Inv d ep _ v
            (recheck-PeerInv d now p v.epsilon_pos (found-PeerInv d ep v e).bounds))
  ]

-- What a failed size must be: in a search, above the last good size and in range.
abbrev pub Fails : PeerState → ℕ → Phase → Type 0
Fails p size raise = (p.last_good < size) × (size ≤ max_mtu) × (p.grace ≡ none)
Fails p size binary = (p.last_good < size) × (size ≤ max_mtu) × (p.grace ≡ none)
Fails p size down_search = (p.last_good < size) × (size ≤ max_mtu) × (p.grace ≡ none)
Fails p size _ = Unit {0}

module _ (d : PathMtuDiscovery) (ep : SocketAddr) (size now : ℕ) (ev : PmtudEventCounts)
    (v : Inv d) where
  pub confirmed_fail_at-Inv :
      (p : PeerState) (ph : Phase)
      → Bounds p
      → p.phase ≡ ph
      → Fails p size ph
      → Inv (confirmed_fail_at d ep size now ev p ph).0
  unfolding confirmed_fail_at
  confirmed_fail_at-Inv p raise b e (lo, hi, g) =
      put_peer-Inv d ep _ v (raise_fail-PeerInv d now p v.epsilon_pos b size lo g hi)
  confirmed_fail_at-Inv p binary b e (lo, hi, g) =
      put_peer-Inv d ep _ v (binary_fail-PeerInv d now p v.epsilon_pos b size lo g hi e)
  confirmed_fail_at-Inv p revalidate b e f = elim (Bool-cases p.large_alive) [
    | inl t ↦ rw t (apply_anomaly-Inv d ep now ev v)
    | inr t ↦ rw t (enter_recheck-Inv d ep now ev v)
  ]
  confirmed_fail_at-Inv p recheck b e f = apply_soft_down-Inv d ep now ev v
  confirmed_fail_at-Inv p down_search b e (lo, hi, g) =
      put_peer-Inv d ep _ v (downsearch_fail-PeerInv d now p v.epsilon_pos b size lo g hi e)
  confirmed_fail_at-Inv p plateau b e f = v
  confirmed_fail_at-Inv p frozen b e f = v

  -- A confirmed failure keeps the invariant, if the size that failed may fail there.
  pub confirmed_fail-Inv :
      ((p : PeerState) → lookup ep d.peers ≡ some p → Fails p size p.phase)
      → Inv (apply_timeout_confirmed_fail d ep size now ev).0
  unfolding apply_timeout_confirmed_fail
  confirmed_fail-Inv h = elim (Option-cases (lookup ep d.peers)) [
    | inl e ↦ rw (e, apply_timeout_confirmed_fail) v
    | inr (p, e) ↦
        rw (e, apply_timeout_confirmed_fail)
          (confirmed_fail_at-Inv p p.phase (found-PeerInv d ep v e).bounds refl (h p e))
  ]

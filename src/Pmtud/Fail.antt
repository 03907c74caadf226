-- ===== src/Pmtud/Fail.antt =====
-- What a failed probe does to a peer, and the minimum over the peers (src/pmtud.rs): `recalc_min`,
-- `apply_soft_down`, `apply_anomaly`, `enter_recheck` and `apply_timeout_confirmed_fail`. A peer that
-- `get_mut` returns is written back under its key.
use mint_connect_unit.Prelude.{
  ℕ, ◌+◌, min, max, false, Option, none, some, ◌&&◌, not, if◌then◌else◌, wrapping_add_u32,
  saturating_add_u64, List, [], ◌∷◌,
}
use mint_connect_unit.Prelude.Table.{lookup, insert, values}
use mint_connect_unit.Addr.{SocketAddr, is_rfc1918_private_ip, addr_key}
use mint_connect_unit.Pmtud.State.{
  PathMtuDiscovery, PeerState, PmtudEventCounts, Phase, plateau, raise, binary, revalidate, recheck,
  down_search, frozen, default_mtu, anomaly_rearm_cap,
}
use mint_connect_unit.Pmtud.Peer.{
  clamp_size, window_closed, enter_plateau, finish_downsearch_plateau, maybe_budget_freeze,
  soft_down_last_good,
}

-- `map(|p| p.last_good).min().unwrap_or(DEFAULT_MTU)`
unfoldable pub min_last_good : List PeerState → Option ℕ
min_last_good [] = none
min_last_good (p ∷ ps) = elim (min_last_good ps) [
  | none ↦ some p.last_good
  | some m ↦ some (min p.last_good m)
]

unfoldable pub recalc_min : PathMtuDiscovery → PathMtuDiscovery
unfolding min_last_good
recalc_min d = elim d.pinned [
  | some m ↦ record d { min_path_mtu = m }
  | none ↦ elim (min_last_good (values d.peers)) [
    | some m ↦ record d { min_path_mtu = m }
    | none ↦ record d { min_path_mtu = default_mtu }
  ]
]

-- The write-back of a peer that `get_mut` returned.
abbrev pub put_peer : PathMtuDiscovery → SocketAddr → PeerState → PathMtuDiscovery
put_peer d ep p = record d { peers = insert ep p d.peers }

-- `apply_soft_down` on the peer itself.
unfoldable pub soft_down_peer : PathMtuDiscovery → SocketAddr → ℕ → PeerState → PeerState
unfolding window_closed finish_downsearch_plateau soft_down_last_good
soft_down_peer d ep now p =
    let halved = soft_down_last_good p in
    let new_lg : ℕ =
      if is_rfc1918_private_ip ep.ip && not p.ever_acked then max halved default_mtu else halved in
    let q : PeerState = record p {
      first_bad = max p.stable (new_lg + 1);
      last_good = new_lg;
      down_from_stable = some p.stable;
      downsearch_got_ack = false;
      phase = down_search;
      probes_used = 0;
      step = d.raise_step;
      search_gen = wrapping_add_u32 p.search_gen 1;
      inflight = none;
      grace = none;
    } in
    if window_closed q d.resolve_epsilon
    then finish_downsearch_plateau q now d.raise_period d.raise_step d.stable_downgrade_batches
    else q

abbrev pub count_softdown : PmtudEventCounts → PmtudEventCounts
count_softdown ev = record ev { softdown_events = saturating_add_u64 ev.softdown_events 1 }

unfoldable pub apply_soft_down :
    PathMtuDiscovery → SocketAddr → ℕ → PmtudEventCounts → PathMtuDiscovery × PmtudEventCounts
apply_soft_down d ep now ev = elim (lookup ep d.peers) [
  | none ↦ (d, ev)
  | some p ↦ (recalc_min (put_peer d ep (soft_down_peer d ep now p)), count_softdown ev)
]

-- `apply_anomaly` on the peer itself.
unfoldable pub anomaly_peer : PathMtuDiscovery → ℕ → PeerState → PeerState
anomaly_peer d now p = record p {
  inflight = none;
  grace = none;
  phase = plateau;
  probes_used = 0;
  step = d.raise_step;
  next_raise_at = now + min d.raise_period anomaly_rearm_cap;
}

abbrev pub count_anomaly : PmtudEventCounts → PmtudEventCounts
count_anomaly ev = record ev { probe_anomaly_events = saturating_add_u64 ev.probe_anomaly_events 1 }

unfoldable pub apply_anomaly :
    PathMtuDiscovery → SocketAddr → ℕ → PmtudEventCounts → PathMtuDiscovery × PmtudEventCounts
apply_anomaly d ep now ev = elim (lookup ep d.peers) [
  | none ↦ (d, ev)
  | some p ↦ (put_peer d ep (anomaly_peer d now p), count_anomaly ev)
]

-- `enter_recheck` on the peer itself.
unfoldable pub recheck_peer : PeerState → PeerState
recheck_peer p = record p {
  inflight = none;
  grace = none;
  phase = recheck;
  probes_used = 0;
  search_gen = wrapping_add_u32 p.search_gen 1;
}

abbrev pub count_revalidate_fail : PmtudEventCounts → PmtudEventCounts
count_revalidate_fail ev = record ev {
  revalidate_fail_events = saturating_add_u64 ev.revalidate_fail_events 1;
}

unfoldable pub enter_recheck :
    PathMtuDiscovery → SocketAddr → PmtudEventCounts → PathMtuDiscovery × PmtudEventCounts
enter_recheck d ep ev = elim (lookup ep d.peers) [
  | none ↦ (d, ev)
  | some p ↦ (put_peer d ep (recheck_peer p), count_revalidate_fail ev)
]

-- The arms of `apply_timeout_confirmed_fail` for the three searches.
unfoldable pub raise_fail_peer : PathMtuDiscovery → ℕ → ℕ → PeerState → PeerState
unfolding window_closed enter_plateau maybe_budget_freeze
raise_fail_peer d size now p =
    let q : PeerState = record p {
      inflight = none;
      first_bad = clamp_size size;
      step = d.raise_step;
      phase = binary;
    } in
    if window_closed q d.resolve_epsilon
    then enter_plateau q now d.raise_period d.raise_step d.stable_downgrade_batches
    else (maybe_budget_freeze q now d.raise_period d.max_probes_per_search).0

unfoldable pub binary_fail_peer : PathMtuDiscovery → ℕ → ℕ → PeerState → PeerState
unfolding window_closed enter_plateau maybe_budget_freeze
binary_fail_peer d size now p =
    let q : PeerState = record p {
      inflight = none;
      first_bad = min (clamp_size size) p.first_bad;
    } in
    if window_closed q d.resolve_epsilon
    then enter_plateau q now d.raise_period d.raise_step d.stable_downgrade_batches
    else (maybe_budget_freeze q now d.raise_period d.max_probes_per_search).0

unfoldable pub downsearch_fail_peer : PathMtuDiscovery → ℕ → ℕ → PeerState → PeerState
unfolding window_closed finish_downsearch_plateau maybe_budget_freeze
downsearch_fail_peer d size now p =
    let q : PeerState = record p {
      inflight = none;
      first_bad = min (clamp_size size) p.first_bad;
    } in
    if window_closed q d.resolve_epsilon
    then finish_downsearch_plateau q now d.raise_period d.raise_step d.stable_downgrade_batches
    else (maybe_budget_freeze q now d.raise_period d.max_probes_per_search).0

-- The `match phase` of `apply_timeout_confirmed_fail`, for the peer at `ep`.
unfoldable pub confirmed_fail_at :
    PathMtuDiscovery
    → SocketAddr
    → ℕ
    → ℕ
    → PmtudEventCounts
    → PeerState
    → Phase
    → PathMtuDiscovery × PmtudEventCounts
confirmed_fail_at d ep size now ev p raise = (put_peer d ep (raise_fail_peer d size now p), ev)
confirmed_fail_at d ep size now ev p binary = (put_peer d ep (binary_fail_peer d size now p), ev)
confirmed_fail_at d ep size now ev p revalidate =
    if p.large_alive then apply_anomaly d ep now ev else enter_recheck d ep ev
confirmed_fail_at d ep size now ev p recheck = apply_soft_down d ep now ev
confirmed_fail_at d ep size now ev p down_search =
    (put_peer d ep (downsearch_fail_peer d size now p), ev)
confirmed_fail_at d ep size now ev p plateau = (d, ev)
confirmed_fail_at d ep size now ev p frozen = (d, ev)

unfoldable pub apply_timeout_confirmed_fail :
    PathMtuDiscovery → SocketAddr → ℕ → ℕ → PmtudEventCounts → PathMtuDiscovery × PmtudEventCounts
apply_timeout_confirmed_fail d ep size now ev = elim (lookup ep d.peers) [
  | none ↦ (d, ev)
  | some p ↦ confirmed_fail_at d ep size now ev p p.phase
]

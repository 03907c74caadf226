-- ===== src/Pmtud/Ack.antt =====
-- `on_ack` and `on_send_hard_fail` (src/pmtud.rs).
use mint_connect_unit.Prelude.{
  ℕ, max, Bool, true, false, Option, none, some, leb, ltb, eqb, ◌&&◌, ◌||◌, not, if◌then◌else◌,
  saturating_mul_u64, is_some, [], ◌∷◌,
}
use mint_connect_unit.Prelude.Table.{Table, lookup, has_key}
use mint_connect_unit.Addr.{SocketAddr, same_ip, addr_key}
use mint_connect_unit.Pmtud.State.{
  PathMtuDiscovery, PeerState, Inflight, GraceProbe, PmtudEventCounts, Phase, plateau, raise,
  binary, revalidate, recheck, down_search, frozen, is_recheck, max_mtu, first_bad_sentinel,
  no_events,
}
use mint_connect_unit.Pmtud.Peer.{
  clamp_size, window_closed, raise_target, enter_plateau, finish_downsearch_plateau,
}
use mint_connect_unit.Pmtud.Fail.{
  recalc_min, put_peer, apply_soft_down, apply_timeout_confirmed_fail,
}

-- An acknowledgement: the size (clamped), the identifier and the generation that it names.
pub record Ack : Type 0 where
  pub size : ℕ
  pub probe_id : ℕ
  pub search_gen : ℕ

-- The two matches of the scan over the peers; the second is made only with no probe in flight.
abbrev pub inflight_match : Ack → PeerState → Option Inflight → Bool
inflight_match a p none = false
inflight_match a p (some inf) =
    eqb p.search_gen a.search_gen
    && (not (eqb inf.probe_id 0) && (eqb inf.probe_id a.probe_id && eqb inf.size a.size))

abbrev pub grace_match : Ack → ℕ → Option GraceProbe → Bool
grace_match a now none = false
grace_match a now (some g) =
    eqb g.probe_id a.probe_id
    && (eqb g.search_gen a.search_gen && (eqb g.size a.size && leb now g.deadline))

unfoldable pub ack_match : Ack → ℕ → PeerState → Bool
ack_match a now p =
    if is_some p.inflight then inflight_match a p p.inflight else grace_match a now p.grace

-- The scan: the one other endpoint with the same address whose probe the acknowledgement matches;
-- `none` where there is none, or a second one.
unfoldable pub ack_candidate :
    Ack → ℕ → SocketAddr → Option SocketAddr → Table SocketAddr PeerState → Option SocketAddr
unfolding ack_match
ack_candidate a now from found [] = found
ack_candidate a now from found ((ep, p) ∷ m) = elim (same_ip ep.ip from.ip && ack_match a now p) [
  | false ↦ ack_candidate a now from found m
  | true ↦ if is_some found then none else ack_candidate a now from (some ep) m
]

unfoldable pub resolve_ack : PathMtuDiscovery → Ack → ℕ → SocketAddr → Option SocketAddr
unfolding ack_candidate
resolve_ack d a now from =
    if has_key from d.peers then some from else ack_candidate a now from none d.peers

-- The new last good size, which may raise `stable`.
abbrev pub raise_stable : PeerState → PeerState
raise_stable p =
    if ltb p.stable p.last_good
    then record p { stable = p.last_good; consecutive_lower_campaigns = 0 }
    else p

-- The `match phase` of `on_ack`, on the peer with its probe taken.
unfoldable pub acked_raise : PathMtuDiscovery → ℕ → ℕ → PeerState → PeerState
acked_raise d sz now p =
    let up = raise_stable (record p { last_good = sz }) in
    let q : PeerState = record up { step = max (saturating_mul_u64 up.step 2) d.raise_step } in
    let topped : PeerState =
      if leb max_mtu q.last_good then record q { first_bad = first_bad_sentinel } else q in
    if is_some (raise_target q)
    then q
    else enter_plateau topped now d.raise_period d.raise_step d.stable_downgrade_batches

unfoldable pub acked_binary : PathMtuDiscovery → ℕ → ℕ → PeerState → PeerState
unfolding window_closed enter_plateau
acked_binary d sz now p =
    let q = raise_stable (record p { last_good = max sz p.last_good }) in
    if window_closed q d.resolve_epsilon
    then enter_plateau q now d.raise_period d.raise_step d.stable_downgrade_batches
    else q

unfoldable pub acked_downsearch : PathMtuDiscovery → ℕ → ℕ → PeerState → PeerState
unfolding window_closed finish_downsearch_plateau
acked_downsearch d sz now p =
    let q : PeerState = record p { last_good = max sz p.last_good; downsearch_got_ack = true } in
    if window_closed q d.resolve_epsilon
    then finish_downsearch_plateau q now d.raise_period d.raise_step d.stable_downgrade_batches
    else q

unfoldable pub acked_peer : PathMtuDiscovery → ℕ → ℕ → PeerState → Phase → PeerState
acked_peer d sz now p raise = acked_raise d sz now p
acked_peer d sz now p binary = acked_binary d sz now p
acked_peer d sz now p revalidate =
    enter_plateau p now d.raise_period d.raise_step d.stable_downgrade_batches
acked_peer d sz now p recheck =
    enter_plateau p now d.raise_period d.raise_step d.stable_downgrade_batches
acked_peer d sz now p down_search = acked_downsearch d sz now p
acked_peer d sz now p plateau = p
acked_peer d sz now p frozen = p

-- The state, whether the acknowledgement counted, whether the minimum changed, and the events.
abbrev pub AckResult : Type 0
AckResult = PathMtuDiscovery × Bool × Bool × PmtudEventCounts

abbrev pub ignored : PathMtuDiscovery → AckResult
ignored d = (d, false, false, no_events)

abbrev pub recovered : Bool → ℕ
recovered b = if b then 1 else 0

-- An acknowledgement within the grace window.
unfoldable pub ack_grace : PathMtuDiscovery → Ack → ℕ → SocketAddr → PeerState → AckResult
ack_grace d a now ep p =
    let q : PeerState = record p { grace = none; ever_acked = true } in
    let back = enter_plateau q now d.raise_period d.raise_step d.stable_downgrade_batches in
    if grace_match a now p.grace
    then (
      recalc_min (put_peer d ep back),
      true,
      false,
      record no_events {
        late_ack_events = 1;
        recheck_recovered_events = recovered (is_recheck p.phase);
      },
    )
    else ignored d

-- An acknowledgement of the probe in flight.
unfoldable pub ack_inflight : PathMtuDiscovery → Ack → ℕ → SocketAddr → PeerState → AckResult
ack_inflight d a now ep p =
    let q : PeerState = record p { inflight = none; grace = none; ever_acked = true } in
    let d' = recalc_min (put_peer d ep (acked_peer d a.size now q p.phase)) in
    if inflight_match a p p.inflight
    then (
      d',
      true,
      not (eqb d'.min_path_mtu d.min_path_mtu),
      record no_events { recheck_recovered_events = recovered (is_recheck p.phase) },
    )
    else ignored d

unfoldable pub ack_peer : PathMtuDiscovery → Ack → ℕ → SocketAddr → AckResult
ack_peer d a now ep = elim (lookup ep d.peers) [
  | none ↦ ignored d
  | some p ↦ if is_some p.inflight then ack_inflight d a now ep p else ack_grace d a now ep p
]

unfoldable pub on_ack : PathMtuDiscovery → SocketAddr → ℕ → ℕ → ℕ → ℕ → AckResult
on_ack d from size probe_id search_gen now =
    let a : Ack = record { size = clamp_size size; probe_id = probe_id; search_gen = search_gen } in
    if is_some d.pinned
    then ignored d
    else elim (resolve_ack d a now from) [ none ↦ ignored d | some ep ↦ ack_peer d a now ep ]

-- The `match phase` of `on_send_hard_fail`.
unfoldable pub hard_fail_at :
    PathMtuDiscovery
    → SocketAddr
    → ℕ
    → PeerState
    → Inflight
    → Phase
    → PathMtuDiscovery × PmtudEventCounts
hard_fail_at d ep now p inf revalidate =
    apply_soft_down (put_peer d ep (record p { inflight = none; grace = none })) ep now
      (record no_events { revalidate_fail_events = 1 })
hard_fail_at d ep now p inf recheck =
    apply_soft_down (put_peer d ep (record p { inflight = none; grace = none })) ep now no_events
hard_fail_at d ep now p inf _ = apply_timeout_confirmed_fail d ep inf.size now no_events

unfoldable pub hard_fail_of :
    PathMtuDiscovery → SocketAddr → ℕ → ℕ → PeerState → PathMtuDiscovery × PmtudEventCounts
hard_fail_of d ep probe_id now p = elim p.inflight [
  | none ↦ (d, no_events)
  | some inf ↦
      if not (eqb inf.probe_id probe_id) || eqb inf.probe_id 0
      then (d, no_events)
      else hard_fail_at d ep now p inf p.phase
]

unfoldable pub on_send_hard_fail :
    PathMtuDiscovery → SocketAddr → ℕ → ℕ → PathMtuDiscovery × PmtudEventCounts
on_send_hard_fail d ep probe_id now =
    if is_some d.pinned then (d, no_events) else elim (lookup ep d.peers) [
      | none ↦ (d, no_events)
      | some p ↦ hard_fail_of d ep probe_id now p
    ]

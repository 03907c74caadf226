-- ===== src/Pmtud/Peer.antt =====
-- The methods of `PeerState` and the helpers of `PathMtuDiscovery` that act on one peer
-- (src/pmtud.rs).
use mint_connect_unit.Prelude.{
  ℕ, ◌+◌, ◌-◌, ◌*◌, ◌/◌, ◌%◌, ◌^◌, min, max, Bool, true, false, Option, none, some, leb, ltb, ◌&&◌,
  if◌then◌else◌, clamp, wrapping_add_u32, saturating_add_u8, saturating_add_u32,
}
use mint_connect_unit.Pmtud.State.{
  PeerState, plateau, frozen, default_mtu, min_mtu, max_mtu, first_bad_sentinel,
  adaptive_timeout_cap, is_recheck,
}

-- `PeerState::new`
unfoldable pub new_peer : ℕ → ℕ → ℕ → PeerState
new_peer now raise_period raise_step = record {
  last_good = default_mtu;
  first_bad = first_bad_sentinel;
  stable = default_mtu;
  phase = plateau;
  step = raise_step;
  inflight = none;
  search_gen = 1;
  probes_used = 0;
  consecutive_lower_campaigns = 0;
  next_raise_at = now + raise_period;
  down_from_stable = none;
  last_revalidate_hint_at = none;
  last_early_wake_at = none;
  grace = none;
  downsearch_got_ack = false;
  rtt_us = none;
  large_alive = false;
  ever_acked = false;
}

-- `-` on the numbers stops at 0, as `saturating_sub` does.
unfoldable pub window_closed : PeerState → ℕ → Bool
window_closed p epsilon = leb (p.first_bad - p.last_good) epsilon

unfoldable pub abort_inflight : PeerState → PeerState
abort_inflight p = record p {
  inflight = none;
  grace = none;
  search_gen = wrapping_add_u32 p.search_gen 1;
}

abbrev pub clamp_size : ℕ → ℕ
clamp_size sz = clamp min_mtu max_mtu sz

-- `timeout_for_peer`; the first argument is the configured floor `probe_timeout`.
unfoldable pub timeout_for_peer : ℕ → PeerState → ℕ
timeout_for_peer floor p = elim p.rtt_us [
  | none ↦ floor
  | some us ↦ min (max ((4 * us + 500) / 1000) floor) adaptive_timeout_cap
]

-- The sum of two `usize` wraps.
unfoldable pub raise_target : PeerState → Option ℕ
raise_target p =
    let hi = min (p.first_bad - 1) max_mtu in
    let t = min ((p.last_good + p.step) % 2 ^ 64) hi in
    if leb max_mtu p.last_good
    then none
    else if leb hi p.last_good
    then none
    else if ltb p.last_good t
    then some t
    else none

unfoldable pub binary_target : PeerState → Option ℕ
binary_target p =
    let lo = p.last_good in
    let hi = p.first_bad in
    let mid = lo + (hi - lo) / 2 in
    if leb hi (lo + 1)
    then none
    else if ltb lo mid && ltb mid hi
    then some (clamp_size mid)
    else none

unfoldable pub enter_frozen : PeerState → ℕ → ℕ → PeerState
enter_frozen p now raise_period = record p {
  inflight = none;
  grace = none;
  phase = frozen;
  next_raise_at = now + raise_period;
  probes_used = 0;
}

-- The hysteresis of `enter_plateau`: what it does with `down_from_stable.take()`.
unfoldable pub settle_stable : PeerState → ℕ → PeerState
settle_stable p downgrade_batches = elim p.down_from_stable [
  | none ↦ p
  | some from ↦
      let lower = saturating_add_u8 p.consecutive_lower_campaigns 1 in
      if ltb p.last_good from
      then (if leb downgrade_batches lower
          then record p {
            down_from_stable = none;
            stable = p.last_good;
            consecutive_lower_campaigns = 0;
          }
          else record p { down_from_stable = none; consecutive_lower_campaigns = lower })
      else record p { down_from_stable = none; consecutive_lower_campaigns = 0 }
]

unfoldable pub enter_plateau : PeerState → ℕ → ℕ → ℕ → ℕ → PeerState
unfolding settle_stable
enter_plateau p now raise_period raise_step downgrade_batches =
    settle_stable
      (record p {
        inflight = none;
        grace = none;
        phase = plateau;
        next_raise_at = now + raise_period;
        probes_used = 0;
        step = raise_step;
      })
      downgrade_batches

unfoldable pub finish_downsearch_plateau : PeerState → ℕ → ℕ → ℕ → ℕ → PeerState
unfolding enter_plateau
finish_downsearch_plateau p now raise_period raise_step downgrade_batches =
    enter_plateau (if p.downsearch_got_ack then p else record p { first_bad = first_bad_sentinel })
      now raise_period raise_step downgrade_batches

-- The peer and whether it was frozen.
unfoldable pub maybe_budget_freeze : PeerState → ℕ → ℕ → ℕ → PeerState × Bool
unfolding enter_frozen
maybe_budget_freeze p now raise_period max_probes =
    if is_recheck p.phase
    then (p, false)
    else if leb max_probes p.probes_used
    then (enter_frozen p now raise_period, true)
    else (p, false)

unfoldable pub begin_probe : PeerState → ℕ → ℕ → ℕ → ℕ → PeerState
begin_probe p probe_id size deadline confirms = record p {
  grace = none;
  inflight = some (record {
    probe_id = probe_id;
    size = clamp_size size;
    deadline = deadline;
    confirms_left = confirms;
  });
  probes_used = saturating_add_u32 p.probes_used 1;
}

unfoldable pub soft_down_last_good : PeerState → ℕ
soft_down_last_good p =
    if ltb p.last_good p.stable then max min_mtu (p.last_good / 2) else max min_mtu (p.stable / 2)

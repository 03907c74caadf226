-- ===== src/Pmtud/Probe.antt =====
-- Probes that go out (src/pmtud.rs): `next_probe_id`, `issue_probe` and `on_timeout`.
use mint_connect_unit.Prelude.{
  ℕ, ◌+◌, ◌-◌, Bool, true, false, Option, none, some, leb, ltb, ◌||◌, if◌then◌else◌,
  wrapping_add_u32, saturating_add_u32, saturating_add_u64, is_some,
}
use mint_connect_unit.Prelude.Table.{lookup}
use mint_connect_unit.Addr.{SocketAddr, addr_key}
use mint_connect_unit.Pmtud.State.{
  PathMtuDiscovery, PeerState, Inflight, ProbeIntent, PmtudEventCounts, Phase, plateau, raise,
  binary, revalidate, recheck, down_search, frozen, is_recheck,
}
use mint_connect_unit.Pmtud.Peer.{
  clamp_size, window_closed, timeout_for_peer, raise_target, binary_target, enter_frozen,
  enter_plateau, finish_downsearch_plateau, maybe_budget_freeze, begin_probe,
}
use mint_connect_unit.Pmtud.Fail.{put_peer, apply_timeout_confirmed_fail}

-- The new state and the identifier.
unfoldable pub next_probe_id : PathMtuDiscovery → PathMtuDiscovery × ℕ
next_probe_id d =
    let id = wrapping_add_u32 d.probe_id_counter 1 in (record d { probe_id_counter = id }, id)

-- What `issue_probe` decides to do with a peer: nothing, put it in another phase, or probe a size.
pub data Choice : Type 0 where
  leave : Choice
  move_to : PeerState → Choice
  probe : ℕ → Choice

abbrev pub probe_target : Option ℕ → Choice
probe_target none = leave
probe_target (some size) = probe size

-- The `match peer.phase` of `issue_probe`.
unfoldable pub choose_size : PathMtuDiscovery → ℕ → PeerState → Phase → Choice
unfolding window_closed
choose_size d now p raise = probe_target (raise_target p)
choose_size d now p binary =
    if window_closed p d.resolve_epsilon
    then move_to (enter_plateau p now d.raise_period d.raise_step d.stable_downgrade_batches)
    else probe_target (binary_target p)
choose_size d now p down_search =
    if window_closed p d.resolve_epsilon
    then move_to
        (finish_downsearch_plateau p now d.raise_period d.raise_step d.stable_downgrade_batches)
    else probe_target (binary_target p)
choose_size d now p revalidate = probe (clamp_size p.stable)
choose_size d now p recheck = probe (clamp_size p.stable)
choose_size d now p plateau = leave
choose_size d now p frozen = leave

-- The guards of `issue_probe`, and then the choice.
unfoldable pub choose : PathMtuDiscovery → ℕ → PeerState → Choice
choose d now p =
    if is_some p.inflight || is_some p.grace
    then leave
    else (let (q, froze) = maybe_budget_freeze p now d.raise_period d.max_probes_per_search in
        if froze then move_to q else choose_size d now p p.phase)

-- The end of `issue_probe`: a fresh identifier, the probe in flight and the intent.
unfoldable pub send_probe :
    PathMtuDiscovery → SocketAddr → ℕ → PeerState → ℕ → PathMtuDiscovery × Option ProbeIntent
unfolding next_probe_id
send_probe d ep now p size =
    let (d', id) = next_probe_id d in
    let deadline = now + timeout_for_peer d.probe_timeout p in
    (
      put_peer d' ep (begin_probe p id size deadline d.confirm_count),
      some (record { peer = ep; size = size; probe_id = id; search_gen = p.search_gen }),
    )

unfoldable pub issue_probe :
    PathMtuDiscovery → SocketAddr → ℕ → PathMtuDiscovery × Option ProbeIntent
issue_probe d ep now = elim (lookup ep d.peers) [
  | none ↦ (d, none)
  | some p ↦ elim (choose d now p) [
    | leave ↦ (d, none)
    | move_to q ↦ (put_peer d ep q, none)
    | probe size ↦ send_probe d ep now p size
  ]
]

-- A probe that timed out and has confirmations left is sent again at the same size.
unfoldable pub resend_probe :
    PathMtuDiscovery → SocketAddr → ℕ → PeerState → Inflight → PathMtuDiscovery × Option ProbeIntent
unfolding next_probe_id
resend_probe d ep now p inf =
    let (d', id) = next_probe_id d in
    let again : Inflight = record inf {
      probe_id = id;
      deadline = now + timeout_for_peer d.probe_timeout p;
      confirms_left = inf.confirms_left - 1;
    } in
    (
      put_peer d' ep (record p { inflight = some again }),
      some (record { peer = ep; size = inf.size; probe_id = id; search_gen = p.search_gen }),
    )

-- The part of `on_timeout` for `confirms_left > 1`: the probe counts against the budget, but not in
-- `recheck`. The peer has no probe in flight (`take()`).
unfoldable pub retry_timeout :
    PathMtuDiscovery → SocketAddr → ℕ → PeerState → Inflight → PathMtuDiscovery × Option ProbeIntent
unfolding enter_frozen resend_probe
retry_timeout d ep now p inf =
    let used = saturating_add_u32 p.probes_used 1 in
    let counted : PeerState = record p { probes_used = used } in
    if is_recheck p.phase
    then resend_probe d ep now p inf
    else if leb d.max_probes_per_search used
    then (put_peer d ep (enter_frozen counted now d.raise_period), none)
    else resend_probe d ep now counted inf

abbrev pub wants_grace : Phase → Bool
wants_grace revalidate = true
wants_grace recheck = true
wants_grace _ = false

-- The final timeout: a grace window in `revalidate` and `recheck`, a failure elsewhere.
unfoldable pub final_timeout :
    PathMtuDiscovery
    → SocketAddr
    → ℕ
    → PeerState
    → Inflight
    → PmtudEventCounts
    → PathMtuDiscovery × PmtudEventCounts
final_timeout d ep now p inf ev =
    if wants_grace p.phase
    then (
      put_peer d ep (record p {
        grace = some (record {
          probe_id = inf.probe_id;
          size = inf.size;
          search_gen = p.search_gen;
          deadline = now + timeout_for_peer d.probe_timeout p;
        });
      }),
      ev,
    )
    else apply_timeout_confirmed_fail (put_peer d ep p) ep inf.size now ev

abbrev pub count_timeout : PmtudEventCounts → PmtudEventCounts
count_timeout ev = record ev { probe_timeouts = saturating_add_u64 ev.probe_timeouts 1 }

unfoldable pub timeout_of :
    PathMtuDiscovery
    → SocketAddr
    → ℕ
    → PmtudEventCounts
    → PeerState
    → Inflight
    → PathMtuDiscovery × Option ProbeIntent × PmtudEventCounts
timeout_of d ep now ev p inf =
    let taken : PeerState = record p { inflight = none } in
    if ltb 1 inf.confirms_left
    then (let (d', out) = retry_timeout d ep now taken inf in (d', out, count_timeout ev))
    else (let (d', ev') = final_timeout d ep now taken inf (count_timeout ev) in (d', none, ev'))

unfoldable pub on_timeout :
    PathMtuDiscovery
    → SocketAddr
    → ℕ
    → PmtudEventCounts
    → PathMtuDiscovery × Option ProbeIntent × PmtudEventCounts
on_timeout d ep now ev = elim (lookup ep d.peers) [
  | none ↦ (d, none, ev)
  | some p ↦ elim p.inflight [ none ↦ (d, none, ev) | some inf ↦ timeout_of d ep now ev p inf ]
]

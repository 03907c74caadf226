-- ===== src/Pmtud/Setup.antt =====
-- The other methods of `PathMtuDiscovery` (src/pmtud.rs): construction, tuning, pinning, hints and queries.
use mint_connect_unit.Prelude.{
  ℕ, ◌+◌, ◌-◌, ◌*◌, min, max, Bool, true, false, Option, none, some, ltb, ◌&&◌, ◌||◌, not,
  if◌then◌else◌, clamp, is_some, [], ◌∷◌,
}
use mint_connect_unit.Prelude.Table.{Table, lookup, remove, has_key, map_values}
use mint_connect_unit.Addr.{SocketAddr, addr_key}
use mint_connect_unit.Pmtud.State.{
  PathMtuDiscovery, PeerState, Phase, plateau, frozen, is_frozen, is_searching, default_mtu,
  min_mtu, max_mtu, first_bad_sentinel, min_adapter_payload_mtu, underlay_ipv4_udp_overhead,
  revalidate_hint_cooldown, early_wake_cooldown,
}
use mint_connect_unit.Pmtud.Peer.{new_peer, abort_inflight, clamp_size}
use mint_connect_unit.Pmtud.Fail.{recalc_min, put_peer}

-- `PmtudTuning` (src/advanced_tuning.rs), its defaults, and the part of `clamp` for it.
pub record PmtudTuning : Type 0 where
  pub probe_timeout_ms : ℕ
  pub confirm_count : ℕ
  pub resolve_epsilon : ℕ
  pub raise_step : ℕ
  pub max_probes_per_search : ℕ
  pub max_concurrent_peers : ℕ
  pub stable_downgrade_batches : ℕ

abbrev pub default_tuning : PmtudTuning
default_tuning = record {
  probe_timeout_ms = 500;
  confirm_count = 3;
  resolve_epsilon = 4;
  raise_step = 32;
  max_probes_per_search = 64;
  max_concurrent_peers = 4;
  stable_downgrade_batches = 4;
}

unfoldable pub clamp_tuning : PmtudTuning → PmtudTuning
clamp_tuning t = record {
  probe_timeout_ms = clamp 50 10000 t.probe_timeout_ms;
  confirm_count = clamp 1 8 t.confirm_count;
  resolve_epsilon = clamp 1 8 t.resolve_epsilon;
  raise_step = clamp 1 512 t.raise_step;
  max_probes_per_search = clamp 8 256 t.max_probes_per_search;
  max_concurrent_peers = clamp 1 64 t.max_concurrent_peers;
  stable_downgrade_batches = max t.stable_downgrade_batches 1;
}

-- `PathMtuDiscovery::new`; `TimerTuning::default` gives 60 seconds for the raise period.
unfoldable pub new : PathMtuDiscovery
new = record {
  peers = [];
  min_path_mtu = default_mtu;
  pinned = none;
  probe_id_counter = 0;
  rr_cursor = 0;
  probe_timeout = default_tuning.probe_timeout_ms;
  confirm_count = default_tuning.confirm_count;
  resolve_epsilon = default_tuning.resolve_epsilon;
  raise_step = default_tuning.raise_step;
  max_probes_per_search = default_tuning.max_probes_per_search;
  max_concurrent_peers = default_tuning.max_concurrent_peers;
  stable_downgrade_batches = default_tuning.stable_downgrade_batches;
  raise_period = 60000;
}

-- What `apply_tuning` does to each peer.
unfoldable pub retune_peer : ℕ → ℕ → ℕ → PeerState → PeerState
unfolding abort_inflight
retune_peer now raise_period raise_step p =
    let q : PeerState = record (abort_inflight p) { step = raise_step; probes_used = 0 } in
    if is_searching p.phase
    then record q { phase = plateau; next_raise_at = now + raise_period }
    else q

unfoldable pub apply_tuning : PathMtuDiscovery → PmtudTuning → ℕ → PathMtuDiscovery
unfolding retune_peer
apply_tuning d t now =
    let e : PathMtuDiscovery = record d {
      probe_timeout = t.probe_timeout_ms;
      confirm_count = t.confirm_count;
      resolve_epsilon = t.resolve_epsilon;
      raise_step = t.raise_step;
      max_probes_per_search = t.max_probes_per_search;
      max_concurrent_peers = t.max_concurrent_peers;
      stable_downgrade_batches = t.stable_downgrade_batches;
    } in
    if is_some d.pinned
    then e
    else record e { peers = map_values (retune_peer now d.raise_period t.raise_step) d.peers }

unfoldable pub set_raise_period : PathMtuDiscovery → ℕ → PathMtuDiscovery
set_raise_period d secs = record d { raise_period = max secs 1 * 1000 }

-- What pinning at `m` does to each peer.
unfoldable pub pin_peer : ℕ → ℕ → ℕ → PeerState → PeerState
unfolding abort_inflight
pin_peer now raise_period m p = record (abort_inflight p) {
  last_good = m;
  stable = m;
  first_bad = min (m + 1) first_bad_sentinel;
  phase = frozen;
  probes_used = 0;
  next_raise_at = now + raise_period;
  down_from_stable = none;
  downsearch_got_ack = false;
}

unfoldable pub set_pinned : PathMtuDiscovery → Option ℕ → ℕ → PathMtuDiscovery
unfolding pin_peer
set_pinned d (some m) now =
    let size = clamp_size m in
    record d {
      pinned = some size;
      min_path_mtu = size;
      peers = map_values (pin_peer now d.raise_period size) d.peers;
    }
set_pinned d none now = record d {
  pinned = none;
  min_path_mtu = default_mtu;
  peers = map_values (λ p. new_peer now d.raise_period d.raise_step) d.peers;
}

-- The sums of `saturating_add` stay far below the largest `usize`.
unfoldable pub path_mtu_from_adapter : ℕ → ℕ → ℕ
path_mtu_from_adapter adapter_mtu enc_overhead =
    clamp min_mtu max_mtu
      (clamp min_mtu max_mtu adapter_mtu + underlay_ipv4_udp_overhead + enc_overhead)

unfoldable pub remove_peer : PathMtuDiscovery → SocketAddr → PathMtuDiscovery
remove_peer d ep =
    if has_key ep d.peers then recalc_min (record d { peers = remove ep d.peers }) else d

unfoldable pub peer_last_good : PathMtuDiscovery → SocketAddr → Option ℕ
peer_last_good d ep = elim (lookup ep d.peers) [ none ↦ none | some p ↦ some p.last_good ]

unfoldable pub udp_payload_budget : PathMtuDiscovery → SocketAddr → ℕ
unfolding peer_last_good
udp_payload_budget d ep = elim (peer_last_good d ep) [
  | none ↦ d.min_path_mtu - underlay_ipv4_udp_overhead
  | some m ↦ m - underlay_ipv4_udp_overhead
]

unfoldable pub suggested_adapter_mtu : PathMtuDiscovery → ℕ → ℕ
suggested_adapter_mtu d enc_overhead =
    clamp min_adapter_payload_mtu max_mtu
      (d.min_path_mtu - (underlay_ipv4_udp_overhead + enc_overhead))

unfoldable pub seed_peer : ℕ → ℕ → PeerState → PeerState
seed_peer m now p = record p {
  last_good = m;
  stable = m;
  first_bad = min (m + 1) first_bad_sentinel;
  phase = plateau;
  next_raise_at = now;
  inflight = none;
  grace = none;
  probes_used = 0;
}

-- `entry(peer).or_insert_with(PeerState::new)`
unfoldable pub entry_or_new : PathMtuDiscovery → SocketAddr → ℕ → PeerState
unfolding new_peer
entry_or_new d ep now = elim (lookup ep d.peers) [
  | none ↦ new_peer now d.raise_period d.raise_step
  | some p ↦ p
]

unfoldable pub seed_plateau_at : PathMtuDiscovery → SocketAddr → ℕ → ℕ → PathMtuDiscovery
unfolding seed_peer entry_or_new
seed_plateau_at d ep mtu now =
    recalc_min (put_peer d ep (seed_peer (clamp_size mtu) now (entry_or_new d ep now)))

abbrev pub cooling : ℕ → ℕ → Option ℕ → Bool
cooling now cooldown none = false
cooling now cooldown (some prev) = ltb (now - prev) cooldown

abbrev pub is_idle : Phase → Bool
is_idle plateau = true
is_idle frozen = true
is_idle _ = false

unfoldable pub request_revalidate : PathMtuDiscovery → SocketAddr → ℕ → PathMtuDiscovery × Bool
request_revalidate d ep now = if is_some d.pinned then (d, false) else elim (lookup ep d.peers) [
  | none ↦ (d, false)
  | some p ↦
      if cooling now revalidate_hint_cooldown p.last_revalidate_hint_at || not (is_idle p.phase)
      then (d, false)
      else (
        put_peer d ep (record p { next_raise_at = now; last_revalidate_hint_at = some now }),
        true,
      )
]

unfoldable pub request_early_wake : PathMtuDiscovery → SocketAddr → ℕ → PathMtuDiscovery × Bool
request_early_wake d ep now = if is_some d.pinned then (d, false) else elim (lookup ep d.peers) [
  | none ↦ (d, false)
  | some p ↦
      if cooling now early_wake_cooldown p.last_early_wake_at || not (is_idle p.phase)
      then (d, false)
      else (put_peer d ep (record p { next_raise_at = now; last_early_wake_at = some now }), true)
]

unfoldable pub needs_fast_tick : Table SocketAddr PeerState → Bool
needs_fast_tick [] = false
needs_fast_tick ((ep, p) ∷ m) =
    (is_some p.inflight
      || (is_some p.grace
          || (is_searching p.phase || (is_frozen p.phase && not (is_some p.inflight)))))
    || needs_fast_tick m

-- `next_deadline`: what one peer adds to the running minimum.
abbrev pub due_inflight : ℕ → PeerState → ℕ
due_inflight next p = elim p.inflight [ none ↦ next | some inf ↦ min next inf.deadline ]

abbrev pub due_grace : ℕ → PeerState → ℕ
due_grace next p = elim p.grace [ none ↦ next | some g ↦ min next g.deadline ]

unfoldable pub due_peers : ℕ → ℕ → Table SocketAddr PeerState → ℕ
due_peers now next [] = next
due_peers now next ((ep, p) ∷ m) =
    let waited = due_grace (due_inflight next p) p in
    due_peers now (min waited (if is_searching p.phase then now else p.next_raise_at)) m

-- The three ends of the source's function give the same value.
unfoldable pub next_deadline : PathMtuDiscovery → ℕ → ℕ
unfolding due_peers
next_deadline d now = due_peers now (now + d.raise_period) d.peers

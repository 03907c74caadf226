-- ===== src/Pmtud/State.antt =====
-- The state of path MTU discovery: the types and constants of src/pmtud.rs. An instant and a duration are
-- a number of milliseconds. `rtt_us` stands for the `f64` milliseconds of `rtt_ms`, in microseconds,
-- and `none` for a negative value, which the source reads as unknown.
use mint_connect_unit.Prelude.{ℕ, ◌+◌, Bool, true, false, Option}
use mint_connect_unit.Prelude.Table.{Table}
use mint_connect_unit.Addr.{SocketAddr}

abbrev pub default_mtu : ℕ
default_mtu = 1220

abbrev pub min_mtu : ℕ
min_mtu = 576

abbrev pub max_mtu : ℕ
max_mtu = 1500

abbrev pub first_bad_sentinel : ℕ
first_bad_sentinel = max_mtu + 1

abbrev pub min_adapter_payload_mtu : ℕ
min_adapter_payload_mtu = 280

abbrev pub underlay_ipv4_udp_overhead : ℕ
underlay_ipv4_udp_overhead = 28

abbrev pub revalidate_hint_cooldown : ℕ
revalidate_hint_cooldown = 5000

abbrev pub early_wake_cooldown : ℕ
early_wake_cooldown = 10000

abbrev pub anomaly_rearm_cap : ℕ
anomaly_rearm_cap = 5000

abbrev pub adaptive_timeout_cap : ℕ
adaptive_timeout_cap = 5000

pub data Phase : Type 0 where
  plateau raise binary revalidate recheck down_search frozen : Phase

unfoldable pub is_searching : Phase → Bool
is_searching plateau = false
is_searching frozen = false
is_searching _ = true

abbrev pub is_recheck : Phase → Bool
is_recheck recheck = true
is_recheck _ = false

abbrev pub is_frozen : Phase → Bool
is_frozen frozen = true
is_frozen _ = false

pub record Inflight : Type 0 where
  pub probe_id : ℕ
  pub size : ℕ
  pub deadline : ℕ
  pub confirms_left : ℕ

pub record GraceProbe : Type 0 where
  pub probe_id : ℕ
  pub size : ℕ
  pub search_gen : ℕ
  pub deadline : ℕ

pub record PeerState : Type 0 where
  pub last_good : ℕ
  pub first_bad : ℕ
  pub stable : ℕ
  pub phase : Phase
  pub step : ℕ
  pub inflight : Option Inflight
  pub search_gen : ℕ
  pub probes_used : ℕ
  pub consecutive_lower_campaigns : ℕ
  pub next_raise_at : ℕ
  pub down_from_stable : Option ℕ
  pub last_revalidate_hint_at : Option ℕ
  pub last_early_wake_at : Option ℕ
  pub grace : Option GraceProbe
  pub downsearch_got_ack : Bool
  pub rtt_us : Option ℕ
  pub large_alive : Bool
  pub ever_acked : Bool

pub record ProbeIntent : Type 0 where
  pub peer : SocketAddr
  pub size : ℕ
  pub probe_id : ℕ
  pub search_gen : ℕ

pub record SizeHealth : Type 0 where
  pub warm : Bool
  pub large_alive : Bool
  pub large_collapsed : Bool

pub record PmtudEventCounts : Type 0 where
  pub probe_timeouts : ℕ
  pub revalidate_fail_events : ℕ
  pub recheck_recovered_events : ℕ
  pub softdown_events : ℕ
  pub probe_anomaly_events : ℕ
  pub late_ack_events : ℕ
  pub early_wake_events : ℕ

abbrev pub no_events : PmtudEventCounts
no_events = record {
  probe_timeouts = 0;
  revalidate_fail_events = 0;
  recheck_recovered_events = 0;
  softdown_events = 0;
  probe_anomaly_events = 0;
  late_ack_events = 0;
  early_wake_events = 0;
}

pub record PeerTickInput : Type 0 where
  pub addr : SocketAddr
  pub health : SizeHealth
  pub rtt_us : Option ℕ

pub record PathMtuDiscovery : Type 0 where
  pub peers : Table SocketAddr PeerState
  pub min_path_mtu : ℕ
  pub pinned : Option ℕ
  pub probe_id_counter : ℕ
  pub rr_cursor : ℕ
  pub probe_timeout : ℕ
  pub confirm_count : ℕ
  pub resolve_epsilon : ℕ
  pub raise_step : ℕ
  pub max_probes_per_search : ℕ
  pub max_concurrent_peers : ℕ
  pub stable_downgrade_batches : ℕ
  pub raise_period : ℕ

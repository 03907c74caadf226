-- ===== src/Pmtud/Tests.antt =====
-- Runs of path MTU discovery (src/pmtud.rs) and instances of the theorems about it.
use mint_connect_unit.Addr.{
  IpAddr, SocketAddr, addr_key, is_rfc1918_private_ip, same_addr_iff, same_ip,
}
use mint_connect_unit.Pmtud.Ack.{Ack, ignored, on_ack}
use mint_connect_unit.Pmtud.Answers.{Answers, on_ack-Answers}
use mint_connect_unit.Pmtud.Exchange.{answer, exchange}
use mint_connect_unit.Pmtud.Fail.{
  apply_timeout_confirmed_fail, binary_fail_peer, confirmed_fail_at, min_last_good, recalc_min,
  soft_down_peer,
}
use mint_connect_unit.Pmtud.FailInv.{Inv}
use mint_connect_unit.Pmtud.GraceInv.{confirmed_fail_frame}
use mint_connect_unit.Pmtud.Inv.{Bounds}
use mint_connect_unit.Pmtud.Issued.{issue_probe-Acked, issue_probes-cap}
use mint_connect_unit.Pmtud.Limits.{
  Acts, IsLeast, recalc_min-IsLeast, search_never_stuck, soft_down_floor,
}
use mint_connect_unit.Pmtud.Peer.{
  begin_probe, binary_target, clamp_size, maybe_budget_freeze, new_peer, raise_target,
}
use mint_connect_unit.Pmtud.Pinned.{adapter_roundtrip, pin_holds}
use mint_connect_unit.Pmtud.Probe.{
  choose, choose_size, final_timeout, issue_probe, next_probe_id, on_timeout, retry_timeout,
  send_probe, timeout_of,
}
use mint_connect_unit.Pmtud.Run.{Event, history-Inv, run, step}
use mint_connect_unit.Pmtud.Search.{bisect_finds_limit}
use mint_connect_unit.Pmtud.Setup.{
  new, path_mtu_from_adapter, set_pinned, suggested_adapter_mtu, udp_payload_budget,
}
use mint_connect_unit.Pmtud.State.{
  PathMtuDiscovery, PeerState, PeerTickInput, ProbeIntent, binary, default_mtu, frozen,
  is_searching, min_mtu, no_events, plateau, raise, underlay_ipv4_udp_overhead,
}
use mint_connect_unit.Pmtud.Tick.{
  any_stale, contains_addr, drop_stale, ensured_peer, expire_grace, grace_expired, heal_peers,
  heal_unacked_private_floor, input_addrs, issue_probes, note_input, note_inputs, on_tick,
  run_timeouts, start_at, start_peer, start_phases, tick_unpinned, timed_out, wanting, wants_probe,
}
use mint_connect_unit.Prelude.{
  List, [], arith, false, length, max, min, none, not, refl, some, true, ℕ, ◌&&◌, ◌+◌, ◌-◌, ◌/◌,
  ◌<◌, ◌∷◌, ◌≡◌, ◌≤◌, ◌⊎◌,
}
use mint_connect_unit.Prelude.Table.{insert, lookup}

abbrev ep_a : SocketAddr
ep_a = record { ip = IpAddr.v4 0x0a000001; port = 4000 }

abbrev ep_b : SocketAddr
ep_b = record { ip = IpAddr.v4 0x08080808; port = 4000 }

abbrev input_a : PeerTickInput
input_a = record {
  addr = ep_a;
  health = record { warm = true; large_alive = false; large_collapsed = false };
  rtt_us = none;
}

abbrev peer_new : PeerState
peer_new = record {
  last_good = 1220;
  first_bad = 1501;
  stable = 1220;
  phase = plateau;
  step = 32;
  inflight = none;
  search_gen = 1;
  probes_used = 0;
  consecutive_lower_campaigns = 0;
  next_raise_at = 60000;
  down_from_stable = none;
  last_revalidate_hint_at = none;
  last_early_wake_at = none;
  grace = none;
  downsearch_got_ack = false;
  rtt_us = none;
  large_alive = false;
  ever_acked = false;
}

abbrev disco : PathMtuDiscovery
disco = record {
  peers = [];
  min_path_mtu = 1220;
  pinned = none;
  probe_id_counter = 0;
  rr_cursor = 0;
  probe_timeout = 500;
  confirm_count = 3;
  resolve_epsilon = 4;
  raise_step = 32;
  max_probes_per_search = 64;
  max_concurrent_peers = 4;
  stable_downgrade_batches = 4;
  raise_period = 60000;
}

abbrev peer_raising : PeerState
peer_raising = record peer_new { phase = raise }

abbrev with_a : PathMtuDiscovery
with_a = record disco { peers = (ep_a, peer_raising) ∷ [] }

abbrev peer_bisecting : PeerState
peer_bisecting = record peer_new { phase = binary; first_bad = 1500 }

-- The peer of a first tick is found again, and a peer that the tick does not name is forgotten.
forgets : (run disco (Event.tick 0 (input_a ∷ []) ∷ Event.tick 1 [] ∷ [])).peers ≡ []
unfolding run step on_tick tick_unpinned heal_unacked_private_floor heal_peers drop_stale
    contains_addr any_stale input_addrs note_inputs note_input ensured_peer new_peer expire_grace
    grace_expired run_timeouts timed_out start_phases start_at start_peer wanting wants_probe
    issue_probes recalc_min min_last_good lookup insert is_rfc1918_private_ip
forgets = refl

history-Inv_example : Inv (
    run new (
      Event.tick 0 (input_a ∷ [])
      ∷ Event.tick 60000 (input_a ∷ [])
      ∷ Event.ack ep_a 1252 1 2 60100
      ∷ []))
history-Inv_example = history-Inv (
    Event.tick 0 (input_a ∷ [])
    ∷ Event.tick 60000 (input_a ∷ [])
    ∷ Event.ack ep_a 1252 1 2 60100
    ∷ [])

peer_bisecting-Bounds : Bounds peer_bisecting
peer_bisecting-Bounds = ground arith

abbrev bisecting : PathMtuDiscovery
bisecting = record disco { peers = (ep_a, peer_bisecting) ∷ [] }

abbrev seconds : List ℕ
seconds =
    0 ∷ 1 ∷ 2 ∷ 3 ∷ 4 ∷ 5 ∷ 6 ∷ 7 ∷ 8 ∷ 9 ∷ 10 ∷ 11 ∷ 12 ∷ 13 ∷ 14 ∷ 15 ∷ 16 ∷ 17 ∷ 18 ∷ 19 ∷ 20
    ∷ 21 ∷ 22 ∷ 23 ∷ 24 ∷ 25 ∷ 26 ∷ 27 ∷ 28 ∷ 29 ∷ 30 ∷ 31 ∷ 32 ∷ 33 ∷ 34 ∷ 35 ∷ 36 ∷ 37 ∷ 38 ∷ 39
    ∷ []

-- With three sends for each size and a budget of twelve probes, the bisection is frozen where it began, below what
-- the path carries.
frozen_early :
    (q : PeerState) × (lookup ep_a
        (exchange 1225 ep_a (record bisecting { max_probes_per_search = 12 }) seconds).peers
      ≡ some q)
    × (q.phase ≡ frozen)
    × (q.last_good ≡ 1220)
unfolding lookup exchange answer issue_probe choose maybe_budget_freeze choose_size binary_target
    send_probe insert begin_probe on_timeout timeout_of retry_timeout final_timeout
    apply_timeout_confirmed_fail confirmed_fail_at binary_fail_peer
frozen_early = (_, refl, refl, refl)

bisect_finds_limit_example :
    (q : PeerState) × (lookup ep_a (exchange 1225 ep_a bisecting seconds).peers ≡ some q)
    × (q.phase ≡ plateau)
    × (q.last_good ≤ 1225)
    × (1225 < q.last_good + 4)
unfolding lookup
bisect_finds_limit_example =
    bisect_finds_limit bisecting ep_a peer_bisecting 1225 seconds refl refl peer_bisecting-Bounds
      refl refl refl (omega arith) (omega arith) (omega arith) (omega arith) (omega arith)
      (omega arith) (omega arith)

on_ack-Answers_example :
    let r = on_ack with_a ep_a 1252 1 1 10 in
    let a : Ack = record { size = clamp_size 1252; probe_id = 1; search_gen = 1 } in
    (r ≡ ignored with_a)
    ⊎ ((false ≡ false)
        × (ep : SocketAddr) × (same_ip ep.ip ep_a.ip ≡ true)
        × Answers with_a a 10 ep r)
on_ack-Answers_example = on_ack-Answers with_a ep_a 1252 1 1 10

abbrev intent_1 : ProbeIntent
intent_1 = record { peer = ep_a; size = 1252; probe_id = 1; search_gen = 1 }

issue_probe-Acked_example : (on_ack (issue_probe with_a ep_a 0).0 ep_a 1252 1 1 100).1 ≡ true
unfolding issue_probe choose choose_size maybe_budget_freeze raise_target send_probe next_probe_id
    lookup
issue_probe-Acked_example = issue_probe-Acked with_a ep_a 0 100 intent_1 refl refl refl

issue_probes-cap_example : length (issue_probes with_a 0 (ep_a ∷ []) []).1 ≤ max 0 4
issue_probes-cap_example = issue_probes-cap with_a 0 (ep_a ∷ []) []

with_a-Inv : Inv with_a
unfolding raise_target
with_a-Inv = ground arith

search_never_stuck_example :
    (wants_probe peer_raising raise ≡ true) × Acts peer_raising raise (choose with_a 0 peer_raising)
unfolding lookup is_searching
search_never_stuck_example = search_never_stuck with_a ep_a 0 peer_raising with_a-Inv refl refl refl

recalc_min-IsLeast_example : IsLeast (recalc_min with_a).min_path_mtu (peer_raising ∷ [])
recalc_min-IsLeast_example = recalc_min-IsLeast with_a refl

soft_down_floor_example :
    let q = soft_down_peer disco ep_a 0 peer_new in
    (min_mtu ≤ q.last_good)
    × ((is_rfc1918_private_ip ep_a.ip && not false) ≡ true → default_mtu ≤ q.last_good)
    × ((is_rfc1918_private_ip ep_a.ip && not false) ≡ false
        → q.last_good ≤ max min_mtu (min 1220 1220 / 2))
soft_down_floor_example = soft_down_floor disco ep_a 0 peer_new

pin_holds_example :
    let q =
      run (set_pinned with_a (some 1400) 0) (Event.tick 5 [] ∷ Event.ack ep_a 1252 1 1 6 ∷ []) in
    (q.min_path_mtu ≡ clamp_size 1400)
    × (udp_payload_budget q ep_a ≡ clamp_size 1400 - underlay_ipv4_udp_overhead)
pin_holds_example =
    pin_holds with_a 1400 0 (Event.tick 5 [] ∷ Event.ack ep_a 1252 1 1 6 ∷ []) ep_a (tt, (tt, tt))

adapter_roundtrip_example :
    suggested_adapter_mtu (set_pinned with_a (some (path_mtu_from_adapter 1400 23)) 0) 23 ≡ 1400
adapter_roundtrip_example = adapter_roundtrip with_a 1400 23 0 (omega arith) (omega arith)

confirmed_fail_frame_example :
    lookup ep_b (apply_timeout_confirmed_fail with_a ep_a 1252 0 no_events).0.peers
    ≡ lookup ep_b with_a.peers
confirmed_fail_frame_example =
    confirmed_fail_frame with_a ep_a ep_b 1252 0 no_events
      (λ e. absurd (cc ((same_addr_iff ep_a ep_b).1 e)))

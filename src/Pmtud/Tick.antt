-- ===== src/Pmtud/Tick.antt =====
-- `PathMtuDiscovery::on_tick` (src/pmtud.rs), one function for each of its loops in the code's order.
-- A loop over the keys of the hash map runs in the order of the table's entries.
use mint_connect_unit.Prelude.{
  ℕ, zero, suc, ◌+◌, ◌-◌, ◌%◌, ◌^◌, min, max, Bool, true, false, Option, none, some, leb, ltb, eqb,
  ◌&&◌, ◌||◌, not, if◌then◌else◌, wrapping_add_u32, is_some, List, [], ◌∷◌, ◌++◌, length, get_elem?,
}
use mint_connect_unit.Prelude.Table.{Table, lookup, retain}
use mint_connect_unit.Addr.{SocketAddr, is_rfc1918_private_ip, same_addr, addr_key}
use mint_connect_unit.Pmtud.State.{
  PathMtuDiscovery, PeerState, Inflight, GraceProbe, ProbeIntent, PmtudEventCounts, PeerTickInput,
  Phase, plateau, raise, binary, revalidate, recheck, down_search, frozen, default_mtu, min_mtu,
  first_bad_sentinel, no_events,
}
use mint_connect_unit.Pmtud.Peer.{new_peer, raise_target, binary_target}
use mint_connect_unit.Pmtud.Fail.{recalc_min, put_peer, apply_timeout_confirmed_fail}
use mint_connect_unit.Pmtud.Probe.{issue_probe, on_timeout, count_timeout}

-- The peers that `heal_unacked_private_floor` lifts, and what becomes of one.
unfoldable pub needs_heal : SocketAddr → PeerState → Bool
needs_heal ep p = is_rfc1918_private_ip ep.ip && not p.ever_acked && ltb p.last_good default_mtu

unfoldable pub healed_peer : ℕ → ℕ → PeerState → PeerState
healed_peer now raise_step p = record p {
  last_good = default_mtu;
  stable = default_mtu;
  first_bad = first_bad_sentinel;
  inflight = none;
  grace = none;
  search_gen = wrapping_add_u32 p.search_gen 1;
  phase = plateau;
  next_raise_at = now;
  probes_used = 0;
  step = raise_step;
  down_from_stable = none;
  downsearch_got_ack = false;
  consecutive_lower_campaigns = 0;
}

-- The loop, with the flag `healed`.
unfoldable pub heal_peers : ℕ → ℕ → Table SocketAddr PeerState → Table SocketAddr PeerState × Bool
unfolding needs_heal healed_peer
heal_peers now raise_step [] = ([], false)
heal_peers now raise_step ((ep, p) ∷ m) =
    let (rest, healed) = heal_peers now raise_step m in
    if needs_heal ep p
    then ((ep, healed_peer now raise_step p) ∷ rest, true)
    else ((ep, p) ∷ rest, healed)

unfoldable pub heal_unacked_private_floor : PathMtuDiscovery → ℕ → PathMtuDiscovery
unfolding heal_peers
heal_unacked_private_floor d now =
    let (m, healed) = heal_peers now d.raise_step d.peers in
    let e : PathMtuDiscovery = record d { peers = m } in if healed then recalc_min e else e

unfoldable pub contains_addr : SocketAddr → List SocketAddr → Bool
contains_addr a [] = false
contains_addr a (b ∷ bs) = same_addr b a || contains_addr a bs

unfoldable pub input_addrs : List PeerTickInput → List SocketAddr
input_addrs [] = []
input_addrs (i ∷ is) = i.addr ∷ input_addrs is

unfoldable pub any_stale : List SocketAddr → Table SocketAddr PeerState → Bool
unfolding contains_addr
any_stale active [] = false
any_stale active ((ep, p) ∷ m) = not (contains_addr ep active) || any_stale active m

-- Peers that the tick does not name are forgotten.
unfoldable pub drop_stale : PathMtuDiscovery → List SocketAddr → PathMtuDiscovery
unfolding contains_addr any_stale
drop_stale d active =
    let e : PathMtuDiscovery = record d {
      peers = retain (λ ep p. contains_addr ep active) d.peers;
    } in
    if any_stale active d.peers then recalc_min e else e

-- A peer that `ensure_peer` finds or makes. While pinned it is made frozen at the pinned size.
unfoldable pub ensured_peer : PathMtuDiscovery → SocketAddr → ℕ → PeerState
unfolding new_peer
ensured_peer d ep now = elim (lookup ep d.peers) [
  | some p ↦ p
  | none ↦ elim d.pinned [
    | none ↦ new_peer now d.raise_period d.raise_step
    | some m ↦ record (new_peer now d.raise_period d.raise_step) {
      last_good = m;
      stable = m;
      first_bad = min (m + 1) first_bad_sentinel;
      phase = frozen;
    }
  ]
]

unfoldable pub note_input : PathMtuDiscovery → ℕ → PeerTickInput → PathMtuDiscovery
note_input d now i = put_peer d i.addr (record (ensured_peer d i.addr now) {
  rtt_us = i.rtt_us;
  large_alive = i.health.warm && i.health.large_alive;
})

unfoldable pub note_inputs : PathMtuDiscovery → ℕ → List PeerTickInput → PathMtuDiscovery
unfolding note_input
note_inputs d now [] = d
note_inputs d now (i ∷ is) = note_inputs (note_input d now i) now is

-- The peers whose grace window is over.
abbrev pub grace_over : ℕ → Option GraceProbe → Bool
grace_over now none = false
grace_over now (some g) = leb g.deadline now

unfoldable pub grace_expired : ℕ → Table SocketAddr PeerState → List SocketAddr
grace_expired now [] = []
grace_expired now ((ep, p) ∷ m) =
    let rest = grace_expired now m in if grace_over now p.grace then ep ∷ rest else rest

abbrev pub grace_size : Option GraceProbe → ℕ
grace_size none = min_mtu
grace_size (some g) = g.size

unfoldable pub expire_grace_of :
    PathMtuDiscovery → SocketAddr → ℕ → PmtudEventCounts → PathMtuDiscovery × PmtudEventCounts
expire_grace_of d ep now ev = elim (lookup ep d.peers) [
  | none ↦ apply_timeout_confirmed_fail d ep min_mtu now (count_timeout ev)
  | some p ↦
      apply_timeout_confirmed_fail (put_peer d ep (record p { grace = none })) ep
        (grace_size p.grace) now (count_timeout ev)
]

unfoldable pub expire_grace :
    PathMtuDiscovery → List SocketAddr → ℕ → PmtudEventCounts → PathMtuDiscovery × PmtudEventCounts
unfolding expire_grace_of
expire_grace d [] now ev = (d, ev)
expire_grace d (ep ∷ eps) now ev =
    let (d', ev') = expire_grace_of d ep now ev in expire_grace d' eps now ev'

-- The peers whose probe timed out. A probe with identifier 0 never does.
abbrev pub probe_over : ℕ → Option Inflight → Bool
probe_over now none = false
probe_over now (some inf) = leb inf.deadline now && not (eqb inf.probe_id 0)

unfoldable pub timed_out : ℕ → Table SocketAddr PeerState → List SocketAddr
timed_out now [] = []
timed_out now ((ep, p) ∷ m) =
    let rest = timed_out now m in if probe_over now p.inflight then ep ∷ rest else rest

abbrev pub push_intent : Option ProbeIntent → List ProbeIntent → List ProbeIntent
push_intent none xs = xs
push_intent (some x) xs = x ∷ xs

unfoldable pub run_timeouts :
    PathMtuDiscovery
    → List SocketAddr
    → ℕ
    → PmtudEventCounts
    → PathMtuDiscovery × List ProbeIntent × PmtudEventCounts
run_timeouts d [] now ev = (d, [], ev)
run_timeouts d (ep ∷ eps) now ev =
    let (d', out, ev') = on_timeout d ep now ev in
    let (d'', intents, ev'') = run_timeouts d' eps now ev' in (d'', push_intent out intents, ev'')

abbrev pub search_phase : PeerState → Phase
search_phase p = if is_some (raise_target p) then raise else revalidate

-- A due `plateau` or `frozen` peer starts a new search.
unfoldable pub start_peer : ℕ → ℕ → PeerState → Phase → PeerState
start_peer now raise_step p plateau =
    let q : PeerState = record p {
      probes_used = 0;
      step = raise_step;
      search_gen = wrapping_add_u32 p.search_gen 1;
    } in
    if leb p.next_raise_at now then record q { phase = search_phase q } else p
start_peer now raise_step p frozen =
    let q : PeerState = record p {
      step = raise_step;
      probes_used = 0;
      search_gen = wrapping_add_u32 p.search_gen 1;
      next_raise_at = now;
    } in
    if leb p.next_raise_at now then record q { phase = search_phase q } else p
start_peer now raise_step p _ = p

abbrev pub is_busy : PeerState → Bool
is_busy p = is_some p.inflight || is_some p.grace

unfoldable pub start_at : PathMtuDiscovery → ℕ → SocketAddr → PathMtuDiscovery
unfolding start_peer
start_at d now ep = elim (lookup ep d.peers) [
  | none ↦ d
  | some p ↦ if is_busy p then d else put_peer d ep (start_peer now d.raise_step p p.phase)
]

unfoldable pub start_phases : PathMtuDiscovery → ℕ → List SocketAddr → PathMtuDiscovery
unfolding start_at
start_phases d now [] = d
start_phases d now (ep ∷ eps) = start_phases (start_at d now ep) now eps

unfoldable pub wants_probe : PeerState → Phase → Bool
wants_probe p raise = is_some (raise_target p)
wants_probe p binary = is_some (binary_target p)
wants_probe p down_search = is_some (binary_target p)
wants_probe p revalidate = true
wants_probe p recheck = true
wants_probe p plateau = false
wants_probe p frozen = false

unfoldable pub wanting : Table SocketAddr PeerState → List SocketAddr → List SocketAddr
unfolding wants_probe
wanting m [] = []
wanting m (ep ∷ eps) =
    let rest = wanting m eps in
    elim (lookup ep m) [
      | none ↦ rest
      | some p ↦ if not (is_busy p) && wants_probe p p.phase then ep ∷ rest else rest
    ]

-- `for i in 0..want.len()`, with `rounds` rounds left; it stops when `cap` probes are out. It returns
-- the intents and the number issued. The index is below the length, so the read finds an address.
unfoldable pub issue_loop :
    ℕ → ℕ → PathMtuDiscovery → ℕ → List SocketAddr → ℕ → ℕ → PathMtuDiscovery × List ProbeIntent × ℕ
issue_loop zero i d now want cap issued = (d, [], issued)
issue_loop (suc rounds) i d now want cap issued = elim (leb cap issued) [
  | true ↦ (d, [], issued)
  | false ↦ elim (get_elem? want ((d.rr_cursor + i) % length want)) [
    | none ↦ (d, [], issued)
    | some ep ↦
        let (d', out) = issue_probe d ep now in
        elim out [
          | none ↦ issue_loop rounds (i + 1) d' now want cap issued
          | some x ↦
              let (d'', xs, n) = issue_loop rounds (i + 1) d' now want cap (issued + 1) in
              (d'', x ∷ xs, n)
        ]
  ]
]

-- The end of `on_tick`, from `want` on; `intents` are those of the timeouts.
unfoldable pub issue_probes :
    PathMtuDiscovery → ℕ → List SocketAddr → List ProbeIntent → PathMtuDiscovery × List ProbeIntent
issue_probes d now [] intents = (d, intents)
issue_probes d now (w ∷ ws) intents =
    let want = w ∷ ws in
    let cap = min (d.max_concurrent_peers - length intents) (length want) in
    let e : PathMtuDiscovery = record d {
      rr_cursor = if leb (length want) d.rr_cursor then 0 else d.rr_cursor;
    } in
    let (e', xs, issued) = issue_loop (length want) 0 e now want cap 0 in
    (record e' { rr_cursor = (e'.rr_cursor + max issued 1) % 2 ^ 64 }, intents ++ xs)

-- The loops of `on_tick` while the size is not pinned.
unfoldable pub tick_unpinned :
    PathMtuDiscovery
    → ℕ
    → List PeerTickInput
    → PathMtuDiscovery × List ProbeIntent × PmtudEventCounts
tick_unpinned d now inputs =
    let eps = input_addrs inputs in
    let d1 = note_inputs (drop_stale (heal_unacked_private_floor d now) eps) now inputs in
    let (d2, ev2) = expire_grace d1 (grace_expired now d1.peers) now no_events in
    let (d3, out, ev3) = run_timeouts d2 (timed_out now d2.peers) now ev2 in
    let d4 = start_phases d3 now eps in
    let (d5, intents) = issue_probes d4 now (wanting d4.peers eps) out in (d5, intents, ev3)

unfoldable pub on_tick :
    PathMtuDiscovery
    → ℕ
    → List PeerTickInput
    → PathMtuDiscovery × List ProbeIntent × PmtudEventCounts
on_tick d now inputs = elim d.pinned [
  | some m ↦ (d, [], no_events)
  | none ↦ tick_unpinned d now inputs
]

-- ===== src/Pmtud/GraceInv.antt =====
-- The grace windows that a tick expires, and `on_tick` as a whole (src/pmtud.rs). The windows
-- still to expire are followed while the failures of the others are handled.
use mathlib.Core.Path.{subst}
use mathlib.Core.Option.{some-injective}
use mint_connect_unit.Prelude.{
  ℕ, ◌≡◌, ◌≢◌, refl, sym, ◌∙◌, inl, inr, true, Option, none, some, arith, Bool-cases, Option-cases,
  length, leb, if◌then◌else◌, min, ◌-◌, List, [], ◌∷◌, All,
}
use mint_connect_unit.Prelude.Table.{Table, lookup, keys, lookup-insert_ne, lookup-insert_self}
use mint_connect_unit.Prelude.Distinct.{Distinct, All-zip}
use mint_connect_unit.Addr.{SocketAddr, addr_key}
use mint_connect_unit.Pmtud.State.{
  PathMtuDiscovery, PeerState, GraceProbe, ProbeIntent, PmtudEventCounts, PeerTickInput, Phase,
  plateau, raise, binary, revalidate, recheck, down_search, frozen, min_mtu, no_events,
}
use mint_connect_unit.Pmtud.Peer.{raise_target}
use mint_connect_unit.Pmtud.Fail.{
  recalc_min, put_peer, apply_soft_down, apply_anomaly, enter_recheck, confirmed_fail_at,
  apply_timeout_confirmed_fail,
}
use mint_connect_unit.Pmtud.Probe.{count_timeout}
use mint_connect_unit.Pmtud.Tick.{
  drop_stale, heal_unacked_private_floor, note_inputs, grace_over, grace_expired, grace_size,
  expire_grace_of, expire_grace, run_timeouts, timed_out, start_phases, wanting, issue_probes,
  issue_loop, input_addrs, tick_unpinned, on_tick,
}
use mint_connect_unit.Pmtud.Inv.{PeerInv}
use mint_connect_unit.Pmtud.FailInv.{Inv, put_peer-Inv, found-PeerInv, Fails, confirmed_fail-Inv}
use mint_connect_unit.Pmtud.TickInv.{
  heal-Inv, drop_stale-Inv, note_inputs-Inv, run_timeouts-Inv, start_phases-Inv, issue_loop-Inv,
}

peers-recalc_min : (d : PathMtuDiscovery) → (recalc_min d).peers ≡ d.peers
unfolding recalc_min
peers-recalc_min d = ground arith

module _ (d : PathMtuDiscovery) (ep j : SocketAddr) (size now : ℕ) (ev : PmtudEventCounts)
    (other : ep ≢ j) where
  anomaly_frame : lookup j (apply_anomaly d ep now ev).0.peers ≡ lookup j d.peers
  unfolding apply_anomaly
  anomaly_frame = elim (Option-cases (lookup ep d.peers)) [
    | inl e ↦ rw (e, apply_anomaly)
    | inr (p, e) ↦ rw (e, apply_anomaly) (lookup-insert_ne ep j _ d.peers other)
  ]

  recheck_frame : lookup j (enter_recheck d ep ev).0.peers ≡ lookup j d.peers
  unfolding enter_recheck
  recheck_frame = elim (Option-cases (lookup ep d.peers)) [
    | inl e ↦ rw (e, enter_recheck)
    | inr (p, e) ↦ rw (e, enter_recheck) (lookup-insert_ne ep j _ d.peers other)
  ]

  soft_down_frame : lookup j (apply_soft_down d ep now ev).0.peers ≡ lookup j d.peers
  unfolding apply_soft_down
  soft_down_frame = elim (Option-cases (lookup ep d.peers)) [
    | inl e ↦ rw (e, apply_soft_down)
    | inr (p, e) ↦ rw (e, apply_soft_down, peers-recalc_min) (lookup-insert_ne ep j _ d.peers other)
  ]

  confirmed_fail_at_frame :
      (p : PeerState) (ph : Phase)
      → lookup j (confirmed_fail_at d ep size now ev p ph).0.peers ≡ lookup j d.peers
  unfolding confirmed_fail_at
  confirmed_fail_at_frame p raise = lookup-insert_ne ep j _ d.peers other
  confirmed_fail_at_frame p binary = lookup-insert_ne ep j _ d.peers other
  confirmed_fail_at_frame p down_search = lookup-insert_ne ep j _ d.peers other
  confirmed_fail_at_frame p revalidate = elim (Bool-cases p.large_alive) [
    | inl t ↦ rw t anomaly_frame
    | inr t ↦ rw t recheck_frame
  ]
  confirmed_fail_at_frame p recheck = soft_down_frame
  confirmed_fail_at_frame p plateau = refl
  confirmed_fail_at_frame p frozen = refl

  -- A confirmed failure at one endpoint leaves every other entry as it was.
  pub confirmed_fail_frame :
      lookup j (apply_timeout_confirmed_fail d ep size now ev).0.peers ≡ lookup j d.peers
  unfolding apply_timeout_confirmed_fail
  confirmed_fail_frame = elim (Option-cases (lookup ep d.peers)) [
    | inl e ↦ rw (e, apply_timeout_confirmed_fail)
    | inr (p, e) ↦ rw (e, apply_timeout_confirmed_fail) (confirmed_fail_at_frame p p.phase)
  ]

-- A peer whose grace window is open.
abbrev Graced : Table SocketAddr PeerState → SocketAddr → Type 0
Graced m ep = (p : PeerState) × (g : GraceProbe) × (lookup ep m ≡ some p) × (p.grace ≡ some g)

All-grace_expired {κ} :
    (P : SocketAddr → Type κ) (now : ℕ) (m : Table SocketAddr PeerState)
    → All P (keys m)
    → All P (grace_expired now m)
unfolding grace_expired
All-grace_expired P now [] h = tt
All-grace_expired P now ((ep, p) ∷ m) (h, hs) = elim (Bool-cases (grace_over now p.grace)) [
  | inl t ↦ rw t (h, All-grace_expired P now m hs)
  | inr t ↦ rw t (All-grace_expired P now m hs)
]

Distinct-grace_expired :
    (now : ℕ) (m : Table SocketAddr PeerState) → Distinct (keys m) → Distinct (grace_expired now m)
unfolding grace_expired
Distinct-grace_expired now [] h = tt
Distinct-grace_expired now ((ep, p) ∷ m) (h, hs) = elim (Bool-cases (grace_over now p.grace)) [
  | inl t ↦ rw t (All-grace_expired _ now m h, Distinct-grace_expired now m hs)
  | inr t ↦ rw t (Distinct-grace_expired now m hs)
]

lookup_head :
    (ep : SocketAddr) (p : PeerState) (m : Table SocketAddr PeerState)
    → lookup ep ((ep, p) ∷ m) ≡ some p
unfolding lookup
lookup_head ep p m = ground (arith, addr_key.same_iff ep ep)

lookup_tail :
    (ep j : SocketAddr) (p : PeerState) (m : Table SocketAddr PeerState)
    → ep ≢ j
    → lookup j ((ep, p) ∷ m) ≡ lookup j m
unfolding lookup
lookup_tail ep j p m h = ground (arith, addr_key.same_iff ep j)

over_some :
    (now : ℕ) (o : Option GraceProbe) → grace_over now o ≡ true → (g : GraceProbe) × (o ≡ some g)
over_some now none h = cc
over_some now (some g) h = (g, refl)

All-Graced :
    (now : ℕ) (m : Table SocketAddr PeerState)
    → Distinct (keys m)
    → All (Graced m) (grace_expired now m)
unfolding grace_expired
All-Graced now [] h = tt
All-Graced now ((ep, p) ∷ m) (h, hs) = elim (Bool-cases (grace_over now p.grace)) [
  | inl t ↦
      let (g, o) = over_some now p.grace t in
      rw t ((p, g, lookup_head ep p m, o), later (All-Graced now m hs))
  | inr t ↦ rw t (later (All-Graced now m hs))
]
  where
    later : All (Graced m) (grace_expired now m) → All (Graced ((ep, p) ∷ m)) (grace_expired now m)
    later =
        All-zip (grace_expired now m) (λ j n (q, g, e, f). (q, g, lookup_tail ep j p m n ∙ e, f))
          (All-grace_expired (λ y. ep ≢ y) now m h)

ungraced-PeerInv :
    (epsilon : ℕ) (p : PeerState) (ph : Phase)
    → PeerInv epsilon p
    → p.phase ≡ ph
    → PeerInv epsilon (record p { grace = none })
unfolding raise_target
ungraced-PeerInv epsilon p raise v e = ground (arith, v.bounds)
ungraced-PeerInv epsilon p _ v e = ground (arith, v.bounds)

-- Only the two checks of `stable` have a grace window, and there any size may fail.
ungraced-Fails :
    (epsilon : ℕ) (p : PeerState) (g : GraceProbe) (ph : Phase)
    → PeerInv epsilon p
    → p.phase ≡ ph
    → p.grace ≡ some g
    → Fails (record p { grace = none }) (grace_size p.grace) ph
ungraced-Fails epsilon p g raise v e f = ground (arith, v.bounds)
ungraced-Fails epsilon p g _ v e f = ground (arith, v.bounds)

module _ (d : PathMtuDiscovery) (ep : SocketAddr) (now : ℕ) (ev : PmtudEventCounts) where
  expire_grace_of-Inv : Inv d → Graced d.peers ep → Inv (expire_grace_of d ep now ev).0
  unfolding expire_grace_of
  expire_grace_of-Inv v (p, g, e, f) =
      rw (e, expire_grace_of)
        (confirmed_fail-Inv (put_peer d ep calm) ep (grace_size p.grace) now (count_timeout ev)
          (put_peer-Inv d ep calm v (ungraced-PeerInv 1 p p.phase found refl))
          (λ q h.
            subst (λ r. Fails r (grace_size p.grace) r.phase)
              (some-injective calm q (sym (lookup-insert_self ep calm d.peers) ∙ h))
              (ungraced-Fails 1 p g p.phase found refl f)))
    where
      calm : PeerState
      calm = record p { grace = none }

      found : PeerInv 1 p
      found = found-PeerInv d ep v e

  expire_grace_of_frame :
      (j : SocketAddr) → ep ≢ j → lookup j (expire_grace_of d ep now ev).0.peers ≡ lookup j d.peers
  unfolding expire_grace_of
  expire_grace_of_frame j n = elim (Option-cases (lookup ep d.peers)) [
    | inl e ↦ rw (e, expire_grace_of) (confirmed_fail_frame d ep j min_mtu now (count_timeout ev) n)
    | inr (p, e) ↦
        rw (e, expire_grace_of)
          (confirmed_fail_frame (put_peer d ep (record p { grace = none })) ep j
              (grace_size p.grace) now (count_timeout ev) n
            ∙ lookup-insert_ne ep j _ d.peers n)
  ]

expire_grace-Inv :
    (d : PathMtuDiscovery) (eps : List SocketAddr) (now : ℕ) (ev : PmtudEventCounts)
    → Inv d
    → Distinct eps
    → All (Graced d.peers) eps
    → Inv (expire_grace d eps now ev).0
unfolding expire_grace
expire_grace-Inv d [] now ev v n h = v
expire_grace-Inv d (ep ∷ eps) now ev v (n, ns) (h, hs) =
    expire_grace-Inv (expire_grace_of d ep now ev).0 eps now _ (expire_grace_of-Inv d ep now ev v h)
      ns
      (All-zip eps (λ j m (q, g, e, f). (q, g, expire_grace_of_frame d ep now ev j m ∙ e, f)) n hs)

issue_probes-Inv :
    (d : PathMtuDiscovery) (now : ℕ) (want : List SocketAddr) (intents : List ProbeIntent)
    → Inv d
    → Inv (issue_probes d now want intents).0
unfolding issue_probes
issue_probes-Inv d now [] intents v = v
issue_probes-Inv d now (w ∷ ws) intents v = record {
  peers_ok = kept.peers_ok;
  pin_ok = kept.pin_ok;
  distinct = kept.distinct;
  epsilon_pos = kept.epsilon_pos;
}
  where
    start : PathMtuDiscovery
    start = record d { rr_cursor = if leb (length (w ∷ ws)) d.rr_cursor then 0 else d.rr_cursor }

    cap : ℕ
    cap = min (d.max_concurrent_peers - length intents) (length (w ∷ ws))

    kept : Inv (issue_loop (length (w ∷ ws)) 0 start now (w ∷ ws) cap 0).0
    kept = issue_loop-Inv (length (w ∷ ws)) 0 start now (w ∷ ws) cap 0 (record {
      peers_ok = v.peers_ok;
      pin_ok = v.pin_ok;
      distinct = v.distinct;
      epsilon_pos = v.epsilon_pos;
    })

tick_unpinned-Inv :
    (d : PathMtuDiscovery) (now : ℕ) (inputs : List PeerTickInput)
    → Inv d
    → Inv (tick_unpinned d now inputs).0
unfolding tick_unpinned
tick_unpinned-Inv d now inputs v =
    issue_probes-Inv d4 now (wanting d4.peers (input_addrs inputs)) _ (
      start_phases-Inv d3 now (input_addrs inputs) (
        run_timeouts-Inv d2 (timed_out now d2.peers) now _ (
          expire_grace-Inv d1 (grace_expired now d1.peers) now no_events noted
            (Distinct-grace_expired now d1.peers noted.distinct)
            (All-Graced now d1.peers noted.distinct))))
  where
    d1 : PathMtuDiscovery
    d1 = note_inputs (drop_stale (heal_unacked_private_floor d now) (input_addrs inputs)) now inputs

    noted : Inv d1
    noted = note_inputs-Inv _ now inputs (drop_stale-Inv _ (input_addrs inputs) (heal-Inv d now v))

    expired : PathMtuDiscovery × PmtudEventCounts
    expired = expire_grace d1 (grace_expired now d1.peers) now no_events

    d2 : PathMtuDiscovery
    d2 = expired.0

    d3 : PathMtuDiscovery
    d3 = (run_timeouts d2 (timed_out now d2.peers) now expired.1).0

    d4 : PathMtuDiscovery
    d4 = start_phases d3 now (input_addrs inputs)

-- A tick keeps the invariant, whatever it is told of the peers and of the time.
pub on_tick-Inv :
    (d : PathMtuDiscovery) (now : ℕ) (inputs : List PeerTickInput)
    → Inv d
    → Inv (on_tick d now inputs).0
unfolding on_tick
on_tick-Inv d now inputs v = elim (Option-cases d.pinned) [
  | inl e ↦ rw (e, on_tick) (tick_unpinned-Inv d now inputs v)
  | inr (m, e) ↦ rw (e, on_tick) v
]

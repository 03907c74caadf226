-- ===== src/Pmtud/TickInv.antt =====
-- The loops of `on_tick` (src/pmtud.rs) against the invariant of the table of peers.
use mathlib.Core.Path.{subst}
use mint_connect_unit.Prelude.{
  ℕ, zero, suc, ◌+◌, ◌%◌, ◌≡◌, refl, sym, inl, inr, Bool, Option, none, some, arith, Bool-cases,
  if-elim, is_some, Option-cases, leb, List, [], ◌∷◌, length, get_elem?,
}
use mint_connect_unit.Prelude.Table.{Table, lookup, keys, retain, AllEntries-retain}
use mint_connect_unit.Prelude.Distinct.{Distinct, Distinct-retain}
use mint_connect_unit.Addr.{SocketAddr, addr_key}
use mint_connect_unit.Pmtud.State.{
  PathMtuDiscovery, PeerState, PmtudEventCounts, PeerTickInput, Phase, plateau, raise, frozen,
}
use mint_connect_unit.Pmtud.Peer.{raise_target}
use mint_connect_unit.Pmtud.Probe.{on_timeout, issue_probe}
use mint_connect_unit.Pmtud.Tick.{
  needs_heal, healed_peer, heal_peers, heal_unacked_private_floor, contains_addr, any_stale,
  drop_stale, ensured_peer, note_input, note_inputs, start_peer, start_at, start_phases, is_busy,
  run_timeouts, issue_loop,
}
use mint_connect_unit.Pmtud.Inv.{Bounds, PeerInv, new_peer-PeerInv}
use mint_connect_unit.Pmtud.FailInv.{
  AllPeers, PinInRange, Inv, recalc_min-Inv, put_peer-Inv, found-PeerInv,
}
use mint_connect_unit.Pmtud.ProbeInv.{on_timeout-Inv, issue_probe-Inv}
use mint_connect_unit.Pmtud.Tick.{search_phase}

healed-PeerInv :
    (epsilon now raise_step : ℕ) (p : PeerState) → PeerInv epsilon (healed_peer now raise_step p)
unfolding healed_peer
healed-PeerInv epsilon now raise_step p = ground arith

heal_peers-AllPeers :
    (epsilon now raise_step : ℕ) (m : Table SocketAddr PeerState)
    → AllPeers epsilon m
    → AllPeers epsilon (heal_peers now raise_step m).0
unfolding heal_peers
heal_peers-AllPeers epsilon now raise_step [] h = tt
heal_peers-AllPeers epsilon now raise_step ((ep, p) ∷ m) (h, hs) =
    elim (Bool-cases (needs_heal ep p)) [
      | inl t ↦
          rw t (
            healed-PeerInv epsilon now raise_step p,
            heal_peers-AllPeers epsilon now raise_step m hs,
          )
      | inr f ↦ rw f (h, heal_peers-AllPeers epsilon now raise_step m hs)
    ]

keys-heal_peers :
    (now raise_step : ℕ) (m : Table SocketAddr PeerState)
    → keys (heal_peers now raise_step m).0 ≡ keys m
unfolding heal_peers
keys-heal_peers now raise_step [] = refl
keys-heal_peers now raise_step ((ep, p) ∷ m) = ground (arith, keys-heal_peers now raise_step m)

pub heal-Inv : (d : PathMtuDiscovery) (now : ℕ) → Inv d → Inv (heal_unacked_private_floor d now)
unfolding heal_unacked_private_floor
heal-Inv d now v = elim (Bool-cases (heal_peers now d.raise_step d.peers).1) [
  | inl t ↦ rw (t, heal_unacked_private_floor) (recalc_min-Inv _ healed)
  | inr f ↦ rw (f, heal_unacked_private_floor) healed
]
  where
    healed : Inv (record d { peers = (heal_peers now d.raise_step d.peers).0 })
    healed = record {
      peers_ok = heal_peers-AllPeers 1 now d.raise_step d.peers v.peers_ok;
      pin_ok = v.pin_ok;
      distinct = subst Distinct (sym (keys-heal_peers now d.raise_step d.peers)) v.distinct;
      epsilon_pos = v.epsilon_pos;
    }

pub drop_stale-Inv :
    (d : PathMtuDiscovery) (active : List SocketAddr) → Inv d → Inv (drop_stale d active)
unfolding drop_stale
drop_stale-Inv d active v = elim (Bool-cases (any_stale active d.peers)) [
  | inl t ↦ rw (t, drop_stale) (recalc_min-Inv _ kept)
  | inr f ↦ rw (f, drop_stale) kept
]
  where
    kept : Inv (record d { peers = retain (λ ep p. contains_addr ep active) d.peers })
    kept = record {
      peers_ok = AllEntries-retain (λ _ p. PeerInv 1 p) _ d.peers v.peers_ok;
      pin_ok = v.pin_ok;
      distinct = Distinct-retain _ d.peers v.distinct;
      epsilon_pos = v.epsilon_pos;
    }

-- A peer that is made while the size is pinned is frozen at that size.
pinned_peer-PeerInv :
    (d : PathMtuDiscovery) (ep : SocketAddr) (now m : ℕ)
    → lookup ep d.peers ≡ none
    → d.pinned ≡ some m
    → PinInRange d.pinned
    → PeerInv 1 (ensured_peer d ep now)
unfolding ensured_peer
pinned_peer-PeerInv d ep now m e f r = ground arith

pub ensured-PeerInv :
    (d : PathMtuDiscovery) (ep : SocketAddr) (now : ℕ) → Inv d → PeerInv 1 (ensured_peer d ep now)
unfolding ensured_peer
ensured-PeerInv d ep now v = elim (Option-cases (lookup ep d.peers)) [
  | inl e ↦ elim (Option-cases d.pinned) [
    | inl f ↦
        rw (e, ensured_peer, f)
          (new_peer-PeerInv 1 (ensured_peer d ep now) now d.raise_period d.raise_step)
    | inr (m, f) ↦ pinned_peer-PeerInv d ep now m e f v.pin_ok
  ]
  | inr (p, e) ↦ rw (e, ensured_peer) (found-PeerInv d ep v e)
]

-- The round-trip time and the health flag are outside the invariant.
noted-PeerInv :
    (epsilon : ℕ) (p : PeerState) (rtt : Option ℕ) (alive : Bool) (ph : Phase)
    → PeerInv epsilon p
    → p.phase ≡ ph
    → PeerInv epsilon (record p { rtt_us = rtt; large_alive = alive })
unfolding raise_target
noted-PeerInv epsilon p rtt alive raise v e = ground (arith, v.bounds)
noted-PeerInv epsilon p rtt alive _ v e = ground (arith, v.bounds)

pub note_inputs-Inv :
    (d : PathMtuDiscovery) (now : ℕ) (is : List PeerTickInput) → Inv d → Inv (note_inputs d now is)
unfolding note_inputs
note_inputs-Inv d now [] v = v
note_inputs-Inv d now (i ∷ is) v = note_inputs-Inv (note_input d now i) now is (
    put_peer-Inv d i.addr _ v
      (noted-PeerInv 1 (ensured_peer d i.addr now) _ _ _ (ensured-PeerInv d i.addr now v) refl))

pub run_timeouts-Inv :
    (d : PathMtuDiscovery) (eps : List SocketAddr) (now : ℕ) (ev : PmtudEventCounts)
    → Inv d
    → Inv (run_timeouts d eps now ev).0
unfolding run_timeouts
run_timeouts-Inv d [] now ev v = v
run_timeouts-Inv d (ep ∷ eps) now ev v =
    run_timeouts-Inv (on_timeout d ep now ev).0 eps now _ (on_timeout-Inv d ep now ev v)

searching-PeerInv :
    (epsilon : ℕ) (q : PeerState)
    → Bounds q
    → q.inflight ≡ none
    → q.grace ≡ none
    → PeerInv epsilon (record q { phase = search_phase q })
unfolding raise_target
searching-PeerInv epsilon q b f g = elim (Bool-cases (is_some (raise_target q))) [
  | inl t ↦ rw t (ground (arith, b))
  | inr t ↦ rw t (ground (arith, b))
]

-- A search that starts has something to ask for.
started-PeerInv :
    (epsilon now raise_step : ℕ) (p : PeerState) (ph : Phase)
    → PeerInv epsilon p
    → p.phase ≡ ph
    → PeerInv epsilon (start_peer now raise_step p ph)
unfolding start_peer
started-PeerInv epsilon now raise_step p plateau v e =
    if-elim (PeerInv epsilon) (leb p.next_raise_at now) _ p
      (λ _. searching-PeerInv epsilon _ (ground (arith, v.bounds)) (ground arith) (ground arith))
      (λ _. v)
started-PeerInv epsilon now raise_step p frozen v e =
    if-elim (PeerInv epsilon) (leb p.next_raise_at now) _ p
      (λ _. searching-PeerInv epsilon _ (ground (arith, v.bounds)) (ground arith) (ground arith))
      (λ _. v)
started-PeerInv epsilon now raise_step p _ v e = v

pub start_phases-Inv :
    (d : PathMtuDiscovery) (now : ℕ) (eps : List SocketAddr) → Inv d → Inv (start_phases d now eps)
unfolding start_phases
start_phases-Inv d now [] v = v
start_phases-Inv d now (ep ∷ eps) v = start_phases-Inv (start_at d now ep) now eps started
  where
    started : Inv (start_at d now ep)
    started = elim (Option-cases (lookup ep d.peers)) [
      | inl e ↦ rw (e, start_at) v
      | inr (p, e) ↦ elim (Bool-cases (is_busy p)) [
        | inl b ↦ rw (e, start_at, b) v
        | inr b ↦
            rw (e, start_at, b)
              (put_peer-Inv d ep _ v
                (started-PeerInv 1 now d.raise_step p p.phase (found-PeerInv d ep v e) refl))
      ]
    ]

pub issue_loop-Inv :
    (rounds i : ℕ) (d : PathMtuDiscovery) (now : ℕ) (want : List SocketAddr) (cap issued : ℕ)
    → Inv d
    → Inv (issue_loop rounds i d now want cap issued).0
unfolding issue_loop
issue_loop-Inv zero i d now want cap issued v = v
issue_loop-Inv (suc rounds) i d now want cap issued v = elim (Bool-cases (leb cap issued)) [
  | inl t ↦ rw (t, issue_loop) v
  | inr t ↦ elim (Option-cases (get_elem? want ((d.rr_cursor + i) % length want))) [
    | inl e ↦ rw (t, issue_loop, e) v
    | inr (ep, e) ↦ elim (Option-cases (issue_probe d ep now).1) [
      | inl o ↦
          rw (t, issue_loop, e, o)
            (issue_loop-Inv rounds (i + 1) (issue_probe d ep now).0 now want cap issued
              (issue_probe-Inv d ep now v))
      | inr (x, o) ↦
          rw (t, issue_loop, e, o)
            (issue_loop-Inv rounds (i + 1) (issue_probe d ep now).0 now want cap (issued + 1)
              (issue_probe-Inv d ep now v))
    ]
  ]
]

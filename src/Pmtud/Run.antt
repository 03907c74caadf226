-- ===== src/Pmtud/Run.antt =====
-- Histories of path MTU discovery: every public operation of `PathMtuDiscovery` (src/pmtud.rs) as an
-- event, and the invariant over any sequence of them. Tuning comes clamped from the configuration, as
-- `AdvancedTuning::from_network_config` gives it.
use mint_connect_unit.Prelude.{
  ℕ, ◌≡◌, refl, sym, inl, inr, Option, none, some, arith, Bool-cases, Option-cases, is_some, not,
  ◌||◌, List, [], ◌∷◌,
}
use mathlib.Core.Path.{subst}
use mint_connect_unit.Prelude.Table.{
  lookup, has_key, map_values, AllEntries-map_values, AllEntries-remove,
}
use mint_connect_unit.Prelude.Distinct.{Distinct, keys-map_values, Distinct-remove}
use mint_connect_unit.Addr.{SocketAddr, addr_key}
use mint_connect_unit.Pmtud.State.{
  PathMtuDiscovery, PeerState, PeerTickInput, Phase, plateau, raise, is_searching,
  revalidate_hint_cooldown, early_wake_cooldown,
}
use mint_connect_unit.Pmtud.Peer.{raise_target, clamp_size}
use mint_connect_unit.Pmtud.Tick.{on_tick}
use mint_connect_unit.Pmtud.Ack.{on_ack, on_send_hard_fail}
use mint_connect_unit.Pmtud.Setup.{
  PmtudTuning, clamp_tuning, new, retune_peer, apply_tuning, set_raise_period, pin_peer, set_pinned,
  remove_peer, seed_peer, entry_or_new, seed_plateau_at, cooling, is_idle, request_revalidate,
  request_early_wake,
}
use mint_connect_unit.Pmtud.Inv.{PeerInv, new_peer-PeerInv}
use mint_connect_unit.Pmtud.FailInv.{Inv, recalc_min-Inv, put_peer-Inv, found-PeerInv}
use mint_connect_unit.Pmtud.GraceInv.{on_tick-Inv}
use mint_connect_unit.Pmtud.AckInv.{on_ack-Inv, on_send_hard_fail-Inv}

pub data Event : Type 0 where
  tick : ℕ → List PeerTickInput → Event
  ack : SocketAddr → ℕ → ℕ → ℕ → ℕ → Event
  hard_fail : SocketAddr → ℕ → ℕ → Event
  tune : PmtudTuning → ℕ → Event
  raise_secs : ℕ → Event
  pin : Option ℕ → ℕ → Event
  forget : SocketAddr → Event
  seed : SocketAddr → ℕ → ℕ → Event
  hint : SocketAddr → ℕ → Event
  wake : SocketAddr → ℕ → Event

unfoldable pub step : PathMtuDiscovery → Event → PathMtuDiscovery
step d (tick now inputs) = (on_tick d now inputs).0
step d (ack from size probe_id search_gen now) = (on_ack d from size probe_id search_gen now).0
step d (hard_fail ep probe_id now) = (on_send_hard_fail d ep probe_id now).0
step d (tune t now) = apply_tuning d (clamp_tuning t) now
step d (raise_secs secs) = set_raise_period d secs
step d (pin m now) = set_pinned d m now
step d (forget ep) = remove_peer d ep
step d (seed ep mtu now) = seed_plateau_at d ep mtu now
step d (hint ep now) = (request_revalidate d ep now).0
step d (wake ep now) = (request_early_wake d ep now).0

unfoldable pub run : PathMtuDiscovery → List Event → PathMtuDiscovery
run d [] = d
run d (e ∷ es) = run (step d e) es

pub new-Inv : Inv new
unfolding new
new-Inv = ground arith

-- The same change of every peer keeps the invariant, if it does on one.
map_peers-Inv :
    (d : PathMtuDiscovery) (f : PeerState → PeerState)
    → ((p : PeerState) → PeerInv 1 p → PeerInv 1 (f p))
    → Inv d
    → Inv (record d { peers = map_values f d.peers })
map_peers-Inv d f g v = record {
  peers_ok = AllEntries-map_values (λ _ p. PeerInv 1 p) f d.peers (λ _ p h. g p h) v.peers_ok;
  pin_ok = v.pin_ok;
  distinct = subst Distinct (sym (keys-map_values f d.peers)) v.distinct;
  epsilon_pos = v.epsilon_pos;
}

retune-PeerInv :
    (now period step : ℕ) (p : PeerState) (ph : Phase)
    → PeerInv 1 p
    → p.phase ≡ ph
    → PeerInv 1 (retune_peer now period step p)
unfolding retune_peer is_searching
retune-PeerInv now period step p plateau v e = ground (arith, v.bounds)
retune-PeerInv now period step p _ v e = ground (arith, v.bounds)

apply_tuning-Inv :
    (d : PathMtuDiscovery) (t : PmtudTuning) (now : ℕ)
    → Inv d
    → Inv (apply_tuning d (clamp_tuning t) now)
unfolding apply_tuning clamp_tuning
apply_tuning-Inv d t now v = elim (Bool-cases (is_some d.pinned)) [
  | inl p ↦
      rw (p, apply_tuning)
        (record {
          peers_ok = v.peers_ok;
          pin_ok = v.pin_ok;
          distinct = v.distinct;
          epsilon_pos = omega arith;
        })
  | inr p ↦
      let step = (clamp_tuning t).raise_step in
      let w =
        map_peers-Inv d (retune_peer now d.raise_period step)
          (λ q h. retune-PeerInv now d.raise_period step q q.phase h refl) v in
      rw (p, apply_tuning)
        (record {
          peers_ok = w.peers_ok;
          pin_ok = v.pin_ok;
          distinct = w.distinct;
          epsilon_pos = omega arith;
        })
]

pin-PeerInv :
    (now period m : ℕ) (p : PeerState)
    → PeerInv 1 p
    → PeerInv 1 (pin_peer now period (clamp_size m) p)
unfolding pin_peer
pin-PeerInv now period m p v = ground arith

set_pinned-Inv : (d : PathMtuDiscovery) (m : Option ℕ) (now : ℕ) → Inv d → Inv (set_pinned d m now)
unfolding set_pinned
set_pinned-Inv d (some m) now v =
    let w = map_peers-Inv d _ (pin-PeerInv now d.raise_period m) v in
    record {
      peers_ok = w.peers_ok;
      pin_ok = omega arith;
      distinct = w.distinct;
      epsilon_pos = v.epsilon_pos;
    }
set_pinned-Inv d none now v =
    let w = map_peers-Inv d _ (λ p _. new_peer-PeerInv 1 p now d.raise_period d.raise_step) v in
    record {
      peers_ok = w.peers_ok;
      pin_ok = tt;
      distinct = w.distinct;
      epsilon_pos = v.epsilon_pos;
    }

remove_peer-Inv : (d : PathMtuDiscovery) (ep : SocketAddr) → Inv d → Inv (remove_peer d ep)
unfolding remove_peer
remove_peer-Inv d ep v = elim (Bool-cases (has_key ep d.peers)) [
  | inl t ↦
      rw (t, remove_peer)
        (recalc_min-Inv _ (record {
          peers_ok = AllEntries-remove (λ _ p. PeerInv 1 p) ep d.peers v.peers_ok;
          pin_ok = v.pin_ok;
          distinct = Distinct-remove ep d.peers v.distinct;
          epsilon_pos = v.epsilon_pos;
        }))
  | inr t ↦ rw (t, remove_peer) v
]

seed-PeerInv : (m now : ℕ) (p : PeerState) → PeerInv 1 (seed_peer (clamp_size m) now p)
unfolding seed_peer
seed-PeerInv m now p = ground arith

seed_plateau_at-Inv :
    (d : PathMtuDiscovery) (ep : SocketAddr) (mtu now : ℕ)
    → Inv d
    → Inv (seed_plateau_at d ep mtu now)
unfolding seed_plateau_at
seed_plateau_at-Inv d ep mtu now v =
    recalc_min-Inv _ (put_peer-Inv d ep _ v (seed-PeerInv mtu now (entry_or_new d ep now)))

hinted-PeerInv :
    (p : PeerState) (at : ℕ) (r w : Option ℕ) (ph : Phase)
    → PeerInv 1 p
    → p.phase ≡ ph
    → PeerInv 1
        (record p { next_raise_at = at; last_revalidate_hint_at = r; last_early_wake_at = w })
unfolding raise_target
hinted-PeerInv p at r w raise v e = ground (arith, v.bounds)
hinted-PeerInv p at r w _ v e = ground (arith, v.bounds)

request_revalidate-Inv :
    (d : PathMtuDiscovery) (ep : SocketAddr) (now : ℕ) → Inv d → Inv (request_revalidate d ep now).0
unfolding request_revalidate
request_revalidate-Inv d ep now v = elim (Bool-cases (is_some d.pinned)) [
  | inl t ↦ rw (t, request_revalidate) v
  | inr t ↦ elim (Option-cases (lookup ep d.peers)) [
    | inl e ↦ rw (t, request_revalidate, e) v
    | inr (p, e) ↦
        elim (Bool-cases (
          cooling now revalidate_hint_cooldown p.last_revalidate_hint_at
          || not (is_idle p.phase))) [
            | inl c ↦ rw (t, request_revalidate, e, c) v
            | inr c ↦
                rw (t, request_revalidate, e, c)
                  (put_peer-Inv d ep _ v (
                    hinted-PeerInv p now (some now) p.last_early_wake_at p.phase
                      (found-PeerInv d ep v e) refl))
          ]
  ]
]

request_early_wake-Inv :
    (d : PathMtuDiscovery) (ep : SocketAddr) (now : ℕ) → Inv d → Inv (request_early_wake d ep now).0
unfolding request_early_wake
request_early_wake-Inv d ep now v = elim (Bool-cases (is_some d.pinned)) [
  | inl t ↦ rw (t, request_early_wake) v
  | inr t ↦ elim (Option-cases (lookup ep d.peers)) [
    | inl e ↦ rw (t, request_early_wake, e) v
    | inr (p, e) ↦
        elim (Bool-cases
          (cooling now early_wake_cooldown p.last_early_wake_at || not (is_idle p.phase))) [
            | inl c ↦ rw (t, request_early_wake, e, c) v
            | inr c ↦
                rw (t, request_early_wake, e, c)
                  (put_peer-Inv d ep _ v (
                    hinted-PeerInv p now p.last_revalidate_hint_at (some now) p.phase
                      (found-PeerInv d ep v e) refl))
          ]
  ]
]

-- Every operation keeps the invariant.
pub step-Inv : (d : PathMtuDiscovery) (e : Event) → Inv d → Inv (step d e)
unfolding step
step-Inv d (tick now inputs) v = on_tick-Inv d now inputs v
step-Inv d (ack from size probe_id search_gen now) v =
    on_ack-Inv d from size probe_id search_gen now v
step-Inv d (hard_fail ep probe_id now) v = on_send_hard_fail-Inv d ep probe_id now v
step-Inv d (tune t now) v = apply_tuning-Inv d t now v
step-Inv d (raise_secs secs) v =
    unfold set_raise_period in
    record {
      peers_ok = v.peers_ok;
      pin_ok = v.pin_ok;
      distinct = v.distinct;
      epsilon_pos = v.epsilon_pos;
    }
step-Inv d (pin m now) v = set_pinned-Inv d m now v
step-Inv d (forget ep) v = remove_peer-Inv d ep v
step-Inv d (seed ep mtu now) v = seed_plateau_at-Inv d ep mtu now v
step-Inv d (hint ep now) v = request_revalidate-Inv d ep now v
step-Inv d (wake ep now) v = request_early_wake-Inv d ep now v

run-Inv : (d : PathMtuDiscovery) (es : List Event) → Inv d → Inv (run d es)
unfolding run
run-Inv d [] v = v
run-Inv d (e ∷ es) v = run-Inv (step d e) es (step-Inv d e v)

-- After any history of operations from `new`, with clamped tunings: every peer's last good size and
-- `stable` lie between 576 and 1500, its last good size is below its first bad one, which is at most
-- 1501; a peer at rest has no probe out, a probe of a search lies strictly between the two ends of its
-- window, and a bisection has more than one byte left; a pinned size is in range, and no endpoint has
-- two entries.
pub history-Inv : (es : List Event) → Inv (run new es)
history-Inv es = run-Inv new es new-Inv

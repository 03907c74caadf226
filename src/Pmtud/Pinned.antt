-- ===== src/Pmtud/Pinned.antt =====
-- The pinned size, and the sizes of adapter and payload (src/pmtud.rs).
use mint_connect_unit.Addr.{SocketAddr, addr_key}
use mint_connect_unit.Pmtud.Ack.{on_ack, on_send_hard_fail}
use mint_connect_unit.Pmtud.Peer.{clamp_size}
use mint_connect_unit.Pmtud.Run.{Event, run, step}
use mint_connect_unit.Pmtud.Setup.{
  path_mtu_from_adapter, peer_last_good, pin_peer, request_early_wake, request_revalidate,
  set_pinned, suggested_adapter_mtu, udp_payload_budget,
}
use mint_connect_unit.Pmtud.State.{
  PathMtuDiscovery, PeerState, max_mtu, min_mtu, underlay_ipv4_udp_overhead,
}
use mint_connect_unit.Pmtud.Tick.{on_tick}
use mint_connect_unit.Prelude.{
  All, List, Option-cases, [], ap, arith, inl, inr, is_some, refl, some, ℕ, ◌+◌, ◌-◌, ◌∷◌, ◌≡◌, ◌≤◌,
}
use mint_connect_unit.Prelude.Table.{AllEntries, AllEntries-lookup, Table, lookup, map_values}

-- The events that the network and the timers cause: all but tuning, pinning, seeding and forgetting.
abbrev pub IsTraffic : Event → Type 0
IsTraffic (Event.tick now inputs) = Unit {0}
IsTraffic (Event.ack from size probe_id search_gen now) = Unit {0}
IsTraffic (Event.hard_fail ep probe_id now) = Unit {0}
IsTraffic (Event.hint ep now) = Unit {0}
IsTraffic (Event.wake ep now) = Unit {0}
IsTraffic _ = ⊥

step_pinned :
    (d : PathMtuDiscovery) (m : ℕ) (e : Event) → d.pinned ≡ some m → IsTraffic e → step d e ≡ d
unfolding step on_tick on_ack on_send_hard_fail request_revalidate request_early_wake
step_pinned d m (Event.tick now inputs) h t = simp (h, on_tick, step)
step_pinned d m (Event.ack from size probe_id search_gen now) h t = rw (ap is_some h, on_ack, step)
step_pinned d m (Event.hard_fail ep probe_id now) h t = rw (ap is_some h, on_send_hard_fail, step)
step_pinned d m (Event.hint ep now) h t = rw (ap is_some h, request_revalidate, step)
step_pinned d m (Event.wake ep now) h t = rw (ap is_some h, request_early_wake, step)
step_pinned d m _ h t = absurd t

run_pinned :
    (d : PathMtuDiscovery) (m : ℕ) (es : List Event)
    → d.pinned ≡ some m
    → All IsTraffic es
    → run d es ≡ d
unfolding run
run_pinned d m [] h all = refl
run_pinned d m (e ∷ es) h all = rw (step_pinned d m e h all.0) (run_pinned d m es h all.1)

pin_peer-AllEntries :
    (now period m : ℕ) (t : Table SocketAddr PeerState)
    → AllEntries (λ _ q. q.last_good ≡ m) (map_values (pin_peer now period m) t)
unfolding pin_peer
pin_peer-AllEntries now period m [] = tt
pin_peer-AllEntries now period m ((k, p) ∷ t) = (refl, pin_peer-AllEntries now period m t)

-- After `set_pinned` with a size, no tick, acknowledgement, send failure or hint changes anything: the
-- minimum is the clamped size, and the payload budget of every endpoint is 28 bytes less.
pub pin_holds :
    (d : PathMtuDiscovery) (m now : ℕ) (es : List Event) (ep : SocketAddr)
    → All IsTraffic es
    → let q = run (set_pinned d (some m) now) es in
      (q.min_path_mtu ≡ clamp_size m)
      × (udp_payload_budget q ep ≡ clamp_size m - underlay_ipv4_udp_overhead)
unfolding set_pinned udp_payload_budget peer_last_good
pin_holds d m now es ep all =
    rw (run_pinned (set_pinned d (some m) now) (clamp_size m) es refl all) (
      refl,
      elim (Option-cases (lookup ep (set_pinned d (some m) now).peers)) [
        | inl e ↦ rw (udp_payload_budget, peer_last_good, e)
        | inr (p, e) ↦
            let good =
              AllEntries-lookup (λ _ q. q.last_good ≡ clamp_size m) ep
                (set_pinned d (some m) now).peers
                (pin_peer-AllEntries now d.raise_period (clamp_size m) d.peers) e in
            rw (udp_payload_budget, peer_last_good, e, good)
      ],
    )

-- An adapter that leaves room for both headers below 1500 is suggested again from the path size that
-- `path_mtu_from_adapter` gives for it, once that size is pinned.
pub adapter_roundtrip :
    (d : PathMtuDiscovery) (adapter_mtu enc_overhead now : ℕ)
    → min_mtu ≤ adapter_mtu
    → adapter_mtu + underlay_ipv4_udp_overhead + enc_overhead ≤ max_mtu
    → suggested_adapter_mtu
        (set_pinned d (some (path_mtu_from_adapter adapter_mtu enc_overhead)) now)
        enc_overhead
      ≡ adapter_mtu
unfolding suggested_adapter_mtu set_pinned path_mtu_from_adapter
adapter_roundtrip d adapter_mtu enc_overhead now lo hi = omega arith

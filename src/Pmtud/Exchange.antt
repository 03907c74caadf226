-- ===== src/Pmtud/Exchange.antt =====
-- The probes of one peer over a path that carries exactly the sizes up to `limit` (src/pmtud.rs): what `issue_probe`,
-- `on_ack` and `on_timeout` do, one after the other, to the state.
use mint_connect_unit.Addr.{SocketAddr, addr_key}
use mint_connect_unit.Pmtud.Ack.{on_ack}
use mint_connect_unit.Pmtud.Fail.{put_peer, recalc_min}
use mint_connect_unit.Pmtud.Peer.{binary_target, maybe_budget_freeze, window_closed}
use mint_connect_unit.Pmtud.Probe.{
  choose, choose_size, issue_probe, leave, next_probe_id, on_timeout, probe,
}
use mint_connect_unit.Pmtud.State.{PathMtuDiscovery, PeerState, binary, no_events, plateau}
use mint_connect_unit.Prelude.{
  List, [], arith, eqb, false, if◌then◌else◌, is_some, leb, none, not, some, suc, true, ℕ, ◌+◌, ◌-◌,
  ◌<◌, ◌^◌, ◌∷◌, ◌≡◌, ◌≤◌,
}
use mint_connect_unit.Prelude.Table.{lookup, lookup-insert_self}

-- What happens next to a peer: it is sent a probe, or the one in flight is answered if the path carries its size, and times
-- out if not.
unfoldable pub answer : ℕ → SocketAddr → PathMtuDiscovery → ℕ → PathMtuDiscovery
answer limit ep d now = elim (lookup ep d.peers) [
  | none ↦ d
  | some p ↦ elim p.inflight [
    | none ↦ (issue_probe d ep now).0
    | some inf ↦
        if leb inf.size limit
        then (on_ack d ep inf.size inf.probe_id p.search_gen now).0
        else (on_timeout d ep now no_events).0
  ]
]

-- One after the other, at the instants of a list.
unfoldable pub exchange : ℕ → SocketAddr → PathMtuDiscovery → List ℕ → PathMtuDiscovery
exchange limit ep d [] = d
exchange limit ep d (now ∷ nows) = exchange limit ep (answer limit ep d now) nows

-- The numbers of the tuning that a search goes by.
pub record Tuning : Type 0 where
  pub epsilon : ℕ
  pub max_probes : ℕ
  pub confirms : ℕ

-- The endpoint has the peer `p`, and `spare` more probes can be numbered before the identifiers wrap.
pub record Tracks (tu : Tuning) (ep : SocketAddr) (spare : ℕ) (d : PathMtuDiscovery) (p : PeerState)
    : Type 0 where
  pub found : lookup ep d.peers ≡ some p
  pub unpinned : is_some d.pinned ≡ false
  pub same_epsilon : d.resolve_epsilon ≡ tu.epsilon
  pub same_max : d.max_probes_per_search ≡ tu.max_probes
  pub same_confirms : d.confirm_count ≡ tu.confirms
  pub room : d.probe_id_counter + spare < 2 ^ 32 - 1

module _ (tu : Tuning) (ep : SocketAddr) (s : ℕ) (d : PathMtuDiscovery) (p : PeerState) where
  pub put-Tracks : (q : PeerState) → Tracks tu ep s d p → Tracks tu ep s (put_peer d ep q) q
  put-Tracks q h = record {
    found = lookup-insert_self ep q d.peers;
    unpinned = h.unpinned;
    same_epsilon = h.same_epsilon;
    same_max = h.same_max;
    same_confirms = h.same_confirms;
    room = h.room;
  }

  pub fewer-Tracks : (n : ℕ) → n ≤ s → Tracks tu ep s d p → Tracks tu ep n d p
  fewer-Tracks n l h = record {
    found = h.found;
    unpinned = h.unpinned;
    same_epsilon = h.same_epsilon;
    same_max = h.same_max;
    same_confirms = h.same_confirms;
    room = omega (arith, h.room);
  }

  pub recalc_min-Tracks : Tracks tu ep s d p → Tracks tu ep s (recalc_min d) p
  unfolding recalc_min
  recalc_min-Tracks h = ground (arith, h)

  -- A fresh identifier is not 0.
  pub next_probe_id-Tracks :
      Tracks tu ep (suc s) d p
      → Tracks tu ep s (next_probe_id d).0 p × (not (eqb (next_probe_id d).1 0) ≡ true)
  unfolding next_probe_id
  next_probe_id-Tracks h = ground (arith, h)

  pub choose-probe :
      (now : ℕ) {t : ℕ}
      → Tracks tu ep s d p
      → p.inflight ≡ none
      → p.grace ≡ none
      → p.phase ≡ binary
      → p.probes_used < tu.max_probes
      → p.last_good + tu.epsilon < p.first_bad
      → binary_target p ≡ some t
      → choose d now p ≡ probe t
  unfolding choose choose_size maybe_budget_freeze window_closed
  choose-probe now h i g b u w e = ground (arith, h)

  pub choose-leave :
      (now : ℕ)
      → Tracks tu ep s d p
      → p.inflight ≡ none
      → p.grace ≡ none
      → p.phase ≡ plateau
      → p.probes_used < tu.max_probes
      → choose d now p ≡ leave
  unfolding choose choose_size maybe_budget_freeze
  choose-leave now h i g b u = ground (arith, h)

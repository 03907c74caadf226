-- ===== src/Pmtud/Limits.antt =====
-- What `issue_probe` does in a search, the floor of a soft down, the minimum over the peers (src/pmtud.rs).
use mathlib.Core.Path.{subst}
use mint_connect_unit.Addr.{SocketAddr, addr_key, is_rfc1918_private_ip}
use mint_connect_unit.Pmtud.Fail.{min_last_good, recalc_min, soft_down_peer}
use mint_connect_unit.Pmtud.FailInv.{Inv, found-PeerInv}
use mint_connect_unit.Pmtud.Inv.{
  Bounds, Shape, binary_target_inside, binary_target_some, raise_target_inside,
}
use mint_connect_unit.Pmtud.Peer.{
  binary_target, clamp_size, enter_frozen, enter_plateau, finish_downsearch_plateau,
  maybe_budget_freeze, raise_target, window_closed,
}
use mint_connect_unit.Pmtud.Probe.{Choice, choose, choose_size, leave, move_to, probe, probe_target}
use mint_connect_unit.Pmtud.State.{
  PathMtuDiscovery, PeerState, Phase, binary, default_mtu, down_search, frozen, is_searching,
  max_mtu, min_mtu, plateau, raise, recheck, revalidate,
}
use mint_connect_unit.Pmtud.Tick.{is_busy, wants_probe}
use mint_connect_unit.Prelude.{
  All, Bool-cases, List, [], arith, false, inl, inr, is_some, is_some→some, leb, max, min, none,
  not, refl, some, sym, true, ℕ, ◌&&◌, ◌/◌, ◌<◌, ◌∷◌, ◌≡◌, ◌≤◌, ◌⊎◌,
}
use mint_connect_unit.Prelude.Table.{lookup, values}

-- What the size of a probe is to be, by the phase.
abbrev pub Useful : PeerState → Phase → ℕ → Type 0
Useful p revalidate size = size ≡ p.stable
Useful p recheck size = size ≡ p.stable
Useful p _ size = (p.last_good < size) × (size < p.first_bad)

-- What `issue_probe` decides is to send a useful probe, or to put the peer to rest where it stands.
abbrev pub Acts : PeerState → Phase → Choice → Type 0
Acts p ph leave = ⊥
Acts p ph (move_to q) =
    (is_searching q.phase ≡ false) × (q.last_good ≡ p.last_good) × (q.probes_used ≡ 0)
Acts p ph (probe size) = (min_mtu ≤ size) × (size ≤ max_mtu) × Useful p ph size

module _ (d : PathMtuDiscovery) (now : ℕ) (p : PeerState) (b : Bounds p) where
  plateau-Acts :
      (ph : Phase)
      → Acts p ph
          (move_to (enter_plateau p now d.raise_period d.raise_step d.stable_downgrade_batches))
  unfolding enter_plateau is_searching
  plateau-Acts ph = ground arith

  downsearch-Acts :
      (ph : Phase)
      → Acts p ph (
          move_to (
            finish_downsearch_plateau p now d.raise_period d.raise_step d.stable_downgrade_batches))
  unfolding finish_downsearch_plateau is_searching
  downsearch-Acts ph = ground arith

  raise-Acts : is_some (raise_target p) ≡ true → Acts p raise (probe_target (raise_target p))
  raise-Acts s =
      let (t, e) = is_some→some (raise_target p) s in
      let inside = raise_target_inside p e in
      rw e (omega (arith, inside, b.good_low), omega (arith, inside), (inside.0, inside.1))

  bisect_target :
      is_some (binary_target p) ≡ true
      → (t : ℕ) × (binary_target p ≡ some t) × (min_mtu ≤ t) × (t ≤ max_mtu) × Useful p binary t
  bisect_target s =
      let (t, e) = is_some→some (binary_target p) s in
      let inside = binary_target_inside p b e in
      (t, e, omega (arith, inside, b.good_low), omega (arith, inside), (inside.0, inside.1))

  stable-Acts :
      (min_mtu ≤ clamp_size p.stable)
      × (clamp_size p.stable ≤ max_mtu)
      × (clamp_size p.stable ≡ p.stable)
  stable-Acts = (omega arith, omega arith, omega (arith, b.stable_low, b.stable_high))

  choose_size-Acts :
      (ph : Phase)
      → 1 ≤ d.resolve_epsilon
      → Shape 1 p ph
      → is_searching ph ≡ true
      → (wants_probe p ph ≡ true) × Acts p ph (choose_size d now p ph)
  unfolding choose_size is_searching wants_probe
  choose_size-Acts plateau one h s = absurd (cc s)
  choose_size-Acts frozen one h s = absurd (cc s)
  choose_size-Acts revalidate one h s = (refl, stable-Acts)
  choose_size-Acts recheck one h s = (refl, stable-Acts)
  choose_size-Acts raise one h s = (h.1, raise-Acts h.1)
  choose_size-Acts binary one h s =
      let w = binary_target_some p b h.1 in
      let (t, e, low, high, inside) = bisect_target w in
      elim (Bool-cases (window_closed p d.resolve_epsilon)) [
        | inl c ↦ (w, rw (c, choose_size) (plateau-Acts binary))
        | inr c ↦ (w, rw (c, choose_size, e) (low, high, inside))
      ]
  choose_size-Acts down_search one h s =
      let w = binary_target_some p b h.1 in
      let (t, e, low, high, inside) = bisect_target w in
      elim (Bool-cases (window_closed p d.resolve_epsilon)) [
        | inl c ↦ (w, rw (c, choose_size) (downsearch-Acts down_search))
        | inr c ↦ (w, rw (c, choose_size, e) (low, high, inside))
      ]

  freeze-Acts :
      (ph : Phase)
      → (maybe_budget_freeze p now d.raise_period d.max_probes_per_search).1 ≡ true
      → Acts p ph (move_to (maybe_budget_freeze p now d.raise_period d.max_probes_per_search).0)
  unfolding maybe_budget_freeze enter_frozen is_searching
  freeze-Acts ph c = ground arith

-- In a state that keeps the invariant, a peer in a search with no probe out is always among those that want a
-- probe, and `issue_probe` acts on it: it chooses a probe of the range from 576 to 1500, of `stable` in the
-- two checks of `stable` and otherwise strictly between the last good and the first bad size, or it puts the
-- peer in a phase that is no search, with its last good size and a fresh budget.
pub search_never_stuck :
    (d : PathMtuDiscovery) (ep : SocketAddr) (now : ℕ) (p : PeerState)
    → Inv d
    → lookup ep d.peers ≡ some p
    → is_searching p.phase ≡ true
    → is_busy p ≡ false
    → (wants_probe p p.phase ≡ true) × Acts p p.phase (choose d now p)
unfolding choose
search_never_stuck d ep now p v e s b =
    let found = found-PeerInv d ep v e in
    let (w, a) = choose_size-Acts d now p found.bounds p.phase v.epsilon_pos found.shape s in
    elim (Bool-cases (maybe_budget_freeze p now d.raise_period d.max_probes_per_search).1) [
      | inl c ↦ (w, rw (b, choose, c) (freeze-Acts d now p found.bounds p.phase c))
      | inr c ↦ (w, rw (b, choose, c) a)
    ]

abbrev pub Among : ℕ → List PeerState → Type 0
Among m [] = ⊥
Among m (p ∷ ps) = (m ≡ p.last_good) ⊎ Among m ps

-- What `min_path_mtu` is to be: the least last good size, and 1220 with no peers.
abbrev pub IsLeast : ℕ → List PeerState → Type 0
IsLeast m [] = m ≡ default_mtu
IsLeast m (p ∷ ps) = All (λ q. m ≤ q.last_good) (p ∷ ps) × Among m (p ∷ ps)

All-weaken :
    (a b : ℕ) (ps : List PeerState)
    → a ≤ b
    → All (λ q. b ≤ q.last_good) ps
    → All (λ q. a ≤ q.last_good) ps
All-weaken a b [] h all = tt
All-weaken a b (p ∷ ps) h all = (omega (arith, all.0), All-weaken a b ps h all.1)

min_last_good-IsLeast :
    (p : PeerState) (ps : List PeerState)
    → (m : ℕ) × (min_last_good (p ∷ ps) ≡ some m)
      × All (λ q. m ≤ q.last_good) (p ∷ ps)
      × Among m (p ∷ ps)
unfolding min_last_good
min_last_good-IsLeast p [] = (p.last_good, refl, (omega arith, tt), inl refl)
min_last_good-IsLeast p (q ∷ qs) =
    let (m, e, below, among) = min_last_good-IsLeast q qs in
    (
      min p.last_good m,
      rw e,
      (omega arith, All-weaken (min p.last_good m) m (q ∷ qs) (omega arith) below),
      elim (Bool-cases (leb p.last_good m)) [
        | inl c ↦ inl (ground arith)
        | inr c ↦ inr (subst (λ x. Among x (q ∷ qs)) (ground arith) among)
      ],
    )

-- Unless the size is pinned, `recalc_min` sets `min_path_mtu` to the least last good size of the peers,
-- which is that of one of them, or to 1220 if there are none.
pub recalc_min-IsLeast :
    (d : PathMtuDiscovery) → d.pinned ≡ none → IsLeast (recalc_min d).min_path_mtu (values d.peers)
unfolding recalc_min
recalc_min-IsLeast d e = go (values d.peers) refl
  where
    go : (ps : List PeerState) → values d.peers ≡ ps → IsLeast (recalc_min d).min_path_mtu ps
    go [] f = rw (e, recalc_min, f)
    go (p ∷ ps) f =
        let (m, g, below, among) = min_last_good-IsLeast p ps in
        let same : (recalc_min d).min_path_mtu ≡ m = rw (e, recalc_min, f, g) in
        subst (λ x. IsLeast x (p ∷ ps)) (sym same) (below, among)

-- `soft_down_peer` never takes a private peer that has never answered below 1220, and takes no peer below 576.
pub soft_down_floor :
    (d : PathMtuDiscovery) (ep : SocketAddr) (now : ℕ) (p : PeerState)
    → let q = soft_down_peer d ep now p in
      (min_mtu ≤ q.last_good)
      × (is_rfc1918_private_ip ep.ip && not p.ever_acked ≡ true → default_mtu ≤ q.last_good)
      × (is_rfc1918_private_ip ep.ip && not p.ever_acked ≡ false
          → q.last_good ≤ max min_mtu (min p.last_good p.stable / 2))
unfolding soft_down_peer
soft_down_floor d ep now p = ground arith

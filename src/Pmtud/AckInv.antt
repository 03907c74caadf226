-- ===== src/Pmtud/AckInv.antt =====
-- Acknowledgements and local send failures (src/pmtud.rs) against the invariant.
use mathlib.Core.Path.{subst}
use mathlib.Core.Option.{some-injective}
use mint_connect_unit.Prelude.{
  sym, ◌∙◌, ℕ, ◌≤◌, ◌<◌, ◌≡◌, refl, inl, inr, true, none, some, arith, Bool-cases, Option-cases,
  is_some, is_some→some, max, leb, if◌then◌else◌, saturating_mul_u64, not, eqb, ◌||◌,
}
use mint_connect_unit.Prelude.Table.{lookup}
use mint_connect_unit.Addr.{SocketAddr, addr_key}
use mint_connect_unit.Pmtud.State.{
  PathMtuDiscovery, PeerState, Inflight, Phase, plateau, raise, binary, revalidate, recheck,
  down_search, frozen, max_mtu, first_bad_sentinel, no_events,
}
use mint_connect_unit.Pmtud.Peer.{raise_target, clamp_size}
use mint_connect_unit.Pmtud.Fail.{put_peer}
use mint_connect_unit.Pmtud.Ack.{
  Ack, inflight_match, grace_match, raise_stable, acked_raise, acked_binary, acked_downsearch,
  acked_peer, ack_grace, ack_inflight, ack_peer, resolve_ack, on_ack, hard_fail_at, hard_fail_of,
  on_send_hard_fail,
}
use mint_connect_unit.Pmtud.Inv.{Bounds, Shape, PeerInv, enter_plateau-PeerInv}
use mint_connect_unit.Pmtud.FailInv.{
  Inv, recalc_min-Inv, put_peer-Inv, found-PeerInv, Fails, confirmed_fail-Inv, apply_soft_down-Inv,
}

-- The peer after the new last good size and the doubled step.
abbrev raised : PathMtuDiscovery → ℕ → PeerState → PeerState
raised d sz p =
    let up = raise_stable (record p { last_good = sz }) in
    record up { step = max (saturating_mul_u64 up.step 2) d.raise_step }

raised-Bounds :
    (d : PathMtuDiscovery) (sz : ℕ) (p : PeerState)
    → Bounds p
    → p.last_good < sz
    → sz < p.first_bad
    → Bounds (raised d sz p)
raised-Bounds d sz p b lo hi = ground arith

raised-Shape :
    (d : PathMtuDiscovery) (sz : ℕ) (p : PeerState)
    → p.phase ≡ raise
    → p.inflight ≡ none
    → p.grace ≡ none
    → is_some (raise_target (raised d sz p)) ≡ true
    → Shape 1 (raised d sz p) (raised d sz p).phase
raised-Shape d sz p e f g t = ground arith

topped-Bounds :
    (q : PeerState)
    → Bounds q
    → Bounds (if leb max_mtu q.last_good then record q { first_bad = first_bad_sentinel } else q)
topped-Bounds q b = ground arith

-- A size that splits the window becomes the last good one.
acked_raise-PeerInv :
    (d : PathMtuDiscovery) (sz now : ℕ) (p : PeerState)
    → Bounds p
    → p.phase ≡ raise
    → p.inflight ≡ none
    → p.grace ≡ none
    → p.last_good < sz
    → sz < p.first_bad
    → PeerInv 1 (acked_raise d sz now p)
unfolding acked_raise
acked_raise-PeerInv d sz now p b e f g lo hi = elim (Bool-cases (is_some (raise_target q))) [
  | inl t ↦ rw (t, acked_raise) (record { bounds = q_ok; shape = q_shape t })
  | inr t ↦
      rw (t, acked_raise)
        (enter_plateau-PeerInv 1 topped now d.raise_period d.raise_step d.stable_downgrade_batches
          (topped-Bounds q q_ok))
]
  where
    q : PeerState
    q = raised d sz p

    topped : PeerState
    topped = if leb max_mtu q.last_good then record q { first_bad = first_bad_sentinel } else q

    q_ok : Bounds q
    q_ok = raised-Bounds d sz p b lo hi

    q_shape : is_some (raise_target q) ≡ true → Shape 1 q q.phase
    q_shape t = raised-Shape d sz p e f g t

acked_binary-PeerInv :
    (d : PathMtuDiscovery) (sz now : ℕ) (p : PeerState)
    → 1 ≤ d.resolve_epsilon
    → Bounds p
    → p.phase ≡ binary
    → p.inflight ≡ none
    → p.grace ≡ none
    → p.last_good < sz
    → sz < p.first_bad
    → PeerInv 1 (acked_binary d sz now p)
unfolding acked_binary
acked_binary-PeerInv d sz now p one b e f g lo hi = ground arith

acked_downsearch-PeerInv :
    (d : PathMtuDiscovery) (sz now : ℕ) (p : PeerState)
    → 1 ≤ d.resolve_epsilon
    → Bounds p
    → p.phase ≡ down_search
    → p.inflight ≡ none
    → p.grace ≡ none
    → p.last_good < sz
    → sz < p.first_bad
    → PeerInv 1 (acked_downsearch d sz now p)
unfolding acked_downsearch
acked_downsearch-PeerInv d sz now p one b e f g lo hi = ground arith

Bounds-taken :
    (p : PeerState)
    → Bounds p
    → Bounds (record p { inflight = none; grace = none; ever_acked = true })
Bounds-taken p b = ground arith

Bounds-calm : (p : PeerState) → Bounds p → Bounds (record p { grace = none; ever_acked = true })
Bounds-calm p b = ground arith

acked_peer-PeerInv :
    (d : PathMtuDiscovery) (now : ℕ) (p : PeerState) (inf : Inflight) (ph : Phase)
    → 1 ≤ d.resolve_epsilon
    → PeerInv 1 p
    → p.phase ≡ ph
    → p.inflight ≡ some inf
    → PeerInv 1 (
        acked_peer d inf.size now
          (record p { inflight = none; grace = none; ever_acked = true })
          ph)
unfolding acked_peer
acked_peer-PeerInv d now p inf raise one v e f =
    acked_raise-PeerInv d inf.size now _ (Bounds-taken p v.bounds) e refl refl (ground arith)
      (ground arith)
acked_peer-PeerInv d now p inf binary one v e f =
    acked_binary-PeerInv d inf.size now _ one (Bounds-taken p v.bounds) e refl refl (ground arith)
      (ground arith)
acked_peer-PeerInv d now p inf down_search one v e f =
    acked_downsearch-PeerInv d inf.size now _ one (Bounds-taken p v.bounds) e refl refl
      (ground arith) (ground arith)
acked_peer-PeerInv d now p inf revalidate one v e f =
    enter_plateau-PeerInv 1 _ now d.raise_period d.raise_step d.stable_downgrade_batches
      (Bounds-taken p v.bounds)
acked_peer-PeerInv d now p inf recheck one v e f =
    enter_plateau-PeerInv 1 _ now d.raise_period d.raise_step d.stable_downgrade_batches
      (Bounds-taken p v.bounds)
acked_peer-PeerInv d now p inf plateau one v e f = ground arith
acked_peer-PeerInv d now p inf frozen one v e f = ground arith

matched_size :
    (a : Ack) (p : PeerState) (inf : Inflight)
    → inflight_match a p (some inf) ≡ true
    → a.size ≡ inf.size
matched_size a p inf h = ground arith

module _ (d : PathMtuDiscovery) (a : Ack) (now : ℕ) (ep : SocketAddr) (p : PeerState) (v : Inv d)
    (h : PeerInv 1 p) where
  ack_inflight-Inv : (inf : Inflight) → p.inflight ≡ some inf → Inv (ack_inflight d a now ep p).0
  unfolding ack_inflight
  ack_inflight-Inv inf f = elim (Bool-cases (inflight_match a p (some inf))) [
    | inl t ↦
        rw (f, ack_inflight, t)
          (recalc_min-Inv _ (
            put_peer-Inv d ep _ v (
              rw (matched_size a p inf t)
                (acked_peer-PeerInv d now p inf p.phase v.epsilon_pos h refl f))))
    | inr t ↦ rw (f, ack_inflight, t) v
  ]

  ack_grace-Inv : Inv (ack_grace d a now ep p).0
  unfolding ack_grace
  ack_grace-Inv = elim (Bool-cases (grace_match a now p.grace)) [
    | inl t ↦
        rw (t, ack_grace)
          (recalc_min-Inv _ (
            put_peer-Inv d ep _ v (
              enter_plateau-PeerInv 1 _ now d.raise_period d.raise_step d.stable_downgrade_batches
                (Bounds-calm p h.bounds))))
    | inr t ↦ rw (t, ack_grace) v
  ]

ack_peer-Inv :
    (d : PathMtuDiscovery) (a : Ack) (now : ℕ) (ep : SocketAddr)
    → Inv d
    → Inv (ack_peer d a now ep).0
unfolding ack_peer
ack_peer-Inv d a now ep v = elim (Option-cases (lookup ep d.peers)) [
  | inl e ↦ rw (e, ack_peer) v
  | inr (p, e) ↦ elim (Bool-cases (is_some p.inflight)) [
    | inl t ↦
        let (inf, f) = is_some→some p.inflight t in
        rw (e, ack_peer, t) (ack_inflight-Inv d a now ep p v (found-PeerInv d ep v e) inf f)
    | inr t ↦ rw (e, ack_peer, t) (ack_grace-Inv d a now ep p v (found-PeerInv d ep v e))
  ]
]

-- An acknowledgement keeps the invariant, whatever it claims and wherever it comes from.
pub on_ack-Inv :
    (d : PathMtuDiscovery) (from : SocketAddr) (size probe_id search_gen now : ℕ)
    → Inv d
    → Inv (on_ack d from size probe_id search_gen now).0
unfolding on_ack
on_ack-Inv d from size probe_id search_gen now v = elim (Bool-cases (is_some d.pinned)) [
  | inl t ↦ rw (t, on_ack) v
  | inr t ↦ elim (Option-cases (resolve_ack d ack now from)) [
    | inl e ↦ rw (t, on_ack, e) v
    | inr (ep, e) ↦ rw (t, on_ack, e) (ack_peer-Inv d ack now ep v)
  ]
]
  where
    ack : Ack
    ack = record { size = clamp_size size; probe_id = probe_id; search_gen = search_gen }

abbrev Checks : Phase → Type 0
Checks revalidate = Unit {0}
Checks recheck = Unit {0}
Checks _ = ⊥

rest-PeerInv :
    (epsilon : ℕ) (p : PeerState) (ph : Phase)
    → Bounds p
    → p.phase ≡ ph
    → Checks ph
    → PeerInv epsilon (record p { inflight = none; grace = none })
rest-PeerInv epsilon p revalidate b e c = ground arith
rest-PeerInv epsilon p recheck b e c = ground arith
rest-PeerInv epsilon p _ b e c = absurd c

flying-Fails :
    (epsilon : ℕ) (p : PeerState) (inf : Inflight) (ph : Phase)
    → PeerInv epsilon p
    → p.phase ≡ ph
    → p.inflight ≡ some inf
    → Fails p inf.size ph
flying-Fails epsilon p inf raise v e f = ground (arith, v.bounds)
flying-Fails epsilon p inf _ v e f = ground (arith, v.bounds)

-- The first probe that a hard failure fails is the one in flight.
module _ (d : PathMtuDiscovery) (ep : SocketAddr) (now : ℕ) (p : PeerState) (inf : Inflight)
    (v : Inv d) (found : lookup ep d.peers ≡ some p) (f : p.inflight ≡ some inf) where
  hard_fail_at-Inv : (ph : Phase) → p.phase ≡ ph → Inv (hard_fail_at d ep now p inf ph).0
  unfolding hard_fail_at
  hard_fail_at-Inv revalidate e =
      apply_soft_down-Inv (put_peer d ep _) ep now _ (
        put_peer-Inv d ep _ v
          (rest-PeerInv 1 p revalidate (found-PeerInv d ep v found).bounds e tt))
  hard_fail_at-Inv recheck e =
      apply_soft_down-Inv (put_peer d ep _) ep now _
        (put_peer-Inv d ep _ v (rest-PeerInv 1 p recheck (found-PeerInv d ep v found).bounds e tt))
  hard_fail_at-Inv _ e = confirmed_fail-Inv d ep inf.size now no_events v (λ q g.
      subst (λ r. Fails r inf.size r.phase) (some-injective p q (sym found ∙ g))
        (flying-Fails 1 p inf p.phase (found-PeerInv d ep v found) refl f))

-- A local send failure keeps the invariant.
pub on_send_hard_fail-Inv :
    (d : PathMtuDiscovery) (ep : SocketAddr) (probe_id now : ℕ)
    → Inv d
    → Inv (on_send_hard_fail d ep probe_id now).0
unfolding on_send_hard_fail hard_fail_of
on_send_hard_fail-Inv d ep probe_id now v = elim (Bool-cases (is_some d.pinned)) [
  | inl t ↦ rw (t, on_send_hard_fail) v
  | inr t ↦ elim (Option-cases (lookup ep d.peers)) [
    | inl e ↦ rw (t, on_send_hard_fail, e) v
    | inr (p, e) ↦ elim (Option-cases p.inflight) [
      | inl f ↦ rw (t, on_send_hard_fail, e, hard_fail_of, f) v
      | inr (inf, f) ↦ rw (t, on_send_hard_fail, e) (of_peer p e inf f)
    ]
  ]
]
  where
    of_peer :
        (p : PeerState)
        → lookup ep d.peers ≡ some p
        → (inf : Inflight) → p.inflight ≡ some inf
        → Inv (hard_fail_of d ep probe_id now p).0
    of_peer p e inf f = elim (Bool-cases (not (eqb inf.probe_id probe_id) || eqb inf.probe_id 0)) [
      | inl t ↦ rw (f, hard_fail_of, t) v
      | inr t ↦ rw (f, hard_fail_of, t) (hard_fail_at-Inv d ep now p inf v e f p.phase refl)
    ]

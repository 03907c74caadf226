-- ===== src/Pmtud/ProbeInv.antt =====
-- Sending probes and timing them out (src/pmtud.rs), against the invariant of the table of peers.
use mathlib.Core.Path.{subst}
use mathlib.Core.Option.{some-injective}
use mint_connect_unit.Prelude.{
  ℕ, ◌≤◌, ◌<◌, ◌≡◌, refl, sym, ◌∙◌, inl, inr, Bool, true, Option, none, some, arith,
  saturating_add_u32, Bool-cases, if-elim, is_some, Option-cases, ltb, leb, ◌||◌,
}
use mint_connect_unit.Prelude.Table.{lookup, lookup-insert_self}
use mint_connect_unit.Addr.{SocketAddr, addr_key}
use mint_connect_unit.Pmtud.State.{
  PathMtuDiscovery, PeerState, Inflight, GraceProbe, ProbeIntent, PmtudEventCounts, Phase, plateau,
  raise, binary, revalidate, recheck, down_search, frozen, min_mtu, max_mtu, is_recheck,
}
use mint_connect_unit.Pmtud.Peer.{
  window_closed, raise_target, binary_target, enter_frozen, begin_probe, maybe_budget_freeze,
}
use mint_connect_unit.Pmtud.Fail.{put_peer}
use mint_connect_unit.Pmtud.Probe.{
  next_probe_id, Choice, leave, move_to, probe, probe_target, choose_size, choose, send_probe,
  issue_probe, resend_probe, retry_timeout, wants_grace, final_timeout, timeout_of, on_timeout,
  count_timeout,
}
use mint_connect_unit.Pmtud.Inv.{
  PeerInv, enter_plateau-PeerInv, finish_downsearch-PeerInv, raise_target_inside,
  binary_target_inside, budget_freeze-PeerInv,
}
use mint_connect_unit.Pmtud.FailInv.{Inv, put_peer-Inv, found-PeerInv, Fails, confirmed_fail-Inv}

-- What a peer may be asked for: a size that splits its window in a search, and one that can be probed
-- in a check of `stable`; nothing at rest.
abbrev pub Askable : PeerState → ℕ → Phase → Type 0
Askable p size raise = (p.last_good < size) × (size < p.first_bad) × (size ≤ max_mtu)
Askable p size binary = (p.last_good < size) × (size < p.first_bad) × (size ≤ max_mtu)
Askable p size down_search = (p.last_good < size) × (size < p.first_bad) × (size ≤ max_mtu)
Askable p size revalidate = (min_mtu ≤ size) × (size ≤ max_mtu)
Askable p size recheck = (min_mtu ≤ size) × (size ≤ max_mtu)
Askable p size plateau = ⊥
Askable p size frozen = ⊥

-- What `issue_probe` may decide.
abbrev pub ChoiceOk : ℕ → PeerState → Choice → Type 0
ChoiceOk epsilon p leave = Unit {0}
ChoiceOk epsilon p (move_to q) = PeerInv epsilon q
ChoiceOk epsilon p (probe size) = (p.inflight ≡ none) × (p.grace ≡ none) × Askable p size p.phase

module _ (d : PathMtuDiscovery) (now : ℕ) (p : PeerState) (v : PeerInv 1 p)
    (idle : p.inflight ≡ none) (calm : p.grace ≡ none) where
  probe_target-ok :
      (o : Option ℕ)
      → ((t : ℕ) → o ≡ some t → ChoiceOk 1 p (probe t))
      → ChoiceOk 1 p (probe_target o)
  probe_target-ok none h = tt
  probe_target-ok (some t) h = h t refl

  choose_size-ok : (ph : Phase) → p.phase ≡ ph → ChoiceOk 1 p (choose_size d now p ph)
  unfolding choose_size
  choose_size-ok raise e =
      probe_target-ok (raise_target p) (λ t h. (idle, calm, rw e (raise_target_inside p h)))
  choose_size-ok binary e = elim (Bool-cases (window_closed p d.resolve_epsilon)) [
    | inl h ↦ rw h (
        enter_plateau-PeerInv 1 p now d.raise_period d.raise_step d.stable_downgrade_batches
          v.bounds)
    | inr h ↦ rw h (
        probe_target-ok (binary_target p)
          (λ t k. (idle, calm, rw e (binary_target_inside p v.bounds k))))
  ]
  choose_size-ok down_search e = elim (Bool-cases (window_closed p d.resolve_epsilon)) [
    | inl h ↦ rw h (
        finish_downsearch-PeerInv 1 p now d.raise_period d.raise_step d.stable_downgrade_batches
          v.bounds)
    | inr h ↦ rw h (
        probe_target-ok (binary_target p)
          (λ t k. (idle, calm, rw e (binary_target_inside p v.bounds k))))
  ]
  choose_size-ok revalidate e = (idle, calm, rw e (ground (arith, v.bounds)))
  choose_size-ok recheck e = (idle, calm, rw e (ground (arith, v.bounds)))
  choose_size-ok plateau e = tt
  choose_size-ok frozen e = tt

-- `issue_probe` leaves a peer, puts it in a phase that keeps the invariant, or asks for a size that
-- fits its phase.
choose-ok :
    (d : PathMtuDiscovery) (now : ℕ) (p : PeerState) → PeerInv 1 p → ChoiceOk 1 p (choose d now p)
unfolding choose
choose-ok d now p v = elim (Bool-cases (is_some p.inflight || is_some p.grace)) [
  | inl h ↦ rw (h, choose) tt
  | inr h ↦
      rw (h, choose)
        (if-elim (ChoiceOk 1 p) frozen?.1 (move_to frozen?.0) (choose_size d now p p.phase)
          (λ _. budget_freeze-PeerInv 1 p now d.raise_period d.max_probes_per_search v)
          (λ _. choose_size-ok d now p v (ground arith) (ground arith) p.phase refl))
]
  where
    frozen? : PeerState × Bool
    frozen? = maybe_budget_freeze p now d.raise_period d.max_probes_per_search

-- A size that may be asked for may be sent: the probe splits the window.
begin_probe-PeerInv :
    (epsilon : ℕ) (p : PeerState) (id size deadline confirms : ℕ) (ph : Phase)
    → PeerInv epsilon p
    → p.phase ≡ ph
    → Askable p size ph
    → PeerInv epsilon (begin_probe p id size deadline confirms)
unfolding begin_probe raise_target
begin_probe-PeerInv epsilon p id size deadline confirms raise v e a = ground (arith, v.bounds)
begin_probe-PeerInv epsilon p id size deadline confirms binary v e a = ground (arith, v.bounds)
begin_probe-PeerInv epsilon p id size deadline confirms down_search v e a = ground (arith, v.bounds)
begin_probe-PeerInv epsilon p id size deadline confirms revalidate v e a = ground (arith, v.bounds)
begin_probe-PeerInv epsilon p id size deadline confirms recheck v e a = ground (arith, v.bounds)
begin_probe-PeerInv epsilon p id size deadline confirms plateau v e a = absurd a
begin_probe-PeerInv epsilon p id size deadline confirms frozen v e a = absurd a

send_probe-Inv :
    (d : PathMtuDiscovery) (ep : SocketAddr) (now : ℕ) (p : PeerState) (size : ℕ)
    → Inv d
    → PeerInv 1 p
    → Askable p size p.phase
    → Inv (send_probe d ep now p size).0
unfolding send_probe
send_probe-Inv d ep now p size v h a =
    put_peer-Inv (next_probe_id d).0 ep _
      (record {
        peers_ok = v.peers_ok;
        pin_ok = v.pin_ok;
        distinct = v.distinct;
        epsilon_pos = v.epsilon_pos;
      })
      (begin_probe-PeerInv 1 p _ size _ d.confirm_count p.phase h refl a)

-- `issue_probe` keeps the invariant.
pub issue_probe-Inv :
    (d : PathMtuDiscovery) (ep : SocketAddr) (now : ℕ) → Inv d → Inv (issue_probe d ep now).0
unfolding issue_probe
issue_probe-Inv d ep now v = elim (Option-cases (lookup ep d.peers)) [
  | inl e ↦ rw (e, issue_probe) v
  | inr (p, e) ↦
      rw (e, issue_probe)
        (of_choice p (found-PeerInv d ep v e) (choose d now p)
          (choose-ok d now p (found-PeerInv d ep v e)))
]
  where
    of_choice :
        (p : PeerState)
        → PeerInv 1 p
        → (c : Choice) → ChoiceOk 1 p c
        → Inv (
            let r : PathMtuDiscovery × Option ProbeIntent = elim c [
              | leave ↦ (d, none)
              | move_to q ↦ (put_peer d ep q, none)
              | probe size ↦ send_probe d ep now p size
            ] in
            r.0)
    of_choice p h leave c = v
    of_choice p h (move_to q) c = put_peer-Inv d ep q v c
    of_choice p h (probe size) c = send_probe-Inv d ep now p size v h c.2

-- A probe is taken back, or sent again at the same size.
taken-PeerInv :
    (epsilon : ℕ) (p : PeerState) (ph : Phase)
    → PeerInv epsilon p
    → p.phase ≡ ph
    → PeerInv epsilon (record p { inflight = none })
unfolding raise_target
taken-PeerInv epsilon p raise v e = ground (arith, v.bounds)
taken-PeerInv epsilon p _ v e = ground (arith, v.bounds)

rearmed-PeerInv :
    (epsilon : ℕ) (p : PeerState) (inf again : Inflight) (used : ℕ) (ph : Phase)
    → PeerInv epsilon p
    → p.phase ≡ ph
    → p.inflight ≡ some inf
    → again.size ≡ inf.size
    → PeerInv epsilon (record p { inflight = some again; probes_used = used })
unfolding raise_target
rearmed-PeerInv epsilon p inf again used raise v e f s = ground (arith, v.bounds)
rearmed-PeerInv epsilon p inf again used _ v e f s = ground (arith, v.bounds)

-- The grace window opens in the two checks of `stable` alone.
graced-PeerInv :
    (epsilon : ℕ) (p : PeerState) (g : GraceProbe) (ph : Phase)
    → PeerInv epsilon p
    → p.phase ≡ ph
    → wants_grace ph ≡ true
    → PeerInv epsilon (record p { inflight = none; grace = some g })
graced-PeerInv epsilon p g revalidate v e w = ground (arith, v.bounds)
graced-PeerInv epsilon p g _ v e w = ground (arith, v.bounds)

-- A probe that was in flight may fail.
taken-Fails :
    (epsilon : ℕ) (p : PeerState) (inf : Inflight) (ph : Phase)
    → PeerInv epsilon p
    → p.phase ≡ ph
    → p.inflight ≡ some inf
    → Fails (record p { inflight = none }) inf.size ph
taken-Fails epsilon p inf raise v e f = ground (arith, v.bounds)
taken-Fails epsilon p inf _ v e f = ground (arith, v.bounds)

module _ (d : PathMtuDiscovery) (ep : SocketAddr) (now : ℕ) (p : PeerState) (inf : Inflight)
    (v : Inv d) (h : PeerInv 1 p) (f : p.inflight ≡ some inf) where
  resend_probe-Inv :
      (used : ℕ)
      → Inv (resend_probe d ep now (record p { inflight = none; probes_used = used }) inf).0
  unfolding resend_probe
  resend_probe-Inv used =
      put_peer-Inv (next_probe_id d).0 ep _
        (record {
          peers_ok = v.peers_ok;
          pin_ok = v.pin_ok;
          distinct = v.distinct;
          epsilon_pos = v.epsilon_pos;
        })
        (rearmed-PeerInv 1 p inf _ used p.phase h refl f refl)

  frozen-ok :
      (used : ℕ)
      → PeerInv 1
          (enter_frozen (record p { inflight = none; probes_used = used }) now d.raise_period)
  unfolding enter_frozen
  frozen-ok used = ground (arith, h.bounds)

  retry_timeout-Inv : Inv (retry_timeout d ep now (record p { inflight = none }) inf).0
  unfolding retry_timeout
  retry_timeout-Inv = elim (Bool-cases (is_recheck p.phase)) [
    | inl r ↦ rw (r, retry_timeout) (resend_probe-Inv p.probes_used)
    | inr r ↦ elim (Bool-cases (leb d.max_probes_per_search (saturating_add_u32 p.probes_used 1))) [
      | inl full ↦
          rw (r, retry_timeout, full)
            (put_peer-Inv d ep _ v (frozen-ok (saturating_add_u32 p.probes_used 1)))
      | inr more ↦ rw (r, retry_timeout, more) (resend_probe-Inv _)
    ]
  ]

  final_timeout-Inv :
      (ev : PmtudEventCounts) → Inv (final_timeout d ep now (record p { inflight = none }) inf ev).0
  unfolding final_timeout
  final_timeout-Inv ev = elim (Bool-cases (wants_grace p.phase)) [
    | inl g ↦ rw (g, final_timeout) (put_peer-Inv d ep _ v (graced-PeerInv 1 p _ p.phase h refl g))
    | inr g ↦
        rw (g, final_timeout)
          (confirmed_fail-Inv (put_peer d ep taken) ep inf.size now ev
            (put_peer-Inv d ep taken v (taken-PeerInv 1 p p.phase h refl))
            (λ q e.
              subst (λ r. Fails r inf.size r.phase)
                (some-injective taken q (sym (lookup-insert_self ep taken d.peers) ∙ e))
                (taken-Fails 1 p inf p.phase h refl f)))
  ]
    where
      taken : PeerState
      taken = record p { inflight = none }

  timeout_of-Inv : (ev : PmtudEventCounts) → Inv (timeout_of d ep now ev p inf).0
  unfolding timeout_of
  timeout_of-Inv ev = elim (Bool-cases (ltb 1 inf.confirms_left)) [
    | inl more ↦ rw (more, timeout_of) retry_timeout-Inv
    | inr last ↦ rw (last, timeout_of) (final_timeout-Inv (count_timeout ev))
  ]

-- `on_timeout` keeps the invariant.
pub on_timeout-Inv :
    (d : PathMtuDiscovery) (ep : SocketAddr) (now : ℕ) (ev : PmtudEventCounts)
    → Inv d
    → Inv (on_timeout d ep now ev).0
unfolding on_timeout
on_timeout-Inv d ep now ev v = elim (Option-cases (lookup ep d.peers)) [
  | inl e ↦ rw (e, on_timeout) v
  | inr (p, e) ↦ elim (Option-cases p.inflight) [
    | inl f ↦ rw (e, on_timeout, f) v
    | inr (inf, f) ↦
        rw (e, on_timeout, f) (timeout_of-Inv d ep now p inf v (found-PeerInv d ep v e) f ev)
  ]
]

-- ===== src/Pmtud/Issued.antt =====
-- A probe that went out and the acknowledgement of it; how many probes a tick sends (src/pmtud.rs).
use mathlib.Core.Option.{some-injective}
use mathlib.Core.Path.{subst}
use mint_connect_unit.Addr.{SocketAddr, addr_key}
use mint_connect_unit.Pmtud.Ack.{Ack, ack_inflight, ack_peer, inflight_match, on_ack, resolve_ack}
use mint_connect_unit.Pmtud.Fail.{put_peer}
use mint_connect_unit.Pmtud.Peer.{begin_probe, clamp_size, timeout_for_peer}
use mint_connect_unit.Pmtud.Probe.{
  Choice, choose, issue_probe, leave, move_to, next_probe_id, probe, send_probe,
}
use mint_connect_unit.Pmtud.State.{PathMtuDiscovery, PeerState, ProbeIntent}
use mint_connect_unit.Pmtud.Tick.{issue_loop, issue_probes}
use mint_connect_unit.Prelude.{
  Bool-cases, List, Option, Option-cases, [], arith, eqb, false, get_elem?, if◌then◌else◌, inl, inr,
  is_some, leb, length, length-append, max, min, none, not, some, suc, true, wrapping_add_u32, zero,
  ℕ, ◌%◌, ◌+◌, ◌-◌, ◌∷◌, ◌≡◌, ◌≤◌,
}
use mint_connect_unit.Prelude.Table.{lookup, lookup-insert_self}

-- An acknowledgement from a peer's own endpoint that matches its probe in flight counts.
matching_ack :
    (d : PathMtuDiscovery) (ep : SocketAddr) (size probe_id search_gen now : ℕ) (p : PeerState)
    → is_some d.pinned ≡ false
    → lookup ep d.peers ≡ some p
    → is_some p.inflight ≡ true
    → inflight_match
        (record { size = clamp_size size; probe_id = probe_id; search_gen = search_gen })
        p
        p.inflight
      ≡ true
    → (on_ack d ep size probe_id search_gen now).1 ≡ true
unfolding on_ack resolve_ack ack_peer ack_inflight
matching_ack d ep size probe_id search_gen now p u f s m =
    rw (u, on_ack, sent_to_peer) (rw (f, ack_peer, s, ack_inflight, m))
  where
    a : Ack
    a = record { size = clamp_size size; probe_id = probe_id; search_gen = search_gen }

    sent_to_peer : resolve_ack d a now ep ≡ some ep
    sent_to_peer = rw (f, resolve_ack)

begin_probe-match :
    (p : PeerState) (id size deadline confirms : ℕ)
    → not (eqb id 0) ≡ true
    → let q = begin_probe p id size deadline confirms in
      (is_some q.inflight ≡ true)
      × (inflight_match
            (record { size = clamp_size size; probe_id = id; search_gen = p.search_gen })
            q
            q.inflight
          ≡ true)
unfolding begin_probe
begin_probe-match p id size deadline confirms z = ground arith

-- What an acknowledgement of the intent does to a state.
abbrev Acked : ℕ → SocketAddr → PathMtuDiscovery → ProbeIntent → Type 0
Acked later ep d x = (on_ack d ep x.size x.probe_id x.search_gen later).1 ≡ true

send_probe-Acked :
    (d : PathMtuDiscovery) (ep : SocketAddr) (now later : ℕ) (p : PeerState) (size : ℕ)
    (x : ProbeIntent)
    → is_some d.pinned ≡ false
    → (send_probe d ep now p size).1 ≡ some x
    → not (eqb x.probe_id 0) ≡ true
    → Acked later ep (send_probe d ep now p size).0 x
unfolding send_probe next_probe_id
send_probe-Acked d ep now later p size x u e z =
    subst (λ y. not (eqb y.probe_id 0) ≡ true → Acked later ep (send_probe d ep now p size).0 y)
      (some-injective sent x e)
      (λ nz.
        let (busy, same) = begin_probe-match p id size deadline d.confirm_count nz in
        matching_ack (send_probe d ep now p size).0 ep size id p.search_gen later _ u
          (lookup-insert_self ep _ d.peers) busy same)
      z
  where
    id : ℕ
    id = wrapping_add_u32 d.probe_id_counter 1

    deadline : ℕ
    deadline = now + timeout_for_peer d.probe_timeout p

    sent : ProbeIntent
    sent = record { peer = ep; size = size; probe_id = id; search_gen = p.search_gen }

-- Unless the size is pinned, a probe that `issue_probe` sends is one that an acknowledgement with its
-- size, identifier and generation, from its endpoint, answers at any later time, if its identifier is
-- not 0.
pub issue_probe-Acked :
    (d : PathMtuDiscovery) (ep : SocketAddr) (now later : ℕ) (x : ProbeIntent)
    → is_some d.pinned ≡ false
    → (issue_probe d ep now).1 ≡ some x
    → not (eqb x.probe_id 0) ≡ true
    → Acked later ep (issue_probe d ep now).0 x
unfolding issue_probe
issue_probe-Acked d ep now later x u e z = elim (Option-cases (lookup ep d.peers)) [
  | inl f ↦ absurd (cc (rw (issue_probe, f) at e))
  | inr (p, f) ↦ rw (issue_probe, f) (of_choice p (choose d now p) (rw (issue_probe, f) at e))
]
  where
    of_choice :
        (p : PeerState) (c : Choice)
        → let r : PathMtuDiscovery × Option ProbeIntent = elim c [
          | leave ↦ (d, none)
          | move_to q ↦ (put_peer d ep q, none)
          | probe size ↦ send_probe d ep now p size
        ] in
          r.1 ≡ some x → Acked later ep r.0 x
    of_choice p leave g = absurd (cc g)
    of_choice p (move_to q) g = absurd (cc g)
    of_choice p (probe size) g = send_probe-Acked d ep now later p size x u g z

-- The number of intents of the loop is the number it counts, and stays at its cap.
issue_loop-cap :
    (rounds i : ℕ) (d : PathMtuDiscovery) (now : ℕ) (want : List SocketAddr) (cap issued : ℕ)
    → issued ≤ cap
    → let (e, xs, n) = issue_loop rounds i d now want cap issued in
      (length xs + issued ≡ n) × (n ≤ cap)
unfolding issue_loop
issue_loop-cap zero i d now want cap issued h = (omega arith, h)
issue_loop-cap (suc rounds) i d now want cap issued h = elim (Bool-cases (leb cap issued)) [
  | inl c ↦ rw (c, issue_loop) (omega arith, h)
  | inr c ↦ elim (Option-cases (get_elem? want ((d.rr_cursor + i) % length want))) [
    | inl g ↦ rw (c, issue_loop, g) (omega arith, h)
    | inr (ep, g) ↦ elim (Option-cases (issue_probe d ep now).1) [
      | inl o ↦
          rw (c, issue_loop, g, o)
            (issue_loop-cap rounds (i + 1) (issue_probe d ep now).0 now want cap issued h)
      | inr (x, o) ↦
          let ih =
            issue_loop-cap rounds (i + 1) (issue_probe d ep now).0 now want cap (issued + 1)
              (ground arith) in
          rw (c, issue_loop, g, o) (omega (arith, ih.0), ih.1)
    ]
  ]
]

-- However many peers want a probe, the tick sends no more probes than `max_concurrent_peers`, unless the
-- timeouts alone have sent more, and then it adds none.
pub issue_probes-cap :
    (d : PathMtuDiscovery) (now : ℕ) (want : List SocketAddr) (intents : List ProbeIntent)
    → length (issue_probes d now want intents).1 ≤ max (length intents) d.max_concurrent_peers
unfolding issue_probes
issue_probes-cap d now [] intents = omega arith
issue_probes-cap d now (w ∷ ws) intents =
    let want = w ∷ ws in
    let cap = min (d.max_concurrent_peers - length intents) (length want) in
    let e : PathMtuDiscovery = record d {
      rr_cursor = if leb (length want) d.rr_cursor then 0 else d.rr_cursor;
    } in
    let h = issue_loop-cap (length want) 0 e now want cap 0 (omega arith) in
    omega (arith, h.0, h.1, length-append intents (issue_loop (length want) 0 e now want cap 0).1)

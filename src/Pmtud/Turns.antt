-- ===== src/Pmtud/Turns.antt =====
-- The steps of the probes of one peer (src/pmtud.rs), one lemma for each: a probe that goes out, its acknowledgement, its
-- timeouts with a probe sent again and with none.
use mathlib.Core.Path.{subst}
use mint_connect_unit.Addr.{SocketAddr, addr_key}
use mint_connect_unit.Pmtud.Ack.{
  Ack, ack_inflight, ack_peer, acked_binary, acked_peer, inflight_match, on_ack, resolve_ack,
}
use mint_connect_unit.Pmtud.Exchange.{
  Tracks, Tuning, answer, choose-leave, choose-probe, next_probe_id-Tracks, put-Tracks,
  recalc_min-Tracks,
}
use mint_connect_unit.Pmtud.Fail.{
  apply_timeout_confirmed_fail, binary_fail_peer, confirmed_fail_at, put_peer, recalc_min,
}
use mint_connect_unit.Pmtud.Peer.{begin_probe, binary_target, clamp_size, timeout_for_peer}
use mint_connect_unit.Pmtud.Probe.{
  choose, count_timeout, final_timeout, issue_probe, next_probe_id, on_timeout, probe, resend_probe,
  retry_timeout, send_probe, timeout_of, wants_grace,
}
use mint_connect_unit.Pmtud.State.{
  Inflight, PathMtuDiscovery, PeerState, PmtudEventCounts, binary, no_events, plateau,
}
use mint_connect_unit.Prelude.{
  arith, eqb, false, leb, ltb, none, not, refl, saturating_add_u32, some, suc, sym, true, ℕ, ◌+◌,
  ◌-◌, ◌<◌, ◌≡◌, ◌≤◌,
}
use mint_connect_unit.Prelude.Table.{lookup, lookup-insert_self}

confirmed_fail_binary :
    (d : PathMtuDiscovery) (ep : SocketAddr) (size now : ℕ) (ev : PmtudEventCounts) (p : PeerState)
    → lookup ep d.peers ≡ some p
    → p.phase ≡ binary
    → (apply_timeout_confirmed_fail d ep size now ev).0
      ≡ put_peer d ep (binary_fail_peer d size now p)
unfolding apply_timeout_confirmed_fail confirmed_fail_at
confirmed_fail_binary d ep size now ev p f b = rw (apply_timeout_confirmed_fail, f) (rw b refl)

module _ (limit : ℕ) (tu : Tuning) (ep : SocketAddr) (s now : ℕ) (d : PathMtuDiscovery)
    (p : PeerState) where
  pub answer-issue :
      {t : ℕ}
      → Tracks tu ep (suc s) d p
      → p.inflight ≡ none
      → p.grace ≡ none
      → p.phase ≡ binary
      → p.probes_used < tu.max_probes
      → p.last_good + tu.epsilon < p.first_bad
      → binary_target p ≡ some t
      → (id deadline : ℕ) × (not (eqb id 0) ≡ true)
        × Tracks tu ep s (answer limit ep d now) (begin_probe p id t deadline d.confirm_count)
  unfolding answer issue_probe send_probe begin_probe timeout_for_peer
  answer-issue {t = t} h i g b u w e =
      let (k, z) = next_probe_id-Tracks tu ep s d p h in
      let deadline = now + timeout_for_peer d.probe_timeout p in
      let q = begin_probe p (next_probe_id d).1 t deadline d.confirm_count in
      let chosen : choose d now p ≡ probe t = choose-probe tu ep (suc s) d p now h i g b u w e in
      let same : answer limit ep d now ≡ put_peer (next_probe_id d).0 ep q =
        rw (answer, h.found) (rw i (rw (issue_probe, h.found, chosen) refl)) in
      (
        (next_probe_id d).1,
        deadline,
        z,
        subst (λ r. Tracks tu ep s r q) (sym same) (put-Tracks tu ep s (next_probe_id d).0 p q k),
      )

  pub answer-rest :
      Tracks tu ep s d p
      → p.inflight ≡ none
      → p.grace ≡ none
      → p.phase ≡ plateau
      → p.probes_used < tu.max_probes
      → answer limit ep d now ≡ d
  unfolding answer issue_probe
  answer-rest h i g b u =
      rw (answer, h.found, i, issue_probe, h.found, choose-leave tu ep s d p now h i g b u) refl

  module _ (inf : Inflight) (out : p.inflight ≡ some inf) (searching : p.phase ≡ binary) where
    pub answer-ack :
        Tracks tu ep s d p
        → not (eqb inf.probe_id 0) ≡ true
        → clamp_size inf.size ≡ inf.size
        → inf.size ≤ limit
        → Tracks tu ep s (answer limit ep d now) (
            acked_binary d inf.size now
              (record p { inflight = none; grace = none; ever_acked = true }))
    unfolding answer on_ack resolve_ack ack_peer ack_inflight acked_peer
    answer-ack h z c l =
        let a : Ack = record {
          size = clamp_size inf.size;
          probe_id = inf.probe_id;
          search_gen = p.search_gen;
        } in
        let carried : leb inf.size limit ≡ true = ground arith in
        let matched : inflight_match a p (some inf) ≡ true = ground arith in
        let q : PeerState = record p { inflight = none; grace = none; ever_acked = true } in
        let sent_to_peer : resolve_ack d a now ep ≡ some ep = rw (h.found, resolve_ack) in
        let same : answer limit ep d now
            ≡ recalc_min (put_peer d ep (acked_binary d inf.size now q)) =
          rw (answer, h.found, out, carried, on_ack, h.unpinned, sent_to_peer)
            (rw (h.found, ack_peer, out, ack_inflight, matched, searching, c) refl) in
        subst (λ r. Tracks tu ep s r (acked_binary d inf.size now q)) (sym same)
          (recalc_min-Tracks tu ep s _ _ (put-Tracks tu ep s d p (acked_binary d inf.size now q) h))

    pub answer-retry :
        Tracks tu ep (suc s) d p
        → limit < inf.size
        → 1 < inf.confirms_left
        → p.probes_used + 1 < tu.max_probes
        → (resent : Inflight) × (resent.size ≡ inf.size)
          × (resent.confirms_left ≡ inf.confirms_left - 1)
          × (not (eqb resent.probe_id 0) ≡ true)
          × Tracks tu ep s (answer limit ep d now) (record p {
            inflight = some resent;
            probes_used = saturating_add_u32 p.probes_used 1;
          })
    unfolding answer on_timeout timeout_of retry_timeout resend_probe timeout_for_peer
    answer-retry h l c u =
        let refused : leb inf.size limit ≡ false = ground arith in
        let more : ltb 1 inf.confirms_left ≡ true = ground arith in
        let (k, z) = next_probe_id-Tracks tu ep s d p h in
        let resent : Inflight = record inf {
          probe_id = (next_probe_id d).1;
          deadline = now + timeout_for_peer d.probe_timeout p;
          confirms_left = inf.confirms_left - 1;
        } in
        let used = saturating_add_u32 p.probes_used 1 in
        let left : leb d.max_probes_per_search used ≡ false = ground (arith, h.same_max) in
        let q : PeerState = record p { inflight = some resent; probes_used = used } in
        let same : answer limit ep d now ≡ put_peer (next_probe_id d).0 ep q =
          rw
            (
              answer, h.found, out, refused, on_timeout, h.found, out, timeout_of, more,
              retry_timeout,
            )
            (rw (searching, left, resend_probe) refl) in
        (
          resent,
          refl,
          refl,
          z,
          subst (λ r. Tracks tu ep s r q) (sym same) (put-Tracks tu ep s (next_probe_id d).0 p q k),
        )

    pub answer-fail :
        Tracks tu ep s d p
        → limit < inf.size
        → inf.confirms_left ≤ 1
        → let taken : PeerState = record p { inflight = none } in
          Tracks tu ep s
            (answer limit ep d now)
            (binary_fail_peer (put_peer d ep taken) inf.size now taken)
    unfolding answer on_timeout timeout_of final_timeout apply_timeout_confirmed_fail
        confirmed_fail_at
    answer-fail h l c =
        let refused : leb inf.size limit ≡ false = ground arith in
        let last : ltb 1 inf.confirms_left ≡ false = ground arith in
        let taken : PeerState = record p { inflight = none } in
        let held = put_peer d ep taken in
        let q = binary_fail_peer held inf.size now taken in
        let written : lookup ep held.peers ≡ some taken = lookup-insert_self ep taken d.peers in
        let no_grace : wants_grace p.phase ≡ false = rw searching refl in
        let same : answer limit ep d now ≡ put_peer held ep q =
          rw (answer, h.found, out, refused, on_timeout, h.found)
            (rw out (
              rw (timeout_of, last, final_timeout, no_grace)
                (confirmed_fail_binary held ep inf.size now (count_timeout no_events) taken written
                  searching))) in
        subst (λ r. Tracks tu ep s r q) (sym same)
          (put-Tracks tu ep s held taken q (put-Tracks tu ep s d p taken h))

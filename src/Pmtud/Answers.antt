-- ===== src/Pmtud/Answers.antt =====
-- What an acknowledgement does (src/pmtud.rs): which ones count, and what they leave behind.
use mathlib.Core.Option.{some-injective}
use mint_connect_unit.Addr.{SocketAddr, addr_key, ip_key, same_ip}
use mint_connect_unit.Pmtud.Ack.{
  Ack, AckResult, ack_candidate, ack_grace, ack_inflight, ack_match, ack_peer, grace_match, ignored,
  inflight_match, on_ack, resolve_ack,
}
use mint_connect_unit.Pmtud.Peer.{clamp_size}
use mint_connect_unit.Pmtud.State.{PathMtuDiscovery, PeerState}
use mint_connect_unit.Prelude.{
  Bool-cases, Option, Option-cases, [], arith, false, inl, inr, is_some, none, refl, same_self,
  some, sym, true, ℕ, ◌&&◌, ◌∷◌, ◌≡◌, ◌⊎◌,
}
use mint_connect_unit.Prelude.Table.{Table, has_key, lookup}

-- The peer whose probe an acknowledgement answers.
pub record Answers (d : PathMtuDiscovery) (a : Ack) (now : ℕ) (ep : SocketAddr) (r : AckResult)
    : Type 0 where
  pub peer : PeerState
  pub found : lookup ep d.peers ≡ some peer
  pub matched : ack_match a now peer ≡ true
  pub counted : r.1 ≡ true

ack_peer-Answers :
    (d : PathMtuDiscovery) (a : Ack) (now : ℕ) (ep : SocketAddr)
    → (ack_peer d a now ep ≡ ignored d) ⊎ Answers d a now ep (ack_peer d a now ep)
unfolding ack_peer ack_inflight ack_grace ack_match
ack_peer-Answers d a now ep = elim (Option-cases (lookup ep d.peers)) [
  | inl e ↦ inl (rw (e, ack_peer))
  | inr (p, e) ↦ elim (Bool-cases (is_some p.inflight)) [
    | inl t ↦ elim (Bool-cases (inflight_match a p p.inflight)) [
      | inl m ↦ inr (record {
        peer = p;
        found = e;
        matched = rw (t, ack_match) m;
        counted = rw (e, ack_peer, t, ack_inflight, m);
      })
      | inr m ↦ inl (rw (e, ack_peer, t, ack_inflight, m))
    ]
    | inr t ↦ elim (Bool-cases (grace_match a now p.grace)) [
      | inl m ↦ inr (record {
        peer = p;
        found = e;
        matched = rw (t, ack_match) m;
        counted = rw (e, ack_peer, t, ack_grace, m);
      })
      | inr m ↦ inl (rw (e, ack_peer, t, ack_grace, m))
    ]
  ]
]

ack_candidate-same_ip :
    (a : Ack) (now : ℕ) (from : SocketAddr) (found : Option SocketAddr)
    (m : Table SocketAddr PeerState) (ep : SocketAddr)
    → ((x : SocketAddr) → found ≡ some x → same_ip x.ip from.ip ≡ true)
    → ack_candidate a now from found m ≡ some ep
    → same_ip ep.ip from.ip ≡ true
unfolding ack_candidate
ack_candidate-same_ip a now from found [] ep h e = h ep e
ack_candidate-same_ip a now from found ((k, p) ∷ m) ep h e =
    elim (Bool-cases (same_ip k.ip from.ip && ack_match a now p)) [
      | inr c ↦ ack_candidate-same_ip a now from found m ep h (rw (ack_candidate, c) at e)
      | inl c ↦ elim (Option-cases found) [
        | inl f ↦
            ack_candidate-same_ip a now from (some k) m ep
              (λ x g. ground (arith, some-injective k x g)) (rw (ack_candidate, c, f) at e)
        | inr (y, f) ↦ absurd (cc (rw (ack_candidate, c, f) at e))
      ]
    ]

resolve_ack-same_ip :
    (d : PathMtuDiscovery) (a : Ack) (now : ℕ) (from ep : SocketAddr)
    → resolve_ack d a now from ≡ some ep
    → same_ip ep.ip from.ip ≡ true
unfolding resolve_ack
resolve_ack-same_ip d a now from ep e = elim (Bool-cases (has_key from d.peers)) [
  | inl t ↦ rw (sym (some-injective from ep (rw (t, resolve_ack) at e))) (same_self from.ip)
  | inr t ↦
      ack_candidate-same_ip a now from none d.peers ep (λ x g. absurd (cc g))
        (rw (t, resolve_ack) at e)
]

-- An acknowledgement either changes nothing and does not count, or it counts, the size is not pinned,
-- and it matches the outstanding probe of one peer: the sender itself, or one with the same address.
pub on_ack-Answers :
    (d : PathMtuDiscovery) (from : SocketAddr) (size probe_id search_gen now : ℕ)
    → let r = on_ack d from size probe_id search_gen now in
      let a : Ack = record {
        size = clamp_size size;
        probe_id = probe_id;
        search_gen = search_gen;
      } in
      (r ≡ ignored d)
      ⊎ ((is_some d.pinned ≡ false)
          × (ep : SocketAddr) × (same_ip ep.ip from.ip ≡ true)
          × Answers d a now ep r)
unfolding on_ack
on_ack-Answers d from size probe_id search_gen now = elim (Bool-cases (is_some d.pinned)) [
  | inl t ↦ inl (rw (t, on_ack))
  | inr t ↦ elim (Option-cases (resolve_ack d ack now from)) [
    | inl e ↦ inl (rw (t, on_ack, e))
    | inr (ep, e) ↦
        let s = resolve_ack-same_ip d ack now from ep e in
        rw (t, on_ack, e)
          (elim (ack_peer-Answers d ack now ep) [ inl i ↦ inl i | inr w ↦ inr (refl, ep, s, w) ])
  ]
]
  where
    ack : Ack
    ack = record { size = clamp_size size; probe_id = probe_id; search_gen = search_gen }

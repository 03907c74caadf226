-- ===== src/Pmtud/Window.antt =====
-- The window of a peer in a bisection (src/pmtud.rs), against a path that carries exactly the sizes up to `limit`: how it
-- narrows with each size that is answered or given up.
use native.Mathlib.Nat.{pow-suc}
use mint_connect_unit.Pmtud.Ack.{acked_binary}
use mint_connect_unit.Pmtud.Fail.{binary_fail_peer}
use mint_connect_unit.Pmtud.Inv.{Bounds, binary_target_inside}
use mint_connect_unit.Pmtud.Peer.{begin_probe, binary_target, clamp_size}
use mint_connect_unit.Pmtud.State.{Inflight, PathMtuDiscovery, PeerState, binary, max_mtu, plateau}
use mint_connect_unit.Prelude.{
  arith, eqb, none, not, refl, saturating_add_u32, some, suc, true, ℕ, ◌+◌, ◌-◌, ◌<◌, ◌^◌, ◌≡◌, ◌≤◌,
  ◌⊎◌,
}

-- A bisection under way, with `w` a bound of its window.
pub record Open (limit epsilon w : ℕ) (p : PeerState) : Type 0 where
  pub bounds : Bounds p
  pub searching : p.phase ≡ binary
  pub no_grace : p.grace ≡ none
  pub open_window : p.last_good + epsilon < p.first_bad
  pub carried : p.last_good ≤ limit
  pub refused : limit < p.first_bad
  pub narrow : p.first_bad ≤ p.last_good + w

-- One that has ended.
pub record Rest (limit epsilon max_probes : ℕ) (p : PeerState) : Type 0 where
  pub resting : p.phase ≡ plateau
  pub no_probe : p.inflight ≡ none
  pub no_grace : p.grace ≡ none
  pub carried : p.last_good ≤ limit
  pub near : limit < p.last_good + epsilon
  pub budget : p.probes_used < max_probes

-- `k` sizes are left to try and no probe is out; `spare` probes are enough for them.
pub record Idle (limit epsilon max_probes k spare : ℕ) (p : PeerState) : Type 0 where
  pub window : Open limit epsilon (2 ^ k) p
  pub no_probe : p.inflight ≡ none
  pub budget : p.probes_used + spare < max_probes

-- A probe that halves the window is out, of a size that may be sent `r` more times, and `k` sizes are left after it.
pub record Waiting (limit epsilon max_probes k r spare : ℕ) (p : PeerState) (inf : Inflight)
    : Type 0 where
  pub window : Open limit epsilon (2 ^ k + 2 ^ k) p
  pub out : p.inflight ≡ some inf
  pub numbered : not (eqb inf.probe_id 0) ≡ true
  pub high : inf.size ≤ max_mtu
  pub above : p.last_good < inf.size
  pub below : inf.size < p.first_bad
  pub near_good : inf.size ≤ p.last_good + 2 ^ k
  pub near_bad : p.first_bad ≤ inf.size + 2 ^ k
  pub confirms : inf.confirms_left ≤ suc r
  pub budget : p.probes_used + (r + spare) < max_probes

halves :
    (p : PeerState) (w : ℕ) {t : ℕ}
    → binary_target p ≡ some t
    → Bounds p
    → p.first_bad ≤ p.last_good + (w + w)
    → (t ≤ p.last_good + w) × (p.first_bad ≤ t + w)
unfolding binary_target
halves p w e b h = ground arith

module _ (limit epsilon max_probes k spare : ℕ) (p : PeerState) where
  pub begin_probe-Waiting :
      (r id t deadline confirms : ℕ)
      → Idle limit epsilon max_probes (suc k) (suc (r + spare)) p
      → binary_target p ≡ some t
      → not (eqb id 0) ≡ true
      → confirms ≤ suc r
      → (inf : Inflight) × Waiting limit epsilon max_probes k r spare
          (begin_probe p id t deadline confirms)
          inf
  unfolding begin_probe
  begin_probe-Waiting r id t deadline confirms h e z c =
      let near = halves p (2 ^ k) e h.window.bounds (omega (arith, h.window.narrow, pow-suc 2 k)) in
      let inside = binary_target_inside p h.window.bounds e in
      let size : clamp_size t ≡ t = omega (arith, inside, h.window.bounds.good_low) in
      let window : Open limit epsilon (2 ^ k + 2 ^ k) (begin_probe p id t deadline confirms) =
        ground (arith, h.window, h.window.bounds, pow-suc 2 k) in
      (
        record {
          probe_id = id;
          size = clamp_size t;
          deadline = deadline;
          confirms_left = confirms;
        },
        record {
          window = window;
          out = refl;
          numbered = z;
          high = omega arith;
          above = omega (arith, size, inside);
          below = omega (arith, size, inside);
          near_good = omega (arith, size, near);
          near_bad = omega (arith, size, near);
          confirms = c;
          budget = omega (arith, h.budget);
        },
      )

  pub resent-Waiting :
      (r : ℕ) (inf resent : Inflight)
      → Waiting limit epsilon max_probes k (suc r) spare p inf
      → resent.size ≡ inf.size
      → resent.confirms_left ≡ inf.confirms_left - 1
      → not (eqb resent.probe_id 0) ≡ true
      → Waiting limit epsilon max_probes k r spare
          (record p { inflight = some resent; probes_used = saturating_add_u32 p.probes_used 1 })
          resent
  resent-Waiting r inf resent h size left z = record {
    window = ground (arith, h.window, h.window.bounds);
    out = refl;
    numbered = z;
    high = omega (arith, size, h.high);
    above = omega (arith, size, h.above);
    below = omega (arith, size, h.below);
    near_good = omega (arith, size, h.near_good);
    near_bad = omega (arith, size, h.near_bad);
    confirms = omega (arith, left, h.confirms);
    budget = omega (arith, h.budget);
  }

  module _ (r now : ℕ) (d : PathMtuDiscovery) (same : d.resolve_epsilon ≡ epsilon)
      (same_max : d.max_probes_per_search ≡ max_probes) (inf : Inflight)
      (h : Waiting limit epsilon max_probes k r spare p inf) where
    pub acked_binary-Idle :
        inf.size ≤ limit
        → let q =
            acked_binary d inf.size now
              (record p { inflight = none; grace = none; ever_acked = true }) in
          Idle limit epsilon max_probes k spare q ⊎ Rest limit epsilon max_probes q
    unfolding acked_binary
    acked_binary-Idle l = ground (arith, h, h.window, h.window.bounds)

    pub binary_fail_peer-Idle :
        limit < inf.size
        → let q = binary_fail_peer d inf.size now (record p { inflight = none }) in
          Idle limit epsilon max_probes k spare q ⊎ Rest limit epsilon max_probes q
    unfolding binary_fail_peer
    binary_fail_peer-Idle l = ground (arith, h, h.window, h.window.bounds)

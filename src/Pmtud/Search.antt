-- ===== src/Pmtud/Search.antt =====
-- The bisection of src/pmtud.rs over the steps of `issue_probe`, `on_ack` and `on_timeout`: how many sizes, probes and
-- steps it takes, and where it ends.
use mint_connect_unit.Addr.{SocketAddr, addr_key}
use mint_connect_unit.Pmtud.Exchange.{Tracks, Tuning, answer, exchange, fewer-Tracks}
use mint_connect_unit.Pmtud.Fail.{put_peer}
use mint_connect_unit.Pmtud.Inv.{Bounds, binary_target_some}
use mint_connect_unit.Pmtud.Peer.{begin_probe, binary_target}
use mint_connect_unit.Pmtud.State.{Inflight, PathMtuDiscovery, PeerState, binary, plateau}
use mint_connect_unit.Pmtud.Turns.{answer-ack, answer-fail, answer-issue, answer-rest, answer-retry}
use mint_connect_unit.Pmtud.Window.{
  Idle, Open, Rest, Waiting, acked_binary-Idle, begin_probe-Waiting, binary_fail_peer-Idle,
  resent-Waiting,
}
use mint_connect_unit.Prelude.{
  Bool-cases, List, [], arith, false, inl, inr, is_some, is_some→some, leb, length, ltb, max, none,
  refl, some, suc, zero, ℕ, ◌*◌, ◌+◌, ◌-◌, ◌<◌, ◌^◌, ◌∷◌, ◌≡◌, ◌≤◌, ◌⊎◌,
}
use mint_connect_unit.Prelude.Table.{lookup}

-- The sizes that are left, the probes that these may take, and the steps.
module _ (limit : ℕ) (tu : Tuning) (ep : SocketAddr) where
  abbrev retries : ℕ
  retries = tu.confirms - 1

  abbrev spare : ℕ → ℕ
  spare zero = 0
  spare (suc k) = suc (retries + spare k)

  abbrev turns : ℕ → ℕ
  turns zero = 0
  turns (suc k) = suc (suc retries) + turns k

  -- The search has ended at the endpoint.
  abbrev Done : PathMtuDiscovery → Type 0
  Done d = (p : PeerState) × Tracks tu ep 0 d p × Rest limit tu.epsilon tu.max_probes p

  -- It is under way there.
  abbrev Stage : ℕ → ℕ → PathMtuDiscovery → Type 0
  Stage k zero d =
      (p : PeerState) × Tracks tu ep (spare k) d p
      × Idle limit tu.epsilon tu.max_probes k (spare k) p
  Stage k (suc r) d =
      (p : PeerState) × (inf : Inflight) × Tracks tu ep (r + spare k) d p
      × Waiting limit tu.epsilon tu.max_probes k r (spare k) p inf

  settled :
      (k s : ℕ) (d : PathMtuDiscovery) (p : PeerState)
      → spare k ≤ s
      → Tracks tu ep s d p
      → Idle limit tu.epsilon tu.max_probes k (spare k) p ⊎ Rest limit tu.epsilon tu.max_probes p
      → Stage k 0 d ⊎ Done d
  settled k s d p l h (inl i) = inl (p, fewer-Tracks tu ep s d p (spare k) l h, i)
  settled k s d p l h (inr f) = inr (p, fewer-Tracks tu ep s d p 0 (omega arith) h, f)

  issue-Stage :
      (k now : ℕ) (d : PathMtuDiscovery)
      → 1 ≤ tu.epsilon
      → Stage (suc k) 0 d
      → Stage k (suc retries) (answer limit ep d now)
  issue-Stage k now d one (p, h, i) =
      let (t, e) =
        is_some→some (binary_target p)
          (binary_target_some p i.window.bounds (omega (arith, one, i.window.open_window))) in
      let (id, deadline, z, sent) =
        answer-issue limit tu ep (retries + spare k) now d p h i.no_probe i.window.no_grace
          i.window.searching (omega (arith, i.budget)) i.window.open_window e in
      let (inf, w) =
        begin_probe-Waiting limit tu.epsilon tu.max_probes k (spare k) p retries id t deadline
          d.confirm_count i e z (omega (arith, h.same_confirms)) in
      (begin_probe p id t deadline d.confirm_count, inf, sent, w)

  resent-Stage :
      (k r now : ℕ) (d : PathMtuDiscovery) (p : PeerState) (inf : Inflight)
      → Tracks tu ep (r + spare k) d p
      → Waiting limit tu.epsilon tu.max_probes k r (spare k) p inf
      → limit < inf.size
      → 1 < inf.confirms_left
      → Stage k r (answer limit ep d now)
  resent-Stage k zero now d p inf h w l m = absurd (omega (arith, w.confirms))
  resent-Stage k (suc r) now d p inf h w l m =
      let (resent, size, left, z, sent) =
        answer-retry limit tu ep (r + spare k) now d p inf w.out w.window.searching
          (fewer-Tracks tu ep _ d p (suc (r + spare k)) (omega arith) h) l m
          (omega (arith, w.budget)) in
      (
        _,
        resent,
        sent,
        resent-Waiting limit tu.epsilon tu.max_probes k (spare k) p r inf resent w size left z,
      )

  answered-Stage :
      (k r now : ℕ) (d : PathMtuDiscovery)
      → Stage k (suc r) d
      → Stage k r (answer limit ep d now)
        ⊎ (Stage k 0 (answer limit ep d now) ⊎ Done (answer limit ep d now))
  answered-Stage k r now d (p, inf, h, w) = elim (Bool-cases (leb inf.size limit)) [
    | inl c ↦ inr (
        settled k (r + spare k) (answer limit ep d now) _ (omega arith)
          (answer-ack limit tu ep (r + spare k) now d p inf w.out w.window.searching h w.numbered
            (omega (arith, w.high, w.above, w.window.bounds.good_low)) (ground arith))
          (acked_binary-Idle limit tu.epsilon tu.max_probes k (spare k) p r now d h.same_epsilon
            h.same_max inf w (ground arith)))
    | inr c ↦ elim (Bool-cases (ltb 1 inf.confirms_left)) [
      | inl m ↦ inl (resent-Stage k r now d p inf h w (ground arith) (ground arith))
      | inr m ↦
          let taken : PeerState = record p { inflight = none } in
          inr (
            settled k (r + spare k) (answer limit ep d now) _ (omega arith)
              (answer-fail limit tu ep (r + spare k) now d p inf w.out w.window.searching h
                (ground arith) (ground arith))
              (binary_fail_peer-Idle limit tu.epsilon tu.max_probes k (spare k) p r now
                (put_peer d ep taken) h.same_epsilon h.same_max inf w (ground arith)))
    ]
  ]

  rest-Done : (now : ℕ) (d : PathMtuDiscovery) → Done d → Done (answer limit ep d now)
  rest-Done now d (p, h, f) =
      rw (answer-rest limit tu ep 0 now d p h f.no_probe f.no_grace f.resting f.budget) (p, h, f)

  exchange-Done : (nows : List ℕ) (d : PathMtuDiscovery) → Done d → Done (exchange limit ep d nows)
  unfolding exchange
  exchange-Done [] d f = f
  exchange-Done (now ∷ nows) d f = exchange-Done nows (answer limit ep d now) (rest-Done now d f)

  search-Done :
      (nows : List ℕ) (k r : ℕ) (d : PathMtuDiscovery)
      → 1 ≤ tu.epsilon
      → r + turns k ≤ length nows
      → Stage k r d
      → Done (exchange limit ep d nows)
  unfolding exchange
  search-Done nows zero zero d one l (p, h, i) =
      absurd (omega (arith, i.window.open_window, i.window.narrow))
  search-Done [] (suc k) r d one l g = absurd (omega (arith, l))
  search-Done [] zero (suc r) d one l g = absurd (omega (arith, l))
  search-Done (now ∷ nows) (suc k) zero d one l g =
      search-Done nows k (suc retries) (answer limit ep d now) one (omega (arith, l))
        (issue-Stage k now d one g)
  search-Done (now ∷ nows) k (suc r) d one l g = elim (answered-Stage k r now d g) [
    | inl h ↦ search-Done nows k r (answer limit ep d now) one (omega (arith, l)) h
    | inr (inl h) ↦ search-Done nows k 0 (answer limit ep d now) one (omega (arith, l)) h
    | inr (inr f) ↦ exchange-Done nows (answer limit ep d now) f
  ]

-- How often a probe that is not answered is sent before its size is given up.
abbrev pub sends : PathMtuDiscovery → ℕ
sends d = max 1 d.confirm_count

-- On a path that carries exactly the sizes up to `limit`, an idle bisection of an unpinned state, whose
-- bounds hold and whose window is open and holds `limit`, is at rest after `10 * (c + 1)` steps or more,
-- where `c` is `confirm_count`, or 1 if that is 0: the last good size is then at most `limit`, and less
-- than `resolve_epsilon` below it. A step sends a probe, takes its acknowledgement, or runs its timeout,
-- which sends it again until it was sent `c` times. It is required that `resolve_epsilon` is positive, that
-- more than `10 * c` probes are left in the budget, that as many can be numbered before the identifiers
-- wrap, and that no other operation comes between.
pub bisect_finds_limit :
    (d : PathMtuDiscovery) (ep : SocketAddr) (p : PeerState) (limit : ℕ) (nows : List ℕ)
    → is_some d.pinned ≡ false
    → lookup ep d.peers ≡ some p
    → Bounds p
    → p.phase ≡ binary
    → p.inflight ≡ none
    → p.grace ≡ none
    → 1 ≤ d.resolve_epsilon
    → p.last_good + d.resolve_epsilon < p.first_bad
    → p.last_good ≤ limit
    → limit < p.first_bad
    → p.probes_used + 10 * sends d < d.max_probes_per_search
    → d.probe_id_counter + 10 * sends d < 2 ^ 32 - 1
    → 10 * suc (sends d) ≤ length nows
    → (q : PeerState) × (lookup ep (exchange limit ep d nows).peers ≡ some q)
      × (q.phase ≡ plateau)
      × (q.last_good ≤ limit)
      × (limit < q.last_good + d.resolve_epsilon)
bisect_finds_limit d ep p limit nows u f b s i g one open_window carried refused budget room
      enough =
    let tu : Tuning = record {
      epsilon = d.resolve_epsilon;
      max_probes = d.max_probes_per_search;
      confirms = d.confirm_count;
    } in
    let tracks : Tracks tu ep (spare limit tu ep 10) d p = record {
      found = f;
      unpinned = u;
      same_epsilon = refl;
      same_max = refl;
      same_confirms = refl;
      room = omega (arith, room);
    } in
    let window : Open limit d.resolve_epsilon (2 ^ 10) p = record {
      bounds = b;
      searching = s;
      no_grace = g;
      open_window = open_window;
      carried = carried;
      refused = refused;
      narrow = omega (arith, b.good_low, b.bad_high);
    } in
    let (q, at, found) =
      search-Done limit tu ep nows 10 0 d one (omega (arith, enough))
        (p, tracks, record { window = window; no_probe = i; budget = omega (arith, budget) }) in
    (q, at.found, found.resting, found.carried, found.near)

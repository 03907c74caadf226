-- ===== src/Crypto/Replay.antt =====
-- The replay window of src/crypto.rs against the set of the counters that it has taken in.
use mathlib.Core.Path.{subst}
use mint_connect_unit.Bits.{
  set_bit, shift_left, test_bit, test_bit-low_bits, test_bit-set_bit, test_bit-shift_left,
  test_bit-shift_left_below, test_bit-zero,
}
use mint_connect_unit.Crypto.Window.{
  DataReplayWindow, allows, commit, data_replay_window_bits, empty_window, shifted,
}
use mint_connect_unit.Prelude.{
  Bool, Bool-cases, List, Option-cases, [], ap, arith, eqb, false, inl, inr, leb, le→ltb_false, ltb,
  ltb→lt, lt→ltb, max, min, none, not, refl, some, suc, sym, true, zero, ℕ, ◌&&◌, ◌-◌, ◌<◌, ◌||◌,
  ◌∷◌, ◌≡◌, ◌≤◌,
}

-- Counters taken in, the last one first.
unfoldable pub committed : List ℕ → DataReplayWindow
committed [] = empty_window
committed (c ∷ cs) = commit (committed cs) c

unfoldable pub contains : ℕ → List ℕ → Bool
contains c [] = false
contains c (x ∷ xs) = eqb x c || contains c xs

unfoldable pub highest : List ℕ → ℕ
highest [] = 0
highest (x ∷ xs) = max x (highest xs)

-- What a window of 128 counters promises: a counter is fresh above the highest one, and below it if it
-- is less than 128 away and was not taken in before.
unfoldable pub is_fresh : List ℕ → ℕ → Bool
is_fresh [] c = true
is_fresh (x ∷ xs) c =
    let top = highest (x ∷ xs) in
    ltb top c || ltb (top - c) data_replay_window_bits && not (contains c (x ∷ xs))

-- The window's bits say which counters of the last 128 are in the list.
record Tracks (w : DataReplayWindow) (top : ℕ) (cs : List ℕ) : Type 0 where
  top_is : w.top ≡ some top
  highest_is : highest cs ≡ top
  digits :
      (i : ℕ) → i < data_replay_window_bits → i ≤ top → test_bit w.bits i ≡ contains (top - i) cs

above_highest : (cs : List ℕ) (c : ℕ) → highest cs < c → contains c cs ≡ false
unfolding contains highest
above_highest [] c h = refl
above_highest (x ∷ xs) c h = ground (arith, above_highest xs c)

shifted_long : (bits s : ℕ) → data_replay_window_bits ≤ s → shifted bits s ≡ 0
unfolding shifted
shifted_long bits s h = ground arith

shifted_short :
    (bits s i : ℕ)
    → s < data_replay_window_bits
    → i < data_replay_window_bits
    → test_bit (shifted bits s) i ≡ test_bit (shift_left bits s) i
unfolding shifted
shifted_short bits s i h small =
    rw (le→leb_false s h) (test_bit-low_bits data_replay_window_bits (shift_left bits s) i small)
  where
    le→leb_false : (s : ℕ) → s < data_replay_window_bits → leb data_replay_window_bits s ≡ false
    le→leb_false s h = ground arith

module _ (w : DataReplayWindow) (top : ℕ) (cs : List ℕ) (t : Tracks w top cs) (c : ℕ) where
  -- The digits after a shift, where the shift brings a counter above the old top.
  shifted_new :
      (i s : ℕ)
      → s ≡ min (c - top) data_replay_window_bits
      → top < c
      → i < data_replay_window_bits
      → i < s
      → test_bit (shifted w.bits s) i ≡ false
  shifted_new i s e up small new = elim (Bool-cases (leb data_replay_window_bits s)) [
    | inl l ↦ rw (shifted_long w.bits s (ground arith)) (test_bit-zero i)
    | inr l ↦
        rw (shifted_short w.bits s i (ground arith) small)
          (test_bit-shift_left_below w.bits s i new)
  ]

  shifted_digit :
      (i s : ℕ)
      → s ≡ min (c - top) data_replay_window_bits
      → top < c
      → i < data_replay_window_bits
      → i ≤ c
      → test_bit (shifted w.bits s) i ≡ contains (c - i) cs
  shifted_digit i s e up small low = elim (Bool-cases (ltb i s)) [
    | inl new ↦ rw (
      shifted_new i s e up small (ground arith),
      above_highest cs (c - i) (omega (arith, t.highest_is, ltb→lt i s new)),
    )
    | inr old ↦
        let below : s ≤ i = ground arith in
        rw
          (
            shifted_short w.bits s i (omega arith) small,
            test_bit-shift_left w.bits s i (i - s) (omega arith),
            t.digits (i - s) (omega arith) (omega arith),
          )
          (ap (λ x. contains x cs) {x = top - (i - s)} {y = c - i} (omega arith))
  ]

  commit-up :
      top < c
      → commit w c ≡ record {
        top = some c;
        bits = set_bit (shifted w.bits (min (c - top) data_replay_window_bits)) 0;
      }
  unfolding commit
  commit-up up = rw (t.top_is, commit, lt→ltb top c up)

  commit-Tracks_up : top < c → Tracks (commit w c) c (c ∷ cs)
  unfolding contains highest
  commit-Tracks_up up = rw (commit-up up) (record {
    top_is = refl;
    highest_is = omega (arith, t.highest_is);
    digits = λ i small low.
        rw
          (
            test_bit-set_bit (shifted w.bits (min (c - top) data_replay_window_bits)) 0 i,
            shifted_digit i (min (c - top) data_replay_window_bits) refl up small low,
          )
          (ground arith);
  })

  commit-Tracks_down : c ≤ top → Tracks (commit w c) top (c ∷ cs)
  unfolding commit contains highest
  commit-Tracks_down down = elim (Bool-cases (ltb (top - c) data_replay_window_bits)) [
    | inl near ↦
        rw (t.top_is, commit, le→ltb_false top c down, near)
          (record {
            top_is = t.top_is;
            highest_is = omega (arith, t.highest_is);
            digits = λ i small low.
                rw (test_bit-set_bit w.bits (top - c) i, t.digits i small low) (ground arith);
          })
    | inr far ↦
        rw (t.top_is, commit, le→ltb_false top c down, far)
          (record {
            top_is = t.top_is;
            highest_is = omega (arith, t.highest_is);
            digits = λ i small low. rw (t.digits i small low) (ground arith);
          })
  ]

test_bit-one : (i : ℕ) → test_bit 1 i ≡ eqb i 0
unfolding test_bit
test_bit-one zero = refl
test_bit-one (suc i) = rw (test_bit-zero i) (ground arith)

first-Tracks : (x : ℕ) → Tracks (commit empty_window x) (highest (x ∷ [])) (x ∷ [])
unfolding commit highest contains empty_window
first-Tracks x = record {
  top_is = ap some {x = x} {y = max x 0} (omega arith);
  highest_is = refl;
  digits = λ i small low. rw (test_bit-one i) (ground arith);
}

newer : (x : ℕ) (cs : List ℕ) → highest cs < x → x ≡ highest (x ∷ cs)
unfolding highest
newer x cs h = omega arith

older : (x : ℕ) (cs : List ℕ) → x ≤ highest cs → highest cs ≡ highest (x ∷ cs)
unfolding highest
older x cs h = omega arith

committed-Tracks : (x : ℕ) (xs : List ℕ) → Tracks (committed (x ∷ xs)) (highest (x ∷ xs)) (x ∷ xs)
unfolding committed
committed-Tracks x [] = first-Tracks x
committed-Tracks x (y ∷ ys) = elim (Bool-cases (ltb (highest (y ∷ ys)) x)) [
  | inl up ↦
      let below : highest (y ∷ ys) < x = ltb→lt _ x up in
      subst (λ m. Tracks (commit (committed (y ∷ ys)) x) m (x ∷ y ∷ ys)) (newer x (y ∷ ys) below)
        (commit-Tracks_up _ _ _ (committed-Tracks y ys) x below)
  | inr down ↦
      let above : x ≤ highest (y ∷ ys) = ground arith in
      subst (λ m. Tracks (commit (committed (y ∷ ys)) x) m (x ∷ y ∷ ys)) (older x (y ∷ ys) above)
        (commit-Tracks_down _ _ _ (committed-Tracks y ys) x above)
]

-- The window answers as the set of counters does, for every sequence of counters taken in.
pub allows-is_fresh : (cs : List ℕ) (c : ℕ) → allows (committed cs) c ≡ is_fresh cs c
unfolding allows is_fresh committed empty_window
allows-is_fresh [] c = refl
allows-is_fresh (x ∷ xs) c = elim (Bool-cases (ltb (highest (x ∷ xs)) c)) [
  | inl up ↦ rw (t.top_is, allows, up)
  | inr down ↦ elim (Bool-cases (leb data_replay_window_bits (highest (x ∷ xs) - c))) [
    | inl far ↦ rw (t.top_is, allows, down, far) (ground arith)
    | inr near ↦
        rw
          (
            t.top_is,
            allows,
            down,
            near,
            t.digits (highest (x ∷ xs) - c) (ground arith) (omega arith),
            back (highest (x ∷ xs)) (ground arith),
          )
          (ground arith)
  ]
]
  where
    t : Tracks (committed (x ∷ xs)) (highest (x ∷ xs)) (x ∷ xs)
    t = committed-Tracks x xs

    back : (top : ℕ) → c ≤ top → top - (top - c) ≡ c
    back top h = omega arith

contains→highest : (cs : List ℕ) (c : ℕ) → contains c cs ≡ true → c ≤ highest cs
unfolding contains highest
contains→highest [] c h = absurd (cc h)
contains→highest (x ∷ xs) c h = ground (arith, contains→highest xs c)

stale : (cs : List ℕ) (c : ℕ) → contains c cs ≡ true → is_fresh cs c ≡ false
unfolding is_fresh contains
stale [] c h = absurd (cc h)
stale (x ∷ xs) c h = rw (h, le→ltb_false _ c (contains→highest (x ∷ xs) c h)) (ground arith)

-- A counter that was taken in is never allowed again, whatever was taken in before and after it.
pub no_replay : (cs : List ℕ) (c : ℕ) → contains c cs ≡ true → allows (committed cs) c ≡ false
no_replay cs c h = rw (allows-is_fresh cs c) (stale cs c h)

at_top : (c n : ℕ) → allows (record { top = some c; bits = set_bit n 0 }) c ≡ false
unfolding allows
at_top c n =
    let same : c - c ≡ 0 = omega arith in
    rw (le→ltb_false c c (omega arith), same, test_bit-set_bit n 0 0)

first_again : (c : ℕ) → allows (record { top = some c; bits = 1 }) c ≡ false
unfolding allows
first_again c =
    let same : c - c ≡ 0 = omega arith in rw (le→ltb_false c c (omega arith), same, test_bit-one 0)

commit-first :
    (w : DataReplayWindow) (c : ℕ) → w.top ≡ none → commit w c ≡ record { top = some c; bits = 1 }
unfolding commit
commit-first w c e = rw (e, commit)

commit-above :
    (w : DataReplayWindow) (top c : ℕ)
    → w.top ≡ some top
    → ltb top c ≡ true
    → commit w c ≡ record {
      top = some c;
      bits = set_bit (shifted w.bits (min (c - top) data_replay_window_bits)) 0;
    }
unfolding commit
commit-above w top c e up = rw (e, commit, up)

commit-near :
    (w : DataReplayWindow) (top c : ℕ)
    → w.top ≡ some top
    → ltb top c ≡ false
    → ltb (top - c) data_replay_window_bits ≡ true
    → commit w c ≡ record { top = some top; bits = set_bit w.bits (top - c) }
unfolding commit
commit-near w top c e down near = rw (e, commit, down, near, sym e)

at_digit :
    (top c n : ℕ)
    → ltb top c ≡ false
    → allows (record { top = some top; bits = set_bit n (top - c) }) c ≡ false
unfolding allows
at_digit top c n down = rw (down, test_bit-set_bit n (top - c) (top - c)) (ground arith)

-- Whatever a window holds, a counter that it takes in is not allowed again at once.
pub allows-commit : (w : DataReplayWindow) (c : ℕ) → allows (commit w c) c ≡ false
unfolding allows commit
allows-commit w c = elim (Option-cases w.top) [
  | inl e ↦ rw (commit-first w c e) (first_again c)
  | inr (top, e) ↦ elim (Bool-cases (ltb top c)) [
    | inl up ↦ rw (commit-above w top c e up) (at_top c _)
    | inr down ↦ elim (Bool-cases (ltb (top - c) data_replay_window_bits)) [
      | inl near ↦ rw (commit-near w top c e down near) (at_digit top c w.bits down)
      | inr far ↦ rw (e, commit, down, far, allows) (ground arith)
    ]
  ]
]

-- ===== src/Reliable/Timer.antt =====
-- The timeout of a retransmission (src/net/reliable.rs). The smoothed round trip and its variation are i32 that
-- every update keeps at 5 and 1 or more, so they are natural numbers here; a round trip is taken to be one that
-- i32 holds, and a hint to be less than 2^29. The two bounds of a timeout are u32 that the source casts to i32:
-- they are taken to be less than 2^31 here. The tuning lets larger ones through, with which the source panics or
-- gives another timeout.
use mint_connect_unit.Prelude.{
  Option, clamp, if◌then◌else◌, ltb, max, min, none, some, ℕ, ◌*◌, ◌+◌, ◌-◌, ◌/◌,
}

pub data ℤ : Type 0 where
  pos : ℕ → ℤ
  negsuc : ℕ → ℤ

abbrev pub rto_min_default : ℕ
rto_min_default = 50

abbrev pub rto_max_default : ℕ
rto_max_default = 400

abbrev pub default_srtt_ms : ℕ
default_srtt_ms = 100

abbrev pub default_rttvar_ms : ℕ
default_rttvar_ms = 50

abbrev pub srtt_min_ms : ℕ
srtt_min_ms = 5

-- The sums of i32 are named, for their bounds.
unfoldable pub rto_sum : ℕ → ℕ → ℕ
rto_sum srtt_ms rttvar_ms =
    let srtt = max srtt_ms srtt_min_ms in let rttvar = max rttvar_ms 1 in srtt + max (4 * rttvar) 10

unfoldable pub compute_rto_ms : ℕ → ℕ → ℕ → ℕ → ℕ
unfolding rto_sum
compute_rto_ms srtt_ms rttvar_ms rto_min rto_max = clamp rto_min rto_max (rto_sum srtt_ms rttvar_ms)

-- `filter(|r| *r > 0)`
unfoldable pub positive_hint : Option ℤ → Option ℕ
positive_hint none = none
positive_hint (some (pos r)) = if ltb 0 r then some r else none
positive_hint (some (negsuc r)) = none

unfoldable pub hinted_rto : Option ℕ → ℕ → ℕ → Option ℕ
hinted_rto none rto_min rto_max = none
hinted_rto (some r) rto_min rto_max =
    some (compute_rto_ms (max r 20) (max (r / 2) 10) rto_min rto_max)

unfoldable pub initial_rto_for_send : ℕ → ℕ → Option ℤ → ℕ → ℕ → ℕ
initial_rto_for_send srtt_ms rttvar_ms rtt_hint_ms rto_min rto_max =
    let base = compute_rto_ms srtt_ms rttvar_ms rto_min rto_max in
    elim (hinted_rto (positive_hint rtt_hint_ms) rto_min rto_max) [
      | some h ↦ min base h
      | none ↦ base
    ]

abbrev pub distance : ℕ → ℕ → ℕ
distance a b = (a - b) + (b - a)

unfoldable pub rttvar_sum : ℕ → ℕ → ℕ → ℕ
rttvar_sum srtt_ms rttvar_ms rtt_ms = 3 * rttvar_ms + distance srtt_ms rtt_ms

unfoldable pub srtt_sum : ℕ → ℕ → ℕ
srtt_sum srtt_ms rtt_ms = 7 * srtt_ms + rtt_ms

-- The estimates after a round trip of `rtt_ms`.
unfoldable pub next_rttvar : ℕ → ℕ → ℕ → ℕ
unfolding rttvar_sum
next_rttvar srtt_ms rttvar_ms rtt_ms = max (rttvar_sum srtt_ms rttvar_ms rtt_ms / 4) 1

unfoldable pub next_srtt : ℕ → ℕ → ℕ
unfolding srtt_sum
next_srtt srtt_ms rtt_ms = max (srtt_sum srtt_ms rtt_ms / 8) srtt_min_ms

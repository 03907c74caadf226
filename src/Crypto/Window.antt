-- ===== src/Crypto/Window.antt =====
-- `DataReplayWindow` (src/crypto.rs): the highest counter accepted, and a bit for each of the 128 counters
-- from it down. A counter is a u64 and `bits` a u128.
use mint_connect_unit.Bits.{low_bits, set_bit, shift_left, test_bit}
use mint_connect_unit.Prelude.{
  Bool, Option, false, if◌then◌else◌, leb, ltb, min, none, not, some, true, ℕ, ◌-◌,
}

abbrev pub data_replay_window_bits : ℕ
data_replay_window_bits = 128

pub record DataReplayWindow : Type 0 where
  pub top : Option ℕ
  pub bits : ℕ

-- `DataReplayWindow::new`
unfoldable pub empty_window : DataReplayWindow
empty_window = record { top = none; bits = 0 }

unfoldable pub allows : DataReplayWindow → ℕ → Bool
allows w counter = elim w.top [
  | none ↦ true
  | some top ↦
      if ltb top counter
      then true
      else if leb data_replay_window_bits (top - counter)
      then false
      else not (test_bit w.bits (top - counter))
]

-- `self.bits << shift`, or 0 where the shift is too long for a u128.
unfoldable pub shifted : ℕ → ℕ → ℕ
shifted bits shift =
    if leb data_replay_window_bits shift
    then 0
    else low_bits data_replay_window_bits (shift_left bits shift)

unfoldable pub commit : DataReplayWindow → ℕ → DataReplayWindow
commit w counter = elim w.top [
  | none ↦ record { top = some counter; bits = 1 }
  | some top ↦
      if ltb top counter
      then record {
        top = some counter;
        bits = set_bit (shifted w.bits (min (counter - top) data_replay_window_bits)) 0;
      }
      else if ltb (top - counter) data_replay_window_bits
      then record w { bits = set_bit w.bits (top - counter) }
      else w
]

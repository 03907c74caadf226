-- ===== src/Bits.antt =====
-- The binary digits of a number, and the words of the machine as what is left of them.
use mint_connect_unit.Prelude.{
  Bool, ap, arith, eqb, false, refl, suc, zero, ℕ, ◌%◌, ◌*◌, ◌+◌, ◌/◌, ◌<◌, ◌||◌, ◌≡◌,
}

-- Whether digit `i` of `n` is set: `n & (1 << i) != 0`.
unfoldable pub test_bit : ℕ → ℕ → Bool
test_bit n zero = eqb (n % 2) 1
test_bit n (suc i) = test_bit (n / 2) i

-- `n | (1 << i)`
unfoldable pub set_bit : ℕ → ℕ → ℕ
set_bit n zero = n / 2 * 2 + 1
set_bit n (suc i) = set_bit (n / 2) i * 2 + n % 2

-- `n << s`, with no digit lost.
unfoldable pub shift_left : ℕ → ℕ → ℕ
shift_left n zero = n
shift_left n (suc s) = shift_left n s * 2

-- The low `w` digits of `n`: what a word of `w` bits keeps of it.
unfoldable pub low_bits : ℕ → ℕ → ℕ
low_bits zero n = 0
low_bits (suc w) n = low_bits w (n / 2) * 2 + n % 2

pub test_bit-zero : (i : ℕ) → test_bit 0 i ≡ false
unfolding test_bit
test_bit-zero zero = refl
test_bit-zero (suc i) = test_bit-zero i

half_double : (a b : ℕ) → b < 2 → (a * 2 + b) / 2 ≡ a
half_double a b h = omega arith

odd_double : (a b : ℕ) → b < 2 → (a * 2 + b) % 2 ≡ b
odd_double a b h = omega arith

doubled : (a : ℕ) → a * 2 / 2 ≡ a
doubled a = omega arith

pub test_bit-set_bit : (n i j : ℕ) → test_bit (set_bit n i) j ≡ (eqb i j || test_bit n j)
unfolding test_bit set_bit
test_bit-set_bit n zero zero = ground (arith, odd_double (n / 2) 1)
test_bit-set_bit n zero (suc j) = rw (half_double (n / 2) 1 (omega arith)) (ground arith)
test_bit-set_bit n (suc i) zero =
    rw (odd_double (set_bit (n / 2) i) (n % 2) (omega arith)) (ground arith)
test_bit-set_bit n (suc i) (suc j) =
    rw (half_double (set_bit (n / 2) i) (n % 2) (omega arith))
      (ground (arith, test_bit-set_bit (n / 2) i j))

pub test_bit-shift_left_below : (n s j : ℕ) → j < s → test_bit (shift_left n s) j ≡ false
unfolding test_bit shift_left
test_bit-shift_left_below n zero j h = absurd (omega arith)
test_bit-shift_left_below n (suc s) zero h = ground arith
test_bit-shift_left_below n (suc s) (suc j) h =
    rw (doubled (shift_left n s)) (test_bit-shift_left_below n s j (omega arith))

pub test_bit-shift_left : (n s k j : ℕ) → k ≡ s + j → test_bit (shift_left n s) k ≡ test_bit n j
unfolding test_bit shift_left
test_bit-shift_left n zero k j h = ap (test_bit n) {x = k} {y = j} (omega arith)
test_bit-shift_left n (suc s) zero j h = absurd (omega arith)
test_bit-shift_left n (suc s) (suc k) j h =
    rw (doubled (shift_left n s)) (test_bit-shift_left n s k j (omega arith))

pub test_bit-low_bits : (w n j : ℕ) → j < w → test_bit (low_bits w n) j ≡ test_bit n j
unfolding test_bit low_bits
test_bit-low_bits zero n j h = absurd (omega arith)
test_bit-low_bits (suc w) n zero h = rw (odd_double (low_bits w (n / 2)) (n % 2) (omega arith))
test_bit-low_bits (suc w) n (suc j) h =
    rw (half_double (low_bits w (n / 2)) (n % 2) (omega arith))
      (test_bit-low_bits w (n / 2) j (omega arith))

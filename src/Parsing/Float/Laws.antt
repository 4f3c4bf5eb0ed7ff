-- ===== src/Parsing/Float/Laws.antt =====
-- About the float64 arithmetic of `time.ParseDuration`: the fuel that counts binary digits is enough.
use taifa_exchange.Base.{ℕ, zero, suc, ◌*◌, ◌^◌, ◌/◌, ◌≤◌, ◌<◌, ◌≡◌, arith, refl}
use taifa_exchange.Parsing.Float.{bits, bits_by}

bits_by_step : (fuel n : ℕ) → bits_by (suc fuel) (suc n) ≡ suc (bits_by fuel (suc n / 2))
unfolding bits_by
bits_by_step fuel n = ground arith

bits_by-zero : (fuel : ℕ) → bits_by fuel 0 ≡ 0
unfolding bits_by
bits_by-zero zero = refl
bits_by-zero (suc fuel) = refl

-- With fuel `n` at least, `n` has no more than that many binary digits,
bits_by_above : (fuel n : ℕ) → n ≤ fuel → n < 2 ^ bits_by fuel n
unfolding bits_by
bits_by_above zero n h = omega arith
bits_by_above (suc fuel) zero h = omega arith
bits_by_above (suc fuel) (suc n) h =
    rw (bits_by_step fuel n) (omega (arith, bits_by_above fuel (suc n / 2) (omega arith)))

-- and no fewer.
bits_by_below : (fuel n : ℕ) → n ≤ fuel → 0 < n → 2 ^ bits_by fuel n ≤ 2 * n
unfolding bits_by
bits_by_below zero n h k = absurd (omega arith)
bits_by_below (suc fuel) zero h k = absurd (omega arith)
bits_by_below (suc fuel) (suc zero) h k =
    rw (bits_by_step fuel 0) (rw (bits_by-zero fuel) (omega arith))
bits_by_below (suc fuel) (suc (suc n)) h k =
    rw (bits_by_step fuel (suc n))
      (omega (arith, bits_by_below fuel (suc (suc n) / 2) (omega arith) (omega arith)))

pub bits_bounds : (n : ℕ) → 0 < n → (n < 2 ^ bits n) × (2 ^ bits n ≤ 2 * n)
bits_bounds n h = (bits_by_above n n (omega arith), bits_by_below n n (omega arith) h)

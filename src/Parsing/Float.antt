-- ===== src/Parsing/Float.antt =====
-- The float64 arithmetic of `time.ParseDuration`, on positive numbers. A float64 is a rational
-- with a numerator of 53 bits. Its exponent has no bounds here: where Go's scale is infinite or its
-- quotient below the normal numbers, the term is less than one nanosecond in both.
pub mod Laws
use Prim.Native.Nat.{compare, Ordering}
use taifa_exchange.Base.{ℕ, zero, suc, ◌+◌, ◌*◌, ◌/◌, ◌%◌, ◌^◌, ltb, if◌then◌else◌}

-- The number of binary digits of `n`, on fuel.
unfoldable pub bits_by : ℕ → ℕ → ℕ
bits_by zero n = 0
bits_by (suc fuel) n = elim (compare n 0) [ Ordering.eq ↦ 0 | _ ↦ suc (bits_by fuel (n / 2)) ]

abbrev pub bits : ℕ → ℕ
bits n = bits_by n n

-- n / d to the nearest integer, and to the even one of two.
unfoldable pub nearest_integer : ℕ → ℕ → ℕ
nearest_integer n d =
    let q = n / d in
    let r = n % d in if ltb (2 * r) d then q else if ltb d (2 * r) then q + 1 else q + q % 2

-- The float64 nearest to n / d, as a numerator and a denominator: the quotient is scaled to 53 bits.
unfoldable pub nearest : ℕ → ℕ → ℕ × ℕ
unfolding nearest_integer bits_by
nearest n d =
    let up = 53 + bits d in
    let down = bits n in
    let extra = if ltb (n * 2 ^ up) (2 ^ 53 * (d * 2 ^ down)) then 0 else 1 in
    (nearest_integer (n * 2 ^ up) (d * 2 ^ (down + extra)) * 2 ^ (down + extra), 2 ^ up)

-- The float64 nearest to an integer, which is an integer.
unfoldable pub nearest_whole : ℕ → ℕ
unfolding nearest
nearest_whole n = let (p, q) = nearest n 1 in p / q

-- `uint64(float64(f) * (float64(unit) / scale))`, where `scale` is a whole float64.
unfoldable pub fraction_of : ℕ → ℕ → ℕ → ℕ
unfolding nearest nearest_whole
fraction_of f unit scale =
    let (p, q) = nearest unit scale in let (n, d) = nearest (nearest_whole f * p) q in n / d

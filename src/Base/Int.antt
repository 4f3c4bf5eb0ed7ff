-- ===== src/Base/Int.antt =====
-- Integers over the native numbers, under the library's names, for Go's int32 and time.Duration.
use Prim.Native.Nat.{ℕ, suc, compare, Ordering, ◌+◌, ◌-◌, ◌≤◌, ◌<◌, ◌^◌}
use mathlib.Core.Bool.{Bool, true, false}

-- `negsuc n` is -(n + 1).
pub data ℤ : Type 0 where
  pos : ℕ → ℤ
  negsuc : ℕ → ℤ

abbrev pub pos_part : ℤ → ℕ
pos_part (pos n) = n
pos_part (negsuc n) = 0

abbrev pub neg_part : ℤ → ℕ
neg_part (pos n) = 0
neg_part (negsuc n) = suc n

-- The integer -n.
abbrev pub neg : ℕ → ℤ
neg n = elim (compare n 0) [ Ordering.eq ↦ pos 0 | _ ↦ negsuc (n - 1) ]

-- A minus in front of `n`, or none.
abbrev pub with_sign : Bool → ℕ → ℤ
with_sign true n = neg n
with_sign false n = pos n

infix 50 ◌≤ℤ◌
abbrev pub ◌≤ℤ◌ : ℤ → ℤ → Type 0
a ≤ℤ b = pos_part a + neg_part b ≤ pos_part b + neg_part a

-- `a < b`
abbrev pub ltb_ℤ : ℤ → ℤ → Bool
ltb_ℤ a b = elim (compare (pos_part a + neg_part b) (pos_part b + neg_part a)) [
  | Ordering.lt ↦ true
  | _ ↦ false
]

-- The values of a signed integer of w + 1 bits.
abbrev pub Fits : ℕ → ℤ → Type 0
Fits w a = (pos_part a < 2 ^ w) × (neg_part a ≤ 2 ^ w)

-- ===== src/Pricing/Domain/Fee.antt =====
-- The rounding of the convenience fee (pricing/domain/pricing.py).
use Prim.Native.Nat.{◌^◌}
use native.Mathlib.Nat.{mod-add-div', mod-lt, div-lt_iff_lt-mul, mul-le-mul_left, pow-suc}
use pikol_backend.Common.{ℕ, zero, suc, ◌+◌, ◌*◌, ◌/◌, ◌≤◌, ◌<◌, arith}
use pikol_backend.Pricing.Domain.{Decimal, round_half_up, convenience_fee_centavos}

round_half_up_bounds :
    (n d : ℕ)
    → 0 < d
    → (2 * (round_half_up n d * d) ≤ 2 * n + d) × (2 * n + d < 2 * (round_half_up n d * d) + 2 * d)
round_half_up_bounds n d h =
    omega (arith, mod-add-div' (2 * n + d) (2 * d), mod-lt (2 * n + d) {m = 2 * d} (omega arith))

round_half_up-le : (n d k : ℕ) → 0 < d → n ≤ k * d → round_half_up n d ≤ k
round_half_up-le n d k h le =
    let below : (2 * n + d) / (2 * d) < k + 1 =
      (div-lt_iff_lt-mul {k = 2 * d} {x = 2 * n + d} {y = k + 1} (omega arith)).1 (omega arith) in
    omega arith

pow_pos : (n : ℕ) → 0 < 10 ^ n
pow_pos zero = omega arith
pow_pos (suc n) = omega (arith, pow-suc 10 n, pow_pos n)

-- The fee is within half a centavo of price × percent / 100, a half being rounded up: with n / d the
-- exact value, 2 · fee · d ≤ 2n + d < 2 · fee · d + 2d.
pub fee_nearest :
    (price : ℕ) (percent : Decimal)
    → let fee = convenience_fee_centavos price percent in
      let n = price * percent.numerator in
      let d = 100 * 10 ^ percent.places in
      (2 * (fee * d) ≤ 2 * n + d) × (2 * n + d < 2 * (fee * d) + 2 * d)
unfolding convenience_fee_centavos
fee_nearest price percent =
    round_half_up_bounds (price * percent.numerator) (100 * 10 ^ percent.places)
      (omega (arith, pow_pos percent.places))

-- A percentage of at most 100 takes at most the price.
pub fee-le-price :
    (price : ℕ) (percent : Decimal)
    → percent.numerator ≤ 100 * 10 ^ percent.places
    → convenience_fee_centavos price percent ≤ price
unfolding convenience_fee_centavos
fee-le-price price percent h =
    round_half_up-le (price * percent.numerator) (100 * 10 ^ percent.places) price
      (omega (arith, pow_pos percent.places)) (mul-le-mul_left price h)

-- ===== src/Pricing/Domain.antt =====
-- pricing/domain/pricing.py: price resolution and the convenience fee. A `Decimal` percentage is a
-- numerator over a power of ten; the products stay within the 28 digits of Python's context.
pub mod Resolution
pub mod Fee
use Prim.Native.Nat.{◌^◌}
use pikol_backend.Common.{
  ℕ, ◌+◌, ◌*◌, ◌/◌, Option, none, some, List, [], ◌∷◌, nat_eq, option_eq, pair_eq,
}
use pikol_backend.Common.Dict.{Dict, lookup, insert}
use pikol_backend.Errors.{Result, ok, err, value_error}
use pikol_backend.Time.{Instant, DateTime, manila_hour, manila_weekday}

-- `none` is a wildcard; both fields are Manila-local.
pub record PriceRule : Type 0 where
  pub day_of_week : Option ℕ
  pub hour_of_day : Option ℕ
  pub price_centavos : ℕ

abbrev pub PriceKey : Type 0
PriceKey = Option ℕ × Option ℕ

abbrev pub rule_key : PriceRule → PriceKey
rule_key r = (r.day_of_week, r.hour_of_day)

pub record PriceResolver : Type 0 where
  pub prices : Dict PriceKey ℕ
  pub default : ℕ

-- The dict comprehension of `__init__`: a later rule for a key replaces an earlier one.
prices_from : Dict PriceKey ℕ → List PriceRule → Dict PriceKey ℕ
prices_from d [] = d
prices_from d (r ∷ rules) = prices_from (insert (rule_key r) r.price_centavos d) rules

unfoldable pub price_resolver : List PriceRule → ℕ → PriceResolver
unfolding prices_from
price_resolver rules default_centavos = record {
  prices = prices_from [] rules;
  default = default_centavos;
}

-- The loop over the keys, the most specific first.
first_price : PriceResolver → List PriceKey → ℕ
first_price r [] = r.default
first_price r (key ∷ keys) = elim (lookup key r.prices) [
  | some price ↦ price
  | none ↦ first_price r keys
]

-- `price_at` from its test of `tzinfo` on, for an instant.
unfoldable pub price_at_instant : PriceResolver → Instant → ℕ
unfolding first_price
price_at_instant r t =
    let d = manila_weekday t in
    let h = manila_hour t in
    first_price r ((some d, some h) ∷ (none, some h) ∷ (some d, none) ∷ (none, none) ∷ [])

unfoldable pub price_at : PriceResolver → DateTime → Result ℕ
price_at r starts_at = elim starts_at.tzinfo [
  | none ↦ err value_error
  | some _ ↦ ok (price_at_instant r starts_at.instant)
]

pub record Decimal : Type 0 where
  pub numerator : ℕ
  pub places : ℕ

-- `int(fee.quantize(Decimal(1), rounding=ROUND_HALF_UP))` of `n / d`
abbrev pub round_half_up : ℕ → ℕ → ℕ
round_half_up n d = (2 * n + d) / (2 * d)

unfoldable pub convenience_fee_centavos : ℕ → Decimal → ℕ
convenience_fee_centavos price_centavos percent =
    round_half_up (price_centavos * percent.numerator) (100 * 10 ^ percent.places)

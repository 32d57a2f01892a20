-- ===== src/Examples/Rules.antt =====
-- The rules of bookings, checkouts and prices on single inputs.
use pikol_backend.Common.{
  ℕ, ◌+◌, ◌*◌, ◌-◌, ◌%◌, ◌≤◌, ◌<◌, ◌≡◌, ◌≢◌, ◌↔◌, none, some, [], ◌∷◌, All, arith, length, sum,
}
use pikol_backend.Time.{day, hour, hours, minutes, days, manila_date, manila_day_bounds}
use pikol_backend.Time.Manila.{manila_day_bounds_iff}
use pikol_backend.Errors.{ok}
use pikol_backend.Pricing.Domain.{PriceRule, convenience_fee_centavos, Decimal}
use pikol_backend.Pricing.Domain.Fee.{fee_nearest}
use pikol_backend.Bookings.Enums.{walk_in, player_booking, pending, confirmed, unpaid}
use pikol_backend.Bookings.Rules.{BookingSnapshot, check_player_window, check_on_the_hour}
use pikol_backend.Bookings.Rules.Windows.{check_player_window_iff, check_on_the_hour_iff}
use pikol_backend.Checkouts.Rules.{check_items, total_hours, allocate_fee, floor_shares}
use pikol_backend.Checkouts.Rules.Items.{check_items_iff, Distinct, court_hours}
use pikol_backend.Checkouts.Rules.Allocation.{allocate_fee_exact}
use pikol_backend.Examples.Data.{noon, utc, two_hours}

abbrev walk_in_snapshot : BookingSnapshot
walk_in_snapshot = record {
  type = walk_in;
  booking_status = confirmed;
  payment_status = unpaid;
  starts_at = noon;
  hours = 2;
  expires_at = none;
}

abbrev hold_snapshot : BookingSnapshot
hold_snapshot = record {
  type = player_booking;
  booking_status = pending;
  payment_status = unpaid;
  starts_at = noon;
  hours = 1;
  expires_at = some (noon + minutes 15);
}

check_player_window_iff_example :
    (check_player_window (noon + hours 3) 2 noon 60 14 ≡ ok tt)
    ↔ ((noon + minutes 60 ≤ noon + hours 3) × (noon + hours 3 + hours 1 ≤ noon + days 14))
check_player_window_iff_example = check_player_window_iff (noon + hours 3) 1 noon 60 14

check_on_the_hour_iff_example :
    (check_on_the_hour (utc noon) ≡ ok tt)
    ↔ ((offset : ℕ) × (some day ≡ some offset) × ((noon + offset) % hour ≡ 0))
check_on_the_hour_iff_example = check_on_the_hour_iff (utc noon)

check_items_iff_example : (check_items two_hours ≡ ok tt) ↔ (
    (two_hours ≢ [])
    × All (λ i. check_on_the_hour i.starts_at ≡ ok tt) two_hours
    × (total_hours two_hours ≤ 24)
    × Distinct (court_hours two_hours))
check_items_iff_example = check_items_iff two_hours

allocate_fee_exact_example :
    (sum (allocate_fee 100 (1 ∷ 1 ∷ 1 ∷ [])) ≡ 100)
    × (length (allocate_fee 100 (1 ∷ 1 ∷ 1 ∷ [])) ≡ 3)
    × (sum (floor_shares 100 3 (1 ∷ 1 ∷ 1 ∷ [])) ≤ 100)
    × (100 * 1 ≤ (100 - sum (floor_shares 100 3 (1 ∷ 1 ∷ 1 ∷ []))) * 3)
allocate_fee_exact_example = allocate_fee_exact 100 1 (1 ∷ 1 ∷ [])

abbrev evening_rule : PriceRule
evening_rule = record { day_of_week = none; hour_of_day = some 20; price_centavos = 60000 }

abbrev two_and_a_half : Decimal
two_and_a_half = record { numerator = 25; places = 1 }

fee_nearest_example :
    let fee = convenience_fee_centavos 40020 two_and_a_half in
    (2 * (fee * 1000) ≤ 2 * (40020 * 25) + 1000)
    × (2 * (40020 * 25) + 1000 < 2 * (fee * 1000) + 2 * 1000)
fee_nearest_example = fee_nearest 40020 two_and_a_half

manila_day_bounds_iff_example :
    (((manila_day_bounds 730000).0 ≤ noon) × (noon < (manila_day_bounds 730000).1))
    ↔ (manila_date noon ≡ 730000)
manila_day_bounds_iff_example = manila_day_bounds_iff 730000 noon (omega arith)

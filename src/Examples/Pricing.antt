-- ===== src/Examples/Pricing.antt =====
-- The administration of price rules (pricing/service.py) at a small table.
use mathlib.Core.List.{Permᴰ}
use pikol_backend.Common.{◌+◌, ◌≡◌, refl, none, some, [], ◌∷◌, arith}
use pikol_backend.Errors.{err, app_error, price_rule_exists}
use pikol_backend.Time.{hours}
use pikol_backend.Catalog.{PriceRuleRow, everything}
use pikol_backend.Pricing.Domain.{price_at_instant}
use pikol_backend.Pricing.Repository.{with_rules, flush_rule, add_rule}
use pikol_backend.Pricing.Service.{
  PriceRuleCreate, resolver_for, create_rule, after_rule_flush, update_rule, delete_rule,
}
use pikol_backend.Pricing.Service.Places.{IsSpecific, administration-IsSpecific}
use pikol_backend.Pricing.Service.Agreement.{prices_agree}
use pikol_backend.Bookings.Service.{resolver_of, get_court}
use pikol_backend.Database.{Tables, Session, request, ◌>>=◌, attempt, savepoint}
use pikol_backend.Program.{open_session}
use pikol_backend.Examples.Data.{new_tables, staff_member, noon, codes}

abbrev evening : PriceRuleRow
evening = record {
  id = 1;
  court_id = 1;
  day_of_week = none;
  hour_of_day = some 18;
  price_centavos = 60000;
  created_by_user_id = none;
  updated_by_user_id = none;
}

abbrev sunday_evening : PriceRuleRow
sunday_evening = record evening { id = 2; day_of_week = some 0; price_centavos = 80000 }

abbrev priced_tables : Tables
priced_tables = with_rules (evening ∷ sunday_evening ∷ []) new_tables

priced_tables-IsSpecific : IsSpecific priced_tables
priced_tables-IsSpecific court (none, h) = ground arith
priced_tables-IsSpecific court (some d, h) = ground arith

prices_agree_example :
    price_at_instant (resolver_for 1 everything priced_tables) (noon + hours 3)
    ≡ price_at_instant
        (resolver_of 1 (with_rules (sunday_evening ∷ evening ∷ []) priced_tables))
        (noon + hours 3)
prices_agree_example =
    prices_agree 1 everything priced_tables (sunday_evening ∷ evening ∷ []) (noon + hours 3)
      priced_tables-IsSpecific refl ∣ Permᴰ.swap refl refl ∣₁

abbrev flat : PriceRuleCreate
flat = record { day_of_week = none; hour_of_day = none; price_centavos = 50000 }

abbrev desk : Session
desk = open_session codes priced_tables

administration-IsSpecific_example :
    IsSpecific (request (create_rule 3 staff_member 1 flat everything) desk).1
    × IsSpecific (request (update_rule staff_member 2 90000 everything) desk).1
    × IsSpecific (request (delete_rule 2 everything) desk).1
administration-IsSpecific_example =
    administration-IsSpecific staff_member 3 1 2 90000 flat everything desk priced_tables-IsSpecific
      priced_tables-IsSpecific

-- A second rule for the evenings is refused.
second_evening :
    (request
      (create_rule 3 staff_member 1
        (record { day_of_week = none; hour_of_day = some 18; price_centavos = 1 })
        everything)
      desk).0
    ≡ err (app_error 409 price_rule_exists)
unfolding create_rule ◌>>=◌ get_court attempt after_rule_flush savepoint flush_rule add_rule
second_evening = refl

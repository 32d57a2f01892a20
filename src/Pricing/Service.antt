-- ===== src/Pricing/Service.antt =====
-- pricing/service.py and the bodies of pricing/dto.py: the administration of price rules.
pub mod Places
pub mod Agreement
use pikol_backend.Common.{ℕ, ◌+◌, Bool, ◌&&◌, Option, none, some, List, map, leb, range}
use pikol_backend.Errors.{
  Error, Result, ok, err, app_error, integrity_error, specificity_constraint, not_found,
  price_rule_exists,
}
use pikol_backend.Time.{Instant, Date, hours, manila_day_bounds}
use pikol_backend.Catalog.{PriceRuleRow, User, VenueScope}
use pikol_backend.Pricing.Domain.{PriceResolver, price_resolver, price_at_instant}
use pikol_backend.Pricing.Repository.{
  rule_of, list_for_court, find_rule, is_at_most, flush_rule, repriced, reprice, without_rule,
}
use pikol_backend.Bookings.Service.{get_court}
use pikol_backend.Database.{
  Tables, Action, pure, raise, gets, savepoint, attempt, ◌>>=◌, ◌>>◌, modify, commit, or_raise,
}

abbrev pub max_price_centavos : ℕ
max_price_centavos = 10000000

pub record PriceRuleCreate : Type 0 where
  pub day_of_week : Option ℕ
  pub hour_of_day : Option ℕ
  pub price_centavos : ℕ

-- The bounds of the body's fields; a body out of them is answered 422 before the service is called.
abbrev pub is_within_bounds : PriceRuleCreate → Bool
is_within_bounds b =
    is_at_most 6 b.day_of_week
    && is_at_most 23 b.hour_of_day
    && leb b.price_centavos max_price_centavos

pub record ResolvedPrice : Type 0 where
  pub starts_at : Instant
  pub hour : ℕ
  pub price_centavos : ℕ

abbrev pub rule_not_found : Error
rule_not_found = app_error 404 not_found

-- `resolver_for`
abbrev pub resolver_for : ℕ → VenueScope → Tables → PriceResolver
resolver_for court scope t =
    price_resolver (map rule_of (list_for_court court scope t))
      t.parameters.default_slot_price_centavos

unfoldable pub list_rules : ℕ → VenueScope → Action (List PriceRuleRow)
list_rules court_id scope = do _ ← get_court court_id scope; gets (list_for_court court_id scope)

abbrev pub new_rule : ℕ → User → ℕ → PriceRuleCreate → PriceRuleRow
new_rule id caller court_id body = record {
  id = id;
  court_id = court_id;
  day_of_week = body.day_of_week;
  hour_of_day = body.hour_of_day;
  price_centavos = body.price_centavos;
  created_by_user_id = some caller.id;
  updated_by_user_id = some caller.id;
}

-- What the handler of `IntegrityError` does.
unfoldable pub after_rule_flush : Result (Unit {0}) → Action (Unit {0})
after_rule_flush (ok _) = pure tt
after_rule_flush (err (integrity_error specificity_constraint)) =
    raise (app_error 409 price_rule_exists)
after_rule_flush (err e) = raise e

-- `create_rule`; `id` is the next primary key.
unfoldable pub create_rule : ℕ → User → ℕ → PriceRuleCreate → VenueScope → Action PriceRuleRow
create_rule id caller court_id body scope = do
  _ ← get_court court_id scope
  flushed ← attempt (savepoint (flush_rule (new_rule id caller court_id body)))
  after_rule_flush flushed
  commit
  pure (new_rule id caller court_id body)

-- `_get_rule`
unfoldable pub get_rule : ℕ → VenueScope → Action PriceRuleRow
get_rule rule_id scope = do found ← gets (find_rule rule_id scope); or_raise found rule_not_found

-- `update_rule`, with the price of its body
unfoldable pub update_rule : User → ℕ → ℕ → VenueScope → Action PriceRuleRow
update_rule caller rule_id price scope = do
  rule ← get_rule rule_id scope
  modify (reprice caller price rule.id)
  commit
  pure (repriced caller price rule)

unfoldable pub delete_rule : ℕ → VenueScope → Action (Unit {0})
delete_rule rule_id scope = do rule ← get_rule rule_id scope; modify (without_rule rule.id); commit

-- The 24 prices of a Manila day.
abbrev pub prices_of_day : PriceResolver → Date → List ResolvedPrice
prices_of_day resolver day =
    map
      (λ h.
        let starts_at = (manila_day_bounds day).0 + hours h in
        record {
          starts_at = starts_at;
          hour = h;
          price_centavos = price_at_instant resolver starts_at;
        })
      (range 24)

unfoldable pub day_prices : ℕ → Date → VenueScope → Action (List ResolvedPrice)
day_prices court_id day scope = do
  _ ← get_court court_id scope
  resolver ← gets (resolver_for court_id scope)
  pure (prices_of_day resolver day)

-- ===== src/Pricing/Repository.antt =====
-- pricing/persistence/repository.py and the constraints of pricing/persistence/models.py.
use pikol_backend.Common.{
  ℕ, Bool, true, false, not, ◌&&◌, ◌||◌, Option, none, some, List, [], ◌∷◌, ◌++◌, map, any, select,
  find?, leb, ltb, sort_by, ◌==◌, nat_eq, option_eq, pair_eq, if◌then◌else◌,
}
use pikol_backend.Errors.{Result, ok, err, integrity_error, specificity_constraint, rule_ranges}
use pikol_backend.Catalog.{PriceRuleRow, User, VenueScope, in_scope}
use pikol_backend.Pricing.Domain.{PriceRule, PriceKey}
use pikol_backend.Database.{Tables, Action, gets, lift, modify, ◌>>=◌}

abbrev pub rule_of : PriceRuleRow → PriceRule
rule_of r = record {
  day_of_week = r.day_of_week;
  hour_of_day = r.hour_of_day;
  price_centavos = r.price_centavos;
}

-- The columns of `uq_price_rule_specificity`; NULL is a value there like any other.
abbrev pub has_place : ℕ → PriceKey → PriceRuleRow → Bool
has_place court key r = r.court_id == court && (r.day_of_week, r.hour_of_day) == key

-- `_SPECIFICITY`
abbrev pub rule_rank : PriceRuleRow → ℕ
rule_rank r = elim r.hour_of_day [
  | some _ ↦ elim r.day_of_week [ some _ ↦ 0 | none ↦ 1 ]
  | none ↦ elim r.day_of_week [ some _ ↦ 2 | none ↦ 3 ]
]

-- A column that may be NULL, which comes last.
abbrev pub nulls_last : Option ℕ → ℕ × ℕ
nulls_last none = (1, 0)
nulls_last (some n) = (0, n)

abbrev pub ordered : List ℕ → List ℕ → Bool
ordered [] ys = false
ordered (x ∷ xs) [] = false
ordered (x ∷ xs) (y ∷ ys) = ltb x y || x == y && ordered xs ys

abbrev pub rule_order : PriceRuleRow → List ℕ
rule_order r =
    let (day_null, day) = nulls_last r.day_of_week in
    let (hour_null, hour) = nulls_last r.hour_of_day in
    rule_rank r ∷ day_null ∷ day ∷ hour_null ∷ hour ∷ r.id ∷ []

-- The join with the rule's court, and the scope at its venue.
abbrev pub rule_in_scope : VenueScope → Tables → PriceRuleRow → Bool
rule_in_scope scope t r = any (λ c. c.id == r.court_id && in_scope scope c.venue_id) t.courts

-- `list_for_court`
abbrev pub list_for_court : ℕ → VenueScope → Tables → List PriceRuleRow
list_for_court court scope t =
    sort_by (λ a b. ordered (rule_order a) (rule_order b))
      (select (λ r. r.court_id == court && rule_in_scope scope t r) t.price_rules)

-- `get`
abbrev pub find_rule : ℕ → VenueScope → Tables → Option PriceRuleRow
find_rule id scope t = find? (λ r. r.id == id && rule_in_scope scope t r) t.price_rules

-- `ck_price_rule_ranges`: a comparison with NULL does not fail a check.
abbrev pub is_at_most : ℕ → Option ℕ → Bool
is_at_most top none = true
is_at_most top (some n) = leb n top

-- A row that is inserted; the check constraints come before the unique one.
unfoldable pub add_rule : PriceRuleRow → List PriceRuleRow → Result (List PriceRuleRow)
add_rule r rules =
    if not (is_at_most 6 r.day_of_week && is_at_most 23 r.hour_of_day)
    then err (integrity_error rule_ranges)
    else if any (has_place r.court_id (r.day_of_week, r.hour_of_day)) rules
    then err (integrity_error specificity_constraint)
    else ok (rules ++ r ∷ [])

abbrev pub with_rules : List PriceRuleRow → Tables → Tables
with_rules rules t = record t { price_rules = rules }

unfoldable pub flush_rule : PriceRuleRow → Action (Unit {0})
flush_rule r = do
  added ← gets (λ t. add_rule r t.price_rules)
  rules ← lift added
  modify (with_rules rules)

-- The flushes of a row with its new price, and of a row that is deleted.
abbrev pub repriced : User → ℕ → PriceRuleRow → PriceRuleRow
repriced caller price r = record r { price_centavos = price; updated_by_user_id = some caller.id }

abbrev pub reprice : User → ℕ → ℕ → Tables → Tables
reprice caller price id t =
    with_rules (map (λ x. if x.id == id then repriced caller price x else x) t.price_rules) t

abbrev pub without_rule : ℕ → Tables → Tables
without_rule id t = with_rules (select (λ x. not (x.id == id)) t.price_rules) t

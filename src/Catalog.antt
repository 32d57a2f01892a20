-- ===== src/Catalog.antt =====
-- The rows that the booking paths only read (courts/persistence/models.py,
-- venues/persistence/models.py, parameters/domain/parameters.py, pricing/persistence/models.py), and
-- the scope of a request (auth/scope.py).
use Prim.Native.String.{String}
use pikol_backend.Common.{ℕ, Bool, true, false, Option, none, some, ◌==◌, nat_eq}
use pikol_backend.Pricing.Domain.{Decimal}

pub record Court : Type 0 where
  pub id : ℕ
  pub venue_id : ℕ
  pub name : String
  pub is_active : Bool
  pub sort_order : ℕ
  pub created_by_user_id : Option ℕ
  pub updated_by_user_id : Option ℕ

pub record Venue : Type 0 where
  pub id : ℕ
  pub name : String
  pub address : Option String
  pub is_active : Bool
  pub created_by_user_id : Option ℕ
  pub updated_by_user_id : Option ℕ

pub record PriceRuleRow : Type 0 where
  pub id : ℕ
  pub court_id : ℕ
  pub day_of_week : Option ℕ
  pub hour_of_day : Option ℕ
  pub price_centavos : ℕ
  pub created_by_user_id : Option ℕ
  pub updated_by_user_id : Option ℕ

pub record Parameters : Type 0 where
  pub default_slot_price_centavos : ℕ
  pub convenience_fee_percent : Decimal
  pub hold_duration_minutes : ℕ
  pub booking_horizon_days : ℕ
  pub max_active_holds_per_player : ℕ
  pub staff_backdate_days : ℕ
  pub cancellation_cutoff_minutes : ℕ
  pub min_lead_minutes : ℕ
  pub invitation_expiry_days : ℕ
  pub webhook_payload_retention_days : ℕ

-- The caller: `id` and `system_admin` of `UserModel` are what the services read.
pub record User : Type 0 where
  pub id : ℕ
  pub system_admin : Bool

pub record VenueScope : Type 0 where
  pub all_venues : Bool
  pub venue_id : Option ℕ

abbrev pub everything : VenueScope
everything = record { all_venues = true; venue_id = none }

-- `scope.where(column)` at a row: a comparison with NULL is not true.
abbrev pub in_scope : VenueScope → ℕ → Bool
in_scope scope venue = elim scope.all_venues [
  | true ↦ true
  | false ↦ elim scope.venue_id [ none ↦ false | some v ↦ venue == v ]
]

-- ===== src/Examples/Data.antt =====
-- A venue with two courts, its callers, and a provider that reports every payment as it is asked to.
use Prim.Native.String.{String, ◌++◌ as concat}
use pikol_backend.Common.{ℕ, zero, suc, ◌+◌, ◌*◌, true, false, none, some, List, [], ◌∷◌}
use pikol_backend.Time.{Instant, DateTime, hours, day}
use pikol_backend.Errors.{ok}
use pikol_backend.Catalog.{User, Court, Venue, PriceRuleRow, Parameters, VenueScope}
use pikol_backend.Checkouts.Rules.{CheckoutItem}
use pikol_backend.Payments.Enums.{PaymentOutcome, maya}
use pikol_backend.Payments.Port.{PaymentProvider, ProviderPayment}
use pikol_backend.Program.{no_bookings}
use pikol_backend.Database.{Accounts, Tables}

abbrev court : ℕ → String → Court
court id name = record {
  id = id;
  venue_id = 1;
  name = name;
  is_active = true;
  sort_order = id;
  created_by_user_id = none;
  updated_by_user_id = none;
}

abbrev pub two_courts : List Court
two_courts = court 1 "North" ∷ court 2 "South" ∷ []

abbrev pub one_venue : List Venue
one_venue =
    record {
      id = 1;
      name = "Pikol";
      address = none;
      is_active = true;
      created_by_user_id = none;
      updated_by_user_id = none;
    }
    ∷ []

abbrev pub sample_rules : List PriceRuleRow
sample_rules =
    record {
      id = 1;
      court_id = 1;
      day_of_week = none;
      hour_of_day = some 18;
      price_centavos = 60000;
      created_by_user_id = none;
      updated_by_user_id = none;
    }
    ∷ []

abbrev pub sample_parameters : Parameters
sample_parameters = record {
  default_slot_price_centavos = 40000;
  convenience_fee_percent = record { numerator = 25; places = 1 };
  hold_duration_minutes = 15;
  booking_horizon_days = 14;
  max_active_holds_per_player = 2;
  staff_backdate_days = 7;
  cancellation_cutoff_minutes = 120;
  min_lead_minutes = 0;
  invitation_expiry_days = 7;
  webhook_payload_retention_days = 90;
}

abbrev pub no_accounts : Accounts
no_accounts = record {
  users = [];
  next_user_id = 0;
  user_groups = [];
  next_user_group_id = 0;
  members = [];
  group_codes = [];
  permissions = [];
  refresh_tokens = [];
  user_tokens = [];
}

abbrev pub new_tables : Tables
new_tables = no_bookings two_courts one_venue sample_rules sample_parameters no_accounts

abbrev pub player : User
player = record { id = 7; system_admin = false }

abbrev pub staff_member : User
staff_member = record { id = 8; system_admin = false }

-- Noon of some day in UTC.
abbrev pub noon : Instant
noon = 730000 * day + hours 12

-- A wall clock at UTC itself.
abbrev pub utc : Instant → DateTime
utc t = record { instant = t; tzinfo = some day }

abbrev pub codes : ℕ → String
codes zero = "A"
codes (suc n) = concat "A" (codes n)

-- The provider that reports one payment, whatever it is asked for.
abbrev pub reporting : ProviderPayment → PaymentProvider
reporting p = record {
  name = maya;
  create_checkout =
      λ amount reference. some (record { checkout_id = reference; checkout_url = reference });
  fetch_payment = λ id. ok p;
  void = λ id. some "void-1";
  refund = λ id amount. some "refund-1";
}

abbrev pub sample_payment : PaymentOutcome → ℕ → ProviderPayment
sample_payment status amount = record {
  payment_id = "A";
  status = status;
  provider_status = "PAYMENT_SUCCESS";
  amount_centavos = amount;
  reference = "A";
  paid_at = none;
}

abbrev pub two_hours : List CheckoutItem
two_hours =
    record { court_id = 1; starts_at = utc (noon + hours 3); hours = 2 }
    ∷ record { court_id = 2; starts_at = utc (noon + hours 3); hours = 1 }
    ∷ []

abbrev pub own_venue : VenueScope
own_venue = record { all_venues = false; venue_id = some 1 }

abbrev pub other_venue : VenueScope
other_venue = record { all_venues = false; venue_id = some 2 }

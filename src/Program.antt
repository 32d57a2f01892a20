-- ===== src/Program.antt =====
-- The requests that write bookings, checkouts and payments (bookings/controllers/admin.py and
-- closures.py, checkouts/controllers/customer.py, payments/controllers/webhooks.py), served one after
-- another. A request may fail at any point; what it has not committed by then is rolled back.
pub mod Reachable
pub mod Endpoints
pub mod Staff
use Prim.Native.String.{String}
use pikol_backend.Common.{ℕ, ◌≡◌, Option, none, List, []}
use pikol_backend.Time.{Instant}
use pikol_backend.Catalog.{Court, Venue, PriceRuleRow, Parameters, User, VenueScope}
use pikol_backend.Bookings.Enums.{PaymentMethod}
use pikol_backend.Bookings.Service.{
  WalkInRequest, Outcome, create_walk_in, cancel_by_staff, mark_paid, set_outcome, resolve, reopen,
}
use pikol_backend.Bookings.Closures.{ClosureRequest, close_courts}
use pikol_backend.Checkouts.Rules.{CheckoutItem}
use pikol_backend.Checkouts.Service.{create, pay, cancel}
use pikol_backend.Payments.Port.{PaymentProvider}
use pikol_backend.Payments.Service.{sync_payment}
use pikol_backend.Database.{Accounts, Tables, Session, Action, pure, request, ◌>>=◌}

pub data Request : Type 0 where
  hold : User → List CheckoutItem → Request
  pay_hold : User → ℕ → Request
  cancel_hold : User → ℕ → Request
  sync : String → Request
  walk_in : User → WalkInRequest → VenueScope → Request
  cancel_booking : User → ℕ → String → VenueScope → Request
  take_cash : User → ℕ → PaymentMethod → VenueScope → Request
  record_outcome : User → ℕ → Outcome → VenueScope → Request
  resolve_flag : User → ℕ → String → VenueScope → Request
  close : User → ClosureRequest → VenueScope → Request
  reopen_closure : User → ℕ → String → VenueScope → Request

-- The response's body is forgotten.
abbrev pub answer : {A : Type 0} → Action A → Action (Unit {0})
answer m = m >>= λ _. pure tt

abbrev pub serve : PaymentProvider → Instant → Request → Action (Unit {0})
serve provider now (hold customer items) = answer (create customer items now)
serve provider now (pay_hold customer id) = answer (pay customer id provider now)
serve provider now (cancel_hold customer id) = answer (cancel customer id now)
serve provider now (sync payment_id) = sync_payment provider payment_id now
serve provider now (walk_in staff body scope) = answer (create_walk_in staff body scope now)
serve provider now (cancel_booking staff id reason scope) =
    answer (cancel_by_staff staff id reason scope now)
serve provider now (take_cash staff id method scope) = answer (mark_paid staff id method scope now)
serve provider now (record_outcome staff id outcome scope) =
    answer (set_outcome staff id outcome scope now)
serve provider now (resolve_flag staff id resolution scope) =
    answer (resolve staff id resolution scope now)
serve provider now (close staff body scope) = answer (close_courts staff body scope now)
serve provider now (reopen_closure staff id reason scope) =
    answer (reopen staff id reason scope now)

-- A new session on the committed tables.
abbrev pub open_session : (ℕ → String) → Tables → Session
open_session codes t = record { tables = t; committed = t; reference_codes = codes; drawn = 0 }

-- The tables that a request leaves behind, however it ends.
abbrev pub after_request : PaymentProvider → (ℕ → String) → Instant → Request → Tables → Tables
after_request provider codes now r t = (request (serve provider now r) (open_session codes t)).1

-- The tables before the first booking.
abbrev pub no_bookings :
    List Court → List Venue → List PriceRuleRow → Parameters → Accounts → Tables
no_bookings courts venues price_rules parameters accounts = record {
  courts = courts;
  venues = venues;
  price_rules = price_rules;
  parameters = parameters;
  booking_groups = λ i. none;
  next_group_id = 0;
  booking_slots = [];
  checkouts = λ i. none;
  next_checkout_id = 0;
  payments = λ i. none;
  next_payment_id = 0;
  refunds = [];
  webhook_events = [];
  action_events = [];
  accounts = accounts;
}

-- A request with any provider, reference codes and clock, or an edit of the catalog or of the accounts.
pub data Step (t : Tables) : Tables → Type 0 where
  served :
      (provider : PaymentProvider) (codes : ℕ → String) (now : Instant) (r : Request)
      → Step t (after_request provider codes now r t)
  administered :
      (courts : List Court) (venues : List Venue) (price_rules : List PriceRuleRow)
      (parameters : Parameters) (accounts : Accounts)
      → Step t (record t {
        courts = courts;
        venues = venues;
        price_rules = price_rules;
        parameters = parameters;
        accounts = accounts;
      })

-- The tables that any sequence of steps leads to.
pub data Reach : Tables → Type 0 where
  initially :
      (courts : List Court) (venues : List Venue) (price_rules : List PriceRuleRow)
      (parameters : Parameters) (accounts : Accounts)
      → Reach (no_bookings courts venues price_rules parameters accounts)
  next : {t t' : Tables} → Reach t → Step t t' → Reach t'

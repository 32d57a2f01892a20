-- ===== src/Checkouts/Service.antt =====
-- checkouts/service.py: placing, paying for and cancelling a hold. `now` is the request's clock.
pub mod Integrity
use Prim.Native.String.{String}
use pikol_backend.Common.{
  ℕ, ◌+◌, Bool, true, false, not, ◌&&◌, ◌||◌, Option, none, some, List, [], ◌∷◌, ◌++◌, map, sum,
  any, ltb, leb, ◌==◌, nat_eq, if◌then◌else◌,
}
use pikol_backend.Time.{Instant, minutes}
use pikol_backend.Errors.{
  Error, Result, ok, err, app_error, value_error, invalid_error, mixed_venues, slot_unavailable,
  hold_limit, hold_ended, paid_is_final, raise_if as reject_if, ◌>>◌ as then_check,
}
use pikol_backend.Catalog.{Court, User, everything}
use pikol_backend.Events.Models.{hold_placed, cancelled as cancelled_event}
use pikol_backend.Events.Service.{record_group}
use pikol_backend.Pricing.Domain.{convenience_fee_centavos}
use pikol_backend.Bookings.Enums as BookingEnums
use pikol_backend.Bookings.Models.{GroupFields, cancellation}
use pikol_backend.Bookings.Rules.{check_player_window}
use pikol_backend.Bookings.Repository.{
  slot_unavailable_error, group_by_id, insert, set_status, expire_lapsed,
}
use pikol_backend.Bookings.Service.{
  not_found_error, or_raise, bookable_court, priced_slots, starts_of, price_of,
}
use pikol_backend.Bookings.Closures.{dedupe}
use pikol_backend.Checkouts.Models.{Checkout, CheckoutFields}
use pikol_backend.Checkouts.Rules.{CheckoutItem, check_items, allocate_fee, is_live}
use pikol_backend.Checkouts.Repository.{
  insert_checkout, set_checkout_status, count_live, checkout_for_customer, get_for_update,
}
use pikol_backend.Payments.Enums.{PaymentOutcome, pending, successful, cancelled, outcome_eq}
use pikol_backend.Payments.Models.{Payment}
use pikol_backend.Payments.Port.{PaymentProvider}
use pikol_backend.Payments.Repository.{latest_for_checkout, assign_payment}
use pikol_backend.Payments.Apply.{groups_of}
use pikol_backend.Payments.Service.{start_checkout}
use pikol_backend.Database.{
  Tables, Action, pure, raise, raise_if, lift, gets, savepoint, attempt, ◌>>=◌, ◌>>◌, when, commit,
  for_each, map_action,
}

-- More than one venue among the courts.
abbrev pub has_two_venues : List Court → Bool
has_two_venues [] = false
has_two_venues (c ∷ courts) = any (λ d. not (d.venue_id == c.venue_id)) courts

-- `next(iter(courts.values()))`
abbrev first_court : List Court → Result Court
first_court [] = err value_error
first_court (c ∷ courts) = ok c

check_windows : Instant → ℕ → ℕ → List CheckoutItem → Result (Unit {0})
check_windows now lead horizon [] = ok tt
check_windows now lead horizon (i ∷ items) =
    then_check (check_player_window i.starts_at.instant i.hours now lead horizon)
      (check_windows now lead horizon items)

abbrev pub hold_fields : CheckoutItem → ℕ → ℕ → ℕ → ℕ → Instant → GroupFields
hold_fields item customer checkout price fee expires_at = record {
  court_id = item.court_id;
  player_id = some customer;
  checkout_id = some checkout;
  type = BookingEnums.player_booking;
  booking_status = BookingEnums.pending;
  payment_status = BookingEnums.unpaid;
  price_centavos = price;
  fee_centavos = fee;
  total_centavos = price + fee;
  notes = [];
  expires_at = some expires_at;
  created_by_user_id = customer;
}

-- One pass of the loop over the items.
unfoldable pub hold_item :
    User → Checkout → Instant → CheckoutItem → List (Instant × ℕ) → ℕ → Action (Unit {0})
hold_item customer checkout now item slots fee = do
  expire_lapsed item.court_id (starts_of slots) now
  group ←
      insert (hold_fields item customer.id checkout.id (price_of slots) fee checkout.expires_at)
        slots
  record_group hold_placed (some customer.id) group now

-- `zip(items, priced, prices, fees, strict=True)`; the prices are the sums of `priced`.
unfoldable pub hold_items :
    User
    → Checkout
    → Instant
    → List CheckoutItem
    → List (List (Instant × ℕ))
    → List ℕ
    → Action (Unit {0})
hold_items customer checkout now [] [] [] = pure tt
hold_items customer checkout now (i ∷ items) (slots ∷ priced) (fee ∷ fees) =
    hold_item customer checkout now i slots fee
    >> hold_items customer checkout now items priced fees
hold_items customer checkout now _ _ _ = raise value_error

-- The block in the savepoint: the checkout, and a group for each item.
unfoldable pub place_hold :
    User
    → CheckoutFields
    → Instant
    → List CheckoutItem
    → List (List (Instant × ℕ))
    → List ℕ
    → Action Checkout
place_hold customer fields now items priced fees = do
  checkout ← insert_checkout fields
  hold_items customer checkout now items priced fees
  pure checkout

-- `except AppError`: a slot that is taken is reported again, with the hours named.
unfoldable pub placed_or_raise : Result Checkout → Action Checkout
placed_or_raise (ok c) = pure c
placed_or_raise (err (app_error status slot_unavailable)) = raise slot_unavailable_error
placed_or_raise (err e) = raise e

abbrev pub checkout_fields : ℕ → ℕ → ℕ → ℕ → Instant → CheckoutFields
checkout_fields customer venue price fee expires_at = record {
  customer_id = customer;
  venue_id = venue;
  status = pending;
  price_centavos = price;
  fee_centavos = fee;
  total_centavos = price + fee;
  expires_at = expires_at;
}

unfoldable pub create : User → List CheckoutItem → Instant → Action Checkout
unfolding check_windows
create customer items now = do
  params ← gets (λ t. t.parameters)
  courts ← map_action (λ c. bookable_court c everything) (dedupe (map (λ i. i.court_id) items))
  raise_if (has_two_venues courts) (invalid_error mixed_venues)
  lift (check_items items)
  lift (check_windows now params.min_lead_minutes params.booking_horizon_days items)
  live ← gets (count_live customer.id now)
  raise_if (leb params.max_active_holds_per_player live) (app_error 409 hold_limit)
  priced ← map_action (λ i. priced_slots i.court_id i.starts_at.instant i.hours) items
  let prices = map price_of priced
  let price = sum prices
  let fee = convenience_fee_centavos price params.convenience_fee_percent
  court ← lift (first_court courts)
  let fields =
      checkout_fields customer.id court.venue_id price fee
        (now + minutes params.hold_duration_minutes)
  placed ←
      attempt (savepoint (place_hold customer fields now items priced (allocate_fee fee prices)))
  checkout ← placed_or_raise placed
  commit
  pure checkout

unfoldable pub get_mine : User → ℕ → Action Checkout
get_mine customer checkout_id = do
  found ← gets (checkout_for_customer checkout_id customer.id)
  or_raise found not_found_error

abbrev pub hold_ended_error : Error
hold_ended_error = app_error 409 hold_ended

unfoldable pub pay : User → ℕ → PaymentProvider → Instant → Action String
pay customer checkout_id provider now = do
  checkout ← get_mine customer checkout_id
  raise_if (not (is_live checkout.status checkout.expires_at now)) hold_ended_error
  start_checkout checkout provider now

-- One pass of the loop over the bookings of a cancelled checkout.
unfoldable pub cancel_booking : User → Instant → ℕ → Action (Unit {0})
cancel_booking customer now id = do
  set_status id BookingEnums.cancelled (cancellation now customer.id "Cancelled by customer")
  g ← group_by_id id
  record_group cancelled_event (some customer.id) g now

-- The attempt that is still open, if any, is closed.
unfoldable pub close_attempt : Option Payment → Action (Unit {0})
close_attempt none = pure tt
close_attempt (some p) =
    when (p.status == pending) (assign_payment p.id (λ r. record r { status = cancelled }))

unfoldable pub cancel : User → ℕ → Instant → Action Checkout
cancel customer checkout_id now = do
  mine ← get_mine customer checkout_id
  checkout ← get_for_update mine.id
  raise_if (checkout.status == successful) (app_error 409 paid_is_final)
  raise_if (not (is_live checkout.status checkout.expires_at now)) hold_ended_error
  set_checkout_status checkout.id cancelled
  groups ← gets (groups_of checkout.id)
  for_each groups (cancel_booking customer now)
  latest ← gets (latest_for_checkout checkout.id)
  close_attempt latest
  commit
  get_for_update checkout.id

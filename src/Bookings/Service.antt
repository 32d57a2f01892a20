-- ===== src/Bookings/Service.antt =====
-- bookings/service.py: the operations of staff on bookings and closures. `now` is the request's
-- clock; where the source reads the clock again for the event, that reading is `now` too.
pub mod Integrity
pub mod Scope
use Prim.Native.String.{String}
use pikol_backend.Common.{
  ℕ, suc, ◌+◌, ◌-◌, ◌*◌, ◌/◌, Bool, true, false, not, ◌&&◌, ◌||◌, Option, none, some, List, [], ◌∷◌,
  ◌++◌, map, sum, select, find?, length, any, ltb, ◌==◌, nat_eq, if◌then◌else◌,
}
use pikol_backend.Time.{Instant, DateTime, hour, floor_hour}
use pikol_backend.Errors.{
  Error, Result, ok, err, app_error, index_error, invalid_error, not_found, not_flagged,
  empty_range, range_too_long, in_the_past,
}
use pikol_backend.Catalog.{Court, Venue, PriceRuleRow, VenueScope, User, in_scope, everything}
use pikol_backend.Events.Models.{
  walk_in_booked, closure_created, marked_paid, completed as completed_event,
  no_show as no_show_event, cancelled as cancelled_event, resolved, reopened,
}
use pikol_backend.Events.Service.{record_group}
use pikol_backend.Pricing.Domain.{PriceRule, PriceResolver, price_resolver, price_at_instant}
use pikol_backend.Bookings.Enums.{
  BookingStatus, PaymentMethod, walk_in, maintenance, confirmed, completed, no_show, cancelled,
  unpaid, paid, type_eq,
}
use pikol_backend.Bookings.Models.{
  NoteLine, written, resolved_by, BookingGroup, BookingSlot, GroupFields, no_fields, cancellation,
}
use pikol_backend.Bookings.Rules.{
  BookingSnapshot, slot_starts, check_on_the_hour, check_walk_in_window, can_cancel_by_staff,
  can_cancel_closure, can_mark_paid, can_set_outcome,
}
use pikol_backend.Bookings.Repository.{group_by_id, insert, set_status, expire_lapsed}
pub use pikol_backend.Database.{or_raise}
use pikol_backend.Database.{
  Tables, Action, pure, raise, raise_if, lift, gets, savepoint, ◌>>=◌, ◌>>◌, modify, commit,
  for_each, map_action, update_row,
}

abbrev pub not_found_error : Error
not_found_error = app_error 404 not_found

-- `court_repository.get`
abbrev pub court_in : ℕ → VenueScope → Tables → Option Court
court_in id scope t = find? (λ c. c.id == id && in_scope scope c.venue_id) t.courts

-- `venue_repository.get`
abbrev pub venue_in : ℕ → VenueScope → Bool → Tables → Option Venue
venue_in id scope active_only t =
    find? (λ v. v.id == id && in_scope scope v.id && (not active_only || v.is_active)) t.venues

-- `court_service.get`
unfoldable pub get_court : ℕ → VenueScope → Action Court
get_court id scope = do found ← gets (court_in id scope); or_raise found not_found_error

-- `venue_service.get`
unfoldable pub get_venue : ℕ → VenueScope → Bool → Action Venue
get_venue id scope active_only = do
  found ← gets (venue_in id scope active_only)
  or_raise found not_found_error

unfoldable pub bookable_court : ℕ → VenueScope → Action Court
bookable_court court_id scope = do
  court ← get_court court_id scope
  raise_if (not court.is_active) not_found_error
  _ ← get_venue court.venue_id scope true
  pure court

-- `pricing_service.resolvers_for(...)[court_id]` over the whole catalog
abbrev pub resolver_of : ℕ → Tables → PriceResolver
resolver_of court_id t =
    price_resolver
      (map
        (λ r. record {
          day_of_week = r.day_of_week;
          hour_of_day = r.hour_of_day;
          price_centavos = r.price_centavos;
        })
        (select (λ r. r.court_id == court_id) t.price_rules))
      t.parameters.default_slot_price_centavos

unfoldable pub priced_slots : ℕ → Instant → ℕ → Action (List (Instant × ℕ))
priced_slots court_id starts_at hours =
    gets (λ t.
      map (λ s. (s, price_at_instant (resolver_of court_id t) s)) (slot_starts starts_at hours))

-- `get_scoped`: out of scope looks exactly like missing.
unfoldable pub get_scoped : ℕ → VenueScope → Action BookingGroup
get_scoped booking_id scope = do
  found ← gets (λ t. t.booking_groups booking_id)
  group ← or_raise found not_found_error
  court ← gets (court_in group.court_id scope)
  _ ← or_raise court not_found_error
  pure group

abbrev pub slots_of : ℕ → Tables → List BookingSlot
slots_of id t = select (λ s. s.booking_group_id == id) t.booking_slots

-- The first start in the order of `starts_at`.
abbrev earliest : BookingSlot → List BookingSlot → Instant
earliest s [] = s.starts_at
earliest s (x ∷ slots) = let t = earliest x slots in if ltb t s.starts_at then t else s.starts_at

abbrev pub snapshot_of : BookingGroup → List BookingSlot → Result BookingSnapshot
snapshot_of g [] = err index_error
snapshot_of g (s ∷ slots) = ok (record {
  type = g.type;
  booking_status = g.booking_status;
  payment_status = g.payment_status;
  starts_at = earliest s slots;
  hours = length (s ∷ slots);
  expires_at = g.expires_at;
})

-- bookings/service_support.py
unfoldable pub snapshot : BookingGroup → Action BookingSnapshot
snapshot g = do result ← gets (λ t. snapshot_of g (slots_of g.id t)); lift result

-- `_cancel`
unfoldable pub cancel_group : BookingGroup → User → String → Instant → Action BookingGroup
cancel_group group by reason now = do
  set_status group.id cancelled (cancellation now by.id reason)
  g ← group_by_id group.id
  record_group (if g.type == maintenance then reopened else cancelled_event) (some by.id) g now
  commit
  pure g

unfoldable pub cancel_by_staff : User → ℕ → String → VenueScope → Instant → Action BookingGroup
cancel_by_staff staff booking_id reason scope now = do
  group ← get_scoped booking_id scope
  snap ← snapshot group
  lift (can_cancel_by_staff snap)
  cancel_group group staff reason now

unfoldable pub reopen : User → ℕ → String → VenueScope → Instant → Action BookingGroup
reopen staff closure_id reason scope now = do
  group ← get_scoped closure_id scope
  snap ← snapshot group
  lift (can_cancel_closure snap)
  cancel_group group staff reason now

-- Assignments to a loaded group, which the next statement flushes.
abbrev pub assign : ℕ → (BookingGroup → BookingGroup) → Action (Unit {0})
assign id f = modify (λ t. record t { booking_groups = update_row id f t.booking_groups })

unfoldable pub mark_paid : User → ℕ → PaymentMethod → VenueScope → Instant → Action BookingGroup
mark_paid staff booking_id method scope now = do
  group ← get_scoped booking_id scope
  snap ← snapshot group
  lift (can_mark_paid snap)
  assign group.id (λ g. record g { payment_status = paid; payment_method = some method })
  g ← group_by_id group.id
  record_group marked_paid (some staff.id) g now
  commit
  pure g

-- The outcomes that a request may name.
pub data Outcome : Type 0 where
  played absent : Outcome

abbrev pub outcome_status : Outcome → BookingStatus
outcome_status played = completed
outcome_status absent = no_show

unfoldable pub set_outcome : User → ℕ → Outcome → VenueScope → Instant → Action BookingGroup
set_outcome staff booking_id outcome scope now = do
  group ← get_scoped booking_id scope
  snap ← snapshot group
  lift (can_set_outcome snap now)
  set_status group.id (outcome_status outcome) no_fields
  g ← group_by_id group.id
  record_group (elim outcome [ played ↦ completed_event | absent ↦ no_show_event ]) (some staff.id)
      g now
  commit
  pure g

unfoldable pub resolve : User → ℕ → String → VenueScope → Instant → Action BookingGroup
resolve staff booking_id resolution scope now = do
  group ← get_scoped booking_id scope
  raise_if (not group.needs_resolution) (app_error 409 not_flagged)
  assign group.id (λ g. record g {
    notes = g.notes ++ resolved_by staff.id resolution ∷ [];
    needs_resolution = false;
  })
  g ← group_by_id group.id
  record_group resolved (some staff.id) g now
  commit
  pure g

pub record WalkInRequest : Type 0 where
  pub court_id : ℕ
  pub starts_at : DateTime
  pub hours : ℕ
  pub notes : List NoteLine

abbrev pub walk_in_fields : ℕ → ℕ → List NoteLine → ℕ → GroupFields
walk_in_fields court_id price notes staff = record {
  court_id = court_id;
  player_id = none;
  checkout_id = none;
  type = walk_in;
  booking_status = confirmed;
  payment_status = unpaid;
  price_centavos = price;
  fee_centavos = 0;
  total_centavos = price;
  notes = notes;
  expires_at = none;
  created_by_user_id = staff;
}

abbrev pub starts_of : List (Instant × ℕ) → List Instant
starts_of slot_prices = map (λ p. p.0) slot_prices

abbrev pub price_of : List (Instant × ℕ) → ℕ
price_of slot_prices = sum (map (λ p. p.1) slot_prices)

unfoldable pub create_walk_in : User → WalkInRequest → VenueScope → Instant → Action BookingGroup
create_walk_in staff body scope now = do
  params ← gets (λ t. t.parameters)
  court ← bookable_court body.court_id scope
  lift (check_on_the_hour body.starts_at)
  lift (check_walk_in_window body.starts_at.instant now params.staff_backdate_days)
  slot_prices ← priced_slots court.id body.starts_at.instant body.hours
  expire_lapsed court.id (starts_of slot_prices) now
  group ← insert (walk_in_fields court.id (price_of slot_prices) body.notes staff.id) slot_prices
  record_group walk_in_booked (some staff.id) group now
  commit
  pure group

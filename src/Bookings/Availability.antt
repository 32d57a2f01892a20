-- ===== src/Bookings/Availability.antt =====
-- The reads of bookings/service.py and bookings/persistence/repository.py that answer which hours are
-- taken: the grid of a day, and the strip of the console.
pub mod Free
pub mod Grid
use Prim.Native.String.{String}
use pikol_backend.Common.{
  ℕ, ◌+◌, ◌-◌, ◌*◌, Bool, true, false, not, ◌&&◌, ◌||◌, Option, none, some, List, [], ◌∷◌, map, any,
  select, take, range, length, leb, ltb, sort_by, elem, ◌==◌, nat_eq, Eq, pair_eq, if◌then◌else◌,
}
use pikol_backend.Common.Dict.{Dict, lookup, insert as dict_insert}
use pikol_backend.Time.{Instant, Date, hours, minutes, manila_date, manila_hour, manila_day_bounds}
use pikol_backend.Catalog.{Court, VenueScope, in_scope, everything}
use pikol_backend.Pricing.Domain.{Decimal, price_at_instant}
use pikol_backend.Bookings.Enums.{
  BookingType, maintenance, pending, is_releasing, type_eq, status_eq,
}
use pikol_backend.Bookings.Models.{BookingGroup, BookingSlot}
use pikol_backend.Bookings.Repository.{is_lapsed}
use pikol_backend.Bookings.Service.{get_venue, resolver_of}
use pikol_backend.Database.{Tables, Action, pure, gets, ◌>>=◌}

-- `court_repository.list_for_venue`, the first page.
abbrev court_before : Court → Court → Bool
court_before c d = ltb c.sort_order d.sort_order || c.sort_order == d.sort_order && ltb c.id d.id

abbrev pub courts_of_venue : ℕ → VenueScope → ℕ → Tables → List Court
courts_of_venue venue scope limit t = take limit (
    sort_by court_before
      (select (λ c. c.venue_id == venue && in_scope scope c.venue_id && c.is_active) t.courts))

-- `not_(and_(booking_status == PENDING, expires_at <= now))`: with a deadline that is NULL the
-- condition on a pending group is NULL, which is not true.
abbrev pub is_held_by : Instant → BookingGroup → Bool
is_held_by now g =
    not (g.booking_status == pending && elim g.expires_at [ none ↦ true | some d ↦ leb d now ])

-- The row's own conditions, and those of the joins.

abbrev pub is_taken :
    List ℕ → Instant → Instant → Instant → VenueScope → Tables → BookingSlot → Bool
is_taken court_ids start end now scope t s =
    elem s.court_id court_ids
    && leb start s.starts_at
    && ltb s.starts_at end
    && not (is_releasing s.booking_status)
    && elim (t.booking_groups s.booking_group_id) [ none ↦ false | some g ↦ is_held_by now g ]
    && any (λ c. c.id == s.court_id && in_scope scope c.venue_id) t.courts

abbrev pub Occupancy : Type 0
Occupancy = Dict (ℕ × Instant) BookingType

-- The type of the slot's group; every slot that counts has one.
abbrev pub put_taken : Tables → BookingSlot → Occupancy → Occupancy
put_taken t s taken = elim (t.booking_groups s.booking_group_id) [
  | none ↦ taken
  | some g ↦ dict_insert (s.court_id, s.starts_at) g.type taken
]

abbrev pub occupancy_from :
    List ℕ
    → Instant
    → Instant
    → Instant
    → VenueScope
    → Tables
    → List BookingSlot
    → Occupancy
    → Occupancy
occupancy_from court_ids start end now scope t [] taken = taken
occupancy_from court_ids start end now scope t (s ∷ slots) taken =
    occupancy_from court_ids start end now scope t slots
      (if is_taken court_ids start end now scope t s then put_taken t s taken else taken)

-- `occupancy`
abbrev pub occupancy : List ℕ → Instant → Instant → Instant → VenueScope → Tables → Occupancy
occupancy court_ids start end now scope t =
    occupancy_from court_ids start end now scope t t.booking_slots []

-- `d[k] = d.get(k, 0) + 1`
abbrev pub bump {ℓ} : {K : Type ℓ} ⦃e : Eq K⦄ → K → Dict K ℕ → Dict K ℕ
bump k d = dict_insert k (elim (lookup k d) [ none ↦ 1 | some n ↦ n + 1 ]) d

pub data GridStatus : Type 0 where
  available booked closed past : GridStatus

pub record GridSlot : Type 0 where
  pub starts_at : Instant
  pub hour : ℕ
  pub status : GridStatus
  pub price_centavos : ℕ

pub record GridCourt : Type 0 where
  pub court_id : ℕ
  pub name : String
  pub slots : List GridSlot

pub record Availability : Type 0 where
  pub venue_id : ℕ
  pub date : Date
  pub convenience_fee_percent : Decimal
  pub courts : List GridCourt

-- `status`
abbrev pub grid_status : Occupancy → Instant → ℕ → Instant → GridStatus
grid_status taken bookable_from court at = elim (lookup (court, at) taken) [
  | some type ↦ if type == maintenance then closed else booked
  | none ↦ if ltb at bookable_from then past else available
]

unfoldable pub grid_slot : Occupancy → Instant → Tables → ℕ → Instant → GridSlot
grid_slot taken bookable_from t court at = record {
  starts_at = at;
  hour = manila_hour at;
  status = grid_status taken bookable_from court at;
  price_centavos = price_at_instant (resolver_of court t) at;
}

abbrev pub hours_of_day : Date → List Instant
hours_of_day day = map (λ h. (manila_day_bounds day).0 + hours h) (range 24)

unfoldable pub day_grid : ℕ → Date → Instant → List Court → Tables → Availability
day_grid venue day now courts t =
    let (start, end) = manila_day_bounds day in
    let taken = occupancy (map (λ c. c.id) courts) start end now everything t in
    let bookable_from = now + minutes t.parameters.min_lead_minutes in
    record {
      venue_id = venue;
      date = day;
      convenience_fee_percent = t.parameters.convenience_fee_percent;
      courts =
          map
            (λ c. record {
              court_id = c.id;
              name = c.name;
              slots = map (grid_slot taken bookable_from t c.id) (hours_of_day day);
            })
            courts;
    }

-- `availability`
unfoldable pub availability : ℕ → Date → Instant → Action Availability
availability venue day now = do
  _ ← get_venue venue everything true
  courts ← gets (courts_of_venue venue everything 100)
  gets (day_grid venue day now courts)

-- `booked_hours`
abbrev pub count_booked : Occupancy → Dict ℕ ℕ → Dict ℕ ℕ
count_booked [] hours = hours
count_booked (((court, at), type) ∷ taken) hours =
    count_booked taken (if type == maintenance then hours else bump court hours)

unfoldable pub booked_hours : List ℕ → Instant → Instant → Instant → VenueScope → Tables → Dict ℕ ℕ
booked_hours court_ids start end now scope t =
    count_booked (occupancy court_ids start end now scope t) []

pub record DayOccupancy : Type 0 where
  pub date : Date
  pub booked_hours : ℕ
  pub bookable_hours : ℕ

-- One of the two buckets of `daily_occupancy`: the closures, or the rest.
abbrev pub by_day : Bool → Occupancy → Dict Date ℕ → Dict Date ℕ
by_day closures [] bucket = bucket
by_day closures (((court, at), type) ∷ taken) bucket = by_day closures taken (
    if (if closures then type == maintenance else not (type == maintenance))
    then bump (manila_date at) bucket
    else bucket)

abbrev pub or_zero : Option ℕ → ℕ
or_zero none = 0
or_zero (some n) = n

-- A court has at most 24 hours of a day closed, so the difference is not cut off at 0.
unfoldable pub strip_of : Date → ℕ → List Court → Occupancy → List DayOccupancy
strip_of first_day days courts taken =
    let booked = by_day false taken [] in
    let closed = by_day true taken [] in
    map
      (λ i. record {
        date = first_day + i;
        booked_hours = or_zero (lookup (first_day + i) booked);
        bookable_hours = length courts * 24 - or_zero (lookup (first_day + i) closed);
      })
      (range days)

-- `daily_occupancy`
unfoldable pub daily_occupancy : ℕ → Date → ℕ → VenueScope → Instant → Action (List DayOccupancy)
daily_occupancy venue first_day days scope now = do
  _ ← get_venue venue scope false
  courts ← gets (courts_of_venue venue scope 100)
  let start = (manila_day_bounds first_day).0
  let end = (manila_day_bounds (first_day + days - 1)).1
  gets (λ t.
      strip_of first_day days courts (occupancy (map (λ c. c.id) courts) start end now scope t))

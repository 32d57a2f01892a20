-- ===== src/Bookings/Availability/Grid.antt =====
-- What the grid of `BookingService.availability` in bookings/service.py shows of an hour.
use pikol_backend.Common.{
  ℕ, ◌+◌, ◌≤◌, ◌≡◌, refl, ◌∙◌, Bool, true, false, not, ◌&&◌, List, [], ◌∷◌, map, any, elem, All,
  All-mono, All-map, All-any_self, All-take, All-sort_by, All-select, All-and, any-map, range,
  range_below, leb, ltb, ◌==◌, nat_eq, pair_eq, arith, Option-cases, inl, inr, Bool-cases, ◌<◌,
}
use pikol_backend.Common.Dict.{contains, lookup}
use pikol_backend.Time.{Instant, Date, hours, minutes, manila_day_bounds}
use pikol_backend.Catalog.{Court, everything, in_scope}
use pikol_backend.Bookings.Enums.{maintenance, type_eq}
use pikol_backend.Bookings.Repository.{expire_rows}
use pikol_backend.Bookings.Integrity.{IsConsistent, occupies}
use pikol_backend.Bookings.Availability.{
  GridStatus, GridSlot, Occupancy, available, booked, closed, past, grid_status, grid_slot,
  hours_of_day, day_grid, occupancy, courts_of_venue,
}
use pikol_backend.Bookings.Availability.Free.{occupancy-expire_rows}
use pikol_backend.Database.{Tables}

abbrev pub is_available : GridStatus → Bool
is_available available = true
is_available booked = false
is_available closed = false
is_available past = false

-- After `expire_lapsed`, an active slot is left on the hour of the court.
abbrev pub is_occupied : Instant → Tables → ℕ → Instant → Bool
is_occupied now t court at =
    any (occupies court at) (expire_rows court (at ∷ []) now t).booking_slots

available_iff :
    (taken : Occupancy) (from : Instant) (court : ℕ) (at : Instant)
    → is_available (grid_status taken from court at)
      ≡ (not (contains (court, at) taken) && leb from at)
available_iff taken from court at = elim (Option-cases (lookup (court, at) taken)) [
  | inl e ↦
      rw (grid_status, e)
        (elim (Bool-cases (ltb at from)) [
          | inl early ↦ rw early (ground arith)
          | inr late ↦ rw late (ground arith)
        ])
  | inr (type, e) ↦
      rw (grid_status, e)
        (elim (Bool-cases (type == maintenance)) [ inl m ↦ rw m refl | inr m ↦ rw m refl ])
]

-- The court is in the table.
abbrev IsListed : Tables → Court → Type 0
IsListed t c = any (λ d. d.id == c.id && in_scope everything d.venue_id) t.courts ≡ true

abbrev AreListed : List Court → Tables → Type 0
AreListed courts t = All (IsListed t) courts

listed_courts :
    (venue limit : ℕ) (t : Tables) → AreListed (courts_of_venue venue everything limit t) t
listed_courts venue limit t = All-take (IsListed t) limit _ (
    All-sort_by (IsListed t) _ _ (
      All-select (IsListed t) _ t.courts (
        All-any_self (λ c d. d.id == c.id && in_scope everything d.venue_id) (λ c. ground arith)
          t.courts)))

listed_ids : (courts : List Court) → All (λ c. elem c.id (map (λ d. d.id) courts) ≡ true) courts
listed_ids courts =
    All-mono (λ c h. any-map (λ i. i == c.id) (λ d. d.id) courts ∙ h) courts
      (All-any_self (λ c d. d.id == c.id) (λ c. ground arith) courts)

-- The 24 hours lie in the day.
hours_inside :
    (day : Date)
    → 1 ≤ day
    → All
        (λ at. ((manila_day_bounds day).0 ≤ at) × (at < (manila_day_bounds day).1))
        (hours_of_day day)
unfolding manila_day_bounds
hours_inside day first =
    All-map {P = λ h. h < 24}
      (λ at. ((manila_day_bounds day).0 ≤ at) × (at < (manila_day_bounds day).1))
      (λ h. (manila_day_bounds day).0 + hours h)
      (λ h small. (omega arith, omega (arith, small, first))) (range 24) (range_below 24)

-- The slot shows what the tables say of the court and the hour.
abbrev pub Shows : Instant → Tables → ℕ → GridSlot → Type 0
Shows now t court slot = is_available slot.status ≡ (
    not (is_occupied now t court slot.starts_at)
    && leb (now + minutes t.parameters.min_lead_minutes) slot.starts_at)

module _ (day : Date) (now : Instant) (t : Tables) (courts : List Court) (c : IsConsistent t)
    (first : 1 ≤ day) where
  abbrev taken_of : Occupancy
  taken_of =
      occupancy (map (λ d. d.id) courts) (manila_day_bounds day).0 (manila_day_bounds day).1 now
        everything t

  slot_available :
      (court : Court)
      → IsListed t court
      → elem court.id (map (λ d. d.id) courts) ≡ true
      → (at : Instant) → ((manila_day_bounds day).0 ≤ at) × (at < (manila_day_bounds day).1)
      → Shows now t court.id
          (grid_slot taken_of (now + minutes t.parameters.min_lead_minutes) t court.id at)
  unfolding grid_slot
  slot_available court listed asked at (lo, hi) =
      available_iff taken_of (now + minutes t.parameters.min_lead_minutes) court.id at ∙ (λ i.
        not (
          occupancy-expire_rows (map (λ d. d.id) courts) (manila_day_bounds day).0
            (manila_day_bounds day).1 now everything t court.id at c (asked, lo, hi, listed) i)
        && leb (now + minutes t.parameters.min_lead_minutes) at)

  grid_available :
      (venue : ℕ)
      → AreListed courts t
      → All
          (λ row. All (Shows now t row.court_id) row.slots)
          (day_grid venue day now courts t).courts
  unfolding day_grid
  grid_available venue listed =
      All-map {P = λ court. IsListed t court × (elem court.id (map (λ d. d.id) courts) ≡ true)}
        (λ row. All (Shows now t row.court_id) row.slots) _
        (λ court (there, asked).
          All-map (Shows now t court.id)
            (grid_slot taken_of (now + minutes t.parameters.min_lead_minutes) t court.id)
            (slot_available court there asked) (hours_of_day day) (hours_inside day first))
        courts (All-and _ _ courts listed (listed_ids courts))

-- In consistent tables, every slot of the grid that `availability` answers for a day is AVAILABLE
-- exactly if its hour is not before the least lead time from now, and the updates of `expire_lapsed`
-- for its court and hour leave no active slot there.
pub day_grid_available :
    (venue : ℕ) (day : Date) (now : Instant) (t : Tables)
    → IsConsistent t
    → 1 ≤ day
    → All
        (λ row. All (Shows now t row.court_id) row.slots)
        (day_grid venue day now (courts_of_venue venue everything 100 t) t).courts
day_grid_available venue day now t c first =
    grid_available day now t (courts_of_venue venue everything 100 t) c first venue
      (listed_courts venue 100 t)

-- ===== src/Bookings/Closures.antt =====
-- bookings/service.py: closing courts. `now` is the request's clock.
use Prim.Native.String.{String}
use pikol_backend.Common.{
  ℕ, ◌-◌, ◌*◌, ◌/◌, none, some, List, [], ◌∷◌, map, any, ltb, ◌==◌, nat_eq, if◌then◌else◌,
}
use pikol_backend.Time.{Instant, DateTime, hour, floor_hour}
use pikol_backend.Errors.{invalid_error, empty_range, range_too_long, in_the_past}
use pikol_backend.Catalog.{VenueScope, User}
use pikol_backend.Events.Models.{closure_created}
use pikol_backend.Events.Service.{record_group}
use pikol_backend.Bookings.Enums.{maintenance, confirmed, unpaid, type_eq}
use pikol_backend.Bookings.Models.{written, BookingGroup, GroupFields}
use pikol_backend.Bookings.Rules.{slot_starts, check_on_the_hour}
use pikol_backend.Bookings.Repository.{insert, expire_lapsed}
use pikol_backend.Database.{
  Action, pure, raise_if, lift, savepoint, ◌>>=◌, ◌>>◌, commit, map_action,
}
use pikol_backend.Bookings.Service.{get_court}

pub record ClosureRequest : Type 0 where
  pub court_ids : List ℕ
  pub starts_at : DateTime
  pub ends_at : DateTime
  pub reason : String

abbrev pub max_closure : ℕ
max_closure = 31

-- `list(dict.fromkeys(ids))`: dedupe, keep order.
dedupe_from : List ℕ → List ℕ → List ℕ
dedupe_from seen [] = []
dedupe_from seen (x ∷ xs) =
    let rest = dedupe_from (x ∷ seen) xs in if any (λ y. y == x) seen then rest else x ∷ rest

unfoldable pub dedupe : List ℕ → List ℕ
unfolding dedupe_from
dedupe xs = dedupe_from [] xs

abbrev pub closure_fields : ℕ → String → ℕ → GroupFields
closure_fields court_id reason staff = record {
  court_id = court_id;
  player_id = none;
  checkout_id = none;
  type = maintenance;
  booking_status = confirmed;
  payment_status = unpaid;
  price_centavos = 0;
  fee_centavos = 0;
  total_centavos = 0;
  notes = written reason ∷ [];
  expires_at = none;
  created_by_user_id = staff;
}

-- The body of the loop over the courts.
unfoldable pub close_court : User → String → List Instant → Instant → ℕ → Action BookingGroup
close_court staff reason starts now court_id = do
  expire_lapsed court_id starts now
  closure ← insert (closure_fields court_id reason staff.id) (map (λ s. (s, 0)) starts)
  record_group closure_created (some staff.id) closure now
  pure closure

-- The hours are those between the ends, 0 where the end is not after the start.
unfoldable pub close_courts :
    User → ClosureRequest → VenueScope → Instant → Action (List BookingGroup)
close_courts staff body scope now = do
  lift (check_on_the_hour body.starts_at)
  lift (check_on_the_hour body.ends_at)
  let hours = (body.ends_at.instant - body.starts_at.instant) / hour
  raise_if (ltb hours 1) (invalid_error empty_range)
  raise_if (ltb (max_closure * 24) hours) (invalid_error range_too_long)
  raise_if (ltb body.starts_at.instant (floor_hour now)) (invalid_error in_the_past)
  let court_ids = dedupe body.court_ids
  _ ← map_action (λ c. get_court c scope) court_ids
  let starts = slot_starts body.starts_at.instant hours
  groups ← savepoint (map_action (close_court staff body.reason starts now) court_ids)
  commit
  pure groups

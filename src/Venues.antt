-- ===== src/Venues.antt =====
-- venues/service.py and courts/service.py: the changes of the catalog of venues and courts. The next
-- primary key is an argument.
use Prim.Native.String.{String}
use pikol_backend.Common.{
  ℕ, Bool, true, false, Option, some, [], ◌∷◌, ◌++◌, map, ◌==◌, nat_eq, if◌then◌else◌,
}
use pikol_backend.Errors.{Result, ok}
use pikol_backend.Errors
use pikol_backend.Catalog.{Court, Venue, User, VenueScope}
use pikol_backend.Users.Changes.{Given, set_column, set_nullable}
use pikol_backend.Users.GroupRepository.{seed_venue_groups}
use pikol_backend.Bookings.Service.{get_court, get_venue}
use pikol_backend.Database.{Tables, Action, pure, lift, modify, commit, ◌>>=◌, ◌>>◌}

pub record CourtCreate : Type 0 where
  pub name : String
  pub sort_order : ℕ

pub record CourtUpdate : Type 0 where
  pub name : Given String
  pub sort_order : Given ℕ
  pub is_active : Given Bool

pub record VenueCreate : Type 0 where
  pub name : String
  pub address : Option String

pub record VenueUpdate : Type 0 where
  pub name : Given String
  pub address : Given String
  pub is_active : Given Bool

abbrev pub new_court : ℕ → User → ℕ → CourtCreate → Court
new_court id caller venue_id body = record {
  id = id;
  venue_id = venue_id;
  name = body.name;
  is_active = true;
  sort_order = body.sort_order;
  created_by_user_id = some caller.id;
  updated_by_user_id = some caller.id;
}

abbrev pub with_court : Court → Tables → Tables
with_court c t = record t { courts = t.courts ++ c ∷ [] }

-- `CourtService.create`
unfoldable pub create_court : ℕ → User → ℕ → CourtCreate → VenueScope → Action Court
create_court id caller venue_id body scope = do
  _ ← get_venue venue_id scope false
  modify (with_court (new_court id caller venue_id body))
  commit
  pure (new_court id caller venue_id body)

abbrev pub put_court : Court → Tables → Tables
put_court c t = record t { courts = map (λ x. if x.id == c.id then c else x) t.courts }

-- The loop of `setattr`, and the NOT NULL columns that the flush checks.
unfoldable pub changed_court : CourtUpdate → User → Court → Result Court
changed_court body caller c = Errors.◌>>=◌ (set_column body.name c.name) (λ name.
    Errors.◌>>=◌ (set_column body.sort_order c.sort_order) (λ sort_order.
      Errors.◌>>=◌ (set_column body.is_active c.is_active) (λ is_active. ok (record c {
        name = name;
        sort_order = sort_order;
        is_active = is_active;
        updated_by_user_id = some caller.id;
      }))))

-- `CourtService.update`
unfoldable pub update_court : User → ℕ → CourtUpdate → VenueScope → Action Court
update_court caller court_id body scope = do
  court ← get_court court_id scope
  changed ← lift (changed_court body caller court)
  modify (put_court changed)
  commit
  pure changed

abbrev pub new_venue : ℕ → User → VenueCreate → Venue
new_venue id caller body = record {
  id = id;
  name = body.name;
  address = body.address;
  is_active = true;
  created_by_user_id = some caller.id;
  updated_by_user_id = some caller.id;
}

abbrev pub with_venue : Venue → Tables → Tables
with_venue v t = record t { venues = t.venues ++ v ∷ [] }

-- `VenueService.create`; `lower` is the database's LOWER, for the names of the venue's groups.
unfoldable pub create_venue : (String → String) → ℕ → User → VenueCreate → Action Venue
create_venue lower id caller body = do
  modify (with_venue (new_venue id caller body))
  seed_venue_groups lower id (some caller.id)
  commit
  pure (new_venue id caller body)

abbrev pub put_venue : Venue → Tables → Tables
put_venue v t = record t { venues = map (λ x. if x.id == v.id then v else x) t.venues }

unfoldable pub changed_venue : VenueUpdate → User → Venue → Result Venue
changed_venue body caller v = Errors.◌>>=◌ (set_column body.name v.name) (λ name.
    Errors.◌>>=◌ (set_column body.is_active v.is_active) (λ is_active. ok (record v {
      name = name;
      address = set_nullable body.address v.address;
      is_active = is_active;
      updated_by_user_id = some caller.id;
    })))

-- `VenueService.update`
unfoldable pub update_venue : User → ℕ → VenueUpdate → VenueScope → Action Venue
update_venue caller venue_id body scope = do
  venue ← get_venue venue_id scope false
  changed ← lift (changed_venue body caller venue)
  modify (put_venue changed)
  commit
  pure changed

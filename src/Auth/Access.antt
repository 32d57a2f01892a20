-- ===== src/Auth/Access.antt =====
-- auth/access.py and auth/dependencies.py: what the caller may do, and where.
pub mod Active
use Prim.Native.String.{String}
use pikol_backend.Common.{
  ℕ, Bool, true, false, not, ◌&&◌, Option, none, some, List, [], ◌∷◌, map, any, ◌==◌, nat_eq,
  string_eq, elem, is_empty, if◌then◌else◌,
}
use pikol_backend.Errors.{Error, Result, ok, err, app_error, forbidden, venue_required}
use pikol_backend.Time.{Instant}
use pikol_backend.Auth.Security.{Crypto, Claims, decode, invalid_token_error}
use pikol_backend.Users.Models.{UserRow}
use pikol_backend.Users.Repository.{get_by_id}
use pikol_backend.Catalog.{User, VenueScope, everything}
use pikol_backend.Users.Domain.{GroupKind, master, kind_eq, all_codes}
use pikol_backend.Users.GroupRepository.{
  Membership, ask, staff_memberships, staff_codes, is_customer,
}
use pikol_backend.Database.{
  Tables, Action, pure, raise, lift, gets, or_raise, raise_if, ◌>>=◌, ◌>>◌,
}

-- `get_current_user`, of the bearer token if there is one.
unfoldable pub get_current_user : Crypto → Option String → Instant → Action UserRow
get_current_user c credentials now = do
  token ← or_raise credentials invalid_token_error
  claims ← lift (decode c token "access" now)
  found ← ask (get_by_id claims.sub)
  user ← or_raise found invalid_token_error
  raise_if (not user.is_active) invalid_token_error
  pure user

pub record VenueAccess : Type 0 where
  pub scope : VenueScope
  pub permissions : List String
  pub is_master : Bool

abbrev pub forbidden_error : Error
forbidden_error = app_error 403 forbidden

abbrev pub venue_required_error : Error
venue_required_error = app_error 400 venue_required

abbrev pub owner_access : VenueAccess
owner_access = record { scope = everything; permissions = all_codes; is_master = true }

-- `{venue_id for venue_id, _, _ in memberships}`
abbrev pub venues_of : List Membership → List ℕ
venues_of ms = map (λ m. m.0) ms

-- The set has one element, which the list may repeat.
abbrev pub the_only : List ℕ → Option ℕ
the_only [] = none
the_only (v ∷ vs) = if any (λ w. not (w == v)) vs then none else some v

-- The venue that the header, or the only membership, chooses.
unfoldable pub active_venue : Option ℕ → List ℕ → Action ℕ
active_venue (some venue) venues = do raise_if (not (elem venue venues)) forbidden_error; pure venue
active_venue none venues = elim (the_only venues) [
  | some venue ↦ pure venue
  | none ↦ if is_empty venues then raise forbidden_error else raise venue_required_error
]

abbrev pub is_master_membership : ℕ → Membership → Bool
is_master_membership venue m = m.0 == venue && m.1 == master

unfoldable pub staff_access : Option ℕ → ℕ → Action VenueAccess
staff_access header user = do
  memberships ← ask (staff_memberships user)
  venue ← active_venue header (venues_of memberships)
  codes ← ask (staff_codes user (some venue) none)
  pure (record {
    scope = record { all_venues = false; venue_id = some venue };
    permissions = codes;
    is_master = any (is_master_membership venue) memberships;
  })

-- `get_venue_access`; `header` is X-Venue-ID.
unfoldable pub get_venue_access : Option ℕ → User → Action VenueAccess
get_venue_access header caller =
    if caller.system_admin then pure owner_access else staff_access header caller.id

-- `require_permission`, of an access that is resolved already.
unfoldable pub require_permission : String → VenueAccess → Action (Unit {0})
require_permission code access = raise_if (not (elem code access.permissions)) forbidden_error

-- `require_customer`
unfoldable pub require_customer : User → Action (Unit {0})
require_customer caller = do
  customer ← ask (is_customer caller.id)
  raise_if (not customer) forbidden_error

-- `require_super_admin`
unfoldable pub require_super_admin : User → Action (Unit {0})
require_super_admin caller = raise_if (not caller.system_admin) forbidden_error

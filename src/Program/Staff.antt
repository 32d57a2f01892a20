-- ===== src/Program/Staff.antt =====
-- Requests to the endpoints of staff that ask for a permission: who calls, where they act, which code
-- the endpoint asks for (auth/access.py and the controllers), and which operation it runs.
pub mod Admission
pub mod Entitlement
use Prim.Native.String.{String}
use pikol_backend.Common.{ℕ, Option}
use pikol_backend.Time.{Instant}
use pikol_backend.Catalog.{User}
use pikol_backend.Users.Models.{UserRow}
use pikol_backend.Users.Repository.{NewUser}
use pikol_backend.Venues.{CourtCreate, VenueCreate}
use pikol_backend.Auth.Security.{Crypto}
use pikol_backend.Auth.Access.{VenueAccess, get_current_user, get_venue_access, require_permission}
use pikol_backend.Database.{Action, ◌>>=◌, ◌>>◌}
use pikol_backend.Program.Endpoints.{
  BookingEndpoint, TransitionEndpoint, ClosureEndpoint, PriceEndpoint, GroupEndpoint,
  MemberEndpoint, UserEndpoint, CourtEndpoint, VenueEndpoint, booking_code, transition_code,
  handle_booking, handle_transition, handle_closure, handle_price, handle_group, handle_member,
  invite_staff, handle_user, add_court, handle_court, add_venue, handle_venue,
}

pub data StaffRequest : Type 0 where
  booking_endpoint : BookingEndpoint → StaffRequest
  transition_endpoint : TransitionEndpoint → StaffRequest
  closure_endpoint : ClosureEndpoint → StaffRequest
  price_endpoint : PriceEndpoint → StaffRequest
  group_endpoint : GroupEndpoint → StaffRequest
  member_endpoint : MemberEndpoint → StaffRequest
  post_staff : String → ℕ → NewUser → StaffRequest
  user_endpoint : UserEndpoint → StaffRequest
  post_court : ℕ → ℕ → CourtCreate → StaffRequest
  court_endpoint : CourtEndpoint → StaffRequest
  post_venue : ℕ → VenueCreate → StaffRequest
  venue_endpoint : VenueEndpoint → StaffRequest

unfoldable pub required_code : StaffRequest → String
required_code (booking_endpoint e) = booking_code e
required_code (transition_endpoint e) = transition_code e
required_code (closure_endpoint _) = "CLOSURE:Manage"
required_code (price_endpoint _) = "PRICE:Manage"
required_code (group_endpoint _) = "USER:Manage"
required_code (member_endpoint _) = "USER:Manage"
required_code (post_staff _ _ _) = "USER:Manage"
required_code (user_endpoint _) = "USER:Manage"
required_code (post_court _ _ _) = "COURT:Manage"
required_code (court_endpoint _) = "COURT:Manage"
required_code (post_venue _ _) = "VENUE:Manage"
required_code (venue_endpoint _) = "VENUE:Manage"

abbrev pub handle : Crypto → Instant → User → VenueAccess → StaffRequest → Action (Unit {0})
handle c now caller access (booking_endpoint e) = handle_booking c now caller access e
handle c now caller access (transition_endpoint e) = handle_transition c now caller access e
handle c now caller access (closure_endpoint e) = handle_closure c now caller access e
handle c now caller access (price_endpoint e) = handle_price c now caller access e
handle c now caller access (group_endpoint e) = handle_group c now caller access e
handle c now caller access (member_endpoint e) = handle_member c now caller access e
handle c now caller access (post_staff raw group body) =
    invite_staff c now caller access raw group body
handle c now caller access (user_endpoint e) = handle_user c now caller access e
handle c now caller access (post_court id venue body) = add_court c now caller access id venue body
handle c now caller access (court_endpoint e) = handle_court c now caller access e
handle c now caller access (post_venue id body) = add_venue c now caller access id body
handle c now caller access (venue_endpoint e) = handle_venue c now caller access e

abbrev pub caller_of : UserRow → User
caller_of u = record { id = u.id; system_admin = u.system_admin }

-- The dependencies of an endpoint, and its body. `token` is the bearer token and `header` is
-- X-Venue-ID.
unfoldable pub staff_request :
    Crypto → Instant → Option String → Option ℕ → StaffRequest → Action (Unit {0})
staff_request c now token header r = do
  user ← get_current_user c token now
  access ← get_venue_access header (caller_of user)
  require_permission (required_code r) access
  handle c now (caller_of user) access r

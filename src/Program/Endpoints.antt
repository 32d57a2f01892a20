-- ===== src/Program/Endpoints.antt =====
-- The endpoints of staff in the admin controllers of bookings, closures, pricing, user groups, users,
-- courts and venues: the operation that each runs, with the permissions where one controller asks for
-- several. The lists are left out.
use Prim.Native.String.{String}
use pikol_backend.Common.{ℕ, false, Option, none, some, List}
use pikol_backend.Time.{Instant, Date}
use pikol_backend.Catalog.{User}
use pikol_backend.Bookings.Enums.{PaymentMethod}
use pikol_backend.Bookings.Service.{
  WalkInRequest, Outcome, create_walk_in, cancel_by_staff, mark_paid, set_outcome, resolve, reopen,
  get_scoped,
}
use pikol_backend.Bookings.Closures.{ClosureRequest, close_courts}
use pikol_backend.Bookings.Availability.{daily_occupancy}
use pikol_backend.Pricing.Service.{
  PriceRuleCreate, list_rules, create_rule, update_rule, delete_rule, day_prices,
}
use pikol_backend.Users.Repository.{NewUser}
use pikol_backend.Users.Changes.{UserUpdate}
use pikol_backend.Users.GroupService.{
  create_group, rename_group, delete_group, set_permissions, add_member, remove_member, get_group,
}
use pikol_backend.Users.Service.{
  invitable_group, invite, get_for_admin, update_by_admin, resend_invitation, revoke_invitation,
}
use pikol_backend.Auth.Security.{Crypto}
use pikol_backend.Auth.Access.{VenueAccess}
use pikol_backend.Errors.{app_error, venue_required}
use pikol_backend.Database.{Action, or_raise, ◌>>=◌}
use pikol_backend.Program.{answer}
use pikol_backend.Venues.{
  CourtCreate, CourtUpdate, VenueCreate, VenueUpdate, create_court, update_court, create_venue,
  update_venue,
}
use pikol_backend.Bookings.Service.{get_court, get_venue}

-- The endpoints of each controller, a constructor for each. A primary key or a random token that
-- the server draws is the first field.
pub data BookingEndpoint : Type 0 where
  get_occupancy : Option ℕ → Date → ℕ → BookingEndpoint
  post_walk_in : WalkInRequest → BookingEndpoint
  get_booking : ℕ → BookingEndpoint

pub data TransitionEndpoint : Type 0 where
  post_cancel : ℕ → String → TransitionEndpoint
  post_mark_paid : ℕ → PaymentMethod → TransitionEndpoint
  post_outcome : ℕ → Outcome → TransitionEndpoint
  post_resolve : ℕ → String → TransitionEndpoint

pub data ClosureEndpoint : Type 0 where
  post_closure : ClosureRequest → ClosureEndpoint
  post_reopen : ℕ → String → ClosureEndpoint

pub data PriceEndpoint : Type 0 where
  get_rules : ℕ → PriceEndpoint
  post_rule : ℕ → ℕ → PriceRuleCreate → PriceEndpoint
  patch_rule : ℕ → ℕ → PriceEndpoint
  delete_price_rule : ℕ → PriceEndpoint
  get_prices : ℕ → Date → PriceEndpoint

pub data GroupEndpoint : Type 0 where
  post_group : String → Option ℕ → GroupEndpoint
  show_group : ℕ → GroupEndpoint
  patch_group : ℕ → String → GroupEndpoint
  delete_user_group : ℕ → GroupEndpoint
  put_permissions : ℕ → List String → GroupEndpoint

pub data MemberEndpoint : Type 0 where
  post_member : ℕ → String → MemberEndpoint
  delete_member : ℕ → ℕ → MemberEndpoint

pub data UserEndpoint : Type 0 where
  show_user : ℕ → UserEndpoint
  patch_user : ℕ → UserUpdate → UserEndpoint
  post_invitation : String → ℕ → UserEndpoint
  delete_invitation : ℕ → UserEndpoint

pub data CourtEndpoint : Type 0 where
  show_court : ℕ → CourtEndpoint
  patch_court : ℕ → CourtUpdate → CourtEndpoint

pub data VenueEndpoint : Type 0 where
  show_venue : ℕ → VenueEndpoint
  patch_venue : ℕ → VenueUpdate → VenueEndpoint

-- The arguments of `require_permission`.
abbrev pub booking_code : BookingEndpoint → String
booking_code (get_occupancy _ _ _) = "BOOKING:ReadAny"
booking_code (post_walk_in _) = "BOOKING:CreateWalkIn"
booking_code (get_booking _) = "BOOKING:ReadAny"

abbrev pub transition_code : TransitionEndpoint → String
transition_code (post_cancel _ _) = "BOOKING:CancelAny"
transition_code (post_mark_paid _ _) = "BOOKING:MarkPaid"
transition_code (post_outcome _ _) = "BOOKING:SetOutcome"
transition_code (post_resolve _ _) = "BOOKING:CancelAny"

-- `venue_id if venue_id is not None else scope.venue_id`
abbrev pub first_given : Option ℕ → Option ℕ → Option ℕ
first_given none b = b
first_given (some a) b = some a

-- The bodies of the endpoints. Invitations are mailed after the commit, which is left out.
module _ (c : Crypto) (now : Instant) (caller : User) (access : VenueAccess) where
  unfoldable pub handle_booking : BookingEndpoint → Action (Unit {0})
  handle_booking (get_occupancy venue first_day days) = answer (do
    v ← or_raise (first_given venue access.scope.venue_id) (app_error 422 venue_required)
    daily_occupancy v first_day days access.scope now)
  handle_booking (post_walk_in body) = answer (create_walk_in caller body access.scope now)
  handle_booking (get_booking id) = answer (get_scoped id access.scope)

  unfoldable pub handle_transition : TransitionEndpoint → Action (Unit {0})
  handle_transition (post_cancel id reason) =
      answer (cancel_by_staff caller id reason access.scope now)
  handle_transition (post_mark_paid id method) =
      answer (mark_paid caller id method access.scope now)
  handle_transition (post_outcome id outcome) =
      answer (set_outcome caller id outcome access.scope now)
  handle_transition (post_resolve id resolution) =
      answer (resolve caller id resolution access.scope now)

  unfoldable pub handle_closure : ClosureEndpoint → Action (Unit {0})
  handle_closure (post_closure body) = answer (close_courts caller body access.scope now)
  handle_closure (post_reopen id reason) = answer (reopen caller id reason access.scope now)

  unfoldable pub handle_price : PriceEndpoint → Action (Unit {0})
  handle_price (get_rules court) = answer (list_rules court access.scope)
  handle_price (post_rule id court body) = answer (create_rule id caller court body access.scope)
  handle_price (patch_rule id price) = answer (update_rule caller id price access.scope)
  handle_price (delete_price_rule id) = delete_rule id access.scope
  handle_price (get_prices court day) = answer (day_prices court day access.scope)

  unfoldable pub handle_group : GroupEndpoint → Action (Unit {0})
  handle_group (post_group name venue) =
      answer (create_group c.lower caller name venue access.scope)
  handle_group (show_group id) = answer (get_group id access.scope)
  handle_group (patch_group id name) = answer (rename_group c.lower caller id name access.scope)
  handle_group (delete_user_group id) = delete_group caller id access.scope
  handle_group (put_permissions id codes) = answer (set_permissions caller id codes access)

  unfoldable pub handle_member : MemberEndpoint → Action (Unit {0})
  handle_member (post_member id email) =
      answer (add_member c.lower caller id email access.scope now)
  handle_member (delete_member id user) = remove_member caller id user access

  -- `invite_staff`
  unfoldable pub invite_staff : String → ℕ → NewUser → Action (Unit {0})
  invite_staff raw group body =
      answer (do g ← invitable_group caller group access.scope; invite c caller body g raw now)

  unfoldable pub handle_user : UserEndpoint → Action (Unit {0})
  handle_user (show_user id) = answer (get_for_admin id access.scope)
  handle_user (patch_user id body) = answer (update_by_admin caller id body access.scope now)
  handle_user (post_invitation raw id) = answer (resend_invitation c caller id access.scope raw now)
  handle_user (delete_invitation id) = revoke_invitation caller id access.scope

  -- `create_court`
  unfoldable pub add_court : ℕ → ℕ → CourtCreate → Action (Unit {0})
  add_court id venue body = answer (create_court id caller venue body access.scope)

  unfoldable pub handle_court : CourtEndpoint → Action (Unit {0})
  handle_court (show_court id) = answer (get_court id access.scope)
  handle_court (patch_court id body) = answer (update_court caller id body access.scope)

  -- `create_venue`; the venue is not asked to be in scope.
  unfoldable pub add_venue : ℕ → VenueCreate → Action (Unit {0})
  add_venue id body = answer (create_venue c.lower id caller body)

  unfoldable pub handle_venue : VenueEndpoint → Action (Unit {0})
  handle_venue (show_venue id) = answer (get_venue id access.scope false)
  handle_venue (patch_venue id body) = answer (update_venue caller id body access.scope)

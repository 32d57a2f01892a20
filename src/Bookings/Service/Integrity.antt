-- ===== src/Bookings/Service/Integrity.antt =====
-- The operations of staff (bookings/service.py), and the integrity of the booking tables.
use Prim.Native.String.{String}
use pikol_backend.Common.{ℕ, Bool, refl, Option, none, some, List, [], ◌∷◌, ◌++◌}
use pikol_backend.Time.{Instant}
use pikol_backend.Errors.{Error}
use pikol_backend.Catalog.{VenueScope, User}
use pikol_backend.Events.Models.{ActionEventType}
use pikol_backend.Events.Service.{record_group}
use pikol_backend.Bookings.Enums.{PaymentMethod, cancelled, paid}
use pikol_backend.Bookings.Models.{BookingGroup, NoteLine, GroupUpdate}
use pikol_backend.Bookings.Repository.{group_by_id, insert, set_status}
use pikol_backend.Bookings.Integrity.{IsConsistent}
use pikol_backend.Bookings.Integrity.Status.{set_status-Keeps, expire_lapsed-Keeps, event_kept}
use pikol_backend.Bookings.Integrity.Insert.{insert-Keeps}
use pikol_backend.Bookings.Integrity.Assign.{LeavesKeys, assign-Keeps}
use pikol_backend.Bookings.Service.{
  or_raise, assign, get_court, get_venue, bookable_court, priced_slots, get_scoped, snapshot,
  cancel_group, cancel_by_staff, reopen, mark_paid, Outcome, played, absent, outcome_status,
  set_outcome, resolve, WalkInRequest, walk_in_fields, create_walk_in,
}
use pikol_backend.Bookings.Closures.{ClosureRequest, closure_fields, close_court, close_courts}
use pikol_backend.Database.{Tables}
use pikol_backend.Database.Keeps.{
  Keeps, Maintains, Keeps-bind, Keeps-gets, Keeps-pure, Keeps-raise, Keeps-savepoint,
  Keeps-map_action, Keeps-lift, Keeps-raise_if, keeps_rules,
}

module _ {P Q : Tables → Type 0} where
  pub or_raise-Keeps : {A : Type 0} (o : Option A) (e : Error) → Maintains P Q (or_raise o e)
  or_raise-Keeps none e = Keeps-raise e
  or_raise-Keeps (some a) e = Keeps-pure a

  pub group_by_id-Keeps : (i : ℕ) → Maintains P Q (group_by_id i)
  unfolding group_by_id
  group_by_id-Keeps i =
      Keeps-bind _ _ (Keeps-gets _) (elim [ none ↦ Keeps-raise _ | some g ↦ Keeps-pure g ])

  pub get_court-Keeps : (id : ℕ) (scope : VenueScope) → Maintains P Q (get_court id scope)
  unfolding get_court
  get_court-Keeps id scope = Keeps-bind _ _ (search keeps_rules) (λ o. or_raise-Keeps o _)

  pub get_venue-Keeps :
      (id : ℕ) (scope : VenueScope) (active : Bool) → Maintains P Q (get_venue id scope active)
  unfolding get_venue
  get_venue-Keeps id scope active = Keeps-bind _ _ (search keeps_rules) (λ o. or_raise-Keeps o _)

  pub bookable_court-Keeps : (id : ℕ) (scope : VenueScope) → Maintains P Q (bookable_court id scope)
  unfolding bookable_court
  bookable_court-Keeps id scope =
      Keeps-bind _ _ (get_court-Keeps id scope) (search (keeps_rules, get_venue-Keeps))

  pub priced_slots-Keeps : (c : ℕ) (t : Instant) (n : ℕ) → Maintains P Q (priced_slots c t n)
  unfolding priced_slots
  priced_slots-Keeps c t n = Keeps-gets _

  pub get_scoped-Keeps : (id : ℕ) (scope : VenueScope) → Maintains P Q (get_scoped id scope)
  unfolding get_scoped
  get_scoped-Keeps id scope =
      Keeps-bind _ _ (search keeps_rules) (search (keeps_rules, or_raise-Keeps))

  pub snapshot-Keeps : (g : BookingGroup) → Maintains P Q (snapshot g)
  unfolding snapshot
  snapshot-Keeps g = Keeps-bind _ _ (search keeps_rules) (search keeps_rules)

pub record_group-Keeps :
    (type : ActionEventType) (actor : Option ℕ) (g : BookingGroup) (at : Instant)
    → Keeps IsConsistent (record_group type actor g at)
unfolding record_group
record_group-Keeps type actor g at = event_kept _

-- The shared steps of the services: those for any property, and those for integrity.
pub ruleset step_rules = (
  keeps_rules, or_raise-Keeps, group_by_id-Keeps, get_court-Keeps, get_venue-Keeps,
  bookable_court-Keeps, priced_slots-Keeps, get_scoped-Keeps, snapshot-Keeps,
)

pub ruleset service_rules = (step_rules, record_group-Keeps, expire_lapsed-Keeps)

pub set_cancelled-Keeps :
    (id : ℕ) (fields : GroupUpdate) → Keeps IsConsistent (set_status id cancelled fields)
set_cancelled-Keeps id fields = set_status-Keeps id cancelled fields (cc)

cancel_group-Keeps :
    (group : BookingGroup) (by : User) (reason : String) (now : Instant)
    → Keeps IsConsistent (cancel_group group by reason now)
unfolding cancel_group
cancel_group-Keeps group by reason now =
    Keeps-bind _ _ (set_cancelled-Keeps group.id _) (search service_rules)

pub cancel_by_staff-Keeps :
    (staff : User) (id : ℕ) (reason : String) (scope : VenueScope) (now : Instant)
    → Keeps IsConsistent (cancel_by_staff staff id reason scope now)
unfolding cancel_by_staff
cancel_by_staff-Keeps staff id reason scope now =
    Keeps-bind _ _ (get_scoped-Keeps id scope) (search (service_rules, cancel_group-Keeps))

pub reopen-Keeps :
    (staff : User) (id : ℕ) (reason : String) (scope : VenueScope) (now : Instant)
    → Keeps IsConsistent (reopen staff id reason scope now)
unfolding reopen
reopen-Keeps staff id reason scope now =
    Keeps-bind _ _ (get_scoped-Keeps id scope) (search (service_rules, cancel_group-Keeps))

LeavesKeys-columns :
    (method : PaymentMethod)
    → LeavesKeys (λ g. record g { payment_status = paid; payment_method = some method })
LeavesKeys-columns method = record {
  id = λ g. refl;
  court = λ g. refl;
  status = λ g. refl;
  deadline = λ g. refl;
}

assign-paid-Keeps :
    (id : ℕ) (method : PaymentMethod)
    → Keeps IsConsistent
        (assign id (λ g. record g { payment_status = paid; payment_method = some method }))
assign-paid-Keeps id method = assign-Keeps id _ (LeavesKeys-columns method)

pub assign_notes-Keeps :
    (id : ℕ) (line : NoteLine) (flag : Bool)
    → Keeps IsConsistent
        (assign id (λ g. record g { notes = g.notes ++ line ∷ []; needs_resolution = flag }))
assign_notes-Keeps id line flag =
    assign-Keeps id _
      (record { id = λ g. refl; court = λ g. refl; status = λ g. refl; deadline = λ g. refl })

pub mark_paid-Keeps :
    (staff : User) (id : ℕ) (method : PaymentMethod) (scope : VenueScope) (now : Instant)
    → Keeps IsConsistent (mark_paid staff id method scope now)
unfolding mark_paid
mark_paid-Keeps staff id method scope now =
    Keeps-bind _ _ (get_scoped-Keeps id scope) (search (service_rules, assign-paid-Keeps) depth 16)

pub resolve-Keeps :
    (staff : User) (id : ℕ) (resolution : String) (scope : VenueScope) (now : Instant)
    → Keeps IsConsistent (resolve staff id resolution scope now)
unfolding resolve
resolve-Keeps staff id resolution scope now =
    Keeps-bind _ _ (get_scoped-Keeps id scope) (search (service_rules, assign_notes-Keeps) depth 16)

set_outcome_status-Keeps :
    (id : ℕ) (outcome : Outcome) (fields : GroupUpdate)
    → Keeps IsConsistent (set_status id (outcome_status outcome) fields)
set_outcome_status-Keeps id played fields = set_status-Keeps id _ fields (cc)
set_outcome_status-Keeps id absent fields = set_status-Keeps id _ fields (cc)

pub set_outcome-Keeps :
    (staff : User) (id : ℕ) (outcome : Outcome) (scope : VenueScope) (now : Instant)
    → Keeps IsConsistent (set_outcome staff id outcome scope now)
unfolding set_outcome
set_outcome-Keeps staff id outcome scope now =
    Keeps-bind _ _ (get_scoped-Keeps id scope)
      (search (service_rules, set_outcome_status-Keeps) depth 16)

insert_walk_in-Keeps :
    (court price : ℕ) (notes : List NoteLine) (staff : ℕ) (slot_prices : List (Instant × ℕ))
    → Keeps IsConsistent (insert (walk_in_fields court price notes staff) slot_prices)
insert_walk_in-Keeps court price notes staff slot_prices = insert-Keeps _ slot_prices refl

insert_closure-Keeps :
    (court : ℕ) (reason : String) (staff : ℕ) (slot_prices : List (Instant × ℕ))
    → Keeps IsConsistent (insert (closure_fields court reason staff) slot_prices)
insert_closure-Keeps court reason staff slot_prices = insert-Keeps _ slot_prices refl

pub create_walk_in-Keeps :
    (staff : User) (body : WalkInRequest) (scope : VenueScope) (now : Instant)
    → Keeps IsConsistent (create_walk_in staff body scope now)
unfolding create_walk_in
create_walk_in-Keeps staff body scope now =
    Keeps-bind _ _ (Keeps-gets _) (search (service_rules, insert_walk_in-Keeps) depth 16)

close_court-Keeps :
    (staff : User) (reason : String) (starts : List Instant) (now : Instant) (court : ℕ)
    → Keeps IsConsistent (close_court staff reason starts now court)
unfolding close_court
close_court-Keeps staff reason starts now court =
    Keeps-bind _ _ (expire_lapsed-Keeps court starts now)
      (search (service_rules, insert_closure-Keeps))

pub close_courts-Keeps :
    (staff : User) (body : ClosureRequest) (scope : VenueScope) (now : Instant)
    → Keeps IsConsistent (close_courts staff body scope now)
unfolding close_courts
close_courts-Keeps staff body scope now =
    Keeps-bind _ _ (Keeps-lift _) (search (service_rules, close_court-Keeps) depth 16)

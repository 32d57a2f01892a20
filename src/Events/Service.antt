-- ===== src/Events/Service.antt =====
-- action_events/service.py (`record`) and action_events/persistence/repository.py (`insert`).
use pikol_backend.Common.{
  ℕ, Option, none, some, [], ◌∷◌, ◌++◌, ◌==◌, nat_eq, option_eq, if◌then◌else◌,
}
use pikol_backend.Time.{Instant}
use pikol_backend.Bookings.Models.{BookingGroup}
use pikol_backend.Checkouts.Models.{Checkout}
use pikol_backend.Database.{Action, modify}
use pikol_backend.Events.Models.{ActionEventType, ActorKind, ActionEvent, staff, customer, system}

-- `ActionEventRepository.insert`: appends.
unfoldable pub insert_event : ActionEvent → Action (Unit {0})
insert_event e = modify (λ t. record t { action_events = t.action_events ++ e ∷ [] })

-- No actor is SYSTEM; the booking's player or the checkout's customer is CUSTOMER; else STAFF.
unfoldable pub actor_kind : Option ℕ → Option ℕ → ActorKind
actor_kind none customer_id = system
actor_kind (some actor) customer_id = if some actor == customer_id then customer else staff

-- `record` for a booking group, and for a checkout alone.
unfoldable pub record_group :
    ActionEventType → Option ℕ → BookingGroup → Instant → Action (Unit {0})
unfolding insert_event actor_kind
record_group type actor group occurred_at = insert_event (record {
  type = type;
  actor_kind = actor_kind actor group.player_id;
  actor_user_id = actor;
  occurred_at = occurred_at;
  booking_group_id = some group.id;
  checkout_id = group.checkout_id;
})

unfoldable pub record_checkout : ActionEventType → Option ℕ → Checkout → Instant → Action (Unit {0})
unfolding insert_event actor_kind
record_checkout type actor checkout occurred_at = insert_event (record {
  type = type;
  actor_kind = actor_kind actor (some checkout.customer_id);
  actor_user_id = actor;
  occurred_at = occurred_at;
  booking_group_id = none;
  checkout_id = some checkout.id;
})

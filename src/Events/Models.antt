-- ===== src/Events/Models.antt =====
-- action_events/domain/enums.py and action_events/persistence/models.py. The JSON `data` of an event
-- is not modelled.
use pikol_backend.Common.{ℕ, Option}
use pikol_backend.Time.{Instant}

pub data ActionEventType : Type 0 where
  hold_placed walk_in_booked closure_created payment_started payment_succeeded : ActionEventType
  payment_failed payment_cancelled confirmed marked_paid completed no_show : ActionEventType
  cancelled expired refunded voided flagged resolved reopened : ActionEventType

pub data ActorKind : Type 0 where
  staff customer system : ActorKind

pub record ActionEvent : Type 0 where
  pub type : ActionEventType
  pub actor_kind : ActorKind
  pub actor_user_id : Option ℕ
  pub occurred_at : Instant
  pub booking_group_id : Option ℕ
  pub checkout_id : Option ℕ

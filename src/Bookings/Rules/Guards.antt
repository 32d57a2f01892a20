-- ===== src/Bookings/Rules/Guards.antt =====
-- The guards of the staff operations, and the status that a user is shown.
use pikol_backend.Common.{◌≡◌, ◌≢◌, ◌↔◌, ◌⊎◌, ◌≤◌, ◌<◌, ◌+◌, ◌*◌, some, arith}
use pikol_backend.Time.{Instant, hour}
use pikol_backend.Errors.{ok}
use pikol_backend.Bookings.Enums.{walk_in, maintenance, pending, confirmed, completed, unpaid}
use pikol_backend.Bookings.Rules.{
  BookingSnapshot, can_cancel_by_staff, can_cancel_closure, can_mark_paid, can_set_outcome,
  display_status, in_progress, stored,
}

-- Staff may cancel exactly a confirmed booking that is no closure, and may reopen exactly a
-- confirmed closure; so no booking passes both guards.
pub cancel_guards :
    (b : BookingSnapshot)
    → ((can_cancel_by_staff b ≡ ok tt) ↔ ((b.type ≢ maintenance) × (b.booking_status ≡ confirmed)))
      × ((can_cancel_closure b ≡ ok tt) ↔ ((b.type ≡ maintenance) × (b.booking_status ≡ confirmed)))
unfolding can_cancel_by_staff can_cancel_closure
cancel_guards b = ground arith

-- A booking may be marked paid exactly if it is an unpaid walk-in that is confirmed or completed.
pub can_mark_paid_iff :
    (b : BookingSnapshot)
    → (can_mark_paid b ≡ ok tt) ↔ (
        (b.type ≡ walk_in)
        × (b.payment_status ≡ unpaid)
        × ((b.booking_status ≡ confirmed) ⊎ (b.booking_status ≡ completed)))
unfolding can_mark_paid
can_mark_paid_iff b = ground arith

-- An outcome may be set exactly for a confirmed booking that is no closure and has started.
pub can_set_outcome_iff :
    (b : BookingSnapshot) (now : Instant)
    → (can_set_outcome b now ≡ ok tt)
      ↔ ((b.type ≢ maintenance) × (b.booking_status ≡ confirmed) × (b.starts_at ≤ now))
unfolding can_set_outcome
can_set_outcome_iff b now = ground arith

-- PENDING is shown exactly while the hold is live: the status is pending and the deadline is later
-- than now.
pub display_pending_iff :
    (b : BookingSnapshot) (now : Instant)
    → (display_status b now ≡ stored pending)
      ↔ ((b.booking_status ≡ pending) × ((t : Instant) × (b.expires_at ≡ some t) × (now < t)))
unfolding display_status
display_pending_iff b now = ground arith

-- IN_PROGRESS is shown exactly for a confirmed booking, from its start and before its end.
pub display_in_progress_iff :
    (b : BookingSnapshot) (now : Instant)
    → (display_status b now ≡ in_progress) ↔ (
        (b.booking_status ≡ confirmed) × (b.starts_at ≤ now) × (now < b.starts_at + b.hours * hour))
unfolding display_status
display_in_progress_iff b now = ground arith

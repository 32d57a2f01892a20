-- ===== src/Payments/Stable.antt =====
-- What a property of the tables needs in order to be kept by the payment service: a law for each
-- statement that writes.
use pikol_backend.Common.{ℕ, ◌≢◌, List}
use pikol_backend.Time.{Instant}
use pikol_backend.Events.Models.{ActionEvent}
use pikol_backend.Events.Service.{insert_event}
use pikol_backend.Bookings.Enums as BookingEnums
use pikol_backend.Bookings.Enums.{BookingStatus}
use pikol_backend.Bookings.Models.{BookingGroup, GroupUpdate}
use pikol_backend.Bookings.Repository.{set_status, expire_lapsed}
use pikol_backend.Bookings.Service.{assign}
use pikol_backend.Bookings.Integrity.{IsConsistent}
use pikol_backend.Bookings.Integrity.Assign.{LeavesKeys, assign-Keeps}
use pikol_backend.Bookings.Integrity.Status.{set_status-Keeps, expire_lapsed-Keeps, event_kept}
use pikol_backend.Checkouts.Models.{Refund}
use pikol_backend.Checkouts.Repository.{set_checkout_status}
use pikol_backend.Payments.Enums.{PaymentOutcome}
use pikol_backend.Payments.Models.{Payment}
use pikol_backend.Payments.Repository.{assign_payment}
use pikol_backend.Database.{Tables}
use pikol_backend.Database.Keeps.{Maintains, Keeps-modify}

-- `P` is of the transaction's tables, `Q` of the committed ones.
pub record IsStable (P Q : Tables → Type 0) : Type 0 where
  pub set_status :
      (id : ℕ) (status : BookingStatus) (values : GroupUpdate)
      → status ≢ BookingEnums.pending
      → Maintains P Q (set_status id status values)
  pub expire_lapsed :
      (court : ℕ) (starts : List Instant) (now : Instant)
      → Maintains P Q (expire_lapsed court starts now)
  pub insert_event : (e : ActionEvent) → Maintains P Q (insert_event e)
  pub assign :
      (id : ℕ) (f : BookingGroup → BookingGroup) → LeavesKeys f → Maintains P Q (assign id f)
  pub assign_payment : (id : ℕ) (f : Payment → Payment) → Maintains P Q (assign_payment id f)
  pub set_checkout_status :
      (id : ℕ) (status : PaymentOutcome) → Maintains P Q (set_checkout_status id status)
  pub set_refunds : (t : Tables) (refunds : List Refund) → P t → P (record t { refunds = refunds })
  pub commits : (t : Tables) → P t → Q t

instance abbrev pub consistent_stable : IsStable IsConsistent IsConsistent
unfolding set_checkout_status
consistent_stable = record {
  set_status = set_status-Keeps;
  expire_lapsed = expire_lapsed-Keeps;
  insert_event = event_kept;
  assign = assign-Keeps;
  assign_payment = λ id f. Keeps-modify _ (λ t c. c);
  set_checkout_status = λ id status. Keeps-modify _ (λ t c. c);
  set_refunds = λ t refunds c. c;
  commits = λ t c. c;
}

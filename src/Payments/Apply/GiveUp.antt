-- ===== src/Payments/Apply/GiveUp.antt =====
-- The end of `_paid` for a late payment whose hours are gone (payments/service.py).
use pikol_backend.Common.{ℕ, ◌≡◌, true, is_some, List, All, ◌==◌, nat_eq}
use pikol_backend.Time.{Instant}
use pikol_backend.Errors.{Result, ok}
use pikol_backend.Bookings.Enums.{status_eq}
use pikol_backend.Bookings.Models.{system_refund_pending}
use pikol_backend.Bookings.Integrity.{IsConsistent}
use pikol_backend.Checkouts.Models.{Checkout}
use pikol_backend.Checkouts.Repository.{set_checkout_status}
use pikol_backend.Payments.Enums.{pending, cancelled, outcome_eq}
use pikol_backend.Payments.Models.{Payment}
use pikol_backend.Payments.Port.{ProviderPayment}
use pikol_backend.Payments.Stable.{consistent_stable}
use pikol_backend.Payments.Apply.{Effect, undo, expire_pending, flag_group}
use pikol_backend.Payments.Apply.Expire.{IsReleased, TakesNothing}
use pikol_backend.Payments.Apply.Refusals.{IsFlagged}
use pikol_backend.Database.{Session, Tables, Action, when, for_each}

abbrev IsThere : Tables → ℕ → Type 0
IsThere t i = is_some (t.booking_groups i) ≡ true

-- What holds between the passes.
abbrev Loosened : Tables → Session → Type 0
Loosened before s =
    IsConsistent s.tables
    × IsConsistent s.committed
    × TakesNothing before s.tables
    × ((i : ℕ) → IsThere before i → IsThere s.tables i)

abbrev close_checkout : Checkout → Action (Unit {0})
close_checkout checkout =
    when (checkout.status == pending) (set_checkout_status checkout.id cancelled)

-- Nothing is booked, staff is told, and the payment is to be undone.
abbrev pub IsGivenUp : Checkout → Payment → List ℕ → Session → Result Effect × Session → Type 0
IsGivenUp checkout row groups s run =
    (run.0 ≡ ok (undo row.id checkout.id))
    × All (λ i. IsReleased run.1.tables.booking_groups i × IsFlagged i run.1) groups
    × TakesNothing s.tables run.1.tables

module _ (checkout : Checkout) (row : Payment) (groups : List ℕ) (p : ProviderPayment)
    (now : Instant) (s : Session) where
  abbrev expired_at : Session
  expired_at = (for_each groups (expire_pending now) s).1

  abbrev closed_at : Session
  closed_at = (close_checkout checkout expired_at).1

  abbrev flagged_run : Result (Unit {0}) × Session
  flagged_run = for_each groups (flag_group (system_refund_pending p.payment_id) now) closed_at

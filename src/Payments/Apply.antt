-- ===== src/Payments/Apply.antt =====
-- payments/service.py: what a verified provider payment does to its checkout. Receipts are returned
-- as an effect and not sent here; `now` is the one clock reading of `_apply`.
pub mod Integrity
pub mod Refusals
pub mod Confirm
pub mod Expire
pub mod GiveUp
use Prim.Native.String.{String}
use text.Mathlib.Text.{◌==◌ as str_eq}
use pikol_backend.Common.{
  ℕ, zero, suc, Bool, true, false, not, ◌&&◌, ◌||◌, Option, none, some, List, [], ◌∷◌, ◌++◌, map,
  all, is_none, ltb, ◌==◌, nat_eq, option_eq, if◌then◌else◌,
}
use pikol_backend.Time.{Instant}
use pikol_backend.Errors.{Error, Result, ok, err, integrity_error, slot_constraint}
use pikol_backend.Events.Models.{
  payment_succeeded, payment_failed, payment_cancelled, confirmed as confirmed_event,
  cancelled as cancelled_event, expired as expired_event, flagged,
}
use pikol_backend.Events.Service.{record_group, record_checkout}
use pikol_backend.Bookings.Enums as BookingEnums
use pikol_backend.Bookings.Enums.{BookingStatus, status_eq, type_eq}
use pikol_backend.Bookings.Models.{
  BookingGroup, BookingSlot, NoteLine, system_mismatch, system_final, system_foreign_refund,
  system_refund_pending, no_fields, cancellation, paid_fields, paid_uncancelled,
}
use pikol_backend.Bookings.Repository.{group_by_id, set_status, expire_lapsed}
use pikol_backend.Bookings.Service.{slots_of, assign}
use pikol_backend.Checkouts.Models.{Checkout}
use pikol_backend.Checkouts.Repository.{get_for_update, set_checkout_status}
use pikol_backend.Checkouts.Rules.{is_live}
use pikol_backend.Payments.Enums.{
  PaymentOutcome, PaymentProviderName, pending, successful, failed, cancelled, refunded, outcome_eq,
  is_settled,
}
use pikol_backend.Payments.Models.{Payment}
use pikol_backend.Payments.Port.{ProviderPayment}
use pikol_backend.Payments.Repository.{by_checkout_id, lock_payment, assign_payment, refund_for}
use pikol_backend.Database.{
  Tables, Session, Action, pure, raise, gets, savepoint, attempt, ◌>>=◌, ◌>>◌, when, for_each,
}

-- What to do once the transaction has committed: a receipt for a checkout, or a void or refund for
-- a payment and its checkout.
pub data Effect : Type 0 where
  nothing : Effect
  receipt : ℕ → Effect
  undo : ℕ → ℕ → Effect

abbrev pub belongs_to : ℕ → Option BookingGroup → Bool
belongs_to checkout none = false
belongs_to checkout (some g) = g.checkout_id == some checkout

unfoldable pub groups_below : ℕ → (ℕ → Option BookingGroup) → ℕ → List ℕ
groups_below checkout groups zero = []
groups_below checkout groups (suc n) =
    groups_below checkout groups n ++ (if belongs_to checkout (groups n) then n ∷ [] else [])

-- `_lock_groups` and `checkout.bookings`: the groups of a checkout, in the order of their keys.
abbrev pub groups_of : ℕ → Tables → List ℕ
groups_of checkout t = groups_below checkout t.booking_groups t.next_group_id

-- One pass of `_flag`.
unfoldable pub flag_group : NoteLine → Instant → ℕ → Action (Unit {0})
flag_group line now id = do
  assign id (λ g. record g { notes = g.notes ++ line ∷ []; needs_resolution = true })
  g ← group_by_id id
  record_group flagged none g now

-- `_flag`
unfoldable pub flag : List ℕ → NoteLine → Instant → Action (Unit {0})
flag groups line now = for_each groups (flag_group line now)

abbrev pub or_now : Option Instant → Instant → Instant
or_now none now = now
or_now (some t) now = t

-- `_expire`: dated at the deadline, read before it is cleared.
unfoldable pub expire_group : Instant → ℕ → Action (Unit {0})
expire_group now id = do
  before ← group_by_id id
  set_status id BookingEnums.expired no_fields
  g ← group_by_id id
  record_group expired_event none g (or_now before.expires_at now)

abbrev pub release_reason : PaymentOutcome → String
release_reason outcome = if outcome == failed then "Payment failed" else "Backed out of payment"

unfoldable pub cancel_unpaid : Checkout → PaymentOutcome → Instant → ℕ → Action (Unit {0})
cancel_unpaid checkout outcome now id = do
  set_status id BookingEnums.cancelled
      (cancellation now checkout.customer_id (release_reason outcome))
  g ← group_by_id id
  record_group cancelled_event none g now

-- One pass of the loop of `_release`.
unfoldable pub release_group : Checkout → PaymentOutcome → Bool → Instant → ℕ → Action (Unit {0})
release_group checkout outcome live now id = do
  group ← group_by_id id
  when (group.booking_status == BookingEnums.pending) (
      if live || outcome == failed
      then cancel_unpaid checkout outcome now id
      else expire_group now id)

-- `_release`
unfoldable pub release : Checkout → Payment → List ℕ → PaymentOutcome → Instant → Action (Unit {0})
release checkout row groups outcome now = do
  when (not (is_settled row.status)) (assign_payment row.id (λ p. record p { status = outcome }))
  if not (checkout.status == pending) then pure tt else do
    set_checkout_status checkout.id outcome
    record_checkout (if outcome == failed then payment_failed else payment_cancelled) none checkout
        now
    for_each groups
        (release_group checkout outcome (is_live checkout.status checkout.expires_at now) now)

-- One pass of the loop that confirms a live hold.
unfoldable pub confirm_group : Instant → ℕ → Action (Unit {0})
confirm_group now id = do
  set_status id BookingEnums.confirmed paid_fields
  g ← group_by_id id
  record_group confirmed_event none g now

-- One pass of the loop that takes the hours of an ended hold again.
unfoldable pub reacquire_group : Instant → ℕ → Action (Unit {0})
reacquire_group now id = do
  group ← group_by_id id
  starts ← gets (λ t. map (λ s. s.starts_at) (slots_of id t))
  expire_lapsed group.court_id starts now
  set_status id BookingEnums.confirmed paid_uncancelled
  g ← group_by_id id
  record_group confirmed_event none g now

-- `except IntegrityError`: a slot conflict is taken as `false`, anything else is raised again.
unfoldable pub reacquired : Result (Unit {0}) → Action Bool
reacquired (ok _) = pure true
reacquired (err (integrity_error slot_constraint)) = pure false
reacquired (err e) = raise e

abbrev pub all_in_future : List ℕ → Instant → Tables → Bool
all_in_future groups now t = all (λ id. all (λ s. ltb now s.starts_at) (slots_of id t)) groups

unfoldable pub expire_pending : Instant → ℕ → Action (Unit {0})
expire_pending now id = do
  group ← group_by_id id
  when (group.booking_status == BookingEnums.pending) (expire_group now id)

-- Step 1 of the refund flow: book nothing, and flag before Maya is called.
unfoldable pub give_up : Checkout → Payment → List ℕ → ProviderPayment → Instant → Action Effect
give_up checkout row groups payment now = do
  for_each groups (expire_pending now)
  when (checkout.status == pending) (set_checkout_status checkout.id cancelled)
  flag groups (system_refund_pending payment.payment_id) now
  pure (undo row.id checkout.id)

unfoldable pub paid_live : Checkout → List ℕ → Instant → Action Effect
paid_live checkout groups now = do
  for_each groups (confirm_group now)
  set_checkout_status checkout.id successful
  pure (receipt checkout.id)

unfoldable pub paid_late : Checkout → Payment → List ℕ → ProviderPayment → Instant → Action Effect
paid_late checkout row groups payment now = do
  future ← gets (all_in_future groups now)
  if not future then give_up checkout row groups payment now else do
    result ← attempt (savepoint (for_each groups (reacquire_group now)))
    housed ← reacquired result
    if not housed
        then give_up checkout row groups payment now
        else do set_checkout_status checkout.id successful; pure (receipt checkout.id)

abbrev pub matches_checkout : Checkout → ProviderPayment → Bool
matches_checkout checkout payment =
    payment.amount_centavos == checkout.total_centavos
    && str_eq payment.reference checkout.reference_code

unfoldable pub flag_and_stop : List ℕ → NoteLine → Instant → Action Effect
flag_and_stop groups line now = do flag groups line now; pure nothing

unfoldable pub take_payment :
    Checkout → Payment → List ℕ → ProviderPayment → Instant → Action Effect
take_payment checkout row groups payment now = do
  assign_payment row.id (λ p. record p { status = successful })
  record_checkout payment_succeeded none checkout now
  if is_live checkout.status checkout.expires_at now
      then paid_live checkout groups now
      else paid_late checkout row groups payment now

-- `_paid`
unfoldable pub paid : Checkout → Payment → List ℕ → ProviderPayment → Instant → Action Effect
paid checkout row groups payment now =
    if not (matches_checkout checkout payment)
    then flag_and_stop groups (system_mismatch payment.payment_id) now
    else if not (checkout.status == pending || checkout.status == cancelled)
    then flag_and_stop groups (system_final payment.payment_id) now
    else take_payment checkout row groups payment now

unfoldable pub refund_ours : Checkout → Payment → Action Effect
refund_ours checkout row = do
  assign_payment row.id (λ p. record p { status = refunded })
  set_checkout_status checkout.id refunded
  pure nothing

-- The case of `_apply` for a refund that the provider reports.
unfoldable pub refund_reported :
    Checkout → Payment → List ℕ → ProviderPayment → Instant → Action Effect
refund_reported checkout row groups payment now = do
  ours ← gets (refund_for row.id)
  if is_none ours
      then flag_and_stop groups (system_foreign_refund payment.payment_id) now
      else refund_ours checkout row

-- The `match` of `_apply`.
unfoldable pub dispatch :
    PaymentOutcome → Checkout → Payment → List ℕ → ProviderPayment → Instant → Action Effect
dispatch failed checkout row groups payment now = do
  release checkout row groups failed now
  pure nothing
dispatch cancelled checkout row groups payment now = do
  release checkout row groups cancelled now
  pure nothing
dispatch refunded checkout row groups payment now = refund_reported checkout row groups payment now
dispatch _ checkout row groups payment now = paid checkout row groups payment now

unfoldable pub apply_found : ProviderPayment → Instant → Payment → Action Effect
apply_found payment now found = do
  checkout ← get_for_update found.checkout_id
  groups ← gets (groups_of checkout.id)
  row ← lock_payment found.id
  assign_payment row.id (λ p. record p {
    provider_status = some payment.provider_status;
    provider_payment_id = some payment.payment_id;
  })
  dispatch payment.status checkout row groups payment now

-- `_apply`
unfoldable pub apply : PaymentProviderName → ProviderPayment → Instant → Action Effect
apply provider payment now = do
  found ← gets (by_checkout_id provider payment.payment_id)
  elim found [ none ↦ pure nothing | some row ↦ apply_found payment now row ]

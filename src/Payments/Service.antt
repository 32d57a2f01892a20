-- ===== src/Payments/Service.antt =====
-- payments/service.py: opening Maya for a checkout, asking the provider about a payment, and undoing
-- a payment that lost its hours. The provider's answers are a parameter, and each clock reading is.
pub mod Integrity
pub mod Delivery
use Prim.Native.String.{String, ◌++◌ as concat}
use text.Mathlib.Text.{◌==◌ as str_eq}
use pikol_backend.Common.{
  ℕ, Bool, true, false, not, Option, none, some, List, [], ◌∷◌, ◌++◌, map, any, ◌==◌, nat_eq,
  if◌then◌else◌,
}
use pikol_backend.Time.{Instant}
use pikol_backend.Errors.{
  Error, Result, ok, err, app_error, integrity_error, assertion_error, payment_not_found,
  payment_provider_unavailable, refund_constraint,
}
use pikol_backend.Events.Models.{payment_started, voided, refunded as refunded_event}
use pikol_backend.Events.Service.{record_checkout}
use pikol_backend.Bookings.Models.{NoteLine, system_undo_failed, system_undone}
use pikol_backend.Bookings.Service.{or_raise, assign}
use pikol_backend.Checkouts.Models.{Checkout, Refund}
use pikol_backend.Checkouts.Repository.{get_for_update, set_checkout_status}
use pikol_backend.Checkouts.Rules.{undo_kind}
use pikol_backend.Payments.Enums.{
  PaymentOutcome, RefundKind, pending, refunded, void, refund, outcome_eq,
}
use pikol_backend.Payments.Models.{Payment, WebhookEvent}
use pikol_backend.Payments.Port.{CheckoutSession, ProviderPayment, PaymentProvider}
use pikol_backend.Payments.Repository.{
  add_checkout, latest_for_checkout, record_event, assign_payment,
}
use pikol_backend.Payments.Apply.{Effect, nothing, receipt, undo, groups_of, flag, or_now, apply}
use pikol_backend.Database.{
  Tables, Action, pure, raise, raise_if, gets, ◌>>=◌, ◌>>◌, modify, commit, for_each,
}

abbrev pub provider_unavailable : Error
provider_unavailable = app_error 502 payment_provider_unavailable

-- The end of `start_checkout`: `none` when a concurrent request recorded its session first.
unfoldable pub finish_start : Checkout → CheckoutSession → Instant → Option Payment → Action String
finish_start checkout opened now none = do
  winner ← gets (latest_for_checkout checkout.id)
  p ← or_raise winner assertion_error
  pure p.checkout_url
finish_start checkout opened now (some _) = do
  record_checkout payment_started (some checkout.customer_id) checkout now
  commit
  pure opened.checkout_url

unfoldable pub open_session : Checkout → PaymentProvider → Instant → Action String
open_session checkout provider now = do
  opened ←
      or_raise (provider.create_checkout checkout.total_centavos checkout.reference_code)
        provider_unavailable
  recorded ← add_checkout checkout.id provider.name opened checkout.total_centavos now
  finish_start checkout opened now recorded

-- A second call returns the first session's URL.
unfoldable pub start_checkout : Checkout → PaymentProvider → Instant → Action String
start_checkout checkout provider now = do
  existing ← gets (latest_for_checkout checkout.id)
  elim existing [ some p ↦ pure p.checkout_url | none ↦ open_session checkout provider now ]

-- One pass of the loop that closes the resolution of a refunded group.
unfoldable pub note_undone : RefundKind → String → ℕ → Action (Unit {0})
note_undone kind reference id = assign id (λ g. record g {
  notes = g.notes ++ system_undone kind reference ∷ [];
  needs_resolution = false;
})

-- The unique constraint on `refunds.payment_id`.
unfoldable pub insert_refund : Refund → Action (Unit {0})
insert_refund r = do
  taken ← gets (λ t. any (λ x. x.payment_id == r.payment_id) t.refunds)
  raise_if taken (integrity_error refund_constraint)
  modify (λ t. record t { refunds = t.refunds ++ r ∷ [] })

unfoldable pub undo_failed : ProviderPayment → RefundKind → List ℕ → Instant → Action (Unit {0})
undo_failed payment kind groups now = do
  flag groups (system_undo_failed kind payment.payment_id) now
  commit

unfoldable pub undo_done :
    ProviderPayment → ℕ → RefundKind → Checkout → List ℕ → Instant → String → Action (Unit {0})
undo_done payment payment_row_id kind checkout groups now reference = do
  insert_refund (record {
    payment_id = payment_row_id;
    kind = kind;
    amount_centavos = payment.amount_centavos;
    provider_reference = reference;
  })
  found ← gets (λ t. t.payments payment_row_id)
  row ← or_raise found assertion_error
  assign_payment row.id (λ p. record p { status = refunded })
  set_checkout_status checkout.id refunded
  record_checkout (elim kind [ void ↦ voided | refund ↦ refunded_event ]) none checkout now
  for_each groups (note_undone kind reference)
  commit

-- `provider.void` on the payment's Manila day, else `provider.refund`, of the whole amount.
abbrev pub ask_undo : PaymentProvider → ProviderPayment → RefundKind → Option String
ask_undo provider payment void = provider.void payment.payment_id
ask_undo provider payment refund = provider.refund payment.payment_id payment.amount_centavos

-- `_undo`
unfoldable pub undo_payment :
    PaymentProvider → ProviderPayment → ℕ → ℕ → Instant → Action (Unit {0})
undo_payment provider payment payment_row_id checkout_id now = do
  let kind = undo_kind (or_now payment.paid_at now) now
  checkout ← get_for_update checkout_id
  groups ← gets (groups_of checkout.id)
  elim (ask_undo provider payment kind) [
    | none ↦ undo_failed payment kind groups now
    | some reference ↦ undo_done payment payment_row_id kind checkout groups now reference
  ]

abbrev pub event_id : ProviderPayment → String
event_id payment = concat payment.payment_id (concat ":" payment.provider_status)

-- `event.processed_at = …`
abbrev pub mark_processed : String → Instant → WebhookEvent → WebhookEvent
mark_processed id now e =
    if str_eq e.provider_event_id id then record e { processed_at = some now } else e

unfoldable pub run_effect : PaymentProvider → ProviderPayment → Instant → Effect → Action (Unit {0})
run_effect provider payment now (undo row checkout) = undo_payment provider payment row checkout now
run_effect provider payment now _ = pure tt

-- `sync_payment` for an event that is recorded for the first time.
unfoldable pub process_event : PaymentProvider → ProviderPayment → Instant → Action (Unit {0})
process_event provider payment now = do
  effect ← apply provider.name payment now
  modify (λ t. record t {
    webhook_events = map (mark_processed (event_id payment) now) t.webhook_events;
  })
  commit
  run_effect provider payment now effect

unfoldable pub sync_fetched : PaymentProvider → ProviderPayment → Instant → Action (Unit {0})
sync_fetched provider payment now = if payment.status == pending then pure tt else do
  new ← record_event provider.name (event_id payment)
  if new then process_event provider payment now else pure tt

unfoldable pub after_fetch : PaymentProvider → Instant → Result ProviderPayment → Action (Unit {0})
after_fetch provider now (ok payment) = sync_fetched provider payment now
after_fetch provider now (err payment_not_found) = pure tt
after_fetch provider now (err e) = raise provider_unavailable

-- `sync_payment`, shared by the webhook and the result page's refresh.
unfoldable pub sync_payment : PaymentProvider → String → Instant → Action (Unit {0})
sync_payment provider payment_id now = after_fetch provider now (provider.fetch_payment payment_id)

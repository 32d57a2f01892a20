-- ===== src/Payments/Repository.antt =====
-- payments/persistence/repository.py
use Prim.Native.String.{String}
use text.Mathlib.Text.{◌==◌ as str_eq}
use pikol_backend.Common.{
  ℕ, zero, suc, Bool, true, false, ◌&&◌, ◌||◌, Option, none, some, [], ◌∷◌, ◌++◌, any, find?, ltb,
  ◌==◌, nat_eq, if◌then◌else◌,
}
use pikol_backend.Time.{Instant}
use pikol_backend.Errors.{
  Result, ok, err, integrity_error, no_result, open_attempt_constraint,
  provider_checkout_constraint, event_constraint,
}
use pikol_backend.Payments.Enums.{PaymentProviderName, pending, outcome_eq, provider_eq}
use pikol_backend.Payments.Models.{Payment}
use pikol_backend.Payments.Port.{CheckoutSession}
use pikol_backend.Checkouts.Models.{Refund}
use pikol_backend.Database.{
  Tables, Action, pure, raise, raise_if, gets, savepoint, attempt, ◌>>=◌, ◌>>◌, modify, put_row,
  update_row,
}

abbrev some_payment : (Payment → Bool) → ℕ → (ℕ → Option Payment) → Bool
some_payment p zero rows = false
some_payment p (suc n) rows = elim (rows n) [ none ↦ false | some r ↦ p r ] || some_payment p n rows

-- `uq_payments_one_open_attempt`, and the unique constraint on `provider_checkout_id`.
abbrev pub has_open_attempt : ℕ → Tables → Bool
has_open_attempt checkout t =
    some_payment (λ r. r.checkout_id == checkout && r.status == pending) t.next_payment_id
      t.payments

abbrev pub has_session : String → Tables → Bool
has_session id t = some_payment (λ r. str_eq r.provider_checkout_id id) t.next_payment_id t.payments

abbrev pub new_payment : ℕ → ℕ → PaymentProviderName → CheckoutSession → ℕ → Instant → Payment
new_payment id checkout provider session amount now = record {
  id = id;
  checkout_id = checkout;
  provider = provider;
  provider_checkout_id = session.checkout_id;
  provider_payment_id = none;
  checkout_url = session.checkout_url;
  amount_centavos = amount;
  status = pending;
  provider_status = none;
  created_at = now;
}

unfoldable pub flush_payment : Payment → Action (Unit {0})
flush_payment p = do
  open_attempt ← gets (has_open_attempt p.checkout_id)
  raise_if open_attempt (integrity_error open_attempt_constraint)
  used ← gets (has_session p.provider_checkout_id)
  raise_if used (integrity_error provider_checkout_constraint)
  modify (λ t. record t { payments = put_row p.id p t.payments; next_payment_id = suc p.id })

unfoldable pub after_payment_flush : Payment → Result (Unit {0}) → Action (Option Payment)
after_payment_flush p (ok _) = pure (some p)
after_payment_flush p (err (integrity_error open_attempt_constraint)) = pure none
after_payment_flush p (err e) = raise e

-- `add_checkout`: `none` when another request already recorded an open attempt.
unfoldable pub add_checkout :
    ℕ → PaymentProviderName → CheckoutSession → ℕ → Instant → Action (Option Payment)
add_checkout checkout provider session amount now = do
  id ← gets (λ t. t.next_payment_id)
  flushed ←
      attempt (savepoint (flush_payment (new_payment id checkout provider session amount now)))
  after_payment_flush (new_payment id checkout provider session amount now) flushed

-- The later of two attempts, by `created_at` and then by `id`.
abbrev later : Payment → Option Payment → Option Payment
later p none = some p
later p (some q) = if ltb p.created_at q.created_at then some q else some p

unfoldable pub latest_below : ℕ → ℕ → (ℕ → Option Payment) → Option Payment
latest_below checkout zero rows = none
latest_below checkout (suc n) rows =
    let rest = latest_below checkout n rows in
    elim (rows n) [
      | none ↦ rest
      | some p ↦ if p.checkout_id == checkout then later p rest else rest
    ]

-- `latest_for_checkout`
abbrev pub latest_for_checkout : ℕ → Tables → Option Payment
latest_for_checkout checkout t = latest_below checkout t.next_payment_id t.payments

-- `refund_for`
abbrev pub refund_for : ℕ → Tables → Option Refund
refund_for payment t = find? (λ r. r.payment_id == payment) t.refunds

unfoldable pub session_below :
    PaymentProviderName → String → ℕ → (ℕ → Option Payment) → Option Payment
session_below provider id zero rows = none
session_below provider id (suc n) rows =
    let rest = session_below provider id n rows in
    elim (rows n) [
      | none ↦ rest
      | some p ↦ if p.provider == provider && str_eq p.provider_checkout_id id then some p else rest
    ]

-- `by_checkout_id`
abbrev pub by_checkout_id : PaymentProviderName → String → Tables → Option Payment
by_checkout_id provider id t = session_below provider id t.next_payment_id t.payments

-- `lock`
unfoldable pub lock_payment : ℕ → Action Payment
lock_payment id = do
  found ← gets (λ t. t.payments id)
  elim found [ none ↦ raise no_result | some p ↦ pure p ]

-- An assignment to a loaded payment.
abbrev pub assign_payment : ℕ → (Payment → Payment) → Action (Unit {0})
assign_payment id f = modify (λ t. record t { payments = update_row id f t.payments })

abbrev pub has_event : String → Tables → Bool
has_event id t = any (λ e. str_eq e.provider_event_id id) t.webhook_events

unfoldable pub flush_event : PaymentProviderName → String → Action (Unit {0})
flush_event provider event_id = do
  seen ← gets (has_event event_id)
  raise_if seen (integrity_error event_constraint)
  modify (λ t. record t {
    webhook_events =
        t.webhook_events
        ++ record { provider = provider; provider_event_id = event_id; processed_at = none } ∷ [];
  })

unfoldable pub after_event_flush : Result (Unit {0}) → Action Bool
after_event_flush (ok _) = pure true
after_event_flush (err (integrity_error event_constraint)) = pure false
after_event_flush (err e) = raise e

-- `record_event`: false means "already processed".
unfoldable pub record_event : PaymentProviderName → String → Action Bool
record_event provider event_id = do
  flushed ← attempt (savepoint (flush_event provider event_id))
  after_event_flush flushed

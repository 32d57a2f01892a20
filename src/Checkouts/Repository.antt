-- ===== src/Checkouts/Repository.antt =====
-- checkouts/persistence/repository.py: every write to `checkouts.status`.
use Prim.Native.String.{String}
use text.Mathlib.Text.{◌==◌ as str_eq}
use pikol_backend.Common.{
  ℕ, zero, suc, ◌+◌, Bool, false, ◌&&◌, ◌||◌, Option, none, some, ◌==◌, nat_eq, ltb, if◌then◌else◌,
}
use pikol_backend.Time.{Instant}
use pikol_backend.Errors.{
  Result, ok, err, integrity_error, runtime_error, no_result, checkout_reference_constraint,
}
use pikol_backend.Payments.Enums.{PaymentOutcome, pending, outcome_eq}
use pikol_backend.Checkouts.Models.{Checkout, CheckoutFields, new_checkout}
use pikol_backend.Bookings.Repository.{reference_attempts}
use pikol_backend.Database.{
  Tables, Action, pure, raise, raise_if, gets, savepoint, attempt, ◌>>=◌, ◌>>◌, modify, draw,
  put_row, update_row,
}

-- The unique constraint on the reference code.
checkout_reference_taken : String → ℕ → (ℕ → Option Checkout) → Bool
checkout_reference_taken code zero rows = false
checkout_reference_taken code (suc n) rows =
    elim (rows n) [ none ↦ false | some c ↦ str_eq c.reference_code code ]
    || checkout_reference_taken code n rows

unfoldable pub flush_checkout : Checkout → Action (Unit {0})
unfolding checkout_reference_taken
flush_checkout c = do
  taken ← gets (λ t. checkout_reference_taken c.reference_code t.next_checkout_id t.checkouts)
  raise_if taken (integrity_error checkout_reference_constraint)
  modify (λ t. record t { checkouts = put_row c.id c t.checkouts; next_checkout_id = suc c.id })

unfoldable pub after_checkout_flush : Checkout → Result (Unit {0}) → Action (Option Checkout)
after_checkout_flush c (ok _) = pure (some c)
after_checkout_flush c (err (integrity_error checkout_reference_constraint)) = pure none
after_checkout_flush c (err e) = raise e

unfoldable pub insert_checkout_attempt : CheckoutFields → Action (Option Checkout)
insert_checkout_attempt fields = do
  code ← draw
  id ← gets (λ t. t.next_checkout_id)
  flushed ← attempt (savepoint (flush_checkout (new_checkout id code fields)))
  after_checkout_flush (new_checkout id code fields) flushed

unfoldable pub insert_checkout_loop : ℕ → CheckoutFields → Action Checkout
insert_checkout_loop zero fields = raise runtime_error
insert_checkout_loop (suc n) fields = do
  inserted ← insert_checkout_attempt fields
  elim inserted [ some c ↦ pure c | none ↦ insert_checkout_loop n fields ]

-- `insert`
unfoldable pub insert_checkout : CheckoutFields → Action Checkout
insert_checkout fields = insert_checkout_loop reference_attempts fields

-- `set_status`
unfoldable pub set_checkout_status : ℕ → PaymentOutcome → Action (Unit {0})
set_checkout_status id status =
    modify
      (λ t. record t { checkouts = update_row id (λ c. record c { status = status }) t.checkouts })

abbrev pub is_live_hold_of : ℕ → Instant → Option Checkout → Bool
is_live_hold_of customer now none = false
is_live_hold_of customer now (some c) =
    c.customer_id == customer && c.status == pending && ltb now c.expires_at

unfoldable pub count_live_below : ℕ → Instant → (ℕ → Option Checkout) → ℕ → ℕ
count_live_below customer now rows zero = 0
count_live_below customer now rows (suc n) =
    (if is_live_hold_of customer now (rows n) then 1 else 0) + count_live_below customer now rows n

-- `count_live`: the live holds of a customer.
abbrev pub count_live : ℕ → Instant → Tables → ℕ
count_live customer now t = count_live_below customer now t.checkouts t.next_checkout_id

-- `get_for_customer`
abbrev pub checkout_for_customer : ℕ → ℕ → Tables → Option Checkout
checkout_for_customer id customer t = elim (t.checkouts id) [
  | none ↦ none
  | some c ↦ if c.customer_id == customer then some c else none
]

-- `get_for_update`
unfoldable pub get_for_update : ℕ → Action Checkout
get_for_update id = do
  found ← gets (λ t. t.checkouts id)
  elim found [ none ↦ raise no_result | some c ↦ pure c ]

-- ===== src/Payments/Service/Integrity.antt =====
-- Opening, syncing and undoing a payment (payments/service.py) and the properties of the tables that
-- they keep.
use Prim.Native.String.{String}
use pikol_backend.Common.{ℕ, true, false, refl, Option, none, some, List}
use pikol_backend.Time.{Instant}
use pikol_backend.Errors.{
  Result, ok, err, integrity_error, payment_not_found, open_attempt_constraint, event_constraint,
}
use pikol_backend.Bookings.Integrity.{IsConsistent}
use pikol_backend.Checkouts.Models.{Checkout, Refund}
use pikol_backend.Payments.Enums.{PaymentProviderName, RefundKind}
use pikol_backend.Payments.Models.{Payment}
use pikol_backend.Payments.Port.{CheckoutSession, ProviderPayment, PaymentProvider}
use pikol_backend.Payments.Repository.{
  flush_payment, after_payment_flush, add_checkout, flush_event, after_event_flush, record_event,
}
use pikol_backend.Checkouts.Rules.{undo_kind}
use pikol_backend.Payments.Stable.{IsStable, consistent_stable}
use pikol_backend.Database.{Tables}
use pikol_backend.Payments.Apply.{Effect, nothing, receipt, undo, or_now}
use pikol_backend.Payments.Apply.Integrity.{
  payment_rules, flag-Keeps, apply-Keeps, record_checkout-Keeps, get_for_update-Keeps,
}
use pikol_backend.Payments.Service.{
  finish_start, open_session, start_checkout, note_undone, insert_refund, undo_failed, undo_done,
  undo_payment, run_effect, process_event, sync_fetched, after_fetch, sync_payment, ask_undo,
}
use pikol_backend.Bookings.Service.Integrity.{or_raise-Keeps}
use pikol_backend.Database.Keeps.{
  Keeps, Keeps-bind, Keeps-gets, Keeps-pure, Keeps-raise, Keeps-modify, Maintains, Keeps-raise_if,
  Keeps-if, Keeps-attempt-savepoint, keeps_rules,
}

flush_payment-Keeps : (p : Payment) → Keeps IsConsistent (flush_payment p)
unfolding flush_payment
flush_payment-Keeps p = Keeps-bind _ _ (Keeps-gets _) (search (keeps_rules, Keeps-modify) depth 16)

after_payment_flush-Keeps :
    (p : Payment) (r : Result (Unit {0})) → Keeps IsConsistent (after_payment_flush p r)
unfolding after_payment_flush
after_payment_flush-Keeps p (ok _) = Keeps-pure (some p)
after_payment_flush-Keeps p (err (integrity_error open_attempt_constraint)) = Keeps-pure none
after_payment_flush-Keeps p (err e) = Keeps-raise e

add_checkout-Keeps :
    (checkout : ℕ) (provider : PaymentProviderName) (session : CheckoutSession) (amount : ℕ)
    (now : Instant)
    → Keeps IsConsistent (add_checkout checkout provider session amount now)
unfolding add_checkout
add_checkout-Keeps checkout provider session amount now =
    Keeps-bind _ _ (Keeps-gets _)
      (search (keeps_rules, flush_payment-Keeps, after_payment_flush-Keeps) depth 16)

finish_start-Keeps :
    (c : Checkout) (opened : CheckoutSession) (now : Instant) (p : Option Payment)
    → Keeps IsConsistent (finish_start c opened now p)
unfolding finish_start
finish_start-Keeps c opened now none = Keeps-bind _ _ (Keeps-gets _) (search payment_rules depth 12)
finish_start-Keeps c opened now (some p) =
    Keeps-bind _ _ (record_checkout-Keeps _ _ c now) (search payment_rules depth 12)

open_session-Keeps :
    (c : Checkout) (provider : PaymentProvider) (now : Instant)
    → Keeps IsConsistent (open_session c provider now)
unfolding open_session
open_session-Keeps c provider now =
    Keeps-bind _ _ (or_raise-Keeps _ _)
      (search (payment_rules, add_checkout-Keeps, finish_start-Keeps) depth 12)

pub start_checkout-Keeps :
    (c : Checkout) (provider : PaymentProvider) (now : Instant)
    → Keeps IsConsistent (start_checkout c provider now)
unfolding start_checkout
start_checkout-Keeps c provider now =
    Keeps-bind _ _ (Keeps-gets _)
      (elim [ some p ↦ Keeps-pure _ | none ↦ open_session-Keeps c provider now ])

module _ {P Q : Tables → Type 0} ⦃st : IsStable P Q⦄ where
  note_undone-Keeps :
      (kind : RefundKind) (reference : String) (id : ℕ)
      → Maintains P Q (note_undone kind reference id)
  unfolding note_undone
  note_undone-Keeps kind reference id =
      st.assign id _
        (record { id = λ g. refl; court = λ g. refl; status = λ g. refl; deadline = λ g. refl })

  insert_refund-Keeps : (r : Refund) → Maintains P Q (insert_refund r)
  unfolding insert_refund
  insert_refund-Keeps r = Keeps-bind _ _ (Keeps-gets _) (λ taken.
      Keeps-bind _ _ (Keeps-raise_if taken _) (λ _. Keeps-modify _ (λ t p. st.set_refunds t _ p)))

  undo_failed-Keeps :
      (p : ProviderPayment) (kind : RefundKind) (groups : List ℕ) (now : Instant)
      → Maintains P Q (undo_failed p kind groups now)
  unfolding undo_failed
  undo_failed-Keeps p kind groups now =
      Keeps-bind _ _ (flag-Keeps groups _ now) (search payment_rules)

  undo_done-Keeps :
      (p : ProviderPayment) (row : ℕ) (kind : RefundKind) (c : Checkout) (groups : List ℕ)
      (now : Instant) (reference : String)
      → Maintains P Q (undo_done p row kind c groups now reference)
  unfolding undo_done
  undo_done-Keeps p row kind c groups now reference =
      Keeps-bind _ _ (insert_refund-Keeps _) (search (payment_rules, note_undone-Keeps) depth 20)

  answered-Keeps :
      (p : ProviderPayment) (row : ℕ) (kind : RefundKind) (c : Checkout) (groups : List ℕ)
      (now : Instant) (answer : Option String)
      → Maintains P Q (elim answer [
        | none ↦ undo_failed p kind groups now
        | some reference ↦ undo_done p row kind c groups now reference
      ])
  answered-Keeps p row kind c groups now none = undo_failed-Keeps p kind groups now
  answered-Keeps p row kind c groups now (some reference) =
      undo_done-Keeps p row kind c groups now reference

  undo_payment-Keeps :
      (provider : PaymentProvider) (p : ProviderPayment) (row checkout : ℕ) (now : Instant)
      → Maintains P Q (undo_payment provider p row checkout now)
  unfolding undo_payment
  undo_payment-Keeps provider p row checkout now =
      let kind = undo_kind (or_now p.paid_at now) now in
      Keeps-bind _ _ (get_for_update-Keeps checkout) (λ c.
        Keeps-bind _ _ (Keeps-gets _)
          (λ groups. answered-Keeps p row kind c groups now (ask_undo provider p kind)))

  pub run_effect-Keeps :
      (provider : PaymentProvider) (p : ProviderPayment) (now : Instant) (e : Effect)
      → Maintains P Q (run_effect provider p now e)
  unfolding run_effect
  run_effect-Keeps provider p now (undo row c) = undo_payment-Keeps provider p row c now
  run_effect-Keeps provider p now nothing = Keeps-pure tt
  run_effect-Keeps provider p now (receipt c) = Keeps-pure tt

process_event-Keeps :
    (provider : PaymentProvider) (p : ProviderPayment) (now : Instant)
    → Keeps IsConsistent (process_event provider p now)
unfolding process_event
process_event-Keeps provider p now =
    Keeps-bind _ _ (apply-Keeps provider.name p now)
      (search (payment_rules, Keeps-modify, run_effect-Keeps) depth 12)

flush_event-Keeps :
    (provider : PaymentProviderName) (id : String) → Keeps IsConsistent (flush_event provider id)
unfolding flush_event
flush_event-Keeps provider id =
    Keeps-bind _ _ (Keeps-gets _) (search (keeps_rules, Keeps-modify) depth 12)

after_event_flush-Keeps : (r : Result (Unit {0})) → Keeps IsConsistent (after_event_flush r)
unfolding after_event_flush
after_event_flush-Keeps (ok _) = Keeps-pure true
after_event_flush-Keeps (err (integrity_error event_constraint)) = Keeps-pure false
after_event_flush-Keeps (err e) = Keeps-raise e

record_event-Keeps :
    (provider : PaymentProviderName) (id : String) → Keeps IsConsistent (record_event provider id)
unfolding record_event
record_event-Keeps provider id =
    Keeps-bind _ _ (Keeps-attempt-savepoint _ (flush_event-Keeps provider id))
      after_event_flush-Keeps

sync_fetched-Keeps :
    (provider : PaymentProvider) (p : ProviderPayment) (now : Instant)
    → Keeps IsConsistent (sync_fetched provider p now)
unfolding sync_fetched
sync_fetched-Keeps provider p now = Keeps-if _ _ _ (Keeps-pure tt) (
    Keeps-bind _ _ (record_event-Keeps provider.name _)
      (λ new. Keeps-if new _ _ (process_event-Keeps provider p now) (Keeps-pure tt)))

after_fetch-Keeps :
    (provider : PaymentProvider) (now : Instant) (r : Result ProviderPayment)
    → Keeps IsConsistent (after_fetch provider now r)
unfolding after_fetch
after_fetch-Keeps provider now (ok p) = sync_fetched-Keeps provider p now
after_fetch-Keeps provider now (err payment_not_found) = Keeps-pure tt
after_fetch-Keeps provider now (err e) = Keeps-raise _

pub sync_payment-Keeps :
    (provider : PaymentProvider) (payment_id : String) (now : Instant)
    → Keeps IsConsistent (sync_payment provider payment_id now)
unfolding sync_payment
sync_payment-Keeps provider payment_id now = after_fetch-Keeps provider now _

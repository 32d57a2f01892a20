-- ===== src/Examples/Payments.antt =====
-- A payment for a hold of one hour, and one of the wrong amount.
use pikol_backend.Checkouts.Repository.{get_for_update, set_checkout_status}
use pikol_backend.Events.Service.{record_checkout, insert_event, record_group}
use pikol_backend.Common.{
  ℕ, ◌+◌, ◌≡◌, refl, inl, inr, none, some, List, [], ◌∷◌, All, arith, ◌==◌, nat_eq, Bool-cases,
  eqb_iff, sym, map, if◌then◌else◌,
}
use pikol_backend.Time.{hours, minutes}
use pikol_backend.Errors.{ok}
use pikol_backend.Bookings.Enums as BookingEnums
use pikol_backend.Bookings.Models.{BookingGroup, new_group}
use pikol_backend.Bookings.Repository.{set_status, new_slot, group_by_id}
use pikol_backend.Bookings.Integrity.{IsConsistent, HasDeadline, IsKeyed}
use pikol_backend.Checkouts.Models.{Checkout, new_checkout}
use pikol_backend.Checkouts.Rules.{CheckoutItem, is_live}
use pikol_backend.Checkouts.Service.{checkout_fields, hold_fields}
use pikol_backend.Payments.Enums.{successful, maya}
use pikol_backend.Payments.Models.{Payment}
use pikol_backend.Payments.Repository.{
  new_payment, record_event, after_event_flush, flush_event, session_below, lock_payment,
}
use pikol_backend.Payments.Apply.{
  paid_live, paid, receipt, apply, apply_found, dispatch, take_payment, confirm_group, groups_below,
}
use pikol_backend.Payments.Apply.Confirm.{paid_live_confirms, IsPaidFor}
use pikol_backend.Payments.Apply.Refusals.{paid_refused, OnlyFlags}
use pikol_backend.Payments.Port.{PaymentProvider}
use pikol_backend.Payments.Service.{
  sync_payment, after_fetch, sync_fetched, process_event, run_effect,
}
use pikol_backend.Payments.Service.Delivery.{sync_payment_once, new_session}
use pikol_backend.Database.{request, ◌>>=◌, Tables, Session, attempt, savepoint, for_each}
use pikol_backend.Program.{open_session, after_request, hold, pay_hold, sync}
use pikol_backend.Examples.Data.{
  new_tables, noon, codes, utc, reporting, sample_payment, player, two_hours,
}

-- The whole way from the hold to its confirmation.
abbrev paid_tables : Tables
paid_tables =
    let provider = reporting (sample_payment successful 123000) in
    after_request provider codes (noon + minutes 2) (sync "A") (
      after_request provider codes (noon + minutes 1) (pay_hold player 0)
        (after_request provider codes noon (hold player two_hours) new_tables))

abbrev paid_statuses : List ℕ
paid_statuses = map (λ s. BookingEnums.status_index s.booking_status) paid_tables.booking_slots

abbrev one_hour : CheckoutItem
one_hour = record { court_id = 1; starts_at = utc (noon + hours 3); hours = 1 }

abbrev held_checkout : Checkout
held_checkout = new_checkout 0 "A" (checkout_fields 7 1 40000 1000 (noon + minutes 15))

abbrev held_group : BookingGroup
held_group = new_group 0 "B" (hold_fields one_hour 7 0 40000 1000 (noon + minutes 15))

abbrev held_tables : Tables
held_tables = record new_tables {
  booking_groups = λ i. if i == 0 then some held_group else none;
  next_group_id = 1;
  booking_slots = new_slot held_group (noon + hours 3, 40000) ∷ [];
  checkouts = λ i. if i == 0 then some held_checkout else none;
  next_checkout_id = 1;
}

held_deadlines : (i : ℕ) → HasDeadline (held_tables.booking_groups i)
held_deadlines i = elim (Bool-cases (i == 0)) [ inl e ↦ rw e refl | inr e ↦ rw e tt ]

held-IsKeyed : (i : ℕ) → IsKeyed i (held_tables.booking_groups i)
held-IsKeyed i = elim (Bool-cases (i == 0)) [
  | inl e ↦ rw e (sym ((eqb_iff i 0).0 e))
  | inr e ↦ rw e tt
]

held_tables-IsConsistent : IsConsistent held_tables
held_tables-IsConsistent = record {
  mirrored = ((refl, refl), tt);
  exclusive = λ court at. ground arith;
  deadlines = held_deadlines;
  keyed = held-IsKeyed;
  fresh = λ i h. ground arith;
  whole_hours = (refl, tt);
}

abbrev held_session : Session
held_session = open_session codes held_tables

abbrev open_attempt : Payment
open_attempt =
    new_payment 0 0 maya (record { checkout_id = "A"; checkout_url = "https://pay" }) 41000 noon

paid_live_confirms_example :
    let (r, s') = paid_live held_checkout (0 ∷ []) noon held_session in
    (r ≡ ok (receipt 0))
    × All (λ i. IsPaidFor s'.tables.booking_groups i) (0 ∷ [])
    × ((c : Checkout)
        → held_tables.checkouts 0 ≡ some c
        → s'.tables.checkouts 0 ≡ some (record c { status = successful }))
paid_live_confirms_example =
    paid_live_confirms held_checkout (0 ∷ []) noon held_session held_tables-IsConsistent
      held_tables-IsConsistent ((held_group, refl, refl), tt)

paid_refused_example :
    OnlyFlags
      (0 ∷ [])
      held_session
      (paid held_checkout open_attempt (0 ∷ []) (sample_payment successful 1) noon held_session)
paid_refused_example =
    paid_refused held_checkout open_attempt (0 ∷ []) (sample_payment successful 1) noon held_session
      (inl refl) (refl, tt)

abbrev attempted_tables : Tables
attempted_tables = record held_tables {
  payments = λ i. if i == 0 then some open_attempt else none;
  next_payment_id = 1;
}

abbrev paying : PaymentProvider
paying = reporting (sample_payment successful 41000)

first_sync : (sync_payment paying "A" noon (new_session codes attempted_tables)).0 ≡ ok tt
unfolding sync_payment ◌>>=◌ after_fetch sync_fetched record_event attempt after_event_flush
    savepoint flush_event process_event apply session_below apply_found get_for_update lock_payment
    dispatch paid take_payment record_checkout group_by_id set_status set_checkout_status is_live
    for_each insert_event record_group confirm_group groups_below paid_live run_effect
first_sync = refl

sync_payment_once_example :
    let t' = (request (sync_payment paying "A" noon) (new_session codes attempted_tables)).1 in
    request (sync_payment paying "A" (noon + minutes 1)) (new_session codes t') ≡ (ok tt, t')
sync_payment_once_example =
    sync_payment_once paying "A" noon (noon + minutes 1) codes attempted_tables first_sync codes

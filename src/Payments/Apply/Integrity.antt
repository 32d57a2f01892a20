-- ===== src/Payments/Apply/Integrity.antt =====
-- The branches of `_apply` (payments/service.py) and the properties of the tables that they keep.

use pikol_backend.Common.{
  ℕ, Bool, true, false, not, ◌||◌, ◌==◌, Option, none, some, List, [], ◌∷◌, ◌++◌, refl,
}
use pikol_backend.Time.{Instant}
use pikol_backend.Errors.{Result, ok, err, integrity_error, slot_constraint}
use pikol_backend.Events.Models.{ActionEventType}
use pikol_backend.Events.Service.{record_group, record_checkout}
use pikol_backend.Bookings.Enums as BookingEnums
use pikol_backend.Bookings.Models.{BookingGroup, GroupUpdate, NoteLine}
use pikol_backend.Bookings.Repository.{set_status, expire_lapsed}
use pikol_backend.Payments.Stable.{IsStable}
use pikol_backend.Bookings.Service.{assign}
use pikol_backend.Bookings.Service.Integrity.{step_rules, group_by_id-Keeps}
use pikol_backend.Checkouts.Models.{Checkout}
use pikol_backend.Checkouts.Repository.{get_for_update, set_checkout_status}
use pikol_backend.Payments.Enums.{
  PaymentOutcome, PaymentProviderName, pending, successful, failed, cancelled, refunded, outcome_eq,
}
use pikol_backend.Payments.Models.{Payment}
use pikol_backend.Payments.Port.{ProviderPayment}
use pikol_backend.Payments.Repository.{lock_payment, assign_payment}
use pikol_backend.Payments.Apply.{
  flag_group, flag, expire_group, cancel_unpaid, release_group, release, confirm_group,
  reacquire_group, reacquired, expire_pending, give_up, paid_live, paid_late, flag_and_stop,
  take_payment, paid, refund_ours, refund_reported, dispatch, apply_found, apply, matches_checkout,
}
use pikol_backend.Database.{Tables, commit}
use pikol_backend.Database.Keeps.{
  Maintains, Keeps-commit, Keeps-bind, Keeps-gets, Keeps-pure, Keeps-raise, Keeps-if,
  Keeps-for_each,
}

module _ {P Q : Tables → Type 0} ⦃st : IsStable P Q⦄ where
  pub assign_payment-Keeps : (id : ℕ) (f : Payment → Payment) → Maintains P Q (assign_payment id f)
  assign_payment-Keeps id f = st.assign_payment id f

  pub set_checkout_status-Keeps :
      (id : ℕ) (status : PaymentOutcome) → Maintains P Q (set_checkout_status id status)
  set_checkout_status-Keeps id status = st.set_checkout_status id status

  pub record_checkout-Keeps :
      (type : ActionEventType) (actor : Option ℕ) (c : Checkout) (at : Instant)
      → Maintains P Q (record_checkout type actor c at)
  unfolding record_checkout
  record_checkout-Keeps type actor c at = st.insert_event _

  pub record_booking-Keeps :
      (type : ActionEventType) (actor : Option ℕ) (g : BookingGroup) (at : Instant)
      → Maintains P Q (record_group type actor g at)
  unfolding record_group
  record_booking-Keeps type actor g at = st.insert_event _

  pub expire_hours-Keeps :
      (court : ℕ) (starts : List Instant) (now : Instant)
      → Maintains P Q (expire_lapsed court starts now)
  expire_hours-Keeps court starts now = st.expire_lapsed court starts now

  pub get_for_update-Keeps : (id : ℕ) → Maintains P Q (get_for_update id)
  unfolding get_for_update
  get_for_update-Keeps id =
      Keeps-bind _ _ (Keeps-gets _) (elim [ none ↦ Keeps-raise _ | some c ↦ Keeps-pure c ])

  pub lock_payment-Keeps : (id : ℕ) → Maintains P Q (lock_payment id)
  unfolding lock_payment
  lock_payment-Keeps id =
      Keeps-bind _ _ (Keeps-gets _) (elim [ none ↦ Keeps-raise _ | some p ↦ Keeps-pure p ])

  pub set_confirmed-Keeps :
      (id : ℕ) (values : GroupUpdate) → Maintains P Q (set_status id BookingEnums.confirmed values)
  set_confirmed-Keeps id values = st.set_status id _ values (cc)

  pub set_expired-Keeps :
      (id : ℕ) (values : GroupUpdate) → Maintains P Q (set_status id BookingEnums.expired values)
  set_expired-Keeps id values = st.set_status id _ values (cc)

  pub release_hours-Keeps :
      (id : ℕ) (values : GroupUpdate) → Maintains P Q (set_status id BookingEnums.cancelled values)
  release_hours-Keeps id values = st.set_status id _ values (cc)

  pub note_row-Keeps :
      (id : ℕ) (line : NoteLine) (flag : Bool)
      → Maintains P Q
          (assign id (λ g. record g { notes = g.notes ++ line ∷ []; needs_resolution = flag }))
  note_row-Keeps id line flag =
      st.assign id _
        (record { id = λ g. refl; court = λ g. refl; status = λ g. refl; deadline = λ g. refl })

  pub commit-Keeps : Maintains P Q commit
  commit-Keeps = Keeps-commit st.commits

-- The shared steps of the payment service.
pub ruleset payment_rules = (
  step_rules, release_hours-Keeps, set_confirmed-Keeps, set_expired-Keeps, assign_payment-Keeps,
  set_checkout_status-Keeps, record_checkout-Keeps, record_booking-Keeps, expire_hours-Keeps,
  get_for_update-Keeps, lock_payment-Keeps, note_row-Keeps, commit-Keeps,
)

module _ {P Q : Tables → Type 0} ⦃st : IsStable P Q⦄ where
  flag_group-Keeps :
      (line : NoteLine) (now : Instant) (id : ℕ) → Maintains P Q (flag_group line now id)
  unfolding flag_group
  flag_group-Keeps line now id = Keeps-bind _ _ (note_row-Keeps id line true) (search payment_rules)

  pub flag-Keeps :
      (groups : List ℕ) (line : NoteLine) (now : Instant) → Maintains P Q (flag groups line now)
  unfolding flag
  flag-Keeps groups line now = Keeps-for_each groups _ (flag_group-Keeps line now)

  expire_group-Keeps : (now : Instant) (id : ℕ) → Maintains P Q (expire_group now id)
  unfolding expire_group
  expire_group-Keeps now id = Keeps-bind _ _ (group_by_id-Keeps id) (search payment_rules depth 12)

  cancel_unpaid-Keeps :
      (c : Checkout) (outcome : PaymentOutcome) (now : Instant) (id : ℕ)
      → Maintains P Q (cancel_unpaid c outcome now id)
  unfolding cancel_unpaid
  cancel_unpaid-Keeps c outcome now id =
      Keeps-bind _ _ (release_hours-Keeps id _) (search payment_rules depth 12)

  release_group-Keeps :
      (c : Checkout) (outcome : PaymentOutcome) (live : Bool) (now : Instant) (id : ℕ)
      → Maintains P Q (release_group c outcome live now id)
  unfolding release_group
  release_group-Keeps c outcome live now id =
      Keeps-bind _ _ (group_by_id-Keeps id)
        (search (payment_rules, cancel_unpaid-Keeps, expire_group-Keeps) depth 12)

  release-Keeps :
      (c : Checkout) (row : Payment) (groups : List ℕ) (outcome : PaymentOutcome) (now : Instant)
      → Maintains P Q (release c row groups outcome now)
  unfolding release
  release-Keeps c row groups outcome now =
      Keeps-bind _ _ (search payment_rules) (search (payment_rules, release_group-Keeps) depth 16)

  pub confirm_group-Keeps : (now : Instant) (id : ℕ) → Maintains P Q (confirm_group now id)
  unfolding confirm_group
  confirm_group-Keeps now id =
      Keeps-bind _ _ (set_confirmed-Keeps id _) (search payment_rules depth 12)

  reacquire_group-Keeps : (now : Instant) (id : ℕ) → Maintains P Q (reacquire_group now id)
  unfolding reacquire_group
  reacquire_group-Keeps now id =
      Keeps-bind _ _ (group_by_id-Keeps id) (search payment_rules depth 16)

  reacquired-Keeps : (r : Result (Unit {0})) → Maintains P Q (reacquired r)
  unfolding reacquired
  reacquired-Keeps (ok _) = Keeps-pure true
  reacquired-Keeps (err (integrity_error slot_constraint)) = Keeps-pure false
  reacquired-Keeps (err e) = Keeps-raise e

  pub expire_pending-Keeps : (now : Instant) (id : ℕ) → Maintains P Q (expire_pending now id)
  unfolding expire_pending
  expire_pending-Keeps now id =
      Keeps-bind _ _ (group_by_id-Keeps id) (search (payment_rules, expire_group-Keeps) depth 12)

  module _ (c : Checkout) (row : Payment) (groups : List ℕ) (p : ProviderPayment)
      (now : Instant) where
    give_up-Keeps : Maintains P Q (give_up c row groups p now)
    unfolding give_up
    give_up-Keeps =
        Keeps-bind _ _ (Keeps-for_each groups _ (expire_pending-Keeps now))
          (search (payment_rules, flag-Keeps) depth 16)

    paid_live-Keeps : Maintains P Q (paid_live c groups now)
    unfolding paid_live
    paid_live-Keeps =
        Keeps-bind _ _ (Keeps-for_each groups _ (confirm_group-Keeps now))
          (search payment_rules depth 16)

    paid_late-Keeps : Maintains P Q (paid_late c row groups p now)
    unfolding paid_late
    paid_late-Keeps =
        Keeps-bind _ _ (Keeps-gets _)
          (search (payment_rules, give_up-Keeps, reacquire_group-Keeps, reacquired-Keeps) depth 16)

    flag_and_stop-Keeps : (line : NoteLine) → Maintains P Q (flag_and_stop groups line now)
    unfolding flag_and_stop
    flag_and_stop-Keeps line = Keeps-bind _ _ (flag-Keeps groups line now) (search payment_rules)

    take_payment-Keeps : Maintains P Q (take_payment c row groups p now)
    unfolding take_payment
    take_payment-Keeps =
        Keeps-bind _ _ (assign_payment-Keeps row.id _)
          (search (payment_rules, paid_live-Keeps, paid_late-Keeps) depth 16)

    paid-Keeps : Maintains P Q (paid c row groups p now)
    unfolding paid
    paid-Keeps = Keeps-if (not (matches_checkout c p)) _ _ (flag_and_stop-Keeps _) (
        Keeps-if (not (c.status == pending || c.status == cancelled)) _ _ (flag_and_stop-Keeps _)
          take_payment-Keeps)

    refund_ours-Keeps : Maintains P Q (refund_ours c row)
    unfolding refund_ours
    refund_ours-Keeps =
        Keeps-bind _ _ (assign_payment-Keeps row.id _) (search payment_rules depth 16)

    refund_reported-Keeps : Maintains P Q (refund_reported c row groups p now)
    unfolding refund_reported
    refund_reported-Keeps =
        Keeps-bind _ _ (Keeps-gets _)
          (search (payment_rules, flag_and_stop-Keeps, refund_ours-Keeps) depth 16)

    pub dispatch-Keeps :
        (outcome : PaymentOutcome) → Maintains P Q (dispatch outcome c row groups p now)
    unfolding dispatch
    dispatch-Keeps failed =
        Keeps-bind _ _ (release-Keeps c row groups failed now) (search payment_rules)
    dispatch-Keeps cancelled =
        Keeps-bind _ _ (release-Keeps c row groups cancelled now) (search payment_rules)
    dispatch-Keeps refunded = refund_reported-Keeps
    dispatch-Keeps pending = paid-Keeps
    dispatch-Keeps successful = paid-Keeps

  apply_found-Keeps :
      (p : ProviderPayment) (now : Instant) (row : Payment) → Maintains P Q (apply_found p now row)
  unfolding apply_found
  apply_found-Keeps p now row =
      Keeps-bind _ _ (get_for_update-Keeps row.checkout_id)
        (search (payment_rules, dispatch-Keeps) depth 16)

  pub apply-Keeps :
      (provider : PaymentProviderName) (p : ProviderPayment) (now : Instant)
      → Maintains P Q (apply provider p now)
  unfolding apply
  apply-Keeps provider p now =
      Keeps-bind _ _ (Keeps-gets _)
        (elim [ none ↦ Keeps-pure _ | some row ↦ apply_found-Keeps p now row ])

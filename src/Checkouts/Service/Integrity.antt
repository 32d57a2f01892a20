-- ===== src/Checkouts/Service/Integrity.antt =====
-- Placing, paying for and cancelling a hold (checkouts/service.py), and the integrity of the booking
-- tables.

use pikol_backend.Common.{ℕ, zero, suc, refl, Option, none, some, List, [], ◌∷◌}
use pikol_backend.Time.{Instant}
use pikol_backend.Errors.{
  Result, ok, err, integrity_error, app_error, slot_unavailable, checkout_reference_constraint,
}
use pikol_backend.Catalog.{User}
use pikol_backend.Bookings.Repository.{slot_unavailable_error, insert}
use pikol_backend.Bookings.Integrity.{IsConsistent}
use pikol_backend.Bookings.Integrity.Insert.{insert-Keeps}
use pikol_backend.Bookings.Integrity.Status.{expire_lapsed-Keeps}
use pikol_backend.Bookings.Service.Integrity.{or_raise-Keeps, set_cancelled-Keeps}
use pikol_backend.Checkouts.Models.{Checkout, CheckoutFields}
use pikol_backend.Checkouts.Rules.{CheckoutItem}
use pikol_backend.Checkouts.Repository.{
  flush_checkout, after_checkout_flush, insert_checkout_attempt, insert_checkout_loop,
  insert_checkout,
}
use pikol_backend.Checkouts.Service.{
  hold_fields, hold_item, hold_items, place_hold, placed_or_raise, create, get_mine, pay,
  cancel_booking, close_attempt, cancel,
}
use pikol_backend.Payments.Models.{Payment}
use pikol_backend.Payments.Port.{PaymentProvider}
use pikol_backend.Payments.Apply.Integrity.{payment_rules}
use pikol_backend.Payments.Service.Integrity.{start_checkout-Keeps}
use pikol_backend.Payments.Stable.{consistent_stable}
use pikol_backend.Database.Keeps.{
  Keeps, Keeps-bind, Keeps-gets, Keeps-pure, Keeps-raise, Keeps-modify, Keeps-draw, keeps_rules,
}

flush_checkout-Keeps : (c : Checkout) → Keeps IsConsistent (flush_checkout c)
unfolding flush_checkout
flush_checkout-Keeps c = Keeps-bind _ _ (Keeps-gets _) (search (keeps_rules, Keeps-modify) depth 12)

after_checkout_flush-Keeps :
    (c : Checkout) (r : Result (Unit {0})) → Keeps IsConsistent (after_checkout_flush c r)
unfolding after_checkout_flush
after_checkout_flush-Keeps c (ok _) = Keeps-pure (some c)
after_checkout_flush-Keeps c (err (integrity_error checkout_reference_constraint)) = Keeps-pure none
after_checkout_flush-Keeps c (err e) = Keeps-raise e

insert_checkout_attempt-Keeps :
    (fields : CheckoutFields) → Keeps IsConsistent (insert_checkout_attempt fields)
unfolding insert_checkout_attempt
insert_checkout_attempt-Keeps fields =
    Keeps-bind _ _ Keeps-draw
      (search (keeps_rules, flush_checkout-Keeps, after_checkout_flush-Keeps) depth 12)

insert_checkout_loop-Keeps :
    (n : ℕ) (fields : CheckoutFields) → Keeps IsConsistent (insert_checkout_loop n fields)
unfolding insert_checkout_loop
insert_checkout_loop-Keeps zero fields = Keeps-raise _
insert_checkout_loop-Keeps (suc n) fields =
    Keeps-bind _ _ (insert_checkout_attempt-Keeps fields)
      (elim [ some c ↦ Keeps-pure c | none ↦ insert_checkout_loop-Keeps n fields ])

insert_checkout-Keeps : (fields : CheckoutFields) → Keeps IsConsistent (insert_checkout fields)
unfolding insert_checkout
insert_checkout-Keeps fields = insert_checkout_loop-Keeps 5 fields

insert_hold-Keeps :
    (item : CheckoutItem) (customer checkout price fee : ℕ) (deadline : Instant)
    (slots : List (Instant × ℕ))
    → Keeps IsConsistent (insert (hold_fields item customer checkout price fee deadline) slots)
insert_hold-Keeps item customer checkout price fee deadline slots = insert-Keeps _ slots refl

hold_item-Keeps :
    (customer : User) (c : Checkout) (now : Instant) (item : CheckoutItem)
    (slots : List (Instant × ℕ)) (fee : ℕ)
    → Keeps IsConsistent (hold_item customer c now item slots fee)
unfolding hold_item
hold_item-Keeps customer c now item slots fee =
    Keeps-bind _ _ (expire_lapsed-Keeps item.court_id _ now)
      (search (payment_rules, insert_hold-Keeps) depth 12)

hold_items-Keeps :
    (customer : User) (c : Checkout) (now : Instant) (items : List CheckoutItem)
    (priced : List (List (Instant × ℕ))) (fees : List ℕ)
    → Keeps IsConsistent (hold_items customer c now items priced fees)
unfolding hold_items
hold_items-Keeps customer c now [] [] [] = Keeps-pure tt
hold_items-Keeps customer c now (i ∷ items) (slots ∷ priced) (fee ∷ fees) =
    Keeps-bind _ _ (hold_item-Keeps customer c now i slots fee)
      (λ _. hold_items-Keeps customer c now items priced fees)
hold_items-Keeps customer c now _ _ _ = Keeps-raise _

place_hold-Keeps :
    (customer : User) (fields : CheckoutFields) (now : Instant) (items : List CheckoutItem)
    (priced : List (List (Instant × ℕ))) (fees : List ℕ)
    → Keeps IsConsistent (place_hold customer fields now items priced fees)
unfolding place_hold
place_hold-Keeps customer fields now items priced fees =
    Keeps-bind _ _ (insert_checkout-Keeps fields) (search (keeps_rules, hold_items-Keeps) depth 8)

placed_or_raise-Keeps : (r : Result Checkout) → Keeps IsConsistent (placed_or_raise r)
unfolding placed_or_raise
placed_or_raise-Keeps (ok c) = Keeps-pure c
placed_or_raise-Keeps (err (app_error status slot_unavailable)) = Keeps-raise slot_unavailable_error
placed_or_raise-Keeps (err e) = Keeps-raise e

pub create-Keeps :
    (customer : User) (items : List CheckoutItem) (now : Instant)
    → Keeps IsConsistent (create customer items now)
unfolding create
create-Keeps customer items now =
    Keeps-bind _ _ (Keeps-gets _)
      (search (payment_rules, place_hold-Keeps, placed_or_raise-Keeps) depth 24)

get_mine-Keeps : (customer : User) (id : ℕ) → Keeps IsConsistent (get_mine customer id)
unfolding get_mine
get_mine-Keeps customer id = Keeps-bind _ _ (Keeps-gets _) (λ o. or_raise-Keeps o _)

pub pay-Keeps :
    (customer : User) (id : ℕ) (provider : PaymentProvider) (now : Instant)
    → Keeps IsConsistent (pay customer id provider now)
unfolding pay
pay-Keeps customer id provider now =
    Keeps-bind _ _ (get_mine-Keeps customer id)
      (search (payment_rules, start_checkout-Keeps) depth 12)

cancel_booking-Keeps :
    (customer : User) (now : Instant) (id : ℕ) → Keeps IsConsistent (cancel_booking customer now id)
unfolding cancel_booking
cancel_booking-Keeps customer now id =
    Keeps-bind _ _ (set_cancelled-Keeps id _) (search payment_rules depth 12)

close_attempt-Keeps : (o : Option Payment) → Keeps IsConsistent (close_attempt o)
unfolding close_attempt
close_attempt-Keeps none = Keeps-pure tt
close_attempt-Keeps (some p) = search payment_rules depth 8

pub cancel-Keeps :
    (customer : User) (id : ℕ) (now : Instant) → Keeps IsConsistent (cancel customer id now)
unfolding cancel
cancel-Keeps customer id now =
    Keeps-bind _ _ (get_mine-Keeps customer id)
      (search (payment_rules, cancel_booking-Keeps, close_attempt-Keeps) depth 24)

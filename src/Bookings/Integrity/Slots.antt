-- ===== src/Bookings/Integrity/Slots.antt =====
-- The partial unique index on active slots (bookings/persistence/models.py).
use pikol_backend.Common.{
  ℕ, ◌%◌, sym, ◌∙◌, ◌≤◌, ◌≡◌, refl, true, false, inl, inr, List, [], ◌∷◌, ◌++◌, arith, any, count,
  count-append, count-eq-zero, count-pos, Bool-cases, eqb_iff, ◌==◌, nat_eq, All,
}
use pikol_backend.Time.{Instant, hour}
use pikol_backend.Errors.{ok}
use mathlib.Core.List.{append_assoc, append-nil}
use pikol_backend.Bookings.Models.{BookingSlot, clashes, is_active}
use pikol_backend.Bookings.Repository.{has_clash, add_slot_rows}
use pikol_backend.Bookings.Integrity.{occupies}

module _ (court : ℕ) (at : Instant) where
  clashes_of_occupies :
      (s x : BookingSlot)
      → occupies court at s ≡ true
      → occupies court at x ≡ true
      → clashes s x ≡ true
  clashes_of_occupies s x h k = ground arith

pub occupies_of_clashes :
    (s x : BookingSlot) → clashes s x ≡ true → occupies s.court_id s.starts_at x ≡ true
occupies_of_clashes s x h = ground arith

occupies_self : (s : BookingSlot) → is_active s ≡ true → occupies s.court_id s.starts_at s ≡ true
occupies_self s h = ground arith

active_of_clashes :
    (s : BookingSlot) (slots : List BookingSlot) → any (clashes s) slots ≡ true → is_active s ≡ true
active_of_clashes s [] h = cc
active_of_clashes s (x ∷ slots) h = ground (arith, active_of_clashes s slots)

-- One row more is allowed if it clashes with none.
exclusive-cons :
    (court : ℕ) (at : Instant) (s : BookingSlot) (slots : List BookingSlot)
    → any (clashes s) slots ≡ false
    → count (occupies court at) slots ≤ 1
    → count (occupies court at) (s ∷ slots) ≤ 1
exclusive-cons court at s slots free h = elim (Bool-cases (occupies court at s)) [
  | inr other ↦ rw other (omega arith)
  | inl same ↦ rw same (
      omega (
        arith,
        count-eq-zero (clashes s) (occupies court at) (λ x. clashes_of_occupies court at s x same)
            slots free,
      ))
]

pub has_clash-exclusive :
    (slots : List BookingSlot)
    → has_clash slots ≡ false
    → (court : ℕ) (at : Instant) → count (occupies court at) slots ≤ 1
has_clash-exclusive [] h court at = omega arith
has_clash-exclusive (s ∷ slots) h court at =
    exclusive-cons court at s slots (ground arith)
      (has_clash-exclusive slots (ground arith) court at)

pub exclusive-has_clash :
    (slots : List BookingSlot)
    → ((court : ℕ) (at : Instant) → count (occupies court at) slots ≤ 1)
    → has_clash slots ≡ false
exclusive-has_clash [] h = refl
exclusive-has_clash (s ∷ slots) h =
    let later = exclusive-has_clash slots (λ court at. ground (arith, h court at)) in
    elim (Bool-cases (any (clashes s) slots)) [
      | inr free ↦ rw free later
      | inl taken ↦ ground (
        arith,
        h s.court_id s.starts_at,
        occupies_self s (active_of_clashes s slots taken),
        count-pos (clashes s) (occupies s.court_id s.starts_at) (occupies_of_clashes s) slots taken,
      )
    ]

exclusive-append :
    (slots : List BookingSlot) (s : BookingSlot)
    → any (clashes s) slots ≡ false
    → ((court : ℕ) (at : Instant) → count (occupies court at) slots ≤ 1)
    → (court : ℕ) (at : Instant) → count (occupies court at) (slots ++ s ∷ []) ≤ 1
exclusive-append slots s free h court at = omega (
  arith,
  count-append (occupies court at) slots (s ∷ []),
  exclusive-cons court at s slots free (h court at),
)

-- What a successful insertion of slot rows has checked and done.
pub record Added (new slots added : List BookingSlot) : Type 0 where
  pub appended : added ≡ slots ++ new
  pub whole_hours : All (λ s. s.starts_at % hour ≡ 0) new
  pub exclusive :
      ((court : ℕ) (at : Instant) → count (occupies court at) slots ≤ 1)
      → (court : ℕ) (at : Instant) → count (occupies court at) added ≤ 1

pub add_slot_rows-Added :
    (new slots : List BookingSlot) {added : List BookingSlot}
    → add_slot_rows new slots ≡ ok added
    → Added new slots added
unfolding add_slot_rows
add_slot_rows-Added [] slots {added} h =
    let same : slots ≡ added = ground arith in
    record {
      appended = sym same ∙ sym (append-nil slots);
      whole_hours = tt;
      exclusive = λ before. rw (← same) before;
    }
add_slot_rows-Added (s ∷ new) slots h = elim (Bool-cases (s.starts_at % hour == 0)) [
  | inr off ↦ absurd (ground arith)
  | inl on ↦ elim (Bool-cases (any (clashes s) slots)) [
    | inl taken ↦ absurd (ground arith)
    | inr free ↦
        let rest = add_slot_rows-Added new (slots ++ s ∷ []) (rw (on, free) at h) in
        record {
          appended = rest.appended ∙ append_assoc slots (s ∷ []) new;
          whole_hours = ((eqb_iff _ 0).0 on, rest.whole_hours);
          exclusive = λ ok_before. rest.exclusive (exclusive-append slots s free ok_before);
        }
  ]
]

-- ===== src/Bookings/Enums.antt =====
-- bookings/domain/enums.py
use pikol_backend.Common.{ℕ, ◌≡◌, ◌↔◌, Bool, true, ◌||◌, arith, Eq, eqb, ◌==◌}

pub data BookingType : Type 0 where
  player_booking walk_in maintenance : BookingType

pub data BookingStatus : Type 0 where
  pending confirmed completed no_show cancelled expired : BookingStatus

pub data PaymentStatus : Type 0 where
  unpaid paid failed : PaymentStatus

pub data PaymentMethod : Type 0 where
  online cash manual_gcash : PaymentMethod

abbrev pub type_index : BookingType → ℕ
type_index player_booking = 0
type_index walk_in = 1
type_index maintenance = 2

abbrev pub status_index : BookingStatus → ℕ
status_index pending = 0
status_index confirmed = 1
status_index completed = 2
status_index no_show = 3
status_index cancelled = 4
status_index expired = 5

abbrev pub payment_index : PaymentStatus → ℕ
payment_index unpaid = 0
payment_index paid = 1
payment_index failed = 2

pub type_index_iff : (a b : BookingType) → (eqb (type_index a) (type_index b) ≡ true) ↔ (a ≡ b)
type_index_iff a b = ground arith

pub status_index_iff :
    (a b : BookingStatus) → (eqb (status_index a) (status_index b) ≡ true) ↔ (a ≡ b)
status_index_iff a b = ground arith

pub payment_index_iff :
    (a b : PaymentStatus) → (eqb (payment_index a) (payment_index b) ≡ true) ↔ (a ≡ b)
payment_index_iff a b = ground arith

instance abbrev pub type_eq : Eq BookingType
type_eq = record { equals = λ a b. eqb (type_index a) (type_index b); equals_iff = type_index_iff }

instance abbrev pub status_eq : Eq BookingStatus
status_eq = record {
  equals = λ a b. eqb (status_index a) (status_index b);
  equals_iff = status_index_iff;
}

instance abbrev pub payment_eq : Eq PaymentStatus
payment_eq = record {
  equals = λ a b. eqb (payment_index a) (payment_index b);
  equals_iff = payment_index_iff;
}

-- `status in RELEASING`: the only statuses that free a slot.
abbrev pub is_releasing : BookingStatus → Bool
is_releasing s = s == cancelled || s == expired

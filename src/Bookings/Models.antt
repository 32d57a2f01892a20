-- ===== src/Bookings/Models.antt =====
-- bookings/persistence/models.py: the rows of `booking_groups` and `booking_slots`. The columns
-- `created_at` and `updated_at` are not modelled. A text of several lines is the list of its lines.
use Prim.Native.String.{String}
use pikol_backend.Common.{ℕ, Bool, false, not, ◌&&◌, Option, none, some, List}
use pikol_backend.Common.{◌==◌, nat_eq}
use pikol_backend.Time.{Instant}
use pikol_backend.Bookings.Enums.{
  BookingType, BookingStatus, PaymentStatus, PaymentMethod, paid, online, is_releasing, status_eq,
  type_eq, payment_eq,
}
use pikol_backend.Payments.Enums.{RefundKind}

-- A line of `notes`: what staff wrote, or what the service adds.
pub data NoteLine : Type 0 where
  written : String → NoteLine
  resolved_by : ℕ → String → NoteLine
  system_mismatch system_final system_foreign_refund system_refund_pending : String → NoteLine
  system_undo_failed : RefundKind → String → NoteLine
  system_undone : RefundKind → String → NoteLine

pub record BookingGroup : Type 0 where
  pub id : ℕ
  pub reference_code : String
  pub court_id : ℕ
  pub player_id : Option ℕ
  pub type : BookingType
  pub booking_status : BookingStatus
  pub payment_status : PaymentStatus
  pub price_centavos : ℕ
  pub fee_centavos : ℕ
  pub total_centavos : ℕ
  pub payment_method : Option PaymentMethod
  pub checkout_id : Option ℕ
  pub expires_at : Option Instant
  pub needs_resolution : Bool
  pub notes : List NoteLine
  pub created_by_user_id : ℕ
  pub cancelled_at : Option Instant
  pub cancelled_by_user_id : Option ℕ
  pub cancellation_reason : Option String

pub record BookingSlot : Type 0 where
  pub booking_group_id : ℕ
  pub court_id : ℕ
  pub starts_at : Instant
  pub price_centavos : ℕ
  pub booking_status : BookingStatus

-- The `fields` of `BookingRepository.insert`.
pub record GroupFields : Type 0 where
  pub court_id : ℕ
  pub player_id : Option ℕ
  pub checkout_id : Option ℕ
  pub type : BookingType
  pub booking_status : BookingStatus
  pub payment_status : PaymentStatus
  pub price_centavos : ℕ
  pub fee_centavos : ℕ
  pub total_centavos : ℕ
  pub notes : List NoteLine
  pub expires_at : Option Instant
  pub created_by_user_id : ℕ

-- `BookingGroupModel(reference_code=…, **fields)`, with the columns' defaults
abbrev pub new_group : ℕ → String → GroupFields → BookingGroup
new_group id code f = record {
  id = id;
  reference_code = code;
  court_id = f.court_id;
  player_id = f.player_id;
  type = f.type;
  booking_status = f.booking_status;
  payment_status = f.payment_status;
  price_centavos = f.price_centavos;
  fee_centavos = f.fee_centavos;
  total_centavos = f.total_centavos;
  payment_method = none;
  checkout_id = f.checkout_id;
  expires_at = f.expires_at;
  needs_resolution = false;
  notes = f.notes;
  created_by_user_id = f.created_by_user_id;
  cancelled_at = none;
  cancelled_by_user_id = none;
  cancellation_reason = none;
}

-- The `**group_fields` with which `set_status` is called.
pub data GroupUpdate : Type 0 where
  no_fields : GroupUpdate
  cancellation : Instant → ℕ → String → GroupUpdate
  paid_fields : GroupUpdate
  paid_uncancelled : GroupUpdate

abbrev set_paid : BookingGroup → BookingGroup
set_paid g = record g { payment_status = paid; payment_method = some online }

abbrev pub apply_update : GroupUpdate → BookingGroup → BookingGroup
apply_update no_fields g = g
apply_update (cancellation at by reason) g = record g {
  cancelled_at = some at;
  cancelled_by_user_id = some by;
  cancellation_reason = some reason;
}
apply_update paid_fields g = set_paid g
apply_update paid_uncancelled g = record (set_paid g) {
  cancelled_at = none;
  cancelled_by_user_id = none;
  cancellation_reason = none;
}

-- The slot takes its (court, hour): the predicate of `uq_court_slot_active`.
abbrev pub is_active : BookingSlot → Bool
is_active s = not (is_releasing s.booking_status)

-- Two rows that `uq_court_slot_active` does not allow together.
abbrev pub clashes : BookingSlot → BookingSlot → Bool
clashes s t = is_active s && is_active t && s.court_id == t.court_id && s.starts_at == t.starts_at

-- ===== src/Errors.antt =====
-- utils/errors.py, bookings/domain/errors.py and bookings/http_errors.py: what a request may raise,
-- and the response that the handlers give. The human-readable `detail` texts are not modelled.
use pikol_backend.Common.{ℕ, ◌≡◌, refl, ◌⊎◌, inl, inr, Option, none, some, Bool, true, false}

-- The machine-readable codes.
pub data Code : Type 0 where
  not_found slot_unavailable not_flagged hold_limit paid_is_final hold_ended : Code
  payment_provider_unavailable price_rule_exists : Code
  not_on_the_hour too_soon beyond_horizon too_far_back is_closure not_cancellable : Code
  not_a_walk_in already_paid not_payable no_outcome not_started : Code
  empty_checkout too_many_hours overlapping_items mixed_venues : Code
  empty_range range_too_long in_the_past : Code
  forbidden venue_required field_not_allowed built_in_group group_name_taken group_not_empty : Code
  unknown_permission owner_only_permission customer_has_no_permissions self_lockout : Code
  user_inactive already_member email_taken email_exists unknown_group not_a_staff_group : Code
  already_accepted invalid_parameter wrong_password invalid_or_expired_link invalid_credentials :
      Code
  email_not_verified account_disabled not_a_customer invalid_token : Code

-- `ErrorKind`
pub data Kind : Type 0 where
  invalid conflict : Kind

-- The database constraints that a statement may violate.
pub data Constraint : Type 0 where
  slot_constraint reference_constraint checkout_reference_constraint : Constraint
  open_attempt_constraint provider_checkout_constraint event_constraint : Constraint
  refund_constraint slot_on_the_hour : Constraint
  group_name_constraint one_master_constraint email_constraint jti_constraint : Constraint
  token_hash_constraint member_constraint not_null_constraint : Constraint
  specificity_constraint rule_ranges : Constraint

pub data Error : Type 0 where
  app_error : ℕ → Code → Error
  booking_error : Code → Kind → Error
  integrity_error : Constraint → Error
  -- `RuntimeError`, `IndexError`, `ValueError`, `AssertionError` and `NoResultFound`
  runtime_error index_error value_error assertion_error no_result : Error
  provider_error payment_not_found : Error

pub data Result {ℓ} (A : Type ℓ) : Type ℓ where
  ok : A → Result A
  err : Error → Result A

-- `abbrev`s both, so that a check of several steps computes.
infixl 5 ◌>>=◌ ◌>>◌
abbrev pub ◌>>=◌ {ℓ κ} : {V : Type ℓ} {W : Type κ} → Result V → (V → Result W) → Result W
◌>>=◌ (ok v) next = next v
◌>>=◌ (err x) next = err x

abbrev pub ◌>>◌ {ℓ} : {W : Type ℓ} → Result (Unit {0}) → Result W → Result W
check >> rest = check >>= λ _. rest

-- `if b: raise e`
abbrev pub raise_if : Bool → Error → Result (Unit {0})
raise_if true e = err e
raise_if false e = ok tt

abbrev pub conflict_error : Code → Error
conflict_error c = booking_error c conflict

abbrev pub invalid_error : Code → Error
invalid_error c = booking_error c invalid

-- `STATUS[exc.kind]`
abbrev pub kind_status : Kind → ℕ
kind_status invalid = 422
kind_status conflict = 409

-- `as_app_error`
unfoldable pub as_app_error : Error → Error
as_app_error (booking_error c k) = app_error (kind_status k) c
as_app_error e = e

-- The status and code of the response to an error that reaches the handlers.
unfoldable pub respond : Error → ℕ × Option Code
respond (app_error s c) = (s, some c)
respond (booking_error c k) = (kind_status k, some c)
respond (integrity_error slot_constraint) = (409, some slot_unavailable)
respond _ = (500, none)

pub Result-cases {ℓ} :
    {A : Type ℓ} (r : Result A) → ((a : A) × (r ≡ ok a)) ⊎ ((e : Error) × (r ≡ err e))
Result-cases (ok a) = inl (a, refl)
Result-cases (err e) = inr (e, refl)

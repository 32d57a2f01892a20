-- ===== src/Payments/Enums.antt =====
-- payments/domain/enums.py
use pikol_backend.Common.{ℕ, ◌≡◌, ◌↔◌, Bool, true, ◌||◌, arith, Eq, eqb, ◌==◌}

pub data PaymentOutcome : Type 0 where
  pending successful failed cancelled refunded : PaymentOutcome

pub data RefundKind : Type 0 where
  void refund : RefundKind

pub data PaymentProviderName : Type 0 where
  mock maya : PaymentProviderName

abbrev pub outcome_index : PaymentOutcome → ℕ
outcome_index pending = 0
outcome_index successful = 1
outcome_index failed = 2
outcome_index cancelled = 3
outcome_index refunded = 4

pub outcome_index_iff :
    (a b : PaymentOutcome) → (eqb (outcome_index a) (outcome_index b) ≡ true) ↔ (a ≡ b)
outcome_index_iff a b = ground arith

instance abbrev pub outcome_eq : Eq PaymentOutcome
outcome_eq = record {
  equals = λ a b. eqb (outcome_index a) (outcome_index b);
  equals_iff = outcome_index_iff;
}

abbrev pub provider_index : PaymentProviderName → ℕ
provider_index mock = 0
provider_index maya = 1

pub provider_index_iff :
    (a b : PaymentProviderName) → (eqb (provider_index a) (provider_index b) ≡ true) ↔ (a ≡ b)
provider_index_iff a b = ground arith

instance abbrev pub provider_eq : Eq PaymentProviderName
provider_eq = record {
  equals = λ a b. eqb (provider_index a) (provider_index b);
  equals_iff = provider_index_iff;
}

-- `status in SETTLED`
abbrev pub is_settled : PaymentOutcome → Bool
is_settled s = s == successful || s == refunded

-- ===== src/Payments/Port.antt =====
-- payments/domain/port.py: the payment provider, whose answers the services take as given.
use Prim.Native.String.{String}
use pikol_backend.Common.{ℕ, Option}
use pikol_backend.Time.{Instant}
use pikol_backend.Errors.{Result}
use pikol_backend.Payments.Enums.{PaymentOutcome, PaymentProviderName}

pub record CheckoutSession : Type 0 where
  pub checkout_id : String
  pub checkout_url : String

pub record ProviderPayment : Type 0 where
  pub payment_id : String
  pub status : PaymentOutcome
  pub provider_status : String
  pub amount_centavos : ℕ
  pub reference : String
  pub paid_at : Option Instant

-- `none` stands for a `ProviderError` of `create_checkout`, `void` and `refund`; `fetch_payment`
-- raises `PaymentNotFound` or another `ProviderError`.
pub record PaymentProvider : Type 0 where
  pub name : PaymentProviderName
  pub create_checkout : ℕ → String → Option CheckoutSession
  pub fetch_payment : String → Result ProviderPayment
  pub void : String → Option String
  pub refund : String → ℕ → Option String

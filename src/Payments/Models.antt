-- ===== src/Payments/Models.antt =====
-- payments/persistence/models.py: the rows of `payments` and `webhook_events`. The payloads, which
-- are stored and never read, are not modelled.
use Prim.Native.String.{String}
use pikol_backend.Common.{ℕ, Option}
use pikol_backend.Time.{Instant}
use pikol_backend.Payments.Enums.{PaymentOutcome, PaymentProviderName}

pub record Payment : Type 0 where
  pub id : ℕ
  pub checkout_id : ℕ
  pub provider : PaymentProviderName
  pub provider_checkout_id : String
  pub provider_payment_id : Option String
  pub checkout_url : String
  pub amount_centavos : ℕ
  pub status : PaymentOutcome
  pub provider_status : Option String
  pub created_at : Instant

pub record WebhookEvent : Type 0 where
  pub provider : PaymentProviderName
  pub provider_event_id : String
  pub processed_at : Option Instant

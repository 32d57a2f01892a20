-- ===== src/Checkouts/Models.antt =====
-- checkouts/persistence/models.py: the rows of `checkouts` and `refunds`.
use Prim.Native.String.{String}
use pikol_backend.Common.{ℕ}
use pikol_backend.Time.{Instant}
use pikol_backend.Payments.Enums.{PaymentOutcome, RefundKind}

pub record Checkout : Type 0 where
  pub id : ℕ
  pub reference_code : String
  pub customer_id : ℕ
  pub venue_id : ℕ
  pub status : PaymentOutcome
  pub price_centavos : ℕ
  pub fee_centavos : ℕ
  pub total_centavos : ℕ
  pub expires_at : Instant

-- The `fields` of `CheckoutRepository.insert`.
pub record CheckoutFields : Type 0 where
  pub customer_id : ℕ
  pub venue_id : ℕ
  pub status : PaymentOutcome
  pub price_centavos : ℕ
  pub fee_centavos : ℕ
  pub total_centavos : ℕ
  pub expires_at : Instant

abbrev pub new_checkout : ℕ → String → CheckoutFields → Checkout
new_checkout id code f = record {
  id = id;
  reference_code = code;
  customer_id = f.customer_id;
  venue_id = f.venue_id;
  status = f.status;
  price_centavos = f.price_centavos;
  fee_centavos = f.fee_centavos;
  total_centavos = f.total_centavos;
  expires_at = f.expires_at;
}

pub record Refund : Type 0 where
  pub payment_id : ℕ
  pub kind : RefundKind
  pub amount_centavos : ℕ
  pub provider_reference : String

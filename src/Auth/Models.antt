-- ===== src/Auth/Models.antt =====
-- auth/persistence/models.py: the ledger of refresh tokens and the tokens of emailed links. A UUID is
-- the number that it stands for.
use Prim.Native.String.{String}
use pikol_backend.Common.{ℕ, ◌≡◌, ◌↔◌, true, Option, arith, Eq, eqb}
use pikol_backend.Time.{Instant}

pub data TokenPurpose : Type 0 where
  email_verification password_reset invitation : TokenPurpose

abbrev pub purpose_index : TokenPurpose → ℕ
purpose_index email_verification = 0
purpose_index password_reset = 1
purpose_index invitation = 2

pub purpose_index_iff :
    (a b : TokenPurpose) → (eqb (purpose_index a) (purpose_index b) ≡ true) ↔ (a ≡ b)
purpose_index_iff a b = ground arith

instance abbrev pub purpose_eq : Eq TokenPurpose
purpose_eq = record {
  equals = λ a b. eqb (purpose_index a) (purpose_index b);
  equals_iff = purpose_index_iff;
}

pub record RefreshToken : Type 0 where
  pub user_id : ℕ
  pub jti : ℕ
  pub expires_at : Instant
  pub revoked_at : Option Instant

pub record UserToken : Type 0 where
  pub user_id : ℕ
  pub purpose : TokenPurpose
  pub token_hash : String
  pub expires_at : Instant
  pub used_at : Option Instant

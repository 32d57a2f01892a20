-- ===== src/Auth/Service.antt =====
-- auth/service.py: emailed links, signing in, and the rotation of refresh tokens. One clock reading
-- stands for all those of a call; a new opaque token or UUID is an argument of the call that draws it.
pub mod Rotation
pub mod Replay
pub mod Links
pub mod SignIn
pub mod Verification
use Prim.Native.String.{String}
use pikol_backend.Common.{
  ℕ, ◌+◌, ◌*◌, Bool, true, false, not, ◌&&◌, Option, none, some, List, [], ◌∷◌, ◌++◌, map, any,
  select, find?, ltb, ◌==◌, nat_eq, string_eq, is_none, is_some, if◌then◌else◌,
}
use pikol_backend.Time.{Instant, hours, minutes}
use pikol_backend.Errors.{
  Error, Result, ok, err, app_error, integrity_error, jti_constraint, token_hash_constraint,
  invalid_or_expired_link, invalid_credentials, email_not_verified, account_disabled,
  not_a_customer,
}
use pikol_backend.Auth.Models.{
  TokenPurpose, email_verification, password_reset, invitation, purpose_eq, RefreshToken, UserToken,
}
use pikol_backend.Auth.Security.{
  Crypto, Settings, Claims, verify_password, invalid_token_error, encode_access, encode_refresh,
  decode,
}
use pikol_backend.Users.Models.{UserRow}
use pikol_backend.Users.Repository.{NewUser, get_by_email, get_by_id, assign_user, insert_user}
use pikol_backend.Users.GroupRepository.{ask, write, is_customer, customer_group_id, add_member_row}
use pikol_backend.Database.{
  Accounts, Tables, Action, pure, raise, lift, gets, raise_if, or_raise, ◌>>=◌, ◌>>◌, modify,
  commit,
}

-- `VERIFICATION_TTL` and `RESET_TTL`
abbrev pub verification_ttl : ℕ
verification_ttl = hours 24

abbrev pub reset_ttl : ℕ
reset_ttl = minutes 60

-- An unused token of the user, of that purpose.
abbrev pub is_unused : ℕ → TokenPurpose → UserToken → Bool
is_unused user purpose t = t.user_id == user && t.purpose == purpose && is_none t.used_at

abbrev pub new_token : ℕ → TokenPurpose → String → Instant → UserToken
new_token user purpose hash expires = record {
  user_id = user;
  purpose = purpose;
  token_hash = hash;
  expires_at = expires;
  used_at = none;
}

-- `issue_token`
unfoldable pub issue_token : Crypto → ℕ → TokenPurpose → ℕ → String → Instant → Action String
issue_token c user purpose ttl raw now = do
  write (λ a. record a { user_tokens = select (λ t. not (is_unused user purpose t)) a.user_tokens })
  known ← ask (λ a. any (λ t. t.token_hash == c.sha256 raw) a.user_tokens)
  raise_if known (integrity_error token_hash_constraint)
  write (λ a. record a {
    user_tokens = a.user_tokens ++ new_token user purpose (c.sha256 raw) (now + ttl) ∷ [];
  })
  pure raw

-- The token of a link that still works.
abbrev pub is_open : String → TokenPurpose → Instant → UserToken → Bool
is_open hash purpose now t =
    t.token_hash == hash && t.purpose == purpose && is_none t.used_at && ltb now t.expires_at

abbrev pub link_error : Error
link_error = app_error 400 invalid_or_expired_link

-- `token.used_at = now`
abbrev pub use_token : String → Instant → Accounts → Accounts
use_token hash now a = record a {
  user_tokens =
      map (λ t. if t.token_hash == hash then record t { used_at = some now } else t) a.user_tokens;
}

-- `consume_token`
unfoldable pub consume_token : Crypto → String → TokenPurpose → Instant → Action UserRow
consume_token c raw purpose now = do
  found ← ask (λ a. find? (is_open (c.sha256 raw) purpose now) a.user_tokens)
  token ← or_raise found link_error
  owner ← ask (get_by_id token.user_id)
  user ← or_raise owner link_error
  write (use_token token.token_hash now)
  pure user

-- `register`
unfoldable pub register : Crypto → NewUser → String → String → Instant → Action (UserRow × String)
register c body password raw now = do
  user ← insert_user c.lower (record body { password_hash = some (c.hash_password password) })
  group ← customer_group_id
  member ← add_member_row group user.id none now
  token ← issue_token c user.id email_verification verification_ttl raw now
  commit
  pure (user, token)

-- `verify_email`
unfoldable pub verify_email : Crypto → String → Instant → Action (Unit {0})
verify_email c raw now = do
  user ← consume_token c raw email_verification now
  write (assign_user user.id (λ u. record u { email_verified_at = some now; is_active = true }))
  commit

-- A token for an account, mailed to it.
unfoldable pub mail_token :
    Crypto → UserRow → TokenPurpose → ℕ → String → Instant → Action (Option (UserRow × String))
mail_token c user purpose ttl raw now = do
  token ← issue_token c user.id purpose ttl raw now
  commit
  pure (some (user, token))

-- `resend_verification`
unfoldable pub resend_verification :
    Crypto → String → String → Instant → Action (Option (UserRow × String))
resend_verification c email raw now = do
  found ← ask (get_by_email c.lower email)
  elim found [
    | none ↦ pure none
    | some u ↦
        if is_some u.email_verified_at
        then pure none
        else mail_token c u email_verification verification_ttl raw now
  ]

pub record TokenPair : Type 0 where
  pub access_token : String
  pub refresh_token : String
  pub expires_in : ℕ

abbrev pub new_pair : Crypto → Settings → ℕ → ℕ → Instant → TokenPair
new_pair c settings user jti now = record {
  access_token = encode_access c settings user now;
  refresh_token = (encode_refresh c settings user jti now).0;
  expires_in = settings.access_token_minutes * 60;
}

abbrev pub has_jti : ℕ → RefreshToken → Bool
has_jti jti r = r.jti == jti

-- `issue_pair`; `jti` is the new UUID.
unfoldable pub issue_pair : Crypto → Settings → ℕ → ℕ → Instant → Action TokenPair
issue_pair c settings user jti now = do
  known ← ask (λ a. any (has_jti jti) a.refresh_tokens)
  raise_if known (integrity_error jti_constraint)
  write (λ a. record a {
    refresh_tokens =
        a.refresh_tokens
        ++ record {
          user_id = user;
          jti = jti;
          expires_at = (encode_refresh c settings user jti now).1;
          revoked_at = none;
        }
          ∷ [];
  })
  pure (new_pair c settings user jti now)

-- `UPDATE refresh_tokens SET revoked_at = now WHERE …`
abbrev pub revoke_where : (RefreshToken → Bool) → Instant → Accounts → Accounts
revoke_where p now a = record a {
  refresh_tokens =
      map (λ r. if p r then record r { revoked_at = some now } else r) a.refresh_tokens;
}

abbrev pub is_live_of : ℕ → RefreshToken → Bool
is_live_of user r = r.user_id == user && is_none r.revoked_at

-- `revoke_all`
unfoldable pub revoke_all : ℕ → Instant → Action (Unit {0})
revoke_all user now = write (revoke_where (is_live_of user) now)

abbrev pub credentials_error : Error
credentials_error = app_error 401 invalid_credentials

-- `user.password_hash`, none without a user.
abbrev pub hash_of : Option UserRow → Option String
hash_of none = none
hash_of (some u) = u.password_hash

-- `_authenticate`
unfoldable pub authenticate : Crypto → String → String → Action UserRow
authenticate c email password = do
  found ← ask (get_by_email c.lower email)
  raise_if (not (verify_password c password (hash_of found))) credentials_error
  user ← or_raise found credentials_error
  raise_if (is_none user.email_verified_at) (app_error 403 email_not_verified)
  raise_if (not user.is_active) (app_error 403 account_disabled)
  pure user

-- `_sign_in`
unfoldable pub sign_in : Crypto → Settings → UserRow → ℕ → Instant → Action TokenPair
sign_in c settings user jti now = do
  write (assign_user user.id (λ u. record u { last_login_at = some now }))
  pair ← issue_pair c settings user.id jti now
  commit
  pure pair

unfoldable pub login : Crypto → Settings → String → String → ℕ → Instant → Action TokenPair
login c settings email password jti now = do
  user ← authenticate c email password
  sign_in c settings user jti now

unfoldable pub customer_login : Crypto → Settings → String → String → ℕ → Instant → Action TokenPair
customer_login c settings email password jti now = do
  user ← authenticate c email password
  customer ← ask (is_customer user.id)
  raise_if (not customer) (app_error 403 not_a_customer)
  sign_in c settings user jti now

-- The row that the rotation's UPDATE takes.
abbrev pub is_current : ℕ → Instant → RefreshToken → Bool
is_current jti now r = r.jti == jti && is_none r.revoked_at && ltb now r.expires_at

abbrev pub owner_of : Option RefreshToken → Option ℕ
owner_of none = none
owner_of (some r) = some r.user_id

-- The conditional UPDATE, with the user that it returns.
unfoldable pub rotate : ℕ → Instant → Action (Option ℕ)
rotate jti now = do
  found ← ask (λ a. find? (is_current jti now) a.refresh_tokens)
  write (revoke_where (is_current jti now) now)
  pure (owner_of found)

-- A token that was rotated away already ends its user's sessions.
unfoldable pub revoke_family : Option RefreshToken → Instant → Action (Unit {0})
revoke_family none now = pure tt
revoke_family (some r) now =
    if is_none r.revoked_at then pure tt else do revoke_all r.user_id now; commit

unfoldable pub refuse_replay : ℕ → Instant → Action TokenPair
refuse_replay jti now = do
  row ← ask (λ a. find? (has_jti jti) a.refresh_tokens)
  revoke_family row now
  raise invalid_token_error

-- The end of `refresh`, for the account of the rotated token.
unfoldable pub reissue : Crypto → Settings → Option UserRow → ℕ → Instant → Action TokenPair
reissue c settings none new_jti now = do commit; raise invalid_token_error
reissue c settings (some u) new_jti now =
    if not u.is_active
    then commit >> raise invalid_token_error
    else do pair ← issue_pair c settings u.id new_jti now; commit; pure pair

unfoldable pub after_rotation : Crypto → Settings → ℕ → Option ℕ → ℕ → Instant → Action TokenPair
after_rotation c settings jti none new_jti now = refuse_replay jti now
after_rotation c settings jti (some user) new_jti now = do
  account ← ask (get_by_id user)
  reissue c settings account new_jti now

-- `refresh`; `new_jti` is the UUID of the new pair.
unfoldable pub refresh : Crypto → Settings → String → ℕ → Instant → Action TokenPair
refresh c settings raw new_jti now = do
  claims ← lift (decode c raw "refresh" now)
  jti ← or_raise claims.jti invalid_token_error
  user ← rotate jti now
  after_rotation c settings jti user new_jti now

unfoldable pub logout : ℕ → Instant → Action (Unit {0})
logout user now = do revoke_all user now; commit

-- `forgot_password`
unfoldable pub forgot_password :
    Crypto → String → String → Instant → Action (Option (UserRow × String))
forgot_password c email raw now = do
  found ← ask (get_by_email c.lower email)
  elim found [
    | none ↦ pure none
    | some u ↦
        if is_none u.password_hash
        then pure none
        else mail_token c u password_reset reset_ttl raw now
  ]

-- `reset_password`
unfoldable pub reset_password : Crypto → String → String → Instant → Action (Unit {0})
reset_password c raw password now = do
  user ← consume_token c raw password_reset now
  write (assign_user user.id (λ u. record u { password_hash = some (c.hash_password password) }))
  revoke_all user.id now
  commit

-- `accept_invitation`
unfoldable pub accept_invitation : Crypto → String → String → Instant → Action (Unit {0})
accept_invitation c raw password now = do
  user ← consume_token c raw invitation now
  write (
      assign_user user.id (λ u. record u {
        password_hash = some (c.hash_password password);
        email_verified_at = some now;
        is_active = true;
      }))
  commit

-- ===== src/Auth/Security.antt =====
-- auth/security.py: passwords, opaque tokens and signed tokens. Argon2, SHA-256, the signature and the
-- database's LOWER are a parameter of everything that uses them; the random salt of a hash is left out.
use Prim.Native.String.{String}
use pikol_backend.Common.{
  ℕ, ◌+◌, Bool, true, false, ◌&&◌, Option, none, some, ◌==◌, string_eq, if◌then◌else◌,
}
use pikol_backend.Time.{Instant, minutes, days}
use pikol_backend.Errors.{Error, Result, ok, err, app_error, invalid_token}

-- The claims of a signed token. `jti` is `none` where the claim is missing or is no UUID.
pub record Claims : Type 0 where
  pub sub : ℕ
  pub typ : String
  pub jti : Option ℕ
  pub iat : Instant
  pub exp : Instant

pub record Crypto : Type 0 where
  pub lower : String → String
  pub hash_password : String → String
  -- `PasswordHasher.verify`, false where it raises, and the hash that stands in for a missing one.
  pub check_hash : String → String → Bool
  pub dummy_hash : String
  pub sha256 : String → String
  pub jwt_encode : Claims → String
  -- `jwt.decode` at a clock reading, `none` where it raises.
  pub jwt_decode : String → Instant → Option Claims

pub record Settings : Type 0 where
  pub access_token_minutes : ℕ
  pub refresh_token_days : ℕ

-- `hashed or _DUMMY_HASH`
abbrev pub or_dummy : Crypto → Option String → String
or_dummy c none = c.dummy_hash
or_dummy c (some h) = if h == "" then c.dummy_hash else h

abbrev is_set : Option String → Bool
is_set none = false
is_set (some _) = true

unfoldable pub verify_password : Crypto → String → Option String → Bool
verify_password c raw hashed = c.check_hash (or_dummy c hashed) raw && is_set hashed

abbrev pub invalid_token_error : Error
invalid_token_error = app_error 401 invalid_token

abbrev pub access_claims : Settings → ℕ → Instant → Claims
access_claims settings user now = record {
  sub = user;
  typ = "access";
  jti = none;
  iat = now;
  exp = now + minutes settings.access_token_minutes;
}

abbrev pub encode_access : Crypto → Settings → ℕ → Instant → String
encode_access c settings user now = c.jwt_encode (access_claims settings user now)

abbrev pub refresh_expiry : Settings → Instant → Instant
refresh_expiry settings now = now + days settings.refresh_token_days

abbrev pub refresh_claims : Settings → ℕ → ℕ → Instant → Claims
refresh_claims settings user jti now = record {
  sub = user;
  typ = "refresh";
  jti = some jti;
  iat = now;
  exp = refresh_expiry settings now;
}

-- `encode_refresh`: the token and when it expires.
abbrev pub encode_refresh : Crypto → Settings → ℕ → ℕ → Instant → String × Instant
encode_refresh c settings user jti now =
    (c.jwt_encode (refresh_claims settings user jti now), refresh_expiry settings now)

abbrev pub of_type : String → Option Claims → Result Claims
of_type expected none = err invalid_token_error
of_type expected (some claims) =
    if claims.typ == expected then ok claims else err invalid_token_error

-- `decode`
unfoldable pub decode : Crypto → String → String → Instant → Result Claims
decode c token expected now = of_type expected (c.jwt_decode token now)

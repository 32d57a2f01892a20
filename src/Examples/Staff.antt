-- ===== src/Examples/Staff.antt =====
-- A request of staff that is served: the manager of the sample accounts changes a price.

use pikol_backend.Common.{◌+◌, ◌≡◌, ◌≢◌, refl, sym, ap, ◌∙◌, none, some}
use pikol_backend.Time.{day}
use pikol_backend.Errors.{Error, Result, ok, err}
use pikol_backend.Users.Models.{UserRow}
use pikol_backend.Auth.Security.{Crypto, decode, invalid_token_error}
use pikol_backend.Auth.Access.{
  VenueAccess, get_current_user, get_venue_access, staff_access, active_venue, require_permission,
}
use pikol_backend.Pricing.Service.{update_rule, get_rule}
use pikol_backend.Program.Endpoints.{patch_rule, handle_price}
use pikol_backend.Program.Staff.{
  StaffRequest, price_endpoint, required_code, handle, caller_of, staff_request,
}
use pikol_backend.Program.Staff.Entitlement.{IsCaller, MayAct, staff_request-IsEntitled}
use pikol_backend.Database.{Session, ◌>>=◌}
use pikol_backend.Examples.Data.{noon}
use pikol_backend.Examples.Accounts.{sample_accounts, sample_session, open_crypto}

-- A token is the text of its type, and all are of account 8.
abbrev typed_crypto : Crypto
typed_crypto = record open_crypto {
  jwt_decode =
      λ t now. some (record { sub = 8; typ = t; jti = none; iat = noon; exp = noon + day });
}

abbrev new_price : StaffRequest
new_price = price_endpoint (patch_rule 1 50000)

abbrev served : Result (Unit {0}) × Session
served = staff_request typed_crypto noon (some "access") none new_price sample_session

served_ok : served.0 ≡ ok tt
unfolding staff_request get_current_user decode get_venue_access staff_access active_venue
    required_code require_permission handle_price update_rule get_rule ◌>>=◌
served_ok = refl

not_refused : (e : Error) → served ≢ (err e, sample_session)
not_refused e h = let bad : ok tt ≡ err e = sym served_ok ∙ ap (λ x. x.0) h in cc

staff_request-IsEntitled_example :
    (u : UserRow) × (access : VenueAccess) × IsCaller typed_crypto
      (some "access")
      noon
      sample_accounts
      u
    × MayAct none "PRICE:Manage" sample_accounts u access.scope
    × (staff_request typed_crypto noon (some "access") none new_price sample_session
        ≡ handle typed_crypto noon (caller_of u) access new_price sample_session)
unfolding required_code
staff_request-IsEntitled_example =
    staff_request-IsEntitled typed_crypto noon (some "access") none new_price sample_session
      not_refused

-- A refresh token is no access token.
refresh_token_refused :
    staff_request typed_crypto noon (some "refresh") none new_price sample_session
    ≡ (err invalid_token_error, sample_session)
unfolding staff_request get_current_user decode ◌>>=◌
refresh_token_refused = refl

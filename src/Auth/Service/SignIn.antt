-- ===== src/Auth/Service/SignIn.antt =====
-- `_authenticate` and the two logins of auth/service.py.
use Prim.Native.String.{String}
use pikol_backend.Common.{◌≡◌, ◌↔◌, refl, true, false, some, is_none, arith}
use mathlib.Core.Path.{subst}
use pikol_backend.Errors.{err}
use pikol_backend.Auth.Security.{Crypto, verify_password}
use pikol_backend.Users.Models.{UserRow}
use pikol_backend.Users.Repository.{get_by_email}
use pikol_backend.Auth.Service.{authenticate, hash_of, credentials_error}
use pikol_backend.Auth.Service.Links.{or_raise-some}
use pikol_backend.Database.{Session, ◌>>=◌}
use pikol_backend.Database.Runs.{Returns, IsQuery-or_raise}
use pikol_backend.Database.Ends.{Ends, Ends-gets, Ends-query, Ends-raise_if, Ends-pure}

-- The password is right, the email verified, and the account active.
abbrev pub MaySignIn : Crypto → String → UserRow → Type 0
MaySignIn c password u =
    (verify_password c password u.password_hash ≡ true)
    × (is_none u.email_verified_at ≡ false)
    × (u.is_active ≡ true)

authenticate-Ends :
    (c : Crypto) (email password : String) (s : Session)
    → Ends
        (λ u _. (get_by_email c.lower email s.tables.accounts ≡ some u) × MaySignIn c password u)
        (authenticate c email password)
        s
unfolding authenticate
authenticate-Ends c email password s = Ends-gets _ _ (
    Ends-raise_if _ _ _ (λ right. Ends-query _ _ (IsQuery-or_raise _ _) (λ u f.
      Ends-raise_if _ _ _ (λ verified. Ends-raise_if _ _ _ (λ active.
        let found = or_raise-some (get_by_email c.lower email s.tables.accounts) _ s u f in
        Ends-pure u (
          found,
          (
            subst (λ o. verify_password c password (hash_of o) ≡ true) found (ground (arith)),
            verified,
            ground (arith),
          ),
        ))))))

-- The sign-in of an account succeeds exactly if the email is that of a live account, the password is
-- right, the email is verified and the account is active.
pub authenticate_iff :
    (c : Crypto) (email password : String) (u : UserRow) (s : Session)
    → Returns (authenticate c email password) s u s
      ↔ (get_by_email c.lower email s.tables.accounts ≡ some u) × MaySignIn c password u
unfolding authenticate ◌>>=◌
authenticate_iff c email password u s = (
  (authenticate-Ends c email password s).shown u s,
  λ (h, (right, verified, active)). rw h (rw right (rw verified (rw active refl))),
)

-- With a wrong password the answer is the same, whether or not there is an account, it is verified or it
-- is active.
pub wrong_password_hides :
    (c : Crypto) (email password : String) (s : Session)
    → verify_password c password (hash_of (get_by_email c.lower email s.tables.accounts)) ≡ false
    → authenticate c email password s ≡ (err credentials_error, s)
unfolding authenticate ◌>>=◌
wrong_password_hides c email password s h = rw h refl

-- ===== src/Users/Service/Deactivation.antt =====
-- `update_by_admin` of users/service.py when it makes an account inactive.
use Prim.Native.String.{String}
use pikol_backend.Common.{ℕ, ◌≡◌, true, false, ◌&&◌, some, any, arith, ◌==◌, nat_eq, find?-sound}
use pikol_backend.Catalog.{User, VenueScope}
use pikol_backend.Auth.Service.{is_live_of}
use pikol_backend.Users.Models.{UserRow}
use pikol_backend.Users.Repository.{scoped_user, is_live_account, is_at}
use pikol_backend.Users.Service.{get_for_admin, check_one_venue, modifiable, is_unused_of}
use pikol_backend.Database.{Accounts, Session}
use pikol_backend.Database.Runs.{IsQuery, query_rules}
use pikol_backend.Database.Ends.{
  Ends, Ends-gets, Ends-query, Ends-query_that, Ends-raise_if, Ends-pure, Ends-or_raise,
}

-- No session of the account can be renewed, and no link that was mailed to it works.
pub record IsLockedOut (id : ℕ) (a : Accounts) : Type 0 where
  pub sessions : any (is_live_of id) a.refresh_tokens ≡ false
  pub links : any (is_unused_of id) a.user_tokens ≡ false

pub get_for_admin-IsQuery : (id : ℕ) (scope : VenueScope) → IsQuery (get_for_admin id scope)
unfolding get_for_admin
get_for_admin-IsQuery id scope = search query_rules

check_one_venue-IsQuery :
    (target : UserRow) (scope : VenueScope) → IsQuery (check_one_venue target scope)
unfolding check_one_venue
check_one_venue-IsQuery target scope = search query_rules

pub modifiable-IsQuery :
    (caller : User) (id : ℕ) (scope : VenueScope) → IsQuery (modifiable caller id scope)
unfolding modifiable
modifiable-IsQuery caller id scope =
    search (query_rules, get_for_admin-IsQuery, check_one_venue-IsQuery)

scoped_user_key :
    (id : ℕ) (scope : VenueScope) (a : Accounts) (u : UserRow)
    → scoped_user id scope a ≡ some u
    → (u.id == id) ≡ true
scoped_user_key id scope a u e =
    let found =
      find?-sound (λ v. v.id == id && is_live_account v && is_at scope v.id a) a.users u e in
    ground (arith, found)

get_for_admin-Ends :
    (id : ℕ) (scope : VenueScope) (s : Session)
    → Ends (λ u _. (u.id == id) ≡ true) (get_for_admin id scope) s
unfolding get_for_admin
get_for_admin-Ends id scope s =
    Ends-gets _ _ (Ends-or_raise _ _ _ (scoped_user_key id scope s.tables.accounts))

pub modifiable-Ends :
    (caller : User) (id : ℕ) (scope : VenueScope) (s : Session)
    → Ends
        (λ u _. ((u.id == id) ≡ true) × ((u.id == caller.id) ≡ false))
        (modifiable caller id scope)
        s
unfolding modifiable
modifiable-Ends caller id scope s =
    Ends-query_that _ _ _ (get_for_admin-IsQuery id scope) (get_for_admin-Ends id scope s) (λ u e.
      Ends-raise_if _ _ _ (λ other.
        Ends-query _ _ (search (query_rules, check_one_venue-IsQuery))
          (λ _ _. Ends-pure u (e, other))))

-- A request after the commit.
abbrev pub next_session : Session → Session
next_session s = record s { tables = s.committed }

-- ===== src/Users/Repository.antt =====
-- users/persistence/repository.py, and the insert of auth/service.py: live accounts by email and key,
-- and those that a scope shows. `lower` is the database's LOWER, which `str.lower` agrees with.
use Prim.Native.String.{String}
use pikol_backend.Common.{
  ℕ, suc, Bool, false, ◌&&◌, ◌||◌, Option, none, [], ◌∷◌, ◌++◌, map, any, find?, ◌==◌, nat_eq,
  string_eq, is_none, if◌then◌else◌,
}
use pikol_backend.Errors.{
  Error, Result, ok, err, app_error, integrity_error, email_constraint, email_taken,
}
use pikol_backend.Catalog.{VenueScope}
use pikol_backend.Users.Models.{UserRow}
use pikol_backend.Users.GroupRepository.{ask, write, column_in_scope, in_some_group}
use pikol_backend.Database.{
  Accounts, Action, pure, raise, raise_if, ◌>>=◌, ◌>>◌, savepoint, attempt,
}

-- `deleted_at IS NULL`
abbrev pub is_live_account : UserRow → Bool
is_live_account u = is_none u.deleted_at

-- `get_by_email`
abbrev pub get_by_email : (String → String) → String → Accounts → Option UserRow
get_by_email lower email a = find? (λ u. lower u.email == lower email && is_live_account u) a.users

-- `get_by_id`
abbrev pub get_by_id : ℕ → Accounts → Option UserRow
get_by_id id a = find? (λ u. u.id == id && is_live_account u) a.users

-- `_at`: the owner sees everyone, others who holds one of their venue's groups.
abbrev pub is_at : VenueScope → ℕ → Accounts → Bool
is_at scope user a =
    scope.all_venues || in_some_group (λ g. column_in_scope scope g.venue_id) user a

-- `get_scoped`
abbrev pub scoped_user : ℕ → VenueScope → Accounts → Option UserRow
scoped_user id scope a = find? (λ u. u.id == id && is_live_account u && is_at scope u.id a) a.users

-- An assignment to a loaded account.
abbrev pub assign_user : ℕ → (UserRow → UserRow) → Accounts → Accounts
assign_user id f a = record a { users = map (λ u. if u.id == id then f u else u) a.users }

-- What the caller of `insert_user` gives of an account; the other columns have defaults.
pub record NewUser : Type 0 where
  pub email : String
  pub password_hash : Option String
  pub first_name : String
  pub last_name : String
  pub mobile : Option String

abbrev pub new_user : ℕ → NewUser → UserRow
new_user id u = record {
  id = id;
  email = u.email;
  password_hash = u.password_hash;
  first_name = u.first_name;
  last_name = u.last_name;
  mobile = u.mobile;
  system_admin = false;
  is_active = false;
  email_verified_at = none;
  last_login_at = none;
  deleted_at = none;
}

-- The index `users_email_lower_uq`.
abbrev pub has_email : (String → String) → String → Accounts → Bool
has_email lower email a = any (λ u. lower u.email == lower email && is_live_account u) a.users

unfoldable pub flush_user : (String → String) → UserRow → Action (Unit {0})
flush_user lower u = do
  taken ← ask (has_email lower u.email)
  raise_if taken (integrity_error email_constraint)
  write (λ a. record a { users = a.users ++ u ∷ []; next_user_id = suc u.id })

abbrev pub email_taken_error : Error
email_taken_error = app_error 409 email_taken

unfoldable pub after_user_flush : UserRow → Result (Unit {0}) → Action UserRow
after_user_flush u (ok _) = pure u
after_user_flush u (err (integrity_error email_constraint)) = raise email_taken_error
after_user_flush u (err e) = raise e

-- `insert_user`
unfoldable pub insert_user : (String → String) → NewUser → Action UserRow
insert_user lower fresh = do
  id ← ask (λ a. a.next_user_id)
  flushed ← attempt (savepoint (flush_user lower (new_user id fresh)))
  after_user_flush (new_user id fresh) flushed

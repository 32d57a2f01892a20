-- ===== src/Users/Service.antt =====
-- users/service.py: the caller's own account, invitations, and what staff may change of an account.
pub mod Deactivation
pub mod Password
use Prim.Native.String.{String}
use pikol_backend.Common.{
  ℕ, Bool, true, false, not, ◌&&◌, Option, none, some, List, select, ◌==◌, nat_eq, is_none, is_some,
  if◌then◌else◌,
}
use pikol_backend.Time.{Instant, days}
use pikol_backend.Errors.{
  Error, Result, ok, err, app_error, assertion_error, not_found, forbidden, email_taken,
  email_exists, unknown_group, not_a_staff_group, already_accepted, wrong_password,
}
use pikol_backend.Catalog.{User, VenueScope}
use pikol_backend.Auth.Models.{TokenPurpose, invitation, purpose_eq, UserToken}
use pikol_backend.Auth.Security.{Crypto, verify_password}
use pikol_backend.Auth.Service.{issue_token, is_unused, revoke_all}
use pikol_backend.Users.Domain.{customer, master, kind_eq}
use pikol_backend.Users.Models.{UserRow, UserGroup}
use pikol_backend.Users.Changes.{Given, UserUpdate, updated, own_profile}
use pikol_backend.Users.Repository.{NewUser, insert_user, assign_user, scoped_user}
use pikol_backend.Users.GroupRepository.{
  ask, write, scoped_group, is_master_at, belongs_elsewhere, add_member_row,
}
use pikol_backend.Database.{
  Accounts, Tables, Action, pure, raise, lift, gets, raise_if, or_raise, ◌>>=◌, ◌>>◌, modify,
  commit, attempt, when,
}

-- `update_profile`
unfoldable pub update_profile : UserRow → UserUpdate → Action UserRow
update_profile user body = do
  changed ← lift (updated (own_profile body) user)
  write (assign_user user.id (λ _. changed))
  commit
  pure changed

-- `change_password`
unfoldable pub change_password : Crypto → UserRow → String → String → Instant → Action (Unit {0})
change_password c user current fresh now = do
  raise_if (not (verify_password c current user.password_hash)) (app_error 400 wrong_password)
  write (assign_user user.id (λ u. record u { password_hash = some (c.hash_password fresh) }))
  revoke_all user.id now
  commit

pub record Invitation : Type 0 where
  pub user : UserRow
  pub token : String
  pub expiry_days : ℕ

-- `_issue_invitation`
unfoldable pub issue_invitation : Crypto → UserRow → String → Instant → Action Invitation
issue_invitation c user raw now = do
  parameters ← gets (λ t. t.parameters)
  token ← issue_token c user.id invitation (days parameters.invitation_expiry_days) raw now
  pure (record { user = user; token = token; expiry_days = parameters.invitation_expiry_days })

-- `invitable_group`
unfoldable pub invitable_group : User → ℕ → VenueScope → Action UserGroup
invitable_group caller id scope = do
  found ← ask (scoped_group id scope)
  g ← or_raise found (app_error 422 unknown_group)
  raise_if (g.kind == customer) (app_error 422 not_a_staff_group)
  raise_if (g.kind == master && not caller.system_admin) (app_error 403 forbidden)
  pure g

unfoldable pub after_insert : Result UserRow → Action UserRow
after_insert (ok u) = pure u
after_insert (err (app_error status email_taken)) = raise (app_error 409 email_exists)
after_insert (err e) = raise e

-- `invite`; the new account has no password.
unfoldable pub invite : Crypto → User → NewUser → UserGroup → String → Instant → Action Invitation
invite c caller body g raw now = do
  inserted ← attempt (insert_user c.lower (record body { password_hash = none }))
  user ← after_insert inserted
  member ← add_member_row g.id user.id (some caller.id) now
  sent ← issue_invitation c user raw now
  commit
  pure sent

abbrev pub user_not_found : Error
user_not_found = app_error 404 not_found

-- `get_for_admin`
unfoldable pub get_for_admin : ℕ → VenueScope → Action UserRow
get_for_admin id scope = do found ← ask (scoped_user id scope); or_raise found user_not_found

-- The checks on a caller who is not the owner.
unfoldable pub check_one_venue : UserRow → VenueScope → Action (Unit {0})
check_one_venue target scope = do
  venue ← or_raise scope.venue_id assertion_error
  is_theirs ← ask (is_master_at target.id venue)
  raise_if is_theirs (app_error 403 forbidden)
  elsewhere ← ask (belongs_elsewhere target.id venue)
  raise_if elsewhere (app_error 403 forbidden)

-- `_modifiable`
unfoldable pub modifiable : User → ℕ → VenueScope → Action UserRow
modifiable caller id scope = do
  target ← get_for_admin id scope
  raise_if (target.id == caller.id) (app_error 403 forbidden)
  when (not caller.system_admin) (check_one_venue target scope)
  pure target

abbrev pub is_unused_of : ℕ → UserToken → Bool
is_unused_of user t = t.user_id == user && is_none t.used_at

-- What `changes.get("is_active") is False` brings about.
unfoldable pub deactivate : ℕ → Instant → Action (Unit {0})
deactivate user now = do
  revoke_all user now
  write (λ a. record a { user_tokens = select (λ t. not (is_unused_of user t)) a.user_tokens })

abbrev pub deactivates : Given Bool → Bool
deactivates (some (some false)) = true
deactivates _ = false

-- `update_by_admin`
unfoldable pub update_by_admin : User → ℕ → UserUpdate → VenueScope → Instant → Action UserRow
update_by_admin caller id body scope now = do
  target ← modifiable caller id scope
  changed ← lift (updated body target)
  write (assign_user target.id (λ _. changed))
  when (deactivates body.is_active) (deactivate target.id now)
  commit
  pure changed

-- `_pending_invitee`
unfoldable pub pending_invitee : User → ℕ → VenueScope → Action UserRow
pending_invitee caller id scope = do
  target ← modifiable caller id scope
  raise_if (is_some target.password_hash) (app_error 409 already_accepted)
  pure target

-- `resend_invitation`
unfoldable pub resend_invitation :
    Crypto → User → ℕ → VenueScope → String → Instant → Action Invitation
resend_invitation c caller id scope raw now = do
  target ← pending_invitee caller id scope
  sent ← issue_invitation c target raw now
  commit
  pure sent

-- `revoke_invitation`
unfoldable pub revoke_invitation : User → ℕ → VenueScope → Action (Unit {0})
revoke_invitation caller id scope = do
  target ← pending_invitee caller id scope
  write (λ a. record a {
    user_tokens = select (λ t. not (is_unused target.id invitation t)) a.user_tokens;
  })
  commit

-- ===== src/Users/GroupService/Hidden.antt =====
-- Groups outside the caller's venues (`get` of users/group_service.py).
use Prim.Native.String.{String}
use pikol_backend.Common.{ℕ, ◌≡◌, refl, none, List}
use pikol_backend.Time.{Instant}
use pikol_backend.Errors.{err}
use pikol_backend.Catalog.{User, VenueScope}
use pikol_backend.Auth.Access.{VenueAccess}
use pikol_backend.Users.GroupRepository.{scoped_group}
use pikol_backend.Users.GroupService.{
  group_not_found, get_group, editable, fillable, rename_group, delete_group, set_permissions,
  add_member, remove_member,
}
use pikol_backend.Database.{Session, ◌>>=◌}

get_group_hidden :
    (id : ℕ) (scope : VenueScope) (s : Session)
    → scoped_group id scope s.tables.accounts ≡ none
    → get_group id scope s ≡ (err group_not_found, s)
unfolding get_group ◌>>=◌
get_group_hidden id scope s h = rw h refl

-- For a group that is missing, or that the caller's scope does not show, every operation on it answers
-- the same 404, and changes nothing.
pub group_hidden :
    (lower : String → String) (caller : User) (id user : ℕ) (name email : String)
    (codes : List String) (access : VenueAccess) (now : Instant) (s : Session)
    → scoped_group id access.scope s.tables.accounts ≡ none
    → (get_group id access.scope s ≡ (err group_not_found, s))
      × (rename_group lower caller id name access.scope s ≡ (err group_not_found, s))
      × (delete_group caller id access.scope s ≡ (err group_not_found, s))
      × (set_permissions caller id codes access s ≡ (err group_not_found, s))
      × (add_member lower caller id email access.scope now s ≡ (err group_not_found, s))
      × (remove_member caller id user access s ≡ (err group_not_found, s))
unfolding rename_group delete_group set_permissions add_member remove_member editable fillable ◌>>=◌
group_hidden lower caller id user name email codes access now s h =
    rw (get_group_hidden id access.scope s h) (refl, refl, refl, refl, refl, refl)

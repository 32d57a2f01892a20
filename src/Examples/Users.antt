-- ===== src/Examples/Users.antt =====
-- A manager of one venue who changes its groups.

use pikol_backend.Common.{◌≡◌, ◌↔◌, refl, true, false, none, some, [], elem, string_eq}
use pikol_backend.Errors.{ok, err}
use pikol_backend.Users.Domain.{user_manage}
use pikol_backend.Users.GroupRepository.{staff_codes, set_codes, insert_codes, remove_member_row}
use pikol_backend.Users.GroupService.{
  set_permissions, remove_member, delete_group, group_not_found, get_group, rename_group,
  add_member, editable, final_codes, delegated_codes, refuse_self_lockout, fillable, may_remove,
  check_removal, drop_group,
}
use pikol_backend.Users.GroupService.Delegation.{IsDelegated, set_permissions_delegates}
use pikol_backend.Users.GroupService.Lockout.{Manages, set_permissions_keeps_manager}
use pikol_backend.Users.GroupService.Removal.{remove_member_keeps_manager}
use pikol_backend.Users.GroupService.Deletion.{delete_keeps_access}
use pikol_backend.Users.GroupService.Hidden.{group_hidden}
use pikol_backend.Database.{◌>>=◌}
use pikol_backend.Database.Ends.{Ends}
use pikol_backend.Examples.Data.{noon, own_venue, other_venue}
use pikol_backend.Examples.Accounts.{sample_accounts, sample_session, manager, manager_access}

-- The manager takes BOOKING:ReadAny, which they hold, from the desk, and PRICE:Manage, which they do not
-- hold, stays.
desk_codes_changed :
    let (r, s') = set_permissions manager 2 [] manager_access sample_session in
    (elem "BOOKING:ReadAny" (staff_codes 9 (some 1) none s'.committed.accounts) ≡ false)
    × (elem "PRICE:Manage" (staff_codes 9 (some 1) none s'.committed.accounts) ≡ true)
unfolding set_permissions editable get_group final_codes delegated_codes refuse_self_lockout
    set_codes insert_codes ◌>>=◌
desk_codes_changed = (refl, refl)

set_permissions_delegates_example :
    Ends
      (λ g s'. IsDelegated 2 [] manager_access.permissions sample_accounts s'.committed.accounts)
      (set_permissions manager 2 [] manager_access)
      sample_session
set_permissions_delegates_example =
    set_permissions_delegates manager 2 [] manager_access sample_session refl

set_permissions_keeps_manager_example :
    Ends
      (λ g s'. Manages 8 1 s'.committed.accounts)
      (set_permissions manager 2 [] manager_access)
      sample_session
set_permissions_keeps_manager_example =
    set_permissions_keeps_manager manager 2 [] manager_access 1 sample_session refl refl refl refl

desk_member_removed : (remove_member manager 2 9 manager_access sample_session).0 ≡ ok tt
unfolding remove_member fillable get_group may_remove check_removal refuse_self_lockout
    remove_member_row ◌>>=◌
desk_member_removed = refl

remove_member_keeps_manager_example :
    Ends
      (λ _ s'. Manages 8 1 s'.committed.accounts)
      (remove_member manager 2 9 manager_access)
      sample_session
remove_member_keeps_manager_example =
    remove_member_keeps_manager manager 2 9 manager_access 1 sample_session refl refl refl

empty_group_deleted : (delete_group manager 3 own_venue sample_session).0 ≡ ok tt
unfolding delete_group editable get_group drop_group ◌>>=◌
empty_group_deleted = refl

delete_keeps_access_example :
    Ends
      (λ _ s'.
        (elem user_manage (staff_codes 8 (some 1) none sample_accounts) ≡ true)
        ↔ (elem user_manage (staff_codes 8 (some 1) none s'.committed.accounts) ≡ true))
      (delete_group manager 3 own_venue)
      sample_session
delete_keeps_access_example =
    delete_keeps_access manager 3 own_venue 8 (some 1) user_manage sample_session

group_hidden_example :
    let access = record manager_access { scope = other_venue } in
    (get_group 2 other_venue sample_session ≡ (err group_not_found, sample_session))
    × (rename_group (λ s. s) manager 2 "New" other_venue sample_session
        ≡ (err group_not_found, sample_session))
    × (delete_group manager 2 other_venue sample_session ≡ (err group_not_found, sample_session))
    × (set_permissions manager 2 [] access sample_session ≡ (err group_not_found, sample_session))
    × (add_member (λ s. s) manager 2 "d@x" other_venue noon sample_session
        ≡ (err group_not_found, sample_session))
    × (remove_member manager 2 9 access sample_session ≡ (err group_not_found, sample_session))
group_hidden_example =
    group_hidden (λ s. s) manager 2 9 "New" "d@x" [] (record manager_access { scope = other_venue })
      noon sample_session refl

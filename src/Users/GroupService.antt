-- ===== src/Users/GroupService.antt =====
-- users/group_service.py: who may change a venue's groups, their codes and their members.
pub mod Grants
pub mod Codes
pub mod Lockout
pub mod Removal
pub mod Deletion
pub mod Hidden
pub mod Delegation
use Prim.Native.Nat.{Ordering}
use Prim.Native.String.{String, compare}
use pikol_backend.Common.{
  ℕ, Bool, true, false, not, ◌&&◌, Option, none, some, List, [], ◌∷◌, ◌++◌, any, map, sort_by,
  select, ltb, ◌==◌, nat_eq, string_eq, elem, inter, diff, is_empty, is_none, is_some, strip,
  if◌then◌else◌,
}
use pikol_backend.Time.{Instant}
use pikol_backend.Errors.{
  Error, Result, ok, err, app_error, integrity_error, group_name_constraint, not_found, forbidden,
  group_name_taken, venue_required, field_not_allowed, built_in_group, group_not_empty,
  unknown_permission, owner_only_permission, customer_has_no_permissions, self_lockout,
  user_inactive, already_member, assertion_error,
}
use pikol_backend.Catalog.{User, VenueScope}
use pikol_backend.Auth.Access.{VenueAccess}
use pikol_backend.Users.Domain.{
  GroupKind, customer, master, staff, kind_eq, all_codes, owner_only_codes, user_manage,
}
use pikol_backend.Users.Models.{UserRow, UserGroup, GroupMember}
use pikol_backend.Users.Repository.{get_by_email}
use pikol_backend.Users.GroupRepository.{
  ask, write, scoped_group, codes_of, member_count, is_member, is_master_at, staff_codes, set_codes,
  remove_member_row, add_member_row, is_customer, put_group, assign_group, flush_user_group,
  take_group_id,
}
use pikol_backend.Database.{
  Accounts, Tables, Action, pure, raise, gets, raise_if, ◌>>=◌, ◌>>◌, modify, commit, savepoint,
  attempt, when, or_raise,
}

abbrev pub group_not_found : Error
group_not_found = app_error 404 not_found

abbrev pub owner_only : Error
owner_only = app_error 403 forbidden

abbrev pub name_taken : Error
name_taken = app_error 409 group_name_taken

-- `get`
unfoldable pub get_group : ℕ → VenueScope → Action UserGroup
get_group id scope = do found ← ask (scoped_group id scope); or_raise found group_not_found

unfoldable pub editable : User → ℕ → VenueScope → Action UserGroup
editable caller id scope = do
  g ← get_group id scope
  raise_if (g.kind == master && not caller.system_admin) owner_only
  pure g

-- `_fillable`
unfoldable pub fillable : User → ℕ → VenueScope → Action UserGroup
fillable caller id scope = do
  g ← get_group id scope
  raise_if (not (g.kind == staff) && not caller.system_admin) owner_only
  pure g

-- `_save`, where `put` is what the flush writes.
unfoldable pub after_group_flush : Result (Unit {0}) → Action (Unit {0})
after_group_flush (ok _) = commit
after_group_flush (err (integrity_error group_name_constraint)) = raise name_taken
after_group_flush (err e) = raise e

unfoldable pub save_group :
    (String → String) → UserGroup → (Accounts → Accounts) → Action (Unit {0})
save_group lower g put = do
  flushed ← attempt (savepoint (flush_user_group lower g put))
  after_group_flush flushed

-- The venue of a new group: the body's for the owner, the caller's own for anyone else.
unfoldable pub group_venue : User → Option ℕ → VenueScope → Action ℕ
group_venue caller venue scope =
    if caller.system_admin then or_raise venue (app_error 422 venue_required) else do
      raise_if (is_some venue) (app_error 422 field_not_allowed)
      or_raise scope.venue_id assertion_error

-- `create`
unfoldable pub create_group :
    (String → String) → User → String → Option ℕ → VenueScope → Action UserGroup
create_group lower caller name venue scope = do
  v ← group_venue caller venue scope
  id ← take_group_id
  let g : UserGroup = record {
    id = id;
    kind = staff;
    venue_id = some v;
    name = strip name;
    created_by_user_id = some caller.id;
    updated_by_user_id = some caller.id;
  }
  save_group lower g (put_group g)
  pure g

-- `rename`
unfoldable pub rename_group : (String → String) → User → ℕ → String → VenueScope → Action UserGroup
rename_group lower caller id name scope = do
  g ← editable caller id scope
  raise_if (g.kind == customer) (app_error 422 built_in_group)
  let renamed = record g { name = strip name; updated_by_user_id = some caller.id }
  save_group lower renamed (assign_group g.id (λ _. renamed))
  pure renamed

-- `session.delete(group)`: the foreign keys cascade to its members and its codes.
unfoldable pub drop_group : ℕ → Accounts → Accounts
drop_group id a = record a {
  user_groups = select (λ g. not (g.id == id)) a.user_groups;
  members = select (λ m. not (m.group_id == id)) a.members;
  group_codes = select (λ c. not (c.group_id == id)) a.group_codes;
}

-- `delete`
unfoldable pub delete_group : User → ℕ → VenueScope → Action (Unit {0})
delete_group caller id scope = do
  g ← editable caller id scope
  raise_if (not (g.kind == staff)) (app_error 409 built_in_group)
  members ← ask (member_count g.id)
  raise_if (ltb 0 members) (app_error 409 group_not_empty)
  write (drop_group g.id)
  commit

-- `_refuse_self_lockout`
unfoldable pub refuse_self_lockout : User → UserGroup → VenueAccess → Action (Unit {0})
refuse_self_lockout caller g access = do
  mine ← ask (is_member g.id caller.id)
  others ← ask (staff_codes caller.id access.scope.venue_id (some g.id))
  raise_if (mine && not (elem user_manage others)) (app_error 409 self_lockout)

-- `(requested & held) | (current - held)`
abbrev pub merged_codes : List String → List String → List String → List String
merged_codes requested current held = inter requested held ++ diff current held

-- The codes that a caller who is not the owner leaves the group with.
unfoldable pub delegated_codes :
    User → UserGroup → List String → List String → VenueAccess → Action (List String)
delegated_codes caller g requested current access = do
  raise_if (not (is_empty (diff (diff requested current) access.permissions))) owner_only
  let final = merged_codes requested current access.permissions
  when (elem user_manage (diff current final)) (refuse_self_lockout caller g access)
  pure final

unfoldable pub final_codes :
    User → UserGroup → List String → List String → VenueAccess → Action (List String)
final_codes caller g requested current access =
    if caller.system_admin
    then pure requested
    else delegated_codes caller g requested current access

abbrev pub touched_by : User → UserGroup → UserGroup
touched_by caller g = record g { updated_by_user_id = some caller.id }

unfoldable pub set_permissions : User → ℕ → List String → VenueAccess → Action UserGroup
set_permissions caller id requested access = do
  g ← editable caller id access.scope
  raise_if (not (is_empty (diff requested all_codes))) (app_error 422 unknown_permission)
  raise_if (not (is_empty (inter requested owner_only_codes))) (app_error 422 owner_only_permission)
  raise_if (g.kind == customer && not (is_empty requested))
      (app_error 422 customer_has_no_permissions)
  current ← ask (codes_of g.id)
  final ← final_codes caller g requested current access
  write (set_codes g.id final)
  write (assign_group g.id (touched_by caller))
  commit
  pure (touched_by caller g)

-- What the console shows of a group.
pub record GroupOut : Type 0 where
  pub id : ℕ
  pub name : String
  pub kind : GroupKind
  pub venue_id : Option ℕ
  pub member_count : ℕ
  pub permissions : List String
  pub read_only : Bool

abbrev text_before : String → String → Bool
text_before s t = elim (compare s t) [ Ordering.lt ↦ true | _ ↦ false ]

-- One element of `out_many`.
unfoldable pub group_out : User → UserGroup → Accounts → GroupOut
group_out caller g a = record {
  id = g.id;
  name = g.name;
  kind = g.kind;
  venue_id = g.venue_id;
  member_count = member_count g.id a;
  permissions = sort_by text_before (codes_of g.id a);
  read_only = g.kind == master && not caller.system_admin;
}

-- `out_many`
unfoldable pub out_many : User → List UserGroup → Action (List GroupOut)
out_many caller groups = ask (λ a. map (λ g. group_out caller g a) groups)

pub record MemberOut : Type 0 where
  pub user_id : ℕ
  pub email : String
  pub first_name : String
  pub last_name : String
  pub is_active : Bool
  pub pending_invite : Bool
  pub is_customer : Bool
  pub added_at : Instant

abbrev pub member_out : UserRow → Bool → Instant → MemberOut
member_out u is_customer added_at = record {
  user_id = u.id;
  email = u.email;
  first_name = u.first_name;
  last_name = u.last_name;
  is_active = u.is_active;
  pending_invite = is_none u.password_hash;
  is_customer = is_customer;
  added_at = added_at;
}

-- `add_member`; an account that has no password yet is a pending invitation.
unfoldable pub join_group : User → UserGroup → UserRow → Instant → Action MemberOut
join_group caller g u now = do
  raise_if (not u.is_active && not (is_none u.password_hash)) (app_error 422 user_inactive)
  there ← ask (is_member g.id u.id)
  raise_if there (app_error 409 already_member)
  row ← add_member_row g.id u.id (some caller.id) now
  commit
  books ← ask (is_customer u.id)
  pure (member_out u books row.created_at)

unfoldable pub add_member :
    (String → String) → User → ℕ → String → VenueScope → Instant → Action MemberOut
add_member lower caller id email scope now = do
  g ← fillable caller id scope
  found ← ask (get_by_email lower email)
  u ← or_raise found group_not_found
  join_group caller g u now

-- The checks of `remove_member` on a caller who is not the owner.
unfoldable pub check_removal : User → UserGroup → ℕ → VenueAccess → ℕ → Action (Unit {0})
check_removal caller g user access venue = do
  theirs ← ask (is_master_at user venue)
  raise_if (not access.is_master && theirs) owner_only
  codes ← ask (codes_of g.id)
  when (user == caller.id && elem user_manage codes) (refuse_self_lockout caller g access)

unfoldable pub may_remove : User → UserGroup → ℕ → VenueAccess → Action (Unit {0})
may_remove caller g user access =
    if caller.system_admin
    then pure tt
    else do venue ← or_raise g.venue_id assertion_error; check_removal caller g user access venue

unfoldable pub remove_member : User → ℕ → ℕ → VenueAccess → Action (Unit {0})
remove_member caller id user access = do
  g ← fillable caller id access.scope
  may_remove caller g user access
  removed ← remove_member_row g.id user
  raise_if (not removed) group_not_found
  commit

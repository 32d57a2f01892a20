-- ===== src/Users/GroupRepository.antt =====
-- users/persistence/group_repository.py: the queries on groups, their members and their codes, and
-- the writes. A set of codes is a list.
use Prim.Native.String.{String}
use pikol_backend.Common.{
  ℕ, suc, Bool, true, false, not, ◌&&◌, ◌||◌, Option, none, some, List, [], ◌∷◌, ◌++◌, map, any,
  select, find?, count, ltb, ◌==◌, nat_eq, option_eq, string_eq, elem, sort_by, is_some,
  if◌then◌else◌,
}
use pikol_backend.Common.Dict.{Dict}
use pikol_backend.Time.{Instant}
use pikol_backend.Errors.{
  integrity_error, no_result, group_name_constraint, one_master_constraint, member_constraint,
}
use pikol_backend.Catalog.{VenueScope, in_scope}
use pikol_backend.Users.Domain.{
  GroupKind, customer, master, staff, kind_eq, master_group_name, front_desk_group_name,
  master_default_codes, front_desk_codes,
}
use pikol_backend.Users.Models.{UserGroup, GroupMember, GroupCode}
use pikol_backend.Database.{Accounts, Action, pure, gets, or_raise, raise_if, ◌>>=◌, ◌>>◌, modify}

-- A query, and a statement that writes, on the tables of identity.
abbrev pub ask : {A : Type 0} → (Accounts → A) → Action A
ask f = gets (λ t. f t.accounts)

abbrev pub write : (Accounts → Accounts) → Action (Unit {0})
write f = modify (λ t. record t { accounts = f t.accounts })

-- `scope.where(column)` at a column that may be NULL.
abbrev pub column_in_scope : VenueScope → Option ℕ → Bool
column_in_scope scope none = scope.all_venues
column_in_scope scope (some venue) = in_scope scope venue

-- The joins of `user_group_members` with `user_groups` on the group's key.
abbrev pub in_some_group : (UserGroup → Bool) → ℕ → Accounts → Bool
in_some_group p user a =
    any (λ m. m.user_id == user && any (λ g. g.id == m.group_id && p g) a.user_groups) a.members

-- `is_customer`
abbrev pub is_customer : ℕ → Accounts → Bool
is_customer = in_some_group (λ g. g.kind == customer)

-- `is_master_at`
abbrev pub is_master_at : ℕ → ℕ → Accounts → Bool
is_master_at user venue = in_some_group (λ g. g.kind == master && g.venue_id == some venue) user

-- `belongs_elsewhere`: a group without a venue is distinct from every venue's.
abbrev pub belongs_elsewhere : ℕ → ℕ → Accounts → Bool
belongs_elsewhere user venue = in_some_group (λ g. not (g.venue_id == some venue)) user

-- `is_member`
abbrev pub is_member : ℕ → ℕ → Accounts → Bool
is_member group user a = any (λ m. m.group_id == group && m.user_id == user) a.members

-- `get_scoped`
abbrev pub scoped_group : ℕ → VenueScope → Accounts → Option UserGroup
scoped_group id scope a = find? (λ g. g.id == id && column_in_scope scope g.venue_id) a.user_groups

-- `customer_group_id`
unfoldable pub customer_group_id : Action ℕ
customer_group_id = do
  found ← ask (λ a. find? (λ g. g.kind == customer) a.user_groups)
  g ← or_raise found no_result
  pure g.id

-- `venue_id` and `excluding_group` of `staff_codes`, `none` where they are not given.
abbrev pub at_venue : Option ℕ → UserGroup → Bool
at_venue none g = true
at_venue (some venue) g = g.venue_id == some venue

abbrev pub not_excluded : Option ℕ → UserGroup → Bool
not_excluded none g = true
not_excluded (some id) g = not (g.id == id)

-- The group is a staff group that counts, and the user is in it.
abbrev pub counts_for : ℕ → Option ℕ → Option ℕ → Accounts → UserGroup → Bool
counts_for user venue excluding a g =
    not (g.kind == customer)
    && at_venue venue g
    && not_excluded excluding g
    && is_member g.id user a

-- `staff_codes`
abbrev pub staff_codes : ℕ → Option ℕ → Option ℕ → Accounts → List String
staff_codes user venue excluding a =
    map (λ c. c.code)
      (select
        (λ c. any (λ g. g.id == c.group_id && counts_for user venue excluding a g) a.user_groups)
        a.group_codes)

-- `ORDER BY venue_id, id`, NULL venues first.
abbrev venue_before : Option ℕ → Option ℕ → Bool
venue_before none none = false
venue_before none (some w) = true
venue_before (some v) none = false
venue_before (some v) (some w) = ltb v w

abbrev pub group_before : UserGroup → UserGroup → Bool
group_before g h = venue_before g.venue_id h.venue_id || g.venue_id == h.venue_id && ltb g.id h.id

abbrev pub Membership : Type 0
Membership = ℕ × GroupKind × String

-- `if venue_id is not None`
abbrev pub with_venue : List UserGroup → List Membership
with_venue [] = []
with_venue (g ∷ gs) = elim g.venue_id [
  | none ↦ with_venue gs
  | some v ↦ (v, g.kind, g.name) ∷ with_venue gs
]

-- `staff_memberships`
abbrev pub staff_memberships : ℕ → Accounts → List Membership
staff_memberships user a = with_venue (
    sort_by group_before
      (select (λ g. is_member g.id user a && not (g.kind == customer)) a.user_groups))

-- One entry of `member_counts`, and of `codes_by_group`.
abbrev pub member_count : ℕ → Accounts → ℕ
member_count id a = count (λ m. m.group_id == id) a.members

abbrev pub codes_of : ℕ → Accounts → List String
codes_of id a = map (λ c. c.code) (select (λ c. c.group_id == id) a.group_codes)

abbrev pub member_counts : List ℕ → Accounts → Dict ℕ ℕ
member_counts ids a = map (λ id. (id, member_count id a)) ids

abbrev pub codes_by_group : List ℕ → Accounts → Dict ℕ (List String)
codes_by_group ids a = map (λ id. (id, codes_of id a)) ids

-- One entry of `groups_for`: what the caller may see of a user's groups.
abbrev pub groups_for : ℕ → VenueScope → Accounts → List UserGroup
groups_for user scope a = sort_by group_before (
    select (λ g. is_member g.id user a && (g.kind == customer || column_in_scope scope g.venue_id))
      a.user_groups)

abbrev pub code_row : ℕ → String → GroupCode
code_row id c = record { group_id = id; code = c }

-- `INSERT … FROM SELECT`: the codes that have a row in the table of permissions.
unfoldable pub insert_codes : ℕ → List String → Accounts → Accounts
insert_codes id codes a = record a {
  group_codes = a.group_codes ++ map (code_row id) (select (λ c. elem c codes) a.permissions);
}

-- `set_codes`
unfoldable pub set_codes : ℕ → List String → Accounts → Accounts
set_codes id codes a =
    insert_codes id codes
      (record a { group_codes = select (λ c. not (c.group_id == id)) a.group_codes })

-- `remove_member`, which says whether a row was deleted.
unfoldable pub remove_member_row : ℕ → ℕ → Action Bool
remove_member_row group user = do
  there ← ask (is_member group user)
  write (λ a. record a {
    members = select (λ m. not (m.group_id == group && m.user_id == user)) a.members;
  })
  pure there

-- `add_member`, under the primary key of the table.
unfoldable pub add_member_row : ℕ → ℕ → Option ℕ → Instant → Action GroupMember
add_member_row group user added_by now = do
  let row : GroupMember = record {
    group_id = group;
    user_id = user;
    added_by_user_id = added_by;
    created_at = now;
  }
  there ← ask (is_member group user)
  raise_if there (integrity_error member_constraint)
  write (λ a. record a { members = a.members ++ row ∷ [] })
  pure row

-- The unique indexes of `user_groups`: one name per venue in any case of letters, where `lower` is the
-- database's LOWER, and one master group per venue.
abbrev pub same_name : (String → String) → UserGroup → UserGroup → Bool
same_name lower g h =
    not (h.id == g.id)
    && is_some g.venue_id
    && h.venue_id == g.venue_id
    && lower h.name == lower g.name

abbrev pub same_master : UserGroup → UserGroup → Bool
same_master g h =
    not (h.id == g.id) && g.kind == master && h.kind == master && h.venue_id == g.venue_id

abbrev pub put_group : UserGroup → Accounts → Accounts
put_group g a = record a { user_groups = a.user_groups ++ g ∷ [] }

-- `UPDATE user_groups … WHERE id = …`
abbrev pub assign_group : ℕ → (UserGroup → UserGroup) → Accounts → Accounts
assign_group id f a = record a {
  user_groups = map (λ g. if g.id == id then f g else g) a.user_groups;
}

-- The flush of a new or changed group: `put` writes it.
unfoldable pub flush_user_group :
    (String → String) → UserGroup → (Accounts → Accounts) → Action (Unit {0})
flush_user_group lower g put = do
  named ← ask (λ a. any (same_name lower g) a.user_groups)
  raise_if named (integrity_error group_name_constraint)
  mastered ← ask (λ a. any (same_master g) a.user_groups)
  raise_if mastered (integrity_error one_master_constraint)
  write put

-- The next primary key.
unfoldable pub take_group_id : Action ℕ
take_group_id = do
  id ← ask (λ a. a.next_user_group_id)
  write (λ a. record a { next_user_group_id = suc a.next_user_group_id })
  pure id

-- One pass of the loop of `seed_venue_groups`.
unfoldable pub seed_group :
    (String → String) → ℕ → Option ℕ → GroupKind → String → List String → Action (Unit {0})
seed_group lower venue created_by kind name codes = do
  id ← take_group_id
  let g : UserGroup = record {
    id = id;
    kind = kind;
    venue_id = some venue;
    name = name;
    created_by_user_id = created_by;
    updated_by_user_id = created_by;
  }
  flush_user_group lower g (put_group g)
  write (insert_codes id codes)

-- `seed_venue_groups`
unfoldable pub seed_venue_groups : (String → String) → ℕ → Option ℕ → Action (Unit {0})
seed_venue_groups lower venue created_by = do
  seed_group lower venue created_by master master_group_name master_default_codes
  seed_group lower venue created_by staff front_desk_group_name front_desk_codes

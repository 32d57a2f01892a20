-- ===== src/Users/GroupService/Delegation.antt =====
-- `set_permissions` of users/group_service.py, run by a caller who is not the owner.
use Prim.Native.String.{String}
use pikol_backend.Common.{
  ℕ, ◌≡◌, refl, Bool, true, false, not, ◌&&◌, some, List, arith, ◌==◌, nat_eq, string_eq, eqb_iff,
  elem, inter, diff, is_empty, elem-append, elem-select, elem-empty, find?-sound, if◌then◌else◌,
  and-true_split,
}
use mathlib.Core.Path.{subst}
use pikol_backend.Catalog.{User, VenueScope}
use pikol_backend.Auth.Access.{VenueAccess}
use pikol_backend.Users.Domain.{user_manage}
use pikol_backend.Users.Models.{UserGroup}
use pikol_backend.Users.GroupRepository.{
  codes_of, column_in_scope, assign_group, set_codes, is_member, staff_codes,
}
use pikol_backend.Users.GroupService.{
  get_group, editable, merged_codes, refuse_self_lockout, delegated_codes, final_codes,
  set_permissions, touched_by,
}
use pikol_backend.Users.GroupService.Grants.{grants, elem-codes_of, grants-set_codes}
use pikol_backend.Database.{Accounts, Session, pure}
use pikol_backend.Database.Runs.{IsQuery, query_rules}
use pikol_backend.Database.Ends.{
  Ends, Ends-gets, Ends-query_that, Ends-raise_if, Ends-modify, Ends-commit, Ends-pure,
  Ends-or_raise, Ends-if, Ends-when, Ends-raise_if_last,
}

elem-merged :
    (c : String) (requested current held : List String)
    → elem c (merged_codes requested current held)
      ≡ (if elem c held then elem c requested else elem c current)
elem-merged c requested current held = ground (
  arith,
  elem-append c (inter requested held) (diff current held),
  elem-select c (λ x. elem x held) requested,
  elem-select c (λ x. not (elem x held)) current,
)

last_way : (mine others : Bool) → (mine && not others) ≡ false → mine ≡ true → others ≡ true
last_way mine others e m = ground arith

pub get_group-IsQuery : (id : ℕ) (scope : VenueScope) → IsQuery (get_group id scope)
unfolding get_group
get_group-IsQuery id scope = search query_rules

pub editable-IsQuery :
    (caller : User) (id : ℕ) (scope : VenueScope) → IsQuery (editable caller id scope)
unfolding editable
editable-IsQuery caller id scope = search (query_rules, get_group-IsQuery)

pub refuse-IsQuery :
    (caller : User) (g : UserGroup) (access : VenueAccess)
    → IsQuery (refuse_self_lockout caller g access)
unfolding refuse_self_lockout
refuse-IsQuery caller g access = search query_rules

delegated-IsQuery :
    (caller : User) (g : UserGroup) (requested current : List String) (access : VenueAccess)
    → IsQuery (delegated_codes caller g requested current access)
unfolding delegated_codes
delegated-IsQuery caller g requested current access = search (query_rules, refuse-IsQuery)

-- A group that the caller may see has the key that was asked for.
pub get_group-Ends :
    (id : ℕ) (scope : VenueScope) (s : Session)
    → Ends (λ g _. (g.id == id && column_in_scope scope g.venue_id) ≡ true) (get_group id scope) s
unfolding get_group
get_group-Ends id scope s =
    Ends-gets _ _ (Ends-or_raise _ _ _ (λ g e. find?-sound _ s.tables.accounts.user_groups g e))

pub editable-Ends :
    (caller : User) (id : ℕ) (scope : VenueScope) (s : Session)
    → Ends
        (λ g _. (g.id == id && column_in_scope scope g.venue_id) ≡ true)
        (editable caller id scope)
        s
unfolding editable
editable-Ends caller id scope s =
    Ends-query_that _ _ _ (get_group-IsQuery id scope) (get_group-Ends id scope s)
      (λ g e. Ends-raise_if _ _ _ (λ _. Ends-pure g e))

-- What a caller who is not the owner may leave a group with: the code stays as it is unless the
-- caller holds it, and then it is as requested.
abbrev pub delegated : List String → List String → Bool → String → Bool
delegated requested held before code = if elem code held then elem code requested else before

-- No code is requested that the group lacks and the caller lacks.
abbrev pub WithinHeld : List String → List String → List String → Type 0
WithinHeld requested current held =
    (c : String) → elem c requested ≡ true → elem c current ≡ false → elem c held ≡ true

within_held :
    (requested current held : List String)
    → is_empty (diff (diff requested current) held) ≡ true
    → WithinHeld requested current held
within_held requested current held e c r n = ground (
  arith,
  elem-empty c (diff (diff requested current) held) e,
  elem-select c (λ x. not (elem x held)) (diff requested current),
  elem-select c (λ x. not (elem x current)) requested,
)

-- What `_refuse_self_lockout` demands of a caller who is in the group.
abbrev pub KeepsOther : User → UserGroup → VenueAccess → Accounts → Type 0
KeepsOther caller g access a =
    is_member g.id caller.id a ≡ true
    → elem user_manage (staff_codes caller.id access.scope.venue_id (some g.id) a) ≡ true

pub refuse-Ends :
    (caller : User) (g : UserGroup) (access : VenueAccess) (s : Session)
    → Ends
        (λ _ _. KeepsOther caller g access s.tables.accounts)
        (refuse_self_lockout caller g access)
        s
unfolding refuse_self_lockout
refuse-Ends caller g access s =
    let mine = is_member g.id caller.id s.tables.accounts in
    let others =
      elem user_manage
        (staff_codes caller.id access.scope.venue_id (some g.id) s.tables.accounts) in
    Ends-gets _ _ (Ends-gets _ _ (Ends-raise_if_last _ _ (λ e. last_way mine others e)))

pub record DelegatedFinal (caller : User) (g : UserGroup) (requested current : List String)
    (access : VenueAccess) (a : Accounts) (final : List String) : Type 0 where
  pub merged : final ≡ merged_codes requested current access.permissions
  pub within : WithinHeld requested current access.permissions
  pub keeps : elem user_manage (diff current final) ≡ true → KeepsOther caller g access a

delegated_codes-Ends :
    (caller : User) (g : UserGroup) (requested current : List String) (access : VenueAccess)
    (s : Session)
    → Ends
        (λ final _. DelegatedFinal caller g requested current access s.tables.accounts final)
        (delegated_codes caller g requested current access)
        s
unfolding delegated_codes
delegated_codes-Ends caller g requested current access s =
    let removed =
      elem user_manage (diff current (merged_codes requested current access.permissions)) in
    Ends-raise_if _ _ _ (λ u.
      Ends-query_that (λ _. removed ≡ true → KeepsOther caller g access s.tables.accounts) _ _
        (search (query_rules, refuse-IsQuery)) (Ends-when removed _ (refuse-Ends caller g access s))
        (λ _ keeps. Ends-pure _ (record {
          merged = refl;
          within = within_held requested current access.permissions (ground (arith));
          keeps = keeps;
        })))

pub final_codes-IsQuery :
    (caller : User) (g : UserGroup) (requested current : List String) (access : VenueAccess)
    → IsQuery (final_codes caller g requested current access)
unfolding final_codes
final_codes-IsQuery caller g requested current access = search (query_rules, delegated-IsQuery)

pub final_codes-Ends :
    (caller : User) (g : UserGroup) (requested current : List String) (access : VenueAccess)
    (s : Session)
    → caller.system_admin ≡ false
    → Ends
        (λ final _. DelegatedFinal caller g requested current access s.tables.accounts final)
        (final_codes caller g requested current access)
        s
unfolding final_codes
final_codes-Ends caller g requested current access s h =
    Ends-if caller.system_admin (pure requested) _ (λ e. cc)
      (λ _. delegated_codes-Ends caller g requested current access s)

-- What a run of `set_permissions` on a group by such a caller shows.
pub record IsDelegated (group : ℕ) (requested held : List String) (a a' : Accounts) : Type 0 where
  pub within :
      (c : String) → elem c requested ≡ true → grants a group c ≡ false → elem c held ≡ true
  pub codes :
      (j : ℕ) (c : String)
      → grants a' j c ≡ (
          if j == group
          then delegated requested held (grants a group c) c && elem c a.permissions
          else grants a j c)

is_delegated :
    (group : ℕ) (requested held final : List String) (a a' : Accounts)
    → final ≡ merged_codes requested (codes_of group a) held
    → WithinHeld requested (codes_of group a) held
    → ((j : ℕ) (c : String)
        → grants a' j c
          ≡ (if j == group then elem c final && elem c a.permissions else grants a j c))
    → IsDelegated group requested held a a'
is_delegated group requested held final a a' e within codes = record {
  within = λ c r n. within c r (rw (elem-codes_of c group a) n);
  codes = λ j c. ground (
    arith,
    codes j c,
    elem-merged c requested (codes_of group a) held,
    elem-codes_of c group a,
    e,
  );
}

-- A caller who is not the owner, and for whom `set_permissions` returns, asked for no code that the
-- group lacked and that they do not hold themselves; and then the group has exactly the requested
-- ones of the codes that they hold and keeps exactly those of the others that it had, among the
-- codes of the table of permissions, while no other group has changed.
pub set_permissions_delegates :
    (caller : User) (id : ℕ) (requested : List String) (access : VenueAccess) (s : Session)
    → caller.system_admin ≡ false
    → Ends
        (λ g s'.
          IsDelegated id requested access.permissions s.tables.accounts s'.committed.accounts)
        (set_permissions caller id requested access)
        s
unfolding set_permissions
set_permissions_delegates caller id requested access s h =
    let a = s.tables.accounts in
    Ends-query_that _ _ _ (editable-IsQuery caller id access.scope)
      (editable-Ends caller id access.scope s)
      (λ g e. Ends-raise_if _ _ _ (λ _. Ends-raise_if _ _ _ (λ _. Ends-raise_if _ _ _ (λ _.
        Ends-gets _ _ (
          Ends-query_that _ _ _ (final_codes-IsQuery caller g requested (codes_of g.id a) access)
            (final_codes-Ends caller g requested (codes_of g.id a) access s h)
            (λ final f. Ends-modify _ _ (
              Ends-modify _ _ (
                Ends-commit _ (
                  Ends-pure _ (
                    subst
                      (λ i.
                        IsDelegated i requested access.permissions a
                          (assign_group g.id (touched_by caller) (set_codes g.id final a)))
                      ((eqb_iff g.id id).0 (and-true_split _ _ e).0)
                      (is_delegated g.id requested access.permissions final a _ f.merged f.within
                        (grants-set_codes g.id final a))))))))))))

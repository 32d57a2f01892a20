-- ===== src/Users/GroupService/Removal.antt =====
-- `remove_member` of users/group_service.py: who can still manage the venue's groups afterwards.

use pikol_backend.Common.{
  ℕ, ◌≡◌, refl, true, false, not, ◌&&◌, Option, none, some, List, [], ◌∷◌, any, select, arith, ◌==◌,
  nat_eq, option_eq, string_eq, elem, eqb_iff, Bool-cases, inl, inr, and-true_split,
}
use mathlib.Core.Path.{subst}
use pikol_backend.Catalog.{User, VenueScope}
use pikol_backend.Auth.Access.{VenueAccess}
use pikol_backend.Users.Domain.{user_manage, kind_eq}
use pikol_backend.Users.Models.{UserGroup, GroupMember}
use pikol_backend.Users.GroupRepository.{codes_of, is_member, staff_codes, remove_member_row}
use pikol_backend.Users.GroupService.{fillable, may_remove, check_removal, remove_member}
use pikol_backend.Users.GroupService.Grants.{grants, elem-codes_of}
use pikol_backend.Users.GroupService.Codes.{counted, Holds, staff_codes_iff}
use pikol_backend.Users.GroupService.Lockout.{Manages, excluded_counted, counted_member}
use pikol_backend.Users.GroupService.Delegation.{
  KeepsOther, get_group-IsQuery, refuse-IsQuery, refuse-Ends,
}
use pikol_backend.Database.{Accounts, Session, pure}
use pikol_backend.Database.Runs.{IsQuery, query_rules}
use pikol_backend.Database.Ends.{
  Ends, Ends-gets, Ends-query, Ends-query_that, Ends-raise_if, Ends-modify, Ends-commit_last,
  Ends-pure, Ends-bind, Ends-if, Ends-when,
}

-- The tables without that membership.
abbrev without : ℕ → ℕ → Accounts → Accounts
without group user a = record a {
  members = select (λ m. not (m.group_id == group && m.user_id == user)) a.members;
}

-- Every other membership stays.
member_stays :
    (group user j u : ℕ) (ms : List GroupMember)
    → (j == group && u == user) ≡ false
    → any
        (λ m. m.group_id == j && m.user_id == u)
        (select (λ m. not (m.group_id == group && m.user_id == user)) ms)
      ≡ any (λ m. m.group_id == j && m.user_id == u) ms
member_stays group user j u [] h = refl
member_stays group user j u (m ∷ ms) h = ground (
  arith,
  eqb_iff m.group_id j,
  eqb_iff m.user_id u,
  eqb_iff m.group_id group,
  eqb_iff m.user_id user,
  eqb_iff j group,
  eqb_iff u user,
  member_stays group user j u ms h,
)

module _ (group user : ℕ) (a : Accounts) (u : ℕ) (venue : Option ℕ) (j : ℕ) where
  counted_stays :
      (gs : List UserGroup)
      → (j == group && u == user) ≡ false
      → any (counted u venue none a j) gs ≡ true
      → any (counted u venue none (without group user a) j) gs ≡ true
  counted_stays [] h k = k
  counted_stays (g ∷ gs) h k = ground (
    arith,
    eqb_iff g.id j,
    counted_stays gs h,
    member_stays group user g.id u a.members,
    eqb_iff g.id group,
    eqb_iff j group,
  )

pub fillable-IsQuery :
    (caller : User) (id : ℕ) (scope : VenueScope) → IsQuery (fillable caller id scope)
unfolding fillable
fillable-IsQuery caller id scope = search (query_rules, get_group-IsQuery)

check_removal-IsQuery :
    (caller : User) (g : UserGroup) (user : ℕ) (access : VenueAccess) (venue : ℕ)
    → IsQuery (check_removal caller g user access venue)
unfolding check_removal
check_removal-IsQuery caller g user access venue = search (query_rules, refuse-IsQuery)

may_remove-IsQuery :
    (caller : User) (g : UserGroup) (user : ℕ) (access : VenueAccess)
    → IsQuery (may_remove caller g user access)
unfolding may_remove
may_remove-IsQuery caller g user access = search (query_rules, check_removal-IsQuery)

-- The caller removes themselves from a group that lets them manage groups.
abbrev LeavesManagers : User → UserGroup → ℕ → Accounts → Type 0
LeavesManagers caller g user a = (user == caller.id && elem user_manage (codes_of g.id a)) ≡ true

check_removal-Ends :
    (caller : User) (g : UserGroup) (user : ℕ) (access : VenueAccess) (venue : ℕ) (s : Session)
    → Ends
        (λ _ _.
          LeavesManagers caller g user s.tables.accounts
          → KeepsOther caller g access s.tables.accounts)
        (check_removal caller g user access venue)
        s
unfolding check_removal
check_removal-Ends caller g user access venue s =
    Ends-gets _ _
      (Ends-raise_if _ _ _ (λ _. Ends-gets _ _ (Ends-when _ _ (refuse-Ends caller g access s))))

may_remove-Ends :
    (caller : User) (g : UserGroup) (user : ℕ) (access : VenueAccess) (s : Session)
    → caller.system_admin ≡ false
    → Ends
        (λ _ _.
          LeavesManagers caller g user s.tables.accounts
          → KeepsOther caller g access s.tables.accounts)
        (may_remove caller g user access)
        s
unfolding may_remove
may_remove-Ends caller g user access s h =
    Ends-if caller.system_admin (pure tt) _ (λ e. cc)
      (λ _.
        Ends-query _ _ (search query_rules)
          (λ venue _. check_removal-Ends caller g user access venue s))

other_group :
    (caller : User) (g : UserGroup) (user venue : ℕ) (a : Accounts)
    → Holds caller.id (some venue) (some g.id) a user_manage
    → Holds caller.id (some venue) none (without g.id user a) user_manage
other_group caller g user venue a (j, h, k) =
    let (there, apart) = excluded_counted caller.id (some venue) a j g.id a.user_groups k in
    (j, h, counted_stays g.id user a caller.id (some venue) j a.user_groups (ground (arith)) there)

-- The caller's way to manage groups after the removal.
kept_member :
    (caller : User) (g : UserGroup) (user : ℕ) (access : VenueAccess) (venue : ℕ) (a : Accounts)
    → access.scope.venue_id ≡ some venue
    → (LeavesManagers caller g user a → KeepsOther caller g access a)
    → Holds caller.id (some venue) none a user_manage
    → Holds caller.id (some venue) none (without g.id user a) user_manage
kept_member caller g user access venue a at keeps (j, h, k) =
    elim (Bool-cases (j == g.id && caller.id == user)) [
      | inr e ↦ (j, h, counted_stays g.id user a caller.id (some venue) j a.user_groups e k)
      | inl e ↦
          let same = (eqb_iff j g.id).0 (and-true_split _ _ e).0 in
          let leaves : LeavesManagers caller g user a = ground (
            arith,
            elem-codes_of user_manage g.id a,
            eqb_iff user caller.id,
            eqb_iff caller.id user,
            subst (λ i. grants a i user_manage ≡ true) same h,
          ) in
          let mine =
            subst (λ i. is_member i caller.id a ≡ true) same
              (counted_member caller.id (some venue) a j a.user_groups k) in
          other_group caller g user venue a (
            (staff_codes_iff caller.id (some venue) (some g.id) a user_manage).0 (
              subst (λ v. elem user_manage (staff_codes caller.id v (some g.id) a) ≡ true) at
                (keeps leaves mine)))
    ]

-- When `remove_member` returns for a caller who is not the owner and could manage groups at the venue
-- of the access, they still can, whoever was removed.
pub remove_member_keeps_manager :
    (caller : User) (id user : ℕ) (access : VenueAccess) (venue : ℕ) (s : Session)
    → caller.system_admin ≡ false
    → access.scope.venue_id ≡ some venue
    → Manages caller.id venue s.tables.accounts
    → Ends
        (λ _ s'. Manages caller.id venue s'.committed.accounts)
        (remove_member caller id user access)
        s
unfolding remove_member remove_member_row
remove_member_keeps_manager caller id user access venue s h at m =
    let a = s.tables.accounts in
    Ends-query _ _ (fillable-IsQuery caller id access.scope) (λ g _.
      Ends-query_that _ _ _ (may_remove-IsQuery caller g user access)
        (may_remove-Ends caller g user access s h)
        (λ _ keeps. Ends-bind _ _ (
          Ends-gets _ _ (
            Ends-modify _ _ (
              Ends-pure _ (
                Ends-raise_if _ _ _ (λ _. Ends-commit_last (
                  (staff_codes_iff caller.id (some venue) none (without g.id user a) user_manage).1
                    (kept_member caller g user access venue a at keeps
                      ((staff_codes_iff caller.id (some venue) none a user_manage).0 m))))))))))

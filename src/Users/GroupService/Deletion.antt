-- ===== src/Users/GroupService/Deletion.antt =====
-- `delete` of users/group_service.py: whose access it touches.
use Prim.Native.String.{String}
use pikol_backend.Common.{
  ℕ, ◌≡◌, ◌↔◌, refl, true, false, not, ◌&&◌, Option, none, List, [], ◌∷◌, any, select, count, ltb,
  arith, ◌==◌, nat_eq, option_eq, string_eq, elem, eqb_iff, Bool-cases, inl, inr,
}
use mathlib.Core.Path.{subst}
use pikol_backend.Catalog.{User, VenueScope}
use pikol_backend.Users.Domain.{kind_eq}
use pikol_backend.Users.Models.{UserGroup, GroupMember, GroupCode}
use pikol_backend.Users.GroupRepository.{is_member, staff_codes, member_count}
use pikol_backend.Users.GroupService.{drop_group, delete_group}
use pikol_backend.Users.GroupService.Grants.{grants, is_grant}
use pikol_backend.Users.GroupService.Codes.{counted, joined, Holds, staff_codes_iff}
use pikol_backend.Users.GroupService.Lockout.{counted_member}
use pikol_backend.Users.GroupService.Delegation.{editable-IsQuery}
use pikol_backend.Database.{Accounts, Session}
use pikol_backend.Database.Ends.{
  Ends, Ends-gets, Ends-query, Ends-raise_if, Ends-modify, Ends-commit_last,
}

-- A group without members has none.
no_member :
    (id user : ℕ) (ms : List GroupMember)
    → ltb 0 (count (λ m. m.group_id == id) ms) ≡ false
    → any (λ m. m.group_id == id && m.user_id == user) ms ≡ false
no_member id user [] h = refl
no_member id user (m ∷ ms) h = ground (arith, no_member id user ms)

-- Deleting rows of another key leaves the others.
rows_stay :
    (id j : ℕ) (code : String) (rows : List GroupCode)
    → (j == id) ≡ false
    → any (is_grant j code) (select (λ c. not (c.group_id == id)) rows) ≡ any (is_grant j code) rows
rows_stay id j code [] h = refl
rows_stay id j code (c ∷ rows) h =
    ground
      (arith, eqb_iff c.group_id id, eqb_iff c.group_id j, eqb_iff j id, rows_stay id j code rows h)

members_stay :
    (id j user : ℕ) (ms : List GroupMember)
    → (j == id) ≡ false
    → any (λ m. m.group_id == j && m.user_id == user) (select (λ m. not (m.group_id == id)) ms)
      ≡ any (λ m. m.group_id == j && m.user_id == user) ms
members_stay id j user [] h = refl
members_stay id j user (m ∷ ms) h =
    ground (
      arith,
      eqb_iff m.group_id id,
      eqb_iff m.group_id j,
      eqb_iff j id,
      members_stay id j user ms h,
    )

module _ (id user : ℕ) (venue : Option ℕ) (a : Accounts) (j : ℕ) (apart : (j == id) ≡ false) where
  groups_stay :
      (gs : List UserGroup)
      → any (counted user venue none (drop_group id a) j) (select (λ g. not (g.id == id)) gs)
        ≡ any (counted user venue none a j) gs
  unfolding drop_group
  groups_stay [] = refl
  groups_stay (g ∷ gs) = ground (
    arith,
    eqb_iff g.id id,
    eqb_iff g.id j,
    eqb_iff j id,
    groups_stay gs,
    members_stay id g.id user a.members,
  )

  grants_stay : (code : String) → grants (drop_group id a) j code ≡ grants a j code
  unfolding drop_group
  grants_stay code = rows_stay id j code a.group_codes apart

  joined_stays : joined user venue none (drop_group id a) j ≡ joined user venue none a j
  unfolding drop_group
  joined_stays = groups_stay a.user_groups

-- The deleted group is not there any more.
group_gone :
    (id user : ℕ) (venue : Option ℕ) (b : Accounts) (j : ℕ) (gs : List UserGroup)
    → (j == id) ≡ true
    → any (counted user venue none b j) (select (λ g. not (g.id == id)) gs) ≡ false
group_gone id user venue b j [] e = refl
group_gone id user venue b j (g ∷ gs) e =
    ground (arith, eqb_iff g.id id, eqb_iff g.id j, eqb_iff j id, group_gone id user venue b j gs e)

joined_not_gone :
    (id user : ℕ) (venue : Option ℕ) (a : Accounts) (j : ℕ)
    → joined user venue none (drop_group id a) j ≡ true
    → (j == id) ≡ false
unfolding drop_group
joined_not_gone id user venue a j k =
    ground (arith, group_gone id user venue (drop_group id a) j a.user_groups)

joined_apart :
    (id user : ℕ) (venue : Option ℕ) (a : Accounts) (j : ℕ)
    → ltb 0 (member_count id a) ≡ false
    → joined user venue none a j ≡ true
    → (j == id) ≡ false
joined_apart id user venue a j empty k = elim (Bool-cases (j == id)) [
  | inr e ↦ e
  | inl e ↦
      let there =
        subst (λ i. is_member i user a ≡ true) ((eqb_iff j id).0 e)
          (counted_member user venue a j a.user_groups k) in
      ground (arith, no_member id user a.members empty, there)
]

drop_keeps_access :
    (id user : ℕ) (venue : Option ℕ) (a : Accounts) (code : String)
    → ltb 0 (member_count id a) ≡ false
    → Holds user venue none a code ↔ Holds user venue none (drop_group id a) code
drop_keeps_access id user venue a code empty = (
  λ (j, g, k).
      let apart = joined_apart id user venue a j empty k in
      (
        j,
        rw (grants_stay id user venue a j apart code) g,
        rw (joined_stays id user venue a j apart) k,
      ),
  λ (j, g, k).
      let apart = joined_not_gone id user venue a j k in
      (
        j,
        rw⁻¹ (grants_stay id user venue a j apart code) g,
        rw⁻¹ (joined_stays id user venue a j apart) k,
      ),
)

-- When `delete` returns, exactly the accounts that held a code through a staff group, at any one venue
-- or at all of them together, hold it still: nobody loses or gains access.
pub delete_keeps_access :
    (caller : User) (id : ℕ) (scope : VenueScope) (user : ℕ) (venue : Option ℕ) (code : String)
    (s : Session)
    → Ends
        (λ _ s'.
          (elem code (staff_codes user venue none s.tables.accounts) ≡ true)
          ↔ (elem code (staff_codes user venue none s'.committed.accounts) ≡ true))
        (delete_group caller id scope)
        s
unfolding delete_group
delete_keeps_access caller id scope user venue code s =
    let a = s.tables.accounts in
    Ends-query _ _ (editable-IsQuery caller id scope) (λ g _. Ends-raise_if _ _ _ (λ _.
      Ends-gets _ _ (
        Ends-raise_if _ _ _ (λ empty. Ends-modify _ _ (
          Ends-commit_last (
            let before = staff_codes_iff user venue none a code in
            let after = staff_codes_iff user venue none (drop_group g.id a) code in
            let kept = drop_keeps_access g.id user venue a code empty in
            (λ h. after.1 (kept.0 (before.0 h)), λ h. before.1 (kept.1 (after.0 h)))))))))

-- ===== src/Users/GroupService/Lockout.antt =====
-- `_refuse_self_lockout` of users/group_service.py: who can manage a venue's groups after a change of
-- codes or of members.
use Prim.Native.String.{String}
use pikol_backend.Common.{
  ℕ, ◌≡◌, refl, ◌∙◌, Bool, true, false, not, ◌||◌, Option, none, some, List, [], ◌∷◌, map, any,
  arith, ◌==◌, nat_eq, option_eq, string_eq, elem, diff, eqb_iff, Bool-cases, inl, inr, elem-select,
  if◌then◌else◌,
}
use mathlib.Core.Path.{subst}
use pikol_backend.Catalog.{User}
use pikol_backend.Auth.Access.{VenueAccess}
use pikol_backend.Users.Domain.{user_manage, kind_eq}
use pikol_backend.Users.Models.{UserGroup}
use pikol_backend.Users.GroupRepository.{
  codes_of, set_codes, insert_codes, assign_group, is_member, staff_codes, at_venue,
}
use pikol_backend.Users.GroupService.{touched_by, set_permissions}
use pikol_backend.Users.GroupService.Grants.{grants, elem-codes_of, grants-set_codes}
use pikol_backend.Users.GroupService.Codes.{counted, joined, Holds, staff_codes_iff}
use pikol_backend.Users.GroupService.Delegation.{
  DelegatedFinal, editable-IsQuery, editable-Ends, final_codes-IsQuery, final_codes-Ends,
}
use pikol_backend.Database.{Accounts, Session}
use pikol_backend.Database.Ends.{
  Ends, Ends-gets, Ends-query_that, Ends-raise_if, Ends-modify, Ends-commit, Ends-pure,
}

-- Can `user` manage groups at the venue?
abbrev pub Manages : ℕ → ℕ → Accounts → Type 0
Manages user venue a = elem user_manage (staff_codes user (some venue) none a) ≡ true

touched_at_venue :
    (venue : Option ℕ) (caller : User) (g : UserGroup)
    → at_venue venue (touched_by caller g) ≡ at_venue venue g
touched_at_venue none caller g = refl
touched_at_venue (some v) caller g = refl

module _ (user : ℕ) (venue : Option ℕ) (a : Accounts) (j : ℕ) where
  counts_a_member :
      (g : UserGroup) → counted user venue none a j g ≡ true → is_member g.id user a ≡ true
  counts_a_member g e = ground arith

  counted_key : (g : UserGroup) → counted user venue none a j g ≡ true → (g.id == j) ≡ true
  counted_key g e = ground arith

  pub counted_member :
      (gs : List UserGroup)
      → any (counted user venue none a j) gs ≡ true
      → is_member j user a ≡ true
  counted_member [] h = cc
  counted_member (g ∷ gs) h = elim (Bool-cases (counted user venue none a j g)) [
    | inl e ↦
        subst (λ i. is_member i user a ≡ true) ((eqb_iff g.id j).0 (counted_key g e))
          (counts_a_member g e)
    | inr e ↦ counted_member gs (ground (arith))
  ]

  pub excluded_counted :
      (id : ℕ) (gs : List UserGroup)
      → any (counted user venue (some id) a j) gs ≡ true
      → (any (counted user venue none a j) gs ≡ true) × ((j == id) ≡ false)
  excluded_counted id [] h = cc
  excluded_counted id (g ∷ gs) h =
      ground (arith, eqb_iff g.id j, eqb_iff g.id id, excluded_counted id gs)

  touched_counts :
      (caller : User) (b : Bool) (g : UserGroup)
      → counted user venue none a j (if b then touched_by caller g else g)
        ≡ counted user venue none a j g
  touched_counts caller true g = rw (touched_at_venue venue caller g) refl
  touched_counts caller false g = refl

  touched_counted :
      (caller : User) (id : ℕ) (gs : List UserGroup)
      → any
          (counted user venue none a j)
          (map (λ g. if g.id == id then touched_by caller g else g) gs)
        ≡ any (counted user venue none a j) gs
  touched_counted caller id [] = refl
  touched_counted caller id (g ∷ gs) =
      λ i. touched_counts caller (g.id == id) g i || touched_counted caller id gs i

-- The tables after `set_permissions` on the group with that key.
abbrev after_set : User → ℕ → List String → Accounts → Accounts
after_set caller id final a = assign_group id (touched_by caller) (set_codes id final a)

joined-after_set :
    (caller : User) (id : ℕ) (final : List String) (a : Accounts) (user : ℕ) (venue : Option ℕ)
    (j : ℕ)
    → joined user venue none (after_set caller id final a) j ≡ joined user venue none a j
unfolding set_codes insert_codes
joined-after_set caller id final a user venue j =
    touched_counted user venue a j caller id a.user_groups

-- Another group of the caller's grants it as before.
other_way :
    (caller : User) (id venue : ℕ) (final : List String) (a : Accounts)
    → Holds caller.id (some venue) (some id) a user_manage
    → Holds caller.id (some venue) none (after_set caller id final a) user_manage
other_way caller id venue final a (j, g, k) =
    let (there, apart) = excluded_counted caller.id (some venue) a j id a.user_groups k in
    (
      j,
      ground (arith, grants-set_codes id final a j user_manage),
      joined-after_set caller id final a caller.id (some venue) j ∙ there,
    )

-- The group itself, where it is left with the code.
same_way :
    (caller : User) (id venue : ℕ) (final : List String) (a : Accounts) (j : ℕ)
    → joined caller.id (some venue) none a j ≡ true
    → grants (after_set caller id final a) j user_manage ≡ true
    → Holds caller.id (some venue) none (after_set caller id final a) user_manage
same_way caller id venue final a j k g =
    (j, g, joined-after_set caller id final a caller.id (some venue) j ∙ k)

-- The code stays, or the caller's other groups were asked for.
kept_way :
    (caller : User) (g : UserGroup) (requested : List String) (access : VenueAccess) (venue : ℕ)
    (final : List String) (a : Accounts)
    → access.scope.venue_id ≡ some venue
    → elem user_manage a.permissions ≡ true
    → DelegatedFinal caller g requested (codes_of g.id a) access a final
    → Holds caller.id (some venue) none a user_manage
    → Holds caller.id (some venue) none (after_set caller g.id final a) user_manage
kept_way caller g requested access venue final a at p d (j, h, k) =
    elim (Bool-cases (grants (after_set caller g.id final a) j user_manage)) [
      | inl e ↦ same_way caller g.id venue final a j k e
      | inr e ↦
          let removed = elem-select user_manage (λ x. not (elem x final)) (codes_of g.id a) in
          let here : (j == g.id) ≡ true =
            ground (arith, grants-set_codes g.id final a j user_manage, e, h) in
          let same = (eqb_iff j g.id).0 here in
          let had : grants a g.id user_manage ≡ true =
            subst (λ i. grants a i user_manage ≡ true) same h in
          let gone : elem user_manage (diff (codes_of g.id a) final) ≡ true = ground (
            arith,
            removed,
            elem-codes_of user_manage g.id a,
            grants-set_codes g.id final a j user_manage,
          ) in
          let mine =
            subst (λ i. is_member i caller.id a ≡ true) same
              (counted_member caller.id (some venue) a j a.user_groups k) in
          other_way caller g.id venue final a (
            (staff_codes_iff caller.id (some venue) (some g.id) a user_manage).0 (
              subst (λ v. elem user_manage (staff_codes caller.id v (some g.id) a) ≡ true) at
                (d.keeps gone mine)))
    ]

-- When `set_permissions` returns for a caller who is not the owner and could manage groups at the
-- venue of the access, they still can, USER:Manage being in the table of permissions.
pub set_permissions_keeps_manager :
    (caller : User) (id : ℕ) (requested : List String) (access : VenueAccess) (venue : ℕ)
    (s : Session)
    → caller.system_admin ≡ false
    → access.scope.venue_id ≡ some venue
    → elem user_manage s.tables.accounts.permissions ≡ true
    → Manages caller.id venue s.tables.accounts
    → Ends
        (λ g s'. Manages caller.id venue s'.committed.accounts)
        (set_permissions caller id requested access)
        s
unfolding set_permissions
set_permissions_keeps_manager caller id requested access venue s h at p m =
    let a = s.tables.accounts in
    Ends-query_that _ _ _ (editable-IsQuery caller id access.scope)
      (editable-Ends caller id access.scope s)
      (λ g e. Ends-raise_if _ _ _ (λ _. Ends-raise_if _ _ _ (λ _. Ends-raise_if _ _ _ (λ _.
        Ends-gets _ _ (
          Ends-query_that _ _ _ (final_codes-IsQuery caller g requested (codes_of g.id a) access)
            (final_codes-Ends caller g requested (codes_of g.id a) access s h)
            (λ final f. Ends-modify _ _ (
              Ends-modify _ _ (
                Ends-commit _ (
                  Ends-pure _ (
                    (staff_codes_iff caller.id (some venue) none (after_set caller g.id final a)
                        user_manage).1
                      (kept_way caller g requested access venue final a at p f
                        ((staff_codes_iff caller.id (some venue) none a user_manage).0 m))))))))))))

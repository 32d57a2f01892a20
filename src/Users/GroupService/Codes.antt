-- ===== src/Users/GroupService/Codes.antt =====
-- `staff_codes` of users/persistence/group_repository.py, read as a relation between users, groups
-- and codes.
use Prim.Native.String.{String}
use pikol_backend.Common.{
  ℕ, ◌≡◌, ◌↔◌, Bool, true, ◌&&◌, Option, List, [], ◌∷◌, map, any, select, arith, ◌==◌, nat_eq,
  option_eq, string_eq, elem, eqb_iff, Bool-cases, inl, inr, and-true_split, ap, ◌∙◌,
}
use pikol_backend.Users.Domain.{kind_eq}
use pikol_backend.Users.Models.{UserGroup, GroupCode}
use pikol_backend.Users.GroupRepository.{staff_codes, counts_for}
use pikol_backend.Users.GroupService.Grants.{grants, is_grant}
use pikol_backend.Database.{Accounts}

-- The group has that key and counts for the user.
abbrev pub counted : ℕ → Option ℕ → Option ℕ → Accounts → ℕ → UserGroup → Bool
counted user venue excluding a j g = g.id == j && counts_for user venue excluding a g

-- Some group with that key counts for the user.
abbrev pub joined : ℕ → Option ℕ → Option ℕ → Accounts → ℕ → Bool
joined user venue excluding a j = any (counted user venue excluding a j) a.user_groups

-- A group that counts for the user holds the code.
abbrev pub Holds : ℕ → Option ℕ → Option ℕ → Accounts → String → Type 0
Holds user venue excluding a code =
    (j : ℕ) × (grants a j code ≡ true) × (joined user venue excluding a j ≡ true)

module _ (counts : ℕ → Bool) (code : String) where
  rows_hold :
      (rows : List GroupCode)
      → elem code (map (λ c. c.code) (select (λ c. counts c.group_id) rows)) ≡ true
      → (j : ℕ) × (any (is_grant j code) rows ≡ true) × (counts j ≡ true)
  rows_hold [] h = cc
  rows_hold (c ∷ rows) h = elim (Bool-cases (counts c.group_id && c.code == code)) [
    | inl e ↦ (c.group_id, ground (arith, eqb_iff c.group_id c.group_id), ground (arith))
    | inr e ↦ let (j, g, k) = rows_hold rows (ground (arith)) in (j, ground (arith), k)
  ]

  held_rows :
      (j : ℕ) (rows : List GroupCode)
      → any (is_grant j code) rows ≡ true
      → counts j ≡ true
      → elem code (map (λ c. c.code) (select (λ c. counts c.group_id) rows)) ≡ true
  held_rows j [] h k = cc
  held_rows j (c ∷ rows) h k = elim (Bool-cases (is_grant j code c)) [
    | inl e ↦
        let same = (eqb_iff c.group_id j).0 (and-true_split _ _ e).0 in
        let counted_row = ap counts same ∙ k in rw counted_row (ground (arith))
    | inr e ↦ ground (arith, held_rows j rows)
  ]

-- `staff_codes` returns exactly the codes of the staff groups that the user is in, of the given venue
-- and without the excluded group.
pub staff_codes_iff :
    (user : ℕ) (venue excluding : Option ℕ) (a : Accounts) (code : String)
    → (elem code (staff_codes user venue excluding a) ≡ true) ↔ Holds user venue excluding a code
staff_codes_iff user venue excluding a code = (
  rows_hold (joined user venue excluding a) code a.group_codes,
  λ (j, g, k). held_rows (joined user venue excluding a) code j a.group_codes g k,
)

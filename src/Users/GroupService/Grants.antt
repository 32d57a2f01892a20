-- ===== src/Users/GroupService/Grants.antt =====
-- What `set_permissions` of users/group_service.py leaves in the table of group permissions.
use Prim.Native.String.{String}
use pikol_backend.Common.{
  ℕ, ◌≡◌, refl, Bool, not, ◌&&◌, ◌||◌, List, [], ◌∷◌, map, any, select, arith, ◌==◌, nat_eq,
  string_eq, elem, any-append, elem-select, if◌then◌else◌,
}
use pikol_backend.Users.Models.{GroupCode}
use pikol_backend.Users.GroupRepository.{codes_of, set_codes, insert_codes, code_row}
use pikol_backend.Database.{Accounts}

abbrev pub is_grant : ℕ → String → GroupCode → Bool
is_grant group code c = c.group_id == group && c.code == code

-- The group holds the code.
abbrev pub grants : Accounts → ℕ → String → Bool
grants a group code = any (is_grant group code) a.group_codes

codes_of_rows :
    (code : String) (id : ℕ) (rows : List GroupCode)
    → elem code (map (λ c. c.code) (select (λ c. c.group_id == id) rows))
      ≡ any (is_grant id code) rows
codes_of_rows code id [] = refl
codes_of_rows code id (c ∷ rows) = ground (arith, codes_of_rows code id rows)

pub elem-codes_of : (c : String) (id : ℕ) (a : Accounts) → elem c (codes_of id a) ≡ grants a id c
elem-codes_of c id a = codes_of_rows c id a.group_codes

-- The rows of another group stay, those of this one go.
deleted_rows :
    (id group : ℕ) (code : String) (rows : List GroupCode)
    → any (is_grant group code) (select (λ c. not (c.group_id == id)) rows)
      ≡ (not (group == id) && any (is_grant group code) rows)
deleted_rows id group code [] = ground arith
deleted_rows id group code (c ∷ rows) = ground (arith, deleted_rows id group code rows)

inserted_rows :
    (id group : ℕ) (code : String) (codes : List String)
    → any (is_grant group code) (map (code_row id) codes) ≡ (id == group && elem code codes)
inserted_rows id group code [] = ground arith
inserted_rows id group code (c ∷ codes) = ground (arith, inserted_rows id group code codes)

pub grants-insert_codes :
    (id : ℕ) (codes : List String) (a : Accounts) (group : ℕ) (code : String)
    → grants (insert_codes id codes a) group code
      ≡ (grants a group code || id == group && elem code codes && elem code a.permissions)
unfolding insert_codes
grants-insert_codes id codes a group code =
    let chosen = select (λ c. elem c codes) a.permissions in
    ground (
      arith,
      any-append (is_grant group code) a.group_codes (map (code_row id) chosen),
      inserted_rows id group code chosen,
      elem-select code (λ c. elem c codes) a.permissions,
    )

-- `set_codes` gives the group the codes that are in the table of permissions, and no other group
-- anything.
pub grants-set_codes :
    (id : ℕ) (codes : List String) (a : Accounts) (group : ℕ) (code : String)
    → grants (set_codes id codes a) group code
      ≡ (if group == id then elem code codes && elem code a.permissions else grants a group code)
unfolding set_codes
grants-set_codes id codes a group code = ground (
  arith,
  grants-insert_codes id codes
      (record a { group_codes = select (λ c. not (c.group_id == id)) a.group_codes }) group code,
  deleted_rows id group code a.group_codes,
)

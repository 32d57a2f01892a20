-- ===== src/Users/Domain.antt =====
-- users/domain/groups.py and users/domain/roles.py: the kinds of group and the permission codes.
use Prim.Native.String.{String}
use pikol_backend.Common.{ℕ, ◌≡◌, ◌↔◌, true, List, [], ◌∷◌, arith, Eq, eqb}

pub data GroupKind : Type 0 where
  customer master staff : GroupKind

abbrev pub kind_index : GroupKind → ℕ
kind_index customer = 0
kind_index master = 1
kind_index staff = 2

pub kind_index_iff : (a b : GroupKind) → (eqb (kind_index a) (kind_index b) ≡ true) ↔ (a ≡ b)
kind_index_iff a b = ground arith

instance abbrev pub kind_eq : Eq GroupKind
kind_eq = record { equals = λ a b. eqb (kind_index a) (kind_index b); equals_iff = kind_index_iff }

abbrev pub user_manage : String
user_manage = "USER:Manage"

abbrev pub master_group_name : String
master_group_name = "Venue master"

abbrev pub front_desk_group_name : String
front_desk_group_name = "Front desk"

-- `PERMISSIONS`
abbrev pub all_codes : List String
all_codes =
    "VENUE:Manage" ∷ "COURT:Manage" ∷ "PRICE:Manage" ∷ "CLOSURE:Manage" ∷ "BOOKING:ReadAny"
    ∷ "BOOKING:CreateWalkIn" ∷ "BOOKING:MarkPaid" ∷ "BOOKING:SetOutcome" ∷ "BOOKING:CancelAny"
    ∷ user_manage ∷ "PARAMETER:Manage" ∷ []

abbrev pub owner_only_codes : List String
owner_only_codes = "VENUE:Manage" ∷ "PARAMETER:Manage" ∷ []

abbrev pub booking_ops : List String
booking_ops =
    "BOOKING:ReadAny" ∷ "BOOKING:CreateWalkIn" ∷ "BOOKING:MarkPaid" ∷ "BOOKING:SetOutcome"
    ∷ "BOOKING:CancelAny" ∷ []

abbrev pub master_default_codes : List String
master_default_codes =
    "COURT:Manage" ∷ "PRICE:Manage" ∷ "CLOSURE:Manage" ∷ user_manage ∷ booking_ops

abbrev pub front_desk_codes : List String
front_desk_codes = "CLOSURE:Manage" ∷ booking_ops

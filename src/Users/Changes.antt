-- ===== src/Users/Changes.antt =====
-- The bodies that change an account (users/dto.py), and the loop over `model_dump(exclude_unset=True)`
-- of users/service.py.
use Prim.Native.String.{String}
use pikol_backend.Common.{
  ◌≡◌, refl, Bool, true, false, ◌||◌, Option, none, some, arith, Bool-cases, inl, inr, sym, ap, ◌∙◌,
}
use mathlib.Core.Path.{subst}
use pikol_backend.Errors.{Result, ok, err, integrity_error, not_null_constraint, ◌>>=◌}
use pikol_backend.Users.Models.{UserRow}

-- A field of a body that may be left out (`exclude_unset`), and may be null.
abbrev pub Given : Type 0 → Type 0
Given A = Option (Option A)

-- `setattr` of a column that is NOT NULL, which the next flush checks, and of one that is not.
abbrev pub set_column : {A : Type 0} → Given A → A → Result A
set_column none old = ok old
set_column (some none) old = err (integrity_error not_null_constraint)
set_column (some (some a)) old = ok a

abbrev pub set_nullable : {A : Type 0} → Given A → Option A → Option A
set_nullable none old = old
set_nullable (some a) old = a

-- `AdminUserUpdate`; a `ProfileUpdate` has no `is_active`.
pub record UserUpdate : Type 0 where
  pub first_name : Given String
  pub last_name : Given String
  pub mobile : Given String
  pub is_active : Given Bool

-- The loop of `setattr`.
unfoldable pub updated : UserUpdate → UserRow → Result UserRow
updated body u = do
  first ← set_column body.first_name u.first_name
  last ← set_column body.last_name u.last_name
  active ← set_column body.is_active u.is_active
  ok (record u {
    first_name = first;
    last_name = last;
    mobile = set_nullable body.mobile u.mobile;
    is_active = active;
  })

abbrev pub own_profile : UserUpdate → UserUpdate
own_profile body = record body { is_active = none }

-- The body sets a column to null that is NOT NULL.
abbrev pub is_null : {A : Type 0} → Given A → Bool
is_null (some none) = true
is_null _ = false

abbrev pub has_null : UserUpdate → Bool
has_null body = is_null body.first_name || is_null body.last_name || is_null body.is_active

module _ {A : Type 0} where
  set_column_null :
      (g : Given A) (old : A)
      → is_null g ≡ true
      → set_column g old ≡ err (integrity_error not_null_constraint)
  set_column_null none old h = cc
  set_column_null (some none) old h = refl
  set_column_null (some (some a)) old h = cc

  set_column_given :
      (g : Given A) (old : A) → is_null g ≡ false → (a : A) × (set_column g old ≡ ok a)
  set_column_given none old h = (old, refl)
  set_column_given (some none) old h = cc
  set_column_given (some (some a)) old h = (a, refl)

pub has_null_refused :
    (body : UserUpdate) (u : UserRow)
    → has_null body ≡ true
    → updated body u ≡ err (integrity_error not_null_constraint)
unfolding updated
has_null_refused body u h = elim (Bool-cases (is_null body.first_name)) [
  | inl e ↦ rw (set_column_null body.first_name u.first_name e) refl
  | inr e ↦
      let (first, e') = set_column_given body.first_name u.first_name e in
      rw e' (elim (Bool-cases (is_null body.last_name)) [
        | inl f ↦ rw (set_column_null body.last_name u.last_name f) refl
        | inr f ↦
            let (last, f') = set_column_given body.last_name u.last_name f in
            let null : is_null body.is_active ≡ true = ground arith in
            rw (f', set_column_null body.is_active u.is_active null) refl
      ])
]

-- The user of a body without nulls.
pub updated-given :
    (body : UserUpdate) (u : UserRow)
    → has_null body ≡ false
    → (v : UserRow) × (updated body u ≡ ok v)
      × (v.id ≡ u.id)
      × (set_column body.is_active u.is_active ≡ ok v.is_active)
unfolding updated
updated-given body u h =
    let (first, e) = set_column_given body.first_name u.first_name (ground (arith)) in
    let (last, f) = set_column_given body.last_name u.last_name (ground (arith)) in
    let (active, g) = set_column_given body.is_active u.is_active (ground (arith)) in
    (
      record u {
        first_name = first;
        last_name = last;
        mobile = set_nullable body.mobile u.mobile;
        is_active = active;
      },
      rw (e, f, g) refl,
      refl,
      g,
    )

same_row : {A : Type 0} (P : A → Type 0) (a b : A) → P a → ok a ≡ ok b → P b
same_row {A} P a b p h =
    subst (λ (r : Result A). elim r as (λ _. Type 0) [ ok x ↦ P x | err e ↦ Unit {0} ]) h p

-- An update that makes the account inactive.
pub updated_inactive :
    (body : UserUpdate) (u v : UserRow)
    → body.is_active ≡ some (some false)
    → updated body u ≡ ok v
    → (v.id ≡ u.id) × (v.is_active ≡ false)
updated_inactive body u v off h = elim (Bool-cases (has_null body)) [
  | inl e ↦
      let bad : ok v ≡ err (integrity_error not_null_constraint) =
        sym h ∙ has_null_refused body u e in
      cc
  | inr e ↦
      let (w, made, id, active) = updated-given body u e in
      let now_off : ok false ≡ ok w.is_active =
        sym (ap (λ g. set_column g u.is_active) off) ∙ active in
      let inactive : w.is_active ≡ false =
        same_row (λ b. b ≡ false) false w.is_active refl now_off in
      same_row (λ x. (x.id ≡ u.id) × (x.is_active ≡ false)) w v (id, inactive) (sym made ∙ h)
]

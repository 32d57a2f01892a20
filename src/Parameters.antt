-- ===== src/Parameters.antt =====
-- parameters/service.py and parameters/admin.py: the cache of the business rules in one process, and
-- the change of one of them. Pydantic's `model_validate` is the argument `validate`.
pub mod Effect
use Prim.Native.String.{String}
use pikol_backend.Common.{
  ℕ, ◌-◌, ◌*◌, Bool, true, false, Option, none, some, List, [], ◌∷◌, map, find?, ltb, ◌==◌,
  string_eq, if◌then◌else◌,
}
use pikol_backend.Common.Dict.{Dict, insert as dict_insert}
use pikol_backend.Errors.{Result, ok, err, app_error, value_error, not_found, invalid_parameter}
use pikol_backend.Time.{Instant, second}
use pikol_backend.Catalog.{Parameters, User}

pub record ParameterRow : Type 0 where
  pub key : String
  pub value : String
  pub updated_at : Instant
  pub updated_by_user_id : Option ℕ

-- `load_all`; `key` is the primary key.
abbrev pub load_all : List ParameterRow → Dict String String
load_all rows = map (λ r. (r.key, r.value)) rows

abbrev pub Validate : Type 0
Validate = Dict String String → Option Parameters

-- The state of `ParameterService`; `loaded_at` is a reading of the monotonic clock.
pub record Cache : Type 0 where
  pub cached : Option Parameters
  pub loaded_at : ℕ

-- `DEFAULT_TTL_SECONDS`
abbrev pub ttl : ℕ
ttl = 30 * second

-- The cached values, if they may be used.
unfoldable pub usable : ℕ → Cache → Option Parameters
usable now c = elim c.cached [
  | none ↦ none
  | some p ↦ if ltb (now - c.loaded_at) ttl then some p else none
]

unfoldable pub reload : Validate → ℕ → List ParameterRow → Cache → Result Parameters × Cache
reload validate now rows c = elim (validate (load_all rows)) [
  | none ↦ (err value_error, c)
  | some p ↦ (ok p, record { cached = some p; loaded_at = now })
]

-- `get`
unfoldable pub get_parameters : Validate → ℕ → List ParameterRow → Cache → Result Parameters × Cache
get_parameters validate now rows c = elim (usable now c) [
  | some p ↦ (ok p, c)
  | none ↦ reload validate now rows c
]

abbrev pub invalidate : Cache → Cache
invalidate c = record c { cached = none }

-- The row of the key with its new value.
abbrev pub set_value :
    String → (ParameterRow → ParameterRow) → List ParameterRow → List ParameterRow
set_value key f [] = []
set_value key f (r ∷ rows) = if r.key == key then f r ∷ rows else r ∷ set_value key f rows

abbrev pub changed : User → String → Instant → ParameterRow → ParameterRow
changed caller value now r = record r {
  value = value;
  updated_at = now;
  updated_by_user_id = some caller.id;
}

-- `update`: the rows that are committed, after which the cache is invalidated. The whole table is
-- validated with the new value.
unfoldable pub update_parameter :
    Validate
    → User
    → String
    → String
    → Instant
    → List ParameterRow
    → Cache
    → Result (List ParameterRow) × Cache
update_parameter validate caller key value now rows c = elim (find? (λ r. r.key == key) rows) [
  | none ↦ (err (app_error 404 not_found), c)
  | some row ↦ elim (validate (dict_insert key value (load_all rows))) [
    | none ↦ (err (app_error 422 invalid_parameter), c)
    | some _ ↦ (ok (set_value key (changed caller value now) rows), invalidate c)
  ]
]

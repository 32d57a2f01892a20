-- ===== src/Examples/Parameters.antt =====
-- A change of the length of a hold (parameters/admin.py), in a table of one parameter.
use Prim.Native.String.{String}
use pikol_backend.Common.{
  ℕ, ◌+◌, ◌≡◌, refl, Option, none, some, [], ◌∷◌, arith, ◌==◌, string_eq, if◌then◌else◌,
}
use pikol_backend.Common.Dict.{lookup}
use pikol_backend.Errors.{ok}
use pikol_backend.Catalog.{Parameters}
use pikol_backend.Parameters.{
  ParameterRow, Cache, Validate, load_all, ttl, get_parameters, update_parameter,
}
use pikol_backend.Parameters.Effect.{update_takes_effect}
use pikol_backend.Examples.Data.{sample_parameters, staff_member, noon}

abbrev hold_length : String → Option Parameters
hold_length text =
    if text == "20"
    then some (record sample_parameters { hold_duration_minutes = 20 })
    else if text == "15"
    then some sample_parameters
    else none

abbrev only_the_hold : Validate
only_the_hold d = elim (lookup "hold_duration_minutes" d) [ none ↦ none | some v ↦ hold_length v ]

abbrev row : String → ParameterRow
row value = record {
  key = "hold_duration_minutes";
  value = value;
  updated_at = noon;
  updated_by_user_id = some 8;
}

abbrev loaded : ℕ → Cache
loaded at = record { cached = some sample_parameters; loaded_at = at }

abbrev emptied : Cache
emptied = record { cached = none; loaded_at = 5 }

longer_hold :
    update_parameter only_the_hold staff_member "hold_duration_minutes" "20" noon
      (row "15" ∷ [])
      (loaded 5)
    ≡ (ok (row "20" ∷ []), emptied)
unfolding update_parameter
longer_hold = refl

update_takes_effect_example :
    (p : Parameters) × (only_the_hold (load_all (row "20" ∷ [])) ≡ some p)
    × ((get_parameters only_the_hold 6 (row "20" ∷ []) emptied).0 ≡ ok p)
    × ((get_parameters only_the_hold (7 + ttl) (row "20" ∷ []) (loaded 7)).0 ≡ ok p)
update_takes_effect_example =
    update_takes_effect only_the_hold staff_member "hold_duration_minutes" "20" noon 6 (7 + ttl)
      (row "15" ∷ []) (row "20" ∷ []) (loaded 5) emptied (loaded 7) longer_hold (omega arith)

-- ===== src/Parameters/Effect.antt =====
-- When a change of a parameter takes effect (parameters/service.py, parameters/admin.py).
use Prim.Native.String.{String}
use pikol_backend.Common.{
  ℕ, ◌+◌, ◌-◌, ◌≤◌, ◌≡◌, refl, sym, ap, true, false, none, some, List, [], ◌∷◌, find?, ltb, ◌==◌,
  string_eq, arith, Bool-cases, Option-cases, inl, inr, any, find?-any,
}
use mathlib.Core.Path.{subst}
use pikol_backend.Common.Dict.{insert as dict_insert}
use pikol_backend.Errors.{Result, ok, err, app_error, not_found, invalid_parameter}
use pikol_backend.Time.{Instant}
use pikol_backend.Catalog.{Parameters, User}
use pikol_backend.Parameters.{
  ParameterRow, Cache, Validate, load_all, ttl, usable, reload, get_parameters, invalidate,
  set_value, changed, update_parameter,
}

load-set_value :
    (caller : User) (key value : String) (now : Instant) (rows : List ParameterRow)
    → any (λ r. r.key == key) rows ≡ true
    → load_all (set_value key (changed caller value now) rows)
      ≡ dict_insert key value (load_all rows)
load-set_value caller key value now [] h = cc
load-set_value caller key value now (r ∷ rows) h = elim (Bool-cases (r.key == key)) [
  | inl e ↦ rw e refl
  | inr e ↦
      let later : any (λ x. x.key == key) rows ≡ true = rw e at h in
      rw e (ap (λ d. (r.key, r.value) ∷ d) (load-set_value caller key value now rows later))
]

-- A read that may not use the cache gives the values of the table.
fresh_read :
    (validate : Validate) (now : ℕ) (rows : List ParameterRow) (c : Cache) (p : Parameters)
    → usable now c ≡ none
    → validate (load_all rows) ≡ some p
    → (get_parameters validate now rows c).0 ≡ ok p
unfolding get_parameters reload
fresh_read validate now rows c p old valid = rw (get_parameters, old, reload, valid) refl

too_old : (now : ℕ) (c : Cache) → c.loaded_at + ttl ≤ now → usable now c ≡ none
unfolding usable
too_old now c late = elim (Option-cases c.cached) [
  | inl e ↦ rw (usable, e) refl
  | inr (p, e) ↦
      let no : ltb (now - c.loaded_at) ttl ≡ false = ground (arith, late) in rw (usable, e, no) refl
]

dropped : (now : ℕ) (c : Cache) → usable now (invalidate c) ≡ none
unfolding usable
dropped now c = refl

update_parameter-ok :
    (validate : Validate) (caller : User) (key value : String) (now : Instant)
    (rows rows' : List ParameterRow) (c c' : Cache)
    → update_parameter validate caller key value now rows c ≡ (ok rows', c')
    → (p : Parameters) × (validate (load_all rows') ≡ some p) × (c' ≡ invalidate c)
unfolding update_parameter
update_parameter-ok validate caller key value now rows rows' c c' h =
    elim (Option-cases (find? (λ r. r.key == key) rows)) [
      | inl e ↦
          let bad : ◌≡◌ {A = Result (List ParameterRow) × Cache} (err (app_error 404 not_found), c)
              (ok rows', c') =
            rw (update_parameter, e) at h in
          cc
      | inr (row, e) ↦ elim (Option-cases (validate (dict_insert key value (load_all rows)))) [
        | inl e' ↦
            let bad : ◌≡◌ {A = Result (List ParameterRow) × Cache}
                (err (app_error 422 invalid_parameter), c) (ok rows', c') =
              rw (update_parameter, e, e') at h in
            cc
        | inr (p, e') ↦
            let done : ◌≡◌ {A = Result (List ParameterRow) × Cache}
                (ok (set_value key (changed caller value now) rows), invalidate c) (ok rows', c') =
              rw (update_parameter, e, e') at h in
            let same : set_value key (changed caller value now) rows ≡ rows' =
              ap
                (λ (x : Result (List ParameterRow) × Cache). elim x.0 as (λ _. List ParameterRow) [
                  | ok y ↦ y
                  | err z ↦ rows
                ])
                done in
            (
              p,
              subst (λ x. validate (load_all x) ≡ some p) same
                  (subst (λ d. validate d ≡ some p)
                    (sym (load-set_value caller key value now rows (find?-any _ rows row e))) e'),
              sym (λ i. (done i).1),
            )
      ]
    ]

-- When the change of a parameter returns, the table that it leaves is valid; a read at any time in
-- this process gives that table's parameters, while it stands; and so does a read in another process
-- that comes at least 30 seconds after that one loaded its values.
pub update_takes_effect :
    (validate : Validate) (caller : User) (key value : String) (now : Instant) (soon later : ℕ)
    (rows rows' : List ParameterRow) (c c' other : Cache)
    → update_parameter validate caller key value now rows c ≡ (ok rows', c')
    → other.loaded_at + ttl ≤ later
    → (p : Parameters) × (validate (load_all rows') ≡ some p)
      × ((get_parameters validate soon rows' c').0 ≡ ok p)
      × ((get_parameters validate later rows' other).0 ≡ ok p)
update_takes_effect validate caller key value now soon later rows rows' c c' other h late =
    let (p, valid, dropped_cache) =
      update_parameter-ok validate caller key value now rows rows' c c' h in
    (
      p,
      valid,
      fresh_read validate soon rows' c' p
          (subst (λ x. usable soon x ≡ none) (sym dropped_cache) (dropped soon c)) valid,
      fresh_read validate later rows' other p (too_old later other late) valid,
    )

-- ===== src/Program/Staff/Admission.antt =====
-- Who gets past the dependencies of a staff endpoint (auth/access.py).
use Prim.Native.String.{String}
use pikol_backend.Common.{
  ℕ, ◌≡◌, refl, ◌∙◌, true, Option, none, some, List, Option-cases, ◌⊎◌, inl, inr, Bool-cases, elem,
  string_eq,
}
use pikol_backend.Errors.{Error, err}
use pikol_backend.Time.{Instant}
use pikol_backend.Catalog.{User}
use pikol_backend.Users.Models.{UserRow}
use pikol_backend.Auth.Security.{Crypto}
use pikol_backend.Auth.Access.{
  VenueAccess, get_current_user, get_venue_access, active_venue, staff_access, require_permission,
  forbidden_error, the_only,
}
use pikol_backend.Program.Staff.{StaffRequest, required_code, handle, caller_of, staff_request}
use pikol_backend.Database.{Action, Session, ◌>>=◌, ◌>>◌}
use pikol_backend.Database.Runs.{
  Returns, query_split, IsQuery, IsQuery-bind, query_rules, IsQuery-if,
}

get_current_user-IsQuery :
    (c : Crypto) (token : Option String) (now : Instant) → IsQuery (get_current_user c token now)
unfolding get_current_user
get_current_user-IsQuery c token now = IsQuery-bind _ _ (search query_rules) (λ t.
    IsQuery-bind _ _ (search query_rules)
      (λ claims. IsQuery-bind _ _ (search query_rules) (λ found. search query_rules)))

pub active_venue-IsQuery :
    (header : Option ℕ) (venues : List ℕ) → IsQuery (active_venue header venues)
unfolding active_venue
active_venue-IsQuery (some v) venues = search query_rules
active_venue-IsQuery none venues = elim (Option-cases (the_only venues)) [
  | inl e ↦ rw (active_venue, e) (search query_rules)
  | inr (v, e) ↦ rw (active_venue, e) (search query_rules)
]

get_venue_access-IsQuery :
    (header : Option ℕ) (caller : User) → IsQuery (get_venue_access header caller)
unfolding get_venue_access staff_access
get_venue_access-IsQuery header caller = IsQuery-if caller.system_admin _ _ (search query_rules) (
    IsQuery-bind _ _ (search query_rules)
      (λ ms. IsQuery-bind _ _ (active_venue-IsQuery header _) (λ v. search query_rules)))

-- The caller is the account of the token, and holds the code at the venue where they act.
abbrev pub IsAdmitted :
    Crypto → Instant → Option String → Option ℕ → String → Session → UserRow → VenueAccess → Type 0
IsAdmitted c now token header code s u access =
    Returns (get_current_user c token now) s u s
    × Returns (get_venue_access header (caller_of u)) s access s
    × (elem code access.permissions ≡ true)

module _ (c : Crypto) (now : Instant) (token : Option String) (header : Option ℕ) (r : StaffRequest)
    (s : Session) where
  abbrev permitted : UserRow → VenueAccess → Action (Unit {0})
  permitted u access =
      require_permission (required_code r) access >> handle c now (caller_of u) access r

  permission_split :
      (u : UserRow) (access : VenueAccess)
      → ((elem (required_code r) access.permissions ≡ true)
          × (permitted u access s ≡ handle c now (caller_of u) access r s))
        ⊎ ((e : Error) × (permitted u access s ≡ (err e, s)))
  unfolding require_permission ◌>>=◌
  permission_split u access = elim (Bool-cases (elem (required_code r) access.permissions)) [
    | inl held ↦ inl (held, rw held refl)
    | inr lacking ↦ inr (forbidden_error, rw lacking refl)
  ]

  access_split :
      (u : UserRow)
      → ((access : VenueAccess) × Returns (get_venue_access header (caller_of u)) s access s
          × (elem (required_code r) access.permissions ≡ true)
          × ((get_venue_access header (caller_of u) >>= permitted u) s
              ≡ handle c now (caller_of u) access r s))
        ⊎ ((e : Error) × ((get_venue_access header (caller_of u) >>= permitted u) s ≡ (err e, s)))
  access_split u =
      elim (query_split (get_venue_access header (caller_of u)) (permitted u) s
        (get_venue_access-IsQuery header (caller_of u))) [
          | inr (e, h) ↦ inr (e, h)
          | inl (access, got, rest) ↦ elim (permission_split u access) [
            | inl (held, runs) ↦ inl (access, got, held, rest ∙ runs)
            | inr (e, h) ↦ inr (e, rest ∙ h)
          ]
        ]

-- A request to an endpoint of staff is refused and changes nothing, or it comes from a live account
-- whose codes where they act include the one that the endpoint asks for, and is that endpoint's
-- operation, run for that caller and access on the tables as they are.
pub staff_request-IsAdmitted :
    (c : Crypto) (now : Instant) (token : Option String) (header : Option ℕ) (r : StaffRequest)
    (s : Session)
    → ((u : UserRow) × (access : VenueAccess) × IsAdmitted c now token header
          (required_code r)
          s
          u
          access
        × (staff_request c now token header r s ≡ handle c now (caller_of u) access r s))
      ⊎ ((e : Error) × (staff_request c now token header r s ≡ (err e, s)))
unfolding staff_request
staff_request-IsAdmitted c now token header r s =
    elim (query_split (get_current_user c token now)
      (λ u. get_venue_access header (caller_of u) >>= permitted c now token header r s u) s
      (get_current_user-IsQuery c token now)) [
        | inr (e, h) ↦ inr (e, h)
        | inl (u, known, rest) ↦ elim (access_split c now token header r s u) [
          | inr (e, h) ↦ inr (e, rest ∙ h)
          | inl (access, got, held, runs) ↦ inl (u, access, (known, got, held), rest ∙ runs)
        ]
      ]

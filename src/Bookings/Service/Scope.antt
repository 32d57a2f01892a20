-- ===== src/Bookings/Service/Scope.antt =====
-- Bookings outside the caller's venues (`get_scoped` in bookings/service.py).
use Prim.Native.String.{String}
use pikol_backend.Common.{
  ℕ, false, ◌≡◌, ◌≢◌, refl, sym, ap, ◌∙◌, Option, none, some, List, [], ◌∷◌, All, find?, ◌==◌,
  nat_eq, ◌&&◌, ◌⊎◌, Option-cases, Bool-cases, eqb_iff, inl, inr,
}
use mathlib.Core.Path.{subst}
use pikol_backend.Time.{Instant}
use pikol_backend.Errors.{err}
use pikol_backend.Catalog.{Court, User, VenueScope, in_scope}
use pikol_backend.Bookings.Enums.{PaymentMethod}
use pikol_backend.Bookings.Models.{BookingGroup}
use pikol_backend.Bookings.Service.{
  not_found_error, get_scoped, cancel_by_staff, reopen, mark_paid, Outcome, set_outcome, resolve,
}
use pikol_backend.Database.{Session, ◌>>=◌}

-- Every court with this key is at another venue than the scope's.
abbrev pub IsElsewhere : ℕ → VenueScope → List Court → Type 0
IsElsewhere court scope courts =
    (scope.all_venues ≡ false)
    × All (λ c. (c.id ≢ court) ⊎ (scope.venue_id ≢ some c.venue_id)) courts

-- There is no such booking, or it is one of another venue.
abbrev pub IsForeign : Option BookingGroup → VenueScope → List Court → Type 0
IsForeign none scope courts = Unit {0}
IsForeign (some g) scope courts = IsElsewhere g.court_id scope courts

other_venue :
    (scope : VenueScope) (venue : ℕ)
    → scope.all_venues ≡ false
    → scope.venue_id ≢ some venue
    → in_scope scope venue ≡ false
other_venue scope venue some_only apart =
    rw (in_scope, some_only)
      (elim (Option-cases scope.venue_id) [
        | inl e ↦ rw e refl
        | inr (v, e) ↦ elim (Bool-cases (venue == v)) [
          | inl q ↦ absurd (apart (e ∙ ap some (sym ((eqb_iff venue v).0 q))))
          | inr q ↦ rw (e, q) refl
        ]
      ])

no_court :
    (court : ℕ) (scope : VenueScope) (courts : List Court)
    → IsElsewhere court scope courts
    → find? (λ c. c.id == court && in_scope scope c.venue_id) courts ≡ none
no_court court scope [] (some_only, all) = refl
no_court court scope (c ∷ courts) (some_only, (apart, all)) =
    let later = no_court court scope courts (some_only, all) in
    elim (Bool-cases (c.id == court)) [
      | inr q ↦ rw q later
      | inl q ↦ elim apart [
        | inl other ↦ absurd (other ((eqb_iff c.id court).0 q))
        | inr other ↦ rw (q, other_venue scope c.venue_id some_only other) later
      ]
    ]

get_scoped_hidden :
    (id : ℕ) (scope : VenueScope) (s : Session)
    → IsForeign (s.tables.booking_groups id) scope s.tables.courts
    → get_scoped id scope s ≡ (err not_found_error, s)
unfolding get_scoped ◌>>=◌
get_scoped_hidden id scope s h = elim (Option-cases (s.tables.booking_groups id)) [
  | inl e ↦ rw e refl
  | inr (g, e) ↦
      let elsewhere = subst (λ o. IsForeign o scope s.tables.courts) e h in
      rw (e, no_court g.court_id scope s.tables.courts elsewhere) refl
]

-- For a booking that is missing, or whose court is missing or is one of another venue than the caller's,
-- every operation of staff on it answers the same 404, and changes nothing.
pub staff_hidden :
    (staff : User) (id : ℕ) (reason : String) (method : PaymentMethod) (outcome : Outcome)
    (scope : VenueScope) (now : Instant) (s : Session)
    → IsForeign (s.tables.booking_groups id) scope s.tables.courts
    → (cancel_by_staff staff id reason scope now s ≡ (err not_found_error, s))
      × (reopen staff id reason scope now s ≡ (err not_found_error, s))
      × (mark_paid staff id method scope now s ≡ (err not_found_error, s))
      × (set_outcome staff id outcome scope now s ≡ (err not_found_error, s))
      × (resolve staff id reason scope now s ≡ (err not_found_error, s))
unfolding cancel_by_staff reopen mark_paid set_outcome resolve ◌>>=◌
staff_hidden staff id reason method outcome scope now s h =
    rw (get_scoped_hidden id scope s h) (refl, refl, refl, refl, refl)

-- ===== src/Payments/Apply/Expire.antt =====
-- One pass of the loop that expires the holds of a late payment (`_expire` in payments/service.py).
use mathlib.Core.Path.{subst}
use pikol_backend.Common.{
  ℕ, ◌≡◌, ◌≢◌, refl, sym, ap, ◌∙◌, true, false, inl, inr, Option, some, is_some, map, count,
  count-map-le, ◌≤◌, All-of, arith, ◌==◌, nat_eq, eqb_iff, Bool-cases, if◌then◌else◌,
}
use pikol_backend.Time.{Instant}
use pikol_backend.Errors.{Result, ok}
use pikol_backend.Events.Service.{record_group, insert_event}
use pikol_backend.Bookings.Enums as BookingEnums
use pikol_backend.Bookings.Enums.{status_eq}
use pikol_backend.Bookings.Models.{BookingGroup, GroupUpdate, no_fields}
use pikol_backend.Bookings.Repository.{set_status, group_by_id, with_status, slot_with_status}
use pikol_backend.Bookings.Integrity.{IsConsistent, occupies}
use pikol_backend.Bookings.Integrity.Status.{set_status_accepted}
use pikol_backend.Payments.Enums.{outcome_eq}
use pikol_backend.Payments.Stable.{consistent_stable}
use pikol_backend.Payments.Apply.{expire_group, expire_pending}
use pikol_backend.Payments.Apply.Confirm.{set_status_groups}
use pikol_backend.Database.{Session, Tables, update_row, ◌>>=◌}

-- The booking is there, and no longer a hold.
abbrev pub IsReleased : (ℕ → Option BookingGroup) → ℕ → Type 0
IsReleased groups id =
    (g : BookingGroup) × (groups id ≡ some g) × (g.booking_status ≢ BookingEnums.pending)

set_status_slots :
    (id : ℕ) (status : BookingEnums.BookingStatus) (values : GroupUpdate) (s : Session)
    → (set_status id status values s).1.tables.booking_slots
      ≡ map (slot_with_status id status) s.tables.booking_slots
unfolding set_status ◌>>=◌
set_status_slots id status values s = refl

-- No court and hour has more active slots than before.
abbrev pub TakesNothing : Tables → Tables → Type 0
TakesNothing before t =
    (court : ℕ) (at : Instant)
    → count (occupies court at) t.booking_slots ≤ count (occupies court at) before.booking_slots

expire-TakesNothing :
    (id : ℕ) (before t : Tables)
    → t.booking_slots ≡ map (slot_with_status id BookingEnums.expired) before.booking_slots
    → TakesNothing before t
expire-TakesNothing id before t e court at = rw e (
    count-map-le (occupies court at) (slot_with_status id BookingEnums.expired) before.booking_slots
      (All-of (λ s h. ground arith) before.booking_slots))

-- One pass returns, leaves the group released, and takes no hour.
abbrev pub Expired : ℕ → Session → Result (Unit {0}) × Session → Type 0
Expired id s run =
    (run.0 ≡ ok tt)
    × IsReleased run.1.tables.booking_groups id
    × TakesNothing s.tables run.1.tables
    × ((i : ℕ) → IsReleased s.tables.booking_groups i → IsReleased run.1.tables.booking_groups i)
    × ((i : ℕ)
        → is_some (s.tables.booking_groups i) ≡ true
        → is_some (run.1.tables.booking_groups i) ≡ true)

abbrev expire_row : ℕ → (ℕ → Option BookingGroup) → ℕ → Option BookingGroup
expire_row id groups = update_row id (with_status BookingEnums.expired no_fields) groups

expire_row-IsReleased :
    (id : ℕ) (g : BookingGroup) (groups : ℕ → Option BookingGroup)
    → groups id ≡ some g
    → IsReleased (expire_row id groups) id
expire_row-IsReleased id g groups e =
    (with_status BookingEnums.expired no_fields g, ground (arith, (eqb_iff id id).1 refl), (cc))

IsReleased-kept :
    (id i : ℕ) (groups : ℕ → Option BookingGroup)
    → IsReleased groups i
    → IsReleased (expire_row id groups) i
IsReleased-kept id i groups (g, e, h) = elim (Bool-cases (id == i)) [
  | inl same ↦ (with_status BookingEnums.expired no_fields g, rw (same, e) refl, (cc))
  | inr other ↦ (g, rw other e, h)
]

there_kept :
    (id i : ℕ) (groups : ℕ → Option BookingGroup)
    → is_some (groups i) ≡ true
    → is_some (expire_row id groups i) ≡ true
there_kept id i groups h = ground arith

expire_group_run :
    (now : Instant) (id : ℕ) (g : BookingGroup) (s : Session)
    → IsConsistent s.tables
    → s.tables.booking_groups id ≡ some g
    → ((expire_group now id s).0 ≡ ok tt)
      × ((expire_group now id s).1.tables.booking_groups ≡ expire_row id s.tables.booking_groups)
      × ((expire_group now id s).1.tables.booking_slots
          ≡ map (slot_with_status id BookingEnums.expired) s.tables.booking_slots)
unfolding expire_group group_by_id record_group insert_event ◌>>=◌
expire_group_run now id g s c e =
    let groups = set_status_groups id BookingEnums.expired no_fields s in
    let found : (set_status id BookingEnums.expired no_fields s).1.tables.booking_groups id
        ≡ some (with_status BookingEnums.expired no_fields g) =
      ap (λ h. h id) groups ∙ ground (arith, (eqb_iff id id).1 refl) in
    rw (e, set_status_accepted id BookingEnums.expired no_fields s c (inl refl), found)
      (refl, groups, set_status_slots id BookingEnums.expired no_fields s)

expire_group_released :
    (now : Instant) (id : ℕ) (g : BookingGroup) (s : Session)
    → IsConsistent s.tables
    → s.tables.booking_groups id ≡ some g
    → Expired id s (expire_group now id s)
expire_group_released now id g s c e =
    let (returned, rows, slots) = expire_group_run now id g s c e in
    let back =
      λ (G : (ℕ → Option BookingGroup) → Type 0) (h : G (expire_row id s.tables.booking_groups)).
        subst G (sym rows) h in
    (
      returned,
      back (λ x. IsReleased x id) (expire_row-IsReleased id g s.tables.booking_groups e),
      expire-TakesNothing id s.tables (expire_group now id s).1.tables slots,
      (λ i h. back (λ x. IsReleased x i) (IsReleased-kept id i s.tables.booking_groups h)),
      λ i h. back (λ x. is_some (x i) ≡ true) (there_kept id i s.tables.booking_groups h),
    )

-- A group that is no hold is left alone.
expire_pending_is :
    (now : Instant) (id : ℕ) (g : BookingGroup) (s : Session)
    → s.tables.booking_groups id ≡ some g
    → expire_pending now id s
      ≡ (if g.booking_status == BookingEnums.pending then expire_group now id s else (ok tt, s))
unfolding expire_pending group_by_id ◌>>=◌
expire_pending_is now id g s e = elim (Bool-cases (g.booking_status == BookingEnums.pending)) [
  | inl hold ↦ rw (e, hold) refl
  | inr other ↦ rw (e, other) refl
]

pub expire_pending_released :
    (now : Instant) (id : ℕ) (g : BookingGroup) (s : Session)
    → IsConsistent s.tables
    → s.tables.booking_groups id ≡ some g
    → Expired id s (expire_pending now id s)
expire_pending_released now id g s c e =
    subst (Expired id s) (sym (expire_pending_is now id g s e))
      (elim (Bool-cases (g.booking_status == BookingEnums.pending)) [
        | inl hold ↦ rw hold (expire_group_released now id g s c e)
        | inr other ↦
            rw other
              (refl, (g, e, not_pending g other), (λ court at. omega arith), (λ i h. h), λ i h. h)
      ])
  where
    not_pending :
        (g : BookingGroup)
        → (g.booking_status == BookingEnums.pending) ≡ false
        → g.booking_status ≢ BookingEnums.pending
    not_pending g other = λ same. ground arith

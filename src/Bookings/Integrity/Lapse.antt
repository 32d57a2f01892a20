-- ===== src/Bookings/Integrity/Lapse.antt =====
-- The lapsed holds that `expire_lapsed` of bookings/persistence/repository.py expires, said of the tables.

use mathlib.Core.Path.{subst}
use pikol_backend.Common.{
  ℕ, ◌≤◌, ◌≡◌, refl, sym, ◌∙◌, Bool, true, false, ◌&&◌, Option, none, some, List, [], ◌∷◌, map, any,
  All, All-mono, All-and, Any, any_Any, and-true_split, All-any_self, any_mono, arith, ◌==◌, nat_eq,
  eqb_iff, leb, leb_iff, Option-cases, Bool-cases, ◌⊎◌, inl, inr, if◌then◌else◌,
}
use pikol_backend.Time.{Instant}
use pikol_backend.Bookings.Enums.{expired, pending, status_eq}
use pikol_backend.Bookings.Models.{BookingGroup, BookingSlot}
use pikol_backend.Bookings.Repository.{expire_rows, expires_now, touches, is_lapsed}
use pikol_backend.Bookings.Integrity.{occupies}
use pikol_backend.Database.{Tables}

-- A hold whose deadline is not after now.
abbrev pub IsLapsedHold : Instant → Option BookingGroup → Type 0
IsLapsedHold now none = ⊥
IsLapsedHold now (some g) =
    (g.booking_status ≡ pending)
    × ((deadline : Instant) × (g.expires_at ≡ some deadline) × (deadline ≤ now))

-- The group has a row for the court and one of the hours.
abbrev pub IsOn : ℕ → List Instant → List BookingSlot → ℕ → Type 0
IsOn court starts slots i =
    Any (λ x. (x.booking_group_id ≡ i) × (x.court_id ≡ court) × Any (λ at. at ≡ x.starts_at) starts)
      slots

-- Whatever takes the hour at the court is a lapsed hold.
abbrev pub IsOpen : ℕ → Instant → Tables → Instant → Type 0
IsOpen court now t at =
    All
      (λ x. (occupies court at x ≡ false) ⊎ IsLapsedHold now (t.booking_groups x.booking_group_id))
      t.booking_slots

none_mapped :
    {A : Type 0} (p : A → Bool) (f : A → A) (xs : List A)
    → All (λ x. p (f x) ≡ false) xs
    → any p (map f xs) ≡ false
none_mapped p f [] h = refl
none_mapped p f (x ∷ xs) h = rw (h.0, none_mapped p f xs h.1) refl

-- The rows are of one group, court and hour.
abbrev is_like : BookingSlot → BookingSlot → Bool
is_like x y =
    y.booking_group_id == x.booking_group_id
    && y.court_id == x.court_id
    && y.starts_at == x.starts_at

module _ (court : ℕ) (starts : List Instant) (now : Instant) (t : Tables) where
  lapsed_expires :
      (x : BookingSlot)
      → touches court starts t.booking_slots x.booking_group_id ≡ true
      → IsLapsedHold now (t.booking_groups x.booking_group_id)
      → expires_now court starts now t x.booking_group_id ≡ true
  lapsed_expires x touched lapsed = elim (Option-cases (t.booking_groups x.booking_group_id)) [
    | inl e ↦ absurd (subst (IsLapsedHold now) e lapsed)
    | inr (g, e) ↦
        let (held, (deadline, at, passed)) = subst (IsLapsedHold now) e lapsed in
        let is_held = (status_eq.equals_iff g.booking_status pending).1 held in
        let over = (leb_iff deadline now).1 passed in
        let lapses : is_lapsed now g ≡ true = rw (is_held, at, over) refl in
        rw (expires_now, e, lapses) touched
  ]

  touched_by :
      (at : Instant) (x : BookingSlot)
      → any (λ a. a == at) starts ≡ true
      → any (is_like x) t.booking_slots ≡ true
      → occupies court at x ≡ true
      → touches court starts t.booking_slots x.booking_group_id ≡ true
  touched_by at x asked there here =
      let same_court : x.court_id ≡ court = ground (arith, here, eqb_iff x.court_id court) in
      let same_hour : x.starts_at ≡ at = ground (arith, here, eqb_iff x.starts_at at) in
      any_mono _ _
        (λ y e.
          let at_court : y.court_id ≡ court = ground (arith, e, eqb_iff y.court_id x.court_id) in
          let at_hour : at ≡ y.starts_at = ground (arith, e, eqb_iff y.starts_at x.starts_at) in
          let listed = subst (λ h. any (λ a. a == h) starts ≡ true) at_hour asked in
          ground (arith, e, listed, eqb_iff y.court_id court))
        t.booking_slots there

  kept_free :
      (at : Instant) (x : BookingSlot)
      → any (λ a. a == at) starts ≡ true
      → any (is_like x) t.booking_slots ≡ true
      → (occupies court at x ≡ false) ⊎ IsLapsedHold now (t.booking_groups x.booking_group_id)
      → expires_now court starts now t x.booking_group_id ≡ false
      → occupies court at x ≡ false
  kept_free at x asked there (inl free) stays = free
  kept_free at x asked there (inr lapsed) stays = elim (Bool-cases (occupies court at x)) [
    | inr free ↦ free
    | inl here ↦
        let bad : true ≡ false =
          sym (lapsed_expires x (touched_by at x asked there here) lapsed) ∙ stays in
        cc
  ]

  -- What is left of an open hour after the expiry takes nothing.
  pub freed :
      (at : Instant)
      → any (λ a. a == at) starts ≡ true
      → IsOpen court now t at
      → any (occupies court at) (expire_rows court starts now t).booking_slots ≡ false
  freed at asked open_hour = none_mapped (occupies court at) _ t.booking_slots (
      All-mono
        (λ x (there, takes). elim (Bool-cases (expires_now court starts now t x.booking_group_id)) [
          | inl e ↦ rw e refl
          | inr e ↦ rw e (kept_free at x asked there takes e)
        ])
        t.booking_slots
        (All-and _ _ t.booking_slots (All-any_self is_like (λ x. ground arith) t.booking_slots)
          open_hour))

  -- What the expiry changes is a lapsed hold on one of the hours.
  is_lapsed-IsLapsedHold : (g : BookingGroup) → is_lapsed now g ≡ true → IsLapsedHold now (some g)
  is_lapsed-IsLapsedHold g h =
      let (held, over) =
        and-true_split (g.booking_status == pending)
          (elim g.expires_at [ none ↦ false | some d ↦ leb d now ]) h in
      elim (Option-cases g.expires_at) [
        | inl e ↦ let bad : false ≡ true = rw e at over in cc
        | inr (deadline, e) ↦
            let passed : leb deadline now ≡ true = rw e at over in
            (
              (status_eq.equals_iff g.booking_status pending).0 held,
              (deadline, e, (leb_iff deadline now).0 passed),
            )
      ]

  -- The test of `touches` on one row.
  abbrev is_touched : ℕ → BookingSlot → Bool
  is_touched i x =
      x.booking_group_id == i && x.court_id == court && any (λ a. a == x.starts_at) starts

  touches-IsOn :
      (i : ℕ) → touches court starts t.booking_slots i ≡ true → IsOn court starts t.booking_slots i
  touches-IsOn i h =
      any_Any (is_touched i)
        (λ x. (x.booking_group_id ≡ i) × (x.court_id ≡ court) × Any (λ at. at ≡ x.starts_at) starts)
        (λ x e.
          let (at_court, listed) =
            and-true_split (x.booking_group_id == i && x.court_id == court)
              (any (λ a. a == x.starts_at) starts) e in
          let (own, here) =
            and-true_split (x.booking_group_id == i) (x.court_id == court) at_court in
          (
            (eqb_iff x.booking_group_id i).0 own,
            (eqb_iff x.court_id court).0 here,
            any_Any (λ a. a == x.starts_at) (λ a. a ≡ x.starts_at)
                (λ a k. (eqb_iff a x.starts_at).0 k) starts listed,
          ))
        t.booking_slots h

  pub kept_or_lapsed :
      (i : ℕ)
      → ((expire_rows court starts now t).booking_groups i ≡ t.booking_groups i)
        ⊎ (IsLapsedHold now (t.booking_groups i) × IsOn court starts t.booking_slots i)
  kept_or_lapsed i = elim (Option-cases (t.booking_groups i)) [
    | inl e ↦ inl (rw (expires_now, e) refl)
    | inr (g, e) ↦ elim (Bool-cases (is_lapsed now g && touches court starts t.booking_slots i)) [
      | inr n ↦ inl (rw (expires_now, e, n) refl)
      | inl y ↦
          let (lapsed, touched) =
            and-true_split (is_lapsed now g) (touches court starts t.booking_slots i) y in
          inr (
            subst (IsLapsedHold now) (sym e) (is_lapsed-IsLapsedHold g lapsed),
            touches-IsOn i touched,
          )
    ]
  ]

-- A row without its status.
abbrev pub without_status : BookingSlot → BookingSlot
without_status x = record x { booking_status = pending }

-- The expiry changes nothing but the statuses of rows.
pub expire_rows-without_status :
    (p : ℕ → Bool) (slots : List BookingSlot)
    → map without_status
        (map (λ x. if p x.booking_group_id then record x { booking_status = expired } else x) slots)
      ≡ map without_status slots
expire_rows-without_status p [] = refl
expire_rows-without_status p (x ∷ slots) = elim (Bool-cases (p x.booking_group_id)) [
  | inl e ↦ rw (e, expire_rows-without_status p slots) refl
  | inr e ↦ rw (e, expire_rows-without_status p slots) refl
]

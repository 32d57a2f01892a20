-- ===== src/Bookings/Availability/Free.antt =====
-- `occupancy` of bookings/persistence/repository.py against what `expire_lapsed` leaves of an hour.
use pikol_backend.Common.{
  ℕ, ◌≤◌, ◌≡◌, refl, sym, ap, ◌∙◌, Bool, true, false, not, ◌&&◌, ◌||◌, some, List, [], ◌∷◌, map,
  any, elem, All, All-mono, All-any_self, arith, leb, ltb, ◌==◌, nat_eq, pair_eq, eqb_iff, is_some,
  Bool-cases, Option-cases, and-true_split, leb_iff, ltb_iff, ◌<◌, inl, inr, if◌then◌else◌,
}
use mathlib.Core.Path.{subst}
use pikol_backend.Common.Dict.{contains, contains-insert}
use pikol_backend.Time.{Instant}
use pikol_backend.Catalog.{VenueScope, in_scope}
use pikol_backend.Bookings.Enums.{expired, pending, status_eq}
use pikol_backend.Bookings.Models.{BookingGroup, BookingSlot, is_active}
use pikol_backend.Bookings.Repository.{is_lapsed, touches, expires_now, expire_rows}
use pikol_backend.Bookings.Integrity.{IsConsistent, HasDeadline, Mirrors, MirrorsGroup, occupies}
use pikol_backend.Bookings.Availability.{
  Occupancy, is_taken, is_held_by, put_taken, occupancy_from, occupancy,
}
use pikol_backend.Database.{Tables}

-- The slot has this court and hour.
abbrev at_hour : ℕ → Instant → BookingSlot → Bool
at_hour court at s = s.court_id == court && s.starts_at == at

and_true : (a : Bool) → a ≡ (a && true)
and_true a = ground arith

and_false : (a : Bool) → false ≡ (a && false)
and_false a = ground arith

-- With its deadline there, a group that the query counts is one that has not lapsed.
held_lapsed :
    (now : Instant) (g : BookingGroup)
    → HasDeadline (some g)
    → is_held_by now g ≡ not (is_lapsed now g)
held_lapsed now g h = elim (Option-cases g.expires_at) [
  | inl e ↦
      let none_set : false ≡ (g.booking_status == pending) = ap is_some (sym e) ∙ h in
      rw (e, sym none_set) refl
  | inr (d, e) ↦ rw e refl
]

module _ (court_ids : List ℕ) (start end now : Instant) (scope : VenueScope) (t : Tables)
    (court : ℕ) (at : Instant) where
  abbrev taken_here : BookingSlot → Bool
  taken_here s = at_hour court at s && is_taken court_ids start end now scope t s

  put_lookup :
      (s : BookingSlot) (taken : Occupancy)
      → is_taken court_ids start end now scope t s ≡ true
      → contains (court, at) (put_taken t s taken)
        ≡ (at_hour court at s || contains (court, at) taken)
  put_lookup s taken h = elim (Option-cases (t.booking_groups s.booking_group_id)) [
    | inl e ↦ let without = rw e at h in let bad : true ≡ false = ground (arith, without) in cc
    | inr (g, e) ↦
        rw (put_taken, e) (contains-insert (s.court_id, s.starts_at) (court, at) g.type taken)
  ]

  step_lookup :
      (s : BookingSlot) (taken : Occupancy)
      → contains
          (court, at)
          (if is_taken court_ids start end now scope t s then put_taken t s taken else taken)
        ≡ (taken_here s || contains (court, at) taken)
  step_lookup s taken = elim (Bool-cases (is_taken court_ids start end now scope t s)) [
    | inl e ↦
        rw e (
          put_lookup s taken e ∙ λ i. and_true (at_hour court at s) i || contains (court, at) taken)
    | inr e ↦ rw e (λ i. and_false (at_hour court at s) i || contains (court, at) taken)
  ]

  shuffled : (a b c : Bool) → (a || (b || c)) ≡ ((b || a) || c)
  shuffled a b c = ground arith

  from_lookup :
      (slots : List BookingSlot) (taken : Occupancy)
      → contains (court, at) (occupancy_from court_ids start end now scope t slots taken)
        ≡ (any taken_here slots || contains (court, at) taken)
  from_lookup [] taken = refl
  from_lookup (s ∷ slots) taken =
      from_lookup slots
        (if is_taken court_ids start end now scope t s then put_taken t s taken else taken)
      ∙ (λ i. any taken_here slots || step_lookup s taken i)
      ∙ shuffled (any taken_here slots) (taken_here s) (contains (court, at) taken)

  occupied_iff :
      contains (court, at) (occupancy court_ids start end now scope t)
      ≡ any taken_here t.booking_slots
  occupied_iff = ground (arith, from_lookup t.booking_slots [])

  -- The hour is one that the query asks for.
  abbrev pub Asked : Type 0
  Asked =
      (elem court court_ids ≡ true)
      × (start ≤ at)
      × (at < end)
      × (any (λ c. c.id == court && in_scope scope c.venue_id) t.courts ≡ true)

  -- The row's conditions that its court and hour decide.
  abbrev asked_of : BookingSlot → Bool
  asked_of s =
      elem s.court_id court_ids
      && leb start s.starts_at
      && ltb s.starts_at end
      && any (λ c. c.id == s.court_id && in_scope scope c.venue_id) t.courts

  asked_here : Asked → (s : BookingSlot) → at_hour court at s ≡ true → asked_of s ≡ true
  asked_here (ids, lo, hi, there) s h =
      let here =
        (eqb_iff s.court_id court).0
          (and-true_split (s.court_id == court) (s.starts_at == at) h).0 in
      let hour : s.starts_at ≡ at =
        (eqb_iff s.starts_at at).0 (and-true_split (s.court_id == court) (s.starts_at == at) h).1 in
      let after : leb start s.starts_at ≡ true =
        (leb_iff start s.starts_at).1 (omega (arith, hour, lo)) in
      let before : ltb s.starts_at end ≡ true =
        (ltb_iff s.starts_at end).1 (omega (arith, hour, hi)) in
      let asked_court = subst (λ c. elem c court_ids ≡ true) (sym here) ids in
      let there_court =
        subst (λ d. any (λ c. c.id == d && in_scope scope c.venue_id) t.courts ≡ true) (sym here)
          there in
      rw (asked_court, after, before, there_court) refl

  -- A slot on the hour touches it.
  abbrev Touching : BookingSlot → Type 0
  Touching s =
      at_hour court at s ≡ true → touches court (at ∷ []) t.booking_slots s.booking_group_id ≡ true

  -- What the expiry leaves of a slot: `b` says whether its group expires.
  occupies_if :
      (b : Bool) (s : BookingSlot)
      → occupies court at (if b then record s { booking_status = expired } else s)
        ≡ (not b && (is_active s && at_hour court at s))
  occupies_if true s = refl
  occupies_if false s = ground arith

  taken_held :
      (s : BookingSlot) (g : BookingGroup)
      → t.booking_groups s.booking_group_id ≡ some g
      → taken_here s ≡ (at_hour court at s && (asked_of s && (is_active s && is_held_by now g)))
  taken_held s g e = rw e (ground arith)

  decided :
      (lapsed touched active here asked : Bool)
      → (here ≡ true → touched ≡ true)
      → (here ≡ true → asked ≡ true)
      → (not (lapsed && touched) && (active && here)) ≡ (here && (asked && (active && not lapsed)))
  decided lapsed touched active true asked f g = rw (f refl, g refl) (ground arith)
  decided lapsed touched active false asked f g = ground arith

  -- What the expiry leaves of a slot occupies the hour exactly if the query counts the slot.
  left_of :
      Asked
      → ((i : ℕ) → HasDeadline (t.booking_groups i))
      → (s : BookingSlot) → Mirrors t.booking_groups s
      → Touching s
      → occupies court at (
          if expires_now court (at ∷ []) now t s.booking_group_id
          then record s { booking_status = expired }
          else s)
        ≡ taken_here s
  left_of asked dated s m touch = elim (Option-cases (t.booking_groups s.booking_group_id)) [
    | inl e ↦ let impossible = subst (λ o. MirrorsGroup o s) e m in elim impossible [ ]
    | inr (g, e) ↦
        let lapses : expires_now court (at ∷ []) now t s.booking_group_id
            ≡ (is_lapsed now g && touches court (at ∷ []) t.booking_slots s.booking_group_id) =
          rw (expires_now, e) refl in
        let held = held_lapsed now g (subst HasDeadline e (dated s.booking_group_id)) in
        occupies_if (expires_now court (at ∷ []) now t s.booking_group_id) s
        ∙ (λ i. not (lapses i) && (is_active s && at_hour court at s))
        ∙ decided (is_lapsed now g) (touches court (at ∷ []) t.booking_slots s.booking_group_id)
            (is_active s) (at_hour court at s) (asked_of s) touch (asked_here asked s)
        ∙ (λ i. at_hour court at s && (asked_of s && (is_active s && sym held i)))
        ∙ sym (taken_held s g e)
  ]

  touches_own :
      (s : BookingSlot)
      → touches s.court_id (s.starts_at ∷ []) t.booking_slots s.booking_group_id ≡ true
      → Touching s
  touches_own s h here =
      let court_here : s.court_id ≡ court =
        (eqb_iff s.court_id court).0 (and-true_split _ _ here).0 in
      let hour_here : s.starts_at ≡ at = (eqb_iff s.starts_at at).0 (and-true_split _ _ here).1 in
      subst (λ a. touches court (a ∷ []) t.booking_slots s.booking_group_id ≡ true) hour_here
        (subst (λ c. touches c (s.starts_at ∷ []) t.booking_slots s.booking_group_id ≡ true)
          court_here h)

  slots_touch : All Touching t.booking_slots
  slots_touch = All-mono touches_own t.booking_slots (
      All-any_self
        (λ s x.
          x.booking_group_id == s.booking_group_id
          && x.court_id == s.court_id
          && any (λ a. a == x.starts_at) (s.starts_at ∷ []))
        (λ s. ground arith) t.booking_slots)

  left_of_slots :
      Asked
      → ((i : ℕ) → HasDeadline (t.booking_groups i))
      → (slots : List BookingSlot) → All (Mirrors t.booking_groups) slots
      → All Touching slots
      → any (occupies court at) (
          map
            (λ s.
              if expires_now court (at ∷ []) now t s.booking_group_id
              then record s { booking_status = expired }
              else s)
            slots)
        ≡ any taken_here slots
  left_of_slots asked dated [] ms ts = refl
  left_of_slots asked dated (s ∷ slots) (m, ms) (touch, ts) =
      λ i. left_of asked dated s m touch i || left_of_slots asked dated slots ms ts i

-- In consistent tables, for a court and an hour that the query asks for, `occupancy` has an entry
-- exactly if the rows that the updates of `expire_lapsed` leave hold an active slot there.
pub occupancy-expire_rows :
    (court_ids : List ℕ) (start end now : Instant) (scope : VenueScope) (t : Tables) (court : ℕ)
    (at : Instant)
    → IsConsistent t
    → Asked court_ids start end now scope t court at
    → contains (court, at) (occupancy court_ids start end now scope t)
      ≡ any (occupies court at) (expire_rows court (at ∷ []) now t).booking_slots
occupancy-expire_rows court_ids start end now scope t court at c asked =
    occupied_iff court_ids start end now scope t court at
    ∙ sym (
        left_of_slots court_ids start end now scope t court at asked c.deadlines t.booking_slots
          c.mirrored (slots_touch court_ids start end now scope t court at))

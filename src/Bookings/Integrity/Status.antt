-- ===== src/Bookings/Integrity/Status.antt =====
-- `set_status` and `expire_lapsed` (bookings/persistence/repository.py), and the integrity of the
-- booking tables.
use native.Mathlib.Nat.{le_trans}
use mathlib.Core.Path.{subst}
use pikol_backend.Common.{
  ℕ, ◌≡◌, ◌≢◌, ◌⊎◌, refl, ap, ◌∙◌, Bool, true, false, inl, inr, Option, none, some, List, arith,
  All-map, All-mono, All-of, count-map-le, Bool-cases, eqb_iff, ◌==◌, nat_eq, if◌then◌else◌,
}
use pikol_backend.Time.{Instant}
use pikol_backend.Errors.{ok}
use pikol_backend.Bookings.Enums.{
  BookingStatus, pending, expired, is_releasing, status_eq, status_index_iff,
}
use pikol_backend.Bookings.Models.{
  BookingGroup, BookingSlot, GroupUpdate, no_fields, cancellation, paid_fields, paid_uncancelled,
  is_active,
}
use pikol_backend.Bookings.Repository.{
  set_status, set_group_status, set_slot_statuses, slot_with_status, with_status, has_clash,
  expire_lapsed, expire_rows, expires_now, expired_group,
}
use pikol_backend.Bookings.Integrity.{
  IsConsistent, Mirrors, MirrorsGroup, HasDeadline, IsKeyed, occupies,
}
use pikol_backend.Bookings.Integrity.Slots.{has_clash-exclusive, exclusive-has_clash}
use pikol_backend.Events.Models.{ActionEvent}
use pikol_backend.Events.Service.{insert_event}
use pikol_backend.Database.{Tables, Session, ◌>>=◌, alter}
use pikol_backend.Database.Keeps.{Keeps, Keeps-bind, Keeps-modify, keeps_rules}

-- The columns that `set_status` leaves alone.
pub with_status_keys :
    (status : BookingStatus) (fields : GroupUpdate) (g : BookingGroup)
    → let g' = with_status status fields g in
      (g'.id ≡ g.id) × (g'.court_id ≡ g.court_id) × (g'.booking_status ≡ status)
with_status_keys status no_fields g = (refl, refl, refl)
with_status_keys status (cancellation at by reason) g = (refl, refl, refl)
with_status_keys status paid_fields g = (refl, refl, refl)
with_status_keys status paid_uncancelled g = (refl, refl, refl)

module _ (id : ℕ) (status : BookingStatus) (fields : GroupUpdate) where
  -- The two updates of `set_status`.
  abbrev pub set_rows : Tables → Tables
  set_rows t = set_slot_statuses id status (set_group_status id status fields t)

  mirror_kept :
      (found : Option BookingGroup) (s : BookingSlot)
      → MirrorsGroup found s
      → MirrorsGroup
          (if id == s.booking_group_id then alter (with_status status fields) found else found)
          (slot_with_status id status s)
  mirror_kept none s m = elim m [ ]
  mirror_kept (some g) s m = ground (arith, with_status_keys status fields g)

  same_group :
      (s : BookingSlot) → s.booking_group_id ≡ (slot_with_status id status s).booking_group_id
  same_group s = ground arith

  slot_kept :
      (t : Tables) (s : BookingSlot)
      → Mirrors t.booking_groups s
      → Mirrors (set_rows t).booking_groups (slot_with_status id status s)
  slot_kept t s m =
      subst (λ i. MirrorsGroup ((set_rows t).booking_groups i) (slot_with_status id status s))
        (same_group s) (mirror_kept (t.booking_groups s.booking_group_id) s m)

  deadline_kept :
      (i : ℕ) (found : Option BookingGroup)
      → status ≢ pending
      → HasDeadline found
      → HasDeadline (if id == i then alter (with_status status fields) found else found)
  deadline_kept i none ne h = ground arith
  deadline_kept i (some g) ne h = ground (arith, status_index_iff status pending)

  IsKeyed-kept :
      (i : ℕ) (found : Option BookingGroup)
      → IsKeyed i found
      → IsKeyed i (if id == i then alter (with_status status fields) found else found)
  IsKeyed-kept i none h = ground arith
  IsKeyed-kept i (some g) h = ground (arith, with_status_keys status fields g)

  set_rows-IsConsistent :
      (t : Tables)
      → status ≢ pending
      → has_clash (set_rows t).booking_slots ≡ false
      → IsConsistent t
      → IsConsistent (set_rows t)
  set_rows-IsConsistent t ne free c = record {
    mirrored =
        All-map (Mirrors (set_rows t).booking_groups) (slot_with_status id status) (slot_kept t)
          t.booking_slots c.mirrored;
    exclusive = has_clash-exclusive (set_rows t).booking_slots free;
    deadlines = λ i. deadline_kept i (t.booking_groups i) ne (c.deadlines i);
    keyed = λ i. IsKeyed-kept i (t.booking_groups i) (c.keyed i);
    fresh = λ i h. ground (arith, c.fresh i);
    whole_hours =
        All-map _ (slot_with_status id status) (λ s e. ground arith) t.booking_slots c.whole_hours;
  }

  -- A status other than PENDING keeps the integrity of the tables, or the whole write is refused.
  pub set_status-Keeps : status ≢ pending → Keeps IsConsistent (set_status id status fields)
  unfolding set_status ◌>>=◌
  set_status-Keeps ne = record {
    at = λ s p q. elim (Bool-cases (has_clash (set_rows s.tables).booking_slots)) [
      | inl clash ↦ rw clash q
      | inr free ↦ rw free (set_rows-IsConsistent s.tables ne free p, q)
    ];
  }

  active_mirror :
      (g : BookingGroup) (s : BookingSlot)
      → is_releasing g.booking_status ≡ false
      → MirrorsGroup (some g) s
      → is_active s ≡ true
  active_mirror g s active m = ground arith

  reactivates :
      (t : Tables) (s : BookingSlot) (court : ℕ) (at : Instant)
      → (is_releasing status ≡ true)
        ⊎ ((g : BookingGroup) × (t.booking_groups id ≡ some g)
            × (is_releasing g.booking_status ≡ false))
      → Mirrors t.booking_groups s
      → occupies court at (slot_with_status id status s) ≡ true
      → occupies court at s ≡ true
  reactivates t s court at (inl releasing) m h = ground arith
  reactivates t s court at (inr (g, e, active)) m h = elim (Bool-cases (s.booking_group_id == id)) [
    | inr other ↦ ground arith
    | inl same ↦
        let here : t.booking_groups s.booking_group_id ≡ some g =
          ap t.booking_groups ((eqb_iff s.booking_group_id id).0 same) ∙ e in
        ground (arith, active_mirror g s active (subst (λ o. MirrorsGroup o s) here m))
  ]

pub event_kept : (e : ActionEvent) → Keeps IsConsistent (insert_event e)
unfolding insert_event
event_kept e = Keeps-modify _ (λ t c. c)

module _ (court : ℕ) (starts : List Instant) (now : Instant) where
  -- The rows of one group under `expire_lapsed`.
  expired_mirror :
      (b : Bool) (found : Option BookingGroup) (s : BookingSlot)
      → MirrorsGroup found s
      → MirrorsGroup
          (if b then alter expired_group found else found)
          (if b then record s { booking_status = expired } else s)
  expired_mirror true none s m = elim m [ ]
  expired_mirror true (some g) s m = (refl, m.1)
  expired_mirror false found s m = m

  expired_deadline :
      (b : Bool) (found : Option BookingGroup)
      → HasDeadline found
      → HasDeadline (if b then alter expired_group found else found)
  expired_deadline true none h = tt
  expired_deadline true (some g) h = refl
  expired_deadline false found h = h

  expired-IsKeyed :
      (i : ℕ) (b : Bool) (found : Option BookingGroup)
      → IsKeyed i found
      → IsKeyed i (if b then alter expired_group found else found)
  expired-IsKeyed i true none h = tt
  expired-IsKeyed i true (some g) h = h
  expired-IsKeyed i false found h = h

  expired_fresh :
      (b : Bool) (found : Option BookingGroup)
      → found ≡ none
      → (if b then alter expired_group found else found) ≡ none
  expired_fresh b found h = elim (Bool-cases b) [ inl e ↦ rw (e, h) | inr e ↦ rw (e, h) ]

  expired_slot : Tables → BookingSlot → BookingSlot
  expired_slot t s =
      if expires_now court starts now t s.booking_group_id
      then record s { booking_status = expired }
      else s

  expired_slot_kept :
      (t : Tables) (s : BookingSlot)
      → Mirrors t.booking_groups s
      → Mirrors (expire_rows court starts now t).booking_groups (expired_slot t s)
  unfolding expired_slot
  expired_slot_kept t s m =
      subst
        (λ i. MirrorsGroup ((expire_rows court starts now t).booking_groups i) (expired_slot t s))
        (same_id (expires_now court starts now t s.booking_group_id) s)
        (expired_mirror (expires_now court starts now t s.booking_group_id)
          (t.booking_groups s.booking_group_id) s m)
    where
      same_id :
          (b : Bool) (s : BookingSlot)
          → s.booking_group_id
            ≡ (if b then record s { booking_status = expired } else s).booking_group_id
      same_id true s = refl
      same_id false s = refl

  pub expire_rows-IsConsistent :
      (t : Tables) → IsConsistent t → IsConsistent (expire_rows court starts now t)
  unfolding expired_slot
  expire_rows-IsConsistent t c = record {
    mirrored =
        All-map (Mirrors (expire_rows court starts now t).booking_groups) (expired_slot t)
          (expired_slot_kept t) t.booking_slots c.mirrored;
    exclusive = λ at_court at.
        le_trans
          (count-map-le (occupies at_court at) (expired_slot t) t.booking_slots
            (All-of (λ s h. ground arith) t.booking_slots))
          (c.exclusive at_court at);
    deadlines = λ i.
        expired_deadline (expires_now court starts now t i) (t.booking_groups i) (c.deadlines i);
    keyed =
        λ i. expired-IsKeyed i (expires_now court starts now t i) (t.booking_groups i) (c.keyed i);
    fresh =
        λ i h. expired_fresh (expires_now court starts now t i) (t.booking_groups i) (c.fresh i h);
    whole_hours = All-map _ (expired_slot t) (λ s e. ground arith) t.booking_slots c.whole_hours;
  }

  -- Expiring lapsed holds keeps the integrity of the tables.
  pub expire_lapsed-Keeps : Keeps IsConsistent (expire_lapsed court starts now)
  unfolding expire_lapsed
  expire_lapsed-Keeps = Keeps-bind _ _ (search keeps_rules) (
      search (
        keeps_rules,
        Keeps-modify (expire_rows court starts now) expire_rows-IsConsistent,
        event_kept,
      ))

pub set_status_accepted :
    (id : ℕ) (status : BookingStatus) (fields : GroupUpdate) (s : Session)
    → IsConsistent s.tables
    → (is_releasing status ≡ true)
      ⊎ ((g : BookingGroup) × (s.tables.booking_groups id ≡ some g)
          × (is_releasing g.booking_status ≡ false))
    → (set_status id status fields s).0 ≡ ok tt
unfolding set_status ◌>>=◌
set_status_accepted id status fields s c why = rw (
    exclusive-has_clash (set_rows id status fields s.tables).booking_slots (λ court at.
      le_trans
        (count-map-le (occupies court at) (slot_with_status id status) s.tables.booking_slots (
          All-mono (λ x m. reactivates id status fields s.tables x court at why m)
            s.tables.booking_slots c.mirrored))
        (c.exclusive court at)))

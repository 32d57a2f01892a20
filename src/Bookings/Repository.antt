-- ===== src/Bookings/Repository.antt =====
-- bookings/persistence/repository.py: every write to `booking_status`.
pub mod OffHour
use Prim.Native.String.{String}
use text.Mathlib.Text.{◌==◌ as str_eq}
use pikol_backend.Common.{
  ℕ, zero, suc, ◌+◌, ◌%◌, Bool, true, false, not, ◌&&◌, ◌||◌, Option, none, some, List, [], ◌∷◌,
  ◌++◌, map, any, count, leb, ltb, ◌==◌, nat_eq, option_eq, if◌then◌else◌,
}
use pikol_backend.Common.Dict.{Dict, insert as dict_insert}
use pikol_backend.Time.{Instant, hour}
use pikol_backend.Errors.{
  Error, Result, ok, err, app_error, integrity_error, runtime_error, no_result, Code,
  slot_unavailable, slot_constraint, reference_constraint, slot_on_the_hour,
}
use pikol_backend.Catalog.{VenueScope, in_scope, Court}
use pikol_backend.Events.Models.{ActionEvent, expired as expired_event, system}
use pikol_backend.Events.Service.{insert_event}
use pikol_backend.Bookings.Enums.{
  BookingStatus, BookingType, pending, expired, maintenance, is_releasing, status_eq, type_eq,
}
use pikol_backend.Bookings.Models.{
  BookingGroup, BookingSlot, GroupFields, GroupUpdate, new_group, apply_update, clashes, is_active,
}
use pikol_backend.Database.{
  Tables, Session, Action, pure, raise, raise_if, lift, gets, savepoint, attempt, ◌>>=◌, ◌>>◌,
  modify, draw, for_each, put_row, update_row, alter,
}

abbrev pub reference_attempts : ℕ
reference_attempts = 5

abbrev pub slot_unavailable_error : Error
slot_unavailable_error = app_error 409 slot_unavailable

-- A row by its primary key; a row that the caller holds is there.
unfoldable pub group_by_id : ℕ → Action BookingGroup
group_by_id i = do
  found ← gets (λ t. t.booking_groups i)
  elim found [ none ↦ raise no_result | some g ↦ pure g ]

-- Some group with a key below the bound has the reference code: the unique constraint on it.
unfoldable pub reference_taken : String → ℕ → (ℕ → Option BookingGroup) → Bool
reference_taken code zero groups = false
reference_taken code (suc n) groups =
    elim (groups n) [ none ↦ false | some g ↦ str_eq g.reference_code code ]
    || reference_taken code n groups

-- The new rows of `booking_slots`, one by one: the check constraint and the partial unique index.
unfoldable pub add_slot_rows : List BookingSlot → List BookingSlot → Result (List BookingSlot)
add_slot_rows [] slots = ok slots
add_slot_rows (s ∷ new) slots =
    if not (s.starts_at % hour == 0)
    then err (integrity_error slot_on_the_hour)
    else if any (clashes s) slots
    then err (integrity_error slot_constraint)
    else add_slot_rows new (slots ++ s ∷ [])

abbrev pub new_slot : BookingGroup → Instant × ℕ → BookingSlot
new_slot g (starts_at, price) = record {
  booking_group_id = g.id;
  court_id = g.court_id;
  starts_at = starts_at;
  price_centavos = price;
  booking_status = g.booking_status;
}

abbrev pub with_group : BookingGroup → List BookingSlot → Tables → Tables
with_group g slots t = record t {
  booking_groups = put_row g.id g t.booking_groups;
  next_group_id = suc g.id;
  booking_slots = slots;
}

-- `session.add(group)` and `session.flush()`.
unfoldable pub flush_rows : BookingGroup → List (Instant × ℕ) → Action (Unit {0})
flush_rows g slot_prices = do
  taken ← gets (λ t. reference_taken g.reference_code t.next_group_id t.booking_groups)
  raise_if taken (integrity_error reference_constraint)
  added ← gets (λ t. add_slot_rows (map (new_slot g) slot_prices) t.booking_slots)
  slots ← lift added
  modify (with_group g slots)

unfoldable pub flush_group : BookingGroup → List (Instant × ℕ) → Action (Unit {0})
flush_group g slot_prices = savepoint (flush_rows g slot_prices)

-- What the handler of `IntegrityError` does: `some g` returns, `none` tries again.
unfoldable pub after_flush : BookingGroup → Result (Unit {0}) → Action (Option BookingGroup)
after_flush g (ok _) = pure (some g)
after_flush g (err (integrity_error slot_constraint)) = raise slot_unavailable_error
after_flush g (err (integrity_error reference_constraint)) = pure none
after_flush g (err e) = raise e

unfoldable pub insert_attempt : GroupFields → List (Instant × ℕ) → Action (Option BookingGroup)
insert_attempt fields slot_prices = do
  code ← draw
  id ← gets (λ t. t.next_group_id)
  flushed ← attempt (flush_group (new_group id code fields) slot_prices)
  after_flush (new_group id code fields) flushed

unfoldable pub insert_loop : ℕ → GroupFields → List (Instant × ℕ) → Action BookingGroup
insert_loop zero fields slot_prices = raise runtime_error
insert_loop (suc n) fields slot_prices = do
  inserted ← insert_attempt fields slot_prices
  elim inserted [ some g ↦ pure g | none ↦ insert_loop n fields slot_prices ]

unfoldable pub insert : GroupFields → List (Instant × ℕ) → Action BookingGroup
insert fields slot_prices = insert_loop reference_attempts fields slot_prices

-- The values that `set_status` writes: leaving PENDING clears the deadline.
abbrev pub with_status : BookingStatus → GroupUpdate → BookingGroup → BookingGroup
with_status status fields g =
    let g' = apply_update fields g in
    record g' {
      booking_status = status;
      expires_at = if status == pending then g'.expires_at else none;
    }

abbrev pub slot_with_status : ℕ → BookingStatus → BookingSlot → BookingSlot
slot_with_status id status s =
    if s.booking_group_id == id then record s { booking_status = status } else s

-- Two rows of the table violate `uq_court_slot_active`.
abbrev pub has_clash : List BookingSlot → Bool
has_clash [] = false
has_clash (s ∷ slots) = any (clashes s) slots || has_clash slots

abbrev pub set_group_status : ℕ → BookingStatus → GroupUpdate → Tables → Tables
set_group_status id status fields t = record t {
  booking_groups = update_row id (with_status status fields) t.booking_groups;
}

abbrev pub set_slot_statuses : ℕ → BookingStatus → Tables → Tables
set_slot_statuses id status t = record t {
  booking_slots = map (slot_with_status id status) t.booking_slots;
}

-- THE status writer: the group and every slot of it.
unfoldable pub set_status : ℕ → BookingStatus → GroupUpdate → Action (Unit {0})
set_status id status fields = do
  modify (set_group_status id status fields)
  modify (set_slot_statuses id status)
  clash ← gets (λ t. has_clash t.booking_slots)
  raise_if clash (integrity_error slot_constraint)

-- `booking_status == PENDING` and `expires_at <= now`; NULL is not at most anything.
abbrev pub is_lapsed : Instant → BookingGroup → Bool
is_lapsed now g =
    g.booking_status == pending && elim g.expires_at [ none ↦ false | some t ↦ leb t now ]

-- A slot of the group lies on one of the (court, hour) pairs.
abbrev pub touches : ℕ → List Instant → List BookingSlot → ℕ → Bool
touches court starts slots id =
    any (λ s. s.booking_group_id == id && s.court_id == court && any (λ t. t == s.starts_at) starts)
      slots

-- The group is one that `expire_lapsed` expires.
abbrev pub expires_now : ℕ → List Instant → Instant → Tables → ℕ → Bool
expires_now court starts now t id = elim (t.booking_groups id) [
  | none ↦ false
  | some g ↦ is_lapsed now g && touches court starts t.booking_slots id
]

abbrev pub expired_group : BookingGroup → BookingGroup
expired_group g = record g { booking_status = expired; expires_at = none }

-- The two updates: the lapsed groups, and all their slots.
abbrev pub expire_rows : ℕ → List Instant → Instant → Tables → Tables
expire_rows court starts now t = record t {
  booking_groups = λ i.
      if expires_now court starts now t i
      then alter expired_group (t.booking_groups i)
      else t.booking_groups i;
  booking_slots =
      map
        (λ s.
          if expires_now court starts now t s.booking_group_id
          then record s { booking_status = expired }
          else s)
        t.booking_slots;
}

-- The lapsed rows below a key, as they were before the updates: the event is dated at the deadline.
abbrev pub expired_events : ℕ → List Instant → Instant → Tables → ℕ → List ActionEvent
expired_events court starts now t zero = []
expired_events court starts now t (suc n) =
    expired_events court starts now t n
    ++ (if expires_now court starts now t n
        then elim (t.booking_groups n) [
          | none ↦ []
          | some g ↦
              record {
                type = expired_event;
                actor_kind = system;
                actor_user_id = none;
                occurred_at = elim g.expires_at [ none ↦ now | some deadline ↦ deadline ];
                booking_group_id = some n;
                checkout_id = g.checkout_id;
              }
              ∷ []
        ]
        else [])

-- Lazy cleanup of the lapsed holds that touch these hours.
unfoldable pub expire_lapsed : ℕ → List Instant → Instant → Action (Unit {0})
expire_lapsed court starts now = do
  events ← gets (λ t. expired_events court starts now t t.next_group_id)
  modify (expire_rows court starts now)
  for_each events insert_event

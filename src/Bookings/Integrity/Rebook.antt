-- ===== src/Bookings/Integrity/Rebook.antt =====
-- `expire_lapsed` and `insert` of bookings/persistence/repository.py, as the services call them one
-- after the other: the hours of a lapsed hold can be booked.
use Prim.Native.String.{String}
use pikol_backend.Common.{ℕ, ◌%◌, ◌≡◌, ◌≢◌, refl, false, List, [], ◌∷◌, ◌++◌, map, any, All, nat_eq}
use pikol_backend.Time.{Instant, hour}
use pikol_backend.Errors.{ok}
use pikol_backend.Bookings.Enums.{status_eq}
use pikol_backend.Bookings.Models.{BookingGroup, BookingSlot, GroupFields, new_group}
use pikol_backend.Bookings.Repository.{reference_taken, new_slot, with_group, expire_rows}
use pikol_backend.Bookings.Integrity.{IsConsistent, occupies}
use pikol_backend.Bookings.Integrity.Insert.{HasFields}
use pikol_backend.Bookings.Integrity.Lapse.{IsOpen}
use pikol_backend.Events.Models.{ActionEvent}
use pikol_backend.Events.Service.{insert_event}
use pikol_backend.Database.{Tables, Session, for_each, ◌>>=◌}

-- No hour twice.
abbrev pub AreDistinct : List Instant → Type 0
AreDistinct [] = Unit {0}
AreDistinct (at ∷ l) = All (λ b. at ≢ b) l × AreDistinct l

-- Rows for free hours, no hour twice, are all added.
module _ (g : BookingGroup) where
  abbrev IsFree : List BookingSlot → Instant → Type 0
  IsFree slots at = any (occupies g.court_id at) slots ≡ false

-- Recording events changes no other table.
recorded :
    (events : List ActionEvent) (s : Session)
    → (log : List ActionEvent) × (for_each events insert_event s
        ≡ (ok tt, record s { tables = record s.tables { action_events = log } }))
unfolding for_each insert_event ◌>>=◌
recorded [] s = (s.tables.action_events, refl)
recorded (e ∷ events) s =
    recorded events
      (record s { tables = record s.tables { action_events = s.tables.action_events ++ e ∷ [] } })

module _ (fields : GroupFields) (slot_prices : List (Instant × ℕ)) (now : Instant) (s : Session)
    (c : IsConsistent s.tables) (d : HasFields fields)
    (whole : All (λ p. p.0 % hour ≡ 0) slot_prices)
    (distinct : AreDistinct (map (λ p. p.0) slot_prices))
    (open_hours : All (IsOpen fields.court_id now s.tables) (map (λ p. p.0) slot_prices))
    (unused : reference_taken
        (s.reference_codes s.drawn)
        s.tables.next_group_id
        s.tables.booking_groups
      ≡ false) where
  abbrev hours_of : List Instant
  hours_of = map (λ p. p.0) slot_prices

  abbrev group_of : BookingGroup
  group_of = new_group s.tables.next_group_id (s.reference_codes s.drawn) fields

  abbrev rows_left : List BookingSlot
  rows_left = (expire_rows fields.court_id hours_of now s.tables).booking_slots

  -- The tables after the booking.
  abbrev booked : List ActionEvent → Tables
  booked log =
      with_group group_of (rows_left ++ map (new_slot group_of) slot_prices)
        (record (expire_rows fields.court_id hours_of now s.tables) { action_events = log })

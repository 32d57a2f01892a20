-- ===== src/Examples/Rebook.antt =====
-- A walk-in for the hour of a hold that has lapsed, with the hold still in the tables.
use pikol_backend.Common.{◌+◌, some, List, [], ◌∷◌, map}
use pikol_backend.Time.{Instant, hours, minutes}
use pikol_backend.Bookings.Enums.{pending}
use pikol_backend.Bookings.Models.{BookingGroup, BookingSlot, GroupFields, new_group}
use pikol_backend.Bookings.Repository.{new_slot, with_group}
use pikol_backend.Bookings.Service.{walk_in_fields}
use pikol_backend.Database.{Tables, Session}
use pikol_backend.Program.{open_session}
use pikol_backend.Examples.Data.{new_tables, noon, codes}

abbrev hold_fields : GroupFields
hold_fields = record (walk_in_fields 1 40000 [] 8) {
  booking_status = pending;
  expires_at = some (noon + minutes 15);
}

abbrev lapsed_hold : BookingGroup
lapsed_hold = new_group 0 "held" hold_fields

abbrev evening : Instant
evening = noon + hours 6

abbrev held_rows : List BookingSlot
held_rows = map (new_slot lapsed_hold) ((evening, 40000) ∷ [])

abbrev with_hold : Tables
with_hold = with_group lapsed_hold held_rows new_tables

abbrev desk : Session
desk = open_session codes with_hold

abbrev fields : GroupFields
fields = walk_in_fields 1 40000 [] 8

-- ===== src/Examples/Requests.antt =====
-- A hold, a walk-in of another venue, and a start off the hour, on the sample tables.
use pikol_backend.Common.{All, ℕ, ◌+◌, ◌≡◌, refl, false, none, some, [], ◌∷◌, arith, length, inr}
use pikol_backend.Catalog.{everything}
use pikol_backend.Time.{hours, minutes, day, manila_date}
use pikol_backend.Errors.{ok, err, integrity_error, slot_on_the_hour, respond}
use pikol_backend.Bookings.Enums.{cash}
use pikol_backend.Bookings.Models.{new_group}
use pikol_backend.Bookings.Rules.{check_on_the_hour}
use pikol_backend.Bookings.Repository.{insert, reference_taken}
use pikol_backend.Bookings.Repository.OffHour.{off_hour_refused}
use pikol_backend.Bookings.Service.{
  not_found_error, cancel_by_staff, reopen, mark_paid, set_outcome, resolve, played, walk_in_fields,
}
use pikol_backend.Bookings.Service.Scope.{staff_hidden}
use pikol_backend.Bookings.Integrity.{IsConsistent}
use pikol_backend.Payments.Enums.{successful}
use pikol_backend.Database.{Tables, Session, put_row}
use pikol_backend.Program.{hold, after_request, open_session, Reach, initially, next, served}
use pikol_backend.Program.Reachable.{Reach-IsConsistent}
use pikol_backend.Bookings.Availability.{day_grid, courts_of_venue}
use pikol_backend.Bookings.Availability.Grid.{Shows, day_grid_available}
use pikol_backend.Examples.Data.{
  new_tables, no_accounts, two_courts, one_venue, sample_rules, sample_parameters, player,
  staff_member, other_venue, noon, codes, reporting, sample_payment, two_hours,
}

abbrev held_tables : Tables
held_tables =
    after_request (reporting (sample_payment successful 1)) codes noon (hold player two_hours)
      new_tables

abbrev held_reach : Reach held_tables
held_reach =
    next (initially two_courts one_venue sample_rules sample_parameters no_accounts)
      (served (reporting (sample_payment successful 1)) codes noon (hold player two_hours))

abbrev how_many : ℕ
how_many = length held_tables.booking_slots

Reach-IsConsistent_example : IsConsistent held_tables
Reach-IsConsistent_example = Reach-IsConsistent held_tables held_reach

-- The day of the hold, while it lasts.
day_grid_available_example :
    All
      (λ row. All (Shows noon held_tables row.court_id) row.slots)
      (day_grid 1
        (manila_date noon)
        noon
        (courts_of_venue 1 everything 100 held_tables)
        held_tables).courts
unfolding manila_date
day_grid_available_example =
    day_grid_available 1 (manila_date noon) noon held_tables
      (Reach-IsConsistent held_tables held_reach) (omega arith)

abbrev elsewhere : Session
elsewhere = open_session codes new_tables

-- A walk-in at venue 1, seen from venue 2.
abbrev walked_in : Session
walked_in = open_session codes (record new_tables {
  booking_groups = put_row 0 (new_group 0 "A" (walk_in_fields 1 40000 [] 8)) (λ i. none);
  next_group_id = 1;
})

staff_hidden_example :
    (cancel_by_staff staff_member 0 "" other_venue noon walked_in
      ≡ (err not_found_error, walked_in))
    × (reopen staff_member 0 "" other_venue noon walked_in ≡ (err not_found_error, walked_in))
    × (mark_paid staff_member 0 cash other_venue noon walked_in ≡ (err not_found_error, walked_in))
    × (set_outcome staff_member 0 played other_venue noon walked_in
        ≡ (err not_found_error, walked_in))
    × (resolve staff_member 0 "" other_venue noon walked_in ≡ (err not_found_error, walked_in))
staff_hidden_example =
    staff_hidden staff_member 0 "" cash played other_venue noon walked_in
      (refl, (inr (λ e. ground arith), (inr (λ e. ground arith), tt)))

-- A session of one hour at half past three of Indian time.
abbrev indian : ℕ
indian = day + hours 5 + minutes 30

passes : check_on_the_hour (record { instant = noon + minutes 30; tzinfo = some indian }) ≡ ok tt
unfolding check_on_the_hour
passes = refl

no_code : reference_taken (codes 0) 0 new_tables.booking_groups ≡ false
unfolding reference_taken
no_code = refl

off_hour_refused_example :
    ((insert (walk_in_fields 1 40000 [] 8) ((noon + minutes 30, 40000) ∷ []) elsewhere).0
      ≡ err (integrity_error slot_on_the_hour))
    × (respond (integrity_error slot_on_the_hour) ≡ (500, none))
off_hour_refused_example =
    off_hour_refused (noon + minutes 30) indian (walk_in_fields 1 40000 [] 8) 40000 [] elsewhere
      passes (omega arith) no_code

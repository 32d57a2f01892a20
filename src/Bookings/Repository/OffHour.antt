-- ===== src/Bookings/Repository/OffHour.antt =====
-- Sessions whose own clock shows a whole hour, under an offset that is no whole number of hours.
use pikol_backend.Common.{ℕ, ◌%◌, ◌≡◌, ◌≢◌, refl, false, none, some, List, ◌∷◌, arith, ◌==◌, nat_eq}
use pikol_backend.Time.{Instant, hour}
use pikol_backend.Errors.{ok, err, integrity_error, slot_on_the_hour, respond}
use pikol_backend.Bookings.Models.{GroupFields}
use pikol_backend.Bookings.Rules.{check_on_the_hour}
use pikol_backend.Bookings.Repository.{
  insert, insert_loop, insert_attempt, flush_group, flush_rows, after_flush, add_slot_rows,
  reference_taken,
}
use pikol_backend.Database.{Session, attempt, savepoint, ◌>>=◌}

off_hour_instant :
    (t offset : ℕ)
    → check_on_the_hour (record { instant = t; tzinfo = some offset }) ≡ ok tt
    → offset % hour ≢ 0
    → (t % hour == 0) ≡ false
unfolding check_on_the_hour
off_hour_instant t offset h ne = ground arith

-- A start that passes `check_on_the_hour` under an offset of no whole number of hours is refused by
-- the table of slots, whatever the group and the further hours are (the first reference code being
-- free), and the response to that error is a 500.
pub off_hour_refused :
    (t offset : ℕ) (fields : GroupFields) (price : ℕ) (rest : List (Instant × ℕ)) (s : Session)
    → check_on_the_hour (record { instant = t; tzinfo = some offset }) ≡ ok tt
    → offset % hour ≢ 0
    → reference_taken (s.reference_codes s.drawn) s.tables.next_group_id s.tables.booking_groups
      ≡ false
    → ((insert fields ((t, price) ∷ rest) s).0 ≡ err (integrity_error slot_on_the_hour))
      × (respond (integrity_error slot_on_the_hour) ≡ (500, none))
unfolding insert insert_loop insert_attempt flush_group flush_rows after_flush add_slot_rows respond
    attempt savepoint ◌>>=◌
off_hour_refused t offset fields price rest s h ne fresh =
    (rw (fresh, off_hour_instant t offset h ne) refl, refl)

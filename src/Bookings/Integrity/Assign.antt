-- ===== src/Bookings/Integrity/Assign.antt =====
-- Writes that leave the columns of integrity alone.

use pikol_backend.Common.{
  ℕ, ◌≡◌, Bool, true, false, Option, none, some, arith, All-mono, ◌==◌, nat_eq, if◌then◌else◌,
}
use pikol_backend.Bookings.Enums.{status_eq}
use pikol_backend.Bookings.Models.{BookingGroup, BookingSlot}
use pikol_backend.Bookings.Integrity.{IsConsistent, MirrorsGroup, HasDeadline, IsKeyed}
use pikol_backend.Database.{Tables, modify, update_row, alter}
use pikol_backend.Database.Keeps.{Keeps, Keeps-modify}

-- The assignment changes neither key, court, status nor deadline.
pub record LeavesKeys (f : BookingGroup → BookingGroup) : Type 0 where
  pub id : (g : BookingGroup) → (f g).id ≡ g.id
  pub court : (g : BookingGroup) → (f g).court_id ≡ g.court_id
  pub status : (g : BookingGroup) → (f g).booking_status ≡ g.booking_status
  pub deadline : (g : BookingGroup) → (f g).expires_at ≡ g.expires_at

module _ (id : ℕ) (f : BookingGroup → BookingGroup) (l : LeavesKeys f) where
  assigned_mirror :
      (b : Bool) (found : Option BookingGroup) (s : BookingSlot)
      → MirrorsGroup found s
      → MirrorsGroup (if b then alter f found else found) s
  assigned_mirror true none s m = m
  assigned_mirror true (some g) s m = ground (arith, l.status g, l.court g)
  assigned_mirror false found s m = m

  assigned_deadline :
      (b : Bool) (found : Option BookingGroup)
      → HasDeadline found
      → HasDeadline (if b then alter f found else found)
  assigned_deadline true none h = h
  assigned_deadline true (some g) h = rw (l.deadline g, l.status g) h
  assigned_deadline false found h = h

  assigned-IsKeyed :
      (i : ℕ) (b : Bool) (found : Option BookingGroup)
      → IsKeyed i found
      → IsKeyed i (if b then alter f found else found)
  assigned-IsKeyed i true none h = h
  assigned-IsKeyed i true (some g) h = rw (l.id g) h
  assigned-IsKeyed i false found h = h

  pub assign-IsConsistent :
      (t : Tables)
      → IsConsistent t
      → IsConsistent (record t { booking_groups = update_row id f t.booking_groups })
  assign-IsConsistent t c = record {
    mirrored =
        All-mono
          (λ s m.
            assigned_mirror (id == s.booking_group_id) (t.booking_groups s.booking_group_id) s m)
          t.booking_slots c.mirrored;
    exclusive = c.exclusive;
    deadlines = λ i. assigned_deadline (id == i) (t.booking_groups i) (c.deadlines i);
    keyed = λ i. assigned-IsKeyed i (id == i) (t.booking_groups i) (c.keyed i);
    fresh = λ i h. ground (arith, c.fresh i);
    whole_hours = c.whole_hours;
  }

  pub assign-Keeps :
      Keeps IsConsistent
        (modify (λ t. record t { booking_groups = update_row id f t.booking_groups }))
  assign-Keeps = Keeps-modify _ assign-IsConsistent

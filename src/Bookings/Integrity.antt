-- ===== src/Bookings/Integrity.antt =====
-- What the booking tables promise (bookings/persistence/models.py and the docstring of
-- `BookingRepository`): the integrity that every write keeps.
pub mod Slots
pub mod Insert
pub mod Status
pub mod Assign
pub mod Lapse
pub mod Rebook
use pikol_backend.Common.{
  ℕ, suc, ◌%◌, ◌≤◌, ◌≡◌, Bool, true, ◌&&◌, Option, none, some, List, All, count, ◌==◌, nat_eq,
  is_some,
}
use pikol_backend.Time.{Instant, hour}
use pikol_backend.Bookings.Enums.{BookingStatus, pending, status_eq}
use pikol_backend.Bookings.Models.{BookingGroup, BookingSlot, is_active}
use pikol_backend.Database.{Tables}

-- An active row for this court and hour.
abbrev pub occupies : ℕ → Instant → BookingSlot → Bool
occupies court at s = is_active s && s.court_id == court && s.starts_at == at

-- The slot's copies of its group's status and court are right, and the group is there.
abbrev pub MirrorsGroup : Option BookingGroup → BookingSlot → Type 0
MirrorsGroup none s = ⊥
MirrorsGroup (some g) s = (s.booking_status ≡ g.booking_status) × (s.court_id ≡ g.court_id)

-- Only a hold has a deadline, and every hold has one.
abbrev pub HasDeadline : Option BookingGroup → Type 0
HasDeadline none = Unit
HasDeadline (some g) = is_some g.expires_at ≡ (g.booking_status == pending)

abbrev pub IsKeyed : ℕ → Option BookingGroup → Type 0
IsKeyed i none = Unit
IsKeyed i (some g) = g.id ≡ i

abbrev pub Mirrors : (ℕ → Option BookingGroup) → BookingSlot → Type 0
Mirrors groups s = MirrorsGroup (groups s.booking_group_id) s

-- Over the table of groups, the next primary key, and the table of slots.
pub record AreConsistent (groups : ℕ → Option BookingGroup) (next : ℕ) (slots : List BookingSlot)
    : Type 0 where
  pub mirrored : All (Mirrors groups) slots
  pub exclusive : (court : ℕ) (at : Instant) → count (occupies court at) slots ≤ 1
  pub deadlines : (i : ℕ) → HasDeadline (groups i)
  pub keyed : (i : ℕ) → IsKeyed i (groups i)
  pub fresh : (i : ℕ) → next ≤ i → groups i ≡ none
  pub whole_hours : All (λ s. s.starts_at % hour ≡ 0) slots

-- Every slot mirrors its group, no court-hour has two active slots, exactly the pending groups have
-- a deadline, groups stand under their primary keys, and slots start on whole hours.
abbrev pub IsConsistent : Tables → Type 0
IsConsistent t = AreConsistent t.booking_groups t.next_group_id t.booking_slots

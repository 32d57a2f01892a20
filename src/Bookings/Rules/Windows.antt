-- ===== src/Bookings/Rules/Windows.antt =====
-- The hours of a session and the windows in which it may start.
use pikol_backend.Common.{
  ℕ, zero, suc, ◌+◌, ◌%◌, ◌≤◌, ◌≡◌, ◌↔◌, refl, some, arith, length, Option-cases, inl, inr,
}
use pikol_backend.Time.{Instant, DateTime, hour, hours, minutes, days}
use pikol_backend.Errors.{ok}
use pikol_backend.Bookings.Rules.{slot_starts, last_of, check_on_the_hour, check_player_window}

pub length-slot_starts : (t : Instant) (n : ℕ) → length (slot_starts t n) ≡ n
unfolding slot_starts
length-slot_starts t zero = refl
length-slot_starts t (suc n) = omega (arith, length-slot_starts (t + hour) n)

-- The last of n + 1 hours starts n hours after the first.
pub last_of-slot_starts : (t : Instant) (n : ℕ) → last_of (slot_starts t (suc n)) ≡ ok (t + hours n)
unfolding slot_starts
last_of-slot_starts t zero = ground arith
last_of-slot_starts t (suc n) = ground (arith, last_of-slot_starts (t + hour) n)

-- A player's session of n + 1 hours is in the window exactly if it starts no sooner than the lead
-- time from now, and its last hour starts no later than the horizon.
pub check_player_window_iff :
    (t : Instant) (n : ℕ) (now : Instant) (lead horizon : ℕ)
    → (check_player_window t (suc n) now lead horizon ≡ ok tt)
      ↔ ((now + minutes lead ≤ t) × (t + hours n ≤ now + days horizon))
unfolding check_player_window
check_player_window_iff t n now lead horizon = ground (arith, last_of-slot_starts t n)

-- A datetime passes exactly if it has a UTC offset and its own wall clock shows a whole hour.
pub check_on_the_hour_iff :
    (d : DateTime)
    → (check_on_the_hour d ≡ ok tt)
      ↔ ((offset : ℕ) × (d.tzinfo ≡ some offset) × ((d.instant + offset) % hour ≡ 0))
unfolding check_on_the_hour
check_on_the_hour_iff d = elim (Option-cases d.tzinfo) [
  | inl e ↦ ground arith
  | inr (offset, e) ↦ (λ h. (offset, e, ground arith), λ h. ground arith)
]

-- ===== src/Bookings/Rules.antt =====
-- bookings/domain/rules.py: every booking rule, as a function of a snapshot and of `now`.
pub mod Guards
pub mod Windows
use pikol_backend.Common.{
  ℕ, zero, suc, ◌+◌, ◌*◌, ◌≡◌, Bool, true, false, not, ◌&&◌, ◌||◌, Option, none, some, List, [],
  ◌∷◌, ltb, leb, ◌==◌, nat_eq, if◌then◌else◌,
}
use pikol_backend.Time.{
  Instant, DateTime, hour, hours, minutes, days, wall_minute, wall_second, wall_microsecond,
}
use pikol_backend.Errors.{
  Result, ok, err, index_error, ◌>>=◌, ◌>>◌, raise_if, conflict_error, invalid_error,
  not_on_the_hour, too_soon, beyond_horizon, too_far_back, is_closure, not_cancellable,
  not_a_walk_in, already_paid, not_payable, no_outcome, not_started,
}
use pikol_backend.Bookings.Enums.{
  BookingType, BookingStatus, PaymentStatus, walk_in, maintenance, pending, confirmed, completed,
  no_show, cancelled, expired, unpaid, type_eq, status_eq, payment_eq,
}

pub record BookingSnapshot : Type 0 where
  pub type : BookingType
  pub booking_status : BookingStatus
  pub payment_status : PaymentStatus
  pub starts_at : Instant
  pub hours : ℕ
  pub expires_at : Option Instant

unfoldable pub ends_at : BookingSnapshot → Instant
ends_at b = b.starts_at + b.hours * hour

-- `expires_at is not None and expires_at > now`
abbrev pub is_after : Option Instant → Instant → Bool
is_after none now = false
is_after (some t) now = ltb now t

unfoldable pub is_live_hold : BookingSnapshot → Instant → Bool
is_live_hold b now = b.booking_status == pending && is_after b.expires_at now

slot_starts_from : ℕ → Instant → List Instant
slot_starts_from zero t = []
slot_starts_from (suc n) t = t ∷ slot_starts_from n (t + hour)

-- `[starts_at + h * SLOT for h in range(hours)]`
unfoldable pub slot_starts : Instant → ℕ → List Instant
unfolding slot_starts_from
slot_starts starts_at n = slot_starts_from n starts_at

unfoldable pub check_on_the_hour : DateTime → Result (Unit {0})
check_on_the_hour t = elim t.tzinfo [
  | none ↦ err (invalid_error not_on_the_hour)
  | some offset ↦
      raise_if
        (not (
          wall_minute t.instant offset == 0
          && wall_second t.instant offset == 0
          && wall_microsecond t.instant offset == 0))
        (invalid_error not_on_the_hour)
]

-- `l[-1]`
abbrev pub last_of : List Instant → Result Instant
last_of [] = err index_error
last_of (x ∷ []) = ok x
last_of (x ∷ y ∷ l) = last_of (y ∷ l)

unfoldable pub check_player_window : Instant → ℕ → Instant → ℕ → ℕ → Result (Unit {0})
check_player_window starts_at hours now min_lead_minutes horizon_days = do
  raise_if (ltb starts_at (now + minutes min_lead_minutes)) (invalid_error too_soon)
  last ← last_of (slot_starts starts_at hours)
  raise_if (ltb (now + days horizon_days) last) (invalid_error beyond_horizon)

-- `starts_at < now - timedelta(days=backdate_days)`, with the days on the other side
unfoldable pub check_walk_in_window : Instant → Instant → ℕ → Result (Unit {0})
check_walk_in_window starts_at now backdate_days =
    raise_if (ltb (starts_at + days backdate_days) now) (invalid_error too_far_back)

unfoldable pub can_cancel_by_staff : BookingSnapshot → Result (Unit {0})
can_cancel_by_staff b = do
  raise_if (b.type == maintenance) (conflict_error is_closure)
  raise_if (not (b.booking_status == confirmed)) (conflict_error not_cancellable)

unfoldable pub can_cancel_closure : BookingSnapshot → Result (Unit {0})
can_cancel_closure b =
    raise_if (not (b.type == maintenance) || not (b.booking_status == confirmed))
      (conflict_error not_cancellable)

unfoldable pub can_mark_paid : BookingSnapshot → Result (Unit {0})
can_mark_paid b = do
  raise_if (not (b.type == walk_in)) (conflict_error not_a_walk_in)
  raise_if (not (b.payment_status == unpaid)) (conflict_error already_paid)
  raise_if (not (b.booking_status == confirmed || b.booking_status == completed))
      (conflict_error not_payable)

unfoldable pub can_set_outcome : BookingSnapshot → Instant → Result (Unit {0})
can_set_outcome b now = do
  raise_if (b.type == maintenance || not (b.booking_status == confirmed))
      (conflict_error no_outcome)
  raise_if (ltb now b.starts_at) (conflict_error not_started)

pub data DisplayStatus : Type 0 where
  in_progress : DisplayStatus
  stored : BookingStatus → DisplayStatus

unfoldable pub display_status : BookingSnapshot → Instant → DisplayStatus
unfolding is_live_hold ends_at
display_status b now =
    if b.booking_status == pending && not (is_live_hold b now)
    then stored expired
    else if b.booking_status == confirmed && leb b.starts_at now && ltb now (ends_at b)
    then in_progress
    else stored b.booking_status

-- ===== src/Time/Manila.antt =====
-- The Manila day of an instant (utils/time.py).
use pikol_backend.Common.{ℕ, ◌+◌, ◌≤◌, ◌<◌, ◌≡◌, ◌↔◌, arith}
use pikol_backend.Time.{Instant, Date, hours, manila_date, manila_hour, manila_day_bounds}

-- The bounds of a Manila day hold an instant exactly when its Manila date is that day: the
-- half-open interval is the 24 hours of the calendar day, for every date but the first of all.
pub manila_day_bounds_iff :
    (d : Date) (t : Instant)
    → 1 ≤ d
    → (((manila_day_bounds d).0 ≤ t) × (t < (manila_day_bounds d).1)) ↔ (manila_date t ≡ d)
unfolding manila_day_bounds manila_date
manila_day_bounds_iff d t h = (λ b. omega arith, λ e. omega arith)

-- The h-th hour from the start of a Manila day is the hour h of that day.
pub manila_hour-day_bounds :
    (d : Date) (h : ℕ)
    → 1 ≤ d
    → h < 24
    → (manila_hour ((manila_day_bounds d).0 + hours h) ≡ h)
      × (manila_date ((manila_day_bounds d).0 + hours h) ≡ d)
unfolding manila_day_bounds manila_date manila_hour
manila_hour-day_bounds d h p q = (omega arith, omega arith)

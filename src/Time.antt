-- ===== src/Time.antt =====
-- utils/time.py and the use of `datetime` in the rules. An instant is a count of microseconds from
-- 0001-01-01T00:00Z, the least `datetime`; a wall clock is that of its UTC offset. Manila has the
-- fixed offset +08, as the source relies on.
pub mod Manila
use pikol_backend.Common.{ℕ, ◌+◌, ◌-◌, ◌*◌, ◌/◌, ◌%◌, Option}

abbrev pub Instant : Type 0
Instant = ℕ

abbrev pub second : ℕ
second = 1000000

abbrev pub minute : ℕ
minute = 60000000

abbrev pub hour : ℕ
hour = 3600000000

abbrev pub day : ℕ
day = 86400000000

-- `timedelta(minutes=n)`, `timedelta(hours=n)`, `timedelta(days=n)`
abbrev pub minutes : ℕ → ℕ
minutes n = n * minute

abbrev pub hours : ℕ → ℕ
hours n = n * hour

abbrev pub days : ℕ → ℕ
days n = n * day

-- A `datetime` as a request carries it. `tzinfo` is the UTC offset plus 24 hours, in microseconds,
-- so that offsets west of Greenwich are numbers too.
pub record DateTime : Type 0 where
  pub instant : Instant
  pub tzinfo : Option ℕ

-- The wall clock's fields under an offset; a whole day more changes none of them.
abbrev pub wall_minute : Instant → ℕ → ℕ
wall_minute t offset = (t + offset) / minute % 60

abbrev pub wall_second : Instant → ℕ → ℕ
wall_second t offset = (t + offset) / second % 60

abbrev pub wall_microsecond : Instant → ℕ → ℕ
wall_microsecond t offset = (t + offset) % second

-- A calendar date is the count of days from 0001-01-01.
abbrev pub Date : Type 0
Date = ℕ

-- `t.astimezone(MANILA)`
abbrev pub manila_clock : Instant → ℕ
manila_clock t = t + 8 * hour

-- `t.astimezone(MANILA).date()`
unfoldable pub manila_date : Instant → Date
manila_date t = manila_clock t / day

-- `t.astimezone(MANILA).hour`
unfoldable pub manila_hour : Instant → ℕ
manila_hour t = manila_clock t % day / hour

-- `local.isoweekday() % 7`: 0001-01-01 is a Monday, and Sunday is 0.
unfoldable pub manila_weekday : Instant → ℕ
unfolding manila_date
manila_weekday t = (manila_date t % 7 + 1) % 7

-- `datetime.combine(day, time.min, tzinfo=MANILA)` and a day later, in UTC. The first date of all
-- has no such instant; dates here are at least 1.
unfoldable pub manila_day_bounds : Date → Instant × Instant
manila_day_bounds d = let start = d * day in (start - 8 * hour, start + day - 8 * hour)

-- `now.replace(minute=0, second=0, microsecond=0)` of a UTC instant
abbrev pub floor_hour : Instant → Instant
floor_hour t = t / hour * hour

-- ===== src/Time.antt =====
-- Instants and time zones. A time.Time is the number of nanoseconds since 0001-01-01 00:00 UTC, the
-- zero value of the Go type: `IsZero` is `== 0`, and `UTC()` leaves the instant as it is. A
-- time.Duration is a signed number of nanoseconds. The IANA time zones are no part of the
-- repository: a location is a record of what the code asks of one.
mod Int
pub use Int.*
use lidradar.Prelude.{ℕ, ◌+◌, ◌-◌, ◌*◌, ◌/◌, ◌%◌, ◌≤◌, ◌<◌, ◌≡◌, Bool, ltb, ◌==◌, arith}

abbrev pub Time : Type 0
Time = ℕ

abbrev pub Duration : Type 0
Duration = ℤ

abbrev pub is_zero : Time → Bool
is_zero t = t == 0

-- `a.Before(b)` and `a.After(b)`.
abbrev pub before : Time → Time → Bool
before a b = ltb a b

abbrev pub after : Time → Time → Bool
after a b = ltb b a

abbrev pub second : ℕ
second = 1_000_000_000

abbrev pub minute_ns : ℕ
minute_ns = 60 * second

abbrev pub hour_ns : ℕ
hour_ns = 60 * minute_ns

abbrev pub day_ns : ℕ
day_ns = 24 * hour_ns

-- `t.Add(d)`; no instant lies before the zero one.
abbrev pub add_duration : Time → Duration → Time
add_duration t (pos n) = t + n
add_duration t (negsuc n) = t - (n + 1)

-- What the code asks of a *time.Location: the calendar day of an instant, counted from 0001-01-01,
-- its wall clock, time.Date at a day, hour and minute, and `In(loc).AddDate(0, 0, n)`.
pub record Location : Type 0 where
  pub day : Time → ℕ
  pub hour : Time → ℕ
  pub minute : Time → ℕ
  pub date : ℕ → ℕ → ℕ → Time
  pub add_date : Time → ℕ → Time

-- Local midnight, `time.Date(y, m, d, 0, 0, 0, 0, loc)`.
abbrev pub midnight : Location → ℕ → Time
midnight loc d = loc.date d 0 0

-- 0001-01-01 is a Monday, and time.Sunday is 0.
abbrev pub weekday_of : ℕ → ℕ
weekday_of d = (d + 1) % 7

-- The documented behaviour of package time in a zone whose clocks never skip or repeat a midnight: a
-- day begins at its midnight and ends before the next one, and `AddDate` counts calendar days.
pub record IsCalendar (loc : Location) : Type 0 where
  pub midnight-le : (t : Time) → midnight loc (loc.day t) ≤ t
  pub lt-midnight : (t : Time) → t < midnight loc (loc.day t + 1)
  pub day-midnight : (d : ℕ) → loc.day (midnight loc d) ≡ d
  pub day-add_date : (t : Time) (n : ℕ) → loc.day (loc.add_date t n) ≡ loc.day t + n

-- UTC, the location with days of 24 hours and no shift.
abbrev pub utc : Location
utc = record {
  day = λ t. t / day_ns;
  hour = λ t. t % day_ns / hour_ns;
  minute = λ t. t % hour_ns / minute_ns;
  date = λ d h m. d * day_ns + h * hour_ns + m * minute_ns;
  add_date = λ t n. t + n * day_ns;
}

pub utc-IsCalendar : IsCalendar utc
utc-IsCalendar = record {
  midnight-le = λ t. omega arith;
  lt-midnight = λ t. omega arith;
  day-midnight = λ d. omega arith;
  day-add_date = λ t n. omega arith;
}

-- A zone shows a clock time once on every day, which is so for any time of day that no change of
-- the clocks skips or repeats: `time.Date` has the wall clock it was asked for, and lies behind every
-- moment of the day whose clock shows less.
pub record ShowsOnce (loc : Location) (h m : ℕ) : Type 0 where
  pub day-date : (d : ℕ) → loc.day (loc.date d h m) ≡ d
  pub hour-date : (d : ℕ) → loc.hour (loc.date d h m) ≡ h
  pub minute-date : (d : ℕ) → loc.minute (loc.date d h m) ≡ m
  pub lt-date :
      (t : Time) → loc.hour t * 60 + loc.minute t < h * 60 + m → t < loc.date (loc.day t) h m

pub utc-ShowsOnce : (h m : ℕ) → h ≤ 23 → m ≤ 59 → ShowsOnce utc h m
utc-ShowsOnce h m k l = record {
  day-date = λ d. omega arith;
  hour-date = λ d. omega arith;
  minute-date = λ d. omega arith;
  lt-date = λ t e. omega arith;
}

-- `time.Date` is on the day that it was asked for, also where a change of the clocks moves the clock
-- time, as long as no change reaches over a midnight.
abbrev pub KeepsDay : Location → Type 0
KeepsDay loc = (d h m : ℕ) → h ≤ 23 → m ≤ 59 → loc.day (loc.date d h m) ≡ d

pub utc-KeepsDay : KeepsDay utc
utc-KeepsDay d h m k l = omega arith

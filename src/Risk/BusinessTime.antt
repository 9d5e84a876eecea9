-- ===== src/Risk/BusinessTime.antt =====
-- Business hours and the time that passes within them
-- (backend/internal/risk/domain/business_time.go). Every error of the file is ErrInvalidBusinessHours,
-- so a result is an Option.
pub mod Day
pub mod Schedule
pub mod RoundTrip
pub mod Due
pub mod Weeks
pub mod Total
use lidradar.Prelude.{
  ℕ, zero, suc, ◌+◌, ◌-◌, ◌*◌, ◌≡◌, refl, String, Bool, true, false, not, ◌&&◌, ◌||◌, Option, none,
  some, List, [], ◌∷◌, map, length, ltb, leb, ◌==◌, if◌then◌else◌,
}
use lidradar.Time.{
  Time, Duration, ℤ, pos, negsuc, ltb_ℤ, leb_ℤ, is_zero, before, after, add_duration, hour_ns,
  minute_ns, day_ns, Location, midnight, weekday_of,
}

pub record BusinessPeriod : Type 0 where
  pub open_at : Duration
  pub close_at : Duration

-- A schedule has a list of periods for each weekday; the keys of the Go map are the seven weekdays.
pub record BusinessHours : Type 0 where
  pub timezone : String
  pub weekly : ℕ → List BusinessPeriod

-- `Clock`, the time of day as an offset from midnight.
unfoldable pub clock : ℕ → ℕ → Duration
clock hour minute = pos (hour * hour_ns + minute * minute_ns)

-- sort.Slice by the opening; periods that open together are refused whatever their order.
unfoldable pub insert : BusinessPeriod → List BusinessPeriod → List BusinessPeriod
insert p [] = p ∷ []
insert p (q ∷ qs) =
    let rest = insert p qs in if leb_ℤ p.open_at q.open_at then p ∷ q ∷ qs else q ∷ rest

unfoldable pub sort : List BusinessPeriod → List BusinessPeriod
unfolding insert
sort [] = []
sort (p ∷ ps) = insert p (sort ps)

unfoldable pub period_ok : BusinessPeriod → Bool
period_ok p =
    not (ltb_ℤ p.open_at (pos 0) || ltb_ℤ (pos day_ns) p.close_at || leb_ℤ p.close_at p.open_at)

-- The loop over the ordered periods of a day, after one that closes at `last`.
unfoldable pub ordered_after : Duration → List BusinessPeriod → Bool
unfolding period_ok
ordered_after last [] = true
ordered_after last (p ∷ ps) =
    period_ok p && not (ltb_ℤ p.open_at last) && ordered_after p.close_at ps

unfoldable pub ordered_ok : List BusinessPeriod → Bool
unfolding ordered_after
ordered_ok [] = true
ordered_ok (p ∷ ps) = period_ok p && ordered_after p.close_at ps

unfoldable pub day_ok : BusinessHours → ℕ → Bool
unfolding sort ordered_ok
day_ok h w = ordered_ok (sort (h.weekly w))

-- `periodCount`.
unfoldable pub period_count : BusinessHours → ℕ
period_count h =
    length (h.weekly 0)
    + length (h.weekly 1)
    + length (h.weekly 2)
    + length (h.weekly 3)
    + length (h.weekly 4)
    + length (h.weekly 5)
    + length (h.weekly 6)

unfoldable pub schedule_ok : BusinessHours → Bool
unfolding day_ok period_count
schedule_ok h =
    day_ok h 0
    && day_ok h 1
    && day_ok h 2
    && day_ok h 3
    && day_ok h 4
    && day_ok h 5
    && day_ok h 6
    && not (period_count h == 0)

-- `localDayPeriod`: the opening and the closing instant of a period on the day of that midnight.
unfoldable pub local_day_period : Time → BusinessPeriod → Time × Time
local_day_period mid p = (add_duration mid p.open_at, add_duration mid p.close_at)

-- What the inner loop of `AddBusinessTime` comes to: the answer, or the amount that is left.
pub data Scan : Type 0 where
  done : Time → Scan
  left : ℕ → Scan

-- The inner loop, over the periods of the cursor's day in order.
unfoldable pub scan : Time → ℕ → List (Time × Time) → Scan
scan cursor amount [] = Scan.left amount
scan cursor amount ((opening, closing) ∷ rest) =
    let start = if before cursor opening then opening else cursor in
    let available = closing - start in
    let skip = scan cursor amount rest in
    let onward = scan cursor (amount - available) rest in
    if not (before cursor closing)
    then skip
    else (if leb amount available then Scan.done (start + amount) else onward)

-- The overlaps that `ElapsedBusinessTime` sums over the periods of one day.
unfoldable pub overlap : Time → Time → List (Time × Time) → ℕ
overlap from to [] = 0
overlap from to ((opening, closing) ∷ rest) =
    let start = if before opening from then from else opening in
    let end = if after closing to then to else closing in
    (if after end start then end - start else 0) + overlap from to rest

-- The loop over the days has at most this many rounds.
abbrev pub max_days : ℕ
max_days = 3660

-- time.LoadLocation is a parameter: the table of the IANA zones.
module _ (loc : Location) (h : BusinessHours) where
  -- The periods of the cursor's day, as instants: as the map lists them, and in order.
  unfoldable pub day_periods : Time → List (Time × Time)
  unfolding local_day_period
  day_periods cursor =
      map (local_day_period (midnight loc (loc.day cursor)))
        (h.weekly (weekday_of (loc.day cursor)))

  unfoldable pub sorted_periods : Time → List (Time × Time)
  unfolding local_day_period sort
  sorted_periods cursor =
      map (local_day_period (midnight loc (loc.day cursor)))
        (sort (h.weekly (weekday_of (loc.day cursor))))

  -- The midnight after the cursor's day.
  unfoldable pub next_cursor : Time → Time
  next_cursor cursor = midnight loc (loc.day (loc.add_date cursor 1))

  unfoldable pub add_loop : ℕ → Time → ℕ → Option Time
  unfolding sorted_periods scan next_cursor
  add_loop zero cursor amount = none
  add_loop (suc days) cursor amount = elim (scan cursor amount (sorted_periods cursor)) [
    | Scan.done t ↦ some t
    | Scan.left rest ↦ add_loop days (next_cursor cursor) rest
  ]

  unfoldable pub elapsed_loop : ℕ → Time → Time → Time → ℕ
  unfolding day_periods overlap next_cursor
  elapsed_loop zero cursor from to = 0
  elapsed_loop (suc days) cursor from to =
      let today = overlap from to (day_periods cursor) in
      let rest = elapsed_loop days (next_cursor cursor) from to in
      if after cursor to then 0 else today + rest

module _ (load_location : String → Option Location) (h : BusinessHours) where
  -- `BusinessHours.validate`.
  unfoldable pub validate : Option Location
  unfolding schedule_ok
  validate = elim (load_location h.timezone) [
    | none ↦ none
    | some loc ↦ if schedule_ok h then some loc else none
  ]

  unfoldable pub add_business_time : Time → Duration → Option Time
  unfolding validate
  add_business_time from (negsuc n) = none
  add_business_time from (pos amount) = elim validate [
    | none ↦ none
    | some loc ↦
        if is_zero from
        then none
        else (if amount == 0 then some from else add_loop loc h max_days from amount)
  ]

  unfoldable pub elapsed_business_time : Time → Time → Option ℕ
  unfolding validate
  elapsed_business_time from to = elim validate [
    | none ↦ none
    | some loc ↦
        if is_zero from || is_zero to || before to from
        then none
        else some (elapsed_loop loc h max_days from from to)
  ]

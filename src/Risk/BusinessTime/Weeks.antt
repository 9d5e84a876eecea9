-- ===== src/Risk/BusinessTime/Weeks.antt =====
-- How long a schedule is open in a day, in a week and in a number of days, and what the scan of a
-- day uses of it.
use lidradar.Prelude.{
  ℕ, zero, suc, ◌+◌, ◌-◌, ◌*◌, ◌≤◌, ◌<◌, ◌≡◌, refl, true, false, inl, inr, List, [], ◌∷◌, map,
  arith, Bool-cases, ltb, leb, if◌then◌else◌,
}
use lidradar.Time.{Time, pos, pos_part, ltb_ℤ, leb_ℤ, Duration, negsuc, weekday_of, add_duration}
use lidradar.Risk.BusinessTime.{
  BusinessPeriod, BusinessHours, insert, sort, ordered_after, ordered_ok, local_day_period, scan,
  Scan,
}
use lidradar.Risk.BusinessTime.Day.{Ordered}

-- How long the periods of a day are open.
unfoldable pub open_time : List BusinessPeriod → ℕ
open_time [] = 0
open_time (p ∷ ps) = (pos_part p.close_at - pos_part p.open_at) + open_time ps

-- How long the schedule is open in a week.
unfoldable pub week_time : BusinessHours → ℕ
unfolding open_time
week_time h =
    open_time (h.weekly 0)
    + open_time (h.weekly 1)
    + open_time (h.weekly 2)
    + open_time (h.weekly 3)
    + open_time (h.weekly 4)
    + open_time (h.weekly 5)
    + open_time (h.weekly 6)

-- The length of intervals.
abbrev pub span : List (Time × Time) → ℕ
span [] = 0
span (p ∷ ps) = (p.1 - p.0) + span ps

-- From the midnight of a day or earlier the scan uses up all of the day's periods.
pub scan-span :
    (low c a : ℕ) (r : ℕ) (ps : List (Time × Time))
    → c ≤ low
    → Ordered low ps
    → scan c a ps ≡ Scan.left r
    → r + span ps ≡ a
unfolding scan
scan-span low c a r [] l o h = ground arith
scan-span low c a r (p ∷ ps) l o h = ground (arith, scan-span p.1 c (a - (p.1 - p.0)) r ps)

-- The scan leaves at most what it was given.
pub scan-left-le : (c a r : ℕ) (ps : List (Time × Time)) → scan c a ps ≡ Scan.left r → r ≤ a
unfolding scan
scan-left-le c a r [] h = ground arith
scan-left-le c a r (q ∷ ps) h =
    ground (
      arith,
      scan-left-le c a r ps,
      scan-left-le c (a - (q.1 - (if ltb c q.0 then q.0 else c))) r ps,
    )

-- What the scan leaves is more than nothing.
pub scan-left-pos :
    (low c a r : ℕ) (ps : List (Time × Time))
    → Ordered low ps
    → 0 < a
    → scan c a ps ≡ Scan.left r
    → 0 < r
unfolding scan
scan-left-pos low c a r [] o p h = ground arith
scan-left-pos low c a r (q ∷ ps) o p h = elim (Bool-cases (ltb c q.1)) [
  | inl early ↦ elim (Bool-cases (leb a (q.1 - (if ltb c q.0 then q.0 else c)))) [
    | inl fits ↦ ground arith
    | inr beyond ↦
        ground (arith, scan-left-pos q.1 c (a - (q.1 - (if ltb c q.0 then q.0 else c))) r ps o.2)
  ]
  | inr over ↦ ground (arith, scan-left-pos q.1 c a r ps o.2)
]

open_time-insert :
    (p : BusinessPeriod) (ps : List BusinessPeriod) → open_time (insert p ps) ≡ open_time (p ∷ ps)
unfolding insert open_time
open_time-insert p [] = refl
open_time-insert p (q ∷ qs) = ground (arith, open_time-insert p qs)

pub open_time-sort : (ps : List BusinessPeriod) → open_time (sort ps) ≡ open_time ps
unfolding sort open_time
open_time-sort [] = refl
open_time-sort (p ∷ ps) =
    unfold open_time in omega (arith, open_time-insert p (sort ps), open_time-sort ps)

period_length :
    (m : Time) (d e : Duration)
    → ltb_ℤ d (pos 0) ≡ false
    → leb_ℤ e d ≡ false
    → add_duration m e - add_duration m d ≡ pos_part e - pos_part d
period_length m (pos a) (pos b) h k = ground arith
period_length m (pos a) (negsuc b) h k = ground arith
period_length m (negsuc a) (pos b) h k = ground arith
period_length m (negsuc a) (negsuc b) h k = ground arith

span-ordered_after :
    (m : Time) (last : Duration) (ps : List BusinessPeriod)
    → ordered_after last ps ≡ true
    → span (map (local_day_period m) ps) ≡ open_time ps
unfolding ordered_after local_day_period open_time
span-ordered_after m last [] h = refl
span-ordered_after m last (p ∷ ps) h =
    ground (
      arith,
      period_length m p.open_at p.close_at,
      span-ordered_after m p.close_at ps (ground arith),
    )

pub span-ordered_ok :
    (m : Time) (ps : List BusinessPeriod)
    → ordered_ok ps ≡ true
    → span (map (local_day_period m) ps) ≡ open_time ps
unfolding ordered_ok local_day_period open_time
span-ordered_ok m [] h = refl
span-ordered_ok m (p ∷ ps) h =
    ground (
      arith,
      period_length m p.open_at p.close_at,
      span-ordered_after m p.close_at ps (ground arith),
    )

-- How long `n` days are open, from day `d` on.
unfoldable pub days_time : BusinessHours → ℕ → ℕ → ℕ
days_time h d zero = 0
days_time h d (suc n) = open_time (h.weekly (weekday_of d)) + days_time h (d + 1) n

week_from : (h : BusinessHours) (d w : ℕ) → weekday_of d ≡ w → days_time h d 7 ≡ week_time h
unfolding days_time week_time
week_from h d zero e = ground arith
week_from h d (suc zero) e = ground arith
week_from h d (suc (suc zero)) e = ground arith
week_from h d (suc (suc (suc zero))) e = ground arith
week_from h d (suc (suc (suc (suc zero)))) e = ground arith
week_from h d (suc (suc (suc (suc (suc zero))))) e = ground arith
week_from h d (suc (suc (suc (suc (suc (suc zero)))))) e = ground arith
week_from h d (suc (suc (suc (suc (suc (suc (suc w))))))) e = absurd (omega arith)

days_time-week : (h : BusinessHours) (d : ℕ) → days_time h d 7 ≡ week_time h
days_time-week h d = week_from h d (weekday_of d) refl

days_time-add :
    (h : BusinessHours) (d n : ℕ)
    → days_time h d (suc (suc (suc (suc (suc (suc (suc n)))))))
      ≡ days_time h d 7 + days_time h (d + 7) n
unfolding days_time
days_time-add h d n =
    let same : d + 1 + 1 + 1 + 1 + 1 + 1 + 1 ≡ d + 7 = omega arith in rw same (omega arith)

-- Whole weeks are each open for the week's time, whatever the day on which they begin.
pub days_time-weeks :
    (h : BusinessHours) (k d n : ℕ) → 7 * k ≤ n → k * week_time h ≤ days_time h d n
days_time-weeks h zero d n l = omega arith
days_time-weeks h (suc k) d zero l = absurd (omega arith)
days_time-weeks h (suc k) d (suc zero) l = absurd (omega arith)
days_time-weeks h (suc k) d (suc (suc zero)) l = absurd (omega arith)
days_time-weeks h (suc k) d (suc (suc (suc zero))) l = absurd (omega arith)
days_time-weeks h (suc k) d (suc (suc (suc (suc zero)))) l = absurd (omega arith)
days_time-weeks h (suc k) d (suc (suc (suc (suc (suc zero))))) l = absurd (omega arith)
days_time-weeks h (suc k) d (suc (suc (suc (suc (suc (suc zero)))))) l = absurd (omega arith)
days_time-weeks h (suc k) d (suc (suc (suc (suc (suc (suc (suc n))))))) l =
    omega
      (arith, days_time-add h d n, days_time-week h d, days_time-weeks h k (d + 7) n (omega arith))

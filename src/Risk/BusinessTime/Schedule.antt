-- ===== src/Risk/BusinessTime/Schedule.antt =====
-- What the validation of a schedule gives: on each day the periods follow one another.
use lidradar.Prelude.{
  ℕ, zero, suc, ◌≤◌, ◌<◌, ◌≡◌, refl, ◌∙◌, true, false, List, [], ◌∷◌, map, arith,
}
use lidradar.Time.{
  Time, Duration, pos, negsuc, leb_ℤ, ltb_ℤ, add_duration, midnight, weekday_of, Location,
}
use lidradar.Risk.BusinessTime.{
  BusinessPeriod, BusinessHours, insert, sort, ordered_after, ordered_ok, day_ok, schedule_ok,
  local_day_period, overlap, day_periods, sorted_periods,
}
use lidradar.Risk.BusinessTime.Day.{Ordered}

add_duration_mono :
    (m : Time) (d e : Duration) → leb_ℤ d e ≡ true → add_duration m d ≤ add_duration m e
add_duration_mono m (pos a) (pos b) h = ground arith
add_duration_mono m (pos a) (negsuc b) h = ground arith
add_duration_mono m (negsuc a) (pos b) h = ground arith
add_duration_mono m (negsuc a) (negsuc b) h = ground arith

add_duration_lt :
    (m : Time) (d e : Duration)
    → ltb_ℤ d (pos 0) ≡ false
    → leb_ℤ e d ≡ false
    → add_duration m d < add_duration m e
add_duration_lt m (pos a) (pos b) h k = ground arith
add_duration_lt m (pos a) (negsuc b) h k = ground arith
add_duration_lt m (negsuc a) (pos b) h k = ground arith
add_duration_lt m (negsuc a) (negsuc b) h k = ground arith

opens_after : (m : Time) (d : Duration) → ltb_ℤ d (pos 0) ≡ false → m ≤ add_duration m d
opens_after m (pos a) h = ground arith
opens_after m (negsuc a) h = ground arith

ordered_after-Ordered :
    (m : Time) (last : Duration) (ps : List BusinessPeriod)
    → ordered_after last ps ≡ true
    → Ordered (add_duration m last) (map (local_day_period m) ps)
unfolding ordered_after local_day_period
ordered_after-Ordered m last [] h = tt
ordered_after-Ordered m last (p ∷ ps) h = (
  add_duration_mono m last p.open_at (ground arith),
  add_duration_lt m p.open_at p.close_at (ground arith) (ground arith),
  ordered_after-Ordered m p.close_at ps (ground arith),
)

ordered_ok-Ordered :
    (m : Time) (ps : List BusinessPeriod)
    → ordered_ok ps ≡ true
    → Ordered m (map (local_day_period m) ps)
unfolding ordered_ok local_day_period
ordered_ok-Ordered m [] h = tt
ordered_ok-Ordered m (p ∷ ps) h = (
  opens_after m p.open_at (ground arith),
  add_duration_lt m p.open_at p.close_at (ground arith) (ground arith),
  ordered_after-Ordered m p.close_at ps (ground arith),
)

overlap-insert :
    (m from to : Time) (p : BusinessPeriod) (ps : List BusinessPeriod)
    → overlap from to (map (local_day_period m) (insert p ps))
      ≡ overlap from to (map (local_day_period m) (p ∷ ps))
unfolding insert overlap
overlap-insert m from to p [] = refl
overlap-insert m from to p (q ∷ qs) = ground (arith, overlap-insert m from to p qs)

overlap_cons :
    (from to : Time) (p : Time × Time) (ps qs : List (Time × Time))
    → overlap from to ps ≡ overlap from to qs
    → overlap from to (p ∷ ps) ≡ overlap from to (p ∷ qs)
unfolding overlap
overlap_cons from to p ps qs h = rw h

overlap-sort :
    (m from to : Time) (ps : List BusinessPeriod)
    → overlap from to (map (local_day_period m) (sort ps))
      ≡ overlap from to (map (local_day_period m) ps)
unfolding sort
overlap-sort m from to [] = refl
overlap-sort m from to (p ∷ ps) =
    overlap-insert m from to p (sort ps)
    ∙ overlap_cons from to (local_day_period m p) _ _ (overlap-sort m from to ps)

pub day_ok_of_schedule :
    (h : BusinessHours) (w : ℕ) → schedule_ok h ≡ true → w < 7 → day_ok h w ≡ true
unfolding schedule_ok
day_ok_of_schedule h zero k l = ground arith
day_ok_of_schedule h (suc zero) k l = ground arith
day_ok_of_schedule h (suc (suc zero)) k l = ground arith
day_ok_of_schedule h (suc (suc (suc zero))) k l = ground arith
day_ok_of_schedule h (suc (suc (suc (suc zero)))) k l = ground arith
day_ok_of_schedule h (suc (suc (suc (suc (suc zero))))) k l = ground arith
day_ok_of_schedule h (suc (suc (suc (suc (suc (suc zero)))))) k l = ground arith
day_ok_of_schedule h (suc (suc (suc (suc (suc (suc (suc w))))))) k l = absurd (omega arith)

module _ (loc : Location) (h : BusinessHours) where
  -- On every day of a valid schedule the sorted periods follow one another from midnight on.
  pub sorted_periods-Ordered :
      (cursor : Time)
      → schedule_ok h ≡ true
      → Ordered (midnight loc (loc.day cursor)) (sorted_periods loc h cursor)
  unfolding sorted_periods day_ok
  sorted_periods-Ordered cursor ok =
      ordered_ok-Ordered (midnight loc (loc.day cursor)) _
        (day_ok_of_schedule h (weekday_of (loc.day cursor)) ok (omega arith))

  pub overlap-sorted_periods :
      (from to cursor : Time)
      → overlap from to (sorted_periods loc h cursor) ≡ overlap from to (day_periods loc h cursor)
  unfolding sorted_periods day_periods
  overlap-sorted_periods from to cursor =
      overlap-sort (midnight loc (loc.day cursor)) from to (h.weekly (weekday_of (loc.day cursor)))

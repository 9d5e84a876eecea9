-- ===== src/Risk/BusinessTime/Total.antt =====
-- Enough rounds: when `AddBusinessTime` is certain to answer.
use lidradar.Prelude.{
  ℕ, zero, suc, ◌+◌, ◌*◌, ◌≤◌, ◌<◌, ◌≡◌, sym, ap, subst, ◌∙◌, true, false, some, inl, inr, Option,
  String, arith, Bool-cases, ◌==◌,
}
use lidradar.Time.{Time, pos, Location, IsCalendar, midnight, weekday_of, is_zero}
use lidradar.Risk.BusinessTime.{
  BusinessHours, day_ok, schedule_ok, scan, sorted_periods, next_cursor, add_loop, validate,
  add_business_time,
}
use lidradar.Risk.BusinessTime.Day.{Scan-cases}
use lidradar.Risk.BusinessTime.Schedule.{sorted_periods-Ordered, day_ok_of_schedule}
use lidradar.Risk.BusinessTime.Weeks.{
  open_time, week_time, span, days_time, scan-span, scan-left-le, scan-left-pos, open_time-sort,
  span-ordered_ok, days_time-weeks,
}

module _ (loc : Location) (h : BusinessHours) (ok : schedule_ok h ≡ true) where
  next-midnight :
      (cal : IsCalendar loc) (c : Time) → next_cursor loc h c ≡ midnight loc (loc.day c + 1)
  unfolding next_cursor
  next-midnight cal c = rw (cal.day-add_date c 1)

  span-sorted_periods :
      (c : Time) → span (sorted_periods loc h c) ≡ open_time (h.weekly (weekday_of (loc.day c)))
  unfolding sorted_periods day_ok
  span-sorted_periods c =
      span-ordered_ok (midnight loc (loc.day c)) _
        (day_ok_of_schedule h (weekday_of (loc.day c)) ok (omega arith))
      ∙ open_time-sort (h.weekly (weekday_of (loc.day c)))

  -- From a midnight on, as many days as hold the amount are enough rounds.
  enough_days :
      (cal : IsCalendar loc) (n : ℕ) (c a : ℕ)
      → c ≡ midnight loc (loc.day c)
      → 0 < a
      → a ≤ days_time h (loc.day c) n
      → (t : Time) × (add_loop loc h n c a ≡ some t)
  unfolding add_loop days_time
  enough_days cal zero c a m p l = absurd (omega arith)
  enough_days cal (suc n) c a m p l = elim (Scan-cases (scan c a (sorted_periods loc h c))) [
    | inl (t, d) ↦ (t, rw (d, add_loop))
    | inr (r, w) ↦
        let next : next_cursor loc h c ≡ midnight loc (loc.day c + 1) = next-midnight cal c in
        let today : loc.day (next_cursor loc h c) ≡ loc.day c + 1 =
          ap loc.day next ∙ cal.day-midnight (loc.day c + 1) in
        let periods = sorted_periods-Ordered loc h c ok in
        let used = scan-span _ c a r _ (subst (λ k. c ≤ k) m (omega arith)) periods w in
        let some_left = scan-left-pos _ c a r _ periods p w in
        let room : r ≤ days_time h (loc.day c + 1) n = omega (arith, span-sorted_periods c) in
        let (t, found) =
          enough_days cal n (next_cursor loc h c) r (next ∙ ap (midnight loc) (sym today)) some_left
            (subst (λ k. r ≤ days_time h k n) (sym today) room) in
        (t, rw (w, add_loop) found)
  ]

  -- The first day may begin at any moment of it.
  enough_rounds :
      (cal : IsCalendar loc) (n c a : ℕ)
      → 0 < a
      → a ≤ days_time h (loc.day c + 1) n
      → (t : Time) × (add_loop loc h (suc n) c a ≡ some t)
  unfolding add_loop
  enough_rounds cal n c a p l = elim (Scan-cases (scan c a (sorted_periods loc h c))) [
    | inl (t, d) ↦ (t, rw (d, add_loop))
    | inr (r, w) ↦
        let next : next_cursor loc h c ≡ midnight loc (loc.day c + 1) = next-midnight cal c in
        let tomorrow : loc.day (next_cursor loc h c) ≡ loc.day c + 1 =
          ap loc.day next ∙ cal.day-midnight (loc.day c + 1) in
        let periods = sorted_periods-Ordered loc h c ok in
        let some_left = scan-left-pos _ c a r _ periods p w in
        let less = scan-left-le c a r (sorted_periods loc h c) w in
        let (t, found) =
          enough_days cal n (next_cursor loc h c) r (next ∙ ap (midnight loc) (sym tomorrow))
            some_left (subst (λ k. r ≤ days_time h k n) (sym tomorrow) (omega arith)) in
        (t, rw (w, add_loop) found)
  ]

-- With a valid schedule in a zone that is a calendar `AddBusinessTime` answers, from any moment but
-- the zero one, if the amount is at most 522 times what the schedule is open in a week: the loop of
-- 3660 days holds 522 whole weeks after its first day.
pub add_business_time_total :
    (load_location : String → Option Location) (h : BusinessHours) (from : Time) (amount : ℕ)
    {loc : Location}
    → load_location h.timezone ≡ some loc
    → IsCalendar loc
    → schedule_ok h ≡ true
    → is_zero from ≡ false
    → amount ≤ 522 * week_time h
    → (due : Time) × (add_business_time load_location h from (pos amount) ≡ some due)
unfolding add_business_time validate
add_business_time_total load_location h from amount {loc} zone cal ok z l =
    elim (Bool-cases (amount == 0)) [
      | inl none_asked ↦ (from, ground arith)
      | inr asked ↦
          let room = days_time-weeks h 522 (loc.day from + 1) 3659 (omega arith) in
          let (due, found) =
            enough_rounds loc h ok cal 3659 from amount (ground arith) (omega arith) in
          (due, ground arith)
    ]

-- ===== src/Risk/BusinessTime/RoundTrip.antt =====
-- `AddBusinessTime` and `ElapsedBusinessTime` measure the same business time.
use lidradar.Prelude.{
  ℕ, zero, suc, ◌+◌, ◌≤◌, ◌<◌, ◌≡◌, refl, sym, ap, subst, ◌∙◌, true, false, some, List, [], ◌∷◌,
  map, All, arith, ◌⊎◌, inl, inr, Option, String,
}
use lidradar.Time.{Time, pos, add_duration, midnight, weekday_of, Location, IsCalendar, is_zero}
use lidradar.Risk.BusinessTime.{
  BusinessPeriod, BusinessHours, insert, sort, schedule_ok, local_day_period, overlap, scan,
  day_periods, sorted_periods, next_cursor, add_loop, elapsed_loop, max_days, add_business_time,
  elapsed_business_time,
}
use lidradar.Risk.BusinessTime.Day.{
  Closed, Ordered-mono, Closed-mono, overlap_before, overlap_from, scan-done, scan-done-le,
  scan-left, Scan-cases, overlap_empty,
}
use lidradar.Risk.BusinessTime.Schedule.{sorted_periods-Ordered, overlap-sorted_periods}

-- No period of a day runs past the next local midnight. It says something only of a day that is
-- shorter than 24 hours.
abbrev pub Fits : Location → BusinessHours → Type 0
Fits loc h =
    (d : ℕ)
    → All (λ p. add_duration (midnight loc d) p.close_at ≤ midnight loc (d + 1))
        (h.weekly (weekday_of d))

Closed-insert :
    (m t : Time) (p : BusinessPeriod) (ps : List BusinessPeriod)
    → add_duration m p.close_at ≤ t
    → Closed t (map (local_day_period m) ps)
    → Closed t (map (local_day_period m) (insert p ps))
unfolding insert local_day_period
Closed-insert m t p [] h k = (h, tt)
Closed-insert m t p (q ∷ qs) h k = ground (arith, Closed-insert m t p qs)

Closed-sort :
    (m t : Time) (ps : List BusinessPeriod)
    → All (λ p. add_duration m p.close_at ≤ t) ps
    → Closed t (map (local_day_period m) (sort ps))
unfolding sort
Closed-sort m t [] h = tt
Closed-sort m t (p ∷ ps) h = Closed-insert m t p (sort ps) h.0 (Closed-sort m t ps h.1)

module _ (loc : Location) (h : BusinessHours) (cal : IsCalendar loc) (ok : schedule_ok h ≡ true)
    (fits : Fits loc h) where
  next-eq : (c : Time) → next_cursor loc h c ≡ midnight loc (loc.day c + 1)
  unfolding next_cursor
  next-eq c = rw (cal.day-add_date c 1)

  pub lt-next : (c : Time) → c < next_cursor loc h c
  lt-next c = rw (next-eq c) (cal.lt-midnight c)

  pub day-Closed : (c : Time) → Closed (next_cursor loc h c) (sorted_periods loc h c)
  unfolding sorted_periods
  day-Closed c = rw (next-eq c) (Closed-sort _ _ _ (fits (loc.day c)))

  -- What is left of the day's periods by a later moment of another day is all of them.
  pub add_loop-ge : (n : ℕ) (c a t : ℕ) → add_loop loc h n c a ≡ some t → c ≤ t
  unfolding add_loop
  add_loop-ge zero c a t e = cc
  add_loop-ge (suc n) c a t e = elim (Scan-cases (scan c a (sorted_periods loc h c))) [
    | inl (u, d) ↦
        let found : u ≡ t = ground arith in
        let bounds = scan-done _ c a u _ (sorted_periods-Ordered loc h c ok) d in omega arith
    | inr (r, l) ↦ ground (arith, lt-next c, add_loop-ge n (next_cursor loc h c) r t)
  ]

  abbrev pub AtMidnight : Time → Type 0
  AtMidnight c = c ≡ midnight loc (loc.day c)

  pub next-AtMidnight : (c : Time) → AtMidnight (next_cursor loc h c)
  next-AtMidnight c = rw (next-eq c) (rw (cal.day-midnight (loc.day c + 1)))

  -- From a midnight on, nothing is counted towards a moment that is over.
  pub elapsed_over : (n c from to : ℕ) → to ≤ c → AtMidnight c → elapsed_loop loc h n c from to ≡ 0
  unfolding elapsed_loop
  elapsed_over zero c from to l m = refl
  elapsed_over (suc n) c from to l m =
      let quiet : overlap from to (day_periods loc h c) ≡ 0 =
        sym (overlap-sorted_periods loc h from to c)
        ∙ overlap_before from to (sorted_periods loc h c) (
            Ordered-mono (sorted_periods loc h c) (subst (λ k. to ≤ k) m l)
              (sorted_periods-Ordered loc h c ok)) in
      let later = lt-next c in
      ground (arith, elapsed_over n (next_cursor loc h c) from to (omega arith) (next-AtMidnight c))

  -- Either the first day, on which the cursor is where the count starts, or the midnight of a later
  -- one.
  abbrev pub Start : Time → Time → Type 0
  Start c from = (from ≡ c) ⊎ ((from ≤ c) × AtMidnight c)

  pub Start-le : (c from : Time) → Start c from → from ≤ c
  Start-le c from (inl e) = omega arith
  Start-le c from (inr (l, m)) = l

  pub overlap-Start :
      (c from to : Time)
      → Start c from
      → overlap from to (sorted_periods loc h c) ≡ overlap c to (sorted_periods loc h c)
  overlap-Start c from to (inl e) = rw e
  overlap-Start c from to (inr (l, m)) =
      overlap_from from c (midnight loc (loc.day c)) to (sorted_periods loc h c)
        (subst (λ k. from ≤ k) m l) (subst (λ k. c ≤ k) m (omega arith))
        (sorted_periods-Ordered loc h c ok)

  -- Up to the moment that the one loop finds, the other counts the amount that was asked for.
  elapsed-add_loop :
      (n : ℕ) (c from a t : ℕ)
      → Start c from
      → 0 < a
      → add_loop loc h n c a ≡ some t
      → elapsed_loop loc h n c from t ≡ a
  unfolding add_loop elapsed_loop
  elapsed-add_loop zero c from a t s p e = cc
  elapsed-add_loop (suc n) c from a t s p e =
      let today = sym (overlap-sorted_periods loc h from t c) ∙ overlap-Start c from t s in
      elim (Scan-cases (scan c a (sorted_periods loc h c))) [
        | inl (u, d) ↦
            let found : u ≡ t = ground arith in
            let periods = sorted_periods-Ordered loc h c ok in
            let bounds = scan-done _ c a u _ periods d in
            let last = scan-done-le _ c a u _ _ periods (day-Closed c) d in
            ground (
              arith,
              ap (λ k. overlap c k (sorted_periods loc h c)) found,
              elapsed_over n (next_cursor loc h c) from t (omega arith) (next-AtMidnight c),
            )
        | inr (r, l) ↦
            let found : add_loop loc h n (next_cursor loc h c) r ≡ some t = ground arith in
            let later = add_loop-ge n (next_cursor loc h c) r t found in
            let closed = Closed-mono (sorted_periods loc h c) later (day-Closed c) in
            let split = scan-left _ c a r t _ (sorted_periods-Ordered loc h c ok) closed p l in
            let after_start = Start-le c from s in
            ground (
              arith,
              lt-next c,
              elapsed-add_loop n (next_cursor loc h c) from r t
                  (inr (omega (arith, lt-next c), next-AtMidnight c)) split.1 found,
            )
      ]

  -- No time has passed between a moment and itself.
  elapsed_none : (n : ℕ) (t : Time) → elapsed_loop loc h n t t t ≡ 0
  unfolding elapsed_loop
  elapsed_none zero t = refl
  elapsed_none (suc n) t = ground (
    arith,
    overlap_empty t (day_periods loc h t),
    elapsed_over n (next_cursor loc h t) t t (omega (arith, lt-next t)) (next-AtMidnight t),
  )

module _ (load_location : String → Option Location) (h : BusinessHours) where
  -- What it takes for `AddBusinessTime` to answer.
  pub add_inversion :
      (from : Time) (amount : ℕ) {loc : Location} {due : Time}
      → load_location h.timezone ≡ some loc
      → add_business_time load_location h from (pos amount) ≡ some due
      → (schedule_ok h ≡ true)
        × (is_zero from ≡ false)
        × (((amount ≡ 0) × (from ≡ due))
            ⊎ ((0 < amount) × (add_loop loc h max_days from amount ≡ some due)))
  unfolding add_business_time
  add_inversion from amount zone e = ground arith

  -- What `ElapsedBusinessTime` answers in a known zone.
  pub elapsed-eq :
      (from to : Time) {loc : Location}
      → load_location h.timezone ≡ some loc
      → schedule_ok h ≡ true
      → is_zero from ≡ false
      → from ≤ to
      → elapsed_business_time load_location h from to
        ≡ some (elapsed_loop loc h max_days from from to)
  unfolding elapsed_business_time
  elapsed-eq from to zone ok z l = ground arith

  -- In a zone that is a calendar, and where no period runs past the next midnight, the business time
  -- that has elapsed at the moment found by `AddBusinessTime` is exactly the amount added, and the
  -- moment does not lie before the start.
  pub add-elapsed :
      (from : Time) (amount : ℕ) {loc : Location} {due : Time}
      → load_location h.timezone ≡ some loc
      → IsCalendar loc
      → Fits loc h
      → add_business_time load_location h from (pos amount) ≡ some due
      → (from ≤ due) × (elapsed_business_time load_location h from due ≡ some amount)
  add-elapsed from amount {loc} {due} zone cal fits e =
      let (ok, z, how) = add_inversion from amount zone e in
      elim how [
        | inl (none_asked, same) ↦
            let at : from ≤ due = omega arith in
            let counted : elapsed_loop loc h max_days from from due ≡ amount =
              subst (λ t. elapsed_loop loc h max_days from from t ≡ amount) same
                (elapsed_none loc h cal ok fits max_days from ∙ sym none_asked) in
            (at, elapsed-eq from due zone ok z at ∙ ap some counted)
        | inr (asked, found) ↦
            let at = add_loop-ge loc h cal ok fits max_days from amount due found in
            (
              at,
              elapsed-eq from due zone ok z at
                  ∙ ap some (
                      elapsed-add_loop loc h cal ok fits max_days from from amount due (inl refl)
                        asked found),
            )
      ]

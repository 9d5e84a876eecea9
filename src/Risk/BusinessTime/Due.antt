-- ===== src/Risk/BusinessTime/Due.antt =====
-- The moment that `AddBusinessTime` finds is the first at which the amount has elapsed.
use lidradar.Prelude.{
  ℕ, zero, suc, ◌≤◌, ◌<◌, ◌≡◌, refl, sym, ◌∙◌, true, some, inl, inr, Option, String, arith, ltb,
  ◌↔◌, Bool-cases,
}
use lidradar.Time.{Time, pos, Location, IsCalendar}
use lidradar.Risk.BusinessTime.{
  BusinessHours, schedule_ok, scan, day_periods, sorted_periods, next_cursor, add_loop,
  elapsed_loop, max_days, add_business_time, elapsed_business_time,
}
use lidradar.Risk.BusinessTime.Day.{
  Closed-mono, overlap_mono, scan-done-le, scan-left, scan-done-first, Scan-cases,
}
use lidradar.Risk.BusinessTime.Schedule.{sorted_periods-Ordered, overlap-sorted_periods}
use lidradar.Risk.BusinessTime.RoundTrip.{
  Fits, lt-next, day-Closed, add_loop-ge, next-AtMidnight, elapsed_over, Start, Start-le,
  overlap-Start, add_inversion, elapsed-eq, add-elapsed,
}

module _ (loc : Location) (h : BusinessHours) where
  -- A later moment has no less time elapsed.
  elapsed_loop_mono :
      (n : ℕ) (c from t u : ℕ)
      → t ≤ u
      → elapsed_loop loc h n c from t ≤ elapsed_loop loc h n c from u
  unfolding elapsed_loop
  elapsed_loop_mono zero c from t u l = omega arith
  elapsed_loop_mono (suc n) c from t u l = ground (
    arith,
    overlap_mono from t u (day_periods loc h c) l,
    elapsed_loop_mono n (next_cursor loc h c) from t u l,
  )

module _ (loc : Location) (h : BusinessHours) (cal : IsCalendar loc) (ok : schedule_ok h ≡ true)
    (fits : Fits loc h) where
  elapsed-lt-add_loop :
      (n : ℕ) (c from a t u : ℕ)
      → Start loc h cal ok fits c from
      → 0 < a
      → u < t
      → add_loop loc h n c a ≡ some t
      → elapsed_loop loc h n c from u < a
  unfolding add_loop elapsed_loop
  elapsed-lt-add_loop zero c from a t u s p l e = cc
  elapsed-lt-add_loop (suc n) c from a t u s p l e =
      let today =
        sym (overlap-sorted_periods loc h from u c) ∙ overlap-Start loc h cal ok fits c from u s in
      let periods = sorted_periods-Ordered loc h c ok in
      elim (Scan-cases (scan c a (sorted_periods loc h c))) [
        | inl (v, d) ↦
            let found : v ≡ t = ground arith in
            let last = scan-done-le _ c a v _ _ periods (day-Closed loc h cal ok fits c) d in
            ground (
              arith,
              scan-done-first _ c a v u _ periods p (omega arith) d,
              elapsed_over loc h cal ok fits n (next_cursor loc h c) from u (omega arith)
                  (next-AtMidnight loc h cal ok fits c),
            )
        | inr (r, w) ↦
            let found : add_loop loc h n (next_cursor loc h c) r ≡ some t = ground arith in
            let later = add_loop-ge loc h cal ok fits n (next_cursor loc h c) r t found in
            let closed =
              Closed-mono (sorted_periods loc h c) later (day-Closed loc h cal ok fits c) in
            let split = scan-left _ c a r t _ periods closed p w in
            let less = overlap_mono c u t (sorted_periods loc h c) (omega arith) in
            let after_start = Start-le loc h cal ok fits c from s in
            ground (
              arith,
              lt-next loc h cal ok fits c,
              elapsed-lt-add_loop n (next_cursor loc h c) from r t u
                  (inr (
                    omega (arith, lt-next loc h cal ok fits c),
                    next-AtMidnight loc h cal ok fits c,
                  ))
                  split.1 l found,
            )
      ]

module _ (load_location : String → Option Location) (h : BusinessHours) where
  -- In a zone that is a calendar, and where no period runs past the next midnight, a moment after
  -- the start lies at or after the due one exactly if the amount has elapsed by then. So the test of
  -- a policy, `at.Before(due)`, and its count of elapsed business time never disagree.
  pub due-le_iff :
      (from : Time) (amount : ℕ) (now : Time) {loc : Location} {due elapsed : ℕ}
      → load_location h.timezone ≡ some loc
      → IsCalendar loc
      → Fits loc h
      → from ≤ now
      → add_business_time load_location h from (pos amount) ≡ some due
      → elapsed_business_time load_location h from now ≡ some elapsed
      → (due ≤ now) ↔ (amount ≤ elapsed)
  due-le_iff from amount now {loc} {due} {elapsed} zone cal fits l e k =
      let (ok, z, how) = add_inversion load_location h from amount zone e in
      let count : some (elapsed_loop loc h max_days from from now) ≡ some elapsed =
        sym (elapsed-eq load_location h from now zone ok z l) ∙ k in
      let counted : elapsed_loop loc h max_days from from now ≡ elapsed = cc in
      let (after_from, whole) = add-elapsed load_location h from amount zone cal fits e in
      let total : some (elapsed_loop loc h max_days from from due) ≡ some amount =
        sym (elapsed-eq load_location h from due zone ok z after_from) ∙ whole in
      let exact : elapsed_loop loc h max_days from from due ≡ amount = cc in
      (
        λ d. omega (arith, elapsed_loop_mono loc h max_days from from due now d),
        λ m. elim (Bool-cases (ltb now due)) [
          | inl early ↦ elim how [
            | inl (none_asked, same) ↦ omega arith
            | inr (asked, found) ↦
                let less =
                  elapsed-lt-add_loop loc h cal ok fits max_days from from amount due now (inl refl)
                    asked (ground arith) found in
                absurd (omega arith)
          ]
          | inr at_or_after ↦ ground arith
        ],
      )

-- ===== src/Notification/Policy/Quiet.antt =====
-- Nothing is delivered within quiet hours, and what is deferred comes soon.
use lidradar.Prelude.{
  ◌+◌, ◌≤◌, ◌<◌, ◌≡◌, refl, sym, ◌∙◌, subst, String, Bool, true, false, not, ◌&&◌, ◌⊎◌, inl, inr,
  Option, some, none, arith, Bool-cases, is_none, if◌then◌else◌,
}
use lidradar.Time.{Time, Location, IsCalendar, ShowsOnce, midnight}
use lidradar.Notification.Policy.{
  ClockTime, clock_valid, minutes, quiet_ok, Preference, validate, names_ok, times_ok,
  PolicyDecision, DeferReason, DeliveryMode, Severity, no_delivery, on, minute_of_day, between,
  quiet_between, in_quiet_hours, end_after, end_between, quiet_hours_end_after, next_occurrence,
  deferred, decide_mode, decide,
}

-- A zone shows the clock times of a preference once on every day: that of its digest, and the end of
-- its quiet hours.
abbrev pub Shows : Location → ClockTime → Type 0
Shows loc c = ShowsOnce loc c.hour c.minute

abbrev pub ShowsAny : Location → Option ClockTime → Type 0
ShowsAny loc none = Unit
ShowsAny loc (some c) = Shows loc c

abbrev pub ShowsTimes : Location → Preference → Type 0
ShowsTimes loc p = ShowsAny loc p.quiet_hours_end × Shows loc p.digest_time

module _ (loc : Location) (cal : IsCalendar loc) where
  -- A clock time on a day: its minute of the day, its day, and that it lies behind an earlier minute.
  on-minute : (c : ClockTime) (t : Time) → Shows loc c → minute_of_day loc (on loc c t) ≡ minutes c
  unfolding on minutes
  on-minute c t clock = omega (arith, clock.hour-date (loc.day t), clock.minute-date (loc.day t))

  on-day : (c : ClockTime) (t : Time) → Shows loc c → loc.day (on loc c t) ≡ loc.day t
  unfolding on
  on-day c t clock = clock.day-date (loc.day t)

  lt-on :
      (c : ClockTime) (t : Time) → Shows loc c → minute_of_day loc t < minutes c → t < on loc c t
  unfolding on minutes
  lt-on c t clock l = clock.lt-date t l

  lt-on_next : (c : ClockTime) (t : Time) → Shows loc c → t < on loc c (loc.add_date t 1)
  unfolding on
  lt-on_next c t v =
      let next = cal.day-add_date t 1 in
      let low = cal.midnight-le (on loc c (loc.add_date t 1)) in
      let same : loc.day (on loc c (loc.add_date t 1)) ≡ loc.day t + 1 =
        on-day c (loc.add_date t 1) v ∙ next in
      let low' : midnight loc (loc.day t + 1) ≤ on loc c (loc.add_date t 1) = rw same at low in
      omega (arith, cal.lt-midnight t)

  -- Two valid clocks that differ have different minutes, and at the end of quiet hours they are over.
  awake_at :
      (s e : ClockTime) (u : Time)
      → quiet_ok (some s) (some e) ≡ true
      → minute_of_day loc u ≡ minutes e
      → between loc s e u ≡ false
  unfolding quiet_ok clock_valid between minutes
  awake_at s e u v h = ground arith

  end_after-which :
      (s e : ClockTime) (t : Time)
      → between loc s e t ≡ true
      → ((end_after loc s e t ≡ on loc e t) × (minute_of_day loc t < minutes e))
        ⊎ (end_after loc s e t ≡ on loc e (loc.add_date t 1))
  unfolding between end_after
  end_after-which s e t b = ground arith

  -- What the end of quiet hours is, from a moment within them.
  abbrev Awake : ClockTime → ClockTime → Time → Time → Type 0
  Awake s e t u = (t < u) × (between loc s e u ≡ false) × (loc.day u ≤ loc.day t + 1)

  end_after-Awake :
      (s e : ClockTime) (t : Time)
      → quiet_ok (some s) (some e) ≡ true
      → Shows loc e
      → between loc s e t ≡ true
      → Awake s e t (end_after loc s e t)
  end_after-Awake s e t v ve b =
      let next = loc.add_date t 1 in
      elim (end_after-which s e t b) [
        | inl (same, early) ↦ subst (Awake s e t) (sym same) (
          lt-on e t ve early,
          awake_at s e (on loc e t) v (on-minute e t ve),
          omega (arith, on-day e t ve),
        )
        | inr same ↦ subst (Awake s e t) (sym same) (
          lt-on_next e t ve,
          awake_at s e (on loc e next) v (on-minute e next ve),
          omega (arith, on-day e next ve, cal.day-add_date t 1),
        )
      ]

  next_occurrence-soon :
      (t : Time) (c : ClockTime)
      → Shows loc c
      → (t < next_occurrence loc t c) × (loc.day (next_occurrence loc t c) ≤ loc.day t + 1)
  unfolding next_occurrence
  next_occurrence-soon t c v =
      ground
        (arith, lt-on_next c t v, on-day c t v, on-day c (loc.add_date t 1) v, cal.day-add_date t 1)

  end_between-awake :
      (s e : Option ClockTime) (t : Time)
      → quiet_ok s e ≡ true
      → ShowsAny loc e
      → quiet_between loc s e t ≡ true
      → (t < end_between loc s e t)
        × (quiet_between loc s e (end_between loc s e t) ≡ false)
        × (loc.day (end_between loc s e t) ≤ loc.day t + 1)
  unfolding quiet_between end_between
  end_between-awake none e t v w q = cc
  end_between-awake (some s) none t v w q = cc
  end_between-awake (some s) (some e) t v w q = end_after-Awake s e t v w q

  -- The same for a preference, whose quiet hours are on.
  quiet_end-awake :
      (p : Preference) (t : Time)
      → quiet_ok p.quiet_hours_start p.quiet_hours_end ≡ true
      → ShowsAny loc p.quiet_hours_end
      → in_quiet_hours loc p t ≡ true
      → (t < quiet_hours_end_after loc p t)
        × (in_quiet_hours loc p (quiet_hours_end_after loc p t) ≡ false)
        × (loc.day (quiet_hours_end_after loc p t) ≤ loc.day t + 1)
  unfolding in_quiet_hours quiet_hours_end_after
  quiet_end-awake p t v w q =
      let (later, awake, soon) =
        end_between-awake p.quiet_hours_start p.quiet_hours_end t v w (ground arith) in
      (later, ground arith, soon)

and_parts : (a b c d e : Bool) → (a && b && c && d && e) ≡ true → c ≡ true
and_parts a b c d e h = ground arith

validate-parts :
    (p : Preference) → validate p ≡ true → quiet_ok p.quiet_hours_start p.quiet_hours_end ≡ true
unfolding validate
validate-parts p v =
    and_parts (names_ok p) (clock_valid p.digest_time)
      (quiet_ok p.quiet_hours_start p.quiet_hours_end)
      (not (p.quiet_hours_enabled && is_none p.quiet_hours_start)) (times_ok p) v

module _ (format_slot : Location → Time → String) (loc : Location) where
  -- What a decision to deliver comes to: at once, outside quiet hours, or at a later moment outside
  -- them, at most two calendar days on.
  abbrev pub Timely : Preference → Time → PolicyDecision → Type 0
  Timely p now d =
      ((d.deliver_at ≡ 0) × (in_quiet_hours loc p now ≡ false))
      ⊎ ((now < d.deliver_at)
          × (in_quiet_hours loc p d.deliver_at ≡ false)
          × (loc.day d.deliver_at ≤ loc.day now + 2)
          × (d.slot ≡ format_slot loc d.deliver_at))

  digest-Timely :
      (p : Preference) (d : PolicyDecision) (now : Time)
      → IsCalendar loc
      → ShowsTimes loc p
      → validate p ≡ true
      → Timely p now (
          deferred format_slot loc d
            (if in_quiet_hours loc p (next_occurrence loc now p.digest_time)
              then quiet_hours_end_after loc p (next_occurrence loc now p.digest_time)
              else next_occurrence loc now p.digest_time)
            DeferReason.digest)
  unfolding deferred
  digest-Timely p d now cal clock v =
      let at = next_occurrence loc now p.digest_time in
      let (later, soon) = next_occurrence-soon loc cal now p.digest_time clock.1 in
      elim (Bool-cases (in_quiet_hours loc p at)) [
        | inl asleep ↦
            let (more, awake, day) =
              quiet_end-awake loc cal p at (validate-parts p v) clock.0 asleep in
            rw asleep (inr (omega arith, awake, omega arith, refl))
        | inr awake ↦ rw awake (inr (later, awake, omega arith, refl))
      ]

  mode-Timely :
      (p : Preference) (d : PolicyDecision) (mode : DeliveryMode) (now : Time)
      → IsCalendar loc
      → ShowsTimes loc p
      → validate p ≡ true
      → d.deliver_at ≡ 0
      → Timely p now (decide_mode format_slot loc p d mode now)
  unfolding decide_mode deferred
  mode-Timely p d DeliveryMode.immediate now cal clock v z =
      elim (Bool-cases (in_quiet_hours loc p now)) [
        | inl asleep ↦
            let (more, awake, day) =
              quiet_end-awake loc cal p now (validate-parts p v) clock.0 asleep in
            rw asleep (inr (more, awake, omega arith, refl))
        | inr awake ↦ rw awake (inl (z, refl))
      ]
  mode-Timely p d DeliveryMode.digest now cal clock v z = digest-Timely p d now cal clock v
  mode-Timely p d DeliveryMode.disabled now cal clock v z = digest-Timely p d now cal clock v
  mode-Timely p d (DeliveryMode.other m) now cal clock v z = digest-Timely p d now cal clock v

  -- A risk is delivered to a recipient at once or later, and never within the recipient's quiet
  -- hours: at once only outside them, else at a later moment that lies outside them and at most two
  -- calendar days on, with the slot of that moment. This is in a zone where every day has its midnight and
  -- shows the end of the quiet hours and the time of the digest once: no change of the clocks skips or
  -- repeats them.
  pub decide-Timely :
      (p : Preference) (severity : Severity) (now : Time) (telegram_linked : Bool)
      → IsCalendar loc
      → ShowsTimes loc p
      → (decide format_slot loc p severity now telegram_linked).deliver ≡ true
      → Timely p now (decide format_slot loc p severity now telegram_linked)
  unfolding decide
  decide-Timely p severity now telegram_linked cal clock h = ground (
    arith,
    mode-Timely p
        (record no_delivery {
          deliver = true;
          in_app = p.in_app_enabled;
          telegram = p.telegram_enabled && telegram_linked;
        })
        p.delivery_mode now cal clock,
  )

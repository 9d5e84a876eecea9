-- ===== src/Notification/Policy.antt =====
-- A recipient's preference for one type of risk, the quiet hours, and when a notification is
-- delivered (backend/internal/notification/domain/policy.go).
pub mod Quiet
mod Preferences
unfoldable pub use Preferences.*
use lidradar.Prelude.{
  ℕ, ◌+◌, ◌*◌, ◌-◌, String, Bool, true, false, not, ◌&&◌, ◌||◌, Option, none, some, List, [], ◌∷◌,
  if◌then◌else◌, ltb, leb, ◌==◌, bool_eq, is_some, is_none,
}
use lidradar.Text.{is_empty, trim_space, is_digit, codes, all_of, joined, two_digits}
use lidradar.Time.{Time, Duration, ℤ, pos, ltb_ℤ, is_zero, before, after, Location}

pub data DeferReason : Type 0 where
  digest quiet_hours : DeferReason
  other : String → DeferReason

pub record PolicyDecision : Type 0 where
  pub deliver : Bool
  pub deliver_at : Time
  pub slot : String
  pub reason : DeferReason
  pub in_app : Bool
  pub telegram : Bool

-- `PolicyDecision{}`.
abbrev pub no_delivery : PolicyDecision
no_delivery = record {
  deliver = false;
  deliver_at = 0;
  slot = "";
  reason = DeferReason.other "";
  in_app = false;
  telegram = false;
}

-- `PolicyDecision.Immediate`.
unfoldable pub is_immediate : PolicyDecision → Bool
is_immediate d = d.deliver && is_zero d.deliver_at

-- `EscalationPolicy` and `Applies`.
pub record EscalationPolicy : Type 0 where
  pub enabled : Bool
  pub wait : Duration

unfoldable pub applies : EscalationPolicy → Severity → Bool
unfolding severity_rank
applies e s =
    e.enabled && ltb_ℤ (pos 0) e.wait && leb (severity_rank Severity.high) (severity_rank s)

module _ (loc : Location) where
  -- `ClockTime.on`.
  unfoldable pub on : ClockTime → Time → Time
  on c t = loc.date (loc.day t) c.hour c.minute

  abbrev pub minute_of_day : Time → ℕ
  minute_of_day t = loc.hour t * 60 + loc.minute t

  -- The test of `InQuietHours` between the two ends.
  unfoldable pub between : ClockTime → ClockTime → Time → Bool
  unfolding minutes
  between s e t =
      if ltb (minutes s) (minutes e)
      then leb (minutes s) (minute_of_day t) && ltb (minute_of_day t) (minutes e)
      else leb (minutes s) (minute_of_day t) || ltb (minute_of_day t) (minutes e)

  unfoldable pub quiet_between : Option ClockTime → Option ClockTime → Time → Bool
  unfolding between
  quiet_between (some s) (some e) t = between s e t
  quiet_between _ _ t = false

  -- `Preference.InQuietHours`.
  unfoldable pub in_quiet_hours : Preference → Time → Bool
  unfolding quiet_between
  in_quiet_hours p t =
      p.quiet_hours_enabled && quiet_between p.quiet_hours_start p.quiet_hours_end t

  -- `QuietHoursEndAfter` with its two ends; the method is called inside quiet hours only, where both
  -- are there.
  unfoldable pub end_after : ClockTime → ClockTime → Time → Time
  unfolding on minutes
  end_after s e t =
      if ltb (minutes s) (minutes e)
      then on e t
      else (if leb (minutes s) (minute_of_day t) then on e (loc.add_date t 1) else on e t)

  unfoldable pub end_between : Option ClockTime → Option ClockTime → Time → Time
  unfolding end_after
  end_between (some s) (some e) t = end_after s e t
  end_between _ _ t = t

  unfoldable pub quiet_hours_end_after : Preference → Time → Time
  unfolding end_between
  quiet_hours_end_after p t = end_between p.quiet_hours_start p.quiet_hours_end t

  -- `NextOccurrence`.
  unfoldable pub next_occurrence : Time → ClockTime → Time
  unfolding on
  next_occurrence t c = if after (on c t) t then on c t else on c (loc.add_date t 1)

-- The slot is what `time.Format` prints of the local moment: a parameter. A nil location is UTC, and
-- the caller puts it in.
module _ (format_slot : Location → Time → String) (loc : Location) where
  -- `PolicyDecision.deferred`.
  unfoldable pub deferred : PolicyDecision → Time → DeferReason → PolicyDecision
  deferred d at reason = record d { deliver_at = at; slot = format_slot loc at; reason = reason }

  -- The steps of `Decide` for a mode that delivers.
  unfoldable pub decide_mode : Preference → PolicyDecision → DeliveryMode → Time → PolicyDecision
  unfolding in_quiet_hours quiet_hours_end_after next_occurrence deferred
  decide_mode p d DeliveryMode.immediate now =
      if not (in_quiet_hours loc p now)
      then d
      else deferred d (quiet_hours_end_after loc p now) DeferReason.quiet_hours
  decide_mode p d _ now =
      let at = next_occurrence loc now p.digest_time in
      deferred d (if in_quiet_hours loc p at then quiet_hours_end_after loc p at else at)
        DeferReason.digest

  -- `Preference.Decide`.
  unfoldable pub decide : Preference → Severity → Time → Bool → PolicyDecision
  unfolding decide_mode is_disabled severity_rank
  decide p severity now telegram_linked =
      if not (validate p)
        || is_disabled p.delivery_mode
        || ltb (severity_rank severity) (severity_rank p.minimum_severity)
      then no_delivery
      else (if not p.in_app_enabled && not (p.telegram_enabled && telegram_linked)
          then no_delivery
          else decide_mode p
              (record no_delivery {
                deliver = true;
                in_app = p.in_app_enabled;
                telegram = p.telegram_enabled && telegram_linked;
              })
              p.delivery_mode now)

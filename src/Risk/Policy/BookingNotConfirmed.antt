-- ===== src/Risk/Policy/BookingNotConfirmed.antt =====
-- The rule R3: a booking has not been confirmed
-- (backend/internal/risk/domain/booking_not_confirmed.go).
use lidradar.Prelude.{
  ℕ, ◌*◌, String, Bool, true, false, not, ◌&&◌, ◌||◌, Option, none, some, List, [], ◌∷◌,
  if◌then◌else◌, str_eq, Result, ok, err, ◌>>=◌,
}
use lidradar.Text.{is_empty, joined}
use lidradar.Time.{Time, Location, pos, is_zero, before, after, minute_ns}
use lidradar.Float.{Float64, is_strong}
use lidradar.Risk.BusinessTime.{add_business_time}
use lidradar.Risk.Aggregate.{Severity, Source, Finding}
use lidradar.Risk.Policy.{
  Error, AgreementSignal, BookingIntentSignal, ConversationState, Decision, no_decision, resolving,
  planned, is_incoming, state_ok, in_hours, stage_over, booking_risk_eligible,
}

abbrev pub version : String
version = "booking-not-confirmed/v1"

-- `BookingConfirmationThreshold`.
abbrev pub threshold : ℕ
threshold = 30 * minute_ns

abbrev is_booking : AgreementSignal → Bool
is_booking a = str_eq a.kind "BOOKING_CONFIRMATION" && is_strong a.confidence

-- The loop for the latest strong agreement on a booking.
unfoldable pub latest : Option AgreementSignal → List AgreementSignal → Option AgreementSignal
latest best [] = best
latest none (a ∷ rest) = latest (if is_booking a then some a else none) rest
latest (some b) (a ∷ rest) =
    latest (if is_booking a && after a.trigger_at b.trigger_at then some a else some b) rest

-- What is due: the message that began the wait, and where the rule had it from.
pub record Trigger : Type 0 where
  pub id : String
  pub at : Time
  pub source : Source
  pub confidence : Option Float64
  pub ai_run_id : Option String

-- The branch on the stage alone.
unfoldable pub stage_trigger : ConversationState → Result Error (Option Trigger)
stage_trigger s =
    if str_eq s.opportunity_stage "BOOKING_INTENT"
    then ok (
        some (record {
          id = s.last_meaningful_id;
          at = s.last_meaningful_at;
          source = Source.rule;
          confidence = none;
          ai_run_id = none;
        }))
    else ok none

-- From `source := SourceRule` on: a trigger, no decision, or an error.
unfoldable pub trigger_of :
    ConversationState → Option BookingIntentSignal → Result Error (Option Trigger)
unfolding stage_trigger
trigger_of s none = stage_trigger s
trigger_of s (some g) =
    if g.value && is_strong g.confidence
    then (if is_empty g.ai_run_id || is_empty g.evidence_message_id || is_zero g.evidence_at
        then err Error.invalid_risk
        else ok (
            some (record {
              id = g.evidence_message_id;
              at = g.evidence_at;
              source = Source.hybrid;
              confidence = some g.confidence;
              ai_run_id = some g.ai_run_id;
            })))
    else stage_trigger s

-- The verb `%.3f` at a confidence is a parameter: package fmt prints the float.
module _ (load_location : String → Option Location) (format_confidence : Float64 → String) where
  unfoldable pub reason_of : Option Float64 → String
  reason_of none =
      "Возможность находится на этапе намерения записаться, но запись не подтверждена в течение 30 рабочих минут"
  reason_of (some c) = joined (
      "Клиент выразил намерение записаться с уверенностью "
      ∷ format_confidence c
      ∷ ", но запись не подтверждена в течение 30 рабочих минут"
      ∷ [])

  unfoldable pub finding_of : ConversationState → Trigger → Time → Finding
  unfolding reason_of
  finding_of s t due = record {
    tenant_id = s.tenant_id;
    opportunity_id = s.opportunity_id;
    location_id = s.location_id;
    trigger_message_id = t.id;
    severity = Severity.critical;
    policy_version = version;
    reason_code = "BOOKING_NOT_CONFIRMED_AFTER_INTENT";
    reason = reason_of t.confidence;
    due_at = due;
    source = t.source;
    confidence = t.confidence;
    ai_run_id = t.ai_run_id;
  }

  -- The steps once there is a trigger.
  unfoldable pub decide : ConversationState → Time → Option Trigger → Result Error Decision
  unfolding finding_of
  decide s at none = ok no_decision
  decide s at (some t) = do
    due ← in_hours (add_business_time load_location s.business_hours t.at (pos threshold))
    ok (
        if before at due
        then planned due t.id false
        else record (planned due t.id false) { finding = some (finding_of s t due) })

  -- The steps with the signal of booking that is in force.
  unfoldable pub with_intent :
      ConversationState → Time → Option BookingIntentSignal → Result Error Decision
  unfolding trigger_of decide
  with_intent s at intent =
      if not (is_incoming s.last_meaningful)
      then ok no_decision
      else (trigger_of s intent >>= decide s at)

  -- The block `if state.AgreementsCurrent`, which puts the latest agreement for the signal.
  unfoldable pub with_agreement :
      ConversationState → Time → Option AgreementSignal → Result Error Decision
  unfolding with_intent
  with_agreement s at none = ok no_decision
  with_agreement s at (some a) =
      if not (str_eq a.status "PENDING") || str_eq a.waiting_for "CUSTOMER"
      then ok (resolving true)
      else with_intent s at (
          some (record {
            value = true;
            confidence = a.confidence;
            ai_run_id = a.ai_run_id;
            evidence_message_id = a.trigger_message_id;
            evidence_at = a.trigger_at;
          }))

  unfoldable pub evaluate : ConversationState → Time → Result Error Decision
  unfolding latest with_intent with_agreement
  evaluate s at =
      if not (state_ok s) || is_zero at
      then err Error.invalid_risk
      else (if not s.active_opportunity || stage_over s.opportunity_stage
          then ok (resolving true)
          else (if not (booking_risk_eligible s.opportunity_stage) || s.v2_snapshot_unavailable
              then ok no_decision
              else (if s.agreements_current
                  then with_agreement s at (latest none s.agreements)
                  else with_intent s at s.booking_intent)))

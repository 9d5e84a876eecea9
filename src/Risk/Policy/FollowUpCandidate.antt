-- ===== src/Risk/Policy/FollowUpCandidate.antt =====
-- The rule R5: a customer hesitated and has not come back
-- (backend/internal/risk/domain/follow_up_candidate.go).
use lidradar.Prelude.{
  ℕ, ◌*◌, ◌/◌, String, true, not, ◌&&◌, ◌||◌, Option, none, some, [], ◌∷◌, if◌then◌else◌, str_eq,
  Result, ok, err, ◌>>=◌,
}
use lidradar.Text.{is_empty, decimal, joined}
use lidradar.Time.{Time, Location, pos, is_zero, before, hour_ns}
use lidradar.Float.{Float64, is_strong}
use lidradar.Risk.BusinessTime.{add_business_time, elapsed_business_time}
use lidradar.Risk.Aggregate.{RiskType, Severity, Source, Finding}
use lidradar.Risk.Policy.{
  Error, FollowUpSignal, MessageRef, ActiveRiskSnapshot, ConversationState, Decision, no_decision,
  resolving, planned, is_incoming, state_ok, in_hours, stage_over, customer_rejected,
}
use lidradar.Risk.Policy.CustomerSilentAfterPrice.{answered, answered_before}

abbrev pub version : String
version = "follow-up-candidate/v1"

-- `FollowUpDelay`.
abbrev pub delay : ℕ
delay = 24 * hour_ns

-- The message the customer hesitated in, and where the rule had it from.
pub record Trigger : Type 0 where
  pub id : String
  pub at : Time
  pub source : Source
  pub confidence : Option Float64
  pub ai_run_id : Option String

-- The choice of a trigger either returns a decision or goes on with one.
pub data Choice : Type 0 where
  decided : Decision → Choice
  chosen : Trigger → Choice

-- The branch on the stage WAITING_CUSTOMER.
unfoldable pub waiting_choice : ConversationState → Option MessageRef → Choice
waiting_choice s none = Choice.decided no_decision
waiting_choice s (some m) =
    if is_incoming s.last_meaningful && not (str_eq s.last_meaningful_id m.id)
    then Choice.decided (resolving true)
    else Choice.chosen
        (record { id = m.id; at = m.at; source = Source.rule; confidence = none; ai_run_id = none })

unfoldable pub stage_choice : ConversationState → Option ActiveRiskSnapshot → Choice
unfolding waiting_choice
stage_choice s risk =
    if str_eq s.opportunity_stage "WAITING_CUSTOMER"
    then waiting_choice s s.last_incoming
    else Choice.decided (resolving (answered risk))

-- From `var trigger` to the end of its chain of conditions.
unfoldable pub choose :
    ConversationState → Option ActiveRiskSnapshot → Option FollowUpSignal → Result Error Choice
unfolding stage_choice
choose s risk none = ok (stage_choice s risk)
choose s risk (some g) =
    if g.value && is_strong g.confidence
    then (if is_empty g.ai_run_id || is_empty g.evidence_message_id || is_zero g.evidence_at
        then err Error.invalid_risk
        else (if g.incoming_after
            then ok (
                Choice.decided
                  (record (resolving true) { trigger_message_id = g.evidence_message_id }))
            else ok (
                Choice.chosen (record {
                  id = g.evidence_message_id;
                  at = g.evidence_at;
                  source = Source.hybrid;
                  confidence = some g.confidence;
                  ai_run_id = some g.ai_run_id;
                }))))
    else ok (stage_choice s risk)

unfoldable pub finding_of : ConversationState → Trigger → Time → ℕ → Finding
finding_of s t due elapsed = record {
  tenant_id = s.tenant_id;
  opportunity_id = s.opportunity_id;
  location_id = s.location_id;
  trigger_message_id = t.id;
  severity = Severity.medium;
  policy_version = version;
  reason_code = "FOLLOW_UP_CANDIDATE_AFTER_HESITATION";
  reason = joined (
      "Клиент отложил решение и не вернулся в течение "
      ∷ decimal (elapsed / hour_ns)
      ∷ " рабочих часов; стоит уточнить, остаётся ли услуга актуальной"
      ∷ []);
  due_at = due;
  source = t.source;
  confidence = t.confidence;
  ai_run_id = t.ai_run_id;
}

module _ (load_location : String → Option Location) where
  -- The steps once there is a choice.
  unfoldable pub decide :
      ConversationState → Time → Option ActiveRiskSnapshot → Choice → Result Error Decision
  unfolding finding_of
  decide s at risk (Choice.decided d) = ok d
  decide s at risk (Choice.chosen t) = do
    due ← in_hours (add_business_time load_location s.business_hours t.at (pos delay))
    let d = planned due t.id (answered_before risk t.id)
    if before at due then ok d else do
      elapsed ← in_hours (elapsed_business_time load_location s.business_hours t.at at)
      ok (record d { finding = some (finding_of s t due elapsed) })

  unfoldable pub evaluate : ConversationState → Time → Result Error Decision
  unfolding choose decide
  evaluate s at =
      if not (state_ok s) || is_zero at
      then err Error.invalid_risk
      else (if not s.active_opportunity
            || stage_over s.opportunity_stage
            || customer_rejected s.latest_outcome
          then ok (resolving true)
          else do
            c ← choose s (s.active_risks RiskType.follow_up_candidate) s.follow_up
            decide s at (s.active_risks RiskType.follow_up_candidate) c)

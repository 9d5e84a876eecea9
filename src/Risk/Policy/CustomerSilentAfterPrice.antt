-- ===== src/Risk/Policy/CustomerSilentAfterPrice.antt =====
-- The rule R2: a customer is silent after a price
-- (backend/internal/risk/domain/customer_silent_after_price.go).
pub mod Laws
use lidradar.Prelude.{
  ℕ, ◌*◌, ◌/◌, String, Bool, true, false, not, ◌&&◌, ◌||◌, Option, none, some, [], ◌∷◌,
  if◌then◌else◌, str_eq, leb, Result, ok, err, ◌>>=◌,
}
use lidradar.Text.{is_empty, decimal, joined}
use lidradar.Time.{Time, Location, pos, is_zero, before, hour_ns}
use lidradar.Float.{Float64, is_strong}
use lidradar.Risk.BusinessTime.{add_business_time, elapsed_business_time}
use lidradar.Risk.Aggregate.{RiskType, Severity, Source, Finding}
use lidradar.Risk.Policy.{
  Error, PriceSignal, MessageRef, ActiveRiskSnapshot, ConversationState, Decision, no_decision,
  resolving, planned, is_outgoing, state_ok, in_hours, stage_over, customer_rejected,
}

abbrev pub version : String
version = "customer-silent-after-price/v1"

-- `PriceSilenceThreshold` and `PriceSilenceEscalation`.
abbrev pub threshold : ℕ
threshold = 24 * hour_ns

abbrev pub escalation : ℕ
escalation = 48 * hour_ns

-- The message the silence is counted from, and where the rule had it from.
pub record Trigger : Type 0 where
  pub id : String
  pub at : Time
  pub source : Source
  pub confidence : Option Float64
  pub ai_run_id : Option String
  pub amount : String

-- The choice of a trigger either returns a decision or goes on with one.
pub data Choice : Type 0 where
  decided : Decision → Choice
  chosen : Trigger → Choice

-- An open risk whose customer has answered since.
unfoldable pub answered : Option ActiveRiskSnapshot → Bool
answered none = false
answered (some risk) = risk.incoming_after_trigger

-- An open risk that was answered, and that another message began.
unfoldable pub answered_before : Option ActiveRiskSnapshot → String → Bool
answered_before none id = false
answered_before (some risk) id =
    risk.incoming_after_trigger && not (str_eq risk.trigger_message_id id)

abbrev amount_of : PriceSignal → String
amount_of g =
    if not (is_empty g.amount) && not (is_empty g.currency)
    then joined (g.amount ∷ " " ∷ g.currency ∷ [])
    else ""

abbrev sent_price : Option MessageRef → Choice
sent_price none = Choice.decided no_decision
sent_price (some m) = Choice.chosen (record {
  id = m.id;
  at = m.at;
  source = Source.rule;
  confidence = none;
  ai_run_id = none;
  amount = "";
})

-- The branches on the stage alone.
unfoldable pub stage_choice : ConversationState → Option ActiveRiskSnapshot → Choice
unfolding answered
stage_choice s risk =
    if str_eq s.opportunity_stage "PRICE_SENT"
    then (if not (is_outgoing s.last_meaningful)
        then Choice.decided (resolving true)
        else sent_price s.last_outgoing)
    else Choice.decided (resolving (answered risk))

-- From `var trigger` to the end of its chain of conditions.
unfoldable pub choose :
    ConversationState → Option ActiveRiskSnapshot → Option PriceSignal → Result Error Choice
unfolding stage_choice
choose s risk none = ok (stage_choice s risk)
choose s risk (some g) =
    if g.value && is_strong g.confidence
    then (if is_empty g.ai_run_id || is_empty g.evidence_message_id || is_zero g.evidence_at
        then err Error.invalid_risk
        else (if g.incoming_after
            then ok (
                Choice.decided
                  (record (resolving true) { trigger_message_id = g.evidence_message_id }))
            else ok (
                Choice.chosen (record {
                  id = g.evidence_message_id;
                  at = g.evidence_at;
                  source = Source.hybrid;
                  confidence = some g.confidence;
                  ai_run_id = some g.ai_run_id;
                  amount = amount_of g;
                }))))
    else ok (stage_choice s risk)

unfoldable pub reason_of : ℕ → String → String
reason_of elapsed amount = joined (
    "Клиент не ответил в течение "
    ∷ decimal (elapsed / hour_ns)
    ∷ " рабочих часов после отправленной цены"
    ∷ (if is_empty amount then [] else " " ∷ amount ∷ []))

unfoldable pub finding_of : ConversationState → Trigger → Time → ℕ → Severity → Finding
unfolding reason_of
finding_of s t due elapsed severity = record {
  tenant_id = s.tenant_id;
  opportunity_id = s.opportunity_id;
  location_id = s.location_id;
  trigger_message_id = t.id;
  severity = severity;
  policy_version = version;
  reason_code = "CUSTOMER_SILENT_AFTER_PRICE_THRESHOLD_EXCEEDED";
  reason = reason_of elapsed t.amount;
  due_at = due;
  source = t.source;
  confidence = t.confidence;
  ai_run_id = t.ai_run_id;
}

module _ (load_location : String → Option Location) where
  -- The finding, and the check of escalation while the silence is below it.
  unfoldable pub escalate :
      ConversationState → Trigger → Time → ℕ → Decision → Result Error Decision
  unfolding finding_of
  escalate s t due elapsed d =
      if leb escalation elapsed
      then ok (record d { finding = some (finding_of s t due elapsed Severity.high) })
      else do
        next ← in_hours (add_business_time load_location s.business_hours t.at (pos escalation))
        ok (record d {
          next_due_at = next;
          next_check_suffix = "escalation";
          finding = some (finding_of s t due elapsed Severity.medium);
        })

  -- The steps once there is a choice.
  unfoldable pub decide :
      ConversationState → Time → Option ActiveRiskSnapshot → Choice → Result Error Decision
  unfolding escalate answered_before
  decide s at risk (Choice.decided d) = ok d
  decide s at risk (Choice.chosen t) = do
    due ← in_hours (add_business_time load_location s.business_hours t.at (pos threshold))
    let d = planned due t.id (answered_before risk t.id)
    if before at due then ok d else do
      elapsed ← in_hours (elapsed_business_time load_location s.business_hours t.at at)
      escalate s t due elapsed d

  unfoldable pub evaluate : ConversationState → Time → Result Error Decision
  unfolding choose decide
  evaluate s at =
      if not (state_ok s) || is_zero at
      then err Error.invalid_risk
      else (if not s.active_opportunity
            || stage_over s.opportunity_stage
            || customer_rejected s.latest_outcome
          then ok (resolving true)
          else do
            c ← choose s (s.active_risks RiskType.customer_silent_after_price) s.price
            decide s at (s.active_risks RiskType.customer_silent_after_price) c)

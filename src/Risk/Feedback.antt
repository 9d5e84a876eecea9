-- ===== src/Risk/Feedback.antt =====
-- What users say of a risk, as facts that are only appended
-- (backend/internal/risk/domain/feedback.go).
pub mod Accepted
use Prim.Native.String.{len}
use lidradar.Prelude.{
  String, Bool, true, false, not, ◌&&◌, ◌||◌, Option, none, some, if◌then◌else◌, ltb,
}
use lidradar.Text.{is_empty, is_trimmed, trim_space}
use lidradar.Time.{Time, is_zero}
use lidradar.Risk.Aggregate.{RiskType, Severity, Status, Source, Risk, validate, supported_type}

pub data Verdict : Type 0 where
  true_positive false_positive : Verdict
  other : String → Verdict

unfoldable pub valid_verdict : Verdict → Bool
valid_verdict (Verdict.other _) = false
valid_verdict _ = true

-- The empty reason is that of no reason; `other` is REASON OTHER, and any other text `unknown`.
pub data FeedbackReason : Type 0 where
  customer_already_booked customer_already_answered not_a_lead : FeedbackReason
  customer_rejected wrong_interpretation other nothing : FeedbackReason
  unknown : String → FeedbackReason

-- `ValidFeedbackReason`.
unfoldable pub valid_feedback_reason : FeedbackReason → Bool
valid_feedback_reason FeedbackReason.nothing = false
valid_feedback_reason (FeedbackReason.unknown _) = false
valid_feedback_reason _ = true

abbrev pub is_nothing : FeedbackReason → Bool
is_nothing FeedbackReason.nothing = true
is_nothing _ = false

-- A snapshot of the risk at the moment of the verdict.
pub record FeedbackContext : Type 0 where
  pub risk_type : RiskType
  pub severity : Severity
  pub status : Status
  pub source : Source
  pub policy_version : String
  pub ai_run_id : Option String
  pub trigger_message_id : String
  pub opportunity_stage : String
  pub detected_at : Time

pub record Feedback : Type 0 where
  pub id : String
  pub tenant_id : String
  pub risk_id : String
  pub opportunity_id : String
  pub actor_id : String
  pub verdict : Verdict
  pub reason : FeedbackReason
  pub note : String
  pub context : FeedbackContext
  pub dataset_eligible : Bool
  pub created_at : Time

-- The tests of `Validate` on the snapshot.
unfoldable pub context_ok : FeedbackContext → Bool
unfolding supported_type
context_ok c = not (
    not (supported_type c.risk_type)
    || is_empty c.policy_version
    || is_empty c.trigger_message_id
    || is_empty c.opportunity_stage
    || is_zero c.detected_at)

-- The tests of `Validate` on the fact itself.
unfoldable pub facts_ok : Feedback → Bool
unfolding valid_verdict
facts_ok f = not (
    is_empty f.id
    || is_empty f.tenant_id
    || is_empty f.risk_id
    || is_empty f.opportunity_id
    || is_empty f.actor_id
    || not (valid_verdict f.verdict)
    || ltb 1000 (len f.note)
    || not (is_trimmed f.note)
    || is_zero f.created_at)

-- A false positive has a reason, and a reason is one of the list.
unfoldable pub reason_ok : Verdict → FeedbackReason → Bool
unfolding valid_feedback_reason
reason_ok Verdict.false_positive reason = valid_feedback_reason reason
reason_ok _ reason = is_nothing reason || valid_feedback_reason reason

-- `Feedback.Validate`: true where it returns nil.
unfoldable pub validate_feedback : Feedback → Bool
unfolding facts_ok context_ok reason_ok
validate_feedback f = facts_ok f && context_ok f.context && reason_ok f.verdict f.reason

-- The fact that `NewFeedback` builds.
unfoldable pub feedback_of :
    String → Risk → String → String → Verdict → FeedbackReason → String → Bool → Time → Feedback
feedback_of id risk opportunity_stage actor_id verdict reason note dataset_eligible at = record {
  id = id;
  tenant_id = risk.tenant_id;
  risk_id = risk.id;
  opportunity_id = risk.opportunity_id;
  actor_id = actor_id;
  verdict = verdict;
  reason = reason;
  note = trim_space note;
  context = record {
    risk_type = risk.risk_type;
    severity = risk.severity;
    status = risk.status;
    source = risk.source;
    policy_version = risk.policy_version;
    ai_run_id = risk.ai_run_id;
    trigger_message_id = risk.trigger_message_id;
    opportunity_stage = trim_space opportunity_stage;
    detected_at = risk.detected_at;
  };
  dataset_eligible = dataset_eligible;
  created_at = at;
}

-- `NewFeedback`.
unfoldable pub new_feedback :
    String
    → Risk
    → String
    → String
    → Verdict
    → FeedbackReason
    → String
    → Bool
    → Time
    → Option Feedback
unfolding feedback_of validate_feedback
new_feedback id risk opportunity_stage actor_id verdict reason note dataset_eligible at =
    let f =
      feedback_of id risk opportunity_stage actor_id verdict reason note dataset_eligible at in
    if not (validate risk) then none else (if validate_feedback f then some f else none)

-- `CorrectsLead`.
unfoldable pub corrects_lead : Feedback → Bool
corrects_lead f = elim f.verdict [
  | Verdict.false_positive ↦ elim f.reason [ FeedbackReason.not_a_lead ↦ true | _ ↦ false ]
  | _ ↦ false
]

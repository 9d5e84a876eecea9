-- ===== src/Risk/Aggregate.antt =====
-- The risk aggregate: its vocabulary, its validation, and how it comes into being and changes
-- (backend/internal/risk/domain/risk.go, feedback.go). Every error is ErrInvalidRisk.
pub mod Lifecycle
mod Model
unfoldable pub use Model.*
use lidradar.Prelude.{
  ℕ, String, Bool, true, false, not, ◌&&◌, ◌||◌, Option, none, some, List, [], ◌∷◌, if◌then◌else◌,
  str_eq, is_some, is_none,
}
use lidradar.Text.{is_empty, trim_space, is_trimmed, code_pattern}
use lidradar.Time.{Time, is_zero, after}
use lidradar.Float.{Float64, outside_unit}

-- The first test of `Validate`, but for its last clause.
unfoldable pub incomplete : Risk → Bool
unfolding supported_type
incomplete r =
    is_empty r.id
    || is_empty r.tenant_id
    || is_empty r.opportunity_id
    || is_empty r.location_id
    || not (supported_type r.risk_type)
    || is_empty r.policy_version
    || not (is_trimmed r.policy_version)
    || is_empty r.trigger_message_id
    || not (code_pattern r.reason_code)
    || is_empty r.reason
    || not (is_trimmed r.reason)
    || is_zero r.detected_at
    || is_zero r.due_at
    || after r.due_at r.detected_at

-- The rules on type and severity, and that a promise is no risk of a plain rule.
unfoldable pub severity_ok : RiskType → Severity → Source → Bool
severity_ok RiskType.no_response Severity.high source = true
severity_ok RiskType.no_response Severity.critical source = true
severity_ok RiskType.no_response _ source = false
severity_ok RiskType.booking_not_confirmed Severity.critical source = true
severity_ok RiskType.booking_not_confirmed _ source = false
severity_ok RiskType.promise_not_fulfilled Severity.high Source.hybrid = true
severity_ok RiskType.promise_not_fulfilled Severity.high Source.manual = true
severity_ok RiskType.promise_not_fulfilled _ _ = false
severity_ok RiskType.customer_silent_after_price Severity.medium source = true
severity_ok RiskType.customer_silent_after_price Severity.high source = true
severity_ok RiskType.customer_silent_after_price _ source = false
severity_ok RiskType.follow_up_candidate Severity.medium source = true
severity_ok RiskType.follow_up_candidate _ source = false
severity_ok RiskType.unfinished_agreement Severity.medium source = true
severity_ok RiskType.unfinished_agreement _ source = false
severity_ok (RiskType.other _) severity source = true

unfoldable pub hybrid_type : RiskType → Bool
hybrid_type RiskType.no_response = false
hybrid_type (RiskType.other _) = false
hybrid_type _ = true

-- The AI fields of a hybrid risk.
unfoldable pub evidence_ok : Option Float64 → Option String → Bool
evidence_ok (some c) (some run) = not (outside_unit c || is_empty (trim_space run))
evidence_ok _ _ = false

unfoldable pub source_ok : RiskType → Source → Option Float64 → Option String → Bool
unfolding hybrid_type evidence_ok
source_ok t Source.rule confidence run = not (is_some confidence || is_some run)
source_ok t Source.manual confidence run = not (is_some confidence || is_some run)
source_ok t Source.hybrid confidence run = hybrid_type t && evidence_ok confidence run
source_ok t (Source.other _) confidence run = false

unfoldable pub stamps_ok : Status → Option Time → Option Time → Option Time → Bool
stamps_ok Status.opened ack act res = not (is_some ack || is_some act || is_some res)
stamps_ok Status.acknowledged ack act res = not (is_none ack || is_some act || is_some res)
stamps_ok Status.acted ack act res = not (is_none ack || is_none act || is_some res)
stamps_ok (Status.other _) ack act res = false
stamps_ok _ ack act res = is_some res

-- `Risk.Validate`: true where the Go method returns nil.
unfoldable pub validate : Risk → Bool
validate r =
    not (incomplete r || is_zero r.updated_at)
    && severity_ok r.risk_type r.severity r.source
    && source_ok r.risk_type r.source r.confidence r.ai_run_id
    && stamps_ok r.status r.acknowledged_at r.acted_at r.resolved_at

-- A NO_RESPONSE finding that names no source comes from the rule.
unfoldable pub default_source : RiskType → Source → Source
default_source RiskType.no_response (Source.other s) =
    if is_empty s then Source.rule else Source.other s
default_source t source = source

-- The risk that `newRisk` builds of a finding.
unfoldable pub built : String → RiskType → Finding → Time → Risk
unfolding default_source
built id t f now = record {
  id = id;
  tenant_id = f.tenant_id;
  opportunity_id = f.opportunity_id;
  location_id = f.location_id;
  risk_type = t;
  severity = f.severity;
  status = Status.opened;
  source = default_source t f.source;
  confidence = f.confidence;
  ai_run_id = f.ai_run_id;
  policy_version = f.policy_version;
  trigger_message_id = f.trigger_message_id;
  reason_code = f.reason_code;
  reason = f.reason;
  detected_at = now;
  due_at = f.due_at;
  updated_at = now;
  acknowledged_at = none;
  acted_at = none;
  resolved_at = none;
}

-- The first test of `newRisk`.
unfoldable pub finding_incomplete : String → Finding → Time → Bool
finding_incomplete id f now =
    is_empty id
    || is_empty f.tenant_id
    || is_empty f.opportunity_id
    || is_empty f.location_id
    || is_empty f.trigger_message_id
    || is_empty f.policy_version
    || is_empty f.reason_code
    || is_empty f.reason
    || is_zero f.due_at
    || is_zero now
    || after f.due_at now

-- `newRisk`, behind `NewNoResponse` and the other constructors of one type each.
unfoldable pub new_risk : String → RiskType → Finding → Time → Option Risk
new_risk id t f now =
    if finding_incomplete id f now
    then none
    else (if validate (built id t f now) then some (built id t f now) else none)

-- A method on `*Risk` returns the risk as it leaves it, and whether it returned nil.
unfoldable pub refreshed : Risk → Finding → Time → Risk
refreshed r f now = record r {
  severity = f.severity;
  location_id = f.location_id;
  reason_code = f.reason_code;
  reason = f.reason;
  policy_version = f.policy_version;
  trigger_message_id = f.trigger_message_id;
  source = f.source;
  confidence = f.confidence;
  ai_run_id = f.ai_run_id;
  detected_at = now;
  due_at = f.due_at;
  updated_at = now;
}

unfoldable pub refresh : Risk → Finding → Time → Risk × Bool
unfolding refreshed
refresh r f now =
    if not (active r)
      || not (str_eq f.tenant_id r.tenant_id)
      || not (str_eq f.opportunity_id r.opportunity_id)
      || is_zero now
    then (r, false)
    else (refreshed r f now, validate (refreshed r f now))

acknowledge_at : Status → Risk → Time → Risk × Bool
acknowledge_at Status.resolved r now = (r, true)
acknowledge_at Status.acknowledged r now = (r, true)
acknowledge_at Status.acted r now = (r, true)
acknowledge_at Status.opened r now =
    (record r { status = Status.acknowledged; acknowledged_at = some now; updated_at = now }, true)
acknowledge_at _ r now = (r, false)

unfoldable pub acknowledge : Risk → Time → Risk × Bool
unfolding acknowledge_at
acknowledge r now = if is_zero now then (r, false) else acknowledge_at r.status r now

unfoldable pub resolve : Risk → Time → Risk × Bool
resolve r now =
    if is_zero now
    then (r, false)
    else (if not (active r) then (r, true) else (
      record r { status = Status.resolved; resolved_at = some now; updated_at = now },
      true,
    ))

unfoldable pub mark_false_positive : Risk → Time → Risk × Bool
mark_false_positive r now =
    if is_zero now
    then (r, false)
    else (if not (active r) then (r, true) else (
      record r { status = Status.false_positive; resolved_at = some now; updated_at = now },
      true,
    ))

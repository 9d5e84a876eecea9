-- ===== src/Risk/Aggregate/Model.antt =====
-- The vocabulary of risks: their types, severities, statuses and sources, the record of a risk and
-- that of a finding (backend/internal/risk/domain/risk.go).
use lidradar.Prelude.{String, Bool, true, false, Option, List, [], ◌∷◌}
use lidradar.Time.{Time}
use lidradar.Float.{Float64}

-- Go's string types: the constants, or any other text.
pub data RiskType : Type 0 where
  no_response booking_not_confirmed promise_not_fulfilled : RiskType
  customer_silent_after_price follow_up_candidate unfinished_agreement : RiskType
  other : String → RiskType

unfoldable pub supported_type : RiskType → Bool
supported_type (RiskType.other _) = false
supported_type _ = true

pub data Severity : Type 0 where
  low medium high critical : Severity
  other : String → Severity

pub data Status : Type 0 where
  opened acknowledged acted resolved false_positive ignored expired : Status
  other : String → Status

-- The zero value of the Go type is `other ""`.
pub data Source : Type 0 where
  rule hybrid manual : Source
  other : String → Source

pub record Risk : Type 0 where
  pub id : String
  pub tenant_id : String
  pub opportunity_id : String
  pub location_id : String
  pub risk_type : RiskType
  pub severity : Severity
  pub status : Status
  pub source : Source
  pub confidence : Option Float64
  pub ai_run_id : Option String
  pub policy_version : String
  pub trigger_message_id : String
  pub reason_code : String
  pub reason : String
  pub detected_at : Time
  pub due_at : Time
  pub updated_at : Time
  pub acknowledged_at : Option Time
  pub acted_at : Option Time
  pub resolved_at : Option Time

pub record Finding : Type 0 where
  pub tenant_id : String
  pub opportunity_id : String
  pub location_id : String
  pub trigger_message_id : String
  pub severity : Severity
  pub policy_version : String
  pub reason_code : String
  pub reason : String
  pub due_at : Time
  pub source : Source
  pub confidence : Option Float64
  pub ai_run_id : Option String

unfoldable pub status_active : Status → Bool
status_active Status.opened = true
status_active Status.acknowledged = true
status_active Status.acted = true
status_active _ = false

unfoldable pub status_valid : Status → Bool
status_valid (Status.other _) = false
status_valid _ = true

unfoldable pub active : Risk → Bool
unfolding status_active
active r = status_active r.status

-- The texts of the statuses.
unfoldable pub status_text : Status → String
status_text Status.opened = "OPEN"
status_text Status.acknowledged = "ACKNOWLEDGED"
status_text Status.acted = "ACTED"
status_text Status.resolved = "RESOLVED"
status_text Status.false_positive = "FALSE_POSITIVE"
status_text Status.ignored = "IGNORED"
status_text Status.expired = "EXPIRED"
status_text (Status.other s) = s

-- `ActiveStatuses` and `TerminalStatuses`.
unfoldable active_statuses : List Status
active_statuses = Status.opened ∷ Status.acknowledged ∷ Status.acted ∷ []

unfoldable terminal_statuses : List Status
terminal_statuses = Status.resolved ∷ Status.false_positive ∷ Status.ignored ∷ Status.expired ∷ []

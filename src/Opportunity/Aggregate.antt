-- ===== src/Opportunity/Aggregate.antt =====
-- The opportunity, the records of its history and the command that moves it
-- (backend/internal/opportunity/domain/opportunity.go). Amounts are in hundredths, NUMERIC(14,2), and
-- confidences in thousandths, NUMERIC(4,3): the decimal type is exact at these scales.
use Prim.Native.String.{len}
use lidradar.Prelude.{
  ℕ, String, Bool, true, false, not, ◌&&◌, ◌||◌, Option, none, some, ◌==◌, if◌then◌else◌, is_some,
  is_none, bool_eq, Result, ok, err, is_ok,
}
use lidradar.Text.{is_empty, trim_space, is_trimmed, codes, all_of, is_upper}
use lidradar.Time.{Time, is_zero}
use lidradar.Opportunity.Stage
use lidradar.Opportunity.Stage.{Stage, stage_eq}

pub data Error : Type 0 where
  invalid not_found conflict invalid_transition : Error

abbrev pub PotentialRevenue : Type 0
PotentialRevenue = ℕ

abbrev pub Confidence : Type 0
Confidence = ℕ

pub record Opportunity : Type 0 where
  pub id : String
  pub tenant_id : String
  pub conversation_id : String
  pub service_id : Option String
  pub stage : Stage
  pub estimated_amount : Option PotentialRevenue
  pub estimated_amount_confidence : Option Confidence
  pub currency : String
  pub opened_at : Time
  pub closed_at : Option Time
  pub created_at : Time
  pub updated_at : Time

unfoldable pub clean_optional : Option String → Option String
clean_optional none = none
clean_optional (some value) = some (trim_space value)

-- The loop over the letters of a currency.
abbrev pub upper_letters : String → Bool
upper_letters s = all_of is_upper (codes s)

service_ok : Option String → Bool
service_ok none = true
service_ok (some s) = not (is_empty s) && is_trimmed s

-- `Opportunity.Validate`: true where the Go method returns nil.
unfoldable pub validate : Opportunity → Bool
unfolding service_ok
validate o =
    not (
      is_empty o.id
      || is_empty o.tenant_id
      || is_empty o.conversation_id
      || not (Stage.valid o.stage)
      || not (len o.currency == 3)
      || is_zero o.opened_at
      || is_zero o.created_at
      || is_zero o.updated_at)
    && upper_letters o.currency
    && service_ok o.service_id
    && not (is_none o.estimated_amount && is_some o.estimated_amount_confidence)
    && bool_eq (Stage.active o.stage) (is_none o.closed_at)

-- strings.ToUpper is a parameter: its tables of letters are not in the repository.
unfoldable pub new_opportunity :
    (to_upper : String → String) (id tenant_id conversation_id : String)
    (service_id : Option String)
    → Option PotentialRevenue
    → Option Confidence
    → (currency : String) (at : Time) → Result Error Opportunity
unfolding validate clean_optional
new_opportunity to_upper id tenant_id conversation_id service_id amount confidence currency at =
    let cased = to_upper (trim_space currency) in
    let o : Opportunity = record {
      id = id;
      tenant_id = tenant_id;
      conversation_id = conversation_id;
      service_id = clean_optional service_id;
      stage = Stage.new;
      estimated_amount = amount;
      estimated_amount_confidence = confidence;
      currency = if is_empty cased then "RUB" else cased;
      opened_at = at;
      closed_at = none;
      created_at = at;
      updated_at = at;
    } in
    if validate o then ok o else err Error.invalid

pub data HistorySource : Type 0 where
  rule ai user import : HistorySource
  unknown : String → HistorySource

unfoldable pub source_valid : HistorySource → Bool
source_valid (HistorySource.unknown _) = false
source_valid _ = true

pub record StageHistory : Type 0 where
  pub id : String
  pub tenant_id : String
  pub opportunity_id : String
  pub from_stage : Option Stage
  pub to_stage : Stage
  pub source : HistorySource
  pub confidence : Option Confidence
  pub ai_run_id : Option String
  pub actor_user_id : Option String
  pub created_at : Time

from_ok : Option Stage → Stage → Bool
from_ok none target = true
from_ok (some s) target = Stage.valid s && not (stage_eq s target)

-- The two checks of the source: a user names the actor, AI its confidence.
context_ok : HistorySource → Option String → Option Confidence → Bool
context_ok HistorySource.user actor confidence = is_some actor
context_ok HistorySource.ai actor confidence = is_some confidence
context_ok _ actor confidence = true

-- `StageHistory.Validate`.
unfoldable pub validate_history : StageHistory → Bool
unfolding source_valid from_ok context_ok
validate_history h =
    not (
      is_empty h.id
      || is_empty h.tenant_id
      || is_empty h.opportunity_id
      || not (Stage.valid h.to_stage)
      || not (source_valid h.source)
      || is_zero h.created_at)
    && from_ok h.from_stage h.to_stage
    && context_ok h.source h.actor_user_id h.confidence

unfoldable pub new_history :
    (id tenant_id opportunity_id : String) (from_stage : Option Stage) (to_stage : Stage)
    → HistorySource
    → Option Confidence
    → (ai_run_id actor_user_id : Option String) (at : Time) → Result Error StageHistory
unfolding validate_history clean_optional
new_history id tenant_id opportunity_id from_stage to_stage source confidence ai_run_id actor at =
    let h : StageHistory = record {
      id = id;
      tenant_id = tenant_id;
      opportunity_id = opportunity_id;
      from_stage = from_stage;
      to_stage = to_stage;
      source = source;
      confidence = confidence;
      ai_run_id = clean_optional ai_run_id;
      actor_user_id = clean_optional actor;
      created_at = at;
    } in
    if validate_history h then ok h else err Error.invalid

pub record TransitionCommand : Type 0 where
  pub tenant_id : String
  pub opportunity_id : String
  pub history_id : String
  pub to_stage : Stage
  pub source : HistorySource
  pub confidence : Option Confidence
  pub ai_run_id : Option String
  pub actor_user_id : Option String
  pub at : Time

-- `TransitionCommand.Validate`: nil where its history without a first stage is valid.
unfoldable pub validate_command : TransitionCommand → Bool
unfolding new_history
validate_command c =
    if is_empty c.tenant_id || is_empty c.opportunity_id || is_empty c.history_id || is_zero c.at
    then false
    else is_ok (
        new_history c.history_id c.tenant_id c.opportunity_id none c.to_stage c.source c.confidence
          c.ai_run_id c.actor_user_id c.at)

-- ===== src/Corrective.antt =====
-- What is recorded after a risk is found: recommendations, actions and outcomes
-- (backend/internal/corrective/domain/corrective.go).
pub mod Statuses
use Prim.Native.String.{count}
use lidradar.Prelude.{
  ℕ, String, Bool, true, false, not, ◌&&◌, ◌||◌, Option, none, some, if◌then◌else◌, ltb, str_eq,
}
use lidradar.Text.{is_empty, trim_space}
use lidradar.Time.{Time, is_zero}

-- `CanRecordAction`.
unfoldable pub can_record_action : String → Bool
can_record_action status =
    str_eq status "OPEN" || str_eq status "ACKNOWLEDGED" || str_eq status "ACTED"

-- `maximumTextLength`, in characters.
abbrev pub maximum_text_length : ℕ
maximum_text_length = 2000

pub data ActionType : Type 0 where
  open_conversation copy_reply mark_contacted call send_message other_action : ActionType
  unknown : String → ActionType

unfoldable pub valid_action : ActionType → Bool
valid_action (ActionType.unknown _) = false
valid_action _ = true

pub data OutcomeStatus : Type 0 where
  responded booked paid lost thinking not_a_lead : OutcomeStatus
  unknown : String → OutcomeStatus

unfoldable pub valid_outcome : OutcomeStatus → Bool
valid_outcome (OutcomeStatus.unknown _) = false
valid_outcome _ = true

pub record Recommendation : Type 0 where
  pub id : String
  pub tenant_id : String
  pub risk_id : String
  pub text : String
  pub source : String
  pub created_at : Time

pub record Action : Type 0 where
  pub id : String
  pub tenant_id : String
  pub risk_id : String
  pub actor_id : String
  pub action_type : ActionType
  pub note : String
  pub created_at : Time

pub record Outcome : Type 0 where
  pub id : String
  pub tenant_id : String
  pub opportunity_id : String
  pub actor_id : String
  pub status : OutcomeStatus
  pub note : String
  pub created_at : Time

unfoldable pub new_recommendation : String → String → String → String → Time → Option Recommendation
new_recommendation id tenant_id risk_id raw at =
    let text = trim_space raw in
    if is_empty id
      || is_empty tenant_id
      || is_empty risk_id
      || is_empty text
      || ltb maximum_text_length (count text)
      || is_zero at
    then none
    else some (record {
      id = id;
      tenant_id = tenant_id;
      risk_id = risk_id;
      text = text;
      source = "TEMPLATE";
      created_at = at;
    })

unfoldable pub new_action :
    String → String → String → String → ActionType → String → Time → Option Action
unfolding valid_action
new_action id tenant_id risk_id actor_id kind raw at =
    let note = trim_space raw in
    if is_empty id
      || is_empty tenant_id
      || is_empty risk_id
      || is_empty actor_id
      || not (valid_action kind)
      || ltb maximum_text_length (count note)
      || is_zero at
    then none
    else some (record {
      id = id;
      tenant_id = tenant_id;
      risk_id = risk_id;
      actor_id = actor_id;
      action_type = kind;
      note = note;
      created_at = at;
    })

unfoldable pub new_outcome :
    String → String → String → String → OutcomeStatus → String → Time → Option Outcome
unfolding valid_outcome
new_outcome id tenant_id opportunity_id actor_id status raw at =
    let note = trim_space raw in
    if is_empty id
      || is_empty tenant_id
      || is_empty opportunity_id
      || is_empty actor_id
      || not (valid_outcome status)
      || ltb maximum_text_length (count note)
      || is_zero at
    then none
    else some (record {
      id = id;
      tenant_id = tenant_id;
      opportunity_id = opportunity_id;
      actor_id = actor_id;
      status = status;
      note = note;
      created_at = at;
    })

-- ===== src/Opportunity/Repository/Statements.antt =====
-- The tables of opportunities and the statements that transactions on them are made of
-- (backend/internal/opportunity/infrastructure/postgres.go).
use lidradar.Prelude.{
  String, Bool, true, false, ◌&&◌, ◌||◌, Option, none, some, ◌==◌, if◌then◌else◌, str_eq, any,
  Result, ok, err, ◌>>=◌, ◌>>◌, fail_if, List, [], ◌∷◌, ◌++◌,
}
use lidradar.Text.{is_empty}
use lidradar.Time.{Time, is_zero}
use lidradar.Opportunity.Stage
use lidradar.Opportunity.Stage.{Stage, stage_eq}
use lidradar.Opportunity.Aggregate.{Error, Opportunity, validate, StageHistory}

pub record StageEvent : Type 0 where
  pub id : String
  pub event_type : String
  pub tenant_id : String
  pub aggregate_id : String
  pub conversation_id : String
  pub from_stage : Option Stage
  pub to_stage : Stage
  pub occurred_at : Time

pub record Store : Type 0 where
  pub opportunities : List Opportunity
  pub history : List StageHistory
  pub events : List StageEvent

-- The rows of one opportunity, `tenant_id = $1 AND id = $2`.
abbrev pub is_row : String → String → Opportunity → Bool
is_row tenant id o = str_eq o.tenant_id tenant && str_eq o.id id

-- The rows of the partial unique index: active opportunities of a conversation.
abbrev pub is_active_row : String → String → Opportunity → Bool
is_active_row tenant conversation o =
    str_eq o.tenant_id tenant && str_eq o.conversation_id conversation && Stage.active o.stage

unfoldable pub find_row : (Opportunity → Bool) → List Opportunity → Option Opportunity
find_row p [] = none
find_row p (o ∷ os) = if p o then some o else find_row p os

-- `scanOpportunity` refuses a row that is not valid.
unfoldable pub checked : Option Opportunity → Result Error (Option Opportunity)
checked none = ok none
checked (some o) = if validate o then ok (some o) else err Error.invalid

unfoldable pub active_by_conversation :
    String → String → List Opportunity → Result Error (Option Opportunity)
unfolding find_row checked
active_by_conversation tenant conversation os =
    checked (find_row (is_active_row tenant conversation) os)

unfoldable pub opportunity_by_id :
    String → String → List Opportunity → Result Error (Option Opportunity)
unfolding find_row checked
opportunity_by_id tenant id os = checked (find_row (is_row tenant id) os)

-- `ON CONFLICT ... DO NOTHING` on the partial index; the primary key alone is a conflict.
unfoldable pub insert_opportunity :
    Opportunity → List Opportunity → Result Error (List Opportunity × Bool)
insert_opportunity o os =
    if any (is_active_row o.tenant_id o.conversation_id) os
    then ok (os, false)
    else (if any (λ r. str_eq r.id o.id) os then err Error.conflict else ok (os ++ o ∷ [], true))

unfoldable pub insert_history : StageHistory → List StageHistory → Result Error (List StageHistory)
insert_history h hs =
    if any (λ r. str_eq r.id h.id) hs then err Error.conflict else ok (hs ++ h ∷ [])

option_stage_eq : Option Stage → Option Stage → Bool
option_stage_eq none none = true
option_stage_eq (some s) (some t) = stage_eq s t
option_stage_eq _ _ = false

-- The columns that `AppendTx` compares with the row of the same id.
same_event : StageEvent → StageEvent → Bool
unfolding option_stage_eq
same_event e f =
    str_eq e.tenant_id f.tenant_id
    && str_eq e.event_type f.event_type
    && str_eq e.aggregate_id f.aggregate_id
    && str_eq e.conversation_id f.conversation_id
    && option_stage_eq e.from_stage f.from_stage
    && stage_eq e.to_stage f.to_stage
    && e.occurred_at == f.occurred_at

append_tx : StageEvent → List StageEvent → Result Error (List StageEvent)
unfolding same_event
append_tx e [] = ok (e ∷ [])
append_tx e (f ∷ fs) =
    let rest = append_tx e fs >>= λ gs. ok (f ∷ gs) in
    if str_eq f.id e.id then (if same_event e f then ok (f ∷ fs) else err Error.conflict) else rest

-- `appendEvent`: the event of a history record, refused as `NewEvent` refuses it.
unfoldable pub append_event :
    Opportunity
    → StageHistory
    → String
    → Option Stage
    → List StageEvent
    → Result Error (List StageEvent)
unfolding append_tx
append_event o h event_type from_stage es = do
  fail_if (is_empty h.id || is_empty o.tenant_id || is_empty o.id || is_zero h.created_at)
      Error.invalid
  append_tx
      (record {
        id = h.id;
        event_type = event_type;
        tenant_id = o.tenant_id;
        aggregate_id = o.id;
        conversation_id = o.conversation_id;
        from_stage = from_stage;
        to_stage = o.stage;
        occurred_at = h.created_at;
      })
      es

-- What `Create` and `Transition` return, with the tables after the commit.

-- ===== src/Opportunity/Repository.antt =====
-- The PostgreSQL repository of opportunities
-- (backend/internal/opportunity/infrastructure/postgres.go). Its tables are lists; a transaction is
-- a function of the tables that returns new ones, and an error keeps the old ones (the rollback).
-- The foreign keys of the tables are taken to hold.
pub mod Laws
pub mod Transition
mod Statements
pub mod Rows
unfoldable pub use Statements.*
use Prim.Native.String.{len}
use lidradar.Prelude.{
  ℕ, suc, leb, String, Bool, true, false, not, ◌&&◌, ◌||◌, Option, none, some, ◌==◌, if◌then◌else◌,
  str_eq, is_some, is_none, any, Result, ok, err, ◌>>=◌, ◌>>◌, fail_if, List, [], ◌∷◌, ◌++◌,
}
use lidradar.Text.{is_empty}
use lidradar.Time.{Time, is_zero}
use lidradar.Opportunity.Stage
use lidradar.Opportunity.Stage.{Stage, stage_eq}
use lidradar.Opportunity.Aggregate.{
  Error, Opportunity, validate, StageHistory, validate_history, new_history, TransitionCommand,
  validate_command, PotentialRevenue, Confidence,
}

-- The event of the outbox that a change of stage leaves: its identity is that of the history record.
pub record Outcome : Type 0 where
  pub opportunity : Opportunity
  pub changed : Bool
  pub store : Store

create_with : Opportunity → StageHistory → Store → List Opportunity × Bool → Result Error Outcome
unfolding insert_history append_event active_by_conversation
create_with o h s (os, false) = do
  found ← active_by_conversation o.tenant_id o.conversation_id s.opportunities
  elim found [
    | none ↦ err Error.conflict
    | some existing ↦ ok (record { opportunity = existing; changed = false; store = s })
  ]
create_with o h s (os, true) = do
  hs ← insert_history h s.history
  es ← append_event o h "opportunity.created" none s.events
  ok (record {
    opportunity = o;
    changed = true;
    store = record { opportunities = os; history = hs; events = es };
  })

unfoldable pub create : Opportunity → StageHistory → Store → Result Error Outcome
unfolding create_with insert_opportunity
create o h s = do
  fail_if
      (not (validate o)
        || not (validate_history h)
        || not (str_eq h.tenant_id o.tenant_id)
        || not (str_eq h.opportunity_id o.id)
        || is_some h.from_stage
        || not (stage_eq h.to_stage Stage.new)
        || not (stage_eq o.stage Stage.new))
      Error.invalid
  inserted ← insert_opportunity o s.opportunities
  create_with o h s inserted

-- The fields that `Transition` writes before its UPDATE.
unfoldable pub moved : TransitionCommand → Opportunity → Opportunity
moved c o = record o {
  stage = c.to_stage;
  updated_at = c.at;
  closed_at =
      if Stage.active c.to_stage
      then none
      else (if is_none o.closed_at then some c.at else o.closed_at);
}

-- The UPDATE writes three columns of the row.
pub write_row : Opportunity → Opportunity → Opportunity
write_row new o = record o {
  stage = new.stage;
  closed_at = new.closed_at;
  updated_at = new.updated_at;
}

unfoldable pub update_row : String → String → Opportunity → List Opportunity → List Opportunity
unfolding write_row
update_row tenant id new [] = []
update_row tenant id new (o ∷ os) =
    (if is_row tenant id o then write_row new o else o) ∷ update_row tenant id new os

-- The tables after the commit of an allowed move.
abbrev pub committed :
    TransitionCommand → Store → Opportunity → List StageHistory → List StageEvent → Outcome
committed c s o hs es = record {
  opportunity = moved c o;
  changed = true;
  store = record {
    opportunities = update_row c.tenant_id c.opportunity_id (moved c o) s.opportunities;
    history = hs;
    events = es;
  };
}

-- What `Transition` writes once the move is allowed.
commit_move : TransitionCommand → Store → Opportunity → StageHistory → Result Error Outcome
unfolding insert_history append_event
commit_move c s o h = do
  hs ← insert_history h s.history
  es ← append_event (moved c o) h "opportunity.stage_changed" (some o.stage) s.events
  ok (committed c s o hs es)

-- The steps of `Transition` once the row is read.
pub transition_row : TransitionCommand → Store → Opportunity → Result Error Outcome
unfolding commit_move
transition_row c s o =
    if stage_eq o.stage c.to_stage
    then ok (record { opportunity = o; changed = false; store = s })
    else do
      fail_if (not (Stage.can_transition_to o.stage c.to_stage)) Error.invalid_transition
      h ←
          new_history c.history_id c.tenant_id c.opportunity_id (some o.stage) c.to_stage c.source
            c.confidence c.ai_run_id c.actor_user_id c.at
      commit_move c s o h

transition_found : TransitionCommand → Store → Option Opportunity → Result Error Outcome
transition_found c s none = err Error.not_found
transition_found c s (some o) = transition_row c s o

unfoldable pub transition : TransitionCommand → Store → Result Error Outcome
unfolding transition_row opportunity_by_id transition_found
transition c s = do
  fail_if (not (validate_command c)) Error.invalid
  found ← opportunity_by_id c.tenant_id c.opportunity_id s.opportunities
  transition_found c s found

pub record EstimateUpdate : Type 0 where
  pub tenant_id : String
  pub opportunity_id : String
  pub amount : PotentialRevenue
  pub confidence : Confidence
  pub currency : String
  pub at : Time

-- `estimated_amount IS NULL OR estimated_amount_confidence IS NULL OR ... <= $4`.
not_surer : Option PotentialRevenue → Option Confidence → Confidence → Bool
not_surer none old new = true
not_surer (some a) none new = true
not_surer (some a) (some old) new = leb old new

unfoldable pub estimate_row : EstimateUpdate → Opportunity → Bool
unfolding not_surer
estimate_row u o =
    is_row u.tenant_id u.opportunity_id o
    && str_eq o.currency u.currency
    && Stage.active o.stage
    && not_surer o.estimated_amount o.estimated_amount_confidence u.confidence

-- The UPDATE of the estimate, and how many rows it has written.
unfoldable pub write_estimate : EstimateUpdate → List Opportunity → List Opportunity × ℕ
write_estimate u [] = ([], 0)
write_estimate u (o ∷ os) =
    let (rest, n) = write_estimate u os in
    if estimate_row u o
    then (
      record o {
        estimated_amount = some u.amount;
        estimated_amount_confidence = some u.confidence;
        updated_at = u.at;
      }
          ∷ rest,
      suc n,
    )
    else (o ∷ rest, n)

unfoldable pub update_estimate : EstimateUpdate → Store → Result Error (Bool × Store)
unfolding write_estimate
update_estimate u s = do
  fail_if
      (is_empty u.tenant_id
        || is_empty u.opportunity_id
        || not (len u.currency == 3)
        || is_zero u.at)
      Error.invalid
  let written = write_estimate u s.opportunities
  ok (written.1 == 1, record s { opportunities = written.0 })

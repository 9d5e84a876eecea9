-- ===== src/Risk/Planner/Inputs.antt =====
-- What a run of the planner takes: ids, readings of the clock, the stores, and the payload of its job
-- (backend/internal/risk/application/background.go).
use lidradar.Prelude.{String, ◌&&◌, Option, none, some, if◌then◌else◌, is_none, List}
use lidradar.Text.{is_empty}
use lidradar.Time.{Time}
use lidradar.Jobs.Job.{FailureKind, new_failure}
use lidradar.Jobs.Check.{ScheduledCheck}
use lidradar.Jobs.Worker.{Handled}
use lidradar.Risk.Policy.{ConversationState, Decision}
use lidradar.Risk.Evaluation.{Error}

-- What NewID answers at each place that calls it.
pub record Ids : Type 0 where
  pub risk : Option String
  pub check : Option String
  pub next_check : Option String

-- The readings of the clock: by the planner for its policy, by the evaluator, against a due moment,
-- for a new check, and twice more in `scheduleNext`.
pub record Clock : Type 0 where
  pub deciding : Time
  pub applying : Time
  pub comparing : Time
  pub creating : Time
  pub comparing_next : Time
  pub creating_next : Time

-- The repository of risks and the table of checks, and what a run answers.
pub record Stores (State : Type 0) : Type 0 where
  pub risks : State
  pub checks : List ScheduledCheck

-- The default trigger of `RefreshOpportunity`.
unfoldable pub with_trigger : ConversationState → Decision → Decision
with_trigger state d = record d {
  trigger_message_id =
      if is_empty d.trigger_message_id && is_none d.finding
      then state.last_meaningful_id
      else d.trigger_message_id;
}

-- `classifyRiskWork`.
unfoldable pub classify_risk_work : Option Error → String → String → Handled
classify_risk_work none invalid temporary = Handled.done
classify_risk_work (some Error.other) invalid temporary =
    Handled.failed (some (new_failure FailureKind.retryable temporary))
classify_risk_work (some e) invalid temporary =
    Handled.failed (some (new_failure FailureKind.permanent invalid))

-- `refreshPayload`; the JSON text of a job is read by encoding/json.
pub record RefreshPayload : Type 0 where
  pub conversation_id : String
  pub opportunity_id : String

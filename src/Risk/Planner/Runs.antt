-- ===== src/Risk/Planner/Runs.antt =====
-- The runs of the planner and the job handlers around them (`RefreshConversation`, `RefreshOpportunity`,
-- `Evaluate`, `RefreshPlansJobHandler`, `EvaluationJobHandler` of
-- backend/internal/risk/application/background.go).
use lidradar.Prelude.{
  String, Bool, not, ◌||◌, Option, none, some, if◌then◌else◌, str_eq, bool_eq, Result, ok, err,
  List, [], ◌∷◌,
}
use lidradar.Text.{is_empty}
use lidradar.Time.{Time, after}
use lidradar.Jobs.Job.{FailureKind, new_failure}
use lidradar.Jobs.Check.{ScheduledCheck}
use lidradar.Jobs.Worker.{Handled}
use lidradar.Risk.Policy.{Error as PolicyError, ConversationState, Decision}
use lidradar.Risk.Evaluation.{Error, of_policy, Policy, Repository, Applied, apply}
use lidradar.Risk.Planner.{schedule_check, schedule_next}
use lidradar.Risk.Planner.Inputs.{
  Ids, Clock, Stores, with_trigger, classify_risk_work, RefreshPayload,
}

module _ (json_object : String → Bool) (same_payload : String → String → Bool)
    (payload_of : String → String) (format_due : Time → String) where
  -- The second check, after the first one is stored or left out.
  unfoldable pub plan_next :
      Policy
      → Ids
      → Clock
      → String
      → String
      → Decision
      → List ScheduledCheck
      → Result Error (List ScheduledCheck)
      → List ScheduledCheck × Option Error
  plan_next policy ids clock tenant_id opportunity_id d cs (err e) = (cs, some e)
  plan_next policy ids clock tenant_id opportunity_id d cs (ok first) =
      elim (schedule_next json_object same_payload payload_of format_due policy ids.next_check
        clock.comparing_next clock.creating_next tenant_id opportunity_id d first) [
          | err e ↦ (first, some e)
          | ok both ↦ (both, none)
        ]

  unfoldable pub plan :
      Policy
      → Ids
      → Clock
      → String
      → String
      → Decision
      → List ScheduledCheck
      → List ScheduledCheck × Option Error
  plan policy ids clock tenant_id opportunity_id d cs =
      plan_next policy ids clock tenant_id opportunity_id d cs (
        schedule_check json_object same_payload payload_of format_due policy ids.check
          clock.creating tenant_id opportunity_id d d.due_at "" cs)

  module _ {State : Type 0} (repository : Repository State)
      (states reread : String → String → Result Error ConversationState) where
    abbrev pub planned : State → List ScheduledCheck × Option Error → Stores State × Option Error
    planned risks left = (record { risks = risks; checks = left.0 }, left.1)

    -- The answer of the evaluator ends the run if it is an error; otherwise the checks are stored.
    unfoldable pub refresh_applied :
        Stores State
        → List ScheduledCheck × Option Error
        → State × Result Error Applied
        → Stores State × Option Error
    refresh_applied s checks (risks, err e) = (record s { risks = risks }, some e)
    refresh_applied s checks (risks, ok _) = planned risks checks

    -- `RefreshOpportunity` once the policy has decided; the evaluator reads the state again.
    unfoldable pub refresh_decided :
        Policy
        → Ids
        → Clock
        → String
        → String
        → ConversationState
        → Stores State
        → Decision
        → Stores State × Option Error
    refresh_decided policy ids clock tenant_id opportunity_id state s d =
        let checks =
          plan policy ids clock tenant_id opportunity_id (with_trigger state d) s.checks in
        if not d.resolve
        then planned s.risks checks
        else refresh_applied s checks (
            apply repository reread policy ids.risk clock.applying tenant_id opportunity_id s.risks)

    -- The steps of `RefreshOpportunity` on the state that was read.
    unfoldable pub refresh_observed :
        Policy
        → Ids
        → Clock
        → String
        → String
        → ConversationState
        → Stores State
        → Result PolicyError Decision
        → Stores State × Option Error
    refresh_observed policy ids clock tenant_id opportunity_id state s (err e) =
        (s, some (of_policy e))
    refresh_observed policy ids clock tenant_id opportunity_id state s (ok d) =
        refresh_decided policy ids clock tenant_id opportunity_id state s d

    unfoldable pub refresh_read :
        Policy
        → Ids
        → Clock
        → String
        → String
        → Stores State
        → Result Error ConversationState
        → Stores State × Option Error
    refresh_read policy ids clock tenant_id opportunity_id s (err e) = (s, some e)
    refresh_read policy ids clock tenant_id opportunity_id s (ok state) =
        if not (str_eq state.tenant_id tenant_id)
          || not (str_eq state.opportunity_id opportunity_id)
        then (s, some Error.invalid_check)
        else refresh_observed policy ids clock tenant_id opportunity_id state s
            (policy.evaluate state clock.deciding)

    -- `RefreshOpportunity`.
    unfoldable pub refresh_opportunity :
        Policy → Ids → Clock → String → String → Stores State → Stores State × Option Error
    refresh_opportunity policy ids clock tenant_id opportunity_id s =
        if is_empty tenant_id || is_empty opportunity_id
        then (s, some Error.invalid_check)
        else refresh_read policy ids clock tenant_id opportunity_id s
            (states tenant_id opportunity_id)

    -- `Evaluate`.
    unfoldable pub evaluate_applied :
        Policy
        → Ids
        → Clock
        → String
        → String
        → List ScheduledCheck
        → State × Result Error Applied
        → Stores State × Option Error
    evaluate_applied policy ids clock tenant_id opportunity_id cs (risks, err e) =
        (record { risks = risks; checks = cs }, some e)
    evaluate_applied policy ids clock tenant_id opportunity_id cs (risks, ok a) = planned risks (
        if after a.decision.due_at clock.comparing
        then plan policy ids clock tenant_id opportunity_id a.decision cs
        else plan_next policy ids clock tenant_id opportunity_id a.decision cs (ok cs))

    unfoldable pub evaluate :
        Policy → Ids → Clock → String → String → Stores State → Stores State × Option Error
    evaluate policy ids clock tenant_id opportunity_id s =
        evaluate_applied policy ids clock tenant_id opportunity_id s.checks
          (apply repository states policy ids.risk clock.applying tenant_id opportunity_id s.risks)

    -- `RefreshConversation`, with what the locator answers.
    unfoldable pub refresh_conversation :
        (String → String → Result Error (Option String))
        → Policy
        → Ids
        → Clock
        → String
        → String
        → Stores State
        → Stores State × Option Error
    refresh_conversation locate policy ids clock tenant_id conversation_id s =
        if is_empty tenant_id || is_empty conversation_id
        then (s, some Error.invalid_check)
        else elim (locate tenant_id conversation_id) [
          | err e ↦ (s, some e)
          | ok none ↦ (s, none)
          | ok (some opportunity_id) ↦
              refresh_opportunity policy ids clock tenant_id opportunity_id s
        ]

    -- The loop of `RefreshPlansJobHandler` over the planners, each with its policy, ids and clock.
    unfoldable pub refresh_plans :
        (String → String → Result Error (Option String))
        → RefreshPayload
        → String
        → List (Policy × Ids × Clock)
        → Stores State
        → Stores State × Handled
    refresh_plans locate payload tenant_id [] s = (s, Handled.done)
    refresh_plans locate payload tenant_id ((policy, ids, clock) ∷ rest) s =
        let (t, trouble) : Stores State × Option Error =
          if is_empty payload.conversation_id
          then refresh_opportunity policy ids clock tenant_id payload.opportunity_id s
          else refresh_conversation locate policy ids clock tenant_id payload.conversation_id s in
        elim (classify_risk_work trouble "RISK_PLAN_INVALID" "RISK_PLAN_TEMPORARY") [
          | Handled.done ↦ refresh_plans locate payload tenant_id rest t
          | Handled.failed f ↦ (t, Handled.failed f)
        ]

    -- `RefreshPlansJobHandler`, on what the payload reads as.
    unfoldable pub refresh_plans_handler :
        (String → String → Result Error (Option String))
        → Option RefreshPayload
        → String
        → List (Policy × Ids × Clock)
        → Stores State
        → Stores State × Handled
    refresh_plans_handler locate none tenant_id planners s =
        (s, Handled.failed (some (new_failure FailureKind.permanent "INVALID_JOB_PAYLOAD")))
    refresh_plans_handler locate (some payload) tenant_id planners s =
        if bool_eq (is_empty payload.conversation_id) (is_empty payload.opportunity_id)
        then (s, Handled.failed (some (new_failure FailureKind.permanent "INVALID_JOB_PAYLOAD")))
        else refresh_plans locate payload tenant_id planners s

    -- `EvaluationJobHandler`.
    unfoldable pub evaluation_handler :
        Policy
        → Ids
        → Clock
        → Option RefreshPayload
        → String
        → Stores State
        → Stores State × Handled
    evaluation_handler policy ids clock none tenant_id s =
        (s, Handled.failed (some (new_failure FailureKind.permanent "INVALID_JOB_PAYLOAD")))
    evaluation_handler policy ids clock (some payload) tenant_id s =
        if is_empty payload.opportunity_id || not (is_empty payload.conversation_id)
        then (s, Handled.failed (some (new_failure FailureKind.permanent "INVALID_JOB_PAYLOAD")))
        else (
          (evaluate policy ids clock tenant_id payload.opportunity_id s).0,
          classify_risk_work (evaluate policy ids clock tenant_id payload.opportunity_id s).1
              "RISK_EVALUATION_INVALID" "RISK_EVALUATION_TEMPORARY",
        )

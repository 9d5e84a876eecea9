-- ===== src/Risk/Planner/Events.antt =====
-- The handlers of events that enqueue a refresh of the plans (`ConversationChangedEventHandler`,
-- `OpportunityEventHandler`, `AIAnalysisAppliedEventHandler` and `enqueueRefresh` of
-- backend/internal/risk/application/background.go). What encoding/json reads of an event's data and
-- writes of a payload is an argument.
use lidradar.Prelude.{
  ℕ, String, Bool, not, ◌||◌, Option, none, some, if◌then◌else◌, ltb, str_eq, Result, ok, err, List,
  [], ◌∷◌,
}
use lidradar.Text.{is_empty, joined, decimal}
use lidradar.Time.{pos}
use lidradar.Jobs.Job.{Error, Job, FailureKind, new_failure, new_job}
use lidradar.Jobs.Store.{enqueue}
use lidradar.Events.Event.{Event}
use lidradar.Events.Dispatcher.{Handled}
use lidradar.Risk.Planner.Inputs.{RefreshPayload}

-- `conversationEventData` and `analysisAppliedEventData`; a revision is not negative here, and one
-- below 1 is refused.
pub record ConversationEventData : Type 0 where
  pub conversation_id : String
  pub message_id : String
  pub revision : ℕ

pub record AnalysisAppliedEventData : Type 0 where
  pub conversation_id : String
  pub run_id : String
  pub base_conversation_revision : ℕ
  pub analysis_through_message_id : String

abbrev permanent : String → Handled
permanent code = Handled.failed (some (new_failure FailureKind.permanent code))

abbrev retryable : String → Handled
retryable code = Handled.failed (some (new_failure FailureKind.retryable code))

-- What `enqueueRefresh` makes of the answer of `Enqueue`.
unfoldable pub enqueued : List Job → Result Error (Job × Bool × List Job) → List Job × Handled
enqueued js (err Error.conflict) = (js, permanent "JOB_DEDUP_CONFLICT")
enqueued js (err Error.invalid) = (js, permanent "JOB_DEDUP_CONFLICT")
enqueued js (err Error.lease_lost) = (js, retryable "JOB_ENQUEUE_FAILED")
enqueued js (ok (_, _, after)) = (after, Handled.done)

module _ (json_object : String → Bool) (same_payload : String → String → Bool)
    (payload_text : RefreshPayload → String) where
  -- The steps of `enqueueRefresh` on the job that NewJob made, if it made one.
  unfoldable pub enqueue_made : List Job → Option Job → List Job × Handled
  enqueue_made js none = (js, permanent "INVALID_JOB_PAYLOAD")
  enqueue_made js (some j) = enqueued js (enqueue json_object same_payload j js)

  -- `enqueueRefresh`, with the id that NewID returns.
  unfoldable pub enqueue_refresh :
      Option String → Event → RefreshPayload → String → List Job → List Job × Handled
  enqueue_refresh none e payload key js = (js, retryable "JOB_ID_UNAVAILABLE")
  enqueue_refresh (some id) e payload key js = enqueue_made js (
      new_job json_object id e.tenant_id "risk.refresh-no-response-plan.v1" key
        (payload_text payload) (pos 0) e.occurred_at e.occurred_at)

  -- `ConversationChangedEventHandler`.
  unfoldable pub conversation_changed :
      (String → Option ConversationEventData)
      → Option String
      → Event
      → List Job
      → List Job × Handled
  conversation_changed read id e js = elim (read e.payload) [
    | none ↦ (js, permanent "INVALID_OUTBOX_PAYLOAD")
    | some event_data ↦
        if is_empty event_data.conversation_id
          || is_empty event_data.message_id
          || ltb event_data.revision 1
          || not (str_eq e.aggregate_type "conversation")
          || not (str_eq e.aggregate_id event_data.conversation_id)
        then (js, permanent "INVALID_OUTBOX_PAYLOAD")
        else enqueue_refresh id e
            (record { conversation_id = event_data.conversation_id; opportunity_id = "" })
            (joined (
              "conversation:"
              ∷ event_data.conversation_id
              ∷ ":revision:"
              ∷ decimal event_data.revision
              ∷ []))
            js
  ]

  -- `OpportunityEventHandler`.
  unfoldable pub opportunity_event : Option String → Event → List Job → List Job × Handled
  opportunity_event id e js =
      if not (str_eq e.aggregate_type "opportunity") || is_empty e.aggregate_id
      then (js, permanent "INVALID_OUTBOX_PAYLOAD")
      else enqueue_refresh id e (record { conversation_id = ""; opportunity_id = e.aggregate_id })
          (joined ("event:" ∷ e.id ∷ [])) js

  -- `AIAnalysisAppliedEventHandler`.
  unfoldable pub analysis_applied :
      (String → Option AnalysisAppliedEventData)
      → Option String
      → Event
      → List Job
      → List Job × Handled
  analysis_applied read id e js = elim (read e.payload) [
    | none ↦ (js, permanent "INVALID_OUTBOX_PAYLOAD")
    | some event_data ↦
        if not (str_eq e.aggregate_type "ai_run")
          || is_empty e.aggregate_id
          || not (str_eq event_data.run_id e.aggregate_id)
          || is_empty event_data.conversation_id
          || ltb event_data.base_conversation_revision 1
          || is_empty event_data.analysis_through_message_id
        then (js, permanent "INVALID_OUTBOX_PAYLOAD")
        else enqueue_refresh id e
            (record { conversation_id = event_data.conversation_id; opportunity_id = "" })
            (joined ("ai-run:" ∷ event_data.run_id ∷ [])) js
  ]

-- ===== src/Tests/Delivery.antt =====
-- Delivering one event of an opportunity twice.
use lidradar.Prelude.{List, ◌≡◌, refl, String, none, some, [], ◌∷◌, str_eq}
use lidradar.Time.{pos}
use lidradar.Text.{trim_space}
use lidradar.Tables.Apart.{text_eq_refl}
use lidradar.Jobs.Job.{Job, Status as JobStatus, default_max_attempts, new_job}
use lidradar.Events.Event.{Event, Status as EventStatus}
use lidradar.Events.Dispatcher.{Handled}
use lidradar.Risk.Planner.Inputs.{RefreshPayload}
use lidradar.Risk.Planner.Events.{enqueue_refresh, enqueue_made, enqueued}
use lidradar.Risk.Planner.Delivered.{refresh_again}
use lidradar.Tests.Risk.{asked}
use lidradar.Tests.Evaluation.{is_object}
use lidradar.Jobs.Store.{enqueue}

-- The event of the opportunity, handled twice.
abbrev event : Event
event = record {
  id = "event";
  event_type = "opportunity.created.v1";
  version = 1;
  occurred_at = asked;
  tenant_id = "org";
  aggregate_type = "opportunity";
  aggregate_id = "deal";
  trace_id = "trace";
  payload = "{}";
  status = EventStatus.pending;
  available_at = asked;
  attempt_count = 0;
  max_attempts = 5;
  leased_by = none;
  lease_until = none;
  last_error_code = none;
  completed_at = none;
  created_at = asked;
  updated_at = asked;
}

abbrev refresh : RefreshPayload
refresh = record { conversation_id = ""; opportunity_id = "deal" }

abbrev text_of : RefreshPayload → String
text_of p = "{}"

abbrev jobs : List Job
jobs =
    record {
      id = "job";
      tenant_id = "org";
      job_type = "risk.refresh-no-response-plan.v1";
      dedup_key = "event:event";
      payload = "{}";
      status = JobStatus.pending;
      priority = pos 0;
      available_at = asked;
      attempt_count = 0;
      max_attempts = default_max_attempts;
      leased_by = none;
      lease_until = none;
      last_error_code = none;
      completed_at = none;
      created_at = asked;
      updated_at = asked;
    }
    ∷ []

handled-eq :
    enqueue_refresh is_object str_eq text_of (some "job") event refresh "event:event" []
    ≡ (jobs, Handled.done)
unfolding enqueue_refresh enqueue_made new_job trim_space enqueued enqueue
handled-eq = refl

refresh_again_example :
    enqueue_refresh is_object str_eq text_of (some "another") event refresh "event:event" jobs
    ≡ (jobs, Handled.done)
refresh_again_example =
    refresh_again is_object str_eq text_of "job" "another" event refresh "event:event" [] jobs
      text_eq_refl refl handled-eq

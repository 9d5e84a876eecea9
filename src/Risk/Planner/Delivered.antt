-- ===== src/Risk/Planner/Delivered.antt =====
-- An event is delivered at least once: to handle it again enqueues no second job.
use lidradar.Prelude.{
  ◌≡◌, refl, ap, subst, ◌∙◌, String, Bool, true, false, not, ◌||◌, none, some, if◌then◌else◌,
  Result, ok, err, List, arith,
}
use lidradar.Text.{is_empty, trim_space}
use lidradar.Time.{pos}
use lidradar.Jobs.Job.{Error, Job, Status, validate, fields_ok, new_job, default_max_attempts}
use lidradar.Jobs.Store.{enqueue}
use lidradar.Jobs.Store.Enqueue.{enqueue_renamed}
use lidradar.Events.Event.{Event}
use lidradar.Events.Dispatcher.{Handled}
use lidradar.Risk.Planner.Inputs.{RefreshPayload}
use lidradar.Risk.Planner.Events.{enqueued, enqueue_made, enqueue_refresh}

renamed_or :
    (a b c d e f g h i k l a' : Bool)
    → not (a || b || c || d || e || f || g || h || i || k || l) ≡ true
    → a' ≡ false
    → not (a' || b || c || d || e || f || g || h || i || k || l) ≡ true
renamed_or a b c d e f g h i k l a' p q = ground arith

module _ (json_object : String → Bool) (same_payload : String → String → Bool)
    (payload_text : RefreshPayload → String) where
  renamed_fields :
      (j : Job) (id : String)
      → fields_ok json_object j ≡ true
      → is_empty id ≡ false
      → fields_ok json_object (record j { id = id }) ≡ true
  unfolding fields_ok
  renamed_fields j id h n = renamed_or (is_empty j.id) _ _ _ _ _ _ _ _ _ _ (is_empty id) h n

  renamed_valid :
      (j : Job) (id : String)
      → validate json_object j ≡ true
      → is_empty id ≡ false
      → validate json_object (record j { id = id }) ≡ true
  unfolding validate
  renamed_valid j id h n = ground (arith, renamed_fields j id)

  -- The job of a refresh, but for its validation.
  abbrev job_with : String → Event → RefreshPayload → String → Job
  job_with id e payload key = record {
    id = id;
    tenant_id = e.tenant_id;
    job_type = trim_space "risk.refresh-no-response-plan.v1";
    dedup_key = trim_space key;
    payload = payload_text payload;
    status = Status.pending;
    priority = pos 0;
    available_at = e.occurred_at;
    attempt_count = 0;
    max_attempts = default_max_attempts;
    leased_by = none;
    lease_until = none;
    last_error_code = none;
    completed_at = none;
    created_at = e.occurred_at;
    updated_at = e.occurred_at;
  }

  done_again :
      (j : Job) (id : String) (js after : List Job)
      → ((payload : String) → same_payload payload payload ≡ true)
      → validate json_object (record j { id = id }) ≡ true
      → (answer : Result Error (Job × Bool × List Job))
      → enqueue json_object same_payload j js ≡ answer
      → enqueued js answer ≡ (after, Handled.done)
      → enqueued after (enqueue json_object same_payload (record j { id = id }) after)
        ≡ (after, Handled.done)
  unfolding enqueued
  done_again j id js after same v (err Error.conflict) a h = cc
  done_again j id js after same v (err Error.invalid) a h = cc
  done_again j id js after same v (err Error.lease_lost) a h = cc
  done_again j id js after same v (ok (row, new, left)) a h =
      let equal : left ≡ after = ap (λ (w : List Job × Handled). w.0) h in
      subst
        (λ (t : List Job).
          enqueued t (enqueue json_object same_payload (record j { id = id }) t)
          ≡ (t, Handled.done))
        equal (ap (enqueued left) (enqueue_renamed json_object same_payload j id js same v a))

  made_valid :
      (b : Bool) (j : Job) (js after : List Job)
      → enqueue_made json_object same_payload payload_text js (if b then some j else none)
        ≡ (after, Handled.done)
      → (b ≡ true) × (enqueued js (enqueue json_object same_payload j js) ≡ (after, Handled.done))
  unfolding enqueue_made
  made_valid true j js after h = (refl, h)
  made_valid false j js after h = cc

  -- To handle an event again, with whatever new id, changes nothing: the first job stands for both.
  pub refresh_again :
      (id id' : String) (e : Event) (payload : RefreshPayload) (key : String) (js after : List Job)
      → ((text : String) → same_payload text text ≡ true)
      → is_empty id' ≡ false
      → enqueue_refresh json_object same_payload payload_text (some id) e payload key js
        ≡ (after, Handled.done)
      → enqueue_refresh json_object same_payload payload_text (some id') e payload key after
        ≡ (after, Handled.done)
  unfolding enqueue_refresh enqueue_made new_job
  refresh_again id id' e payload key js after same n h =
      let j = job_with id e payload key in
      let (valid, told) = made_valid (validate json_object j) j js after h in
      let v = renamed_valid j id' valid n in
      let again =
        done_again j id' js after same v (enqueue json_object same_payload j js) refl told in
      ap
        (λ b.
          enqueue_made json_object same_payload payload_text after
            (if b then some (job_with id' e payload key) else none))
        v
      ∙ again

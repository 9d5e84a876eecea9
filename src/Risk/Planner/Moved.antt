-- ===== src/Risk/Planner/Moved.antt =====
-- A check whose due moment moves (`schedule` of backend/internal/risk/application/background.go).
use lidradar.Prelude.{
  ◌≡◌, refl, sym, ap, subst, ◌∙◌, String, Bool, true, false, not, ◌||◌, ◌==◌, Option, none, some,
  if◌then◌else◌, Result, ok, err, fail_if-eq-ok, List, arith,
}
use lidradar.Text.{is_empty, trim_space}
use lidradar.Time.{Time, is_zero}
use lidradar.Tables.{find}
use lidradar.Tables.Apart.{some_injective}
use lidradar.Jobs.Job.{Error as JobError}
use lidradar.Jobs.Check.{CheckStatus, ScheduledCheck, validate_check, new_check}
use lidradar.Jobs.Store.Checks.{same_check_key, is_scheduled, schedule}
use lidradar.Risk.Policy.{Decision}
use lidradar.Risk.Evaluation.{Error, Policy}
use lidradar.Risk.Planner.Kept.{made_of, table_of}
use lidradar.Risk.Planner.{
  keeps_due, check_key, version_of, trigger_of, work_types, table_or_error, check_with, store_check,
  schedule_with, schedule_check, of_jobs,
}
use lidradar.Jobs.Store.Moved.{Stands, schedule_found-Stands, moved-conflict}

-- What a check that NewScheduledCheck made holds.
record Made (json_object : String → Bool) (tenant_id check_type key : String) (at : Time)
    (c : ScheduledCheck) : Type 0 where
  tenant : c.tenant_id ≡ tenant_id
  type : c.check_type ≡ trim_space check_type
  dedup : c.dedup_key ≡ trim_space key
  due : c.due_at ≡ at
  scheduled : is_scheduled c.status ≡ true
  valid : validate_check json_object c ≡ true

valid_some :
    (b : Bool) (e : ScheduledCheck) {c : ScheduledCheck}
    → (if b then some e else none) ≡ some c
    → (b ≡ true) × (e ≡ c)
valid_some true e h = (refl, some_injective h)
valid_some false e h = cc

new_check-Made :
    (json_object : String → Bool)
    (id tenant_id check_type subject_type subject_id job_type key payload : String) (due now : Time)
    {c : ScheduledCheck}
    → new_check json_object id tenant_id check_type subject_type subject_id job_type key payload due
        now
      ≡ some c
    → Made json_object tenant_id check_type key due c
unfolding new_check
new_check-Made json_object id tenant_id check_type subject_type subject_id job_type key payload due
      now h =
    let e : ScheduledCheck = record {
      id = id;
      tenant_id = tenant_id;
      check_type = trim_space check_type;
      subject_type = trim_space subject_type;
      subject_id = subject_id;
      job_type = trim_space job_type;
      dedup_key = trim_space key;
      payload = payload;
      due_at = due;
      status = CheckStatus.scheduled;
      job_id = none;
      created_at = now;
      updated_at = now;
    } in
    let (good, same) = valid_some (validate_check json_object e) e h in
    subst (Made json_object tenant_id check_type key due) same (record {
      tenant = refl;
      type = refl;
      dedup = refl;
      due = refl;
      scheduled = refl;
      valid = good;
    })

module _ (json_object : String → Bool) (same_payload : String → String → Bool)
    (payload_of : String → String) (format_due : Time → String) where
  abbrev with_types :
      Policy
      → String
      → Time
      → String
      → String
      → Decision
      → Time
      → String
      → Option (String × String)
      → Result Error ScheduledCheck
  with_types = check_with json_object same_payload payload_of format_due

  type_of : Option (String × String) → String
  type_of none = ""
  type_of (some (check_type, job_type)) = check_type

  -- The key of a check that does not name its due moment.
  same_key_again :
      (policy : Policy) (d d' : Decision) (opportunity_id : String) (due due' : Time)
      (suffix : String)
      → keeps_due policy.risk_type (version_of policy d) ≡ false
      → trigger_of d' ≡ trigger_of d
      → version_of policy d' ≡ version_of policy d
      → check_key format_due policy d' opportunity_id due' suffix
        ≡ check_key format_due policy d opportunity_id due suffix
  unfolding check_key
  same_key_again policy d d' opportunity_id due due' suffix k t v = rw (v, t, k) refl

  with_Made :
      (policy : Policy) (id : String) (now : Time) (tenant_id opportunity_id : String)
      (d : Decision) (due : Time) (suffix : String) (types : Option (String × String))
      {c : ScheduledCheck}
      → with_types policy id now tenant_id opportunity_id d due suffix types ≡ ok c
      → Made json_object tenant_id
          (type_of types)
          (check_key format_due policy d opportunity_id due suffix)
          due
          c
  unfolding check_with type_of
  with_Made policy id now tenant_id opportunity_id d due suffix none h = cc
  with_Made policy id now tenant_id opportunity_id d due suffix (some (check_type, job_type)) h =
      new_check-Made json_object id tenant_id check_type "opportunity" opportunity_id job_type
        (check_key format_due policy d opportunity_id due suffix) (payload_of opportunity_id) due
        now (made_of json_object same_payload payload_of format_due _ h)

  stored_Stands :
      (cs left : List ScheduledCheck) (made : Result Error ScheduledCheck)
      → store_check json_object same_payload payload_of format_due cs made ≡ ok left
      → (c : ScheduledCheck) × (made ≡ ok c) × Stands json_object same_payload c left
  unfolding store_check schedule
  stored_Stands cs left (err e) h = cc
  stored_Stands cs left (ok c) h =
      let (row, new, h') = table_of json_object same_payload payload_of format_due _ h in
      let (good, h'') =
        fail_if-eq-ok (not (is_scheduled c.status) || not (validate_check json_object c))
          JobError.invalid _ h' in
      (
        c,
        refl,
        schedule_found-Stands json_object same_payload c row new cs left
            (find (same_check_key c) cs) refl (ground (arith, good)) h'',
      )

  refused :
      (c : ScheduledCheck) (left : List ScheduledCheck)
      → schedule json_object same_payload c left ≡ err JobError.conflict
      → store_check json_object same_payload payload_of format_due left (ok c)
        ≡ err Error.jobs_conflict
  unfolding store_check table_or_error of_jobs
  refused c left h = ap table_or_error h

  -- An answer of `schedule` that was no error, for a moment and a message that are named.
  stored_with :
      (policy : Policy) (id : String) (now : Time) (tenant_id opportunity_id : String)
      (d : Decision) (due : Time) (suffix : String) (cs : List ScheduledCheck)
      → (is_zero due || is_empty (trigger_of d)) ≡ false
      → schedule_check json_object same_payload payload_of format_due policy
          (some id)
          now
          tenant_id
          opportunity_id
          d
          due
          suffix
          cs
        ≡ store_check json_object same_payload payload_of format_due cs (
            with_types policy id now tenant_id opportunity_id d due suffix
              (work_types policy.risk_type))
  unfolding schedule_check schedule_with
  stored_with policy id now tenant_id opportunity_id d due suffix cs named = rw named refl

  -- Where the key of a check does not name its due moment, as for a promise of the current version of
  -- its rule, a check of the same message that is planned again for another moment is refused: the
  -- planner ends in the conflict that its callers treat as permanent.
  pub moved_check-refused :
      (policy : Policy) (id id' : String) (now now' : Time) (tenant_id opportunity_id : String)
      (d d' : Decision) (due due' : Time) (suffix : String) (cs left : List ScheduledCheck)
      (c' : ScheduledCheck)
      → keeps_due policy.risk_type (version_of policy d) ≡ false
      → trigger_of d' ≡ trigger_of d
      → version_of policy d' ≡ version_of policy d
      → (is_zero due || is_empty (trigger_of d)) ≡ false
      → (is_zero due' || is_empty (trigger_of d')) ≡ false
      → (due == due') ≡ false
      → schedule_check json_object same_payload payload_of format_due policy
          (some id)
          now
          tenant_id
          opportunity_id
          d
          due
          suffix
          cs
        ≡ ok left
      → check_with json_object same_payload payload_of format_due policy id' now' tenant_id
          opportunity_id d' due' suffix
          (work_types policy.risk_type)
        ≡ ok c'
      → schedule_check json_object same_payload payload_of format_due policy
          (some id')
          now'
          tenant_id
          opportunity_id
          d'
          due'
          suffix
          left
        ≡ err Error.jobs_conflict
  moved_check-refused policy id id' now now' tenant_id opportunity_id d d' due due' suffix cs left
        c' k t v named named' moved first again =
      let (c, made, stands) =
        stored_Stands cs left _ (
          sym (stored_with policy id now tenant_id opportunity_id d due suffix cs named) ∙ first) in
      let old =
        with_Made policy id now tenant_id opportunity_id d due suffix (work_types policy.risk_type)
          made in
      let new =
        with_Made policy id' now' tenant_id opportunity_id d' due' suffix
          (work_types policy.risk_type) again in
      let key = same_key_again policy d d' opportunity_id due due' suffix k t v in
      let other : (c.due_at == c'.due_at) ≡ false = rw (old.due, new.due) moved in
      let clash =
        moved-conflict json_object same_payload c c' left stands (new.tenant ∙ sym old.tenant)
          (new.type ∙ sym old.type) (new.dedup ∙ ap trim_space key ∙ sym old.dedup) other
          new.scheduled new.valid in
      stored_with policy id' now' tenant_id opportunity_id d' due' suffix left named'
      ∙ ap (store_check json_object same_payload payload_of format_due left) again
      ∙ refused c' left clash

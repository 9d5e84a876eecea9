-- ===== src/Risk/Planner/Kept.antt =====
-- No due moment is forgotten: what a run of the planner leaves in the table of checks.
use mathlib.Core.List.{Memᴰ}
use lidradar.Prelude.{
  ◌≡◌, refl, ap, subst, ◌∙◌, String, Bool, true, false, ◌||◌, Option, none, some, if◌then◌else◌,
  Result, ok, err, ok-injective, List, arith,
}
use lidradar.Text.{is_empty}
use lidradar.Time.{Time, is_zero, after}
use lidradar.Jobs.Job.{Error as JobError}
use lidradar.Jobs.Check.{ScheduledCheck, new_check}
use lidradar.Jobs.Store.Scheduled.{schedule-Kept}
use lidradar.Risk.Policy.{Decision}
use lidradar.Risk.Evaluation.{Error, Policy}
use lidradar.Risk.Planner.{
  made_or_invalid, table_or_error, check_with, store_check, schedule_with, schedule_check,
  trigger_of, work_types, check_key,
}

-- A table of checks that keeps the rows of one before.
abbrev pub Keeps : List ScheduledCheck → List ScheduledCheck → Type 0
Keeps cs after = (x : ScheduledCheck) → Memᴰ x cs → Memᴰ x after

-- A row for a check of an opportunity at a moment.
pub record Planned (tenant_id opportunity_id : String) (due : Time) (after : List ScheduledCheck)
    : Type 0 where
  pub row : ScheduledCheck
  pub there : Memᴰ row after
  pub of_tenant : row.tenant_id ≡ tenant_id
  pub of_opportunity : row.subject_id ≡ opportunity_id
  pub at_due : row.due_at ≡ due

pub Planned-Keeps :
    {tenant_id opportunity_id : String} {due : Time} {cs after : List ScheduledCheck}
    → Keeps cs after
    → Planned tenant_id opportunity_id due cs
    → Planned tenant_id opportunity_id due after
Planned-Keeps k p = record {
  row = p.row;
  there = k p.row p.there;
  of_tenant = p.of_tenant;
  of_opportunity = p.of_opportunity;
  at_due = p.at_due;
}

module _ (json_object : String → Bool) (same_payload : String → String → Bool)
    (payload_of : String → String) (format_due : Time → String) where
  -- The fields of a check that was made.
  made_check :
      (id tenant_id check_type subject_type subject_id job_type key payload : String)
      (due now : Time) {c : ScheduledCheck}
      → new_check json_object id tenant_id check_type subject_type subject_id job_type key payload
          due now
        ≡ some c
      → (c.tenant_id ≡ tenant_id) × (c.subject_id ≡ subject_id) × (c.due_at ≡ due)
  unfolding new_check
  made_check id tenant_id check_type subject_type subject_id job_type key payload due now h =
      ground arith

  pub made_of :
      (made : Option ScheduledCheck) {c : ScheduledCheck}
      → made_or_invalid made ≡ ok c
      → made ≡ some c
  unfolding made_or_invalid
  made_of none h = cc
  made_of (some c) h = ap some (ok-injective h)

  with_fields :
      (policy : Policy) (id : String) (now : Time) (tenant_id opportunity_id : String)
      (d : Decision) (due : Time) (suffix : String) (types : Option (String × String))
      {c : ScheduledCheck}
      → check_with json_object same_payload payload_of format_due policy id now tenant_id
          opportunity_id d due suffix types
        ≡ ok c
      → (c.tenant_id ≡ tenant_id) × (c.subject_id ≡ opportunity_id) × (c.due_at ≡ due)
  unfolding check_with
  with_fields policy id now tenant_id opportunity_id d due suffix none h = cc
  with_fields policy id now tenant_id opportunity_id d due suffix (some (check_type, job_type)) h =
      made_check id tenant_id check_type "opportunity" opportunity_id job_type
        (check_key format_due policy d opportunity_id due suffix) (payload_of opportunity_id) due
        now (made_of _ h)

  pub table_of :
      (answer : Result JobError (ScheduledCheck × Bool × List ScheduledCheck))
      {after : List ScheduledCheck}
      → table_or_error answer ≡ ok after
      → (row : ScheduledCheck) × (new : Bool) × (answer ≡ ok (row, new, after))
  unfolding table_or_error
  table_of (err e) h = cc
  table_of (ok (row, new, t)) h = (row, new, ap (λ x. ok (row, new, x)) (ok-injective h))

  stored-Planned :
      (tenant_id opportunity_id : String) (due : Time) (cs after : List ScheduledCheck)
      (made : Result Error ScheduledCheck)
      → ((c : ScheduledCheck)
          → made ≡ ok c
          → (c.tenant_id ≡ tenant_id) × (c.subject_id ≡ opportunity_id) × (c.due_at ≡ due))
      → store_check json_object same_payload payload_of format_due cs made ≡ ok after
      → Keeps cs after × Planned tenant_id opportunity_id due after
  unfolding store_check
  stored-Planned tenant_id opportunity_id due cs after (err e) fields h = cc
  stored-Planned tenant_id opportunity_id due cs after (ok c) fields h =
      let (row, new, h') = table_of _ h in
      let kept = schedule-Kept json_object same_payload c row new cs after h' in
      let (t, o, at) = fields c refl in
      (
        kept.keeps,
        record {
          row = row;
          there = kept.there;
          of_tenant = kept.same_tenant ∙ t;
          of_opportunity = kept.same_subject ∙ o;
          at_due = kept.same_due ∙ at;
        },
      )

  with-Planned :
      (policy : Policy) (now : Time) (tenant_id opportunity_id : String) (d : Decision) (due : Time)
      (suffix : String) (cs after : List ScheduledCheck) (id : Option String)
      → schedule_with json_object same_payload payload_of format_due policy now tenant_id
          opportunity_id d due suffix cs id
        ≡ ok after
      → Keeps cs after × Planned tenant_id opportunity_id due after
  unfolding schedule_with
  with-Planned policy now tenant_id opportunity_id d due suffix cs after none h = cc
  with-Planned policy now tenant_id opportunity_id d due suffix cs after (some id) h =
      stored-Planned tenant_id opportunity_id due cs after _
        (λ c m.
          with_fields policy id now tenant_id opportunity_id d due suffix
            (work_types policy.risk_type) m)
        h

  -- `schedule` keeps the table and plans the check, if there is a moment and a message for it.
  pub schedule_check-Planned :
      (policy : Policy) (id : Option String) (now : Time) (tenant_id opportunity_id : String)
      (d : Decision) (due : Time) (suffix : String) (cs after : List ScheduledCheck)
      → schedule_check json_object same_payload payload_of format_due policy id now tenant_id
          opportunity_id d due suffix cs
        ≡ ok after
      → Keeps cs after
        × ((is_zero due || is_empty (trigger_of d)) ≡ false
            → Planned tenant_id opportunity_id due after)
  unfolding schedule_check
  schedule_check-Planned policy id now tenant_id opportunity_id d due suffix cs after h =
      go (is_zero due || is_empty (trigger_of d)) h
    where
      go :
          (skip : Bool)
          → (if skip
              then ok cs
              else schedule_with json_object same_payload payload_of format_due policy now tenant_id
                  opportunity_id d due suffix cs id)
            ≡ ok after
          → Keeps cs after × (skip ≡ false → Planned tenant_id opportunity_id due after)
      go true h' = (subst (Keeps cs) (ok-injective h') (λ x m. m), λ n. cc)
      go false h' =
          let (k, p) =
            with-Planned policy now tenant_id opportunity_id d due suffix cs after id h' in
          (k, λ n. p)

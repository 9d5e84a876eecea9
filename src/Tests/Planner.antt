-- ===== src/Tests/Planner.antt =====
-- Planning for the unanswered customer, and for a promise whose moment moves.
use lidradar.Prelude.{◌≡◌, refl, ap, ◌∙◌, false, String, none, some, [], ◌∷◌, str_eq, ok, err}
use lidradar.Time.{Time}
use lidradar.Text.{joined, trim_space, trim_right, code_pattern}
use lidradar.Jobs.Job.{valid_name}
use lidradar.Risk.Planner.Inputs.{Ids, Clock, Stores, with_trigger}
use lidradar.Jobs.Check.{CheckStatus, ScheduledCheck, new_check, link_ok, validate_check}
use lidradar.Risk.Aggregate.{
  RiskType, built, default_source, evidence_ok, finding_incomplete, hybrid_type, incomplete,
  new_risk, severity_ok, source_ok, stamps_ok, supported_type, validate,
}
use lidradar.Risk.Policy.{Error, Decision, planned, state_ok}
use lidradar.Risk.Policy.NoResponse.{evaluate}
use lidradar.Risk.Policy.PromiseNotFulfilled.{version as promise_version, version_v2}
use lidradar.Risk.Store.{Tables}
use lidradar.Risk.Evaluation.{
  Error as EvaluationError, Policy, apply, apply_decision, apply_finding, closed, decided, made,
  observed, of_policy, of_store, resolve_found, resolved_signal, stored,
}
use lidradar.Risk.Planner.{
  check_with, schedule_check, work_types, made_or_invalid, check_key, key_of, trigger_of,
  version_of, keeps_due, schedule_with, store_check, table_or_error, of_jobs, schedule_next,
}
use lidradar.Risk.Planner.Runs.{
  refresh_opportunity, refresh_observed, refresh_decided, refresh_read, plan, plan_next,
  refresh_applied,
}
use lidradar.Risk.Planner.Refreshed.{refresh-Remembered}
use lidradar.Risk.Planner.Remembered.{Remembered}
use lidradar.Risk.Planner.Moved.{moved_check-refused}
use lidradar.Tests.Risk.{zones, state, due, asked, due_at}
use lidradar.Tests.Evaluation.{is_object, store, policy, empty}
use lidradar.Jobs.Store.Checks.{schedule, schedule_found, equivalent}
use lidradar.Tables.{find}
use lidradar.Float.{one_unit, outside_unit}

abbrev payload : String → String
payload id = "{}"

abbrev format : Time → String
format t = "moment"

-- The decision on the message as soon as it is there.
abbrev plan_due : Decision
plan_due = planned due "message" false

plan_due-eq : evaluate zones state asked ≡ ok plan_due
unfolding evaluate state_ok
plan_due-eq = rw due_at refl

abbrev ids : Ids
ids = record { risk = some "risk"; check = some "check"; next_check = some "next" }

abbrev clock : Clock
clock = record {
  deciding = asked;
  applying = asked;
  comparing = asked;
  creating = asked;
  comparing_next = asked;
  creating_next = asked;
}

abbrev check : String → String → Time → String → ScheduledCheck
check id check_type at job_type = record {
  id = id;
  tenant_id = "org";
  check_type = check_type;
  subject_type = "opportunity";
  subject_id = "deal";
  job_type = job_type;
  dedup_key = "opportunity:deal:message:message:policy:no-response/v1";
  payload = "{}";
  due_at = at;
  status = CheckStatus.scheduled;
  job_id = none;
  created_at = asked;
  updated_at = asked;
}

abbrev before : Stores Tables
before = record { risks = empty; checks = [] }

abbrev left : Stores Tables
left = record {
  risks = empty;
  checks = check "check" "NO_RESPONSE_DUE" due "risk.evaluate-no-response.v1" ∷ [];
}

planned-eq :
    refresh_decided is_object str_eq payload format store
      (λ t o. ok state)
      (λ t o. ok state)
      policy
      ids
      clock
      "org"
      "deal"
      state
      before
      plan_due
    ≡ (left, none)
unfolding refresh_decided plan plan_next schedule_check with_trigger trigger_of schedule_with
    store_check check_with work_types made_or_invalid new_check trim_space check_key key_of joined
    version_of one_unit outside_unit link_ok validate_check valid_name equivalent schedule
    schedule_found built default_source evidence_ok finding_incomplete hybrid_type incomplete
    new_risk severity_ok source_ok stamps_ok supported_type validate apply apply_decision
    apply_finding closed decided made observed of_policy of_store resolve_found resolved_signal
    stored refresh_applied keeps_due of_jobs schedule_next table_or_error find code_pattern
    trim_right
planned-eq = refl

refreshed-eq :
    refresh_opportunity is_object str_eq payload format store
      (λ t o. ok state)
      (λ t o. ok state)
      policy
      ids
      clock
      "org"
      "deal"
      before
    ≡ (left, none)
unfolding refresh_observed refresh_decided refresh_opportunity evaluate refresh_read state_ok
refreshed-eq =
    ap
      (refresh_observed is_object str_eq payload format store (λ t o. ok state) (λ t o. ok state)
        policy ids clock "org" "deal" state before)
      plan_due-eq
    ∙ planned-eq

refresh-Remembered_example :
    Remembered clock "org" "deal" (with_trigger state plan_due) [] left.checks
refresh-Remembered_example =
    refresh-Remembered is_object str_eq payload format store (λ t o. ok state) (λ t o. ok state)
      policy ids clock "org" "deal" state before left plan_due refl plan_due-eq refreshed-eq

-- A promise, first due at one moment and then, once the message is edited, at another.
abbrev promises : Policy
promises = record {
  risk_type = RiskType.promise_not_fulfilled;
  version = promise_version;
  evaluate = λ s at. err Error.invalid_risk;
}

abbrev promise : Time → Decision
promise at = record (planned at "message" false) { policy_version = version_v2 }

abbrev promised : Time → ScheduledCheck
promised at =
    record (check "check" "PROMISE_NOT_FULFILLED_DUE" at "risk.evaluate-promise-not-fulfilled.v1") {
      dedup_key = "opportunity:deal:message:message:policy:promise-not-fulfilled/v3";
    }

first-eq :
    schedule_check is_object str_eq payload format promises
      (some "check")
      asked
      "org"
      "deal"
      (promise due)
      due
      ""
      []
    ≡ ok (promised due ∷ [])
unfolding schedule_check trigger_of schedule_with store_check check_with work_types made_or_invalid
    new_check trim_space check_key key_of joined version_of keeps_due table_or_error schedule
    schedule_found link_ok validate_check valid_name equivalent of_jobs find trim_right
first-eq = refl

again-eq :
    check_with is_object str_eq payload format promises "check" asked "org" "deal"
      (promise asked)
      asked
      ""
      (work_types RiskType.promise_not_fulfilled)
    ≡ ok (promised asked)
unfolding check_with work_types made_or_invalid new_check trim_space check_key key_of joined
    trigger_of version_of keeps_due
again-eq = refl

moved_check-refused_example :
    schedule_check is_object str_eq payload format promises
      (some "check")
      asked
      "org"
      "deal"
      (promise asked)
      asked
      ""
      (promised due ∷ [])
    ≡ err EvaluationError.jobs_conflict
unfolding keeps_due version_of trigger_of
moved_check-refused_example =
    moved_check-refused is_object str_eq payload format promises "check" "check" asked asked "org"
      "deal" (promise due) (promise asked) due asked "" [] (promised due ∷ []) (promised asked) refl
      refl refl refl refl refl first-eq again-eq

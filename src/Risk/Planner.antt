-- ===== src/Risk/Planner.antt =====
-- The planner of checks (backend/internal/risk/application/background.go): the checks that a decision
-- asks for, with their deduplication keys. Ids, readings of the clock, encoding/json and
-- `time.Format` are arguments.
pub mod Runs
pub mod Kept
pub mod Events
pub mod Delivered
pub mod Remembered
pub mod Refreshed
pub mod Moved
pub mod Inputs
use lidradar.Prelude.{
  String, Bool, true, false, not, ◌||◌, Option, none, some, if◌then◌else◌, str_eq, Result, ok, err,
  ◌>>=◌, ◌>>◌, fail_if, List, [], ◌∷◌,
}
use lidradar.Text.{is_empty, joined}
use lidradar.Time.{Time, is_zero, after}
use lidradar.Jobs.Job.{Error as JobError}
use lidradar.Jobs.Check.{ScheduledCheck, new_check}
use lidradar.Jobs.Store.Checks.{schedule}
use lidradar.Risk.Aggregate.{RiskType, Finding}
use lidradar.Risk.Policy.{Decision}
use lidradar.Risk.Evaluation.{Error, Policy}

-- `workTypes`: the types of the check and of the job that evaluates it.
unfoldable pub work_types : RiskType → Option (String × String)
work_types RiskType.no_response = some ("NO_RESPONSE_DUE", "risk.evaluate-no-response.v1")
work_types RiskType.booking_not_confirmed =
    some ("BOOKING_NOT_CONFIRMED_DUE", "risk.evaluate-booking-not-confirmed.v1")
work_types RiskType.promise_not_fulfilled =
    some ("PROMISE_NOT_FULFILLED_DUE", "risk.evaluate-promise-not-fulfilled.v1")
work_types RiskType.customer_silent_after_price =
    some ("CUSTOMER_SILENT_AFTER_PRICE_DUE", "risk.evaluate-customer-silent-after-price.v1")
work_types RiskType.follow_up_candidate =
    some ("FOLLOW_UP_CANDIDATE_DUE", "risk.evaluate-follow-up-candidate.v1")
work_types RiskType.unfinished_agreement =
    some ("UNFINISHED_AGREEMENT_DUE", "risk.evaluate-unfinished-agreement.v1")
work_types (RiskType.other _) = none

-- An error of the jobs, as the planner's callers see it.
unfoldable pub of_jobs : JobError → Error
of_jobs JobError.invalid = Error.jobs_invalid
of_jobs JobError.conflict = Error.jobs_conflict
of_jobs JobError.lease_lost = Error.other

-- The message that a check is about.
unfoldable pub trigger_of : Decision → String
trigger_of d = elim d.finding [ none ↦ d.trigger_message_id | some f ↦ f.trigger_message_id ]

unfoldable pub version_of : Policy → Decision → String
version_of policy d = if is_empty d.policy_version then policy.version else d.policy_version

abbrev is_agreement : RiskType → Bool
is_agreement RiskType.unfinished_agreement = true
is_agreement _ = false

-- Whether the key names the due moment too.
unfoldable pub keeps_due : RiskType → String → Bool
keeps_due t version = is_agreement t || str_eq version "promise-not-fulfilled/v2"

-- The text of a key: the opportunity, the message, the version, the due moment and the suffix.
unfoldable pub key_of : String → String → String → String → String → String
key_of opportunity_id trigger version moment suffix = joined (
    "opportunity:"
    ∷ opportunity_id
    ∷ ":message:"
    ∷ trigger
    ∷ ":policy:"
    ∷ version
    ∷ moment
    ∷ (if is_empty suffix then "" else joined (":" ∷ suffix ∷ []))
    ∷ [])

module _ (format_due : Time → String) where
  -- The deduplication key of a check.
  unfoldable pub check_key : Policy → Decision → String → Time → String → String
  check_key policy d opportunity_id due suffix =
      key_of opportunity_id (trigger_of d) (version_of policy d)
        (if keeps_due policy.risk_type (version_of policy d)
          then joined (":due:" ∷ format_due due ∷ [])
          else "")
        suffix

unfoldable pub made_or_invalid : Option ScheduledCheck → Result Error ScheduledCheck
made_or_invalid none = err Error.jobs_invalid
made_or_invalid (some c) = ok c

unfoldable pub table_or_error :
    Result JobError (ScheduledCheck × Bool × List ScheduledCheck)
    → Result Error (List ScheduledCheck)
table_or_error (err e) = err (of_jobs e)
table_or_error (ok (_, _, after)) = ok after

module _ (json_object : String → Bool) (same_payload : String → String → Bool)
    (payload_of : String → String) (format_due : Time → String) where
  -- The check that `schedule` makes, with the id that NewID returned, at a moment `now`.
  unfoldable pub check_with :
      Policy
      → String
      → Time
      → String
      → String
      → Decision
      → Time
      → String
      → Option (String × String)
      → Result Error ScheduledCheck
  check_with policy id now tenant_id opportunity_id d due suffix none = err Error.invalid_check
  check_with policy id now tenant_id opportunity_id d due suffix (some (check_type, job_type)) =
      made_or_invalid (
        new_check json_object id tenant_id check_type "opportunity" opportunity_id job_type
          (check_key format_due policy d opportunity_id due suffix) (payload_of opportunity_id) due
          now)

  -- To store a check.
  unfoldable pub store_check :
      List ScheduledCheck → Result Error ScheduledCheck → Result Error (List ScheduledCheck)
  store_check cs (err e) = err e
  store_check cs (ok c) = table_or_error (schedule json_object same_payload c cs)

  -- The steps of `schedule` on what NewID returned.
  unfoldable pub schedule_with :
      Policy
      → Time
      → String
      → String
      → Decision
      → Time
      → String
      → List ScheduledCheck
      → Option String
      → Result Error (List ScheduledCheck)
  schedule_with policy now tenant_id opportunity_id d due suffix cs none = err Error.other
  schedule_with policy now tenant_id opportunity_id d due suffix cs (some id) =
      store_check cs (
        check_with policy id now tenant_id opportunity_id d due suffix
          (work_types policy.risk_type))

  -- `schedule`: the table of checks after it.
  unfoldable pub schedule_check :
      Policy
      → Option String
      → Time
      → String
      → String
      → Decision
      → Time
      → String
      → List ScheduledCheck
      → Result Error (List ScheduledCheck)
  schedule_check policy id now tenant_id opportunity_id d due suffix cs =
      if is_zero due || is_empty (trigger_of d)
      then ok cs
      else schedule_with policy now tenant_id opportunity_id d due suffix cs id

  -- `scheduleNext`, which reads the clock for itself and again in `schedule`.
  unfoldable pub schedule_next :
      Policy
      → Option String
      → Time
      → Time
      → String
      → String
      → Decision
      → List ScheduledCheck
      → Result Error (List ScheduledCheck)
  schedule_next policy id compared now tenant_id opportunity_id d cs =
      if is_zero d.next_due_at || not (after d.next_due_at compared)
      then ok cs
      else schedule_check policy id now tenant_id opportunity_id d d.next_due_at d.next_check_suffix
          cs

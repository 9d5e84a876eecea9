-- ===== src/Jobs/Job.antt =====
-- A background job and the classes of its failures (backend/internal/jobs/domain/job.go).
-- A payload is read by encoding/json: whether it is a JSON object is a parameter.
use Prim.Native.String.{len}
use lidradar.Prelude.{
  ℕ, ◌*◌, String, Bool, true, false, not, ◌&&◌, ◌||◌, Option, none, some, ◌==◌, if◌then◌else◌, ltb,
  leb, is_none, is_some,
}
use lidradar.Text.{is_empty, is_trimmed, trim_space, code_pattern}
use lidradar.Time.{Time, ℤ, is_zero, second, minute_ns}

pub data Error : Type 0 where
  invalid conflict lease_lost : Error

-- `DefaultMaxAttempts`.
abbrev pub default_max_attempts : ℕ
default_max_attempts = 5

pub data Status : Type 0 where
  pending processing retry succeeded dead : Status
  other : String → Status

unfoldable pub status_valid : Status → Bool
status_valid (Status.other _) = false
status_valid _ = true

-- The count of attempts is an int of the source that no operation makes negative.
pub record Job : Type 0 where
  pub id : String
  pub tenant_id : String
  pub job_type : String
  pub dedup_key : String
  pub payload : String
  pub status : Status
  pub priority : ℤ
  pub available_at : Time
  pub attempt_count : ℕ
  pub max_attempts : ℕ
  pub leased_by : Option String
  pub lease_until : Option Time
  pub last_error_code : Option String
  pub completed_at : Option Time
  pub created_at : Time
  pub updated_at : Time

-- `validName`, which measures a text in bytes.
unfoldable pub valid_name : String → ℕ → Bool
valid_name value maximum = is_trimmed value && leb 1 (len value) && leb (len value) maximum

-- `validErrorCode`.
unfoldable pub valid_error_code : String → Bool
valid_error_code value = code_pattern value

unfoldable pub code_ok : Option String → Bool
code_ok none = true
code_ok (some code) = valid_error_code code

unfoldable pub leased : Option String → Option Time → Bool
leased none _ = false
leased (some owner) none = false
leased (some owner) (some until) = not (is_empty (trim_space owner))

-- The switch on the status at the end of `Validate`.
unfoldable pub shape_ok : Status → Option String → Option Time → Option Time → Bool
unfolding leased
shape_ok Status.processing owner until completed = leased owner until && is_none completed
shape_ok Status.pending owner until completed = is_none owner && is_none until && is_none completed
shape_ok Status.retry owner until completed = is_none owner && is_none until && is_none completed
shape_ok Status.succeeded owner until completed =
    is_none owner && is_none until && is_some completed
shape_ok Status.dead owner until completed = is_none owner && is_none until && is_some completed
shape_ok (Status.other _) owner until completed = false

-- `FailureKind` and `Failure`; the cause stays outside the durable code.
pub data FailureKind : Type 0 where
  retryable permanent : FailureKind

pub record Failure : Type 0 where
  pub kind : FailureKind
  pub code : String

-- `newFailure`.
unfoldable pub new_failure : FailureKind → String → Failure
new_failure kind code = record {
  kind = kind;
  code = if valid_error_code (trim_space code) then trim_space code else "UNCLASSIFIED_FAILURE";
}

abbrev pub is_retryable : FailureKind → Bool
is_retryable FailureKind.retryable = true
is_retryable FailureKind.permanent = false

-- `Classify`, where the error is a `Failure`, or none that errors.As finds.
unfoldable pub classify : Option Failure → Bool × String
classify none = (true, "UNCLASSIFIED_FAILURE")
classify (some f) = (is_retryable f.kind, f.code)

-- `RetryDelay`.
unfoldable pub retry_delay : ℕ → ℕ
retry_delay attempt =
    if attempt == 1
    then 5 * second
    else (if attempt == 2
        then 30 * second
        else (if attempt == 3 then 2 * minute_ns else 10 * minute_ns))

module _ (json_object : String → Bool) where
  -- The part of `Validate` that reads neither the status nor the lease.
  unfoldable pub fields_ok : Job → Bool
  unfolding valid_name
  fields_ok j = not (
      is_empty j.id
      || is_empty j.tenant_id
      || not (valid_name j.job_type 100)
      || not (valid_name j.dedup_key 512)
      || not (json_object j.payload)
      || is_zero j.available_at
      || ltb j.max_attempts 1
      || ltb 20 j.max_attempts
      || ltb j.max_attempts j.attempt_count
      || is_zero j.created_at
      || is_zero j.updated_at)

  -- `Job.Validate`: true where it returns nil.
  unfoldable pub validate : Job → Bool
  unfolding fields_ok code_ok shape_ok status_valid
  validate j =
      fields_ok j
      && status_valid j.status
      && code_ok j.last_error_code
      && shape_ok j.status j.leased_by j.lease_until j.completed_at

  -- `NewJob`.
  unfoldable pub new_job : String → String → String → String → String → ℤ → Time → Time → Option Job
  unfolding validate
  new_job id tenant_id job_type dedup_key payload priority available_at created_at =
      let j : Job = record {
        id = id;
        tenant_id = tenant_id;
        job_type = trim_space job_type;
        dedup_key = trim_space dedup_key;
        payload = payload;
        status = Status.pending;
        priority = priority;
        available_at = available_at;
        attempt_count = 0;
        max_attempts = default_max_attempts;
        leased_by = none;
        lease_until = none;
        last_error_code = none;
        completed_at = none;
        created_at = created_at;
        updated_at = created_at;
      } in
      if validate j then some j else none

-- ===== src/Jobs/Check.antt =====
-- A scheduled check (backend/internal/jobs/domain/job.go), which becomes a job when it is due.
use lidradar.Prelude.{
  String, Bool, false, not, ◌&&◌, ◌||◌, Option, none, some, is_none, if◌then◌else◌,
}
use lidradar.Text.{is_empty, trim_space}
use lidradar.Time.{Time, is_zero}
use lidradar.Jobs.Job.{valid_name}

pub data CheckStatus : Type 0 where
  scheduled enqueued cancelled : CheckStatus
  other : String → CheckStatus

pub record ScheduledCheck : Type 0 where
  pub id : String
  pub tenant_id : String
  pub check_type : String
  pub subject_type : String
  pub subject_id : String
  pub job_type : String
  pub dedup_key : String
  pub payload : String
  pub due_at : Time
  pub status : CheckStatus
  pub job_id : Option String
  pub created_at : Time
  pub updated_at : Time

unfoldable pub link_ok : CheckStatus → Option String → Bool
link_ok CheckStatus.scheduled job_id = is_none job_id
link_ok CheckStatus.cancelled job_id = is_none job_id
link_ok CheckStatus.enqueued none = false
link_ok CheckStatus.enqueued (some job_id) = not (is_empty job_id)
link_ok (CheckStatus.other _) job_id = false

module _ (json_object : String → Bool) where
  -- `ScheduledCheck.Validate`: true where it returns nil.
  unfoldable pub validate_check : ScheduledCheck → Bool
  unfolding valid_name link_ok
  validate_check c =
      not (
        is_empty c.id
        || is_empty c.tenant_id
        || is_empty c.subject_id
        || not (valid_name c.check_type 100)
        || not (valid_name c.subject_type 100)
        || not (valid_name c.job_type 100)
        || not (valid_name c.dedup_key 512)
        || not (json_object c.payload)
        || is_zero c.due_at
        || is_zero c.created_at
        || is_zero c.updated_at)
      && link_ok c.status c.job_id

  -- `NewScheduledCheck`.
  unfoldable pub new_check :
      String
      → String
      → String
      → String
      → String
      → String
      → String
      → String
      → Time
      → Time
      → Option ScheduledCheck
  unfolding validate_check
  new_check id tenant_id check_type subject_type subject_id job_type dedup_key payload due_at
        created_at =
      let c : ScheduledCheck = record {
        id = id;
        tenant_id = tenant_id;
        check_type = trim_space check_type;
        subject_type = trim_space subject_type;
        subject_id = subject_id;
        job_type = trim_space job_type;
        dedup_key = trim_space dedup_key;
        payload = payload;
        due_at = due_at;
        status = CheckStatus.scheduled;
        job_id = none;
        created_at = created_at;
        updated_at = created_at;
      } in
      if validate_check c then some c else none

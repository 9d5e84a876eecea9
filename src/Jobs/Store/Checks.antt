-- ===== src/Jobs/Store/Checks.antt =====
-- Scheduled checks in PostgreSQL and their promotion to jobs
-- (backend/internal/jobs/infrastructure/postgres.go: Schedule and PromoteDue).
use lidradar.Prelude.{
  ℕ, String, Bool, true, false, not, ◌&&◌, ◌||◌, Option, none, some, ◌==◌, if◌then◌else◌, ltb, leb,
  str_eq, any, Result, ok, err, ◌>>=◌, ◌>>◌, fail_if, List, [], ◌∷◌, ◌++◌, take, length,
}
use lidradar.Text.{text_lt}
use lidradar.Time.{Time, pos, is_zero}
use lidradar.Tables.{find}
use lidradar.Jobs.Job.{Error, Status, Job, default_max_attempts}
use lidradar.Jobs.Check.{CheckStatus, ScheduledCheck, validate_check}
use lidradar.Jobs.Store.{has_id, same_key}

pub record Tables : Type 0 where
  pub jobs : List Job
  pub checks : List ScheduledCheck

abbrev pub is_scheduled : CheckStatus → Bool
is_scheduled CheckStatus.scheduled = true
is_scheduled _ = false

-- The unique key `(tenant_id, check_type, dedup_key)`.
abbrev pub same_check_key : ScheduledCheck → ScheduledCheck → Bool
same_check_key c r =
    str_eq r.tenant_id c.tenant_id
    && str_eq r.check_type c.check_type
    && str_eq r.dedup_key c.dedup_key

abbrev pub check_has_id : String → ScheduledCheck → Bool
check_has_id id c = str_eq c.id id

-- `ORDER BY due_at, created_at, id`.
unfoldable pub due_before : ScheduledCheck → ScheduledCheck → Bool
due_before c d =
    ltb c.due_at d.due_at
    || c.due_at == d.due_at
      && (ltb c.created_at d.created_at || c.created_at == d.created_at && text_lt c.id d.id)

unfoldable pub insert_check : ScheduledCheck → List ScheduledCheck → List ScheduledCheck
insert_check c [] = c ∷ []
insert_check c (d ∷ ds) =
    let rest = insert_check c ds in if due_before d c then d ∷ rest else c ∷ d ∷ ds

-- The rows that the SELECT locks, in order.
unfoldable pub due_checks : (String → Bool) → Time → List ScheduledCheck → List ScheduledCheck
unfolding insert_check due_before
due_checks locked now [] = []
due_checks locked now (c ∷ cs) =
    let rest = due_checks locked now cs in
    if is_scheduled c.status && leb c.due_at now && not (locked c.id)
    then insert_check c rest
    else rest

unfoldable pub mark_enqueued : String → String → Time → List ScheduledCheck → List ScheduledCheck
mark_enqueued id job_id now [] = []
mark_enqueued id job_id now (c ∷ cs) =
    (if check_has_id id c
      then record c { status = CheckStatus.enqueued; job_id = some job_id; updated_at = now }
      else c)
    ∷ mark_enqueued id job_id now cs

-- The job that a check becomes.
unfoldable pub job_of : ScheduledCheck → Time → Job
job_of c now = record {
  id = c.id;
  tenant_id = c.tenant_id;
  job_type = c.job_type;
  dedup_key = c.dedup_key;
  payload = c.payload;
  status = Status.pending;
  priority = pos 0;
  available_at = c.due_at;
  attempt_count = 0;
  max_attempts = default_max_attempts;
  leased_by = none;
  lease_until = none;
  last_error_code = none;
  completed_at = none;
  created_at = now;
  updated_at = now;
}

module _ (json_object : String → Bool) (same_payload : String → String → Bool) where
  unfoldable pub scan_checks : List ScheduledCheck → Bool
  scan_checks [] = true
  scan_checks (c ∷ cs) = validate_check json_object c && scan_checks cs

  -- The columns that `Schedule` compares with the row of the same key.
  unfoldable pub equivalent : ScheduledCheck → ScheduledCheck → Bool
  equivalent r c =
      str_eq r.subject_type c.subject_type
      && str_eq r.subject_id c.subject_id
      && str_eq r.job_type c.job_type
      && same_payload r.payload c.payload
      && r.due_at == c.due_at

  -- `Schedule`, after the row of the same key was looked up.
  unfoldable pub schedule_found :
      ScheduledCheck
      → List ScheduledCheck
      → Option ScheduledCheck
      → Result Error (ScheduledCheck × Bool × List ScheduledCheck)
  schedule_found c cs none = do
    fail_if (any (check_has_id c.id) cs) Error.conflict
    let row : ScheduledCheck = record c { updated_at = c.created_at }
    ok (row, true, cs ++ row ∷ [])
  schedule_found c cs (some row) = do
    fail_if (not (validate_check json_object row)) Error.invalid
    fail_if (not (equivalent row c)) Error.conflict
    ok (row, false, cs)

  -- `Schedule`: the row in the table, whether it is new, and the table.
  unfoldable pub schedule :
      ScheduledCheck
      → List ScheduledCheck
      → Result Error (ScheduledCheck × Bool × List ScheduledCheck)
  schedule c cs = do
    fail_if (not (is_scheduled c.status) || not (validate_check json_object c)) Error.invalid
    schedule_found c cs (find (same_check_key c) cs)

  -- The INSERT of a job with its ON CONFLICT: the id of the row, and the table.
  unfoldable pub upsert_job : Job → List Job → Result Error (String × List Job)
  unfolding find
  upsert_job j js = elim (find (same_key j) js) [
    | none ↦ if any (has_id j.id) js then err Error.conflict else ok (j.id, js ++ j ∷ [])
    | some row ↦ if same_payload row.payload j.payload then ok (row.id, js) else err Error.conflict
  ]

  -- The loop over the checks; a conflict rolls the whole transaction back.
  unfoldable pub promote_loop : Time → List ScheduledCheck → Tables → Result Error Tables
  unfolding upsert_job job_of mark_enqueued
  promote_loop now [] t = ok t
  promote_loop now (c ∷ cs) t = do
    made ← upsert_job (job_of c now) t.jobs
    promote_loop now cs (record { jobs = made.1; checks = mark_enqueued c.id made.0 now t.checks })

  -- `PromoteDue`, with the number of checks promoted.
  unfoldable pub promote_due : (String → Bool) → Time → ℕ → Tables → Result Error (ℕ × Tables)
  unfolding due_checks scan_checks promote_loop
  promote_due locked now limit t = do
    fail_if (is_zero now || ltb limit 1 || ltb 100 limit) Error.invalid
    let checks = take limit (due_checks locked now t.checks)
    fail_if (not (scan_checks checks)) Error.invalid
    after ← promote_loop now checks t
    ok (length checks, after)

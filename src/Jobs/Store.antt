-- ===== src/Jobs/Store.antt =====
-- The PostgreSQL store of jobs (backend/internal/jobs/infrastructure/postgres.go). A table is a list
-- of rows, a statement or transaction a function of it; an error keeps the table (the rollback). The
-- rows that another transaction has locked, which SKIP LOCKED passes over, are an argument.
pub mod Checks
pub mod Rows
pub mod Ids
pub mod Laws
pub mod History
pub mod Enqueue
pub mod Moved
pub mod Scheduled
use lidradar.Prelude.{
  ℕ, zero, suc, ◌+◌, String, Bool, true, false, not, ◌&&◌, ◌||◌, Option, none, some, ◌==◌,
  if◌then◌else◌, ltb, leb, str_eq, any, Result, ok, err, ◌>>=◌, ◌>>◌, fail_if, List, [], ◌∷◌, ◌++◌,
  take,
}
use lidradar.Text.{is_empty, text_lt}
use lidradar.Time.{Time, ℤ, ltb_ℤ, is_zero, before, after}
use lidradar.Tables.{find, keep, sort_by, update_where}
use lidradar.Jobs.Job.{Error, Status, Job, validate, valid_error_code}

unfoldable pub is_processing : Status → Bool
is_processing Status.processing = true
is_processing _ = false

unfoldable pub is_waiting : Status → Bool
is_waiting Status.pending = true
is_waiting Status.retry = true
is_waiting _ = false

abbrev pub is_pending : Status → Bool
is_pending Status.pending = true
is_pending _ = false

-- The unique key `(tenant_id, job_type, dedup_key)`.
abbrev pub same_key : Job → Job → Bool
same_key j r =
    str_eq r.tenant_id j.tenant_id && str_eq r.job_type j.job_type && str_eq r.dedup_key j.dedup_key

abbrev pub has_id : String → Job → Bool
has_id id j = str_eq j.id id

-- `lease_until <= $1`, which no row without a lease passes.
unfoldable pub lease_over : Time → Option Time → Bool
lease_over now none = false
lease_over now (some until) = leb until now

-- The row of an UPDATE that ends jobs whose last attempt lost its lease.
unfoldable pub expire_row : Time → Job → Job
unfolding is_processing lease_over
expire_row now j =
    if is_processing j.status && lease_over now j.lease_until && leb j.max_attempts j.attempt_count
    then record j {
      status = Status.dead;
      leased_by = none;
      lease_until = none;
      last_error_code = some "LEASE_EXPIRED_MAX_ATTEMPTS";
      completed_at = some now;
      updated_at = now;
    }
    else j

unfoldable pub expire : Time → List Job → List Job
unfolding expire_row
expire now [] = []
expire now (j ∷ js) = expire_row now j ∷ expire now js

-- The rows that `candidates` may take.
unfoldable pub claimable : Time → Job → Bool
unfolding is_waiting is_processing lease_over
claimable now j =
    ltb j.attempt_count j.max_attempts
    && (is_waiting j.status && leb j.available_at now
        || is_processing j.status && lease_over now j.lease_until)

-- `ORDER BY priority DESC, available_at, created_at, id`.
unfoldable pub claim_before : Job → Job → Bool
claim_before j k =
    ltb_ℤ k.priority j.priority
    || not (ltb_ℤ j.priority k.priority)
      && (ltb j.available_at k.available_at
          || j.available_at == k.available_at
            && (ltb j.created_at k.created_at || j.created_at == k.created_at && text_lt j.id k.id))

-- The order in which sort.Slice puts what was claimed; ids differ, so no two jobs are equal in it.
unfoldable pub return_before : Job → Job → Bool
return_before j k =
    ltb_ℤ k.priority j.priority
    || not (ltb_ℤ j.priority k.priority)
      && (ltb j.available_at k.available_at
          || j.available_at == k.available_at && text_lt j.id k.id)

-- The row of the UPDATE that claims.
unfoldable pub leased_row : String → Time → Time → Job → Job
leased_row owner now until j = record j {
  status = Status.processing;
  attempt_count = j.attempt_count + 1;
  leased_by = some owner;
  lease_until = some until;
  updated_at = now;
}

-- The table after the UPDATE of the chosen rows, and these rows, as RETURNING gives them.
unfoldable pub lease : String → Time → Time → List Job → List Job → List Job
unfolding leased_row
lease owner now until chosen [] = []
lease owner now until chosen (j ∷ js) =
    (if any (has_id j.id) chosen then leased_row owner now until j else j)
    ∷ lease owner now until chosen js

unfoldable pub leased_rows : String → Time → Time → List Job → List Job
unfolding leased_row
leased_rows owner now until [] = []
leased_rows owner now until (j ∷ js) = leased_row owner now until j ∷ leased_rows owner now until js

unfoldable pub candidates : (String → Bool) → Time → ℕ → List Job → List Job
unfolding claimable claim_before sort_by keep
candidates locked now limit js =
    take limit (sort_by claim_before (keep (λ j. claimable now j && not (locked j.id)) js))

-- The row that the caller still holds: `id = $1 AND status = 'PROCESSING' AND leased_by = $2 AND
-- lease_until > at`.
unfoldable pub held : String → String → Time → Job → Bool
unfolding is_processing
held id owner at j =
    is_processing j.status
    && str_eq j.id id
    && elim j.leased_by [ none ↦ false | some o ↦ str_eq o owner ]
    && elim j.lease_until [ none ↦ false | some until ↦ after until at ]

unfoldable pub succeeded_row : Time → Job → Job
succeeded_row at j = record j {
  status = Status.succeeded;
  leased_by = none;
  lease_until = none;
  completed_at = some at;
  updated_at = at;
}

-- `Succeed`; the id is the primary key, so the UPDATE writes one row or none.
unfoldable pub succeed : String → String → Time → List Job → Result Error (List Job)
unfolding held update_where succeeded_row
succeed id owner at js = do
  fail_if (is_empty id || is_empty owner || is_zero at) Error.invalid
  fail_if (not (any (held id owner at) js)) Error.lease_lost
  ok (update_where (held id owner at) (succeeded_row at) js)

-- `$4 AND attempt_count < max_attempts`.
abbrev pub again : Bool → Job → Bool
again retryable j = retryable && ltb j.attempt_count j.max_attempts

unfoldable pub failed_row : String → Bool → Time → Time → Job → Job
failed_row code retryable next at j = record j {
  status = if again retryable j then Status.retry else Status.dead;
  available_at = if again retryable j then next else j.available_at;
  leased_by = none;
  lease_until = none;
  last_error_code = some code;
  completed_at = if again retryable j then none else some at;
  updated_at = at;
}

-- The row that the UPDATE of `Fail` returns, if any. The CHECK on `last_error_code` refuses a code
-- that is no code.
unfoldable pub fail_found :
    (Job → Bool) → (Job → Job) → String → List Job → Option Job → Result Error (List Job × Status)
unfolding update_where
fail_found p f code js none = err Error.lease_lost
fail_found p f code js (some j) = do
  fail_if (not (valid_error_code code)) Error.invalid
  ok (update_where p f js, (f j).status)

-- `Fail`, whose status is that of the row written.
unfoldable pub fail :
    String → String → String → Bool → Time → Time → List Job → Result Error (List Job × Status)
unfolding held fail_found failed_row find
fail id owner code retryable next at js = do
  fail_if
      (is_empty id
        || is_empty owner
        || is_empty code
        || is_zero next
        || is_zero at
        || before next at)
      Error.invalid
  fail_found (held id owner at) (failed_row code retryable next at) code js
      (find (held id owner at) js)

-- The columns that the INSERT takes; the others have their defaults.
unfoldable pub inserted : Job → Job
inserted j = record j {
  status = Status.pending;
  attempt_count = 0;
  leased_by = none;
  lease_until = none;
  last_error_code = none;
  completed_at = none;
  updated_at = j.created_at;
}

module _ (json_object : String → Bool) (same_payload : String → String → Bool) where
  -- `scanJob` on every row that a query returns.
  unfoldable pub scan_all : List Job → Bool
  scan_all [] = true
  scan_all (j ∷ js) = validate json_object j && scan_all js

  -- `Claim`: the table after the commit and the jobs that were claimed.
  unfoldable pub claim :
      (String → Bool) → String → Time → Time → ℕ → List Job → Result Error (List Job × List Job)
  unfolding expire candidates lease leased_rows scan_all sort_by return_before
  claim locked owner now until limit js = do
    fail_if (is_empty owner || is_zero now || not (after until now) || ltb limit 1 || ltb 100 limit)
        Error.invalid
    let chosen = candidates locked now limit (expire now js)
    let claimed = leased_rows owner now until chosen
    fail_if (not (scan_all claimed)) Error.invalid
    ok (lease owner now until chosen (expire now js), sort_by return_before claimed)

  -- The primary key is the only other conflict of the INSERT.
  unfoldable pub enqueue_found : Job → List Job → Option Job → Result Error (Job × Bool × List Job)
  unfolding inserted
  enqueue_found j js none = do
    fail_if (any (has_id j.id) js) Error.conflict
    ok (inserted j, true, js ++ inserted j ∷ [])
  enqueue_found j js (some row) = do
    fail_if (not (validate json_object row)) Error.invalid
    fail_if (not (same_payload row.payload j.payload)) Error.conflict
    ok (row, false, js)

  -- `Enqueue`: the row in the table, whether it is new, and the table.
  unfoldable pub enqueue : Job → List Job → Result Error (Job × Bool × List Job)
  unfolding find enqueue_found
  enqueue j js = do
    fail_if (not (is_pending j.status) || not (validate json_object j)) Error.invalid
    enqueue_found j js (find (same_key j) js)

-- ===== src/Events/Store.antt =====
-- The PostgreSQL store of the outbox (backend/internal/events/infrastructure/postgres.go). A table is
-- a list of rows and an error keeps it (the rollback); the rows that another transaction has locked,
-- which SKIP LOCKED passes over, are an argument.
pub mod Rows
pub mod Claims
pub mod Valid
pub mod Append
use lidradar.Prelude.{
  ℕ, ◌+◌, ◌==◌, String, Bool, true, false, not, ◌&&◌, ◌||◌, Option, none, some, if◌then◌else◌, ltb,
  leb, str_eq, any, Result, ok, err, ◌>>=◌, ◌>>◌, fail_if, List, [], ◌∷◌, ◌++◌, map, take,
}
use lidradar.Text.{is_empty, text_lt}
use lidradar.Time.{Time, is_zero, before, after}
use lidradar.Tables.{keep, sort_by, find, update_where}
use lidradar.Jobs.Job.{valid_error_code}
use lidradar.Events.Event.{Error, Status, Event, validate}

abbrev pub is_pending : Status → Bool
is_pending Status.pending = true
is_pending _ = false

unfoldable pub is_waiting : Status → Bool
is_waiting Status.pending = true
is_waiting Status.retry = true
is_waiting _ = false

unfoldable pub is_processing : Status → Bool
is_processing Status.processing = true
is_processing _ = false

abbrev pub has_id : String → Event → Bool
has_id id e = str_eq e.id id

-- `lease_until <= $1`, which no row without a lease passes.
unfoldable pub lease_over : Time → Option Time → Bool
lease_over now none = false
lease_over now (some until) = leb until now

-- The rows that the first UPDATE of `Claim` ends, and what it sets.
unfoldable pub exhausted : Time → Event → Bool
unfolding is_processing lease_over
exhausted now e =
    is_processing e.status && lease_over now e.lease_until && leb e.max_attempts e.attempt_count

unfoldable pub expired_row : Time → Event → Event
expired_row now e = record e {
  status = Status.dead;
  leased_by = none;
  lease_until = none;
  last_error_code = some "LEASE_EXPIRED_MAX_ATTEMPTS";
  completed_at = some now;
  updated_at = now;
}

-- The rows that `candidates` may take.
unfoldable pub claimable : Time → Event → Bool
unfolding is_waiting is_processing lease_over
claimable now e =
    ltb e.attempt_count e.max_attempts
    && (is_waiting e.status && leb e.available_at now
        || is_processing e.status && lease_over now e.lease_until)

-- `ORDER BY available_at, occurred_at, id`.
unfoldable pub claim_before : Event → Event → Bool
claim_before e f =
    ltb e.available_at f.available_at
    || e.available_at == f.available_at
      && (ltb e.occurred_at f.occurred_at || e.occurred_at == f.occurred_at && text_lt e.id f.id)

-- The order of sort.Slice; ids differ, so no two events are equal in it.
unfoldable pub return_before : Event → Event → Bool
return_before e f =
    ltb e.available_at f.available_at || e.available_at == f.available_at && text_lt e.id f.id

-- The row of the UPDATE that claims.
unfoldable pub leased_row : String → Time → Time → Event → Event
leased_row owner now until e = record e {
  status = Status.processing;
  attempt_count = e.attempt_count + 1;
  leased_by = some owner;
  lease_until = some until;
  updated_at = now;
}

unfoldable pub candidates : (String → Bool) → Time → ℕ → List Event → List Event
unfolding keep sort_by claimable claim_before
candidates locked now limit es =
    take limit (sort_by claim_before (keep (λ e. claimable now e && not (locked e.id)) es))

-- The row that the caller still holds.
unfoldable pub held : String → String → Time → Event → Bool
unfolding is_processing
held id owner at e =
    is_processing e.status
    && str_eq e.id id
    && elim e.leased_by [ none ↦ false | some o ↦ str_eq o owner ]
    && elim e.lease_until [ none ↦ false | some until ↦ after until at ]

unfoldable pub published_row : Time → Event → Event
published_row at e = record e {
  status = Status.published;
  leased_by = none;
  lease_until = none;
  completed_at = some at;
  updated_at = at;
}

-- `Publish`; the id is the primary key, so the UPDATE writes one row or none.
unfoldable pub publish : String → String → Time → List Event → Result Error (List Event)
unfolding held update_where published_row
publish id owner at es = do
  fail_if (is_empty id || is_empty owner || is_zero at) Error.invalid
  fail_if (not (any (held id owner at) es)) Error.lease_lost
  ok (update_where (held id owner at) (published_row at) es)

-- `$4 AND attempt_count < max_attempts`.
abbrev pub again : Bool → Event → Bool
again retryable e = retryable && ltb e.attempt_count e.max_attempts

unfoldable pub failed_row : String → Bool → Time → Time → Event → Event
failed_row code retryable next at e = record e {
  status = if again retryable e then Status.retry else Status.dead;
  available_at = if again retryable e then next else e.available_at;
  leased_by = none;
  lease_until = none;
  last_error_code = some code;
  completed_at = if again retryable e then none else some at;
  updated_at = at;
}

-- The row that the UPDATE of `Fail` returns, if any. The CHECK on `last_error_code` refuses a code
-- that is no code.
unfoldable pub fail_found :
    (Event → Bool)
    → (Event → Event)
    → String
    → List Event
    → Option Event
    → Result Error (List Event × Status)
unfolding update_where
fail_found p f code es none = err Error.lease_lost
fail_found p f code es (some e) = do
  fail_if (not (valid_error_code code)) Error.invalid
  ok (update_where p f es, (f e).status)

-- `Fail`, whose status is that of the row written.
unfoldable pub fail :
    String → String → String → Bool → Time → Time → List Event → Result Error (List Event × Status)
unfolding held find fail_found failed_row
fail id owner code retryable next at es = do
  fail_if
      (is_empty id
        || is_empty owner
        || is_empty code
        || is_zero next
        || is_zero at
        || before next at)
      Error.invalid
  fail_found (held id owner at) (failed_row code retryable next at) code es
      (find (held id owner at) es)

-- The columns that the INSERT takes; the others have their defaults.
unfoldable pub inserted : Event → Event
inserted e = record e {
  status = Status.pending;
  attempt_count = 0;
  leased_by = none;
  lease_until = none;
  last_error_code = none;
  completed_at = none;
  updated_at = e.created_at;
}

module _ (json_object : String → Bool) where
  -- `scanEvent` on every row that a query returns.
  unfoldable pub scan_all : List Event → Bool
  scan_all [] = true
  scan_all (e ∷ es) = validate json_object e && scan_all es

  -- `Claim`: the table after the commit and the events that were claimed.
  unfoldable pub claim :
      (String → Bool)
      → String
      → Time
      → Time
      → ℕ
      → List Event
      → Result Error (List Event × List Event)
  unfolding update_where exhausted expired_row candidates leased_row scan_all sort_by return_before
  claim locked owner now until limit es = do
    fail_if (is_empty owner || is_zero now || not (after until now) || ltb limit 1 || ltb 100 limit)
        Error.invalid
    let table = update_where (exhausted now) (expired_row now) es
    let chosen = candidates locked now limit table
    let claimed = map (leased_row owner now until) chosen
    fail_if (not (scan_all claimed)) Error.invalid
    ok (
      update_where (λ e. any (has_id e.id) chosen) (leased_row owner now until) table,
      sort_by return_before claimed,
    )

module _ (same_data : String → String → Bool) where
  -- The columns that are compared with the row of the same id.
  unfoldable pub equivalent : Event → Event → Bool
  equivalent e row =
      str_eq row.tenant_id e.tenant_id
      && str_eq row.event_type e.event_type
      && row.version == e.version
      && str_eq row.aggregate_type e.aggregate_type
      && str_eq row.aggregate_id e.aggregate_id
      && str_eq row.trace_id e.trace_id
      && same_data row.payload e.payload
      && row.occurred_at == e.occurred_at

module _ (json_object : String → Bool) (same_data : String → String → Bool) where
  -- `appendEvent`, after the row of that id was looked up.
  unfoldable pub append_found :
      Event → List Event → Option Event → Result Error (Event × Bool × List Event)
  unfolding inserted equivalent
  append_found e es none = do
    fail_if (not (validate json_object (inserted e))) Error.invalid
    ok (inserted e, true, es ++ inserted e ∷ [])
  append_found e es (some row) = do
    fail_if (not (validate json_object row)) Error.invalid
    fail_if (not (equivalent same_data e row)) Error.conflict
    ok (row, false, es)

  -- `Append` and `AppendTx`: the row in the table, whether it is new, and the table.
  unfoldable pub append : Event → List Event → Result Error (Event × Bool × List Event)
  unfolding find append_found
  append e es = do
    fail_if (not (is_pending e.status) || not (validate json_object e)) Error.invalid
    append_found e es (find (has_id e.id) es)

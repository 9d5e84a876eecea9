-- ===== src/Jobs/Worker/Laws.antt =====
-- A round of a worker settles the job that it claimed, by the answer of its handler
-- (backend/internal/jobs/application/worker.go).
use lidradar.Prelude.{
  String, Bool, ◌+◌, ◌≤◌, ◌<◌, ◌≡◌, refl, true, false, ok, List, ◌∷◌, Option, none, some,
  Bool-cases, inl, inr, str_eq, arith,
}
use lidradar.Text.{is_empty}
use lidradar.Time.{Time, add_duration, is_zero}
use lidradar.Tables.{find}
use lidradar.Jobs.Job.{Job, Status, Failure, classify, retry_delay, valid_error_code}
use lidradar.Jobs.Store.{has_id, held, claim, succeeded_row, failed_row, again}
use lidradar.Jobs.Worker.{Handled, Worker, RunResult, finish, run_claimed, run_handler, run_one}
use lidradar.Jobs.Worker.Written.{claim-LeasedTo, LeasedTo-held, succeed-Written, fail-Written}

-- What becomes of a job that ran as `j`, by what its handler came to.
pub data Settled (finished : Time) (j : Job) : Handled → Job → Type 0 where
  succeeds :
      {k : Job}
      → k.status ≡ Status.succeeded
      → k.completed_at ≡ some finished
      → k.leased_by ≡ none
      → Settled finished j Handled.done k
  retries :
      {failure : Option Failure} {k : Job}
      → (classify failure).0 ≡ true
      → j.attempt_count < j.max_attempts
      → k.status ≡ Status.retry
      → k.available_at ≡ finished + retry_delay j.attempt_count
      → k.last_error_code ≡ some (classify failure).1
      → k.leased_by ≡ none
      → Settled finished j (Handled.failed failure) k
  dies :
      {failure : Option Failure} {k : Job}
      → ((classify failure).0 ≡ true → j.max_attempts ≤ j.attempt_count)
      → k.status ≡ Status.dead
      → k.completed_at ≡ some finished
      → k.last_error_code ≡ some (classify failure).1
      → k.leased_by ≡ none
      → Settled finished j (Handled.failed failure) k

succeeded-Settled :
    (finished : Time) (j : Job) → Settled finished j Handled.done (succeeded_row finished j)
unfolding succeeded_row
succeeded-Settled finished j = Settled.succeeds refl refl refl

failed-Settled :
    (finished : Time) (j : Job) (failure : Option Failure)
    → Settled finished j (Handled.failed failure) (
        failed_row
          (classify failure).1
          (classify failure).0
          (finished + retry_delay j.attempt_count)
          finished
          j)
unfolding failed_row
failed-Settled finished j failure = elim (Bool-cases (again (classify failure).0 j)) [
  | inl more ↦
      rw more (Settled.retries (ground (arith, more)) (ground (arith, more)) refl refl refl refl)
  | inr last ↦ rw last (Settled.dies (λ r. ground (arith, last, r)) refl refl refl refl)
]

-- The code of a failure is one that the column takes, as those of `Retryable` and `Permanent` are.
abbrev pub Coded : Handled → Type 0
Coded Handled.done = Unit
Coded (Handled.failed failure) = valid_error_code (classify failure).1 ≡ true

-- What a round leaves, after its handler left `ls` and came to `handled` on the job `j`.
pub record Settles (finished : Time) (j : Job) (handled : Handled) (ls : List Job) (r : RunResult)
    : Type 0 where
  pub worked : r.worked ≡ true
  pub untroubled : r.trouble ≡ none
  pub row : Job
  pub row_found : find (has_id j.id) r.table ≡ some row
  pub row_settled : Settled finished j handled row
  pub others : (i : String) → str_eq j.id i ≡ false → find (has_id i) r.table ≡ find (has_id i) ls

finish-Settles :
    (w : Worker) (finished : Time) (j : Job) (ls : List Job) (handled : Handled)
    → is_empty j.id ≡ false
    → is_empty w.owner ≡ false
    → is_zero finished ≡ false
    → Coded handled
    → find (has_id j.id) ls ≡ some j
    → held j.id w.owner finished j ≡ true
    → Settles finished j handled ls (finish w false finished j ls handled)
unfolding finish
finish-Settles w finished j ls Handled.done n o z c there h =
    let (ks, e, written) = succeed-Written w.owner finished ls j n o z there h in
    rw e (record {
      worked = refl;
      untroubled = refl;
      row = succeeded_row finished j;
      row_found = written.row;
      row_settled = succeeded-Settled finished j;
      others = written.others;
    })
finish-Settles w finished j ls (Handled.failed failure) n o z c there h =
    let next = finished + retry_delay j.attempt_count in
    let (ks, e, written) =
      fail-Written w.owner (classify failure).1 (classify failure).0 next finished ls j n o c z
        (omega arith) there h in
    rw e (record {
      worked = refl;
      untroubled = refl;
      row = failed_row (classify failure).1 (classify failure).0 next finished j;
      row_found = written.row;
      row_settled = failed-Settled finished j failure;
      others = written.others;
    })

module _ (json_object : String → Bool) (same_payload : String → String → Bool) where
  -- A round settles the job that it claimed, by the answer of its handler, if the handler left the row
  -- of the job as it was claimed, the lease lives when the handler is done and the code of a failure
  -- is one that the column takes: the row has succeeded, or waits for the next attempt by the delay of
  -- its count of attempts, or is dead where the failure is permanent or no attempt is left. Every
  -- other row is as the handler left it. Where the context has ended, all rows are.
  pub run_one-Settles :
      (w : Worker) (locked : String → Bool) (now finished : Time) (js ks rest ls : List Job)
      (j : Job) (handled : Handled)
      → claim json_object same_payload locked w.owner now (add_duration now w.lease) 1 js
        ≡ ok (ks, j ∷ rest)
      → run_handler (w.handlers j.job_type) j ks ≡ (ls, handled)
      → find (has_id j.id) ls ≡ some j
      → now ≤ finished
      → finished < add_duration now w.lease
      → Coded handled
      → Settles finished j handled ls
          (run_one json_object same_payload w locked false now finished js)
        × ((run_one json_object same_payload w locked true now finished js).table ≡ ls)
  unfolding run_one run_claimed finish
  run_one-Settles w locked now finished js ks rest ls j handled h k there l lives c =
      let (owned, begun, lease) =
        claim-LeasedTo json_object same_payload locked w.owner now (add_duration now w.lease) js ks
          rest j h in
      let (_, _, _, named_job) = lease in
      let held_still =
        LeasedTo-held json_object w.owner (add_duration now w.lease) finished j lease lives in
      let settles =
        finish-Settles w finished j ls handled named_job owned (ground arith) c there held_still in
      (rw (owned, h, k) settles, rw (owned, h, k) refl)

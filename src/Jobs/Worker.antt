-- ===== src/Jobs/Worker.antt =====
-- The worker and the scheduler (backend/internal/jobs/application/worker.go, scheduler.go). A handler
-- changes the table by transactions of its own before it returns; the two readings of the clock are
-- arguments. A context that has ended is a flag, and failures of the connection are left out.
pub mod Laws
pub mod Written
use lidradar.Prelude.{
  ℕ, ◌+◌, ◌*◌, String, Bool, true, false, ◌||◌, Option, none, some, if◌then◌else◌, ltb, Result, ok,
  err, ◌>>=◌, ◌>>◌, fail_if, List, [], ◌∷◌,
}
use lidradar.Text.{is_empty}
use lidradar.Time.{Time, Duration, pos, leb_ℤ, add_duration, second}
use lidradar.Jobs.Job.{Error, Job, Failure, FailureKind, new_failure, classify, retry_delay}
use lidradar.Jobs.Store.{claim, succeed, fail}
use lidradar.Jobs.Store.Checks.{Tables, promote_due}

-- `DefaultLease`.
abbrev pub default_lease : Duration
default_lease = pos (30 * second)

-- What a handler comes to: done, or failed with an error that wraps a Failure or not.
pub data Handled : Type 0 where
  done : Handled
  failed : Option Failure → Handled

abbrev pub Handler : Type 0
Handler = Job → List Job → List Job × Handled

pub record Worker : Type 0 where
  pub owner : String
  pub handlers : String → Option Handler
  pub lease : Duration

-- `NewWorker`.
unfoldable pub new_worker : String → (String → Option Handler) → Duration → Worker
new_worker owner handlers lease = record {
  owner = owner;
  handlers = handlers;
  lease = if leb_ℤ lease (pos 0) then default_lease else lease;
}

-- What `RunOne` returns, with the table it leaves: `cancelled` is the error of a context that ended.
pub data Trouble : Type 0 where
  store_error : Error → Trouble
  cancelled : Trouble

pub record RunResult : Type 0 where
  pub worked : Bool
  pub trouble : Option Trouble
  pub table : List Job

unfoldable pub run_handler : Option Handler → Job → List Job → List Job × Handled
unfolding new_failure
run_handler none j js =
    (js, Handled.failed (some (new_failure FailureKind.permanent "UNSUPPORTED_JOB_TYPE")))
run_handler (some handler) j js = handler j js

abbrev pub settled : List Job → Result Error (List Job) → RunResult
settled js (ok ks) = record { worked = true; trouble = none; table = ks }
settled js (err e) = record { worked = true; trouble = some (Trouble.store_error e); table = js }

-- The steps of `RunOne` after the handler. Where the context has ended, nothing is acknowledged:
-- `Succeed` fails with the error of its context, and after a failure the code returns that error
-- itself.
unfoldable pub finish : Worker → Bool → Time → Job → List Job → Handled → RunResult
unfolding classify
finish w true finished j js handled = record {
  worked = true;
  trouble = some Trouble.cancelled;
  table = js;
}
finish w false finished j js Handled.done = settled js (succeed j.id w.owner finished js)
finish w false finished j js (Handled.failed failure) = settled js (
    fail j.id w.owner (classify failure).1 (classify failure).0
      (finished + retry_delay j.attempt_count) finished js
    >>= λ r. ok r.0)

unfoldable pub run_claimed :
    Worker → Bool → Time → Result Error (List Job × List Job) → List Job → RunResult
unfolding finish run_handler
run_claimed w stopped finished (err e) js = record {
  worked = false;
  trouble = some (Trouble.store_error e);
  table = js;
}
run_claimed w stopped finished (ok (ks, [])) js = record {
  worked = false;
  trouble = none;
  table = ks;
}
run_claimed w stopped finished (ok (ks, j ∷ _)) js =
    let handled = run_handler (w.handlers j.job_type) j ks in
    finish w stopped finished j handled.0 handled.1

module _ (json_object : String → Bool) (same_payload : String → String → Bool) where
  -- `RunOne`.
  unfoldable pub run_one : Worker → (String → Bool) → Bool → Time → Time → List Job → RunResult
  unfolding run_claimed
  run_one w locked stopped now finished js =
      if is_empty w.owner
      then record { worked = false; trouble = some (Trouble.store_error Error.invalid); table = js }
      else run_claimed w stopped finished
          (claim json_object same_payload locked w.owner now (add_duration now w.lease) 1 js) js

  -- `Scheduler.RunOnce`.
  unfoldable pub run_once : (String → Bool) → Time → ℕ → Tables → Result Error (ℕ × Tables)
  run_once locked now limit t = do
    fail_if (ltb limit 1 || ltb 100 limit) Error.invalid
    promote_due json_object same_payload locked now limit t

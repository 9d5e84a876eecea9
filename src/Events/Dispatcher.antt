-- ===== src/Events/Dispatcher.antt =====
-- The dispatcher of the outbox (backend/internal/events/application/dispatcher.go). A handler changes
-- the outbox by transactions of its own before it returns; the two readings of the clock are
-- arguments. A context that has ended is a flag.
pub mod Attempts
pub mod Drain
use lidradar.Prelude.{
  ℕ, ◌+◌, ◌*◌, String, Bool, true, false, ◌||◌, Option, none, some, if◌then◌else◌, ltb, Result, ok,
  err, ◌>>=◌, List, [], ◌∷◌,
}
use lidradar.Text.{is_empty}
use lidradar.Time.{Time, Duration, pos, leb_ℤ, add_duration, second}
use lidradar.Jobs.Job.{Failure, FailureKind, new_failure, classify, retry_delay}
use lidradar.Events.Event.{Error, Event, event_key}
use lidradar.Events.Store.{claim, publish, fail}

-- `DefaultLease`.
abbrev pub default_lease : Duration
default_lease = pos (30 * second)

-- What a handler comes to: nil, or an error that wraps a Failure or not.
pub data Handled : Type 0 where
  done : Handled
  failed : Option Failure → Handled

abbrev pub Handler : Type 0
Handler = Event → List Event → List Event × Handled

-- `ChainHandlers`: each in turn until one fails; none stands for a handler that is nil.
unfoldable pub chain_handlers : List (Option Handler) → Handler
unfolding new_failure
chain_handlers [] e es = (es, Handled.done)
chain_handlers (none ∷ hs) e es = (
  es,
  Handled.failed (some (new_failure FailureKind.permanent "BACKGROUND_CONFIGURATION_INVALID")),
)
chain_handlers (some h ∷ hs) e es =
    let rest = chain_handlers hs e (h e es).0 in
    elim (h e es).1 [ Handled.done ↦ rest | Handled.failed f ↦ ((h e es).0, Handled.failed f) ]

pub record Dispatcher : Type 0 where
  pub owner : String
  pub handlers : String → Option Handler
  pub lease : Duration

-- `NewDispatcher`.
unfoldable pub new_dispatcher : String → (String → Option Handler) → Duration → Dispatcher
new_dispatcher owner handlers lease = record {
  owner = owner;
  handlers = handlers;
  lease = if leb_ℤ lease (pos 0) then default_lease else lease;
}

-- What `RunOne` returns, with the table it leaves: `cancelled` is the error of a context that ended.
pub data Trouble : Type 0 where
  store_error : Error → Trouble
  cancelled : Trouble

pub record RunResult : Type 0 where
  pub worked : Bool
  pub trouble : Option Trouble
  pub table : List Event

abbrev pub idle : Option Trouble → List Event → RunResult
idle trouble es = record { worked = false; trouble = trouble; table = es }

unfoldable pub handle : Option Handler → Event → List Event → List Event × Handled
unfolding new_failure
handle none e es =
    (es, Handled.failed (some (new_failure FailureKind.permanent "UNSUPPORTED_EVENT_TYPE")))
handle (some handler) e es = handler e es

abbrev pub settled : List Event → Result Error (List Event) → RunResult
settled es (ok fs) = record { worked = true; trouble = none; table = fs }
settled es (err x) = record { worked = true; trouble = some (Trouble.store_error x); table = es }

-- The steps of `RunOne` after the handler.
unfoldable pub finish : Dispatcher → Bool → Time → Event → List Event → Handled → RunResult
unfolding classify
finish d true finished e es handled = record {
  worked = true;
  trouble = some Trouble.cancelled;
  table = es;
}
finish d false finished e es Handled.done = settled es (publish e.id d.owner finished es)
finish d false finished e es (Handled.failed failure) = settled es (
    fail e.id d.owner (classify failure).1 (classify failure).0
      (finished + retry_delay e.attempt_count) finished es
    >>= λ r. ok r.0)

unfoldable pub run_claimed :
    Dispatcher → Bool → Time → Result Error (List Event × List Event) → List Event → RunResult
unfolding finish handle event_key
run_claimed d stopped finished (err x) es = idle (some (Trouble.store_error x)) es
run_claimed d stopped finished (ok (fs, [])) es = idle none fs
run_claimed d stopped finished (ok (fs, e ∷ _)) es =
    let handled = handle (d.handlers (event_key e)) e fs in
    finish d stopped finished e handled.0 handled.1

module _ (json_object : String → Bool) where
  -- `RunOne`.
  unfoldable pub run_one :
      Dispatcher → (String → Bool) → Bool → Time → Time → List Event → RunResult
  unfolding run_claimed
  run_one d locked stopped now finished es =
      if is_empty d.owner
      then idle (some (Trouble.store_error Error.invalid)) es
      else run_claimed d stopped finished
          (claim json_object locked d.owner now (add_duration now d.lease) 1 es) es

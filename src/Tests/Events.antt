-- ===== src/Tests/Events.antt =====
-- An outbox of two events: one waits, one is leased to another dispatcher.
use mathlib.Core.List.Memᴰ
use lidradar.Prelude.{
  ◌+◌, ◌≤◌, ◌≡◌, refl, String, Bool, true, false, str_eq, none, some, ok, err, any, length, List,
  [], ◌∷◌, arith, subst, ◌&&◌,
}
use lidradar.Time.{pos}
use lidradar.Events.Event.{Error, Event, Status, validate}
use lidradar.Events.Store.{append, claim, publish, claimable, leased_row, equivalent}
use lidradar.Events.Store.Claims.{claim-serves}
use lidradar.Events.Store.Valid.{TableOk}
use lidradar.Events.Store.Append.{Operation, History, History-TableOk, append_known}
use lidradar.Events.Dispatcher.{Dispatcher, Handled, Handler, run_one}
use lidradar.Events.Dispatcher.Attempts.{remaining}
use lidradar.Events.Dispatcher.Drain.{Frugal, Rounds, Rounds-bounded, idle-done}
use lidradar.Text.{trim_space}

abbrev is_object : String → Bool
is_object s = str_eq s "{}"

abbrev event : Event
event = record {
  id = "a";
  event_type = "message.received";
  version = 1;
  occurred_at = 5;
  tenant_id = "org";
  aggregate_type = "conversation";
  aggregate_id = "c";
  trace_id = "t";
  payload = "{}";
  status = Status.pending;
  available_at = 5;
  attempt_count = 0;
  max_attempts = 5;
  leased_by = none;
  lease_until = none;
  last_error_code = none;
  completed_at = none;
  created_at = 5;
  updated_at = 5;
}

abbrev busy : Event
busy = record event {
  id = "b";
  status = Status.processing;
  attempt_count = 1;
  leased_by = some "second";
  lease_until = some 50;
}

abbrev outbox : List Event
outbox = event ∷ busy ∷ []

outbox-TableOk : TableOk is_object outbox
unfolding validate trim_space
outbox-TableOk = ((refl, (refl, tt)), (refl, (refl, tt)))

free : any (λ e. claimable 10 e && true) outbox ≡ true
unfolding claimable
free = refl

claim-serves_example :
    (result : List Event × List Event) × (claim is_object (λ _. false) "first" 10 40 1 outbox
      ≡ ok result)
    × (1 ≤ length result.1)
unfolding trim_space
claim-serves_example =
    claim-serves is_object (λ _. false) "first" 10 40 1 outbox refl refl (omega arith) (omega arith)
      (omega arith) outbox-TableOk.0 free

abbrev taken : Event
taken = leased_row "first" 10 40 event

claimed : claim is_object (λ _. false) "first" 10 40 1 outbox ≡ ok (taken ∷ busy ∷ [], taken ∷ [])
unfolding claim validate trim_space
claimed = refl

day : History is_object str_eq outbox (taken ∷ busy ∷ [])
day = History.then_runs History.starts (Operation.claims (λ _. false) "first" 10 40 1 claimed)

History-TableOk_example : TableOk is_object (taken ∷ busy ∷ [])
History-TableOk_example = History-TableOk is_object str_eq outbox-TableOk day

valid_event : validate is_object event ≡ true
unfolding validate trim_space
valid_event = refl

append_known_example :
    append is_object str_eq (record event { trace_id = "u" }) outbox ≡ err Error.conflict
unfolding validate equivalent
append_known_example =
    append_known is_object str_eq (record event { trace_id = "u" }) event outbox outbox-TableOk refl
      valid_event (Memᴰ.head refl) refl

abbrev quiet : Handler
quiet e es = (es, Handled.done)

abbrev dispatcher : Dispatcher
dispatcher = record { owner = "first"; handlers = λ _. some quiet; lease = pos 30 }

dispatcher-Frugal : Frugal dispatcher
dispatcher-Frugal key h e es k =
    let same : quiet ≡ h = cc in
    subst (λ (f : Handler). remaining (f e es).0 ≤ remaining es) same (omega arith)

worked : (run_one is_object dispatcher (λ _. false) false 10 20 outbox).worked ≡ true
unfolding run_one claim validate trim_space publish
worked = refl

Rounds-bounded_example :
    1 + remaining (run_one is_object dispatcher (λ _. false) false 10 20 outbox).table
    ≤ remaining outbox
Rounds-bounded_example =
    Rounds-bounded is_object dispatcher-Frugal
      (Rounds.then_works (λ _. false) false 10 20 Rounds.starts worked)

-- Nothing may be claimed before it is due.
rests : (run_one is_object dispatcher (λ _. false) false 4 20 outbox).worked ≡ false
unfolding run_one claim
rests = refl

idle-done_example : any (λ e. claimable 4 e && true) outbox ≡ false
unfolding trim_space
idle-done_example =
    idle-done is_object dispatcher (λ _. false) false 4 20 outbox refl refl (omega arith)
      outbox-TableOk.0 rests

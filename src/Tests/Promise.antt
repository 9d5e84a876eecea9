-- ===== src/Tests/Promise.antt =====
-- A promise to answer within an hour, and one for Monday.
use mathlib.Core.List.{Memᴰ}
use lidradar.Prelude.{
  ◌+◌, ◌*◌, ◌≤◌, ◌<◌, ◌≡◌, refl, String, true, false, none, some, Option, Result, ok, err, List, [],
  ◌∷◌, str_eq, if◌then◌else◌, arith, ◌^◌,
}
use lidradar.Time.{Time, Location, utc, utc-IsCalendar, utc-KeepsDay, weekday_of, hour_ns}
use lidradar.Float.{Float64, is_strong, strong}
use lidradar.Risk.Aggregate.{Finding}
use lidradar.Risk.Policy.{Error, AgreementSignal, ConversationState, Decision, no_decision}
use lidradar.Risk.Policy.PromisedTime.{
  Texts, PromisedDue, re_after, parse_weekday, parse_promised_due, lookup, weekdays, group,
}
use lidradar.Risk.Policy.PromisedTime.Weekday.{parse_weekday-next}
use lidradar.Risk.Policy.PromiseNotFulfilled.{evaluate_v2, is_commitment, is_eligible, due_of}
use lidradar.Risk.Policy.PromiseNotFulfilled.Earliest.{overdue-found}
use lidradar.Tests.Risk.{zones, asked, state}

abbrev matches : String → Option (List String)
matches pattern =
    if str_eq pattern re_after then some ("через час" ∷ "час" ∷ "" ∷ "" ∷ []) else none

abbrev texts : Texts
texts = record {
  find_submatch = λ pattern text. matches pattern;
  to_lower = λ s. s;
  replace_all = λ s from to. s;
  fields_joined = λ s. s;
  trim = λ s cut. s;
  contains = λ s part. false;
  atoi = λ s. none;
}

abbrev promise : AgreementSignal
promise = record {
  superseded = false;
  evidence_message_ids = [];
  kind = "COMMITMENT";
  waiting_for = "BUSINESS";
  status = "PENDING";
  trigger_message_id = "m";
  trigger_at = asked;
  trigger_text = "отвечу через час";
  confidence = Float64.plus (2 ^ 1074);
  ai_run_id = "run";
}

abbrev promised : ConversationState
promised = record state { agreements_current = true; agreements = promise ∷ [] }

abbrev moment : Location → Time → String
moment loc t = "01.03 10:00"

abbrev answer_of : Result Error Decision → Decision
answer_of (err e) = no_decision
answer_of (ok d) = d

abbrev answer : Decision
answer = answer_of (evaluate_v2 zones texts moment promised (asked + 2 * hour_ns) none)

answer-eq : evaluate_v2 zones texts moment promised (asked + 2 * hour_ns) none ≡ ok answer
unfolding evaluate_v2 is_strong strong
answer-eq = refl

committed : is_commitment promise ≡ true
unfolding is_commitment is_strong strong
committed = refl

eligible : is_eligible promised promise ≡ true
unfolding is_eligible
eligible = refl

promise-due :
    due_of zones texts moment promised promise.trigger_at
      (parse_promised_due texts utc promise.trigger_text promise.trigger_at)
    ≡ ok (asked + hour_ns)
unfolding due_of parse_promised_due
promise-due = refl

overdue-found_example : (f : Finding) × (answer.finding ≡ some f) × (f.due_at ≤ asked + hour_ns)
overdue-found_example =
    overdue-found zones texts moment promised utc (asked + 2 * hour_ns) answer promise
      (asked + hour_ns) refl answer-eq (Memᴰ.head refl) committed eligible promise-due (omega arith)

abbrev named : Texts
named = record texts {
  find_submatch = λ pattern text. some ("в понедельник" ∷ "понедельник" ∷ "" ∷ []);
}

abbrev monday : PromisedDue
monday = record { at = utc.date 707 12 0; phrase = "в понедельник" }

monday-eq : parse_weekday named utc "в понедельник" asked ≡ some monday
unfolding parse_weekday
monday-eq = refl

named-weekday : lookup weekdays (group 1 ("в понедельник" ∷ "понедельник" ∷ "" ∷ [])) ≡ some 1
unfolding lookup
named-weekday = refl

parse_weekday-next_example :
    (weekday_of (utc.day monday.at) ≡ 1)
    × (utc.day asked < utc.day monday.at)
    × (utc.day monday.at ≤ utc.day asked + 7)
parse_weekday-next_example =
    parse_weekday-next named utc "в понедельник" asked monday utc-IsCalendar utc-KeepsDay monday-eq
      ("в понедельник" ∷ "понедельник" ∷ "" ∷ []) 1 refl named-weekday

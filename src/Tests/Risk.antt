-- ===== src/Tests/Risk.antt =====
-- A customer who writes on a Monday at 17:00 and is due an answer 90 working minutes later.
use lidradar.Prelude.{
  ℕ, ◌+◌, ◌*◌, ◌≤◌, ◌≡◌, ◌↔◌, refl, Bool, true, false, leb, ◌&&◌, String, Option, none, some, List,
  [], ◌∷◌, All, arith, ok, is_some,
}
use lidradar.Time.{
  Time, Location, pos, utc, utc-IsCalendar, day_ns, hour_ns, minute_ns, weekday_of, midnight,
  add_duration,
}
use lidradar.Risk.BusinessTime.{
  BusinessPeriod, BusinessHours, add_business_time, elapsed_business_time, schedule_ok, add_loop,
}
use lidradar.Risk.BusinessTime.Due.{due-le_iff}
use lidradar.Risk.BusinessTime.Weeks.{week_time}
use lidradar.Risk.BusinessTime.Total.{add_business_time_total}
use lidradar.Risk.Aggregate.{
  Risk, RiskType, Severity, Status, Finding, validate, built, new_risk, acknowledge, resolve,
  finding_incomplete, incomplete, severity_ok, source_ok, stamps_ok, active, Source,
}
use lidradar.Risk.Aggregate.Lifecycle.{
  Step, Life, SameRisk, new_risk_sound, Life-validate, Life-SameRisk,
}
use lidradar.Risk.Policy.{ConversationState, Decision, Direction, is_incoming, state_ok}
use lidradar.Risk.Policy.NoResponse.{evaluate, finding_of, agreements_resolve}
use lidradar.Risk.Policy.NoResponse.Laws.{Waiting, no_response_iff}
use lidradar.Risk.BusinessTime.RoundTrip.{Fits, add-elapsed}
use lidradar.Text.{joined, decimal, trim_space, code_pattern}
use lidradar.Risk.Policy.CustomerSilentAfterPrice.{Trigger, threshold, finding_of as silent_finding}

abbrev pub zones : String → Option Location
zones _ = some utc

-- From 9:00 to 18:00 on working days.
abbrev working : Bool → List BusinessPeriod
working true = record { open_at = pos (9 * hour_ns); close_at = pos (18 * hour_ns) } ∷ []
working false = []

abbrev hours : BusinessHours
hours = record { timezone = "UTC"; weekly = λ w. working (leb 1 w && leb w 5) }

working-Fits :
    (b : Bool) (d : ℕ)
    → All (λ p. add_duration (midnight utc d) p.close_at ≤ midnight utc (d + 1)) (working b)
working-Fits true d = (omega arith, tt)
working-Fits false d = tt

hours-Fits : Fits utc hours
hours-Fits d = working-Fits (leb 1 (weekday_of d) && leb (weekday_of d) 5) d

abbrev pub asked : Time
asked = 700 * day_ns + 17 * hour_ns

abbrev pub due : Time
due = 701 * day_ns + 9 * hour_ns + 30 * minute_ns

hours-ok : schedule_ok hours ≡ true
unfolding schedule_ok
hours-ok = refl

pub due_at : add_business_time zones hours asked (pos (90 * minute_ns)) ≡ some due
unfolding add_business_time add_loop
due_at = refl

add-elapsed_example :
    (asked ≤ due) × (elapsed_business_time zones hours asked due ≡ some (90 * minute_ns))
add-elapsed_example =
    add-elapsed zones hours asked (90 * minute_ns) refl utc-IsCalendar hours-Fits due_at

elapsed_at : elapsed_business_time zones hours asked due ≡ some (90 * minute_ns)
elapsed_at =
    (add-elapsed zones hours asked (90 * minute_ns) refl utc-IsCalendar hours-Fits due_at).1

due-le_iff_example : (due ≤ due) ↔ (90 * minute_ns ≤ 90 * minute_ns)
due-le_iff_example =
    due-le_iff zones hours asked (90 * minute_ns) due refl utc-IsCalendar hours-Fits (omega arith)
      due_at elapsed_at

add_business_time_total_example :
    (t : Time) × (add_business_time zones hours asked (pos (100 * hour_ns)) ≡ some t)
unfolding week_time
add_business_time_total_example =
    add_business_time_total zones hours asked (100 * hour_ns) refl utc-IsCalendar hours-ok refl
      (omega arith)

abbrev pub state : ConversationState
state = record {
  tenant_id = "org";
  opportunity_id = "deal";
  location_id = "salon";
  active_opportunity = true;
  last_meaningful_id = "message";
  last_meaningful_at = asked;
  last_meaningful = Direction.incoming;
  response_threshold = pos (90 * minute_ns);
  agreement_threshold = pos (90 * minute_ns);
  business_hours = hours;
  agreements_current = false;
  v2_snapshot_unavailable = false;
  agreements = [];
  opportunity_stage = "NEW";
  booking_intent = none;
  commitment = none;
  price = none;
  follow_up = none;
  last_outgoing = none;
  last_incoming = none;
  latest_outcome = "";
  active_risks = λ t. none;
  closed_agreement_triggers = λ t id. false;
}

state-Waiting : Waiting state
unfolding is_incoming agreements_resolve
state-Waiting = record { incoming_last = refl; active = refl; unsettled = refl }

abbrev pub finding : Finding
finding = finding_of state due (90 * minute_ns)

abbrev pub decision : Decision
decision = record {
  finding = some finding;
  due_at = due;
  trigger_message_id = "message";
  policy_version = "";
  next_due_at = 0;
  next_check_suffix = "";
  resolve = false;
}

pub decided : evaluate zones state due ≡ ok decision
unfolding evaluate state_ok
decided = rw (due_at, elapsed_at) refl

no_response_iff_example :
    ((is_some decision.finding ≡ true) ↔ (90 * minute_ns ≤ 90 * minute_ns))
    × ((f : Finding)
        → decision.finding ≡ some f
        → (f.severity ≡ Severity.critical) ↔ (90 * minute_ns ≤ 90 * minute_ns))
no_response_iff_example =
    no_response_iff zones state due (90 * minute_ns) (90 * minute_ns) refl utc-IsCalendar hours-Fits
      state-Waiting refl (omega arith) elapsed_at decided

abbrev pub opened : Risk
opened = built "risk" RiskType.no_response finding due

pub opened-eq : new_risk "risk" RiskType.no_response finding due ≡ some opened
unfolding new_risk finding_incomplete finding_of joined decimal validate incomplete built trim_space
    code_pattern severity_ok source_ok stamps_ok
opened-eq = refl

abbrev seen : Risk
seen = record opened {
  status = Status.acknowledged;
  acknowledged_at = some (due + 1);
  updated_at = due + 1;
}

abbrev closed : Risk
closed = record seen {
  status = Status.resolved;
  resolved_at = some (due + 2);
  updated_at = due + 2;
}

seen-eq : acknowledge opened (due + 1) ≡ (seen, true)
unfolding acknowledge built
seen-eq = refl

closed-eq : resolve seen (due + 2) ≡ (closed, true)
unfolding resolve active
closed-eq = refl

pub opened-valid : validate opened ≡ true
opened-valid = (new_risk_sound "risk" RiskType.no_response finding due opened-eq).0

closed-Life : Life opened closed
closed-Life =
    Life.next (Life.next Life.here (Step.acknowledges (due + 1) seen-eq))
      (Step.resolves (due + 2) closed-eq)

Life-validate_example : validate closed ≡ true
Life-validate_example = Life-validate closed-Life opened-valid

Life-SameRisk_example : SameRisk opened closed
Life-SameRisk_example = Life-SameRisk closed-Life

-- 24 and 48 working hours after the same moment.
abbrev day_later : Time
day_later = 703 * day_ns + 14 * hour_ns

abbrev two_days_later : Time
two_days_later = 708 * day_ns + 11 * hour_ns

abbrev price : Trigger
price = record {
  id = "price";
  at = asked;
  source = Source.rule;
  confidence = none;
  ai_run_id = none;
  amount = "";
}

abbrev warned : Decision
warned = record {
  finding = some (silent_finding state price day_later threshold Severity.medium);
  due_at = day_later;
  trigger_message_id = "price";
  policy_version = "";
  next_due_at = two_days_later;
  next_check_suffix = "escalation";
  resolve = false;
}

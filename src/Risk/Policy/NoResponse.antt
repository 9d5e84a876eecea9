-- ===== src/Risk/Policy/NoResponse.antt =====
-- The rule R1: the business has not answered a customer
-- (backend/internal/risk/domain/no_response.go).
pub mod Laws
use lidradar.Prelude.{
  ℕ, ◌*◌, ◌/◌, String, Bool, true, false, not, ◌&&◌, ◌||◌, Option, none, some, List, [], ◌∷◌, any,
  if◌then◌else◌, str_eq, leb, Result, ok, err, ◌>>=◌,
}
use lidradar.Text.{decimal, joined}
use lidradar.Time.{Time, Location, is_zero, before, after, minute_ns}
use lidradar.Float.{is_strong}
use lidradar.Risk.BusinessTime.{add_business_time, elapsed_business_time}
use lidradar.Risk.Aggregate.{Severity, Source, Finding}
use lidradar.Risk.Policy.{
  Error, AgreementSignal, ConversationState, Decision, resolving, planned, is_incoming, state_ok,
  in_hours, booking_risk_eligible,
}

abbrev pub version : String
version = "no-response/v1"

-- The first loop: the strong agreement whose trigger is the latest, the first of equals.
unfoldable pub latest : Option AgreementSignal → List AgreementSignal → Option AgreementSignal
latest best [] = best
latest none (a ∷ rest) = latest (if is_strong a.confidence then some a else none) rest
latest (some b) (a ∷ rest) =
    latest (if is_strong a.confidence && after a.trigger_at b.trigger_at then some a else some b)
      rest

-- The customer is the one to act, by the latest agreement.
unfoldable pub customer_acts : Option AgreementSignal → Bool
customer_acts none = false
customer_acts (some a) = str_eq a.status "PENDING" && str_eq a.waiting_for "CUSTOMER"

unfoldable pub pending_business : ConversationState → AgreementSignal → Bool
pending_business s a =
    str_eq a.status "PENDING"
    && str_eq a.waiting_for "BUSINESS"
    && str_eq a.trigger_message_id s.last_meaningful_id

-- The specialised booking rule owns the action.
unfoldable pub booking_owns : ConversationState → AgreementSignal → Bool
booking_owns s a =
    str_eq a.status "PENDING"
    && str_eq a.waiting_for "BUSINESS"
    && str_eq a.kind "BOOKING_CONFIRMATION"
    && booking_risk_eligible s.opportunity_stage
    && str_eq a.trigger_message_id s.last_meaningful_id

-- A finished agreement whose evidence is the last message.
unfoldable pub ends_here : ConversationState → AgreementSignal → Bool
ends_here s a =
    (str_eq a.status "RESOLVED" || str_eq a.status "CANCELLED")
    && any (λ id. str_eq id s.last_meaningful_id) a.evidence_message_ids

-- The second loop with its two flags; it returns early, with a resolving decision, as `true`.
unfoldable pub agreement_loop : ConversationState → Bool → Bool → List AgreementSignal → Bool
unfolding pending_business booking_owns ends_here
agreement_loop s terminal pending [] = terminal && not pending
agreement_loop s terminal pending (a ∷ rest) =
    let skip = agreement_loop s terminal pending rest in
    let onward =
      agreement_loop s (terminal || ends_here s a) (pending || pending_business s a) rest in
    if not (is_strong a.confidence) then skip else (if booking_owns s a then true else onward)

-- The block `if state.AgreementsCurrent`: whether it returns with a resolving decision.
unfoldable pub agreements_resolve : ConversationState → Bool
unfolding latest customer_acts agreement_loop
agreements_resolve s =
    s.agreements_current
    && (customer_acts (latest none s.agreements) || agreement_loop s false false s.agreements)

abbrev pub severity_of : ℕ → Severity
severity_of elapsed = if leb (90 * minute_ns) elapsed then Severity.critical else Severity.high

unfoldable pub finding_of : ConversationState → Time → ℕ → Finding
finding_of s due elapsed = record {
  tenant_id = s.tenant_id;
  opportunity_id = s.opportunity_id;
  location_id = s.location_id;
  trigger_message_id = s.last_meaningful_id;
  severity = severity_of elapsed;
  policy_version = version;
  reason_code = "NO_RESPONSE_THRESHOLD_EXCEEDED";
  reason = joined (
      "Бизнес не ответил клиенту в течение "
      ∷ decimal (elapsed / minute_ns)
      ∷ " рабочих минут"
      ∷ []);
  due_at = due;
  source = Source.rule;
  confidence = none;
  ai_run_id = none;
}

module _ (load_location : String → Option Location) where
  -- The steps once the due moment is known.
  unfoldable pub evaluate_due : ConversationState → Time → Time → Result Error Decision
  unfolding agreements_resolve finding_of
  evaluate_due s at due =
      if not (is_incoming s.last_meaningful) || not s.active_opportunity
      then ok (resolving true)
      else (if agreements_resolve s
          then ok (resolving true)
          else (if before at due then ok (planned due s.last_meaningful_id false) else do
            elapsed ←
                in_hours
                  (elapsed_business_time load_location s.business_hours s.last_meaningful_at at)
            ok (record (planned due s.last_meaningful_id false) {
              finding = some (finding_of s due elapsed);
            })))

  unfoldable pub evaluate : ConversationState → Time → Result Error Decision
  unfolding evaluate_due
  evaluate s at = if not (state_ok s) || is_zero at then err Error.invalid_risk else do
    due ←
        in_hours (
          add_business_time load_location s.business_hours s.last_meaningful_at
            s.response_threshold)
    evaluate_due s at due

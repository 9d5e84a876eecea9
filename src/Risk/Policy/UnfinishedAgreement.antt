-- ===== src/Risk/Policy/UnfinishedAgreement.antt =====
-- The rule R6: what was agreed is not finished
-- (backend/internal/risk/domain/unfinished_agreement.go).
use lidradar.Prelude.{
  ℕ, ◌+◌, ◌*◌, String, Bool, true, false, not, ◌&&◌, ◌||◌, Option, none, some, List, [], ◌∷◌, any,
  if◌then◌else◌, str_eq, ltb, Result, ok, err, ◌>>=◌, ◌>>◌, fail_if,
}
use lidradar.Text.{decimal, joined}
use lidradar.Time.{Time, Duration, Location, pos, negsuc, is_zero, before, minute_ns}
use lidradar.Float.{Float64}
use lidradar.Risk.BusinessTime.{add_business_time}
use lidradar.Risk.Aggregate.{RiskType, Severity, Source, Finding}
use lidradar.Risk.Policy.{
  Error, ActiveRiskSnapshot, AgreementSignal, ConversationState, Decision, no_decision, resolving,
  planned, state_ok, threshold_ok, in_hours,
}
use lidradar.Risk.Policy.PromisedTime.{Texts, PromisedDue, parse_promised_due}
use lidradar.Risk.Policy.Agreements.{
  Dated, strong_agreement, prefer_agreement, active_trigger, is_active_trigger,
}
use lidradar.Risk.Policy.PromiseNotFulfilled.{elsewhere, is_finished, located}
use lidradar.Risk.Policy.PromiseNotFulfilled as Promise
use lidradar.Risk.Policy.NoResponse as NoResponse
use lidradar.Risk.Policy.BookingNotConfirmed as Booking
use lidradar.Risk.Policy.CustomerSilentAfterPrice as Silent
use lidradar.Risk.Policy.FollowUpCandidate as FollowUp

abbrev pub version : String
version = "unfinished-agreement/v2"

-- The agreement chosen so far and the flags of the loop.
pub record Scan : Type 0 where
  pub pending : Option Dated
  pub resolved_active : Bool
  pub transferred_active : Bool
  pub eligible_count : ℕ

-- A threshold of 0 stands for two hours.
abbrev pub threshold_of : Duration → Duration
threshold_of (pos n) = if is_zero n then pos (120 * minute_ns) else pos n
threshold_of (negsuc n) = negsuc n

unfoldable pub kind_text : String → String
kind_text kind =
    if str_eq kind "BOOKING_CONFIRMATION"
    then "подтверждение записи"
    else (if str_eq kind "RESCHEDULE"
        then "согласование переноса"
        else (if str_eq kind "PURCHASE_BLOCKER" then "устранение препятствия покупке" else ""))

-- The kinds of agreement of this rule.
unfoldable pub is_kind : String → Bool
is_kind kind =
    str_eq kind "BOOKING_CONFIRMATION" || str_eq kind "RESCHEDULE" || str_eq kind "PURCHASE_BLOCKER"

-- An agreement that may be chosen if no other rule owns its action.
unfoldable pub is_eligible : ConversationState → AgreementSignal → Bool
unfolding is_kind
is_eligible s a =
    not a.superseded
    && str_eq a.status "PENDING"
    && not (s.closed_agreement_triggers RiskType.unfinished_agreement a.trigger_message_id)
    && is_kind a.kind

unfoldable pub choose : Option ActiveRiskSnapshot → Dated → Scan → Scan
unfolding prefer_agreement
choose risk c st = record st {
  pending = if prefer_agreement st.pending c (active_trigger risk) then some c else st.pending;
  eligible_count = st.eligible_count + 1;
}

-- A decision, or its error, plans the action of a trigger.
abbrev pub plans : String → Result Error Decision → Bool
plans trigger (err e) = false
plans trigger (ok d) = str_eq d.trigger_message_id trigger && not (is_zero d.due_at)

module _ (load_location : String → Option Location) (x : Texts)
    (format_moment : Location → Time → String) (format_confidence : Float64 → String) where
  -- The five policies of `duplicateAgreementAction`.
  unfoldable pub decision_of : RiskType → ConversationState → Time → Result Error Decision
  decision_of RiskType.no_response s at = NoResponse.evaluate load_location s at
  decision_of RiskType.booking_not_confirmed s at =
      Booking.evaluate load_location format_confidence s at
  decision_of RiskType.customer_silent_after_price s at = Silent.evaluate load_location s at
  decision_of RiskType.follow_up_candidate s at = FollowUp.evaluate load_location s at
  decision_of _ s at = Promise.evaluate load_location x format_moment s at

  -- Whether one rule owns the action, by its decision or by its open risk.
  unfoldable pub owns : ConversationState → AgreementSignal → RiskType → Bool
  unfolding decision_of
  owns s a type =
      plans a.trigger_message_id (decision_of type s a.trigger_at)
      || is_active_trigger (s.active_risks type) a.trigger_message_id

  -- `duplicateAgreementAction`.
  unfoldable pub duplicate_agreement_action : ConversationState → AgreementSignal → Bool
  unfolding owns
  duplicate_agreement_action s a = any (owns s a) (
      RiskType.no_response ∷ RiskType.booking_not_confirmed ∷ RiskType.promise_not_fulfilled
      ∷ RiskType.customer_silent_after_price ∷ RiskType.follow_up_candidate ∷ [])

  -- The words that make a text worth a search for a moment.
  abbrev pub names_moment : String → Bool
  names_moment text = any (x.contains (x.to_lower text)) (
      "напиш" ∷ "ответ" ∷ "сообщ" ∷ "подтверж" ∷ "свяж" ∷ "подума" ∷ "отлож" ∷ "вернёмся"
      ∷ "вернемся" ∷ [])

  abbrev pub explicit_or : Time → Option PromisedDue → Time
  explicit_or due none = due
  explicit_or due (some promised) = promised.at

  -- `unfinishedAgreementDue`.
  unfoldable pub unfinished_agreement_due : ConversationState → AgreementSignal → Result Error Time
  unfolding parse_promised_due
  unfinished_agreement_due s a = do
    fail_if (not (threshold_ok (threshold_of s.agreement_threshold))) Error.invalid_risk
    due ← in_hours (
        add_business_time load_location s.business_hours a.trigger_at
          (threshold_of s.agreement_threshold))
    let explicit = located load_location s >>= λ loc.
        ok (explicit_or due (parse_promised_due x loc a.trigger_text a.trigger_at))
    if names_moment a.trigger_text then explicit else ok due

  -- One round of the loop.
  unfoldable pub scan_step :
      ConversationState → Option ActiveRiskSnapshot → AgreementSignal → Scan → Result Error Scan
  unfolding strong_agreement is_eligible duplicate_agreement_action unfinished_agreement_due choose
  scan_step s risk a st =
      let mine = is_active_trigger risk a.trigger_message_id in
      let seen = record st {
        resolved_active = st.resolved_active || mine && (is_finished a || a.superseded);
      } in
      if not (strong_agreement a) || str_eq a.kind "COMMITMENT"
      then ok st
      else (if not (is_eligible s a)
          then ok seen
          else (if duplicate_agreement_action s a
              then ok (record seen { transferred_active = st.transferred_active || mine })
              else (unfinished_agreement_due s a >>= λ due.
                  ok (choose risk (record { signal = a; due = due }) seen))))

  unfoldable pub scan :
      ConversationState
      → Option ActiveRiskSnapshot
      → List AgreementSignal
      → Scan
      → Result Error Scan
  unfolding scan_step
  scan s risk [] st = ok st
  scan s risk (a ∷ rest) st = scan_step s risk a st >>= λ next. scan s risk rest next

  unfoldable pub reason_of : Location → AgreementSignal → ℕ → String
  unfolding kind_text
  reason_of loc a count =
      let reason = joined (
        "Ожидается "
        ∷ kind_text a.kind
        ∷ " от "
        ∷ (if str_eq a.waiting_for "BUSINESS" then "компании" else "клиента")
        ∷ " по договорённости из сообщения от "
        ∷ format_moment loc a.trigger_at
        ∷ []) in
      if ltb 1 count
      then joined (reason ∷ ". Всего незавершённых ожиданий этого типа: " ∷ decimal count ∷ [])
      else reason

  unfoldable pub finding_of : ConversationState → Location → Dated → ℕ → Finding
  unfolding reason_of
  finding_of s loc c count = record {
    tenant_id = s.tenant_id;
    opportunity_id = s.opportunity_id;
    location_id = s.location_id;
    trigger_message_id = c.signal.trigger_message_id;
    severity = Severity.medium;
    policy_version = version;
    reason_code = "UNFINISHED_AGREEMENT_DUE";
    reason = reason_of loc c.signal count;
    due_at = c.due;
    source = Source.hybrid;
    confidence = some c.signal.confidence;
    ai_run_id = some c.signal.ai_run_id;
  }

  -- The steps after the loop. A kind without a text cannot be pending, and the location is there,
  -- since the due moment needed it.
  unfoldable pub decide :
      ConversationState
      → Time
      → Option ActiveRiskSnapshot
      → Scan
      → Option Dated
      → Result Error Decision
  unfolding finding_of
  decide s at risk st none = ok (resolving (st.resolved_active || st.transferred_active))
  decide s at risk st (some c) =
      let trigger = c.signal.trigger_message_id in
      let over = st.resolved_active || st.transferred_active in
      let d = planned c.due trigger (over && elsewhere risk trigger) in
      let warned = located load_location s >>= λ loc.
      ok (record d { finding = some (finding_of s loc c st.eligible_count) }) in
      if elsewhere risk trigger && not over
      then ok no_decision
      else (if before at c.due then ok d else warned)

  unfoldable pub evaluate : ConversationState → Time → Result Error Decision
  unfolding scan decide
  evaluate s at =
      let risk = s.active_risks RiskType.unfinished_agreement in
      if not (state_ok s) || is_zero at
      then err Error.invalid_risk
      else (if not s.active_opportunity
          then ok (resolving true)
          else (if not s.agreements_current
              then ok no_decision
              else (scan s risk s.agreements (record {
                pending = none;
                resolved_active = false;
                transferred_active = false;
                eligible_count = 0;
              })
                  >>= λ st. decide s at risk st st.pending)))

-- ===== src/Risk/Policy/PromiseNotFulfilled.antt =====
-- The rule R4: a promise to a customer is not kept
-- (backend/internal/risk/domain/promise_not_fulfilled.go).
pub mod Earliest
use lidradar.Prelude.{
  ℕ, ◌+◌, ◌*◌, String, Bool, true, false, not, ◌&&◌, ◌||◌, Option, none, some, List, [], ◌∷◌,
  if◌then◌else◌, str_eq, ltb, is_some, Result, ok, err, ◌>>=◌,
}
use lidradar.Text.{is_empty, decimal, joined}
use lidradar.Time.{Time, Location, pos, is_zero, before, minute_ns}
use lidradar.Float.{Float64, is_strong}
use lidradar.Risk.BusinessTime.{add_business_time}
use lidradar.Risk.Aggregate.{RiskType, Severity, Source, Finding}
use lidradar.Risk.Policy.{
  Error, CommitmentSignal, ActiveRiskSnapshot, AgreementSignal, ConversationState, Decision,
  no_decision, resolving, planned, state_ok, in_hours,
}
use lidradar.Risk.Policy.PromisedTime.{Texts, PromisedDue, parse_promised_due}
use lidradar.Risk.Policy.Agreements.{
  Dated, strong_agreement, prefer_agreement, active_trigger, is_active_trigger,
}

abbrev pub version : String
version = "promise-not-fulfilled/v1"

abbrev pub version_v2 : String
version_v2 = "promise-not-fulfilled/v3"

-- `PromiseFallbackThreshold`.
abbrev pub fallback : ℕ
fallback = 60 * minute_ns

-- The agreement chosen so far with the moment it names, and the flags of the loop of `evaluateV2`.
pub record Scan : Type 0 where
  pub pending : Option Dated
  pub promised : Option PromisedDue
  pub resolved_active : Bool
  pub eligible_count : ℕ

abbrev pub followed_up : Option ActiveRiskSnapshot → Bool
followed_up none = false
followed_up (some r) = r.outgoing_after_trigger

-- `hasActive && pending.TriggerMessageID != active.TriggerMessageID`.
abbrev pub elsewhere : Option ActiveRiskSnapshot → String → Bool
elsewhere none trigger = false
elsewhere (some r) trigger = not (str_eq r.trigger_message_id trigger)

unfoldable pub finding_of :
    ConversationState → String → String → Time → Float64 → String → String → Finding
finding_of s policy_version trigger due confidence ai_run_id reason = record {
  tenant_id = s.tenant_id;
  opportunity_id = s.opportunity_id;
  location_id = s.location_id;
  trigger_message_id = trigger;
  severity = Severity.high;
  policy_version = policy_version;
  reason_code = "PROMISE_NOT_FULFILLED_AFTER_DUE";
  reason = reason;
  due_at = due;
  source = Source.hybrid;
  confidence = some confidence;
  ai_run_id = some ai_run_id;
}

-- Whether the loop looks at an agreement at all, and whether it may be chosen.
unfoldable pub is_commitment : AgreementSignal → Bool
unfolding strong_agreement
is_commitment a =
    str_eq a.kind "COMMITMENT" && str_eq a.waiting_for "BUSINESS" && strong_agreement a

unfoldable pub is_eligible : ConversationState → AgreementSignal → Bool
is_eligible s a =
    str_eq a.status "PENDING"
    && not (s.closed_agreement_triggers RiskType.promise_not_fulfilled a.trigger_message_id)

abbrev pub is_finished : AgreementSignal → Bool
is_finished a = str_eq a.status "RESOLVED" || str_eq a.status "CANCELLED"

unfoldable pub choose : Option ActiveRiskSnapshot → Dated → Option PromisedDue → Scan → Scan
unfolding prefer_agreement
choose risk c promised st =
    let better = prefer_agreement st.pending c (active_trigger risk) in
    record st {
      pending = if better then some c else st.pending;
      promised = if better then promised else st.promised;
      eligible_count = st.eligible_count + 1;
    }

module _ (load_location : String → Option Location) where
  abbrev pub located : ConversationState → Result Error Location
  located s = in_hours (load_location s.business_hours.timezone)

-- The moment is printed by `time.Format` in the location: a parameter.
module _ (load_location : String → Option Location) (x : Texts)
    (format_moment : Location → Time → String) where
  -- The moment that a promise names, or an hour of business time after it.
  unfoldable pub due_of : ConversationState → Time → Option PromisedDue → Result Error Time
  due_of s from (some promised) = ok promised.at
  due_of s from none =
      in_hours (add_business_time load_location s.business_hours from (pos fallback))

  unfoldable pub reason_of :
      Location → String → String → String → Time → Option PromisedDue → String
  reason_of loc plain before_moment behind due none = plain
  reason_of loc plain before_moment behind due (some promised) =
      joined (before_moment ∷ format_moment loc due ∷ " («" ∷ promised.phrase ∷ behind ∷ [])

  -- One round of the loop of `evaluateV2`.
  unfoldable pub scan_step :
      ConversationState
      → Location
      → Option ActiveRiskSnapshot
      → AgreementSignal
      → Scan
      → Result Error Scan
  unfolding is_commitment is_eligible due_of choose parse_promised_due
  scan_step s loc risk a st =
      let seen = record st {
        resolved_active =
            st.resolved_active || is_active_trigger risk a.trigger_message_id && is_finished a;
      } in
      if not (is_commitment a)
      then ok st
      else (if not (is_eligible s a) then ok seen else do
        let promised = parse_promised_due x loc a.trigger_text a.trigger_at
        due ← due_of s a.trigger_at promised
        ok (choose risk (record { signal = a; due = due }) promised seen))

  unfoldable pub scan :
      ConversationState
      → Location
      → Option ActiveRiskSnapshot
      → List AgreementSignal
      → Scan
      → Result Error Scan
  unfolding scan_step
  scan s loc risk [] st = ok st
  scan s loc risk (a ∷ rest) st = scan_step s loc risk a st >>= λ next. scan s loc risk rest next

  -- The reason of `evaluateV2`, with the count of the other promises.
  unfoldable pub reason_v2 : Location → Time → Scan → String
  unfolding reason_of
  reason_v2 loc due st =
      let reason =
        reason_of loc "Компания дала клиенту обязательство, которое ещё не выполнено"
          "Компания обещала действие к " "»), подтверждения выполнения пока нет" due st.promised in
      if ltb 1 st.eligible_count
      then joined (reason ∷ ". Всего невыполненных обещаний: " ∷ decimal st.eligible_count ∷ [])
      else reason

  -- `evaluateV2` after its loop.
  unfoldable pub decide_v2 :
      ConversationState
      → Time
      → Location
      → Option ActiveRiskSnapshot
      → Scan
      → Option Dated
      → Decision
  unfolding reason_v2 finding_of
  decide_v2 s at loc risk st none = resolving st.resolved_active
  decide_v2 s at loc risk st (some c) =
      let trigger = c.signal.trigger_message_id in
      let d = record (planned c.due trigger (st.resolved_active && elsewhere risk trigger)) {
        policy_version = version_v2;
      } in
      if elsewhere risk trigger && not st.resolved_active
      then no_decision
      else (if before at c.due then d else record d {
        finding = some (
            finding_of s version_v2 trigger c.due c.signal.confidence c.signal.ai_run_id
              (reason_v2 loc c.due st));
      })

  -- `evaluateV2`.
  unfoldable pub evaluate_v2 :
      ConversationState → Time → Option ActiveRiskSnapshot → Result Error Decision
  unfolding scan decide_v2
  evaluate_v2 s at risk = do
    loc ← located load_location s
    st ←
        scan s loc risk s.agreements
          (record { pending = none; promised = none; resolved_active = false; eligible_count = 0 })
    ok (decide_v2 s at loc risk st st.pending)

  -- The steps on a commitment that is strong and not followed up.
  unfoldable pub decide_commitment :
      ConversationState
      → Time
      → Option ActiveRiskSnapshot
      → CommitmentSignal
      → Result Error Decision
  unfolding due_of reason_of finding_of parse_promised_due
  decide_commitment s at risk g = do
    loc ← located load_location s
    let promised = parse_promised_due x loc g.evidence_text g.evidence_at
    due ← due_of s g.evidence_at promised
    let trigger = g.evidence_message_id
    let d = planned due trigger (followed_up risk && elsewhere risk trigger)
    if before at due
        then ok d
        else ok (record d {
          finding = some (
              finding_of s version trigger due g.confidence g.ai_run_id (
                reason_of loc
                  "Компания дала клиенту обещание, но не написала ему в течение 60 рабочих минут"
                  "Компания пообещала клиенту действие к " "»), но не написала ему после обещания"
                  due promised));
        })

  unfoldable pub evaluate_commitment :
      ConversationState
      → Time
      → Option ActiveRiskSnapshot
      → Option CommitmentSignal
      → Result Error Decision
  unfolding decide_commitment
  evaluate_commitment s at risk none = ok (resolving (followed_up risk))
  evaluate_commitment s at risk (some g) =
      if not g.value || not (is_strong g.confidence)
      then ok (resolving (followed_up risk))
      else (if is_empty g.ai_run_id || is_empty g.evidence_message_id || is_zero g.evidence_at
          then err Error.invalid_risk
          else (if g.followed_up
              then ok (record (resolving true) { trigger_message_id = g.evidence_message_id })
              else decide_commitment s at risk g))

  unfoldable pub evaluate : ConversationState → Time → Result Error Decision
  unfolding evaluate_v2 evaluate_commitment
  evaluate s at =
      let risk = s.active_risks RiskType.promise_not_fulfilled in
      if not (state_ok s) || is_zero at
      then err Error.invalid_risk
      else (if not s.active_opportunity
          then ok (resolving true)
          else (if s.agreements_current
              then evaluate_v2 s at risk
              else (if s.v2_snapshot_unavailable
                  then ok no_decision
                  else evaluate_commitment s at risk s.commitment)))

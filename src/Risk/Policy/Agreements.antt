-- ===== src/Risk/Policy/Agreements.antt =====
-- Which of several agreements a rule acts on
-- (backend/internal/risk/domain/agreement_selection.go).
use lidradar.Prelude.{
  String, Bool, true, false, not, ◌&&◌, ◌||◌, Option, none, some, if◌then◌else◌, str_eq, ◌==◌,
}
use lidradar.Text.{is_empty, text_lt}
use lidradar.Time.{Time, is_zero, before}
use lidradar.Float.{is_strong}
use lidradar.Risk.Policy.{AgreementSignal, ActiveRiskSnapshot}

-- `strongAgreement`.
unfoldable pub strong_agreement : AgreementSignal → Bool
strong_agreement a =
    is_strong a.confidence
    && not (is_empty a.trigger_message_id)
    && not (is_zero a.trigger_at)
    && not (is_empty a.ai_run_id)
    && (str_eq a.waiting_for "CUSTOMER" || str_eq a.waiting_for "BUSINESS")

-- An agreement with its deadline.
pub record Dated : Type 0 where
  pub signal : AgreementSignal
  pub due : Time

-- The order at the end of `preferAgreement`.
unfoldable pub sooner : Dated → Dated → Bool
sooner c b =
    if not (c.due == b.due)
    then before c.due b.due
    else (if not (c.signal.trigger_at == b.signal.trigger_at)
        then before c.signal.trigger_at b.signal.trigger_at
        else text_lt c.signal.trigger_message_id b.signal.trigger_message_id)

-- `preferAgreement`.
unfoldable pub prefer_agreement : Option Dated → Dated → String → Bool
unfolding sooner
prefer_agreement none c active_trigger = true
prefer_agreement (some b) c active_trigger =
    if str_eq b.signal.trigger_message_id active_trigger
    then false
    else (if str_eq c.signal.trigger_message_id active_trigger then true else sooner c b)

-- `active.TriggerMessageID`, empty where no risk is active, and `hasActive` with it.
abbrev pub active_trigger : Option ActiveRiskSnapshot → String
active_trigger none = ""
active_trigger (some r) = r.trigger_message_id

abbrev pub is_active_trigger : Option ActiveRiskSnapshot → String → Bool
is_active_trigger none id = false
is_active_trigger (some r) id = str_eq id r.trigger_message_id

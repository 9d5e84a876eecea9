-- ===== src/Risk/Policy/CustomerSilentAfterPrice/Laws.antt =====
-- How the rule R2 grows graver with the silence of the customer.
use lidradar.Prelude.{ℕ, ◌≤◌, ◌<◌, ◌≡◌, String, Option, none, some}
use lidradar.Time.{Time, Location, pos}
use lidradar.Risk.BusinessTime.{add_business_time}
use lidradar.Risk.Aggregate.{Severity}
use lidradar.Risk.Policy.{ConversationState, Decision}
use lidradar.Risk.Policy.CustomerSilentAfterPrice.{Trigger, threshold, escalation, finding_of}

module _ (load_location : String → Option Location) (s : ConversationState) (t : Trigger) where
  -- What the rule decides at a moment, by the business time that has elapsed since the price.
  pub data Decided (elapsed due : ℕ) (d : Decision) : Type 0 where
    quiet : elapsed < threshold → d.finding ≡ none → Decided elapsed due d
    medium :
        threshold ≤ elapsed
        → elapsed < escalation
        → d.finding ≡ some (finding_of s t due elapsed Severity.medium)
        → add_business_time load_location s.business_hours t.at (pos escalation)
          ≡ some d.next_due_at
        → d.next_check_suffix ≡ "escalation"
        → Decided elapsed due d
    high :
        escalation ≤ elapsed
        → d.finding ≡ some (finding_of s t due elapsed Severity.high)
        → d.next_check_suffix ≡ ""
        → Decided elapsed due d

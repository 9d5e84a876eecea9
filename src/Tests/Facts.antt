-- ===== src/Tests/Facts.antt =====
-- Feedback on a risk, the status of a risk in a digest, and revenue that was recovered.
use lidradar.Prelude.{◌≡◌, refl, String, true, false, some, is_some, arith, ◌↔◌}
use lidradar.Time.{pos}
use lidradar.Risk.Feedback.{Verdict, FeedbackReason, new_feedback, valid_verdict}
use lidradar.Risk.Feedback.Accepted.{new_feedback_iff, Explains}
use lidradar.Revenue.{
  Decimals, RevenueEvent, RevenueAttribution, AttributionType, new_confirmed_event, new_attribution,
  chain_ok,
}
use lidradar.Revenue.Attributed.{confirmed-attributed}
use lidradar.Tests.Risk.{opened, opened-valid, asked}
use lidradar.Text.{trim_space}

new_feedback_iff_example :
    (is_some (
        new_feedback "f" opened "NEW" "anna" Verdict.false_positive FeedbackReason.nothing "note"
          true asked)
      ≡ true)
    ↔ Explains Verdict.false_positive FeedbackReason.nothing
unfolding valid_verdict trim_space
new_feedback_iff_example =
    new_feedback_iff "f" opened "NEW" "anna" Verdict.false_positive FeedbackReason.nothing "note"
      true asked opened-valid refl refl refl refl (omega arith) refl refl

-- Amounts as their texts.
abbrev decimals : Decimals String
decimals = record {
  of_string = some;
  is_negative = λ d. false;
  is_zero_value = λ d. false;
  exponent = λ d. pos 0;
}

abbrev event : RevenueEvent String
event = record {
  id = "e";
  tenant_id = "org";
  opportunity_id = "deal";
  amount = "1500.00";
  currency = "RUB";
  status = "CONFIRMED";
  source = "USER_CONFIRMED";
  confirmed_by = "anna";
  confirmed_at = asked;
}

event-eq :
    new_confirmed_event decimals (λ s. s) "e" "org" "deal" "1500.00" "RUB" "anna" asked ≡ some event
unfolding new_confirmed_event trim_space
event-eq = refl

confirmed-attributed_example :
    (a : RevenueAttribution) × (new_attribution "a" event AttributionType.recovered "r" "c" "o"
        asked
      ≡ some a)
    × (a.tenant_id ≡ "org")
    × (a.opportunity_id ≡ "deal")
unfolding chain_ok
confirmed-attributed_example =
    confirmed-attributed decimals (λ s. s) "e" "org" "deal" "1500.00" "RUB" "anna" asked event "a"
      AttributionType.recovered "r" "c" "o" asked event-eq refl refl refl

-- ===== src/Risk/Policy/NoResponse/Laws.antt =====
-- When the rule R1 finds a risk, and how grave it is.
use lidradar.Prelude.{
  ℕ, ◌*◌, ◌≤◌, ◌≡◌, String, true, false, Option, Option-cases, none, some, is_some, ok, ◌↔◌, ◌⊎◌,
  inl, inr, arith, ◌∙◌, ap, subst, sym,
}
use lidradar.Time.{Time, Location, pos, IsCalendar, minute_ns, before}
use lidradar.Risk.BusinessTime.{add_business_time, elapsed_business_time}
use lidradar.Risk.BusinessTime.RoundTrip.{Fits}
use lidradar.Risk.BusinessTime.Due.{due-le_iff}
use lidradar.Risk.Aggregate.{Finding, Severity}
use lidradar.Risk.Policy.{ConversationState, Decision, is_incoming}
use lidradar.Risk.Policy.NoResponse.{agreements_resolve, finding_of, evaluate_due, evaluate}

-- The customer waits: the last message is incoming, the deal is active and no agreement settles it.
pub record Waiting (s : ConversationState) : Type 0 where
  pub incoming_last : is_incoming s.last_meaningful ≡ true
  pub active : s.active_opportunity ≡ true
  pub unsettled : agreements_resolve s ≡ false

module _ (load_location : String → Option Location) (s : ConversationState) where
  evaluate-inversion :
      (at : Time) {d : Decision}
      → evaluate load_location s at ≡ ok d
      → (due : Time) × (add_business_time load_location s.business_hours s.last_meaningful_at
            s.response_threshold
          ≡ some due)
        × (evaluate_due load_location s at due ≡ ok d)
  unfolding evaluate
  evaluate-inversion at h =
      elim (Option-cases (
        add_business_time load_location s.business_hours s.last_meaningful_at
          s.response_threshold)) [ inl e ↦ ground arith | inr (due, e) ↦ (due, e, ground arith) ]

  due-inversion :
      (at due : Time) {d : Decision}
      → Waiting s
      → evaluate_due load_location s at due ≡ ok d
      → ((before at due ≡ true) × (d.finding ≡ none))
        ⊎ ((before at due ≡ false)
            × ((elapsed : ℕ) × (elapsed_business_time load_location s.business_hours
                    s.last_meaningful_at at
                  ≡ some elapsed)
                × (d.finding ≡ some (finding_of s due elapsed))))
  unfolding evaluate_due
  due-inversion at due w h =
      elim (Option-cases
        (elapsed_business_time load_location s.business_hours s.last_meaningful_at at)) [
          | inl e ↦ ground (arith, w.incoming_last, w.active, w.unsettled)
          | inr (elapsed, e) ↦ ground (arith, w.incoming_last, w.active, w.unsettled)
        ]

  severity_iff :
      (due elapsed : ℕ)
      → ((finding_of s due elapsed).severity ≡ Severity.critical) ↔ (90 * minute_ns ≤ elapsed)
  unfolding finding_of
  severity_iff due elapsed = ground arith

  -- While the customer waits, the rule finds a risk at a moment exactly if the threshold of business
  -- time has elapsed by then, and calls it CRITICAL exactly from 90 minutes of business time on. The
  -- zone is a calendar, no period runs past the next midnight, and the rule has answered.
  pub no_response_iff :
      (at : Time) (threshold elapsed : ℕ) {loc : Location} {d : Decision}
      → load_location s.business_hours.timezone ≡ some loc
      → IsCalendar loc
      → Fits loc s.business_hours
      → Waiting s
      → s.response_threshold ≡ pos threshold
      → s.last_meaningful_at ≤ at
      → elapsed_business_time load_location s.business_hours s.last_meaningful_at at ≡ some elapsed
      → evaluate load_location s at ≡ ok d
      → ((is_some d.finding ≡ true) ↔ (threshold ≤ elapsed))
        × ((f : Finding)
            → d.finding ≡ some f
            → (f.severity ≡ Severity.critical) ↔ (90 * minute_ns ≤ elapsed))
  no_response_iff at threshold elapsed zone cal fits w same l count h =
      let (due, found, rest) = evaluate-inversion at h in
      let added : add_business_time load_location s.business_hours s.last_meaningful_at
            (pos threshold)
          ≡ some due =
        ap (λ t. add_business_time load_location s.business_hours s.last_meaningful_at t) (sym same)
        ∙ found in
      let agree =
        due-le_iff load_location s.business_hours s.last_meaningful_at threshold at zone cal fits l
          added count in
      elim (due-inversion at due w rest) [
        | inl (early, nothing) ↦
            let not_yet : threshold ≤ elapsed → ⊥ = λ m. ground (arith, agree.1 m) in
            (ground arith, λ f e. cc)
        | inr (late, more) ↦
            let (counted, other, found_it) = more in
            let same_count : counted ≡ elapsed = cc in
            let reached : threshold ≤ elapsed = agree.0 (ground arith) in
            (
              ground arith,
              λ f e.
                  let is : finding_of s due counted ≡ f = cc in
                  let sev = severity_iff due counted in
                  subst
                    (λ (g : Finding). (g.severity ≡ Severity.critical) ↔ (90 * minute_ns ≤ elapsed))
                    is
                    (subst
                      (λ k.
                        ((finding_of s due counted).severity ≡ Severity.critical)
                        ↔ (90 * minute_ns ≤ k))
                      same_count sev),
            )
      ]

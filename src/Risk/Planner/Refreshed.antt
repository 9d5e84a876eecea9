-- ===== src/Risk/Planner/Refreshed.antt =====
-- A refresh of an opportunity that returns no error leaves the checks that its decision asks for.
use lidradar.Prelude.{
  ◌≡◌, refl, sym, ap, subst, ◌∙◌, String, Bool, true, false, not, ◌||◌, Option, none, some,
  if◌then◌else◌, Result, ok, err, List, str_eq,
}
use lidradar.Text.{is_empty}
use lidradar.Time.{Time}
use lidradar.Jobs.Check.{ScheduledCheck}
use lidradar.Risk.Policy.{ConversationState, Decision}
use lidradar.Risk.Evaluation.{Error, Policy, Repository, Applied, apply}
use lidradar.Risk.Planner.Runs.{
  plan, planned, refresh_applied, refresh_decided, refresh_observed, refresh_read,
  refresh_opportunity,
}
use lidradar.Risk.Planner.Inputs.{Ids, Clock, Stores, with_trigger}
use lidradar.Risk.Planner.Remembered.{Remembered, plan-Remembered}

module _ (json_object : String → Bool) (same_payload : String → String → Bool)
    (payload_of : String → String) (format_due : Time → String) where
  module _ {State : Type 0} (repository : Repository State)
      (states reread : String → String → Result Error ConversationState) where
    -- What a refresh that decided `d` in a state leaves.
    abbrev Left :
        Clock
        → String
        → String
        → ConversationState
        → Stores State
        → Stores State
        → Decision
        → Type 0
    Left clock tenant_id opportunity_id state s t d =
        Remembered clock tenant_id opportunity_id (with_trigger state d) s.checks t.checks

    past :
        (b : Bool) (s : Stores State) (k : Stores State × Option Error) (e : Error)
        {t : Stores State}
        → ◌≡◌ {A = Stores State × Option Error} (if b then (s, some e) else k) (t, none)
        → (b ≡ false) × (k ≡ (t, none))
    past true s k e h = cc
    past false s k e h = (refl, h)

    done_with :
        (clock : Clock) (tenant_id opportunity_id : String) (d : Decision)
        (cs : List ScheduledCheck) (risks : State) (t : Stores State)
        (checks : List ScheduledCheck × Option Error)
        → ((left : List ScheduledCheck)
            → checks ≡ (left, none)
            → Remembered clock tenant_id opportunity_id d cs left)
        → ◌≡◌ {A = Stores State × Option Error}
            (record { risks = risks; checks = checks.0 }, checks.1)
            (t, none)
        → Remembered clock tenant_id opportunity_id d cs t.checks
    done_with clock tenant_id opportunity_id d cs risks t (left, trouble) f h =
        let same = ap (λ (w : Stores State × Option Error). w.0.checks) h in
        let fine = ap (λ (w : Stores State × Option Error). w.1) h in
        subst (Remembered clock tenant_id opportunity_id d cs) same
          (f left (ap (λ x. (left, x)) fine))

    applied_with :
        (clock : Clock) (tenant_id opportunity_id : String) (d : Decision) (s t : Stores State)
        (checks : List ScheduledCheck × Option Error) (answer : State × Result Error Applied)
        → ((left : List ScheduledCheck)
            → checks ≡ (left, none)
            → Remembered clock tenant_id opportunity_id d s.checks left)
        → refresh_applied json_object same_payload payload_of format_due repository states reread s
            checks answer
          ≡ (t, none)
        → Remembered clock tenant_id opportunity_id d s.checks t.checks
    unfolding refresh_applied
    applied_with clock tenant_id opportunity_id d s t checks (risks, err e) f h = cc
    applied_with clock tenant_id opportunity_id d s t checks (risks, ok a) f h =
        done_with clock tenant_id opportunity_id d s.checks risks t checks f h

    decided_with :
        (policy : Policy) (ids : Ids) (clock : Clock) (tenant_id opportunity_id : String)
        (state : ConversationState) (s t : Stores State) (d : Decision)
        → refresh_decided json_object same_payload payload_of format_due repository states reread
            policy ids clock tenant_id opportunity_id state s d
          ≡ (t, none)
        → Left clock tenant_id opportunity_id state s t d
    unfolding refresh_decided
    decided_with policy ids clock tenant_id opportunity_id state s t d h = go d.resolve h
      where
        checks : List ScheduledCheck × Option Error
        checks =
            plan json_object same_payload payload_of format_due policy ids clock tenant_id
              opportunity_id (with_trigger state d) s.checks

        remembers :
            (left : List ScheduledCheck)
            → checks ≡ (left, none)
            → Remembered clock tenant_id opportunity_id (with_trigger state d) s.checks left
        remembers left e =
            plan-Remembered json_object same_payload payload_of format_due policy ids clock
              tenant_id opportunity_id (with_trigger state d) s.checks left e

        go :
            (resolve : Bool)
            → ◌≡◌ {A = Stores State × Option Error}
                (if not resolve
                  then planned json_object same_payload payload_of format_due repository states
                      reread s.risks checks
                  else refresh_applied json_object same_payload payload_of format_due repository
                      states reread s checks
                      (apply repository reread policy ids.risk clock.applying tenant_id
                        opportunity_id s.risks))
                (t, none)
            → Left clock tenant_id opportunity_id state s t d
        go true h' =
            applied_with clock tenant_id opportunity_id (with_trigger state d) s t checks
              (apply repository reread policy ids.risk clock.applying tenant_id opportunity_id
                s.risks)
              remembers h'
        go false h' =
            done_with clock tenant_id opportunity_id (with_trigger state d) s.checks s.risks t
              checks remembers h'

    -- A refresh that returns no error has planned what the policy decided: a check at the due moment
    -- and one at the next due moment if that is ahead, wherever there is a message to check, and it
    -- keeps every check that was there.
    pub refresh-Remembered :
        (policy : Policy) (ids : Ids) (clock : Clock) (tenant_id opportunity_id : String)
        (state : ConversationState) (s t : Stores State) (d : Decision)
        → states tenant_id opportunity_id ≡ ok state
        → policy.evaluate state clock.deciding ≡ ok d
        → refresh_opportunity json_object same_payload payload_of format_due repository states
            reread policy ids clock tenant_id opportunity_id s
          ≡ (t, none)
        → Remembered clock tenant_id opportunity_id (with_trigger state d) s.checks t.checks
    unfolding refresh_opportunity refresh_read refresh_observed
    refresh-Remembered policy ids clock tenant_id opportunity_id state s t d read decides h =
        let (_, h₁) =
          past (is_empty tenant_id || is_empty opportunity_id) s _ Error.invalid_check h in
        let h₂ =
          sym (
            ap
              (refresh_read json_object same_payload payload_of format_due repository states reread
                policy ids clock tenant_id opportunity_id s)
              read)
          ∙ h₁ in
        let (_, h₃) =
          past
            (not (str_eq state.tenant_id tenant_id)
              || not (str_eq state.opportunity_id opportunity_id))
            s _ Error.invalid_check h₂ in
        decided_with policy ids clock tenant_id opportunity_id state s t d (
          sym (
            ap
              (refresh_observed json_object same_payload payload_of format_due repository states
                reread policy ids clock tenant_id opportunity_id state s)
              decides)
          ∙ h₃)

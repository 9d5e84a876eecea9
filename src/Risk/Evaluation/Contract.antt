-- ===== src/Risk/Evaluation/Contract.antt =====
-- What the evaluator relies on: the contract of `domain.Repository` and of a policy
-- (backend/internal/risk/application/evaluate.go).
use lidradar.Prelude.{◌≡◌, String, Bool, true, none, some, ok}
use lidradar.Time.{Time}
use lidradar.Risk.Aggregate.{RiskType, Risk, Finding, validate}
use lidradar.Risk.Policy.{ConversationState, Decision}
use lidradar.Risk.Evaluation.{Policy, Repository}

-- The contract of a repository, on the states that `Ok` holds of.
pub record IsRepository {State : Type 0} (repository : Repository State) (Ok : State → Type 0)
    : Type 0 where
  pub resolve-Ok :
      {tenant_id opportunity_id : String} {t : RiskType} {at : Time} {s after : State} {done : Bool}
      → Ok s
      → repository.resolve_active tenant_id opportunity_id t at s ≡ ok (done, after)
      → Ok after
  pub upsert-Ok : (r : Risk) (s : State) → Ok s → Ok (repository.upsert_active r s).0
  pub resolve-find :
      {tenant_id opportunity_id : String} {t : RiskType} {at : Time} {s after : State} {done : Bool}
      → repository.resolve_active tenant_id opportunity_id t at s ≡ ok (done, after)
      → repository.find_active tenant_id opportunity_id t after ≡ ok none
  pub upsert-find :
      {r q : Risk} {new : Bool} {s after : State}
      → validate r ≡ true
      → repository.upsert_active r s ≡ (after, ok (q, new))
      → repository.find_active r.tenant_id r.opportunity_id r.risk_type after ≡ ok (some q)

-- A policy finds risks only of the opportunity that it was asked about.
abbrev pub OfState : Policy → Type 0
OfState policy =
    (s : ConversationState) (at : Time) (d : Decision) (f : Finding)
    → policy.evaluate s at ≡ ok d
    → d.finding ≡ some f
    → (f.tenant_id ≡ s.tenant_id) × (f.opportunity_id ≡ s.opportunity_id)

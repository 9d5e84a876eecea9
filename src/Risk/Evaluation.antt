-- ===== src/Risk/Evaluation.antt =====
-- The evaluator (backend/internal/risk/application/evaluate.go): it reads the state of a conversation
-- again, asks the policy, and stores or closes the risk. The repository is an interface, as in the
-- code; the readers of states and ids are arguments.

pub mod Effect
pub mod Postgres
pub mod Contract
use lidradar.Prelude.{
  String, Bool, true, false, not, ◌||◌, Option, none, some, if◌then◌else◌, str_eq, Result, ok, err,
}
use lidradar.Text.{is_empty}
use lidradar.Time.{Time}
use lidradar.Risk.Aggregate.{RiskType, Risk, Finding, supported_type, new_risk}
use lidradar.Risk.Store.{Error as StoreError}
use lidradar.Risk.Policy.{Error as PolicyError, ConversationState, Decision}

-- The errors that callers tell apart; `other` stands for all that wrap none of these.
pub data Error : Type 0 where
  invalid_check state_not_found state_incomplete invalid_risk invalid_business_hours : Error
  jobs_invalid jobs_conflict other : Error

unfoldable pub of_store : StoreError → Error
of_store StoreError.invalid_risk = Error.invalid_risk
of_store StoreError.failed = Error.other

unfoldable pub of_policy : PolicyError → Error
of_policy PolicyError.invalid_risk = Error.invalid_risk
of_policy PolicyError.invalid_business_hours = Error.invalid_business_hours

-- `domain.Policy`.
pub record Policy : Type 0 where
  pub risk_type : RiskType
  pub version : String
  pub evaluate : ConversationState → Time → Result PolicyError Decision

-- `domain.Repository`, with what it stores.
pub record Repository (State : Type 0) : Type 0 where
  pub find_active : String → String → RiskType → State → Result StoreError (Option Risk)
  pub resolve_active : String → String → RiskType → Time → State → Result StoreError (Bool × State)
  pub upsert_active : Risk → State → State × Result StoreError (Risk × Bool)

-- What `Apply` returns: the decision, the risk if it has one, whether it is new, and the signal that
-- it publishes with the id of a risk.
pub record Applied : Type 0 where
  pub decision : Decision
  pub risk : Option Risk
  pub created : Bool
  pub signal : Option (String × String)

abbrev pub unchanged : Decision → Applied
unchanged d = record { decision = d; risk = none; created = false; signal = none }

-- `DueAt`.
unfoldable pub due_at : Policy → ConversationState → Result Error Time
due_at policy state = elim (policy.evaluate state state.last_meaningful_at) [
  | err e ↦ err (of_policy e)
  | ok d ↦ ok d.due_at
]

-- The id of the risk that `FindActive` returns, that of the zero risk if there is none.
abbrev pub id_of : Option Risk → String
id_of none = ""
id_of (some r) = r.id

unfoldable pub resolved_signal : Bool → Option Risk → Option (String × String)
resolved_signal true active = some ("risk.resolved", id_of active)
resolved_signal false active = none

module _ {State : Type 0} (repository : Repository State) where
  -- The steps on what `ResolveActive` returned.
  unfoldable pub closed :
      Decision
      → State
      → Option Risk
      → Result StoreError (Bool × State)
      → State × Result Error Applied
  closed d s active (err e) = (s, err (of_store e))
  closed d s active (ok (done, after)) =
      (after, ok (record (unchanged d) { signal = resolved_signal done active }))

  -- The steps after `FindActive`.
  unfoldable pub resolve_found :
      String
      → String
      → RiskType
      → Time
      → Decision
      → State
      → Result StoreError (Option Risk)
      → State × Result Error Applied
  resolve_found tenant_id opportunity_id t now d s (err e) = (s, err (of_store e))
  resolve_found tenant_id opportunity_id t now d s (ok active) =
      closed d s active (repository.resolve_active tenant_id opportunity_id t now s)

  -- The steps on what `UpsertActive` returned.
  unfoldable pub stored :
      Decision → State × Result StoreError (Risk × Bool) → State × Result Error Applied
  stored d (after, err e) = (after, err (of_store e))
  stored d (after, ok (r, new)) = (
    after,
    ok (record {
      decision = d;
      risk = some r;
      created = new;
      signal = some ("risk.changed", r.id);
    }),
  )

  -- The steps on the risk that the constructor made, if it made one.
  unfoldable pub made : Decision → State → Option Risk → State × Result Error Applied
  made d s none = (s, err Error.invalid_risk)
  made d s (some r) = stored d (repository.upsert_active r s)

  -- The steps on a finding; `id` is what NewID returns.
  unfoldable pub apply_finding :
      RiskType → Option String → Time → Decision → Finding → State → State × Result Error Applied
  apply_finding t none now d f s = (s, err Error.other)
  apply_finding t (some id) now d f s =
      if not (supported_type t)
      then (s, err Error.invalid_check)
      else made d s (new_risk id t f now)

  unfoldable pub apply_decision :
      String
      → String
      → RiskType
      → Option String
      → Time
      → Decision
      → State
      → Option Finding
      → State × Result Error Applied
  apply_decision tenant_id opportunity_id t id now d s none =
      if not d.resolve
      then (s, ok (unchanged d))
      else resolve_found tenant_id opportunity_id t now d s
          (repository.find_active tenant_id opportunity_id t s)
  apply_decision tenant_id opportunity_id t id now d s (some f) = apply_finding t id now d f s

  -- The steps on what the policy returned.
  unfoldable pub decided :
      String
      → String
      → RiskType
      → Option String
      → Time
      → State
      → Result PolicyError Decision
      → State × Result Error Applied
  decided tenant_id opportunity_id t id now s (err e) = (s, err (of_policy e))
  decided tenant_id opportunity_id t id now s (ok d) =
      apply_decision tenant_id opportunity_id t id now d s d.finding

  -- The steps on the state that was read.
  unfoldable pub observed :
      Policy
      → Option String
      → Time
      → String
      → String
      → State
      → Result Error ConversationState
      → State × Result Error Applied
  observed policy id now tenant_id opportunity_id s (err e) = (s, err e)
  observed policy id now tenant_id opportunity_id s (ok state) =
      if not (str_eq state.tenant_id tenant_id) || not (str_eq state.opportunity_id opportunity_id)
      then (s, err Error.invalid_check)
      else decided tenant_id opportunity_id policy.risk_type id now s (policy.evaluate state now)

  -- `Apply` and, but for the decision, `EvaluateDue`.
  unfoldable pub apply :
      (String → String → Result Error ConversationState)
      → Policy
      → Option String
      → Time
      → String
      → String
      → State
      → State × Result Error Applied
  apply states policy id now tenant_id opportunity_id s =
      if is_empty tenant_id || is_empty opportunity_id
      then (s, err Error.invalid_check)
      else observed policy id now tenant_id opportunity_id s (states tenant_id opportunity_id)

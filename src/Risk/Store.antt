-- ===== src/Risk/Store.antt =====
-- The PostgreSQL store of risks (backend/internal/risk/infrastructure/postgres_repository.go), with the
-- outbox in which it announces a risk. A statement that commits is a function of the tables; what
-- other transactions commit between two statements of `UpsertActive` is an argument.

pub mod Rows
pub mod Columns
pub mod Laws
pub mod Active
pub mod Stored
pub mod Accepted
use Prim.Native.String.{count}
use lidradar.Prelude.{
  ℕ, zero, suc, String, Bool, true, false, not, ◌&&◌, ◌||◌, Option, none, some, if◌then◌else◌, leb,
  str_eq, any, Result, ok, err, ◌>>=◌, ◌>>◌, fail_if, List, [], ◌∷◌, ◌++◌,
}
use lidradar.Text.{is_empty}
use lidradar.Time.{Time, is_zero}
use lidradar.Float.{Float64}
use lidradar.Tables.{find, update_where}
use lidradar.Events.Event.{Event, new_event}
use lidradar.Events.Store.{append}
use lidradar.Risk.Aggregate.{RiskType, Severity, Status, Risk, active, validate, supported_type}

-- ErrInvalidRisk, or any other error, which a caller may retry.
pub data Error : Type 0 where
  invalid_risk failed : Error

pub record Tables : Type 0 where
  pub risks : List Risk
  pub events : List Event

-- The texts of the types.
unfoldable pub type_text : RiskType → String
type_text RiskType.no_response = "NO_RESPONSE"
type_text RiskType.booking_not_confirmed = "BOOKING_NOT_CONFIRMED"
type_text RiskType.promise_not_fulfilled = "PROMISE_NOT_FULFILLED"
type_text RiskType.customer_silent_after_price = "CUSTOMER_SILENT_AFTER_PRICE"
type_text RiskType.follow_up_candidate = "FOLLOW_UP_CANDIDATE"
type_text RiskType.unfinished_agreement = "UNFINISHED_AGREEMENT"
type_text (RiskType.other s) = s

-- The condition on a row of the partial unique index on active risks, which all three operations use.
unfoldable pub active_at : String → String → RiskType → Risk → Bool
unfolding active type_text
active_at tenant_id opportunity_id t r =
    active r
    && str_eq r.tenant_id tenant_id
    && str_eq r.opportunity_id opportunity_id
    && str_eq (type_text r.risk_type) (type_text t)

abbrev pub has_id : String → Risk → Bool
has_id id r = str_eq r.id id

-- The CHECKs on lengths, which `Validate` does not make.
unfoldable pub lengths_ok : Risk → Bool
lengths_ok c = leb (count c.reason) 2000 && leb (count c.policy_version) 100

-- `FindActive`.
unfoldable pub find_active : String → String → RiskType → Tables → Result Error (Option Risk)
unfolding supported_type active_at find
find_active tenant_id opportunity_id t s = do
  fail_if (is_empty tenant_id || is_empty opportunity_id || not (supported_type t))
      Error.invalid_risk
  elim (find (active_at tenant_id opportunity_id t) s.risks) [
    | none ↦ ok none
    | some r ↦ if validate r then ok (some r) else err Error.invalid_risk
  ]

unfoldable pub resolved_row : Time → Risk → Risk
resolved_row at r = record r { status = Status.resolved; resolved_at = some at; updated_at = at }

-- `ResolveActive`: whether a row was written, and the tables.
unfoldable pub resolve_active :
    String → String → RiskType → Time → Tables → Result Error (Bool × Tables)
unfolding supported_type active_at update_where resolved_row
resolve_active tenant_id opportunity_id t at s = do
  fail_if (is_empty tenant_id || is_empty opportunity_id || not (supported_type t) || is_zero at)
      Error.invalid_risk
  ok (
    any (active_at tenant_id opportunity_id t) s.risks,
    record s {
      risks = update_where (active_at tenant_id opportunity_id t) (resolved_row at) s.risks;
    },
  )

-- The columns that the UPDATE of `UpsertActive` sets; a confidence is stored with three decimals, by
-- `rounded`.
unfoldable pub updated_row : Risk → Risk → Risk
updated_row c r = record r {
  location_id = c.location_id;
  severity = c.severity;
  reason_code = c.reason_code;
  reason = c.reason;
  confidence = c.confidence;
  source = c.source;
  policy_version = c.policy_version;
  ai_run_id = c.ai_run_id;
  trigger_message_id = c.trigger_message_id;
  detected_at = c.detected_at;
  due_at = c.due_at;
  updated_at = c.updated_at;
}

-- The row that the INSERT makes.
unfoldable pub opened_row : Risk → Risk
opened_row c = record c {
  status = Status.opened;
  acknowledged_at = none;
  acted_at = none;
  resolved_at = none;
}

-- What the columns keep of a candidate.
abbrev pub stored_confidence : (Float64 → Float64) → Option Float64 → Option Float64
stored_confidence rounded none = none
stored_confidence rounded (some c) = some (rounded c)

unfoldable pub columns : (Float64 → Float64) → Risk → Risk
columns rounded c = record c { confidence = stored_confidence rounded c.confidence }

-- `known` says whether the rows exist that the foreign keys of a risk name.
module _ (known : Risk → Bool) where
  -- The UPDATE, whose row is read after it is written.
  unfoldable pub update_found : Risk → Tables → Option Risk → Tables × Result Error (Option Risk)
  unfolding active_at update_where updated_row lengths_ok
  update_found c s none = (s, ok none)
  update_found c s (some r) =
      if not (lengths_ok c && known c) then (s, err Error.invalid_risk) else (
        record s {
          risks =
              update_where (active_at c.tenant_id c.opportunity_id c.risk_type) (updated_row c)
                s.risks;
        },
        if validate (updated_row c r) then ok (some (updated_row c r)) else err Error.invalid_risk,
      )

  unfoldable pub update : Risk → Tables → Tables × Result Error (Option Risk)
  unfolding find update_found active_at
  update c s = update_found c s (find (active_at c.tenant_id c.opportunity_id c.risk_type) s.risks)

-- What a round of `UpsertActive` does with the answers of its statements.
unfoldable pub after_update :
    Tables × Result Error (Option Risk)
    → (Tables → Tables × Result Error (Risk × Bool))
    → Tables × Result Error (Risk × Bool)
after_update (t, err e) next = (t, err e)
after_update (t, ok (some r)) next = (t, ok (r, false))
after_update (t, ok none) next = next t

unfoldable pub after_insert :
    Tables
    → Result Error (Option (Risk × Tables))
    → (Unit {0} → Tables × Result Error (Risk × Bool))
    → Tables × Result Error (Risk × Bool)
after_insert s (err e) blocked = (s, err e)
after_insert s (ok (some (r, t))) blocked = (t, ok (r, true))
after_insert s (ok none) blocked = blocked tt

-- `opened_data` is the JSON text of `riskOpenedEventData`.
module _ (json_object : String → Bool) (same_data : String → String → Bool)
    (opened_data : String → String → String → RiskType → Severity → String) where
  -- What `appendOpenedEvent` does with the event that NewEvent made, if it made one.
  unfoldable pub append_made : Option Event → List Event → Result Error (List Event)
  append_made none es = err Error.failed
  append_made (some e) es = elim (append json_object same_data e es) [
    | err _ ↦ err Error.failed
    | ok (_, _, after) ↦ ok after
  ]

  -- `appendOpenedEvent`: the outbox after it.
  unfoldable pub append_opened : Risk → List Event → Result Error (List Event)
  append_opened r es =
      append_made
        (new_event json_object r.id "risk.opened" 1 r.tenant_id "risk" r.id r.id
          (opened_data r.id r.opportunity_id r.location_id r.risk_type r.severity) r.detected_at)
        es

module _ (json_object : String → Bool) (same_data : String → String → Bool) (known : Risk → Bool)
    (opened_data : String → String → String → RiskType → Severity → String) where
  -- The transaction of the INSERT: nothing where an active risk is in the way.
  unfoldable pub insert : Risk → Tables → Result Error (Option (Risk × Tables))
  unfolding lengths_ok active_at opened_row append_opened
  insert c s = do
    fail_if (not (lengths_ok c)) Error.invalid_risk
    if any (active_at c.tenant_id c.opportunity_id c.risk_type) s.risks then ok none else do
      fail_if (any (has_id c.id) s.risks) Error.failed
      fail_if (not (known c)) Error.invalid_risk
      fail_if (not (validate (opened_row c))) Error.invalid_risk
      events ← append_opened json_object same_data opened_data (opened_row c) s.events
      ok (some (opened_row c, record { risks = s.risks ++ opened_row c ∷ []; events = events }))

  -- The rounds of `UpsertActive`; `before` and `behind` are what others commit ahead of the UPDATE
  -- and ahead of the next round.
  module _ (before behind : ℕ → Tables → Tables) where
    unfoldable pub upsert_rounds : ℕ → Risk → Tables → Tables × Result Error (Risk × Bool)
    upsert_rounds zero c s = (s, err Error.failed)
    upsert_rounds (suc n) c s =
        after_insert s (insert c s)
          (λ _. after_update (update known c (before n s)) (λ t. upsert_rounds n c (behind n t)))

    -- `UpsertActive`: the tables, and the stored risk with whether it is new.
    unfoldable pub upsert_active :
        (Float64 → Float64) → Risk → Tables → Tables × Result Error (Risk × Bool)
    upsert_active rounded c s =
        if not (active c) || not (validate c)
        then (s, err Error.invalid_risk)
        else upsert_rounds 3 (columns rounded c) s

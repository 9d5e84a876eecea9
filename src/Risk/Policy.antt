-- ===== src/Risk/Policy.antt =====
-- What the policies read and decide: the state of a conversation, the signals of AI, and the
-- decision (backend/internal/risk/domain/risk.go and the signal types beside the policies).
pub mod NoResponse
pub mod BookingNotConfirmed
pub mod CustomerSilentAfterPrice
pub mod FollowUpCandidate
pub mod PromisedTime
pub mod Agreements
pub mod PromiseNotFulfilled
pub mod UnfinishedAgreement
use lidradar.Prelude.{
  ℕ, ◌%◌, ◌*◌, String, Bool, true, false, not, ◌&&◌, ◌||◌, Option, none, some, List, [], ◌∷◌,
  if◌then◌else◌, str_eq, ltb, leb, ◌==◌, Result, ok, err,
}
use lidradar.Text.{is_empty}
use lidradar.Time.{Time, Duration, pos, negsuc, is_zero, minute_ns}
use lidradar.Float.{Float64}
use lidradar.Risk.BusinessTime.{BusinessHours}
use lidradar.Risk.Aggregate.{RiskType, Finding}

pub data Error : Type 0 where
  invalid_risk invalid_business_hours : Error

pub data Direction : Type 0 where
  incoming outgoing : Direction
  other : String → Direction

pub record MessageRef : Type 0 where
  pub id : String
  pub at : Time

pub record ActiveRiskSnapshot : Type 0 where
  pub trigger_message_id : String
  pub trigger_at : Time
  pub outgoing_after_trigger : Bool
  pub incoming_after_trigger : Bool

pub record BookingIntentSignal : Type 0 where
  pub value : Bool
  pub confidence : Float64
  pub ai_run_id : String
  pub evidence_message_id : String
  pub evidence_at : Time

pub record PriceSignal : Type 0 where
  pub value : Bool
  pub confidence : Float64
  pub ai_run_id : String
  pub amount : String
  pub currency : String
  pub evidence_message_id : String
  pub evidence_at : Time
  pub incoming_after : Bool

pub record FollowUpSignal : Type 0 where
  pub value : Bool
  pub confidence : Float64
  pub ai_run_id : String
  pub evidence_message_id : String
  pub evidence_at : Time
  pub incoming_after : Bool

pub record CommitmentSignal : Type 0 where
  pub value : Bool
  pub confidence : Float64
  pub ai_run_id : String
  pub evidence_message_id : String
  pub evidence_at : Time
  pub evidence_text : String
  pub followed_up : Bool

pub record AgreementSignal : Type 0 where
  pub superseded : Bool
  pub evidence_message_ids : List String
  pub kind : String
  pub waiting_for : String
  pub status : String
  pub trigger_message_id : String
  pub trigger_at : Time
  pub trigger_text : String
  pub confidence : Float64
  pub ai_run_id : String

pub record ConversationState : Type 0 where
  pub tenant_id : String
  pub opportunity_id : String
  pub location_id : String
  pub active_opportunity : Bool
  pub last_meaningful_id : String
  pub last_meaningful_at : Time
  pub last_meaningful : Direction
  pub response_threshold : Duration
  pub agreement_threshold : Duration
  pub business_hours : BusinessHours
  pub agreements_current : Bool
  pub v2_snapshot_unavailable : Bool
  pub agreements : List AgreementSignal
  pub opportunity_stage : String
  pub booking_intent : Option BookingIntentSignal
  pub commitment : Option CommitmentSignal
  pub price : Option PriceSignal
  pub follow_up : Option FollowUpSignal
  pub last_outgoing : Option MessageRef
  pub last_incoming : Option MessageRef
  pub latest_outcome : String
  -- The Go maps, by their lookups.
  pub active_risks : RiskType → Option ActiveRiskSnapshot
  pub closed_agreement_triggers : RiskType → String → Bool

pub record Decision : Type 0 where
  pub finding : Option Finding
  pub due_at : Time
  pub trigger_message_id : String
  pub policy_version : String
  pub next_due_at : Time
  pub next_check_suffix : String
  pub resolve : Bool

-- `Decision{}`, `Decision{Resolve: b}` and a decision on a due moment of a message.
abbrev pub no_decision : Decision
no_decision = record {
  finding = none;
  due_at = 0;
  trigger_message_id = "";
  policy_version = "";
  next_due_at = 0;
  next_check_suffix = "";
  resolve = false;
}

abbrev pub resolving : Bool → Decision
resolving b = record no_decision { resolve = b }

abbrev pub planned : Time → String → Bool → Decision
planned due trigger b = record no_decision {
  due_at = due;
  trigger_message_id = trigger;
  resolve = b;
}

unfoldable pub is_incoming : Direction → Bool
is_incoming Direction.incoming = true
is_incoming _ = false

unfoldable pub is_outgoing : Direction → Bool
is_outgoing Direction.outgoing = true
is_outgoing _ = false

-- A threshold is a whole number of minutes, from one to 1440.
unfoldable pub threshold_ok : Duration → Bool
threshold_ok (pos n) = not (ltb n minute_ns || ltb (1440 * minute_ns) n || not (n % minute_ns == 0))
threshold_ok (negsuc n) = false

-- `validateState`: true where it returns nil.
unfoldable pub state_ok : ConversationState → Bool
unfolding is_incoming is_outgoing threshold_ok
state_ok s = not (
    is_empty s.tenant_id
    || is_empty s.opportunity_id
    || is_empty s.location_id
    || is_empty s.last_meaningful_id
    || is_zero s.last_meaningful_at
    || not (threshold_ok s.response_threshold)
    || not (is_incoming s.last_meaningful || is_outgoing s.last_meaningful))

-- An answer of the schedule, or its error.
abbrev pub in_hours : {A : Type 0} → Option A → Result Error A
in_hours none = err Error.invalid_business_hours
in_hours (some a) = ok a

-- The stages that end every rule but NO_RESPONSE and the rules on agreements.
unfoldable pub stage_over : String → Bool
stage_over stage =
    str_eq stage "BOOKED" || str_eq stage "WON" || str_eq stage "LOST" || str_eq stage "ARCHIVED"

-- `CustomerRejected`.
unfoldable pub customer_rejected : String → Bool
customer_rejected outcome = str_eq outcome "LOST" || str_eq outcome "NOT_A_LEAD"

-- `BookingRiskEligible`.
unfoldable pub booking_risk_eligible : String → Bool
booking_risk_eligible stage =
    str_eq stage "QUALIFYING"
    || str_eq stage "PRICE_SENT"
    || str_eq stage "WAITING_CUSTOMER"
    || str_eq stage "WAITING_BUSINESS"
    || str_eq stage "BOOKING_INTENT"

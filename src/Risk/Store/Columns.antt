-- ===== src/Risk/Store/Columns.antt =====
-- What the store writes of a candidate and what the methods of the aggregate make of a row agree.
use lidradar.Prelude.{
  ◌≡◌, refl, sym, ap, String, Bool, true, false, ◌&&◌, Option, none, some, arith, str_eq,
}
use lidradar.Time.{Time, is_zero}
use lidradar.Float.{Float64, outside_unit}
use lidradar.Tables.Apart.{text_eq_symm}
use lidradar.Risk.Aggregate.{
  RiskType, Source, Risk, Finding, active, validate, incomplete, source_ok, refresh, resolve,
  refreshed, evidence_ok,
}
use lidradar.Risk.Store.{
  active_at, updated_row, resolved_row, columns, stored_confidence, type_text,
}
use lidradar.Risk.Store.Rows.{Valid}

-- A number of the unit interval stays there when it is stored with three decimals.
abbrev pub KeepsUnit : (Float64 → Float64) → Type 0
KeepsUnit rounded = (x : Float64) → outside_unit x ≡ false → outside_unit (rounded x) ≡ false

evidence_ok-stored :
    (rounded : Float64 → Float64) (c : Option Float64) (run : Option String)
    → KeepsUnit rounded
    → evidence_ok c run ≡ true
    → evidence_ok (stored_confidence rounded c) run ≡ true
unfolding evidence_ok
evidence_ok-stored rounded none run k h = cc
evidence_ok-stored rounded (some c) none k h = cc
evidence_ok-stored rounded (some c) (some run) k h = ground (arith, k c)

source_ok-stored :
    (rounded : Float64 → Float64) (t : RiskType) (s : Source) (c : Option Float64)
    (run : Option String)
    → KeepsUnit rounded
    → source_ok t s c run ≡ true
    → source_ok t s (stored_confidence rounded c) run ≡ true
unfolding source_ok
source_ok-stored rounded t Source.rule none run k h = h
source_ok-stored rounded t Source.rule (some c) run k h = h
source_ok-stored rounded t Source.manual none run k h = h
source_ok-stored rounded t Source.manual (some c) run k h = h
source_ok-stored rounded t Source.hybrid c run k h =
    ground (arith, evidence_ok-stored rounded c run k)
source_ok-stored rounded t (Source.other _) c run k h = h

pub columns-Valid :
    (rounded : Float64 → Float64) (c : Risk)
    → KeepsUnit rounded
    → Valid c
    → Valid (columns rounded c)
unfolding columns incomplete
columns-Valid rounded c k v = record {
  complete = v.complete;
  updated = v.updated;
  severity_good = v.severity_good;
  source_good =
      source_ok-stored rounded c.risk_type c.source c.confidence c.ai_run_id k v.source_good;
  stamps_good = v.stamps_good;
}

-- The finding of a candidate.
abbrev pub finding_of : Risk → Finding
finding_of c = record {
  tenant_id = c.tenant_id;
  opportunity_id = c.opportunity_id;
  location_id = c.location_id;
  trigger_message_id = c.trigger_message_id;
  severity = c.severity;
  policy_version = c.policy_version;
  reason_code = c.reason_code;
  reason = c.reason;
  due_at = c.due_at;
  source = c.source;
  confidence = c.confidence;
  ai_run_id = c.ai_run_id;
}

at_key : (a b c d : Bool) → a && b && c && d ≡ true → (a ≡ true) × (b ≡ true) × (c ≡ true)
at_key a b c d h = ground arith

refreshed-updated_row :
    (c r : Risk)
    → c.detected_at ≡ c.updated_at
    → refreshed r (finding_of c) c.updated_at ≡ updated_row c r
unfolding refreshed updated_row
refreshed-updated_row c r e =
    ap (λ (t : Time). record (updated_row c r) { detected_at = t }) (sym e)

-- What the UPDATE of `UpsertActive` writes to an active row is what `Risk.Refresh` makes of it.
pub updated_row-refresh :
    (c r : Risk)
    → is_zero c.updated_at ≡ false
    → c.detected_at ≡ c.updated_at
    → active_at c.tenant_id c.opportunity_id c.risk_type r ≡ true
    → refresh r (finding_of c) c.updated_at ≡ (updated_row c r, validate (updated_row c r))
unfolding refresh active_at
updated_row-refresh c r z e h =
    let (a, t, o) =
      at_key (active r) (str_eq r.tenant_id c.tenant_id) (str_eq r.opportunity_id c.opportunity_id)
        (str_eq (type_text r.risk_type) (type_text c.risk_type)) h in
    rw
      (
        a,
        text_eq_symm c.tenant_id r.tenant_id,
        t,
        text_eq_symm c.opportunity_id r.opportunity_id,
        o,
        z,
        refreshed-updated_row c r e,
      )
      refl

-- What `ResolveActive` writes to an active row is what `Risk.Resolve` makes of it.
resolved_row-resolve :
    (at : Time) (r : Risk)
    → is_zero at ≡ false
    → active r ≡ true
    → resolve r at ≡ (resolved_row at r, true)
unfolding resolve resolved_row
resolved_row-resolve at r z a = rw (z, a) refl

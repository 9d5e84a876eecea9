-- ===== src/Risk/Store/Rows.antt =====
-- The rows of the store of risks: what each statement writes is valid, and is what the methods of the
-- aggregate make of the row.
use lidradar.Prelude.{
  ℕ, ◌≡◌, refl, sym, ap, subst, ◌∙◌, String, Bool, true, false, not, ◌||◌, str_eq, eq_iff, arith,
  if◌then◌else◌,
}
use lidradar.Text.{is_empty}
use lidradar.Time.{Time, is_zero}
use lidradar.Risk.Aggregate.{
  RiskType, Risk, validate, incomplete, severity_ok, source_ok, stamps_ok, supported_type,
}
use lidradar.Risk.Store.{type_text, opened_row, updated_row, resolved_row}

-- Which of the six types has a text.
unfoldable place : String → ℕ
place s =
    if str_eq s "NO_RESPONSE"
    then 0
    else (if str_eq s "BOOKING_NOT_CONFIRMED"
        then 1
        else (if str_eq s "PROMISE_NOT_FULFILLED"
            then 2
            else (if str_eq s "CUSTOMER_SILENT_AFTER_PRICE"
                then 3
                else (if str_eq s "FOLLOW_UP_CANDIDATE" then 4 else 5))))

rank_of : RiskType → ℕ
rank_of RiskType.no_response = 0
rank_of RiskType.booking_not_confirmed = 1
rank_of RiskType.promise_not_fulfilled = 2
rank_of RiskType.customer_silent_after_price = 3
rank_of RiskType.follow_up_candidate = 4
rank_of _ = 5

place-type_text : (t : RiskType) → supported_type t ≡ true → place (type_text t) ≡ rank_of t
unfolding place type_text rank_of supported_type
place-type_text RiskType.no_response h = refl
place-type_text RiskType.booking_not_confirmed h = refl
place-type_text RiskType.promise_not_fulfilled h = refl
place-type_text RiskType.customer_silent_after_price h = refl
place-type_text RiskType.follow_up_candidate h = refl
place-type_text RiskType.unfinished_agreement h = refl
place-type_text (RiskType.other s) h = cc

rank_of-injective :
    (t u : RiskType)
    → supported_type t ≡ true
    → supported_type u ≡ true
    → rank_of t ≡ rank_of u
    → t ≡ u
unfolding rank_of supported_type
rank_of-injective t u h k e = ground arith

supported-type_text :
    (t u : RiskType)
    → supported_type t ≡ true
    → supported_type u ≡ true
    → type_text t ≡ type_text u
    → t ≡ u
supported-type_text t u s s' h =
    rank_of-injective t u s s' (sym (place-type_text t s) ∙ ap place h ∙ place-type_text u s')

-- The pieces of a valid row.
pub record Valid (r : Risk) : Type 0 where
  pub complete : incomplete r ≡ false
  pub updated : is_zero r.updated_at ≡ false
  pub severity_good : severity_ok r.risk_type r.severity r.source ≡ true
  pub source_good : source_ok r.risk_type r.source r.confidence r.ai_run_id ≡ true
  pub stamps_good : stamps_ok r.status r.acknowledged_at r.acted_at r.resolved_at ≡ true

pub validate-Valid : (r : Risk) → validate r ≡ true → Valid r
unfolding validate
validate-Valid r v = ground arith

pub Valid-validate : (r : Risk) → Valid r → validate r ≡ true
unfolding validate
Valid-validate r v =
    ground (arith, v.complete, v.updated, v.severity_good, v.source_good, v.stamps_good)

incomplete-supported : (r : Risk) → incomplete r ≡ false → supported_type r.risk_type ≡ true
unfolding incomplete
incomplete-supported r h = ground arith

pub opened_row-Valid : (c : Risk) → Valid c → Valid (opened_row c)
unfolding opened_row incomplete stamps_ok
opened_row-Valid c v = record {
  complete = v.complete;
  updated = v.updated;
  severity_good = v.severity_good;
  source_good = v.source_good;
  stamps_good = refl;
}

pub resolved_row-Valid :
    (at : Time) (r : Risk) → is_zero at ≡ false → Valid r → Valid (resolved_row at r)
unfolding resolved_row incomplete stamps_ok
resolved_row-Valid at r z v = record {
  complete = v.complete;
  updated = z;
  severity_good = v.severity_good;
  source_good = v.source_good;
  stamps_good = refl;
}

-- The tests of `incomplete` on a row that keeps its keys and takes the rest of a candidate.
mixed_or :
    (h l t a b c d e f g i j h' l' t' : Bool)
    → h || l || t || a || b || c || d || e || f || g || i || j ≡ false
    → h' || l' || t' ≡ false
    → h' || l || t' || a || b || c || d || e || f || g || i || j ≡ false
mixed_or h l t a b c d e f g i j h' l' t' p q = ground arith

keys_or :
    (h l t a b c d e f g i j : Bool)
    → h || l || t || a || b || c || d || e || f || g || i || j ≡ false
    → h || l || t ≡ false
keys_or h l t a b c d e f g i j p = ground arith

incomplete-updated_row :
    (c r : Risk)
    → incomplete c ≡ false
    → incomplete r ≡ false
    → incomplete (updated_row c r) ≡ false
unfolding incomplete updated_row
incomplete-updated_row c r h k =
    mixed_or (is_empty c.id || is_empty c.tenant_id || is_empty c.opportunity_id) _ _ _ _ _ _ _ _ _
      _ _ (is_empty r.id || is_empty r.tenant_id || is_empty r.opportunity_id)
      (is_empty r.location_id) (not (supported_type r.risk_type)) h
      (keys_or (is_empty r.id || is_empty r.tenant_id || is_empty r.opportunity_id) _ _ _ _ _ _ _ _
        _ _ _ k)

pub updated_row-Valid :
    (c r : Risk)
    → Valid c
    → Valid r
    → str_eq (type_text r.risk_type) (type_text c.risk_type) ≡ true
    → Valid (updated_row c r)
unfolding updated_row
updated_row-Valid c r v w h =
    let same : c.risk_type ≡ r.risk_type =
      supported-type_text c.risk_type r.risk_type (incomplete-supported c v.complete)
        (incomplete-supported r w.complete)
        (sym ((eq_iff (type_text r.risk_type) (type_text c.risk_type)).0 h)) in
    record {
      complete = incomplete-updated_row c r v.complete w.complete;
      updated = v.updated;
      severity_good = subst (λ t. severity_ok t c.severity c.source ≡ true) same v.severity_good;
      source_good =
          subst (λ t. source_ok t c.source c.confidence c.ai_run_id ≡ true) same v.source_good;
      stamps_good = w.stamps_good;
    }

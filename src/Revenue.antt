-- ===== src/Revenue.antt =====
-- Confirmed revenue and what it is attributed to (backend/internal/revenue/domain/revenue.go).
pub mod Attributed
use Prim.Native.String.{len}
use lidradar.Prelude.{
  ℕ, ◌+◌, String, Bool, true, false, not, ◌&&◌, ◌||◌, Option, none, some, List, [], ◌∷◌,
  if◌then◌else◌, ltb, leb, ◌==◌, length,
}
use lidradar.Text.{is_empty, trim_space, is_digit, is_upper, codes, all_of}
use lidradar.Time.{Time, ℤ, negsuc, ltb_ℤ, is_zero}

pub data AttributionType : Type 0 where
  recovered organic unattributed : AttributionType
  other : String → AttributionType

-- The regular expressions of an amount: one to `most` digits, then nothing, or a point and one or two
-- digits; `seen` counts those read.
unfoldable pub fraction_ok : List ℕ → Bool
fraction_ok [] = true
fraction_ok (p ∷ []) = false
fraction_ok (p ∷ a ∷ []) = p == b'.' && is_digit a
fraction_ok (p ∷ a ∷ b ∷ []) = p == b'.' && is_digit a && is_digit b
fraction_ok _ = false

unfoldable pub digits_then : ℕ → ℕ → List ℕ → Bool
unfolding fraction_ok
digits_then most seen [] = leb 1 seen && leb seen most
digits_then most seen (c ∷ cs) =
    let more = digits_then most (seen + 1) cs in
    if is_digit c then more else leb 1 seen && leb seen most && fraction_ok (c ∷ cs)

-- `moneyPattern` and `aggregateMoneyPattern`.
unfoldable pub money_pattern : Bool → String → Bool
unfolding digits_then
money_pattern allow_zero raw = digits_then (if allow_zero then 18 else 12) 0 (codes raw)

-- `ValidCurrency`.
unfoldable pub valid_currency : String → Bool
valid_currency currency = len currency == 3 && all_of is_upper (codes currency)

-- What the code takes of package decimal: its values and the functions on them.
pub record Decimals (Money : Type 0) : Type 0 where
  pub of_string : String → Option Money
  pub is_negative : Money → Bool
  pub is_zero_value : Money → Bool
  pub exponent : Money → ℤ

pub record RevenueEvent (Money : Type 0) : Type 0 where
  pub id : String
  pub tenant_id : String
  pub opportunity_id : String
  pub amount : Money
  pub currency : String
  pub status : String
  pub source : String
  pub confirmed_by : String
  pub confirmed_at : Time

pub record RevenueAttribution : Type 0 where
  pub id : String
  pub tenant_id : String
  pub revenue_event_id : String
  pub opportunity_id : String
  pub attribution_type : AttributionType
  pub risk_id : String
  pub action_id : String
  pub outcome_id : String
  pub created_at : Time

-- Recovered revenue names the whole chain, and any other names none of it.
unfoldable pub chain_ok : AttributionType → String → String → String → Bool
chain_ok AttributionType.recovered risk action outcome =
    not (is_empty risk || is_empty action || is_empty outcome)
chain_ok (AttributionType.other _) risk action outcome = false
chain_ok _ risk action outcome =
    not (not (is_empty risk) || not (is_empty action) || not (is_empty outcome))

module _ {Money : Type 0} where
  -- `NewAttribution`.
  unfoldable pub new_attribution :
      String
      → RevenueEvent Money
      → AttributionType
      → String
      → String
      → String
      → Time
      → Option RevenueAttribution
  unfolding chain_ok
  new_attribution id event kind risk action outcome at =
      if is_empty id
        || is_empty event.id
        || is_empty event.tenant_id
        || is_empty event.opportunity_id
        || is_zero at
        || not (chain_ok kind risk action outcome)
      then none
      else some (record {
        id = id;
        tenant_id = event.tenant_id;
        revenue_event_id = event.id;
        opportunity_id = event.opportunity_id;
        attribution_type = kind;
        risk_id = risk;
        action_id = action;
        outcome_id = outcome;
        created_at = at;
      })

module _ {Money : Type 0} (decimals : Decimals Money) (to_upper : String → String) where
  -- The tests on the value of an amount.
  unfoldable pub amount_ok : Bool → Option Money → Option Money
  amount_ok allow_zero none = none
  amount_ok allow_zero (some value) =
      if decimals.is_negative value
        || not allow_zero && decimals.is_zero_value value
        || ltb_ℤ (decimals.exponent value) (negsuc 1)
      then none
      else some value

  -- `parseMoney`, behind `ParseMoney` and `ParseNonNegativeMoney`.
  unfoldable pub parse_money : Bool → String → Option Money
  unfolding money_pattern amount_ok
  parse_money allow_zero raw =
      if not (money_pattern allow_zero (trim_space raw))
      then none
      else amount_ok allow_zero (decimals.of_string (trim_space raw))

  unfoldable pub confirmed :
      String → String → String → String → String → Time → Option Money → Option (RevenueEvent Money)
  unfolding valid_currency
  confirmed id tenant opportunity currency actor at none = none
  confirmed id tenant opportunity currency actor at (some money) =
      if is_empty id
        || is_empty tenant
        || is_empty opportunity
        || is_empty actor
        || not (valid_currency currency)
        || is_zero at
      then none
      else some (record {
        id = id;
        tenant_id = tenant;
        opportunity_id = opportunity;
        amount = money;
        currency = currency;
        status = "CONFIRMED";
        source = "USER_CONFIRMED";
        confirmed_by = actor;
        confirmed_at = at;
      })

  -- `NewConfirmedEvent`.
  unfoldable pub new_confirmed_event :
      String → String → String → String → String → String → Time → Option (RevenueEvent Money)
  unfolding parse_money confirmed
  new_confirmed_event id tenant opportunity amount currency actor at =
      confirmed id tenant opportunity (to_upper (trim_space currency)) actor at
        (parse_money false amount)

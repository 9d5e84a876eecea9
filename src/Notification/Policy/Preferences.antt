-- ===== src/Notification/Policy/Preferences.antt =====
-- The preference of a recipient for one type of risk: its vocabulary, times of day and validation
-- (backend/internal/notification/domain/policy.go).
use lidradar.Prelude.{
  ℕ, ◌+◌, ◌*◌, ◌-◌, String, Bool, true, false, not, ◌&&◌, ◌||◌, Option, none, some, List, [], ◌∷◌,
  if◌then◌else◌, ltb, leb, ◌==◌, is_none,
}
use lidradar.Text.{is_empty, trim_space, is_digit, codes, joined, two_digits}
use lidradar.Time.{Time, is_zero, before}

pub data RiskType : Type 0 where
  no_response booking_not_confirmed promise_not_fulfilled : RiskType
  customer_silent_after_price follow_up_candidate unfinished_agreement : RiskType
  other : String → RiskType

unfoldable pub valid_risk_type : RiskType → Bool
valid_risk_type (RiskType.other _) = false
valid_risk_type _ = true

pub data Severity : Type 0 where
  low medium high critical : Severity
  other : String → Severity

-- `SeverityRank`.
unfoldable pub severity_rank : Severity → ℕ
severity_rank Severity.low = 1
severity_rank Severity.medium = 2
severity_rank Severity.high = 3
severity_rank Severity.critical = 4
severity_rank (Severity.other _) = 0

unfoldable pub valid_severity : Severity → Bool
unfolding severity_rank
valid_severity s = ltb 0 (severity_rank s)

pub data DeliveryMode : Type 0 where
  immediate digest disabled : DeliveryMode
  other : String → DeliveryMode

unfoldable valid_delivery_mode : DeliveryMode → Bool
valid_delivery_mode (DeliveryMode.other _) = false
valid_delivery_mode _ = true

unfoldable pub is_disabled : DeliveryMode → Bool
is_disabled DeliveryMode.disabled = true
is_disabled _ = false

-- No clock with a negative part is valid, so the parts are natural numbers.
pub record ClockTime : Type 0 where
  pub hour : ℕ
  pub minute : ℕ

unfoldable pub clock_valid : ClockTime → Bool
clock_valid c = leb c.hour 23 && leb c.minute 59

-- strconv.Atoi on a text of two bytes; a negative number is refused later, and so is none here.
unfoldable pub atoi : List ℕ → Option ℕ
atoi (a ∷ b ∷ []) =
    if is_digit a && is_digit b
    then some ((a - b'0') * 10 + (b - b'0'))
    else (if a == b'+' && is_digit b
        then some (b - b'0')
        else (if a == b'-' && b == b'0' then some 0 else none))
atoi _ = none

abbrev clock_of : Option ℕ → Option ℕ → Option ClockTime
clock_of (some h) (some m) =
    if clock_valid (record { hour = h; minute = m })
    then some (record { hour = h; minute = m })
    else none
clock_of _ _ = none

-- strings.Split at a colon, for a text of five bytes, in code points; a part of two bytes that is
-- not ASCII is no number.
unfoldable parse_codes : List ℕ → Option ClockTime
unfolding atoi clock_valid
parse_codes (a ∷ b ∷ c ∷ d ∷ e ∷ []) =
    if c == b':' then clock_of (atoi (a ∷ b ∷ [])) (atoi (d ∷ e ∷ [])) else none
parse_codes _ = none

-- `ParseClockTime`.
unfoldable parse_clock_time : String → Option ClockTime
unfolding parse_codes
parse_clock_time value = parse_codes (codes (trim_space value))

-- `ClockTime.String`.
unfoldable clock_string : ClockTime → String
clock_string c = joined (two_digits c.hour ∷ ":" ∷ two_digits c.minute ∷ [])

unfoldable pub minutes : ClockTime → ℕ
minutes c = c.hour * 60 + c.minute

unfoldable default_delivery_mode : RiskType → DeliveryMode
default_delivery_mode RiskType.customer_silent_after_price = DeliveryMode.digest
default_delivery_mode RiskType.follow_up_candidate = DeliveryMode.digest
default_delivery_mode RiskType.unfinished_agreement = DeliveryMode.digest
default_delivery_mode _ = DeliveryMode.immediate

pub record Preference : Type 0 where
  pub id : String
  pub tenant_id : String
  pub user_id : String
  pub risk_type : RiskType
  pub minimum_severity : Severity
  pub delivery_mode : DeliveryMode
  pub in_app_enabled : Bool
  pub telegram_enabled : Bool
  pub quiet_hours_enabled : Bool
  pub quiet_hours_start : Option ClockTime
  pub quiet_hours_end : Option ClockTime
  pub digest_time : ClockTime
  pub created_at : Time
  pub updated_at : Time

-- `DefaultPreference`.
unfoldable default_preference : String → String → RiskType → Preference
unfolding default_delivery_mode
default_preference tenant_id user_id risk_type = record {
  id = "";
  tenant_id = tenant_id;
  user_id = user_id;
  risk_type = risk_type;
  minimum_severity = Severity.low;
  delivery_mode = default_delivery_mode risk_type;
  in_app_enabled = true;
  telegram_enabled = true;
  quiet_hours_enabled = false;
  quiet_hours_start = some (record { hour = 22; minute = 0 });
  quiet_hours_end = some (record { hour = 8; minute = 0 });
  digest_time = record { hour = 9; minute = 0 };
  created_at = 0;
  updated_at = 0;
}

-- The checks of the quiet hours: both ends or none, valid and apart.
unfoldable pub quiet_ok : Option ClockTime → Option ClockTime → Bool
unfolding clock_valid
quiet_ok none none = true
quiet_ok (some s) (some e) =
    clock_valid s && clock_valid e && not (s.hour == e.hour && s.minute == e.minute)
quiet_ok _ _ = false

unfoldable pub names_ok : Preference → Bool
unfolding valid_risk_type valid_severity valid_delivery_mode
names_ok p = not (
    is_empty p.tenant_id
    || is_empty p.user_id
    || not (valid_risk_type p.risk_type)
    || not (valid_severity p.minimum_severity)
    || not (valid_delivery_mode p.delivery_mode))

-- A stored preference has its times.
unfoldable pub times_ok : Preference → Bool
times_ok p =
    is_empty p.id
    || not (is_zero p.created_at || is_zero p.updated_at || before p.updated_at p.created_at)

-- `Preference.Validate`: true where it returns nil.
unfoldable pub validate : Preference → Bool
unfolding names_ok times_ok clock_valid quiet_ok
validate p =
    names_ok p
    && clock_valid p.digest_time
    && quiet_ok p.quiet_hours_start p.quiet_hours_end
    && not (p.quiet_hours_enabled && is_none p.quiet_hours_start)
    && times_ok p

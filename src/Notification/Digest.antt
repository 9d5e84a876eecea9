-- ===== src/Notification/Digest.antt =====
-- The queue of what is deferred to a slot, and the text of a digest
-- (backend/internal/notification/domain/digest.go).
pub mod Lines
pub mod Size
pub mod Queue
use Prim.Native.String.{count}
use lidradar.Prelude.{
  ℕ, ◌+◌, ◌-◌, suc, zero, String, Bool, true, false, not, ◌&&◌, ◌||◌, Option, none, some, List, [],
  ◌∷◌, ◌++◌, length, if◌then◌else◌, ltb, ◌==◌, str_eq, is_none,
}
use lidradar.Text.{is_empty, trim_space, take_runes, decimal, joined}
use lidradar.Time.{Time, is_zero, before, Location}
use lidradar.Notification.Policy.{
  RiskType, Severity, DeferReason, PolicyDecision, valid_risk_type, is_immediate,
}
use lidradar.Notification.Fact.{valid_slot}

pub record DigestItem : Type 0 where
  pub id : String
  pub tenant_id : String
  pub user_id : String
  pub risk_id : String
  pub risk_type : RiskType
  pub reason : DeferReason
  pub slot : String
  pub deliver_at : Time
  pub in_app : Bool
  pub telegram : Bool
  pub notification_id : String
  pub consumed_at : Option Time
  pub created_at : Time

unfoldable pub reason_ok : DeferReason → Bool
reason_ok (DeferReason.other _) = false
reason_ok _ = true

unfoldable pub consumed_ok : String → Option Time → Time → Bool
consumed_ok notification_id none created_at = is_empty notification_id
consumed_ok notification_id (some at) created_at = not (before at created_at)

-- `DigestItem.Validate`: true where it returns nil.
unfoldable pub validate_item : DigestItem → Bool
unfolding reason_ok consumed_ok valid_risk_type
validate_item i =
    not (
      is_empty i.id
      || is_empty i.tenant_id
      || is_empty i.user_id
      || is_empty i.risk_id
      || not (valid_risk_type i.risk_type)
      || not (reason_ok i.reason)
      || not (valid_slot i.slot)
      || is_zero i.deliver_at
      || not i.in_app && not i.telegram
      || is_zero i.created_at)
    && consumed_ok i.notification_id i.consumed_at i.created_at

-- `NewDigestItem`.
unfoldable pub new_digest_item :
    String → String → String → String → RiskType → PolicyDecision → Time → Option DigestItem
unfolding validate_item is_immediate
new_digest_item id tenant_id user_id risk_id risk_type d at =
    let i : DigestItem = record {
      id = id;
      tenant_id = tenant_id;
      user_id = user_id;
      risk_id = risk_id;
      risk_type = risk_type;
      reason = d.reason;
      slot = d.slot;
      deliver_at = d.deliver_at;
      in_app = d.in_app;
      telegram = d.telegram;
      notification_id = "";
      consumed_at = none;
      created_at = at;
    } in
    if not d.deliver || is_immediate d then none else (if validate_item i then some i else none)

pub record DigestEntry : Type 0 where
  pub item : DigestItem
  pub severity : Severity
  pub status : String
  pub contact : String
  pub detected_at : Time

-- `DigestEntry.Active`.
unfoldable pub entry_active : DigestEntry → Bool
entry_active e = str_eq e.status "OPEN" || str_eq e.status "ACKNOWLEDGED" || str_eq e.status "ACTED"

-- `digestMaxLines` and `digestContactMax`.
abbrev pub digest_max_lines : ℕ
digest_max_lines = 15

abbrev pub digest_contact_max : ℕ
digest_contact_max = 40

unfoldable pub risk_type_label : RiskType → String
risk_type_label RiskType.no_response = "клиент ждёт ответа"
risk_type_label RiskType.booking_not_confirmed = "запись не подтверждена"
risk_type_label RiskType.promise_not_fulfilled = "обещание не выполнено"
risk_type_label RiskType.customer_silent_after_price = "клиент молчит после цены"
risk_type_label RiskType.follow_up_candidate = "стоит напомнить о себе"
risk_type_label RiskType.unfinished_agreement = "договорённость не завершена"
risk_type_label (RiskType.other name) = name

unfoldable pub severity_label : Severity → String
severity_label Severity.critical = "Критический"
severity_label Severity.high = "Высокий"
severity_label Severity.medium = "Средний"
severity_label Severity.low = "Низкий"
severity_label (Severity.other name) = name

-- The contact of a line: its first forty characters, or a word in its place.
unfoldable pub short_contact : String → String
short_contact contact =
    if ltb digest_contact_max (count contact)
    then joined (take_runes digest_contact_max contact ∷ "…" ∷ [])
    else contact

unfoldable pub contact_of : DigestEntry → String
unfolding short_contact
contact_of e =
    short_contact (if is_empty (trim_space e.contact) then "клиент" else trim_space e.contact)

abbrev pub is_quiet : DeferReason → Bool
is_quiet DeferReason.quiet_hours = true
is_quiet _ = false

unfoldable pub all_quiet : List DigestEntry → Bool
all_quiet [] = true
all_quiet (e ∷ es) = is_quiet e.item.reason && all_quiet es

-- The title of `ComposeDigest`.
unfoldable pub digest_title : List DigestEntry → String
unfolding all_quiet
digest_title es =
    if ltb 0 (length es) && all_quiet es
    then joined ("Риски за тихие часы: " ∷ decimal (length es) ∷ [])
    else joined ("Сводка рисков: " ∷ decimal (length es) ∷ [])

-- The moment of a line is printed by `time.Format` in the location: a parameter.
module _ (format_detected : Time → String) where
  unfoldable pub line_of : ℕ → DigestEntry → String
  unfolding severity_label risk_type_label contact_of
  line_of index e = joined (
      decimal (index + 1)
      ∷ ". "
      ∷ severity_label e.severity
      ∷ " · "
      ∷ risk_type_label e.item.risk_type
      ∷ ": "
      ∷ contact_of e
      ∷ ", с "
      ∷ format_detected e.detected_at
      ∷ "\n"
      ∷ [])

  -- The loop over the entries; `room` is how many lines it still may print.
  unfoldable pub digest_lines : ℕ → ℕ → List DigestEntry → List String
  unfolding line_of
  digest_lines room index [] = []
  digest_lines zero index (e ∷ es) =
      joined ("…и ещё " ∷ decimal (length (e ∷ es)) ∷ ".\n" ∷ []) ∷ []
  digest_lines (suc room) index (e ∷ es) = line_of index e ∷ digest_lines room (index + 1) es

  -- The body of `ComposeDigest`.
  unfoldable pub digest_body : List DigestEntry → String
  unfolding digest_lines
  digest_body es =
      joined (digest_lines digest_max_lines 0 es ++ "\nОткройте Radar для подробностей." ∷ [])

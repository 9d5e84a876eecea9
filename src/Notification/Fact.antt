-- ===== src/Notification/Fact.antt =====
-- Logical notifications and the single attempts to deliver them
-- (backend/internal/notification/domain/notification.go).
pub mod Keys
mod Names
unfoldable pub use Names.*
use Prim.Native.String.{len}
use lidradar.Prelude.{
  ℕ, String, Bool, true, false, not, ◌&&◌, ◌||◌, Option, none, some, List, [], ◌∷◌, if◌then◌else◌,
  ltb, leb, ◌==◌, str_eq, is_some, is_none,
}
use lidradar.Text.{is_empty, trim_space, is_digit, codes, joined, has_prefix, trim_prefix}
use lidradar.Time.{Time, is_zero, before}

pub record Notification : Type 0 where
  pub id : String
  pub tenant_id : String
  pub user_id : String
  pub risk_id : String
  pub dedup_key : String
  pub kind : Kind
  pub title : String
  pub body : String
  pub snoozed_at : Option Time
  pub created_at : Time
  pub updated_at : Time

-- `Notification.Slot`.
abbrev pub digest_prefix : String → String
digest_prefix user_id = joined ("digest:user:" ∷ user_id ∷ ":" ∷ [])

unfoldable pub slot_of : Notification → String
slot_of n =
    if not (is_digest n.kind)
    then ""
    else (if not (has_prefix n.dedup_key (digest_prefix n.user_id))
        then ""
        else trim_prefix n.dedup_key (digest_prefix n.user_id))

-- The bounds on a title and a body, in bytes.
unfoldable pub text_ok : String → String → Bool
text_ok title body =
    not (ltb (len title) 1 || ltb 200 (len title) || ltb (len body) 1 || ltb 2000 (len body))

-- The switch on the kind at the end of `Validate`.
unfoldable pub kind_ok : Notification → Kind → Bool
unfolding risk_opened_dedup_key risk_escalated_dedup_key slot_of valid_slot
kind_ok n Kind.risk_opened =
    not (is_empty n.risk_id) && str_eq n.dedup_key (risk_opened_dedup_key n.risk_id n.user_id)
kind_ok n Kind.risk_escalated =
    not (is_empty n.risk_id) && str_eq n.dedup_key (risk_escalated_dedup_key n.risk_id n.user_id)
kind_ok n Kind.risk_digest = is_empty n.risk_id && valid_slot (slot_of n)
kind_ok n (Kind.other _) = false

-- `Notification.Validate`: true where it returns nil.
unfoldable pub validate : Notification → Bool
unfolding text_ok kind_ok
validate n =
    not (
      is_empty n.id
      || is_empty n.tenant_id
      || is_empty n.user_id
      || is_zero n.created_at
      || is_zero n.updated_at
      || before n.updated_at n.created_at)
    && text_ok n.title n.body
    && kind_ok n n.kind

abbrev checked : Notification → Option Notification
checked n = if validate n then some n else none

-- `newRiskNotification`, behind `NewNotification` and `NewEscalation`.
unfoldable pub new_risk_notification :
    Kind → String → String → String → String → String → String → Time → Option Notification
unfolding validate
new_risk_notification kind id tenant_id user_id risk_id title body at = checked (record {
  id = id;
  tenant_id = tenant_id;
  user_id = user_id;
  risk_id = risk_id;
  dedup_key = elim kind [
    | Kind.risk_escalated ↦ risk_escalated_dedup_key risk_id user_id
    | _ ↦ risk_opened_dedup_key risk_id user_id
  ];
  kind = kind;
  title = trim_space title;
  body = trim_space body;
  snoozed_at = none;
  created_at = at;
  updated_at = at;
})

-- The fact that `NewDigest` builds.
unfoldable pub digest_fact :
    String → String → String → String → String → String → Time → Notification
unfolding digest_dedup_key
digest_fact id tenant_id user_id slot title body at = record {
  id = id;
  tenant_id = tenant_id;
  user_id = user_id;
  risk_id = "";
  dedup_key = digest_dedup_key user_id slot;
  kind = Kind.risk_digest;
  title = trim_space title;
  body = trim_space body;
  snoozed_at = none;
  created_at = at;
  updated_at = at;
}

unfoldable pub new_digest :
    String → String → String → String → String → String → Time → Option Notification
unfolding digest_fact validate
new_digest id tenant_id user_id slot title body at =
    checked (digest_fact id tenant_id user_id slot title body at)

pub record Delivery : Type 0 where
  pub id : String
  pub notification_id : String
  pub tenant_id : String
  pub destination : String
  pub title : String
  pub body : String
  pub kind : Kind
  pub channel : Channel
  pub attempt : ℕ
  pub status : DeliveryStatus
  pub available_at : Time
  pub leased_by : Option String
  pub lease_until : Option Time
  pub attempted_at : Option Time
  pub provider_message_id : String
  pub failure_code : String
  pub created_at : Time
  pub updated_at : Time

-- `Delivery.Actions`.
unfoldable pub actions : Delivery → Bool
actions d = not (is_digest d.kind)

unfoldable pub owned : Option String → Bool
owned none = false
owned (some owner) = not (is_empty (trim_space owner))

-- The switch on the status at the end of `Delivery.Validate`.
unfoldable pub status_ok : Delivery → DeliveryStatus → Bool
unfolding owned
status_ok d DeliveryStatus.pending =
    is_none d.leased_by
    && is_none d.lease_until
    && is_none d.attempted_at
    && is_empty d.provider_message_id
    && is_empty d.failure_code
status_ok d DeliveryStatus.retry =
    is_none d.leased_by
    && is_none d.lease_until
    && is_some d.attempted_at
    && is_empty d.provider_message_id
    && not (is_empty d.failure_code)
status_ok d DeliveryStatus.processing =
    owned d.leased_by
    && is_some d.lease_until
    && is_none d.attempted_at
    && is_empty d.provider_message_id
    && is_empty d.failure_code
status_ok d DeliveryStatus.succeeded =
    is_none d.leased_by
    && is_none d.lease_until
    && is_some d.attempted_at
    && not (is_empty d.provider_message_id)
    && is_empty d.failure_code
status_ok d DeliveryStatus.dead =
    is_none d.leased_by
    && is_none d.lease_until
    && is_some d.attempted_at
    && is_empty d.provider_message_id
    && not (is_empty d.failure_code)
status_ok d (DeliveryStatus.other _) = false

-- `Delivery.Validate`.
unfoldable pub validate_delivery : Delivery → Bool
unfolding text_ok valid_kind valid_channel status_ok
validate_delivery d =
    not (
      is_empty d.id
      || is_empty d.notification_id
      || is_empty d.tenant_id
      || is_empty d.destination
      || ltb 255 (len d.destination)
      || not (valid_kind d.kind)
      || not (valid_channel d.channel)
      || ltb d.attempt 1
      || ltb 5 d.attempt
      || is_zero d.available_at
      || is_zero d.created_at
      || is_zero d.updated_at)
    && text_ok d.title d.body
    && status_ok d d.status

-- `NewDelivery`.
unfoldable pub new_delivery : String → Notification → String → Channel → Time → Option Delivery
unfolding validate_delivery
new_delivery id n destination channel at =
    let d : Delivery = record {
      id = id;
      notification_id = n.id;
      tenant_id = n.tenant_id;
      destination = trim_space destination;
      title = n.title;
      body = n.body;
      kind = n.kind;
      channel = channel;
      attempt = 1;
      status = DeliveryStatus.pending;
      available_at = at;
      leased_by = none;
      lease_until = none;
      attempted_at = none;
      provider_message_id = "";
      failure_code = "";
      created_at = at;
      updated_at = at;
    } in
    if validate_delivery d then some d else none

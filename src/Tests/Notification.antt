-- ===== src/Tests/Notification.antt =====
-- A recipient with quiet hours over midnight, and digests of one and of fifteen risks.
use lidradar.Prelude.{
  ℕ, zero, suc, ◌≡◌, refl, String, true, false, some, none, List, [], ◌∷◌, arith, is_some, All, ◌+◌,
  ◌*◌, ◌≤◌,
}
use Prim.Native.String.{len}
use lidradar.Text.{trim_space, joined, take_runes}
use lidradar.Time.{Time, Location, utc, utc-IsCalendar, utc-ShowsOnce, hour_ns, day_ns}
use lidradar.Notification.Policy.{
  RiskType, Severity, DeliveryMode, Preference, DeferReason, valid_risk_type, valid_severity,
  decide, is_immediate, validate,
}
use lidradar.Notification.Policy.Quiet.{Timely, decide-Timely}
use lidradar.Notification.Fact.{slot_of, digest_fact, new_digest, valid_slot}
use lidradar.Notification.Fact.Keys.{slot_of-digest_fact, Subject, key-injective}
use lidradar.Notification.Digest.{
  DigestEntry, new_digest_item, digest_title, digest_body, contact_of,
}
use lidradar.Notification.Digest.Queue.{deferred-queued}
use lidradar.Notification.Digest.Lines.{IsKnown}
use lidradar.Notification.Digest.Size.{short_digest-accepted, long_digest-refused}

-- Quiet from 22:00 to 08:00.
abbrev preference : Preference
preference = record {
  id = "";
  tenant_id = "org";
  user_id = "anna";
  risk_type = RiskType.no_response;
  minimum_severity = Severity.low;
  delivery_mode = DeliveryMode.immediate;
  in_app_enabled = true;
  telegram_enabled = true;
  quiet_hours_enabled = true;
  quiet_hours_start = some (record { hour = 22; minute = 0 });
  quiet_hours_end = some (record { hour = 8; minute = 0 });
  digest_time = record { hour = 9; minute = 0 };
  created_at = 0;
  updated_at = 0;
}

-- Half an hour before midnight of the hundredth day.
abbrev late : Time
late = 100 * day_ns + 23 * hour_ns

abbrev slot : Location → Time → String
slot loc t = "2026-03-01T08:00"

delivers : (decide slot utc preference Severity.high late true).deliver ≡ true
unfolding decide validate
delivers = refl

decide-Timely_example :
    Timely slot utc preference late (decide slot utc preference Severity.high late true)
decide-Timely_example =
    decide-Timely slot utc preference Severity.high late true utc-IsCalendar
      (utc-ShowsOnce 8 0 (omega arith) (omega arith), utc-ShowsOnce 9 0 (omega arith) (omega arith))
      delivers

later : is_immediate (decide slot utc preference Severity.high late true) ≡ false
unfolding decide is_immediate validate
later = refl

slot_fits : valid_slot (decide slot utc preference Severity.high late true).slot ≡ true
unfolding decide valid_slot validate
slot_fits = refl

deferred-queued_example :
    is_some (
      new_digest_item "item" "org" "anna" "risk" RiskType.no_response
        (decide slot utc preference Severity.high late true)
        late)
    ≡ true
deferred-queued_example =
    deferred-queued slot utc preference Severity.high late true "item" "risk" late delivers later
      slot_fits refl refl refl

slot_of-digest_fact_example :
    slot_of (digest_fact "n" "org" "anna" "2026-03-01T08:00" "title" "body" late)
    ≡ "2026-03-01T08:00"
slot_of-digest_fact_example =
    slot_of-digest_fact "n" "org" "anna" "2026-03-01T08:00" "title" "body" late

abbrev uuid : String
uuid = "3b241101-e2bb-4255-8caf-4136c566a962"

key-injective_example : Subject.opened uuid uuid ≡ Subject.opened uuid uuid
key-injective_example =
    key-injective (Subject.opened uuid uuid) (Subject.opened uuid uuid) (refl, refl) (refl, refl)
      refl

abbrev format : Time → String
format t = "01.03 08:00"

abbrev pub entry : DigestEntry
entry = record {
  item = record {
    id = "item";
    tenant_id = "org";
    user_id = "anna";
    risk_id = "risk";
    risk_type = RiskType.no_response;
    reason = DeferReason.quiet_hours;
    slot = "2026-03-01T08:00";
    deliver_at = late + 9 * hour_ns;
    in_app = true;
    telegram = true;
    notification_id = "";
    consumed_at = none;
    created_at = late;
  };
  severity = Severity.high;
  status = "OPEN";
  contact = "Константин Константинович Константинопольский";
  detected_at = late;
}

abbrev copies : ℕ → List DigestEntry
copies zero = []
copies (suc n) = entry ∷ copies n

entry-IsKnown : IsKnown entry
unfolding valid_risk_type valid_severity
entry-IsKnown = (refl, refl)

copies-IsKnown : (n : ℕ) → All IsKnown (copies n)
copies-IsKnown zero = tt
copies-IsKnown (suc n) = (entry-IsKnown, copies-IsKnown n)

entry-wide : 80 ≤ len (contact_of entry)
unfolding contact_of trim_space joined take_runes
entry-wide = omega arith

copies-wide : (n : ℕ) → All (λ e. 80 ≤ len (contact_of e)) (copies n)
copies-wide zero = tt
copies-wide (suc n) = (entry-wide, copies-wide n)

short_digest-accepted_example :
    new_digest "n" "org" "anna" "2026-03-01T08:00"
      (digest_title (copies 1))
      (digest_body format (copies 1))
      late
    ≡ some (
        digest_fact "n" "org" "anna" "2026-03-01T08:00"
          (digest_title (copies 1))
          (digest_body format (copies 1))
          late)
unfolding decide validate
short_digest-accepted_example =
    short_digest-accepted format "n" "org" "anna" "2026-03-01T08:00" late entry [] refl refl refl
      refl slot_fits (λ t. omega arith) (copies-IsKnown 1) (omega arith)

long_digest-refused_example :
    new_digest "n" "org" "anna" "2026-03-01T08:00"
      (digest_title (copies 15))
      (digest_body format (copies 15))
      late
    ≡ none
long_digest-refused_example =
    long_digest-refused format "n" "org" "anna" "2026-03-01T08:00" late entry (copies 14)
      (copies-IsKnown 15) (copies-wide 15) (omega arith)

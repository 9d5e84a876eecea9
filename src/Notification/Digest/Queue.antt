-- ===== src/Notification/Digest/Queue.antt =====
-- A decision that defers a risk can be queued (backend/internal/notification/domain/digest.go).
use lidradar.Prelude.{
  ◌≡◌, refl, sym, ◌∙◌, ap, String, Bool, true, false, not, ◌&&◌, ◌||◌, is_some, arith,
  if◌then◌else◌, ltb,
}
use lidradar.Text.{is_empty}
use lidradar.Time.{Time, Location, is_zero}
use lidradar.Notification.Policy.{
  RiskType, Severity, DeliveryMode, Preference, PolicyDecision, decide, decide_mode, no_delivery,
  is_immediate, validate, names_ok, valid_risk_type, is_disabled, severity_rank,
}
use lidradar.Notification.Fact.{valid_slot}
use lidradar.Notification.Digest.{new_digest_item, validate_item, reason_ok, consumed_ok}

item-accepted :
    (id tenant user risk : String) (t : RiskType) (d : PolicyDecision) (at : Time)
    → (is_empty id ≡ false)
      × (is_empty tenant ≡ false)
      × (is_empty user ≡ false)
      × (is_empty risk ≡ false)
    → valid_risk_type t ≡ true
    → is_zero at ≡ false
    → valid_slot d.slot ≡ true
    → d.deliver ≡ true
    → is_immediate d ≡ false
    → reason_ok d.reason ≡ true
    → d.in_app || d.telegram ≡ true
    → is_some (new_digest_item id tenant user risk t d at) ≡ true
unfolding new_digest_item validate_item consumed_ok is_immediate
item-accepted id tenant user risk t d at (i, te, u, r) v z s del imm re ch = ground arith

gate :
    (bad silent : Bool) (d : PolicyDecision)
    → (if bad then no_delivery else (if silent then no_delivery else d)).deliver ≡ true
    → (bad ≡ false)
      × (silent ≡ false)
      × ((if bad then no_delivery else (if silent then no_delivery else d)) ≡ d)
gate true silent d h = cc
gate false true d h = cc
gate false false d h = (refl, refl, refl)

first_of : (a b c : Bool) → not a || b || c ≡ false → a ≡ true
first_of true b c h = refl
first_of false b c h = cc

either_of : (a b : Bool) → not a && not b ≡ false → a || b ≡ true
either_of true b h = refl
either_of false true h = refl
either_of false false h = cc

first_five : (a b c d e : Bool) → a && b && c && d && e ≡ true → a ≡ true
first_five true b c d e h = refl
first_five false b c d e h = cc

three_of :
    (a b c d e : Bool)
    → not (a || b || not c || d || e) ≡ true
    → (a ≡ false) × (b ≡ false) × (c ≡ true)
three_of true b c d e h = cc
three_of false true c d e h = cc
three_of false false false d e h = cc
three_of false false true d e h = (refl, refl, refl)

named :
    (p : Preference)
    → validate p ≡ true
    → (is_empty p.tenant_id ≡ false)
      × (is_empty p.user_id ≡ false)
      × (valid_risk_type p.risk_type ≡ true)
unfolding validate names_ok
named p v =
    let n : names_ok p ≡ true = first_five (names_ok p) _ _ _ _ v in
    three_of (is_empty p.tenant_id) (is_empty p.user_id) (valid_risk_type p.risk_type) _ _ n

module _ (format_slot : Location → Time → String) (loc : Location) where
  deferred_mode :
      (p : Preference) (d : PolicyDecision) (m : DeliveryMode) (now : Time)
      → is_immediate d ≡ true
      → is_immediate (decide_mode format_slot loc p d m now) ≡ false
      → (reason_ok (decide_mode format_slot loc p d m now).reason ≡ true)
        × ((decide_mode format_slot loc p d m now).in_app ≡ d.in_app)
        × ((decide_mode format_slot loc p d m now).telegram ≡ d.telegram)
  unfolding decide_mode reason_ok
  deferred_mode p d DeliveryMode.immediate now i n = ground arith
  deferred_mode p d DeliveryMode.digest now i n = (refl, refl, refl)
  deferred_mode p d DeliveryMode.disabled now i n = (refl, refl, refl)
  deferred_mode p d (DeliveryMode.other m) now i n = (refl, refl, refl)

  delivers-parts :
      (p : Preference) (severity : Severity) (now : Time) (telegram_linked : Bool)
      → (decide format_slot loc p severity now telegram_linked).deliver ≡ true
      → (validate p ≡ true)
        × (p.in_app_enabled || p.telegram_enabled && telegram_linked ≡ true)
        × (decide format_slot loc p severity now telegram_linked
            ≡ decide_mode format_slot loc p
                (record no_delivery {
                  deliver = true;
                  in_app = p.in_app_enabled;
                  telegram = p.telegram_enabled && telegram_linked;
                })
                p.delivery_mode
                now)
  unfolding decide
  delivers-parts p severity now telegram_linked h =
      let (good, channel, same) =
        gate
          (not (validate p)
            || is_disabled p.delivery_mode
            || ltb (severity_rank severity) (severity_rank p.minimum_severity))
          (not p.in_app_enabled && not (p.telegram_enabled && telegram_linked)) _ h in
      (
        first_of (validate p) (is_disabled p.delivery_mode)
            (ltb (severity_rank severity) (severity_rank p.minimum_severity)) good,
        either_of p.in_app_enabled (p.telegram_enabled && telegram_linked) channel,
        same,
      )

  -- What the policy defers can always be queued: where a decision delivers a risk later, with a slot
  -- of the right shape, its item of the queue is accepted, if the ids are there and the moment is set.
  pub deferred-queued :
      (p : Preference) (severity : Severity) (now : Time) (telegram_linked : Bool)
      (id risk : String) (at : Time)
      → (decide format_slot loc p severity now telegram_linked).deliver ≡ true
      → is_immediate (decide format_slot loc p severity now telegram_linked) ≡ false
      → valid_slot (decide format_slot loc p severity now telegram_linked).slot ≡ true
      → is_empty id ≡ false
      → is_empty risk ≡ false
      → is_zero at ≡ false
      → is_some (
          new_digest_item id p.tenant_id p.user_id risk p.risk_type
            (decide format_slot loc p severity now telegram_linked)
            at)
        ≡ true
  unfolding is_immediate
  deferred-queued p severity now telegram_linked id risk at h n slot i r z =
      let (v, channel, same) = delivers-parts p severity now telegram_linked h in
      let base : PolicyDecision = record no_delivery {
        deliver = true;
        in_app = p.in_app_enabled;
        telegram = p.telegram_enabled && telegram_linked;
      } in
      let (re, in_app, telegram) =
        deferred_mode p base p.delivery_mode now refl (sym (ap is_immediate same) ∙ n) in
      let (tenant, user, risk_type) = named p v in
      item-accepted id p.tenant_id p.user_id risk p.risk_type _ at (i, tenant, user, r) risk_type z
        slot h n (ap (λ d. reason_ok d.reason) same ∙ re)
        (ap (λ d. d.in_app || d.telegram) same ∙ (rw (in_app, telegram) channel))

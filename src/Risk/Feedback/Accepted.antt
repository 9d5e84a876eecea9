-- ===== src/Risk/Feedback/Accepted.antt =====
-- When feedback on a risk is accepted.
use Prim.Native.String.{len}
use lidradar.Prelude.{
  ◌≡◌, refl, sym, ◌∙◌, ◌≤◌, String, Bool, true, false, not, ◌&&◌, ◌||◌, none, some, is_some,
  if◌then◌else◌, ltb, eq_iff, arith, ◌↔◌,
}
use lidradar.Text.{is_empty, is_trimmed, trim_space}
use lidradar.Time.{Time, is_zero}
use lidradar.Risk.Aggregate.{Risk, validate, incomplete, supported_type}
use lidradar.Risk.Feedback.{
  Verdict, FeedbackReason, Feedback, valid_feedback_reason, is_nothing, valid_verdict, reason_ok,
  facts_ok, context_ok, feedback_of, new_feedback, validate_feedback,
}

both_false : (a b : Bool) → a || b ≡ false → (a ≡ false) × (b ≡ false)
both_false true b h = cc
both_false false b h = (refl, h)

denied : (a : Bool) → not a ≡ true → a ≡ false
denied true h = cc
denied false h = refl

affirmed : (a : Bool) → not a ≡ false → a ≡ true
affirmed true h = refl
affirmed false h = cc

first_of_four : (a b c d : Bool) → a && b && c && d ≡ true → a ≡ true
first_of_four true b c d h = refl
first_of_four false b c d h = cc

-- What the feedback takes from a valid risk.
module _ (r : Risk) where
  complete : validate r ≡ true → incomplete r ≡ false
  unfolding validate
  complete v =
      let h = first_of_four (not (incomplete r || is_zero r.updated_at)) _ _ _ v in
      (both_false (incomplete r) (is_zero r.updated_at) (denied _ h)).0

  taken :
      incomplete r ≡ false
      → (is_empty r.id ≡ false)
        × (is_empty r.tenant_id ≡ false)
        × (is_empty r.opportunity_id ≡ false)
        × (supported_type r.risk_type ≡ true)
        × (is_empty r.policy_version ≡ false)
        × (is_empty r.trigger_message_id ≡ false)
        × (is_zero r.detected_at ≡ false)
  unfolding incomplete
  taken h =
      let (h, _) = both_false _ _ h in
      let (h, _) = both_false _ _ h in
      let (h, detected) = both_false _ (is_zero r.detected_at) h in
      let (h, _) = both_false _ _ h in
      let (h, _) = both_false _ _ h in
      let (h, _) = both_false _ _ h in
      let (h, trigger) = both_false _ (is_empty r.trigger_message_id) h in
      let (h, _) = both_false _ _ h in
      let (h, version) = both_false _ (is_empty r.policy_version) h in
      let (h, type) = both_false _ (not (supported_type r.risk_type)) h in
      let (h, _) = both_false _ _ h in
      let (h, opportunity) = both_false _ (is_empty r.opportunity_id) h in
      let (id, tenant) = both_false (is_empty r.id) (is_empty r.tenant_id) h in
      (id, tenant, opportunity, affirmed _ type, version, trigger, detected)

trimmed : (t : String) → is_trimmed t ≡ true → trim_space t ≡ t
trimmed t h = sym (ground (arith, h, eq_iff t (trim_space t)))

facts_hold :
    (id tenant risk opportunity actor : Bool) (verdict long bare zero : Bool)
    → id ≡ false
    → tenant ≡ false
    → risk ≡ false
    → opportunity ≡ false
    → actor ≡ false
    → verdict ≡ true
    → long ≡ false
    → bare ≡ true
    → zero ≡ false
    → not (id || tenant || risk || opportunity || actor || not verdict || long || not bare || zero)
      ≡ true
facts_hold id tenant risk opportunity actor verdict long bare zero a b c d e f g h i =
    rw (a, b, c, d, e, f, g, h, i) refl

context_holds :
    (type version trigger stage zero : Bool)
    → type ≡ true
    → version ≡ false
    → trigger ≡ false
    → stage ≡ false
    → zero ≡ false
    → not (not type || version || trigger || stage || zero) ≡ true
context_holds type version trigger stage zero a b c d e = rw (a, b, c, d, e) refl

or_true : (a : Bool) {b : Bool} → b ≡ true → a || b ≡ true
or_true true h = refl
or_true false h = h

last_decides : (a b c : Bool) → a ≡ true → b ≡ true → a && b && c ≡ c
last_decides a b c h k = rw (h, k) refl

is_some-if : (b : Bool) (f : Feedback) → is_some (if b then some f else none) ≡ b
is_some-if true f = refl
is_some-if false f = refl

-- The reasons that a user may choose.
pub data Listed : FeedbackReason → Type 0 where
  already_booked : Listed FeedbackReason.customer_already_booked
  already_answered : Listed FeedbackReason.customer_already_answered
  no_lead : Listed FeedbackReason.not_a_lead
  rejected : Listed FeedbackReason.customer_rejected
  misread : Listed FeedbackReason.wrong_interpretation
  something_else : Listed FeedbackReason.other

-- The pairs of a verdict and a reason that make sense: a listed reason explains any verdict, and only
-- a true positive needs none.
pub data Explains : Verdict → FeedbackReason → Type 0 where
  by_reason :
      {verdict : Verdict} {reason : FeedbackReason}
      → valid_verdict verdict ≡ true
      → Listed reason
      → Explains verdict reason
  by_itself : Explains Verdict.true_positive FeedbackReason.nothing

valid-Listed : (reason : FeedbackReason) → valid_feedback_reason reason ≡ true → Listed reason
unfolding valid_feedback_reason
valid-Listed FeedbackReason.customer_already_booked h = Listed.already_booked
valid-Listed FeedbackReason.customer_already_answered h = Listed.already_answered
valid-Listed FeedbackReason.not_a_lead h = Listed.no_lead
valid-Listed FeedbackReason.customer_rejected h = Listed.rejected
valid-Listed FeedbackReason.wrong_interpretation h = Listed.misread
valid-Listed FeedbackReason.other h = Listed.something_else
valid-Listed FeedbackReason.nothing h = cc
valid-Listed (FeedbackReason.unknown s) h = cc

Listed-valid : {reason : FeedbackReason} → Listed reason → valid_feedback_reason reason ≡ true
unfolding valid_feedback_reason
Listed-valid Listed.already_booked = refl
Listed-valid Listed.already_answered = refl
Listed-valid Listed.no_lead = refl
Listed-valid Listed.rejected = refl
Listed-valid Listed.misread = refl
Listed-valid Listed.something_else = refl

reason_ok-Explains :
    (verdict : Verdict) (reason : FeedbackReason)
    → valid_verdict verdict ≡ true
    → reason_ok verdict reason ≡ true
    → Explains verdict reason
unfolding reason_ok valid_verdict
reason_ok-Explains Verdict.false_positive reason w h =
    Explains.by_reason refl (valid-Listed reason h)
reason_ok-Explains Verdict.true_positive FeedbackReason.nothing w h = Explains.by_itself
reason_ok-Explains Verdict.true_positive reason w h =
    Explains.by_reason refl (valid-Listed reason h)
reason_ok-Explains (Verdict.other s) reason w h = cc

Explains-reason_ok :
    {verdict : Verdict} {reason : FeedbackReason}
    → Explains verdict reason
    → reason_ok verdict reason ≡ true
unfolding reason_ok
Explains-reason_ok {verdict = Verdict.false_positive} (Explains.by_reason w l) = Listed-valid l
Explains-reason_ok {verdict = Verdict.true_positive} {reason} (Explains.by_reason w l) =
    or_true (is_nothing reason) (Listed-valid l)
Explains-reason_ok {verdict = Verdict.other s} {reason} (Explains.by_reason w l) =
    or_true (is_nothing reason) (Listed-valid l)
Explains-reason_ok Explains.by_itself = refl

-- On a valid risk, and with an id, an actor, a known verdict, a trimmed note of at most 1000 bytes, a
-- stage and a moment, NewFeedback accepts the feedback exactly if its reason is one of the six listed,
-- or there is none and the verdict is that of a true positive.
pub new_feedback_iff :
    (id : String) (r : Risk) (stage actor : String) (verdict : Verdict) (reason : FeedbackReason)
    (note : String) (eligible : Bool) (at : Time)
    → validate r ≡ true
    → is_empty id ≡ false
    → is_empty actor ≡ false
    → valid_verdict verdict ≡ true
    → is_trimmed note ≡ true
    → len note ≤ 1000
    → is_empty (trim_space stage) ≡ false
    → is_zero at ≡ false
    → (is_some (new_feedback id r stage actor verdict reason note eligible at) ≡ true)
      ↔ Explains verdict reason
unfolding new_feedback validate_feedback facts_ok context_ok feedback_of
new_feedback_iff id r stage actor verdict reason note eligible at v i a w t l s z =
    let (risk, tenant, opportunity, type, version, trigger, detected) = taken r (complete r v) in
    let same = trimmed note t in
    let short : ltb 1000 (len (trim_space note)) ≡ false = rw same (ground arith) in
    let bare : is_trimmed (trim_space note) ≡ true = rw same t in
    let f = feedback_of id r stage actor verdict reason note eligible at in
    let decides : validate_feedback f ≡ reason_ok verdict reason =
      last_decides (facts_ok f) (context_ok f.context) (reason_ok verdict reason)
        (facts_hold _ _ _ _ _ _ _ _ _ i tenant risk opportunity a w short bare z)
        (context_holds _ _ _ _ _ type version trigger s detected) in
    rw v (
      λ h.
          reason_ok-Explains verdict reason w
            (sym (is_some-if (validate_feedback f) f ∙ decides) ∙ h),
      λ e. is_some-if (validate_feedback f) f ∙ decides ∙ Explains-reason_ok e,
    )

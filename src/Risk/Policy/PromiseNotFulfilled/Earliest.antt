-- ===== src/Risk/Policy/PromiseNotFulfilled/Earliest.antt =====
-- Of several promises the rule acts on the one that is due first.
use mathlib.Core.List.{Memᴰ}
use lidradar.Tables.{All-Memᴰ}
use lidradar.Prelude.{
  ◌≤◌, ◌≡◌, refl, sym, ap, subst, ◌∙◌, String, Bool, true, false, not, ◌&&◌, Option, none, some,
  List, [], ◌∷◌, All, arith, Bool-cases, inl, inr, if◌then◌else◌, str_eq, eq_iff, ◌>>=◌, Result, ok,
  >>=-eq-ok, ok-injective,
}
use lidradar.Text.{is_empty}
use lidradar.Time.{Time, Location, before}
use lidradar.Risk.Aggregate.{Finding}
use lidradar.Risk.Policy.{Error, AgreementSignal, ConversationState, Decision, in_hours}
use lidradar.Risk.Policy.PromisedTime.{Texts, parse_promised_due}
use lidradar.Risk.Policy.Agreements.{Dated, sooner, prefer_agreement, strong_agreement}
use lidradar.Risk.Policy.PromiseNotFulfilled.{
  Scan, is_commitment, is_eligible, choose, due_of, scan_step, scan, decide_v2, evaluate_v2,
  finding_of, located,
}

-- An agreement is chosen whose deadline is no later than a moment.
abbrev pub Chosen : Option Dated → Time → Type 0
Chosen none t = ⊥
Chosen (some c) t = c.due ≤ t

-- What is chosen has a trigger.
Named : Option Dated → Type 0
Named none = Unit
Named (some c) = str_eq c.signal.trigger_message_id "" ≡ false

sooner-due :
    (c b : Dated) → (sooner c b ≡ true → c.due ≤ b.due) × (sooner c b ≡ false → b.due ≤ c.due)
unfolding sooner
sooner-due c b = (λ h. ground arith, λ h. ground arith)

prefers :
    (b c : Dated)
    → str_eq b.signal.trigger_message_id "" ≡ false
    → str_eq c.signal.trigger_message_id "" ≡ false
    → prefer_agreement (some b) c "" ≡ sooner c b
unfolding prefer_agreement
prefers b c h k = rw (h, k) refl

-- What a choice between what is chosen and one more comes to.
better-Chosen :
    (p : Option Dated) (c : Dated)
    → str_eq c.signal.trigger_message_id "" ≡ false
    → Named p
    → Named (if prefer_agreement p c "" then some c else p)
      × Chosen (if prefer_agreement p c "" then some c else p) c.due
      × ((t : Time) → Chosen p t → Chosen (if prefer_agreement p c "" then some c else p) t)
unfolding Named
better-Chosen none c k n = unfold prefer_agreement in (k, omega arith, λ t h. absurd h)
better-Chosen (some b) c k n = elim (Bool-cases (sooner c b)) [
  | inl h ↦ rw (prefers b c n k, h) (k, omega arith, λ t l. omega (arith, l, (sooner-due c b).0 h))
  | inr h ↦ rw (prefers b c n k, h) (n, (sooner-due c b).1 h, λ t l. l)
]

second_of : (a b c d e : Bool) → a && b && c && d && e ≡ true → b ≡ true
second_of true true c d e h = refl
second_of true false c d e h = cc
second_of false b c d e h = cc

third_of : (a b c : Bool) → a && b && c ≡ true → c ≡ true
third_of true true c h = h
third_of true false c h = cc
third_of false b c h = cc

not_empty : (t : String) → not (is_empty t) ≡ true → str_eq t "" ≡ false
not_empty t h = elim (Bool-cases (str_eq t "")) [
  | inr e ↦ e
  | inl e ↦
      let same : t ≡ "" = ground (arith, eq_iff t "") in
      let bad = subst (λ u. not (is_empty u) ≡ true) same h in cc
]

trigger-there :
    (a : AgreementSignal) → is_commitment a ≡ true → str_eq a.trigger_message_id "" ≡ false
unfolding is_commitment strong_agreement
trigger-there a h = not_empty a.trigger_message_id (
    second_of _ (not (is_empty a.trigger_message_id)) _ _ _ (
      third_of (str_eq a.kind "COMMITMENT") (str_eq a.waiting_for "BUSINESS") (strong_agreement a)
        h))

apart : {b : Bool} → b ≡ false → b ≡ true → ⊥
apart h k = cc

module _ (load_location : String → Option Location) (x : Texts)
    (format_moment : Location → Time → String) (s : ConversationState) (loc : Location) where
  -- What an agreement of the list says of what is chosen in the end.
  abbrev pub Served : Option Dated → AgreementSignal → Type 0
  Served p a =
      is_commitment a ≡ true
      → is_eligible s a ≡ true
      → (t : Time)
      → due_of load_location x format_moment s a.trigger_at
          (parse_promised_due x loc a.trigger_text a.trigger_at)
        ≡ ok t
      → Chosen p t

  -- What a round makes of what was chosen before it.
  abbrev Step : Option Dated → AgreementSignal → Option Dated → Type 0
  Step p a q = Named q × Served q a × ((t : Time) → Chosen p t → Chosen q t)

  round_cases :
      (a : AgreementSignal) (st seen st' : Scan) (commitment eligible : Bool)
      → seen.pending ≡ st.pending
      → is_commitment a ≡ commitment
      → is_eligible s a ≡ eligible
      → (if not commitment
          then ok st
          else (if not eligible
              then ok seen
              else (due_of load_location x format_moment s a.trigger_at
                    (parse_promised_due x loc a.trigger_text a.trigger_at)
                  >>= λ due. ok (
                      choose none
                        (record { signal = a; due = due })
                        (parse_promised_due x loc a.trigger_text a.trigger_at)
                        seen))))
        ≡ ok st'
      → Named st.pending
      → Step st.pending a st'.pending
  round_cases a st seen st' false eligible same c e h n =
      subst (λ (y : Scan). Step st.pending a y.pending) (ok-injective h)
        (n, λ c'. absurd (apart c c'), λ t k. k)
  round_cases a st seen st' true false same c e h n =
      subst (λ (y : Scan). Step st.pending a y.pending) (ok-injective h)
        (subst (λ q. Step st.pending a q) (sym same) (n, λ c' e'. absurd (apart e e'), λ t k. k))
  round_cases a st seen st' true true same c e h n =
      let promised = parse_promised_due x loc a.trigger_text a.trigger_at in
      let (due, found, made) =
        >>=-eq-ok (due_of load_location x format_moment s a.trigger_at promised) _ h in
      let (named, own, keeps) =
        better-Chosen seen.pending (record { signal = a; due = due }) (trigger-there a c)
          (subst Named (sym same) n) in
      subst (λ (y : Scan). Step st.pending a y.pending) (ok-injective made)
        (unfold choose in
          (
            named,
            λ c' e' t d. subst (Chosen _) (ok-injective (sym found ∙ d)) own,
            λ t k. keeps t (subst (λ q. Chosen q t) (sym same) k),
          ))

  scan_step-Chosen :
      (a : AgreementSignal) (st st' : Scan)
      → scan_step load_location x format_moment s loc none a st ≡ ok st'
      → Named st.pending
      → Step st.pending a st'.pending
  unfolding scan_step
  scan_step-Chosen a st st' h n =
      round_cases a st _ st' (is_commitment a) (is_eligible s a) refl refl refl h n

  scan-Served :
      (all : List AgreementSignal) (st st' : Scan)
      → scan load_location x format_moment s loc none all st ≡ ok st'
      → Named st.pending
      → All (Served st'.pending) all × ((t : Time) → Chosen st.pending t → Chosen st'.pending t)
  unfolding scan
  scan-Served [] st st' h n =
      (tt, λ t c. subst (λ (y : Scan). Chosen y.pending t) (ok-injective h) c)
  scan-Served (a ∷ more) st st' h n =
      let (mid, first, later) =
        >>=-eq-ok (scan_step load_location x format_moment s loc none a st) _ h in
      let (named, served, keeps) = scan_step-Chosen a st mid first n in
      let (rest, keeps') = scan-Served more mid st' later named in
      ((λ c e t d. keeps' t (served c e t d), rest), λ t c. keeps' t (keeps t c))

  abbrev start : Scan
  start = record { pending = none; promised = none; resolved_active = false; eligible_count = 0 }

  -- The steps of `evaluateV2` in a location.
  abbrev steps : Time → Location → Result Error Decision
  steps at y = scan load_location x format_moment s y none s.agreements start >>= λ st.
      ok (decide_v2 load_location x format_moment s at y none st st.pending)

  scanned :
      (at : Time) (d : Decision)
      → load_location s.business_hours.timezone ≡ some loc
      → evaluate_v2 load_location x format_moment s at none ≡ ok d
      → (st : Scan) × (scan load_location x format_moment s loc none s.agreements start ≡ ok st)
        × (decide_v2 load_location x format_moment s at loc none st st.pending ≡ d)
  unfolding evaluate_v2
  scanned at d l h =
      let (there, found, rest) = >>=-eq-ok (located load_location s) (steps at) h in
      let same : loc ≡ there = ok-injective (sym (ap in_hours l) ∙ found) in
      let here : steps at loc ≡ ok d = subst (λ y. steps at y ≡ ok d) (sym same) rest in
      let (st, first, later) =
        >>=-eq-ok (scan load_location x format_moment s loc none s.agreements start)
          (λ st. ok (decide_v2 load_location x format_moment s at loc none st st.pending)) here in
      (st, first, ok-injective later)

  overdue :
      (at t : Time) (st : Scan) (p : Option Dated)
      → Chosen p t
      → t ≤ at
      → (f : Finding) × ((decide_v2 load_location x format_moment s at loc none st p).finding
          ≡ some f)
        × (f.due_at ≤ t)
  unfolding decide_v2 finding_of
  overdue at t st none c l = absurd c
  overdue at t st (some c) d l =
      let late : before at c.due ≡ false = ground arith in rw late (_, refl, d)

  -- No overdue promise is missed, and the first one is told of: where no risk of this rule is open and
  -- some promise of the list that the rule looks at has come due, the rule makes a finding, whose
  -- deadline is no later than that of this promise.
  pub overdue-found :
      (at : Time) (d : Decision) (a : AgreementSignal) (t : Time)
      → load_location s.business_hours.timezone ≡ some loc
      → evaluate_v2 load_location x format_moment s at none ≡ ok d
      → Memᴰ a s.agreements
      → is_commitment a ≡ true
      → is_eligible s a ≡ true
      → due_of load_location x format_moment s a.trigger_at
          (parse_promised_due x loc a.trigger_text a.trigger_at)
        ≡ ok t
      → t ≤ at
      → (f : Finding) × (d.finding ≡ some f) × (f.due_at ≤ t)
  overdue-found at d a t l h m c e due late =
      let (st, first, decided) = scanned at d l h in
      let (served, _) = scan-Served s.agreements start st first (unfold Named in tt) in
      let own = All-Memᴰ (Served st.pending) s.agreements a served m c e t due in
      let (f, found, sooner_than) = overdue at t st st.pending own late in
      (f, subst (λ (y : Decision). y.finding ≡ some f) decided found, sooner_than)

-- ===== src/Risk/Aggregate/Lifecycle.antt =====
-- The life of a risk: what its methods keep, and which statuses may follow which.
use lidradar.Prelude.{
  ℕ, ◌≤◌, String, ◌≡◌, refl, sym, ◌∙◌, subst, true, false, some, arith, inl, inr, Bool, ◌⊎◌,
}
use lidradar.Time.{Time, is_zero}
use lidradar.Risk.Aggregate.{
  Risk, RiskType, Status, Finding, active, validate, built, new_risk, refresh, acknowledge, resolve,
  mark_false_positive, incomplete, finding_incomplete, severity_ok, source_ok, stamps_ok,
}

-- A call of a method that returned nil: the risk before and after it.
pub data Step : Risk → Risk → Type 0 where
  acknowledges : {r q : Risk} (now : Time) → acknowledge r now ≡ (q, true) → Step r q
  resolves : {r q : Risk} (now : Time) → resolve r now ≡ (q, true) → Step r q
  marks_false : {r q : Risk} (now : Time) → mark_false_positive r now ≡ (q, true) → Step r q
  refreshes : {r q : Risk} (f : Finding) (now : Time) → refresh r f now ≡ (q, true) → Step r q

pub data Life (r : Risk) : Risk → Type 0 where
  here : Life r r
  next : {q p : Risk} → Life r q → Step q p → Life r p

finding-due :
    (id : String) (f : Finding) (now : Time) → finding_incomplete id f now ≡ false → f.due_at ≤ now
unfolding finding_incomplete
finding-due id f now h = ground arith

-- A risk that `newRisk` makes is valid, is the one built of the finding, and its due moment has
-- come.
pub new_risk_sound :
    (id : String) (t : RiskType) (f : Finding) (now : Time) {r : Risk}
    → new_risk id t f now ≡ some r
    → (validate r ≡ true) × (r ≡ built id t f now) × (f.due_at ≤ now)
unfolding new_risk
new_risk_sound id t f now h = ground (arith, finding-due id f now)

-- A change of status that sets a stamp and the time of the update.
restamp-validate :
    (r q : Risk) (now : Time)
    → validate r ≡ true
    → is_zero now ≡ false
    → q.updated_at ≡ now
    → incomplete q ≡ incomplete r
    → severity_ok q.risk_type q.severity q.source ≡ severity_ok r.risk_type r.severity r.source
    → source_ok q.risk_type q.source q.confidence q.ai_run_id
      ≡ source_ok r.risk_type r.source r.confidence r.ai_run_id
    → stamps_ok q.status q.acknowledged_at q.acted_at q.resolved_at ≡ true
    → validate q ≡ true
unfolding validate
restamp-validate r q now v z u i s o t = ground arith

validate-stamps :
    (r : Risk)
    → validate r ≡ true
    → stamps_ok r.status r.acknowledged_at r.acted_at r.resolved_at ≡ true
unfolding validate
validate-stamps r v = ground arith

acknowledge-validate :
    (r : Risk) (now : Time) → validate r ≡ true → validate (acknowledge r now).0 ≡ true
unfolding acknowledge incomplete stamps_ok
acknowledge-validate r now v =
    let stamps = validate-stamps r v in
    let q : Risk = record r {
      status = Status.acknowledged;
      acknowledged_at = some now;
      updated_at = now;
    } in
    ground (arith, λ (z : is_zero now ≡ false). restamp-validate r q now v z refl refl refl refl)

close-validate :
    (r : Risk) (s : Status) (now : Time)
    → (s ≡ Status.resolved) ⊎ (s ≡ Status.false_positive)
    → validate r ≡ true
    → is_zero now ≡ false
    → validate (record r { status = s; resolved_at = some now; updated_at = now }) ≡ true
unfolding incomplete stamps_ok
close-validate r s now which v z =
    let q : Risk = record r { status = s; resolved_at = some now; updated_at = now } in
    restamp-validate r q now v z refl refl refl refl (ground arith)

resolve-validate : (r : Risk) (now : Time) → validate r ≡ true → validate (resolve r now).0 ≡ true
unfolding resolve
resolve-validate r now v = ground (arith, close-validate r Status.resolved now (inl refl) v)

mark-validate :
    (r : Risk) (now : Time) → validate r ≡ true → validate (mark_false_positive r now).0 ≡ true
unfolding mark_false_positive
mark-validate r now v = ground (arith, close-validate r Status.false_positive now (inr refl) v)

refresh-validate :
    (r : Risk) (f : Finding) (now : Time) {q : Risk}
    → refresh r f now ≡ (q, true)
    → validate q ≡ true
unfolding refresh
refresh-validate r f now h = ground arith

Step-validate : {r q : Risk} → Step r q → validate r ≡ true → validate q ≡ true
Step-validate {r} (Step.acknowledges now h) v =
    subst (λ (p : Risk × Bool). validate p.0 ≡ true) h (acknowledge-validate r now v)
Step-validate {r} (Step.resolves now h) v =
    subst (λ (p : Risk × Bool). validate p.0 ≡ true) h (resolve-validate r now v)
Step-validate {r} (Step.marks_false now h) v =
    subst (λ (p : Risk × Bool). validate p.0 ≡ true) h (mark-validate r now v)
Step-validate {r} (Step.refreshes f now h) v = refresh-validate r f now h

-- Where a risk stands in its life: the active statuses in order, and all others as its end.
abbrev pub rank : Status → ℕ
rank Status.opened = 0
rank Status.acknowledged = 1
rank Status.acted = 2
rank _ = 3

-- What no method changes.
pub record SameRisk (r q : Risk) : Type 0 where
  pub same_id : q.id ≡ r.id
  pub same_tenant : q.tenant_id ≡ r.tenant_id
  pub same_opportunity : q.opportunity_id ≡ r.opportunity_id
  pub same_type : q.risk_type ≡ r.risk_type
  rank_grows : rank r.status ≤ rank q.status
  closed_stays : active r ≡ false → q ≡ r

acknowledge-SameRisk : (r : Risk) (now : Time) → SameRisk r (acknowledge r now).0
unfolding acknowledge active
acknowledge-SameRisk r now = ground arith

resolve-SameRisk : (r : Risk) (now : Time) → SameRisk r (resolve r now).0
unfolding resolve active
resolve-SameRisk r now = ground arith

mark-SameRisk : (r : Risk) (now : Time) → SameRisk r (mark_false_positive r now).0
unfolding mark_false_positive active
mark-SameRisk r now = ground arith

refresh-SameRisk :
    (r : Risk) (f : Finding) (now : Time) (q : Risk) → refresh r f now ≡ (q, true) → SameRisk r q
unfolding refresh
refresh-SameRisk r f now q h = ground arith

Step-SameRisk : {r q : Risk} → Step r q → SameRisk r q
Step-SameRisk {r} (Step.acknowledges now h) =
    subst (λ (p : Risk × Bool). SameRisk r p.0) h (acknowledge-SameRisk r now)
Step-SameRisk {r} (Step.resolves now h) =
    subst (λ (p : Risk × Bool). SameRisk r p.0) h (resolve-SameRisk r now)
Step-SameRisk {r} (Step.marks_false now h) =
    subst (λ (p : Risk × Bool). SameRisk r p.0) h (mark-SameRisk r now)
Step-SameRisk {r} {q} (Step.refreshes f now h) = refresh-SameRisk r f now q h

SameRisk-trans : {r q p : Risk} → SameRisk r q → SameRisk q p → SameRisk r p
SameRisk-trans {r} {q} {p} a b = record {
  same_id = b.same_id ∙ a.same_id;
  same_tenant = b.same_tenant ∙ a.same_tenant;
  same_opportunity = b.same_opportunity ∙ a.same_opportunity;
  same_type = b.same_type ∙ a.same_type;
  rank_grows = omega (arith, a.rank_grows, b.rank_grows);
  closed_stays = λ c.
      b.closed_stays (subst (λ (x : Risk). active x ≡ false) (sym (a.closed_stays c)) c)
      ∙ a.closed_stays c;
}

-- Whatever calls of its methods succeed, a valid risk stays valid.
pub Life-validate : {r q : Risk} → Life r q → validate r ≡ true → validate q ≡ true
Life-validate Life.here v = v
Life-validate (Life.next l s) v = Step-validate s (Life-validate l v)

-- Whatever calls of its methods succeed, a risk keeps its identity and type, its status never goes
-- back, and once it is closed nothing of it changes any more.
pub Life-SameRisk : {r q : Risk} → Life r q → SameRisk r q
Life-SameRisk Life.here = ground arith
Life-SameRisk (Life.next l s) = SameRisk-trans (Life-SameRisk l) (Step-SameRisk s)

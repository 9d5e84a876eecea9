-- ===== src/Risk/Evaluation/Effect.antt =====
-- What the evaluator promises of any repository that keeps the contract of `domain.Repository`.
use lidradar.Prelude.{
  ◌≡◌, refl, sym, ap, subst, ◌∙◌, String, Bool, true, false, not, ◌||◌, Option, none, some,
  if◌then◌else◌, str_eq, Result, ok, err, ok-injective,
}
use lidradar.Text.{is_empty}
use lidradar.Time.{Time}
use lidradar.Tables.Apart.{some_injective}
use lidradar.Risk.Aggregate.{RiskType, Risk, Finding, supported_type, new_risk, built}
use lidradar.Risk.Aggregate.Lifecycle.{new_risk_sound}
use lidradar.Risk.Store.{Error as StoreError}
use lidradar.Risk.Policy.{Error as PolicyError, ConversationState, Decision}
use lidradar.Risk.Evaluation.{
  Error, Policy, Repository, Applied, unchanged, resolve_found, stored, made, closed, apply_finding,
  apply_decision, decided, observed, apply,
}
use lidradar.Risk.Evaluation.Contract.{IsRepository}

module _ {State : Type 0} (repository : Repository State) (Ok : State → Type 0)
    (law : IsRepository repository Ok) where
  -- What a call that returned no error left behind, by the decision.
  pub record Effect (tenant_id opportunity_id : String) (t : RiskType) (s after : State)
      (a : Applied) : Type 0 where
    pub stays : Ok s → Ok after
    pub tells :
        (f : Finding)
        → a.decision.finding ≡ some f
        → (r : Risk) × (a.risk ≡ some r)
          × (repository.find_active f.tenant_id f.opportunity_id t after ≡ ok (some r))
    pub closes :
        a.decision.finding ≡ none
        → a.decision.resolve ≡ true
        → repository.find_active tenant_id opportunity_id t after ≡ ok none
    pub waits : a.decision.finding ≡ none → a.decision.resolve ≡ false → after ≡ s

  -- A guard that was passed.
  guarded :
      (e : Error) (s : State) {after : State} {a : Applied} (b : Bool)
      (k : State × Result Error Applied)
      → ◌≡◌ {A = State × Result Error Applied} (if b then (s, err e) else k) (after, ok a)
      → (b ≡ false) × (k ≡ (after, ok a))
  guarded e s true k h = cc
  guarded e s false k h = (refl, h)

  answered :
      {u v : State} {x y : Applied}
      → ◌≡◌ {A = State × Result Error Applied} (u, ok x) (v, ok y)
      → (u ≡ v) × (x ≡ y)
  answered h = (
    ap (λ (w : State × Result Error Applied). w.0) h,
    ok-injective (ap (λ (w : State × Result Error Applied). w.1) h),
  )

  Effect-subst :
      (tenant_id opportunity_id : String) (t : RiskType) (s : State) {u v : State} {x y : Applied}
      → ◌≡◌ {A = State × Result Error Applied} (u, ok x) (v, ok y)
      → Effect tenant_id opportunity_id t s u x
      → Effect tenant_id opportunity_id t s v y
  Effect-subst tenant_id opportunity_id t s {u} {v} {x} {y} h e =
      let (p, q) = answered h in
      subst (λ z. Effect tenant_id opportunity_id t s v z) q
        (subst (λ w. Effect tenant_id opportunity_id t s w x) p e)

  -- A risk that was made of a finding is where the finding says.
  found_at :
      (id : String) (t : RiskType) (now : Time) (f : Finding) (r : Risk) (o : State) (q : Risk)
      → new_risk id t f now ≡ some r
      → repository.find_active r.tenant_id r.opportunity_id r.risk_type o ≡ ok (some q)
      → repository.find_active f.tenant_id f.opportunity_id t o ≡ ok (some q)
  unfolding built
  found_at id t now f r o q n h =
      subst
        (λ (x : Risk).
          repository.find_active x.tenant_id x.opportunity_id x.risk_type o ≡ ok (some q))
        (new_risk_sound id t f now n).1 h

  same_finding : (d : Option Finding) (f g : Finding) → d ≡ some f → d ≡ some g → f ≡ g
  same_finding d f g h k = some_injective (sym h ∙ k)

  stored-Effect :
      (tenant_id opportunity_id id : String) (t : RiskType) (now : Time) (d : Decision)
      (f : Finding) (r : Risk) (s after : State) (a : Applied)
      (w : State × Result StoreError (Risk × Bool))
      → d.finding ≡ some f
      → new_risk id t f now ≡ some r
      → repository.upsert_active r s ≡ w
      → stored repository d w ≡ (after, ok a)
      → Effect tenant_id opportunity_id t s after a
  unfolding stored
  stored-Effect tenant_id opportunity_id id t now d f r s after a (u, err e) df n w h = cc
  stored-Effect tenant_id opportunity_id id t now d f r s after a (u, ok (q, new)) df n w h =
      let valid = (new_risk_sound id t f now n).0 in
      let there = found_at id t now f r u q n (law.upsert-find valid w) in
      Effect-subst tenant_id opportunity_id t s h (record {
        stays = λ k.
            subst (λ (x : State × Result StoreError (Risk × Bool)). Ok x.0) w (law.upsert-Ok r s k);
        tells = λ g dg. (
          q,
          refl,
          subst
              (λ (x : Finding).
                repository.find_active x.tenant_id x.opportunity_id t u ≡ ok (some q))
              (same_finding d.finding f g df dg) there,
        );
        closes = λ none_found resolve. cc;
        waits = λ none_found resolve. cc;
      })

  closed-Effect :
      (tenant_id opportunity_id : String) (t : RiskType) (now : Time) (d : Decision)
      (s after : State) (a : Applied) (active : Option Risk)
      (answer : Result StoreError (Bool × State))
      → d.finding ≡ none
      → d.resolve ≡ true
      → repository.resolve_active tenant_id opportunity_id t now s ≡ answer
      → closed repository d s active answer ≡ (after, ok a)
      → Effect tenant_id opportunity_id t s after a
  unfolding closed
  closed-Effect tenant_id opportunity_id t now d s after a active (err e) df dr w h = cc
  closed-Effect tenant_id opportunity_id t now d s after a active (ok (done, u)) df dr w h =
      Effect-subst tenant_id opportunity_id t s h (record {
        stays = λ k. law.resolve-Ok k w;
        tells = λ g dg. cc;
        closes = λ none_found resolve. law.resolve-find w;
        waits = λ none_found resolve. cc;
      })

  resolve_found-Effect :
      (tenant_id opportunity_id : String) (t : RiskType) (now : Time) (d : Decision)
      (s after : State) (a : Applied) (found : Result StoreError (Option Risk))
      → d.finding ≡ none
      → d.resolve ≡ true
      → resolve_found repository tenant_id opportunity_id t now d s found ≡ (after, ok a)
      → Effect tenant_id opportunity_id t s after a
  unfolding resolve_found
  resolve_found-Effect tenant_id opportunity_id t now d s after a (err e) df dr h = cc
  resolve_found-Effect tenant_id opportunity_id t now d s after a (ok active) df dr h =
      closed-Effect tenant_id opportunity_id t now d s after a active
        (repository.resolve_active tenant_id opportunity_id t now s) df dr refl h

  made-Effect :
      (tenant_id opportunity_id id : String) (t : RiskType) (now : Time) (d : Decision)
      (f : Finding) (s after : State) (a : Applied) (risk : Option Risk)
      → d.finding ≡ some f
      → new_risk id t f now ≡ risk
      → made repository d s risk ≡ (after, ok a)
      → Effect tenant_id opportunity_id t s after a
  unfolding made
  made-Effect tenant_id opportunity_id id t now d f s after a none df n h = cc
  made-Effect tenant_id opportunity_id id t now d f s after a (some r) df n h =
      stored-Effect tenant_id opportunity_id id t now d f r s after a (repository.upsert_active r s)
        df n refl h

  apply_finding-Effect :
      (tenant_id opportunity_id : String) (t : RiskType) (id : Option String) (now : Time)
      (d : Decision) (f : Finding) (s after : State) (a : Applied)
      → d.finding ≡ some f
      → apply_finding repository t id now d f s ≡ (after, ok a)
      → Effect tenant_id opportunity_id t s after a
  unfolding apply_finding
  apply_finding-Effect tenant_id opportunity_id t none now d f s after a df h = cc
  apply_finding-Effect tenant_id opportunity_id t (some id) now d f s after a df h =
      let (_, h') = guarded Error.invalid_check s (not (supported_type t)) _ h in
      made-Effect tenant_id opportunity_id id t now d f s after a (new_risk id t f now) df refl h'

  undecided-Effect :
      (tenant_id opportunity_id : String) (t : RiskType) (now : Time) (d : Decision)
      (s after : State) (a : Applied) (resolve : Bool)
      → d.finding ≡ none
      → d.resolve ≡ resolve
      → (if not resolve
          then (s, ok (unchanged d))
          else resolve_found repository tenant_id opportunity_id t now d s
              (repository.find_active tenant_id opportunity_id t s))
        ≡ (after, ok a)
      → Effect tenant_id opportunity_id t s after a
  undecided-Effect tenant_id opportunity_id t now d s after a true df dr h =
      resolve_found-Effect tenant_id opportunity_id t now d s after a
        (repository.find_active tenant_id opportunity_id t s) df dr h
  undecided-Effect tenant_id opportunity_id t now d s after a false df dr h =
      Effect-subst tenant_id opportunity_id t s h (record {
        stays = λ k. k;
        tells = λ g dg. cc;
        closes = λ none_found resolve. cc;
        waits = λ none_found resolve. refl;
      })

  apply_decision-Effect :
      (tenant_id opportunity_id : String) (t : RiskType) (id : Option String) (now : Time)
      (d : Decision) (s after : State) (a : Applied) (found : Option Finding)
      → d.finding ≡ found
      → apply_decision repository tenant_id opportunity_id t id now d s found ≡ (after, ok a)
      → Effect tenant_id opportunity_id t s after a
  unfolding apply_decision
  apply_decision-Effect tenant_id opportunity_id t id now d s after a (some f) df h =
      apply_finding-Effect tenant_id opportunity_id t id now d f s after a df h
  apply_decision-Effect tenant_id opportunity_id t id now d s after a none df h =
      undecided-Effect tenant_id opportunity_id t now d s after a d.resolve df refl h

  decided-Effect :
      (tenant_id opportunity_id : String) (t : RiskType) (id : Option String) (now : Time)
      (s after : State) (a : Applied) (answer : Result PolicyError Decision)
      → decided repository tenant_id opportunity_id t id now s answer ≡ (after, ok a)
      → Effect tenant_id opportunity_id t s after a
  unfolding decided
  decided-Effect tenant_id opportunity_id t id now s after a (err e) h = cc
  decided-Effect tenant_id opportunity_id t id now s after a (ok d) h =
      apply_decision-Effect tenant_id opportunity_id t id now d s after a d.finding refl h

  observed-Effect :
      (policy : Policy) (id : Option String) (now : Time) (tenant_id opportunity_id : String)
      (s after : State) (a : Applied) (answer : Result Error ConversationState)
      → observed repository policy id now tenant_id opportunity_id s answer ≡ (after, ok a)
      → Effect tenant_id opportunity_id policy.risk_type s after a
  unfolding observed
  observed-Effect policy id now tenant_id opportunity_id s after a (err e) h = cc
  observed-Effect policy id now tenant_id opportunity_id s after a (ok state) h =
      let (_, h') =
        guarded Error.invalid_check s
          (not (str_eq state.tenant_id tenant_id)
            || not (str_eq state.opportunity_id opportunity_id))
          _ h in
      decided-Effect tenant_id opportunity_id policy.risk_type id now s after a
        (policy.evaluate state now) h'

  -- A call of `Apply` that returns no error leaves what its decision says: after a finding the
  -- repository has the answered risk as the active one, after a decision to resolve it has none, and
  -- otherwise nothing changed.
  pub apply-Effect :
      (states : String → String → Result Error ConversationState) (policy : Policy)
      (id : Option String) (now : Time) (tenant_id opportunity_id : String) (s after : State)
      (a : Applied)
      → apply repository states policy id now tenant_id opportunity_id s ≡ (after, ok a)
      → Effect tenant_id opportunity_id policy.risk_type s after a
  unfolding apply
  apply-Effect states policy id now tenant_id opportunity_id s after a h =
      let (_, h') =
        guarded Error.invalid_check s (is_empty tenant_id || is_empty opportunity_id) _ h in
      observed-Effect policy id now tenant_id opportunity_id s after a
        (states tenant_id opportunity_id) h'

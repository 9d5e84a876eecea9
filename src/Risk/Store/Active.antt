-- ===== src/Risk/Store/Active.antt =====
-- `UpsertActive` among other transactions, and what `FindActive` reads after it.
use lidradar.Prelude.{
  ℕ, zero, suc, ◌≡◌, refl, ap, subst, ◌∙◌, String, Bool, true, false, not, ◌||◌, Option, none, some,
  arith, if◌then◌else◌, Result, ok, err,
}
use lidradar.Text.{is_empty}
use lidradar.Time.{Time}
use lidradar.Float.{Float64}
use lidradar.Tables.{find}
use lidradar.Risk.Aggregate.{RiskType, Severity, Risk, active, validate, supported_type}
use lidradar.Risk.Store.{
  Error, Tables, active_at, find_active, resolve_active, after_insert, after_update, columns,
  insert, update, upsert_rounds, upsert_active,
}
use lidradar.Risk.Store.Rows.{Valid, validate-Valid}
use lidradar.Risk.Store.Columns.{KeepsUnit, columns-Valid}
use lidradar.Risk.Store.Laws.{RisksOk, insert-RisksOk, update-RisksOk, resolve_active-RisksOk}
use lidradar.Risk.Store.Stored.{Stored, ok_pair, insert-Stored, update_found-Stored}

module _ (json_object : String → Bool) (same_data : String → String → Bool) (known : Risk → Bool)
    (opened_data : String → String → String → RiskType → Severity → String) where
  -- A statement that commits, with the tables it leaves.
  pub data Operation (s : Tables) : Tables → Type 0 where
    inserts :
        (c : Risk) {r : Risk} {after : Tables}
        → insert json_object same_data known opened_data c s ≡ ok (some (r, after))
        → Operation s after
    updates : (c : Risk) → Valid c → Operation s (update known c s).0
    resolves :
        (tenant_id opportunity_id : String) (t : RiskType) (at : Time) {done : Bool}
        {after : Tables}
        → resolve_active tenant_id opportunity_id t at s ≡ ok (done, after)
        → Operation s after

  pub data History (s : Tables) : Tables → Type 0 where
    starts : History s s
    then_runs : {t u : Tables} → History s t → Operation t u → History s u

  Operation-RisksOk : {s t : Tables} → RisksOk s.risks → Operation s t → RisksOk t.risks
  Operation-RisksOk {s} k (Operation.inserts c h) =
      insert-RisksOk json_object same_data known opened_data c s k h
  Operation-RisksOk {s} k (Operation.updates c v) = update-RisksOk known c s v k
  Operation-RisksOk {s} k (Operation.resolves tenant_id opportunity_id t at h) =
      resolve_active-RisksOk tenant_id opportunity_id t at s k h

  -- Over any sequence of statements of the store every risk passes Validate, and no opportunity has
  -- two active risks of one type.
  History-RisksOk : {s t : Tables} → RisksOk s.risks → History s t → RisksOk t.risks
  History-RisksOk k History.starts = k
  History-RisksOk k (History.then_runs h o) = Operation-RisksOk (History-RisksOk k h) o

  History-append : {s t u : Tables} → History s t → History t u → History s u
  History-append h History.starts = h
  History-append h (History.then_runs k o) = History.then_runs (History-append h k) o

  module _ (before behind : ℕ → Tables → Tables)
      (before_runs : (n : ℕ) (s : Tables) → History s (before n s))
      (behind_runs : (n : ℕ) (s : Tables) → History s (behind n s)) where
    -- What a call of `UpsertActive` has come to.
    Outcome : Risk → Tables → Tables × Result Error (Risk × Bool) → Type 0
    Outcome c s (after, answer) =
        History s after × ((r : Risk) (new : Bool) → answer ≡ ok (r, new) → Stored c after r)

    after_insert-Outcome :
        (c : Risk) (s : Tables) (answer : Result Error (Option (Risk × Tables)))
        (blocked : Unit {0} → Tables × Result Error (Risk × Bool))
        → insert json_object same_data known opened_data c s ≡ answer
        → Outcome c s (blocked tt)
        → Outcome c s (after_insert s answer blocked)
    unfolding after_insert Outcome
    after_insert-Outcome c s (err e) blocked h o = (History.starts, λ r new k. cc)
    after_insert-Outcome c s (ok none) blocked h o = o
    after_insert-Outcome c s (ok (some (r, after))) blocked h o = (
      History.then_runs History.starts (Operation.inserts c h),
      λ q new k.
          insert-Stored json_object same_data known opened_data c s q after
            (h ∙ ap (λ x. ok (some (x, after))) (ok_pair k)),
    )

    updated-History :
        (c : Risk) (s t : Tables) {answer : Result Error (Option Risk)}
        → update known c s ≡ (t, answer)
        → Valid c
        → History s t
    updated-History c s t {answer} h v = History.then_runs History.starts (
        subst (λ (w : Tables × Result Error (Option Risk)). Operation s w.0) h
          (Operation.updates c v))

    after_update-Outcome :
        (c : Risk) (s t : Tables) (answer : Result Error (Option Risk))
        (next : Tables → Tables × Result Error (Risk × Bool))
        → update known c s ≡ (t, answer)
        → Valid c
        → Outcome c t (next t)
        → Outcome c s (after_update (t, answer) next)
    unfolding after_update Outcome
    after_update-Outcome c s t (err e) next h v o = (updated-History c s t h v, λ r new k. cc)
    after_update-Outcome c s t (ok (some q)) next h v o = (
      updated-History c s t h v,
      λ r new k.
          update_found-Stored known c s t
            (find (active_at c.tenant_id c.opportunity_id c.risk_type) s.risks) r refl
            (unfold update in h ∙ ap (λ x. (t, ok (some x))) (ok_pair k)),
    )
    after_update-Outcome c s t (ok none) next h v o =
        (History-append (updated-History c s t h v) o.0, o.1)

    upsert_rounds-Outcome :
        (n : ℕ) (c : Risk) (s : Tables)
        → Valid c
        → Outcome c s (upsert_rounds json_object same_data known opened_data before behind n c s)
    unfolding upsert_rounds Outcome
    upsert_rounds-Outcome zero c s v = (History.starts, λ r new h. cc)
    upsert_rounds-Outcome (suc n) c s v =
        let u = before n s in
        let next : Tables → Tables × Result Error (Risk × Bool) = λ t.
          upsert_rounds json_object same_data known opened_data before behind n c (behind n t) in
        let t = (update known c u).0 in
        let on = upsert_rounds-Outcome n c (behind n t) v in
        let later : Outcome c t (next t) = (History-append (behind_runs n t) on.0, on.1) in
        let here : Outcome c u (after_update (update known c u) next) =
          after_update-Outcome c u t (update known c u).1 next refl v later in
        after_insert-Outcome c s (insert json_object same_data known opened_data c s)
          (λ _. after_update (update known c u) next) refl
          (History-append (before_runs n s) here.0, here.1)

    guarded-Outcome :
        (bad : Bool) (c : Risk) (s : Tables) (w : Tables × Result Error (Risk × Bool))
        → (bad ≡ false → Outcome c s w)
        → Outcome c s (if bad then (s, err Error.invalid_risk) else w)
    unfolding Outcome
    guarded-Outcome true c s w o = (History.starts, λ r new h. cc)
    guarded-Outcome false c s w o = o refl

    upsert_active-Outcome :
        (rounded : Float64 → Float64) (c : Risk) (s : Tables)
        → KeepsUnit rounded
        → Outcome
            (columns rounded c)
            s
            (upsert_active json_object same_data known opened_data before behind rounded c s)
    unfolding upsert_active
    upsert_active-Outcome rounded c s k =
        guarded-Outcome (not (active c) || not (validate c)) (columns rounded c) s _ λ good.
          upsert_rounds-Outcome 3 (columns rounded c) s
            (columns-Valid rounded c k (validate-Valid c (ground (arith, good))))

    -- Whatever statements of the store others commit in between, `UpsertActive` leaves every risk
    -- valid and no two active risks of one opportunity and type.
    pub upsert_active-RisksOk :
        (rounded : Float64 → Float64) (c : Risk) (s : Tables)
        → KeepsUnit rounded
        → RisksOk s.risks
        → RisksOk
            (upsert_active json_object same_data known opened_data before behind rounded c
              s).0.risks
    unfolding Outcome
    upsert_active-RisksOk rounded c s k t =
        History-RisksOk t (upsert_active-Outcome rounded c s k).0

    -- Whatever statements of the store others commit in between, the risk that `UpsertActive`
    -- answers with is the one that `FindActive` reads next.
    pub upsert-find :
        (rounded : Float64 → Float64) (c r : Risk) (new : Bool) (s after : Tables)
        → KeepsUnit rounded
        → supported_type c.risk_type ≡ true
        → is_empty c.tenant_id ≡ false
        → is_empty c.opportunity_id ≡ false
        → upsert_active json_object same_data known opened_data before behind rounded c s
          ≡ (after, ok (r, new))
        → find_active c.tenant_id c.opportunity_id c.risk_type after ≡ ok (some r)
    unfolding find_active columns
    upsert-find rounded c r new s after k supported named placed h =
        let outcome =
          subst (Outcome (columns rounded c) s) h (upsert_active-Outcome rounded c s k) in
        let stored : Stored (columns rounded c) after r = unfold Outcome in outcome.1 r new refl in
        rw (supported, named, placed, stored.found, stored.valid) refl

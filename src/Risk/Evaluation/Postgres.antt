-- ===== src/Risk/Evaluation/Postgres.antt =====
-- The PostgreSQL store keeps the contract of `domain.Repository`
-- (backend/internal/risk/infrastructure/postgres_repository.go), and so the evaluator keeps its table.
use lidradar.Prelude.{
  ℕ, ◌≡◌, refl, subst, String, Bool, true, false, not, ◌||◌, none, ok, arith, fail_if-eq-ok,
  ok-injective,
}
use lidradar.Text.{is_empty}
use lidradar.Time.{Time, is_zero}
use lidradar.Float.{Float64}
use lidradar.Tables.{find}
use lidradar.Tables.Apart.{find-update_where-none, or_false}
use lidradar.Risk.Aggregate.{
  RiskType, Severity, Risk, active, status_active, incomplete, supported_type,
}
use lidradar.Risk.Store.{
  Error, Tables, active_at, find_active, resolve_active, resolved_row, upsert_active,
}
use lidradar.Risk.Store.Rows.{validate-Valid}
use lidradar.Risk.Store.Columns.{KeepsUnit}
use lidradar.Risk.Store.Laws.{RisksOk, resolve_active-RisksOk}
use lidradar.Risk.Store.Active.{History, upsert_active-RisksOk, upsert-find}
use lidradar.Risk.Evaluation.{Repository}
use lidradar.Risk.Evaluation.Contract.{IsRepository}

named_parts :
    (a b c d e f g h i j k l m n : Bool)
    → a || b || c || d || not e || f || g || h || i || j || k || l || m || n ≡ false
    → (b ≡ false) × (c ≡ false) × (e ≡ true)
named_parts a b c d e f g h i j k l m n p = ground arith

keys_of :
    (r : Risk)
    → incomplete r ≡ false
    → (is_empty r.tenant_id ≡ false)
      × (is_empty r.opportunity_id ≡ false)
      × (supported_type r.risk_type ≡ true)
unfolding incomplete
keys_of r h =
    named_parts _ (is_empty r.tenant_id) (is_empty r.opportunity_id) _ (supported_type r.risk_type)
      _ _ _ _ _ _ _ _ _ h

resolved_away :
    (tenant_id opportunity_id : String) (t : RiskType) (at : Time) (r : Risk)
    → active_at tenant_id opportunity_id t (resolved_row at r) ≡ false
unfolding active_at active status_active resolved_row
resolved_away tenant_id opportunity_id t at r = refl

resolve-find_active :
    (tenant_id opportunity_id : String) (t : RiskType) (at : Time) (s after : Tables) (done : Bool)
    → resolve_active tenant_id opportunity_id t at s ≡ ok (done, after)
    → find_active tenant_id opportunity_id t after ≡ ok none
unfolding resolve_active find_active
resolve-find_active tenant_id opportunity_id t at s after done h =
    let (good, h') =
      fail_if-eq-ok
        (is_empty tenant_id || is_empty opportunity_id || not (supported_type t) || is_zero at)
        Error.invalid_risk _ h in
    let (named, _) =
      or_false (is_empty tenant_id || is_empty opportunity_id || not (supported_type t))
        (is_zero at) good in
    let p = active_at tenant_id opportunity_id t in
    let gone : find p after.risks ≡ none =
      subst (λ (w : Bool × Tables). find p w.1.risks ≡ none) (ok-injective h')
        (find-update_where-none p (resolved_row at) (resolved_away tenant_id opportunity_id t at)
          s.risks) in
    rw (named, gone) refl

module _ (json_object : String → Bool) (same_data : String → String → Bool) (known : Risk → Bool)
    (opened_data : String → String → String → RiskType → Severity → String)
    (before behind : ℕ → Tables → Tables) (rounded : Float64 → Float64) where
  -- The store as a repository.
  unfoldable pub postgres : Repository Tables
  postgres = record {
    find_active = find_active;
    resolve_active = resolve_active;
    upsert_active = upsert_active json_object same_data known opened_data before behind rounded;
  }

  -- Among other transactions that only run statements of the store, the PostgreSQL store keeps the
  -- contract that the evaluator relies on: its tables stay valid with at most one active risk of a
  -- type, and FindActive reads what UpsertActive and ResolveActive left.
  pub postgres-IsRepository :
      ((n : ℕ) (s : Tables) → History json_object same_data known opened_data s (before n s))
      → ((n : ℕ) (s : Tables) → History json_object same_data known opened_data s (behind n s))
      → KeepsUnit rounded
      → IsRepository postgres (λ s. RisksOk s.risks)
  unfolding postgres
  postgres-IsRepository before_runs behind_runs k = record {
    resolve-Ok = λ {tenant_id} {opportunity_id} {t} {at} {s} {after} {done} v h.
        resolve_active-RisksOk tenant_id opportunity_id t at s v h;
    upsert-Ok = λ r s v.
        upsert_active-RisksOk json_object same_data known opened_data before behind before_runs
          behind_runs rounded r s k v;
    resolve-find = λ {tenant_id} {opportunity_id} {t} {at} {s} {after} {done} h.
        resolve-find_active tenant_id opportunity_id t at s after done h;
    upsert-find = λ {r} {q} {new} {s} {after} v h.
        let (named, placed, supported) = keys_of r (validate-Valid r v).complete in
        upsert-find json_object same_data known opened_data before behind before_runs behind_runs
          rounded r q new s after k supported named placed h;
  }

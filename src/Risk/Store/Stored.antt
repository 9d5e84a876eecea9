-- ===== src/Risk/Store/Stored.antt =====
-- What an INSERT and an UPDATE of `UpsertActive` leave behind for `FindActive`
-- (backend/internal/risk/infrastructure/postgres_repository.go).
use lidradar.Prelude.{
  ◌≡◌, refl, sym, ap, ◌∙◌, String, Bool, true, false, not, ◌&&◌, Option, none, some, if◌then◌else◌,
  Result, ok, err, ok-injective,
}
use lidradar.Tables.{find, update_where}
use lidradar.Tables.Apart.{
  find-some, find-append-one, find-update_where, text_eq_refl, some_injective,
}
use lidradar.Risk.Aggregate.{RiskType, Severity, Risk, active, status_active, validate}
use lidradar.Risk.Store.{
  Error, Tables, type_text, active_at, lengths_ok, updated_row, opened_row, insert, update_found,
}
use lidradar.Risk.Store.Laws.{insert-Inserted}

-- The stored risk is valid, and the active one of its opportunity and type.
pub record Stored (c : Risk) (after : Tables) (r : Risk) : Type 0 where
  pub found : find (active_at c.tenant_id c.opportunity_id c.risk_type) after.risks ≡ some r
  pub valid : validate r ≡ true

pub ok_pair :
    {r q : Risk} {a b : Bool} → ◌≡◌ {A = Result Error (Risk × Bool)} (ok (r, a)) (ok (q, b)) → r ≡ q
ok_pair h = ap (λ (u : Risk × Bool). u.0) (ok-injective h)

opened_at : (c : Risk) → active_at c.tenant_id c.opportunity_id c.risk_type (opened_row c) ≡ true
unfolding active_at opened_row active status_active
opened_at c =
    rw
      (
        text_eq_refl c.tenant_id,
        text_eq_refl c.opportunity_id,
        text_eq_refl (type_text c.risk_type),
      )
      refl

updated_at :
    (c r : Risk)
    → active_at c.tenant_id c.opportunity_id c.risk_type r ≡ true
    → active_at c.tenant_id c.opportunity_id c.risk_type (updated_row c r) ≡ true
unfolding active_at updated_row active
updated_at c r h = h

-- A row that was written and read.
written :
    (b v : Bool) (s u t : Tables) (x r : Risk)
    → ◌≡◌ {A = Tables × Result Error (Option Risk)}
        (if b
          then (s, err Error.invalid_risk)
          else (u, if v then ok (some x) else err Error.invalid_risk))
        (t, ok (some r))
    → (v ≡ true) × (u ≡ t) × (x ≡ r)
written true v s u t x r h = cc
written false true s u t x r h =
    let same : ◌≡◌ {A = Result Error (Option Risk)} (ok (some x)) (ok (some r)) =
      ap (λ (w : Tables × Result Error (Option Risk)). w.1) h in
    (
      refl,
      ap (λ (w : Tables × Result Error (Option Risk)). w.0) h,
      some_injective (ok-injective same),
    )
written false false s u t x r h = cc

pub insert-Stored :
    (json_object : String → Bool) (same_data : String → String → Bool) (known : Risk → Bool)
    (opened_data : String → String → String → RiskType → Severity → String) (c : Risk) (s : Tables)
    (r : Risk) (after : Tables)
    → insert json_object same_data known opened_data c s ≡ ok (some (r, after))
    → Stored c after r
insert-Stored json_object same_data known opened_data c s r after h =
    let done = insert-Inserted json_object same_data known opened_data c s h in
    let p = active_at c.tenant_id c.opportunity_id c.risk_type in
    record {
      found =
          ap (find p) (sym done.is_behind)
          ∙ find-append-one p s.risks (opened_row c) done.free (opened_at c)
          ∙ ap some done.is_opened;
      valid = ap validate (sym done.is_opened) ∙ done.row_valid;
    }

pub update_found-Stored :
    (known : Risk → Bool) (c : Risk) (s t : Tables) (found : Option Risk) (r : Risk)
    → find (active_at c.tenant_id c.opportunity_id c.risk_type) s.risks ≡ found
    → update_found known c s found ≡ (t, ok (some r))
    → Stored c t r
unfolding update_found
update_found-Stored known c s t none r f h = cc
update_found-Stored known c s t (some q) r f h =
    let p = active_at c.tenant_id c.opportunity_id c.risk_type in
    let (good, tables, row) =
      written (not (lengths_ok c && known c)) (validate (updated_row c q)) s
        (record s { risks = update_where p (updated_row c) s.risks }) t (updated_row c q) r h in
    record {
      found =
          ap (λ (u : Tables). find p u.risks) (sym tables)
          ∙ find-update_where p (updated_row c) s.risks q f
              (updated_at c q (find-some p s.risks q f).1)
          ∙ ap some row;
      valid = ap validate (sym row) ∙ good;
    }

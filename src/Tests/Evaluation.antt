-- ===== src/Tests/Evaluation.antt =====
-- The unanswered customer of the tests on risks: the evaluator opens a risk in an empty store.
use lidradar.Prelude.{◌≡◌, refl, ap, ◌∙◌, Bool, true, String, some, [], str_eq, ok}
use lidradar.Float.{Float64, outside_unit, one_unit}
use lidradar.Events.Event.{Event, attempts_ok, fields_ok, new_event, shape_ok, status_valid}
use lidradar.Risk.Aggregate.{
  RiskType, Severity, Risk, active, refresh, validate, built, supported_type, new_risk, incomplete,
  severity_ok, source_ok, stamps_ok, default_source, evidence_ok, hybrid_type, status_active,
}
use lidradar.Risk.Policy.{ConversationState}
use lidradar.Risk.Policy.NoResponse.{evaluate, version}
use lidradar.Risk.Store.{
  Tables, upsert_active, updated_row, active_at, lengths_ok, upsert_rounds, after_insert, insert,
  after_update, append_made, append_opened, columns, opened_row, type_text, update, update_found,
}
use lidradar.Risk.Store.Columns.{KeepsUnit, finding_of, updated_row-refresh}
use lidradar.Risk.Store.Laws.{RisksOk}
use lidradar.Risk.Store.Active.{History}
use lidradar.Risk.Store.Accepted.{Accepted, upsert-Accepted, quiet}
use lidradar.Risk.Evaluation.{
  Policy, Repository, Applied, apply, stored, made, apply_finding, decided as decided_by,
  apply_decision, observed, of_store,
}
use lidradar.Risk.Evaluation.Effect.{Effect, apply-Effect}
use lidradar.Risk.Evaluation.Contract.{IsRepository}
use lidradar.Risk.Evaluation.Postgres.{postgres, postgres-IsRepository}
use lidradar.Tests.Risk.{
  zones, state, due, decided, decision, finding, opened, opened-eq, opened-valid,
}
use lidradar.Text.{joined, decimal, trim_space, code_pattern, decimal_from, digit, trim_right}
use lidradar.Events.Store.{append, append_found, equivalent, inserted}
use lidradar.Jobs.Job.{code_ok, leased, valid_error_code, valid_name}
use lidradar.Tables.{find, update_where}

abbrev pub is_object : String → Bool
is_object _ = true

abbrev known : Risk → Bool
known _ = true

abbrev data_of : String → String → String → RiskType → Severity → String
data_of id opportunity_id location_id t severity = "{}"

abbrev exact : Float64 → Float64
exact x = x

exact-KeepsUnit : KeepsUnit exact
exact-KeepsUnit x h = h

abbrev pub empty : Tables
empty = record { risks = []; events = [] }

upsert-Accepted_example :
    Accepted
      (columns exact opened)
      empty
      (upsert_active is_object str_eq known data_of quiet quiet exact opened empty)
unfolding active built lengths_ok lidradar.Risk.Policy.NoResponse.finding_of joined decimal
upsert-Accepted_example =
    upsert-Accepted is_object str_eq known data_of (λ id o l t s. refl) exact opened empty
      exact-KeepsUnit (tt, tt) refl opened-valid refl refl refl refl

updated_row-refresh_example :
    refresh opened (finding_of opened) due
    ≡ (updated_row opened opened, validate (updated_row opened opened))
unfolding built active_at lidradar.Risk.Policy.NoResponse.finding_of
updated_row-refresh_example = updated_row-refresh opened opened refl refl refl

abbrev pub store : Repository Tables
store = postgres is_object str_eq known data_of quiet quiet exact

store_law : IsRepository store (λ s. RisksOk s.risks)
store_law =
    postgres-IsRepository is_object str_eq known data_of quiet quiet exact (λ n s. History.starts)
      (λ n s. History.starts) exact-KeepsUnit

postgres-IsRepository_example : IsRepository store (λ s. RisksOk s.risks)
postgres-IsRepository_example =
    postgres-IsRepository is_object str_eq known data_of quiet quiet exact (λ n s. History.starts)
      (λ n s. History.starts) exact-KeepsUnit

abbrev pub policy : Policy
policy = record { risk_type = RiskType.no_response; version = version; evaluate = evaluate zones }

abbrev after : Tables
after = (upsert_active is_object str_eq known data_of quiet quiet exact opened empty).0

abbrev applied : Applied
applied = record {
  decision = decision;
  risk = some opened;
  created = true;
  signal = some ("risk.changed", "risk");
}

stored-eq :
    stored store decision
      (upsert_active is_object str_eq known data_of quiet quiet exact opened empty)
    ≡ (after, ok applied)
unfolding stored upsert_active active built validate incomplete
    lidradar.Risk.Policy.NoResponse.finding_of trim_space code_pattern joined decimal severity_ok
    source_ok stamps_ok upsert_rounds after_insert insert attempts_ok fields_ok new_event shape_ok
    status_valid lidradar.Events.Event.validate append append_found equivalent inserted one_unit
    outside_unit code_ok leased valid_error_code valid_name default_source evidence_ok hybrid_type
    status_active supported_type of_store active_at after_update append_made append_opened columns
    lengths_ok opened_row type_text update update_found updated_row find update_where decimal_from
    digit trim_right
stored-eq = refl

made-eq : made store decision empty (some opened) ≡ (after, ok applied)
unfolding made stored postgres upsert_active
made-eq = stored-eq

finding-eq :
    apply_finding store RiskType.no_response (some "risk") due decision finding empty
    ≡ (after, ok applied)
unfolding apply_finding made supported_type new_risk
finding-eq = ap (made store decision empty) opened-eq ∙ made-eq

decided-eq :
    decided_by store "org" "deal" RiskType.no_response (some "risk") due empty (ok decision)
    ≡ (after, ok applied)
unfolding decided_by apply_finding apply_decision supported_type
decided-eq = finding-eq

applied-eq :
    apply store (λ t o. ok state) policy (some "risk") due "org" "deal" empty ≡ (after, ok applied)
unfolding apply decided_by observed evaluate
applied-eq =
    ap (decided_by store "org" "deal" RiskType.no_response (some "risk") due empty) decided
    ∙ decided-eq

apply-Effect_example :
    Effect store
      (λ s. RisksOk s.risks)
      store_law
      "org"
      "deal"
      RiskType.no_response
      empty
      after
      applied
apply-Effect_example =
    apply-Effect store (λ s. RisksOk s.risks) store_law (λ t o. ok state) policy (some "risk") due
      "org" "deal" empty after applied applied-eq

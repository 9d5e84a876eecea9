-- ===== src/Risk/Store/Accepted.antt =====
-- `UpsertActive` where nothing comes in between: a valid active candidate is always stored.
use lidradar.Prelude.{
  ℕ, suc, ◌≡◌, refl, ap, ◌∙◌, String, Bool, true, false, ◌||◌, Option, none, some, any, List, [],
  ◌∷◌, ◌++◌, arith, Result, ok, err,
}
use mathlib.Core.List.{Memᴰ}
use lidradar.Text.{is_empty, trim_space}
use lidradar.Time.{is_zero}
use lidradar.Float.{Float64}
use lidradar.Tables.{find, update_where, All-Memᴰ, any-of-Memᴰ}
use lidradar.Tables.Apart.{find-some, find-none, find-absent}
use lidradar.Events.Event.{
  Event, Error as EventError, Status as EventStatus, new_event, validate as validate_event,
  fields_ok, attempts_ok, status_valid, shape_ok,
}
use lidradar.Events.Store.{append, append_found, inserted, has_id as event_has_id}
use lidradar.Jobs.Job.{valid_name, code_ok}
use lidradar.Risk.Aggregate.{RiskType, Severity, Risk, active, validate, incomplete}
use lidradar.Risk.Store.{
  Error, Tables, active_at, has_id, lengths_ok, updated_row, opened_row, columns, append_opened,
  append_made, insert, update_found, update, upsert_rounds, upsert_active, after_insert,
  after_update,
}
use lidradar.Risk.Store.Rows.{
  Valid, validate-Valid, Valid-validate, opened_row-Valid, updated_row-Valid,
}
use lidradar.Risk.Store.Columns.{KeepsUnit, columns-Valid}
use lidradar.Risk.Store.Laws.{RisksOk, active_at-type}

-- What a complete risk has.
complete_parts :
    (a b c d e f g h i j k l m n : Bool)
    → a || b || c || d || e || f || g || h || i || j || k || l || m || n ≡ false
    → (a ≡ false) × (b ≡ false) × (l ≡ false)
complete_parts a b c d e f g h i j k l m n p = ground arith

named :
    (r : Risk)
    → incomplete r ≡ false
    → (is_empty r.id ≡ false) × (is_empty r.tenant_id ≡ false) × (is_zero r.detected_at ≡ false)
unfolding incomplete
named r h =
    complete_parts (is_empty r.id) (is_empty r.tenant_id) _ _ _ _ _ _ _ _ _ (is_zero r.detected_at)
      _ _ h

-- Whether an active risk is in the way of the INSERT of a candidate.
abbrev pub in_way : Risk → Tables → Bool
in_way c s = any (active_at c.tenant_id c.opportunity_id c.risk_type) s.risks

module _ (json_object : String → Bool) (same_data : String → String → Bool)
    (opened_data : String → String → String → RiskType → Severity → String)
    (is_json : (id opportunity_id location_id : String) (t : RiskType) (severity : Severity)
      → json_object (opened_data id opportunity_id location_id t severity) ≡ true) where
  abbrev data_of : Risk → String
  data_of r = opened_data r.id r.opportunity_id r.location_id r.risk_type r.severity

  -- The event `risk.opened` of a risk.
  abbrev event_of : Risk → Event
  event_of r = record {
    id = r.id;
    event_type = "risk.opened";
    version = 1;
    occurred_at = r.detected_at;
    tenant_id = r.tenant_id;
    aggregate_type = "risk";
    aggregate_id = r.id;
    trace_id = r.id;
    payload = data_of r;
    status = EventStatus.pending;
    available_at = r.detected_at;
    attempt_count = 0;
    max_attempts = 5;
    leased_by = none;
    lease_until = none;
    last_error_code = none;
    completed_at = none;
    created_at = r.detected_at;
    updated_at = r.detected_at;
  }

  event_passes : (r : Risk) → Valid r → validate_event json_object (event_of r) ≡ true
  unfolding validate_event fields_ok attempts_ok status_valid shape_ok valid_name code_ok trim_space
  event_passes r v =
      let (a, b, c) = named r v.complete in
      rw (a, b, c, is_json r.id r.opportunity_id r.location_id r.risk_type r.severity) refl

  new_event-event_of :
      (r : Risk)
      → Valid r
      → new_event json_object r.id "risk.opened" 1 r.tenant_id "risk" r.id r.id
          (data_of r)
          r.detected_at
        ≡ some (event_of r)
  unfolding new_event trim_space
  new_event-event_of r v = rw (event_passes r v) refl

  append-event_of :
      (r : Risk) (es : List Event)
      → Valid r
      → any (event_has_id r.id) es ≡ false
      → append json_object same_data (event_of r) es ≡ ok (event_of r, true, es ++ event_of r ∷ [])
  unfolding append append_found inserted
  append-event_of r es v fresh =
      rw (event_passes r v, find-absent (event_has_id r.id) es fresh, event_passes r v) refl

  kept_of : Result EventError (Event × Bool × List Event) → Result Error (List Event)
  kept_of answer = elim answer [ err _ ↦ err Error.failed | ok (_, _, after) ↦ ok after ]

  announced :
      (r : Risk) (es : List Event)
      → Valid r
      → any (event_has_id r.id) es ≡ false
      → append_opened json_object same_data opened_data r es ≡ ok (es ++ event_of r ∷ [])
  unfolding append_opened append_made kept_of
  announced r es v fresh =
      ap (λ e. append_made json_object same_data opened_data e es) (new_event-event_of r v)
      ∙ ap kept_of (append-event_of r es v fresh)

  insert_free :
      (known : Risk → Bool) (c : Risk) (s : Tables)
      → Valid c
      → lengths_ok c ≡ true
      → known c ≡ true
      → any (has_id c.id) s.risks ≡ false
      → any (event_has_id c.id) s.events ≡ false
      → in_way c s ≡ false
      → insert json_object same_data known opened_data c s
        ≡ ok (
            some (
              opened_row c,
              record {
                risks = s.risks ++ opened_row c ∷ [];
                events = s.events ++ event_of (opened_row c) ∷ [];
              },
            ))
  unfolding insert
  insert_free known c s v short k fresh unheard free =
      let w = opened_row-Valid c v in
      let e = announced (opened_row c) s.events w (unfold opened_row in unheard) in
      rw (short, free, fresh, k, Valid-validate (opened_row c) w, e) refl

  insert_blocked :
      (known : Risk → Bool) (c : Risk) (s : Tables)
      → lengths_ok c ≡ true
      → in_way c s ≡ true
      → insert json_object same_data known opened_data c s ≡ ok none
  unfolding insert
  insert_blocked known c s short way = rw (short, way) refl

-- The tables after the UPDATE.
abbrev updated : Risk → Tables → Tables
updated c s = record s {
  risks = update_where (active_at c.tenant_id c.opportunity_id c.risk_type) (updated_row c) s.risks;
}

update_blocked :
    (known : Risk → Bool) (c r : Risk) (s : Tables)
    → lengths_ok c ≡ true
    → known c ≡ true
    → Valid c
    → Valid r
    → find (active_at c.tenant_id c.opportunity_id c.risk_type) s.risks ≡ some r
    → update known c s ≡ (updated c s, ok (some (updated_row c r)))
unfolding update update_found
update_blocked known c r s short k v w f =
    let (m, at) = find-some (active_at c.tenant_id c.opportunity_id c.risk_type) s.risks r f in
    let good =
      Valid-validate (updated_row c r) (updated_row-Valid c r v w (active_at-type c r at)) in
    rw (f, short, k, good) refl

abbrev pub quiet : ℕ → Tables → Tables
quiet n s = s

-- What `UpsertActive` comes to where nothing is committed in between: the tables and the answer.
-- Without an active risk of its opportunity and type the candidate is a new row behind the others,
-- open and without stamps, and behind the events is one that tells of it. Otherwise exactly the active
-- risk is rewritten, and no event is added.
pub data Accepted (c : Risk) (s : Tables) : Tables × Result Error (Risk × Bool) → Type 0 where
  opens :
      (e : Event)
      → in_way c s ≡ false
      → (e.id ≡ c.id)
        × (e.event_type ≡ "risk.opened")
        × (e.aggregate_id ≡ c.id)
        × (e.tenant_id ≡ c.tenant_id)
      → Accepted c s (
        record { risks = s.risks ++ opened_row c ∷ []; events = s.events ++ e ∷ [] },
        ok (opened_row c, true),
      )
  refreshes :
      (r : Risk)
      → Memᴰ r s.risks
      → active_at c.tenant_id c.opportunity_id c.risk_type r ≡ true
      → Accepted c s (updated c s, ok (updated_row c r, false))

module _ (json_object : String → Bool) (same_data : String → String → Bool) (known : Risk → Bool)
    (opened_data : String → String → String → RiskType → Severity → String)
    (is_json : (id opportunity_id location_id : String) (t : RiskType) (severity : Severity)
      → json_object (opened_data id opportunity_id location_id t severity) ≡ true) where
  round-Accepted :
      (n : ℕ) (c : Risk) (s : Tables) (found : Option Risk)
      → find (active_at c.tenant_id c.opportunity_id c.risk_type) s.risks ≡ found
      → RisksOk s.risks
      → Valid c
      → lengths_ok c ≡ true
      → known c ≡ true
      → any (has_id c.id) s.risks ≡ false
      → any (event_has_id c.id) s.events ≡ false
      → Accepted c s (upsert_rounds json_object same_data known opened_data quiet quiet (suc n) c s)
  unfolding upsert_rounds after_insert after_update opened_row
  round-Accepted n c s none f t v short k fresh unheard =
      let free = find-none (active_at c.tenant_id c.opportunity_id c.risk_type) s.risks f in
      let put =
        insert_free json_object same_data opened_data is_json known c s v short k fresh unheard
          free in
      rw put (
        Accepted.opens (event_of json_object same_data opened_data is_json (opened_row c)) free
          (refl, refl, refl, refl))
  round-Accepted n c s (some r) f t v short k fresh unheard =
      let p = active_at c.tenant_id c.opportunity_id c.risk_type in
      let (m, at) = find-some p s.risks r f in
      let way = any-of-Memᴰ p s.risks r m at in
      let put = insert_blocked json_object same_data opened_data is_json known c s short way in
      let w = All-Memᴰ Valid s.risks r t.0 m in
      rw (put, update_blocked known c r s short k v w f) (Accepted.refreshes r m at)

  -- Where nothing else is committed in between, `UpsertActive` accepts every valid active candidate
  -- with an id that no risk and no event has, texts no longer than their columns and the rows that its
  -- foreign keys name, in tables of valid risks with at most one active to an opportunity and type. If
  -- an active risk of its opportunity and type is there, that row and no other is rewritten and
  -- answered; else a new open row is appended and answered, and one event `risk.opened` of it. What is
  -- stored is the candidate with the confidence as NUMERIC(4,3) keeps it, still within the unit.
  pub upsert-Accepted :
      (rounded : Float64 → Float64) (c : Risk) (s : Tables)
      → KeepsUnit rounded
      → RisksOk s.risks
      → active c ≡ true
      → validate c ≡ true
      → lengths_ok c ≡ true
      → known (columns rounded c) ≡ true
      → any (has_id c.id) s.risks ≡ false
      → any (event_has_id c.id) s.events ≡ false
      → Accepted
          (columns rounded c)
          s
          (upsert_active json_object same_data known opened_data quiet quiet rounded c s)
  unfolding upsert_active columns lengths_ok
  upsert-Accepted rounded c s k t a v short there fresh unheard =
      let valid = columns-Valid rounded c k (validate-Valid c v) in
      let done = round-Accepted 2 (columns rounded c) s _ refl t valid short there fresh unheard in
      rw (a, v) done

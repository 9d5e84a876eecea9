-- ===== src/Events/Event.antt =====
-- An event of the outbox (backend/internal/events/domain/event.go). Its checks of names, of codes and
-- of leases are those of a job, word for word.
use lidradar.Prelude.{
  ℕ, String, Bool, true, false, not, ◌&&◌, ◌||◌, Option, none, some, if◌then◌else◌, ltb, is_some,
  is_none, [], ◌∷◌,
}
use lidradar.Text.{is_empty, trim_space, joined, decimal}
use lidradar.Time.{Time, is_zero}
use lidradar.Jobs.Job.{valid_name, code_ok, leased}

pub data Error : Type 0 where
  invalid conflict lease_lost : Error

pub data Status : Type 0 where
  pending processing retry published dead : Status
  other : String → Status

-- `Status.Valid`.
unfoldable pub status_valid : Status → Bool
status_valid (Status.other _) = false
status_valid _ = true

-- Data is a JSON text; versions and counts of attempts are not negative in the table.
pub record Event : Type 0 where
  pub id : String
  pub event_type : String
  pub version : ℕ
  pub occurred_at : Time
  pub tenant_id : String
  pub aggregate_type : String
  pub aggregate_id : String
  pub trace_id : String
  pub payload : String
  pub status : Status
  pub available_at : Time
  pub attempt_count : ℕ
  pub max_attempts : ℕ
  pub leased_by : Option String
  pub lease_until : Option Time
  pub last_error_code : Option String
  pub completed_at : Option Time
  pub created_at : Time
  pub updated_at : Time

-- `Event.Key`.
unfoldable pub event_key : Event → String
event_key e = joined (e.event_type ∷ ".v" ∷ decimal e.version ∷ [])

-- The switch on the status at the end of `Validate`.
unfoldable pub shape_ok : Status → Option String → Option Time → Option Time → Bool
unfolding leased
shape_ok Status.processing owner until completed = leased owner until && is_none completed
shape_ok Status.pending owner until completed = is_none owner && is_none until && is_none completed
shape_ok Status.retry owner until completed = is_none owner && is_none until && is_none completed
shape_ok Status.published owner until completed =
    is_none owner && is_none until && is_some completed
shape_ok Status.dead owner until completed = is_none owner && is_none until && is_some completed
shape_ok (Status.other _) owner until completed = true

-- What `Validate` asks of the counts of attempts.
unfoldable pub attempts_ok : Event → Bool
attempts_ok e =
    not (ltb e.max_attempts 1 || ltb 20 e.max_attempts || ltb e.max_attempts e.attempt_count)

module _ (json_object : String → Bool) where
  -- The part of `Validate` that no operation of the store touches.
  unfoldable pub fields_ok : Event → Bool
  unfolding valid_name
  fields_ok e = not (
      is_empty e.id
      || is_empty e.tenant_id
      || is_empty e.aggregate_id
      || is_empty e.trace_id
      || not (valid_name e.event_type 100)
      || not (valid_name e.aggregate_type 100)
      || ltb e.version 1
      || not (json_object e.payload)
      || is_zero e.occurred_at
      || is_zero e.created_at)

  -- `Event.Validate`: true where it returns nil.
  unfoldable pub validate : Event → Bool
  unfolding fields_ok status_valid attempts_ok code_ok shape_ok
  validate e =
      fields_ok e
      && not (is_zero e.available_at || is_zero e.updated_at)
      && attempts_ok e
      && status_valid e.status
      && code_ok e.last_error_code
      && shape_ok e.status e.leased_by e.lease_until e.completed_at

  -- `NewEvent`.
  unfoldable pub new_event :
      String → String → ℕ → String → String → String → String → String → Time → Option Event
  unfolding validate
  new_event id event_type version tenant_id aggregate_type aggregate_id trace_id payload
        occurred_at =
      let e : Event = record {
        id = id;
        event_type = trim_space event_type;
        version = version;
        occurred_at = occurred_at;
        tenant_id = tenant_id;
        aggregate_type = trim_space aggregate_type;
        aggregate_id = aggregate_id;
        trace_id = trace_id;
        payload = payload;
        status = Status.pending;
        available_at = occurred_at;
        attempt_count = 0;
        max_attempts = 5;
        leased_by = none;
        lease_until = none;
        last_error_code = none;
        completed_at = none;
        created_at = occurred_at;
        updated_at = occurred_at;
      } in
      if validate e then some e else none

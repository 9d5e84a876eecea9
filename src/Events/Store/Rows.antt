-- ===== src/Events/Store/Rows.antt =====
-- Valid tables of the outbox: rows that pass Validate, with ids that differ; what the statements set
-- keeps a row valid.
use lidradar.Prelude.{
  ◌≡◌, refl, String, Bool, true, false, not, ◌&&◌, ◌||◌, some, none, any, List, [], ◌∷◌, arith,
  Bool-cases, inl, inr, Option, is_none, ltb, ◌+◌,
}
use lidradar.Text.{is_empty, trim_space, code_pattern}
use lidradar.Time.{Time, is_zero}
use lidradar.Jobs.Job.{valid_error_code, code_ok}
use lidradar.Events.Event.{Event, Status, validate, fields_ok, attempts_ok, status_valid, shape_ok}
use lidradar.Events.Store.{
  has_id, expired_row, claimable, leased_row, published_row, failed_row, again, is_waiting,
  is_processing,
}

-- No two rows have the same id.
abbrev pub Distinct : List Event → Type 0
Distinct [] = Unit
Distinct (e ∷ es) = (any (has_id e.id) es ≡ false) × Distinct es

six :
    (a b c d e f : Bool)
    → a ≡ true
    → b ≡ true
    → c ≡ true
    → d ≡ true
    → e ≡ true
    → f ≡ true
    → a && b && c && d && e && f ≡ true
six a b c d e f x y z u v w = rw (x, y, z, u, v, w) refl

six_parts :
    (a b c d e f : Bool)
    → a && b && c && d && e && f ≡ true
    → (a ≡ true) × (b ≡ true) × (c ≡ true) × (d ≡ true) × (e ≡ true) × (f ≡ true)
six_parts true true true true true f h = (refl, refl, refl, refl, refl, h)
six_parts true true true true false f h = cc
six_parts true true true false e f h = cc
six_parts true true false d e f h = cc
six_parts true false c d e f h = cc
six_parts false b c d e f h = cc

stamped :
    (a u n : Time)
    → not (is_zero a || is_zero u) ≡ true
    → is_zero n ≡ false
    → not (is_zero a || is_zero n) ≡ true
stamped a u n h z = ground arith

one_more :
    (now : Time) (e : Event)
    → claimable now e ≡ true
    → attempts_ok e ≡ true
    → not
        (ltb e.max_attempts 1 || ltb 20 e.max_attempts || ltb e.max_attempts (e.attempt_count + 1))
      ≡ true
unfolding claimable attempts_ok
one_more now e c h = ground arith

is_open :
    (now : Time) (e : Event)
    → claimable now e ≡ true
    → is_waiting e.status || is_processing e.status ≡ true
unfolding claimable
is_open now e c = ground arith

open_uncompleted :
    (s : Status) (owner : Option String) (until completed : Option Time)
    → is_waiting s || is_processing s ≡ true
    → shape_ok s owner until completed ≡ true
    → is_none completed ≡ true
unfolding shape_ok is_waiting is_processing
open_uncompleted Status.pending owner until none w h = refl
open_uncompleted Status.retry owner until none w h = refl
open_uncompleted Status.processing owner until none w h = refl
open_uncompleted Status.pending owner until (some c) w h = ground arith
open_uncompleted Status.retry owner until (some c) w h = ground arith
open_uncompleted Status.processing owner until (some c) w h = ground arith
open_uncompleted Status.published owner until completed w h = cc
open_uncompleted Status.dead owner until completed w h = cc
open_uncompleted (Status.other x) owner until completed w h = cc

expired_code : code_ok (some "LEASE_EXPIRED_MAX_ATTEMPTS") ≡ true
unfolding code_ok valid_error_code code_pattern
expired_code = refl

module _ (json_object : String → Bool) where
  abbrev pub RowOk : Event → Type 0
  RowOk e = validate json_object e ≡ true

  parts :
      (e : Event)
      → RowOk e
      → (fields_ok json_object e ≡ true)
        × (not (is_zero e.available_at || is_zero e.updated_at) ≡ true)
        × (attempts_ok e ≡ true)
        × (status_valid e.status ≡ true)
        × (code_ok e.last_error_code ≡ true)
        × (shape_ok e.status e.leased_by e.lease_until e.completed_at ≡ true)
  unfolding validate
  parts e ok = six_parts _ _ _ _ _ _ ok

  pub leased_row-RowOk :
      (owner : String) (now until : Time) (e : Event)
      → is_empty (trim_space owner) ≡ false
      → is_zero now ≡ false
      → claimable now e ≡ true
      → RowOk e
      → RowOk (leased_row owner now until e)
  unfolding validate leased_row fields_ok status_valid attempts_ok shape_ok claimable
  leased_row-RowOk owner now until e o n c ok =
      let (fields, stamps, attempts, status, code, shape) = parts e ok in
      six _ _ _ _ _ _ fields (stamped e.available_at e.updated_at now stamps n)
        (one_more now e c attempts) refl code
        (rw
          (
            o,
            open_uncompleted e.status e.leased_by e.lease_until e.completed_at (is_open now e c)
                shape,
          )
          refl)

  pub expired_row-RowOk :
      (now : Time) (e : Event) → is_zero now ≡ false → RowOk e → RowOk (expired_row now e)
  unfolding validate expired_row fields_ok status_valid attempts_ok shape_ok
  expired_row-RowOk now e n ok =
      let (fields, stamps, attempts, status, code, shape) = parts e ok in
      six _ _ _ _ _ _ fields (stamped e.available_at e.updated_at now stamps n) attempts refl
        expired_code refl

  pub published_row-RowOk :
      (at : Time) (e : Event) → is_zero at ≡ false → RowOk e → RowOk (published_row at e)
  unfolding validate published_row fields_ok status_valid attempts_ok shape_ok
  published_row-RowOk at e n ok =
      let (fields, stamps, attempts, status, code, shape) = parts e ok in
      six _ _ _ _ _ _ fields (stamped e.available_at e.updated_at at stamps n) attempts refl code
        refl

  pub failed_row-RowOk :
      (code : String) (retryable : Bool) (next at : Time) (e : Event)
      → is_zero next ≡ false
      → is_zero at ≡ false
      → valid_error_code code ≡ true
      → RowOk e
      → RowOk (failed_row code retryable next at e)
  unfolding validate failed_row fields_ok status_valid attempts_ok shape_ok code_ok
  failed_row-RowOk code retryable next at e x n c ok =
      let (fields, stamps, attempts, status, old, shape) = parts e ok in
      elim (Bool-cases (again retryable e)) [
        | inl h ↦ rw h (six _ _ _ _ _ _ fields (rw (x, n) refl) attempts refl c refl)
        | inr h ↦ rw h (
            six _ _ _ _ _ _ fields (stamped e.available_at e.updated_at at stamps n) attempts refl c
              refl)
      ]

-- ===== src/Events/Store/Append.antt =====
-- Appending to the outbox, and every sequence of operations on it.
use mathlib.Core.List.{Memᴰ}
use lidradar.Prelude.{
  ℕ, ◌≡◌, refl, ap, subst, ◌∙◌, String, Bool, true, false, not, ◌||◌, some, none, Option, List,
  arith, Bool-cases, inl, inr, ok, err, fail_if-eq-ok, ok-injective, if◌then◌else◌,
}
use lidradar.Time.{Time}
use lidradar.Tables.{find, All-Memᴰ, any-of-Memᴰ}
use lidradar.Tables.Apart.{find-none, find-some, All-append-one}
use lidradar.Events.Event.{Error, Event, Status, validate}
use lidradar.Events.Store.{
  has_id, publish, fail, inserted, is_pending, append, append_found, claim, equivalent,
}
use lidradar.Events.Store.Rows.{RowOk}
use lidradar.Events.Store.Claims.{unique, same_text}
use lidradar.Events.Store.Valid.{
  TableOk, Distinct-append-one, publish-TableOk, fail-TableOk, claim-TableOk,
}

module _ (json_object : String → Bool) (same_data : String → String → Bool) where
  append_found-TableOk :
      (e : Event) (es : List Event) (found : Option Event) {row : Event} {new : Bool}
      {fs : List Event}
      → find (has_id e.id) es ≡ found
      → TableOk json_object es
      → append_found json_object same_data e es found ≡ ok (row, new, fs)
      → TableOk json_object fs
  unfolding append_found
  append_found-TableOk e es none f (valid, d) h =
      let (good, h') = fail_if-eq-ok (not (validate json_object (inserted e))) Error.invalid _ h in
      let ok' : RowOk json_object (inserted e) = ground (arith, good) in
      subst (TableOk json_object) (ap (λ (r : Event × Bool × List Event). r.2) (ok-injective h')) (
        All-append-one (RowOk json_object) es (inserted e) valid ok',
        Distinct-append-one es (inserted e) d (unfold inserted in find-none (has_id e.id) es f),
      )
  append_found-TableOk e es (some row) f t h =
      let (_, h') = fail_if-eq-ok (not (validate json_object row)) Error.invalid _ h in
      let (_, h'') = fail_if-eq-ok (not (equivalent same_data e row)) Error.conflict _ h' in
      subst (TableOk json_object) (ap (λ (r : Event × Bool × List Event). r.2) (ok-injective h'')) t

  append-TableOk :
      (e : Event) (es : List Event) {row : Event} {new : Bool} {fs : List Event}
      → TableOk json_object es
      → append json_object same_data e es ≡ ok (row, new, fs)
      → TableOk json_object fs
  unfolding append
  append-TableOk e es t h =
      let (_, h') =
        fail_if-eq-ok (not (is_pending e.status) || not (validate json_object e)) Error.invalid _
          h in
      append_found-TableOk e es (find (has_id e.id) es) refl t h'

  -- An operation of the store that succeeds, with the table it leaves.
  pub data Operation (es : List Event) : List Event → Type 0 where
    appends :
        (e : Event) {row : Event} {new : Bool} {fs : List Event}
        → append json_object same_data e es ≡ ok (row, new, fs)
        → Operation es fs
    claims :
        (locked : String → Bool) (owner : String) (now until : Time) (limit : ℕ)
        {fs claimed : List Event}
        → claim json_object locked owner now until limit es ≡ ok (fs, claimed)
        → Operation es fs
    publishes :
        (id owner : String) (at : Time) {fs : List Event}
        → publish id owner at es ≡ ok fs
        → Operation es fs
    fails :
        (id owner code : String) (retryable : Bool) (next at : Time) {fs : List Event} {s : Status}
        → fail id owner code retryable next at es ≡ ok (fs, s)
        → Operation es fs

  pub data History (es : List Event) : List Event → Type 0 where
    starts : History es es
    then_runs : {fs gs : List Event} → History es fs → Operation fs gs → History es gs

  Operation-TableOk :
      {es fs : List Event} → TableOk json_object es → Operation es fs → TableOk json_object fs
  Operation-TableOk {es} t (Operation.appends e h) = append-TableOk e es t h
  Operation-TableOk {es} t (Operation.claims locked owner now until limit h) =
      claim-TableOk json_object locked owner now until limit es t h
  Operation-TableOk {es} t (Operation.publishes id owner at h) =
      publish-TableOk json_object id owner at es t h
  Operation-TableOk {es} t (Operation.fails id owner code retryable next at h) =
      fail-TableOk json_object id owner code retryable next at es t h

  -- Over any sequence of operations the outbox stays valid: every row passes Validate and no two
  -- rows have the same id.
  pub History-TableOk :
      {es fs : List Event} → TableOk json_object es → History es fs → TableOk json_object fs
  History-TableOk t History.starts = t
  History-TableOk t (History.then_runs h o) = Operation-TableOk (History-TableOk t h) o

  found-equivalent :
      (e row : Event) (es : List Event)
      → TableOk json_object es
      → Memᴰ row es
      → row.id ≡ e.id
      → find (has_id e.id) es ≡ some row
  found-equivalent e row es (valid, d) m same = go (find (has_id e.id) es) refl
    where
      go : (found : Option Event) → find (has_id e.id) es ≡ found → find (has_id e.id) es ≡ some row
      go none f =
          let here : has_id e.id row ≡ true = rw same (same_text e.id) in
          let there = any-of-Memᴰ (has_id e.id) es row m here in
          let nowhere = find-none (has_id e.id) es f in cc
      go (some x) f =
          let (i, k) = find-some (has_id e.id) es x f in
          f ∙ ap some (unique es x row d i m (rw same k))

  -- To append a valid pending event whose id is in a valid outbox changes nothing: the answer is the
  -- row of that id if it holds the same event, and a conflict if it holds another one.
  pub append_known :
      (e row : Event) (es : List Event)
      → TableOk json_object es
      → is_pending e.status ≡ true
      → validate json_object e ≡ true
      → Memᴰ row es
      → row.id ≡ e.id
      → append json_object same_data e es
        ≡ (if equivalent same_data e row then ok (row, false, es) else err Error.conflict)
  unfolding append append_found
  append_known e row es t p v m same =
      let valid : validate json_object row ≡ true = All-Memᴰ (RowOk json_object) es row t.0 m in
      elim (Bool-cases (equivalent same_data e row)) [
        | inl h ↦ rw (h, p, v, found-equivalent e row es t m same, valid, h) refl
        | inr h ↦ rw (h, p, v, found-equivalent e row es t m same, valid, h) refl
      ]

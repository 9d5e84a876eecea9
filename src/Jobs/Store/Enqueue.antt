-- ===== src/Jobs/Store/Enqueue.antt =====
-- A job that is enqueued twice.
use lidradar.Prelude.{
  String, Bool, ◌≡◌, refl, true, false, not, ◌||◌, Option, none, some, eq_iff, any, ok,
  fail_if-eq-ok, ok-injective, subst, List, [], ◌∷◌, ◌++◌, arith,
}
use lidradar.Tables.{find}
use lidradar.Jobs.Job.{Error, Job, validate, fields_ok}
use lidradar.Jobs.Store.{same_key, has_id, is_pending, inserted, enqueue, enqueue_found}

find-append :
    (p : Job → Bool) (js : List Job) (k : Job)
    → find p js ≡ none
    → p k ≡ true
    → find p (js ++ k ∷ []) ≡ some k
unfolding find
find-append p [] k e h = ground arith
find-append p (j ∷ js) k e h = ground (arith, find-append p js k)

own-key : (j : Job) → same_key j (inserted j) ≡ true
unfolding inserted
own-key j = ground (
  arith,
  eq_iff j.tenant_id j.tenant_id,
  eq_iff j.job_type j.job_type,
  eq_iff j.dedup_key j.dedup_key,
)

inserted-payload : (j : Job) → (inserted j).payload ≡ j.payload
unfolding inserted
inserted-payload j = refl

module _ (json_object : String → Bool) (same_payload : String → String → Bool) where
  inserted-fields :
      (j : Job) → fields_ok json_object j ≡ true → fields_ok json_object (inserted j) ≡ true
  unfolding fields_ok inserted
  inserted-fields j h = ground arith

  inserted-valid :
      (j : Job) → validate json_object j ≡ true → validate json_object (inserted j) ≡ true
  unfolding validate inserted
  inserted-valid j h = ground (arith, inserted-fields j)

  found-again :
      (j : Job) (js : List Job) (found : Option Job) {r : Job × Bool × List Job}
      → ((payload : String) → same_payload payload payload ≡ true)
      → find (same_key j) js ≡ found
      → validate json_object j ≡ true
      → enqueue_found json_object same_payload j js found ≡ ok r
      → (find (same_key j) r.2 ≡ some r.0)
        × (enqueue_found json_object same_payload j r.2 (some r.0) ≡ ok (r.0, false, r.2))
  unfolding enqueue_found
  found-again j js none {r} same e v h =
      let (fresh, whole) = fail_if-eq-ok (any (has_id j.id) js) Error.conflict _ h in
      let made : (inserted j, true, js ++ inserted j ∷ []) ≡ r = ok-injective whole in
      let P : Job × Bool × List Job → Type 0 = λ x.
        (find (same_key j) x.2 ≡ some x.0)
        × (enqueue_found json_object same_payload j x.2 (some x.0) ≡ ok (x.0, false, x.2)) in
      subst P made (
        find-append (same_key j) js (inserted j) e (own-key j),
        rw (inserted-valid j v, inserted-payload j, same j.payload) refl,
      )
  found-again j js (some row) {r} same e v h =
      let (valid_row, rest) = fail_if-eq-ok (not (validate json_object row)) Error.invalid _ h in
      let (equal, whole) =
        fail_if-eq-ok (not (same_payload row.payload j.payload)) Error.conflict _ rest in
      let made : (row, false, js) ≡ r = ok-injective whole in
      let P : Job × Bool × List Job → Type 0 = λ x.
        (find (same_key j) x.2 ≡ some x.0)
        × (enqueue_found json_object same_payload j x.2 (some x.0) ≡ ok (x.0, false, x.2)) in
      subst P made (e, rw (valid_row, equal) refl)

  -- An enqueued job may be enqueued again: the second call answers with the same row, says that it is
  -- not new, and leaves the table as it is. A payload equals itself.
  pub enqueue_again :
      (j : Job) (js : List Job) {r : Job × Bool × List Job}
      → ((payload : String) → same_payload payload payload ≡ true)
      → enqueue json_object same_payload j js ≡ ok r
      → enqueue json_object same_payload j r.2 ≡ ok (r.0, false, r.2)
  unfolding enqueue
  enqueue_again j js {r} same h =
      let found = find (same_key j) js in
      let (passed, rest) =
        fail_if-eq-ok (not (is_pending j.status) || not (validate json_object j)) Error.invalid
          (enqueue_found json_object same_payload j js found) h in
      let valid : validate json_object j ≡ true = ground arith in
      let (there, again) = found-again j js found same refl valid rest in rw (passed, there) again

  -- So may a job of the same key and payload with another id.
  pub enqueue_renamed :
      (j : Job) (id : String) (js : List Job) {r : Job × Bool × List Job}
      → ((payload : String) → same_payload payload payload ≡ true)
      → validate json_object (record j { id = id }) ≡ true
      → enqueue json_object same_payload j js ≡ ok r
      → enqueue json_object same_payload (record j { id = id }) r.2 ≡ ok (r.0, false, r.2)
  unfolding enqueue enqueue_found
  enqueue_renamed j id js {r} same v h =
      let found = find (same_key j) js in
      let (passed, rest) =
        fail_if-eq-ok (not (is_pending j.status) || not (validate json_object j)) Error.invalid
          (enqueue_found json_object same_payload j js found) h in
      let valid : validate json_object j ≡ true = ground arith in
      let waiting : is_pending j.status ≡ true = ground (arith, passed) in
      let (there, again) = found-again j js found same refl valid rest in
      rw (waiting, v, there) again

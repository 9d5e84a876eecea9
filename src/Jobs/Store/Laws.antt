-- ===== src/Jobs/Store/Laws.antt =====
-- Every statement of the store moves each row by one turn and keeps the ids distinct.
use lidradar.Prelude.{
  if◌then◌else◌, ℕ, ◌<◌, ◌≡◌, refl, String, Bool, true, false, not, Option, none, some, any, eq_iff,
  List, [], ◌∷◌, ◌++◌, take, All, arith, ok, ltb, fail_if-eq-ok, ◌&&◌, ◌||◌, ok-injective, ap,
  subst,
}
use lidradar.Time.{Time, after, is_zero, before}
use lidradar.Tables.{find, keep, sort_by, update_where}
use lidradar.Jobs.Job.{Error, Status, Job, validate, valid_error_code}
use lidradar.Text.{is_empty}
use lidradar.Jobs.Store.{
  has_id, expire_row, expire, claimable, claim_before, leased_row, lease, candidates, fail_found,
  enqueue_found, is_pending, same_key, held, succeeded_row, succeed, failed_row, fail, claim,
  inserted, enqueue,
}
use lidradar.Jobs.Store.Rows.{
  Turn, Rows, Turns, Distinct, Turns-refl, Turns-same, Distinct-append, All-keep, All-sort,
  All-take, any-All, All-map, Known, Distinct-Known,
}
use lidradar.Jobs.Store.Ids.{Distinct-expire, Distinct-lease, Distinct-update}

candidates-claimable :
    (locked : String → Bool) (now : Time) (limit : ℕ) (js : List Job) (j : Job)
    → Known js j
    → any (has_id j.id) (candidates locked now limit js) ≡ true
    → claimable now j ≡ true
unfolding candidates
candidates-claimable locked now limit js j known =
    let may : Job → Bool = λ k. claimable now k && not (locked k.id) in
    let P : Job → Type 0 = λ k. k.id ≡ j.id → claimable now j ≡ true in
    let kept = All-keep (λ k. k.id ≡ j.id → k ≡ j) may js known in
    let sound : All P (keep may js) =
      All-map (λ k h e. subst (λ x. claimable now x ≡ true) (h.0 e) (ground (arith, h.1)))
        (keep may js) kept in
    any-All j.id (claimable now j ≡ true) (take limit (sort_by claim_before (keep may js))) (
      All-take P limit (sort_by claim_before (keep may js))
        (All-sort P claim_before (keep may js) sound))

-- A row that the first statement ends cannot be leased by the second.
ended-unclaimable :
    (now : Time) (j : Job) → claimable now (expire_row now j) ≡ true → expire_row now j ≡ j
unfolding expire_row claimable
ended-unclaimable now j h = ground arith

-- What a claim at `now` does to a row: at most it ends it, or it leases it.
pub data Claimed (owner : String) (now until : Time) (j : Job) : Job → Type 0 where
  passed_over : {k : Job} → k ≡ expire_row now j → Claimed owner now until j k
  taken :
      {k : Job}
      → claimable now j ≡ true
      → k ≡ leased_row owner now until j
      → Claimed owner now until j k

one-Claimed :
    (owner : String) (now until : Time) (b : Bool) (j : Job)
    → (b ≡ true → claimable now (expire_row now j) ≡ true)
    → Claimed owner now until j
        (if b then leased_row owner now until (expire_row now j) else expire_row now j)
one-Claimed owner now until false j h = Claimed.passed_over refl
one-Claimed owner now until true j h =
    let same = ended-unclaimable now j (h refl) in
    Claimed.taken (subst (λ x. claimable now x ≡ true) same (h refl))
      (ap (leased_row owner now until) same)

lease-Claimed :
    (owner : String) (now until : Time) (chosen js : List Job)
    → All (λ e. any (has_id e.id) chosen ≡ true → claimable now e ≡ true) (expire now js)
    → Rows (Claimed owner now until) js (lease owner now until chosen (expire now js))
unfolding expire lease
lease-Claimed owner now until chosen [] h = Rows.appended
lease-Claimed owner now until chosen (j ∷ js) h =
    Rows.turned (one-Claimed owner now until (any (has_id (expire_row now j).id) chosen) j h.0)
      (lease-Claimed owner now until chosen js h.1)

pub Claimed-Turn :
    {owner : String} {now until : Time} {j k : Job}
    → now < until
    → Claimed owner now until j k
    → Turn j k
Claimed-Turn {now = now} l (Claimed.passed_over e) = Turn.dies now e
Claimed-Turn {owner} {now} {until} l (Claimed.taken c e) = Turn.is_leased owner now until c l e

held-id :
    (id owner : String) (at : Time) (j : Job)
    → held id owner at j ≡ true
    → held j.id owner at j ≡ true
unfolding held
held-id id owner at j h = ground (arith, eq_iff j.id id, eq_iff j.id j.id)

-- An UPDATE of the rows that a test selects.
update-Turns :
    (p : Job → Bool) (f : Job → Job) (js : List Job)
    → ((j : Job) → p j ≡ true → Turn j (f j))
    → Turns js (update_where p f js)
unfolding update_where
update-Turns p f [] h = Rows.appended
update-Turns p f (j ∷ js) h = Rows.turned (one (p j) (h j)) (update-Turns p f js h)
  where
    one : (b : Bool) → (b ≡ true → Turn j (f j)) → Turn j (if b then f j else j)
    one true g = g refl
    one false g = Turn.stays

succeeded_row-id : (at : Time) (j : Job) → (succeeded_row at j).id ≡ j.id
unfolding succeeded_row
succeeded_row-id at j = refl

failed_row-id :
    (code : String) (retryable : Bool) (next at : Time) (j : Job)
    → (failed_row code retryable next at j).id ≡ j.id
unfolding failed_row
failed_row-id code retryable next at j = refl

pub succeed-Turns :
    (id owner : String) (at : Time) (js : List Job) {ks : List Job}
    → succeed id owner at js ≡ ok ks
    → Turns js ks × (Distinct js → Distinct ks)
unfolding succeed
succeed-Turns id owner at js h =
    let (_, rest) = fail_if-eq-ok _ Error.invalid _ h in
    let (_, whole) = fail_if-eq-ok _ Error.lease_lost _ rest in
    (
      subst (Turns js) (ok-injective whole) (
          update-Turns (held id owner at) (succeeded_row at) js
            (λ j e. Turn.succeeds owner at (held-id id owner at j e) refl)),
      λ d.
          subst Distinct (ok-injective whole)
            (Distinct-update (held id owner at) (succeeded_row at) js (succeeded_row-id at) d),
    )

fail_found-Turns :
    (p : Job → Bool) (f : Job → Job) (code : String) (js : List Job) (found : Option Job)
    {r : List Job × Status}
    → ((j : Job) → p j ≡ true → Turn j (f j))
    → ((j : Job) → (f j).id ≡ j.id)
    → fail_found p f code js found ≡ ok r
    → Turns js r.0 × (Distinct js → Distinct r.0)
unfolding fail_found
fail_found-Turns p f code js none t e h = cc
fail_found-Turns p f code js (some j) {r} t e h =
    let (_, whole) =
      fail_if-eq-ok (not (valid_error_code code)) Error.invalid
        (ok (update_where p f js, (f j).status)) h in
    let table : update_where p f js ≡ r.0 =
      ap (λ (x : List Job × Status). x.0) (ok-injective whole) in
    (
      subst (Turns js) table (update-Turns p f js t),
      λ d. subst Distinct table (Distinct-update p f js e d),
    )

pub fail-Turns :
    (id owner code : String) (retryable : Bool) (next at : Time) (js : List Job)
    {r : List Job × Status}
    → fail id owner code retryable next at js ≡ ok r
    → Turns js r.0 × (Distinct js → Distinct r.0)
unfolding fail
fail-Turns id owner code retryable next at js h =
    let row = failed_row code retryable next at in
    let found = find (held id owner at) js in
    let (_, rest) =
      fail_if-eq-ok
        (is_empty id
          || is_empty owner
          || is_empty code
          || is_zero next
          || is_zero at
          || before next at)
        Error.invalid (fail_found (held id owner at) row code js found) h in
    fail_found-Turns (held id owner at) row code js found
      (λ j e. Turn.fails owner code retryable next at (held-id id owner at j e) refl)
      (failed_row-id code retryable next at) rest

after-lt :
    (owner : String) (now until : Time) (limit : ℕ)
    → (is_empty owner || is_zero now || not (after until now) || ltb limit 1 || ltb 100 limit)
      ≡ false
    → now < until
after-lt owner now until limit h = ground arith

module _ (json_object : String → Bool) (same_payload : String → String → Bool) where
  pub claim-Claimed :
      (locked : String → Bool) (owner : String) (now until : Time) (limit : ℕ) (js : List Job)
      {r : List Job × List Job}
      → Distinct js
      → claim json_object same_payload locked owner now until limit js ≡ ok r
      → (now < until) × Rows (Claimed owner now until) js r.0 × Distinct r.0
  unfolding claim
  claim-Claimed locked owner now until limit js {r} d h =
      let chosen = candidates locked now limit (expire now js) in
      let (passed, rest) = fail_if-eq-ok _ Error.invalid _ h in
      let (_, whole) = fail_if-eq-ok _ Error.invalid _ rest in
      let table : lease owner now until chosen (expire now js) ≡ r.0 =
        ap (λ (x : List Job × List Job). x.0) (ok-injective whole) in
      let may =
        All-map (candidates-claimable locked now limit (expire now js)) (expire now js)
          (Distinct-Known (expire now js) (Distinct-expire now js d)) in
      (
        after-lt owner now until limit passed,
        subst (Rows (Claimed owner now until) js) table
            (lease-Claimed owner now until chosen js may),
        subst Distinct table
            (Distinct-lease owner now until chosen (expire now js) (Distinct-expire now js d)),
      )

  enqueue_found-Turns :
      (j : Job) (js : List Job) (found : Option Job) {r : Job × Bool × List Job}
      → enqueue_found json_object same_payload j js found ≡ ok r
      → Turns js r.2 × (Distinct js → Distinct r.2)
  unfolding enqueue_found
  enqueue_found-Turns j js none {r} h =
      let (fresh, whole) = fail_if-eq-ok _ Error.conflict _ h in
      let table : (js ++ inserted j ∷ []) ≡ r.2 =
        ap (λ (x : Job × Bool × List Job). x.2) (ok-injective whole) in
      (
        subst (Turns js) table (Turns-refl js (inserted j ∷ [])),
        λ d. subst Distinct table (Distinct-append js (inserted j) d fresh),
      )
  enqueue_found-Turns j js (some row) h =
      let (_, rest) = fail_if-eq-ok _ Error.invalid _ h in
      let (_, whole) = fail_if-eq-ok _ Error.conflict _ rest in
      let table = ap (λ (x : Job × Bool × List Job). x.2) (ok-injective whole) in
      (subst (Turns js) table (Turns-same js), λ d. subst Distinct table d)

  pub enqueue-Turns :
      (j : Job) (js : List Job) {r : Job × Bool × List Job}
      → enqueue json_object same_payload j js ≡ ok r
      → Turns js r.2 × (Distinct js → Distinct r.2)
  unfolding enqueue
  enqueue-Turns j js h =
      let found = find (same_key j) js in
      let (_, rest) =
        fail_if-eq-ok (not (is_pending j.status) || not (validate json_object j)) Error.invalid
          (enqueue_found json_object same_payload j js found) h in
      enqueue_found-Turns j js found rest

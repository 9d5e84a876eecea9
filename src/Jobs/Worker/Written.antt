-- ===== src/Jobs/Worker/Written.antt =====
-- What a worker holds of the job it claimed, and what Succeed and Fail write to its row and to no other
-- (backend/internal/jobs/application/worker.go, backend/internal/jobs/infrastructure/postgres.go).
use lidradar.Prelude.{
  String, Bool, ◌≤◌, ◌<◌, ◌≡◌, refl, ap, subst, ◌∙◌, true, false, not, ◌&&◌, ◌||◌, ok, List, [],
  ◌∷◌, some, ok-injective, fail_if-eq-ok, str_eq, eq_iff, arith, All,
}
use lidradar.Text.{is_empty, code_pattern}
use lidradar.Time.{Time, is_zero, before}
use lidradar.Tables.{find, sort_by, update_where, any-of-Memᴰ}
use lidradar.Tables.Apart.{
  text_eq_refl, find-some, find-narrow, find-update-narrow, find-update-apart,
}
use lidradar.Jobs.Job.{Error, Job, validate, fields_ok, valid_error_code}
use lidradar.Jobs.Store.{
  has_id, held, is_processing, claim, succeed, succeeded_row, fail, fail_found, failed_row,
  leased_row, leased_rows, candidates, expire, return_before, scan_all,
}
use lidradar.Jobs.Store.Rows.{All-sort}

-- The lease that a claim leaves on the rows it returns.
abbrev LeasedTo : (String → Bool) → String → Time → Job → Type 0
LeasedTo json_object owner until j =
    (is_processing j.status ≡ true)
    × (j.leased_by ≡ some owner)
    × (j.lease_until ≡ some until)
    × (is_empty j.id ≡ false)

named :
    (json_object : String → Bool) (j : Job) → validate json_object j ≡ true → is_empty j.id ≡ false
unfolding validate fields_ok
named json_object j v = ground (arith, v)

not-false : (b : Bool) → not b ≡ false → b ≡ true
not-false true h = refl
not-false false h = cc

both : (a b : Bool) → a && b ≡ true → (a ≡ true) × (b ≡ true)
both true b h = (refl, h)
both false b h = cc

-- The tests of `Claim` on its arguments, where it passes them.
claim_args :
    (owner zero late few many : Bool)
    → (owner || zero || not late || few || many) ≡ false
    → (owner ≡ false) × (zero ≡ false)
claim_args owner zero late few many h = ground arith

module _ (json_object : String → Bool) (same_payload : String → String → Bool) where
  leased_rows-LeasedTo :
      (owner : String) (now until : Time) (chosen : List Job)
      → scan_all json_object same_payload (leased_rows owner now until chosen) ≡ true
      → All (LeasedTo json_object owner until) (leased_rows owner now until chosen)
  unfolding leased_rows leased_row scan_all is_processing
  leased_rows-LeasedTo owner now until [] v = tt
  leased_rows-LeasedTo owner now until (j ∷ js) v =
      let (valid, rest) = both _ _ v in
      ((refl, refl, refl, named json_object _ valid), leased_rows-LeasedTo owner now until js rest)

  pub claim-LeasedTo :
      (locked : String → Bool) (owner : String) (now until : Time) (js ks rest : List Job) (j : Job)
      → claim json_object same_payload locked owner now until 1 js ≡ ok (ks, j ∷ rest)
      → (is_empty owner ≡ false) × (is_zero now ≡ false) × LeasedTo json_object owner until j
  unfolding claim
  claim-LeasedTo locked owner now until js ks rest j h =
      let claimed = leased_rows owner now until (candidates locked now 1 (expire now js)) in
      let (passed, more) = fail_if-eq-ok _ Error.invalid _ h in
      let (scanned, whole) = fail_if-eq-ok _ Error.invalid _ more in
      let (named, begun) = claim_args (is_empty owner) (is_zero now) _ _ _ passed in
      let rows : sort_by return_before claimed ≡ j ∷ rest =
        ap (λ (x : List Job × List Job). x.1) (ok-injective whole) in
      let all =
        All-sort (LeasedTo json_object owner until) return_before claimed
          (leased_rows-LeasedTo owner now until _ (not-false _ scanned)) in
      (named, begun, (subst (All (LeasedTo json_object owner until)) rows all).0)

-- A row with a lease that lives at a moment is held by its owner.
pub LeasedTo-held :
    (json_object : String → Bool) (owner : String) (until at : Time) (j : Job)
    → LeasedTo json_object owner until j
    → at < until
    → held j.id owner at j ≡ true
unfolding held
LeasedTo-held json_object owner until at j (p, o, u, n) l =
    rw (p, o, u, text_eq_refl j.id, text_eq_refl owner) (ground arith)

held-has_id :
    (id owner : String) (at : Time) (x : Job) → held id owner at x ≡ true → has_id id x ≡ true
unfolding held
held-has_id id owner at x h = ground (arith, h)

-- The table after the row of one job is written: that row is the job's, all others are as they were.
pub record Written (id : String) (f : Job → Job) (js : List Job) (j : Job) (ks : List Job)
    : Type 0 where
  pub row : find (has_id id) ks ≡ some (f j)
  pub others : (i : String) → str_eq id i ≡ false → find (has_id i) ks ≡ find (has_id i) js

update-Written :
    (owner : String) (at : Time) (f : Job → Job) (js : List Job) (j : Job)
    → ((x : Job) → (f x).id ≡ x.id)
    → find (has_id j.id) js ≡ some j
    → held j.id owner at j ≡ true
    → Written j.id f js j (update_where (held j.id owner at) f js)
update-Written owner at f js j same there h = record {
  row =
      find-update-narrow (held j.id owner at) (has_id j.id) (held-has_id j.id owner at) f js j
        (λ x. ap (λ i. str_eq i j.id) (same x)) there h;
  others = λ i differ. find-update-apart (held j.id owner at) (has_id i) f js (λ x k.
      let is : x.id ≡ j.id = (eq_iff x.id j.id).0 (held-has_id j.id owner at x k) in
      let away : str_eq x.id i ≡ false = ap (λ t. str_eq t i) is ∙ differ in
      (away, ap (λ t. str_eq t i) (same x) ∙ away));
}

pub succeed-Written :
    (owner : String) (at : Time) (js : List Job) (j : Job)
    → is_empty j.id ≡ false
    → is_empty owner ≡ false
    → is_zero at ≡ false
    → find (has_id j.id) js ≡ some j
    → held j.id owner at j ≡ true
    → (ks : List Job) × (succeed j.id owner at js ≡ ok ks) × Written j.id (succeeded_row at) js j ks
unfolding succeed succeeded_row
succeed-Written owner at js j n o z there h =
    let p = held j.id owner at in
    let (m, is) =
      find-some p js j (find-narrow p (has_id j.id) (held-has_id j.id owner at) js j there h) in
    let some_held = any-of-Memᴰ p js j m h in
    (
      update_where p (succeeded_row at) js,
      rw (n, o, z, some_held) refl,
      update-Written owner at (succeeded_row at) js j (λ x. refl) there h,
    )

code-named : (code : String) → valid_error_code code ≡ true → is_empty code ≡ false
unfolding valid_error_code code_pattern
code-named String.[] v = cc
code-named (String.◌∷◌ c s) v = refl

pub fail-Written :
    (owner code : String) (retryable : Bool) (next at : Time) (js : List Job) (j : Job)
    → is_empty j.id ≡ false
    → is_empty owner ≡ false
    → valid_error_code code ≡ true
    → is_zero at ≡ false
    → at ≤ next
    → find (has_id j.id) js ≡ some j
    → held j.id owner at j ≡ true
    → (ks : List Job) × (fail j.id owner code retryable next at js
        ≡ ok (ks, (failed_row code retryable next at j).status))
      × Written j.id (failed_row code retryable next at) js j ks
unfolding fail fail_found failed_row
fail-Written owner code retryable next at js j n o v z l there h =
    let p = held j.id owner at in
    let found = find-narrow p (has_id j.id) (held-has_id j.id owner at) js j there h in
    let later : is_zero next ≡ false = ground arith in
    let ordered : before next at ≡ false = ground arith in
    (
      update_where p (failed_row code retryable next at) js,
      rw (n, o, code-named code v, z, later, ordered, found, v) refl,
      update-Written owner at (failed_row code retryable next at) js j (λ x. refl) there h,
    )

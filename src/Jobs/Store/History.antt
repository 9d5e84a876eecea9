-- ===== src/Jobs/Store/History.antt =====
-- The table of jobs over any sequence of operations of any number of workers.
use lidradar.Prelude.{
  ℕ, ◌+◌, not, ◌&&◌, ◌≤◌, ◌≡◌, refl, sym, ◌∙◌, subst, String, Bool, true, false, List, arith, ok,
}
use lidradar.Time.{Time}
use lidradar.Jobs.Job.{Status, Job}
use lidradar.Jobs.Store.{
  expire_row, claimable, leased_row, held, succeeded_row, failed_row, claim, succeed, fail, enqueue,
  is_processing, is_waiting, lease_over,
}
use lidradar.Jobs.Store.Rows.{Turn, Rows, Turns, Distinct, Rows-map, Rows-then, Turns-same}
use lidradar.Jobs.Store.Laws.{
  Claimed, Claimed-Turn, claim-Claimed, succeed-Turns, fail-Turns, enqueue-Turns,
}

-- A job that has ended.
unfoldable pub finished : Status → Bool
finished Status.succeeded = true
finished Status.dead = true
finished _ = false

-- A job that is leased to someone at a moment.
unfoldable pub live_lease : Time → Job → Bool
live_lease now j = is_processing j.status && not (lease_over now j.lease_until)

abbrev pub leases : {j k : Job} → Turn j k → ℕ
leases (Turn.is_leased _ _ _ _ _ _) = 1
leases _ = 0

-- The turns of one row one after the other, and how often it was leased.
pub data Life (j : Job) : ℕ → Job → Type 0 where
  begins : Life j 0 j
  goes_on : {n : ℕ} {k l : Job} → Life j n k → (t : Turn k l) → Life j (n + leases t) l

Turn-attempts :
    {j k : Job} (t : Turn j k)
    → j.attempt_count ≤ j.max_attempts
    → (k.attempt_count ≡ j.attempt_count + leases t)
      × (k.max_attempts ≡ j.max_attempts)
      × (k.attempt_count ≤ k.max_attempts)
unfolding expire_row leased_row succeeded_row failed_row claimable
Turn-attempts Turn.stays l = ground arith
Turn-attempts {j} {k} (Turn.dies now e) l = ground arith
Turn-attempts {j} {k} (Turn.is_leased owner now until c m e) l = ground arith
Turn-attempts {j} {k} (Turn.succeeds owner at c e) l = ground arith
Turn-attempts {j} {k} (Turn.fails owner code b next at c e) l = ground arith

Life-attempts :
    {j k : Job} {n : ℕ}
    → j.attempt_count ≤ j.max_attempts
    → Life j n k
    → (k.attempt_count ≡ j.attempt_count + n)
      × (k.max_attempts ≡ j.max_attempts)
      × (k.attempt_count ≤ k.max_attempts)
Life-attempts l Life.begins = (omega arith, refl, l)
Life-attempts l (Life.goes_on h t) =
    let (count, maximum, bound) = Life-attempts l h in
    let (one, same, bound') = Turn-attempts t bound in (omega arith, same ∙ maximum, bound')

-- Whatever becomes of a job, every lease counts as an attempt and no other turn does, and the count
-- never passes the maximum: a job is leased at most `max_attempts` times.
pub claims_bounded :
    {j k : Job} {n : ℕ}
    → j.attempt_count ≤ j.max_attempts
    → Life j n k
    → (k.attempt_count ≡ j.attempt_count + n) × (j.attempt_count + n ≤ j.max_attempts)
claims_bounded l h = let (count, maximum, bound) = Life-attempts l h in (count, omega arith)

Turn-finished : {j k : Job} (t : Turn j k) → finished j.status ≡ true → (k ≡ j) × (leases t ≡ 0)
unfolding finished expire_row claimable held is_processing is_waiting
Turn-finished Turn.stays f = ground arith
Turn-finished {j} {k} (Turn.dies now e) f = ground arith
Turn-finished {j} {k} (Turn.is_leased owner now until c m e) f = ground arith
Turn-finished {j} {k} (Turn.succeeds owner at c e) f = ground arith
Turn-finished {j} {k} (Turn.fails owner code b next at c e) f = ground arith

-- What any history keeps of a row.
pub record Kept (j k : Job) : Type 0 where
  pub same_id : k.id ≡ j.id
  pub same_tenant : k.tenant_id ≡ j.tenant_id
  pub same_type : k.job_type ≡ j.job_type
  pub same_dedup_key : k.dedup_key ≡ j.dedup_key
  pub same_payload : k.payload ≡ j.payload
  pub same_maximum : k.max_attempts ≡ j.max_attempts
  pub attempts_grow : j.attempt_count ≤ k.attempt_count
  pub end_is_final : finished j.status ≡ true → k ≡ j

-- All of it but the end.
abbrev SameJob : Job → Job → Type 0
SameJob j k =
    (k.id ≡ j.id)
    × (k.tenant_id ≡ j.tenant_id)
    × (k.job_type ≡ j.job_type)
    × (k.dedup_key ≡ j.dedup_key)
    × (k.payload ≡ j.payload)
    × (k.max_attempts ≡ j.max_attempts)
    × (j.attempt_count ≤ k.attempt_count)

Turn-SameJob : {j k : Job} → Turn j k → SameJob j k
unfolding expire_row leased_row succeeded_row failed_row
Turn-SameJob Turn.stays = ground arith
Turn-SameJob {j} {k} (Turn.dies now e) = ground arith
Turn-SameJob {j} {k} (Turn.is_leased owner now until c m e) = ground arith
Turn-SameJob {j} {k} (Turn.succeeds owner at c e) = ground arith
Turn-SameJob {j} {k} (Turn.fails owner code b next at c e) = ground arith

Turn-Kept : (j k : Job) → Turn j k → Kept j k
Turn-Kept j k t =
    let (i, tenant, kind, key, payload, maximum, grow) = Turn-SameJob t in
    record {
      same_id = i;
      same_tenant = tenant;
      same_type = kind;
      same_dedup_key = key;
      same_payload = payload;
      same_maximum = maximum;
      attempts_grow = grow;
      end_is_final = λ f. (Turn-finished t f).0;
    }

Kept-trans : (j k l : Job) → Kept j k → Kept k l → Kept j l
Kept-trans j k l a b = record {
  same_id = b.same_id ∙ a.same_id;
  same_tenant = b.same_tenant ∙ a.same_tenant;
  same_type = b.same_type ∙ a.same_type;
  same_dedup_key = b.same_dedup_key ∙ a.same_dedup_key;
  same_payload = b.same_payload ∙ a.same_payload;
  same_maximum = b.same_maximum ∙ a.same_maximum;
  attempts_grow = omega (arith, a.attempts_grow, b.attempts_grow);
  end_is_final = λ f.
      b.end_is_final (subst (λ (x : Job). finished x.status ≡ true) (sym (a.end_is_final f)) f)
      ∙ a.end_is_final f;
}

spared :
    {owner : String} {now until : Time} {j k : Job}
    → Claimed owner now until j k
    → live_lease now j ≡ true
    → k ≡ j
unfolding live_lease expire_row claimable is_waiting is_processing lease_over
spared {j = j} (Claimed.passed_over e) l = ground arith
spared {j = j} (Claimed.taken c e) l = ground arith

module _ (json_object : String → Bool) (same_payload : String → String → Bool) where
  -- An operation of the store that returned without an error: the table before and after it.
  pub data Operation (js : List Job) : List Job → Type 0 where
    enqueues :
        {r : Job × Bool × List Job} (j : Job)
        → enqueue json_object same_payload j js ≡ ok r
        → Operation js r.2
    claims :
        {r : List Job × List Job} (locked : String → Bool) (owner : String) (now until : Time)
        (limit : ℕ)
        → claim json_object same_payload locked owner now until limit js ≡ ok r
        → Operation js r.0
    succeeds :
        {ks : List Job} (id owner : String) (at : Time)
        → succeed id owner at js ≡ ok ks
        → Operation js ks
    fails :
        {r : List Job × Status} (id owner code : String) (retryable : Bool) (next at : Time)
        → fail id owner code retryable next at js ≡ ok r
        → Operation js r.0

  pub data History (js : List Job) : List Job → Type 0 where
    starts : History js js
    then_runs : {ks ls : List Job} → History js ks → Operation ks ls → History js ls

  -- The tables implement the life of a job: an operation on a table of distinct ids moves every row
  -- by one turn or leaves it, appends at most new rows, and the ids stay distinct.
  pub Operation-Turns :
      {js ks : List Job} → Distinct js → Operation js ks → Turns js ks × Distinct ks
  Operation-Turns {js} d (Operation.enqueues j h) =
      let (turns, distinct) = enqueue-Turns json_object same_payload j js h in (turns, distinct d)
  Operation-Turns {js} d (Operation.claims locked owner now until limit h) =
      let (later, rows, distinct) =
        claim-Claimed json_object same_payload locked owner now until limit js d h in
      (Rows-map (λ j k c. Claimed-Turn later c) rows, distinct)
  Operation-Turns {js} d (Operation.succeeds id owner at h) =
      let (turns, distinct) = succeed-Turns id owner at js h in (turns, distinct d)
  Operation-Turns {js} d (Operation.fails id owner code retryable next at h) =
      let (turns, distinct) = fail-Turns id owner code retryable next at js h in (turns, distinct d)

  Kept-refl : (js : List Job) → Rows Kept js js
  Kept-refl js = Rows-map Turn-Kept (Turns-same js)

  -- Whatever operations of whatever workers succeed on a table of distinct ids, every row is still
  -- there at its place: its identity, type, key, payload and maximum are those it had, its attempts
  -- have not become fewer, and if it had ended it is exactly as it was.
  pub history_keeps :
      {js ks : List Job} → Distinct js → History js ks → Rows Kept js ks × Distinct ks
  history_keeps {js} d History.starts = (Kept-refl js, d)
  history_keeps d (History.then_runs h o) =
      let (kept, distinct) = history_keeps d h in
      let (turns, distinct') = Operation-Turns distinct o in
      (Rows-then Kept-trans kept (Rows-map Turn-Kept turns), distinct')

  -- A claim takes no job whose lease is alive: on a table of distinct ids every such row is after it
  -- exactly as before it, whoever claims and whatever the limit.
  pub claim_spares_live :
      (locked : String → Bool) (owner : String) (now until : Time) (limit : ℕ) (js : List Job)
      {r : List Job × List Job}
      → Distinct js
      → claim json_object same_payload locked owner now until limit js ≡ ok r
      → Rows (λ j k. live_lease now j ≡ true → k ≡ j) js r.0
  claim_spares_live locked owner now until limit js d h =
      let (_, rows, _) =
        claim-Claimed json_object same_payload locked owner now until limit js d h in
      Rows-map (λ j k c. spared c) rows

-- ===== src/Jobs/Store/Scheduled.antt =====
-- What `Schedule` leaves in the table of checks (backend/internal/jobs/infrastructure/postgres.go).
use mathlib.Core.List.{Memᴰ}
use lidradar.Prelude.{
  ◌≡◌, refl, subst, String, Bool, true, not, ◌&&◌, ◌||◌, ◌==◌, Option, none, some, any, ok,
  fail_if-eq-ok, ok-injective, List, [], ◌∷◌, ◌++◌, arith, eq_iff, str_eq, ==_iff,
}
use lidradar.Tables.{find}
use lidradar.Tables.Apart.{find-some}
use lidradar.Jobs.Job.{Error}
use lidradar.Jobs.Check.{ScheduledCheck, validate_check}
use lidradar.Jobs.Store.Checks.{
  same_check_key, check_has_id, is_scheduled, equivalent, schedule, schedule_found,
}

-- A row that stands for a check, in a table that keeps all rows of one before.
pub record Kept (c : ScheduledCheck) (cs : List ScheduledCheck) (row : ScheduledCheck)
    (after : List ScheduledCheck) : Type 0 where
  pub there : Memᴰ row after
  pub same_tenant : row.tenant_id ≡ c.tenant_id
  pub same_type : row.check_type ≡ c.check_type
  pub same_job : row.job_type ≡ c.job_type
  pub same_subject : row.subject_id ≡ c.subject_id
  pub same_due : row.due_at ≡ c.due_at
  pub keeps : (x : ScheduledCheck) → Memᴰ x cs → Memᴰ x after

module _ {ℓ} {A : Type ℓ} where
  append-Memᴰ : (xs ys : List A) (x : A) → Memᴰ x xs → Memᴰ x (xs ++ ys)
  append-Memᴰ [] ys x m = elim m [ ]
  append-Memᴰ (y ∷ xs) ys x (Memᴰ.head e) = Memᴰ.head e
  append-Memᴰ (y ∷ xs) ys x (Memᴰ.tail m) = Memᴰ.tail (append-Memᴰ xs ys x m)

  last-Memᴰ : (xs : List A) (x : A) → Memᴰ x (xs ++ x ∷ [])
  last-Memᴰ [] x = Memᴰ.head refl
  last-Memᴰ (y ∷ xs) x = Memᴰ.tail (last-Memᴰ xs x)

module _ (json_object : String → Bool) (same_payload : String → String → Bool) where
  equivalent_parts :
      (a b d e f : Bool) → a && b && d && e && f ≡ true → (b ≡ true) × (d ≡ true) × (f ≡ true)
  equivalent_parts a b d e f h = ground arith

  key_parts : (a b d : Bool) → a && b && d ≡ true → (a ≡ true) × (b ≡ true)
  key_parts a b d h = ground arith

  schedule_found-Kept :
      (c row : ScheduledCheck) (new : Bool) (cs after : List ScheduledCheck)
      (found : Option ScheduledCheck)
      → find (same_check_key c) cs ≡ found
      → schedule_found json_object same_payload c cs found ≡ ok (row, new, after)
      → Kept c cs row after
  unfolding schedule_found equivalent
  schedule_found-Kept c row new cs after none f h =
      let (_, h') = fail_if-eq-ok (any (check_has_id c.id) cs) Error.conflict _ h in
      let made : ScheduledCheck = record c { updated_at = c.created_at } in
      subst (λ (w : ScheduledCheck × Bool × List ScheduledCheck). Kept c cs w.0 w.2)
        (ok-injective h')
        (record {
          there = last-Memᴰ cs made;
          same_tenant = refl;
          same_type = refl;
          same_job = refl;
          same_subject = refl;
          same_due = refl;
          keeps = append-Memᴰ cs (made ∷ []);
        })
  schedule_found-Kept c row new cs after (some r) f h =
      let (_, h') = fail_if-eq-ok (not (validate_check json_object r)) Error.invalid _ h in
      let (e, h'') =
        fail_if-eq-ok (not (equivalent json_object same_payload r c)) Error.conflict _ h' in
      let (m, k) = find-some (same_check_key c) cs r f in
      let (tenant, type) =
        key_parts (str_eq r.tenant_id c.tenant_id) (str_eq r.check_type c.check_type)
          (str_eq r.dedup_key c.dedup_key) k in
      let (subject, job, due) =
        equivalent_parts (str_eq r.subject_type c.subject_type) (str_eq r.subject_id c.subject_id)
          (str_eq r.job_type c.job_type) (same_payload r.payload c.payload) (r.due_at == c.due_at)
          (ground (arith, e)) in
      subst (λ (w : ScheduledCheck × Bool × List ScheduledCheck). Kept c cs w.0 w.2)
        (ok-injective h'')
        (record {
          there = m;
          same_tenant = (eq_iff r.tenant_id c.tenant_id).0 tenant;
          same_type = (eq_iff r.check_type c.check_type).0 type;
          same_job = (eq_iff r.job_type c.job_type).0 job;
          same_subject = (eq_iff r.subject_id c.subject_id).0 subject;
          same_due = (==_iff r.due_at c.due_at).0 due;
          keeps = λ x i. i;
        })

  -- Where `Schedule` returns no error the table has a row for the check, with its due moment, and all
  -- rows that it had.
  pub schedule-Kept :
      (c row : ScheduledCheck) (new : Bool) (cs after : List ScheduledCheck)
      → schedule json_object same_payload c cs ≡ ok (row, new, after)
      → Kept c cs row after
  unfolding schedule
  schedule-Kept c row new cs after h =
      let (_, h') =
        fail_if-eq-ok (not (is_scheduled c.status) || not (validate_check json_object c))
          Error.invalid _ h in
      schedule_found-Kept c row new cs after (find (same_check_key c) cs) refl h'

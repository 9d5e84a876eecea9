-- ===== src/Jobs/Store/Moved.antt =====
-- A check with the key of one that is scheduled (`Schedule` of
-- backend/internal/jobs/infrastructure/postgres.go).
use lidradar.Prelude.{
  ◌≡◌, refl, subst, String, Bool, true, false, not, ◌&&◌, ◌||◌, ◌==◌, Option, none, some, ok, err,
  ok-injective, fail_if-eq-ok, List, any, arith, ==_iff,
}
use lidradar.Time.{is_zero}
use lidradar.Tables.{find}
use lidradar.Tables.Apart.{find-none, find-append-one, text_eq_refl}
use lidradar.Jobs.Job.{Error as JobError}
use lidradar.Jobs.Check.{ScheduledCheck, validate_check, link_ok}
use lidradar.Jobs.Store.Checks.{
  same_check_key, check_has_id, is_scheduled, equivalent, schedule, schedule_found,
}

module _ (json_object : String → Bool) (same_payload : String → String → Bool) where
  last_again : (x y z l : Bool) → not (x || y || z) && l ≡ true → not (x || y || y) && l ≡ true
  last_again x y z l h = ground arith

  stored_valid :
      (c : ScheduledCheck)
      → validate_check json_object c ≡ true
      → validate_check json_object (record c { updated_at = c.created_at }) ≡ true
  unfolding validate_check
  stored_valid c v =
      last_again _ (is_zero c.created_at) (is_zero c.updated_at) (link_ok c.status c.job_id) v

  -- The row that stands for a check after `Schedule`.
  pub record Stands (c : ScheduledCheck) (left : List ScheduledCheck) : Type 0 where
    pub row : ScheduledCheck
    found : find (same_check_key c) left ≡ some row
    pub valid : validate_check json_object row ≡ true
    pub due : row.due_at ≡ c.due_at

  pub schedule_found-Stands :
      (c row : ScheduledCheck) (new : Bool) (cs left : List ScheduledCheck)
      (before : Option ScheduledCheck)
      → find (same_check_key c) cs ≡ before
      → validate_check json_object c ≡ true
      → schedule_found json_object same_payload c cs before ≡ ok (row, new, left)
      → Stands c left
  unfolding schedule_found equivalent
  schedule_found-Stands c row new cs left none f v h =
      let (_, h') = fail_if-eq-ok (any (check_has_id c.id) cs) JobError.conflict _ h in
      let made : ScheduledCheck = record c { updated_at = c.created_at } in
      let own : same_check_key c made ≡ true =
        rw (text_eq_refl c.tenant_id, text_eq_refl c.check_type, text_eq_refl c.dedup_key) refl in
      subst (λ (w : ScheduledCheck × Bool × List ScheduledCheck). Stands c w.2) (ok-injective h')
        (record {
          row = made;
          found =
              find-append-one (same_check_key c) cs made (find-none (same_check_key c) cs f) own;
          valid = stored_valid c v;
          due = refl;
        })
  schedule_found-Stands c row new cs left (some r) f v h =
      let (good, h') = fail_if-eq-ok (not (validate_check json_object r)) JobError.invalid _ h in
      let (e, h'') =
        fail_if-eq-ok (not (equivalent json_object same_payload r c)) JobError.conflict _ h' in
      let same : (r.due_at == c.due_at) ≡ true = last_part _ (r.due_at == c.due_at) e in
      subst (λ (w : ScheduledCheck × Bool × List ScheduledCheck). Stands c w.2) (ok-injective h'')
        (record {
          row = r;
          found = f;
          valid = ground (arith, good);
          due = (==_iff r.due_at c.due_at).0 same;
        })
    where
      last_part : (a b : Bool) → not (a && b) ≡ false → b ≡ true
      last_part a b h = ground arith

  unequal_due : (a b : Bool) → b ≡ false → (a && b) ≡ false
  unequal_due a b h = ground arith

  -- A check with the key of one that stands, but another due moment, is in conflict with it.
  pub moved-conflict :
      (c c' : ScheduledCheck) (left : List ScheduledCheck)
      → Stands c left
      → c'.tenant_id ≡ c.tenant_id
      → c'.check_type ≡ c.check_type
      → c'.dedup_key ≡ c.dedup_key
      → (c.due_at == c'.due_at) ≡ false
      → is_scheduled c'.status ≡ true
      → validate_check json_object c' ≡ true
      → schedule json_object same_payload c' left ≡ err JobError.conflict
  unfolding schedule schedule_found equivalent
  moved-conflict c c' left st t y k moved scheduled v =
      let found : find (same_check_key c') left ≡ some st.row = rw (t, y, k) st.found in
      let other : (st.row.due_at == c'.due_at) ≡ false = rw st.due moved in
      rw (scheduled, v, found, st.valid, unequal_due _ (st.row.due_at == c'.due_at) other) refl

-- ===== src/Opportunity/Repository/Transition.antt =====
-- What the repository promises of `Transition`: history, table and errors.
use lidradar.Prelude.{
  String, ◌≡◌, sym, subst, ◌⊎◌, inl, inr, true, false, not, Option, none, some, ok, ◌>>=◌,
  >>=-eq-ok, fail_if-eq-ok, List, arith,
}
use lidradar.Opportunity.Stage.Laws.{Move, Move-allowed}
use lidradar.Opportunity.Aggregate.{
  Error, Opportunity, validate, TransitionCommand, validate_command,
}
use lidradar.Opportunity.Repository.{
  Store, Outcome, is_row, find_row, moved, write_row, update_row, transition_row, transition_found,
  transition, opportunity_by_id,
}
use lidradar.Opportunity.Repository.Laws.{
  Recorded, row-inversion, moved-valid, command-target, reopens-nothing,
}
use lidradar.Opportunity.Repository.Rows.{TableOk, Hits-find, update-TableOk}

-- The row on which a transition that succeeds has run.
record Ran (c : TransitionCommand) (s : Store) (r : Outcome) : Type 0 where
  command : validate_command c ≡ true
  before : Opportunity
  found : find_row (is_row c.tenant_id c.opportunity_id) s.opportunities ≡ some before
  before_valid : validate before ≡ true
  ran : transition_row c s before ≡ ok r

by_id-eq-ok :
    (t i : String) (os : List Opportunity) {o : Opportunity}
    → opportunity_by_id t i os ≡ ok (some o)
    → (find_row (is_row t i) os ≡ some o) × (validate o ≡ true)
unfolding opportunity_by_id
by_id-eq-ok t i os h = ground arith

found-Ran :
    (c : TransitionCommand) (s : Store) (found : Option Opportunity) {r : Outcome}
    → validate_command c ≡ true
    → opportunity_by_id c.tenant_id c.opportunity_id s.opportunities ≡ ok found
    → transition_found c s found ≡ ok r
    → Ran c s r
unfolding transition_found
found-Ran c s none good e k = cc
found-Ran c s (some o) good e k =
    let (f, v) = by_id-eq-ok c.tenant_id c.opportunity_id s.opportunities e in
    record { command = good; before = o; found = f; before_valid = v; ran = k }

transition-Ran :
    (c : TransitionCommand) (s : Store) {r : Outcome} → transition c s ≡ ok r → Ran c s r
unfolding transition
transition-Ran c s h =
    let read = opportunity_by_id c.tenant_id c.opportunity_id s.opportunities in
    let (good, k) =
      fail_if-eq-ok (not (validate_command c)) Error.invalid (read >>= transition_found c s) h in
    let (found, e, k') = >>=-eq-ok read (transition_found c s) k in
    found-Ran c s found (ground arith) e k'

-- A transition that succeeds either finds the stage as wanted and writes nothing, or makes one of
-- the allowed moves from the stage of the row that it read: it appends to the history exactly one
-- record, which names that stage, the new one, the moment and the opportunity, and writes the row.
pub transition_effect :
    (c : TransitionCommand) (s : Store) {r : Outcome}
    → transition c s ≡ ok r
    → (o : Opportunity) × (find_row (is_row c.tenant_id c.opportunity_id) s.opportunities ≡ some o)
      × (((o.stage ≡ c.to_stage) × (r.opportunity ≡ o) × (r.changed ≡ false) × (r.store ≡ s))
          ⊎ (Move o.stage c.to_stage × Recorded c o s r))
transition_effect c s h =
    let ran = transition-Ran c s h in (ran.before, ran.found, row-inversion c s ran.before ran.ran)

moved-TableOk :
    (c : TransitionCommand) (o : Opportunity) (os : List Opportunity)
    → validate_command c ≡ true
    → find_row (is_row c.tenant_id c.opportunity_id) os ≡ some o
    → validate o ≡ true
    → Move o.stage c.to_stage
    → TableOk os
    → TableOk (update_row c.tenant_id c.opportunity_id (moved c o) os)
unfolding moved write_row
moved-TableOk c o os good found v m k =
    let (target, at) = command-target c good in
    update-TableOk c.tenant_id c.opportunity_id o (moved c o) os (moved-valid c o v target at)
      (reopens-nothing o.stage c.to_stage (Move-allowed m))
      (Hits-find c.tenant_id c.opportunity_id o os k found) k

-- Transitions keep the table in order: every row valid, every id used once, and at most one active
-- opportunity to a conversation. No index of the database is needed for the last.
pub transition-TableOk :
    (c : TransitionCommand) (s : Store) {r : Outcome}
    → TableOk s.opportunities
    → transition c s ≡ ok r
    → TableOk r.store.opportunities
transition-TableOk c s {r} k h =
    let ran = transition-Ran c s h in
    elim (row-inversion c s ran.before ran.ran) [
      | inl same ↦ subst (λ (t : Store). TableOk t.opportunities) (sym same.3) k
      | inr done ↦ subst TableOk (sym done.1.rows) (
          moved-TableOk c ran.before s.opportunities ran.command ran.found ran.before_valid done.0
            k)
    ]

-- ===== src/Opportunity/Repository/Laws.antt =====
-- What a transition does to the tables of opportunities (backend/internal/opportunity/infrastructure/postgres.go).
use lidradar.Prelude.{
  Bool, not, ◌≡◌, refl, sym, ap, ◌∙◌, ◌⊎◌, inl, inr, true, false, some, ok, ◌>>=◌, >>=-eq-ok,
  fail_if-eq-ok, ok-injective, checked-eq-ok, List, [], ◌∷◌, ◌++◌, arith, Bool-cases,
}
use lidradar.Time.{is_zero}
use lidradar.Opportunity.Stage
use lidradar.Opportunity.Stage.{Stage, stage_eq}
use lidradar.Opportunity.Stage.Laws.{Move, change-Move, closed_step, stage_eq_iff}
use lidradar.Opportunity.Aggregate.{
  Opportunity, validate, StageHistory, validate_history, new_history, TransitionCommand,
  validate_command,
}
use lidradar.Opportunity.Repository.{
  Store, Outcome, moved, update_row, insert_history, append_event, committed, commit_move,
  transition_row,
}

-- A valid command moves to a valid stage, at a moment.
pub command-target :
    (c : TransitionCommand)
    → validate_command c ≡ true
    → (Stage.valid c.to_stage ≡ true) × (is_zero c.at ≡ false)
unfolding validate_command validate_history
command-target c w = ground arith

-- The row that a transition writes is valid.
pub moved-valid :
    (c : TransitionCommand) (o : Opportunity)
    → validate o ≡ true
    → Stage.valid c.to_stage ≡ true
    → is_zero c.at ≡ false
    → validate (moved c o) ≡ true
unfolding validate moved
moved-valid c o v w z = ground arith

-- An allowed change makes no closed opportunity active.
pub reopens-nothing :
    (s t : Stage)
    → Stage.can_transition_to s t ≡ true
    → Stage.active t ≡ true
    → Stage.active s ≡ true
reopens-nothing s t h a = elim (Bool-cases (Stage.active s)) [
  | inl live ↦ live
  | inr closed ↦ cc (closed_step s t closed h)
]

-- What a change of stage leaves in the tables, beside the row: one more history record, and the
-- events with that of the record.
pub record Recorded (c : TransitionCommand) (o : Opportunity) (s : Store) (r : Outcome)
    : Type 0 where
  pub row : r.opportunity ≡ moved c o
  pub rows :
      r.store.opportunities ≡ update_row c.tenant_id c.opportunity_id (moved c o) s.opportunities
  pub entry : StageHistory
  pub entry_from : entry.from_stage ≡ some o.stage
  pub entry_to : entry.to_stage ≡ c.to_stage
  pub entry_at : entry.created_at ≡ c.at
  pub entry_of : (entry.tenant_id ≡ c.tenant_id) × (entry.opportunity_id ≡ c.opportunity_id)
  pub history : r.store.history ≡ s.history ++ entry ∷ []
  pub set : r.changed ≡ true

history-fields :
    (c : TransitionCommand) (o : Opportunity) {h : StageHistory}
    → new_history c.history_id c.tenant_id c.opportunity_id
        (some o.stage)
        c.to_stage
        c.source
        c.confidence
        c.ai_run_id
        c.actor_user_id
        c.at
      ≡ ok h
    → (h.from_stage ≡ some o.stage)
      × (h.to_stage ≡ c.to_stage)
      × (h.created_at ≡ c.at)
      × (h.tenant_id ≡ c.tenant_id)
      × (h.opportunity_id ≡ c.opportunity_id)
unfolding new_history
history-fields c o e =
    let (_, is) = checked-eq-ok _ _ _ e in
    (
      ap StageHistory.from_stage (sym is),
      ap StageHistory.to_stage (sym is),
      ap StageHistory.created_at (sym is),
      ap StageHistory.tenant_id (sym is),
      ap StageHistory.opportunity_id (sym is),
    )

insert_history-eq-ok :
    (h : StageHistory) (hs : List StageHistory) {gs : List StageHistory}
    → insert_history h hs ≡ ok gs
    → gs ≡ hs ++ h ∷ []
unfolding insert_history
insert_history-eq-ok h hs e = ground arith

commit_move-Recorded :
    (c : TransitionCommand) (s : Store) (o : Opportunity) (h : StageHistory) {r : Outcome}
    → new_history c.history_id c.tenant_id c.opportunity_id
        (some o.stage)
        c.to_stage
        c.source
        c.confidence
        c.ai_run_id
        c.actor_user_id
        c.at
      ≡ ok h
    → commit_move c s o h ≡ ok r
    → Recorded c o s r
unfolding commit_move
commit_move-Recorded c s o h {r} e k =
    let event = append_event (moved c o) h "opportunity.stage_changed" (some o.stage) s.events in
    let (hs, ins, k') =
      >>=-eq-ok (insert_history h s.history) (λ hs. event >>= λ es. ok (committed c s o hs es)) k in
    let (es, app, k'') = >>=-eq-ok event (λ es. ok (committed c s o hs es)) k' in
    let done = ok-injective k'' in
    let (p, q, t, u, w) = history-fields c o e in
    record {
      row = ap Outcome.opportunity (sym done);
      rows = ap (λ (x : Outcome). x.store.opportunities) (sym done);
      entry = h;
      entry_from = p;
      entry_to = q;
      entry_at = t;
      entry_of = (u, w);
      history =
          ap (λ (x : Outcome). x.store.history) (sym done) ∙ insert_history-eq-ok h s.history ins;
      set = ap (λ (x : Outcome). x.changed) (sym done);
    }

not-false : (b : Bool) → not b ≡ false → b ≡ true
not-false true h = refl
not-false false h = cc

-- The two ways in which a transition of a row succeeds: the stage is the wanted one already and
-- nothing is written, or the move is one of the allowed ones and is recorded.
pub row-inversion :
    (c : TransitionCommand) (s : Store) (o : Opportunity) {r : Outcome}
    → transition_row c s o ≡ ok r
    → ((o.stage ≡ c.to_stage) × (r.opportunity ≡ o) × (r.changed ≡ false) × (r.store ≡ s))
      ⊎ (Move o.stage c.to_stage × Recorded c o s r)
unfolding transition_row
row-inversion c s o h = elim (Bool-cases (stage_eq o.stage c.to_stage)) [
  | inl same ↦
      let done = ok-injective (rw same at h) in
      inl (
        (stage_eq_iff o.stage c.to_stage).0 same,
        ap Outcome.opportunity (sym done),
        ap (λ (x : Outcome). x.changed) (sym done),
        ap (λ (x : Outcome). x.store) (sym done),
      )
  | inr differ ↦
      let (allowed, k) = fail_if-eq-ok _ _ _ (rw differ at h) in
      let (entry, e, k') = >>=-eq-ok _ _ k in
      inr (
        change-Move o.stage c.to_stage (not-false _ allowed) differ,
        commit_move-Recorded c s o entry e k',
      )
]

-- ===== src/Tests/Opportunity.antt =====
-- A deal that moves from NEW through ENGAGED to LOST.
use lidradar.Prelude.{
  ◌+◌, ◌≤◌, ◌≡◌, ◌⊎◌, ◌↔◌, refl, true, false, none, some, ok, List, [], ◌∷◌, length, All,
}
use lidradar.Opportunity.Stage.{Stage, active, can_transition_to, stage_eq, valid}
use lidradar.Opportunity.Stage.Laws.{
  Changes, Move, can_transition_iff, Changes-bounded, closed_stays_closed, progress,
}
use lidradar.Opportunity.Aggregate.{
  Opportunity, HistorySource, TransitionCommand, validate, validate_command,
}
use lidradar.Opportunity.Repository.{Store, Outcome, is_row, find_row, transition, moved}
use lidradar.Opportunity.Repository.Laws.{Recorded}
use lidradar.Opportunity.Repository.Rows.{TableOk}
use lidradar.Opportunity.Repository.Transition.{transition_effect, transition-TableOk}

abbrev deal : Opportunity
deal = record {
  id = "deal";
  tenant_id = "org";
  conversation_id = "talk";
  service_id = none;
  stage = Stage.new;
  estimated_amount = none;
  estimated_amount_confidence = none;
  currency = "RUB";
  opened_at = 5;
  closed_at = none;
  created_at = 5;
  updated_at = 5;
}

abbrev store : Store
store = record { opportunities = deal ∷ []; history = []; events = [] }

abbrev command : TransitionCommand
command = record {
  tenant_id = "org";
  opportunity_id = "deal";
  history_id = "h1";
  to_stage = Stage.lost;
  source = HistorySource.rule;
  confidence = none;
  ai_run_id = none;
  actor_user_id = none;
  at = 9;
}

outcome : (r : Outcome) × (transition command store ≡ ok r)
unfolding transition validate_command valid validate active can_transition_to moved
outcome = (_, refl)

store-TableOk : TableOk store.opportunities
unfolding validate valid active
store-TableOk = (record { row_valid = refl; own_id = refl; alone = λ _. refl }, tt)

transition-TableOk_example : TableOk outcome.0.store.opportunities
transition-TableOk_example = transition-TableOk command store store-TableOk outcome.1

transition_effect_example :
    (o : Opportunity) × (find_row (is_row "org" "deal") store.opportunities ≡ some o)
    × (((o.stage ≡ Stage.lost)
          × (outcome.0.opportunity ≡ o)
          × (outcome.0.changed ≡ false)
          × (outcome.0.store ≡ store))
        ⊎ (Move o.stage Stage.lost × Recorded command o store outcome.0))
transition_effect_example = transition_effect command store outcome.1

abbrev history : List Stage
history = Stage.engaged ∷ Stage.lost ∷ Stage.archived ∷ []

history-Changes : Changes Stage.new history
unfolding can_transition_to stage_eq
history-Changes = (refl, refl, (refl, refl, (refl, refl, tt)))

Changes-bounded_example : progress Stage.new + length history ≤ 9
Changes-bounded_example = Changes-bounded Stage.new history history-Changes

after_loss : Changes Stage.lost (Stage.archived ∷ [])
unfolding can_transition_to stage_eq
after_loss = (refl, refl, tt)

closed_stays_closed_example : All (λ t. active t ≡ false) (Stage.archived ∷ [])
unfolding active
closed_stays_closed_example = closed_stays_closed Stage.lost (Stage.archived ∷ []) refl after_loss

can_transition_iff_example :
    (can_transition_to Stage.booked Stage.won ≡ true)
    ↔ ((valid Stage.booked ≡ true) × (Stage.booked ≡ Stage.won)) ⊎ Move Stage.booked Stage.won
can_transition_iff_example = can_transition_iff Stage.booked Stage.won

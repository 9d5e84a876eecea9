-- ===== src/Opportunity/Stage.antt =====
-- The stages of an opportunity and the moves between them
-- (backend/internal/opportunity/domain/opportunity.go).
pub mod Laws
use lidradar.Prelude.{
  ℕ, String, Bool, true, false, not, ◌&&◌, ◌||◌, Option, none, some, ltb, if◌then◌else◌, str_eq,
  is_some,
}

-- A Go string type: the constants, or any other text.
pub data Stage : Type 0 where
  new engaged qualifying price_sent waiting_customer waiting_business booking_intent booked : Stage
  won lost archived : Stage
  other : String → Stage

-- The map `activeStageOrder`.
unfoldable pub active_stage_order : Stage → Option ℕ
active_stage_order Stage.new = some 0
active_stage_order Stage.engaged = some 1
active_stage_order Stage.qualifying = some 2
active_stage_order Stage.price_sent = some 3
active_stage_order Stage.waiting_customer = some 4
active_stage_order Stage.waiting_business = some 5
active_stage_order Stage.booking_intent = some 6
active_stage_order Stage.booked = some 7
active_stage_order _ = none

-- Go's `==` on stages.
unfoldable pub stage_eq : Stage → Stage → Bool
stage_eq Stage.new Stage.new = true
stage_eq Stage.engaged Stage.engaged = true
stage_eq Stage.qualifying Stage.qualifying = true
stage_eq Stage.price_sent Stage.price_sent = true
stage_eq Stage.waiting_customer Stage.waiting_customer = true
stage_eq Stage.waiting_business Stage.waiting_business = true
stage_eq Stage.booking_intent Stage.booking_intent = true
stage_eq Stage.booked Stage.booked = true
stage_eq Stage.won Stage.won = true
stage_eq Stage.lost Stage.lost = true
stage_eq Stage.archived Stage.archived = true
stage_eq (Stage.other s) (Stage.other t) = str_eq s t
stage_eq _ _ = false

unfoldable pub valid : Stage → Bool
unfolding active_stage_order stage_eq
valid stage =
    if is_some (active_stage_order stage)
    then true
    else stage_eq stage Stage.won || stage_eq stage Stage.lost || stage_eq stage Stage.archived

unfoldable pub active : Stage → Bool
unfolding active_stage_order
active stage = is_some (active_stage_order stage)

-- The two lookups of the map in `CanTransitionTo`, once both stages are valid and differ.
move_allowed : Option ℕ → Option ℕ → Stage → Stage → Bool
unfolding stage_eq
move_allowed (some current) (some target) stage next = ltb current target
move_allowed (some current) none stage next =
    if stage_eq next Stage.lost
    then true
    else stage_eq stage Stage.booked && stage_eq next Stage.won
move_allowed none target stage next =
    (stage_eq stage Stage.won || stage_eq stage Stage.lost) && stage_eq next Stage.archived

unfoldable pub can_transition_to : Stage → Stage → Bool
unfolding active_stage_order stage_eq valid move_allowed
can_transition_to stage next =
    if not (valid stage) || not (valid next)
    then false
    else (if stage_eq stage next
        then true
        else move_allowed (active_stage_order stage) (active_stage_order next) stage next)

-- ===== src/Opportunity/Stage/Laws.antt =====
-- The moves between stages, described apart from the code that tests them.
use lidradar.Prelude.{
  ℕ, ◌+◌, ◌≤◌, ◌<◌, ◌≡◌, refl, ◌⊎◌, inl, inr, ◌↔◌, true, false, arith, eq_iff, Bool-cases, List, [],
  ◌∷◌, length, All,
}
use lidradar.Opportunity.Stage.{Stage, stage_eq, valid, active, can_transition_to}

-- How far an opportunity has come: its place among the active stages, then closed, then archived.
abbrev pub progress : Stage → ℕ
progress Stage.new = 0
progress Stage.engaged = 1
progress Stage.qualifying = 2
progress Stage.price_sent = 3
progress Stage.waiting_customer = 4
progress Stage.waiting_business = 5
progress Stage.booking_intent = 6
progress Stage.booked = 7
progress Stage.won = 8
progress Stage.lost = 8
progress Stage.archived = 9
progress (Stage.other _) = 0

abbrev pub IsActive : Stage → Type 0
IsActive s = active s ≡ true

-- The moves that the business rules allow.
pub data Move : Stage → Stage → Type 0 where
  forward : {s t : Stage} → IsActive s → IsActive t → progress s < progress t → Move s t
  lose : {s t : Stage} → IsActive s → t ≡ Stage.lost → Move s t
  win : {s t : Stage} → s ≡ Stage.booked → t ≡ Stage.won → Move s t
  archive : {s t : Stage} → (s ≡ Stage.won) ⊎ (s ≡ Stage.lost) → t ≡ Stage.archived → Move s t

pub stage_eq_iff : (s t : Stage) → (stage_eq s t ≡ true) ↔ (s ≡ t)
unfolding stage_eq
stage_eq_iff (Stage.other s) (Stage.other t) = ground (arith, eq_iff s t)
stage_eq_iff _ _ = ground arith

stage_eq_refl : (s : Stage) → stage_eq s s ≡ true
stage_eq_refl s = (stage_eq_iff s s).1 refl

-- A stage that may be left is reached by a move: the code allows no other change of stage.
pub change-Move : (s t : Stage) → can_transition_to s t ≡ true → stage_eq s t ≡ false → Move s t
unfolding can_transition_to active
change-Move s Stage.won h n = Move.win (ground arith) refl
change-Move s Stage.lost h n = Move.lose (ground arith) refl
change-Move s Stage.archived h n = Move.archive (ground arith) refl
change-Move s _ h n = Move.forward (ground arith) (ground arith) (ground arith)

pub Move-allowed : {s t : Stage} → Move s t → can_transition_to s t ≡ true
unfolding can_transition_to active
Move-allowed (Move.forward {s = s} {t = t} a b h) = ground arith
Move-allowed (Move.lose a e) = ground arith
Move-allowed (Move.win e f) = ground arith
Move-allowed (Move.archive e f) = ground arith

can_transition-valid : (s t : Stage) → can_transition_to s t ≡ true → valid s ≡ true
unfolding can_transition_to
can_transition-valid s t h = ground arith

pub closed_step : (s t : Stage) → active s ≡ false → can_transition_to s t ≡ true → active t ≡ false
unfolding can_transition_to active
closed_step s Stage.new a h = ground arith
closed_step s _ a h = ground arith

stay_allowed : (s t : Stage) → valid s ≡ true → s ≡ t → can_transition_to s t ≡ true
unfolding can_transition_to
stay_allowed s t v e = rw (← e) (ground (arith, stage_eq_refl s))

-- A change of stage is allowed exactly if it stays at a valid stage or is one of the four moves:
-- forward among the active stages, to LOST, from BOOKED to WON, from WON or LOST to ARCHIVED.
pub can_transition_iff :
    (s t : Stage) → (can_transition_to s t ≡ true) ↔ ((valid s ≡ true) × (s ≡ t)) ⊎ Move s t
can_transition_iff s t = (
  λ h. elim (Bool-cases (stage_eq s t)) [
    | inl same ↦ inl (can_transition-valid s t h, (stage_eq_iff s t).0 same)
    | inr differ ↦ inr (change-Move s t h differ)
  ],
  λ h. elim h [ inl (v, e) ↦ stay_allowed s t v e | inr m ↦ Move-allowed m ],
)

Move-progress : {s t : Stage} → Move s t → progress s < progress t
unfolding active
Move-progress (Move.forward a b h) = h
Move-progress (Move.lose a e) = ground arith
Move-progress (Move.win e f) = ground arith
Move-progress (Move.archive e f) = ground arith

-- A list of stages that an opportunity takes one after the other, each by an allowed change.
abbrev pub Changes : Stage → List Stage → Type 0
Changes s [] = Unit
Changes s (t ∷ ts) = (can_transition_to s t ≡ true) × (stage_eq s t ≡ false) × Changes t ts

progress-le : (s : Stage) → progress s ≤ 9
progress-le Stage.new = omega arith
progress-le _ = omega arith

-- No history of changes goes round in a circle: from a stage there are at most as many changes as
-- there are degrees of progress left, so nine from NEW.
pub Changes-bounded : (s : Stage) (ts : List Stage) → Changes s ts → progress s + length ts ≤ 9
Changes-bounded s [] h = omega (arith, progress-le s)
Changes-bounded s (t ∷ ts) h =
    omega (arith, Move-progress (change-Move s t h.0 h.1), Changes-bounded t ts h.2)

-- A closed opportunity is never reopened: once a stage is not active, no list of allowed changes
-- leads to an active one.
pub closed_stays_closed :
    (s : Stage) (ts : List Stage) → active s ≡ false → Changes s ts → All (λ t. active t ≡ false) ts
closed_stays_closed s [] a h = tt
closed_stays_closed s (t ∷ ts) a h =
    let c = closed_step s t a h.0 in (c, closed_stays_closed t ts c h.2)

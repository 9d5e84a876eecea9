-- ===== src/Risk/Planner/Remembered.antt =====
-- What the plan of a decision leaves in the table of checks.
use lidradar.Prelude.{
  ◌≡◌, refl, ap, subst, ◌∙◌, String, Bool, true, false, not, ◌||◌, Option, none, some,
  if◌then◌else◌, Result, ok, err, ok-injective, List,
}
use lidradar.Text.{is_empty}
use lidradar.Time.{Time, is_zero, after}
use lidradar.Jobs.Check.{ScheduledCheck}
use lidradar.Risk.Policy.{Decision}
use lidradar.Risk.Evaluation.{Error, Policy}
use lidradar.Risk.Planner.{schedule_check, schedule_next, trigger_of}
use lidradar.Risk.Planner.Runs.{plan_next, plan}
use lidradar.Risk.Planner.Inputs.{Ids, Clock}
use lidradar.Risk.Planner.Kept.{Keeps, Planned, Planned-Keeps, schedule_check-Planned}

-- What a decision leaves in the table of checks: the rows that were there, a check at its due moment,
-- and one at its next due moment, if that is still ahead.
pub record Remembered (clock : Clock) (tenant_id opportunity_id : String) (d : Decision)
    (cs left : List ScheduledCheck) : Type 0 where
  pub keeps : Keeps cs left
  pub due :
      (is_zero d.due_at || is_empty (trigger_of d)) ≡ false
      → Planned tenant_id opportunity_id d.due_at left
  pub next :
      (is_zero d.next_due_at || not (after d.next_due_at clock.comparing_next)) ≡ false
      → (is_zero d.next_due_at || is_empty (trigger_of d)) ≡ false
      → Planned tenant_id opportunity_id d.next_due_at left

module _ (json_object : String → Bool) (same_payload : String → String → Bool)
    (payload_of : String → String) (format_due : Time → String) where
  schedule_next-Planned :
      (policy : Policy) (id : Option String) (clock : Clock) (tenant_id opportunity_id : String)
      (d : Decision) (cs left : List ScheduledCheck)
      → schedule_next json_object same_payload payload_of format_due policy id clock.comparing_next
          clock.creating_next tenant_id opportunity_id d cs
        ≡ ok left
      → Keeps cs left
        × ((is_zero d.next_due_at || not (after d.next_due_at clock.comparing_next)) ≡ false
            → (is_zero d.next_due_at || is_empty (trigger_of d)) ≡ false
            → Planned tenant_id opportunity_id d.next_due_at left)
  unfolding schedule_next
  schedule_next-Planned policy id clock tenant_id opportunity_id d cs left h =
      go (is_zero d.next_due_at || not (after d.next_due_at clock.comparing_next)) h
    where
      go :
          (skip : Bool)
          → (if skip
              then ok cs
              else schedule_check json_object same_payload payload_of format_due policy id
                  clock.creating_next tenant_id opportunity_id d d.next_due_at d.next_check_suffix
                  cs)
            ≡ ok left
          → Keeps cs left
            × (skip ≡ false
                → (is_zero d.next_due_at || is_empty (trigger_of d)) ≡ false
                → Planned tenant_id opportunity_id d.next_due_at left)
      go true h' = (subst (Keeps cs) (ok-injective h') (λ x m. m), λ n. cc)
      go false h' =
          let (k, p) =
            schedule_check-Planned json_object same_payload payload_of format_due policy id
              clock.creating_next tenant_id opportunity_id d d.next_due_at d.next_check_suffix cs
              left h' in
          (k, λ n t. p t)

  answered :
      (left after : List ScheduledCheck) {trouble : Option Error}
      → ◌≡◌ {A = List ScheduledCheck × Option Error} (left, trouble) (after, none)
      → (left ≡ after) × (trouble ≡ none)
  answered left after h = (
    ap (λ (w : List ScheduledCheck × Option Error). w.0) h,
    ap (λ (w : List ScheduledCheck × Option Error). w.1) h,
  )

  plan_next-Remembered :
      (policy : Policy) (ids : Ids) (clock : Clock) (tenant_id opportunity_id : String)
      (d : Decision) (cs left : List ScheduledCheck) (first : Result Error (List ScheduledCheck))
      → ((c : List ScheduledCheck)
          → first ≡ ok c
          → Keeps cs c
            × ((is_zero d.due_at || is_empty (trigger_of d)) ≡ false
                → Planned tenant_id opportunity_id d.due_at c))
      → plan_next json_object same_payload payload_of format_due policy ids clock tenant_id
          opportunity_id d cs first
        ≡ (left, none)
      → Remembered clock tenant_id opportunity_id d cs left
  unfolding plan_next
  plan_next-Remembered policy ids clock tenant_id opportunity_id d cs left (err e) f h = cc
  plan_next-Remembered policy ids clock tenant_id opportunity_id d cs left (ok c) f h =
      go
        (schedule_next json_object same_payload payload_of format_due policy ids.next_check
          clock.comparing_next clock.creating_next tenant_id opportunity_id d c)
        refl h
    where
      go :
          (answer : Result Error (List ScheduledCheck))
          → schedule_next json_object same_payload payload_of format_due policy ids.next_check
              clock.comparing_next clock.creating_next tenant_id opportunity_id d c
            ≡ answer
          → ◌≡◌ {A = List ScheduledCheck × Option Error}
              (elim answer [ err e ↦ (c, some e) | ok both ↦ (both, none) ])
              (left, none)
          → Remembered clock tenant_id opportunity_id d cs left
      go (err e) w h' = cc
      go (ok both) w h' =
          let (here, p) = f c refl in
          let (on, q) =
            schedule_next-Planned policy ids.next_check clock tenant_id opportunity_id d c left
              (w ∙ ap ok (answered both left h').0) in
          record { keeps = λ x m. on x (here x m); due = λ n. Planned-Keeps on (p n); next = q }

  pub plan-Remembered :
      (policy : Policy) (ids : Ids) (clock : Clock) (tenant_id opportunity_id : String)
      (d : Decision) (cs left : List ScheduledCheck)
      → plan json_object same_payload payload_of format_due policy ids clock tenant_id
          opportunity_id d cs
        ≡ (left, none)
      → Remembered clock tenant_id opportunity_id d cs left
  unfolding plan
  plan-Remembered policy ids clock tenant_id opportunity_id d cs left h =
      plan_next-Remembered policy ids clock tenant_id opportunity_id d cs left _
        (λ c e.
          schedule_check-Planned json_object same_payload payload_of format_due policy ids.check
            clock.creating tenant_id opportunity_id d d.due_at "" cs c e)
        h

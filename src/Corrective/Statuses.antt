-- ===== src/Corrective/Statuses.antt =====
-- The parts of the program agree on which risks are active, by the texts of their statuses.
use lidradar.Prelude.{◌≡◌, refl, true}
use lidradar.Corrective.{can_record_action}
use lidradar.Risk.Aggregate.{Status, status_active, status_valid, status_text}
use lidradar.Notification.Digest.{DigestEntry, entry_active}

-- For every known status of a risk, an action may be recorded exactly if the risk is active, and a
-- digest counts it as active exactly then too, for any entry with the text of this status.
active_agree :
    (s : Status) (e : DigestEntry)
    → status_valid s ≡ true
    → e.status ≡ status_text s
    → (can_record_action (status_text s) ≡ status_active s) × (entry_active e ≡ status_active s)
unfolding can_record_action status_active status_valid entry_active status_text
active_agree Status.opened e v h = (refl, rw h refl)
active_agree Status.acknowledged e v h = (refl, rw h refl)
active_agree Status.acted e v h = (refl, rw h refl)
active_agree Status.resolved e v h = (refl, rw h refl)
active_agree Status.false_positive e v h = (refl, rw h refl)
active_agree Status.ignored e v h = (refl, rw h refl)
active_agree Status.expired e v h = (refl, rw h refl)
active_agree (Status.other s) e v h = cc

-- ===== src/Notification/Fact/Names.antt =====
-- Channels, kinds, slots and the keys against duplicates of notifications
-- (backend/internal/notification/domain/notification.go).
use lidradar.Prelude.{ℕ, String, Bool, true, false, ◌&&◌, List, [], ◌∷◌, if◌then◌else◌, ◌==◌}
use lidradar.Text.{is_digit, codes, joined}

pub data Channel : Type 0 where
  in_app telegram : Channel
  other : String → Channel

unfoldable pub valid_channel : Channel → Bool
valid_channel (Channel.other _) = false
valid_channel _ = true

pub data DeliveryStatus : Type 0 where
  pending processing succeeded retry dead : DeliveryStatus
  other : String → DeliveryStatus

pub data Kind : Type 0 where
  risk_opened risk_digest risk_escalated : Kind
  other : String → Kind

unfoldable pub valid_kind : Kind → Bool
valid_kind (Kind.other _) = false
valid_kind _ = true

abbrev pub is_digest : Kind → Bool
is_digest Kind.risk_digest = true
is_digest _ = false

-- The regular expression of a slot: a `d` stands for a digit, any other byte for itself.
slot_shape : List ℕ → List ℕ → Bool
slot_shape [] [] = true
slot_shape (p ∷ ps) (c ∷ cs) = (if p == b'd' then is_digit c else p == c) && slot_shape ps cs
slot_shape _ _ = false

-- `ValidSlot`.
unfoldable pub valid_slot : String → Bool
unfolding slot_shape
valid_slot slot = slot_shape (codes "dddd-dd-ddTdd:dd") (codes slot)

unfoldable pub risk_opened_dedup_key : String → String → String
risk_opened_dedup_key risk_id user_id = joined ("risk:" ∷ risk_id ∷ ":opened:user:" ∷ user_id ∷ [])

unfoldable pub risk_escalated_dedup_key : String → String → String
risk_escalated_dedup_key risk_id user_id =
    joined ("risk:" ∷ risk_id ∷ ":escalated:user:" ∷ user_id ∷ [])

unfoldable pub digest_dedup_key : String → String → String
digest_dedup_key user_id slot = joined ("digest:user:" ∷ user_id ∷ ":" ∷ slot ∷ [])

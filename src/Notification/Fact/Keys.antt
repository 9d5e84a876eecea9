-- ===== src/Notification/Fact/Keys.antt =====
-- Deduplication keys tell notifications apart, and a digest's slot is read back from its key.
use Prim.Native.String.{len, count, slice, ◌++◌ as str_append}
use text.Mathlib.TextLemmas.{append_assoc, append-nil, append_inj}
use text.Mathlib.TextPositions.{len-append, slice-append_right, starts_with-append}
use lidradar.Prelude.{String, ◌≡◌, refl, sym, ◌∙◌, false, str_eq, eq_iff}
use lidradar.Text.{joined}
use lidradar.Time.{Time}
use lidradar.Notification.Fact.{
  slot_of, digest_prefix, digest_fact, digest_dedup_key, risk_opened_dedup_key,
  risk_escalated_dedup_key,
}

-- What is left of a text behind its prefix.
slice-behind : (p s : String) → slice (str_append p s) (len p) (len (str_append p s)) ≡ s
slice-behind p s = rw (len-append p s) (slice-append_right p s)

digest_key-eq : (u s : String) → digest_dedup_key u s ≡ str_append (digest_prefix u) s
unfolding digest_dedup_key joined
digest_key-eq u s = simp (append_assoc, append-nil)

-- The slot of a digest is the one that it was made for, whatever the user's id.
pub slot_of-digest_fact :
    (id tenant_id user_id slot title body : String) (at : Time)
    → slot_of (digest_fact id tenant_id user_id slot title body at) ≡ slot
unfolding slot_of digest_fact
slot_of-digest_fact id tenant_id user_id slot title body at =
    let prefix = digest_prefix user_id in
    rw (digest_key-eq user_id slot, starts_with-append prefix slot) (slice-behind prefix slot)

-- What a key says of one risk and one user: the id in the middle is of a known length.
opened-parts :
    (r r' u u' : String)
    → count r ≡ count r'
    → risk_opened_dedup_key r u ≡ risk_opened_dedup_key r' u'
    → (r ≡ r') × (u ≡ u')
unfolding risk_opened_dedup_key joined
opened-parts r r' u u' n h =
    let (_, behind) = append_inj {s₁ = "risk:"} {s₂ = "risk:"} h refl in
    let (same, rest) = append_inj {s₁ = r} {s₂ = r'} behind n in
    let (_, last) = append_inj {s₁ = ":opened:user:"} {s₂ = ":opened:user:"} rest refl in
    (same, sym (append-nil u) ∙ last ∙ append-nil u')

escalated-parts :
    (r r' u u' : String)
    → count r ≡ count r'
    → risk_escalated_dedup_key r u ≡ risk_escalated_dedup_key r' u'
    → (r ≡ r') × (u ≡ u')
unfolding risk_escalated_dedup_key joined
escalated-parts r r' u u' n h =
    let (_, behind) = append_inj {s₁ = "risk:"} {s₂ = "risk:"} h refl in
    let (same, rest) = append_inj {s₁ = r} {s₂ = r'} behind n in
    let (_, last) = append_inj {s₁ = ":escalated:user:"} {s₂ = ":escalated:user:"} rest refl in
    (same, sym (append-nil u) ∙ last ∙ append-nil u')

-- Two texts that differ are no prefixes of equal length of one text.
differ :
    (p q s t : String)
    → str_eq p q ≡ false
    → count p ≡ count q
    → str_append p s ≡ str_append q t
    → ⊥
differ p q s t d n h =
    let (same, _) = append_inj {s₁ = p} {s₂ = q} h n in let yes = (eq_iff p q).1 same in cc

-- The same for texts whose first characters are set apart.
differ_behind :
    (p p' q q' s t : String)
    → str_eq p q ≡ false
    → count p ≡ count q
    → str_append (str_append p p') s ≡ str_append (str_append q q') t
    → ⊥
differ_behind p p' q q' s t d n h =
    differ p q (str_append p' s) (str_append q' t) d n
      (sym (append_assoc p p' s) ∙ h ∙ append_assoc q q' t)

opened-not-escalated :
    (r r' u u' : String)
    → count r ≡ count r'
    → risk_opened_dedup_key r u ≡ risk_escalated_dedup_key r' u'
    → ⊥
unfolding risk_opened_dedup_key risk_escalated_dedup_key joined
opened-not-escalated r r' u u' n h =
    let (_, behind) = append_inj {s₁ = "risk:"} {s₂ = "risk:"} h refl in
    let (_, rest) = append_inj {s₁ = r} {s₂ = r'} behind n in
    differ_behind ":open" "ed:user:" ":esca" "lated:user:" (str_append u "") (str_append u' "") refl
      refl rest

digest-not-risk : (s t : String) → str_append "digest:user:" s ≡ str_append "risk:" t → ⊥
digest-not-risk s t h = differ_behind "diges" "t:user:" "risk:" "" s t refl refl h

-- What a deduplication key is made of.
pub data Subject : Type 0 where
  opened : String → String → Subject
  escalated : String → String → Subject
  digest : String → String → Subject

abbrev pub key : Subject → String
key (Subject.opened risk_id user_id) = risk_opened_dedup_key risk_id user_id
key (Subject.escalated risk_id user_id) = risk_escalated_dedup_key risk_id user_id
key (Subject.digest user_id slot) = digest_dedup_key user_id slot

-- The ids of a subject are UUIDs, texts of 36 characters; a slot is any text.
abbrev pub HasUuids : Subject → Type 0
HasUuids (Subject.opened risk_id user_id) = (count risk_id ≡ 36) × (count user_id ≡ 36)
HasUuids (Subject.escalated risk_id user_id) = (count risk_id ≡ 36) × (count user_id ≡ 36)
HasUuids (Subject.digest user_id slot) = count user_id ≡ 36

digest-parts :
    (u u' s s' : String)
    → count u ≡ count u'
    → digest_dedup_key u s ≡ digest_dedup_key u' s'
    → (u ≡ u') × (s ≡ s')
unfolding digest_dedup_key joined
digest-parts u u' s s' n h =
    let (_, behind) = append_inj {s₁ = "digest:user:"} {s₂ = "digest:user:"} h refl in
    let (same, rest) = append_inj {s₁ = u} {s₂ = u'} behind n in
    let (_, last) = append_inj {s₁ = ":"} {s₂ = ":"} rest refl in
    (same, sym (append-nil s) ∙ last ∙ append-nil s')

-- Deduplication keys never clash: where the ids are UUIDs, two keys are equal only if they are of
-- the same kind, the same risk and the same user, or of the same user and slot.
pub key-injective : (a b : Subject) → HasUuids a → HasUuids b → key a ≡ key b → a ≡ b
unfolding risk_opened_dedup_key risk_escalated_dedup_key digest_dedup_key joined
key-injective (Subject.opened r u) (Subject.opened r' u') g h e =
    let (same, user) = opened-parts r r' u u' (g.0 ∙ sym h.0) e in rw (same, user) refl
key-injective (Subject.escalated r u) (Subject.escalated r' u') g h e =
    let (same, user) = escalated-parts r r' u u' (g.0 ∙ sym h.0) e in rw (same, user) refl
key-injective (Subject.digest u s) (Subject.digest u' s') g h e =
    let (user, slot) = digest-parts u u' s s' (g ∙ sym h) e in rw (user, slot) refl
key-injective (Subject.opened r u) (Subject.escalated r' u') g h e =
    absurd (opened-not-escalated r r' u u' (g.0 ∙ sym h.0) e)
key-injective (Subject.escalated r u) (Subject.opened r' u') g h e =
    absurd (opened-not-escalated r' r u' u (h.0 ∙ sym g.0) (sym e))
key-injective (Subject.digest u s) (Subject.opened r u') g h e = absurd (digest-not-risk _ _ e)
key-injective (Subject.digest u s) (Subject.escalated r u') g h e = absurd (digest-not-risk _ _ e)
key-injective (Subject.opened r u') (Subject.digest u s) g h e =
    absurd (digest-not-risk _ _ (sym e))
key-injective (Subject.escalated r u') (Subject.digest u s) g h e =
    absurd (digest-not-risk _ _ (sym e))

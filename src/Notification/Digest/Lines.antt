-- ===== src/Notification/Digest/Lines.antt =====
-- How long the lines of a digest are (backend/internal/notification/domain/digest.go).
use Prim.Native.String.{len, count, ◌++◌ as str_append}
use text.Mathlib.TextPositions.{len-append}
use lidradar.Prelude.{
  ℕ, zero, suc, ◌+◌, ◌*◌, ◌≤◌, ◌≡◌, String, true, List, [], ◌∷◌, length, All, arith, Bool-cases,
  inl, inr, ltb, if◌then◌else◌,
}
use lidradar.Text.{joined, decimal, is_empty, trim_space, take_runes}
use lidradar.Text.Sizes.{len-take_runes, len-le-count, len-joined, len-decimal_digit}
use lidradar.Time.{Time}
use lidradar.Notification.Policy.{RiskType, Severity, valid_risk_type, valid_severity}
use lidradar.Notification.Digest.{
  DigestEntry, severity_label, risk_type_label, short_contact, contact_of, digest_lines, line_of,
}

-- An entry of the known types and severities, which its storage makes sure of.
abbrev pub IsKnown : DigestEntry → Type 0
IsKnown e = (valid_risk_type e.item.risk_type ≡ true) × (valid_severity e.severity ≡ true)

severity_label-range :
    (s : Severity)
    → valid_severity s ≡ true
    → (12 ≤ len (severity_label s)) × (len (severity_label s) ≤ 22)
unfolding valid_severity severity_label
severity_label-range Severity.low v = ground arith
severity_label-range Severity.medium v = ground arith
severity_label-range Severity.high v = ground arith
severity_label-range Severity.critical v = ground arith
severity_label-range (Severity.other s) v = cc

risk_type_label-range :
    (t : RiskType)
    → valid_risk_type t ≡ true
    → (34 ≤ len (risk_type_label t)) × (len (risk_type_label t) ≤ 52)
unfolding valid_risk_type risk_type_label
risk_type_label-range RiskType.no_response v = ground arith
risk_type_label-range RiskType.booking_not_confirmed v = ground arith
risk_type_label-range RiskType.promise_not_fulfilled v = ground arith
risk_type_label-range RiskType.customer_silent_after_price v = ground arith
risk_type_label-range RiskType.follow_up_candidate v = ground arith
risk_type_label-range RiskType.unfinished_agreement v = ground arith
risk_type_label-range (RiskType.other s) v = cc

cut_contact : (s : String) → len (joined (take_runes 40 s ∷ "…" ∷ [])) ≤ 163
unfolding joined
cut_contact s = omega (arith, len-append (take_runes 40 s) (str_append "…" ""), len-take_runes 40 s)

-- A contact is cut to forty characters and an ellipsis.
short_contact-le : (s : String) → len (short_contact s) ≤ 163
unfolding short_contact
short_contact-le s = elim (Bool-cases (ltb 40 (count s))) [
  | inl long ↦ rw long (cut_contact s)
  | inr short ↦ rw short (ground (arith, len-le-count s))
]

contact_of-le : (e : DigestEntry) → len (contact_of e) ≤ 163
unfolding contact_of
contact_of-le e =
    short_contact-le (if is_empty (trim_space e.contact) then "клиент" else trim_space e.contact)

module _ (format_detected : Time → String) where
  len-line_of :
      (i : ℕ) (e : DigestEntry)
      → len (line_of format_detected i e)
        ≡ len (decimal (i + 1))
          + (2
              + (len (severity_label e.severity)
                  + (4
                      + (len (risk_type_label e.item.risk_type)
                          + (2
                              + (len (contact_of e)
                                  + (5 + (len (format_detected e.detected_at) + 1))))))))
  unfolding line_of joined
  len-line_of i e = simp len-append

  len-line_of-range :
      (i : ℕ) (e : DigestEntry)
      → IsKnown e
      → (48 + len (contact_of e) + 12 ≤ len (line_of format_detected i e))
        × (len (line_of format_detected i e)
            ≤ len (decimal (i + 1)) + 88 + len (contact_of e) + len (format_detected e.detected_at))
  len-line_of-range i e k =
      let (low, high) = severity_label-range e.severity k.1 in
      let (low', high') = risk_type_label-range e.item.risk_type k.0 in
      (omega (arith, len-line_of i e), omega (arith, len-line_of i e))

  -- Fifteen lines or fewer, with one digit each.
  pub lines-le :
      (room i : ℕ) (es : List DigestEntry)
      → ((t : Time) → len (format_detected t) ≤ 11)
      → All IsKnown es
      → length es ≤ room
      → i + length es ≤ 9
      → len (joined (digest_lines format_detected room i es)) ≤ 263 * length es
  unfolding digest_lines
  lines-le room i [] f k l m = unfold joined in omega arith
  lines-le zero i (e ∷ es) f k l m = absurd (omega arith)
  lines-le (suc room) i (e ∷ es) f k l m =
      let (_, high) = len-line_of-range i e k.0 in
      omega (
        arith,
        len-joined (line_of format_detected i e) (digest_lines format_detected room (i + 1) es),
        high,
        contact_of-le e,
        f e.detected_at,
        len-decimal_digit (i + 1) (omega arith),
        lines-le room (i + 1) es f k.1 (omega arith) (omega arith),
      )

  pub lines-ge :
      (room i : ℕ) (es : List DigestEntry)
      → All IsKnown es
      → All (λ e. 80 ≤ len (contact_of e)) es
      → room ≤ length es
      → 140 * room ≤ len (joined (digest_lines format_detected room i es))
  unfolding digest_lines
  lines-ge zero i es k w l = omega arith
  lines-ge (suc room) i [] k w l = absurd (omega arith)
  lines-ge (suc room) i (e ∷ es) k w l =
      let (low, _) = len-line_of-range i e k.0 in
      omega (
        arith,
        len-joined (line_of format_detected i e) (digest_lines format_detected room (i + 1) es),
        low,
        w.0,
        lines-ge room (i + 1) es k.1 w.1 (omega arith),
      )

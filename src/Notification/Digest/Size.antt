-- ===== src/Notification/Digest/Size.antt =====
-- How long the text of a digest is, and when its notification is refused for it.
use Prim.Native.String.{len, ◌++◌ as str_append}
use text.Mathlib.TextLemmas.{append_assoc}
use text.Mathlib.TextPositions.{len-append}
use lidradar.Prelude.{
  ℕ, ◌+◌, ◌≤◌, ◌<◌, ◌≡◌, refl, ap, subst, ◌∙◌, String, Bool, true, false, not, ◌&&◌, ◌||◌, some,
  none, List, [], ◌∷◌, length, All, arith, Bool-cases, inl, inr, ltb,
}
use lidradar.Text.{joined, decimal, digit, decimal_from, is_empty, trim_space, trim_right}
use lidradar.Text.Sizes.{
  trim_space-le, trim_space-solid, trim_space-pos, solid, joined-append, len-decimal_digit,
}
use lidradar.Time.{Time, is_zero}
use lidradar.Notification.Fact.{
  Kind, text_ok, new_digest, digest_fact, validate, valid_slot, kind_ok,
}
use lidradar.Notification.Fact.Keys.{slot_of-digest_fact}
use lidradar.Notification.Digest.{
  DigestEntry, contact_of, digest_title, digest_body, digest_lines, line_of, all_quiet,
}
use lidradar.Notification.Digest.Lines.{IsKnown, lines-le, lines-ge}

abbrev footer : String
footer = "\nОткройте Radar для подробностей."

-- A head and a number of one digit, trimmed.
headed-ok :
    (head : String) (n : ℕ)
    → solid head ≡ true
    → len head ≤ 150
    → n < 10
    → (1 ≤ len (trim_space (joined (head ∷ decimal n ∷ []))))
      × (len (trim_space (joined (head ∷ decimal n ∷ []))) ≤ 200)
unfolding joined
headed-ok head n s l d = (
  trim_space-pos head (str_append (decimal n) "") s,
  omega (
    arith,
    trim_space-le (str_append head (str_append (decimal n) "")),
    len-append head (str_append (decimal n) ""),
    len-append (decimal n) "",
    len-decimal_digit n d,
  ),
)

digest_title-ok :
    (es : List DigestEntry)
    → length es < 10
    → (1 ≤ len (trim_space (digest_title es))) × (len (trim_space (digest_title es)) ≤ 200)
unfolding digest_title solid
digest_title-ok es l = elim (Bool-cases (ltb 0 (length es) && all_quiet es)) [
  | inl quiet ↦ rw quiet (headed-ok "Риски за тихие часы: " (length es) refl (omega arith) l)
  | inr mixed ↦ rw mixed (headed-ok "Сводка рисков: " (length es) refl (omega arith) l)
]

module _ (format_detected : Time → String) where
  line-head :
      (e : DigestEntry) → (rest : String) × (line_of format_detected 0 e ≡ str_append "1" rest)
  unfolding line_of joined decimal decimal_from digit
  line-head e = (_, refl)

  -- The body begins with a digit and ends with the footer, so it is trimmed already.
  digest_body-solid :
      (e : DigestEntry) (es : List DigestEntry)
      → trim_space (digest_body format_detected (e ∷ es)) ≡ digest_body format_detected (e ∷ es)
  unfolding digest_body digest_lines joined trim_right solid
  digest_body-solid e es =
      let more = digest_lines format_detected 14 1 es in
      let (rest, head) = line-head e in
      let parted : str_append "1" (str_append (str_append rest (joined more)) footer)
          ≡ digest_body format_detected (e ∷ es) =
        rw (joined-append more footer, head) (simp append_assoc) in
      subst (λ t. trim_space t ≡ t) parted
        (trim_space-solid "1" (str_append rest (joined more)) footer refl refl refl)

text-fits :
    (title body : String)
    → (1 ≤ len (trim_space title)) × (len (trim_space title) ≤ 200)
    → (1 ≤ len (trim_space body)) × (len (trim_space body) ≤ 2000)
    → text_ok (trim_space title) (trim_space body) ≡ true
unfolding text_ok
text-fits title body (t, t') (b, b') = ground arith

text-too-long : (title body : String) → 2000 < len body → text_ok title body ≡ false
unfolding text_ok
text-too-long title body long = ground arith

all_three : (a b c : Bool) → a ≡ true → b ≡ true → c ≡ true → a && b && c ≡ true
all_three a b c = λ x y z. rw (x, y, z) refl

second_fails : (a b c : Bool) → b ≡ false → a && b && c ≡ false
second_fails true b c y = rw y refl
second_fails false b c y = refl

none_of :
    (a b c d : Bool)
    → a ≡ false
    → b ≡ false
    → c ≡ false
    → d ≡ false
    → (e : Bool) → e ≡ false
    → not (a || b || c || d || d || e) ≡ true
none_of a b c d x y z w e v = rw (x, y, z, w, v) refl

lt_self : (t : ℕ) → ltb t t ≡ false
lt_self t = ground arith

digest-kind :
    (id tenant user slot title body : String) (at : Time)
    → valid_slot slot ≡ true
    → kind_ok (digest_fact id tenant user slot title body at) Kind.risk_digest ≡ true
unfolding kind_ok digest_fact
digest-kind id tenant user slot title body at v =
    ap valid_slot (slot_of-digest_fact id tenant user slot title body at) ∙ v

-- The parts of the check of a notification that a digest can fail.
new_digest-accepts :
    (id tenant user slot title body : String) (at : Time)
    → is_empty id ≡ false
    → is_empty tenant ≡ false
    → is_empty user ≡ false
    → is_zero at ≡ false
    → valid_slot slot ≡ true
    → text_ok (trim_space title) (trim_space body) ≡ true
    → validate (digest_fact id tenant user slot title body at) ≡ true
unfolding validate digest_fact
new_digest-accepts id tenant user slot title body at i t u z s ok =
    all_three _ _ _
      (none_of (is_empty id) (is_empty tenant) (is_empty user) (is_zero at) i t u z (ltb at at)
        (lt_self at))
      ok (digest-kind id tenant user slot title body at s)

new_digest-refuses :
    (id tenant user slot title body : String) (at : Time)
    → text_ok (trim_space title) (trim_space body) ≡ false
    → validate (digest_fact id tenant user slot title body at) ≡ false
unfolding validate digest_fact
new_digest-refuses id tenant user slot title body at bad = second_fails _ _ _ bad

module _ (format_detected : Time → String) where
  len-body :
      (e : DigestEntry) (es : List DigestEntry)
      → len (trim_space (digest_body format_detected (e ∷ es)))
        ≡ len (joined (digest_lines format_detected 15 0 (e ∷ es))) + len footer
  unfolding digest_body
  len-body e es = rw (digest_body-solid format_detected e es) (
      ap len (joined-append (digest_lines format_detected 15 0 (e ∷ es)) footer)
      ∙ len-append (joined (digest_lines format_detected 15 0 (e ∷ es))) footer)

  body-long :
      (e : DigestEntry) (es : List DigestEntry)
      → 15 ≤ length (e ∷ es)
      → All IsKnown (e ∷ es)
      → All (λ x. 80 ≤ len (contact_of x)) (e ∷ es)
      → 2000 < len (trim_space (digest_body format_detected (e ∷ es)))
  body-long e es n k w = omega (arith, len-body e es, lines-ge format_detected 15 0 (e ∷ es) k w n)

  body-short :
      (e : DigestEntry) (es : List DigestEntry)
      → ((t : Time) → len (format_detected t) ≤ 11)
      → length (e ∷ es) ≤ 7
      → All IsKnown (e ∷ es)
      → (1 ≤ len (trim_space (digest_body format_detected (e ∷ es))))
        × (len (trim_space (digest_body format_detected (e ∷ es))) ≤ 2000)
  body-short e es f n k =
      let lines = lines-le format_detected 15 0 (e ∷ es) f k (omega arith) (omega arith) in
      (omega (arith, len-body e es), omega (arith, len-body e es, lines))

  -- A digest of one to seven entries of known types and severities is always accepted: where the
  -- ids are there, the moment is set, the slot has its shape and moments print in eleven bytes,
  -- the notification of its title and body passes the check.
  pub short_digest-accepted :
      (id tenant user slot : String) (at : Time) (e : DigestEntry) (es : List DigestEntry)
      → is_empty id ≡ false
      → is_empty tenant ≡ false
      → is_empty user ≡ false
      → is_zero at ≡ false
      → valid_slot slot ≡ true
      → ((t : Time) → len (format_detected t) ≤ 11)
      → All IsKnown (e ∷ es)
      → length (e ∷ es) ≤ 7
      → new_digest id tenant user slot
          (digest_title (e ∷ es))
          (digest_body format_detected (e ∷ es))
          at
        ≡ some (
            digest_fact id tenant user slot
              (digest_title (e ∷ es))
              (digest_body format_detected (e ∷ es))
              at)
  unfolding new_digest
  short_digest-accepted id tenant user slot at e es i t u z s f k n =
      let title = digest_title (e ∷ es) in
      let body = digest_body format_detected (e ∷ es) in
      rw
        (new_digest-accepts id tenant user slot title body at i t u z s
          (text-fits title body (digest_title-ok (e ∷ es) (omega arith)) (body-short e es f n k)))
        refl

  -- A digest of fifteen or more entries of known types and severities whose contacts take eighty
  -- bytes or more each (forty Cyrillic letters do) is refused: its body has more bytes than the
  -- check of a notification allows.
  pub long_digest-refused :
      (id tenant user slot : String) (at : Time) (e : DigestEntry) (es : List DigestEntry)
      → All IsKnown (e ∷ es)
      → All (λ x. 80 ≤ len (contact_of x)) (e ∷ es)
      → 15 ≤ length (e ∷ es)
      → new_digest id tenant user slot
          (digest_title (e ∷ es))
          (digest_body format_detected (e ∷ es))
          at
        ≡ none
  unfolding new_digest
  long_digest-refused id tenant user slot at e es k w n =
      let title = digest_title (e ∷ es) in
      let body = digest_body format_detected (e ∷ es) in
      rw
        (new_digest-refuses id tenant user slot title body at
          (text-too-long (trim_space title) (trim_space body) (body-long e es n k w)))
        refl

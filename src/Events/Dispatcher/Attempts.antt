-- ===== src/Events/Dispatcher/Attempts.antt =====
-- What an operation of the store does to the attempts that an outbox has left.
use mathlib.Core.List.{Memᴰ}
use lidradar.Prelude.{
  ℕ, ◌+◌, ◌-◌, ◌≤◌, ◌<◌, ◌≡◌, sym, ap, subst, ◌∙◌, String, Bool, true, false, not, ◌||◌, some, none,
  Option, any, List, [], ◌∷◌, arith, ok, fail_if-eq-ok, ok-injective, if◌then◌else◌,
}
use lidradar.Text.{is_empty}
use lidradar.Time.{Time, is_zero, before}
use lidradar.Tables.{update_where, find}
use lidradar.Jobs.Job.{valid_error_code}
use lidradar.Events.Event.{Error, Event, Status}
use lidradar.Events.Store.{
  claimable, leased_row, published_row, failed_row, held, publish, fail, fail_found,
}

-- The attempts that an outbox has left.
abbrev pub left : Event → ℕ
left e = e.max_attempts - e.attempt_count

unfoldable pub remaining : List Event → ℕ
remaining [] = 0
remaining (e ∷ es) = left e + remaining es

left-if :
    (b : Bool) (f : Event → Event) (e : Event)
    → left (f e) ≤ left e
    → left (if b then f e else e) ≤ left e
left-if true f e h = h
left-if false f e h = omega arith

pub remaining-update_where :
    (p : Event → Bool) (f : Event → Event) (es : List Event)
    → ((e : Event) → left (f e) ≤ left e)
    → remaining (update_where p f es) ≤ remaining es
unfolding remaining update_where
remaining-update_where p f [] h = omega arith
remaining-update_where p f (e ∷ es) h =
    omega (arith, left-if (p e) f e (h e), remaining-update_where p f es h)

-- An UPDATE that takes an attempt of some row.
pub remaining-lt-update_where :
    (p : Event → Bool) (f : Event → Event) (es : List Event) (c : Event)
    → ((e : Event) → left (f e) ≤ left e)
    → Memᴰ c es
    → p c ≡ true
    → left (f c) < left c
    → remaining (update_where p f es) < remaining es
unfolding remaining update_where
remaining-lt-update_where p f [] c h m t less = elim m [ ]
remaining-lt-update_where p f (e ∷ es) c h (Memᴰ.head a) t less =
    let te : p e ≡ true = ap p (sym a) ∙ t in
    let less' = subst (λ x. left (f x) < left x) a less in
    rw te (omega (arith, less', remaining-update_where p f es h))
remaining-lt-update_where p f (e ∷ es) c h (Memᴰ.tail m) t less =
    omega (arith, left-if (p e) f e (h e), remaining-lt-update_where p f es c h m t less)

pub leased-left :
    (owner : String) (now until : Time) (e : Event) → left (leased_row owner now until e) ≤ left e
unfolding leased_row
leased-left owner now until e = omega arith

pub leased-left-lt :
    (owner : String) (now until : Time) (e : Event)
    → claimable now e ≡ true
    → left (leased_row owner now until e) < left e
unfolding leased_row claimable
leased-left-lt owner now until e c = ground arith

pub publish-remaining :
    (id owner : String) (at : Time) (es : List Event) {fs : List Event}
    → publish id owner at es ≡ ok fs
    → remaining fs ≤ remaining es
unfolding publish
publish-remaining id owner at es h =
    let (_, h') = fail_if-eq-ok (is_empty id || is_empty owner || is_zero at) Error.invalid _ h in
    let (_, h'') = fail_if-eq-ok (not (any (held id owner at) es)) Error.lease_lost _ h' in
    subst (λ fs. remaining fs ≤ remaining es) (ok-injective h'')
      (remaining-update_where (held id owner at) (published_row at) es
        (λ e. unfold published_row in omega arith))

fail_found-remaining :
    (p : Event → Bool) (code : String) (retryable : Bool) (next at : Time) (es : List Event)
    (found : Option Event) {r : List Event × Status}
    → fail_found p (failed_row code retryable next at) code es found ≡ ok r
    → remaining r.0 ≤ remaining es
unfolding fail_found
fail_found-remaining p code retryable next at es none h = cc
fail_found-remaining p code retryable next at es (some e) h =
    let (_, h') = fail_if-eq-ok (not (valid_error_code code)) Error.invalid _ h in
    subst (λ (r : List Event × Status). remaining r.0 ≤ remaining es) (ok-injective h')
      (remaining-update_where p (failed_row code retryable next at) es
        (λ e. unfold failed_row in omega arith))

pub fail-remaining :
    (id owner code : String) (retryable : Bool) (next at : Time) (es : List Event)
    {r : List Event × Status}
    → fail id owner code retryable next at es ≡ ok r
    → remaining r.0 ≤ remaining es
unfolding fail
fail-remaining id owner code retryable next at es h =
    let (_, h') =
      fail_if-eq-ok
        (is_empty id
          || is_empty owner
          || is_empty code
          || is_zero next
          || is_zero at
          || before next at)
        Error.invalid _ h in
    fail_found-remaining (held id owner at) code retryable next at es (find (held id owner at) es)
      h'

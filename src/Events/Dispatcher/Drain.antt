-- ===== src/Events/Dispatcher/Drain.antt =====
-- The dispatcher drains the outbox: a round that works uses up an attempt, and a round that does not
-- found nothing to do.
use mathlib.Core.List.{Memᴰ}
use lidradar.Prelude.{
  ℕ, suc, ◌+◌, ◌≤◌, ◌<◌, ◌≡◌, refl, sym, ap, subst, ◌∙◌, String, Bool, true, false, not, ◌&&◌, ◌||◌,
  some, none, Option, any, List, [], ◌∷◌, All, arith, Bool-cases, inl, inr, ltb, map, length,
  Result, ok, err, fail_if-eq-ok, ok-injective, if◌then◌else◌, ◌>>=◌,
}
use lidradar.Text.{is_empty, trim_space}
use lidradar.Time.{Time, is_zero, after, add_duration}
use lidradar.Tables.{update_where, any-of-Memᴰ, sort_by, length-sort_by}
use lidradar.Jobs.Job.{classify, retry_delay}
use lidradar.Events.Event.{Error, Event, Status, event_key}
use lidradar.Events.Store.{
  has_id, exhausted, expired_row, claimable, candidates, leased_row, publish, fail, claim, scan_all,
  return_before,
}
use lidradar.Events.Store.Rows.{RowOk}
use lidradar.Events.Store.Claims.{candidate, same_text, claim-serves, owner_there}
use lidradar.Events.Dispatcher.{
  Dispatcher, Handled, Handler, handle, finish, run_claimed, run_one, settled, idle, Trouble,
  RunResult,
}
use lidradar.Events.Dispatcher.Attempts.{
  remaining, remaining-update_where, remaining-lt-update_where, leased-left, leased-left-lt,
  publish-remaining, fail-remaining,
}

first_of : (es : List Event) → 1 ≤ length es → (e : Event) × Memᴰ e es
first_of [] h = absurd (omega arith)
first_of (e ∷ es) h = (e, Memᴰ.head refl)

length-map : (f : Event → Event) (es : List Event) → length (map f es) ≡ length es
length-map f [] = refl
length-map f (e ∷ es) = ap suc (length-map f es)

settled-remaining :
    (es : List Event) (r : Result Error (List Event))
    → ((fs : List Event) → r ≡ ok fs → remaining fs ≤ remaining es)
    → remaining (settled es r).table ≤ remaining es
settled-remaining es (err x) h = omega arith
settled-remaining es (ok fs) h = h fs refl

first_part :
    (r : Result Error (List Event × Status)) (es : List Event)
    → ((x : List Event × Status) → r ≡ ok x → remaining x.0 ≤ remaining es)
    → (fs : List Event) → (r >>= λ x. ok x.0) ≡ ok fs
    → remaining fs ≤ remaining es
first_part (err x) es h fs e = cc
first_part (ok x) es h fs e = subst (λ gs. remaining gs ≤ remaining es) (ok-injective e) (h x refl)

finish-remaining :
    (d : Dispatcher) (stopped : Bool) (finished : Time) (e : Event) (es : List Event) (h : Handled)
    → remaining (finish d stopped finished e es h).table ≤ remaining es
unfolding finish
finish-remaining d true finished e es h = omega arith
finish-remaining d false finished e es Handled.done =
    settled-remaining es (publish e.id d.owner finished es)
      (λ fs. publish-remaining e.id d.owner finished es)
finish-remaining d false finished e es (Handled.failed f) =
    let next = finished + retry_delay e.attempt_count in
    let failing = fail e.id d.owner (classify f).1 (classify f).0 next finished es in
    settled-remaining es (failing >>= λ x. ok x.0) (
      first_part failing es
        (λ x. fail-remaining e.id d.owner (classify f).1 (classify f).0 next finished es))

-- Handlers that leave the outbox no more attempts than it had: they append no events to it.
abbrev pub Frugal : Dispatcher → Type 0
Frugal d =
    (key : String) (h : Handler) (e : Event) (es : List Event)
    → d.handlers key ≡ some h
    → remaining (h e es).0 ≤ remaining es

handle-remaining :
    (found : Option Handler) (e : Event) (es : List Event)
    → ((h : Handler) → found ≡ some h → remaining (h e es).0 ≤ remaining es)
    → remaining (handle found e es).0 ≤ remaining es
unfolding handle
handle-remaining none e es f = omega arith
handle-remaining (some h) e es f = f h refl

-- A round that worked went past its guard.
passed :
    (b : Bool) (t : Option Trouble) (es : List Event) (r : RunResult)
    → (if b then idle t es else r).worked ≡ true
    → (if b then idle t es else r) ≡ r
passed true t es r h = cc
passed false t es r h = refl

settled-worked : (es : List Event) (r : Result Error (List Event)) → (settled es r).worked ≡ true
settled-worked es (err x) = refl
settled-worked es (ok fs) = refl

finish-worked :
    (d : Dispatcher) (stopped : Bool) (finished : Time) (e : Event) (es : List Event) (h : Handled)
    → (finish d stopped finished e es h).worked ≡ true
unfolding finish
finish-worked d true finished e es h = refl
finish-worked d false finished e es Handled.done = settled-worked es _
finish-worked d false finished e es (Handled.failed f) = settled-worked es _

run_claimed-worked :
    (d : Dispatcher) (stopped : Bool) (finished : Time) (es fs claimed : List Event)
    → 1 ≤ length claimed
    → (run_claimed d stopped finished (ok (fs, claimed)) es).worked ≡ true
unfolding run_claimed
run_claimed-worked d stopped finished es fs [] h = absurd (omega arith)
run_claimed-worked d stopped finished es fs (e ∷ more) h =
    let handled = handle (d.handlers (event_key e)) e fs in
    finish-worked d stopped finished e handled.0 handled.1

module _ (json_object : String → Bool) where
  claim-remaining :
      (locked : String → Bool) (owner : String) (now until : Time) (limit : ℕ) (es : List Event)
      {fs claimed : List Event}
      → claim json_object locked owner now until limit es ≡ ok (fs, claimed)
      → 1 ≤ length claimed
      → remaining fs < remaining es
  unfolding claim
  claim-remaining locked owner now until limit es {fs} {claimed} h some_claimed =
      let (_, h') =
        fail_if-eq-ok
          (is_empty owner || is_zero now || not (after until now) || ltb limit 1 || ltb 100 limit)
          Error.invalid _ h in
      let table = update_where (exhausted now) (expired_row now) es in
      let chosen = candidates locked now limit table in
      let (_, h'') =
        fail_if-eq-ok (not (scan_all json_object (map (leased_row owner now until) chosen)))
          Error.invalid _ h' in
      let same : sort_by return_before (map (leased_row owner now until) chosen) ≡ claimed =
        ap (λ (r : List Event × List Event). r.1) (ok-injective h'') in
      let count : 1 ≤ length chosen = omega (
        arith,
        length-sort_by return_before (map (leased_row owner now until) chosen),
        length-map (leased_row owner now until) chosen,
        ap length same,
        some_claimed,
      ) in
      let (c, m) = first_of chosen count in
      let (there, may) = candidate locked now limit table c m in
      let less =
        remaining-lt-update_where (λ e. any (has_id e.id) chosen) (leased_row owner now until) table
          c (leased-left owner now until) there
          (any-of-Memᴰ (has_id c.id) chosen c m (same_text c.id))
          (leased-left-lt owner now until c may) in
      let before_it =
        remaining-update_where (exhausted now) (expired_row now) es
          (λ e. unfold expired_row in omega arith) in
      subst (λ gs. remaining gs < remaining es)
        (ap (λ (r : List Event × List Event). r.0) (ok-injective h''))
        (omega (arith, less, before_it))

  run_claimed-remaining :
      (d : Dispatcher) (stopped : Bool) (finished : Time) (es : List Event)
      (r : Result Error (List Event × List Event))
      → Frugal d
      → ((fs claimed : List Event)
          → r ≡ ok (fs, claimed)
          → 1 ≤ length claimed
          → remaining fs < remaining es)
      → (run_claimed d stopped finished r es).worked ≡ true
      → remaining (run_claimed d stopped finished r es).table < remaining es
  unfolding run_claimed
  run_claimed-remaining d stopped finished es (err x) f h w = cc
  run_claimed-remaining d stopped finished es (ok (fs, [])) f h w = cc
  run_claimed-remaining d stopped finished es (ok (fs, e ∷ more)) f h w =
      let handled = handle (d.handlers (event_key e)) e fs in
      omega (
        arith,
        finish-remaining d stopped finished e handled.0 handled.1,
        handle-remaining (d.handlers (event_key e)) e fs (λ g k. f (event_key e) g e fs k),
        h fs (e ∷ more) refl (omega arith),
      )

  run_one-remaining :
      (d : Dispatcher) (locked : String → Bool) (stopped : Bool) (now finished : Time)
      (es : List Event)
      → Frugal d
      → (run_one json_object d locked stopped now finished es).worked ≡ true
      → remaining (run_one json_object d locked stopped now finished es).table < remaining es
  unfolding run_one
  run_one-remaining d locked stopped now finished es f w =
      let claimed = claim json_object locked d.owner now (add_duration now d.lease) 1 es in
      let round = run_claimed d stopped finished claimed es in
      let same = passed (is_empty d.owner) (some (Trouble.store_error Error.invalid)) es round w in
      rw same (
        run_claimed-remaining d stopped finished es claimed f
          (λ fs cs. claim-remaining locked d.owner now (add_duration now d.lease) 1 es)
          (ap (λ (r : RunResult). r.worked) (sym same) ∙ w))

  -- Rounds of the dispatcher that work, whatever the moments and the locks.
  pub data Rounds (d : Dispatcher) (es : List Event) : ℕ → List Event → Type 0 where
    starts : Rounds d es 0 es
    then_works :
        {n : ℕ} {fs : List Event} (locked : String → Bool) (stopped : Bool) (now finished : Time)
        → Rounds d es n fs
        → (run_one json_object d locked stopped now finished fs).worked ≡ true
        → Rounds d es (suc n) (run_one json_object d locked stopped now finished fs).table

  -- Rounds that work come to an end: where handlers append no events, there are at most as many as
  -- the outbox has attempts left, and every one uses up an attempt.
  pub Rounds-bounded :
      {d : Dispatcher} {es fs : List Event} {n : ℕ}
      → Frugal d
      → Rounds d es n fs
      → n + remaining fs ≤ remaining es
  Rounds-bounded f Rounds.starts = omega arith
  Rounds-bounded {d} f (Rounds.then_works {n} {fs} locked stopped now finished r w) =
      omega (arith, Rounds-bounded f r, run_one-remaining d locked stopped now finished fs f w)

  -- The dispatcher is idle only when there is nothing to do: on an outbox of valid rows, with an owner
  -- that has a name and a lease that ends after it begins, a round that does not work means that no
  -- event may be claimed, but those that are locked.
  pub idle-done :
      (d : Dispatcher) (locked : String → Bool) (stopped : Bool) (now finished : Time)
      (es : List Event)
      → is_empty (trim_space d.owner) ≡ false
      → is_zero now ≡ false
      → now < add_duration now d.lease
      → All (RowOk json_object) es
      → (run_one json_object d locked stopped now finished es).worked ≡ false
      → any (λ e. claimable now e && not (locked e.id)) es ≡ false
  unfolding run_one
  idle-done d locked stopped now finished es o n later valid w =
      elim (Bool-cases (any (λ e. claimable now e && not (locked e.id)) es)) [
        | inr nothing ↦ nothing
        | inl there ↦
            let (r, served, some_claimed) =
              claim-serves json_object locked d.owner now (add_duration now d.lease) 1 es o n later
                (omega arith) (omega arith) valid there in
            let worked = run_claimed-worked d stopped finished es r.0 r.1 some_claimed in
            let bad : true ≡ false =
              sym worked
              ∙ ap
                  (λ (x : Result Error (List Event × List Event)).
                    (run_claimed d stopped finished x es).worked)
                  (sym served)
              ∙ subst
                  (λ b.
                    (if b
                      then idle (some (Trouble.store_error Error.invalid)) es
                      else run_claimed d stopped finished
                          (claim json_object locked d.owner now (add_duration now d.lease) 1 es)
                          es).worked
                    ≡ false)
                  (owner_there d.owner o) w in
            cc
      ]

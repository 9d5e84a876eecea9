-- ===== src/Events/Store/Valid.antt =====
-- The operations of the store keep the outbox valid, and an event is appended once.
use mathlib.Core.List.{Memᴰ}
use lidradar.Prelude.{
  ℕ, ◌≡◌, refl, ap, subst, ◌∙◌, String, Bool, true, false, not, ◌&&◌, ◌||◌, some, none, Option, any,
  List, [], ◌∷◌, ◌++◌, All, arith, ltb, map, ok, fail_if-eq-ok, ok-injective,
}
use lidradar.Text.{is_empty}
use lidradar.Time.{Time, is_zero, after, before}
use lidradar.Tables.{find, update_where, All-update_where, any-Memᴰ}
use lidradar.Tables.Apart.{or_false, text_eq_symm, any-append-one}
use lidradar.Jobs.Job.{valid_error_code}
use lidradar.Events.Event.{Error, Event, Status, validate}
use lidradar.Events.Store.{
  has_id, exhausted, expired_row, candidates, leased_row, published_row, failed_row, held, publish,
  fail, fail_found, claim, scan_all,
}
use lidradar.Events.Store.Rows.{
  Distinct, RowOk, expired_row-RowOk, published_row-RowOk, failed_row-RowOk,
}
use lidradar.Events.Store.Claims.{Distinct-update_where, unique, candidate}

pub Distinct-append-one :
    (es : List Event) (e : Event)
    → Distinct es
    → any (has_id e.id) es ≡ false
    → Distinct (es ++ e ∷ [])
Distinct-append-one [] e d h = (refl, tt)
Distinct-append-one (f ∷ es) e d h =
    let (l, r) = or_false (has_id e.id f) (any (has_id e.id) es) h in
    (
      any-append-one (has_id f.id) es e d.0 (text_eq_symm e.id f.id ∙ l),
      Distinct-append-one es e d.1 r,
    )

and_both : (a b : Bool) → a && b ≡ true → (a ≡ true) × (b ≡ true)
and_both true b h = (refl, h)
and_both false b h = cc

module _ (json_object : String → Bool) where
  -- A valid outbox.
  abbrev pub TableOk : List Event → Type 0
  TableOk es = All (RowOk json_object) es × Distinct es

  pub publish-TableOk :
      (id owner : String) (at : Time) (es : List Event) {fs : List Event}
      → TableOk es
      → publish id owner at es ≡ ok fs
      → TableOk fs
  unfolding publish
  publish-TableOk id owner at es (valid, d) h =
      let (good, h') =
        fail_if-eq-ok (is_empty id || is_empty owner || is_zero at) Error.invalid _ h in
      let (mine, h'') = fail_if-eq-ok (not (any (held id owner at) es)) Error.lease_lost _ h' in
      let n : is_zero at ≡ false = ground (arith, good) in
      subst TableOk (ok-injective h'') (
        All-update_where (RowOk json_object) (held id owner at) (published_row at) es
            (λ e m p r. published_row-RowOk json_object at e n r) valid,
        Distinct-update_where (held id owner at) (published_row at) es
            (λ e. unfold published_row in refl) d,
      )

  fail_found-TableOk :
      (p : Event → Bool) (code : String) (retryable : Bool) (next at : Time) (es : List Event)
      (found : Option Event) {fs : List Event} {s : Status}
      → is_zero next ≡ false
      → is_zero at ≡ false
      → TableOk es
      → fail_found p (failed_row code retryable next at) code es found ≡ ok (fs, s)
      → TableOk fs
  unfolding fail_found
  fail_found-TableOk p code retryable next at es none x n t h = cc
  fail_found-TableOk p code retryable next at es (some e) x n (valid, d) h =
      let (good, h') = fail_if-eq-ok (not (valid_error_code code)) Error.invalid _ h in
      let c : valid_error_code code ≡ true = ground (arith, good) in
      let f = failed_row code retryable next at in
      subst TableOk (ap (λ (r : List Event × Status). r.0) (ok-injective h')) (
        All-update_where (RowOk json_object) p f es
            (λ y m k r. failed_row-RowOk json_object code retryable next at y x n c r) valid,
        Distinct-update_where p f es (λ y. unfold failed_row in refl) d,
      )

  pub fail-TableOk :
      (id owner code : String) (retryable : Bool) (next at : Time) (es : List Event)
      {fs : List Event} {s : Status}
      → TableOk es
      → fail id owner code retryable next at es ≡ ok (fs, s)
      → TableOk fs
  unfolding fail
  fail-TableOk id owner code retryable next at es t h =
      let (good, h') =
        fail_if-eq-ok
          (is_empty id
            || is_empty owner
            || is_empty code
            || is_zero next
            || is_zero at
            || before next at)
          Error.invalid _ h in
      fail_found-TableOk (held id owner at) code retryable next at es (find (held id owner at) es)
        (ground (arith, good)) (ground (arith, good)) t h'

  scanned-RowOk :
      (owner : String) (now until : Time) (chosen : List Event) (c : Event)
      → scan_all json_object (map (leased_row owner now until) chosen) ≡ true
      → Memᴰ c chosen
      → RowOk json_object (leased_row owner now until c)
  unfolding scan_all
  scanned-RowOk owner now until [] c h m = elim m [ ]
  scanned-RowOk owner now until (e ∷ es) c h (Memᴰ.head a) =
      rw a (and_both (validate json_object (leased_row owner now until e)) _ h).0
  scanned-RowOk owner now until (e ∷ es) c h (Memᴰ.tail m) =
      scanned-RowOk owner now until es c
        (and_both (validate json_object (leased_row owner now until e)) _ h).1 m

  pub claim-TableOk :
      (locked : String → Bool) (owner : String) (now until : Time) (limit : ℕ) (es : List Event)
      {fs claimed : List Event}
      → TableOk es
      → claim json_object locked owner now until limit es ≡ ok (fs, claimed)
      → TableOk fs
  unfolding claim
  claim-TableOk locked owner now until limit es (valid, d) h =
      let (good, h') =
        fail_if-eq-ok
          (is_empty owner || is_zero now || not (after until now) || ltb limit 1 || ltb 100 limit)
          Error.invalid _ h in
      let n : is_zero now ≡ false = ground (arith, good) in
      let table = update_where (exhausted now) (expired_row now) es in
      let chosen = candidates locked now limit table in
      let (scan, h'') =
        fail_if-eq-ok (not (scan_all json_object (map (leased_row owner now until) chosen)))
          Error.invalid _ h' in
      let valid' : All (RowOk json_object) table =
        All-update_where (RowOk json_object) (exhausted now) (expired_row now) es
          (λ e m k r. expired_row-RowOk json_object now e n r) valid in
      let d' : Distinct table =
        Distinct-update_where (exhausted now) (expired_row now) es (λ e. unfold expired_row in refl)
          d in
      subst TableOk (ap (λ (r : List Event × List Event). r.0) (ok-injective h'')) (
        All-update_where (RowOk json_object) (λ e. any (has_id e.id) chosen)
            (leased_row owner now until) table
            (λ e m k r.
              let (c, i, same) = any-Memᴰ (has_id e.id) chosen k in
              let (there, _) = candidate locked now limit table c i in
              subst (λ x. RowOk json_object (leased_row owner now until x))
                (unique table c e d' there m same)
                (scanned-RowOk owner now until chosen c (ground (arith, scan)) i))
            valid',
        Distinct-update_where (λ e. any (has_id e.id) chosen) (leased_row owner now until) table
            (λ e. unfold leased_row in refl) d',
      )

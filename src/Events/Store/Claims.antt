-- ===== src/Events/Store/Claims.antt =====
-- What a claim serves, and that every operation of the store keeps the outbox valid.
use mathlib.Core.List.{Memᴰ}
use lidradar.Prelude.{
  ℕ, ◌≤◌, ◌<◌, ◌≡◌, refl, sym, ap, ◌∙◌, String, Bool, true, false, not, ◌&&◌, ◌||◌, str_eq, eq_iff,
  any, List, [], ◌∷◌, All, arith, if◌then◌else◌, ltb, map, length, suc, ok,
}
use lidradar.Text.{is_empty, trim_space}
use lidradar.Time.{Time, is_zero, after}
use lidradar.Tables.{
  keep, sort_by, update_where, All-update_where, All-Memᴰ, any-of-Memᴰ, keep-Memᴰ, sort_by-Memᴰ,
  take-Memᴰ, length-sort_by, length-take-pos, length-keep-pos,
}
use lidradar.Events.Event.{Event}
use lidradar.Events.Store.{
  has_id, exhausted, expired_row, claimable, claim_before, return_before, candidates, leased_row,
  claim, scan_all, is_waiting, is_processing,
}
use lidradar.Events.Store.Rows.{Distinct, RowOk, leased_row-RowOk, expired_row-RowOk}

-- Statements that keep ids keep them distinct.
row-id :
    (b : Bool) (f : Event → Event) (e : Event) → (f e).id ≡ e.id → (if b then f e else e).id ≡ e.id
row-id true f e h = h
row-id false f e h = refl

any-update_where :
    (i : String) (p : Event → Bool) (f : Event → Event) (es : List Event)
    → ((e : Event) → (f e).id ≡ e.id)
    → any (has_id i) (update_where p f es) ≡ any (has_id i) es
unfolding update_where
any-update_where i p f [] same = refl
any-update_where i p f (e ∷ es) same =
    rw (row-id (p e) f e (same e), any-update_where i p f es same) refl

pub Distinct-update_where :
    (p : Event → Bool) (f : Event → Event) (es : List Event)
    → ((e : Event) → (f e).id ≡ e.id)
    → Distinct es
    → Distinct (update_where p f es)
unfolding update_where
Distinct-update_where p f [] same d = tt
Distinct-update_where p f (e ∷ es) same d = (
  rw (row-id (p e) f e (same e), any-update_where e.id p f es same) d.0,
  Distinct-update_where p f es same d.1,
)

pub same_text : (s : String) → str_eq s s ≡ true
same_text s = ground (arith, eq_iff s s)

pub absent :
    (es : List Event) (x y : Event) → any (has_id x.id) es ≡ false → Memᴰ y es → x.id ≡ y.id → ⊥
absent es x y none_there m same =
    let there : has_id x.id y ≡ true = rw same (same_text y.id) in
    let found = any-of-Memᴰ (has_id x.id) es y m there in cc

pub same_id : (s t : String) → str_eq s t ≡ true → s ≡ t
same_id s t h = ground (arith, eq_iff s t)

-- An id names one row.
pub unique :
    (es : List Event) (x y : Event)
    → Distinct es
    → Memᴰ x es
    → Memᴰ y es
    → str_eq x.id y.id ≡ true
    → x ≡ y
unique [] x y d m n h = elim m [ ]
unique (e ∷ es) x y d (Memᴰ.head a) (Memᴰ.head b) h = a ∙ sym b
unique (e ∷ es) x y d (Memᴰ.head a) (Memᴰ.tail n) h =
    absurd (absent es e y d.0 n (ap (λ (z : Event). z.id) (sym a) ∙ same_id x.id y.id h))
unique (e ∷ es) x y d (Memᴰ.tail m) (Memᴰ.head b) h =
    absurd (absent es e x d.0 m (ap (λ (z : Event). z.id) (sym b) ∙ sym (same_id x.id y.id h)))
unique (e ∷ es) x y d (Memᴰ.tail m) (Memᴰ.tail n) h = unique es x y d.1 m n h

pub candidate :
    (locked : String → Bool) (now : Time) (limit : ℕ) (es : List Event) (x : Event)
    → Memᴰ x (candidates locked now limit es)
    → Memᴰ x es × (claimable now x ≡ true)
unfolding candidates
candidate locked now limit es x m =
    let may : Event → Bool = λ e. claimable now e && not (locked e.id) in
    let (i, h) = keep-Memᴰ may es x (
      sort_by-Memᴰ claim_before (keep may es) x
        (take-Memᴰ limit (sort_by claim_before (keep may es)) x m)) in
    (i, ground (arith, h))

candidates-pos :
    (locked : String → Bool) (now : Time) (limit : ℕ) (es : List Event)
    → 1 ≤ limit
    → any (λ e. claimable now e && not (locked e.id)) es ≡ true
    → 1 ≤ length (candidates locked now limit es)
unfolding candidates
candidates-pos locked now limit es l h =
    let may : Event → Bool = λ e. claimable now e && not (locked e.id) in
    length-take-pos limit (sort_by claim_before (keep may es)) l
      (omega (arith, length-sort_by claim_before (keep may es), length-keep-pos may es h))

-- The first statement of a claim leaves alone what the second may take.
exhausted-unclaimable :
    (now : Time) (e : Event)
    → exhausted now e ≡ true
    → (claimable now (expired_row now e) ≡ false) × (claimable now e ≡ false)
unfolding exhausted expired_row claimable is_waiting is_processing
exhausted-unclaimable now e h = (refl', ground arith)
  where
    refl' : ltb e.attempt_count e.max_attempts && false ≡ false
    refl' = ground arith

expired_same :
    (locked : String → Bool) (now : Time) (e : Event) (b : Bool)
    → exhausted now e ≡ b
    → (claimable now (if b then expired_row now e else e)
        && not (locked (if b then expired_row now e else e).id))
      ≡ (claimable now e && not (locked e.id))
expired_same locked now e true h =
    let (gone, never) = exhausted-unclaimable now e h in rw (gone, never) refl
expired_same locked now e false h = refl

any-expired :
    (locked : String → Bool) (now : Time) (es : List Event)
    → any
        (λ e. claimable now e && not (locked e.id))
        (update_where (exhausted now) (expired_row now) es)
      ≡ any (λ e. claimable now e && not (locked e.id)) es
unfolding update_where
any-expired locked now [] = refl
any-expired locked now (e ∷ es) =
    rw (expired_same locked now e (exhausted now e) refl, any-expired locked now es) refl

length-map : (f : Event → Event) (es : List Event) → length (map f es) ≡ length es
length-map f [] = refl
length-map f (e ∷ es) = ap suc (length-map f es)

pub owner_there : (owner : String) → is_empty (trim_space owner) ≡ false → is_empty owner ≡ false
unfolding trim_space
owner_there String.[] h = h
owner_there (String.◌∷◌ c s) h = refl

claim_guard :
    (owner : String) (now until : Time) (limit : ℕ)
    → is_empty owner ≡ false
    → is_zero now ≡ false
    → now < until
    → 1 ≤ limit
    → limit ≤ 100
    → is_empty owner || is_zero now || not (after until now) || ltb limit 1 || ltb 100 limit ≡ false
claim_guard owner now until limit o n later low high = ground arith

module _ (json_object : String → Bool) where
  scan_all-All : (es : List Event) → All (RowOk json_object) es → scan_all json_object es ≡ true
  unfolding scan_all
  scan_all-All [] a = refl
  scan_all-All (e ∷ es) a = rw (a.0, scan_all-All es a.1) refl

  All-map-leased :
      (owner : String) (now until : Time) (es : List Event)
      → is_empty (trim_space owner) ≡ false
      → is_zero now ≡ false
      → ((e : Event) → Memᴰ e es → RowOk json_object e × (claimable now e ≡ true))
      → All (RowOk json_object) (map (leased_row owner now until) es)
  All-map-leased owner now until [] o n good = tt
  All-map-leased owner now until (e ∷ es) o n good =
      let (ok', c) = good e (Memᴰ.head refl) in
      (
        leased_row-RowOk json_object owner now until e o n c ok',
        All-map-leased owner now until es o n (λ x m. good x (Memᴰ.tail m)),
      )

  -- A claim by an owner with a name, at a moment before the end of the lease, of one to a hundred
  -- events, serves a valid outbox: it returns at least one event whenever some event that may be
  -- claimed is not locked.
  pub claim-serves :
      (locked : String → Bool) (owner : String) (now until : Time) (limit : ℕ) (es : List Event)
      → is_empty (trim_space owner) ≡ false
      → is_zero now ≡ false
      → now < until
      → 1 ≤ limit
      → limit ≤ 100
      → All (RowOk json_object) es
      → any (λ e. claimable now e && not (locked e.id)) es ≡ true
      → (result : List Event × List Event) × (claim json_object locked owner now until limit es
          ≡ ok result)
        × (1 ≤ length result.1)
  unfolding claim
  claim-serves locked owner now until limit es o n later low high valid there =
      let table = update_where (exhausted now) (expired_row now) es in
      let chosen = candidates locked now limit table in
      let valid_table : All (RowOk json_object) table =
        All-update_where (RowOk json_object) (exhausted now) (expired_row now) es
          (λ e m h r. expired_row-RowOk json_object now e n r) valid in
      let good : (e : Event) → Memᴰ e chosen → RowOk json_object e × (claimable now e ≡ true) =
        λ e m.
          let (i, c) = candidate locked now limit table e m in
          (All-Memᴰ (RowOk json_object) table e valid_table i, c) in
      let scanned =
        scan_all-All (map (leased_row owner now until) chosen)
          (All-map-leased owner now until chosen o n good) in
      rw (claim_guard owner now until limit (owner_there owner o) n later low high, scanned)
        (
          _,
          refl,
          omega (
            arith,
            length-sort_by return_before (map (leased_row owner now until) chosen),
            length-map (leased_row owner now until) chosen,
            candidates-pos locked now limit table low (any-expired locked now es ∙ there),
          ),
        )

-- ===== src/Jobs/Store/Ids.antt =====
-- No statement of the store changes the id of a row.
use lidradar.Prelude.{
  if◌then◌else◌, ◌≡◌, refl, String, Bool, true, false, any, List, [], ◌∷◌, arith,
}
use lidradar.Time.{Time}
use lidradar.Tables.{update_where}
use lidradar.Jobs.Job.{Job}
use lidradar.Jobs.Store.{has_id, expire_row, expire, leased_row, lease}
use lidradar.Jobs.Store.Rows.{Distinct}

expire_row-id : (now : Time) (j : Job) → (expire_row now j).id ≡ j.id
unfolding expire_row
expire_row-id now j = ground arith

any-expire :
    (i : String) (now : Time) (js : List Job) → any (has_id i) (expire now js) ≡ any (has_id i) js
unfolding expire
any-expire i now [] = refl
any-expire i now (j ∷ js) = rw (expire_row-id now j, any-expire i now js) refl

pub Distinct-expire : (now : Time) (js : List Job) → Distinct js → Distinct (expire now js)
unfolding expire
Distinct-expire now [] d = tt
Distinct-expire now (j ∷ js) d =
    (rw (expire_row-id now j, any-expire j.id now js) d.0, Distinct-expire now js d.1)

kept-id :
    (f : Job → Job)
    → ((j : Job) → (f j).id ≡ j.id)
    → (b : Bool) (j : Job) → (if b then f j else j).id ≡ j.id
kept-id f e true j = e j
kept-id f e false j = refl

leased_row-id :
    (owner : String) (now until : Time) (j : Job) → (leased_row owner now until j).id ≡ j.id
unfolding leased_row
leased_row-id owner now until j = refl

any-lease :
    (i owner : String) (now until : Time) (chosen js : List Job)
    → any (has_id i) (lease owner now until chosen js) ≡ any (has_id i) js
unfolding lease
any-lease i owner now until chosen [] = refl
any-lease i owner now until chosen (j ∷ js) =
    rw
      (
        kept-id (leased_row owner now until) (leased_row-id owner now until)
            (any (has_id j.id) chosen) j,
        any-lease i owner now until chosen js,
      )
      refl

pub Distinct-lease :
    (owner : String) (now until : Time) (chosen js : List Job)
    → Distinct js
    → Distinct (lease owner now until chosen js)
unfolding lease
Distinct-lease owner now until chosen [] d = tt
Distinct-lease owner now until chosen (j ∷ js) d = (
  rw
      (
        kept-id (leased_row owner now until) (leased_row-id owner now until)
            (any (has_id j.id) chosen) j,
        any-lease j.id owner now until chosen js,
      )
      d.0,
  Distinct-lease owner now until chosen js d.1,
)

any-update :
    (i : String) (p : Job → Bool) (f : Job → Job) (js : List Job)
    → ((j : Job) → (f j).id ≡ j.id)
    → any (has_id i) (update_where p f js) ≡ any (has_id i) js
unfolding update_where
any-update i p f [] e = refl
any-update i p f (j ∷ js) e = rw (kept-id f e (p j) j, any-update i p f js e) refl

pub Distinct-update :
    (p : Job → Bool) (f : Job → Job) (js : List Job)
    → ((j : Job) → (f j).id ≡ j.id)
    → Distinct js
    → Distinct (update_where p f js)
unfolding update_where
Distinct-update p f [] e d = tt
Distinct-update p f (j ∷ js) e d =
    (rw (kept-id f e (p j) j, any-update j.id p f js e) d.0, Distinct-update p f js e d.1)

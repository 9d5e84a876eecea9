-- ===== src/Jobs/Store/Rows.antt =====
-- What a statement may do to one row of the table of jobs, and tables of distinct ids.
use lidradar.Prelude.{
  ℕ, ◌<◌, ◌≡◌, refl, String, Bool, true, false, inl, inr, any, str_eq, eq_iff, List, [], ◌∷◌, ◌++◌,
  take, All, arith, Bool-cases, sym, zero, suc,
}
use lidradar.Time.{Time}
use lidradar.Tables.{insert_by, keep, sort_by}
use lidradar.Jobs.Job.{Job}
use lidradar.Jobs.Store.{has_id, expire_row, claimable, leased_row, held, succeeded_row, failed_row}

-- What one statement may do to a row: nothing, end it after its last lease, lease it, or take the
-- result of the owner of a live lease.
pub data Turn (j : Job) : Job → Type 0 where
  stays : Turn j j
  dies : {k : Job} (now : Time) → k ≡ expire_row now j → Turn j k
  is_leased :
      {k : Job} (owner : String) (now until : Time)
      → claimable now j ≡ true
      → now < until
      → k ≡ leased_row owner now until j
      → Turn j k
  succeeds :
      {k : Job} (owner : String) (at : Time)
      → held j.id owner at j ≡ true
      → k ≡ succeeded_row at j
      → Turn j k
  fails :
      {k : Job} (owner code : String) (retryable : Bool) (next at : Time)
      → held j.id owner at j ≡ true
      → k ≡ failed_row code retryable next at j
      → Turn j k

-- Rows change one by one, each as the relation says; new ones are appended.
pub data Rows (R : Job → Job → Type 0) : List Job → List Job → Type 0 where
  appended : {ks : List Job} → Rows R [] ks
  turned : {j k : Job} {js ks : List Job} → R j k → Rows R js ks → Rows R (j ∷ js) (k ∷ ks)

abbrev pub Turns : List Job → List Job → Type 0
Turns = Rows Turn

-- No two rows have the same id.
abbrev pub Distinct : List Job → Type 0
Distinct [] = Unit
Distinct (j ∷ js) = (any (has_id j.id) js ≡ false) × Distinct js

pub Turns-refl : (js ks : List Job) → Turns js (js ++ ks)
Turns-refl [] ks = Rows.appended
Turns-refl (j ∷ js) ks = Rows.turned Turn.stays (Turns-refl js ks)

pub Turns-same : (js : List Job) → Turns js js
Turns-same [] = Rows.appended
Turns-same (j ∷ js) = Rows.turned Turn.stays (Turns-same js)

any-append :
    (i : String) (js : List Job) (k : Job)
    → any (has_id i) js ≡ false
    → str_eq k.id i ≡ false
    → any (has_id i) (js ++ k ∷ []) ≡ false
any-append i [] k h e = ground arith
any-append i (j ∷ js) k h e = ground (arith, any-append i js k)

pub Distinct-append :
    (js : List Job) (k : Job) → Distinct js → any (has_id k.id) js ≡ false → Distinct (js ++ k ∷ [])
Distinct-append [] k d h = (refl, tt)
Distinct-append (j ∷ js) k d h = (
  any-append j.id js k d.0 (ground (arith, eq_iff j.id k.id, eq_iff k.id j.id)),
  Distinct-append js k d.1 (ground arith),
)

module _ (P : Job → Type 0) where
  pub All-keep :
      (p : Job → Bool) (js : List Job) → All P js → All (λ j. P j × (p j ≡ true)) (keep p js)
  unfolding keep
  All-keep p [] h = tt
  All-keep p (j ∷ js) h = ground (arith, All-keep p js h.1)

  All-insert :
      (lt : Job → Job → Bool) (j : Job) (ks : List Job) → P j → All P ks → All P (insert_by lt j ks)
  unfolding insert_by
  All-insert lt j [] p h = (p, tt)
  All-insert lt j (k ∷ ks) p h = ground (arith, All-insert lt j ks p h.1)

  pub All-sort : (lt : Job → Job → Bool) (js : List Job) → All P js → All P (sort_by lt js)
  unfolding sort_by
  All-sort lt [] h = tt
  All-sort lt (j ∷ js) h = All-insert lt j (sort_by lt js) h.0 (All-sort lt js h.1)

  pub All-take : (n : ℕ) (js : List Job) → All P js → All P (take n js)
  All-take zero js h = tt
  All-take (suc n) [] h = tt
  All-take (suc n) (j ∷ js) h = (h.0, All-take n js h.1)

-- The row of an id that is among some rows has what they all have.
pub any-All :
    (i : String) (Q : Type 0) (js : List Job)
    → All (λ k. k.id ≡ i → Q) js
    → any (has_id i) js ≡ true
    → Q
any-All i Q [] h e = cc
any-All i Q (j ∷ js) h e = elim (Bool-cases (str_eq j.id i)) [
  | inl same ↦ h.0 ((eq_iff j.id i).0 same)
  | inr differ ↦ any-All i Q js h.1 (ground arith)
]

none-has : (i : String) (js : List Job) → any (has_id i) js ≡ false → All (λ k. k.id ≡ i → ⊥) js
none-has i [] h = tt
none-has i (j ∷ js) h = (λ e. ground (arith, (eq_iff j.id i).1 e), none-has i js (ground arith))

pub All-map : {P Q : Job → Type 0} → ((j : Job) → P j → Q j) → (js : List Job) → All P js → All Q js
All-map f [] h = tt
All-map f (j ∷ js) h = (f j h.0, All-map f js h.1)

-- In a table of distinct ids a row is known by its id.
abbrev pub Known : List Job → Job → Type 0
Known js j = All (λ k. k.id ≡ j.id → k ≡ j) js

pub Distinct-Known : (js : List Job) → Distinct js → All (Known js) js
Distinct-Known [] d = tt
Distinct-Known (j ∷ js) d =
    let others = none-has j.id js d.0 in
    let below = Distinct-Known js d.1 in
    ((λ e. refl, All-map (λ k no e. absurd (no e)) js others), All-both js others below)
  where
    All-both :
        (ks : List Job)
        → All (λ k. k.id ≡ j.id → ⊥) ks
        → All (Known js) ks
        → All (Known (j ∷ js)) ks
    All-both [] a b = tt
    All-both (k ∷ ks) a b = ((λ e. absurd (a.0 (sym e)), b.0), All-both ks a.1 b.1)

pub Rows-map :
    {R S : Job → Job → Type 0} {js ks : List Job}
    → ((j k : Job) → R j k → S j k)
    → Rows R js ks
    → Rows S js ks
Rows-map f Rows.appended = Rows.appended
Rows-map f (Rows.turned {j = j} {k = k} r rs) = Rows.turned (f j k r) (Rows-map f rs)

-- Rows that change by one relation and then by another.
pub Rows-then :
    {R S U : Job → Job → Type 0} {js ks ls : List Job}
    → ((j k l : Job) → R j k → S k l → U j l)
    → Rows R js ks
    → Rows S ks ls
    → Rows U js ls
Rows-then f Rows.appended t = Rows.appended
Rows-then f (Rows.turned {j = j} {k = k} r rs) (Rows.turned {k = l} t ts) =
    Rows.turned (f j k l r t) (Rows-then f rs ts)

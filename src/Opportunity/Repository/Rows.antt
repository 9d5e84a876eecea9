-- ===== src/Opportunity/Repository/Rows.antt =====
-- The invariant of the table of opportunities, and that writing the row that was read keeps it
-- (backend/internal/opportunity/infrastructure/postgres.go).
use lidradar.Prelude.{
  String, ◌≡◌, refl, sym, ap, subst, ◌∙◌, inl, inr, true, false, some, str_eq, any, List, [], ◌∷◌,
  arith, eq_iff, Bool-cases,
}
use lidradar.Opportunity.Stage
use lidradar.Opportunity.Stage.{Stage, stage_eq}
use lidradar.Opportunity.Aggregate.{Opportunity, validate}
use lidradar.Opportunity.Repository.{is_row, is_active_row, find_row, write_row, update_row}

-- One row of the table against the rows below it: it is valid, its id is its own, and if it is
-- active no other active row shares its conversation.
pub record RowOk (o : Opportunity) (os : List Opportunity) : Type 0 where
  pub row_valid : validate o ≡ true
  pub own_id : any (λ r. str_eq r.id o.id) os ≡ false
  pub alone :
      Stage.active o.stage ≡ true → any (is_active_row o.tenant_id o.conversation_id) os ≡ false

abbrev pub TableOk : List Opportunity → Type 0
TableOk [] = Unit
TableOk (o ∷ os) = RowOk o os × TableOk os

-- What the rows that an UPDATE hits have in common with the row that was read.
abbrev Hits : String → String → Opportunity → List Opportunity → Type 0
Hits t i o [] = Unit
Hits t i o (r ∷ rs) = (is_row t i r ≡ true → r ≡ o) × Hits t i o rs

find_row-is :
    (t i : String) (o : Opportunity) (os : List Opportunity)
    → find_row (is_row t i) os ≡ some o
    → is_row t i o ≡ true
unfolding find_row
find_row-is t i o [] h = cc
find_row-is t i o (r ∷ rs) h = ground (arith, find_row-is t i o rs)

-- Nothing below a row of that id is hit.
none_hit :
    (t i : String) (o q : Opportunity) (os : List Opportunity)
    → o.id ≡ i
    → any (λ r. str_eq r.id o.id) os ≡ false
    → Hits t i q os
none_hit t i o q [] e h = tt
none_hit t i o q (r ∷ rs) e h = ground (arith, eq_iff r.id i, eq_iff r.id o.id, none_hit t i o q rs)

pub Hits-find :
    (t i : String) (o : Opportunity) (os : List Opportunity)
    → TableOk os
    → find_row (is_row t i) os ≡ some o
    → Hits t i o os
unfolding find_row
Hits-find t i o [] k h = tt
Hits-find t i o (r ∷ rs) k h = elim (Bool-cases (is_row t i r)) [
  | inl here ↦ ground (arith, eq_iff r.id i, none_hit t i r o rs)
  | inr there ↦ ground (arith, Hits-find t i o rs)
]

module _ (t i : String) (o v : Opportunity) where
  any-id-update :
      (k : String) (os : List Opportunity)
      → any (λ r. str_eq r.id k) (update_row t i v os) ≡ any (λ r. str_eq r.id k) os
  unfolding update_row
  any-id-update k [] = refl
  any-id-update k (r ∷ rs) = ground (arith, any-id-update k rs)

  any-active-update :
      (tenant conversation : String) (os : List Opportunity)
      → (Stage.active v.stage ≡ true → Stage.active o.stage ≡ true)
      → Hits t i o os
      → any (is_active_row tenant conversation) os ≡ false
      → any (is_active_row tenant conversation) (update_row t i v os) ≡ false
  unfolding update_row
  any-active-update tenant conversation [] keep h a = refl
  any-active-update tenant conversation (r ∷ rs) keep h a = elim (Bool-cases (is_row t i r)) [
    | inl hit ↦ ground (
      arith,
      any-active-update tenant conversation rs keep,
      ap (λ (q : Opportunity). Stage.active q.stage) (h.0 hit),
    )
    | inr miss ↦ ground (arith, any-active-update tenant conversation rs keep)
  ]

  kept-RowOk :
      (r : Opportunity) (rs : List Opportunity)
      → (Stage.active v.stage ≡ true → Stage.active o.stage ≡ true)
      → Hits t i o rs
      → RowOk r rs
      → RowOk r (update_row t i v rs)
  kept-RowOk r rs keep h k = record {
    row_valid = k.row_valid;
    own_id = any-id-update r.id rs ∙ k.own_id;
    alone = λ a. any-active-update r.tenant_id r.conversation_id rs keep h (k.alone a);
  }

  written-RowOk :
      (r : Opportunity) (rs : List Opportunity)
      → r ≡ o
      → validate (write_row v o) ≡ true
      → (Stage.active v.stage ≡ true → Stage.active o.stage ≡ true)
      → Hits t i o rs
      → RowOk r rs
      → RowOk (write_row v r) (update_row t i v rs)
  unfolding write_row
  written-RowOk r rs e good keep h k = record {
    row_valid = subst (λ q. validate (write_row v q) ≡ true) (sym e) good;
    own_id = any-id-update r.id rs ∙ k.own_id;
    alone = λ a.
        any-active-update r.tenant_id r.conversation_id rs keep h
          (k.alone (subst (λ q. Stage.active q.stage ≡ true) (sym e) (keep a)));
  }

  -- Writing the row that was read keeps the table in order, if the new row is valid and a closed
  -- row is not made active.
  pub update-TableOk :
      (os : List Opportunity)
      → validate (write_row v o) ≡ true
      → (Stage.active v.stage ≡ true → Stage.active o.stage ≡ true)
      → Hits t i o os
      → TableOk os
      → TableOk (update_row t i v os)
  unfolding update_row
  update-TableOk [] good keep h k = tt
  update-TableOk (r ∷ rs) good keep h k =
      let rest = update-TableOk rs good keep h.1 k.1 in
      elim (Bool-cases (is_row t i r)) [
        | inl hit ↦ rw hit (written-RowOk r rs (h.0 hit) good keep h.1 k.0, rest)
        | inr miss ↦ rw miss (kept-RowOk r rs keep h.1 k.0, rest)
      ]

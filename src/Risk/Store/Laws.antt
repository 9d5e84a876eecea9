-- ===== src/Risk/Store/Laws.antt =====
-- Over any sequence of statements of the store every risk stays valid, and an opportunity has at most
-- one active risk of a type.
use lidradar.Prelude.{
  ◌≡◌, refl, ap, subst, ◌∙◌, String, Bool, true, false, not, ◌&&◌, ◌||◌, Option, none, some, str_eq,
  any, List, [], ◌∷◌, ◌++◌, All, arith, if◌then◌else◌, Bool-cases, inl, inr, Result, ok,
  fail_if-eq-ok, >>=-eq-ok, ok-injective, &&-right,
}
use lidradar.Text.{is_empty}
use lidradar.Time.{Time, is_zero}
use lidradar.Tables.{find, All-update_where}
use lidradar.Tables.Apart.{
  Apart, Apart-append-one, Apart-update_where, All-append-one, text_eq_symm, some_injective,
}
use lidradar.Risk.Aggregate.{
  RiskType, Severity, Risk, active, status_active, validate, supported_type,
}
use lidradar.Risk.Store.{
  Error, Tables, type_text, active_at, has_id, lengths_ok, resolve_active, resolved_row,
  updated_row, opened_row, append_opened, insert, update_found, update,
}
use lidradar.Risk.Store.Rows.{Valid, validate-Valid, resolved_row-Valid, updated_row-Valid}

-- Two rows in conflict over the partial unique index.
unfoldable pub clash : Risk → Risk → Bool
unfolding active_at
clash x y = active x && active_at x.tenant_id x.opportunity_id x.risk_type y

-- Valid rows, of which no two clash.
abbrev pub RisksOk : List Risk → Type 0
RisksOk rs = All Valid rs × Apart clash rs

and_swap : (a b c d e : Bool) → (a && (b && c && d && e)) ≡ (b && (a && c && d && e))
and_swap a b c d e = ground arith

clash_symm : (x y : Risk) → clash x y ≡ clash y x
unfolding clash active_at
clash_symm x y =
    rw
      (
        text_eq_symm x.tenant_id y.tenant_id,
        text_eq_symm x.opportunity_id y.opportunity_id,
        text_eq_symm (type_text x.risk_type) (type_text y.risk_type),
      )
      (and_swap (active x) (active y) _ _ _)

pub active_at-type :
    (c r : Risk)
    → active_at c.tenant_id c.opportunity_id c.risk_type r ≡ true
    → str_eq (type_text r.risk_type) (type_text c.risk_type) ≡ true
unfolding active_at
active_at-type c r h =
    &&-right
      (active r && str_eq r.tenant_id c.tenant_id && str_eq r.opportunity_id c.opportunity_id) _ h

resolved_clash : (at : Time) (x y : Risk) → clash x y ≡ false → clash (resolved_row at x) y ≡ false
unfolding clash active status_active resolved_row
resolved_clash at x y h = refl

updated_clash : (c x y : Risk) → clash x y ≡ false → clash (updated_row c x) y ≡ false
unfolding clash active active_at updated_row
updated_clash c x y h = h

-- The rest of a conjunction whose first part does not hold is not asked.
and_false_left : (a b : Bool) → b ≡ false → (a && b) ≡ false
and_false_left a b h = ground arith

any-cong : (p q : Risk → Bool) (rs : List Risk) → ((r : Risk) → p r ≡ q r) → any p rs ≡ any q rs
any-cong p q [] h = refl
any-cong p q (r ∷ rs) h = rw (h r, any-cong p q rs h) refl

opened_apart :
    (c : Risk) (rs : List Risk)
    → any (active_at c.tenant_id c.opportunity_id c.risk_type) rs ≡ false
    → any (clash (opened_row c)) rs ≡ false
unfolding clash active status_active opened_row
opened_apart c rs h = h

pub resolve_active-RisksOk :
    (tenant_id opportunity_id : String) (t : RiskType) (at : Time) (s : Tables) {done : Bool}
    {after : Tables}
    → RisksOk s.risks
    → resolve_active tenant_id opportunity_id t at s ≡ ok (done, after)
    → RisksOk after.risks
unfolding resolve_active
resolve_active-RisksOk tenant_id opportunity_id t at s (valid, d) h =
    let (good, h') =
      fail_if-eq-ok
        (is_empty tenant_id || is_empty opportunity_id || not (supported_type t) || is_zero at)
        Error.invalid_risk _ h in
    let z : is_zero at ≡ false = ground (arith, good) in
    let p = active_at tenant_id opportunity_id t in
    subst (λ (u : Bool × Tables). RisksOk u.1.risks) (ok-injective h')
      (
        All-update_where Valid p (resolved_row at) s.risks (λ r m a v. resolved_row-Valid at r z v)
            valid,
        Apart-update_where clash p (resolved_row at) clash_symm (resolved_clash at) s.risks d,
      )

module _ (json_object : String → Bool) (same_data : String → String → Bool) (known : Risk → Bool)
    (opened_data : String → String → String → RiskType → Severity → String) where
  abbrev insert_of : Risk → Tables → Result Error (Option (Risk × Tables))
  insert_of = insert json_object same_data known opened_data

  -- What an INSERT that wrote a row found and wrote.
  pub record Inserted (c : Risk) (s : Tables) (r : Risk) (after : Tables) : Type 0 where
    pub free : any (active_at c.tenant_id c.opportunity_id c.risk_type) s.risks ≡ false
    pub row_valid : validate (opened_row c) ≡ true
    pub announced :
        append_opened json_object same_data opened_data (opened_row c) s.events ≡ ok after.events
    pub is_opened : opened_row c ≡ r
    pub is_behind : s.risks ++ opened_row c ∷ [] ≡ after.risks

  not_in_way :
      {E A : Type 0} (b : Bool) (k : Result E (Option A)) {x : A}
      → (if b then ok none else k) ≡ ok (some x)
      → (b ≡ false) × (k ≡ ok (some x))
  not_in_way true k h = cc
  not_in_way false k h = (refl, h)

  pub insert-Inserted :
      (c : Risk) (s : Tables) {r : Risk} {after : Tables}
      → insert_of c s ≡ ok (some (r, after))
      → Inserted c s r after
  unfolding insert
  insert-Inserted c s h =
      let (_, h₁) = fail_if-eq-ok (not (lengths_ok c)) Error.invalid_risk _ h in
      let (free, h₂) =
        not_in_way (any (active_at c.tenant_id c.opportunity_id c.risk_type) s.risks) _ h₁ in
      let (_, h₃) = fail_if-eq-ok (any (has_id c.id) s.risks) Error.failed _ h₂ in
      let (_, h₄) = fail_if-eq-ok (not (known c)) Error.invalid_risk _ h₃ in
      let (good, h₅) = fail_if-eq-ok (not (validate (opened_row c))) Error.invalid_risk _ h₄ in
      let (events, e, h₆) =
        >>=-eq-ok (append_opened json_object same_data opened_data (opened_row c) s.events) _ h₅ in
      let pair : ◌≡◌ {A = Risk × Tables} _ _ = some_injective (ok-injective h₆) in
      record {
        free = free;
        row_valid = ground (arith, good);
        announced = e ∙ ap (λ (u : Risk × Tables). ok u.1.events) pair;
        is_opened = ap (λ (u : Risk × Tables). u.0) pair;
        is_behind = ap (λ (u : Risk × Tables). u.1.risks) pair;
      }

  pub insert-RisksOk :
      (c : Risk) (s : Tables) {r : Risk} {after : Tables}
      → RisksOk s.risks
      → insert_of c s ≡ ok (some (r, after))
      → RisksOk after.risks
  insert-RisksOk c s (valid, d) h =
      let done = insert-Inserted c s h in
      subst RisksOk done.is_behind (
        All-append-one Valid s.risks (opened_row c) valid
            (validate-Valid (opened_row c) done.row_valid),
        Apart-append-one clash clash_symm s.risks (opened_row c) d
            (opened_apart c s.risks done.free),
      )

update_found-RisksOk :
    (known : Risk → Bool) (c : Risk) (s : Tables) (found : Option Risk)
    → Valid c
    → RisksOk s.risks
    → RisksOk (update_found known c s found).0.risks
unfolding update_found
update_found-RisksOk known c s none v t = t
update_found-RisksOk known c s (some r) v (valid, d) = elim (Bool-cases (lengths_ok c && known c)) [
  | inr f ↦ rw f (valid, d)
  | inl g ↦
      let p = active_at c.tenant_id c.opportunity_id c.risk_type in
      rw g (
        All-update_where Valid p (updated_row c) s.risks
            (λ q m a w. updated_row-Valid c q v w (active_at-type c q a)) valid,
        Apart-update_where clash p (updated_row c) clash_symm (updated_clash c) s.risks d,
      )
]

pub update-RisksOk :
    (known : Risk → Bool) (c : Risk) (s : Tables)
    → Valid c
    → RisksOk s.risks
    → RisksOk (update known c s).0.risks
unfolding update
update-RisksOk known c s v t =
    update_found-RisksOk known c s
      (find (active_at c.tenant_id c.opportunity_id c.risk_type) s.risks) v t

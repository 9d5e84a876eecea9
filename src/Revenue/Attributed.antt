-- ===== src/Revenue/Attributed.antt =====
-- Confirmed revenue can be attributed.
use lidradar.Prelude.{
  ◌≡◌, refl, subst, String, Bool, true, false, not, ◌||◌, Option, none, some, if◌then◌else◌,
}
use lidradar.Text.{is_empty, trim_space}
use lidradar.Time.{Time, is_zero}
use lidradar.Revenue.{
  Decimals, RevenueEvent, RevenueAttribution, AttributionType, chain_ok, new_attribution, confirmed,
  new_confirmed_event, parse_money, valid_currency,
}

some_injective : {A : Type 0} {a b : A} → ◌≡◌ {A = Option A} (some a) (some b) → a ≡ b
some_injective h = cc

-- What passed a test that returns nothing where it holds.
passed :
    {A : Type 0} (b : Bool) (a c : A)
    → (if b then none else some a) ≡ some c
    → (b ≡ false) × (a ≡ c)
passed true a c h = cc
passed false a c h = (refl, some_injective h)

six_false :
    (a b c d e f : Bool)
    → a || b || c || d || e || f ≡ false
    → (a ≡ false) × (b ≡ false) × (c ≡ false)
six_false true b c d e f h = cc
six_false false true c d e f h = cc
six_false false false true d e f h = cc
six_false false false false d e f h = (refl, refl, refl)

module _ {Money : Type 0} (decimals : Decimals Money) (to_upper : String → String) where
  confirmed-ids :
      (id tenant opportunity currency actor : String) (at : Time) (money : Option Money)
      {event : RevenueEvent Money}
      → confirmed decimals to_upper id tenant opportunity currency actor at money ≡ some event
      → (is_empty event.id ≡ false)
        × (is_empty event.tenant_id ≡ false)
        × (is_empty event.opportunity_id ≡ false)
        × (event.tenant_id ≡ tenant)
        × (event.opportunity_id ≡ opportunity)
  unfolding confirmed
  confirmed-ids id tenant opportunity currency actor at none h = cc
  confirmed-ids id tenant opportunity currency actor at (some money) h =
      let (guard, same) = passed _ _ _ h in
      let (i, t, o) =
        six_false (is_empty id) (is_empty tenant) (is_empty opportunity) (is_empty actor)
          (not (valid_currency currency)) (is_zero at) guard in
      subst
        (λ (e : RevenueEvent Money).
          (is_empty e.id ≡ false)
          × (is_empty e.tenant_id ≡ false)
          × (is_empty e.opportunity_id ≡ false)
          × (e.tenant_id ≡ tenant)
          × (e.opportunity_id ≡ opportunity))
        same (i, t, o, refl, refl)

  -- Revenue that was confirmed can always be attributed, and stays with its organisation and its
  -- opportunity: an event of NewConfirmedEvent with an id, a moment and a chain that fits the kind
  -- gives an attribution to the same organisation and opportunity.
  pub confirmed-attributed :
      (id tenant opportunity amount currency actor : String) (at : Time)
      (event : RevenueEvent Money) (attribution : String) (kind : AttributionType)
      (risk action outcome : String) (later : Time)
      → new_confirmed_event decimals to_upper id tenant opportunity amount currency actor at
        ≡ some event
      → is_empty attribution ≡ false
      → is_zero later ≡ false
      → chain_ok kind risk action outcome ≡ true
      → (a : RevenueAttribution) × (new_attribution attribution event kind risk action outcome later
          ≡ some a)
        × (a.tenant_id ≡ tenant)
        × (a.opportunity_id ≡ opportunity)
  unfolding new_confirmed_event new_attribution
  confirmed-attributed id tenant opportunity amount currency actor at event attribution kind risk
        action outcome later h i z c =
      let (e, t, o, same_tenant, same_opportunity) =
        confirmed-ids id tenant opportunity (to_upper (trim_space currency)) actor at
          (parse_money decimals to_upper false amount) h in
      rw (i, e, t, o, z, c) (_, refl, same_tenant, same_opportunity)

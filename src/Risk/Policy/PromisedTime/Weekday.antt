-- ===== src/Risk/Policy/PromisedTime/Weekday.antt =====
-- A weekday that a text names.
use lidradar.Prelude.{
  ℕ, ◌+◌, ◌≤◌, ◌<◌, ◌≡◌, refl, sym, ap, ◌∙◌, String, Bool, true, false, not, Option, none, some,
  List, [], ◌∷◌, arith, Bool-cases, inl, inr, if◌then◌else◌, str_eq, leb, ◌&&◌, subst,
}
use lidradar.Text.{is_empty}
use lidradar.Time.{Time, Location, IsCalendar, KeepsDay, weekday_of}
use lidradar.Risk.Policy.PromisedTime.{
  Texts, PromisedDue, lookup, weekdays, day_parts, day_part, group, days_until, weekday_groups,
  parse_weekday, re_weekday, same_day, trim_phrase, due,
}

days_until-weekday :
    (weekday day : ℕ)
    → weekday ≤ 6
    → (weekday_of (day + days_until weekday (weekday_of day)) ≡ weekday)
      × (1 ≤ days_until weekday (weekday_of day))
      × (days_until weekday (weekday_of day) ≤ 7)
unfolding days_until
days_until-weekday weekday day small = ground arith

abbrev all_le : ℕ → List (String × ℕ) → Bool
all_le bound [] = true
all_le bound ((key, n) ∷ rest) = leb n bound && all_le bound rest

some_injective : {A : Type 0} {a b : A} → ◌≡◌ {A = Option A} (some a) (some b) → a ≡ b
some_injective h = cc

and_parts : (a b : Bool) → a && b ≡ true → (a ≡ true) × (b ≡ true)
and_parts true b h = (refl, h)
and_parts false b h = cc

lookup-le :
    (m : List (String × ℕ)) (bound : ℕ) (word : String) (n : ℕ)
    → all_le bound m ≡ true
    → lookup m word ≡ some n
    → n ≤ bound
unfolding lookup
lookup-le [] bound word n a h = cc
lookup-le ((key, k) ∷ rest) bound word n a h = elim (Bool-cases (str_eq key word)) [
  | inl same ↦
      let e =
        some_injective (subst (λ b. (if b then some k else lookup rest word) ≡ some n) same h) in
      let le = (and_parts (leb k bound) (all_le bound rest) a).0 in ground (arith, e, le)
  | inr other ↦
      lookup-le rest bound word n (and_parts (leb k bound) (all_le bound rest) a).1
        (subst (λ b. (if b then some k else lookup rest word) ≡ some n) other h)
]

part-le :
    (found : Option ℕ)
    → ((n : ℕ) → all_le 18 day_parts ≡ true → found ≡ some n → n ≤ 18)
    → elim found [ none ↦ 0 | some hour ↦ hour ] ≤ 23
part-le none h = omega arith
part-le (some n) h = omega (arith, h n refl refl)

day_part-le : (word : String) → day_part word ≤ 23
day_part-le word = part-le (lookup day_parts word) (lookup-le day_parts 18 word)

hour-le : (b : Bool) (word : String) → (if b then day_part word else 12) ≤ 23
hour-le true word = day_part-le word
hour-le false word = omega arith

module _ (x : Texts) (loc : Location) where
  -- A weekday that a text names is the next one, never today: the moment lies on that weekday, one to
  -- seven calendar days on, if every day of the zone has its midnight once and no
  -- change of the clocks moves a clock time to another day.
  pub parse_weekday-next :
      (text : String) (from : Time) (d : PromisedDue)
      → IsCalendar loc
      → KeepsDay loc
      → parse_weekday x loc text from ≡ some d
      → (groups : List String) (weekday : ℕ) → x.find_submatch re_weekday text ≡ some groups
      → lookup weekdays (group 1 groups) ≡ some weekday
      → (weekday_of (loc.day d.at) ≡ weekday)
        × (loc.day from < loc.day d.at)
        × (loc.day d.at ≤ loc.day from + 7)
  unfolding parse_weekday weekday_groups
  parse_weekday-next text from d cal clock h groups weekday m w =
      let n = days_until weekday (weekday_of (loc.day from)) in
      let hour = if not (is_empty (group 2 groups)) then day_part (group 2 groups) else 12 in
      let small : hour ≤ 23 = hour-le (not (is_empty (group 2 groups))) (group 2 groups) in
      let made : weekday_groups x loc from (some groups) ≡ some d =
        subst (λ o. weekday_groups x loc from o ≡ some d) m h in
      let phrase = trim_phrase x loc (group 0 groups) in
      let found =
        subst
          (λ o.
            elim o as (λ _. Option PromisedDue) [
              | none ↦ none
              | some w ↦
                  due x loc
                    (same_day x loc (loc.add_date from (days_until w (weekday_of (loc.day from))))
                      hour 0)
                    phrase
            ]
            ≡ some d)
          w made in
      let at : d.at ≡ loc.date (loc.day (loc.add_date from n)) hour 0 =
        sym (ap (λ (y : PromisedDue). y.at) (some_injective found)) in
      let day : loc.day d.at ≡ loc.day from + n =
        ap loc.day at
        ∙ clock (loc.day (loc.add_date from n)) hour 0 small (omega arith)
        ∙ cal.day-add_date from n in
      let (on_it, low, high) =
        days_until-weekday weekday (loc.day from)
          (lookup-le weekdays 6 (group 1 groups) weekday refl w) in
      (ap weekday_of day ∙ on_it, omega (arith, day, low), omega (arith, day, high))

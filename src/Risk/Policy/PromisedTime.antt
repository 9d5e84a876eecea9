-- ===== src/Risk/Policy/PromisedTime.antt =====
-- The moment a text promises (backend/internal/risk/domain/promised_time.go).
pub mod Weekday
mod Lexicon
unfoldable pub use Lexicon.*
use lidradar.Prelude.{
  ℕ, zero, suc, ◌+◌, ◌-◌, ◌*◌, ◌%◌, String, Bool, true, false, not, ◌&&◌, ◌||◌, Option, none, some,
  List, [], ◌∷◌, if◌then◌else◌, str_eq, ltb, leb, ◌==◌, is_some,
}
use lidradar.Text.{is_empty, trim_space, has_prefix, joined}
use lidradar.Time.{Time, Location, is_zero, after, weekday_of, hour_ns, minute_ns, day_ns}

-- `match[i]`; the patterns have the groups that the code asks for.
abbrev pub group : ℕ → List String → String
group i [] = ""
group zero (g ∷ gs) = g
group (suc i) (g ∷ gs) = group i gs

-- How many days on the weekday comes next, a week where it is today's.
unfoldable pub days_until : ℕ → ℕ → ℕ
days_until weekday today = let days = (weekday + 7 - today) % 7 in if days == 0 then 7 else days

module _ (x : Texts) (loc : Location) where
  -- `trimPhrase`.
  abbrev pub trim_phrase : String → String
  trim_phrase phrase = x.trim phrase " ,.;:!?—-()«»\"'"

  -- `sameDay` at an hour and a minute.
  abbrev pub same_day : Time → ℕ → ℕ → Time
  same_day t hour minute = loc.date (loc.day t) hour minute

  abbrev pub due : Time → String → Option PromisedDue
  due at phrase = some (record { at = at; phrase = phrase })

  -- `promiseNumber`: a number of digits is read before a word, and 0 is no number.
  unfoldable pub promise_number : String → Option ℕ
  unfolding lookup
  promise_number value = elim (x.atoi value) [
    | some n ↦ if ltb 0 n then some n else none
    | none ↦ lookup word_numbers value
  ]

  -- The amounts of `parseAfter` and `parseWithin`.
  unfoldable pub amount_due : String → String → Time → String → Option PromisedDue
  unfolding promise_number
  amount_due value unit from phrase = elim (promise_number value) [
    | none ↦ none
    | some n ↦
        due (if has_prefix unit "мин" then from + n * minute_ns else from + n * hour_ns) phrase
  ]

  unfoldable pub after_groups : Time → Option (List String) → Option PromisedDue
  unfolding amount_due
  after_groups from none = none
  after_groups from (some m) =
      let phrase = trim_phrase (joined ("через " ∷ group 1 m ∷ [])) in
      if str_eq (group 1 m) "полчаса"
      then due (from + 30 * minute_ns) phrase
      else (if str_eq (group 1 m) "полтора часа"
          then due (from + 90 * minute_ns) phrase
          else (if str_eq (group 1 m) "час"
              then due (from + hour_ns) phrase
              else amount_due (group 2 m) (group 3 m) from phrase))

  -- `parseAfter`.
  unfoldable pub parse_after : String → Time → Option PromisedDue
  unfolding after_groups
  parse_after text from = after_groups from (x.find_submatch re_after text)

  unfoldable pub within_groups : Time → Option (List String) → Option PromisedDue
  unfolding amount_due
  within_groups from none = none
  within_groups from (some m) =
      let phrase = trim_phrase (joined ("в течение " ∷ group 1 m ∷ [])) in
      if str_eq (group 1 m) "получаса"
      then due (from + 30 * minute_ns) phrase
      else (if str_eq (group 1 m) "часа"
          then due (from + hour_ns) phrase
          else (if str_eq (group 1 m) "дня" || str_eq (group 1 m) "рабочего дня"
              then due (same_day from 18 0) phrase
              else amount_due (group 2 m) (group 3 m) from phrase))

  -- `parseWithin`.
  unfoldable pub parse_within : String → Time → Option PromisedDue
  unfolding within_groups
  parse_within text from = within_groups from (x.find_submatch re_within text)

  -- The day and the moment of `parseClock`.
  abbrev pub clock_due : List String → Time → ℕ → ℕ → Option PromisedDue
  clock_due m from hour minute =
      due (same_day (if str_eq (group 1 m) "завтра" then loc.add_date from 1 else from) hour minute)
        (trim_phrase (group 0 m))

  -- An hour before 8 without minutes may be of the morning or of the evening.
  unfoldable pub clock_minute : List String → Time → ℕ → Option PromisedDue
  clock_minute m from hour =
      if not (is_empty (group 3 m))
      then elim (x.atoi (group 3 m)) [
        | none ↦ none
        | some minute ↦ if ltb 59 minute then none else clock_due m from hour minute
      ]
      else (if ltb hour 8 then none else clock_due m from hour 0)

  unfoldable pub clock_groups : Time → Option (List String) → Option PromisedDue
  unfolding clock_minute
  clock_groups from none = none
  clock_groups from (some m) = elim (x.atoi (group 2 m)) [
    | none ↦ none
    | some hour ↦ if ltb 23 hour then none else clock_minute m from hour
  ]

  -- `parseClock`.
  unfoldable pub parse_clock : String → Time → Option PromisedDue
  unfolding clock_groups
  parse_clock text from = clock_groups from (x.find_submatch re_clock text)

  unfoldable pub weekday_groups : Time → Option (List String) → Option PromisedDue
  unfolding lookup days_until
  weekday_groups from none = none
  weekday_groups from (some m) = elim (lookup weekdays (group 1 m)) [
    | none ↦ none
    | some weekday ↦
        due
          (same_day (loc.add_date from (days_until weekday (weekday_of (loc.day from))))
            (if not (is_empty (group 2 m)) then day_part (group 2 m) else 12) 0)
          (trim_phrase (group 0 m))
  ]

  -- `parseWeekday`.
  unfoldable pub parse_weekday : String → Time → Option PromisedDue
  unfolding weekday_groups
  parse_weekday text from = weekday_groups from (x.find_submatch re_weekday text)

  unfoldable pub tomorrow_groups : Time → Option (List String) → Option PromisedDue
  unfolding lookup
  tomorrow_groups from none = none
  tomorrow_groups from (some m) =
      due
        (same_day (loc.add_date from 1)
          (if not (is_empty (group 1 m)) then day_part (group 1 m) else 12) 0)
        (trim_phrase (group 0 m))

  -- `parseTomorrow`.
  unfoldable pub parse_tomorrow : String → Time → Option PromisedDue
  unfolding tomorrow_groups
  parse_tomorrow text from = tomorrow_groups from (x.find_submatch re_tomorrow text)

  unfoldable pub today_groups : Time → Option (List String) → Option PromisedDue
  unfolding lookup
  today_groups from none = none
  today_groups from (some m) =
      if str_eq (group 1 m) "утром" && leb 10 (loc.hour from)
      then none
      else due (same_day from (day_part (group 1 m)) 0) (trim_phrase (group 0 m))

  -- `parseTodayPart`.
  unfoldable pub parse_today_part : String → Time → Option PromisedDue
  unfolding today_groups
  parse_today_part text from = today_groups from (x.find_submatch re_today_part text)

  -- `parseToday`.
  unfoldable pub parse_today : String → Time → Option PromisedDue
  parse_today text from =
      if is_some (x.find_submatch re_today text) then due (same_day from 18 0) "сегодня" else none

  -- `normalizePromise`.
  unfoldable pub normalize_promise : String → String
  normalize_promise text = x.fields_joined (x.to_lower (x.replace_all text "ё" "е"))

  -- The parsers in turn: the first that finds a moment decides, whether it is taken or not.
  unfoldable pub first_due :
      List (String → Time → Option PromisedDue) → String → Time → Option PromisedDue
  first_due [] text from = none
  first_due (parse ∷ rest) text from =
      let later = first_due rest text from in
      elim (parse text from) [ none ↦ later | some d ↦ some d ]

  abbrev pub in_horizon : Time → Option PromisedDue → Option PromisedDue
  in_horizon from none = none
  in_horizon from (some d) =
      if not (after d.at from) || ltb horizon (d.at - from)
      then none
      else some (record d { phrase = trim_space d.phrase })

  -- `ParsePromisedDue`.
  unfoldable pub parse_promised_due : String → Time → Option PromisedDue
  unfolding first_due parse_after parse_within parse_clock parse_weekday parse_tomorrow
      parse_today_part parse_today normalize_promise
  parse_promised_due text from =
      if is_zero from || is_empty (normalize_promise text)
      then none
      else in_horizon from (
          first_due
            (parse_after ∷ parse_within ∷ parse_clock ∷ parse_weekday ∷ parse_tomorrow
              ∷ parse_today_part ∷ parse_today ∷ [])
            (normalize_promise text) from)

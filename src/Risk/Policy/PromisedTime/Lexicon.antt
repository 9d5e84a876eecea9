-- ===== src/Risk/Policy/PromisedTime/Lexicon.antt =====
-- The words, numbers and patterns by which a promise names its moment, and the functions of packages
-- that read them (backend/internal/risk/domain/promised_time.go).
use lidradar.Prelude.{
  ℕ, ◌*◌, String, Bool, Option, none, some, List, [], ◌∷◌, if◌then◌else◌, str_eq,
}
use lidradar.Time.{Time, day_ns}

-- What the code takes of packages regexp, strings and strconv: `FindStringSubmatch` of a pattern and a
-- text, where a group that matches nothing is empty; `ToLower`, `ReplaceAll`, `Fields` put together by
-- spaces, `Trim` by a set of characters, `Contains`, and `Atoi` on the texts that the patterns let
-- through, which have no sign.
pub record Texts : Type 0 where
  pub find_submatch : String → String → Option (List String)
  pub to_lower : String → String
  pub replace_all : String → String → String → String
  pub fields_joined : String → String
  pub trim : String → String → String
  pub contains : String → String → Bool
  pub atoi : String → Option ℕ

pub record PromisedDue : Type 0 where
  pub at : Time
  pub phrase : String

-- `promisedDueHorizon`.
abbrev pub horizon : ℕ
horizon = 14 * day_ns

unfoldable pub lookup : List (String × ℕ) → String → Option ℕ
lookup [] word = none
lookup ((key, n) ∷ rest) word =
    let found = lookup rest word in if str_eq key word then some n else found

-- `promiseWordNumbers`, `promiseWeekdays` and `promiseDayParts`.
abbrev pub word_numbers : List (String × ℕ)
word_numbers =
    ("одну", 1)
    ∷ ("один", 1)
    ∷ ("одного", 1)
    ∷ ("два", 2)
    ∷ ("две", 2)
    ∷ ("двух", 2)
    ∷ ("три", 3)
    ∷ ("трех", 3)
    ∷ ("четыре", 4)
    ∷ ("четырех", 4)
    ∷ ("пять", 5)
    ∷ ("пяти", 5)
    ∷ ("шесть", 6)
    ∷ ("шести", 6)
    ∷ ("семь", 7)
    ∷ ("семи", 7)
    ∷ ("восемь", 8)
    ∷ ("восьми", 8)
    ∷ ("девять", 9)
    ∷ ("девяти", 9)
    ∷ ("десять", 10)
    ∷ ("десяти", 10)
    ∷ ("пятнадцать", 15)
    ∷ ("пятнадцати", 15)
    ∷ ("двадцать", 20)
    ∷ ("двадцати", 20)
    ∷ ("тридцать", 30)
    ∷ ("тридцати", 30)
    ∷ ("сорок", 40)
    ∷ ("сорока", 40)
    ∷ ("пятьдесят", 50)
    ∷ ("пятидесяти", 50)
    ∷ ("шестьдесят", 60)
    ∷ ("шестидесяти", 60)
    ∷ []

abbrev pub weekdays : List (String × ℕ)
weekdays =
    ("понедельник", 1)
    ∷ ("вторник", 2)
    ∷ ("среду", 3)
    ∷ ("среда", 3)
    ∷ ("четверг", 4)
    ∷ ("пятницу", 5)
    ∷ ("пятница", 5)
    ∷ ("субботу", 6)
    ∷ ("суббота", 6)
    ∷ ("воскресенье", 0)
    ∷ []

abbrev pub day_parts : List (String × ℕ)
day_parts =
    ("утром", 10)
    ∷ ("до полудня", 12)
    ∷ ("к полудню", 12)
    ∷ ("до обеда", 12)
    ∷ ("после обеда", 15)
    ∷ ("вечером", 18)
    ∷ ("до вечера", 18)
    ∷ ("к вечеру", 18)
    ∷ ("до конца дня", 18)
    ∷ ("до конца рабочего дня", 18)
    ∷ []

-- A map answers 0 for a key it has not.
abbrev pub day_part : String → ℕ
day_part word = elim (lookup day_parts word) [ none ↦ 0 | some hour ↦ hour ]

abbrev pub re_after : String
re_after =
    "через (полчаса|полтора часа|час|(\\d{1,3}|[а-я]+) ?(минут[ыу]?|мин\\.?|час(?:а|ов)?))(?:[^а-я]|$)"

abbrev pub re_within : String
re_within =
    "в течение (получаса|часа|рабочего дня|дня|(\\d{1,3}|[а-я]+) ?(минут|час(?:а|ов)))(?:[^а-я]|$)"

abbrev pub re_clock : String
re_clock =
    "(?:(завтра|сегодня) )?(?:до|к|не позднее|не позже) (\\d{1,2})(?:[:.](\\d{2})| ?час(?:ов|а|ам))(?:[^а-я0-9:]|$)"

abbrev pub re_weekday : String
re_weekday =
    "(?:^|[^а-я])(?:в|во) (понедельник|вторник|среду|среда|четверг|пятницу|пятница|субботу|суббота|воскресенье)(?: (утром|до полудня|к полудню|до обеда|после обеда|вечером|до вечера|к вечеру))?(?:[^а-я]|$)"

abbrev pub re_tomorrow : String
re_tomorrow =
    "(?:^|[^а-я])(?:не позднее |не позже |до )?завтра(?: (утром|до полудня|к полудню|до обеда|после обеда|вечером|до вечера|к вечеру))?(?:[^а-я]|$)"

abbrev pub re_today_part : String
re_today_part =
    "(?:^|[^а-я])(?:сегодня )?(после обеда|до обеда|до полудня|к полудню|вечером|до вечера|к вечеру|до конца рабочего дня|до конца дня|утром)(?:[^а-я]|$)"

abbrev pub re_today : String
re_today = "(?:^|[^а-я])сегодня(?:[^а-я]|$)"

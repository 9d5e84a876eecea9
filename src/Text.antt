-- ===== src/Text.antt =====
-- Texts as the Go code reads them: a string is a native `String`, compared whole or by UTF-8 bytes.
-- `trim_space` is strings.TrimSpace, which cuts the Unicode white space of unicode.IsSpace.
pub mod Sizes
use Prim.Native.Char.{code}
use Prim.Native.String.{compare, len, slice, ◌++◌ as str_append}
use text.Mathlib.Text.{is_lt, starts_with}
use lidradar.Prelude.{
  ℕ, zero, suc, ◌/◌, ◌%◌, String, ◌≡◌, refl, Bool, true, false, ◌&&◌, ◌||◌, leb, ◌==◌,
  if◌then◌else◌, str_eq, List, [], ◌∷◌, length,
}

-- unicode.IsSpace.
abbrev pub is_space : ℕ → Bool
is_space c =
    leb 9 c && leb c 13
    || c == 32
    || c == 0x85
    || c == 0xa0
    || c == 0x1680
    || leb 0x2000 c && leb c 0x200a
    || c == 0x2028
    || c == 0x2029
    || c == 0x202f
    || c == 0x205f
    || c == 0x3000

abbrev pub is_empty : String → Bool
is_empty String.[] = true
is_empty (String.◌∷◌ c s) = false

trim_left : String → String
trim_left String.[] = ""
trim_left (String.◌∷◌ c s) =
    let rest = trim_left s in if is_space (code c) then rest else String.◌∷◌ c s

-- A character is cut when it is white space and nothing is left after it.
unfoldable pub trim_right : String → String
trim_right String.[] = ""
trim_right (String.◌∷◌ c s) =
    let rest = trim_right s in if is_space (code c) && is_empty rest then "" else String.◌∷◌ c rest

-- strings.TrimSpace.
unfoldable pub trim_space : String → String
unfolding trim_left trim_right
trim_space s = trim_right (trim_left s)

-- `s == strings.TrimSpace(s)`.
abbrev pub is_trimmed : String → Bool
is_trimmed s = str_eq s (trim_space s)

-- Go's `<` on strings, which compares their bytes.
abbrev pub text_lt : String → String → Bool
text_lt s t = is_lt (compare s t)

-- The characters from `A` to `Z`.
abbrev pub is_upper : ℕ → Bool
is_upper c = leb b'A' c && leb c b'Z'

abbrev pub is_digit : ℕ → Bool
is_digit c = leb b'0' c && leb c b'9'

-- The code points of a text.
abbrev pub codes : String → List ℕ
codes String.[] = []
codes (String.◌∷◌ c s) = code c ∷ codes s

abbrev pub all_of : (ℕ → Bool) → List ℕ → Bool
all_of p [] = true
all_of p (c ∷ cs) = p c && all_of p cs

abbrev pub code_char : ℕ → Bool
code_char c = is_upper c || is_digit c || c == b'_'

-- The regular expression `^[A-Z][A-Z0-9_]{0,99}$` of error and reason codes.
code_pattern_of : List ℕ → Bool
code_pattern_of [] = false
code_pattern_of (c ∷ cs) = is_upper c && all_of code_char cs && leb (length cs) 99

unfoldable pub code_pattern : String → Bool
unfolding code_pattern_of
code_pattern s = code_pattern_of (codes s)

unfoldable pub digit : ℕ → String
digit zero = "0"
digit (suc zero) = "1"
digit (suc (suc zero)) = "2"
digit (suc (suc (suc zero))) = "3"
digit (suc (suc (suc (suc zero)))) = "4"
digit (suc (suc (suc (suc (suc zero))))) = "5"
digit (suc (suc (suc (suc (suc (suc zero)))))) = "6"
digit (suc (suc (suc (suc (suc (suc (suc zero))))))) = "7"
digit (suc (suc (suc (suc (suc (suc (suc (suc zero)))))))) = "8"
digit _ = "9"

-- Digits in front of a text; the fuel bounds their number.
unfoldable pub decimal_from : ℕ → ℕ → String → String
unfolding digit
decimal_from zero n rest = rest
decimal_from (suc fuel) n rest =
    let more = decimal_from fuel (n / 10) (str_append (digit (n % 10)) rest) in
    if n / 10 == 0 then str_append (digit (n % 10)) rest else more

-- The first characters of a text, `string([]rune(s)[:n])`.
unfoldable pub take_runes : ℕ → String → String
take_runes zero s = ""
take_runes (suc n) String.[] = ""
take_runes (suc n) (String.◌∷◌ c s) = String.◌∷◌ c (take_runes n s)

-- strings.HasPrefix and strings.TrimPrefix.
abbrev pub has_prefix : String → String → Bool
has_prefix s prefix = starts_with s prefix

abbrev pub trim_prefix : String → String → String
trim_prefix s prefix = if starts_with s prefix then slice s (len prefix) (len s) else s

-- The verb `%d` at a number of at most twenty digits, such as a non-negative int64.
unfoldable pub decimal : ℕ → String
unfolding decimal_from
decimal n = decimal_from 20 n ""

-- The verb `%02d` at a number below one hundred.
unfoldable pub two_digits : ℕ → String
unfolding digit
two_digits n = str_append (digit (n / 10)) (digit (n % 10))

-- The texts of a format with its values, one after the other.
unfoldable pub joined : List String → String
joined [] = ""
joined (s ∷ ss) = str_append s (joined ss)

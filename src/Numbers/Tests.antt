-- ===== src/Numbers/Tests.antt =====
-- Lists of number tokens that are written in full. A number is printed as the code of its last digit,
-- with those before it.
use citeproc_rs.Base.{
  ℕ, zero, suc, ◌+◌, ◌*◌, ◌/◌, ◌%◌, true, false, none, some, List, [], ◌∷◌, ◌++◌, ◌≡◌, refl, ltb,
  ◌==◌,
}
use citeproc_rs.Base.Texts.{Text}
use citeproc_rs.Pages.{minimal, truncate_prf}
use citeproc_rs.Terms.{pages}
use citeproc_rs.Numbers.{NumericToken, num, comma, hyphen, Locale}
use citeproc_rs.Numbers.Separators.{tokens_to_string-separator}
use citeproc_rs.Numbers.Tokens.{tokens_to_string, roman_lower, join_text}

abbrev digits_from : ℕ → ℕ → Text
digits_from zero n = []
digits_from (suc fuel) n = elim (ltb n 10) [
  | true ↦ (48 + n) ∷ []
  | false ↦ digits_from fuel (n / 10) ++ (48 + n % 10) ∷ []
]

abbrev power_from : ℕ → ℕ → ℕ
power_from zero n = 1
power_from (suc fuel) n = elim (ltb n 10) [ true ↦ 1 | false ↦ power_from fuel (n / 10) * 10 ]

abbrev plain_locale : Locale
plain_locale = record {
  page_range_delimiter = none;
  year_range_delimiter = none;
  and_symbol = none;
  and_term = none;
  is_whitespace = λ c. c == 32;
  decimal = λ n. digits_from 10 n;
  to_uppercase = λ t. t;
  closest_smaller_power_of_10 = λ n. power_from n n;
}

abbrev up_to_comma : List NumericToken
up_to_comma = num 101 ∷ hyphen ∷ num 108 ∷ []

abbrev after_comma : List NumericToken
after_comma = num 3 ∷ []

tokens_to_string-separator_example :
    tokens_to_string plain_locale pages (some minimal) (up_to_comma ++ comma ∷ after_comma)
    ≡ join_text
        (tokens_to_string plain_locale pages (some minimal) (up_to_comma ++ comma ∷ []))
        (tokens_to_string plain_locale pages (some minimal) after_comma)
tokens_to_string-separator_example =
    tokens_to_string-separator plain_locale pages (some minimal) comma up_to_comma after_comma refl

-- `101–8, 3`
shortened :
    tokens_to_string plain_locale pages (some minimal) (up_to_comma ++ comma ∷ after_comma)
    ≡ some (49 ∷ 48 ∷ 49 ∷ 8211 ∷ 56 ∷ 44 ∷ 32 ∷ 51 ∷ [])
unfolding tokens_to_string truncate_prf
shortened = refl

-- `iii–xi`
roman_range :
    roman_lower plain_locale pages none (num 3 ∷ hyphen ∷ num 11 ∷ [])
    ≡ some (105 ∷ 105 ∷ 105 ∷ 8211 ∷ 120 ∷ 105 ∷ [])
unfolding roman_lower
roman_range = refl

-- a hyphen after the last number is left out
last_hyphen_lost : tokens_to_string plain_locale pages none (num 7 ∷ hyphen ∷ []) ≡ some (55 ∷ [])
unfolding tokens_to_string
last_hyphen_lost = refl

-- ===== src/Numbers/Tokens.antt =====
-- `tokens_to_string`, `roman_lower` and `render_ordinal` of crates/proc/src/number.rs.
use citeproc_rs.Base.{
  ℕ, Bool, true, false, Option, none, some, List, [], ◌∷◌, ◌++◌, leb, ltb, not, ◌||◌, ◌==◌,
  if◌then◌else◌, all,
}
use citeproc_rs.Base.Texts.{Text, unwrap_or}
use citeproc_rs.Pages.{PageRangeFormat}
use citeproc_rs.Roman.{Outcome, panicked, returned, to, max_value}
use citeproc_rs.Terms.{NumberVariable, Gender, OrdinalTermSelector, from_number_for_selector}
use citeproc_rs.Numbers.{
  NumericToken, num, roman_num, affixed, str, comma, hyphen, ampersand, and_token, comma_and,
  Locale, State, normal, Cropped, crop, see_hyphen, non_num_should_push_hyphen, write_hyphen,
  separator, get_hyphen,
}

-- what a token adds to the text, and the state after it
abbrev pub Written : Type 0
Written = Option (Text × State)

-- a text before what is written next
unfoldable pub before : Text → Written → Written
before t none = none
before t (some w) = some (t ++ w.0, w.1)

-- the text alone
unfoldable pub text_of : Written → Option Text
text_of none = none
text_of (some w) = some w.0

-- the numeral, or nothing
unfoldable pub roman_of : Outcome → Option Text
roman_of panicked = none
roman_of (returned none) = some []
roman_of (returned (some x)) = some x

unfoldable pub join_text : Option Text → Option Text → Option Text
join_text (some t) (some u) = some (t ++ u)
join_text _ _ = none

module _ (locale : Locale) (variable : NumberVariable) (prf : Option PageRangeFormat) where
  -- the hyphen, and the number with its affixes
  unfoldable pub write_number : Text → Option Cropped → Written
  unfolding write_hyphen
  write_number suf none = none
  write_number suf (some c) = some (
    write_hyphen locale variable c.insert ++ (c.crop_prefix ++ (locale.decimal c.cropped ++ suf)),
    c.state,
  )

  -- a Roman numeral is not shortened; one that cannot be written is left out
  unfoldable pub write_roman : Bool → Outcome → Option Cropped → Written
  unfolding write_hyphen
  write_roman upper o none = none
  write_roman upper panicked (some c) = none
  write_roman upper (returned none) (some c) = some (write_hyphen locale variable c.insert, c.state)
  write_roman upper (returned (some x)) (some c) = some (
    write_hyphen locale variable c.insert ++ (if upper then locale.to_uppercase x else x),
    c.state,
  )

  -- any other token ends the range
  unfoldable pub write_separator : State → Option Text → Written
  unfolding write_hyphen non_num_should_push_hyphen
  write_separator state t =
      some
        (write_hyphen locale variable (non_num_should_push_hyphen state) ++ unwrap_or [] t, normal)

  -- the body of the loop
  unfoldable pub token_step : State → NumericToken → Written
  unfolding write_number write_roman write_separator crop see_hyphen to separator
  token_step state hyphen = some ([], see_hyphen state)
  token_step state (num i) =
      write_number [] (crop locale.closest_smaller_power_of_10 state prf i false [] [])
  token_step state (affixed pre n suf) =
      write_number suf (crop locale.closest_smaller_power_of_10 state prf n false pre suf)
  token_step state (roman_num i upper) =
      write_roman upper (to i) (crop locale.closest_smaller_power_of_10 state prf i true [] [])
  token_step state (str t) = write_separator state (separator locale (str t))
  token_step state comma = write_separator state (separator locale comma)
  token_step state ampersand = write_separator state (separator locale ampersand)
  token_step state and_token = write_separator state (separator locale and_token)
  token_step state comma_and = write_separator state (separator locale comma_and)

  -- the loop, from a state on
  unfoldable pub write_tokens : State → List NumericToken → Written
  unfolding token_step before
  write_tokens state [] = some ([], state)
  write_tokens state (t ∷ ts) = elim (token_step state t) as (λ _. Written) [
    | none ↦ none
    | some w ↦ before w.0 (write_tokens w.1 ts)
  ]

  unfoldable pub tokens_to_string : List NumericToken → Option Text
  unfolding write_tokens text_of
  tokens_to_string ts = text_of (write_tokens normal ts)

  unfoldable pub roman_token : NumericToken → Option Text
  unfolding roman_of to get_hyphen separator
  roman_token (roman_num i _) = roman_of (to i)
  roman_token (num i) = roman_of (to i)
  roman_token (affixed pre n suf) = some (pre ++ (locale.decimal n ++ suf))
  roman_token hyphen = some (get_hyphen locale variable)
  roman_token t = separator locale t

  unfoldable pub roman_lower : List NumericToken → Option Text
  unfolding roman_token join_text
  roman_lower [] = some []
  roman_lower (t ∷ ts) = join_text (roman_token t) (roman_lower ts)

-- `NumericToken::get_num`, tested against the greatest Roman numeral
unfoldable pub token_representable : NumericToken → Bool
token_representable (num n) = leb n max_value
token_representable (roman_num n _) = leb n max_value
token_representable _ = true

unfoldable pub roman_representable : Option (List NumericToken) → Bool
unfolding token_representable
roman_representable none = false
roman_representable (some ts) = all token_representable ts

-- `if !long || n == 0 || n > 10`
unfoldable pub ordinal_number : Locale → Bool → ℕ → Text
ordinal_number locale long n = if not long || (n == 0) || ltb 10 n then locale.decimal n else []

-- `render_ordinal`: a token of it, with `get_ordinal_term` of the locale
unfoldable pub ordinal_token :
    Locale
    → (OrdinalTermSelector → Option Text)
    → NumberVariable
    → Gender
    → Bool
    → NumericToken
    → Option Text
unfolding ordinal_number separator get_hyphen from_number_for_selector
ordinal_token locale get_term variable gender long (num n) = some (
    ordinal_number locale long n
    ++ unwrap_or [] (get_term (from_number_for_selector n long, gender)))
ordinal_token locale get_term variable gender long (roman_num n _) = some (
    ordinal_number locale long n
    ++ unwrap_or [] (get_term (from_number_for_selector n long, gender)))
ordinal_token locale get_term variable gender long (affixed pre n suf) =
    some (pre ++ (locale.decimal n ++ suf))
ordinal_token locale get_term variable gender long hyphen = some (get_hyphen locale variable)
ordinal_token locale get_term variable gender long t = separator locale t

unfoldable pub render_ordinal :
    Locale
    → (OrdinalTermSelector → Option Text)
    → NumberVariable
    → Gender
    → Bool
    → List NumericToken
    → Option Text
unfolding ordinal_token join_text
render_ordinal locale get_term variable gender long [] = some []
render_ordinal locale get_term variable gender long (t ∷ ts) =
    join_text (ordinal_token locale get_term variable gender long t)
      (render_ordinal locale get_term variable gender long ts)

-- ===== src/Numbers.antt =====
-- crates/proc/src/number.rs: lists of number tokens are written as text, with the second number of a
-- range shortened. A panic of a called function is the none of an Option.
pub mod Tokens
pub mod Separators
mod Tests
use citeproc_rs.Base.{
  ℕ, Bool, true, false, not, ◌&&◌, Option, none, some, List, [], ◌∷◌, ◌++◌, map, ◌==◌, is_empty,
  ltb, leb, all, if◌then◌else◌,
}
use citeproc_rs.Base.Texts.{same_text, Text, trim, unwrap_or}
use citeproc_rs.Pages.{PageRangeFormat, expanded, truncate_prf}
use citeproc_rs.Roman.{Outcome, panicked, returned, to, max_value}
use citeproc_rs.Terms.{
  NumberVariable, collection_number, edition, issue_number, number, volume_number, locator, pages,
}

-- crates/io/src/numeric.rs
pub data NumericToken : Type 0 where
  num : ℕ → NumericToken
  roman_num : ℕ → Bool → NumericToken
  affixed : Text → ℕ → Text → NumericToken
  str : Text → NumericToken
  comma hyphen ampersand and_token comma_and : NumericToken

-- what is read of the locale: its terms, untrimmed, and what the standard library prints
pub record Locale : Type 0 where
  pub page_range_delimiter : Option Text
  pub year_range_delimiter : Option Text
  pub and_symbol : Option Text
  pub and_term : Option Text
  pub is_whitespace : ℕ → Bool
  pub decimal : ℕ → Text
  pub to_uppercase : Text → Text
  -- for the shortening of page ranges
  pub closest_smaller_power_of_10 : ℕ → ℕ

-- `singular().trim()`
unfoldable pub trimmed_or : Locale → Text → Option Text → Text
trimmed_or locale default none = default
trimmed_or locale default (some t) = trim locale.is_whitespace t

unfoldable pub get_ampersand : Locale → Text
unfolding trimmed_or
get_ampersand locale = trimmed_or locale (38 ∷ []) locale.and_symbol

unfoldable pub get_hyphen : Locale → NumberVariable → Text
unfolding trimmed_or
get_hyphen locale pages = trimmed_or locale (8211 ∷ []) locale.page_range_delimiter
get_hyphen locale locator = trimmed_or locale (8211 ∷ []) locale.page_range_delimiter
get_hyphen locale issue_number = trimmed_or locale (8211 ∷ []) locale.page_range_delimiter
get_hyphen locale volume_number = trimmed_or locale (8211 ∷ []) locale.page_range_delimiter
get_hyphen locale edition = trimmed_or locale (8211 ∷ []) locale.page_range_delimiter
get_hyphen locale number = trimmed_or locale (8211 ∷ []) locale.page_range_delimiter
get_hyphen locale collection_number = trimmed_or locale (8211 ∷ []) locale.year_range_delimiter
get_hyphen locale _ = 45 ∷ []

pub data NumBefore : Type 0 where
  seen_num seen_num_hyphen seen_roman seen_roman_hyphen : ℕ → NumBefore

unfoldable pub matching_for_crop : NumBefore → Option ℕ
matching_for_crop (seen_num_hyphen n) = some n
matching_for_crop (seen_roman_hyphen n) = some n
matching_for_crop _ = none

unfoldable pub see_num : ℕ → Bool → NumBefore
see_num n true = seen_roman n
see_num n false = seen_num n

pub data State : Type 0 where
  normal : State
  hyphenating : Text → NumBefore → State

pub data HyphenInsert : Type 0 where
  no_hyphen simple from_locale : HyphenInsert

-- what `crop` returns
pub record Cropped : Type 0 where
  pub crop_prefix : Text
  pub cropped : ℕ
  pub insert : HyphenInsert
  pub state : State

unfoldable pub crop_prefix_for : PageRangeFormat → Text → Text
crop_prefix_for expanded pfx = pfx
crop_prefix_for _ pfx = []

-- the number, or a panic of `truncate_prf`
unfoldable pub cropped_to : Text → Option ℕ → Option Cropped
cropped_to pfx none = none
cropped_to pfx (some n) =
    some (record { crop_prefix = pfx; cropped = n; insert = from_locale; state = normal })

-- after a number and a hyphen, with the same prefix
unfoldable pub crop_after : (ℕ → ℕ) → Option PageRangeFormat → ℕ → Text → Option ℕ → Option Cropped
unfolding truncate_prf crop_prefix_for cropped_to
crop_after closest prf n pfx none =
    some (record { crop_prefix = pfx; cropped = n; insert = simple; state = normal })
crop_after closest none n pfx (some _) =
    some (record { crop_prefix = pfx; cropped = n; insert = from_locale; state = normal })
crop_after closest (some prf) n pfx (some last_num) =
    cropped_to (crop_prefix_for prf pfx) (truncate_prf closest prf last_num n)

unfoldable pub crop :
    (ℕ → ℕ) → State → Option PageRangeFormat → ℕ → Bool → Text → Text → Option Cropped
unfolding crop_after matching_for_crop see_num same_text
crop closest normal prf n is_roman pfx sfx = some (record {
  crop_prefix = pfx;
  cropped = n;
  insert = no_hyphen;
  state = if is_empty sfx then hyphenating pfx (see_num n is_roman) else normal;
})
crop closest (hyphenating prefix last) prf n is_roman pfx sfx =
    if same_text pfx prefix
    then crop_after closest prf n pfx (matching_for_crop last)
    else some (record { crop_prefix = pfx; cropped = n; insert = simple; state = normal })

unfoldable pub hyphened : NumBefore → NumBefore
hyphened (seen_num n) = seen_num_hyphen n
hyphened (seen_roman n) = seen_roman_hyphen n
hyphened a = a

unfoldable pub see_hyphen : State → State
unfolding hyphened
see_hyphen normal = normal
see_hyphen (hyphenating prefix last) = hyphenating prefix (hyphened last)

unfoldable pub non_num_should_push_hyphen : State → HyphenInsert
non_num_should_push_hyphen (hyphenating _ (seen_num_hyphen _)) = simple
non_num_should_push_hyphen (hyphenating _ (seen_roman_hyphen _)) = simple
non_num_should_push_hyphen _ = no_hyphen

-- `HyphenInsert::write`
unfoldable pub write_hyphen : Locale → NumberVariable → HyphenInsert → Text
unfolding get_hyphen
write_hyphen locale variable from_locale = get_hyphen locale variable
write_hyphen locale variable simple = 45 ∷ []
write_hyphen locale variable no_hyphen = []

unfoldable pub and_text : Locale → Text
and_text locale = (32 ∷ unwrap_or (97 ∷ 110 ∷ 100 ∷ []) locale.and_term) ++ 32 ∷ []

-- the text of a token that is no number and no hyphen
unfoldable pub separator : Locale → NumericToken → Option Text
unfolding get_ampersand and_text
separator locale (str t) = some t
separator locale comma = some (44 ∷ 32 ∷ [])
separator locale ampersand = some ((32 ∷ get_ampersand locale) ++ 32 ∷ [])
separator locale and_token = some (and_text locale)
separator locale comma_and = some (44 ∷ and_text locale)
separator locale _ = none

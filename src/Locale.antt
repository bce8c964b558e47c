-- ===== src/Locale.antt =====
-- crates/csl/src/locale.rs: what a locale holds, how one is merged with another, and the terms that are
-- looked up in it; crates/db/src/xml.rs: the merged locale of a language. A hash map is a function, and
-- the map of ordinal terms an optional one. Versions, the parts of a date and formattings are of types
-- that the code here does not look into.
mod Tests
pub mod Database
pub mod Merged
pub mod Looked
use citeproc_rs.Base.{◌∷◌, if◌then◌else◌, false, none, some, [], ℕ, Bool, Option, List}
use citeproc_rs.Base.Reversed.{reversed}
use citeproc_rs.Base.Texts.{Text, same_text, unwrap_or, or_option, first_of}
use citeproc_rs.Cites.{LocatorType}
use citeproc_rs.Lang.{Lang, LocaleSource, inline, file, en_us, iter}
use citeproc_rs.Terms.{
  TermForm, long, TermFormExtended, long_form, next_extended, SimpleTermSelector, misc,
  simple_fallback, GenderedTermSelector, number_term, locator_term, month_term, gendered_fallback,
  normalise, MonthTerm, NumberVariable, Gender, neuter, OrdinalTermSelector, selector_fallback,
  map_all,
}
use citeproc_rs.Base.Iter.{drain}

pub data TermPlurality : Type 0 where
  pluralized : Text → Text → TermPlurality
  invariant : Text → TermPlurality

unfoldable pub singular : TermPlurality → Text
singular (invariant s) = s
singular (pluralized single multiple) = single

unfoldable pub plural : TermPlurality → Text
plural (invariant s) = s
plural (pluralized single multiple) = multiple

-- `TermPlurality::get`
unfoldable pub in_number : TermPlurality → Bool → Text
unfolding singular plural
in_number t is_plural = if is_plural then plural t else singular t

abbrev pub GenderedTerm : Type 0
GenderedTerm = TermPlurality × Gender

-- a role, by its number, in a form
abbrev pub RoleTermSelector : Type 0
RoleTermSelector = ℕ × TermFormExtended

unfoldable pub role_fallback : ℕ → RoleTermSelector → Option (List RoleTermSelector)
unfolding drain next_extended
role_fallback fuel (t, form) = map_all (λ x. (t, x)) (drain next_extended fuel (some form))

pub data TextTermSelector : Type 0 where
  simple : SimpleTermSelector → TextTermSelector
  gendered : GenderedTermSelector → TextTermSelector
  role : RoleTermSelector → TextTermSelector

pub record LocaleOptionsNode : Type 0 where
  pub limit_day_ordinals_to_day_1 : Option Bool
  pub punctuation_in_quote : Option Bool

unfoldable pub merge_options : LocaleOptionsNode → LocaleOptionsNode → LocaleOptionsNode
merge_options node other = record {
  limit_day_ordinals_to_day_1 =
      or_option other.limit_day_ordinals_to_day_1 node.limit_day_ordinals_to_day_1;
  punctuation_in_quote = or_option other.punctuation_in_quote node.punctuation_in_quote;
}

pub record LocaleOptions : Type 0 where
  pub limit_ordinals_to_day_1 : Bool
  pub punctuation_inside : Bool

unfoldable pub from_merged : LocaleOptionsNode → LocaleOptions
from_merged node = record {
  limit_ordinals_to_day_1 = unwrap_or false node.limit_day_ordinals_to_day_1;
  punctuation_inside = unwrap_or false node.punctuation_in_quote;
}

pub data DateForm : Type 0 where
  text_date numeric_date : DateForm

pub record Locale (D : Type 0) : Type 0 where
  pub version : Text
  pub lang : Option Lang
  pub options_node : LocaleOptionsNode
  pub simple_terms : SimpleTermSelector → Option TermPlurality
  pub gendered_terms : GenderedTermSelector → Option GenderedTerm
  -- `none` where no ordinal is defined
  pub ordinal_terms : Option (OrdinalTermSelector → Option Text)
  pub role_terms : RoleTermSelector → Option TermPlurality
  pub dates : DateForm → Option D

-- `Locale::default`
unfoldable pub default_locale : {D : Type 0} → Locale D
default_locale = record {
  version = [];
  lang = none;
  options_node = record { limit_day_ordinals_to_day_1 = none; punctuation_in_quote = none };
  simple_terms = λ sel. none;
  gendered_terms = λ sel. none;
  ordinal_terms = none;
  role_terms = λ sel. none;
  dates = λ form. none;
}

-- what an ordinal map has for a selector
unfoldable pub ordinal_of :
    Option (OrdinalTermSelector → Option Text) → OrdinalTermSelector → Option Text
ordinal_of none sel = none
ordinal_of (some terms) sel = terms sel

-- the first selector that the map has, on the fuel that the list of selectors was made with
unfoldable pub find_term : {A V : Type 0} → (A → Option V) → Option (List A) → Option (Option V)
find_term map none = none
find_term map (some selectors) = some (first_of map selectors)

-- `map`, under the fuel
unfoldable pub map_found : {V W : Type 0} → (V → W) → Option (Option V) → Option (Option W)
map_found f none = none
map_found f (some none) = some none
map_found f (some (some v)) = some (some (f v))

-- the gender of a term that is there in its long form
unfoldable pub gender_or_neuter : Option GenderedTerm → Gender
gender_or_neuter none = neuter
gender_or_neuter (some t) = t.1

unfoldable pub num_gender_selector : NumberVariable → LocatorType → GenderedTermSelector
unfolding normalise
num_gender_selector NumberVariable.locator l = locator_term l long
num_gender_selector v l = normalise (number_term v long)

-- the variants `And`, `AndOthers` and `EtAl` of `MiscTerm`
abbrev pub and_misc : ℕ
and_misc = 2

abbrev pub and_others_misc : ℕ
and_others_misc = 3

abbrev pub et_al_misc : ℕ
et_al_misc = 11

-- "and others" and "et al"
abbrev pub and_others_text : Text
and_others_text = 97 ∷ 110 ∷ 100 ∷ 32 ∷ 111 ∷ 116 ∷ 104 ∷ 101 ∷ 114 ∷ 115 ∷ []

abbrev pub et_al_text : Text
et_al_text = 101 ∷ 116 ∷ 32 ∷ 97 ∷ 108 ∷ []

-- a `cs:et-al` element: its term and its formatting
pub record NameEtAl (F : Type 0) : Type 0 where
  pub term : Text
  pub formatting : Option F

-- the term and the text that stands for it where a locale has none
unfoldable pub et_al_choice : {F : Type 0} → Option (NameEtAl F) → ℕ × Text
unfolding same_text
et_al_choice none = (et_al_misc, et_al_text)
et_al_choice (some el) =
    if same_text el.term and_others_text
    then (and_others_misc, and_others_text)
    else (et_al_misc, et_al_text)

unfoldable pub formatting_of : {F : Type 0} → Option (NameEtAl F) → Option F
formatting_of none = none
formatting_of (some el) = el.formatting

-- no result for an empty text
unfoldable pub unless_empty_text : {F : Type 0} → Text → Option F → Option (Text × Option F)
unless_empty_text [] f = none
unless_empty_text (c ∷ t) f = some (c ∷ t, f)

-- under the fuel of the look-up
unfoldable pub et_al_found :
    {F : Type 0} → Text → Option F → Option (Option Text) → Option (Option (Text × Option F))
unfolding unless_empty_text
et_al_found default f none = none
et_al_found default f (some found) = some (unless_empty_text (unwrap_or default found) f)

module _ {D : Type 0} where
  -- `Locale::merge`
  unfoldable pub merge : Locale D → Locale D → Locale D
  unfolding merge_options
  merge base new = record base {
    lang = new.lang;
    simple_terms = λ sel. or_option (new.simple_terms sel) (base.simple_terms sel);
    gendered_terms = λ sel. or_option (new.gendered_terms sel) (base.gendered_terms sel);
    role_terms = λ sel. or_option (new.role_terms sel) (base.role_terms sel);
    dates = λ form. or_option (new.dates form) (base.dates form);
    ordinal_terms = or_option new.ordinal_terms base.ordinal_terms;
    options_node = merge_options base.options_node new.options_node;
  }

  unfoldable pub get_simple_term : ℕ → Locale D → SimpleTermSelector → Option (Option TermPlurality)
  unfolding find_term simple_fallback
  get_simple_term fuel locale sel = find_term locale.simple_terms (simple_fallback fuel sel)

  unfoldable pub get_gendered_term :
      ℕ → Locale D → GenderedTermSelector → Option (Option GenderedTerm)
  unfolding find_term gendered_fallback
  get_gendered_term fuel locale sel = find_term locale.gendered_terms (gendered_fallback fuel sel)

  unfoldable pub get_ordinal_term : ℕ → Locale D → OrdinalTermSelector → Option (Option Text)
  unfolding find_term selector_fallback ordinal_of
  get_ordinal_term fuel locale sel =
      find_term (ordinal_of locale.ordinal_terms) (selector_fallback fuel sel)

  unfoldable pub get_text_term : ℕ → Locale D → TextTermSelector → Bool → Option (Option Text)
  unfolding find_term simple_fallback gendered_fallback role_fallback normalise map_found in_number
  get_text_term fuel locale (simple sel) is_plural =
      map_found (λ t. in_number t is_plural)
        (find_term locale.simple_terms (simple_fallback fuel sel))
  get_text_term fuel locale (gendered sel) is_plural =
      map_found (λ t. in_number (t.0) is_plural)
        (find_term locale.gendered_terms (gendered_fallback fuel (normalise sel)))
  get_text_term fuel locale (role sel) is_plural =
      map_found (λ t. in_number t is_plural) (find_term locale.role_terms (role_fallback fuel sel))

  unfoldable pub get_month_gender : Locale D → MonthTerm → Gender
  unfolding gender_or_neuter
  get_month_gender locale month = gender_or_neuter (locale.gendered_terms (month_term month long))

  unfoldable pub get_num_gender : Locale D → NumberVariable → LocatorType → Gender
  unfolding gender_or_neuter num_gender_selector
  get_num_gender locale v l = gender_or_neuter (locale.gendered_terms (num_gender_selector v l))

  unfoldable pub and_term : ℕ → Locale D → Option TermFormExtended → Option (Option Text)
  unfolding get_simple_term map_found singular
  and_term fuel locale form =
      map_found singular (get_simple_term fuel locale (misc and_misc (unwrap_or long_form form)))

  unfoldable pub et_al_term :
      {F : Type 0} → ℕ → Locale D → Option (NameEtAl F) → Option (Option (Text × Option F))
  unfolding et_al_choice formatting_of get_text_term et_al_found
  et_al_term fuel locale element =
      et_al_found ((et_al_choice element).1) (formatting_of element)
        (get_text_term fuel locale (simple (misc ((et_al_choice element).0) long_form)) false)

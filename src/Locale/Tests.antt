-- ===== src/Locale/Tests.antt =====
-- Two locales of a style and one file, merged for Austrian German.
use citeproc_rs.Base.{
  ◌≡◌, ◌==◌, if◌then◌else◌, true, false, none, some, refl, [], ◌∷◌, ℕ, List, Option,
}
use citeproc_rs.Base.Texts.{Text}
use citeproc_rs.Lang.{Lang, LocaleSource, iso, deutsch, english, at, iter}
use citeproc_rs.Terms.{misc, long_form, short_form, verb_short}
use citeproc_rs.Locale.{
  Locale, pluralized, default_locale, simple, get_text_term, and_misc, in_number, TermPlurality,
}
use citeproc_rs.Locale.Database.{
  LocaleDatabase, not_found, fetched, loaded, merge_all, merged_locale,
}
use citeproc_rs.Locale.Merged.{Nearest, merged_locale-Nearest}
use citeproc_rs.Locale.Looked.{searched, text_in, get_text_term-merge_all}

abbrev austrian : Lang
austrian = iso deutsch (some at)

abbrev with_and : Text → Locale ℕ
with_and t = record {
  version = [];
  lang = none;
  options_node = record { limit_day_ordinals_to_day_1 = none; punctuation_in_quote = some true };
  simple_terms = λ sel. elim sel as (λ _. Option TermPlurality) [
    | misc m form ↦ elim form [
      | long_form ↦ if m == and_misc then some (pluralized t (7 ∷ t)) else none
      | _ ↦ none
    ]
    | _ ↦ none
  ];
  gendered_terms = λ sel. none;
  ordinal_terms = none;
  role_terms = λ sel. none;
  dates = λ form. none;
}

-- the file of any language is its own parse, and there is one for American English only
abbrev database : LocaleDatabase ℕ ℕ
database = record {
  locale_input_langs = λ l. false;
  locale_input_xml = λ l. 0;
  fetch_string = λ l. elim l [
    | iso lang country ↦ elim lang [ english ↦ fetched 5 | _ ↦ not_found ]
    | _ ↦ not_found
  ];
  parse = λ x. some (with_and (x ∷ []));
  locale_overrides = λ key. elim key [ none ↦ some (with_and (1 ∷ [])) | some _ ↦ none ];
  style_locale = none;
  default_lang_override = none;
}

merged_locale-Nearest_example :
    (srcs : List LocaleSource) × (m : Locale ℕ) × (iter 3 austrian ≡ some srcs)
    × (merged_locale 3 database austrian ≡ some m)
    × Nearest (loaded database srcs) m
merged_locale-Nearest_example = merged_locale-Nearest database austrian 0

abbrev locales : List (Locale ℕ)
locales = default_locale ∷ with_and (1 ∷ []) ∷ with_and (5 ∷ []) ∷ []

get_text_term-merge_all_example :
    get_text_term 3 (merge_all locales) (simple (misc and_misc verb_short)) true
    ≡ some (text_in true (searched locales (simple (misc and_misc verb_short))))
get_text_term-merge_all_example =
    get_text_term-merge_all locales (simple (misc and_misc verb_short)) true 0

and_of_locales :
    get_text_term 3 (merge_all locales) (simple (misc and_misc short_form)) true
    ≡ some (some (7 ∷ 1 ∷ []))
unfolding get_text_term merge_all default_locale in_number
and_of_locales = refl

-- ===== src/Locale/Database.antt =====
-- The queries on locales of crates/db/src/xml.rs. The style, the stored locales, the fetcher and the
-- parser of locale files are fields of a record.
use citeproc_rs.Base.{if◌then◌else◌, none, some, [], ◌∷◌, ℕ, List, Option, Bool}
use citeproc_rs.Base.Reversed.{reversed}
use citeproc_rs.Base.Texts.{unwrap_or}
use citeproc_rs.Lang.{Lang, LocaleSource, inline, file, en_us, iter}
use citeproc_rs.Locale.{Locale, merge, default_locale}

-- what `fetch_string` returns
pub data Fetched (X : Type 0) : Type 0 where
  fetched : X → Fetched X
  not_found fetch_error : Fetched X

pub record LocaleDatabase (X : Type 0) (D : Type 0) : Type 0 where
  -- membership in `locale_input_langs`
  pub locale_input_langs : Lang → Bool
  pub locale_input_xml : Lang → X
  pub fetch_string : Lang → Fetched X
  -- `Locale::parse`, with `none` for an error
  pub parse : X → Option (Locale D)
  -- the locales of the style, and its language
  pub locale_overrides : Option Lang → Option (Locale D)
  pub style_locale : Option Lang
  pub default_lang_override : Option Lang

unfoldable pub fetched_text : {X : Type 0} → Fetched X → Option X
fetched_text (fetched s) = some s
fetched_text not_found = none
fetched_text fetch_error = none

unfoldable pub parsed : {X D : Type 0} → (X → Option (Locale D)) → Option X → Option (Locale D)
parsed parse none = none
parsed parse (some s) = parse s

-- one locale of the fold
unfoldable pub merge_onto : {D : Type 0} → Option (Locale D) → Locale D → Option (Locale D)
unfolding merge
merge_onto none l = some l
merge_onto (some base) l = some (merge base l)

unfoldable pub fold_locales : {D : Type 0} → Option (Locale D) → List (Locale D) → Option (Locale D)
unfolding merge_onto
fold_locales acc [] = acc
fold_locales acc (l ∷ ls) = fold_locales (merge_onto acc l) ls

-- the locales merged, the last one first
unfoldable pub merge_all : {D : Type 0} → List (Locale D) → Locale D
unfolding fold_locales default_locale
merge_all ls = unwrap_or default_locale (fold_locales none (reversed ls))

unfoldable pub push_some : {D : Type 0} → Option (Locale D) → List (Locale D) → List (Locale D)
push_some none ls = ls
push_some (some l) ls = l ∷ ls

module _ {X D : Type 0} where
  unfoldable pub default_lang : LocaleDatabase X D → Lang
  unfolding en_us
  default_lang db = unwrap_or (unwrap_or en_us db.style_locale) db.default_lang_override

  unfoldable pub locale_xml : LocaleDatabase X D → Lang → Option X
  unfolding fetched_text
  locale_xml db key =
      if db.locale_input_langs key
      then some (db.locale_input_xml key)
      else fetched_text (db.fetch_string key)

  unfoldable pub parsed_locale : LocaleDatabase X D → LocaleSource → Option (Locale D)
  unfolding parsed locale_xml
  parsed_locale db (file lang) = parsed db.parse (locale_xml db lang)
  parsed_locale db (inline lang) = db.locale_overrides lang

  -- the `filter_map` over the chain
  unfoldable pub loaded : LocaleDatabase X D → List LocaleSource → List (Locale D)
  unfolding push_some parsed_locale
  loaded db [] = []
  loaded db (src ∷ srcs) = push_some (parsed_locale db src) (loaded db srcs)

  -- with the chain, if the fuel was enough for it
  unfoldable pub merge_chain : LocaleDatabase X D → Option (List LocaleSource) → Option (Locale D)
  unfolding merge_all loaded
  merge_chain db none = none
  merge_chain db (some srcs) = some (merge_all (loaded db srcs))

  unfoldable pub merged_locale : ℕ → LocaleDatabase X D → Lang → Option (Locale D)
  unfolding merge_chain iter
  merged_locale fuel db key = merge_chain db (iter fuel key)

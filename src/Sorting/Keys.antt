-- ===== src/Sorting/Keys.antt =====
-- `ctx_sort_items` of crates/proc/src/sort.rs: the items of a reference or a cite, one for each key of
-- the style, and one more for a macro that renders the citation number.
use citeproc_rs.Base.{
  ℕ, Bool, Option, none, some, List, [], ◌∷◌, ◌++◌, ◌+◌, ◌-◌, ◌%◌, ◌^◌, is_empty, if◌then◌else◌,
}
use citeproc_rs.Base.Texts.{Text, or_option}
use citeproc_rs.Dates.{DateOrRange}
use citeproc_rs.YearSuffixes.{BibNumber}
use citeproc_rs.Sorting.{
  cited_only, SortDirection, ascending, descending, SortValue, macro_value, cnum_value,
  ordinary_value, number_value, names_value, date_value, SortItem, Demoting,
}
use citeproc_rs.Sorting.Natural.{Token, extract_citation_number}

pub data CiteOrBib : Type 0 where
  citation bibliography : CiteOrBib

-- SortSource, with the kinds of variables of AnyVariable
pub data SortSource : Type 0 where
  macro_source : ℕ → SortSource
  ordinary_variable : ℕ → SortSource
  citation_number_variable : SortSource
  number_variable : ℕ → SortSource
  name_variable : ℕ → SortSource
  date_variable : ℕ → SortSource

pub record SortKey : Type 0 where
  pub sort_source : SortSource
  pub names_min : Option ℕ
  pub names_use_first : Option ℕ
  pub names_use_last : Option Bool
  pub direction : Option SortDirection

-- what is read of one reference through its context
pub record Context (V : Type 0) (N : Type 0) : Type 0 where
  -- the sort string of a macro, for a key and a citation number
  pub macro_string : ℕ → SortKey → Option ℕ → Text
  pub tokens : Text → List Token
  pub get_ordinary : ℕ → Option V
  pub get_number : ℕ → Option N
  pub name_strings : ℕ → SortKey → CiteOrBib → Option (List V)
  pub get_date : ℕ → Option DateOrRange

-- `max_cnum + 1 - a` on u32
unfoldable pub mirrored : ℕ → Option ℕ → Option ℕ
mirrored max_cnum none = none
mirrored max_cnum (some a) = some (((max_cnum + 1) % 2 ^ 32 + 2 ^ 32 - a) % 2 ^ 32)

module _ {V N : Type 0} where
  -- the number to use for later citation-number keys, after an item of a bibliography
  unfoldable pub fake_after : ℕ → BibNumber → SortItem Text V N → Option ℕ → Option ℕ
  unfolding mirrored cited_only
  fake_after max_cnum a_cnum item fake = elim item.value as (λ _. Option ℕ) [
    | cnum_value (some _) ↦ elim item.direction as (λ _. Option ℕ) [
      | some descending ↦ mirrored max_cnum (cited_only a_cnum)
      | some ascending ↦ none
      | none ↦ fake
    ]
    | _ ↦ fake
  ]

  unfoldable pub push_item :
      CiteOrBib → ℕ → BibNumber → SortItem Text V N → Demoting Text V N → Demoting Text V N
  unfolding fake_after
  push_item citation max_cnum a_cnum item d = record d { items = d.items ++ item ∷ [] }
  push_item bibliography max_cnum a_cnum item d = record {
    fake_cnum = fake_after max_cnum a_cnum item d.fake_cnum;
    items = d.items ++ item ∷ [];
  }

  -- the citation number that a macro renders is an item of its own
  unfoldable pub push_cnum :
      CiteOrBib
      → ℕ
      → BibNumber
      → Option SortDirection
      → Option ℕ
      → Demoting Text V N
      → Demoting Text V N
  unfolding push_item
  push_cnum cite_or_bib max_cnum a_cnum d none acc = acc
  push_cnum cite_or_bib max_cnum a_cnum d (some cnum) acc =
      push_item cite_or_bib max_cnum a_cnum
        (record { direction = d; value = cnum_value (some cnum) }) acc

  -- the text of a macro that the key sorts by
  unfoldable pub string_of : Context V N → BibNumber → SortKey → Text
  unfolding cited_only
  string_of ctx a_cnum key = elim key.sort_source as (λ _. Text) [
    | macro_source name ↦ ctx.macro_string name key (cited_only a_cnum)
    | _ ↦ []
  ]

  -- the extra item of a key
  unfoldable pub cnum_of : Context V N → BibNumber → SortKey → Option ℕ
  unfolding string_of extract_citation_number
  cnum_of ctx a_cnum key = elim key.sort_source as (λ _. Option ℕ) [
    | macro_source _ ↦ extract_citation_number (ctx.tokens (string_of ctx a_cnum key))
    | _ ↦ none
  ]

  unfoldable pub value_of :
      Context V N → CiteOrBib → BibNumber → Option ℕ → SortKey → SortValue Text V N
  unfolding string_of cited_only
  value_of ctx cite_or_bib a_cnum fake key = elim key.sort_source as (λ _. SortValue Text V N) [
    | macro_source _ ↦
        let t = string_of ctx a_cnum key in macro_value (if is_empty t then none else some t)
    | ordinary_variable v ↦ ordinary_value (ctx.get_ordinary v)
    | citation_number_variable ↦ cnum_value (or_option fake (cited_only a_cnum))
    | number_variable v ↦ number_value (ctx.get_number v)
    | name_variable v ↦ names_value (ctx.name_strings v key cite_or_bib)
    | date_variable v ↦ date_value (ctx.get_date v)
  ]

  unfoldable pub sort_key_step :
      Context V N → CiteOrBib → BibNumber → ℕ → SortKey → Demoting Text V N → Demoting Text V N
  unfolding push_cnum push_item cnum_of value_of
  sort_key_step ctx cite_or_bib a_cnum max_cnum key acc =
      let with_cnum =
        push_cnum cite_or_bib max_cnum a_cnum key.direction (cnum_of ctx a_cnum key) acc in
      push_item cite_or_bib max_cnum a_cnum
        (record {
          direction = key.direction;
          value = value_of ctx cite_or_bib a_cnum with_cnum.fake_cnum key;
        })
        with_cnum

  unfoldable pub sort_keys_from :
      Context V N → CiteOrBib → BibNumber → ℕ → List SortKey → Demoting Text V N → Demoting Text V N
  unfolding sort_key_step
  sort_keys_from ctx cite_or_bib a_cnum max_cnum [] acc = acc
  sort_keys_from ctx cite_or_bib a_cnum max_cnum (key ∷ keys) acc =
      sort_keys_from ctx cite_or_bib a_cnum max_cnum keys
        (sort_key_step ctx cite_or_bib a_cnum max_cnum key acc)

  unfoldable pub ctx_sort_items :
      Context V N → CiteOrBib → BibNumber → List SortKey → ℕ → Demoting Text V N
  unfolding sort_keys_from
  ctx_sort_items ctx cite_or_bib a_cnum keys max_cnum =
      sort_keys_from ctx cite_or_bib a_cnum max_cnum keys (record { fake_cnum = none; items = [] })

-- ===== src/Layout.antt =====
-- crates/proc/src/cluster/layout.rs: the delimiters of a layout, and the texts of affixes. A text is a
-- list of codes; which codes are white space is a parameter.
pub mod Stream
pub mod Cluster
pub mod Tidy
pub mod Written
mod Tests
use citeproc_rs.Base.{
  ℕ, Bool, true, false, not, ◌&&◌, ◌||◌, Option, none, some, ◌==◌, List, [], ◌∷◌, ◌++◌, is_empty,
  if◌then◌else◌, last?,
}
use citeproc_rs.Base.Texts.{Text, trim, trim_start, trim_end, unwrap_or, or_option, starts_with}
use citeproc_rs.Collapse.{
  DelimKind, layout, cite_group, after_collapse, year_suffix_delim, range, and, CiteInCluster,
  CollapseMode,
}

pub data NameAnd : Type 0 where
  text symbol : NameAnd

-- the parts of csl::Layout that are read here; affixes and formatting are passed on as they are
pub record LayoutElement (A : Type 0) (F : Type 0) : Type 0 where
  pub affixes : Option A
  pub formatting : Option F
  pub delimiter : Option Text

-- csl::Citation
pub record Citation (A : Type 0) (F : Type 0) : Type 0 where
  pub layout : LayoutElement A F
  pub cite_group_delimiter : Option Text
  pub year_suffix_delimiter : Option Text
  pub after_collapse_delimiter : Option Text
  pub disambiguate_add_year_suffix : Bool
  pub collapse : Option CollapseMode

-- csl::InText
pub record InText (A : Type 0) (F : Type 0) : Type 0 where
  pub layout : LayoutElement A F
  pub name_and : Option NameAnd
  pub cite_group_delimiter : Option Text
  pub after_collapse_delimiter : Option Text

pub record LayoutDelimiters (A : Type 0) (F : Type 0) : Type 0 where
  pub cite_group : Text
  pub year_suffix : Text
  pub after_collapse : Text
  pub layout_delim : Text
  pub affixes : Option A
  pub formatting : Option F
  pub and_last_delimiter : Option Text

-- `filter(|x| !x.is_empty())`
unfoldable pub non_empty : Option Text → Option Text
non_empty none = none
non_empty (some t) = if is_empty t then none else some t

-- the text of `and`: the last argument is the locale's term for it
unfoldable pub and_text : (ℕ → Bool) → Option Text → NameAnd → Text
and_text ws and_term symbol = 32 ∷ 38 ∷ 32 ∷ []
and_text ws and_term text = (32 ∷ trim ws (unwrap_or (97 ∷ 110 ∷ 100 ∷ []) and_term)) ++ 32 ∷ []

unfoldable pub map_and : (ℕ → Bool) → Option Text → Option NameAnd → Option Text
unfolding and_text
map_and ws and_term none = none
map_and ws and_term (some x) = some (and_text ws and_term x)

module _ {A F : Type 0} where
  -- `LayoutDelimiters::delim`
  unfoldable pub delim_text : LayoutDelimiters A F → DelimKind → Option Text
  unfolding non_empty
  delim_text d cite_group = non_empty (some d.cite_group)
  delim_text d after_collapse = non_empty (some d.after_collapse)
  delim_text d year_suffix_delim = non_empty (some d.year_suffix)
  delim_text d layout = non_empty (some d.layout_delim)
  delim_text d range = some (8211 ∷ [])
  delim_text d and = d.and_last_delimiter

  unfoldable pub from_citation : Citation A F → LayoutDelimiters A F
  from_citation citation =
      let layout_opt = citation.layout.delimiter in
      record {
        cite_group = unwrap_or (44 ∷ 32 ∷ []) citation.cite_group_delimiter;
        year_suffix = unwrap_or [] (or_option citation.year_suffix_delimiter layout_opt);
        after_collapse = unwrap_or [] (or_option citation.after_collapse_delimiter layout_opt);
        layout_delim = unwrap_or [] layout_opt;
        affixes = citation.layout.affixes;
        formatting = citation.layout.formatting;
        and_last_delimiter = none;
      }

  unfoldable pub from_intext :
      (ℕ → Bool) → Option (InText A F) → Citation A F → Option Text → LayoutDelimiters A F
  unfolding from_citation map_and
  from_intext ws none citation and_term = record (from_citation citation) {
    affixes = none;
    formatting = none;
  }
  from_intext ws (some el) citation and_term =
      let base = from_citation citation in
      record {
        cite_group = unwrap_or base.cite_group el.cite_group_delimiter;
        year_suffix = base.year_suffix;
        after_collapse = unwrap_or base.after_collapse el.after_collapse_delimiter;
        layout_delim = unwrap_or base.layout_delim el.layout.delimiter;
        affixes = el.layout.affixes;
        formatting = el.layout.formatting;
        and_last_delimiter = map_and ws and_term el.name_and;
      }

unfoldable pub is_no_delim_punc : ℕ → Bool
is_no_delim_punc c = c == 44 || c == 46 || c == 63 || c == 33

-- `map_or(false, p)`
unfoldable pub holds : (ℕ → Bool) → Option ℕ → Bool
holds p none = false
holds p (some c) = p c

-- `chars().nth(0)`
unfoldable pub first_char : Text → Option ℕ
first_char [] = none
first_char (c ∷ _) = some c

unfoldable pub starts_punc : (ℕ → Bool) → Text → Bool
unfolding holds first_char is_no_delim_punc
starts_punc ws t = holds is_no_delim_punc (first_char (trim_start ws t))

unfoldable pub ends_punc : (ℕ → Bool) → Text → Bool
unfolding holds is_no_delim_punc
ends_punc ws t = holds is_no_delim_punc (last? (trim_end ws t))

-- crates/io/src/output/markup/move_punctuation.rs, `is_punc`
unfoldable pub is_punc : ℕ → Bool
is_punc c = c == 46 || c == 44 || c == 33 || c == 63 || c == 59 || c == 58

-- `suf_last_punc` of a last character
unfoldable pub is_last_punc : ℕ → Bool
is_last_punc c = c == 44 || c == 46 || c == 33 || c == 63 || c == 58

-- a prefix that is not empty ends with a space
unfoldable pub pad_prefix : Text → Text
unfolding holds
pad_prefix pre =
    if not (is_empty pre) && not (holds (λ c. c == 32) (last? pre)) then pre ++ 32 ∷ [] else pre

unfoldable pub space_before : Text → Text
unfolding holds first_char is_punc
space_before suf =
    if holds (λ c. not (c == 32) && not (is_punc c)) (first_char suf) then 32 ∷ suf else suf

unfoldable pub space_after : Text → Text
unfolding holds is_last_punc
space_after suf = if holds is_last_punc (last? suf) then suf ++ 32 ∷ [] else suf

-- the texts of `flatten_with_affixes`
unfoldable pub padded_prefix : {G : Type 0} → CiteInCluster G → Option Text
unfolding pad_prefix
padded_prefix c = if c.has_prefix then some (pad_prefix c.prefix) else none

unfoldable pub padded_suffix : {G : Type 0} → CiteInCluster G → Option Text
unfolding space_before space_after
padded_suffix c = if c.has_suffix then some (space_after (space_before c.suffix)) else none

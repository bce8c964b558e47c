-- ===== src/Names/Parts.antt =====
-- `pn_filtered_parts` of crates/proc/src/names.rs: the parts of a person's name in an order, without
-- those that are empty and without the separators that are left over.
use citeproc_rs.Base.{
  if◌then◌else◌, true, false, none, some, [], ◌∷◌, List, Option, Bool, not, any, is_empty,
}
use citeproc_rs.Base.Reversed.{reversed}
use citeproc_rs.Base.Texts.{Text}

pub data NamePartToken : Type 0 where
  given given_and_dropping given_and_both family family_full family_dropped : NamePartToken
  non_dropping_particle dropping_particle suffix sort_separator part_space : NamePartToken

pub record PersonName : Type 0 where
  pub family_name : Option Text
  pub given_name : Option Text
  pub non_dropping : Option Text
  pub dropping : Option Text
  pub name_suffix : Option Text
  pub is_latin_cyrillic : Bool

pub data DemoteNonDroppingParticle : Type 0 where
  never_demote sort_only display_and_sort : DemoteNonDroppingParticle

unfoldable pub get_display_order :
    Bool → Bool → Bool → DemoteNonDroppingParticle → List NamePartToken
get_display_order false true naso demote = family ∷ given ∷ []
get_display_order false false naso demote = family ∷ []
get_display_order true false naso demote = family_dropped ∷ []
get_display_order true true false demote = given ∷ part_space ∷ family_full ∷ []
get_display_order true true true display_and_sort =
    family ∷ sort_separator ∷ given_and_both ∷ sort_separator ∷ suffix ∷ []
get_display_order true true true _ =
    family_dropped ∷ sort_separator ∷ given_and_dropping ∷ sort_separator ∷ suffix ∷ []

unfoldable pub get_sort_order : Bool → Bool → DemoteNonDroppingParticle → List (List NamePartToken)
get_sort_order false true demote = (family ∷ []) ∷ (given ∷ []) ∷ []
get_sort_order false false demote = (family ∷ []) ∷ []
get_sort_order true is_long never_demote =
    (non_dropping_particle ∷ family ∷ [])
    ∷ (dropping_particle ∷ [])
    ∷ (given ∷ [])
    ∷ (suffix ∷ [])
    ∷ []
get_sort_order true is_long _ =
    (family ∷ [])
    ∷ (dropping_particle ∷ non_dropping_particle ∷ [])
    ∷ (given ∷ [])
    ∷ (suffix ∷ [])
    ∷ []

unfoldable pub not_delim : NamePartToken → Bool
not_delim sort_separator = false
not_delim part_space = false
not_delim _ = true

-- `map_or(false, |s| !s.is_empty())`
unfoldable pub has_text : Option Text → Bool
has_text none = false
has_text (some t) = not (is_empty t)

unfoldable pub pn_filter_part : PersonName → NamePartToken → Bool
unfolding has_text
pn_filter_part pn given = has_text pn.given_name
pn_filter_part pn given_and_dropping = has_text pn.given_name
pn_filter_part pn given_and_both = has_text pn.given_name
pn_filter_part pn family = has_text pn.family_name
pn_filter_part pn family_dropped = has_text pn.family_name
pn_filter_part pn family_full = has_text pn.family_name
pn_filter_part pn non_dropping_particle = has_text pn.non_dropping
pn_filter_part pn dropping_particle = has_text pn.dropping
pn_filter_part pn suffix = has_text pn.name_suffix
pn_filter_part pn part_space = true
pn_filter_part pn sort_separator = true

-- `filter`
unfoldable pub keep_parts : (NamePartToken → Bool) → List NamePartToken → List NamePartToken
keep_parts p [] = []
keep_parts p (t ∷ ts) = let rest = keep_parts p ts in if p t then t ∷ rest else rest

-- up to the last part that is no separator, or all of them where there is none
unfoldable pub up_to_last_part : List NamePartToken → List NamePartToken
unfolding not_delim
up_to_last_part [] = []
up_to_last_part (t ∷ ts) =
    let rest = up_to_last_part ts in
    if any not_delim ts then t ∷ rest else if not_delim t then t ∷ [] else t ∷ ts

-- a turn of the fold, with the last token that was kept first
unfoldable pub push_part : List NamePartToken → NamePartToken → List NamePartToken
push_part [] part_space = []
push_part [] sort_separator = []
push_part (part_space ∷ acc) part_space = part_space ∷ acc
push_part (sort_separator ∷ acc) sort_separator = sort_separator ∷ acc
push_part (sort_separator ∷ acc) part_space = sort_separator ∷ acc
push_part (part_space ∷ acc) sort_separator = sort_separator ∷ acc
push_part acc t = t ∷ acc

unfoldable pub fold_parts : List NamePartToken → List NamePartToken → List NamePartToken
unfolding push_part
fold_parts acc [] = acc
fold_parts acc (t ∷ ts) = fold_parts (push_part acc t) ts

unfoldable pub pn_filtered_parts : PersonName → List NamePartToken → List NamePartToken
unfolding keep_parts pn_filter_part up_to_last_part fold_parts
pn_filtered_parts pn order =
    reversed (fold_parts [] (up_to_last_part (keep_parts (pn_filter_part pn) order)))

-- ===== src/Names/Tests.antt =====
-- Lists of five names, and the parts of two names.
use citeproc_rs.Base.{
  ◌&&◌, ◌≡◌, if◌then◌else◌, ◌<◌, true, false, none, some, refl, [], ◌∷◌, ℕ, length, List, Option,
}
use citeproc_rs.Base.Reversed.{first_ok, last_ok, neighbours}
use citeproc_rs.Position.{Position, first, subsequent}
use citeproc_rs.Position
use citeproc_rs.Layout.{symbol}
use citeproc_rs.Names.{
  OneNameVar, name, ellipsis, delimiter, and_token, space, name_tokens, ea_use_first, count_from,
}
use citeproc_rs.Names.Parts.{
  NamePartToken, given, family_dropped, sort_separator, suffix, PersonName, pn_filtered_parts,
  pn_filter_part, keep_parts, not_delim,
}
use citeproc_rs.Names.Shown.{abbreviated, names_left, names_of, name_tokens-names}
use citeproc_rs.Names.Marked.{name_tokens-marks}
use citeproc_rs.Names.Trimmed.{apart_ok, pn_filtered_parts-trimmed}

abbrev three_of_four : OneNameVar
three_of_four = record {
  name_el = record {
    and_of = some symbol;
    delimiter_precedes_et_al = none;
    delimiter_precedes_last = none;
    et_al_min = some 4;
    et_al_use_first = some 3;
    et_al_use_last = some true;
    et_al_subsequent_min = none;
    et_al_subsequent_use_first = some 1;
    name_as_sort_order = none;
  };
  bump_name_count = 0;
}

abbrev term : Option ℕ
term = some 9

-- the first three names and the last, or the first one where the cite is a later one
tokens_of_five :
    (name_tokens three_of_four first 5 false term
      ≡ name 0
        ∷ delimiter
        ∷ name 1
        ∷ delimiter
        ∷ name 2
        ∷ delimiter
        ∷ ellipsis
        ∷ space
        ∷ name 4
        ∷ [])
    × (name_tokens three_of_four subsequent 2 false term ≡ name 0 ∷ space ∷ and_token ∷ name 1 ∷ [])
unfolding name_tokens Position.same
tokens_of_five = (refl, refl)

name_tokens-names_example : names_of (name_tokens three_of_four first 5 false term) ≡ (
    if abbreviated three_of_four first 5
    then names_left three_of_four (ea_use_first three_of_four first) 5
    else count_from 0 5)
name_tokens-names_example = name_tokens-names three_of_four first 5 false term

name_tokens-marks_example : length (names_of (name_tokens three_of_four first 5 false term)) < 5
name_tokens-marks_example =
    name_tokens-marks three_of_four first 5 false term (unfold name_tokens Position.same in refl)

-- a name with a family part and a suffix
abbrev no_given : PersonName
no_given = record {
  family_name = some (77 ∷ []);
  given_name = none;
  non_dropping = none;
  dropping = none;
  name_suffix = some (73 ∷ []);
  is_latin_cyrillic = true;
}

abbrev inverted : List NamePartToken
inverted = family_dropped ∷ sort_separator ∷ given ∷ sort_separator ∷ suffix ∷ []

pn_filtered_parts-trimmed_example :
    (keep_parts not_delim (pn_filtered_parts no_given inverted)
      ≡ keep_parts (λ t. not_delim t && pn_filter_part no_given t) inverted)
    × (first_ok not_delim (pn_filtered_parts no_given inverted) ≡ true)
    × (last_ok not_delim (pn_filtered_parts no_given inverted) ≡ true)
    × (neighbours apart_ok (pn_filtered_parts no_given inverted) ≡ true)
pn_filtered_parts-trimmed_example = pn_filtered_parts-trimmed no_given inverted

one_separator : pn_filtered_parts no_given inverted ≡ family_dropped ∷ sort_separator ∷ suffix ∷ []
unfolding pn_filtered_parts
one_separator = refl

-- ===== src/Layout/Tests.antt =====
-- Streams of concrete cites: the theorems on them, and texts that are written out. Code 32 alone is
-- white space here, and a text is rendered as itself.
use citeproc_rs.Base.{
  ℕ, Bool, true, false, none, some, List, [], ◌∷◌, ◌++◌, ◌≡◌, refl, map, ◌==◌, ◌||◌, is_empty,
}
use citeproc_rs.Base.Reversed.{neighbours, first_ok, last_ok}
use citeproc_rs.Base.Runs.{concat}
use citeproc_rs.Base.Texts.{Text}
use citeproc_rs.Collapse.{CiteInCluster, new, year_suffix_mode, year_mode, layout}
use citeproc_rs.Collapse.Names.{group_by_name}
use citeproc_rs.Collapse.Suffixes.{collapse_cites}
use citeproc_rs.Layout.{Citation, InText, symbol, from_intext, starts_punc, ends_punc, delim_text}
use citeproc_rs.Layout.Stream.{Chunk, finished, finish, write_interspersed}
use citeproc_rs.Layout.Cluster.{
  Rendering, write_cites, in_text_class, built_cluster, group_collapsing,
}
use citeproc_rs.Layout.Tidy.{shape, may_follow, may_open, may_close, finished-tidy}
use citeproc_rs.Layout.Written.{cites_of, to_citation, finished-to_citation}

abbrev is_space : ℕ → Bool
is_space c = c == 32

abbrev is_mark : ℕ → Bool
is_mark c = c == 44 || c == 46

-- a tree is its text
abbrev rendering : Rendering Text Text Text ℕ
rendering = record {
  tree = record {
    suppress_names = λ g. g;
    suppress_year = λ g. g;
    first_names = λ g. none;
    year_and_suffix = λ g. none;
    find_locator = λ g. false;
  };
  format = record {
    ingest = λ t. t;
    plain = λ t. t;
    seq = λ bs. concat bs;
    affixed = λ b a. elim a as (λ _. Text) [ none ↦ b | some t ↦ t ++ (b ++ t) ];
    with_format = λ b f. b;
    is_empty_build = λ b. is_empty b;
  };
  is_whitespace = is_space;
  is_punctuation = is_mark;
  flatten_or_plain = λ g. g;
  root = λ g. 0;
  flatten_node = λ g n. some g;
  ends_with_full_stop = λ t. false;
  capitalize_first_term = λ g. g;
  apply_modes = λ mode cs. cs;
  no_printed_form = 63 ∷ [];
}

-- a cite with the suffix `p.`, a plain one, and one with the prefix `, s`
abbrev three : List (CiteInCluster Text)
unfolding new
three =
    new rendering.tree 1 none (some (112 ∷ 46 ∷ [])) (some 1) false (65 ∷ [])
    ∷ new rendering.tree 2 none none (some 2) false (66 ∷ [])
    ∷ new rendering.tree 3 (some (44 ∷ 32 ∷ 115 ∷ [])) none (some 3) false (67 ∷ [])
    ∷ []

abbrev shapes_of_three : List (Chunk Text)
shapes_of_three = finished is_space none (write_cites rendering three [])

finished-tidy_example :
    (neighbours may_follow (map shape shapes_of_three) ≡ true)
    × ((first_ok may_open (map shape shapes_of_three) ≡ true)
        × (last_ok may_close (map shape shapes_of_three) ≡ true))
finished-tidy_example = finished-tidy rendering none three

finished-to_citation_example : cites_of shapes_of_three ≡ to_citation rendering three
finished-to_citation_example = finished-to_citation rendering none three

abbrev semicolons : Citation Text ℕ
semicolons = record {
  layout = record { affixes = none; formatting = none; delimiter = some (59 ∷ []) };
  cite_group_delimiter = none;
  year_suffix_delimiter = none;
  after_collapse_delimiter = none;
  disambiguate_add_year_suffix = false;
  collapse = some year_suffix_mode;
}

-- collapsing by year suffixes without year suffixes is collapsing by years
falls_back : group_collapsing semicolons ≡ some (some year_mode)
unfolding group_collapsing
falls_back = refl

-- `A p. B, s C`: a delimiter neither after a suffix that ends with a full stop nor before a prefix
-- that starts with a comma
no_delim_by_punctuation :
    built_cluster rendering semicolons none in_text_class none none (some three)
    ≡ 65 ∷ 32 ∷ 112 ∷ 46 ∷ 32 ∷ 66 ∷ 44 ∷ 32 ∷ 115 ∷ 32 ∷ 67 ∷ []
unfolding built_cluster finish from_intext write_interspersed collapse_cites group_by_name three
    starts_punc ends_punc
no_delim_by_punctuation = refl

abbrev with_ampersand : InText Text ℕ
with_ampersand = record {
  layout = record { affixes = none; formatting = none; delimiter = none };
  name_and = some symbol;
  cite_group_delimiter = none;
  after_collapse_delimiter = none;
}

-- the last delimiter of the text is the ampersand: `A;B & C`
ampersand_last :
    finish is_space rendering.format
      (from_intext is_space (some with_ampersand) semicolons none)
      (write_interspersed layout ((65 ∷ []) ∷ (66 ∷ []) ∷ (67 ∷ []) ∷ []) [])
    ≡ some (65 ∷ 59 ∷ 66 ∷ 32 ∷ 38 ∷ 32 ∷ 67 ∷ [])
unfolding finish from_intext write_interspersed delim_text
ampersand_last = refl

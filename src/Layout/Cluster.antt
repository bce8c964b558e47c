-- ===== src/Layout/Cluster.antt =====
-- `built_cluster_before_output` of crates/proc/src/cluster.rs: the cites of a cluster are grouped,
-- collapsed and written to the two streams. What it asks of the rendered trees, of the output format
-- and of the transformations of trees (crates/proc/src/ir/transforms.rs) is a record.
use citeproc_rs.Base.{
  ℕ, Bool, true, false, ◌||◌, Option, none, some, ◌==◌, List, [], ◌∷◌, ◌++◌, if◌then◌else◌, last?,
  is_some,
}
use citeproc_rs.Base.Runs.{group_by}
use citeproc_rs.Base.Texts.{Text, unwrap_or}
use citeproc_rs.Collapse.{
  CiteInCluster, Tree, WhichStream, nowhere, main_to_citation, main_to_intext,
  main_to_citation_plus_intext, layout, CollapseMode, year_mode, year_suffix_mode,
  year_suffix_ranged, same_name,
}
use citeproc_rs.Collapse.Names.{group_by_name}
use citeproc_rs.Collapse.Suffixes.{collapse_cites}
use citeproc_rs.Layout.{
  Citation, InText, from_citation, from_intext, holds, padded_prefix, padded_suffix,
}
use citeproc_rs.Layout.Stream.{Chunk, Format, write_cite, write_delim, write_interspersed, finish}

pub data ClusterMode : Type 0 where
  author_only : ClusterMode
  suppress_author : ℕ → ClusterMode
  composite : Option Text → ℕ → ClusterMode

pub data StyleClass : Type 0 where
  in_text_class note_class : StyleClass

pub record Rendering (G : Type 0) (B : Type 0) (A : Type 0) (F : Type 0) : Type 0 where
  pub tree : Tree G
  pub format : Format B A F
  pub is_whitespace : ℕ → Bool
  pub is_punctuation : ℕ → Bool
  -- `flatten_or_plain`, of the whole tree
  pub flatten_or_plain : G → B
  pub root : G → ℕ
  -- `with_node(node).flatten`
  pub flatten_node : G → ℕ → Option B
  -- `ends_with_full_stop` of the parsed text
  pub ends_with_full_stop : Text → Bool
  pub capitalize_first_term : G → G
  -- `apply_cluster_mode`, or `apply_cite_modes` where the cluster has no mode
  pub apply_modes : Option ClusterMode → List (CiteInCluster G) → List (CiteInCluster G)
  -- `CLUSTER_NO_PRINTED_FORM`
  pub no_printed_form : Text

-- `col.map(Some)`
unfoldable pub collapsing_only : Option CollapseMode → Option (Option CollapseMode)
collapsing_only none = none
collapsing_only (some m) = some (some m)

-- the destinations that are written to the citation
unfoldable pub in_citation : WhichStream → Bool
in_citation nowhere = false
in_citation (main_to_intext _) = false
in_citation main_to_citation = true
in_citation (main_to_citation_plus_intext _) = true

module _ {A F : Type 0} where
  unfoldable pub collapse_fallback : Citation A F → Option CollapseMode
  collapse_fallback c = elim c.collapse as (λ _. Option CollapseMode) [
    | some year_suffix_mode ↦
        if c.disambiguate_add_year_suffix then some year_suffix_mode else some year_mode
    | some year_suffix_ranged ↦
        if c.disambiguate_add_year_suffix then some year_suffix_ranged else some year_mode
    | x ↦ x
  ]

  unfoldable pub group_collapsing : Citation A F → Option (Option CollapseMode)
  unfolding collapse_fallback collapsing_only
  group_collapsing c =
      if is_some c.cite_group_delimiter
      then some (collapse_fallback c)
      else collapsing_only (collapse_fallback c)

unfoldable pub group_if :
    {G : Type 0}
    → Tree G
    → Option (Option CollapseMode)
    → List (CiteInCluster G)
    → List (CiteInCluster G)
group_if tree none irs = irs
group_if tree (some collapse) irs = group_by_name tree collapse irs

unfoldable pub collapse_if :
    {G : Type 0}
    → Tree G
    → Option (Option CollapseMode)
    → List (CiteInCluster G)
    → List (CiteInCluster G)
collapse_if tree (some (some collapse)) irs = collapse_cites tree collapse irs
collapse_if tree _ irs = irs

-- the infix, before it is parsed
unfoldable pub end_with_space : Text → Text
unfolding holds
end_with_space t = if holds (λ c. c == 32) (last? t) then t else t ++ 32 ∷ []

unfoldable pub curl_quote : Text → Text
curl_quote [] = []
curl_quote (c ∷ cs) = (if c == 39 then 8217 else c) ∷ cs

unfoldable pub start_with_space : (ℕ → Bool) → Text → Text
start_with_space punc [] = []
start_with_space punc (c ∷ cs) = if c == 32 || punc c then c ∷ cs else 32 ∷ c ∷ cs

unfoldable pub composite_infix : (ℕ → Bool) → Option Text → Text
unfolding end_with_space curl_quote start_with_space
composite_infix punc words =
    start_with_space punc (curl_quote (end_with_space (unwrap_or (32 ∷ []) words)))

-- the infix that a mode asks for
unfoldable pub infix_of : Option ClusterMode → Bool → Option (Option Text)
infix_of (some (composite words _)) in_citation = some words
infix_of none in_citation = if in_citation then some (some (32 ∷ [])) else none
infix_of (some author_only) in_citation = none
infix_of (some (suppress_author _)) in_citation = none

unfoldable pub option_list : {B : Type 0} → Option B → List B
option_list none = []
option_list (some b) = b ∷ []

module _ {G B A F : Type 0} where
  unfoldable pub capitalize_cites :
      Rendering G B A F → Bool → List (CiteInCluster G) → List (CiteInCluster G)
  capitalize_cites r first [] = []
  capitalize_cites r first (c ∷ cs) =
      (if (if c.has_prefix then r.ends_with_full_stop c.prefix else first)
        then record c { gen4 = r.capitalize_first_term c.gen4 }
        else c)
      ∷ capitalize_cites r false cs

  unfoldable pub capitalize_for :
      Rendering G B A F → StyleClass → List (CiteInCluster G) → List (CiteInCluster G)
  unfolding capitalize_cites
  capitalize_for r in_text_class irs = irs
  capitalize_for r note_class irs = capitalize_cites r true irs

  -- `write_flat`, without an overriding delimiter
  unfoldable pub write_flat : Rendering G B A F → CiteInCluster G → List (Chunk B) → List (Chunk B)
  unfolding write_cite write_delim padded_prefix padded_suffix
  write_flat r c chunks = write_delim r.is_whitespace c.own_delimiter (
      write_cite r.is_whitespace (padded_prefix c) (r.flatten_or_plain c.gen4) (padded_suffix c)
        chunks)

  unfoldable pub write_cites :
      Rendering G B A F → List (CiteInCluster G) → List (Chunk B) → List (Chunk B)
  unfolding write_flat in_citation
  write_cites r [] chunks = chunks
  write_cites r (c ∷ cs) chunks =
      write_cites r cs (if in_citation c.destination then write_flat r c chunks else chunks)

  -- the node of a cite that goes to the text, if it goes there
  unfoldable pub intext_node : Rendering G B A F → CiteInCluster G → Option (Option ℕ)
  intext_node r c = elim c.destination as (λ _. Option (Option ℕ)) [
    | main_to_intext success ↦ some (if success then some (r.root c.gen4) else none)
    | main_to_citation_plus_intext node ↦ some node
    | nowhere ↦ none
    | main_to_citation ↦ none
  ]

  -- `opt_node.and_then(…)`
  unfoldable pub flatten_opt : Rendering G B A F → G → Option ℕ → Option B
  flatten_opt r g none = none
  flatten_opt r g (some node) = r.flatten_node g node

  unfoldable pub intext_author : Rendering G B A F → CiteInCluster G → Option B
  unfolding intext_node flatten_opt
  intext_author r c = elim (intext_node r c) as (λ _. Option B) [
    | none ↦ none
    | some node ↦ some (unwrap_or (r.format.plain r.no_printed_form) (flatten_opt r c.gen4 node))
  ]

  -- of the first of each run of the same name
  unfoldable pub intext_authors : Rendering G B A F → List (List (CiteInCluster G)) → List B
  unfolding intext_author option_list
  intext_authors r [] = []
  intext_authors r ([] ∷ runs) = intext_authors r runs
  intext_authors r ((c ∷ _) ∷ runs) = option_list (intext_author r c) ++ intext_authors r runs

  unfoldable pub render_composite_infix : Rendering G B A F → Option (Option Text) → Option B
  unfolding composite_infix
  render_composite_infix r none = none
  render_composite_infix r (some words) =
      some (r.format.ingest (composite_infix r.is_punctuation words))

  -- the text and the citation put together
  unfoldable pub combine : Rendering G B A F → Option ClusterMode → Option B → Option B → B
  unfolding option_list infix_of render_composite_infix
  combine r mode none none = r.format.plain r.no_printed_form
  combine r mode none (some citation_final) = r.format.seq (citation_final ∷ [])
  combine r mode (some intext_final) citation_final =
      let words = render_composite_infix r (infix_of mode (is_some citation_final)) in
      r.format.seq (intext_final ∷ (option_list words ++ option_list citation_final))

  -- the cites, after they are grouped, transformed, collapsed and capitalised
  unfoldable pub arranged :
      Rendering G B A F
      → Citation A F
      → StyleClass
      → Option ClusterMode
      → List (CiteInCluster G)
      → List (CiteInCluster G)
  unfolding group_collapsing group_if collapse_if capitalize_for
  arranged r citation class mode irs =
      let grouped = group_if r.tree (group_collapsing citation) irs in
      let changed = r.apply_modes mode grouped in
      capitalize_for r class (collapse_if r.tree (group_collapsing citation) changed)

  -- `and_term` is the term of the default locale
  unfoldable pub built_cluster :
      Rendering G B A F
      → Citation A F
      → Option (InText A F)
      → StyleClass
      → Option Text
      → Option ClusterMode
      → Option (List (CiteInCluster G))
      → B
  unfolding arranged write_cites intext_authors combine
  built_cluster r citation intext class and_term mode none = r.format.plain []
  built_cluster r citation intext class and_term mode (some cites) =
      let irs = arranged r citation class mode cites in
      let ws = r.is_whitespace in
      let authors = intext_authors r (group_by same_name irs) in
      let citation_final = finish ws r.format (from_citation citation) (write_cites r irs []) in
      let intext_final =
        finish ws r.format (from_intext ws intext citation and_term)
          (write_interspersed layout authors []) in
      combine r mode intext_final citation_final

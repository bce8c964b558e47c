-- ===== src/Collapse.antt =====
-- crates/proc/src/cluster.rs: the cites of a cluster, and the data by which they are collapsed. The
-- rendered tree of a cite is of any type; rendered texts are told apart by numbers.
mod Tests
pub mod Numbers
pub mod Years
pub mod Suffixes
pub mod Names
pub mod Payload
pub mod Visible
use citeproc_rs.Base.{
  ℕ, ◌+◌, ◌%◌, ◌^◌, Bool, true, false, not, ◌&&◌, ◌||◌, Option, none, some, ◌==◌, List, [], ◌∷◌,
}

-- A value that equals nothing when it is not filled.
pub data Partial (T : Type 0) : Type 0 where
  incomparable : Partial T
  filled : T → Partial T

module _ {T : Type 0} where
  unfoldable pub from_option : Option T → Partial T
  from_option none = incomparable
  from_option (some x) = filled x

  -- `filter`
  unfoldable pub enable : Bool → Partial T → Partial T
  enable true (filled t) = filled t
  enable _ _ = incomparable

  -- `PartialEq::eq`, by the equality of the values
  unfoldable pub same_by : (T → T → Bool) → Partial T → Partial T → Bool
  same_by eq (filled a) (filled b) = eq a b
  same_by eq _ _ = false

-- `==` on filled numbers
unfoldable pub same : Partial ℕ → Partial ℕ → Bool
unfolding same_by
same a b = same_by ◌==◌ a b

-- `.map(|x| x + 1)` on u32
unfoldable pub plus_one : Partial ℕ → Partial ℕ
plus_one incomparable = incomparable
plus_one (filled x) = filled ((x + 1) % 2 ^ 32)

pub data DelimKind : Type 0 where
  layout cite_group after_collapse year_suffix_delim range and : DelimKind

pub data WhichStream : Type 0 where
  nowhere main_to_citation : WhichStream
  main_to_intext : Bool → WhichStream
  main_to_citation_plus_intext : Option ℕ → WhichStream

-- crates/csl/src/style/mod.rs
pub data CollapseMode : Type 0 where
  citation_number year_mode year_suffix_mode year_suffix_ranged : CollapseMode

pub record CiteInCluster (G : Type 0) : Type 0 where
  pub cite_id : ℕ
  pub has_prefix : Bool
  pub has_suffix : Bool
  pub prefix : List ℕ
  pub suffix : List ℕ
  pub cnum : Partial ℕ
  pub gen4 : G
  pub destination : WhichStream
  pub unique_name_number : Partial ℕ
  pub year : Partial ℕ
  pub year_suffix : Partial ℕ
  pub has_locator : Bool
  pub has_locator_or_affixes : Bool
  pub own_delimiter : Option DelimKind

-- the operations of the rendered tree that the collapsing calls
pub record Tree (G : Type 0) : Type 0 where
  pub suppress_names : G → G
  pub suppress_year : G → G
  -- the text of the first names block
  pub first_names : G → Option ℕ
  -- the text of the first year, and its suffix
  pub year_and_suffix : G → Option (ℕ × ℕ)
  pub find_locator : G → Bool

module _ {G : Type 0} where
  -- `cite.has_affix()`
  unfoldable pub has_affix : CiteInCluster G → Bool
  has_affix c = c.has_prefix || c.has_suffix

  -- `CiteInCluster::new`; the flag is `cite.locators.is_some()`
  unfoldable pub new :
      Tree G → ℕ → Option (List ℕ) → Option (List ℕ) → Option ℕ → Bool → G → CiteInCluster G
  unfolding from_option
  new tree id pre suf cnum locators gen4 =
      let has_pre = elim pre as (λ _. Bool) [ none ↦ false | some _ ↦ true ] in
      let has_suf = elim suf as (λ _. Bool) [ none ↦ false | some _ ↦ true ] in
      let located = locators && tree.find_locator gen4 in
      record {
        cite_id = id;
        has_prefix = has_pre;
        has_suffix = has_suf;
        prefix = elim pre as (λ _. List ℕ) [ none ↦ [] | some t ↦ t ];
        suffix = elim suf as (λ _. List ℕ) [ none ↦ [] | some t ↦ t ];
        cnum = from_option cnum;
        gen4 = gen4;
        destination = main_to_citation;
        unique_name_number = incomparable;
        year = incomparable;
        year_suffix = incomparable;
        has_locator = located;
        has_locator_or_affixes = located || (has_pre || has_suf);
        own_delimiter = some layout;
      }

  -- `a.by_name() == b.by_name()`
  unfoldable pub same_name : CiteInCluster G → CiteInCluster G → Bool
  unfolding same
  same_name a b = same a.unique_name_number b.unique_name_number

  -- `a.isolate_loc_affix() == b.isolate_loc_affix()`
  unfoldable pub neither_isolated : CiteInCluster G → CiteInCluster G → Bool
  neither_isolated a b = not a.has_locator_or_affixes && not b.has_locator_or_affixes

  unfoldable pub set_delim : DelimKind → CiteInCluster G → CiteInCluster G
  set_delim d c = record c { own_delimiter = some d }

  -- `destination = WhichStream::Nowhere`
  unfoldable pub hide : CiteInCluster G → CiteInCluster G
  hide c = record c { destination = nowhere }

-- ===== src/Collapse/Names.antt =====
-- `group_by_name`: cites whose names are the same text are brought together and numbered.
pub mod Kept
use citeproc_rs.Base.{
  ℕ, zero, suc, ◌+◌, ◌-◌, ◌%◌, ◌^◌, Bool, true, false, not, ◌&&◌, ◌||◌, List, [], ◌∷◌, ◌++◌, Option,
  none, some, ◌==◌, if◌then◌else◌, map, length, get_elem?, ltb,
}
use citeproc_rs.Base.Runs.{group_by, concat}
use citeproc_rs.Collapse.{
  CiteInCluster, Tree, Partial, filled, DelimKind, layout, cite_group, after_collapse, has_affix,
  same_name, set_delim, CollapseMode, citation_number, year_mode, year_suffix_mode,
  year_suffix_ranged,
}
use citeproc_rs.Collapse.Suffixes.{set_last_delim}

module _ {ℓ} {A : Type ℓ} where
  -- `xs[i]` is changed
  abbrev pub update : ℕ → (A → A) → List A → List A
  update i f [] = []
  update zero f (x ∷ xs) = f x ∷ xs
  update (suc i) f (x ∷ xs) = x ∷ update i f xs

  abbrev pub remove : ℕ → List A → List A
  remove i [] = []
  remove zero (x ∷ xs) = xs
  remove (suc i) (x ∷ xs) = x ∷ remove i xs

  -- `xs[..n + 1].rotate_right(1)`
  abbrev pub pull : ℕ → List A → List A
  pull n xs = elim (get_elem? xs n) as (λ _. List A) [ none ↦ xs | some y ↦ y ∷ remove n xs ]

  -- `xs[lo..hi + 1].rotate_right(1)`, by `lo` and `hi - lo`
  abbrev pub rotate : ℕ → ℕ → List A → List A
  rotate zero n xs = pull n xs
  rotate (suc lo) n [] = []
  rotate (suc lo) n (x ∷ xs) = x ∷ rotate lo n xs

-- a test of the item at an index, if there is one
abbrev pub test_at {ℓ} : {A : Type ℓ} → (A → Bool) → Option A → Bool
test_at p none = false
test_at p (some x) = p x

-- keys of the map: the text of the names, if the cite has a names block
abbrev pub same_key : Option ℕ → Option ℕ → Bool
same_key none none = true
same_key (some a) (some b) = a == b
same_key _ _ = false

-- where the last cite of a name is, whether it was seen since, and the name's number
abbrev pub Seen : Type 0
Seen = ℕ × (Bool × Partial ℕ)

abbrev pub remember : Option ℕ → Seen → (Option ℕ → Option Seen) → Option ℕ → Option Seen
remember k v m j = if same_key k j then some v else m j

-- names are numbered for every mode but that of citation numbers
unfoldable pub numbers_names : Option CollapseMode → Bool
numbers_names (some citation_number) = false
numbers_names _ = true

unfoldable pub last_delim_for : Option CollapseMode → DelimKind
last_delim_for none = layout
last_delim_for (some _) = after_collapse

pub record Grouping (G : Type 0) : Type 0 where
  pub cites : List (CiteInCluster G)
  pub same_names : Option ℕ → Option Seen
  pub unique_name : ℕ

module _ {G : Type 0} where
  unfoldable pub has_suffix_at : List (CiteInCluster G) → ℕ → Bool
  has_suffix_at cites i = test_at (λ c. c.has_suffix) (get_elem? cites i)

  unfoldable pub has_affix_at : List (CiteInCluster G) → ℕ → Bool
  unfolding has_affix
  has_affix_at cites i = test_at has_affix (get_elem? cites i)

  unfoldable pub has_prefix_at : List (CiteInCluster G) → ℕ → Bool
  has_prefix_at cites i = test_at (λ c. c.has_prefix) (get_elem? cites i)

  -- an affix on or next to one of two cites keeps them apart
  unfoldable pub separated : List (CiteInCluster G) → ℕ → ℕ → Bool
  unfolding has_suffix_at has_affix_at has_prefix_at
  separated cites oix ix =
      has_suffix_at cites (oix - 1)
      || has_affix_at cites oix
      || has_prefix_at cites (oix + 1)
      || has_suffix_at cites (ix - 1)
      || has_affix_at cites ix
      || has_prefix_at cites (ix + 1)

  unfoldable pub set_name_number : Partial ℕ → CiteInCluster G → CiteInCluster G
  set_name_number n c = record c { unique_name_number = n }

  -- `and_modify`
  unfoldable pub seen_again : Option ℕ → Seen → ℕ → Grouping G → Grouping G
  unfolding separated set_name_number
  seen_again rendered (oix, (seen_local, number)) ix st =
      let cites = update ix (set_name_number number) st.cites in
      if separated cites oix ix
      then record st {
        cites = cites;
        same_names = remember rendered (ix, (false, number)) st.same_names;
      }
      else if ltb oix ix
      then record st {
        cites = rotate (oix + 1) (ix - (oix + 1)) cites;
        same_names = remember rendered (oix + 1, (true, number)) st.same_names;
      }
      else record st { cites = cites }

  -- `or_insert_with`
  unfoldable pub seen_first : Option ℕ → ℕ → Grouping G → Grouping G
  unfolding set_name_number
  seen_first rendered ix st =
      let number = filled st.unique_name in
      record {
        cites = update ix (set_name_number number) st.cites;
        same_names = remember rendered (ix, (true, number)) st.same_names;
        unique_name = (st.unique_name + 1) % 2 ^ 32;
      }

  unfoldable pub text_at : Tree G → Option (CiteInCluster G) → Option ℕ
  text_at tree none = none
  text_at tree (some c) = tree.first_names c.gen4

  unfoldable pub name_cite : Tree G → ℕ → Grouping G → Grouping G
  unfolding seen_again seen_first text_at
  name_cite tree ix st =
      let rendered = text_at tree (get_elem? st.cites ix) in
      elim (st.same_names rendered) as (λ _. Grouping G) [
        | none ↦ seen_first rendered ix st
        | some seen ↦ seen_again rendered seen ix st
      ]

  -- `for ix in 0..cites.len()`, by the number of rounds left
  unfoldable pub name_cites : Tree G → ℕ → ℕ → Grouping G → Grouping G
  unfolding name_cite
  name_cites tree zero ix st = st
  name_cites tree (suc n) ix st = name_cites tree n (ix + 1) (name_cite tree ix st)

  unfoldable pub start : List (CiteInCluster G) → Grouping G
  start cites = record { cites = cites; same_names = λ _. none; unique_name = 1 }

  unfoldable pub group_delim : CiteInCluster G → CiteInCluster G
  unfolding set_delim
  group_delim c = if c.has_locator_or_affixes then c else set_delim cite_group c

  -- the head and the middle of a run of the same name
  unfoldable pub delimit_heads : List (CiteInCluster G) → List (CiteInCluster G)
  unfolding group_delim
  delimit_heads [] = []
  delimit_heads (last ∷ []) = last ∷ []
  delimit_heads (c ∷ d ∷ cs) = group_delim c ∷ delimit_heads (d ∷ cs)

  unfoldable pub delimit_run : Option CollapseMode → List (CiteInCluster G) → List (CiteInCluster G)
  unfolding delimit_heads last_delim_for set_last_delim
  delimit_run collapse [] = []
  delimit_run collapse (single ∷ []) = single ∷ []
  delimit_run collapse (c ∷ d ∷ cs) =
      set_last_delim (some (last_delim_for collapse)) (delimit_heads (c ∷ d ∷ cs))

  unfoldable pub group_by_name :
      Tree G → Option CollapseMode → List (CiteInCluster G) → List (CiteInCluster G)
  unfolding name_cites start numbers_names delimit_run same_name
  group_by_name tree collapse cites =
      let named =
        if numbers_names collapse
        then (name_cites tree (length cites) 0 (start cites)).cites
        else cites in
      concat (map (delimit_run collapse) (group_by same_name named))

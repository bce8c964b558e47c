-- ===== src/YearSuffixes/Whole.antt =====
-- The suffixes of the whole bibliography.
use mathlib.Core.List.{foldl}
use mathlib.Core.Path.{subst}
use citeproc_rs.Base.{
  ◌≢◌, ap, ℕ, zero, suc, ◌-◌, ◌^◌, ◌<◌, ◌≤◌, true, false, List, [], ◌∷◌, none, some, ◌≡◌, refl, sym,
  ◌∙◌, arith, leb, length, get_elem?, if◌then◌else◌, Bool-cases, inl, inr, All, not,
}
use citeproc_rs.Base.Map.{Map, empty}
use citeproc_rs.Base.Sets.{contains, Distinct, sort_by_key}
use citeproc_rs.YearSuffixes.{
  IrDatabase, BibNumber, assign_group, ref_bib_number, final_groups, year_suffixes,
}
use citeproc_rs.YearSuffixes.Rounds.{count, final_groups-apart}
use citeproc_rs.YearSuffixes.Distinctness.{final_groups-Distinct}
use citeproc_rs.YearSuffixes.Assignment.{assign_group-order, assign_all-other, contains-sort_by_key}

-- both have suffixes, the first the smaller, and none is over the size
abbrev pub Ordered : Map ℕ → ℕ → ℕ → ℕ → Type 0
Ordered suffixes x y size =
    (i : ℕ) × (j : ℕ) × (suffixes x ≡ some i)
    × (suffixes y ≡ some j)
    × (0 < i)
    × (i < j)
    × (j ≤ size)

assign_group-other :
    (bib_numbers : Map BibNumber) (suffixes : Map ℕ) (g : List ℕ) (x : ℕ)
    → contains x g ≡ false
    → assign_group bib_numbers suffixes g x ≡ suffixes x
unfolding assign_group
assign_group-other bib_numbers suffixes g x out = elim (Bool-cases (leb (length g) 1)) [
  | inl e ↦ rw e refl
  | inr e ↦
      let key = ref_bib_number bib_numbers in
      rw e (assign_all-other x (sort_by_key key g) 1 suffixes (contains-sort_by_key key x g ∙ out))
]

assign_groups-other :
    (bib_numbers : Map BibNumber) (gs : List (List ℕ)) (suffixes : Map ℕ) (x : ℕ)
    → count x gs ≡ 0
    → foldl (assign_group bib_numbers) suffixes gs x ≡ suffixes x
assign_groups-other bib_numbers [] suffixes x h = refl
assign_groups-other bib_numbers (g ∷ gs) suffixes x h =
    let out : contains x g ≡ false = ground (arith, h) in
    assign_groups-other bib_numbers gs (assign_group bib_numbers suffixes g) x (ground (arith, h))
    ∙ assign_group-other bib_numbers suffixes g x out

two_members :
    (g : List ℕ) (x y : ℕ) → contains x g ≡ true → contains y g ≡ true → x ≢ y → 1 < length g
two_members [] x y h k differ = cc h
two_members (a ∷ []) x y h k differ = ground (arith, h, k, differ)
two_members (a ∷ b ∷ g) x y h k differ = omega arith

keys_differ : (key : ℕ → ℕ) (x y : ℕ) → key x < key y → x ≢ y
keys_differ key x y less e = let same = ap key e in omega (arith, less, same)

assign_groups-Ordered :
    (bib_numbers : Map BibNumber) (gs : List (List ℕ)) (suffixes : Map ℕ) (k : ℕ) (group : List ℕ)
    (x y : ℕ)
    → ((z : ℕ) → count z gs ≤ 1)
    → All Distinct gs
    → ((z : ℕ) → 0 < count z gs → suffixes z ≡ none)
    → get_elem? gs k ≡ some group
    → length group < 2 ^ 32 - 1
    → contains x group ≡ true
    → contains y group ≡ true
    → ref_bib_number bib_numbers x < ref_bib_number bib_numbers y
    → Ordered (foldl (assign_group bib_numbers) suffixes gs) x y (length group)
assign_groups-Ordered bib_numbers [] suffixes k group x y apart ds fresh at_k few x_in y_in less =
    cc at_k
assign_groups-Ordered bib_numbers (g ∷ gs) suffixes zero group x y apart (d, ds) fresh at_k few x_in
      y_in less =
    let same : g ≡ group = cc at_k in
    let x_in' : contains x g ≡ true = ap (contains x) same ∙ x_in in
    let y_in' : contains y g ≡ true = ap (contains y) same ∙ y_in in
    let size : length g ≡ length group = ap length same in
    let differ : x ≢ y = λ e. keys_differ (ref_bib_number bib_numbers) x y less e in
    let (i, j, at_x, at_y, pos, earlier, in_range) =
      assign_group-order bib_numbers suffixes g x y (two_members g x y x_in' y_in' differ)
        (omega (arith, few, size)) d (λ z h. fresh z (ground (arith, h))) x_in' y_in' less in
    let gone_x : count x gs ≡ 0 = ground (arith, apart x, x_in') in
    let gone_y : count y gs ≡ 0 = ground (arith, apart y, y_in') in
    let suffixes' = assign_group bib_numbers suffixes g in
    (
      i,
      j,
      assign_groups-other bib_numbers gs suffixes' x gone_x ∙ at_x,
      assign_groups-other bib_numbers gs suffixes' y gone_y ∙ at_y,
      pos,
      earlier,
      omega (arith, in_range, size),
    )
assign_groups-Ordered bib_numbers (g ∷ gs) suffixes (suc k) group x y apart (d, ds) fresh at_k few
      x_in y_in less =
    assign_groups-Ordered bib_numbers gs (assign_group bib_numbers suffixes g) k group x y
      (λ z. ground (arith, apart z)) ds
      (λ z h.
        let out : contains z g ≡ false = ground (arith, apart z, h) in
        assign_group-other bib_numbers suffixes g z out ∙ fresh z (ground (arith, h)))
      at_k few x_in y_in less

year_suffixes-on :
    (db : IrDatabase)
    → db.disambiguate_add_year_suffix ≡ true
    → year_suffixes db ≡ foldl (assign_group db.bib_numbers) empty (final_groups db)
unfolding year_suffixes
year_suffixes-on db on =
    ap (λ b. if not b then empty else foldl (assign_group db.bib_numbers) empty (final_groups db))
      on

-- For a style that adds year suffixes, and keys that are each listed once: of two references that end
-- in one group and have different bibliography numbers both get a suffix, the one that comes first
-- in the bibliography the smaller, and neither is over the group's size.
pub year_suffixes-Ordered :
    (db : IrDatabase) (k : ℕ) (group : List ℕ) (x y : ℕ)
    → db.disambiguate_add_year_suffix ≡ true
    → Distinct db.all_keys
    → get_elem? (final_groups db) k ≡ some group
    → length group < 2 ^ 32 - 1
    → contains x group ≡ true
    → contains y group ≡ true
    → ref_bib_number db.bib_numbers x < ref_bib_number db.bib_numbers y
    → Ordered (year_suffixes db) x y (length group)
year_suffixes-Ordered db k group x y on keys at_k few x_in y_in less =
    let ordered =
      assign_groups-Ordered db.bib_numbers (final_groups db) empty k group x y
        (λ z. final_groups-apart db z keys) (final_groups-Distinct db) (λ z h. refl) at_k few x_in
        y_in less in
    subst (λ m. Ordered m x y (length group)) (sym (year_suffixes-on db on)) ordered

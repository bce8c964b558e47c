-- ===== src/Locale/Merged.antt =====
-- A merged locale has from each source of the chain what no nearer source has.
use citeproc_rs.Base.{◌++◌, ◌≡◌, ◌∙◌, none, some, refl, [], ◌∷◌, ℕ, List, Option, ap, sym, suc, map}
use citeproc_rs.Base.Reversed.{reversed, reverse_onto}
use citeproc_rs.Base.Texts.{unwrap_or, or_option, first_of}
use citeproc_rs.Lang.{Lang, LocaleSource, inline, file, iter}
use citeproc_rs.Lang.Fallback.{iter-chain, without_country, main_dialect, then_american}
use citeproc_rs.Terms.{SimpleTermSelector, GenderedTermSelector}
use citeproc_rs.Locale.{Locale, RoleTermSelector, DateForm, merge, merge_options, default_locale}
use citeproc_rs.Locale.Database.{
  LocaleDatabase, merge_onto, fold_locales, merge_all, loaded, merge_chain, merged_locale,
}

or_option_assoc :
    {V : Type 0} (a b c : Option V) → or_option (or_option a b) c ≡ or_option a (or_option b c)
or_option_assoc none b c = refl
or_option_assoc (some _) b c = refl

or_option-none : {V : Type 0} (a : Option V) → or_option a none ≡ a
or_option-none none = refl
or_option-none (some _) = refl

-- a part of a locale that a merge takes from the new locale or else from the base
module _ {D V : Type 0} (part : Locale D → Option V)
    (part-merge : (base new : Locale D)
      → part (merge base new) ≡ or_option (part new) (part base)) where
  part_of : Option (Locale D) → Option V
  part_of none = none
  part_of (some l) = part l

  fold_parts : Option V → List (Locale D) → Option V
  fold_parts acc [] = acc
  fold_parts acc (l ∷ ls) = fold_parts (or_option (part l) acc) ls

  part_of-merge_onto :
      (acc : Option (Locale D)) (l : Locale D)
      → part_of (merge_onto acc l) ≡ or_option (part l) (part_of acc)
  unfolding part_of merge_onto
  part_of-merge_onto none l = sym (or_option-none (part l))
  part_of-merge_onto (some base) l = part-merge base l

  part_of-fold_locales :
      (acc : Option (Locale D)) (ls : List (Locale D))
      → part_of (fold_locales acc ls) ≡ fold_parts (part_of acc) ls
  unfolding fold_locales fold_parts
  part_of-fold_locales acc [] = refl
  part_of-fold_locales acc (l ∷ ls) =
      part_of-fold_locales (merge_onto acc l) ls
      ∙ ap (λ o. fold_parts o ls) (part_of-merge_onto acc l)

  fold_parts-reverse_onto :
      (acc : Option V) (xs ys : List (Locale D))
      → fold_parts acc (reverse_onto xs ys) ≡ fold_parts (or_option (first_of part xs) acc) ys
  unfolding fold_parts
  fold_parts-reverse_onto acc [] ys = refl
  fold_parts-reverse_onto acc (x ∷ xs) ys =
      fold_parts-reverse_onto acc xs (x ∷ ys)
      ∙ ap (λ o. fold_parts o ys) (sym (or_option_assoc (part x) (first_of part xs) acc))

  part_of-unwrap_or :
      part default_locale ≡ none
      → (o : Option (Locale D)) → part (unwrap_or default_locale o) ≡ part_of o
  unfolding part_of
  part_of-unwrap_or h none = h
  part_of-unwrap_or h (some l) = refl

  -- the part of the merged locale is that of the first locale that has it
  pub part-merge_all :
      part default_locale ≡ none → (ls : List (Locale D)) → part (merge_all ls) ≡ first_of part ls
  unfolding merge_all fold_parts part_of
  part-merge_all h ls =
      part_of-unwrap_or h (fold_locales none (reversed ls))
      ∙ (part_of-fold_locales none (reversed ls)
          ∙ (fold_parts-reverse_onto none ls [] ∙ or_option-none (first_of part ls)))

-- each part of a locale is that of the first locale of a list that has it
pub record Nearest {D : Type 0} (ls : List (Locale D)) (m : Locale D) : Type 0 where
  pub nearest_simple :
      (sel : SimpleTermSelector) → m.simple_terms sel ≡ first_of (λ l. l.simple_terms sel) ls
  pub nearest_gendered :
      (sel : GenderedTermSelector) → m.gendered_terms sel ≡ first_of (λ l. l.gendered_terms sel) ls
  pub nearest_role :
      (sel : RoleTermSelector) → m.role_terms sel ≡ first_of (λ l. l.role_terms sel) ls
  pub nearest_date : (form : DateForm) → m.dates form ≡ first_of (λ l. l.dates form) ls
  -- all the ordinals together
  pub nearest_ordinals : m.ordinal_terms ≡ first_of (λ l. l.ordinal_terms) ls
  pub nearest_limit :
      m.options_node.limit_day_ordinals_to_day_1
      ≡ first_of (λ l. l.options_node.limit_day_ordinals_to_day_1) ls
  pub nearest_punctuation :
      m.options_node.punctuation_in_quote ≡ first_of (λ l. l.options_node.punctuation_in_quote) ls

pub merge_all-Nearest : {D : Type 0} (ls : List (Locale D)) → Nearest ls (merge_all ls)
unfolding merge merge_options default_locale
merge_all-Nearest ls = record {
  nearest_simple = λ sel. part-merge_all (λ l. l.simple_terms sel) (λ b n. refl) refl ls;
  nearest_gendered = λ sel. part-merge_all (λ l. l.gendered_terms sel) (λ b n. refl) refl ls;
  nearest_role = λ sel. part-merge_all (λ l. l.role_terms sel) (λ b n. refl) refl ls;
  nearest_date = λ form. part-merge_all (λ l. l.dates form) (λ b n. refl) refl ls;
  nearest_ordinals = part-merge_all (λ l. l.ordinal_terms) (λ b n. refl) refl ls;
  nearest_limit =
      part-merge_all (λ l. l.options_node.limit_day_ordinals_to_day_1) (λ b n. refl) refl ls;
  nearest_punctuation =
      part-merge_all (λ l. l.options_node.punctuation_in_quote) (λ b n. refl) refl ls;
}

-- Three steps of fuel are enough for the merged locale of a language, and each term, each date, each
-- option and the ordinals as a whole are those of the first locale that has them along the chain of
-- the language: the style's locales that are made for it, then the files that can be loaded.
pub merged_locale-Nearest :
    {X D : Type 0} (db : LocaleDatabase X D) (key : Lang) (k : ℕ)
    → (srcs : List LocaleSource) × (m : Locale D) × (iter (suc (suc (suc k))) key ≡ some srcs)
      × (merged_locale (suc (suc (suc k))) db key ≡ some m)
      × Nearest (loaded db srcs) m
unfolding merged_locale merge_chain
merged_locale-Nearest db key k =
    let srcs =
      map (λ x. inline (some x)) (key ∷ without_country key)
      ++ (inline none ∷ map file (key ∷ main_dialect key ++ then_american key)) in
    let chain = iter-chain key k in
    (
      srcs,
      merge_all (loaded db srcs),
      chain,
      ap (merge_chain db) chain,
      merge_all-Nearest (loaded db srcs),
    )

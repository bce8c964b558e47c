-- ===== src/Locale/Looked.antt =====
-- The terms that are looked up in a merged locale: in which form, and in which locale of the chain.
use citeproc_rs.Base.{
  ◌≡◌, ◌∙◌, none, some, refl, arith, [], ◌∷◌, ℕ, Bool, suc, Option, List, ap, map,
}
use citeproc_rs.Base.Iter.{drain}
use citeproc_rs.Base.Texts.{Text, first_of, first_of_ext}
use citeproc_rs.Terms.{
  next_form, TermFormExtended, long_form, short_form, symbol_form, verb, verb_short, next_extended,
  SimpleTermSelector, misc, category, quote, simple_fallback, GenderedTermSelector, normalise,
}
use citeproc_rs.Terms.Forms.{forms_from, with_form, form_of, gendered_fallback-forms}
use citeproc_rs.Locale.{
  Locale, TermPlurality, GenderedTerm, TextTermSelector, simple, gendered, role, RoleTermSelector,
  role_fallback, in_number, find_term, map_found, get_text_term,
}
use citeproc_rs.Locale.Database.{merge_all}
use citeproc_rs.Locale.Merged.{merge_all-Nearest}

abbrev pub extended_from : TermFormExtended → List TermFormExtended
extended_from long_form = long_form ∷ []
extended_from short_form = short_form ∷ long_form ∷ []
extended_from symbol_form = symbol_form ∷ short_form ∷ long_form ∷ []
extended_from verb = verb ∷ long_form ∷ []
extended_from verb_short = verb_short ∷ verb ∷ long_form ∷ []

abbrev pub simple_forms : SimpleTermSelector → List SimpleTermSelector
simple_forms (misc t form) = map (misc t) (extended_from form)
simple_forms (category t form) = map (category t) (forms_from form)
simple_forms (quote t) = quote t ∷ []

abbrev pub gendered_forms : GenderedTermSelector → List GenderedTermSelector
gendered_forms g = map (with_form g) (forms_from (form_of g))

abbrev pub role_forms : RoleTermSelector → List RoleTermSelector
role_forms (t, form) = map (λ x. (t, x)) (extended_from form)

-- the first of the selectors that any of the locales has, in the first locale that has it
abbrev pub search_all :
    {S V D : Type 0} → (Locale D → S → Option V) → List (Locale D) → List S → Option V
search_all part ls selectors = first_of (λ sel. first_of (λ l. part l sel) ls) selectors

abbrev pub term_of : Option GenderedTerm → Option TermPlurality
term_of none = none
term_of (some t) = some (t.0)

-- the term that the locales together have for a selector
abbrev pub searched : {D : Type 0} → List (Locale D) → TextTermSelector → Option TermPlurality
searched ls (simple sel) = search_all (λ l. l.simple_terms) ls (simple_forms sel)
searched ls (gendered sel) =
    term_of (search_all (λ l. l.gendered_terms) ls (gendered_forms (normalise sel)))
searched ls (role sel) = search_all (λ l. l.role_terms) ls (role_forms sel)

abbrev pub text_in : Bool → Option TermPlurality → Option Text
text_in is_plural none = none
text_in is_plural (some t) = some (in_number t is_plural)

simple_fallback-forms :
    (sel : SimpleTermSelector) (k : ℕ)
    → simple_fallback (suc (suc (suc k))) sel ≡ some (simple_forms sel)
unfolding simple_fallback drain next_form next_extended
simple_fallback-forms sel k = ground arith

role_fallback-forms :
    (sel : RoleTermSelector) (k : ℕ) → role_fallback (suc (suc (suc k))) sel ≡ some (role_forms sel)
unfolding role_fallback drain next_extended
role_fallback-forms sel k = ground arith

map_found-some :
    (is_plural : Bool) (found : Option TermPlurality)
    → map_found (λ t. in_number t is_plural) (some found) ≡ some (text_in is_plural found)
unfolding map_found
map_found-some is_plural none = refl
map_found-some is_plural (some t) = refl

map_found-gendered :
    (is_plural : Bool) (found : Option GenderedTerm)
    → map_found (λ t. in_number (t.0) is_plural) (some found)
      ≡ some (text_in is_plural (term_of found))
unfolding map_found
map_found-gendered is_plural none = refl
map_found-gendered is_plural (some t) = refl

-- Three steps of fuel are enough to look a text term up in a merged locale. The forms that stand in
-- for each other are tried in their order, each in all of the locales before the next one: the result
-- is that of the first form that any locale has, in the nearest locale that has it.
pub get_text_term-merge_all :
    {D : Type 0} (ls : List (Locale D)) (sel : TextTermSelector) (is_plural : Bool) (k : ℕ)
    → get_text_term (suc (suc (suc k))) (merge_all ls) sel is_plural
      ≡ some (text_in is_plural (searched ls sel))
unfolding get_text_term find_term
get_text_term-merge_all ls (simple sel) is_plural k =
    ap (λ s. map_found (λ t. in_number t is_plural) (find_term (merge_all ls).simple_terms s))
      (simple_fallback-forms sel k)
    ∙ (map_found-some is_plural (first_of (merge_all ls).simple_terms (simple_forms sel))
        ∙ ap (λ o. some (text_in is_plural o))
            (first_of_ext (merge_all ls).simple_terms (λ s. first_of (λ l. l.simple_terms s) ls)
              (merge_all-Nearest ls).nearest_simple (simple_forms sel)))
get_text_term-merge_all ls (gendered sel) is_plural k =
    ap (λ s. map_found (λ t. in_number (t.0) is_plural) (find_term (merge_all ls).gendered_terms s))
      (gendered_fallback-forms (normalise sel) k).0
    ∙ (map_found-gendered is_plural
          (first_of (merge_all ls).gendered_terms (gendered_forms (normalise sel)))
        ∙ ap (λ o. some (text_in is_plural (term_of o)))
            (first_of_ext (merge_all ls).gendered_terms (λ s. first_of (λ l. l.gendered_terms s) ls)
              (merge_all-Nearest ls).nearest_gendered (gendered_forms (normalise sel))))
get_text_term-merge_all ls (role sel) is_plural k =
    ap (λ s. map_found (λ t. in_number t is_plural) (find_term (merge_all ls).role_terms s))
      (role_fallback-forms sel k)
    ∙ (map_found-some is_plural (first_of (merge_all ls).role_terms (role_forms sel))
        ∙ ap (λ o. some (text_in is_plural o))
            (first_of_ext (merge_all ls).role_terms (λ s. first_of (λ l. l.role_terms s) ls)
              (merge_all-Nearest ls).nearest_role (role_forms sel)))

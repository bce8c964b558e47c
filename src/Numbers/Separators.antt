-- ===== src/Numbers/Separators.antt =====
-- What is written after a separator does not depend on what is before it.
use mathlib.Core.Path.{subst}
use citeproc_rs.Base.{
  Bool, true, false, Option, none, some, List, [], ◌∷◌, ◌++◌, ◌≡◌, refl, sym, ap, ◌∙◌, ◌⊎◌, inl,
  inr,
}
use citeproc_rs.Base.Texts.{Text}
use citeproc_rs.Pages.{PageRangeFormat}
use citeproc_rs.Terms.{NumberVariable}
use citeproc_rs.Numbers.{
  NumericToken, num, roman_num, affixed, str, comma, hyphen, ampersand, and_token, comma_and,
  Locale, State, normal,
}
use citeproc_rs.Numbers.Tokens.{
  Written, before, text_of, join_text, token_step, write_separator, write_tokens, tokens_to_string,
}

abbrev pub is_separator : NumericToken → Bool
is_separator (num _) = false
is_separator (roman_num _ _) = false
is_separator (affixed _ _ _) = false
is_separator hyphen = false
is_separator _ = true

append_assoc {ℓ} : {A : Type ℓ} (xs ys zs : List A) → (xs ++ ys) ++ zs ≡ xs ++ (ys ++ zs)
append_assoc [] ys zs = refl
append_assoc (x ∷ xs) ys zs = ap (λ l. x ∷ l) (append_assoc xs ys zs)

before-before : (t u : Text) (w : Written) → before t (before u w) ≡ before (t ++ u) w
unfolding before
before-before t u none = refl
before-before t u (some w) = ap (λ l. some (l, w.1)) (sym (append_assoc t u w.0))

before-empty : (w : Written) → before [] w ≡ w
unfolding before
before-empty none = refl
before-empty (some w) = refl

text_of-before : (t : Text) (w : Written) → text_of (before t w) ≡ join_text (some t) (text_of w)
unfolding before text_of join_text
text_of-before t none = refl
text_of-before t (some w) = refl

module _ (locale : Locale) (variable : NumberVariable) (prf : Option PageRangeFormat) where
  -- more tokens after what is written
  abbrev continue : List NumericToken → Written → Written
  unfolding before write_tokens
  continue ys none = none
  continue ys (some w) = before w.0 (write_tokens locale variable prf w.1 ys)

  continue-before :
      (ys : List NumericToken) (t : Text) (w : Written)
      → continue ys (before t w) ≡ before t (continue ys w)
  unfolding continue before
  continue-before ys t none = refl
  continue-before ys t (some w) =
      sym (before-before t w.0 (write_tokens locale variable prf w.1 ys))

  write_tokens-append :
      (state : State) (xs ys : List NumericToken)
      → write_tokens locale variable prf state (xs ++ ys)
        ≡ continue ys (write_tokens locale variable prf state xs)
  unfolding write_tokens continue
  write_tokens-append state [] ys = sym (before-empty (write_tokens locale variable prf state ys))
  write_tokens-append state (x ∷ xs) ys =
      elim (token_step locale variable prf state x)
        as (λ o.
          (elim o as (λ _. Written) [
            | none ↦ none
            | some w ↦ before w.0 (write_tokens locale variable prf w.1 (xs ++ ys))
          ])
          ≡ continue ys (elim o as (λ _. Written) [
            | none ↦ none
            | some w ↦ before w.0 (write_tokens locale variable prf w.1 xs)
          ])) [
            | none ↦ refl
            | some w ↦
                ap (before w.0) (write_tokens-append w.1 xs ys)
                ∙ sym (continue-before ys w.0 (write_tokens locale variable prf w.1 xs))
          ]

  separator_step :
      (state : State) (t : NumericToken)
      → is_separator t ≡ true
      → (u : Text) × (token_step locale variable prf state t ≡ some (u, normal))
  unfolding token_step write_separator
  separator_step state (str t) h = (_, refl)
  separator_step state comma h = (_, refl)
  separator_step state ampersand h = (_, refl)
  separator_step state and_token h = (_, refl)
  separator_step state comma_and h = (_, refl)
  separator_step state t h = cc

  -- after a separator the state is normal
  Ended : Written → Type 0
  Ended w = (w ≡ none) ⊎ ((u : Text) × (w ≡ some (u, normal)))

  continue-Ended :
      (t : NumericToken) (w : Written) → is_separator t ≡ true → Ended (continue (t ∷ []) w)
  unfolding Ended continue write_tokens before
  continue-Ended t none h = inl refl
  continue-Ended t (some w) h =
      let (u, e) = separator_step w.1 t h in
      inr (
        w.0 ++ (u ++ []),
        ap
            (λ o.
              before w.0
                (elim o as (λ _. Written) [ none ↦ none | some v ↦ before v.0 (some ([], v.1)) ]))
            e,
      )

  text_of-continue :
      (w : Written) (ys : List NumericToken)
      → Ended w
      → text_of (continue ys w) ≡ join_text (text_of w) (tokens_to_string locale variable prf ys)
  unfolding Ended continue tokens_to_string text_of join_text
  text_of-continue w ys (inl e) =
      ap (λ o. text_of (continue ys o)) e
      ∙ ap (λ o. join_text (text_of o) (tokens_to_string locale variable prf ys)) (sym e)
  text_of-continue w ys (inr (u, e)) =
      ap (λ o. text_of (continue ys o)) e
      ∙ (text_of-before u (write_tokens locale variable prf normal ys)
          ∙ ap (λ o. join_text (text_of o) (tokens_to_string locale variable prf ys)) (sym e))

  -- A separator ends a range: the text of a list of tokens is that of its tokens up to a separator
  -- followed by that of the rest alone, so that no number is shortened by one before the separator.
  pub tokens_to_string-separator :
      (t : NumericToken) (xs ys : List NumericToken)
      → is_separator t ≡ true
      → tokens_to_string locale variable prf (xs ++ t ∷ ys)
        ≡ join_text
            (tokens_to_string locale variable prf (xs ++ t ∷ []))
            (tokens_to_string locale variable prf ys)
  unfolding tokens_to_string
  tokens_to_string-separator t xs ys h =
      let upto = write_tokens locale variable prf normal (xs ++ t ∷ []) in
      let split = write_tokens-append normal xs (t ∷ []) in
      let first = write_tokens locale variable prf normal xs in
      ap (λ l. text_of (write_tokens locale variable prf normal l))
        (sym (append_assoc xs (t ∷ []) ys))
      ∙ (ap text_of (write_tokens-append normal (xs ++ t ∷ []) ys)
          ∙ text_of-continue upto ys (subst Ended (sym split) (continue-Ended t first h)))

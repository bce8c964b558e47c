-- ===== src/Names/Trimmed.antt =====
-- Where the separators stand in the parts of a name that are shown.
use citeproc_rs.Base.{
  ◌&&◌, if◌then◌else◌, inl, inr, ◌||◌, ◌≡◌, ◌∙◌, true, false, refl, arith, [], ◌∷◌, Bool, List, ap,
  any, sym, is_empty, Bool-cases,
}
use citeproc_rs.Base.Reversed.{
  reversed, reverse_onto, first_ok, last_ok, neighbours, first_ok-reversed, last_ok-reversed,
  neighbours-reversed,
}
use citeproc_rs.Names.Parts.{
  NamePartToken, PersonName, not_delim, pn_filter_part, keep_parts, up_to_last_part, push_part,
  fold_parts, pn_filtered_parts,
}

-- one of two neighbours is no separator
abbrev pub apart_ok : NamePartToken → NamePartToken → Bool
apart_ok a b = not_delim a || not_delim b

-- the tokens kept so far, the last one first
record Tidy (acc : List NamePartToken) : Type 0 where
  between : neighbours apart_ok acc ≡ true
  begins : last_ok not_delim acc ≡ true

push_part-Tidy : (acc : List NamePartToken) (t : NamePartToken) → Tidy acc → Tidy (push_part acc t)
unfolding push_part not_delim
push_part-Tidy [] t h = record { between = ground arith; begins = ground arith }
push_part-Tidy (a ∷ []) t h = record {
  between = ground (arith, h.begins);
  begins = ground (arith, h.begins);
}
push_part-Tidy (a ∷ b ∷ acc) t h = record {
  between = ground (arith, h.between);
  begins = ground (arith, h.begins);
}

fold_parts-Tidy : (acc ts : List NamePartToken) → Tidy acc → Tidy (fold_parts acc ts)
unfolding fold_parts
fold_parts-Tidy acc [] h = h
fold_parts-Tidy acc (t ∷ ts) h = fold_parts-Tidy (push_part acc t) ts (push_part-Tidy acc t h)

-- a part is always kept
push_part-part :
    (acc : List NamePartToken) (t : NamePartToken) → not_delim t ≡ true → push_part acc t ≡ t ∷ acc
unfolding push_part not_delim
push_part-part acc t h = ground (arith, h)

fold_parts-ends :
    (acc ts : List NamePartToken) (t : NamePartToken)
    → last_ok not_delim (t ∷ ts) ≡ true
    → first_ok not_delim (fold_parts acc (t ∷ ts)) ≡ true
unfolding fold_parts
fold_parts-ends acc [] t h = ap (first_ok not_delim) (push_part-part acc t h) ∙ h
fold_parts-ends acc (u ∷ ts) t h = fold_parts-ends (push_part acc t) ts u h

fold_parts-no_part : (ts : List NamePartToken) → any not_delim ts ≡ false → fold_parts [] ts ≡ []
unfolding fold_parts push_part not_delim
fold_parts-no_part [] h = refl
fold_parts-no_part (t ∷ ts) h = ground (arith, h, fold_parts-no_part ts)

last_ok-cons :
    (t : NamePartToken) (xs : List NamePartToken)
    → is_empty xs ≡ false
    → last_ok not_delim xs ≡ true
    → last_ok not_delim (t ∷ xs) ≡ true
last_ok-cons t [] e h = cc e
last_ok-cons t (x ∷ xs) e h = h

up_to_last_part-some :
    (t : NamePartToken) (ts : List NamePartToken) → is_empty (up_to_last_part (t ∷ ts)) ≡ false
unfolding up_to_last_part
up_to_last_part-some t ts = ground arith

up_to_last_part-ends :
    (ts : List NamePartToken)
    → any not_delim ts ≡ true
    → last_ok not_delim (up_to_last_part ts) ≡ true
unfolding up_to_last_part
up_to_last_part-ends [] h = cc
up_to_last_part-ends (t ∷ []) h = ground (arith, h)
up_to_last_part-ends (t ∷ u ∷ ts) h = elim (Bool-cases (any not_delim (u ∷ ts))) [
  | inl more ↦
      ap
        (λ b.
          last_ok not_delim (
            if b then t ∷ up_to_last_part (u ∷ ts) else if not_delim t then t ∷ [] else t ∷ u ∷ ts))
        more
      ∙ last_ok-cons t (up_to_last_part (u ∷ ts)) (up_to_last_part-some u ts)
          (up_to_last_part-ends (u ∷ ts) more)
  | inr last ↦
      ap
        (λ b.
          last_ok not_delim (
            if b then t ∷ up_to_last_part (u ∷ ts) else if not_delim t then t ∷ [] else t ∷ u ∷ ts))
        last
      ∙ ground (arith, h, last)
]

up_to_last_part-none :
    (ts : List NamePartToken) → any not_delim ts ≡ false → up_to_last_part ts ≡ ts
unfolding up_to_last_part
up_to_last_part-none [] h = refl
up_to_last_part-none (t ∷ ts) h = ground (arith, h)

fold_parts-of_some :
    (ts : List NamePartToken)
    → is_empty ts ≡ false
    → last_ok not_delim ts ≡ true
    → first_ok not_delim (fold_parts [] ts) ≡ true
fold_parts-of_some [] e h = cc e
fold_parts-of_some (t ∷ ts) e h = fold_parts-ends [] ts t h

-- the fold over what is taken ends with a part, or is empty
fold_parts-first_ok :
    (ts : List NamePartToken) → first_ok not_delim (fold_parts [] (up_to_last_part ts)) ≡ true
unfolding up_to_last_part fold_parts
fold_parts-first_ok [] = refl
fold_parts-first_ok (t ∷ ts) = elim (Bool-cases (any not_delim (t ∷ ts))) [
  | inl some_part ↦
      fold_parts-of_some (up_to_last_part (t ∷ ts)) (up_to_last_part-some t ts)
        (up_to_last_part-ends (t ∷ ts) some_part)
  | inr no_part ↦
      ap (λ us. first_ok not_delim (fold_parts [] us)) (up_to_last_part-none (t ∷ ts) no_part)
      ∙ ap (first_ok not_delim) (fold_parts-no_part (t ∷ ts) no_part)
]

keep_parts-reverse_onto :
    (p : NamePartToken → Bool) (xs ys : List NamePartToken)
    → keep_parts p (reverse_onto xs ys) ≡ reverse_onto (keep_parts p xs) (keep_parts p ys)
unfolding keep_parts
keep_parts-reverse_onto p [] ys = refl
keep_parts-reverse_onto p (x ∷ xs) ys =
    keep_parts-reverse_onto p xs (x ∷ ys)
    ∙ (elim (p x)
        as (λ b.
          reverse_onto (keep_parts p xs) (if b then x ∷ keep_parts p ys else keep_parts p ys)
          ≡ reverse_onto (if b then x ∷ keep_parts p xs else keep_parts p xs) (keep_parts p ys)) [
            | true ↦ refl
            | false ↦ refl
          ])

keep_parts-push_part :
    (acc : List NamePartToken) (t : NamePartToken)
    → keep_parts not_delim (push_part acc t) ≡ keep_parts not_delim (t ∷ acc)
unfolding keep_parts push_part not_delim
keep_parts-push_part [] t = ground arith
keep_parts-push_part (a ∷ acc) t = ground arith

keep_parts-fold_parts :
    (ts acc : List NamePartToken)
    → keep_parts not_delim (reversed (fold_parts acc ts))
      ≡ keep_parts not_delim (reverse_onto acc ts)
unfolding fold_parts
keep_parts-fold_parts [] acc = refl
keep_parts-fold_parts (t ∷ ts) acc =
    keep_parts-fold_parts ts (push_part acc t)
    ∙ (keep_parts-reverse_onto not_delim (push_part acc t) ts
        ∙ (ap (λ xs. reverse_onto xs (keep_parts not_delim ts)) (keep_parts-push_part acc t)
            ∙ sym (keep_parts-reverse_onto not_delim (t ∷ acc) ts)))

keep_parts-none :
    (ts : List NamePartToken) → any not_delim ts ≡ false → keep_parts not_delim ts ≡ []
unfolding keep_parts
keep_parts-none [] h = refl
keep_parts-none (t ∷ ts) h = ground (arith, h, keep_parts-none ts)

keep_parts-up_to_last_part :
    (ts : List NamePartToken) → keep_parts not_delim (up_to_last_part ts) ≡ keep_parts not_delim ts
unfolding keep_parts up_to_last_part
keep_parts-up_to_last_part [] = refl
keep_parts-up_to_last_part (t ∷ ts) =
    ground (arith, keep_parts-up_to_last_part ts, keep_parts-none ts)

keep_parts-twice :
    (p q : NamePartToken → Bool) (ts : List NamePartToken)
    → keep_parts q (keep_parts p ts) ≡ keep_parts (λ t. q t && p t) ts
unfolding keep_parts
keep_parts-twice p q [] = refl
keep_parts-twice p q (t ∷ ts) = ground (arith, keep_parts-twice p q ts)

-- the test does not tell its two sides apart
flipped :
    (xs : List NamePartToken)
    → neighbours apart_ok xs ≡ true
    → neighbours (λ a b. apart_ok b a) xs ≡ true
flipped [] h = refl
flipped (x ∷ []) h = refl
flipped (x ∷ y ∷ xs) h = ground (arith, h, flipped (y ∷ xs))

-- The parts of a name that are shown are those of the order that the name has, in that order; what is
-- shown begins and ends with a part, and between two parts there is at most one separator.
pub pn_filtered_parts-trimmed :
    (pn : PersonName) (order : List NamePartToken)
    → (keep_parts not_delim (pn_filtered_parts pn order)
        ≡ keep_parts (λ t. not_delim t && pn_filter_part pn t) order)
      × (first_ok not_delim (pn_filtered_parts pn order) ≡ true)
      × (last_ok not_delim (pn_filtered_parts pn order) ≡ true)
      × (neighbours apart_ok (pn_filtered_parts pn order) ≡ true)
unfolding pn_filtered_parts
pn_filtered_parts-trimmed pn order =
    let kept = keep_parts (pn_filter_part pn) order in
    let folded = fold_parts [] (up_to_last_part kept) in
    let tidy =
      fold_parts-Tidy [] (up_to_last_part kept) (record { between = refl; begins = refl }) in
    (
      keep_parts-fold_parts (up_to_last_part kept) []
          ∙ (keep_parts-up_to_last_part kept
              ∙ keep_parts-twice (pn_filter_part pn) not_delim order),
      first_ok-reversed not_delim folded ∙ tidy.begins,
      last_ok-reversed not_delim folded ∙ fold_parts-first_ok kept,
      neighbours-reversed apart_ok folded (flipped folded tidy.between),
    )

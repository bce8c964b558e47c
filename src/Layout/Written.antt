-- ===== src/Layout/Written.antt =====
-- What is written to a stream, and the infix between the two streams.
use citeproc_rs.Base.{
  ℕ, Bool, true, false, ◌||◌, Option, none, some, List, [], ◌∷◌, ◌++◌, if◌then◌else◌, ◌≡◌, refl, ap,
  ◌∙◌, arith, Bool-cases, inl, inr, ◌==◌, ==_iff, last?,
}
use citeproc_rs.Base.Reversed.{reversed, reverse_onto, first_ok, reversed-reverse_onto}
use citeproc_rs.Base.Texts.{Text, unwrap_or}
use citeproc_rs.Collapse.{CiteInCluster, DelimKind}
use citeproc_rs.Layout.{starts_punc, ends_punc, padded_prefix, padded_suffix, holds}
use citeproc_rs.Layout.Stream.{
  Chunk, cite, prefix, suffix, delim, pop_delim, write_prefix, write_suffix, write_cite, push_delim,
  write_delim, last_to_and, overwrite_and_position, trim_last_suffix, trim_first_prefix, finished,
}
use citeproc_rs.Layout.Cluster.{
  Rendering, write_flat, write_cites, in_citation, composite_infix, end_with_space, curl_quote,
  start_with_space,
}

module _ {B : Type 0} where
  abbrev pub cites_of : List (Chunk B) → List B
  cites_of [] = []
  cites_of (cite b ∷ cs) = b ∷ cites_of cs
  cites_of (prefix _ ∷ cs) = cites_of cs
  cites_of (suffix _ ∷ cs) = cites_of cs
  cites_of (delim _ ∷ cs) = cites_of cs

  cites_of-pop_delim : (cs : List (Chunk B)) → cites_of (pop_delim cs) ≡ cites_of cs
  unfolding pop_delim
  cites_of-pop_delim [] = refl
  cites_of-pop_delim (cite b ∷ cs) = refl
  cites_of-pop_delim (prefix _ ∷ cs) = refl
  cites_of-pop_delim (suffix _ ∷ cs) = refl
  cites_of-pop_delim (delim _ ∷ cs) = refl

  cites_of-write_prefix :
      (ws : ℕ → Bool) (pre : Option Text) (cs : List (Chunk B))
      → cites_of (write_prefix ws pre cs) ≡ cites_of cs
  unfolding write_prefix
  cites_of-write_prefix ws none cs = refl
  cites_of-write_prefix ws (some pre) cs =
      elim (starts_punc ws pre) as (λ b. cites_of (if b then pop_delim cs else cs) ≡ cites_of cs) [
        | true ↦ cites_of-pop_delim cs
        | false ↦ refl
      ]

  cites_of-write_suffix :
      (suf : Option Text) (cs : List (Chunk B)) → cites_of (write_suffix suf cs) ≡ cites_of cs
  unfolding write_suffix
  cites_of-write_suffix none cs = refl
  cites_of-write_suffix (some _) cs = refl

  cites_of-write_delim :
      (ws : ℕ → Bool) (kind : Option DelimKind) (cs : List (Chunk B))
      → cites_of (write_delim ws kind cs) ≡ cites_of cs
  unfolding write_delim push_delim
  cites_of-write_delim ws none cs = cites_of-pop_delim cs
  cites_of-write_delim ws (some kind) [] = refl
  cites_of-write_delim ws (some kind) (cite b ∷ cs) = refl
  cites_of-write_delim ws (some kind) (prefix _ ∷ cs) = refl
  cites_of-write_delim ws (some kind) (delim _ ∷ cs) = refl
  cites_of-write_delim ws (some kind) (suffix t ∷ cs) =
      elim (ends_punc ws t)
        as (λ b. cites_of (if b then suffix t ∷ cs else delim kind ∷ suffix t ∷ cs) ≡ cites_of cs) [
          | true ↦ refl
          | false ↦ refl
        ]

  cites_of-last_to_and : (cs : List (Chunk B)) → cites_of (last_to_and cs) ≡ cites_of cs
  unfolding last_to_and
  cites_of-last_to_and [] = refl
  cites_of-last_to_and (cite b ∷ cs) = ap (λ l. b ∷ l) (cites_of-last_to_and cs)
  cites_of-last_to_and (prefix _ ∷ cs) = cites_of-last_to_and cs
  cites_of-last_to_and (suffix _ ∷ cs) = cites_of-last_to_and cs
  cites_of-last_to_and (delim _ ∷ cs) = refl

  cites_of-overwrite :
      (and_last : Option Text) (cs : List (Chunk B))
      → cites_of (overwrite_and_position and_last cs) ≡ cites_of cs
  unfolding overwrite_and_position
  cites_of-overwrite none cs = refl
  cites_of-overwrite (some _) cs = cites_of-last_to_and cs

  cites_of-trim_last :
      (ws : ℕ → Bool) (cs : List (Chunk B)) → cites_of (trim_last_suffix ws cs) ≡ cites_of cs
  unfolding trim_last_suffix
  cites_of-trim_last ws [] = refl
  cites_of-trim_last ws (cite _ ∷ cs) = refl
  cites_of-trim_last ws (prefix _ ∷ cs) = refl
  cites_of-trim_last ws (suffix _ ∷ cs) = refl
  cites_of-trim_last ws (delim _ ∷ cs) = refl

  cites_of-trim_first :
      (ws : ℕ → Bool) (cs : List (Chunk B)) → cites_of (trim_first_prefix ws cs) ≡ cites_of cs
  unfolding trim_first_prefix
  cites_of-trim_first ws [] = refl
  cites_of-trim_first ws (cite _ ∷ cs) = refl
  cites_of-trim_first ws (prefix _ ∷ cs) = refl
  cites_of-trim_first ws (suffix _ ∷ cs) = refl
  cites_of-trim_first ws (delim _ ∷ cs) = refl

  cites_of-reverse_onto :
      (xs ys : List (Chunk B))
      → cites_of (reverse_onto xs ys) ≡ reverse_onto (cites_of xs) (cites_of ys)
  cites_of-reverse_onto [] ys = refl
  cites_of-reverse_onto (cite b ∷ xs) ys = cites_of-reverse_onto xs (cite b ∷ ys)
  cites_of-reverse_onto (prefix t ∷ xs) ys = cites_of-reverse_onto xs (prefix t ∷ ys)
  cites_of-reverse_onto (suffix t ∷ xs) ys = cites_of-reverse_onto xs (suffix t ∷ ys)
  cites_of-reverse_onto (delim d ∷ xs) ys = cites_of-reverse_onto xs (delim d ∷ ys)

  cites_of-finished :
      (ws : ℕ → Bool) (and_last : Option Text) (cs : List (Chunk B))
      → cites_of (finished ws and_last cs) ≡ reversed (cites_of cs)
  unfolding finished
  cites_of-finished ws and_last cs =
      let marked = overwrite_and_position and_last (pop_delim cs) in
      let trimmed = trim_last_suffix ws marked in
      cites_of-trim_first ws (reversed trimmed)
      ∙ (cites_of-reverse_onto trimmed []
          ∙ ap reversed (
              cites_of-trim_last ws marked
              ∙ (cites_of-overwrite and_last (pop_delim cs) ∙ cites_of-pop_delim cs)))

module _ {G B A F : Type 0} (r : Rendering G B A F) where
  -- the rendered trees of the cites that go to the citation
  abbrev pub to_citation : List (CiteInCluster G) → List B
  to_citation [] = []
  to_citation (c ∷ cs) =
      let rest = to_citation cs in
      if in_citation c.destination then r.flatten_or_plain c.gen4 ∷ rest else rest

  cites_of-write_flat :
      (c : CiteInCluster G) (cs : List (Chunk B))
      → cites_of (write_flat r c cs) ≡ r.flatten_or_plain c.gen4 ∷ cites_of cs
  unfolding write_flat write_cite
  cites_of-write_flat c cs =
      let ws = r.is_whitespace in
      let built = r.flatten_or_plain c.gen4 in
      let written = cite built ∷ write_prefix ws (padded_prefix c) cs in
      cites_of-write_delim ws c.own_delimiter (write_suffix (padded_suffix c) written)
      ∙ (cites_of-write_suffix (padded_suffix c) written
          ∙ ap (λ l. built ∷ l) (cites_of-write_prefix ws (padded_prefix c) cs))

  cites_of-write_cites :
      (irs : List (CiteInCluster G)) (cs : List (Chunk B))
      → cites_of (write_cites r irs cs) ≡ reverse_onto (to_citation irs) (cites_of cs)
  unfolding write_cites
  cites_of-write_cites [] cs = refl
  cites_of-write_cites (c ∷ irs) cs =
      let rest = to_citation irs in
      elim (in_citation c.destination)
        as (λ b.
          cites_of (write_cites r irs (if b then write_flat r c cs else cs))
          ≡ reverse_onto (if b then r.flatten_or_plain c.gen4 ∷ rest else rest) (cites_of cs)) [
            | true ↦
                cites_of-write_cites irs (write_flat r c cs)
                ∙ ap (reverse_onto rest) (cites_of-write_flat c cs)
            | false ↦ cites_of-write_cites irs cs
          ]

  -- The citation that is written out has exactly the cites whose destination is the citation, in the
  -- order of the cluster, each rendered once.
  pub finished-to_citation :
      (and_last : Option Text) (irs : List (CiteInCluster G))
      → cites_of (finished r.is_whitespace and_last (write_cites r irs [])) ≡ to_citation irs
  finished-to_citation and_last irs =
      cites_of-finished r.is_whitespace and_last (write_cites r irs [])
      ∙ (ap reversed (cites_of-write_cites irs []) ∙ reversed-reverse_onto (to_citation irs) [])

last?-append : (t : Text) (c : ℕ) → last? (t ++ c ∷ []) ≡ some c
last?-append [] c = refl
last?-append (x ∷ []) c = refl
last?-append (x ∷ y ∷ t) c = last?-append (y ∷ t) c

space_of_holds : (o : Option ℕ) → holds (λ c. c == 32) o ≡ true → o ≡ some 32
unfolding holds
space_of_holds none h = cc
space_of_holds (some c) h = ap (λ n. some n) ((==_iff c 32).0 h)

last?-end_with_space : (t : Text) → last? (end_with_space t) ≡ some 32
unfolding end_with_space
last?-end_with_space t = elim (Bool-cases (holds (λ c. c == 32) (last? t))) [
  | inl h ↦ ap (λ b. last? (if b then t else t ++ 32 ∷ [])) h ∙ space_of_holds (last? t) h
  | inr h ↦ ap (λ b. last? (if b then t else t ++ 32 ∷ [])) h ∙ last?-append t 32
]

last?-curl_quote : (t : Text) → last? t ≡ some 32 → last? (curl_quote t) ≡ some 32
unfolding curl_quote
last?-curl_quote [] h = h
last?-curl_quote (c ∷ []) h = ground (arith, h)
last?-curl_quote (c ∷ d ∷ t) h = h

start_with_space_lem :
    (punc : ℕ → Bool) (t : Text)
    → last? t ≡ some 32
    → (first_ok (λ c. c == 32 || punc c) (start_with_space punc t) ≡ true)
      × (last? (start_with_space punc t) ≡ some 32)
unfolding start_with_space
start_with_space_lem punc [] h = (refl, h)
start_with_space_lem punc (c ∷ t) h = elim (Bool-cases (c == 32 || punc c)) [
  | inl e ↦ (
    ap (λ b. first_ok (λ c. c == 32 || punc c) (if b then c ∷ t else 32 ∷ c ∷ t)) e ∙ e,
    ap (λ b. last? (if b then c ∷ t else 32 ∷ c ∷ t)) e ∙ h,
  )
  | inr e ↦ (
    ap (λ b. first_ok (λ c. c == 32 || punc c) (if b then c ∷ t else 32 ∷ c ∷ t)) e,
    ap (λ b. last? (if b then c ∷ t else 32 ∷ c ∷ t)) e ∙ h,
  )
]

-- Whatever infix is asked for, the one that is written starts with a space or with punctuation and
-- ends with a space.
composite_infix_spaced :
    (punc : ℕ → Bool) (words : Option Text)
    → (first_ok (λ c. c == 32 || punc c) (composite_infix punc words) ≡ true)
      × (last? (composite_infix punc words) ≡ some 32)
unfolding composite_infix
composite_infix_spaced punc words =
    let t = unwrap_or (32 ∷ []) words in
    start_with_space_lem punc (curl_quote (end_with_space t))
      (last?-curl_quote (end_with_space t) (last?-end_with_space t))

-- ===== src/Layout/Tidy.antt =====
-- The delimiters of a stream stand between cites.
use citeproc_rs.Base.{
  ℕ, Bool, true, false, ◌&&◌, Option, none, some, List, [], ◌∷◌, if◌then◌else◌, map, ◌≡◌, refl, ap,
  ◌∙◌, arith,
}
use citeproc_rs.Base.Reversed.{
  reversed, first_ok, last_ok, neighbours, last_ok-reversed, first_ok-reversed, neighbours-reversed,
  map-reverse_onto,
}
use citeproc_rs.Base.Texts.{Text}
use citeproc_rs.Collapse.{CiteInCluster, DelimKind}
use citeproc_rs.Layout.{starts_punc, ends_punc, padded_prefix, padded_suffix}
use citeproc_rs.Layout.Stream.{
  Chunk, cite, prefix, suffix, delim, pop_delim, write_prefix, write_suffix, write_cite, push_delim,
  write_delim, last_to_and, overwrite_and_position, trim_last_suffix, trim_first_prefix, finished,
}
use citeproc_rs.Layout.Cluster.{Rendering, write_flat, write_cites, in_citation}

pub data Shape : Type 0 where
  a_cite a_prefix a_suffix a_delim : Shape

module _ {B : Type 0} where
  abbrev pub shape : Chunk B → Shape
  shape (cite _) = a_cite
  shape (prefix _) = a_prefix
  shape (suffix _) = a_suffix
  shape (delim _) = a_delim

-- A prefix is of a cite that follows, a suffix of one before, and a delimiter follows a cite or its
-- suffix and is followed by a cite or its prefix.
abbrev pub may_follow : Shape → Shape → Bool
may_follow a_prefix a_cite = true
may_follow a_prefix _ = false
may_follow a_suffix a_suffix = false
may_follow a_delim a_delim = false
may_follow a_delim a_suffix = false
may_follow _ _ = true

abbrev pub may_open : Shape → Bool
may_open a_suffix = false
may_open a_delim = false
may_open _ = true

abbrev pub may_close : Shape → Bool
may_close a_prefix = false
may_close a_delim = false
may_close _ = true

-- between two cites
abbrev settled : Shape → Bool
settled a_prefix = false
settled _ = true

-- the chunks of a stream, last first
abbrev sound : List Shape → Bool
sound s = neighbours (λ a b. may_follow b a) s && (last_ok may_open s && first_ok settled s)

module _ {B : Type 0} where
  cite_sound :
      (chunks : List (Chunk B))
      → sound (map shape chunks) ≡ true
      → sound (a_cite ∷ map shape chunks) ≡ true
  cite_sound [] h = refl
  cite_sound (cite b ∷ cs) h = ground (arith, h)
  cite_sound (prefix b ∷ cs) h = ground (arith, h)
  cite_sound (suffix b ∷ cs) h = ground (arith, h)
  cite_sound (delim b ∷ cs) h = ground (arith, h)

  prefix_sound :
      (chunks : List (Chunk B))
      → sound (map shape chunks) ≡ true
      → sound (a_cite ∷ a_prefix ∷ map shape chunks) ≡ true
  prefix_sound [] h = refl
  prefix_sound (cite b ∷ cs) h = ground (arith, h)
  prefix_sound (prefix b ∷ cs) h = ground (arith, h)
  prefix_sound (suffix b ∷ cs) h = ground (arith, h)
  prefix_sound (delim b ∷ cs) h = ground (arith, h)

  pop_delim-sound :
      (chunks : List (Chunk B))
      → sound (map shape chunks) ≡ true
      → (sound (map shape (pop_delim chunks)) ≡ true)
        × (first_ok may_close (map shape (pop_delim chunks)) ≡ true)
  unfolding pop_delim
  pop_delim-sound [] h = (refl, refl)
  pop_delim-sound (cite b ∷ cs) h = (h, refl)
  pop_delim-sound (prefix b ∷ cs) h = (h, ground (arith, h))
  pop_delim-sound (suffix b ∷ cs) h = (h, refl)
  pop_delim-sound (delim d ∷ []) h = (refl, refl)
  pop_delim-sound (delim d ∷ cite b ∷ cs) h = (ground (arith, h), refl)
  pop_delim-sound (delim d ∷ prefix b ∷ cs) h = ground (arith, h)
  pop_delim-sound (delim d ∷ suffix b ∷ cs) h = (ground (arith, h), refl)
  pop_delim-sound (delim d ∷ delim e ∷ cs) h = ground (arith, h)

  -- after a prefix, or none, a cite may be written
  write_prefix-sound :
      (ws : ℕ → Bool) (pre : Option Text) (chunks : List (Chunk B))
      → sound (map shape chunks) ≡ true
      → sound (a_cite ∷ map shape (write_prefix ws pre chunks)) ≡ true
  unfolding write_prefix
  write_prefix-sound ws none chunks h = cite_sound chunks h
  write_prefix-sound ws (some pre) chunks h =
      elim (starts_punc ws pre)
        as (λ b.
          sound (a_cite ∷ a_prefix ∷ map shape (if b then pop_delim chunks else chunks)) ≡ true) [
            | true ↦ prefix_sound (pop_delim chunks) (pop_delim-sound chunks h).0
            | false ↦ prefix_sound chunks h
          ]

  write_suffix-sound :
      (suf : Option Text) (b : B) (chunks : List (Chunk B))
      → sound (a_cite ∷ map shape chunks) ≡ true
      → sound (map shape (write_suffix suf (cite b ∷ chunks))) ≡ true
  unfolding write_suffix
  write_suffix-sound none b chunks h = h
  write_suffix-sound (some suf) b chunks h = ground (arith, h)

  push_delim-sound :
      (ws : ℕ → Bool) (kind : DelimKind) (chunks : List (Chunk B))
      → sound (map shape chunks) ≡ true
      → sound (map shape (push_delim ws kind chunks)) ≡ true
  unfolding push_delim
  push_delim-sound ws kind [] h = refl
  push_delim-sound ws kind (cite b ∷ cs) h = ground (arith, h)
  push_delim-sound ws kind (prefix b ∷ cs) h = ground (arith, h)
  push_delim-sound ws kind (delim b ∷ cs) h = h
  push_delim-sound ws kind (suffix t ∷ cs) h =
      elim (ends_punc ws t)
        as (λ b.
          sound (map shape (if b then suffix t ∷ cs else delim kind ∷ suffix t ∷ cs)) ≡ true) [
            | true ↦ h
            | false ↦ ground (arith, h)
          ]

  write_delim-sound :
      (ws : ℕ → Bool) (kind : Option DelimKind) (chunks : List (Chunk B))
      → sound (map shape chunks) ≡ true
      → sound (map shape (write_delim ws kind chunks)) ≡ true
  unfolding write_delim
  write_delim-sound ws none chunks h = (pop_delim-sound chunks h).0
  write_delim-sound ws (some kind) chunks h = push_delim-sound ws kind chunks h

  shape-last_to_and : (chunks : List (Chunk B)) → map shape (last_to_and chunks) ≡ map shape chunks
  unfolding last_to_and
  shape-last_to_and [] = refl
  shape-last_to_and (cite b ∷ cs) = ap (λ s. a_cite ∷ s) (shape-last_to_and cs)
  shape-last_to_and (prefix b ∷ cs) = ap (λ s. a_prefix ∷ s) (shape-last_to_and cs)
  shape-last_to_and (suffix b ∷ cs) = ap (λ s. a_suffix ∷ s) (shape-last_to_and cs)
  shape-last_to_and (delim b ∷ cs) = refl

  shape-overwrite :
      (and_last : Option Text) (chunks : List (Chunk B))
      → map shape (overwrite_and_position and_last chunks) ≡ map shape chunks
  unfolding overwrite_and_position
  shape-overwrite none chunks = refl
  shape-overwrite (some t) chunks = shape-last_to_and chunks

  shape-trim_last :
      (ws : ℕ → Bool) (chunks : List (Chunk B))
      → map shape (trim_last_suffix ws chunks) ≡ map shape chunks
  unfolding trim_last_suffix
  shape-trim_last ws [] = refl
  shape-trim_last ws (cite b ∷ cs) = refl
  shape-trim_last ws (prefix b ∷ cs) = refl
  shape-trim_last ws (suffix b ∷ cs) = refl
  shape-trim_last ws (delim b ∷ cs) = refl

  shape-trim_first :
      (ws : ℕ → Bool) (chunks : List (Chunk B))
      → map shape (trim_first_prefix ws chunks) ≡ map shape chunks
  unfolding trim_first_prefix
  shape-trim_first ws [] = refl
  shape-trim_first ws (cite b ∷ cs) = refl
  shape-trim_first ws (prefix b ∷ cs) = refl
  shape-trim_first ws (suffix b ∷ cs) = refl
  shape-trim_first ws (delim b ∷ cs) = refl

  shape-finished :
      (ws : ℕ → Bool) (and_last : Option Text) (chunks : List (Chunk B))
      → map shape (finished ws and_last chunks) ≡ reversed (map shape (pop_delim chunks))
  unfolding finished
  shape-finished ws and_last chunks =
      let popped = pop_delim chunks in
      let marked = overwrite_and_position and_last popped in
      let trimmed = trim_last_suffix ws marked in
      shape-trim_first ws (reversed trimmed)
      ∙ (map-reverse_onto shape trimmed []
          ∙ ap reversed (shape-trim_last ws marked ∙ shape-overwrite and_last popped))

module _ {G B A F : Type 0} (r : Rendering G B A F) where
  write_flat-sound :
      (c : CiteInCluster G) (chunks : List (Chunk B))
      → sound (map shape chunks) ≡ true
      → sound (map shape (write_flat r c chunks)) ≡ true
  unfolding write_flat write_cite
  write_flat-sound c chunks h =
      let ws = r.is_whitespace in
      let built = r.flatten_or_plain c.gen4 in
      let before = write_prefix ws (padded_prefix c) chunks in
      write_delim-sound ws c.own_delimiter (write_suffix (padded_suffix c) (cite built ∷ before)) (
        write_suffix-sound (padded_suffix c) built before
          (write_prefix-sound ws (padded_prefix c) chunks h))

  write_cites-sound :
      (irs : List (CiteInCluster G)) (chunks : List (Chunk B))
      → sound (map shape chunks) ≡ true
      → sound (map shape (write_cites r irs chunks)) ≡ true
  unfolding write_cites
  write_cites-sound [] chunks h = h
  write_cites-sound (c ∷ cs) chunks h =
      write_cites-sound cs (if in_citation c.destination then write_flat r c chunks else chunks)
        (elim (in_citation c.destination)
          as (λ b. sound (map shape (if b then write_flat r c chunks else chunks)) ≡ true) [
            | true ↦ write_flat-sound c chunks h
            | false ↦ h
          ])

  -- Whatever the cites, their affixes and their delimiters, the citation that is written out neither
  -- starts nor ends with a delimiter, and has no two side by side: each stands after a cite or its
  -- suffix and before a cite or its prefix. Every prefix stands before a cite, and every suffix after
  -- one.
  pub finished-tidy :
      (and_last : Option Text) (irs : List (CiteInCluster G))
      → let shapes = map shape (finished r.is_whitespace and_last (write_cites r irs [])) in
        (neighbours may_follow shapes ≡ true)
        × ((first_ok may_open shapes ≡ true) × (last_ok may_close shapes ≡ true))
  finished-tidy and_last irs =
      let chunks = write_cites r irs [] in
      let s = map shape (pop_delim chunks) in
      let (h, closed) = pop_delim-sound chunks (write_cites-sound irs [] refl) in
      let e = shape-finished r.is_whitespace and_last chunks in
      (
        ap (neighbours may_follow) e ∙ neighbours-reversed may_follow s (ground (arith, h)),
        (
          ap (first_ok may_open) e ∙ (first_ok-reversed may_open s ∙ ground (arith, h)),
          ap (last_ok may_close) e ∙ (last_ok-reversed may_close s ∙ closed),
        ),
      )

-- ===== src/Layout/Stream.antt =====
-- `LayoutStream` of crates/proc/src/cluster/layout.rs. The chunks are a vector that is changed at its
-- end: here a list, the last chunk first, until `finish` puts them in order.
use citeproc_rs.Base.{ℕ, Bool, Option, none, some, List, [], ◌∷◌, is_empty, if◌then◌else◌}
use citeproc_rs.Base.Reversed.{reversed}
use citeproc_rs.Base.Texts.{Text, trim_start, trim_end}
use citeproc_rs.Collapse.{DelimKind, and}
use citeproc_rs.Layout.{LayoutDelimiters, delim_text, starts_punc, ends_punc}

pub data Chunk (B : Type 0) : Type 0 where
  cite : B → Chunk B
  prefix suffix : Text → Chunk B
  delim : DelimKind → Chunk B

-- what the stream asks of the output format
pub record Format (B : Type 0) (A : Type 0) (F : Type 0) : Type 0 where
  pub ingest : Text → B
  pub plain : Text → B
  pub seq : List B → B
  pub affixed : B → Option A → B
  pub with_format : B → Option F → B
  pub is_empty_build : B → Bool

module _ {B : Type 0} where
  unfoldable pub pop_delim : List (Chunk B) → List (Chunk B)
  pop_delim [] = []
  pop_delim (delim _ ∷ chunks) = chunks
  pop_delim (cite b ∷ chunks) = cite b ∷ chunks
  pop_delim (prefix t ∷ chunks) = prefix t ∷ chunks
  pop_delim (suffix t ∷ chunks) = suffix t ∷ chunks

  -- `write_cite`, up to the cite itself
  unfoldable pub write_prefix : (ℕ → Bool) → Option Text → List (Chunk B) → List (Chunk B)
  unfolding pop_delim
  write_prefix ws none chunks = chunks
  write_prefix ws (some pre) chunks =
      prefix pre ∷ (if starts_punc ws pre then pop_delim chunks else chunks)

  unfoldable pub write_suffix : Option Text → List (Chunk B) → List (Chunk B)
  write_suffix none chunks = chunks
  write_suffix (some suf) chunks = suffix suf ∷ chunks

  unfoldable pub write_cite :
      (ℕ → Bool) → Option Text → B → Option Text → List (Chunk B) → List (Chunk B)
  unfolding write_prefix write_suffix
  write_cite ws pre built suf chunks = write_suffix suf (cite built ∷ write_prefix ws pre chunks)

  -- `write_delim` of a delimiter
  unfoldable pub push_delim : (ℕ → Bool) → DelimKind → List (Chunk B) → List (Chunk B)
  push_delim ws kind [] = []
  push_delim ws kind (suffix a ∷ chunks) =
      if ends_punc ws a then suffix a ∷ chunks else delim kind ∷ suffix a ∷ chunks
  push_delim ws kind (prefix a ∷ chunks) = delim kind ∷ prefix a ∷ chunks
  push_delim ws kind (cite b ∷ chunks) = delim kind ∷ cite b ∷ chunks
  push_delim ws kind (delim _ ∷ chunks) = delim kind ∷ chunks

  unfoldable pub write_delim : (ℕ → Bool) → Option DelimKind → List (Chunk B) → List (Chunk B)
  unfolding push_delim pop_delim
  write_delim ws none chunks = pop_delim chunks
  write_delim ws (some kind) chunks = push_delim ws kind chunks

  -- `intersperse`, onto the chunks
  unfoldable pub write_interspersed : DelimKind → List B → List (Chunk B) → List (Chunk B)
  write_interspersed kind [] chunks = chunks
  write_interspersed kind (b ∷ []) chunks = cite b ∷ chunks
  write_interspersed kind (b ∷ c ∷ bs) chunks =
      write_interspersed kind (c ∷ bs) (delim kind ∷ cite b ∷ chunks)

  -- the last delimiter, if there is one, becomes `and`
  unfoldable pub last_to_and : List (Chunk B) → List (Chunk B)
  last_to_and [] = []
  last_to_and (delim _ ∷ chunks) = delim and ∷ chunks
  last_to_and (cite b ∷ chunks) = cite b ∷ last_to_and chunks
  last_to_and (prefix t ∷ chunks) = prefix t ∷ last_to_and chunks
  last_to_and (suffix t ∷ chunks) = suffix t ∷ last_to_and chunks

  unfoldable pub overwrite_and_position : Option Text → List (Chunk B) → List (Chunk B)
  unfolding last_to_and
  overwrite_and_position none chunks = chunks
  overwrite_and_position (some _) chunks = last_to_and chunks

  unfoldable pub trim_last_suffix : (ℕ → Bool) → List (Chunk B) → List (Chunk B)
  trim_last_suffix ws (suffix t ∷ chunks) = suffix (trim_end ws t) ∷ chunks
  trim_last_suffix ws chunks = chunks

  unfoldable pub trim_first_prefix : (ℕ → Bool) → List (Chunk B) → List (Chunk B)
  trim_first_prefix ws (prefix t ∷ chunks) = prefix (trim_start ws t) ∷ chunks
  trim_first_prefix ws chunks = chunks

  -- The chunks that `finish` writes out, in their order
  unfoldable pub finished : (ℕ → Bool) → Option Text → List (Chunk B) → List (Chunk B)
  unfolding pop_delim overwrite_and_position trim_last_suffix trim_first_prefix
  finished ws and_last chunks =
      trim_first_prefix ws
        (reversed (trim_last_suffix ws (overwrite_and_position and_last (pop_delim chunks))))

  -- `filter_map`
  unfoldable pub push_text : (Text → B) → Option Text → List B → List B
  push_text f none bs = bs
  push_text f (some t) bs = f t ∷ bs

module _ {B A F : Type 0} where
  unfoldable pub pieces : Format B A F → LayoutDelimiters A F → List (Chunk B) → List B
  unfolding push_text
  pieces fmt ds [] = []
  pieces fmt ds (cite b ∷ chunks) = b ∷ pieces fmt ds chunks
  pieces fmt ds (prefix t ∷ chunks) =
      push_text fmt.ingest (if is_empty t then none else some t) (pieces fmt ds chunks)
  pieces fmt ds (suffix t ∷ chunks) =
      push_text fmt.ingest (if is_empty t then none else some t) (pieces fmt ds chunks)
  pieces fmt ds (delim d ∷ chunks) = push_text fmt.plain (delim_text ds d) (pieces fmt ds chunks)

  unfoldable pub assemble : Format B A F → LayoutDelimiters A F → List (Chunk B) → Option B
  unfolding pieces
  assemble fmt ds [] = none
  assemble fmt ds (c ∷ chunks) =
      let built =
        fmt.with_format (fmt.affixed (fmt.seq (pieces fmt ds (c ∷ chunks))) ds.affixes)
          ds.formatting in
      if fmt.is_empty_build built then none else some built

  unfoldable pub finish :
      (ℕ → Bool) → Format B A F → LayoutDelimiters A F → List (Chunk B) → Option B
  unfolding finished assemble
  finish ws fmt ds chunks = assemble fmt ds (finished ws ds.and_last_delimiter chunks)

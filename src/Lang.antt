-- ===== src/Lang.antt =====
-- crates/csl/src/locale/lang.rs: languages, and the chain of locales that is searched for a term.
mod Tests
pub mod Fallback
use Prim.Native.String.{String}
use citeproc_rs.Base.{
  ℕ, suc, zero, Bool, true, false, not, List, [], ◌∷◌, ◌++◌, Option, none, some, map,
}
use citeproc_rs.Base.Iter.{drain}

pub data IsoLang : Type 0 where
  english deutsch portuguese chinese french spanish japanese arabic klingon : IsoLang
  other_lang : String → IsoLang

pub data IsoCountry : Type 0 where
  us gb au de at ch cn tw pt br jp es fr ca : IsoCountry
  other_country : String → IsoCountry

pub data Lang : Type 0 where
  iso : IsoLang → Option IsoCountry → Lang
  iana unofficial : String → Lang

pub data LocaleSource : Type 0 where
  inline : Option Lang → LocaleSource
  file : Lang → LocaleSource

unfoldable pub en_us : Lang
en_us = iso english (some us)

unfoldable pub klingon_lang : Lang
klingon_lang = iso klingon none

unfoldable pub is_english : Lang → Bool
is_english (iso english _) = true
is_english _ = false

-- `FileIter::next`: the language that follows one, if any
unfoldable pub next_file : Lang → Option Lang
unfolding en_us
next_file (iso english (some us)) = none
next_file (iso english (some _)) = some en_us
next_file (iso deutsch (some de)) = some en_us
next_file (iso deutsch (some _)) = some (iso deutsch (some de))
next_file (iso french (some fr)) = some en_us
next_file (iso french (some _)) = some (iso french (some fr))
next_file (iso portuguese (some pt)) = some en_us
next_file (iso portuguese (some _)) = some (iso portuguese (some pt))
next_file (iso chinese (some tw)) = some (iso chinese (some cn))
next_file _ = some en_us

-- `InlineIter::next`
unfoldable pub next_inline : Lang → Option Lang
next_inline (iso lang (some _)) = some (iso lang none)
next_inline _ = none

-- the inline locales, then the one with no language, then the files
unfoldable pub sources : Option (List Lang) → Option (List Lang) → Option (List LocaleSource)
sources none _ = none
sources (some is) none = none
sources (some is) (some fs) = some (map (λ x. inline (some x)) is ++ (inline none ∷ map file fs))

-- `Lang::iter`, with the two iterators drained on fuel
unfoldable pub iter : ℕ → Lang → Option (List LocaleSource)
unfolding drain next_inline next_file sources
iter fuel l = sources (drain next_inline fuel (some l)) (drain next_file fuel (some l))

-- `Lang::iter_fetchable_langs`: the languages of the file sources
unfoldable pub files_of : List LocaleSource → List Lang
files_of [] = []
files_of (file l ∷ ls) = l ∷ files_of ls
files_of (inline _ ∷ ls) = files_of ls

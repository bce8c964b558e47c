-- ===== src/Lang/Fallback.antt =====
-- The chains of fallback end, and end in American English.
use citeproc_rs.Base.{ℕ, suc, List, [], ◌∷◌, ◌++◌, none, some, ◌≡◌, refl, arith, map}
use citeproc_rs.Base.Iter.{drain}
use citeproc_rs.Lang.{
  Lang, iso, english, deutsch, french, portuguese, chinese, us, de, fr, pt, tw, cn, inline, file,
  en_us, next_file, next_inline, iter, sources,
}

-- the language of a language with a country
abbrev pub without_country : Lang → List Lang
without_country (iso lang (some _)) = iso lang none ∷ []
without_country _ = []

-- the dialect whose file stands in for that of the others of its language
abbrev pub main_dialect : Lang → List Lang
main_dialect (iso deutsch (some c)) = elim c [ de ↦ [] | _ ↦ iso deutsch (some de) ∷ [] ]
main_dialect (iso french (some c)) = elim c [ fr ↦ [] | _ ↦ iso french (some fr) ∷ [] ]
main_dialect (iso portuguese (some c)) = elim c [ pt ↦ [] | _ ↦ iso portuguese (some pt) ∷ [] ]
main_dialect (iso chinese (some c)) = elim c [ tw ↦ iso chinese (some cn) ∷ [] | _ ↦ [] ]
main_dialect _ = []

-- American English, for any other language
abbrev pub then_american : Lang → List Lang
then_american (iso english (some us)) = []
then_american _ = iso english (some us) ∷ []

drain-next_file :
    (k : ℕ) (l : Lang)
    → drain next_file (suc (suc (suc k))) (some l) ≡ some (l ∷ main_dialect l ++ then_american l)
unfolding drain next_file en_us
drain-next_file k l = ground arith

drain-next_inline :
    (k : ℕ) (l : Lang) → drain next_inline (suc (suc k)) (some l) ≡ some (l ∷ without_country l)
unfolding drain next_inline
drain-next_inline k l = ground arith

-- Three steps of fuel are enough for the chain of any language, which is: as inline locales, the
-- language and, where it has a country, the language without it; then the inline locale with no
-- language; then, as files, the language, the main dialect where it is another dialect of
-- German, French or Portuguese or the Chinese of Taiwan, and American English, each of them once.
pub iter-chain :
    (l : Lang) (k : ℕ)
    → iter (suc (suc (suc k))) l
      ≡ some (
          map (λ x. inline (some x)) (l ∷ without_country l)
          ++ (inline none ∷ map file (l ∷ main_dialect l ++ then_american l)))
unfolding iter sources
iter-chain l k = rw (drain-next_inline (suc k) l, drain-next_file k l) refl

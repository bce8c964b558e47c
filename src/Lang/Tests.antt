-- ===== src/Lang/Tests.antt =====
-- The chains of Austrian German and of a language that has no fallback of its own.
use citeproc_rs.Base.{[], ◌∷◌, ◌++◌, none, some, ◌≡◌, refl, map}
use citeproc_rs.Base.Iter.{drain}
use citeproc_rs.Lang.{
  Lang, iso, deutsch, english, at, de, us, inline, file, en_us, iter, next_file, next_inline,
}
use citeproc_rs.Lang.Fallback.{iter-chain, without_country, main_dialect, then_american}

abbrev de_at : Lang
de_at = iso deutsch (some at)

de_at_chain :
    iter 3 de_at
    ≡ some (
        inline (some de_at)
        ∷ inline (some (iso deutsch none))
        ∷ inline none
        ∷ file de_at
        ∷ file (iso deutsch (some de))
        ∷ file (iso english (some us))
        ∷ [])
unfolding iter drain next_file next_inline en_us
de_at_chain = refl

iter-chain_example :
    iter 3 de_at
    ≡ some (
        map (λ x. inline (some x)) (de_at ∷ without_country de_at)
        ++ (inline none ∷ map file (de_at ∷ main_dialect de_at ++ then_american de_at)))
iter-chain_example = iter-chain de_at 0

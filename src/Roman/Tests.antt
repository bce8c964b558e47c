-- ===== src/Roman/Tests.antt =====
-- The numeral of 1984, in capitals too.
use citeproc_rs.Base.{ℕ, List, [], ◌∷◌, none, some, ◌≡◌, refl}
use citeproc_rs.Roman.{
  to, from, returned, roman_pairs, push_pairs, push_while, read_rev, add_value, from_value, roman,
  value_in, from_lax, from_checked, eq_ignore_ascii_case, lower,
}
use citeproc_rs.Roman.RoundTrip.{from-to}

-- "mcmlxxxiv" and "MCMLXXXIV"
abbrev small : List ℕ
small = 109 ∷ 99 ∷ 109 ∷ 108 ∷ 120 ∷ 120 ∷ 120 ∷ 105 ∷ 118 ∷ []

abbrev capitals : List ℕ
capitals = 77 ∷ 67 ∷ 77 ∷ 76 ∷ 88 ∷ 88 ∷ 88 ∷ 73 ∷ 86 ∷ []

to_1984 : to 1984 ≡ returned (some small)
unfolding to push_pairs push_while roman_pairs
to_1984 = refl

-- "iiii" is read as 4 by the lax reader, and refused
refused :
    (from_lax (105 ∷ 105 ∷ 105 ∷ 105 ∷ []) ≡ some 4)
    × (from (105 ∷ 105 ∷ 105 ∷ 105 ∷ []) ≡ some none)
unfolding from from_lax read_rev add_value from_value value_in roman from_checked
    eq_ignore_ascii_case lower to push_pairs push_while roman_pairs
refused = (refl, refl)

from-to_example : from capitals ≡ some (some 1984)
unfolding eq_ignore_ascii_case lower
from-to_example = from-to 1984 small capitals to_1984 refl

-- ===== src/Position/Order.antt =====
-- `matches` reads a position as at least as specific as the condition.
use citeproc_rs.Base.{true, ◌&&◌, ◌||◌, ◌≡◌, arith}
use citeproc_rs.Position.{Position, ibid, ibid_with_locator, subsequent, near_note, matches, same}

-- Along two matches in a row: the first position matches the last condition too, and the last
-- matches the first only if all three are one; so `matches` is a partial order.
matches-IsPartialOrder :
    (p q r : Position)
    → matches p q ≡ true
    → matches q r ≡ true
    → (matches p r ≡ true) × (matches r p ≡ (same p q && same q r))
unfolding matches
matches-IsPartialOrder p q r h k = ground arith

-- The rule of the specification: what matches ibid-with-locator matches ibid, and what matches ibid
-- or near-note matches subsequent.
matches_implied :
    (p : Position)
    → (matches p ibid_with_locator ≡ (matches p ibid_with_locator && matches p ibid))
      × ((matches p ibid || matches p near_note)
          ≡ ((matches p ibid || matches p near_note) && matches p subsequent))
unfolding matches
matches_implied p = ground arith

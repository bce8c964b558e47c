-- ===== src/Position/Tests.antt =====
-- Positions against conditions.
use citeproc_rs.Base.{false, ◌≡◌, refl}
use citeproc_rs.Position.{ibid, near_note, matches}

ibid_is_no_near_note : matches ibid near_note ≡ false
unfolding matches
ibid_is_no_near_note = refl

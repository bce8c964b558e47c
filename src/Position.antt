-- ===== src/Position.antt =====
-- `Position` of crates/csl/src/style/mod.rs, and its test in a condition.
mod Tests
pub mod Order
use citeproc_rs.Base.{Bool, true, false}

pub data Position : Type 0 where
  first ibid ibid_with_locator subsequent near_note : Position
  ibid_near ibid_with_locator_near far_note : Position

-- the derived `PartialEq`
unfoldable pub same : Position → Position → Bool
same first first = true
same ibid ibid = true
same ibid_with_locator ibid_with_locator = true
same subsequent subsequent = true
same near_note near_note = true
same ibid_near ibid_near = true
same ibid_with_locator_near ibid_with_locator_near = true
same far_note far_note = true
same _ _ = false

-- `pos.matches(in_cond)`
unfoldable pub matches : Position → Position → Bool
unfolding same
matches ibid_near ibid = true
matches ibid_near near_note = true
matches ibid_near subsequent = true
matches ibid_with_locator_near ibid_with_locator = true
matches ibid_with_locator_near ibid = true
matches ibid_with_locator_near near_note = true
matches ibid_with_locator_near subsequent = true
matches ibid_with_locator ibid = true
matches ibid_with_locator subsequent = true
matches ibid subsequent = true
matches far_note subsequent = true
matches near_note subsequent = true
matches x y = same x y

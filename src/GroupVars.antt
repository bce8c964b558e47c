-- ===== src/GroupVars.antt =====
-- crates/proc/src/group.rs: what a cs:group has seen of its children, and the accumulation of it
-- in `sequence` of crates/proc/src/helpers.rs.
mod Tests
pub mod Summary
use mathlib.Core.List.{foldl}
use citeproc_rs.Base.{Bool, true, false, not, ◌&&◌, List, if◌then◌else◌}

pub data GroupVars : Type 0 where
  plain missing important unresolved unresolved_missing unresolved_plain : GroupVars

-- the derived `PartialEq`
unfoldable pub same : GroupVars → GroupVars → Bool
same plain plain = true
same missing missing = true
same important important = true
same unresolved unresolved = true
same unresolved_missing unresolved_missing = true
same unresolved_plain unresolved_plain = true
same _ _ = false

abbrev pub new : GroupVars
new = plain

unfoldable pub rendered_if : Bool → GroupVars
rendered_if b = if b then important else missing

unfoldable pub neighbour : GroupVars → GroupVars → GroupVars
neighbour important _ = important
neighbour _ important = important
neighbour unresolved missing = unresolved_missing
neighbour missing unresolved = unresolved_missing
neighbour unresolved_missing missing = unresolved_missing
neighbour missing unresolved_missing = unresolved_missing
neighbour unresolved_missing unresolved = unresolved_missing
neighbour unresolved unresolved_missing = unresolved_missing
neighbour plain unresolved_missing = unresolved_missing
neighbour unresolved_missing plain = unresolved_missing
neighbour unresolved_missing unresolved_missing = unresolved_missing
neighbour unresolved_missing unresolved_plain = unresolved_missing
neighbour unresolved_plain unresolved_missing = unresolved_missing
neighbour unresolved_plain missing = unresolved_missing
neighbour missing unresolved_plain = unresolved_missing
neighbour unresolved_plain unresolved_plain = unresolved_plain
neighbour unresolved_plain unresolved = unresolved_plain
neighbour unresolved unresolved_plain = unresolved_plain
neighbour unresolved_plain plain = unresolved_plain
neighbour plain unresolved_plain = unresolved_plain
neighbour unresolved plain = unresolved_plain
neighbour plain unresolved = unresolved_plain
neighbour missing missing = missing
neighbour missing plain = missing
neighbour plain missing = missing
neighbour plain plain = plain
neighbour unresolved unresolved = unresolved

unfoldable pub should_render_tree : GroupVars → Bool
unfolding same
should_render_tree gv =
    not (same gv missing) && not (same gv unresolved_missing) && not (same gv unresolved)

-- `T` is any type of output with a default and a test for equality.
module _ {ℓ} {T : Type ℓ} (default : T) (eq : T → T → Bool) where
  unfoldable pub implicit_conditional : GroupVars → T → T × GroupVars
  unfolding same
  implicit_conditional gv ir =
      if same gv missing
      then (default, missing)
      else if eq ir default
      then (default, plain)
      else (ir, if same gv plain then important else gv)

-- `overall_gv` after the loop over the children
unfoldable pub overall : List GroupVars → GroupVars
overall gvs = foldl neighbour new gvs

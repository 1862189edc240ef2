-- ===== src/Rtree/Sort.antt =====
-- The sort of tom_rtree.h, as the macros `RTREE_SORT_INLINE` and `RTREE_COMPARE_ALONG_AXIS` expand
-- it. The comparison has no parentheses around it: `_j > 0 && COMPARE > 0` is read as
-- `(_j > 0 && a.min < b.min) ? -1 : a.min > b.min ? 1 : ... : 0 > 0`, which is not 0 if the two
-- differ in any way, and which reads `(array)[-1]` when `_j` is 0.
pub mod Laws
pub mod Boxes
use tom_libs.Common.{
  if◌then◌else◌, length, get_elem?, set, ℕ, zero, suc, ◌+◌, ◌-◌, Bool, true, List, [], ◌∷◌,
}
use tom_libs.Common.Run.{Run, ok, fault, ◌>>=◌, ◌>>◌, or_fault}
use tom_libs.Rtree.Box.{Axis, Box, lt}

-- `order[i] = i` for the `n` numbers from `i` on
unfoldable pub range_from : ℕ → ℕ → List ℕ
range_from i zero = []
range_from i (suc n) = i ∷ range_from (i + 1) n

-- The inner loop at `_j`, with `differs` for the comparison.
unfoldable pub sink : (ℕ → ℕ → Run Bool) → List ℕ → ℕ → Run (List ℕ)
sink differs order zero = fault
sink differs order (suc j) = do
  a ← or_fault (get_elem? order j)
  b ← or_fault (get_elem? order (suc j))
  d ← differs a b
  let rest = sink differs (set (set order (suc j) a) j b) j
  if d then rest else ok order

-- The outer loop: `n` rounds are left, the next is for `_i`.
unfoldable pub sort_from : (ℕ → ℕ → Run Bool) → List ℕ → ℕ → ℕ → Run (List ℕ)
unfolding sink
sort_from differs order i zero = ok order
sort_from differs order i (suc n) = do sunk ← sink differs order i; sort_from differs sunk (i + 1) n

-- `RTREE_SORT_INLINE`
unfoldable pub sort_inline : (ℕ → ℕ → Run Bool) → List ℕ → ℕ → Run (List ℕ)
unfolding sort_from
sort_inline differs order count = sort_from differs order 1 (count - 1)

module _ {C : Type 0} (le : C → C → Bool) where
  -- the comparison as it is read where `_j > 0`
  unfoldable pub axes_differ : Axis C → Axis C → Bool
  axes_differ a b =
      if lt le a.low b.low
      then true
      else if lt le b.low a.low
      then true
      else if lt le a.high b.high
      then true
      else lt le b.high a.high

  -- `box[i]` along an axis
  unfoldable pub axis_of : List (Box C) → ℕ → ℕ → Run (Axis C)
  axis_of boxes axis i = do box ← or_fault (get_elem? boxes i); or_fault (get_elem? box axis)

  -- `RTREE_COMPARE_ALONG_AXIS`
  unfoldable pub compare_along_axis : List (Box C) → ℕ → ℕ → ℕ → Run Bool
  unfolding axes_differ axis_of
  compare_along_axis boxes axis a b = do
    x ← axis_of boxes axis a
    y ← axis_of boxes axis b
    ok (axes_differ x y)

  -- the order of the boxes along an axis
  unfoldable pub sorted_along : List (Box C) → ℕ → Run (List ℕ)
  unfolding sort_inline range_from compare_along_axis
  sorted_along boxes axis =
      sort_inline (compare_along_axis boxes axis) (range_from 0 (length boxes)) (length boxes)

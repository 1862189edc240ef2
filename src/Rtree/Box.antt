-- ===== src/Rtree/Box.antt =====
-- The boxes of tom_rtree.h. A coordinate is a float that is not NaN: of the tests on such numbers
-- only `<=` is used here, which is a parameter, and `a < b` is that `b <= a` does not hold.
pub mod Laws
pub mod Union
use tom_libs.Common.{if◌then◌else◌, Bool, true, false, not, ◌||◌, List, [], ◌∷◌}

-- one axis of a `struct rtree_box`
pub record Axis (C : Type 0) : Type 0 where
  pub low : C
  pub high : C

-- `struct rtree_box`, axis by axis
abbrev pub Box : Type 0 → Type 0
Box C = List (Axis C)

module _ {C : Type 0} (le : C → C → Bool) where
  abbrev pub lt : C → C → Bool
  lt a b = not (le b a)

  -- `RTREE_MIN` and `RTREE_MAX`
  abbrev pub min_of : C → C → C
  min_of a b = if lt a b then a else b

  abbrev pub max_of : C → C → C
  max_of a b = if lt b a then a else b

  -- `rtree_boxes_overlap`
  unfoldable pub boxes_overlap : Box C → Box C → Bool
  boxes_overlap (a ∷ xs) (b ∷ ys) =
      let rest = boxes_overlap xs ys in if le a.high b.low || le b.high a.low then false else rest
  boxes_overlap _ _ = true

  -- `rtree_box_union`
  unfoldable pub box_union : Box C → Box C → Box C
  box_union (a ∷ xs) (b ∷ ys) =
      record { low = min_of a.low b.low; high = max_of a.high b.high } ∷ box_union xs ys
  box_union _ _ = []

  -- an axis of `rtree_box_intersection`; a gap is closed
  unfoldable pub meet : Axis C → Axis C → Axis C
  meet a b =
      let low = max_of a.low b.low in
      let high = min_of a.high b.high in
      record { low = low; high = if lt high low then low else high }

  -- `rtree_box_intersection`
  unfoldable pub box_intersection : Box C → Box C → Box C
  unfolding meet
  box_intersection (a ∷ xs) (b ∷ ys) = meet a b ∷ box_intersection xs ys
  box_intersection _ _ = []

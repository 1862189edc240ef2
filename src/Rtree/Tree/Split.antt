-- ===== src/Rtree/Tree/Split.antt =====
-- `rtree_split` of tom_rtree.h and what it is made of.
pub mod Laws
use tom_libs.Common.{
  ltb, leb, if◌then◌else◌, length, get_elem?, set, take, drop, replicate, ℕ, zero, suc, ◌+◌, ◌-◌,
  ◌*◌, Bool, Option, none, some, List, [], ◌∷◌,
}
use tom_libs.Common.Run.{Run, ok, fault, ◌>>=◌, ◌>>◌, assert, or_fault}
use tom_libs.Rtree.Box.{Box, box_union}
use tom_libs.Rtree.Sort.{sorted_along}
use tom_libs.Rtree.Tree.{Floats, min_children, Node, box_margin, least_from}

module _ {C : Type 0} (f : Floats C) where
  -- a score for each axis; `n` axes are left, the next is `axis`
  unfoldable pub axis_scores : List (Box C) → ℕ → ℕ → Run (List C)
  unfolding sorted_along
  axis_scores boxes axis zero = ok []
  axis_scores boxes axis (suc n) = do
    order ← sorted_along f.le boxes axis
    assert (leb (2 * min_children) (length boxes))
    scores ← axis_scores boxes (axis + 1) n
    ok (f.zero_of ∷ scores)

  -- `rtree_choose_split_axis`
  unfoldable pub choose_split_axis : List (Box C) → Run ℕ
  unfolding axis_scores least_from
  choose_split_axis boxes = do scores ← axis_scores boxes 0 3; least_from f scores 0 1 2

  -- `costs[i] += cost`
  unfoldable pub add_cost : List C → ℕ → C → Run (List C)
  add_cost costs i cost = do c ← or_fault (get_elem? costs i); ok (set costs i (f.add c cost))

  -- the loop over the costs of `rtree_choose_split_index`: `n` rounds are left, the next is `i`
  unfoldable pub cost_loop : List (Box C) → List C → Box C → Box C → ℕ → ℕ → Run (List C)
  unfolding add_cost box_margin box_union
  cost_loop boxes costs below above i zero = ok costs
  cost_loop boxes costs below above i (suc n) = do
    from_below ← add_cost costs i (box_margin f below)
    from_both ← add_cost from_below (length boxes - 1 - i) (box_margin f above)
    b ← or_fault (get_elem? boxes i)
    a ← or_fault (get_elem? boxes (length boxes - 1 - i))
    cost_loop boxes from_both (box_union f.le below b) (box_union f.le above a) (i + 1) n

  -- the last loop of `rtree_choose_split_index`; below 26 children its bound wraps around, and it
  -- reads behind the costs
  unfoldable pub split_index_of : List C → ℕ → Run ℕ
  unfolding least_from
  split_index_of costs count =
      if ltb count min_children
      then fault
      else least_from f costs min_children (min_children + 1)
          (count - min_children - (min_children + 1))

  -- `rtree_choose_split_index`
  unfoldable pub choose_split_index : Node C → ℕ → Run ℕ
  unfolding sorted_along cost_loop split_index_of
  choose_split_index node axis = do
    order ← sorted_along f.le node.boxes axis
    above ← or_fault (get_elem? node.boxes (length node.boxes - 1))
    below ← or_fault (get_elem? node.boxes 0)
    costs ← cost_loop node.boxes (replicate 64 f.zero_of) below above 1 (length node.boxes - 1)
    split_index_of costs (length node.boxes)

-- the elements that an order names
unfoldable pub gather : {A : Type 0} → List A → List ℕ → Run (List A)
gather xs [] = ok []
gather xs (i ∷ is) = do x ← or_fault (get_elem? xs i); rest ← gather xs is; ok (x ∷ rest)

-- the copies out of the sorted arrays
unfoldable pub spread : {C : Type 0} → ℕ → List (Box C) → List ℕ → Run (Node C × Option (Node C))
spread split_index boxes children =
    if ltb (length boxes) split_index
    then fault
    else ok (
      record { boxes = take split_index boxes; children = take split_index children },
      some (record { boxes = drop split_index boxes; children = drop split_index children }),
    )

module _ {C : Type 0} (f : Floats C) where
  -- `rtree_distribute`, given whether there is memory: the node, and the other one
  unfoldable pub distribute : Bool → Node C → ℕ → ℕ → Run (Node C × Option (Node C))
  unfolding sorted_along gather spread
  distribute memory node axis split_index = do
    order ← sorted_along f.le node.boxes axis
    boxes ← gather node.boxes order
    children ← gather node.children order
    if memory then spread split_index boxes children else ok (node, none)

  -- `rtree_split`
  unfoldable pub split : Bool → Node C → Run (Node C × Option (Node C))
  unfolding choose_split_axis choose_split_index distribute
  split memory node = do
    axis ← choose_split_axis f node.boxes
    index ← choose_split_index f node axis
    distribute memory node axis index

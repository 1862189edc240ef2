-- ===== src/Rtree/Tree.antt =====
-- The nodes of tom_rtree.h, and the choice of the leaf for a new box.
pub mod Split
pub mod Least
pub mod Descend
use tom_libs.Common.{
  ltb, if◌then◌else◌, length, get_elem?, ℕ, zero, suc, ◌+◌, ◌-◌, ◌%◌, Bool, true, false, Option,
  none, some, List, [], ◌∷◌, map,
}
use tom_libs.Common.Ints.{u32_mod}
use tom_libs.Common.Run.{Run, ok, ◌>>=◌, ◌>>◌, assert, or_fault}
use tom_libs.Rtree.Box.{Box, lt, box_union}

-- what is computed with floats, none of which is NaN
pub record Floats (C : Type 0) : Type 0 where
  pub le : C → C → Bool
  pub zero_of : C
  pub one_of : C
  pub add : C → C → C
  pub subtract : C → C → C
  pub multiply : C → C → C

-- `RTREE_MIN_CHILDREN`
abbrev pub min_children : ℕ
min_children = 26

-- `struct rtree_node`, up to its `count`. A child is an id or an address.
pub record Node (C : Type 0) : Type 0 where
  pub boxes : List (Box C)
  pub children : List ℕ

-- `struct rtree` less its lock, and the nodes by their addresses
pub record Tree (C : Type 0) : Type 0 where
  pub nodes : ℕ → Option (Node C)
  pub root : Option ℕ
  pub height : ℕ

-- `rtree_create`, given whether there is memory
unfoldable pub create : {C : Type 0} → (ℕ → Option (Node C)) → Bool → Option (Tree C)
create nodes memory =
    if memory then some (record { nodes = nodes; root = none; height = 0 }) else none

-- `rtree_insert`: what it returns, and the tree; `none` is NULL
unfoldable pub insert : {C : Type 0} → Option (Tree C) → Box C → Bool × Option (Tree C)
insert none box = (false, none)
insert (some t) box = (true, some t)

module _ {C : Type 0} (f : Floats C) where
  -- the loops of `rtree_box_margin` and `rtree_box_area`
  unfoldable pub margin_from : C → Box C → C
  margin_from margin [] = margin
  margin_from margin (a ∷ xs) = margin_from (f.add margin (f.subtract a.high a.low)) xs

  unfoldable pub area_from : C → Box C → C
  area_from area [] = area
  area_from area (a ∷ xs) = area_from (f.multiply area (f.subtract a.high a.low)) xs

  -- `rtree_box_margin`
  unfoldable pub box_margin : Box C → C
  unfolding margin_from
  box_margin box = margin_from f.zero_of box

  -- `rtree_box_area`
  unfoldable pub box_area : Box C → C
  unfolding area_from
  box_area box = area_from f.one_of box

  -- A search for the least of some costs: `n` are left, the next has index `i`.
  unfoldable pub least_from : List C → ℕ → ℕ → ℕ → Run ℕ
  least_from costs best i zero = ok best
  least_from costs best i (suc n) = do
    a ← or_fault (get_elem? costs i)
    b ← or_fault (get_elem? costs best)
    least_from costs (if lt f.le a b then i else best) (i + 1) n

  -- `costs` of `rtree_choose_subtree`
  abbrev pub area_costs : List (Box C) → Box C → List C
  area_costs boxes new_box = map (λ box. box_area (box_union f.le box new_box)) boxes

  -- the child that `rtree_choose_subtree` goes on with
  unfoldable pub best_child : Node C → Box C → Run ℕ
  unfolding least_from box_area box_union
  best_child node new_box = do
    assert (ltb 0 (length node.boxes))
    best ← least_from (area_costs node.boxes new_box) 0 1 (length node.boxes - 1)
    or_fault (get_elem? node.children best)

  -- the loop of `rtree_choose_subtree`: the path, and the leaf at its end
  unfoldable pub descend : (ℕ → Option (Node C)) → Box C → ℕ → ℕ → Run (List ℕ × ℕ)
  unfolding best_child
  descend nodes new_box zero p = ok ([], p)
  descend nodes new_box (suc level) p = do
    node ← or_fault (nodes p)
    child ← best_child node new_box
    (path, leaf) ← descend nodes new_box level child
    ok (p ∷ path, leaf)

  unfoldable pub choose_from : Tree C → Box C → Option ℕ → Run (Option (List ℕ × ℕ))
  unfolding descend
  choose_from t new_box none = ok none
  choose_from t new_box (some p) =
      descend t.nodes new_box ((t.height + u32_mod - 1) % u32_mod) p >>= λ r. ok (some r)

  -- `rtree_choose_subtree`: the path and the leaf, or `none` for NULL
  unfoldable pub choose_subtree : Option (Tree C) → Box C → Run (Option (List ℕ × ℕ))
  unfolding choose_from
  choose_subtree none new_box = ok none
  choose_subtree (some t) new_box = choose_from t new_box t.root

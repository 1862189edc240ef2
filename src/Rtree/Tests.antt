-- ===== src/Rtree/Tests.antt =====
-- The theorems on boxes and nodes at concrete ones.
use tom_libs.Common.{
  leb, ◌==◌, if◌then◌else◌, length, get_elem?, replicate, ℕ, zero, suc, ◌+◌, ◌-◌, ◌*◌, ◌≤◌, ◌<◌,
  ◌≡◌, refl, subst, ◌⊎◌, true, some, List, [], ◌∷◌, arith,
}
use tom_libs.Common.Run.{ok, fault}
use tom_libs.Rtree.Box.{Axis, Box, boxes_overlap, box_union, box_intersection}
use tom_libs.Rtree.Tree.{Floats, min_children, Node, Tree, choose_subtree}
use tom_libs.Rtree.Tree.Descend.{TreeAt, Descends, choose_subtree-Descends}
use tom_libs.Rtree.Tree.Split.{split}
use tom_libs.Rtree.Tree.Split.Laws.{IsFull, AgreeAlong, DifferAlong, cut_at, split_lem}
use tom_libs.Rtree.Box.Union.{Within, box_union_lem}
use tom_libs.Rtree.Box.Laws.{IsOrder, is_open, boxes_overlap-box_intersection}

leb-IsOrder : IsOrder leb
leb-IsOrder = record {
  reflexive = λ a. ground arith;
  transitive = λ a b c p q. ground arith;
  total = λ a b p. ground arith;
}

abbrev one_box : Box ℕ
one_box = record { low = 0; high = 4 } ∷ record { low = 1; high = 3 } ∷ []

abbrev other_box : Box ℕ
other_box = record { low = 2; high = 6 } ∷ record { low = 0; high = 2 } ∷ []

boxes_overlap-box_intersection_example :
    boxes_overlap leb one_box other_box
    ≡ is_open leb leb-IsOrder (box_intersection leb one_box other_box)
boxes_overlap-box_intersection_example =
    boxes_overlap-box_intersection leb leb-IsOrder one_box other_box refl refl

box_union_lem_example :
    Within leb leb-IsOrder one_box (box_union leb one_box other_box)
    × Within leb leb-IsOrder other_box (box_union leb one_box other_box)
    × ((c : Box ℕ)
        → Within leb leb-IsOrder one_box c
        → Within leb leb-IsOrder other_box c
        → Within leb leb-IsOrder (box_union leb one_box other_box) c)
box_union_lem_example = box_union_lem leb leb-IsOrder one_box other_box refl

abbrev numbers : Floats ℕ
numbers = record {
  le = leb;
  zero_of = 0;
  one_of = 1;
  add = λ a b. a + b;
  subtract = λ a b. a - b;
  multiply = λ a b. a * b;
}

abbrev side : Axis ℕ
side = record { low = 0; high = 1 }

abbrev far : Axis ℕ
far = record { low = 8; high = 9 }

abbrev cube : Box ℕ
cube = side ∷ side ∷ side ∷ []

abbrev far_cube : Box ℕ
far_cube = far ∷ far ∷ far ∷ []

abbrev full_node : Node ℕ
full_node = record { boxes = replicate 52 cube; children = replicate 52 0 }

replicate-three :
    (n i : ℕ) (box : Box ℕ) → get_elem? (replicate n cube) i ≡ some box → length box ≡ 3
replicate-three zero i box h = absurd cc
replicate-three (suc n) zero box h =
    subst (λ (b : Box ℕ). length b ≡ 3) {x = cube} {y = box} (cc) refl
replicate-three (suc n) (suc i) box h = replicate-three n i box h

full_node-IsFull : IsFull full_node
full_node-IsFull = record {
  three_axes = replicate-three 52;
  as_many = refl;
  enough = omega arith;
  at_most = omega arith;
}

split_lem_example :
    (((axis : ℕ) → axis < 3 → AgreeAlong numbers leb-IsOrder full_node full_node-IsFull side axis)
      × ((k : ℕ) × (min_children ≤ k)
          × (k + min_children ≤ 52)
          × (split numbers true full_node
              ≡ ok (cut_at numbers leb-IsOrder full_node full_node-IsFull side k))))
    ⊎ (((axis : ℕ) × (axis < 3)
          × DifferAlong numbers leb-IsOrder full_node full_node-IsFull side axis)
        × (split numbers true full_node ≡ fault))
split_lem_example = split_lem numbers leb-IsOrder full_node full_node-IsFull side

abbrev small_tree : Tree ℕ
small_tree = record {
  nodes = λ p.
      if p == 5
      then some (record { boxes = cube ∷ far_cube ∷ []; children = 6 ∷ 7 ∷ [] })
      else some (record { boxes = cube ∷ []; children = 1 ∷ [] });
  root = some 5;
  height = 2;
}

small_tree-TreeAt : TreeAt numbers leb-IsOrder small_tree.nodes 1 5
small_tree-TreeAt = (
  record { boxes = cube ∷ far_cube ∷ []; children = 6 ∷ 7 ∷ [] },
  refl,
  omega arith,
  refl,
  leaf_at,
)
  where
    leaf_at :
        (i c : ℕ)
        → get_elem? (6 ∷ 7 ∷ []) i ≡ some c
        → TreeAt numbers leb-IsOrder small_tree.nodes 0 c
    leaf_at zero c h =
        subst (TreeAt numbers leb-IsOrder small_tree.nodes 0) {x = 6} {y = c} (cc)
          (record { boxes = cube ∷ []; children = 1 ∷ [] }, refl)
    leaf_at (suc zero) c h =
        subst (TreeAt numbers leb-IsOrder small_tree.nodes 0) {x = 7} {y = c} (cc)
          (record { boxes = cube ∷ []; children = 1 ∷ [] }, refl)
    leaf_at (suc (suc i)) c h = absurd cc

choose_subtree-Descends_example :
    (path : List ℕ) × (leaf : ℕ) × (choose_subtree numbers (some small_tree) far_cube
      ≡ ok (some (path, leaf)))
    × Descends numbers leb-IsOrder small_tree.nodes far_cube 1 5 path leaf
    × TreeAt numbers leb-IsOrder small_tree.nodes 0 leaf
choose_subtree-Descends_example =
    choose_subtree-Descends numbers leb-IsOrder small_tree far_cube 1 refl refl (omega arith)
      small_tree-TreeAt

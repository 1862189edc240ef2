-- ===== src/Rtree/Tree/Descend.antt =====
-- The way that `rtree_choose_subtree` goes down the tree.
use tom_libs.Common.{
  if◌then◌else◌, lt→ltb, length, get_elem?, get_or, length-map, ℕ, zero, suc, ◌+◌, ◌-◌, ◌%◌, ◌<◌,
  ◌≡◌, refl, sym, ap, ◌∙◌, subst, Bool, true, false, not, Option, some, List, [], ◌∷◌, arith,
}
use tom_libs.Common.Ints.{u32_mod}
use tom_libs.Common.Run.{ok}
use tom_libs.Rtree.Box.{Box, lt, min_of, max_of, box_union}
use tom_libs.Rtree.Box.Laws.{IsOrder}
use tom_libs.Rtree.Sort.Boxes.{get_elem?-get_or}
use tom_libs.Rtree.Tree.{
  Floats, Node, Tree, area_from, box_area, area_costs, best_child, descend, choose_from,
  choose_subtree,
}
use tom_libs.Rtree.Tree.Least.{IsLeast, least_from-IsLeast, IsLeast-first}

module _ {C : Type 0} (f : Floats C) (order : IsOrder f.le) (nodes : ℕ → Option (Node C)) where
  -- At `p` is a node with at least one child, or a leaf, with `level` levels of nodes below it.
  abbrev pub TreeAt : ℕ → ℕ → Type 0
  TreeAt zero p = (node : Node C) × (nodes p ≡ some node)
  TreeAt (suc level) p =
      (node : Node C) × (nodes p ≡ some node)
      × (0 < length node.boxes)
      × (length node.children ≡ length node.boxes)
      × ((i c : ℕ) → get_elem? node.children i ≡ some c → TreeAt level c)

  -- The product of the extents of the box around two boxes, axis by axis
  abbrev pub enlarged : C → Box C → Box C → C
  enlarged area (a ∷ xs) (b ∷ ys) =
      enlarged
        (f.multiply area (
          f.subtract (if f.le a.high b.high then b.high else a.high)
            (if f.le b.low a.low then b.low else a.low)))
        xs ys
  enlarged area _ _ = area

  -- The path leads from `p` to the leaf, at each node to a child with a box: around it and the new
  -- box there is no more area than around any other child's and the new box.
  pub data Descends (new_box : Box C) : ℕ → ℕ → List ℕ → ℕ → Type 0 where
    at_leaf : (leaf : ℕ) → Descends new_box 0 leaf [] leaf
    through :
        {level p leaf : ℕ} {path : List ℕ} (node : Node C) (i child : ℕ)
        → nodes p ≡ some node
        → get_elem? node.children i ≡ some child
        → (mine : Box C) → get_elem? node.boxes i ≡ some mine
        → ((k : ℕ) (other : Box C)
            → get_elem? node.boxes k ≡ some other
            → f.le (enlarged f.one_of mine new_box) (enlarged f.one_of other new_box) ≡ true)
        → Descends new_box level child path leaf
        → Descends new_box (suc level) p (p ∷ path) leaf

  swap_if : (b : Bool) (x y : C) → (if not b then x else y) ≡ (if b then y else x)
  swap_if true x y = refl
  swap_if false x y = refl

  area_union : (area : C) (a b : Box C) → area_from f area (box_union f.le a b) ≡ enlarged area a b
  unfolding area_from box_union
  area_union area [] b = refl
  area_union area (a ∷ xs) [] = refl
  area_union area (a ∷ xs) (b ∷ ys) =
      area_union
        (f.multiply area (f.subtract (max_of f.le a.high b.high) (min_of f.le a.low b.low))) xs ys
      ∙ ap (λ (h : C). enlarged (f.multiply area (f.subtract h (min_of f.le a.low b.low))) xs ys)
          (swap_if (f.le a.high b.high) a.high b.high)
      ∙ ap
          (λ (l : C).
            enlarged
              (f.multiply area (f.subtract (if f.le a.high b.high then b.high else a.high) l)) xs
              ys)
          (swap_if (f.le b.low a.low) a.low b.low)

  costs-at :
      (boxes : List (Box C)) (new_box : Box C) (k : ℕ) (other : Box C)
      → get_elem? boxes k ≡ some other
      → get_or (area_costs f boxes new_box) k f.zero_of ≡ enlarged f.one_of other new_box
  unfolding box_area
  costs-at [] new_box k other h = absurd cc
  costs-at (b ∷ bs) new_box zero other h =
      let same : b ≡ other = cc in
      area_union f.one_of b new_box ∙ ap (λ (x : Box C). enlarged f.one_of x new_box) same
  costs-at (b ∷ bs) new_box (suc k) other h = costs-at bs new_box k other h

  in_range :
      (boxes : List (Box C)) (k : ℕ) (b : Box C) → get_elem? boxes k ≡ some b → k < length boxes
  in_range [] k b h = absurd cc
  in_range (x ∷ xs) zero b h = omega arith
  in_range (x ∷ xs) (suc k) b h = omega (arith, in_range xs k b h)

  least_area :
      (boxes : List (Box C)) (new_box : Box C) (i k : ℕ) (mine other : Box C)
      → IsLeast f order (area_costs f boxes new_box) 0 (length boxes) i
      → get_elem? boxes i ≡ some mine
      → get_elem? boxes k ≡ some other
      → f.le (enlarged f.one_of mine new_box) (enlarged f.one_of other new_box) ≡ true
  least_area boxes new_box i k mine other l here there =
      let no_less = l.least k (omega arith) (in_range boxes k other there) in
      let first = costs-at boxes new_box i mine here in
      let second = costs-at boxes new_box k other there in
      not_false (f.le (enlarged f.one_of mine new_box) (enlarged f.one_of other new_box)) (
        ap (λ (c : C). lt f.le (enlarged f.one_of other new_box) c) (sym first)
        ∙ ap (λ (c : C). lt f.le c (get_or (area_costs f boxes new_box) i f.zero_of)) (sym second)
        ∙ no_less)
    where
      not_false : (b : Bool) → not b ≡ false → b ≡ true
      not_false b h = ground arith

  best_child-IsLeast :
      (node : Node C) (new_box : Box C)
      → 0 < length node.boxes
      → length node.children ≡ length node.boxes
      → (i child : ℕ) × (best_child f node new_box ≡ ok child)
        × (get_elem? node.children i ≡ some child)
        × IsLeast f order (area_costs f node.boxes new_box) 0 (length node.boxes) i
  unfolding best_child
  best_child-IsLeast node new_box h same =
      let costs = area_costs f node.boxes new_box in
      let len : length costs ≡ length node.boxes = length-map node.boxes _ in
      let (r, e, l) =
        least_from-IsLeast f order costs 0 0 1 (length node.boxes - 1)
          (IsLeast-first f order costs 0) (omega arith) (omega (arith, len)) in
      let there = get_elem?-get_or node.children r 0 (omega (arith, same, l.below_high)) in
      (
        r,
        get_or node.children r 0,
        rw (lt→ltb 0 (length node.boxes) h, e, there),
        there,
        subst (λ (k : ℕ). IsLeast f order costs 0 k r) (omega arith) l,
      )

  descend-Descends :
      (new_box : Box C) (level p : ℕ)
      → TreeAt level p
      → (path : List ℕ) × (leaf : ℕ) × (descend f nodes new_box level p ≡ ok (path, leaf))
        × Descends new_box level p path leaf
        × TreeAt 0 leaf
  unfolding descend
  descend-Descends new_box zero p t = ([], p, refl, at_leaf p, t)
  descend-Descends new_box (suc level) p (node, there, has, same, below) =
      let (i, child, e, c, l) = best_child-IsLeast node new_box has same in
      let (path, leaf, g, d, t) = descend-Descends new_box level child (below i child c) in
      let here = get_elem?-get_or node.boxes i [] l.below_high in
      (
        p ∷ path,
        leaf,
        rw (there, e, g),
        through node i child there c (get_or node.boxes i []) here
            (λ k other there. least_area node.boxes new_box i k _ other l here there) d,
        t,
      )

-- In a tree as high as it says, `rtree_choose_subtree` ends at a leaf, with the path to it: it
-- neither fails its assertion nor reads out of bounds, and at each node of the path it goes on with
-- a child whose box has the least area around it and the new box, computed as the product of the
-- extents.
pub choose_subtree-Descends :
    {C : Type 0} (f : Floats C) (order : IsOrder f.le) (t : Tree C) (new_box : Box C) {p : ℕ}
    (level : ℕ)
    → t.root ≡ some p
    → t.height ≡ level + 1
    → t.height < u32_mod
    → TreeAt f order t.nodes level p
    → (path : List ℕ) × (leaf : ℕ) × (choose_subtree f (some t) new_box ≡ ok (some (path, leaf)))
      × Descends f order t.nodes new_box level p path leaf
      × TreeAt f order t.nodes 0 leaf
unfolding choose_subtree choose_from
choose_subtree-Descends f order t new_box level there high short tree =
    let (path, leaf, e, d, l) = descend-Descends f order t.nodes new_box level _ tree in
    let levels : (t.height + u32_mod - 1) % u32_mod ≡ level = omega (arith, high, short) in
    (path, leaf, rw (there, levels, e), d, l)

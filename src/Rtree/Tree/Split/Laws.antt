-- ===== src/Rtree/Tree/Split/Laws.antt =====
-- What `rtree_split` does with a node.
use tom_libs.Rtree.Tree.Least.{least_from-IsLeast, IsLeast-first}
use tom_libs.Common.{
  ltb, leb, length, get_elem?, set, length-set, get_or, take, drop, replicate, length-replicate, ℕ,
  zero, suc, ◌+◌, ◌-◌, ◌≤◌, ◌<◌, ◌≡◌, refl, subst, ◌⊎◌, inl, inr, Bool, true, false, Option, some,
  List, [], ◌∷◌, arith,
}
use tom_libs.Common.Run.{ok, fault}
use tom_libs.Rtree.Box.{Axis, Box, box_union}
use tom_libs.Rtree.Box.Laws.{IsOrder}
use tom_libs.Rtree.Sort.{range_from, axes_differ, sorted_along}
use tom_libs.Rtree.Sort.Laws.{AllSame}
use tom_libs.Rtree.Sort.Boxes.{AreBoxes, get_elem?-get_or, sorted_along_lem}
use tom_libs.Rtree.Tree.{Floats, min_children, Node, box_margin, least_from}
use tom_libs.Rtree.Tree.Split.{
  axis_scores, choose_split_axis, add_cost, cost_loop, split_index_of, choose_split_index, gather,
  spread, distribute, split,
}

-- In the order that they are in, the elements are the elements.
gather-from :
    {A : Type 0} (ys xs : List A) (i : ℕ)
    → ((k : ℕ) (x : A) → get_elem? xs k ≡ some x → get_elem? ys (i + k) ≡ some x)
    → gather ys (range_from i (length xs)) ≡ ok xs
unfolding gather range_from
gather-from ys [] i same = refl
gather-from ys (x ∷ xs) i same =
    let none_on : i + 0 ≡ i = omega arith in
    let first = subst (λ (j : ℕ). get_elem? ys j ≡ some x) none_on (same 0 x refl) in
    let rest = gather-from ys xs (i + 1) (λ k z h.
      let on : i + suc k ≡ i + 1 + k = omega arith in
      subst (λ (j : ℕ). get_elem? ys j ≡ some z) on (same (suc k) z h)) in
    rw (first, rest)

gather-range :
    {A : Type 0} (xs : List A) (n : ℕ) → length xs ≡ n → gather xs (range_from 0 n) ≡ ok xs
gather-range xs n h =
    subst (λ (m : ℕ). gather xs (range_from 0 m) ≡ ok xs) h
      (gather-from xs xs 0 (λ k x e.
        let on : k ≡ 0 + k = omega arith in subst (λ (j : ℕ). get_elem? xs j ≡ some x) on e))

-- a node of 52 to 64 boxes of three axes
pub record IsFull {C : Type 0} (node : Node C) : Type 0 where
  pub three_axes : AreBoxes node.boxes
  pub as_many : length node.children ≡ length node.boxes
  pub enough : 52 ≤ length node.boxes
  pub at_most : length node.boxes ≤ 64

module _ {C : Type 0} (f : Floats C) (order : IsOrder f.le) where
  add_cost-ok :
      (costs : List C) (i : ℕ) (cost : C)
      → i < length costs
      → (after : List C) × (add_cost f costs i cost ≡ ok after) × (length after ≡ length costs)
  unfolding add_cost
  add_cost-ok costs i cost h = (
    set costs i (f.add (get_or costs i f.zero_of) cost),
    rw (get_elem?-get_or costs i f.zero_of h),
    length-set costs i _,
  )

  cost_loop-ok :
      (boxes : List (Box C)) (costs : List C) (below above : Box C) (i n : ℕ)
      → length costs ≡ 64
      → i + n ≤ length boxes
      → length boxes ≤ 64
      → (after : List C) × (cost_loop f boxes costs below above i n ≡ ok after)
        × (length after ≡ 64)
  unfolding cost_loop
  cost_loop-ok boxes costs below above i zero len room most = (costs, refl, len)
  cost_loop-ok boxes costs below above i (suc n) len room most =
      let (c1, e1, l1) = add_cost-ok costs i (box_margin f below) (omega (arith, len)) in
      let (c2, e2, l2) =
        add_cost-ok c1 (length boxes - 1 - i) (box_margin f above) (omega (arith, l1, len)) in
      let b = get_elem?-get_or boxes i [] (omega arith) in
      let a = get_elem?-get_or boxes (length boxes - 1 - i) [] (omega arith) in
      let (c3, e3, l3) =
        cost_loop-ok boxes c2 (box_union f.le below (get_or boxes i []))
          (box_union f.le above (get_or boxes (length boxes - 1 - i) [])) (i + 1) n
          (omega (arith, l1, l2, len)) (omega arith) most in
      (c3, rw (e1, e2, b, a, e3), l3)

  split_index_of-ok :
      (costs : List C) (count : ℕ)
      → length costs ≡ 64
      → 52 ≤ count
      → count ≤ 64
      → (k : ℕ) × (split_index_of f costs count ≡ ok k)
        × (min_children ≤ k)
        × (k + min_children ≤ count)
  unfolding split_index_of
  split_index_of-ok costs count len enough most =
      let (k, e, l) =
        least_from-IsLeast f order costs 26 26 27 (count - 26 - 27) (IsLeast-first f order costs 26)
          (omega arith) (omega (arith, len)) in
      let t : ltb count 26 ≡ false = ground arith in
      (k, rw (t, e), l.from_low, omega (arith, l.below_high))

  module _ (node : Node C) (full : IsFull node) (d : Axis C) where
    -- Boxes differ along an axis.
    abbrev pub boxes_differ : ℕ → ℕ → ℕ → Bool
    boxes_differ axis a b =
        axes_differ f.le (get_or (get_or node.boxes a []) axis d)
          (get_or (get_or node.boxes b []) axis d)

    -- All boxes have the same bounds along an axis.
    abbrev pub AgreeAlong : ℕ → Type 0
    AgreeAlong axis = AllSame (length node.boxes) (boxes_differ axis)

    -- A box differs from the first along an axis.
    abbrev pub DifferAlong : ℕ → Type 0
    DifferAlong axis = (b : ℕ) × (b < length node.boxes) × (boxes_differ axis 0 b ≡ true)

    axis_scores-cases :
        (axis n : ℕ)
        → axis + n ≤ 3
        → (((a : ℕ) → axis ≤ a → a < axis + n → AgreeAlong a)
            × (axis_scores f node.boxes axis n ≡ ok (replicate n f.zero_of)))
          ⊎ (((a : ℕ) × (a < 3) × DifferAlong a) × (axis_scores f node.boxes axis n ≡ fault))
    unfolding axis_scores
    axis_scores-cases axis zero h = inl (λ a p q. absurd (omega arith), refl)
    axis_scores-cases axis (suc n) h =
        let big : leb 52 (length node.boxes) ≡ true = ground (arith, full.enough) in
        elim (sorted_along_lem f.le order node.boxes axis d full.three_axes (omega arith)
          (omega (arith, full.enough))) [
            | inr (x, e) ↦ inr ((axis, omega arith, x), rw e)
            | inl (same, e) ↦ elim (axis_scores-cases (axis + 1) n (omega arith)) [
              | inr (x, g) ↦ inr (x, rw (e, big, g))
              | inl (more, g) ↦ inl (
                λ a p q. elim (from_axis a axis p) [
                  | inl l ↦ more a l (omega arith)
                  | inr here ↦ subst AgreeAlong here same
                ],
                rw (e, big, g),
              )
            ]
          ]
      where
        from_axis : (a axis : ℕ) → axis ≤ a → (axis + 1 ≤ a) ⊎ (axis ≡ a)
        from_axis a axis p = ground arith

    choose_split_axis-first :
        axis_scores f node.boxes 0 3 ≡ ok (replicate 3 f.zero_of)
        → choose_split_axis f node.boxes ≡ ok 0
    unfolding choose_split_axis least_from
    choose_split_axis-first e = let same = order.reflexive f.zero_of in rw (e, same, same)

    choose_split_axis-fault :
        axis_scores f node.boxes 0 3 ≡ fault → choose_split_axis f node.boxes ≡ fault
    unfolding choose_split_axis
    choose_split_axis-fault e = rw e

    sorted_along-agree :
        AgreeAlong 0 → sorted_along f.le node.boxes 0 ≡ ok (range_from 0 (length node.boxes))
    sorted_along-agree agree =
        elim (sorted_along_lem f.le order node.boxes 0 d full.three_axes (omega arith)
          (omega (arith, full.enough))) [
            | inl (same, e) ↦ e
            | inr ((b, small, x), e) ↦
                let y : boxes_differ 0 0 b ≡ false = agree b small in absurd cc
          ]

    choose_split_index-ok :
        AgreeAlong 0
        → (k : ℕ) × (choose_split_index f node 0 ≡ ok k)
          × (min_children ≤ k)
          × (k + min_children ≤ length node.boxes)
    unfolding choose_split_index
    choose_split_index-ok agree =
        let n = length node.boxes in
        let above = get_elem?-get_or node.boxes (n - 1) [] (omega (arith, full.enough)) in
        let below = get_elem?-get_or node.boxes 0 [] (omega (arith, full.enough)) in
        let (costs, e, len) =
          cost_loop-ok node.boxes (replicate 64 f.zero_of) (get_or node.boxes 0 [])
            (get_or node.boxes (n - 1) []) 1 (n - 1) (length-replicate 64 f.zero_of)
            (omega (arith, full.enough)) full.at_most in
        let (k, g, low, high) = split_index_of-ok costs n len full.enough full.at_most in
        (k, rw (sorted_along-agree agree, above, below, e, g), low, high)

    -- the node cut in two after `k` children
    abbrev pub cut_at : ℕ → Node C × Option (Node C)
    cut_at k = (
      record { boxes = take k node.boxes; children = take k node.children },
      some (record { boxes = drop k node.boxes; children = drop k node.children }),
    )

    distribute-cut :
        (k : ℕ) → AgreeAlong 0 → k ≤ length node.boxes → distribute f true node 0 k ≡ ok (cut_at k)
    unfolding distribute spread
    distribute-cut k agree h =
        let within : ltb (length node.boxes) k ≡ false = ground arith in
        rw (
          sorted_along-agree agree,
          gather-range node.boxes (length node.boxes) refl,
          gather-range node.children (length node.boxes) full.as_many,
          within,
        )

    -- `rtree_split` of a full node ends only if all boxes of the node have the same bounds: then it
    -- cuts the node in two, with at least the minimum of children in each part. If a box differs from
    -- the first along an axis, a sort reads out of bounds.
    pub split_lem :
        (((axis : ℕ) → axis < 3 → AgreeAlong axis)
          × ((k : ℕ) × (min_children ≤ k)
              × (k + min_children ≤ length node.boxes)
              × (split f true node ≡ ok (cut_at k))))
        ⊎ (((axis : ℕ) × (axis < 3) × DifferAlong axis) × (split f true node ≡ fault))
    unfolding split
    split_lem = elim (axis_scores-cases 0 3 (omega arith)) [
      | inl (same, e) ↦
          let (k, g, low, high) = choose_split_index-ok (same 0 (omega arith) (omega arith)) in
          inl (
            (λ a h. same a (omega arith) (omega arith)),
            (
              k,
              low,
              high,
              rw (
                choose_split_axis-first e,
                g,
                distribute-cut k (same 0 (omega arith) (omega arith)) (omega (arith, high)),
              ),
            ),
          )
      | inr (x, e) ↦ inr (x, rw (choose_split_axis-fault e))
    ]

-- ===== src/Rtree/Sort/Boxes.antt =====
-- The sort of boxes along an axis.
use tom_libs.Common.{
  length, get_elem?, get_or, ℕ, zero, suc, ◌<◌, ◌≡◌, refl, ◌↔◌, ◌⊎◌, Bool, true, false, some, List,
  [], ◌∷◌, arith,
}
use tom_libs.Common.Run.{ok, fault}
use tom_libs.Rtree.Box.{Axis, Box}
use tom_libs.Rtree.Box.Laws.{IsOrder}
use tom_libs.Rtree.Sort.{range_from, axes_differ, axis_of, compare_along_axis, sorted_along}
use tom_libs.Rtree.Sort.Laws.{IsTest, AllSame, sort_inline_lem}

-- Boxes of three axes
abbrev pub AreBoxes : {C : Type 0} → List (Box C) → Type 0
AreBoxes {C} boxes = (i : ℕ) (box : Box C) → get_elem? boxes i ≡ some box → length box ≡ 3

pub get_elem?-get_or :
    {A : Type 0} (xs : List A) (i : ℕ) (d : A)
    → i < length xs
    → get_elem? xs i ≡ some (get_or xs i d)
get_elem?-get_or [] i d h = absurd (omega arith)
get_elem?-get_or (x ∷ xs) zero d h = refl
get_elem?-get_or (x ∷ xs) (suc i) d h = get_elem?-get_or xs i d (omega arith)

module _ {C : Type 0} (le : C → C → Bool) (order : IsOrder le) where
  -- the two axes have the same bounds
  abbrev pub SameAxis : Axis C → Axis C → Type 0
  SameAxis a b =
      (le a.low b.low ≡ true)
      × (le b.low a.low ≡ true)
      × (le a.high b.high ≡ true)
      × (le b.high a.high ≡ true)

  pub axes_differ_iff : (a b : Axis C) → (axes_differ le a b ≡ false) ↔ SameAxis a b
  unfolding axes_differ
  axes_differ_iff a b = ground arith

  module _ (boxes : List (Box C)) (axis : ℕ) (d : Axis C) (are : AreBoxes boxes)
      (small : axis < 3) where
    -- box `i` along the axis
    abbrev pub along : ℕ → Axis C
    along i = get_or (get_or boxes i []) axis d

    -- Boxes differ along the axis.
    abbrev pub differ_at : ℕ → ℕ → Bool
    differ_at a b = axes_differ le (along a) (along b)

    axis_of-along : (i : ℕ) → i < length boxes → axis_of le boxes axis i ≡ ok (along i)
    unfolding axis_of
    axis_of-along i h =
        let e = get_elem?-get_or boxes i [] h in
        rw (
          e,
          get_elem?-get_or (get_or boxes i []) axis d (omega (arith, are i (get_or boxes i []) e)),
        )

    compare-IsTest : IsTest (length boxes) (compare_along_axis le boxes axis) differ_at
    unfolding compare_along_axis
    compare-IsTest = record {
      compares = λ a b h k. rw (axis_of-along a h, axis_of-along b k);
      same_refl = λ a.
          (axes_differ_iff (along a) (along a)).1
            (order.reflexive _, order.reflexive _, order.reflexive _, order.reflexive _);
      same_sym = λ a b h.
          let (p, q, r, s) = (axes_differ_iff (along a) (along b)).0 h in
          (axes_differ_iff (along b) (along a)).1 (q, p, s, r);
      same_trans = λ a b c h k.
          let (p, q, r, s) = (axes_differ_iff (along a) (along b)).0 h in
          let (p2, q2, r2, s2) = (axes_differ_iff (along b) (along c)).0 k in
          (axes_differ_iff (along a) (along c)).1 (
            order.transitive _ _ _ p p2,
            order.transitive _ _ _ q2 q,
            order.transitive _ _ _ r r2,
            order.transitive _ _ _ s2 s,
          );
    }

    -- Sorting boxes along an axis ends only if all have the same bounds there; the order is then the one they are in. Else the sort reads out of bounds.
    pub sorted_along_lem :
        0 < length boxes
        → ((AllSame (length boxes) differ_at)
            × (sorted_along le boxes axis ≡ ok (range_from 0 (length boxes))))
          ⊎ (((b : ℕ) × (b < length boxes) × (differ_at 0 b ≡ true))
              × (sorted_along le boxes axis ≡ fault))
    unfolding sorted_along
    sorted_along_lem = sort_inline_lem compare-IsTest

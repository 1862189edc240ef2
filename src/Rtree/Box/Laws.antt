-- ===== src/Rtree/Box/Laws.antt =====
-- Overlap, union and intersection of boxes.
use tom_libs.Common.{
  if◌then◌else◌, Bool-cases, ◌≡◌, refl, sym, ap, ◌∙◌, inl, inr, Bool, true, false, not, ◌&&◌, ◌||◌,
  [], ◌∷◌,
}
use tom_libs.Rtree.Box.{Axis, Box, lt, min_of, max_of, boxes_overlap, meet, box_intersection}

-- what is used of `<=` on floats that are not NaN
pub record IsOrder {C : Type 0} (le : C → C → Bool) : Type 0 where
  pub reflexive : (a : C) → le a a ≡ true
  pub transitive : (a b c : C) → le a b ≡ true → le b c ≡ true → le a c ≡ true
  pub total : (a b : C) → le a b ≡ false → le b a ≡ true

split_tests : (a b : Bool) → (a && b) ≡ true → (a ≡ true) × (b ≡ true)
split_tests true b h = (refl, h)
split_tests false b h = absurd cc

module _ {C : Type 0} (le : C → C → Bool) (order : IsOrder le) where
  lt-max_of : (a b c : C) → lt le (max_of le a b) c ≡ (lt le a c && lt le b c)
  lt-max_of a b c = elim (Bool-cases (le a b)) [
    | inl e ↦ elim (Bool-cases (le c a)) [
      | inl f ↦ let g : le c b ≡ true = order.transitive c a b f e in rw (e, f, g) refl
      | inr f ↦ rw (e, f) refl
    ]
    | inr e ↦ elim (Bool-cases (le c a)) [
      | inl f ↦ rw (e, f) refl
      | inr f ↦ elim (Bool-cases (le c b)) [
        | inl g ↦
            let k : le c a ≡ true = order.transitive c b a g (order.total a b e) in
            rw (e, f, g) (sym k ∙ f)
        | inr g ↦ rw (e, f, g) refl
      ]
    ]
  ]

  lt-min_of : (a b c : C) → lt le c (min_of le a b) ≡ (lt le c a && lt le c b)
  lt-min_of a b c = elim (Bool-cases (le b a)) [
    | inl e ↦ elim (Bool-cases (le b c)) [
      | inl f ↦ rw (e, f) (sym (and_false (lt le c a)))
      | inr f ↦ elim (Bool-cases (le a c)) [
        | inl g ↦ let k : le b c ≡ true = order.transitive b a c e g in rw (e, f, g) (sym k ∙ f)
        | inr g ↦ rw (e, f, g) refl
      ]
    ]
    | inr e ↦ elim (Bool-cases (le a c)) [
      | inl f ↦ rw (e, f) refl
      | inr f ↦ elim (Bool-cases (le b c)) [
        | inl g ↦
            let k : le a c ≡ true = order.transitive a b c (order.total b a e) g in
            rw (e, f, g) (sym k ∙ f)
        | inr g ↦ rw (e, f, g) refl
      ]
    ]
  ]
    where
      and_false : (b : Bool) → (b && false) ≡ false
      and_false true = refl
      and_false false = refl

  -- Closing a gap leaves no extent.
  lt-closed : (low high : C) → lt le low (if lt le high low then low else high) ≡ lt le low high
  lt-closed low high = elim (Bool-cases (le low high)) [
    | inl e ↦ rw e refl
    | inr e ↦ rw (e, order.reflexive low, order.total low high e) refl
  ]

  -- Every axis has an extent.
  abbrev pub is_open : Box C → Bool
  is_open [] = true
  is_open (i ∷ is) = lt le i.low i.high && is_open is

  meet-open :
      (a b : Axis C)
      → lt le a.low a.high ≡ true
      → lt le b.low b.high ≡ true
      → lt le (meet le a b).low (meet le a b).high ≡ not (le a.high b.low || le b.high a.low)
  unfolding meet
  meet-open a b p q =
      lt-closed (max_of le a.low b.low) (min_of le a.high b.high)
      ∙ lt-max_of a.low b.low (min_of le a.high b.high)
      ∙ ap (λ (t : Bool). t && lt le b.low (min_of le a.high b.high))
          (lt-min_of a.high b.high a.low)
      ∙ ap (λ (t : Bool). (lt le a.low a.high && lt le a.low b.high) && t)
          (lt-min_of a.high b.high b.low)
      ∙ crossed (lt le a.low a.high) (lt le b.low b.high) (le a.high b.low) (le b.high a.low) p q
    where
      swapped : (u v : Bool) → (not v && (not u && true)) ≡ not (u || v)
      swapped true true = refl
      swapped true false = refl
      swapped false true = refl
      swapped false false = refl

      crossed :
          (x y u v : Bool) → x ≡ true → y ≡ true → ((x && not v) && (not u && y)) ≡ not (u || v)
      crossed x y u v p q = rw (p, q) (swapped u v)

  -- Two boxes with an extent on every axis overlap exactly if their intersection has an extent on
  -- every axis. The coordinates are compared by an order that is total.
  pub boxes_overlap-box_intersection :
      (a b : Box C)
      → is_open a ≡ true
      → is_open b ≡ true
      → boxes_overlap le a b ≡ is_open (box_intersection le a b)
  unfolding boxes_overlap box_intersection
  boxes_overlap-box_intersection [] b p q = refl
  boxes_overlap-box_intersection (x ∷ xs) [] p q = refl
  boxes_overlap-box_intersection (x ∷ xs) (y ∷ ys) p q =
      let (px, pxs) = split_tests (lt le x.low x.high) (is_open xs) p in
      let (qy, qys) = split_tests (lt le y.low y.high) (is_open ys) q in
      let ih : boxes_overlap le xs ys ≡ is_open (box_intersection le xs ys) =
        boxes_overlap-box_intersection xs ys pxs qys in
      by_axis (le x.high y.low || le y.high x.low) (boxes_overlap le xs ys)
      ∙ ap (λ (t : Bool). t && boxes_overlap le xs ys) (sym (meet-open x y px qy))
      ∙ ap (λ (t : Bool). lt le (meet le x y).low (meet le x y).high && t) ih
    where
      by_axis : (u r : Bool) → (if u then false else r) ≡ (not u && r)
      by_axis true r = refl
      by_axis false r = refl

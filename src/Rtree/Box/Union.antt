-- ===== src/Rtree/Box/Union.antt =====
-- The union of boxes.
use tom_libs.Common.{
  if◌then◌else◌, Bool-cases, length, ◌≡◌, inl, inr, Bool, true, false, [], ◌∷◌, arith,
}
use tom_libs.Rtree.Box.{Box, lt, min_of, max_of, box_union}
use tom_libs.Rtree.Box.Laws.{IsOrder}

module _ {C : Type 0} (le : C → C → Bool) (order : IsOrder le) where
  -- The first box lies in the second.
  abbrev pub Within : Box C → Box C → Type 0
  Within [] [] = Unit
  Within (a ∷ xs) (u ∷ us) = (le u.low a.low ≡ true) × (le a.high u.high ≡ true) × Within xs us
  Within _ _ = ⊥

  min_lower : (a b : C) → (le (min_of le a b) a ≡ true) × (le (min_of le a b) b ≡ true)
  min_lower a b = elim (Bool-cases (le b a)) [
    | inl e ↦ rw e (e, order.reflexive b)
    | inr e ↦ rw e (order.reflexive a, order.total b a e)
  ]

  max_upper : (a b : C) → (le a (max_of le a b) ≡ true) × (le b (max_of le a b) ≡ true)
  max_upper a b = elim (Bool-cases (le a b)) [
    | inl e ↦ rw e (e, order.reflexive b)
    | inr e ↦ rw e (order.reflexive a, order.total a b e)
  ]

  either_one {κ} : (P : C → Type κ) (t : Bool) (a b : C) → P a → P b → P (if t then a else b)
  either_one P true a b p q = p
  either_one P false a b p q = q

  Within-union :
      (a b : Box C)
      → length a ≡ length b
      → Within a (box_union le a b) × Within b (box_union le a b)
  unfolding box_union
  Within-union [] [] h = (tt, tt)
  Within-union [] (y ∷ ys) h = absurd (omega arith)
  Within-union (x ∷ xs) [] h = absurd (omega arith)
  Within-union (x ∷ xs) (y ∷ ys) h =
      let ih = Within-union xs ys (omega arith) in
      let lows = min_lower x.low y.low in
      let highs = max_upper x.high y.high in ((lows.0, highs.0, ih.0), (lows.1, highs.1, ih.1))

  union-Within : (a b c : Box C) → Within a c → Within b c → Within (box_union le a b) c
  unfolding box_union
  union-Within [] [] [] p q = tt
  union-Within (x ∷ xs) (y ∷ ys) (z ∷ zs) (p, q, r) (s, t, u) = (
    either_one (λ k. le z.low k ≡ true) (lt le x.low y.low) x.low y.low p s,
    either_one (λ k. le k z.high ≡ true) (lt le y.high x.high) x.high y.high q t,
    union-Within xs ys zs r u,
  )
  union-Within [] [] (z ∷ zs) p q = elim p [ ]
  union-Within [] (y ∷ ys) [] p q = elim q [ ]
  union-Within [] (y ∷ ys) (z ∷ zs) p q = elim p [ ]
  union-Within (x ∷ xs) b [] p q = elim p [ ]
  union-Within (x ∷ xs) [] (z ∷ zs) p q = elim q [ ]

  -- The union of two boxes of the same dimension is the smallest box that both lie in. The
  -- coordinates are compared by an order that is total.
  pub box_union_lem :
      (a b : Box C)
      → length a ≡ length b
      → Within a (box_union le a b)
        × Within b (box_union le a b)
        × ((c : Box C) → Within a c → Within b c → Within (box_union le a b) c)
  box_union_lem a b h = let both = Within-union a b h in (both.0, both.1, union-Within a b)

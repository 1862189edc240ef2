-- ===== src/Rtree/Tree/Least.antt =====
-- The search for the least of some costs.
use tom_libs.Common.{
  if◌then◌else◌, if_cases, length, get_or, ℕ, zero, suc, ◌+◌, ◌≤◌, ◌<◌, ◌≡◌, refl, subst, ◌⊎◌, inl,
  inr, true, false, List, arith,
}
use tom_libs.Common.Run.{ok}
use tom_libs.Rtree.Box.{lt}
use tom_libs.Rtree.Box.Laws.{IsOrder}
use tom_libs.Rtree.Sort.Boxes.{get_elem?-get_or}
use tom_libs.Rtree.Tree.{Floats, least_from}

module _ {C : Type 0} (f : Floats C) (order : IsOrder f.le) where
  -- No cost from index `low` up to before `high` is less than the one at `best`.
  pub record IsLeast (costs : List C) (low high best : ℕ) : Type 0 where
    pub from_low : low ≤ best
    pub below_high : best < high
    pub least :
        (k : ℕ)
        → low ≤ k
        → k < high
        → lt f.le (get_or costs k f.zero_of) (get_or costs best f.zero_of) ≡ false

  lt-switch : (a b c : C) → lt f.le a b ≡ true → lt f.le c b ≡ false → lt f.le c a ≡ false
  lt-switch a b c h k =
      let p : f.le b a ≡ false = ground (arith, h) in
      let q : f.le b c ≡ true = ground (arith, k) in
      let r = order.transitive a b c (order.total b a p) q in rw r

  IsLeast-next :
      (costs : List C) (low best i : ℕ)
      → IsLeast costs low i best
      → low ≤ i
      → IsLeast costs low
          (i + 1)
          (if lt f.le (get_or costs i f.zero_of) (get_or costs best f.zero_of) then i else best)
  IsLeast-next costs low best i l h =
      let at = λ (k : ℕ). get_or costs k f.zero_of in
      if_cases (IsLeast costs low (i + 1)) (lt f.le (at i) (at best))
        (λ less. record {
          from_low = h;
          below_high = omega arith;
          least = λ k p q. elim (older k i q) [
            | inl o ↦ lt-switch (at i) (at best) (at k) less (l.least k p o)
            | inr e ↦ let same = order.reflexive (at i) in rw (e, same)
          ];
        })
        (λ no_less. record {
          from_low = l.from_low;
          below_high = omega (arith, l.below_high);
          least = λ k p q. elim (older k i q) [ inl o ↦ l.least k p o | inr e ↦ rw e no_less ];
        })
    where
      older : (k i : ℕ) → k < i + 1 → (k < i) ⊎ (k ≡ i)
      older k i h = ground arith

  pub least_from-IsLeast :
      (costs : List C) (low best i n : ℕ)
      → IsLeast costs low i best
      → low ≤ i
      → i + n ≤ length costs
      → (r : ℕ) × (least_from f costs best i n ≡ ok r) × IsLeast costs low (i + n) r
  unfolding least_from
  least_from-IsLeast costs low best i zero l h room =
      (best, refl, subst (λ (k : ℕ). IsLeast costs low k best) (omega arith) l)
  least_from-IsLeast costs low best i (suc n) l h room =
      let next =
        if lt f.le (get_or costs i f.zero_of) (get_or costs best f.zero_of) then i else best in
      let (r, e, m) =
        least_from-IsLeast costs low next (i + 1) n (IsLeast-next costs low best i l h)
          (omega arith) (omega arith) in
      (
        r,
        rw
            (
              get_elem?-get_or costs i f.zero_of (omega arith),
              get_elem?-get_or costs best f.zero_of (omega (arith, l.below_high)),
            )
            e,
        subst (λ (k : ℕ). IsLeast costs low k r) (omega arith) m,
      )

  -- the first of the costs
  pub IsLeast-first : (costs : List C) (low : ℕ) → IsLeast costs low (low + 1) low
  IsLeast-first costs low = record {
    from_low = omega arith;
    below_high = omega arith;
    least = λ k p q.
        let e : k ≡ low = omega arith in
        let same = order.reflexive (get_or costs low f.zero_of) in rw (e, same);
  }

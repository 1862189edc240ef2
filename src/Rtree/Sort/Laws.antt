-- ===== src/Rtree/Sort/Laws.antt =====
-- What the sort of tom_rtree.h does with an order.
use tom_libs.Common.{
  Bool-cases, length, get_elem?, set, length-set, get_elem?-set_self, get_elem?-set_ne, ℕ, zero,
  suc, ◌+◌, ◌-◌, ◌≤◌, ◌<◌, ◌≡◌, refl, sym, ap, ◌∙◌, subst, ◌⊎◌, inl, inr, Bool, true, false, some,
  List, arith,
}
use tom_libs.Common.Run.{Run, ok, fault}
use tom_libs.Rtree.Sort.{range_from, sink, sort_from, sort_inline}

pub length-range_from : (i n : ℕ) → length (range_from i n) ≡ n
unfolding range_from
length-range_from i zero = refl
length-range_from i (suc n) = ap suc (length-range_from (i + 1) n)

pub get_elem?-range_from : (i n k : ℕ) → k < n → get_elem? (range_from i n) k ≡ some (i + k)
unfolding range_from
get_elem?-range_from i zero k h = absurd (omega arith)
get_elem?-range_from i (suc n) zero h = ap some (omega arith)
get_elem?-range_from i (suc n) (suc k) h =
    get_elem?-range_from (i + 1) n k (omega arith) ∙ ap some (omega arith)

get_elem?-range : (n k : ℕ) → k < n → get_elem? (range_from 0 n) k ≡ some k
get_elem?-range n k h = get_elem?-range_from 0 n k h ∙ ap some (omega arith)

-- A comparison that does not fault, and that tells apart what is not the same in some sense.
pub record IsTest (n : ℕ) (compare_of : ℕ → ℕ → Run Bool) (differs : ℕ → ℕ → Bool) : Type 0 where
  pub compares : (a b : ℕ) → a < n → b < n → compare_of a b ≡ ok (differs a b)
  pub same_refl : (a : ℕ) → differs a a ≡ false
  pub same_sym : (a b : ℕ) → differs a b ≡ false → differs b a ≡ false
  pub same_trans : (a b c : ℕ) → differs a b ≡ false → differs b c ≡ false → differs a c ≡ false

Nat-cases : (a m : ℕ) → a < suc m → (a < m) ⊎ (a ≡ m)
Nat-cases a m h = ground arith

-- All of the first `n` are the same.
abbrev pub AllSame : ℕ → (ℕ → ℕ → Bool) → Type 0
AllSame n differs = (a : ℕ) → a < n → differs 0 a ≡ false

module _ {n : ℕ} {compare_of : ℕ → ℕ → Run Bool} {differs : ℕ → ℕ → Bool}
    (test : IsTest n compare_of differs) where
  -- An element that differs from all before it sinks to the front, and the next read is out of bounds.
  sink-fault :
      (order : List ℕ) (b j : ℕ)
      → b < n
      → j < length order
      → get_elem? order j ≡ some b
      → ((k : ℕ) → k < j → (a : ℕ) × (get_elem? order k ≡ some a) × (a < n) × (differs a b ≡ true))
      → sink compare_of order j ≡ fault
  unfolding sink
  sink-fault order b zero below within at others = refl
  sink-fault order b (suc j) below within at others =
      let (a, there, small, d) = others j (omega arith) in
      let moved = set (set order (suc j) a) j b in
      let len = length-set (set order (suc j) a) j b ∙ length-set order (suc j) a in
      let ih =
        sink-fault moved b j below (omega (arith, len))
          (get_elem?-set_self (set order (suc j) a) j b (omega (arith, length-set order (suc j) a)))
          (λ k h.
            let (c, e, s, t) = others k (omega arith) in
            (
              c,
              get_elem?-set_ne (set order (suc j) a) b (λ (q : j ≡ k). absurd (omega (arith, q)))
                  ∙ get_elem?-set_ne order a (λ (q : suc j ≡ k). absurd (omega (arith, q)))
                  ∙ e,
              s,
              t,
            )) in
      rw (there, at, test.compares a b small below, d, ih)

  -- An element that is the same as the one before it stays.
  sink-same :
      (i : ℕ)
      → suc i < n
      → AllSame (suc (suc i)) differs
      → sink compare_of (range_from 0 n) (suc i) ≡ ok (range_from 0 n)
  unfolding sink
  sink-same i below same =
      let d : differs i (suc i) ≡ false =
        test.same_trans i 0 (suc i) (test.same_sym 0 i (same i (omega arith)))
          (same (suc i) (omega arith)) in
      rw (
        get_elem?-range n i (omega arith),
        get_elem?-range n (suc i) below,
        test.compares i (suc i) (omega arith) below,
        d,
      )

  -- Where all are the same, nothing moves.
  sort_from-same :
      (k i : ℕ)
      → 0 < i
      → i + k ≤ n
      → AllSame n differs
      → sort_from compare_of (range_from 0 n) i k ≡ ok (range_from 0 n)
  unfolding sort_from
  sort_from-same zero i p q same = refl
  sort_from-same (suc k) zero p q same = absurd (omega arith)
  sort_from-same (suc k) (suc i) p q same = rw (
    sink-same i (omega arith) (λ a h. same a (omega arith)),
    sort_from-same k (suc i + 1) (omega arith) (omega arith) same,
  )

  differs-others :
      (i : ℕ) → AllSame i differs → differs 0 i ≡ true → (m : ℕ) → m < i → differs m i ≡ true
  differs-others i same d m h = elim (Bool-cases (differs m i)) [
    | inl e ↦ e
    | inr e ↦ let f : differs 0 i ≡ false = test.same_trans 0 m i (same m h) e in absurd cc
  ]

  -- Where the first `i` are the same, and another is not, the sort reads out of bounds.
  sort_from-fault :
      (k i : ℕ)
      → 0 < i
      → i + k ≡ n
      → AllSame i differs
      → (b : ℕ) → b < n
      → differs 0 b ≡ true
      → sort_from compare_of (range_from 0 n) i k ≡ fault
  unfolding sort_from
  sort_from-fault zero i p q same b small d =
      let f : differs 0 b ≡ false = same b (omega (arith, q, small)) in absurd cc
  sort_from-fault (suc k) zero p q same b small d = absurd (omega arith)
  sort_from-fault (suc k) (suc i) p q same b small d = elim (Bool-cases (differs 0 (suc i))) [
    | inl e ↦ rw (
        sink-fault (range_from 0 n) (suc i) (suc i) (omega arith)
          (omega (arith, length-range_from 0 n)) (get_elem?-range n (suc i) (omega arith))
          (λ m h.
            (m, get_elem?-range n m (omega arith), omega arith, differs-others (suc i) same e m h)))
    | inr e ↦
        let more : AllSame (suc (suc i)) differs = λ a h. elim (Nat-cases a (suc i) h) [
          | inl l ↦ same a l
          | inr q2 ↦ subst (λ (c : ℕ). differs 0 c ≡ false) (sym q2) e
        ] in
        rw (
          sink-same i (omega arith) more,
          sort_from-fault k (suc i + 1) (omega arith) (omega arith) (λ a h. more a (omega arith)) b
              small d,
        )
  ]

  -- The sort ends exactly if there is nothing to sort.
  pub sort_inline_lem :
      0 < n
      → ((AllSame n differs) × (sort_inline compare_of (range_from 0 n) n ≡ ok (range_from 0 n)))
        ⊎ (((b : ℕ) × (b < n) × (differs 0 b ≡ true))
            × (sort_inline compare_of (range_from 0 n) n ≡ fault))
  unfolding sort_inline
  sort_inline_lem p = elim (search_for n) [
    | inl same ↦ inl (same, sort_from-same (n - 1) 1 (omega arith) (omega arith) same)
    | inr (b, small, d) ↦ inr (
      (b, small, d),
      sort_from-fault (n - 1) 1 (omega arith) (omega arith)
          (λ a h. subst (λ (c : ℕ). differs 0 c ≡ false) (omega arith) (test.same_refl 0)) b small
          d,
    )
  ]
    where
      search_for : (m : ℕ) → (AllSame m differs) ⊎ ((b : ℕ) × (b < m) × (differs 0 b ≡ true))
      search_for zero = inl (λ a h. absurd (omega arith))
      search_for (suc m) = elim (search_for m) [
        | inr (b, small, d) ↦ inr (b, omega arith, d)
        | inl same ↦ elim (Bool-cases (differs 0 m)) [
          | inl e ↦ inr (m, omega arith, e)
          | inr e ↦ inl (λ a h. elim (Nat-cases a m h) [
            | inl l ↦ same a l
            | inr q ↦ subst (λ (c : ℕ). differs 0 c ≡ false) (sym q) e
          ])
        ]
      ]

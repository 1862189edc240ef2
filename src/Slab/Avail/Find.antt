-- ===== src/Slab/Avail/Find.antt =====
-- The search of `slab_alloc` finds the lowest set bit, and finds one if there is one.
use tom_libs.Common.{
  ltb, ltb→lt, Bool-cases, Option-cases, length, get_or, ℕ, zero, suc, ◌+◌, ◌-◌, ◌*◌, ◌/◌, ◌%◌, ◌≤◌,
  ◌<◌, ◌≡◌, refl, ap, ◌∙◌, subst, inl, inr, true, false, Option, none, some, [], ◌∷◌, arith,
}
use tom_libs.Slab.Avail.{
  Word, Avail, get_bit, nonzero, ffs, find_from, find_avail, AllFull, IsSized,
}

nonzero-get_or : (w : Word) (i : ℕ) → nonzero w ≡ false → get_or w i false ≡ false
unfolding nonzero
nonzero-get_or [] i h = refl
nonzero-get_or (x ∷ xs) zero h = ground arith
nonzero-get_or (x ∷ xs) (suc i) h = ground (arith, nonzero-get_or xs i)

-- Of a nonzero word `ffs` gives a set bit below which all are clear.
ffs_bounds : (w : Word) → nonzero w ≡ true → (0 < ffs w) × (ffs w ≤ length w)
unfolding nonzero ffs
ffs_bounds [] h = cc
ffs_bounds (true ∷ xs) h = omega arith
ffs_bounds (false ∷ xs) h = ground (arith, ffs_bounds xs)

get_or_pred : (xs : Word) (k : ℕ) → 0 < k → get_or (false ∷ xs) k false ≡ get_or xs (k - 1) false
get_or_pred xs zero h = elim h [ ]
get_or_pred xs (suc k) h = ap (λ i. get_or xs i false) (omega arith)

get_or-ffs : (w : Word) → nonzero w ≡ true → get_or w (ffs w - 1) false ≡ true
unfolding nonzero ffs
get_or-ffs [] h = h
get_or-ffs (true ∷ xs) h = refl
get_or-ffs (false ∷ xs) h =
    rw (h, ffs) (ground (arith, get_or-ffs xs h, ffs_bounds xs h, get_or_pred xs (ffs xs)))

get_or_below-ffs : (w : Word) (i : ℕ) → i + 1 < ffs w → get_or w i false ≡ false
unfolding ffs
get_or_below-ffs [] i h = refl
get_or_below-ffs (true ∷ xs) i h = absurd (omega arith)
get_or_below-ffs (false ∷ xs) zero h = refl
get_or_below-ffs (false ∷ xs) (suc i) h = ground (arith, get_or_below-ffs xs i)

get_bit-head : (x : Word) (xs : Avail) (i : ℕ) → i < 32 → get_bit (x ∷ xs) i ≡ get_or x i false
unfolding get_bit
get_bit-head x xs i h =
    let q : i / 32 ≡ 0 = omega arith in let r : i % 32 ≡ i = omega arith in rw (q, r)

get_bit-tail : (x : Word) (xs : Avail) (i : ℕ) → get_bit (x ∷ xs) (32 + i) ≡ get_bit xs i
unfolding get_bit
get_bit-tail x xs i =
    let q : (32 + i) / 32 ≡ suc (i / 32) = omega arith in
    let r : (32 + i) % 32 ≡ i % 32 = omega arith in rw (q, r)

-- Every bit below `j` is clear.
abbrev pub ClearBelow : Avail → ℕ → Type 0
ClearBelow b j = (i : ℕ) → i < j → get_bit b i ≡ false

-- `j` is the index of the lowest set bit.
pub record IsLowest (b : Avail) (j : ℕ) : Type 0 where
  pub bit : get_bit b j ≡ true
  pub below : ClearBelow b j

ClearBelow-cons :
    (x : Word) (xs : Avail) (j : ℕ)
    → nonzero x ≡ false
    → ClearBelow xs j
    → ClearBelow (x ∷ xs) (32 + j)
ClearBelow-cons x xs j z c i h = elim (Bool-cases (ltb i 32)) [
  | inl e ↦ get_bit-head x xs i (ltb→lt i 32 e) ∙ nonzero-get_or x i z
  | inr e ↦
      let split : 32 + (i - 32) ≡ i = ground arith in
      rw (← split) (get_bit-tail x xs (i - 32) ∙ c (i - 32) (ground arith))
]

IsLowest-head :
    (x : Word) (xs : Avail) → length x ≡ 32 → nonzero x ≡ true → IsLowest (x ∷ xs) (ffs x - 1)
IsLowest-head x xs l z = record {
  bit = get_bit-head x xs (ffs x - 1) (omega (arith, ffs_bounds x z)) ∙ get_or-ffs x z;
  below = λ i h.
      get_bit-head x xs i (omega (arith, ffs_bounds x z)) ∙ get_or_below-ffs x i (omega arith);
}

find_from-IsLowest :
    (w : ℕ) (b : Avail) {k : ℕ}
    → AllFull b
    → find_from w b ≡ some k
    → (j : ℕ) × (k ≡ w * 32 + j) × IsLowest b j
unfolding find_from
find_from-IsLowest w [] f h = cc
find_from-IsLowest w (x ∷ xs) f h = elim (Bool-cases (nonzero x)) [
  | inl e ↦ (ffs x - 1, ground arith, IsLowest-head x xs f.0 e)
  | inr e ↦
      let (j, eq, lowest) = find_from-IsLowest (suc w) xs f.1 (rw e at h) in
      (
        32 + j,
        omega arith,
        record {
          bit = get_bit-tail x xs j ∙ lowest.bit;
          below = ClearBelow-cons x xs j e lowest.below;
        },
      )
]

find_from-none : (w : ℕ) (b : Avail) → find_from w b ≡ none → (i : ℕ) → get_bit b i ≡ false
unfolding find_from
find_from-none w [] h i = unfold get_bit in refl
find_from-none w (x ∷ xs) h i = elim (Bool-cases (nonzero x)) [
  | inl e ↦ ground arith
  | inr e ↦
      ClearBelow-cons x xs (suc i) e (λ k q. find_from-none (suc w) xs (rw e at h) k) i
        (omega arith)
]

-- What the search has to give: the lowest set bit, or that no bit is set.
abbrev pub IsFound : Avail → Option ℕ → Type 0
IsFound b none = (i : ℕ) → get_bit b i ≡ false
IsFound b (some j) = IsLowest b j

find_from-IsFound : (b : Avail) (o : Option ℕ) → AllFull b → find_from 0 b ≡ o → IsFound b o
find_from-IsFound b none full h = find_from-none 0 b h
find_from-IsFound b (some k) full h =
    let (j, eq, lowest) = find_from-IsLowest 0 b full h in subst (IsLowest b) (omega arith) lowest

-- In a bit-field of the declared size, the search of `slab_alloc` finds the lowest set bit, or none
-- if no bit is set.
pub find_avail-IsLowest : (b : Avail) → IsSized b → IsFound b (find_avail b)
unfolding find_avail
find_avail-IsLowest b s = find_from-IsFound b (find_from 0 b) s.full refl

-- Some bit is set: the search does not fail.
pub find_avail_total :
    (b : Avail) (i : ℕ) → IsSized b → get_bit b i ≡ true → (j : ℕ) × (find_avail b ≡ some j)
unfolding find_avail
find_avail_total b i s e = elim (Option-cases (find_from 0 b)) [
  | inl n ↦ absurd (ground (arith, find_from-none 0 b n i))
  | inr found ↦ found
]

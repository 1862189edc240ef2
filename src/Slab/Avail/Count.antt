-- ===== src/Slab/Avail/Count.antt =====
-- How many of the first elements are taken: the elements whose bit is clear.
use tom_libs.Common.{
  ℕ, zero, suc, ◌+◌, ◌<◌, ◌≤◌, ◌≡◌, refl, true, false, arith, ltb, if◌then◌else◌, Bool-cases, inl,
  inr,
}
use tom_libs.Slab.Avail.{Avail, set_bit, clr_bit, get_bit, IsSized}
use tom_libs.Slab.Avail.Laws.{get_bit-set_bit, get_bit-clr_bit}

pub used : Avail → ℕ → ℕ
used b zero = 0
used b (suc n) = (if get_bit b n then 0 else 1) + used b n

pub used-le : (b : Avail) (n : ℕ) → used b n ≤ n
unfolding used
used-le b zero = omega arith
used-le b (suc n) = ground (arith, used-le b n)

pub used-set_bit :
    (b : Avail) (i n : ℕ)
    → IsSized b
    → i < 256
    → get_bit b i ≡ false
    → used b n ≡ used (set_bit b i) n + (if ltb i n then 1 else 0)
unfolding used
used-set_bit b i zero s h e = ground arith
used-set_bit b i (suc n) s h e = ground (arith, used-set_bit b i n s h e, get_bit-set_bit b i s h n)

pub used-clr_bit :
    (b : Avail) (i n : ℕ)
    → IsSized b
    → i < 256
    → get_bit b i ≡ true
    → used (clr_bit b i) n ≡ used b n + (if ltb i n then 1 else 0)
unfolding used
used-clr_bit b i zero s h e = ground arith
used-clr_bit b i (suc n) s h e = ground (arith, used-clr_bit b i n s h e, get_bit-clr_bit b i s h n)

-- Nothing is taken: every bit is set.
pub get_bit_of_unused : (b : Avail) (n i : ℕ) → used b n ≡ 0 → i < n → get_bit b i ≡ true
unfolding used
get_bit_of_unused b zero i e h = absurd (omega arith)
get_bit_of_unused b (suc n) i e h = ground (arith, get_bit_of_unused b n i)

pub used_of_get_bit : (b : Avail) (n : ℕ) → ((i : ℕ) → i < n → get_bit b i ≡ true) → used b n ≡ 0
unfolding used
used_of_get_bit b zero h = refl
used_of_get_bit b (suc n) h =
    ground (arith, h n (omega arith), used_of_get_bit b n (λ i p. h i (omega arith)))

-- Not all are taken: some bit is set.
pub free_of_used-lt : (b : Avail) (n : ℕ) → used b n < n → (i : ℕ) × (i < n) × (get_bit b i ≡ true)
unfolding used
free_of_used-lt b zero h = absurd (omega arith)
free_of_used-lt b (suc n) h = elim (Bool-cases (get_bit b n)) [
  | inl e ↦ (n, omega arith, e)
  | inr e ↦ let (i, p, q) = free_of_used-lt b n (ground arith) in (i, omega arith, q)
]

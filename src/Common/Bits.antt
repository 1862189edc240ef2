-- ===== src/Common/Bits.antt =====
-- The bit operations of C at variables, where the tactics take such a call for an unknown.
use Prim.Native.Nat.{min, max, digits, bit_and, bit_or, bit_xor}
use Prim.Native.Nat.{bit_and-bitwise, bit_or-bitwise, bit_xor-bitwise, differ}
use Prim.Native.Nat.{ℕ, zero, suc, ◌+◌, ◌*◌, ◌/◌, ◌%◌, ◌^◌, ◌≤◌, ◌<◌}
use mathlib.Core.Path.{◌≡◌, refl, ap, ◌∙◌}
use native.Mathlib.Nat.{pow-suc}
use native.Mathlib.Omega.{arith}

-- Any fuel from the first operand on gives the same digits.
module _ (z : ℕ → ℕ) (f : ℕ → ℕ → ℕ) where
  fuel_irrelevant : (m n a b : ℕ) → a ≤ m → a ≤ n → digits z f m a b ≡ digits z f n a b
  fuel_irrelevant zero zero zero b p q = refl
  fuel_irrelevant zero (suc n) zero b p q = refl
  fuel_irrelevant (suc m) zero zero b p q = refl
  fuel_irrelevant (suc m) (suc n) zero b p q = refl
  fuel_irrelevant zero n (suc a) b p q = absurd (omega arith)
  fuel_irrelevant (suc m) zero (suc a) b p q = absurd (omega arith)
  fuel_irrelevant (suc m) (suc n) (suc a) b p q =
      ap (λ d. d * 2 + f (suc a % 2) (b % 2))
        (fuel_irrelevant m n (suc a / 2) (b / 2) (omega arith) (omega arith))

  half_fuel : (a b : ℕ) → digits z f a (suc a / 2) b ≡ digits z f (suc a / 2) (suc a / 2) b
  half_fuel a b = fuel_irrelevant a (suc a / 2) (suc a / 2) b (omega arith) (omega arith)

-- Each operation by its lowest digits.
pub bit_and-halves : (a b : ℕ) → bit_and a b ≡ bit_and (a / 2) (b / 2) * 2 + min (a % 2) (b % 2)
bit_and-halves zero b = omega (arith, bit_and-bitwise 0 b, bit_and-bitwise 0 (b / 2))
bit_and-halves (suc a) b = omega (
  arith,
  bit_and-bitwise (suc a) b,
  bit_and-bitwise (suc a / 2) (b / 2),
  half_fuel (λ d. 0) min a (b / 2),
)

pub bit_or-halves : (a b : ℕ) → bit_or a b ≡ bit_or (a / 2) (b / 2) * 2 + max (a % 2) (b % 2)
bit_or-halves zero b = omega (arith, bit_or-bitwise 0 b, bit_or-bitwise 0 (b / 2))
bit_or-halves (suc a) b = omega (
  arith,
  bit_or-bitwise (suc a) b,
  bit_or-bitwise (suc a / 2) (b / 2),
  half_fuel (λ d. d) max a (b / 2),
)

pub bit_xor-halves : (a b : ℕ) → bit_xor a b ≡ bit_xor (a / 2) (b / 2) * 2 + differ (a % 2) (b % 2)
bit_xor-halves zero b = omega (arith, bit_xor-bitwise 0 b, bit_xor-bitwise 0 (b / 2))
bit_xor-halves (suc a) b = omega (
  arith,
  bit_xor-bitwise (suc a) b,
  bit_xor-bitwise (suc a / 2) (b / 2),
  half_fuel (λ d. d) differ a (b / 2),
)

double : (q k : ℕ) → q * 2 ^ suc k ≡ 2 * (q * 2 ^ k)
double q k = omega (arith, ap (λ (t : ℕ). q * t) (pow-suc 2 k))

-- A mask whose `k` low bits are set keeps a number below `2 ^ k`.
pub bit_and-mask : (k a m q : ℕ) → a < 2 ^ k → m + 1 ≡ q * 2 ^ k → bit_and a m ≡ a
bit_and-mask zero a m q h e = let z : a ≡ 0 = omega arith in rw z (bit_and-bitwise 0 m)
bit_and-mask (suc k) a m q h e = omega (
  arith,
  bit_and-halves a m,
  double q k,
  pow-suc 2 k,
  bit_and-mask k (a / 2) (m / 2) q (omega (arith, pow-suc 2 k)) (omega (arith, double q k)),
)

-- `|` with a number whose `k` low bits are clear leaves those bits alone.
pub bit_or-shifted :
    (k p q r : ℕ) → r < 2 ^ k → bit_or (p * 2 ^ k + r) (q * 2 ^ k) ≡ bit_or p q * 2 ^ k + r
bit_or-shifted zero p q r h =
    let e : p * 2 ^ 0 + r ≡ p = omega arith in
    let f : q * 2 ^ 0 ≡ q = omega arith in rw (e, f) (omega arith)
bit_or-shifted (suc k) p q r h =
    let e : (p * 2 ^ suc k + r) / 2 ≡ p * 2 ^ k + r / 2 = omega (arith, double p k) in
    let f : (q * 2 ^ suc k) / 2 ≡ q * 2 ^ k = omega (arith, double q k) in
    let ih = bit_or-shifted k p q (r / 2) (omega (arith, pow-suc 2 k)) in
    omega (
      arith,
      bit_or-halves (p * 2 ^ suc k + r) (q * 2 ^ suc k),
      ap (λ (t : ℕ). bit_or t (q * 2 ^ suc k / 2)) e,
      ap (λ (t : ℕ). bit_or (p * 2 ^ k + r / 2) t) f,
      ih,
      double p k,
      double q k,
      double (bit_or p q) k,
    )

-- `|` of a number that fits below the shift is a sum.
pub bit_or-sum : (k q r : ℕ) → r < 2 ^ k → bit_or r (q * 2 ^ k) ≡ q * 2 ^ k + r
bit_or-sum k q r h =
    ap (λ (t : ℕ). bit_or t (q * 2 ^ k)) (omega arith)
    ∙ bit_or-shifted k 0 q r h
    ∙ ap (λ (t : ℕ). t * 2 ^ k + r) (bit_or-bitwise 0 q)

-- All ones absorb.
pub bit_or_ones : (k m y : ℕ) → m + 1 ≡ 2 ^ k → y < 2 ^ k → bit_or m y ≡ m
bit_or_ones zero m y e h = let a : m ≡ 0 = omega arith in let b : y ≡ 0 = omega arith in rw (a, b)
bit_or_ones (suc k) m y e h = omega (
  arith,
  bit_or-halves m y,
  pow-suc 2 k,
  bit_or_ones k (m / 2) (y / 2) (omega (arith, pow-suc 2 k)) (omega (arith, pow-suc 2 k)),
)

bit_or_zero_below : (n a b : ℕ) → a ≤ n → b ≤ n → bit_or a b ≡ 0 → (a ≡ 0) × (b ≡ 0)
bit_or_zero_below zero a b p q e = omega arith
bit_or_zero_below (suc n) a b p q e =
    let (x, y) =
      bit_or_zero_below n (a / 2) (b / 2) (omega arith) (omega arith)
        (omega (arith, bit_or-halves a b)) in
    omega (arith, bit_or-halves a b)

pub bit_or-eq-zero : (a b : ℕ) → bit_or a b ≡ 0 → (a ≡ 0) × (b ≡ 0)
bit_or-eq-zero a b = bit_or_zero_below (a + b) a b (omega arith) (omega arith)

bit_xor_zero_below : (n a b : ℕ) → a ≤ n → b ≤ n → bit_xor a b ≡ 0 → a ≡ b
bit_xor_zero_below zero a b p q e = omega arith
bit_xor_zero_below (suc n) a b p q e =
    let h =
      bit_xor_zero_below n (a / 2) (b / 2) (omega arith) (omega arith)
        (omega (arith, bit_xor-halves a b)) in
    ground (arith, bit_xor-halves a b)

pub bit_xor-eq-zero : (a b : ℕ) → bit_xor a b ≡ 0 → a ≡ b
bit_xor-eq-zero a b = bit_xor_zero_below (a + b) a b (omega arith) (omega arith)

differ_self : (d : ℕ) → d < 2 → differ d d ≡ 0
differ_self zero h = refl
differ_self (suc zero) h = refl
differ_self (suc (suc d)) h = absurd (omega arith)

bit_xor_self_below : (n a : ℕ) → a ≤ n → bit_xor a a ≡ 0
bit_xor_self_below zero a p = let z : a ≡ 0 = omega arith in rw z
bit_xor_self_below (suc n) a p = omega (
  arith,
  bit_xor-halves a a,
  bit_xor_self_below n (a / 2) (omega arith),
  differ_self (a % 2) (omega arith),
)

pub bit_xor_self : (a : ℕ) → bit_xor a a ≡ 0
bit_xor_self a = bit_xor_self_below a a (omega arith)

bit_and_zero_below : (n a : ℕ) → a ≤ n → bit_and a 0 ≡ 0
bit_and_zero_below zero a p = let z : a ≡ 0 = omega arith in rw z
bit_and_zero_below (suc n) a p =
    omega (arith, bit_and-halves a 0, bit_and_zero_below n (a / 2) (omega arith))

-- The two lowest bits.
pub bit_and_three : (a : ℕ) → bit_and a 3 ≡ a % 4
bit_and_three a = omega (
  arith,
  bit_and-halves a 3,
  bit_and-halves (a / 2) 1,
  bit_and_zero_below (a / 2 / 2) (a / 2 / 2) (omega arith),
)

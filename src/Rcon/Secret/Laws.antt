-- ===== src/Rcon/Secret/Laws.antt =====
-- The comparison is equality of strings.
use mathlib.Core.Path.{ap₂}
use tom_libs.Common.Ints.{u32_mod}
use tom_libs.Common.{
  ◌==◌, ==_iff, Bool-cases, length, get_or, ℕ, zero, suc, ◌+◌, ◌/◌, ◌%◌, ◌^◌, ◌<◌, ◌≡◌, refl, sym,
  ap, ◌∙◌, ◌≢◌, ◌↔◌, inl, inr, Bool, true, ◌&&◌, ◌||◌, some, List, [], ◌∷◌, arith,
}
use tom_libs.Common.Bits.{bit_and-mask, bit_or-eq-zero, bit_xor-eq-zero, bit_xor_self}
use tom_libs.Rcon.Secret.{mix, next_index, compare_from, streq_consttime}

all_below : ℕ → (ℕ → Bool) → Bool
all_below zero p = true
all_below (suc n) p = p n && all_below n p

of_all_below : (n : ℕ) (p : ℕ → Bool) (x : ℕ) → all_below n p ≡ true → x < n → p x ≡ true
unfolding all_below
of_all_below zero p x h lt = absurd (omega arith)
of_all_below (suc n) p x h lt = ground (arith, of_all_below n p x)

-- The mask of every byte but NUL has its low 16 bits set.
mix_table : all_below 256 (λ b. b == 0 || (mix b + 1) % 2 ^ 16 == 0) ≡ true
unfolding all_below mix
mix_table = refl

mix_low : (b : ℕ) → b < 256 → b ≢ 0 → (mix b + 1) % 2 ^ 16 ≡ 0
mix_low b h ne =
    let row = of_all_below 256 (λ b. b == 0 || (mix b + 1) % 2 ^ 16 == 0) b mix_table h in
    ground arith

-- The branchless step through the secret: while the next index is below 2^16 and the byte at the
-- index is not NUL, the index goes up by one.
pub next_index_lem : (j b : ℕ) → j + 1 < 2 ^ 16 → b < 256 → b ≢ 0 → next_index j b ≡ j + 1
next_index_lem j b h lt ne =
    let small : (j + 1) % u32_mod ≡ j + 1 = omega arith in
    rw small
      (bit_and-mask 16 (j + 1) (mix b) ((mix b + 1) / 2 ^ 16) h (omega (arith, mix_low b lt ne)))

-- A C string: bytes, none of them NUL.
abbrev pub IsText : List ℕ → Type 0
IsText [] = Unit {0}
IsText (c ∷ cs) = (c < 256) × (c ≢ 0) × IsText cs

-- Once a difference is noted it stays.
compare_from-zero : (given secret : List ℕ) (j r : ℕ) → compare_from given secret j r ≡ 0 → r ≡ 0
unfolding compare_from
compare_from-zero [] secret j r h = (bit_or-eq-zero r _ h).0
compare_from-zero (c ∷ cs) secret j r h = elim (Bool-cases (c == 0)) [
  | inl e ↦ (bit_or-eq-zero r _ (rw e at h)).0
  | inr e ↦
      (bit_or-eq-zero r _
        (compare_from-zero cs secret (next_index j (get_or secret j 0)) _ (rw e at h))).0
]

-- What is left of the secret at index `j`.
abbrev Suffix : List ℕ → ℕ → List ℕ → Type 0
Suffix secret j rest = (k : ℕ) → get_or secret (j + k) 0 ≡ get_or rest k 0

Suffix-head :
    (secret : List ℕ) (j : ℕ) (rest : List ℕ)
    → Suffix secret j rest
    → get_or secret j 0 ≡ get_or rest 0 0
Suffix-head secret j rest at = ap (λ i. get_or secret i 0) (omega arith) ∙ at 0

Suffix-tail :
    (secret : List ℕ) (j s : ℕ) (rest : List ℕ)
    → Suffix secret j (s ∷ rest)
    → Suffix secret (j + 1) rest
Suffix-tail secret j s rest at k = ap (λ i. get_or secret i 0) (omega arith) ∙ at (suc k)

-- One round on an equal byte that is not NUL.
compare_from_same :
    (c : ℕ) (cs secret : List ℕ) (j : ℕ)
    → get_or secret j 0 ≡ c
    → c < 256
    → c ≢ 0
    → j + 1 < 2 ^ 16
    → compare_from (c ∷ cs) secret j 0 ≡ compare_from cs secret (j + 1) 0
unfolding compare_from
compare_from_same c cs secret j e lt ne small =
    rw (e, next_index_lem j c small lt ne, bit_xor_self c) (ground arith)

-- A round that notes a difference.
compare_from_differ :
    (c : ℕ) (cs secret : List ℕ) (j : ℕ)
    → compare_from (c ∷ cs) secret j 0 ≡ 0
    → c ≡ get_or secret j 0
unfolding compare_from
compare_from_differ c cs secret j h = elim (Bool-cases (c == 0)) [
  | inl e ↦ bit_xor-eq-zero c _ (bit_or-eq-zero 0 _ (rw e at h)).1
  | inr e ↦
      bit_xor-eq-zero c _
        (bit_or-eq-zero 0 _
          (compare_from-zero cs secret (next_index j (get_or secret j 0)) _ (rw e at h))).1
]

compare_from_nil :
    (secret : List ℕ) (j : ℕ) → compare_from [] secret j 0 ≡ 0 → get_or secret j 0 ≡ 0
unfolding compare_from
compare_from_nil secret j h = sym (bit_xor-eq-zero 0 _ (bit_or-eq-zero 0 _ h).1)

compare_from_nil_zero :
    (secret : List ℕ) (j : ℕ) → get_or secret j 0 ≡ 0 → compare_from [] secret j 0 ≡ 0
unfolding compare_from
compare_from_nil_zero secret j e = rw e

compare_from_lem :
    (given rest secret : List ℕ) (j : ℕ)
    → IsText given
    → IsText rest
    → Suffix secret j rest
    → j + length given < 2 ^ 16
    → (compare_from given secret j 0 ≡ 0) ↔ (given ≡ rest)
compare_from_lem [] [] secret j g t at small =
    (λ _. refl, λ _. compare_from_nil_zero secret j (Suffix-head secret j [] at))
compare_from_lem [] (s ∷ rest) secret j g t at small = (
  λ h. absurd (t.1 (sym (Suffix-head secret j (s ∷ rest) at) ∙ compare_from_nil secret j h)),
  λ e. cc,
)
compare_from_lem (c ∷ cs) [] secret j g t at small =
    (λ h. absurd (g.1 (compare_from_differ c cs secret j h ∙ Suffix-head secret j [] at)), λ e. cc)
compare_from_lem (c ∷ cs) (s ∷ rest) secret j g t at small =
    let head : get_or secret j 0 ≡ s = Suffix-head secret j (s ∷ rest) at in
    let ih =
      compare_from_lem cs rest secret (j + 1) g.2 t.2 (Suffix-tail secret j s rest at)
        (omega arith) in
    (
      λ h.
          let e : c ≡ s = compare_from_differ c cs secret j h ∙ head in
          let step = compare_from_same c cs secret j (head ∙ sym e) g.0 g.1 (omega arith) in
          ap₂ (◌∷◌) e (ih.0 (sym step ∙ h)),
      λ e.
          let eq : (c ≡ s) × (cs ≡ rest) = (cc e, cc e) in
          compare_from_same c cs secret j (head ∙ sym eq.0) g.0 g.1 (omega arith) ∙ ih.1 eq.1,
    )

-- `rcon_streq_consttime` is equality of strings, for a given string of less than 2^16 bytes. The
-- strings are bytes without NUL.
pub streq_consttime-eq :
    (given secret : List ℕ)
    → IsText given
    → IsText secret
    → length given < 2 ^ 16
    → (streq_consttime (some given) (some secret) ≡ true) ↔ (given ≡ secret)
unfolding streq_consttime
streq_consttime-eq given secret g t small =
    let lem =
      compare_from_lem given secret secret 0 g t (λ k. ap (λ i. get_or secret i 0) (omega arith))
        (omega arith) in
    (λ h. lem.0 ((==_iff _ _).0 h), λ e. (==_iff _ _).1 (lem.1 e))

-- ===== src/Slab/Avail/Laws.antt =====
-- The bit-field operations at every index below the 256 bits of the field.
use tom_libs.Common.{
  ℕ, zero, suc, ◌/◌, ◌%◌, ◌<◌, ◌≡◌, refl, ◌∙◌, Bool, true, false, List, [], ◌∷◌, arith, get_or, set,
  length, length-set, Bool-cases, inl, inr, ◌==◌, ltb, if◌then◌else◌, replicate, ◌≤◌,
}
use tom_libs.Slab.Avail.{
  Word, Avail, word_bits, word_at, set_bit, clr_bit, get_bit, AllFull, IsSized, no_avail, set_bits,
}

module _ {ℓ} {A : Type ℓ} where
  get_or-set :
      (xs : List A) (i j : ℕ) (v d : A)
      → i < length xs
      → get_or (set xs i v) j d ≡ (if i == j then v else get_or xs j d)
  get_or-set [] i j v d h = absurd (omega arith)
  get_or-set (x ∷ xs) zero zero v d h = refl
  get_or-set (x ∷ xs) zero (suc j) v d h = ground arith
  get_or-set (x ∷ xs) (suc i) zero v d h = ground arith
  get_or-set (x ∷ xs) (suc i) (suc j) v d h = ground (arith, get_or-set xs i j v d)

AllFull-word : (b : Avail) (k : ℕ) → AllFull b → k < length b → length (word_at b k) ≡ word_bits
AllFull-word [] k f h = absurd (omega arith)
AllFull-word (x ∷ xs) zero f h = f.0
AllFull-word (x ∷ xs) (suc k) f h = AllFull-word xs k f.1 (omega arith)

AllFull-set :
    (b : Avail) (k : ℕ) (w : Word) → AllFull b → length w ≡ word_bits → AllFull (set b k w)
AllFull-set [] k w f e = tt
AllFull-set (x ∷ xs) zero w f e = (e, f.1)
AllFull-set (x ∷ xs) (suc k) w f e = (f.0, AllFull-set xs k w f.1 e)

-- A write of one bit, as both macros make it.
abbrev put : Avail → ℕ → Bool → Avail
put b i v = set b (i / word_bits) (set (word_at b (i / word_bits)) (i % word_bits) v)

module _ (b : Avail) (i : ℕ) (v : Bool) (s : IsSized b) (h : i < 256) where
  put-IsSized : IsSized (put b i v)
  put-IsSized = record {
    words = length-set b (i / 32) _ ∙ s.words;
    full = AllFull-set b (i / 32) _ s.full (
        length-set (word_at b (i / 32)) (i % 32) v
        ∙ AllFull-word b (i / 32) s.full (omega (arith, s.words)));
  }

  get_bit-put : (j : ℕ) → get_bit (put b i v) j ≡ (if i == j then v else get_bit b j)
  unfolding get_bit
  get_bit-put j = elim (Bool-cases (i / 32 == j / 32)) [
    | inl e ↦
        rw (get_or-set b (i / 32) (j / 32) _ [] (omega (arith, s.words)), e)
          (rw
            (get_or-set (word_at b (i / 32)) (i % 32) (j % 32) v false
              (omega (arith, AllFull-word b (i / 32) s.full (omega (arith, s.words)))))
            (ground arith))
    | inr e ↦ rw (get_or-set b (i / 32) (j / 32) _ [] (omega (arith, s.words)), e) (ground arith)
  ]

module _ (b : Avail) (i : ℕ) (s : IsSized b) (h : i < 256) where
  pub set_bit-IsSized : IsSized (set_bit b i)
  unfolding set_bit
  set_bit-IsSized = put-IsSized b i true s h

  pub clr_bit-IsSized : IsSized (clr_bit b i)
  unfolding clr_bit
  clr_bit-IsSized = put-IsSized b i false s h

  pub get_bit-set_bit : (j : ℕ) → get_bit (set_bit b i) j ≡ (if i == j then true else get_bit b j)
  unfolding set_bit
  get_bit-set_bit = get_bit-put b i true s h

  pub get_bit-clr_bit : (j : ℕ) → get_bit (clr_bit b i) j ≡ (if i == j then false else get_bit b j)
  unfolding clr_bit
  get_bit-clr_bit = get_bit-put b i false s h

pub no_avail-IsSized : IsSized no_avail
no_avail-IsSized = record { words = refl; full = omega arith }

get_or-zeros : (n i : ℕ) → get_or (replicate n false) i false ≡ false
get_or-zeros zero i = refl
get_or-zeros (suc n) zero = refl
get_or-zeros (suc n) (suc i) = get_or-zeros n i

get_or-rows : (n w k i : ℕ) → get_or (get_or (replicate n (replicate w false)) k []) i false ≡ false
get_or-rows zero w k i = refl
get_or-rows (suc n) w zero i = get_or-zeros w i
get_or-rows (suc n) w (suc k) i = get_or-rows n w k i

pub get_bit-no_avail : (i : ℕ) → get_bit no_avail i ≡ false
unfolding get_bit
get_bit-no_avail i = get_or-rows 8 32 (i / 32) (i % 32)

pub set_bits-IsSized : (n : ℕ) (b : Avail) → IsSized b → n ≤ 256 → IsSized (set_bits n b)
unfolding set_bits
set_bits-IsSized zero b s h = s
set_bits-IsSized (suc n) b s h =
    set_bit-IsSized (set_bits n b) n (set_bits-IsSized n b s (omega arith)) h

pub get_bit-set_bits :
    (n : ℕ) (b : Avail) (i : ℕ)
    → IsSized b
    → n ≤ 256
    → get_bit (set_bits n b) i ≡ (if ltb i n then true else get_bit b i)
unfolding set_bits
get_bit-set_bits zero b i s h = ground arith
get_bit-set_bits (suc n) b i s h = ground (
  arith,
  get_bit-set_bit (set_bits n b) n (set_bits-IsSized n b s (omega arith)) h i,
  get_bit-set_bits n b i s,
)

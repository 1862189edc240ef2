-- ===== src/Slab/Avail.antt =====
-- The availability bit-field of a page footer: tom_slab.h, `SLAB_SET_BIT` to `SLAB_GET_BIT`,
-- `SLAB_ffs`, and the search of `slab_alloc`. An `unsigned int` is the list of its bits, lowest
-- first.
pub mod Laws
pub mod Count
pub mod Find
use tom_libs.Common.{
  ℕ, zero, suc, ◌+◌, ◌-◌, ◌*◌, ◌/◌, ◌%◌, ◌≡◌, ◌<◌, Bool, true, false, ◌||◌, Option, none, some,
  List, [], ◌∷◌, get_or, set, length, replicate, if◌then◌else◌,
}

abbrev pub Word : Type 0
Word = List Bool

-- `SLAB_WORD_BITS` and `SLAB_AVAIL_WORDS`
abbrev pub word_bits : ℕ
word_bits = 32

abbrev pub avail_words : ℕ
avail_words = 8

abbrev pub Avail : Type 0
Avail = List Word

-- `b[k]`
abbrev pub word_at : Avail → ℕ → Word
word_at b k = get_or b k []

-- `SLAB_SET_BIT`
unfoldable pub set_bit : Avail → ℕ → Avail
set_bit b i = set b (i / word_bits) (set (word_at b (i / word_bits)) (i % word_bits) true)

-- `SLAB_CLR_BIT`
unfoldable pub clr_bit : Avail → ℕ → Avail
clr_bit b i = set b (i / word_bits) (set (word_at b (i / word_bits)) (i % word_bits) false)

-- `SLAB_GET_BIT`
unfoldable pub get_bit : Avail → ℕ → Bool
get_bit b i = get_or (word_at b (i / word_bits)) (i % word_bits) false

-- the test `if (footer->avail[w])`
unfoldable pub nonzero : Word → Bool
nonzero [] = false
nonzero (x ∷ xs) = x || nonzero xs

-- `SLAB_ffs`: one more than the index of the lowest set bit, 0 if there is none
unfoldable pub ffs : Word → ℕ
ffs [] = 0
ffs (true ∷ xs) = 1
ffs (false ∷ xs) = elim (nonzero xs) [ true ↦ suc (ffs xs) | false ↦ 0 ]

-- the loop over `w` in `slab_alloc`; `none` is its `idx` of -1
unfoldable pub find_from : ℕ → Avail → Option ℕ
unfolding nonzero ffs
find_from w [] = none
find_from w (x ∷ xs) =
    if nonzero x then some (w * word_bits + (ffs x - 1)) else find_from (suc w) xs

unfoldable pub find_avail : Avail → Option ℕ
unfolding find_from
find_avail b = find_from 0 b

-- `memset` of the field to 0
abbrev pub no_avail : Avail
no_avail = replicate avail_words (replicate word_bits false)

-- `for (int i = 0; i < n; i++) SLAB_SET_BIT(avail, i)`
unfoldable pub set_bits : ℕ → Avail → Avail
unfolding set_bit
set_bits zero b = b
set_bits (suc n) b = set_bit (set_bits n b) n

-- The field has as many words as the footer declares, each of full width.
abbrev pub AllFull : Avail → Type 0
AllFull [] = Unit {0}
AllFull (x ∷ xs) = (length x ≡ word_bits) × AllFull xs

pub record IsSized (b : Avail) : Type 0 where
  pub words : length b ≡ avail_words
  pub full : AllFull b

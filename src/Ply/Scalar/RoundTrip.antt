-- ===== src/Ply/Scalar/RoundTrip.antt =====
-- Reading back numbers of a binary file.
use Prim.Native.Nat.{bit_or}
use native.Mathlib.Nat.{mod-eq_of_lt}
use tom_libs.Common.{ℕ, ◌+◌, ◌*◌, ◌/◌, ◌%◌, ◌^◌, ◌<◌, ◌≡◌, ap, ◌∙◌, List, [], ◌∷◌, arith}
use tom_libs.Common.Bits.{bit_or-sum}
use tom_libs.Ply.Types.{int32, uint32, float32}
use tom_libs.Ply.Scalar.{Scalar, bits, four, little, read_scalar_le}

-- the four bytes of a number, the lowest first
abbrev pub write_le : ℕ → List ℕ
write_le v = v % 256 ∷ v / 2 ^ 8 % 256 ∷ v / 2 ^ 16 % 256 ∷ v / 2 ^ 24 % 256 ∷ []

joined :
    (a b c d : ℕ)
    → a < 256
    → b < 256
    → c < 256
    → bit_or (bit_or (bit_or a (b * 2 ^ 8)) (c * 2 ^ 16)) (d * 2 ^ 24)
      ≡ d * 2 ^ 24 + (c * 2 ^ 16 + (b * 2 ^ 8 + a))
joined a b c d p q r =
    ap (λ (x : ℕ). bit_or (bit_or x (c * 2 ^ 16)) (d * 2 ^ 24)) (bit_or-sum 8 b a (omega arith))
    ∙ ap (λ (x : ℕ). bit_or x (d * 2 ^ 24)) (bit_or-sum 16 c (b * 2 ^ 8 + a) (omega arith))
    ∙ bit_or-sum 24 d (c * 2 ^ 16 + (b * 2 ^ 8 + a)) (omega arith)

four-bytes :
    (a b c d : ℕ)
    → a < 256
    → b < 256
    → c < 256
    → d < 256
    → four little (a ∷ b ∷ c ∷ d ∷ []) ≡ d * 2 ^ 24 + (c * 2 ^ 16 + (b * 2 ^ 8 + a))
unfolding four
four-bytes a b c d p q r t =
    ap
      (λ (x : ℕ).
        bit_or (bit_or (bit_or x (b * 2 ^ 8 % 2 ^ 32)) (c * 2 ^ 16 % 2 ^ 32)) (d * 2 ^ 24 % 2 ^ 32))
      (unshifted a p)
    ∙ ap (λ (x : ℕ). bit_or (bit_or (bit_or a x) (c * 2 ^ 16 % 2 ^ 32)) (d * 2 ^ 24 % 2 ^ 32))
        (shifted b 8 q (omega arith))
    ∙ ap (λ (x : ℕ). bit_or (bit_or (bit_or a (b * 2 ^ 8)) x) (d * 2 ^ 24 % 2 ^ 32))
        (shifted c 16 r (omega arith))
    ∙ ap (λ (x : ℕ). bit_or (bit_or (bit_or a (b * 2 ^ 8)) (c * 2 ^ 16)) x)
        (shifted d 24 t (omega arith))
    ∙ joined a b c d p q r
  where
    unshifted : (x : ℕ) → x < 256 → x * 1 % 2 ^ 32 ≡ x
    unshifted x h = omega arith

    shifted : (x k : ℕ) → x < 256 → x * 2 ^ k < 2 ^ 32 → x * 2 ^ k % 2 ^ 32 ≡ x * 2 ^ k
    shifted x k h fits = mod-eq_of_lt fits

four-write_le : (v : ℕ) → v < 2 ^ 32 → four little (write_le v) ≡ v
four-write_le v h =
    four-bytes (v % 256) (v / 2 ^ 8 % 256) (v / 2 ^ 16 % 256) (v / 2 ^ 24 % 256) (omega arith)
      (omega arith) (omega arith) (omega arith)
    ∙ omega arith

-- A 32-bit number, written with its lowest byte first, is read back by `ply_read_scalar_le` as it
-- was, with its size, for each type of four bytes.
pub read_scalar_le-write_le :
    (v : ℕ)
    → v < 2 ^ 32
    → (read_scalar_le (write_le v) int32 ≡ (bits v, 4))
      × (read_scalar_le (write_le v) uint32 ≡ (bits v, 4))
      × (read_scalar_le (write_le v) float32 ≡ (bits v, 4))
unfolding read_scalar_le
read_scalar_le-write_le v h =
    let e : ◌≡◌ {A = Scalar × ℕ} (bits (four little (write_le v)), 4) (bits v, 4) =
      ap (λ (x : ℕ). (bits x, 4)) (four-write_le v h) in
    (e, e, e)

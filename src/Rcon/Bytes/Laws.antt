-- ===== src/Rcon/Bytes/Laws.antt =====
-- When reading back a 32-bit number works, and when it does not.
use Prim.Native.Nat.{bit_or}
use mathlib.Core.Path.{ap₂}
use native.Mathlib.Nat.{mod-eq_of_lt}
use tom_libs.Common.{
  get_or, ℕ, ◌+◌, ◌-◌, ◌*◌, ◌/◌, ◌%◌, ◌^◌, ◌≤◌, ◌<◌, ◌≡◌, refl, sym, ap, ◌∙◌, true, List, [], ◌∷◌,
  arith,
}
use tom_libs.Common.Bits.{bit_or-shifted, bit_or-sum, bit_or_ones}
use tom_libs.Rcon.Bytes.{sign_extend, shl, is_negative, write_i32, read_i32}

small_byte : (b : ℕ) → b < 128 → sign_extend b ≡ b
unfolding sign_extend
small_byte b h = ground arith

small_shl : (b k : ℕ) → b < 128 → b * 2 ^ k < 2 ^ 32 → shl (sign_extend b) k ≡ b * 2 ^ k
small_shl b k h fits = rw (small_byte b h) (ground (arith, mod-eq_of_lt fits))

-- The sign of the last byte is shifted out.
top_shl : (d : ℕ) → d < 256 → shl (sign_extend d) 24 ≡ d * 2 ^ 24
unfolding sign_extend
top_shl d h = ground arith

-- Four bytes, the lower three below 128.
read_small :
    (a b c d : ℕ)
    → a < 128
    → b < 128
    → c < 128
    → d < 256
    → read_i32 (a ∷ b ∷ c ∷ d ∷ []) ≡ d * 2 ^ 24 + (c * 2 ^ 16 + (b * 2 ^ 8 + a))
unfolding read_i32
read_small a b c d p q r t =
    ap₂ (λ (x y : ℕ). bit_or (bit_or (bit_or x (shl (sign_extend b) 8)) y) (shl (sign_extend d) 24))
      (small_byte a p) (small_shl c 16 r (omega arith))
    ∙ ap₂ (λ (x y : ℕ). bit_or (bit_or (bit_or a x) (c * 2 ^ 16)) y) (small_shl b 8 q (omega arith))
        (top_shl d t)
    ∙ ap (λ (x : ℕ). bit_or (bit_or x (c * 2 ^ 16)) (d * 2 ^ 24)) (bit_or-sum 8 b a (omega arith))
    ∙ ap (λ (x : ℕ). bit_or x (d * 2 ^ 24)) (bit_or-sum 16 c (b * 2 ^ 8 + a) (omega arith))
    ∙ bit_or-sum 24 d (c * 2 ^ 16 + (b * 2 ^ 8 + a)) (omega arith)

-- Reading back a written 32-bit number gives the number if its low three bytes are below 128.
pub read-write_i32 :
    (v : ℕ)
    → v < 2 ^ 32
    → v % 256 < 128
    → (v / 2 ^ 8) % 256 < 128
    → (v / 2 ^ 16) % 256 < 128
    → read_i32 (write_i32 v) ≡ v
unfolding write_i32
read-write_i32 v h p q r =
    read_small (v % 256) (v / 2 ^ 8 % 256) (v / 2 ^ 16 % 256) (v / 2 ^ 24 % 256) p q r (omega arith)
    ∙ omega arith

sign_extend-high : (a : ℕ) → 128 ≤ a → sign_extend a ≡ (2 ^ 24 - 1) * 2 ^ 8 + a
unfolding sign_extend
sign_extend-high a h = ground arith

-- A sign-extended byte absorbs what is shifted in above it.
absorb :
    (a y x : ℕ)
    → 128 ≤ a
    → a < 256
    → y ≡ x * 2 ^ 8
    → x < 2 ^ 24
    → bit_or (sign_extend a) y ≡ sign_extend a
absorb a y x lo hi e fits =
    ap₂ bit_or (sign_extend-high a lo) e
    ∙ bit_or-shifted 8 (2 ^ 24 - 1) x a hi
    ∙ ap (λ (t : ℕ). t * 2 ^ 8 + a) (bit_or_ones 24 (2 ^ 24 - 1) x refl fits)
    ∙ sym (sign_extend-high a lo)

-- A first byte of 128 or more decides the whole number, whatever the other bytes are.
pub read_i32_high :
    (a : ℕ) (rest : List ℕ) → 128 ≤ a → a < 256 → read_i32 (a ∷ rest) ≡ sign_extend a
unfolding read_i32
read_i32_high a rest lo hi =
    let b = sign_extend (get_or (a ∷ rest) 1 0) in
    let c = sign_extend (get_or (a ∷ rest) 2 0) in
    let d = sign_extend (get_or (a ∷ rest) 3 0) in
    ap (λ (t : ℕ). bit_or (bit_or t (shl c 16)) (shl d 24))
      (absorb a (shl b 8) (b % 2 ^ 24) lo hi (omega arith) (omega arith))
    ∙ ap (λ (t : ℕ). bit_or t (shl d 24))
        (absorb a (shl c 16) (c * 2 ^ 8 % 2 ^ 24) lo hi (omega arith) (omega arith))
    ∙ absorb a (shl d 24) (d * 2 ^ 16 % 2 ^ 24) lo hi (omega arith) (omega arith)

-- A written number whose lowest byte is 128 or more is read back as a negative number, which its
-- lowest byte alone decides.
pub read-write_i32_high :
    (v : ℕ)
    → 128 ≤ v % 256
    → (read_i32 (write_i32 v) ≡ v % 256 + (2 ^ 32 - 256))
      × (is_negative (read_i32 (write_i32 v)) ≡ true)
unfolding write_i32
read-write_i32_high v h =
    let e =
      read_i32_high (v % 256) ((v / 2 ^ 8) % 256 ∷ (v / 2 ^ 16) % 256 ∷ (v / 2 ^ 24) % 256 ∷ []) h
        (omega arith)
      ∙ sign_extend-high (v % 256) h in
    (e ∙ omega arith, rw e (ground arith))

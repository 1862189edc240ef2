-- ===== src/Rcon/Bytes.antt =====
-- `rcon_write_i32` and `rcon_read_i32` of tom_rcon.h. A `char` and an `int32_t` are their bit
-- patterns, numbers below 2^8 and 2^32. Plain `char` is signed, as on x86 with the usual compilers.
pub mod Laws
use Prim.Native.Nat.{bit_or}
use tom_libs.Common.Ints.{u32_mod}
use tom_libs.Common.{
  ltb, leb, if◌then◌else◌, get_or, ℕ, ◌+◌, ◌-◌, ◌*◌, ◌/◌, ◌%◌, ◌^◌, Bool, List, [], ◌∷◌,
}

-- `(int32_t)b` of a `char`: the sign is extended
unfoldable pub sign_extend : ℕ → ℕ
sign_extend b = if ltb b 128 then b else b + (u32_mod - 256)

-- `x << k` on 32 bits
abbrev pub shl : ℕ → ℕ → ℕ
shl x k = x * 2 ^ k % u32_mod

-- the value that an `int32_t` pattern stands for is negative
abbrev pub is_negative : ℕ → Bool
is_negative v = leb (2 ^ 31) v

-- `rcon_write_i32`: the four bytes that it stores
unfoldable pub write_i32 : ℕ → List ℕ
write_i32 v = v % 256 ∷ (v / 2 ^ 8) % 256 ∷ (v / 2 ^ 16) % 256 ∷ (v / 2 ^ 24) % 256 ∷ []

-- `rcon_read_i32` of the bytes at offsets 0 to 3
unfoldable pub read_i32 : List ℕ → ℕ
unfolding sign_extend
read_i32 b =
    bit_or
      (bit_or (bit_or (sign_extend (get_or b 0 0)) (shl (sign_extend (get_or b 1 0)) 8))
        (shl (sign_extend (get_or b 2 0)) 16))
      (shl (sign_extend (get_or b 3 0)) 24)

-- ===== src/Ply/Scalar.antt =====
-- `ply_read_scalar_le` and `ply_read_scalar_be` of tom_ply.h.
pub mod RoundTrip
pub mod Read
use Prim.Native.Nat.{bit_or}
use tom_libs.Common.{get_or, ℕ, ◌-◌, ◌*◌, ◌%◌, ◌^◌, List}
use tom_libs.Ply.Types.{ScalarType, int8, uint8, int16, uint16, int32, uint32, float32, float64}

-- What is stored in a `union ply_scalar`: the 32 bits of an integer or of a float, the 64 bits of a
-- double, or the double that a number of 64 bits is converted to.
pub data Scalar : Type 0 where
  bits : ℕ → Scalar
  double : ℕ → Scalar
  converted : ℕ → Scalar

-- `(uint32_t)raw[i] << k` and `(uint64_t)raw[i] << k`
abbrev pub byte32 : List ℕ → ℕ → ℕ → ℕ
byte32 raw i k = get_or raw i 0 * 2 ^ k % 2 ^ 32

abbrev pub byte64 : List ℕ → ℕ → ℕ → ℕ
byte64 raw i k = get_or raw i 0 * 2 ^ k % 2 ^ 64

-- two, four and eight bytes, each with its place
unfoldable pub two : (ℕ → ℕ) → List ℕ → ℕ
two place raw = bit_or (byte32 raw 0 (place 0)) (byte32 raw 1 (place 1))

unfoldable pub four : (ℕ → ℕ) → List ℕ → ℕ
four place raw =
    bit_or
      (bit_or (bit_or (byte32 raw 0 (place 0)) (byte32 raw 1 (place 1))) (byte32 raw 2 (place 2)))
      (byte32 raw 3 (place 3))

unfoldable pub eight : (ℕ → ℕ) → List ℕ → ℕ
eight place raw =
    bit_or
      (bit_or
        (bit_or
          (bit_or
            (bit_or
              (bit_or (bit_or (byte64 raw 0 (place 0)) (byte64 raw 1 (place 1)))
                (byte64 raw 2 (place 2)))
              (byte64 raw 3 (place 3)))
            (byte64 raw 4 (place 4)))
          (byte64 raw 5 (place 5)))
        (byte64 raw 6 (place 6)))
      (byte64 raw 7 (place 7))

-- the shifts, from the first byte on
abbrev pub little : ℕ → ℕ
little i = 8 * i

abbrev pub big : ℕ → ℕ → ℕ
big n i = 8 * (n - 1 - i)

-- `ply_read_scalar_le`: the value, and the number of bytes
unfoldable pub read_scalar_le : List ℕ → ScalarType → Scalar × ℕ
unfolding two four eight
read_scalar_le raw int8 = (bits (get_or raw 0 0), 1)
read_scalar_le raw uint8 = (bits (get_or raw 0 0), 1)
read_scalar_le raw int16 = (bits (two little raw), 2)
read_scalar_le raw uint16 = (bits (two little raw), 2)
read_scalar_le raw int32 = (bits (four little raw), 4)
read_scalar_le raw uint32 = (bits (four little raw), 4)
read_scalar_le raw float32 = (bits (four little raw), 4)
read_scalar_le raw float64 = (converted (eight little raw), 8)

-- `ply_read_scalar_be`
unfoldable pub read_scalar_be : List ℕ → ScalarType → Scalar × ℕ
unfolding two four eight
read_scalar_be raw int8 = (bits (get_or raw 0 0), 1)
read_scalar_be raw uint8 = (bits (get_or raw 0 0), 1)
read_scalar_be raw int16 = (bits (two (big 2) raw), 2)
read_scalar_be raw uint16 = (bits (two (big 2) raw), 2)
read_scalar_be raw int32 = (bits (four (big 4) raw), 4)
read_scalar_be raw uint32 = (bits (four (big 4) raw), 4)
read_scalar_be raw float32 = (bits (four (big 4) raw), 4)
read_scalar_be raw float64 = (converted (eight (big 8) raw), 8)

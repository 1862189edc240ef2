-- ===== src/Ply/Scalar/Read.antt =====
-- `ply_read_scalar_ascii` and `ply_read_scalar` of tom_ply.h.
use tom_libs.Common.{
  ltb, ◌==◌, if◌then◌else◌, length, ℕ, ◌-◌, ◌%◌, ◌^◌, Option, none, some, List, [], ◌∷◌,
}
use tom_libs.Common.Ints.{u32_mod, int_lt}
use tom_libs.Ply.Types.{
  ScalarType, int8, uint8, int16, uint16, int32, uint32, float32, float64, Format, unknown, ascii,
  binary_little_endian, binary_big_endian, err_syntax, err_internal, Parse, ok, failed, stale,
  ◌>>=◌, or_syntax,
}
use tom_libs.Ply.Header.Words.{space}
use tom_libs.Ply.Scalar.{Scalar, bits, double, read_scalar_le, read_scalar_be}

-- The conversions of the C library: the value at the start of a text, as the pattern of its bits,
-- and what follows it; `none` if they read up to the end, so that what stands behind it matters.
pub record CLibrary : Type 0 where
  pub strtol : List ℕ → Option (ℕ × List ℕ)
  pub strtoul : List ℕ → Option (ℕ × List ℕ)
  pub strtof : List ℕ → Option (ℕ × List ℕ)
  pub strtod : List ℕ → Option (ℕ × List ℕ)

-- `value->i = strtol(...)` with the tests on its range; the bounds are patterns, too
unfoldable pub in_range : ℕ → ℕ → ℕ → Option Scalar
in_range lowest highest v =
    let i = v % u32_mod in
    if int_lt i lowest then none else if int_lt highest i then none else some (bits i)

-- `value->u = strtoul(...)` with the test on its range
unfoldable pub up_to : ℕ → ℕ → Option Scalar
up_to highest v = let u = v % u32_mod in if ltb highest u then none else some (bits u)

-- one case of the `switch`: the value, if it is in range, and the end of its text
abbrev pub with_value : (ℕ → Option Scalar) → Option (ℕ × List ℕ) → Parse (Option Scalar × List ℕ)
with_value f none = stale
with_value f (some (v, end)) = ok (f v, end)

-- the `switch`
unfoldable pub convert : CLibrary → ScalarType → List ℕ → Parse (Option Scalar × List ℕ)
unfolding in_range up_to
convert lib int8 str = with_value (in_range (u32_mod - 128) 127) (lib.strtol str)
convert lib uint8 str = with_value (up_to 255) (lib.strtoul str)
convert lib int16 str = with_value (in_range (u32_mod - 2 ^ 15) (2 ^ 15 - 1)) (lib.strtol str)
convert lib uint16 str = with_value (up_to (2 ^ 16 - 1)) (lib.strtoul str)
convert lib int32 str = with_value (in_range (2 ^ 31) (2 ^ 31 - 1)) (lib.strtol str)
convert lib uint32 str = with_value (up_to (u32_mod - 1)) (lib.strtoul str)
convert lib float32 str = with_value (λ v. some (bits v)) (lib.strtof str)
convert lib float64 str = with_value (λ v. some (double v)) (lib.strtod str)

-- `while (*end == ' ') end++`, which may read on behind what was read
unfoldable pub skip_spaces : List ℕ → Parse (List ℕ)
skip_spaces [] = stale
skip_spaces (c ∷ cs) = let rest = skip_spaces cs in if c == space then rest else ok (c ∷ cs)

-- `ply_read_scalar_ascii`: the value and the number of bytes, with the spaces that follow
unfoldable pub read_scalar_ascii : CLibrary → List ℕ → ScalarType → Parse (Scalar × ℕ)
unfolding convert skip_spaces
read_scalar_ascii lib str type = do
  (converted_value, end) ← convert lib type str
  value ← or_syntax converted_value
  word ← (if length end == length str then failed err_syntax else ok value)
  after ← skip_spaces end
  ok (word, length str - length after)

-- a value of a binary file, whose bytes have to be there
unfoldable pub if_there : List ℕ → Scalar × ℕ → Parse (Scalar × ℕ)
if_there raw r = if ltb (length raw) r.1 then stale else ok r

-- `ply_read_scalar`; `raw` is what was read and is left
unfoldable pub read_scalar : CLibrary → Format → List ℕ → ScalarType → Parse (Scalar × ℕ)
unfolding read_scalar_ascii if_there read_scalar_le read_scalar_be
read_scalar lib ascii raw type = read_scalar_ascii lib raw type
read_scalar lib binary_little_endian raw type = if_there raw (read_scalar_le raw type)
read_scalar lib binary_big_endian raw type = if_there raw (read_scalar_be raw type)
read_scalar lib unknown raw type = failed err_internal

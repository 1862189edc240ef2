-- ===== src/Ply/Cast.antt =====
-- `ply_cast` and `ply_cast_normalized` of tom_ply.h.
pub mod Laws
use tom_libs.Common.{if◌then◌else◌, ℕ, ◌-◌, ◌^◌, Bool, Option, none, some}
use tom_libs.Common.Ints.{u32_mod}
use tom_libs.Ply.Types.{
  ScalarType, int8, uint8, int16, uint16, int32, uint32, float32, float64, Parse, ok, fault, ◌>>=◌,
  or_fault,
}
use tom_libs.Ply.Scalar.{Scalar, bits, double, converted}

-- The arithmetic of C on a type of floats, by the patterns of their bits
pub record Arithmetic : Type 0 where
  pub of_int : ℕ → ℕ
  pub of_uint : ℕ → ℕ
  pub is_negative : ℕ → Bool
  pub negate : ℕ → ℕ
  pub divide : ℕ → ℕ → ℕ

-- The conversions of C; one that is out of range is undefined behaviour, `none`.
pub record Conversions : Type 0 where
  pub single : Arithmetic
  pub twice : Arithmetic
  pub float_of_double : ℕ → ℕ
  pub double_of_float : ℕ → ℕ
  pub double_of_number : ℕ → ℕ
  pub int_of_float : ℕ → Option ℕ
  pub int_of_double : ℕ → Option ℕ
  pub uint_of_float : ℕ → Option ℕ
  pub uint_of_double : ℕ → Option ℕ

-- `value.i`, `value.u` and `value.f`, and `value.d`, of a value that was stored as such
abbrev pub word_of : Scalar → Parse ℕ
word_of (bits n) = ok n
word_of _ = fault

abbrev pub double_of : Conversions → Scalar → Parse ℕ
double_of c (double d) = ok d
double_of c (converted n) = ok (c.double_of_number n)
double_of c (bits n) = fault

-- `PLY_STORE_CAST_VALUE`, with the conversions to the type of `dest`
unfoldable pub store_cast :
    Conversions
    → (ℕ → Option ℕ)
    → (ℕ → Option ℕ)
    → (ℕ → Option ℕ)
    → (ℕ → Option ℕ)
    → ScalarType
    → Scalar
    → Parse ℕ
store_cast c from_int from_uint from_float from_double int8 v =
    word_of v >>= λ n. or_fault (from_int n)
store_cast c from_int from_uint from_float from_double int16 v =
    word_of v >>= λ n. or_fault (from_int n)
store_cast c from_int from_uint from_float from_double int32 v =
    word_of v >>= λ n. or_fault (from_int n)
store_cast c from_int from_uint from_float from_double uint8 v =
    word_of v >>= λ n. or_fault (from_uint n)
store_cast c from_int from_uint from_float from_double uint16 v =
    word_of v >>= λ n. or_fault (from_uint n)
store_cast c from_int from_uint from_float from_double uint32 v =
    word_of v >>= λ n. or_fault (from_uint n)
store_cast c from_int from_uint from_float from_double float32 v =
    word_of v >>= λ n. or_fault (from_float n)
store_cast c from_int from_uint from_float from_double float64 v =
    double_of c v >>= λ d. or_fault (from_double d)

-- the cases of the four types of `dest`
unfoldable pub to_int : Conversions → ScalarType → Scalar → Parse Scalar
unfolding store_cast
to_int c type v = store_cast c some some c.int_of_float c.int_of_double type v >>= λ n. ok (bits n)

unfoldable pub to_uint : Conversions → ScalarType → Scalar → Parse Scalar
unfolding store_cast
to_uint c type v =
    store_cast c some some c.uint_of_float c.uint_of_double type v >>= λ n. ok (bits n)

unfoldable pub to_float : Conversions → ScalarType → Scalar → Parse Scalar
unfolding store_cast
to_float c type v =
    store_cast c (λ n. some (c.single.of_int n)) (λ n. some (c.single.of_uint n)) some
      (λ d. some (c.float_of_double d)) type v
    >>= λ n. ok (bits n)

unfoldable pub to_double : Conversions → ScalarType → Scalar → Parse Scalar
unfolding store_cast
to_double c type v =
    store_cast c (λ n. some (c.twice.of_int n)) (λ n. some (c.twice.of_uint n))
      (λ n. some (c.double_of_float n)) some type v
    >>= λ d. ok (double d)

-- `ply_cast`, from the desired type on
unfoldable pub cast : Conversions → ScalarType → ScalarType → Scalar → Parse Scalar
unfolding to_int to_uint to_float to_double
cast c int8 type v = to_int c type v
cast c int16 type v = to_int c type v
cast c int32 type v = to_int c type v
cast c uint8 type v = to_uint c type v
cast c uint16 type v = to_uint c type v
cast c uint32 type v = to_uint c type v
cast c float32 type v = to_float c type v
cast c float64 type v = to_double c type v

-- `PLY_NORMALIZE` of an integer converted to a float
unfoldable pub normalize : Arithmetic → ℕ → ℕ → ℕ → ℕ
normalize a lowest highest n =
    let v = a.of_int n in
    if a.is_negative v
    then a.negate (a.divide v (a.of_int lowest))
    else a.divide v (a.of_int highest)

-- an unsigned integer as a fraction of the largest
unfoldable pub fraction : Arithmetic → ℕ → ℕ → ℕ
fraction a highest n = a.divide (a.of_uint n) highest

-- the cases of the integer types of `ply_cast_normalized`; `none` for a type of floats
unfoldable pub normalized : Arithmetic → ScalarType → ℕ → Option ℕ
unfolding normalize fraction
normalized a int8 n = some (normalize a (u32_mod - 128) 127 n)
normalized a int16 n = some (normalize a (u32_mod - 2 ^ 15) (2 ^ 15 - 1) n)
normalized a int32 n = some (normalize a (2 ^ 31) (2 ^ 31 - 1) n)
normalized a uint8 n = some (fraction a (a.of_int 255) n)
normalized a uint16 n = some (fraction a (a.of_int (2 ^ 16 - 1)) n)
normalized a uint32 n = some (fraction a (a.of_uint (u32_mod - 1)) n)
normalized a float32 n = none
normalized a float64 n = none

unfoldable pub normalized_float : Conversions → ScalarType → Scalar → Parse Scalar
unfolding normalized
normalized_float c float32 v = word_of v >>= λ n. ok (bits n)
normalized_float c float64 v = double_of c v >>= λ d. ok (bits (c.float_of_double d))
normalized_float c type v =
    word_of v >>= λ n. or_fault (normalized c.single type n) >>= λ m. ok (bits m)

unfoldable pub normalized_double : Conversions → ScalarType → Scalar → Parse Scalar
unfolding normalized
normalized_double c float32 v = word_of v >>= λ n. ok (double (c.double_of_float n))
normalized_double c float64 v = double_of c v >>= λ d. ok (double d)
normalized_double c type v =
    word_of v >>= λ n. or_fault (normalized c.twice type n) >>= λ m. ok (double m)

-- `ply_cast_normalized`, from the desired type on
unfoldable pub cast_normalized : Conversions → ScalarType → ScalarType → Scalar → Parse Scalar
unfolding to_int to_uint normalized_float normalized_double
cast_normalized c int8 type v = to_int c type v
cast_normalized c int16 type v = to_int c type v
cast_normalized c int32 type v = to_int c type v
cast_normalized c uint8 type v = to_uint c type v
cast_normalized c uint16 type v = to_uint c type v
cast_normalized c uint32 type v = to_uint c type v
cast_normalized c float32 type v = normalized_float c type v
cast_normalized c float64 type v = normalized_double c type v

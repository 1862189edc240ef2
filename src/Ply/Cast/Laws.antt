-- ===== src/Ply/Cast/Laws.antt =====
-- What `ply_cast` and `ply_cast_normalized` have in common.
use tom_libs.Common.{◌≡◌, refl, ◌⊎◌, inl, inr, true, false}
use tom_libs.Ply.Types.{ScalarType, int8, uint8, int16, uint16, int32, uint32, float32, float64}
use tom_libs.Ply.Header.{is_float}
use tom_libs.Ply.Scalar.{Scalar, bits, double, converted}
use tom_libs.Ply.Cast.{
  Conversions, store_cast, to_float, to_double, cast, normalized_float, normalized_double,
  cast_normalized,
}

to_float-normalized_float :
    (c : Conversions) (type : ScalarType) (v : Scalar)
    → is_float type ≡ true
    → normalized_float c type v ≡ to_float c type v
unfolding normalized_float to_float store_cast
to_float-normalized_float c float32 (bits n) h = refl
to_float-normalized_float c float32 (double d) h = refl
to_float-normalized_float c float32 (converted n) h = refl
to_float-normalized_float c float64 (bits n) h = refl
to_float-normalized_float c float64 (double d) h = refl
to_float-normalized_float c float64 (converted n) h = refl
to_float-normalized_float c int8 v h = absurd cc
to_float-normalized_float c int16 v h = absurd cc
to_float-normalized_float c int32 v h = absurd cc
to_float-normalized_float c uint8 v h = absurd cc
to_float-normalized_float c uint16 v h = absurd cc
to_float-normalized_float c uint32 v h = absurd cc

to_double-normalized_double :
    (c : Conversions) (type : ScalarType) (v : Scalar)
    → is_float type ≡ true
    → normalized_double c type v ≡ to_double c type v
unfolding normalized_double to_double store_cast
to_double-normalized_double c float32 (bits n) h = refl
to_double-normalized_double c float32 (double d) h = refl
to_double-normalized_double c float32 (converted n) h = refl
to_double-normalized_double c float64 (bits n) h = refl
to_double-normalized_double c float64 (double d) h = refl
to_double-normalized_double c float64 (converted n) h = refl
to_double-normalized_double c int8 v h = absurd cc
to_double-normalized_double c int16 v h = absurd cc
to_double-normalized_double c int32 v h = absurd cc
to_double-normalized_double c uint8 v h = absurd cc
to_double-normalized_double c uint16 v h = absurd cc
to_double-normalized_double c uint32 v h = absurd cc

-- Casts to an integer type, and casts of floats, are the same normalized or not.
pub cast_normalized-cast :
    (c : Conversions) (desired type : ScalarType) (v : Scalar)
    → (is_float desired ≡ false) ⊎ (is_float type ≡ true)
    → cast_normalized c desired type v ≡ cast c desired type v
unfolding cast cast_normalized
cast_normalized-cast c int8 type v h = refl
cast_normalized-cast c int16 type v h = refl
cast_normalized-cast c int32 type v h = refl
cast_normalized-cast c uint8 type v h = refl
cast_normalized-cast c uint16 type v h = refl
cast_normalized-cast c uint32 type v h = refl
cast_normalized-cast c float32 type v h = elim h [
  | inl e ↦ absurd cc
  | inr e ↦ to_float-normalized_float c type v e
]
cast_normalized-cast c float64 type v h = elim h [
  | inl e ↦ absurd cc
  | inr e ↦ to_double-normalized_double c type v e
]

-- ===== src/Ply/Types.antt =====
-- The data of tom_ply.h. A string is the list of its bytes, without the NUL.
use tom_libs.Common.{ℕ, Bool, Option, none, some, List}

-- `PLY_MAX_NAME` and `PLY_MIN_BUFFER_CAPACITY`
abbrev pub max_name : ℕ
max_name = 32

abbrev pub min_buffer_capacity : ℕ
min_buffer_capacity = 1024

-- `enum ply_type`
pub data ScalarType : Type 0 where
  int8 uint8 int16 uint16 int32 uint32 float32 float64 : ScalarType

-- `enum ply_format`
pub data Format : Type 0 where
  unknown ascii binary_little_endian binary_big_endian : Format

-- the negative return codes, and those of the caller's own callbacks, by their magnitude
pub data Status : Type 0 where
  err_space err_limit err_read err_syntax err_internal : Status
  err_user : ℕ → Status

-- An operation ends with a result, an error, or undefined behaviour; `stale` is a result that
-- depends on bytes behind those that were read.
pub data Parse {ℓ} (A : Type ℓ) : Type ℓ where
  ok : A → Parse A
  failed : Status → Parse A
  fault : Parse A
  stale : Parse A
  out_of_fuel : Parse A

infixl 5 ◌>>=◌
abbrev pub ◌>>=◌ {ℓ κ} : {A : Type ℓ} {B : Type κ} → Parse A → (A → Parse B) → Parse B
ok a >>= f = f a
failed e >>= f = failed e
fault >>= f = fault
stale >>= f = stale
out_of_fuel >>= f = out_of_fuel

-- a missing token, or another `return PLY_ERR_SYNTAX`
abbrev pub or_syntax {ℓ} : {A : Type ℓ} → Option A → Parse A
or_syntax none = failed err_syntax
or_syntax (some a) = ok a

-- a write through a pointer that may be NULL
abbrev pub or_fault {ℓ} : {A : Type ℓ} → Option A → Parse A
or_fault none = fault
or_fault (some a) = ok a

-- `struct ply_property` less its link
pub record Property : Type 0 where
  pub name : List ℕ
  pub length_type : ScalarType
  pub scalar_type : ScalarType
  pub is_list : Bool

-- `struct ply_element` less its link; `numProperties` is the length of the list.
pub record Element : Type 0 where
  pub name : List ℕ
  pub num_tuples : ℕ
  pub properties : List Property

-- What the header parser keeps in `struct ply_parser`. `lastElement` is the last of the list and
-- `numElements` its length. `buffer` holds the `bufferFill` bytes at the start of the memory,
-- whose address is `memory`.
pub record Parser : Type 0 where
  pub format : Format
  pub elements : List Element
  pub memory : ℕ
  pub memory_size : ℕ
  pub memory_break : ℕ
  pub buffer : List ℕ

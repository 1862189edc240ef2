-- ===== src/Ply/Header/Words.antt =====
-- The words of a PLY header.
use tom_libs.Common.{◌==◌, ℕ, Bool, true, false, ◌&&◌, List, [], ◌∷◌}
use tom_libs.Ply.Types.{ScalarType, int8, uint8, int16, uint16, int32, uint32, float32, float64}

abbrev pub space : ℕ
space = b' '

abbrev pub newline : ℕ
newline = 10

abbrev pub word_magic : List ℕ
word_magic = b'p' ∷ b'l' ∷ b'y' ∷ newline ∷ []

abbrev pub word_ascii : List ℕ
word_ascii = b'a' ∷ b's' ∷ b'c' ∷ b'i' ∷ b'i' ∷ []

abbrev pub word_binary_little_endian : List ℕ
word_binary_little_endian =
    b'b' ∷ b'i' ∷ b'n' ∷ b'a' ∷ b'r' ∷ b'y' ∷ b'_' ∷ b'l' ∷ b'i' ∷ b't' ∷ b't' ∷ b'l' ∷ b'e' ∷ b'_'
    ∷ b'e' ∷ b'n' ∷ b'd' ∷ b'i' ∷ b'a' ∷ b'n' ∷ []

abbrev pub word_binary_big_endian : List ℕ
word_binary_big_endian =
    b'b' ∷ b'i' ∷ b'n' ∷ b'a' ∷ b'r' ∷ b'y' ∷ b'_' ∷ b'b' ∷ b'i' ∷ b'g' ∷ b'_' ∷ b'e' ∷ b'n' ∷ b'd'
    ∷ b'i' ∷ b'a' ∷ b'n' ∷ []

abbrev pub word_version : List ℕ
word_version = b'1' ∷ b'.' ∷ b'0' ∷ []

abbrev pub word_list : List ℕ
word_list = b'l' ∷ b'i' ∷ b's' ∷ b't' ∷ []

abbrev pub word_end_header : List ℕ
word_end_header = b'e' ∷ b'n' ∷ b'd' ∷ b'_' ∷ b'h' ∷ b'e' ∷ b'a' ∷ b'd' ∷ b'e' ∷ b'r' ∷ []

abbrev pub word_format : List ℕ
word_format = b'f' ∷ b'o' ∷ b'r' ∷ b'm' ∷ b'a' ∷ b't' ∷ []

abbrev pub word_element : List ℕ
word_element = b'e' ∷ b'l' ∷ b'e' ∷ b'm' ∷ b'e' ∷ b'n' ∷ b't' ∷ []

abbrev pub word_property : List ℕ
word_property = b'p' ∷ b'r' ∷ b'o' ∷ b'p' ∷ b'e' ∷ b'r' ∷ b't' ∷ b'y' ∷ []

abbrev pub word_comment : List ℕ
word_comment = b'c' ∷ b'o' ∷ b'm' ∷ b'm' ∷ b'e' ∷ b'n' ∷ b't' ∷ []

-- `ply_type_names`, in its order, each with the index of its type
abbrev pub type_names : List (List ℕ × ScalarType)
type_names =
    (b'i' ∷ b'n' ∷ b't' ∷ b'8' ∷ [], int8)
    ∷ (b'c' ∷ b'h' ∷ b'a' ∷ b'r' ∷ [], int8)
    ∷ (b'u' ∷ b'i' ∷ b'n' ∷ b't' ∷ b'8' ∷ [], uint8)
    ∷ (b'u' ∷ b'c' ∷ b'h' ∷ b'a' ∷ b'r' ∷ [], uint8)
    ∷ (b'i' ∷ b'n' ∷ b't' ∷ b'1' ∷ b'6' ∷ [], int16)
    ∷ (b's' ∷ b'h' ∷ b'o' ∷ b'r' ∷ b't' ∷ [], int16)
    ∷ (b'u' ∷ b'i' ∷ b'n' ∷ b't' ∷ b'1' ∷ b'6' ∷ [], uint16)
    ∷ (b'u' ∷ b's' ∷ b'h' ∷ b'o' ∷ b'r' ∷ b't' ∷ [], uint16)
    ∷ (b'i' ∷ b'n' ∷ b't' ∷ b'3' ∷ b'2' ∷ [], int32)
    ∷ (b'i' ∷ b'n' ∷ b't' ∷ [], int32)
    ∷ (b'u' ∷ b'i' ∷ b'n' ∷ b't' ∷ b'3' ∷ b'2' ∷ [], uint32)
    ∷ (b'u' ∷ b'i' ∷ b'n' ∷ b't' ∷ [], uint32)
    ∷ (b'f' ∷ b'l' ∷ b'o' ∷ b'a' ∷ b't' ∷ b'3' ∷ b'2' ∷ [], float32)
    ∷ (b'f' ∷ b'l' ∷ b'o' ∷ b'a' ∷ b't' ∷ [], float32)
    ∷ (b'f' ∷ b'l' ∷ b'o' ∷ b'a' ∷ b't' ∷ b'6' ∷ b'4' ∷ [], float64)
    ∷ (b'd' ∷ b'o' ∷ b'u' ∷ b'b' ∷ b'l' ∷ b'e' ∷ [], float64)
    ∷ []

-- `!strcmp(a, b)`
unfoldable pub str_eq : List ℕ → List ℕ → Bool
str_eq [] [] = true
str_eq (x ∷ xs) (y ∷ ys) = x == y && str_eq xs ys
str_eq _ _ = false

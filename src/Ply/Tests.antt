-- ===== src/Ply/Tests.antt =====
-- The theorems on PLY files at concrete states.
use tom_libs.Common.{
  ℕ, zero, suc, ◌+◌, ◌-◌, ◌%◌, ◌≤◌, ◌≡◌, refl, subst, inl, true, false, none, some, List, [], ◌∷◌,
  arith,
}
use tom_libs.Ply.Types.{
  min_buffer_capacity, int8, uint8, int32, uint32, float32, unknown, binary_little_endian, ok,
  Property, Element, Parser,
}
use tom_libs.Ply.Memory.{element_size, reserve, reserve_lem}
use tom_libs.Ply.Header.Words.{newline}
use tom_libs.Ply.Header.{parse_header_line, read_more, process_header}
use tom_libs.Ply.Header.Properties.{property_line, parse-property_line}
use tom_libs.Ply.Header.Loop.{process_header-Ends}
use tom_libs.Ply.Header.Lines.{element_line, parse-element_line}
use tom_libs.Ply.Header.Ends.{Ends}
use tom_libs.Ply.Access.{nth, get_element_by_name, Searched, get_element_by_name_lem}
use tom_libs.Ply.Scalar.{bits, read_scalar_le}
use tom_libs.Ply.Scalar.RoundTrip.{write_le, read_scalar_le-write_le}
use tom_libs.Ply.Scalar.Read.{CLibrary}
use tom_libs.Ply.Stream.{Stream, start_streaming, advance}
use tom_libs.Ply.Stream.Places.{IsFilled, IsShape, Next, Arrived}
use tom_libs.Ply.Stream.Cursor.{advance-Next}
use tom_libs.Ply.Callbacks.{Run, process_with_callbacks}
use tom_libs.Ply.Callbacks.Calls.{
  Event, element_starts, element_ends, tuple_starts, tuple_ends, scalar_read, list_starts,
  list_ends, item_read, recorder, ElementCalls,
}
use tom_libs.Ply.Callbacks.Events.{process_with_callbacks-ElementCalls}
use tom_libs.Ply.Cast.{Arithmetic, Conversions, cast, cast_normalized}
use tom_libs.Ply.Cast.Laws.{cast_normalized-cast}
use tom_libs.Ply.Callbacks.Reference.{elements_by}
use tom_libs.Ply.Callbacks.Process.{process_with_callbacks-elements_by}

abbrev start : Parser
start = record {
  format = unknown;
  elements = [];
  memory = 65536;
  memory_size = 4096;
  memory_break = 4096;
  buffer = [];
}

abbrev word_x : List ℕ
word_x = b'x' ∷ []

-- a stand-in that reads one digit
abbrev one_digit : List ℕ → ℕ × List ℕ
one_digit [] = (0, [])
one_digit (c ∷ cs) = (c - b'0', cs)

abbrev with_vertex : Parser
with_vertex = record {
  format = unknown;
  elements = record { name = word_x; num_tuples = 8; properties = [] } ∷ [];
  memory = 65536;
  memory_size = 4096;
  memory_break = 4016;
  buffer = [];
}

abbrev reserved : Parser
reserved = record start { memory_break = 4016 }

reserve_lem_example :
    (4016 % 16 ≡ 0)
    × (69552 ≡ 65536 + 4016)
    × (min_buffer_capacity ≤ 4016)
    × (4016 + element_size ≤ 4096)
    × (65536 % 16 ≡ 0 → 69552 % 16 ≡ 0)
reserve_lem_example =
    reserve_lem element_size start {at = 69552} {q = reserved} (unfold reserve in refl)

parse-element_line_example :
    parse_header_line one_digit start (element_line word_x (b'8' ∷ [])) ≡ ok (true, with_vertex)
parse-element_line_example =
    parse-element_line one_digit start word_x (b'8' ∷ []) 8 {at = 69552}
      {q = record start { memory_break = 4016 }} (omega arith, tt) (omega arith) (omega arith, tt)
      refl (unfold reserve in refl)

abbrev coordinate : Property
coordinate = record { name = word_x; length_type = int8; scalar_type = float32; is_list = false }

parse-property_line_example :
    parse_header_line one_digit with_vertex (property_line coordinate)
    ≡ ok (
      true,
      record with_vertex {
        memory_break = 3952;
        elements = record { name = word_x; num_tuples = 8; properties = coordinate ∷ [] } ∷ [];
      },
    )
parse-property_line_example =
    parse-property_line one_digit with_vertex coordinate []
      (record { name = word_x; num_tuples = 8; properties = [] }) {at = 69488}
      {q = record with_vertex { memory_break = 3952 }}
      (record { word = (omega arith, tt); short = omega arith; length_type_ok = refl }) refl
      (unfold reserve in refl)

process_header-Ends_example :
    Ends (process_header one_digit start (some (b'p' ∷ b'l' ∷ b'y' ∷ newline ∷ []) ∷ []))
process_header-Ends_example =
    process_header-Ends one_digit start (some (b'p' ∷ b'l' ∷ b'y' ∷ newline ∷ []) ∷ [])

get_element_by_name_example :
    Searched with_vertex.elements word_x (get_element_by_name with_vertex word_x)
get_element_by_name_example = get_element_by_name_lem with_vertex word_x

read_scalar_le-write_le_example :
    (read_scalar_le (write_le 4294967295) int32 ≡ (bits 4294967295, 4))
    × (read_scalar_le (write_le 4294967295) uint32 ≡ (bits 4294967295, 4))
    × (read_scalar_le (write_le 4294967295) float32 ≡ (bits 4294967295, 4))
read_scalar_le-write_le_example = read_scalar_le-write_le 4294967295 (omega arith)

abbrev small : Property
small = record { name = word_x; length_type = uint8; scalar_type = uint8; is_list = false }

abbrev several : Property
several = record { name = word_x; length_type = uint8; scalar_type = uint8; is_list = true }

abbrev vertex : Element
vertex = record { name = word_x; num_tuples = 8; properties = small ∷ several ∷ [] }

abbrev opened : Stream
opened = record {
  parser = record start { format = binary_little_endian; elements = vertex ∷ [] };
  offset = 0;
  element = some 0;
  tuple = 3;
  property = some 1;
  item = 0;
}

opened-IsShape : IsShape (vertex ∷ [])
unfolding nth
opened-IsShape = record { has_element = omega arith; filled = λ i e h. only i h }
  where
    only : (i : ℕ) {e : Element} → nth (vertex ∷ []) i ≡ some e → IsFilled e
    only zero {e} h =
        subst IsFilled {x = vertex} {y = e} (cc)
          (record { has_tuple = omega arith; has_property = omega arith })
    only (suc zero) h = absurd cc
    only (suc (suc i)) h = absurd cc

advance-Next_example : Arrived (vertex ∷ []) (Next (vertex ∷ []) vertex 0 3 1) (advance opened [])
unfolding nth
advance-Next_example =
    advance-Next opened [] opened-IsShape 0 3 1
      (record { element_is = refl; tuple_is = refl; property_is = refl })
      (record {
        place = vertex;
        element_there = refl;
        tuple_there = omega arith;
        property_there = omega arith;
      })

-- no text is read from a binary file
abbrev no_text : CLibrary
no_text = record { strtol = λ t. none; strtoul = λ t. none; strtof = λ t. none; strtod = λ t. none }

abbrev one_tuple : Element
one_tuple = record vertex { num_tuples = 1 }

-- a value 5 and a list of 6 and 7
abbrev file : Parser
file = record start {
  format = binary_little_endian;
  elements = one_tuple ∷ [];
  buffer = 5 ∷ 2 ∷ 6 ∷ 7 ∷ [];
}

abbrev calls : List Event
calls =
    element_starts one_tuple
    ∷ tuple_starts 0
    ∷ scalar_read small (bits 5)
    ∷ list_starts several 2
    ∷ item_read (bits 6)
    ∷ item_read (bits 7)
    ∷ list_ends
    ∷ tuple_ends
    ∷ element_ends
    ∷ []

abbrev processed : Run (List Event)
processed = record {
  stream = record {
    parser = file;
    offset = 4;
    element = some 0;
    tuple = 0;
    property = some 1;
    item = 2;
  };
  input = [];
  user = calls;
}

process_with_callbacks-ElementCalls_example : ElementCalls (one_tuple ∷ []) calls
process_with_callbacks-ElementCalls_example =
    process_with_callbacks-ElementCalls no_text file [] {r = processed}
      (unfold process_with_callbacks nth read_more read_scalar_le in refl)

file-IsShape : IsShape (one_tuple ∷ [])
unfolding nth
file-IsShape = record { has_element = omega arith; filled = λ i e h. only i h }
  where
    only : (i : ℕ) {e : Element} → nth (one_tuple ∷ []) i ≡ some e → IsFilled e
    only zero {e} h =
        subst IsFilled {x = one_tuple} {y = e} (cc)
          (record { has_tuple = omega arith; has_property = omega arith })
    only (suc i) h = absurd cc

process_with_callbacks-elements_by_example :
    process_with_callbacks no_text recorder file [] []
    ≡ elements_by no_text recorder
        (one_tuple ∷ [])
        (record { stream = start_streaming file; input = []; user = [] })
process_with_callbacks-elements_by_example =
    process_with_callbacks-elements_by no_text recorder file [] [] file-IsShape

-- a stand-in for floats, by whole numbers
abbrev wholes : Arithmetic
wholes = record {
  of_int = λ n. n;
  of_uint = λ n. n;
  is_negative = λ n. false;
  negate = λ n. n;
  divide = λ n m. n;
}

abbrev whole_conversions : Conversions
whole_conversions = record {
  single = wholes;
  twice = wholes;
  float_of_double = λ d. d;
  double_of_float = λ n. n;
  double_of_number = λ n. n;
  int_of_float = λ n. some n;
  int_of_double = λ n. some n;
  uint_of_float = λ n. some n;
  uint_of_double = λ n. some n;
}

cast_normalized-cast_example :
    cast_normalized whole_conversions int8 float32 (bits 5)
    ≡ cast whole_conversions int8 float32 (bits 5)
cast_normalized-cast_example =
    cast_normalized-cast whole_conversions int8 float32 (bits 5) (inl refl)

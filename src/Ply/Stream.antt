-- ===== src/Ply/Stream.antt =====
-- The streaming interface of tom_ply.h: `ply_start_streaming` to `ply_stream_list_item`.
pub mod Places
pub mod Cursor
use tom_libs.Common.{
  ltb, ◌==◌, if◌then◌else◌, length, drop, ℕ, ◌+◌, ◌-◌, ◌^◌, Option, none, some, List, [], ◌∷◌,
}
use tom_libs.Ply.Types.{
  ScalarType, int8, uint8, int16, uint16, int32, uint32, float32, float64, Format, ascii,
  err_syntax, Parse, ok, failed, fault, stale, ◌>>=◌, or_fault, Property, Element, Parser,
}
use tom_libs.Ply.Header.Words.{newline}
use tom_libs.Ply.Header.{Input, read_more}
use tom_libs.Ply.Access.{nth}
use tom_libs.Ply.Scalar.{Scalar, bits}
use tom_libs.Ply.Scalar.Read.{CLibrary, read_scalar}

-- `struct ply_parser` while streaming. `currentElement` and `currentProperty` are indices, the
-- second into the properties of the first; `none` is NULL.
pub record Stream : Type 0 where
  pub parser : Parser
  pub offset : ℕ
  pub element : Option ℕ
  pub tuple : ℕ
  pub property : Option ℕ
  pub item : ℕ

-- `ply_start_streaming`
unfoldable pub start_streaming : Parser → Stream
start_streaming p = record {
  parser = p;
  offset = 0;
  element = none;
  tuple = 2 ^ 64 - 1;
  property = none;
  item = 0;
}

-- `currentElement->properties`
abbrev pub first_property : Element → Option ℕ
first_property e = elim e.properties [ [] ↦ none | _ ∷ _ ↦ some 0 ]

unfoldable pub enter_first : Stream → Input → Element → Parse (Stream × Input)
unfolding read_more
enter_first s input e = do
  (p, more) ← read_more s.parser input
  ok (
    record s { parser = p; element = some 0; tuple = 0; property = first_property e; item = 0 },
    more,
  )

-- the branch of `ply_advance` for the first value
unfoldable pub advance_first : Stream → Input → Parse (Stream × Input)
unfolding nth enter_first
advance_first s input = or_fault (nth s.parser.elements 0) >>= enter_first s input

-- the tuple after tuple `t` of element `i`, as the indices of its element and its own
unfoldable pub next_tuple : List Element → ℕ → Element → ℕ → ℕ × ℕ
next_tuple es i e t =
    if ltb (t + 1) e.num_tuples
    then (i, t + 1)
    else if ltb (i + 1) (length es)
    then (i + 1, 0)
    else (0, 0)

-- a tuple of an ascii file ends with a newline
unfoldable pub end_tuple_text : Format → List ℕ → Parse ℕ
end_tuple_text ascii [] = stale
end_tuple_text ascii (c ∷ cs) = if c == newline then ok 1 else failed err_syntax
end_tuple_text _ raw = ok 0

-- what was parsed is taken off the buffer, which is filled up
unfoldable pub refill : Stream → Input → Parse (Stream × Input)
unfolding read_more
refill s input = do
  (p, more) ← read_more (record s.parser { buffer = drop s.offset s.parser.buffer }) input
  ok (record s { parser = p; offset = 0 }, more)

-- the indices and pointers at the start of a tuple
abbrev pub at_tuple : Stream → ℕ × ℕ → Element → Stream
at_tuple s next f = record s { element = some next.0; tuple = next.1; property = first_property f }

unfoldable pub enter_tuple : Stream → ℕ × ℕ → Input → Element → Parse (Stream × Input)
unfolding end_tuple_text refill
enter_tuple s next input f = do
  n ← end_tuple_text s.parser.format (drop s.offset s.parser.buffer)
  refill (record (at_tuple s next f) { offset = s.offset + n }) input

-- the branch of `ply_advance` at the end of a tuple of element `i`
unfoldable pub advance_tuple : Stream → ℕ → Element → Input → Parse (Stream × Input)
unfolding nth next_tuple enter_tuple
advance_tuple s i e input =
    let next = next_tuple s.parser.elements i e s.tuple in
    or_fault (nth s.parser.elements next.0) >>= enter_tuple s next input

unfoldable pub advance_in : Stream → ℕ → ℕ → Input → Element → Parse (Stream × Input)
unfolding advance_tuple
advance_in s i j input e =
    if ltb (j + 1) (length e.properties)
    then ok (record s { property = some (j + 1) }, input)
    else advance_tuple s i e input

-- the rest of `ply_advance`, from property `j` of element `i` on
unfoldable pub advance_from : Stream → ℕ → ℕ → Input → Parse (Stream × Input)
unfolding nth advance_in
advance_from s i j input = or_fault (nth s.parser.elements i) >>= advance_in s i j input

unfoldable pub advance_at : Option ℕ → Option ℕ → Stream → Input → Parse (Stream × Input)
unfolding advance_first advance_from
advance_at element none s input = advance_first s input
advance_at none (some j) s input = fault
advance_at (some i) (some j) s input = advance_from s i j input

-- `ply_advance`
unfoldable pub advance : Stream → Input → Parse (Stream × Input)
unfolding advance_at
advance s input = advance_at s.element s.property s input

unfoldable pub property_at : List Element → Option ℕ → Option ℕ → Parse Property
unfolding nth
property_at es (some i) (some j) = do e ← or_fault (nth es i); or_fault (nth e.properties j)
property_at es _ _ = fault

-- `*currentProperty`
unfoldable pub current_property : Stream → Parse Property
unfolding property_at
current_property s = property_at s.parser.elements s.element s.property

-- `ply_read_scalar` at the offset, which moves on
unfoldable pub read_at_offset : CLibrary → ScalarType → Stream → Parse (Scalar × Stream)
unfolding read_scalar
read_at_offset lib type s = do
  (v, n) ← read_scalar lib s.parser.format (drop s.offset s.parser.buffer) type
  ok (v, record s { offset = s.offset + n })

-- the length of a list: 32 bits of an integer type, without a sign
unfoldable pub list_length : ScalarType → Scalar → Parse ℕ
list_length float32 v = failed err_syntax
list_length float64 v = failed err_syntax
list_length int8 (bits n) = if ltb n (2 ^ 31) then ok n else failed err_syntax
list_length int16 (bits n) = if ltb n (2 ^ 31) then ok n else failed err_syntax
list_length int32 (bits n) = if ltb n (2 ^ 31) then ok n else failed err_syntax
list_length uint8 (bits n) = ok n
list_length uint16 (bits n) = ok n
list_length uint32 (bits n) = ok n
list_length _ _ = fault

-- the two branches of `ply_stream_value`
unfoldable pub value_of : CLibrary → Property → Stream → Parse (Scalar × Stream)
unfolding read_at_offset list_length
value_of lib x s =
    if x.is_list
    then (do
      (v, t) ← read_at_offset lib x.length_type s
      n ← list_length x.length_type v
      ok (bits n, record t { item = 0 }))
    else read_at_offset lib x.scalar_type s

-- `ply_stream_value`
unfoldable pub stream_value : CLibrary → Stream → Input → Parse (Scalar × Stream × Input)
unfolding advance current_property value_of
stream_value lib s input = do
  (t, more) ← advance s input
  x ← current_property t
  (v, u) ← value_of lib x t
  ok (v, u, more)

-- `ply_stream_list_item`
unfoldable pub stream_list_item : CLibrary → Stream → Parse (Scalar × Stream)
unfolding current_property read_at_offset
stream_list_item lib s = do
  x ← current_property s
  (v, t) ← read_at_offset lib x.scalar_type s
  ok (v, record t { item = t.item + 1 })

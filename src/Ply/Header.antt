-- ===== src/Ply/Header.antt =====
-- The parser of the header: `ply_parse_type` to `ply_process_header` of tom_ply.h. `strtoul` is a
-- parameter: it gives the number at the start of a string and what follows it.
pub mod Words
pub mod Lines
pub mod Properties
pub mod Ends
pub mod Loop
use tom_libs.Common.{
  ◌==◌, if◌then◌else◌, length, take, drop, ℕ, zero, suc, ◌+◌, ◌-◌, Bool, true, false, Option, none,
  some, List, [], ◌∷◌, ◌++◌,
}
use tom_libs.Ply.Types.{
  max_name, ScalarType, int8, float32, float64, Format, unknown, ascii, binary_little_endian,
  binary_big_endian, err_read, err_syntax, Parse, ok, failed, stale, out_of_fuel, ◌>>=◌, or_syntax,
  or_fault, Property, Element, Parser,
}
use tom_libs.Ply.Memory.{align_down, element_size, property_size, reserve}
use tom_libs.Ply.Token.{next_token}
use tom_libs.Ply.Header.Words.{
  space, newline, word_magic, word_ascii, word_binary_little_endian, word_binary_big_endian,
  word_version, word_list, word_end_header, word_format, word_element, word_property, word_comment,
  type_names, str_eq,
}

-- the loop of `ply_parse_type` over the names
unfoldable pub find_type : List ℕ → List (List ℕ × ScalarType) → Option ScalarType
unfolding str_eq
find_type str [] = none
find_type str (entry ∷ more) =
    let rest = find_type str more in if str_eq str entry.0 then some entry.1 else rest

-- `ply_parse_type`; `none` is `PLY_ERR_SYNTAX`
unfoldable pub parse_type : List ℕ → Option ScalarType
unfolding find_type
parse_type str = find_type str type_names

-- `ply_next_token(tokenState, ' ')`, a missing token being an error
unfoldable pub take_token : List ℕ → Parse (List ℕ × List ℕ)
unfolding next_token
take_token str = do let (token, rest) = next_token space str; t ← or_syntax token; ok (t, rest)

unfoldable pub format_of : List ℕ → Option Format
unfolding str_eq
format_of token =
    if str_eq token word_ascii
    then some ascii
    else if str_eq token word_binary_little_endian
    then some binary_little_endian
    else if str_eq token word_binary_big_endian
    then some binary_big_endian
    else none

-- `ply_parse_format`: the parser and the rest of the line
unfoldable pub parse_format : Parser → List ℕ → Parse (Parser × List ℕ)
unfolding take_token format_of
parse_format p line = do
  (token, rest) ← take_token line
  format ← or_syntax (format_of token)
  (version, left) ← take_token rest
  if str_eq version word_version then ok (record p { format = format }, left) else failed err_syntax

-- `strncpy(name, token, PLY_MAX_NAME - 1)` into cleared space
abbrev pub copy_name : List ℕ → List ℕ
copy_name token = take (max_name - 1) token

-- the element is linked in at the end
abbrev pub add_element : Element → Parser → Parser
add_element e p = record p { elements = p.elements ++ e ∷ [] }

-- the count of tuples, after which nothing may follow
unfoldable pub whole_number : ℕ × List ℕ → Parse ℕ
whole_number (n, []) = ok n
whole_number (n, _ ∷ _) = failed err_syntax

-- `ply_parse_element`
unfoldable pub parse_element : (List ℕ → ℕ × List ℕ) → Parser → List ℕ → Parse (Parser × List ℕ)
unfolding reserve take_token whole_number
parse_element strtoul p line = do
  let space_for = reserve element_size p
  (token, rest) ← take_token line
  (_, q) ← or_fault space_for
  (number, left) ← take_token rest
  n ← whole_number (strtoul number)
  ok (add_element (record { name = copy_name token; num_tuples = n; properties = [] }) q, left)

-- the property is linked in at the end of the last element
unfoldable pub add_property : Property → List Element → List Element
add_property x [] = []
add_property x (e ∷ []) = record e { properties = e.properties ++ x ∷ [] } ∷ []
add_property x (e ∷ f ∷ es) = e ∷ add_property x (f ∷ es)

-- the test on the type of a list's length
abbrev pub is_float : ScalarType → Bool
is_float float32 = true
is_float float64 = true
is_float _ = false

-- the type of the length of a list
unfoldable pub integer_type : ScalarType → Option ScalarType
integer_type t = if is_float t then none else some t

unfoldable pub length_type_of : List ℕ → Parse ScalarType
unfolding parse_type integer_type
length_type_of name = do t ← or_syntax (parse_type name); or_syntax (integer_type t)

-- The part on lists: the flag, the type of the length, and the token of the type with the rest of
-- the line. The space may be NULL.
unfoldable pub parse_list : Option (ℕ × Parser) → List ℕ → Parse (ScalarType × List ℕ × List ℕ)
unfolding length_type_of take_token
parse_list space_for rest = do
  _ ← or_fault space_for
  (length_name, more) ← take_token rest
  t ← length_type_of length_name
  (name, left) ← take_token more
  ok (t, name, left)

-- what follows: the type, and the name
unfoldable pub parse_named :
    Option (ℕ × Parser) → Bool → ScalarType × List ℕ × List ℕ → Parse (Parser × List ℕ)
unfolding parse_type take_token add_property
parse_named space_for is_list (length_type, type_name, rest) = do
  scalar_type ← or_syntax (parse_type type_name)
  (_, q) ← or_fault space_for
  (name, left) ← take_token rest
  let x : Property = record {
    name = copy_name name;
    length_type = length_type;
    scalar_type = scalar_type;
    is_list = is_list;
  }
  ok (record q { elements = add_property x q.elements }, left)

unfoldable pub parse_property_of : Option (ℕ × Parser) → List ℕ × List ℕ → Parse (Parser × List ℕ)
unfolding parse_list parse_named
parse_property_of space_for (token, rest) =
    if str_eq token word_list
    then parse_list space_for rest >>= parse_named space_for true
    else parse_named space_for false (int8, token, rest)

-- `if (!ply->lastElement) return PLY_ERR_SYNTAX`
unfoldable pub require_element {ℓ} : {A : Type ℓ} → List Element → Parse A → Parse A
require_element [] m = failed err_syntax
require_element (_ ∷ _) m = m

-- `ply_parse_property`
unfoldable pub parse_property : Parser → List ℕ → Parse (Parser × List ℕ)
unfolding reserve parse_property_of require_element
parse_property p line =
    require_element p.elements (take_token line >>= parse_property_of (reserve property_size p))

-- the end of a line: no token is left
unfoldable pub end_of_line : Parser × List ℕ → Parse (Bool × Parser)
unfolding next_token
end_of_line (p, rest) = elim (next_token space rest).0 [
  | none ↦ ok (true, p)
  | some _ ↦ failed err_syntax
]

-- the branches of `ply_parse_header_line`, with the first token and the rest of the line
unfoldable pub parse_line_of :
    (List ℕ → ℕ × List ℕ) → Parser → List ℕ × List ℕ → Parse (Bool × Parser)
unfolding parse_format parse_element parse_property end_of_line
parse_line_of strtoul p (token, rest) =
    if str_eq token word_end_header
    then ok (false, p)
    else if str_eq token word_format
    then parse_format p rest >>= end_of_line
    else if str_eq token word_element
    then parse_element strtoul p rest >>= end_of_line
    else if str_eq token word_property
    then parse_property p rest >>= end_of_line
    else if str_eq token word_comment
    then ok (true, p)
    else failed err_syntax

-- `ply_parse_header_line`; the flag is its result, false for the end of the header
unfoldable pub parse_header_line : (List ℕ → ℕ × List ℕ) → Parser → List ℕ → Parse (Bool × Parser)
unfolding take_token parse_line_of
parse_header_line strtoul p line = take_token line >>= parse_line_of strtoul p

-- what `readFunc` gives, call by call: bytes, or `none` for an error; at the end no bytes
abbrev pub Input : Type 0
Input = List (Option (List ℕ))

-- One call of `readFunc`, which appends to the buffer. It is up to `readFunc` to keep to the room.
unfoldable pub read_more : Parser → Input → Parse (Parser × Input)
read_more p [] = ok (p, [])
read_more p (none ∷ more) = failed err_read
read_more p (some bytes ∷ more) = ok (record p { buffer = p.buffer ++ bytes }, more)

-- `strchr(ply->memory, '\n')`, split at what it finds. Without a newline among the bytes that were
-- read, it goes on to what stands behind them.
unfoldable pub split_line : List ℕ → Parse (List ℕ × List ℕ)
split_line [] = stale
split_line (c ∷ cs) =
    let rest = split_line cs in
    if c == newline
    then ok ([], cs)
    else if c == 0
    then failed err_syntax
    else (do (line, left) ← rest; ok (c ∷ line, left))

-- the loop of `ply_process_header` on fuel
unfoldable pub header_loop : ℕ → (List ℕ → ℕ × List ℕ) → Parser → Input → Parse (Parser × Input)
unfolding read_more split_line parse_header_line
header_loop zero strtoul p input = out_of_fuel
header_loop (suc k) strtoul p input = do
  (q, more) ← read_more p input
  (line, left) ← split_line q.buffer
  (going, r) ← parse_header_line strtoul q line
  let next = record r { buffer = left }
  elim going [ true ↦ header_loop k strtoul next more | false ↦ ok (next, more) ]

-- the parser after the reset at the start of `ply_process_header`
unfoldable pub reset_parser : Parser → Parser
reset_parser p = record {
  format = unknown;
  elements = [];
  memory = p.memory;
  memory_size = p.memory_size;
  memory_break = align_down p.memory_size;
  buffer = [];
}

-- the test for "ply" and a newline, with what follows
unfoldable pub check_magic : List ℕ → Option (List ℕ)
unfolding str_eq
check_magic bytes = if str_eq (take 4 bytes) word_magic then some (drop 4 bytes) else none

-- the bytes of the input
unfoldable pub input_size : Input → ℕ
input_size [] = 0
input_size (none ∷ more) = input_size more
input_size (some bytes ∷ more) = length bytes + input_size more

-- `ply_process_header`. Each round takes a line with its newline away, so that one round more than
-- there are bytes is enough.
unfoldable pub process_header : (List ℕ → ℕ × List ℕ) → Parser → Input → Parse (Parser × Input)
unfolding header_loop reset_parser check_magic input_size read_more
process_header strtoul p input = do
  (q, more) ← read_more (reset_parser p) input
  rest ← or_syntax (check_magic q.buffer)
  header_loop (suc (input_size input)) strtoul (record q { buffer = rest }) more

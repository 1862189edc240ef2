-- ===== src/Ply/Header/Lines.antt =====
-- The line of an element as a writer prints it, and what the parser makes of it.
use tom_libs.Common.{
  ◌==◌, Bool-cases, length, take, drop, ℕ, zero, suc, ◌-◌, ◌≤◌, ◌<◌, ◌≡◌, refl, ap, ◌∙◌, inl, inr,
  Bool, true, not, ◌&&◌, some, List, [], ◌∷◌, ◌++◌, arith,
}
use tom_libs.Ply.Types.{
  max_name, ScalarType, int8, uint8, int16, uint16, int32, uint32, float32, float64, Parse, ok,
  ◌>>=◌, Element, Parser,
}
use tom_libs.Ply.Memory.{element_size, reserve}
use tom_libs.Ply.Token.{next_token, Without, next_token-delim, next_token-last}
use tom_libs.Ply.Header.Words.{space, word_element, word_property, str_eq}
use tom_libs.Ply.Header.{
  parse_type, take_token, copy_name, add_element, whole_number, parse_element, parse_property,
  end_of_line, parse_line_of, parse_header_line,
}

-- the first of the two names of a type
abbrev pub type_word : ScalarType → List ℕ
type_word int8 = b'i' ∷ b'n' ∷ b't' ∷ b'8' ∷ []
type_word uint8 = b'u' ∷ b'i' ∷ b'n' ∷ b't' ∷ b'8' ∷ []
type_word int16 = b'i' ∷ b'n' ∷ b't' ∷ b'1' ∷ b'6' ∷ []
type_word uint16 = b'u' ∷ b'i' ∷ b'n' ∷ b't' ∷ b'1' ∷ b'6' ∷ []
type_word int32 = b'i' ∷ b'n' ∷ b't' ∷ b'3' ∷ b'2' ∷ []
type_word uint32 = b'u' ∷ b'i' ∷ b'n' ∷ b't' ∷ b'3' ∷ b'2' ∷ []
type_word float32 = b'f' ∷ b'l' ∷ b'o' ∷ b'a' ∷ b't' ∷ b'3' ∷ b'2' ∷ []
type_word float64 = b'f' ∷ b'l' ∷ b'o' ∷ b'a' ∷ b't' ∷ b'6' ∷ b'4' ∷ []

pub parse_type-type_word : (t : ScalarType) → parse_type (type_word t) ≡ some t
unfolding parse_type
parse_type-type_word int8 = refl
parse_type-type_word uint8 = refl
parse_type-type_word int16 = refl
parse_type-type_word uint16 = refl
parse_type-type_word int32 = refl
parse_type-type_word uint32 = refl
parse_type-type_word float32 = refl
parse_type-type_word float64 = refl

-- A word of a line: not empty, and without a space.
abbrev pub IsWord : List ℕ → Type 0
IsWord [] = ⊥
IsWord (c ∷ cs) = Without space (c ∷ cs)

pub take_token-space : (t rest : List ℕ) → IsWord t → take_token (t ++ space ∷ rest) ≡ ok (t, rest)
unfolding take_token
take_token-space [] rest w = elim w [ ]
take_token-space (c ∷ cs) rest w = rw (next_token-delim space c cs rest w) refl

pub take_token-last : (t : List ℕ) → IsWord t → take_token t ≡ ok (t, [])
unfolding take_token
take_token-last [] w = elim w [ ]
take_token-last (c ∷ cs) w = rw (next_token-last space c cs w) refl

pub take_name : (n : ℕ) (xs : List ℕ) → length xs ≤ n → take n xs ≡ xs
take_name zero [] h = refl
take_name (suc n) [] h = refl
take_name zero (x ∷ xs) h = absurd (omega arith)
take_name (suc n) (x ∷ xs) h = ap (λ (l : List ℕ). x ∷ l) (take_name n xs (omega arith))

-- a test for words that are written out
abbrev no_space : List ℕ → Bool
no_space [] = true
no_space (c ∷ cs) = not (c == space) && no_space cs

pub no_space-Without : (t : List ℕ) → no_space t ≡ true → Without space t
no_space-Without [] h = tt
no_space-Without (c ∷ cs) h = elim (Bool-cases (c == space)) [
  | inl e ↦ absurd (ground (arith, rw e at h))
  | inr e ↦ ((λ same. absurd (ground arith)), no_space-Without cs (rw e at h))
]

-- "element", the name and the count
abbrev pub element_line : List ℕ → List ℕ → List ℕ
element_line name digits = word_element ++ space ∷ (name ++ space ∷ digits)

pub end_of_line-nil : (p : Parser) → end_of_line (p, []) ≡ ok (true, p)
unfolding end_of_line next_token
end_of_line-nil p = refl

element_words :
    (strtoul : List ℕ → ℕ × List ℕ) (p : Parser) (line : List ℕ)
    → take_token line ≡ ok (word_element, drop 8 line)
    → parse_header_line strtoul p line ≡ (parse_element strtoul p (drop 8 line) >>= end_of_line)
unfolding parse_header_line parse_line_of str_eq
element_words strtoul p line e = ap (λ m. m >>= parse_line_of strtoul p) e

pub property_words :
    (strtoul : List ℕ → ℕ × List ℕ) (p : Parser) (line : List ℕ)
    → take_token line ≡ ok (word_property, drop 9 line)
    → parse_header_line strtoul p line ≡ (parse_property p (drop 9 line) >>= end_of_line)
unfolding parse_header_line parse_line_of str_eq
property_words strtoul p line e = ap (λ m. m >>= parse_line_of strtoul p) e

parse_element-words :
    (strtoul : List ℕ → ℕ × List ℕ) (p : Parser) (name digits : List ℕ) (n : ℕ) {at : ℕ}
    {q : Parser}
    → IsWord name
    → length name < max_name
    → IsWord digits
    → strtoul digits ≡ (n, [])
    → reserve element_size p ≡ some (at, q)
    → parse_element strtoul p (name ++ space ∷ digits)
      ≡ ok (add_element (record { name = name; num_tuples = n; properties = [] }) q, [])
unfolding parse_element whole_number
parse_element-words strtoul p name digits n {q = q} w small d num room =
    let counted : whole_number (strtoul digits) ≡ ok n = ap whole_number num in
    rw (take_token-space name digits w, room, take_token-last digits d)
      (ap
          (λ (m : Parse ℕ). m >>= λ k.
            ok (
              add_element (record { name = copy_name name; num_tuples = k; properties = [] }) q,
              [],
            ))
          counted
        ∙ ap
            (λ (s : List ℕ).
              ok (add_element (record { name = s; num_tuples = n; properties = [] }) q, []))
            (take_name (max_name - 1) name (omega arith)))

pub reserve-elements :
    (n : ℕ) (p : Parser) {at : ℕ} {q : Parser}
    → reserve n p ≡ some (at, q)
    → q.elements ≡ p.elements
unfolding reserve
reserve-elements n p h = ground arith

-- Reading the line of an element whose name is a word of less than 32 bytes adds that element
-- behind the others, without properties, if there is space for it and `strtoul` reads all of the
-- count.
pub parse-element_line :
    (strtoul : List ℕ → ℕ × List ℕ) (p : Parser) (name digits : List ℕ) (n : ℕ) {at : ℕ}
    {q : Parser}
    → IsWord name
    → length name < max_name
    → IsWord digits
    → strtoul digits ≡ (n, [])
    → reserve element_size p ≡ some (at, q)
    → parse_header_line strtoul p (element_line name digits)
      ≡ ok (
        true,
        record q {
          elements = p.elements ++ record { name = name; num_tuples = n; properties = [] } ∷ [];
        },
      )
parse-element_line strtoul p name digits n {at} {q} w small d num room =
    let x : Element = record { name = name; num_tuples = n; properties = [] } in
    let same : q.elements ≡ p.elements = reserve-elements element_size p room in
    element_words strtoul p (element_line name digits)
      (take_token-space word_element (name ++ space ∷ digits) (no_space-Without word_element refl))
    ∙ ap (λ m. m >>= end_of_line) (parse_element-words strtoul p name digits n w small d num room)
    ∙ end_of_line-nil _
    ∙ ap (λ (l : List Element). ok (true, record q { elements = l ++ x ∷ [] })) same

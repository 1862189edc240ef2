-- ===== src/Ply/Header/Properties.antt =====
-- The line of a property as a writer prints it, and what the parser makes of it.
use tom_libs.Common.{
  length, ℕ, ◌-◌, ◌<◌, ◌≡◌, refl, sym, ap, ◌∙◌, Bool, true, false, some, List, [], ◌∷◌, ◌++◌, arith,
}
use tom_libs.Ply.Types.{
  max_name, ScalarType, int8, uint8, int16, uint16, int32, uint32, float32, float64, Parse, ok,
  ◌>>=◌, Property, Element, Parser,
}
use tom_libs.Ply.Memory.{property_size, reserve}
use tom_libs.Ply.Header.Words.{space, word_list, word_property, str_eq}
use tom_libs.Ply.Header.{
  take_token, add_property, is_float, integer_type, length_type_of, parse_list, parse_named,
  parse_property_of, require_element, parse_property, end_of_line, parse_header_line,
}
use tom_libs.Ply.Header.Lines.{
  type_word, parse_type-type_word, IsWord, take_token-space, take_token-last, take_name,
  no_space-Without, end_of_line-nil, property_words, reserve-elements,
}

type_word-IsWord : (t : ScalarType) → IsWord (type_word t)
type_word-IsWord int8 = no_space-Without (type_word int8) refl
type_word-IsWord uint8 = no_space-Without (type_word uint8) refl
type_word-IsWord int16 = no_space-Without (type_word int16) refl
type_word-IsWord uint16 = no_space-Without (type_word uint16) refl
type_word-IsWord int32 = no_space-Without (type_word int32) refl
type_word-IsWord uint32 = no_space-Without (type_word uint32) refl
type_word-IsWord float32 = no_space-Without (type_word float32) refl
type_word-IsWord float64 = no_space-Without (type_word float64) refl

type_word-no_list : (t : ScalarType) → str_eq (type_word t) word_list ≡ false
unfolding str_eq
type_word-no_list int8 = refl
type_word-no_list uint8 = refl
type_word-no_list int16 = refl
type_word-no_list uint16 = refl
type_word-no_list int32 = refl
type_word-no_list uint32 = refl
type_word-no_list float32 = refl
type_word-no_list float64 = refl

-- the words between "property" and the end of the line
abbrev pub type_words : Bool → ScalarType → ScalarType → List ℕ → List ℕ
type_words true t u name =
    word_list ++ space ∷ (type_word t ++ space ∷ (type_word u ++ space ∷ name))
type_words false t u name = type_word u ++ space ∷ name

-- "property", the types and the name
abbrev pub property_line : Property → List ℕ
property_line x = word_property ++ space ∷ type_words x.is_list x.length_type x.scalar_type x.name

-- The length of a list is an integer, and what is no list has no type of its length.
abbrev pub LengthType : Bool → ScalarType → Type 0
LengthType true t = is_float t ≡ false
LengthType false t = t ≡ int8

-- A property that can stand in a file: its name is a word of less than 32 bytes.
pub record IsProperty (x : Property) : Type 0 where
  pub word : IsWord x.name
  pub short : length x.name < max_name
  pub length_type_ok : LengthType x.is_list x.length_type

module _ (u : ScalarType) (name : List ℕ) (word : IsWord name) (short : length name < max_name)
    (at : ℕ) (q : Parser) where
  abbrev linked : Bool → ScalarType → List ℕ → Parse (Parser × List ℕ)
  linked b t s = ok (
    record q {
      elements =
          add_property (record { name = s; length_type = t; scalar_type = u; is_list = b })
            q.elements;
    },
    [],
  )

  parse_named-words :
      (b : Bool) (t : ScalarType)
      → parse_named (some (at, q)) b (t, type_word u, name) ≡ linked b t name
  unfolding parse_named
  parse_named-words b t =
      rw (parse_type-type_word u, take_token-last name word)
        (ap (linked b t) (take_name (max_name - 1) name (omega (arith, short))))

  length_type_of-word : (t : ScalarType) → is_float t ≡ false → length_type_of (type_word t) ≡ ok t
  unfolding length_type_of integer_type
  length_type_of-word t h = rw (parse_type-type_word t, h) refl

  parse_list-words :
      (t : ScalarType)
      → is_float t ≡ false
      → parse_list (some (at, q)) (type_word t ++ space ∷ (type_word u ++ space ∷ name))
        ≡ ok (t, type_word u, name)
  unfolding parse_list
  parse_list-words t h =
      ap (λ m. m >>= λ r. length_type_of r.0 >>= λ k. take_token r.1 >>= λ s. ok (k, s.0, s.1))
        (take_token-space (type_word t) (type_word u ++ space ∷ name) (type_word-IsWord t))
      ∙ ap (λ m. m >>= λ k. take_token (type_word u ++ space ∷ name) >>= λ s. ok (k, s.0, s.1))
          (length_type_of-word t h)
      ∙ ap (λ m. m >>= λ s. ok (t, s.0, s.1))
          (take_token-space (type_word u) name (type_word-IsWord u))

  parse_property_of-words :
      (b : Bool) (t : ScalarType)
      → LengthType b t
      → (take_token (type_words b t u name) >>= parse_property_of (some (at, q))) ≡ linked b t name
  unfolding parse_property_of str_eq
  parse_property_of-words true t h =
      ap (λ m. m >>= parse_property_of (some (at, q)))
        (take_token-space word_list (type_word t ++ space ∷ (type_word u ++ space ∷ name))
          (no_space-Without word_list refl))
      ∙ ap (λ m. m >>= parse_named (some (at, q)) true) (parse_list-words t h)
      ∙ parse_named-words true t
  parse_property_of-words false t h =
      rw (take_token-space (type_word u) name (type_word-IsWord u), type_word-no_list u)
        (parse_named-words false int8 ∙ ap (λ (k : ScalarType). linked false k name) (sym h))

-- The last element gets the property, behind its others; an element before it stays.
add_property-last :
    (x : Property) (before : List Element) (last : Element)
    → add_property x (before ++ last ∷ [])
      ≡ before ++ record last { properties = last.properties ++ x ∷ [] } ∷ []
unfolding add_property
add_property-last x [] last = refl
add_property-last x (e ∷ []) last = refl
add_property-last x (e ∷ f ∷ es) last =
    ap (λ (l : List Element). e ∷ l) (add_property-last x (f ∷ es) last)

has_element :
    (before : List Element) (last : Element)
    → (e : Element) × (es : List Element) × (before ++ last ∷ [] ≡ e ∷ es)
has_element [] last = (last, [], refl)
has_element (e ∷ es) last = (e, es ++ last ∷ [], refl)

line_read :
    (strtoul : List ℕ → ℕ × List ℕ) (p : Parser) (x : Property) (e : Element) (es : List Element)
    {at : ℕ} {q : Parser}
    → IsProperty x
    → p.elements ≡ e ∷ es
    → reserve property_size p ≡ some (at, q)
    → parse_header_line strtoul p (property_line x)
      ≡ ok (true, record q { elements = add_property x q.elements })
unfolding parse_property require_element
line_read strtoul p x e es {at} {q} ok_x some_element room =
    let line = type_words x.is_list x.length_type x.scalar_type x.name in
    property_words strtoul p (property_line x)
      (take_token-space word_property line (no_space-Without word_property refl))
    ∙ ap
        (λ (l : List Element).
          require_element l (take_token line >>= parse_property_of (reserve property_size p))
          >>= end_of_line)
        some_element
    ∙ ap (λ o. (take_token line >>= parse_property_of o) >>= end_of_line) room
    ∙ ap (λ m. m >>= end_of_line)
        (parse_property_of-words x.scalar_type x.name ok_x.word ok_x.short at q x.is_list
          x.length_type ok_x.length_type_ok)
    ∙ end_of_line-nil _

-- Reading the line of a property whose name is a word of less than 32 bytes, and whose length type,
-- if it is a list, is an integer, adds that property to the last element, if there is an element
-- and space for the property: behind the properties that the element has, the other elements being
-- left alone.
pub parse-property_line :
    (strtoul : List ℕ → ℕ × List ℕ) (p : Parser) (x : Property) (before : List Element)
    (last : Element) {at : ℕ} {q : Parser}
    → IsProperty x
    → p.elements ≡ before ++ last ∷ []
    → reserve property_size p ≡ some (at, q)
    → parse_header_line strtoul p (property_line x)
      ≡ ok (
        true,
        record q {
          elements = before ++ record last { properties = last.properties ++ x ∷ [] } ∷ [];
        },
      )
parse-property_line strtoul p x before last {at} {q} ok_x known room =
    let (e, es, first) = has_element before last in
    line_read strtoul p x e es ok_x (known ∙ first) room
    ∙ ap (λ (l : List Element). ok (true, record q { elements = l }))
        (ap (add_property x) (reserve-elements property_size p room ∙ known)
          ∙ add_property-last x before last)

-- ===== src/Ply/Header/Ends.antt =====
-- The parser of a line ends.
use tom_libs.Common.{if◌then◌else◌, ℕ, Bool, true, false, Option, none, some, List, [], ◌∷◌}
use tom_libs.Ply.Types.{
  ScalarType, int8, err_syntax, Parse, ok, failed, fault, stale, out_of_fuel, ◌>>=◌, or_syntax,
  or_fault, Element, Parser,
}
use tom_libs.Ply.Memory.{element_size, property_size, reserve}
use tom_libs.Ply.Token.{next_token}
use tom_libs.Ply.Header.Words.{
  space, word_version, word_list, word_end_header, word_format, word_element, word_property,
  word_comment, str_eq,
}
use tom_libs.Ply.Header.{
  parse_type, take_token, format_of, parse_format, whole_number, parse_element, integer_type,
  length_type_of, parse_list, parse_named, parse_property_of, require_element, parse_property,
  end_of_line, parse_line_of, parse_header_line,
}

abbrev pub Ends {ℓ} : {A : Type ℓ} → Parse A → Type 0
Ends out_of_fuel = ⊥
Ends _ = Unit

pub Ends-bind {ℓ κ} :
    {A : Type ℓ} {B : Type κ} (m : Parse A) (f : A → Parse B)
    → Ends m
    → ((a : A) → Ends (f a))
    → Ends (m >>= f)
Ends-bind (ok a) f e g = g a
Ends-bind (failed s) f e g = tt
Ends-bind fault f e g = tt
Ends-bind stale f e g = tt
Ends-bind out_of_fuel f e g = elim e [ ]

Ends-if {ℓ} : {A : Type ℓ} (b : Bool) (x y : Parse A) → Ends x → Ends y → Ends (if b then x else y)
Ends-if true x y p q = p
Ends-if false x y p q = q

Ends-or_syntax {ℓ} : {A : Type ℓ} (o : Option A) → Ends (or_syntax o)
Ends-or_syntax none = tt
Ends-or_syntax (some a) = tt

Ends-or_fault {ℓ} : {A : Type ℓ} (o : Option A) → Ends (or_fault o)
Ends-or_fault none = tt
Ends-or_fault (some a) = tt

Ends-take_token : (str : List ℕ) → Ends (take_token str)
unfolding take_token
Ends-take_token str =
    Ends-bind (or_syntax (next_token space str).0) _ (Ends-or_syntax (next_token space str).0)
      (λ t. tt)

Ends-whole_number : (r : ℕ × List ℕ) → Ends (whole_number r)
unfolding whole_number
Ends-whole_number (n, []) = tt
Ends-whole_number (n, c ∷ cs) = tt

Ends-parse_format : (p : Parser) (line : List ℕ) → Ends (parse_format p line)
unfolding parse_format
Ends-parse_format p line = Ends-bind (take_token line) _ (Ends-take_token line) (λ r.
    Ends-bind (or_syntax (format_of r.0)) _ (Ends-or_syntax (format_of r.0)) (λ f.
      Ends-bind (take_token r.1) _ (Ends-take_token r.1)
        (λ v. Ends-if (str_eq v.0 word_version) _ _ tt tt)))

Ends-parse_element :
    (strtoul : List ℕ → ℕ × List ℕ) (p : Parser) (line : List ℕ)
    → Ends (parse_element strtoul p line)
unfolding parse_element
Ends-parse_element strtoul p line = Ends-bind (take_token line) _ (Ends-take_token line) (λ r.
    Ends-bind (or_fault (reserve element_size p)) _ (Ends-or_fault (reserve element_size p)) (λ s.
      Ends-bind (take_token r.1) _ (Ends-take_token r.1) (λ v.
        Ends-bind (whole_number (strtoul v.0)) _ (Ends-whole_number (strtoul v.0)) (λ n. tt))))

Ends-length_type_of : (name : List ℕ) → Ends (length_type_of name)
unfolding length_type_of
Ends-length_type_of name =
    Ends-bind (or_syntax (parse_type name)) _ (Ends-or_syntax (parse_type name))
      (λ t. Ends-or_syntax (integer_type t))

Ends-parse_list : (s : Option (ℕ × Parser)) (rest : List ℕ) → Ends (parse_list s rest)
unfolding parse_list
Ends-parse_list s rest = Ends-bind (or_fault s) _ (Ends-or_fault s) (λ _.
    Ends-bind (take_token rest) _ (Ends-take_token rest) (λ r.
      Ends-bind (length_type_of r.0) _ (Ends-length_type_of r.0)
        (λ t. Ends-bind (take_token r.1) _ (Ends-take_token r.1) (λ v. tt))))

Ends-parse_named :
    (s : Option (ℕ × Parser)) (b : Bool) (r : ScalarType × List ℕ × List ℕ)
    → Ends (parse_named s b r)
unfolding parse_named
Ends-parse_named s b (t, u, rest) =
    Ends-bind (or_syntax (parse_type u)) _ (Ends-or_syntax (parse_type u)) (λ _.
      Ends-bind (or_fault s) _ (Ends-or_fault s)
        (λ _. Ends-bind (take_token rest) _ (Ends-take_token rest) (λ v. tt)))

Ends-parse_property_of :
    (s : Option (ℕ × Parser)) (r : List ℕ × List ℕ) → Ends (parse_property_of s r)
unfolding parse_property_of
Ends-parse_property_of s (token, rest) =
    Ends-if (str_eq token word_list) _ _
      (Ends-bind (parse_list s rest) _ (Ends-parse_list s rest) (Ends-parse_named s true))
      (Ends-parse_named s false (int8, token, rest))

Ends-parse_property : (p : Parser) (line : List ℕ) → Ends (parse_property p line)
unfolding parse_property require_element
Ends-parse_property p line = required p.elements
  where
    required :
        (es : List Element)
        → Ends
            (require_element es (take_token line >>= parse_property_of (reserve property_size p)))
    required [] = tt
    required (e ∷ es) =
        Ends-bind (take_token line) _ (Ends-take_token line)
          (Ends-parse_property_of (reserve property_size p))

Ends-end_of_line : (r : Parser × List ℕ) → Ends (end_of_line r)
unfolding end_of_line
Ends-end_of_line (p, rest) = last (next_token space rest).0
  where
    last :
        (o : Option (List ℕ))
        → Ends {A = Bool × Parser} (elim o [ none ↦ ok (true, p) | some _ ↦ failed err_syntax ])
    last none = tt
    last (some t) = tt

pub Ends-parse_header_line :
    (strtoul : List ℕ → ℕ × List ℕ) (p : Parser) (line : List ℕ)
    → Ends (parse_header_line strtoul p line)
unfolding parse_header_line parse_line_of
Ends-parse_header_line strtoul p line =
    Ends-bind (take_token line) _ (Ends-take_token line) (λ (token, rest).
      Ends-if (str_eq token word_end_header) _ _ tt (
        Ends-if (str_eq token word_format) _ _
          (Ends-bind (parse_format p rest) _ (Ends-parse_format p rest) Ends-end_of_line)
          (Ends-if (str_eq token word_element) _ _
            (Ends-bind (parse_element strtoul p rest) _ (Ends-parse_element strtoul p rest)
              Ends-end_of_line)
            (Ends-if (str_eq token word_property) _ _
              (Ends-bind (parse_property p rest) _ (Ends-parse_property p rest) Ends-end_of_line)
              (Ends-if (str_eq token word_comment) _ _ tt tt)))))

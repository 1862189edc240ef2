-- ===== src/Ply/Stream/Places.antt =====
-- The values of a PLY file and the order of them, and what a step to a value leaves.
use tom_libs.Common.{
  length, ℕ, zero, suc, ◌+◌, ◌<◌, ◌≡◌, refl, ap, ◌∙◌, Option, none, some, List, [], ◌∷◌, arith,
}
use tom_libs.Ply.Types.{
  Parse, ok, failed, fault, stale, out_of_fuel, ◌>>=◌, Property, Element, Parser,
}
use tom_libs.Ply.Header.{Input, read_more}
use tom_libs.Ply.Access.{nth}
use tom_libs.Ply.Stream.{Stream, first_property}

-- an element with a tuple and a property
pub record IsFilled (e : Element) : Type 0 where
  pub has_tuple : 0 < e.num_tuples
  pub has_property : 0 < length e.properties

-- Each element has a tuple and a property, and there is an element.
pub record IsShape (es : List Element) : Type 0 where
  pub has_element : 0 < length es
  pub filled : (i : ℕ) (e : Element) → nth es i ≡ some e → IsFilled e

-- the cursor is at property `j` of tuple `t` of element `i`
pub record At (s : Stream) (i t j : ℕ) : Type 0 where
  pub element_is : s.element ≡ some i
  pub tuple_is : s.tuple ≡ t
  pub property_is : s.property ≡ some j

-- a value of the file
pub record IsPlace (es : List Element) (i t j : ℕ) : Type 0 where
  pub place : Element
  pub element_there : nth es i ≡ some place
  pub tuple_there : t < place.num_tuples
  pub property_there : j < length place.properties

-- The value after that at property `j` of tuple `t` of element `i`: the next property, or the first
-- of the next tuple, or that of the next element; after the last value, the first of the file.
pub data Next (es : List Element) (e : Element) (i t j : ℕ) : ℕ → ℕ → ℕ → Type 0 where
  next_property : j + 1 < length e.properties → Next es e i t j i t (j + 1)
  next_tuple_of : length e.properties ≡ j + 1 → t + 1 < e.num_tuples → Next es e i t j i (t + 1) 0
  next_element :
      length e.properties ≡ j + 1
      → e.num_tuples ≡ t + 1
      → i + 1 < length es
      → Next es e i t j (i + 1) 0 0
  around :
      length e.properties ≡ j + 1 → e.num_tuples ≡ t + 1 → length es ≡ i + 1 → Next es e i t j 0 0 0

pub nth_total : {A : Type 0} (xs : List A) (i : ℕ) → i < length xs → (x : A) × (nth xs i ≡ some x)
unfolding nth
nth_total [] i h = absurd (omega arith)
nth_total (x ∷ xs) zero h = (x, refl)
nth_total (x ∷ xs) (suc i) h = nth_total xs i (omega arith)

pub nth-bound : {A : Type 0} (xs : List A) (i : ℕ) {x : A} → nth xs i ≡ some x → i < length xs
unfolding nth
nth-bound [] i h = absurd cc
nth-bound (x ∷ xs) zero h = omega arith
nth-bound (x ∷ xs) (suc i) h = omega (arith, nth-bound xs i h)

pub first_property-some : (e : Element) → 0 < length e.properties → first_property e ≡ some 0
first_property-some e h = first e.properties h
  where
    first :
        (xs : List Property)
        → 0 < length xs
        → elim xs as (λ _. Option ℕ) [ [] ↦ none | _ ∷ _ ↦ some 0 ] ≡ some 0
    first [] h = absurd (omega arith)
    first (x ∷ xs) h = refl

-- what a step leaves: the header, and a cursor at a place that `P` tells
abbrev pub Arrived : List Element → (ℕ → ℕ → ℕ → Type 0) → Parse (Stream × Input) → Type 0
Arrived es P (ok (s, input)) =
    (s.parser.elements ≡ es) × ((i t j : ℕ) × At s i t j × IsPlace es i t j × P i t j)
Arrived es P fault = ⊥
Arrived es P _ = Unit

-- reading leaves the header
abbrev pub Kept : Parser → Parse (Parser × Input) → Type 0
Kept p (ok (q, input)) = q.elements ≡ p.elements
Kept p fault = ⊥
Kept p _ = Unit

pub read_more-Kept : (p : Parser) (input : Input) → Kept p (read_more p input)
unfolding read_more
read_more-Kept p [] = refl
read_more-Kept p (none ∷ more) = tt
read_more-Kept p (some bytes ∷ more) = refl

pub Arrived-read :
    (P : ℕ → ℕ → ℕ → Type 0) (p : Parser) (m : Parse (Parser × Input)) (k : Parser → Stream)
    (i t : ℕ)
    → Kept p m
    → ((q : Parser) → (k q).parser ≡ q)
    → ((q : Parser) → At (k q) i t 0)
    → IsPlace p.elements i t 0
    → P i t 0
    → Arrived p.elements P (m >>= λ r. ok (k r.0, r.1))
Arrived-read P p (ok (q, more)) k i t kept same at place follows =
    (ap (λ (x : Parser). x.elements) (same q) ∙ kept, (i, t, 0, at q, place, follows))
Arrived-read P p (failed e) k i t kept same at place follows = tt
Arrived-read P p stale k i t kept same at place follows = tt
Arrived-read P p fault k i t kept same at place follows = elim kept [ ]
Arrived-read P p out_of_fuel k i t kept same at place follows = tt

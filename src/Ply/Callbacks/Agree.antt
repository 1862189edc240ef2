-- ===== src/Ply/Callbacks/Agree.antt =====
-- Steps of the two ways to process a file, and the cursor that they share.
use tom_libs.Common.{length, ℕ, ◌+◌, ◌<◌, ◌≡◌, refl, sym, ap, ◌∙◌, subst, some, List, arith}
use tom_libs.Ply.Types.{Parse, ok, failed, fault, stale, out_of_fuel, ◌>>=◌, Element, Parser}
use tom_libs.Ply.Header.{Input}
use tom_libs.Ply.Access.{nth}
use tom_libs.Ply.Stream.{Stream, start_streaming, advance}
use tom_libs.Ply.Stream.Places.{
  IsShape, At, Next, next_property, next_tuple_of, next_element, around, Arrived,
}
use tom_libs.Ply.Stream.Cursor.{advance-Next, advance-first}

-- what holds of a result, if there is one
abbrev pub Ensures : {A : Type 0} → (A → Type 0) → Parse A → Type 0
Ensures P (ok a) = P a
Ensures P _ = Unit

-- The runs are the same, and their result has the property.
abbrev pub Agrees : {A : Type 0} → (A → Type 0) → Parse A → Parse A → Type 0
Agrees P m n = (m ≡ n) × Ensures P m

pub Agrees-bind :
    {A B : Type 0} (P : A → Type 0) (Q : B → Type 0) (m n : Parse A) (f g : A → Parse B)
    → Agrees P m n
    → ((a : A) → P a → Agrees Q (f a) (g a))
    → Agrees Q (m >>= f) (n >>= g)
Agrees-bind P Q (ok a) n f g (e, p) next =
    let (same, q) = next a p in (same ∙ ap (λ z. z >>= g) e, q)
Agrees-bind P Q (failed s) n f g (e, p) next = (ap (λ z. z >>= g) e, tt)
Agrees-bind P Q fault n f g (e, p) next = (ap (λ z. z >>= g) e, tt)
Agrees-bind P Q stale n f g (e, p) next = (ap (λ z. z >>= g) e, tt)
Agrees-bind P Q out_of_fuel n f g (e, p) next = (ap (λ z. z >>= g) e, tt)

pub Ensures-bind :
    {A B : Type 0} (Q : B → Type 0) (m : Parse A) (f : A → Parse B)
    → ((a : A) → Ensures Q (f a))
    → Ensures Q (m >>= f)
Ensures-bind Q (ok a) f next = next a
Ensures-bind Q (failed s) f next = tt
Ensures-bind Q fault f next = tt
Ensures-bind Q stale f next = tt
Ensures-bind Q out_of_fuel f next = tt

-- The header is `es`, and the cursor is at property `j` of tuple `t` of element `i`.
pub record Here (es : List Element) (i t j : ℕ) (s : Stream) : Type 0 where
  pub header : s.parser.elements ≡ es
  pub at_value : At s i t j

-- The next step leads there.
pub record Ready (es : List Element) (i t j : ℕ) (s : Stream) : Type 0 where
  pub leads :
      (input : Input) → Ensures (λ (r : Stream × Input). Here es i t j r.0) (advance s input)

Arrived-Here :
    (es : List Element) (P : ℕ → ℕ → ℕ → Type 0) (i t j : ℕ) (m : Parse (Stream × Input))
    → ((a b c : ℕ) → P a b c → (a ≡ i) × (b ≡ t) × (c ≡ j))
    → Arrived es P m
    → Ensures (λ (r : Stream × Input). Here es i t j r.0) m
Arrived-Here es P i t j (ok (s, input)) only (e, (a, b, c, at, place, p)) =
    let (x, y, z) = only a b c p in
    record {
      header = e;
      at_value = record {
        element_is = at.element_is ∙ ap some x;
        tuple_is = at.tuple_is ∙ y;
        property_is = at.property_is ∙ ap some z;
      };
    }
Arrived-Here es P i t j (failed e) only h = tt
Arrived-Here es P i t j stale only h = tt
Arrived-Here es P i t j fault only h = tt
Arrived-Here es P i t j out_of_fuel only h = tt

abbrev Is : ℕ → ℕ → ℕ → ℕ → ℕ → ℕ → Type 0
Is i t j a b c = (a ≡ i) × (b ≡ t) × (c ≡ j)

-- Where the next value is, by what is left.
after_property :
    {es : List Element} {e : Element} {i t j a b c : ℕ}
    → j + 1 < length e.properties
    → Next es e i t j a b c
    → Is i t (j + 1) a b c
after_property h (next_property k) = (refl, refl, refl)
after_property h (next_tuple_of k l) = absurd (omega (arith, k, h))
after_property h (next_element k l m) = absurd (omega (arith, k, h))
after_property h (around k l m) = absurd (omega (arith, k, h))

after_tuple :
    {es : List Element} {e : Element} {i t j a b c : ℕ}
    → length e.properties ≡ j + 1
    → t + 1 < e.num_tuples
    → Next es e i t j a b c
    → Is i (t + 1) 0 a b c
after_tuple h g (next_property k) = absurd (omega (arith, k, h))
after_tuple h g (next_tuple_of k l) = (refl, refl, refl)
after_tuple h g (next_element k l m) = absurd (omega (arith, l, g))
after_tuple h g (around k l m) = absurd (omega (arith, l, g))

after_element :
    {es : List Element} {e : Element} {i t j a b c : ℕ}
    → length e.properties ≡ j + 1
    → e.num_tuples ≡ t + 1
    → i + 1 < length es
    → Next es e i t j a b c
    → Is (i + 1) 0 0 a b c
after_element h g f (next_property k) = absurd (omega (arith, k, h))
after_element h g f (next_tuple_of k l) = absurd (omega (arith, l, g))
after_element h g f (next_element k l m) = (refl, refl, refl)
after_element h g f (around k l m) = absurd (omega (arith, m, f))

module _ (es : List Element) (shape : IsShape es) where
  Ready-Next :
      {i t j a b c : ℕ} {s : Stream} (e : Element)
      → nth es i ≡ some e
      → t < e.num_tuples
      → j < length e.properties
      → Here es i t j s
      → ((x y z : ℕ) → Next es e i t j x y z → Is a b c x y z)
      → Ready es a b c s
  Ready-Next {i} {t} {j} {a} {b} {c} {s} e there room within here only = record {
    leads = λ input.
        subst
          (λ (fs : List Element).
            Ensures (λ (r : Stream × Input). Here fs a b c r.0) (advance s input))
          here.header
          (Arrived-Here s.parser.elements (Next s.parser.elements e i t j) a b c (advance s input)
            (λ x y z n.
              only x y z (subst (λ (fs : List Element). Next fs e i t j x y z) here.header n))
            (advance-Next s input (subst IsShape (sym here.header) shape) i t j here.at_value
              (record {
                place = e;
                element_there =
                    subst (λ (fs : List Element). nth fs i ≡ some e) (sym here.header) there;
                tuple_there = room;
                property_there = within;
              })));
  }

  pub Ready-property :
      {i t j : ℕ} {s : Stream} (e : Element)
      → nth es i ≡ some e
      → t < e.num_tuples
      → j + 1 < length e.properties
      → Here es i t j s
      → Ready es i t (j + 1) s
  Ready-property e there room more here =
      Ready-Next e there room (omega arith) here (λ x y z. after_property more)

  pub Ready-tuple :
      {i t j : ℕ} {s : Stream} (e : Element)
      → nth es i ≡ some e
      → length e.properties ≡ j + 1
      → t + 1 < e.num_tuples
      → Here es i t j s
      → Ready es i (t + 1) 0 s
  Ready-tuple e there last more here =
      Ready-Next e there (omega arith) (omega (arith, last)) here (λ x y z. after_tuple last more)

  pub Ready-element :
      {i t j : ℕ} {s : Stream} (e : Element)
      → nth es i ≡ some e
      → length e.properties ≡ j + 1
      → e.num_tuples ≡ t + 1
      → i + 1 < length es
      → Here es i t j s
      → Ready es (i + 1) 0 0 s
  Ready-element e there last end more here =
      Ready-Next e there (omega (arith, end)) (omega (arith, last)) here
        (λ x y z. after_element last end more)

pub Ready-first : (p : Parser) → IsShape p.elements → Ready p.elements 0 0 0 (start_streaming p)
unfolding start_streaming
Ready-first p shape = record {
  leads = λ input.
      Arrived-Here p.elements _ 0 0 0 (advance (start_streaming p) input) (λ a b c h. h)
        (advance-first (start_streaming p) input shape refl);
}

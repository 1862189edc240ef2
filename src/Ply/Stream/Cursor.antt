-- ===== src/Ply/Stream/Cursor.antt =====
-- The order in which `ply_advance` goes through the values of a file.
use mathlib.Core.Path.{ap₂}
use tom_libs.Common.{
  ltb, ◌==◌, ltb→lt, if_cases, length, drop, ℕ, ◌+◌, ◌<◌, ◌≡◌, refl, sym, subst, Option, none, some,
  List, [], ◌∷◌, arith,
}
use tom_libs.Ply.Types.{
  Format, unknown, ascii, binary_little_endian, binary_big_endian, Parse, ok, failed, fault, stale,
  out_of_fuel, ◌>>=◌, or_fault, Element, Parser,
}
use tom_libs.Ply.Header.{Input, read_more}
use tom_libs.Ply.Access.{nth}
use tom_libs.Ply.Header.Words.{newline}
use tom_libs.Ply.Stream.{
  Stream, first_property, enter_first, advance_first, next_tuple, end_tuple_text, refill, at_tuple,
  enter_tuple, advance_tuple, advance_in, advance_from, advance_at, advance,
}
use tom_libs.Ply.Stream.Places.{
  IsShape, At, IsPlace, Next, next_property, next_tuple_of, next_element, around, nth_total,
  nth-bound, first_property-some, Arrived, read_more-Kept, Arrived-read,
}

abbrev NoFault : {A : Type 0} → Parse A → Type 0
NoFault fault = ⊥
NoFault _ = Unit

end_tuple_text-NoFault : (format : Format) (raw : List ℕ) → NoFault (end_tuple_text format raw)
unfolding end_tuple_text
end_tuple_text-NoFault ascii [] = tt
end_tuple_text-NoFault ascii (c ∷ cs) = if_cases NoFault (c == newline) (λ e. tt) (λ e. tt)
end_tuple_text-NoFault binary_little_endian raw = tt
end_tuple_text-NoFault binary_big_endian raw = tt
end_tuple_text-NoFault unknown raw = tt

enter_tuple-Arrived :
    (P : ℕ → ℕ → ℕ → Type 0) (s : Stream) (i t : ℕ) (input : Input) (f : Element)
    → 0 < length f.properties
    → IsPlace s.parser.elements i t 0
    → P i t 0
    → Arrived s.parser.elements P (enter_tuple s (i, t) input f)
unfolding enter_tuple refill
enter_tuple-Arrived P s i t input f has place follows =
    ended (end_tuple_text s.parser.format (drop s.offset s.parser.buffer))
      (end_tuple_text-NoFault s.parser.format (drop s.offset s.parser.buffer))
  where
    emptied : ℕ → Parser
    emptied n = record s.parser { buffer = drop (s.offset + n) s.parser.buffer }

    ended :
        (m : Parse ℕ)
        → NoFault m
        → Arrived s.parser.elements P
            (m >>= λ n. refill (record (at_tuple s (i, t) f) { offset = s.offset + n }) input)
    ended (ok n) h =
        Arrived-read P (emptied n) (read_more (emptied n) input)
          (λ q. record (at_tuple s (i, t) f) { parser = q; offset = 0 }) i t
          (read_more-Kept (emptied n) input) (λ q. refl)
          (λ q. record {
            element_is = refl;
            tuple_is = refl;
            property_is = first_property-some f has;
          })
          place follows
    ended (failed e) h = tt
    ended stale h = tt
    ended fault h = elim h [ ]
    ended out_of_fuel h = tt

module _ (s : Stream) (input : Input) (shape : IsShape s.parser.elements) where
  to_tuple :
      (P : ℕ → ℕ → ℕ → Type 0) (i t : ℕ) (f : Element)
      → nth s.parser.elements i ≡ some f
      → t < f.num_tuples
      → P i t 0
      → Arrived s.parser.elements P
          (or_fault (nth s.parser.elements i) >>= enter_tuple s (i, t) input)
  to_tuple P i t f h room follows =
      let has = (shape.filled i f h).has_property in
      subst
        (λ (o : Option Element).
          Arrived s.parser.elements P (or_fault o >>= enter_tuple s (i, t) input))
        (sym h)
        (enter_tuple-Arrived P s i t input f has
          (record { place = f; element_there = h; tuple_there = room; property_there = has })
          follows)

  advance_tuple-Arrived :
      (i j : ℕ) (e : Element)
      → nth s.parser.elements i ≡ some e
      → s.tuple < e.num_tuples
      → length e.properties ≡ j + 1
      → Arrived s.parser.elements (Next s.parser.elements e i s.tuple j) (advance_tuple s i e input)
  unfolding advance_tuple next_tuple
  advance_tuple-Arrived i j e h room last =
      let es = s.parser.elements in
      let N = Next es e i s.tuple j in
      if_cases
        (λ (next : ℕ × ℕ). Arrived es N (or_fault (nth es next.0) >>= enter_tuple s next input))
        (ltb (s.tuple + 1) e.num_tuples)
        (λ more.
          to_tuple N i (s.tuple + 1) e h (ltb→lt _ _ more) (next_tuple_of last (ltb→lt _ _ more)))
        (λ no_more.
          if_cases
            (λ (next : ℕ × ℕ). Arrived es N (or_fault (nth es next.0) >>= enter_tuple s next input))
            (ltb (i + 1) (length es))
            (λ more.
              let (f, there) = nth_total es (i + 1) (ltb→lt _ _ more) in
              to_tuple N (i + 1) 0 f there (shape.filled (i + 1) f there).has_tuple
                (next_element last (ground (arith, no_more, room)) (ltb→lt _ _ more)))
            (λ end.
              let (f, there) = nth_total es 0 shape.has_element in
              to_tuple N 0 0 f there (shape.filled 0 f there).has_tuple (
                around last (ground (arith, no_more, room))
                  (ground (arith, end, nth-bound es i h)))))

  advance_in-Arrived :
      (i j : ℕ) (e : Element)
      → nth s.parser.elements i ≡ some e
      → s.tuple < e.num_tuples
      → j < length e.properties
      → s.element ≡ some i
      → Arrived s.parser.elements (Next s.parser.elements e i s.tuple j) (advance_in s i j input e)
  unfolding advance_in
  advance_in-Arrived i j e h room within at =
      if_cases (Arrived s.parser.elements (Next s.parser.elements e i s.tuple j))
        (ltb (j + 1) (length e.properties))
        (λ more. (
          refl,
          (
            i,
            s.tuple,
            j + 1,
            record { element_is = at; tuple_is = refl; property_is = refl },
            record {
              place = e;
              element_there = h;
              tuple_there = room;
              property_there = ltb→lt _ _ more;
            },
            next_property (ltb→lt _ _ more),
          ),
        ))
        (λ end. advance_tuple-Arrived i j e h room (ground (arith, end, within)))

  -- From a value of the file, `ply_advance` does not fault, and if it succeeds, the header is the
  -- same and the cursor is at the next value of the file, provided that each element has a tuple
  -- and a property.
  pub advance-Next :
      (i t j : ℕ) (at : At s i t j) (here : IsPlace s.parser.elements i t j)
      → Arrived s.parser.elements (Next s.parser.elements here.place i t j) (advance s input)
  unfolding advance advance_at advance_from
  advance-Next i t j at here =
      let es = s.parser.elements in
      let e = here.place in
      let entered : Arrived es (Next es e i s.tuple j) (advance_in s i j input e) =
        advance_in-Arrived i j e here.element_there
          (subst (λ (k : ℕ). k < e.num_tuples) (sym at.tuple_is) here.tuple_there)
          here.property_there at.element_is in
      let looked : Arrived es (Next es e i s.tuple j) (advance_from s i j input) =
        subst
          (λ (o : Option Element).
            Arrived es (Next es e i s.tuple j) (or_fault o >>= advance_in s i j input))
          (sym here.element_there) entered in
      let pointed : Arrived es (Next es e i s.tuple j) (advance s input) =
        subst
          (λ (o : Option ℕ × Option ℕ).
            Arrived es (Next es e i s.tuple j) (advance_at o.0 o.1 s input))
          (ap₂ (λ (a b : Option ℕ). (a, b)) (sym at.element_is) (sym at.property_is)) looked in
      subst (λ (k : ℕ). Arrived es (Next es e i k j) (advance s input)) at.tuple_is pointed

  -- The first call of `ply_advance` does not fault, and if it succeeds, the cursor is at the first
  -- value of the file.
  pub advance-first :
      s.property ≡ none
      → Arrived s.parser.elements (λ i t j. (i ≡ 0) × (t ≡ 0) × (j ≡ 0)) (advance s input)
  unfolding advance advance_at advance_first enter_first
  advance-first start =
      let es = s.parser.elements in
      let first = λ (i t j : ℕ). (i ≡ 0) × (t ≡ 0) × (j ≡ 0) in
      let (f, there) = nth_total es 0 shape.has_element in
      let filled = shape.filled 0 f there in
      let entered : Arrived es first (enter_first s input f) =
        Arrived-read first s.parser (read_more s.parser input)
          (λ q. record s {
            parser = q;
            element = some 0;
            tuple = 0;
            property = first_property f;
            item = 0;
          })
          0 0 (read_more-Kept s.parser input) (λ q. refl)
          (λ q. record {
            element_is = refl;
            tuple_is = refl;
            property_is = first_property-some f filled.has_property;
          })
          (record {
            place = f;
            element_there = there;
            tuple_there = filled.has_tuple;
            property_there = filled.has_property;
          })
          (refl, refl, refl) in
      let looked : Arrived es first (advance_first s input) =
        subst (λ (o : Option Element). Arrived es first (or_fault o >>= enter_first s input))
          (sym there) entered in
      subst (λ (o : Option ℕ). Arrived es first (advance_at s.element o s input)) (sym start)
        (at_none s.element looked)
    where
      at_none :
          (o : Option ℕ)
          → Arrived s.parser.elements (λ i t j. (i ≡ 0) × (t ≡ 0) × (j ≡ 0)) (advance_first s input)
          → Arrived s.parser.elements
              (λ i t j. (i ≡ 0) × (t ≡ 0) × (j ≡ 0))
              (advance_at o none s input)
      at_none none a = a
      at_none (some k) a = a

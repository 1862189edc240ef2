-- ===== src/Ply/Callbacks/Events.antt =====
-- The order of the calls that `ply_process_with_callbacks` makes.
use mathlib.Core.List.{append-nil, append_assoc}
use tom_libs.Common.{
  if_cases, ℕ, zero, suc, ◌+◌, ◌≡◌, refl, sym, ap, ◌∙◌, subst, true, List, [], ◌∷◌, ◌++◌,
}
use tom_libs.Ply.Types.{
  Parse, ok, failed, fault, stale, out_of_fuel, ◌>>=◌, Property, Element, Parser,
}
use tom_libs.Ply.Header.{Input}
use tom_libs.Ply.Scalar.{Scalar}
use tom_libs.Ply.Scalar.Read.{CLibrary}
use tom_libs.Ply.Stream.{start_streaming, stream_value, stream_list_item}
use tom_libs.Ply.Callbacks.{
  Run, length_of, notify, list_items, on_list, on_value, tuple_values, element_tuples, all_elements,
  process_with_callbacks,
}
use tom_libs.Ply.Callbacks.Calls.{
  Event, element_starts, element_ends, tuple_starts, tuple_ends, scalar_read, list_starts,
  list_ends, item_read, recorder, ItemCalls, no_items, item_then, ValueCalls, scalar_calls,
  list_calls, TupleCalls, no_values, value_then, TuplesCalls, no_tuples, tuple_then, ElementCalls,
  no_elements, element_then,
}

-- What is added to the events so far, if the operation succeeds.
abbrev Wrote : (List Event → Type 0) → List Event → Parse (Run (List Event)) → Type 0
Wrote G d (ok r) = (es : List Event) × (r.user ≡ d ++ es) × G es
Wrote G d _ = Unit

Wrote-bind :
    (G H K : List Event → Type 0) (d : List Event) (m : Parse (Run (List Event)))
    (f : Run (List Event) → Parse (Run (List Event)))
    → Wrote G d m
    → ((r : Run (List Event)) → Wrote H r.user (f r))
    → ((es fs : List Event) → G es → H fs → K (es ++ fs))
    → Wrote K d (m >>= f)
Wrote-bind G H K d (ok r) f (es, e, g) next both = joined (f r) (next r)
  where
    joined : (o : Parse (Run (List Event))) → Wrote H r.user o → Wrote K d o
    joined (ok u) (fs, e', h) =
        (es ++ fs, e' ∙ ap (λ (l : List Event). l ++ fs) e ∙ append_assoc d es fs, both es fs g h)
    joined (failed s) h = tt
    joined fault h = tt
    joined stale h = tt
    joined out_of_fuel h = tt
Wrote-bind G H K d (failed s) f w next both = tt
Wrote-bind G H K d fault f w next both = tt
Wrote-bind G H K d stale f w next both = tt
Wrote-bind G H K d out_of_fuel f w next both = tt

-- a step that calls nothing
Wrote-after :
    {A : Type 0} (K : List Event → Type 0) (d : List Event) (m : Parse A)
    (f : A → Parse (Run (List Event)))
    → ((a : A) → Wrote K d (f a))
    → Wrote K d (m >>= f)
Wrote-after K d (ok a) f next = next a
Wrote-after K d (failed s) f next = tt
Wrote-after K d fault f next = tt
Wrote-after K d stale f next = tt
Wrote-after K d out_of_fuel f next = tt

abbrev One : Event → List Event → Type 0
One v es = es ≡ v ∷ []

-- a call, and what follows it
Wrote-call :
    (H K : List Event → Type 0) (v : Event) (r : Run (List Event))
    (f : Run (List Event) → Parse (Run (List Event)))
    → ((u : Run (List Event)) → Wrote H u.user (f u))
    → ((fs : List Event) → H fs → K (v ∷ fs))
    → Wrote K r.user (f (record r { user = r.user ++ v ∷ [] }))
Wrote-call H K v r f next both =
    Wrote-bind (One v) H K r.user (ok (record r { user = r.user ++ v ∷ [] })) f (v ∷ [], refl, refl)
      next (λ es fs one h. subst (λ (l : List Event). K (l ++ fs)) (sym one) (both fs h))

Wrote-list_items :
    (lib : CLibrary) (n : ℕ) (r : Run (List Event))
    → Wrote (ItemCalls n) r.user (list_items lib recorder n r)
unfolding list_items
Wrote-list_items lib zero r = ([], sym (append-nil r.user), no_items)
Wrote-list_items lib (suc n) r =
    Wrote-after (ItemCalls (suc n)) r.user (stream_list_item lib r.stream) _ (λ (v, s).
      Wrote-call (_) _ (item_read v) (record r { stream = s }) (list_items lib recorder n)
        (Wrote-list_items lib n) (λ fs rest. item_then v rest))

Wrote-on_list :
    (lib : CLibrary) (x : Property) (v : Scalar) (r : Run (List Event))
    → x.is_list ≡ true
    → Wrote (ValueCalls x) r.user (on_list lib recorder x v r)
unfolding on_list
Wrote-on_list lib x v r e = Wrote-after (ValueCalls x) r.user (length_of v) _ (λ n.
    Wrote-call (λ l. (es : List Event) × ItemCalls n es × (l ≡ es ++ list_ends ∷ [])) _
      (list_starts x n) r _
      (λ u.
        Wrote-bind (ItemCalls n) (One list_ends) _ u.user (list_items lib recorder n u)
          (notify recorder.end_list) (Wrote-list_items lib n u) (λ t. (list_ends ∷ [], refl, refl))
          (λ es fs items end. (es, items, ap (λ (l : List Event). es ++ l) end)))
      (λ fs (es, items, same).
        subst (λ (l : List Event). ValueCalls x (list_starts x n ∷ l)) (sym same)
          (list_calls e items)))

Wrote-on_value :
    (lib : CLibrary) (x : Property) (v : Scalar) (r : Run (List Event))
    → Wrote (ValueCalls x) r.user (on_value lib recorder x v r)
unfolding on_value
Wrote-on_value lib x v r =
    if_cases (Wrote (ValueCalls x) r.user) x.is_list (Wrote-on_list lib x v r)
      (λ e. (scalar_read x v ∷ [], refl, scalar_calls v e))

Wrote-tuple_values :
    (lib : CLibrary) (xs : List Property) (r : Run (List Event))
    → Wrote (TupleCalls xs) r.user (tuple_values lib recorder xs r)
unfolding tuple_values
Wrote-tuple_values lib [] r = ([], sym (append-nil r.user), no_values)
Wrote-tuple_values lib (x ∷ xs) r =
    Wrote-after (TupleCalls (x ∷ xs)) r.user (stream_value lib r.stream r.input) _ (λ (v, s, more).
      Wrote-bind (_) (_) _ r.user
        (on_value lib recorder x v (record r { stream = s; input = more })) _
        (Wrote-on_value lib x v (record r { stream = s; input = more })) (Wrote-tuple_values lib xs)
        (λ es fs. value_then))

Wrote-element_tuples :
    (lib : CLibrary) (e : Element) (n i : ℕ) (r : Run (List Event))
    → Wrote (TuplesCalls e n i) r.user (element_tuples lib recorder e n i r)
unfolding element_tuples
Wrote-element_tuples lib e zero i r = ([], sym (append-nil r.user), no_tuples)
Wrote-element_tuples lib e (suc n) i r =
    Wrote-call
      (λ l.
        (es fs : List Event) × TupleCalls e.properties es
        × TuplesCalls e n (i + 1) fs
        × (l ≡ es ++ tuple_ends ∷ fs))
      _ (tuple_starts i) r _
      (λ u.
        Wrote-bind (TupleCalls e.properties)
          (λ l. (fs : List Event) × TuplesCalls e n (i + 1) fs × (l ≡ tuple_ends ∷ fs)) _ u.user
          (tuple_values lib recorder e.properties u) _ (Wrote-tuple_values lib e.properties u)
          (λ t.
            Wrote-call (TuplesCalls e n (i + 1)) _ tuple_ends t
              (element_tuples lib recorder e n (i + 1)) (Wrote-element_tuples lib e n (i + 1))
              (λ fs rest. (fs, rest, refl)))
          (λ es l values (fs, rest, same).
            (es, fs, values, rest, ap (λ (k : List Event). es ++ k) same)))
      (λ l (es, fs, values, rest, same).
        subst (λ (k : List Event). TuplesCalls e (suc n) i (tuple_starts i ∷ k)) (sym same)
          (tuple_then values rest))

Wrote-all_elements :
    (lib : CLibrary) (rest : List Element) (r : Run (List Event))
    → Wrote (ElementCalls rest) r.user (all_elements lib recorder rest r)
unfolding all_elements
Wrote-all_elements lib [] r = ([], sym (append-nil r.user), no_elements)
Wrote-all_elements lib (e ∷ rest) r =
    Wrote-call
      (λ l.
        (es fs : List Event) × TuplesCalls e e.num_tuples 0 es
        × ElementCalls rest fs
        × (l ≡ es ++ element_ends ∷ fs))
      _ (element_starts e) r _
      (λ u.
        Wrote-bind (TuplesCalls e e.num_tuples 0)
          (λ l. (fs : List Event) × ElementCalls rest fs × (l ≡ element_ends ∷ fs)) _ u.user
          (element_tuples lib recorder e e.num_tuples 0 u) _
          (Wrote-element_tuples lib e e.num_tuples 0 u)
          (λ t.
            Wrote-call (ElementCalls rest) _ element_ends t (all_elements lib recorder rest)
              (Wrote-all_elements lib rest) (λ fs more. (fs, more, refl)))
          (λ es l tuples (fs, more, same).
            (es, fs, tuples, more, ap (λ (k : List Event). es ++ k) same)))
      (λ l (es, fs, tuples, more, same).
        subst (λ (k : List Event). ElementCalls (e ∷ rest) (element_starts e ∷ k)) (sym same)
          (element_then tuples more))

-- If `ply_process_with_callbacks` succeeds with a handler that writes every call down, the calls
-- follow the header: for each element in order its start, its tuples and its end; for each of as
-- many tuples as the header says its start with its index, a call for each property in order, and
-- its end; for a list its start with a length, as many items, and its end.
pub process_with_callbacks-ElementCalls :
    (lib : CLibrary) (p : Parser) (input : Input) {r : Run (List Event)}
    → process_with_callbacks lib recorder p input [] ≡ ok r
    → ElementCalls p.elements r.user
unfolding process_with_callbacks
process_with_callbacks-ElementCalls lib p input {r} e =
    let first : Run (List Event) = record {
      stream = start_streaming p;
      input = input;
      user = [];
    } in
    let (es, same, calls) =
      subst (Wrote (ElementCalls p.elements) []) e (Wrote-all_elements lib p.elements first) in
    subst (ElementCalls p.elements) (sym same) calls

-- ===== src/Ply/Callbacks/Calls.antt =====
-- The calls of callbacks that go with the contents of a PLY file.
use tom_libs.Common.{ℕ, suc, ◌+◌, ◌≡◌, true, false, some, List, [], ◌∷◌, ◌++◌}
use tom_libs.Ply.Types.{Property, Element}
use tom_libs.Ply.Scalar.{Scalar}
use tom_libs.Ply.Callbacks.{Answer, go_on, Handler}

-- a call of a callback
pub data Event : Type 0 where
  element_starts : Element → Event
  element_ends : Event
  tuple_starts : ℕ → Event
  tuple_ends : Event
  scalar_read : Property → Scalar → Event
  list_starts : Property → ℕ → Event
  list_ends : Event
  item_read : Scalar → Event

-- the caller's data grows by an event
abbrev noted : Event → List Event → Answer (List Event)
noted v es = go_on (es ++ v ∷ [])

-- the handler that writes all calls down
abbrev pub recorder : Handler (List Event)
recorder = record {
  start_element = some (λ e. noted (element_starts e));
  end_element = some (noted element_ends);
  start_tuple = some (λ i. noted (tuple_starts i));
  end_tuple = some (noted tuple_ends);
  on_scalar_value = some (λ x v. noted (scalar_read x v));
  start_list = some (λ x n. noted (list_starts x n));
  end_list = some (noted list_ends);
  on_list_item = some (λ v. noted (item_read v));
}

-- The calls for what a file holds: items of a list, a value, a tuple, tuples, and elements.
pub data ItemCalls : ℕ → List Event → Type 0 where
  no_items : ItemCalls 0 []
  item_then :
      {n : ℕ} {es : List Event} (v : Scalar) → ItemCalls n es → ItemCalls (suc n) (item_read v ∷ es)

pub data ValueCalls (x : Property) : List Event → Type 0 where
  scalar_calls : (v : Scalar) → x.is_list ≡ false → ValueCalls x (scalar_read x v ∷ [])
  list_calls :
      {n : ℕ} {es : List Event}
      → x.is_list ≡ true
      → ItemCalls n es
      → ValueCalls x (list_starts x n ∷ (es ++ list_ends ∷ []))

pub data TupleCalls : List Property → List Event → Type 0 where
  no_values : TupleCalls [] []
  value_then :
      {x : Property} {xs : List Property} {es fs : List Event}
      → ValueCalls x es
      → TupleCalls xs fs
      → TupleCalls (x ∷ xs) (es ++ fs)

-- `n` tuples, the first with index `i`
pub data TuplesCalls (e : Element) : ℕ → ℕ → List Event → Type 0 where
  no_tuples : {i : ℕ} → TuplesCalls e 0 i []
  tuple_then :
      {n i : ℕ} {es fs : List Event}
      → TupleCalls e.properties es
      → TuplesCalls e n (i + 1) fs
      → TuplesCalls e (suc n) i (tuple_starts i ∷ (es ++ (tuple_ends ∷ fs)))

pub data ElementCalls : List Element → List Event → Type 0 where
  no_elements : ElementCalls [] []
  element_then :
      {e : Element} {rest : List Element} {es fs : List Event}
      → TuplesCalls e e.num_tuples 0 es
      → ElementCalls rest fs
      → ElementCalls (e ∷ rest) (element_starts e ∷ (es ++ (element_ends ∷ fs)))

-- ===== src/Ply/Callbacks.antt =====
-- `ply_process_with_callbacks` of tom_ply.h.
pub mod Calls
pub mod Reference
pub mod Agree
pub mod Values
pub mod Coherent
pub mod Process
pub mod Events
use tom_libs.Common.{if◌then◌else◌, ℕ, zero, suc, ◌+◌, Option, none, some, List, [], ◌∷◌}
use tom_libs.Ply.Types.{err_user, Parse, ok, failed, fault, ◌>>=◌, Property, Element, Parser}
use tom_libs.Ply.Header.{Input}
use tom_libs.Ply.Scalar.{Scalar, bits}
use tom_libs.Ply.Scalar.Read.{CLibrary}
use tom_libs.Ply.Stream.{Stream, start_streaming, stream_value, stream_list_item}

-- What a callback makes of the caller's data, or the negative code that it returns.
pub data Answer (S : Type 0) : Type 0 where
  go_on : S → Answer S
  stop : ℕ → Answer S

-- `struct ply_handler`; `none` is NULL
pub record Handler (S : Type 0) : Type 0 where
  pub start_element : Option (Element → S → Answer S)
  pub end_element : Option (S → Answer S)
  pub start_tuple : Option (ℕ → S → Answer S)
  pub end_tuple : Option (S → Answer S)
  pub on_scalar_value : Option (Property → Scalar → S → Answer S)
  pub start_list : Option (Property → ℕ → S → Answer S)
  pub end_list : Option (S → Answer S)
  pub on_list_item : Option (Scalar → S → Answer S)

-- The parser, the input that is left, and the caller's data
pub record Run (S : Type 0) : Type 0 where
  pub stream : Stream
  pub input : Input
  pub user : S

-- `value.u`
abbrev pub length_of : Scalar → Parse ℕ
length_of (bits n) = ok n
length_of _ = fault

module _ {S : Type 0} where
  -- what a call that returns leaves
  abbrev pub answered : Run S → Answer S → Parse (Run S)
  answered r (go_on d) = ok (record r { user = d })
  answered r (stop e) = failed (err_user e)

  -- the callbacks, which may be NULL
  abbrev pub notify : Option (S → Answer S) → Run S → Parse (Run S)
  notify none r = ok r
  notify (some f) r = answered r (f r.user)

  abbrev pub notify_with : {A : Type 0} → Option (A → S → Answer S) → A → Run S → Parse (Run S)
  notify_with none a r = ok r
  notify_with (some f) a r = answered r (f a r.user)

  abbrev pub notify_two :
      {A B : Type 0} → Option (A → B → S → Answer S) → A → B → Run S → Parse (Run S)
  notify_two none a b r = ok r
  notify_two (some f) a b r = answered r (f a b r.user)

  -- the loop over the items of a list
  unfoldable pub list_items : CLibrary → Handler S → ℕ → Run S → Parse (Run S)
  unfolding stream_list_item
  list_items lib h zero r = ok r
  list_items lib h (suc n) r = do
    (v, s) ← stream_list_item lib r.stream
    u ← notify_with h.on_list_item v (record r { stream = s })
    list_items lib h n u

  -- the calls for a list
  unfoldable pub on_list : CLibrary → Handler S → Property → Scalar → Run S → Parse (Run S)
  unfolding list_items
  on_list lib h x v r = do
    n ← length_of v
    t ← notify_two h.start_list x n r
    u ← list_items lib h n t
    notify h.end_list u

  -- the calls for the value of a property
  unfoldable pub on_value : CLibrary → Handler S → Property → Scalar → Run S → Parse (Run S)
  unfolding on_list
  on_value lib h x v r =
      if x.is_list then on_list lib h x v r else notify_two h.on_scalar_value x v r

  -- the loop over the properties of a tuple
  unfoldable pub tuple_values : CLibrary → Handler S → List Property → Run S → Parse (Run S)
  unfolding stream_value on_value
  tuple_values lib h [] r = ok r
  tuple_values lib h (x ∷ xs) r = do
    (v, s, more) ← stream_value lib r.stream r.input
    t ← on_value lib h x v (record r { stream = s; input = more })
    tuple_values lib h xs t

  -- the loop over the tuples of an element: `n` are left, the next is tuple `i`
  unfoldable pub element_tuples : CLibrary → Handler S → Element → ℕ → ℕ → Run S → Parse (Run S)
  unfolding tuple_values
  element_tuples lib h e zero i r = ok r
  element_tuples lib h e (suc n) i r = do
    t ← notify_with h.start_tuple i r
    u ← tuple_values lib h e.properties t
    v ← notify h.end_tuple u
    element_tuples lib h e n (i + 1) v

  -- the loop over the elements
  unfoldable pub all_elements : CLibrary → Handler S → List Element → Run S → Parse (Run S)
  unfolding element_tuples
  all_elements lib h [] r = ok r
  all_elements lib h (e ∷ es) r = do
    t ← notify_with h.start_element e r
    u ← element_tuples lib h e e.num_tuples 0 t
    v ← notify h.end_element u
    all_elements lib h es v

  -- `ply_process_with_callbacks`
  unfoldable pub process_with_callbacks : CLibrary → Handler S → Parser → Input → S → Parse (Run S)
  unfolding all_elements start_streaming
  process_with_callbacks lib h p input d =
      all_elements lib h p.elements (record { stream = start_streaming p; input = input; user = d })

-- ===== src/Ply/Callbacks/Reference.antt =====
-- `ply_process_with_callbacks` as it is meant: each value is read by the property of the loop, where
-- the source reads it by the property that the streaming interface keeps for itself.
use tom_libs.Common.{if◌then◌else◌, ℕ, zero, suc, ◌+◌, List, [], ◌∷◌}
use tom_libs.Ply.Types.{Parse, ok, ◌>>=◌, Property, Element}
use tom_libs.Ply.Header.{Input}
use tom_libs.Ply.Scalar.{Scalar}
use tom_libs.Ply.Scalar.Read.{CLibrary}
use tom_libs.Ply.Stream.{Stream, advance, read_at_offset, value_of}
use tom_libs.Ply.Callbacks.{Handler, Run, length_of, notify, notify_with, notify_two}

-- the next value, as one of property `x`
abbrev pub value_by : CLibrary → Property → Stream → Input → Parse (Scalar × Stream × Input)
value_by lib x s input = do (t, more) ← advance s input; (v, u) ← value_of lib x t; ok (v, u, more)

-- the next item of a list of property `x`
abbrev pub item_by : CLibrary → Property → Stream → Parse (Scalar × Stream)
item_by lib x s = do
  (v, t) ← read_at_offset lib x.scalar_type s
  ok (v, record t { item = t.item + 1 })

module _ {S : Type 0} (lib : CLibrary) (h : Handler S) where
  abbrev pub items_by : Property → ℕ → Run S → Parse (Run S)
  items_by x zero r = ok r
  items_by x (suc n) r = do
    (v, s) ← item_by lib x r.stream
    u ← notify_with h.on_list_item v (record r { stream = s })
    items_by x n u

  abbrev pub list_by : Property → Scalar → Run S → Parse (Run S)
  list_by x v r = do
    n ← length_of v
    t ← notify_two h.start_list x n r
    u ← items_by x n t
    notify h.end_list u

  abbrev pub on_value_by : Property → Scalar → Run S → Parse (Run S)
  on_value_by x v r = if x.is_list then list_by x v r else notify_two h.on_scalar_value x v r

  abbrev pub values_by : List Property → Run S → Parse (Run S)
  values_by [] r = ok r
  values_by (x ∷ xs) r = do
    (v, s, more) ← value_by lib x r.stream r.input
    t ← on_value_by x v (record r { stream = s; input = more })
    values_by xs t

  abbrev pub tuples_by : Element → ℕ → ℕ → Run S → Parse (Run S)
  tuples_by e zero i r = ok r
  tuples_by e (suc n) i r = do
    t ← notify_with h.start_tuple i r
    u ← values_by e.properties t
    v ← notify h.end_tuple u
    tuples_by e n (i + 1) v

  abbrev pub elements_by : List Element → Run S → Parse (Run S)
  elements_by [] r = ok r
  elements_by (e ∷ es) r = do
    t ← notify_with h.start_element e r
    u ← tuples_by e e.num_tuples 0 t
    v ← notify h.end_element u
    elements_by es v

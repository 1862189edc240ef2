-- ===== src/Ply/Callbacks/Values.antt =====
-- Values and list items, and the property that the cursor is at.
use tom_libs.Common.{
  if_cases, drop, ℕ, zero, suc, ◌+◌, ◌≡◌, refl, sym, subst, Option, none, some, List,
}
use tom_libs.Ply.Types.{
  ScalarType, Parse, ok, failed, fault, stale, out_of_fuel, ◌>>=◌, Property, Element,
}
use tom_libs.Ply.Header.{Input}
use tom_libs.Ply.Access.{nth}
use tom_libs.Ply.Scalar.{Scalar}
use tom_libs.Ply.Scalar.Read.{CLibrary, read_scalar}
use tom_libs.Ply.Stream.{
  Stream, advance, property_at, current_property, read_at_offset, list_length, value_of,
  stream_value, stream_list_item,
}
use tom_libs.Ply.Stream.Places.{IsShape}
use tom_libs.Ply.Callbacks.{
  Answer, go_on, stop, Handler, Run, answered, notify, notify_with, notify_two, list_items,
}
use tom_libs.Ply.Callbacks.Reference.{value_by, item_by, items_by}
use tom_libs.Ply.Callbacks.Agree.{Ensures, Agrees, Agrees-bind, Ensures-bind, Here, Ready}

-- A callback leaves the parser alone.
module _ {S : Type 0} where
  abbrev pub SameStream : Run S → Run S → Type 0
  SameStream r u = r.stream ≡ u.stream

  answered-same : (r : Run S) (a : Answer S) → Ensures (SameStream r) (answered r a)
  answered-same r (go_on d) = refl
  answered-same r (stop e) = tt

  pub notify-same :
      (f : Option (S → Answer S)) (r : Run S) → Agrees (SameStream r) (notify f r) (notify f r)
  notify-same none r = (refl, refl)
  notify-same (some f) r = (refl, answered-same r (f r.user))

  pub notify_with-same :
      {A : Type 0} (f : Option (A → S → Answer S)) (a : A) (r : Run S)
      → Agrees (SameStream r) (notify_with f a r) (notify_with f a r)
  notify_with-same none a r = (refl, refl)
  notify_with-same (some f) a r = (refl, answered-same r (f a r.user))

  pub notify_two-same :
      {A B : Type 0} (f : Option (A → B → S → Answer S)) (a : A) (b : B) (r : Run S)
      → Agrees (SameStream r) (notify_two f a b r) (notify_two f a b r)
  notify_two-same none a b r = (refl, refl)
  notify_two-same (some f) a b r = (refl, answered-same r (f a b r.user))

-- Reading moves the offset only.
moved-Here :
    {es : List Element} {i t j : ℕ} (s : Stream) (offset item : ℕ)
    → Here es i t j s
    → Here es i t j (record s { offset = offset; item = item })
moved-Here s offset item h = record {
  header = h.header;
  at_value = record {
    element_is = h.at_value.element_is;
    tuple_is = h.at_value.tuple_is;
    property_is = h.at_value.property_is;
  };
}

read_at_offset-Here :
    {es : List Element} {i t j : ℕ} (lib : CLibrary) (type : ScalarType) (s : Stream)
    → Here es i t j s
    → Ensures (λ (r : Scalar × Stream). Here es i t j r.1) (read_at_offset lib type s)
unfolding read_at_offset
read_at_offset-Here lib type s h =
    Ensures-bind (λ (r : Scalar × Stream). Here _ _ _ _ r.1)
      (read_scalar lib s.parser.format (drop s.offset s.parser.buffer) type) _
      (λ (v, n). moved-Here s (s.offset + n) s.item h)

Ensures-then :
    {A B : Type 0} (P : A → Type 0) (Q : B → Type 0) (m : Parse A) (f : A → Parse B)
    → Ensures P m
    → ((a : A) → P a → Ensures Q (f a))
    → Ensures Q (m >>= f)
Ensures-then P Q (ok a) f p next = next a p
Ensures-then P Q (failed s) f p next = tt
Ensures-then P Q fault f p next = tt
Ensures-then P Q stale f p next = tt
Ensures-then P Q out_of_fuel f p next = tt

value_of-Here :
    {es : List Element} {i t j : ℕ} (lib : CLibrary) (x : Property) (s : Stream)
    → Here es i t j s
    → Ensures (λ (r : Scalar × Stream). Here es i t j r.1) (value_of lib x s)
unfolding value_of
value_of-Here {es} {i} {t} {j} lib x s h =
    let P : Scalar × Stream → Type 0 = λ r. Here es i t j r.1 in
    if_cases (Ensures P) x.is_list
      (λ e.
        Ensures-then P P (read_at_offset lib x.length_type s) _
          (read_at_offset-Here lib x.length_type s h)
          (λ (v, u) k.
            Ensures-bind P (list_length x.length_type v) _ (λ n. moved-Here u u.offset 0 k)))
      (λ e. read_at_offset-Here lib x.scalar_type s h)

current_property-Here :
    {es : List Element} {i t j : ℕ} (s : Stream) (e : Element) (x : Property)
    → nth es i ≡ some e
    → nth e.properties j ≡ some x
    → Here es i t j s
    → current_property s ≡ ok x
unfolding current_property property_at
current_property-Here s e x there at h =
    rw (h.at_value.element_is, h.at_value.property_is, h.header, there, at)

module _ (es : List Element) (shape : IsShape es) (lib : CLibrary) {S : Type 0}
    (h : Handler S) where
  module _ (i : ℕ) (e : Element) (there : nth es i ≡ some e) where
    module _ (t j : ℕ) (x : Property) (at : nth e.properties j ≡ some x) where
      pub stream_value-Agrees :
          (s : Stream) (input : Input)
          → Ready es i t j s
          → Agrees
              (λ (r : Scalar × Stream × Input). Here es i t j r.1)
              (stream_value lib s input)
              (value_by lib x s input)
      unfolding stream_value
      stream_value-Agrees s input ready =
          Agrees-bind (λ (r : Stream × Input). Here es i t j r.0) _ (advance s input)
            (advance s input) _ _ (refl, ready.leads input)
            (λ (u, more) here. (
              rw (current_property-Here u e x there at here) refl,
              subst
                  (λ (m : Parse Property).
                    Ensures (λ (r : Scalar × Stream × Input). Here es i t j r.1)
                      (m >>= λ y. value_of lib y u >>= λ r. ok (r.0, r.1, more)))
                  (sym (current_property-Here u e x there at here))
                  (Ensures-then (λ (r : Scalar × Stream). Here es i t j r.1) _ (value_of lib x u) _
                    (value_of-Here lib x u here) (λ r k. k)),
            ))

      pub list_items-Agrees :
          (n : ℕ) (r : Run S)
          → Here es i t j r.stream
          → Agrees
              (λ (u : Run S). Here es i t j u.stream)
              (list_items lib h n r)
              (items_by lib h x n r)
      unfolding list_items stream_list_item
      list_items-Agrees zero r here = (refl, here)
      list_items-Agrees (suc n) r here =
          Agrees-bind (λ (z : Scalar × Stream). Here es i t j z.1) _ (stream_list_item lib r.stream)
            (item_by lib x r.stream) _ _
            (
              rw (current_property-Here r.stream e x there at here) refl,
              subst
                  (λ (m : Parse Property).
                    Ensures (λ (z : Scalar × Stream). Here es i t j z.1)
                      (m >>= λ y. read_at_offset lib y.scalar_type r.stream >>= λ z.
                        ok (z.0, record z.1 { item = z.1.item + 1 })))
                  (sym (current_property-Here r.stream e x there at here))
                  (Ensures-then (λ (z : Scalar × Stream). Here es i t j z.1) _
                    (read_at_offset lib x.scalar_type r.stream) _
                    (read_at_offset-Here lib x.scalar_type r.stream here)
                    (λ z k. moved-Here z.1 z.1.offset (z.1.item + 1) k)),
            )
            (λ (v, s) here2.
              Agrees-bind (SameStream (record r { stream = s })) _
                (notify_with h.on_list_item v (record r { stream = s })) _ _ _
                (notify_with-same h.on_list_item v (record r { stream = s }))
                (λ u same. list_items-Agrees n u (subst (Here es i t j) same here2)))

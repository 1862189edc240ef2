-- ===== src/Ply/Callbacks/Coherent.antt =====
-- The loops of `ply_process_with_callbacks` and those that are meant.
use tom_libs.Common.{
  if◌then◌else◌, length, ℕ, zero, suc, ◌+◌, ◌<◌, ◌≡◌, refl, sym, ap, subst, Bool, true, false, some,
  List, [], ◌∷◌, arith,
}
use tom_libs.Ply.Types.{Parse, ok, failed, fault, stale, out_of_fuel, Property, Element}
use tom_libs.Ply.Header.{Input}
use tom_libs.Ply.Access.{nth}
use tom_libs.Ply.Scalar.{Scalar}
use tom_libs.Ply.Scalar.Read.{CLibrary}
use tom_libs.Ply.Stream.{Stream, stream_value}
use tom_libs.Ply.Stream.Places.{IsShape}
use tom_libs.Ply.Callbacks.{
  Handler, Run, length_of, notify, notify_with, notify_two, list_items, on_list, on_value,
  tuple_values, element_tuples,
}
use tom_libs.Ply.Callbacks.Reference.{
  value_by, items_by, list_by, on_value_by, values_by, tuples_by,
}
use tom_libs.Ply.Callbacks.Agree.{
  Ensures, Agrees, Agrees-bind, Here, Ready, Ready-property, Ready-tuple,
}
use tom_libs.Ply.Callbacks.Values.{
  SameStream, notify-same, notify_with-same, notify_two-same, stream_value-Agrees,
  list_items-Agrees,
}

-- A result whose parser is as it was
after_call :
    {S : Type 0} {es : List Element} {i t j : ℕ} (m : Parse (Run S)) (r : Run S)
    → Here es i t j r.stream
    → Agrees (SameStream r) m m
    → Agrees (λ (u : Run S). Here es i t j u.stream) m m
after_call {es = es} {i = i} {t = t} {j = j} (ok u) r here (e, same) =
    (refl, subst (Here es i t j) same here)
after_call (failed e) r here h = (refl, tt)
after_call fault r here h = (refl, tt)
after_call stale r here h = (refl, tt)
after_call out_of_fuel r here h = (refl, tt)

module _ (es : List Element) (shape : IsShape es) (lib : CLibrary) {S : Type 0}
    (h : Handler S) where
  module _ (i : ℕ) (e : Element) (there : nth es i ≡ some e) where
    module _ (t j : ℕ) (x : Property) (at : nth e.properties j ≡ some x) where
      on_list-Agrees :
          (v : Scalar) (r : Run S)
          → Here es i t j r.stream
          → Agrees
              (λ (u : Run S). Here es i t j u.stream)
              (on_list lib h x v r)
              (list_by lib h x v r)
      unfolding on_list
      on_list-Agrees v r here =
          let P : Run S → Type 0 = λ u. Here es i t j u.stream in
          Agrees-bind (λ (n : ℕ). Unit) P (length_of v) (length_of v) _ _ (refl, any (length_of v))
            (λ n _.
              Agrees-bind P P (notify_two h.start_list x n r) (notify_two h.start_list x n r) _ _
                (after_call (notify_two h.start_list x n r) r here
                  (notify_two-same h.start_list x n r))
                (λ u k.
                  Agrees-bind P P (list_items lib h n u) (items_by lib h x n u) _ _
                    (list_items-Agrees es shape lib h i e there t j x at n u k)
                    (λ w l. after_call (notify h.end_list w) w l (notify-same h.end_list w))))
        where
          any : (m : Parse ℕ) → Ensures (λ (n : ℕ). Unit) m
          any (ok n) = tt
          any (failed s) = tt
          any fault = tt
          any stale = tt
          any out_of_fuel = tt

      on_value-Agrees :
          (v : Scalar) (r : Run S)
          → Here es i t j r.stream
          → Agrees
              (λ (u : Run S). Here es i t j u.stream)
              (on_value lib h x v r)
              (on_value_by lib h x v r)
      unfolding on_value
      on_value-Agrees v r here = by_kind x.is_list (on_list-Agrees v r here) (
          after_call (notify_two h.on_scalar_value x v r) r here
            (notify_two-same h.on_scalar_value x v r))
        where
          by_kind :
              (b : Bool) {m n k : Parse (Run S)}
              → Agrees (λ (u : Run S). Here es i t j u.stream) m n
              → Agrees (λ (u : Run S). Here es i t j u.stream) k k
              → Agrees
                  (λ (u : Run S). Here es i t j u.stream)
                  (if b then m else k)
                  (if b then n else k)
          by_kind true p q = p
          by_kind false p q = q

    -- the cursor at the last value of a tuple
    abbrev pub Last : ℕ → Run S → Type 0
    Last t u = (j : ℕ) × (length e.properties ≡ j + 1) × Here es i t j u.stream

    -- the properties from `j` on
    abbrev From : ℕ → List Property → Type 0
    From j xs =
        ((k : ℕ) (x : Property) → nth xs k ≡ some x → nth e.properties (j + k) ≡ some x)
        × (length e.properties ≡ j + length xs)

    From-tail : (j : ℕ) (x : Property) (xs : List Property) → From j (x ∷ xs) → From (j + 1) xs
    unfolding nth
    From-tail j x xs (f, l) = (
      λ k y g.
          let on : j + suc k ≡ j + 1 + k = omega arith in
          subst (λ (m : ℕ). nth e.properties m ≡ some y) on (f (suc k) y g),
      omega (arith, l),
    )

    From-head :
        (j : ℕ) (x : Property) (xs : List Property) → From j (x ∷ xs) → nth e.properties j ≡ some x
    unfolding nth
    From-head j x xs (f, l) =
        let on : j + 0 ≡ j = omega arith in
        subst (λ (m : ℕ). nth e.properties m ≡ some x) on (f 0 x refl)

    value_then :
        (t j : ℕ) (x : Property) (xs : List Property) (r : Run S)
        → nth e.properties j ≡ some x
        → Ready es i t j r.stream
        → ((u : Run S)
            → Here es i t j u.stream
            → Agrees (Last t) (tuple_values lib h xs u) (values_by lib h xs u))
        → Agrees (Last t) (tuple_values lib h (x ∷ xs) r) (values_by lib h (x ∷ xs) r)
    unfolding tuple_values
    value_then t j x xs r at ready next =
        Agrees-bind (λ (z : Scalar × Stream × Input). Here es i t j z.1) _
          (stream_value lib r.stream r.input) (value_by lib x r.stream r.input) _ _
          (stream_value-Agrees es shape lib h i e there t j x at r.stream r.input ready)
          (λ (v, s, more) here.
            Agrees-bind (λ (u : Run S). Here es i t j u.stream) _
              (on_value lib h x v (record r { stream = s; input = more })) _ _ _
              (on_value-Agrees t j x at v (record r { stream = s; input = more }) here) next)

    tuple_values-Agrees :
        (t : ℕ)
        → t < e.num_tuples
        → (j : ℕ) (x : Property) (xs : List Property) (r : Run S) → From j (x ∷ xs)
        → Ready es i t j r.stream
        → Agrees (Last t) (tuple_values lib h (x ∷ xs) r) (values_by lib h (x ∷ xs) r)
    unfolding tuple_values
    tuple_values-Agrees t room j x [] r from ready =
        value_then t j x [] r (From-head j x [] from) ready (λ u here. (refl, (j, from.1, here)))
    tuple_values-Agrees t room j x (y ∷ xs) r from ready =
        value_then t j x (y ∷ xs) r (From-head j x (y ∷ xs) from) ready (λ u here.
          tuple_values-Agrees t room (j + 1) y xs u (From-tail j x (y ∷ xs) from)
            (Ready-property es shape e there room (omega (arith, from.1)) here))

    all_values-Agrees :
        (t : ℕ)
        → t < e.num_tuples
        → (r : Run S) → Ready es i t 0 r.stream
        → Agrees (Last t) (tuple_values lib h e.properties r) (values_by lib h e.properties r)
    all_values-Agrees t room r ready = from_list e.properties refl
      where
        from_list :
            (xs : List Property)
            → e.properties ≡ xs
            → Agrees (Last t) (tuple_values lib h xs r) (values_by lib h xs r)
        from_list [] same = absurd (
            let has = (shape.filled i e there).has_property in
            let none_left : length e.properties ≡ 0 = ap length same in
            omega (arith, has, none_left))
        from_list (x ∷ xs) same =
            tuple_values-Agrees t room 0 x xs r
              (subst
                (λ (ys : List Property).
                  ((k : ℕ) (z : Property) → nth (x ∷ xs) k ≡ some z → nth ys (0 + k) ≡ some z)
                  × (length ys ≡ 0 + length (x ∷ xs)))
                (sym same)
                (
                  λ k z g.
                      let on : k ≡ 0 + k = omega arith in
                      subst (λ (m : ℕ). nth (x ∷ xs) m ≡ some z) on g,
                  omega arith,
                ))
              ready

    -- the cursor at the last value of the element
    abbrev pub Ended : Run S → Type 0
    Ended u = (t : ℕ) × (e.num_tuples ≡ t + 1) × Last t u

    tuple_then :
        (n t : ℕ) (r : Run S)
        → t < e.num_tuples
        → Ready es i t 0 r.stream
        → ((u : Run S)
            → Last t u
            → Agrees Ended (element_tuples lib h e n (t + 1) u) (tuples_by lib h e n (t + 1) u))
        → Agrees Ended (element_tuples lib h e (suc n) t r) (tuples_by lib h e (suc n) t r)
    unfolding element_tuples
    tuple_then n t r room ready next =
        Agrees-bind (SameStream r) _ (notify_with h.start_tuple t r) _ _ _
          (notify_with-same h.start_tuple t r)
          (λ u same.
            Agrees-bind (Last t) _ (tuple_values lib h e.properties u) _ _ _
              (all_values-Agrees t room u (subst (Ready es i t 0) same ready))
              (λ v (j, l, here).
                Agrees-bind (SameStream v) _ (notify h.end_tuple v) _ _ _
                  (notify-same h.end_tuple v)
                  (λ w same2. next w (j, l, subst (Here es i t j) same2 here))))

    element_tuples-Agrees :
        (n t : ℕ) (r : Run S)
        → t + suc n ≡ e.num_tuples
        → Ready es i t 0 r.stream
        → Agrees Ended (element_tuples lib h e (suc n) t r) (tuples_by lib h e (suc n) t r)
    unfolding element_tuples
    element_tuples-Agrees zero t r all ready =
        tuple_then 0 t r (omega (arith, all)) ready
          (λ u last. (refl, (t, omega (arith, all), last)))
    element_tuples-Agrees (suc n) t r all ready =
        tuple_then (suc n) t r (omega (arith, all)) ready (λ u (j, l, here).
          element_tuples-Agrees n (t + 1) u (omega (arith, all))
            (Ready-tuple es shape e there l (omega (arith, all)) here))

    pub all_tuples-Agrees :
        (r : Run S)
        → Ready es i 0 0 r.stream
        → Agrees Ended
            (element_tuples lib h e e.num_tuples 0 r)
            (tuples_by lib h e e.num_tuples 0 r)
    all_tuples-Agrees r ready = from_number e.num_tuples refl
      where
        from_number :
            (n : ℕ)
            → e.num_tuples ≡ n
            → Agrees Ended (element_tuples lib h e n 0 r) (tuples_by lib h e n 0 r)
        from_number zero same =
            absurd (let has = (shape.filled i e there).has_tuple in omega (arith, has, same))
        from_number (suc n) same = element_tuples-Agrees n 0 r (omega (arith, same)) ready

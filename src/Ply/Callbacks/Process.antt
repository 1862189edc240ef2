-- ===== src/Ply/Callbacks/Process.antt =====
-- `ply_process_with_callbacks` and the way it is meant.
use tom_libs.Common.{length, ℕ, suc, ◌+◌, ◌≡◌, refl, sym, ap, subst, some, List, [], ◌∷◌, arith}
use tom_libs.Ply.Types.{Parse, ok, failed, fault, stale, out_of_fuel, Element, Parser}
use tom_libs.Ply.Header.{Input}
use tom_libs.Ply.Access.{nth}
use tom_libs.Ply.Scalar.Read.{CLibrary}
use tom_libs.Ply.Stream.{start_streaming}
use tom_libs.Ply.Stream.Places.{IsShape}
use tom_libs.Ply.Callbacks.{
  Handler, Run, notify, notify_with, element_tuples, all_elements, process_with_callbacks,
}
use tom_libs.Ply.Callbacks.Reference.{elements_by}
use tom_libs.Ply.Callbacks.Agree.{
  Ensures, Agrees, Agrees-bind, Here, Ready, Ready-element, Ready-first,
}
use tom_libs.Ply.Callbacks.Values.{SameStream, notify-same, notify_with-same}
use tom_libs.Ply.Callbacks.Coherent.{Ended, all_tuples-Agrees}

module _ (es : List Element) (shape : IsShape es) (lib : CLibrary) {S : Type 0}
    (h : Handler S) where
  -- the elements from `i` on
  abbrev From : ℕ → List Element → Type 0
  From i rest =
      ((k : ℕ) (e : Element) → nth rest k ≡ some e → nth es (i + k) ≡ some e)
      × (length es ≡ i + length rest)

  From-tail : (i : ℕ) (e : Element) (rest : List Element) → From i (e ∷ rest) → From (i + 1) rest
  unfolding nth
  From-tail i e rest (f, l) = (
    λ k y g.
        let on : i + suc k ≡ i + 1 + k = omega arith in
        subst (λ (m : ℕ). nth es m ≡ some y) on (f (suc k) y g),
    omega (arith, l),
  )

  From-head : (i : ℕ) (e : Element) (rest : List Element) → From i (e ∷ rest) → nth es i ≡ some e
  unfolding nth
  From-head i e rest (f, l) =
      let on : i + 0 ≡ i = omega arith in subst (λ (m : ℕ). nth es m ≡ some e) on (f 0 e refl)

  abbrev Any : Run S → Type 0
  Any u = Unit

  any : (m : Parse (Run S)) → Ensures Any m
  any (ok u) = tt
  any (failed s) = tt
  any fault = tt
  any stale = tt
  any out_of_fuel = tt

  element_then :
      (i : ℕ) (e : Element) (there : nth es i ≡ some e) (rest : List Element) (r : Run S)
      → Ready es i 0 0 r.stream
      → ((u : Run S)
          → Ended es shape lib h i e there u
          → Agrees Any (all_elements lib h rest u) (elements_by lib h rest u))
      → Agrees Any (all_elements lib h (e ∷ rest) r) (elements_by lib h (e ∷ rest) r)
  unfolding all_elements
  element_then i e there rest r ready next =
      Agrees-bind (SameStream r) _ (notify_with h.start_element e r) _ _ _
        (notify_with-same h.start_element e r)
        (λ u same.
          Agrees-bind (Ended es shape lib h i e there) _ (element_tuples lib h e e.num_tuples 0 u) _
            _ _ (all_tuples-Agrees es shape lib h i e there u (subst (Ready es i 0 0) same ready))
            (λ v (t, k, (j, l, here)).
              Agrees-bind (SameStream v) _ (notify h.end_element v) _ _ _
                (notify-same h.end_element v)
                (λ w same2. next w (t, k, (j, l, subst (Here es i t j) same2 here)))))

  all_elements-Agrees :
      (i : ℕ) (e : Element) (rest : List Element) (r : Run S)
      → From i (e ∷ rest)
      → Ready es i 0 0 r.stream
      → Agrees Any (all_elements lib h (e ∷ rest) r) (elements_by lib h (e ∷ rest) r)
  unfolding all_elements
  all_elements-Agrees i e [] r from ready =
      element_then i e (From-head i e [] from) [] r ready (λ u ended. (refl, tt))
  all_elements-Agrees i e (e2 ∷ rest) r from ready =
      let there = From-head i e (e2 ∷ rest) from in
      element_then i e there (e2 ∷ rest) r ready (λ u (t, k, (j, l, here)).
        all_elements-Agrees (i + 1) e2 rest u (From-tail i e (e2 ∷ rest) from)
          (Ready-element es shape e there l k (omega (arith, from.1)) here))

  elements-Agrees :
      (r : Run S)
      → Ready es 0 0 0 r.stream
      → Agrees Any (all_elements lib h es r) (elements_by lib h es r)
  elements-Agrees r ready = from_list es refl
    where
      from_list :
          (fs : List Element)
          → es ≡ fs
          → Agrees Any (all_elements lib h fs r) (elements_by lib h fs r)
      from_list [] same = absurd (
          let has = shape.has_element in
          let none_left : length es ≡ 0 = ap length same in omega (arith, has, none_left))
      from_list (e ∷ rest) same =
          all_elements-Agrees 0 e rest r
            (subst
              (λ (gs : List Element).
                ((k : ℕ) (z : Element) → nth (e ∷ rest) k ≡ some z → nth gs (0 + k) ≡ some z)
                × (length gs ≡ 0 + length (e ∷ rest)))
              (sym same)
              (
                λ k z g.
                    let on : k ≡ 0 + k = omega arith in
                    subst (λ (m : ℕ). nth (e ∷ rest) m ≡ some z) on g,
                omega arith,
              ))
            ready

-- If each element has a tuple and a property, `ply_process_with_callbacks` does, with every handler
-- and every input, what it does where each value, and each item of a list, is read by the property
-- that the callback is given, in place of the one that the streaming interface keeps.
pub process_with_callbacks-elements_by :
    {S : Type 0} (lib : CLibrary) (h : Handler S) (p : Parser) (input : Input) (user : S)
    → IsShape p.elements
    → process_with_callbacks lib h p input user
      ≡ elements_by lib h p.elements
          (record { stream = start_streaming p; input = input; user = user })
unfolding process_with_callbacks
process_with_callbacks-elements_by lib h p input user shape =
    (elements-Agrees p.elements shape lib h
      (record { stream = start_streaming p; input = input; user = user }) (Ready-first p shape)).0

-- ===== src/Rcon/Send/Laws.antt =====
-- The fragments of `rcon_send` make up the payload, and each packet fits the receiver's buffer.
use mathlib.Core.List.{flatten}
use tom_libs.Common.{
  ◌==◌, Bool-cases, length, length-append, take, drop, take-append-drop, length-take, length-drop,
  ℕ, zero, suc, ◌+◌, ◌≤◌, ◌<◌, min, ◌≡◌, refl, sym, ap, ◌∙◌, subst, inl, inr, List, [], ◌∷◌, ◌++◌,
  map, arith,
}
use tom_libs.Rcon.Bytes.{write_i32}
use tom_libs.Rcon.State.{buffer_size, Action, sent}
use tom_libs.Rcon.Send.{max_fragment, packet, fragments, send}

abbrev pub All {ℓ κ} : {A : Type ℓ} → (A → Type κ) → List A → Type κ
All P [] = Unit
All P (x ∷ xs) = P x × All P xs

nil_of_length : (xs : List ℕ) → length xs ≡ 0 → xs ≡ []
nil_of_length [] h = refl
nil_of_length (x ∷ xs) h = absurd (omega arith)

fragments-flatten :
    (k : ℕ) (payload : List ℕ) → length payload < k → flatten (fragments k payload) ≡ payload
unfolding fragments flatten
fragments-flatten zero payload h = absurd (omega arith)
fragments-flatten (suc k) payload h =
    let n = min max_fragment (length payload) in
    elim (Bool-cases (length (drop n payload) == 0)) [
      | inl e ↦
          let none_left : drop n payload ≡ [] =
            nil_of_length (drop n payload) (ground (arith, e)) in
          rw e
            (ap (λ (t : List ℕ). take n payload ++ t) (sym none_left) ∙ take-append-drop n payload)
      | inr e ↦
          let shorter : length (drop n payload) < k = ground (arith, length-drop n payload, e) in
          rw (e, fragments-flatten k (drop n payload) shorter) (take-append-drop n payload)
    ]

packet-length : (rid type : ℕ) (frag : List ℕ) → length (packet rid type frag) ≡ length frag + 14
unfolding packet write_i32
packet-length rid type frag = omega (arith, length-append frag (0 ∷ 0 ∷ []))

fragments-bounded :
    (rid type k : ℕ) (payload : List ℕ)
    → All (λ frag. length (packet rid type frag) ≤ buffer_size) (fragments k payload)
unfolding fragments flatten
fragments-bounded rid type zero payload = tt
fragments-bounded rid type (suc k) payload =
    let n = min max_fragment (length payload) in
    let short : length (packet rid type (take n payload)) ≤ buffer_size =
      omega (arith, packet-length rid type (take n payload), length-take n payload) in
    elim (Bool-cases (length (drop n payload) == 0)) [
      | inl e ↦ rw e (short, tt)
      | inr e ↦ rw e (short, fragments-bounded rid type k (drop n payload))
    ]

-- The bytes of a packet: its size, the id of the request and the type, each least byte first, the
-- fragment, and two NULs.
abbrev pub layout : ℕ → ℕ → List ℕ → List ℕ
layout rid type frag =
    write_i32 (length frag + 10) ++ write_i32 rid ++ write_i32 type ++ frag ++ 0 ∷ 0 ∷ []

packet-layout : (rid type : ℕ) (frag : List ℕ) → packet rid type frag ≡ layout rid type frag
unfolding packet write_i32
packet-layout rid type frag = refl

map-layout :
    (cidx rid type : ℕ) (frags : List (List ℕ))
    → map (λ frag. sent cidx (packet rid type frag)) frags
      ≡ map (λ frag. sent cidx (layout rid type frag)) frags
map-layout cidx rid type [] = refl
map-layout cidx rid type (frag ∷ frags) =
    ap (λ (b : List ℕ). sent cidx b ∷ map (λ f. sent cidx (packet rid type f)) frags)
      (packet-layout rid type frag)
    ∙ ap (λ (l : List Action). sent cidx (layout rid type frag) ∷ l)
        (map-layout cidx rid type frags)

bounded-layout :
    (rid type : ℕ) (frags : List (List ℕ))
    → All (λ frag. length (packet rid type frag) ≤ buffer_size) frags
    → All (λ frag. length (layout rid type frag) ≤ buffer_size) frags
bounded-layout rid type [] h = tt
bounded-layout rid type (frag ∷ frags) (h, hs) = (
  subst (λ (b : List ℕ). length b ≤ buffer_size) (packet-layout rid type frag) h,
  bounded-layout rid type frags hs,
)

-- `rcon_send` sends one packet for each of some fragments, in order: its size, the request, the type,
-- the bytes of the fragment and two NULs. The fragments make up the payload, whatever its length
-- is, and no packet is longer than the buffer of a receiver.
pub send_lem :
    (cidx rid type : ℕ) (payload : List ℕ)
    → (frags : List (List ℕ)) × (send cidx rid type payload
        ≡ map (λ frag. sent cidx (layout rid type frag)) frags)
      × (flatten frags ≡ payload)
      × All (λ frag. length (layout rid type frag) ≤ buffer_size) frags
unfolding send
send_lem cidx rid type payload =
    let frags = fragments (suc (length payload)) payload in
    (
      frags,
      map-layout cidx rid type frags,
      fragments-flatten (suc (length payload)) payload (omega arith),
      bounded-layout rid type frags (fragments-bounded rid type (suc (length payload)) payload),
    )

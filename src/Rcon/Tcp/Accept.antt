-- ===== src/Rcon/Tcp/Accept.antt =====
-- Where `rcon_tcp_accept` puts a connection.
use tom_libs.Common.{
  get_elem?, set, get_or, ℕ, zero, suc, ◌+◌, ◌≡◌, refl, subst, Option, none, some, [], ◌∷◌, arith,
}
use tom_libs.Rcon.Error.{errsrc_proto, box_error}
use tom_libs.Rcon.Wait.{reply, refused}
use tom_libs.Rcon.Tcp.{Poll, Block, gave, free_slot, Accepted, no_poll, place, tcp_accept}

-- A connection goes to a slot that is free, not that of the listener, and to that only; or all slots
-- are taken, and it is closed.
pub data Settled (listener : Poll) (slots : Block) (fd : ℕ) : Accepted → Type 0 where
  in_slot :
      (i : ℕ) (p : Poll)
      → get_elem? slots i ≡ some p
      → p.fd ≡ none
      → Settled listener slots fd (record {
        result = reply (suc i);
        block = listener ∷ set slots i (record { fd = some fd; readable = p.readable });
        closes = [];
      })
  turned_away :
      ((i : ℕ) (p : Poll) → get_elem? slots i ≡ some p → (d : ℕ) × (p.fd ≡ some d))
      → Settled listener slots fd (record {
        result = refused (box_error errsrc_proto 1);
        block = listener ∷ slots;
        closes = fd ∷ [];
      })

-- A slot that is free, counted from `idx` on, or that there is none.
pub data Searched (slots : Block) (idx : ℕ) : Option ℕ → Type 0 where
  slot_at :
      (i : ℕ) (p : Poll)
      → get_elem? slots i ≡ some p
      → p.fd ≡ none
      → Searched slots idx (some (idx + i))
  none_free :
      ((i : ℕ) (p : Poll) → get_elem? slots i ≡ some p → (d : ℕ) × (p.fd ≡ some d))
      → Searched slots idx none

free_slot-Searched : (slots : Block) (idx : ℕ) → Searched slots idx (free_slot slots idx)
unfolding free_slot
free_slot-Searched [] idx = none_free (λ i p h. absurd cc)
free_slot-Searched (q ∷ slots) idx = by_descriptor q.fd refl (free_slot-Searched slots (idx + 1))
  where
    later :
        (d : ℕ)
        → q.fd ≡ some d
        → {o : Option ℕ} → Searched slots (idx + 1) o
        → Searched (q ∷ slots) idx o
    later d e (slot_at i p h g) =
        subst (λ (k : ℕ). Searched (q ∷ slots) idx (some k)) {x = idx + suc i} (omega arith)
          (slot_at (suc i) p h g)
    later d e (none_free all) = none_free each
      where
        each : (i : ℕ) (p : Poll) → get_elem? (q ∷ slots) i ≡ some p → (d : ℕ) × (p.fd ≡ some d)
        each zero p h = subst (λ (r : Poll). (d : ℕ) × (r.fd ≡ some d)) {x = q} {y = p} (cc) (d, e)
        each (suc i) p h = all i p h

    by_descriptor :
        (o : Option ℕ)
        → q.fd ≡ o
        → Searched slots (idx + 1) (free_slot slots (idx + 1))
        → Searched
            (q ∷ slots)
            idx
            (elim o [ none ↦ some idx | some fd ↦ free_slot slots (idx + 1) ])
    by_descriptor none e found =
        subst (λ (k : ℕ). Searched (q ∷ slots) idx (some k)) {x = idx + 0} (omega arith)
          (slot_at 0 q refl e)
    by_descriptor (some d) e found = later d e found

get_or-some :
    (slots : Block) (i : ℕ) {p : Poll} → get_elem? slots i ≡ some p → p ≡ get_or slots i no_poll
get_or-some [] i h = absurd cc
get_or-some (q ∷ slots) zero h = cc
get_or-some (q ∷ slots) (suc i) h = get_or-some slots i h

place-Settled :
    (listener : Poll) (slots : Block) (fd : ℕ) (o : Option ℕ)
    → Searched slots 1 o
    → Settled listener slots fd (place (listener ∷ slots) fd o)
unfolding place
place-Settled listener slots fd none (none_free all) = turned_away all
place-Settled listener slots fd (some k) (slot_at i p h e) =
    let here : suc i ≡ 1 + i = omega arith in
    subst (λ (m : ℕ). Settled listener slots fd (place (listener ∷ slots) fd (some m))) here
      (subst
        (λ (r : Poll). Settled listener slots fd (record {
          result = reply (suc i);
          block = listener ∷ set slots i (record { fd = some fd; readable = r.readable });
          closes = [];
        }))
        (get_or-some slots i h) (in_slot i p h e))

-- `rcon_tcp_accept` of a connection puts it in a slot that is free, which is not the listener's and
-- lies within the block, leaves the others alone and returns the number of the slot; if all are
-- taken, it closes the connection and returns an error.
pub tcp_accept-Settled :
    (listener : Poll) (slots : Block) (fd : ℕ)
    → Settled listener slots fd (tcp_accept (gave fd) (listener ∷ slots))
unfolding tcp_accept
tcp_accept-Settled listener slots fd =
    place-Settled listener slots fd (free_slot slots 1) (free_slot-Searched slots 1)

-- ===== src/Rcon/Fetch/Packet.antt =====
-- One round of the loop on a client.
use tom_libs.Common.Ints.{int_lt}
use tom_libs.Common.{
  ltb, ◌==◌, Bool-cases, take, drop, ℕ, ◌+◌, ◌-◌, ◌≤◌, ◌<◌, ◌≡◌, refl, ap, ◌∙◌, ◌⊎◌, inl, inr, true,
  false, Option, some, List, arith,
}
use tom_libs.Rcon.Secret.{streq_consttime}
use tom_libs.Rcon.State.{Client, Action, Outcome, done, fault, out_of_fuel, consume}
use tom_libs.Rcon.Fetch.{
  serverdata_auth, serverdata_execcommand, nothing, command, failed, Turn, again, breaks, returns,
  reads_past, next_round, authenticate, execute, echo, dispatch, read_length, read_head, handle,
}
use tom_libs.Rcon.Fetch.Buffer.{BufferInv, consume-done, shifted-front, shifted-BufferInv}

-- An authenticated client was so before, or it has sent an authentication packet with the password.
abbrev pub Earned : Option (List ℕ) → Client → Client → Type 0
Earned password c d =
    (d.authd ≡ true)
    → (c.authd ≡ true)
      ⊎ (((read_head c).packet_type ≡ serverdata_auth)
          × (streq_consttime (some (drop 12 c.buffer)) password ≡ true))

-- A packet of at least 10 bytes that is there as a whole
abbrev pub Whole : Client → Type 0
Whole c = (10 ≤ c.packet_length) × (c.packet_length ≤ c.recvd)

-- the client with its packet parsed
abbrev pub parsed : Client → Client
parsed c = read_head (read_length c)

-- The two places where a whole packet leads to undefined behaviour: a password that is sent with no
-- NUL up to the end of the buffer, and a packet of no known type that is too short for a payload.
abbrev pub IsHazard : Option (List ℕ) → Client → Type 0
IsHazard password c =
    Whole c
    × (((c.packet_type ≡ serverdata_auth) × (reads_past (drop 12 c.buffer) password ≡ true))
        ⊎ (((c.packet_type == serverdata_auth) ≡ false)
            × ((c.packet_type == serverdata_execcommand) ≡ false)
            × (c.packet_length < 14)))

-- What a round makes of a client
abbrev pub TurnOk : Option (List ℕ) → ℕ → Client → Outcome Turn → Type 0
TurnOk password cidx c (done (again d acts)) =
    BufferInv d
    × (d.recvd + (parsed c).packet_length ≡ c.recvd)
    × (take d.recvd d.buffer ≡ take d.recvd (drop (parsed c).packet_length c.buffer))
    × (d.recvd < c.recvd)
    × (d.in_use ≡ c.in_use)
    × (d.in_cmd ≡ c.in_cmd)
    × Earned password c d
TurnOk password cidx c (done (breaks d acts)) =
    BufferInv d × (d.in_use ≡ c.in_use) × (d.in_cmd ≡ c.in_cmd) × (d.authd ≡ c.authd)
TurnOk password cidx c (done (returns nothing d acts)) = ⊥
TurnOk password cidx c (done (returns (failed e) d acts)) =
    BufferInv d × (d.in_use ≡ c.in_use) × (d.in_cmd ≡ c.in_cmd) × (d.authd ≡ c.authd)
TurnOk password cidx c (done (returns (command i text) d acts)) =
    BufferInv d
    × (d.in_use ≡ c.in_use)
    × (d.in_cmd ≡ true)
    × (d.authd ≡ c.authd)
    × (c.authd ≡ true)
    × (i ≡ cidx)
    × (text ≡ drop 12 d.buffer)
TurnOk password cidx c fault = IsHazard password (parsed c)
TurnOk password cidx c out_of_fuel = ⊥

parsed-BufferInv : (c : Client) → BufferInv c → c.in_cmd ≡ false → BufferInv (parsed c)
unfolding read_length read_head
parsed-BufferInv c inv at_rest = record {
  whole = inv.whole;
  within = inv.within;
  held = λ h. absurd cc;
}

-- A packet that is there as a whole is taken away.
next_round-TurnOk :
    (password : Option (List ℕ)) (cidx : ℕ) (c d : Client) (acts : List Action)
    → BufferInv d
    → d.in_cmd ≡ false
    → Whole d
    → (d.recvd ≡ c.recvd) × (d.packet_length ≡ (parsed c).packet_length) × (d.buffer ≡ c.buffer)
    → (d.in_use ≡ c.in_use) × (d.in_cmd ≡ c.in_cmd)
    → Earned password c d
    → TurnOk password cidx c (next_round acts (consume d.packet_length d))
unfolding next_round
next_round-TurnOk password cidx c d acts inv at_rest (low, fits) (r, l, b) (used, busy) earned =
    rw (consume-done d.packet_length d fits) (
      shifted-BufferInv d.packet_length d inv at_rest,
      omega (arith, r, l, low, fits),
      shifted-front d.packet_length d inv fits
          ∙ ap (λ (k : ℕ). take (d.recvd - d.packet_length) (drop k d.buffer)) l
          ∙ ap
              (λ (bytes : List ℕ).
                take (d.recvd - d.packet_length) (drop (parsed c).packet_length bytes))
              b,
      omega (arith, r, low, fits),
      used,
      busy,
      earned,
    )

authenticate-TurnOk :
    (password : Option (List ℕ)) (cidx : ℕ) (c : Client)
    → BufferInv c
    → c.in_cmd ≡ false
    → Whole (parsed c)
    → (parsed c).packet_type ≡ serverdata_auth
    → TurnOk password cidx c (authenticate password cidx (parsed c))
unfolding authenticate read_length read_head
authenticate-TurnOk password cidx c inv at_rest whole t =
    let same = parsed-BufferInv c inv at_rest in
    let known : BufferInv (record (parsed c) { authd = true }) = record {
      whole = inv.whole;
      within = inv.within;
      held = λ h. absurd cc;
    } in
    elim (Bool-cases (reads_past (drop 12 c.buffer) password)) [
      | inl e ↦ rw e (whole, inl (t, e))
      | inr n ↦ elim (Bool-cases (streq_consttime (some (drop 12 c.buffer)) password)) [
        | inl e ↦
            rw (n, e)
              (next_round-TurnOk password cidx c (record (parsed c) { authd = true }) _ known
                at_rest whole (refl, refl, refl) (refl, refl) (λ h. inr (t, e)))
        | inr e ↦
            rw (n, e)
              (next_round-TurnOk password cidx c (parsed c) _ same at_rest whole (refl, refl, refl)
                (refl, refl) (λ h. inl h))
      ]
    ]

execute-TurnOk :
    (password : Option (List ℕ)) (cidx : ℕ) (c : Client)
    → BufferInv c
    → c.in_cmd ≡ false
    → Whole (parsed c)
    → TurnOk password cidx c (execute cidx (parsed c))
unfolding execute read_length read_head
execute-TurnOk password cidx c inv at_rest whole = elim (Bool-cases c.authd) [
  | inl e ↦ rw e (
    record { whole = inv.whole; within = inv.within; held = λ h. whole.1 },
    refl,
    refl,
    refl,
    refl,
    refl,
    refl,
  )
  | inr e ↦
      rw e
        (record { whole = inv.whole; within = inv.within; held = λ h. absurd cc }, refl, refl, refl)
]

echo-TurnOk :
    (password : Option (List ℕ)) (cidx : ℕ) (c : Client)
    → BufferInv c
    → c.in_cmd ≡ false
    → Whole (parsed c)
    → ((parsed c).packet_type == serverdata_auth) ≡ false
    → ((parsed c).packet_type == serverdata_execcommand) ≡ false
    → TurnOk password cidx c (echo cidx (parsed c))
unfolding echo read_length read_head
echo-TurnOk password cidx c inv at_rest whole other none_such =
    elim (Bool-cases (int_lt (parsed c).packet_length 14)) [
      | inl e ↦ rw e (whole, inr (other, none_such, ground (arith, e, whole, inv.within)))
      | inr e ↦ rw e (
          next_round-TurnOk password cidx c (parsed c) _ (parsed-BufferInv c inv at_rest) at_rest
            whole (refl, refl, refl) (refl, refl) (λ h. inl h))
    ]

dispatch-TurnOk :
    (password : Option (List ℕ)) (cidx : ℕ) (c : Client)
    → BufferInv c
    → c.in_cmd ≡ false
    → Whole (parsed c)
    → TurnOk password cidx c (dispatch password cidx (parsed c))
unfolding dispatch
dispatch-TurnOk password cidx c inv at_rest whole =
    elim (Bool-cases ((parsed c).packet_type == serverdata_auth)) [
      | inl e ↦ rw e (authenticate-TurnOk password cidx c inv at_rest whole (ground (arith, e)))
      | inr a ↦ elim (Bool-cases ((parsed c).packet_type == serverdata_execcommand)) [
        | inl e ↦ rw (a, e) (execute-TurnOk password cidx c inv at_rest whole)
        | inr e ↦ rw (a, e) (echo-TurnOk password cidx c inv at_rest whole a e)
      ]
    ]

-- Sizes that are compared as `int`
Whole-packet :
    (c : Client)
    → BufferInv c
    → int_lt c.recvd (read_length c).packet_length ≡ false
    → int_lt (read_length c).packet_length 10 ≡ false
    → Whole (parsed c)
unfolding read_length read_head
Whole-packet c inv a b = ground (arith, inv.within)

pub handle-TurnOk :
    (password : Option (List ℕ)) (cidx : ℕ) (c : Client)
    → BufferInv c
    → c.in_cmd ≡ false
    → TurnOk password cidx c (handle password cidx c)
unfolding handle
handle-TurnOk password cidx c inv at_rest =
    let same : BufferInv (read_length c) = record {
      whole = inv.whole;
      within = inv.within;
      held = λ h. absurd cc;
    } in
    elim (Bool-cases (ltb c.recvd 4)) [
      | inl e ↦ rw e (inv, refl, refl, refl)
      | inr n ↦ elim (Bool-cases (int_lt c.recvd (read_length c).packet_length)) [
        | inl e ↦ rw (n, e) (same, refl, refl, refl)
        | inr a ↦ elim (Bool-cases (int_lt (read_length c).packet_length 10)) [
          | inl e ↦ rw (n, a, e) (same, refl, refl, refl)
          | inr b ↦
              rw (n, a, b) (dispatch-TurnOk password cidx c inv at_rest (Whole-packet c inv a b))
        ]
      ]
    ]

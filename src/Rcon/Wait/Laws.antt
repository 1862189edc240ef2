-- ===== src/Rcon/Wait/Laws.antt =====
-- What `rcon_wait_for_input` keeps of the clients.
use tom_libs.Common.{
  ltb, Bool-cases, length, set, get_or, ℕ, zero, suc, ◌+◌, ◌-◌, ◌≤◌, ◌≡◌, refl, inl, inr, true,
  none, some, List, [], ◌∷◌, arith,
}
use tom_libs.Rcon.State.{buffer_size, Client, Action, closed, Rcon, no_client, drop_client}
use tom_libs.Rcon.Send.Laws.{All}
use tom_libs.Rcon.Fetch.Buffer.{BufferInv}
use tom_libs.Rcon.Fetch.Laws.{Pairwise}
use tom_libs.Rcon.Wait.{
  Reply, reply, refused, Io, Waited, waited, overran, append_bytes, wait_more, take_input, receive,
  connect, accept_client, after_receive, after_wait, wait_for_input,
}
use tom_libs.Rcon.Wait.Newcomers.{Newcomers, after_wait-Newcomers}
use tom_libs.Rcon.Wait.Heard.{Heard, trans_all, same-Heard, All-same, dropped, appended}

-- `cb_recv` writes no more than there is room.
abbrev pub RecvFits : Io → Type 0
RecvFits io = (i room : ℕ) (bytes : List ℕ) → io.recv i room ≡ reply bytes → length bytes ≤ room

-- `cb_accept` gives the number of a client.
abbrev pub AcceptFits : Io → List Client → Type 0
AcceptFits io cs = (n : ℕ) → io.accept ≡ reply n → n ≤ length cs

abbrev pub WaitOk : List Client → Waited → Type 0
WaitOk cs (waited e ds acts) = Pairwise Heard cs ds
WaitOk cs overran = ⊥

wait_more-WaitOk :
    (c d : Client) (cs : List Client) (acts : List Action) (w : Waited)
    → Heard c d
    → WaitOk cs w
    → WaitOk (c ∷ cs) (wait_more d acts w)
unfolding wait_more
wait_more-WaitOk c d cs acts (waited e ds more) h ok = (h, ok)
wait_more-WaitOk c d cs acts overran h ok = elim ok [ ]

take_input-WaitOk :
    (i : ℕ) (c : Client) (r : Reply (List ℕ)) (cs : List Client) (rest : Waited)
    → BufferInv c
    → All BufferInv cs
    → ((bytes : List ℕ) → r ≡ reply bytes → length bytes ≤ buffer_size - c.recvd)
    → WaitOk cs rest
    → WaitOk (c ∷ cs) (take_input i c r cs rest)
unfolding take_input
take_input-WaitOk i c (refused e) cs rest inv invs fits ok = (dropped c inv, All-same cs invs)
take_input-WaitOk i c (reply []) cs rest inv invs fits ok =
    wait_more-WaitOk c (drop_client c) cs (closed (i + 1) ∷ []) rest (dropped c inv) ok
take_input-WaitOk i c (reply (b ∷ bs)) cs rest inv invs fits ok =
    wait_more-WaitOk c (append_bytes (b ∷ bs) c) cs [] rest
      (appended (b ∷ bs) c inv (fits (b ∷ bs) refl)) ok

receive-WaitOk :
    (io : Io) (i : ℕ) (cs : List Client)
    → RecvFits io
    → All BufferInv cs
    → WaitOk cs (receive io i cs)
unfolding receive
receive-WaitOk io i [] fits inv = tt
receive-WaitOk io i (c ∷ cs) fits (inv, invs) =
    let rest : WaitOk cs (receive io (suc i) cs) = receive-WaitOk io (suc i) cs fits invs in
    let skipped = wait_more-WaitOk c c cs [] (receive io (suc i) cs) (same-Heard c inv) rest in
    elim (Bool-cases c.in_use) [
      | inr e ↦ simp e skipped
      | inl used ↦ elim (Bool-cases (io.hasdata (i + 1))) [
        | inr e ↦ simp (used, e) skipped
        | inl e ↦
            simp (used, e)
              (take_input-WaitOk i c (io.recv (i + 1) (buffer_size - c.recvd)) cs
                (receive io (suc i) cs) inv invs (fits (i + 1) (buffer_size - c.recvd)) rest)
      ]
    ]

connected : (c : Client) → BufferInv c → Heard c (connect c)
unfolding connect
connected c inv = record {
  buffer_ok = record { whole = inv.whole; within = omega arith; held = λ h. absurd cc };
  not_gained = λ a. cc;
  fresh = λ u v. refl;
}

set_connected :
    (cs : List Client) (i : ℕ)
    → All BufferInv cs
    → Pairwise Heard cs (set cs i (connect (get_or cs i no_client)))
set_connected [] i inv = tt
set_connected (c ∷ cs) zero (inv, invs) = (connected c inv, All-same cs invs)
set_connected (c ∷ cs) (suc i) (inv, invs) = (same-Heard c inv, set_connected cs i invs)

Pairwise-All : (cs ds : List Client) → Pairwise Heard cs ds → All BufferInv ds
Pairwise-All [] [] h = tt
Pairwise-All (c ∷ cs) (d ∷ ds) (h, hs) = (h.buffer_ok, Pairwise-All cs ds hs)
Pairwise-All [] (d ∷ ds) h = elim h [ ]
Pairwise-All (c ∷ cs) [] h = elim h [ ]

same_length : (cs ds : List Client) → Pairwise Heard cs ds → length cs ≡ length ds
same_length [] [] h = refl
same_length (c ∷ cs) (d ∷ ds) (h, hs) = omega (arith, same_length cs ds hs)
same_length [] (d ∷ ds) h = elim h [ ]
same_length (c ∷ cs) [] h = elim h [ ]

accept_client-WaitOk :
    (r : Reply ℕ) (cs : List Client) (acts : List Action)
    → All BufferInv cs
    → ((n : ℕ) → r ≡ reply n → n ≤ length cs)
    → WaitOk cs (accept_client r cs acts)
unfolding accept_client
accept_client-WaitOk (refused e) cs acts inv fits = All-same cs inv
accept_client-WaitOk (reply zero) cs acts inv fits = All-same cs inv
accept_client-WaitOk (reply (suc i)) cs acts inv fits =
    let low : ltb i (length cs) ≡ true = ground (arith, fits (suc i) refl) in
    rw low (set_connected cs i inv)

WaitOk-trans : (cs ds : List Client) (w : Waited) → Pairwise Heard cs ds → WaitOk ds w → WaitOk cs w
WaitOk-trans cs ds (waited e es acts) p q = trans_all cs ds es p q
WaitOk-trans cs ds overran p q = elim q [ ]

after_receive-WaitOk :
    (io : Io) (cs : List Client) (w : Waited)
    → AcceptFits io cs
    → WaitOk cs w
    → WaitOk cs (after_receive io w)
unfolding after_receive
after_receive-WaitOk io cs overran fits h = elim h [ ]
after_receive-WaitOk io cs (waited (some e) ds acts) fits h = h
after_receive-WaitOk io cs (waited none ds acts) fits h = elim (Bool-cases (io.hasdata 0)) [
  | inl e ↦ rw e (
      WaitOk-trans cs ds (accept_client io.accept ds acts) h (
        accept_client-WaitOk io.accept ds acts (Pairwise-All cs ds h)
          (λ n e. omega (arith, fits n e, same_length cs ds h))))
  | inr e ↦ rw e h
]

after_wait-WaitOk :
    (io : Io) (r : Reply ℕ) (rc : Rcon)
    → RecvFits io
    → AcceptFits io rc.clients
    → All BufferInv rc.clients
    → WaitOk rc.clients (after_wait io r rc)
unfolding after_wait
after_wait-WaitOk io (refused e) rc fits slot inv = All-same rc.clients inv
after_wait-WaitOk io (reply zero) rc fits slot inv = All-same rc.clients inv
after_wait-WaitOk io (reply (suc s)) rc fits slot inv =
    after_receive-WaitOk io rc.clients (receive io 0 rc.clients) slot
      (receive-WaitOk io 0 rc.clients fits inv)

-- If `cb_recv` writes no more than it is given room and `cb_accept` gives no number beyond the
-- clients, `rcon_wait_for_input` writes within the array of clients and keeps every buffer within its
-- bounds, however it ends. It authenticates no client. A client that comes into use is the one whose
-- number `cb_accept` gave, and it is not authenticated, whatever it was before.
pub wait_for_input_lem :
    (io : Io) (rc : Rcon)
    → RecvFits io
    → AcceptFits io rc.clients
    → All BufferInv rc.clients
    → WaitOk rc.clients (wait_for_input io rc)
      × Newcomers io.accept rc.clients (wait_for_input io rc)
unfolding wait_for_input
wait_for_input_lem io rc fits slot inv =
    (after_wait-WaitOk io io.waitany rc fits slot inv, after_wait-Newcomers io io.waitany rc)

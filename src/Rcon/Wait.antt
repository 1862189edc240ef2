-- ===== src/Rcon/Wait.antt =====
-- `rcon_wait_for_input` of tom_rcon.h. The callbacks are parameters: each is asked at most once in
-- a call for each connection.
pub mod Heard
pub mod Laws
pub mod Newcomers
use tom_libs.Common.{
  ltb, if◌then◌else◌, length, set, get_or, take, drop, ℕ, zero, suc, ◌+◌, ◌-◌, Bool, true, false,
  not, Option, none, some, List, [], ◌∷◌, ◌++◌,
}
use tom_libs.Rcon.State.{buffer_size, Client, Action, closed, Rcon, no_client, drop_client}

-- `cb_waitany`, `cb_recv` and `cb_accept` fail with a negative code, given here by its magnitude.
pub data Reply {ℓ} (A : Type ℓ) : Type ℓ where
  reply : A → Reply A
  refused : ℕ → Reply A

-- what the callbacks answer in this call
pub record Io : Type 0 where
  pub waitany : Reply ℕ
  pub hasdata : ℕ → Bool
  -- the connection and the room that is left
  pub recv : ℕ → ℕ → Reply (List ℕ)
  pub accept : Reply ℕ

-- The result of the loop over the clients, or of the call: 0 or an error.
pub data Waited : Type 0 where
  waited : Option ℕ → List Client → List Action → Waited
  overran : Waited

-- `client->recvd += s`, the bytes being in the buffer
unfoldable pub append_bytes : List ℕ → Client → Client
append_bytes bytes c = record c {
  recvd = c.recvd + length bytes;
  buffer = take c.recvd c.buffer ++ (bytes ++ drop (c.recvd + length bytes) c.buffer);
}

unfoldable pub wait_more : Client → List Action → Waited → Waited
wait_more c acts (waited e cs more) = waited e (c ∷ cs) (acts ++ more)
wait_more c acts overran = overran

-- what follows `cb_recv`
unfoldable pub take_input : ℕ → Client → Reply (List ℕ) → List Client → Waited → Waited
unfolding drop_client wait_more append_bytes
take_input i c (refused e) cs rest = waited (some e) (drop_client c ∷ cs) (closed (i + 1) ∷ [])
take_input i c (reply []) cs rest = wait_more (drop_client c) (closed (i + 1) ∷ []) rest
take_input i c (reply (b ∷ bs)) cs rest = wait_more (append_bytes (b ∷ bs) c) [] rest

-- The loop over the clients from index `i` on.
unfoldable pub receive : Io → ℕ → List Client → Waited
unfolding take_input wait_more
receive io i [] = waited none [] []
receive io i (c ∷ cs) =
    let rest = receive io (suc i) cs in
    if not c.in_use
    then wait_more c [] rest
    else if not (io.hasdata (i + 1))
    then wait_more c [] rest
    else take_input i c (io.recv (i + 1) (buffer_size - c.recvd)) cs rest

-- the client of a new connection
unfoldable pub connect : Client → Client
connect c = record c { recvd = 0; in_use = true; authd = false; in_cmd = false }

-- What follows `cb_accept`. An index beyond the array of clients writes out of bounds.
unfoldable pub accept_client : Reply ℕ → List Client → List Action → Waited
unfolding connect
accept_client (refused e) cs acts = waited (some e) cs acts
accept_client (reply zero) cs acts = waited none cs acts
accept_client (reply (suc i)) cs acts =
    if ltb i (length cs)
    then waited none (set cs i (connect (get_or cs i no_client))) acts
    else overran

unfoldable pub after_receive : Io → Waited → Waited
unfolding accept_client
after_receive io (waited (some e) cs acts) = waited (some e) cs acts
after_receive io (waited none cs acts) =
    if io.hasdata 0 then accept_client io.accept cs acts else waited none cs acts
after_receive io overran = overran

-- what follows `cb_waitany`
unfoldable pub after_wait : Io → Reply ℕ → Rcon → Waited
unfolding receive after_receive
after_wait io (refused e) rc = waited (some e) rc.clients []
after_wait io (reply zero) rc = waited none rc.clients []
after_wait io (reply (suc s)) rc = after_receive io (receive io 0 rc.clients)

-- `rcon_wait_for_input`
unfoldable pub wait_for_input : Io → Rcon → Waited
unfolding after_wait
wait_for_input io rc = after_wait io io.waitany rc

-- ===== src/Rcon/State.antt =====
-- The state of the server of tom_rcon.h, and what it does to its connections.
use tom_libs.Common.{
  ltb, if◌then◌else◌, length, take, drop, replicate, ℕ, ◌+◌, ◌-◌, Bool, true, false, Option, none,
  some, List, ◌++◌,
}

-- `sizeof client->buffer`
abbrev pub buffer_size : ℕ
buffer_size = 4 + 4096

-- `struct rcon_client`. `recvd` is never negative. `packet_length`, `request_id` and `packet_type`
-- are patterns of 32 bits.
pub record Client : Type 0 where
  pub recvd : ℕ
  pub in_use : Bool
  pub authd : Bool
  pub in_cmd : Bool
  pub packet_length : ℕ
  pub request_id : ℕ
  pub packet_type : ℕ
  pub buffer : List ℕ

-- What goes to the callbacks, in order: `cb_send` and `cb_close` with the index of the connection.
pub data Action : Type 0 where
  sent : ℕ → List ℕ → Action
  closed : ℕ → Action

-- `struct rcon`; `maxClients` is the length of `clients`
pub record Rcon : Type 0 where
  pub clients : List Client
  pub password : Option (List ℕ)

-- An operation ends with a result, or in undefined behaviour.
pub data Outcome {ℓ} (A : Type ℓ) : Type ℓ where
  done : A → Outcome A
  fault : Outcome A
  out_of_fuel : Outcome A

-- a zeroed `struct rcon_client`
abbrev pub no_client : Client
no_client = record {
  recvd = 0;
  in_use = false;
  authd = false;
  in_cmd = false;
  packet_length = 0;
  request_id = 0;
  packet_type = 0;
  buffer = replicate buffer_size 0;
}

-- `client->recvd -= n; memmove(client->buffer, client->buffer + n, client->recvd)`. With `n` negative
-- or more than `recvd`, the copy is out of bounds.
unfoldable pub consume : ℕ → Client → Outcome Client
consume n c =
    if ltb c.recvd n
    then fault
    else let left = c.recvd - n in
      done (record c { recvd = left; buffer = take left (drop n c.buffer) ++ drop left c.buffer })

-- `rcon_set_password`; the flag is the result
unfoldable pub set_password : Option (List ℕ) → Rcon → Bool × Rcon
set_password none rc = (true, record rc { password = none })
set_password (some p) rc =
    if ltb 4086 (length p)
    then (false, record rc { password = none })
    else (true, record rc { password = some p })

-- `rcon_drop_client`: the client after it, and the call of `cb_close`
unfoldable pub drop_client : Client → Client
drop_client c = record c { in_use = false }

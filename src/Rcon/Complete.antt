-- ===== src/Rcon/Complete.antt =====
-- `rcon_complete_command` and `rcon_create` of tom_rcon.h.
pub mod Laws
use tom_libs.Common.{
  if◌then◌else◌, length, get_elem?, set, take, replicate, ℕ, zero, suc, ◌+◌, ◌%◌, Bool, true, false,
  not, Option, none, some, List, [],
}
use tom_libs.Rcon.Error.{errsrc_proto, box_error}
use tom_libs.Rcon.Send.{send}
use tom_libs.Rcon.State.{
  Client, Action, Rcon, Outcome, done, fault, out_of_fuel, no_client, consume,
}
use tom_libs.Common.Ints.{u32_mod}
use tom_libs.Rcon.Bytes.{is_negative}

-- The error that is returned, if any, the clients after the call, and the calls of `cb_send`; or the
-- undefined behaviour of a number beyond the array of clients, of a response whose length is negative
-- as an `int`, or of taking more bytes away than there are.
pub data Completed : Type 0 where
  completed : Option ℕ → List Client → List Action → Completed
  overruns : Completed

-- `client->inCmd = 0`
unfoldable pub leave_command : ℕ → List Client → List Action → Outcome Client → Completed
leave_command i cs acts (done c) = completed none (set cs i (record c { in_cmd = false })) acts
leave_command i cs acts fault = overruns
leave_command i cs acts out_of_fuel = overruns

-- the client with index `i`
unfoldable pub finish_client : ℕ → List ℕ → List Client → Client → Completed
unfolding send consume box_error leave_command
finish_client i response cs c =
    if not c.in_use
    then completed none cs []
    else if not c.in_cmd
    then completed (some (box_error errsrc_proto 1)) cs []
    else if is_negative (length response % u32_mod)
    then overruns
    else leave_command i cs
        (send (i + 1) c.request_id 0 (take (length response % u32_mod) response))
        (consume c.packet_length c)

-- `&rc->clients[i]`
unfoldable pub finish : ℕ → List ℕ → List Client → Option Client → Completed
unfolding finish_client
finish i response cs none = overruns
finish i response cs (some c) = finish_client i response cs c

-- `rcon_complete_command`; a negative number, which does the same, is left out
unfoldable pub complete_command : Rcon → ℕ → List ℕ → Completed
unfolding finish
complete_command rc zero response = completed none rc.clients []
complete_command rc (suc i) response = finish i response rc.clients (get_elem? rc.clients i)

-- `rcon_create`: the flag tells if `calloc` gives memory. The field `password` keeps the value that
-- the storage had.
unfoldable pub create : Bool → ℕ → Rcon → Option Rcon
create false n rc = none
create true n rc = some (record rc { clients = replicate n no_client })

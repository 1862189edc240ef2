-- ===== src/Rcon/Fetch.antt =====
-- `rcon_fetch_command` of tom_rcon.h.
pub mod Buffer
pub mod Packet
pub mod Laws
use tom_libs.Common.Ints.{u32_mod, int_lt}
use tom_libs.Common.{
  ltb, ◌==◌, if◌then◌else◌, take, drop, ℕ, zero, suc, ◌+◌, ◌-◌, ◌%◌, Bool, true, false, not, Option,
  none, some, List, [], ◌∷◌, ◌++◌,
}
use tom_libs.Rcon.Bytes.{read_i32}
use tom_libs.Rcon.Error.{errsrc_proto, box_error}
use tom_libs.Rcon.Secret.{streq_consttime}
use tom_libs.Rcon.Send.{send}
use tom_libs.Rcon.State.{Client, Action, Rcon, Outcome, done, fault, out_of_fuel, consume}

-- `RCON_SERVERDATA_*`
abbrev pub serverdata_auth : ℕ
serverdata_auth = 3

abbrev pub serverdata_auth_response : ℕ
serverdata_auth_response = 2

abbrev pub serverdata_execcommand : ℕ
serverdata_execcommand = 2

abbrev pub serverdata_response_value : ℕ
serverdata_response_value = 0

-- What `rcon_fetch_command` returns: nothing (0), the number of the connection with the command,
-- or the magnitude of a negative code.
pub data Fetched : Type 0 where
  nothing : Fetched
  command : ℕ → List ℕ → Fetched
  failed : ℕ → Fetched

-- How one round of the loop on a client ends: with the next round, with `break`, or with `return`.
pub data Turn : Type 0 where
  again : Client → List Action → Turn
  breaks : Client → List Action → Turn
  returns : Fetched → Client → List Action → Turn

-- How the loop on a client ends.
pub data Drained : Type 0 where
  idle : Client → List Action → Drained
  returned : Fetched → Client → List Action → Drained

-- How the loop over the clients ends.
pub data Scan : Type 0 where
  scanned : Fetched → List Client → List Action → Scan

-- a NUL among the bytes
unfoldable pub has_nul : List ℕ → Bool
has_nul [] = false
has_nul (b ∷ bs) = if b == 0 then true else has_nul bs

-- `rcon_streq_consttime` reads on behind the end of the buffer.
unfoldable pub reads_past : List ℕ → Option (List ℕ) → Bool
unfolding has_nul
reads_past given none = false
reads_past given (some secret) = not (has_nul given)

-- the end of a round, with the bytes of the packet taken away
unfoldable pub next_round : List Action → Outcome Client → Outcome Turn
next_round acts (done c) = done (again c acts)
next_round acts fault = fault
next_round acts out_of_fuel = out_of_fuel

-- `case RCON_SERVERDATA_AUTH`. What stands behind the buffer is not known.
unfoldable pub authenticate : Option (List ℕ) → ℕ → Client → Outcome Turn
unfolding streq_consttime send consume reads_past next_round
authenticate password cidx c =
    let first = send cidx c.request_id serverdata_response_value [] in
    if reads_past (drop 12 c.buffer) password
    then fault
    else if streq_consttime (some (drop 12 c.buffer)) password
    then next_round (first ++ send cidx c.request_id serverdata_auth_response [])
        (consume c.packet_length (record c { authd = true }))
    else next_round (first ++ send cidx (u32_mod - 1) serverdata_auth_response [])
        (consume c.packet_length c)

-- `case RCON_SERVERDATA_EXECCOMMAND`
unfoldable pub execute : ℕ → Client → Outcome Turn
unfolding box_error
execute cidx c =
    if c.authd
    then done (returns (command cidx (drop 12 c.buffer)) (record c { in_cmd = true }) [])
    else done (returns (failed (box_error errsrc_proto 1)) c [])

-- `default:`. With a negative length, `rcon_send` copies out of bounds.
unfoldable pub echo : ℕ → Client → Outcome Turn
unfolding send consume next_round
echo cidx c =
    if int_lt c.packet_length 14
    then fault
    else next_round
        (send cidx c.request_id serverdata_response_value
            (take (c.packet_length - 14) (drop 12 c.buffer))
          ++ send cidx c.request_id serverdata_response_value (1 ∷ 0 ∷ []))
        (consume c.packet_length c)

-- the `switch`
unfoldable pub dispatch : Option (List ℕ) → ℕ → Client → Outcome Turn
unfolding authenticate execute echo
dispatch password cidx c =
    if c.packet_type == serverdata_auth
    then authenticate password cidx c
    else if c.packet_type == serverdata_execcommand
    then execute cidx c
    else echo cidx c

-- `client->packetLength = 4 + rcon_read_i32(client->buffer)`
unfoldable pub read_length : Client → Client
unfolding read_i32
read_length c = record c { packet_length = (4 + read_i32 c.buffer) % u32_mod }

-- the request id and the type of the packet
unfoldable pub read_head : Client → Client
unfolding read_i32
read_head c = record c {
  request_id = read_i32 (drop 4 c.buffer);
  packet_type = read_i32 (drop 8 c.buffer);
}

-- the body of the loop on a client
unfoldable pub handle : Option (List ℕ) → ℕ → Client → Outcome Turn
unfolding dispatch read_length read_head box_error
handle password cidx c =
    if ltb c.recvd 4
    then done (breaks c [])
    else if int_lt c.recvd (read_length c).packet_length
    then done (breaks (read_length c) [])
    else if int_lt (read_length c).packet_length 10
    then done (returns (failed (box_error errsrc_proto 1)) (read_length c) [])
    else dispatch password cidx (read_head (read_length c))

unfoldable pub prepend : List Action → Outcome Drained → Outcome Drained
prepend acts (done (idle c more)) = done (idle c (acts ++ more))
prepend acts (done (returned f c more)) = done (returned f c (acts ++ more))
prepend acts fault = fault
prepend acts out_of_fuel = out_of_fuel

unfoldable pub resume : (Client → Outcome Drained) → Outcome Turn → Outcome Drained
unfolding prepend
resume next (done (again c acts)) = prepend acts (next c)
resume next (done (breaks c acts)) = done (idle c acts)
resume next (done (returns f c acts)) = done (returned f c acts)
resume next fault = fault
resume next out_of_fuel = out_of_fuel

-- The loop on a client. Each round that does not leave it takes bytes away, so that one round more
-- than there are bytes is enough.
unfoldable pub drain : ℕ → Option (List ℕ) → ℕ → Client → Outcome Drained
unfolding handle resume
drain zero password cidx c = out_of_fuel
drain (suc k) password cidx c = resume (drain k password cidx) (handle password cidx c)

unfoldable pub scan_more : Client → List Action → Outcome Scan → Outcome Scan
scan_more c acts (done (scanned f cs more)) = done (scanned f (c ∷ cs) (acts ++ more))
scan_more c acts fault = fault
scan_more c acts out_of_fuel = out_of_fuel

unfoldable pub scan_next : Outcome Drained → List Client → Outcome Scan → Outcome Scan
unfolding scan_more
scan_next (done (idle c acts)) cs rest = scan_more c acts rest
scan_next (done (returned f c acts)) cs rest = done (scanned f (c ∷ cs) acts)
scan_next fault cs rest = fault
scan_next out_of_fuel cs rest = out_of_fuel

-- The loop over the clients from index `i` on.
unfoldable pub scan : Option (List ℕ) → ℕ → List Client → Outcome Scan
unfolding drain scan_next
scan password i [] = done (scanned nothing [] [])
scan password i (c ∷ cs) =
    let rest = scan password (suc i) cs in
    if not c.in_use
    then scan_more c [] rest
    else if c.in_cmd
    then scan_more c [] rest
    else scan_next (drain (suc c.recvd) password (i + 1) c) cs rest

-- `rcon_fetch_command`: the result, the clients after it and the calls that it makes
unfoldable pub fetch_command : Rcon → Outcome Scan
unfolding scan
fetch_command rc = scan rc.password 0 rc.clients

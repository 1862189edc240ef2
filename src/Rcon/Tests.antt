-- ===== src/Rcon/Tests.antt =====
-- Runs of the server, and its theorems at concrete states.
use mathlib.Core.List.{flatten}
use tom_libs.Common.{
  ◌==◌, if◌then◌else◌, length, take, length-take, length-replicate, ℕ, ◌+◌, ◌-◌, ◌%◌, ◌^◌, ◌≤◌, ◌<◌,
  min, ◌≡◌, refl, ap, subst, ◌↔◌, true, false, none, some, List, [], ◌∷◌, ◌++◌, map, arith,
}
use tom_libs.Rcon.Bytes.{is_negative, write_i32, read_i32}
use tom_libs.Rcon.Bytes.Laws.{read-write_i32, read-write_i32_high}
use tom_libs.Rcon.Secret.{streq_consttime}
use tom_libs.Rcon.Secret.Laws.{IsText, streq_consttime-eq}
use tom_libs.Rcon.Port.{port_to_string, value_from, port_to_string_lem}
use tom_libs.Rcon.Error.{
  errsrc_proto, errsrc_system, errsrc_gai, box_error, from_system, from_gai, tcp_strerror, strerror,
  strerror-box_error,
}
use tom_libs.Rcon.State.{buffer_size, Client, sent, Rcon, Outcome, done, no_client}
use tom_libs.Rcon.Send.{send}
use tom_libs.Rcon.Send.Laws.{All, layout, send_lem}
use tom_libs.Rcon.Wait.{Reply, reply, refused, Io, append_bytes, connect, wait_for_input}
use tom_libs.Rcon.Wait.Newcomers.{Newcomers}
use tom_libs.Rcon.Wait.Laws.{RecvFits, WaitOk, wait_for_input_lem}
use tom_libs.Rcon.Fetch.{Fetched, nothing, command, returned, Scan, scanned, fetch_command}
use tom_libs.Rcon.Fetch.Buffer.{BufferInv}
use tom_libs.Rcon.History.{History}
use tom_libs.Rcon.Tcp.{eintr, Answer, gave, errno, returned, tcp_send, no_poll, tcp_accept}
use tom_libs.Rcon.Tcp.Laws.{SendFits, IsSent, tcp_send-IsSent}
use tom_libs.Rcon.Tcp.Accept.{Settled, tcp_accept-Settled}

-- an authentication packet with the payload "pw"
abbrev auth_packet : List ℕ
auth_packet = 12 ∷ 0 ∷ 0 ∷ 0 ∷ 7 ∷ 0 ∷ 0 ∷ 0 ∷ 3 ∷ 0 ∷ 0 ∷ 0 ∷ 112 ∷ 119 ∷ 0 ∷ 0 ∷ []

-- a command packet with the payload "ls"
abbrev exec_packet : List ℕ
exec_packet = 12 ∷ 0 ∷ 0 ∷ 0 ∷ 8 ∷ 0 ∷ 0 ∷ 0 ∷ 2 ∷ 0 ∷ 0 ∷ 0 ∷ 108 ∷ 115 ∷ 0 ∷ 0 ∷ []

abbrev sender : Client
sender = append_bytes (auth_packet ++ exec_packet) (connect no_client)

sender-BufferInv : BufferInv sender
unfolding append_bytes connect
sender-BufferInv = record {
  whole = omega (arith, length-replicate {A = ℕ} 4068 0);
  within = omega arith;
  held = λ h. absurd cc;
}

abbrev server : Rcon
server = record { clients = sender ∷ []; password = some (112 ∷ 119 ∷ []) }

abbrev outcome : Outcome Scan → Fetched × ℕ
outcome (done (scanned f cs acts)) = (f, length acts)
outcome _ = (nothing, 0)

abbrev number_of : Fetched → ℕ
number_of (command n text) = n
number_of _ = 0

-- two packets answer the first, and the second is the command of client 1
fetched :
    (number_of (outcome (fetch_command server)).0 ≡ 1) × ((outcome (fetch_command server)).1 ≡ 2)
unfolding fetch_command append_bytes connect
fetched = (refl, refl)

abbrev line : Io
line = record {
  waitany = reply 1;
  hasdata = λ i. true;
  recv = λ i room. reply (take (min room 3) (1 ∷ 2 ∷ 3 ∷ []));
  accept = reply 1;
}

abbrev bytes_of : Reply (List ℕ) → List ℕ
bytes_of (reply bytes) = bytes
bytes_of (refused e) = []

line-RecvFits : RecvFits line
line-RecvFits i room bytes e =
    let same : take (min room 3) (1 ∷ 2 ∷ 3 ∷ []) ≡ bytes = ap bytes_of e in
    subst (λ (b : List ℕ). length b ≤ room) same
      (omega (arith, length-take {A = ℕ} (min room 3) (1 ∷ 2 ∷ 3 ∷ [])))

wait_for_input_lem_example :
    WaitOk server.clients (wait_for_input line server)
    × Newcomers line.accept server.clients (wait_for_input line server)
wait_for_input_lem_example =
    wait_for_input_lem line server line-RecvFits
      (λ n e.
        let same : ◌≡◌ {A = Reply ℕ} (reply 1) (reply n) = e in
        let one : 1 ≡ n = cc in omega (arith, one))
      (sender-BufferInv, tt)

-- the server while the command of the client is carried out: the packet of 16 bytes and one more
abbrev carrying_out : Client
carrying_out = record sender { authd = true; in_cmd = true; packet_length = 16; request_id = 8 }

abbrev busy_server : Rcon
busy_server = record { clients = carrying_out ∷ []; password = none }

send_lem_example :
    (frags : List (List ℕ)) × (send 1 7 0 (1 ∷ 0 ∷ [])
      ≡ map (λ frag. sent 1 (layout 7 0 frag)) frags)
    × (flatten frags ≡ 1 ∷ 0 ∷ [])
    × All (λ frag. length (layout 7 0 frag) ≤ buffer_size) frags
send_lem_example = send_lem 1 7 0 (1 ∷ 0 ∷ [])

abbrev pw : List ℕ
pw = 112 ∷ 119 ∷ []

pw-IsText : IsText pw
pw-IsText = (omega arith, omega arith, (omega arith, omega arith, tt))

streq_consttime-eq_example : (streq_consttime (some pw) (some pw) ≡ true) ↔ (pw ≡ pw)
streq_consttime-eq_example = streq_consttime-eq pw pw pw-IsText pw-IsText (omega arith)

read-write_i32_example : read_i32 (write_i32 4100) ≡ 4100
read-write_i32_example = read-write_i32 4100 (omega arith) (omega arith) (omega arith) (omega arith)

-- The size of a packet of 204 bytes.
read-write_i32_high_example :
    (read_i32 (write_i32 200) ≡ 200 % 256 + (2 ^ 32 - 256))
    × (is_negative (read_i32 (write_i32 200)) ≡ true)
read-write_i32_high_example = read-write_i32_high 200 (omega arith)

strerror-box_error_example : strerror tcp_strerror (box_error errsrc_gai 2) ≡ (
    if errsrc_gai == errsrc_proto
    then none
    else if errsrc_gai == errsrc_system
    then some (from_system 2)
    else some (from_gai 2))
strerror-box_error_example = strerror-box_error errsrc_gai 2 (omega arith) (omega arith)

port_to_string_lem_example :
    (value_from 0 (port_to_string 27015) ≡ 27015)
    × (27015 < 2 ^ 16 → length (port_to_string 27015) ≤ 5)
port_to_string_lem_example = port_to_string_lem 27015

-- a socket that takes at most two bytes at a time
abbrev by_two : ℕ → Answer ℕ
by_two asked = gave (min asked 2)

-- two bytes, an interruption, and the rest
abbrev by_two_answers : List (ℕ → Answer ℕ)
by_two_answers = by_two ∷ (λ asked. errno eintr) ∷ by_two ∷ by_two ∷ []

by_two_le : (asked n : ℕ) → by_two asked ≡ gave n → n ≤ asked
by_two_le asked n h = let e : min asked 2 ≡ n = cc in omega (arith, e)

by_two-SendFits : SendFits by_two_answers
by_two-SendFits = (by_two_le, (λ asked n h. absurd cc, (by_two_le, (by_two_le, tt))))

tcp_send-IsSent_example : IsSent (1 ∷ 2 ∷ 3 ∷ []) (tcp_send by_two_answers (1 ∷ 2 ∷ 3 ∷ []))
tcp_send-IsSent_example = tcp_send-IsSent by_two_answers (1 ∷ 2 ∷ 3 ∷ []) by_two-SendFits

tcp_accept-Settled_example :
    Settled no_poll
      (record { fd = some 4; readable = false } ∷ no_poll ∷ [])
      9
      (tcp_accept (gave 9) (no_poll ∷ record { fd = some 4; readable = false } ∷ no_poll ∷ []))
tcp_accept-Settled_example =
    tcp_accept-Settled no_poll (record { fd = some 4; readable = false } ∷ no_poll ∷ []) 9

-- a server for two clients, to which one has connected
abbrev one_connected : Rcon
one_connected = record { clients = connect no_client ∷ no_client ∷ []; password = none }

abbrev connecting : Io
connecting = record {
  waitany = reply 1;
  hasdata = λ i. i == 0;
  recv = λ i room. reply [];
  accept = reply 1;
}

-- ===== src/Rcon/Tcp.antt =====
-- The TCP layer of tom_rcon.h on a Unix system. What the system calls answer is a parameter.
pub mod Laws
pub mod Accept
use tom_libs.Common.{
  ltb, ◌==◌, if◌then◌else◌, length, get_elem?, set, get_or, take, drop, replicate, ℕ, zero, suc,
  ◌+◌, ◌-◌, ◌%◌, ◌^◌, Bool, false, ◌&&◌, ◌||◌, Option, none, some, List, [], ◌∷◌, ◌++◌, map,
}
use tom_libs.Rcon.Port.{port_to_string}
use tom_libs.Rcon.Error.{errsrc_proto, errsrc_system, errsrc_gai, box_error}
use tom_libs.Rcon.State.{Outcome, done, fault, out_of_fuel}
use tom_libs.Rcon.Wait.{Reply, reply, refused}

-- one `struct pollfd`; a negative descriptor is `none`, and `readable` is `revents & POLLIN`
pub record Poll : Type 0 where
  pub fd : Option ℕ
  pub readable : Bool

-- `struct rcon_tcp_block`; `nfds` is the length
abbrev pub Block : Type 0
Block = List Poll

-- `EINTR`, `EWOULDBLOCK`, `EAGAIN`, as Linux numbers them
abbrev pub eintr : ℕ
eintr = 4

abbrev pub eagain : ℕ
eagain = 11

-- `rcon_is_benign_error`
unfoldable pub is_benign_error : ℕ → Bool
is_benign_error code = code == eintr || code == eagain

-- `RCON_BOX_ERROR(RCON_ERRSRC_SYSTEM, code)`, less its sign
abbrev pub system_error : ℕ → ℕ
system_error code = box_error errsrc_system code

-- What a system call answers: a result, or the number of an error.
pub data Answer (A : Type 0) : Type 0 where
  gave : A → Answer A
  errno : ℕ → Answer A

-- A loop over a system call returns, or has used up the answers that there are. The bytes are those
-- that went to the socket.
pub data Looped (A : Type 0) : Type 0 where
  returned : Reply A → List ℕ → Looped A
  waiting : List ℕ → Looped A

abbrev pub after_bytes : {A : Type 0} → List ℕ → Looped A → Looped A
after_bytes bs (returned r cs) = returned r (bs ++ cs)
after_bytes bs (waiting cs) = waiting (bs ++ cs)

-- what one call of `send` makes of the loop: `again` goes on where it was, `on n` after `n` bytes
unfoldable pub send_step : Answer ℕ → Looped ℕ → (ℕ → Looped ℕ) → Looped ℕ
send_step (gave n) again on = on n
send_step (errno code) again on =
    if is_benign_error code then again else returned (refused (system_error code)) []

-- The loop of `rcon_tcp_send`; each answer is given the number of bytes that it is asked to send.
unfoldable pub send_loop : List (ℕ → Answer ℕ) → List ℕ → ℕ → Looped ℕ
unfolding send_step
send_loop [] bytes at_byte =
    if ltb at_byte (length bytes) then waiting [] else returned (reply at_byte) []
send_loop (answer ∷ more) bytes at_byte =
    let rest =
      send_step (answer (length bytes - at_byte)) (send_loop more bytes at_byte)
        (λ n. after_bytes (take n (drop at_byte bytes)) (send_loop more bytes (at_byte + n))) in
    if ltb at_byte (length bytes) then rest else returned (reply at_byte) []

-- `rcon_tcp_send`
unfoldable pub tcp_send : List (ℕ → Answer ℕ) → List ℕ → Looped ℕ
unfolding send_loop
tcp_send answers bytes = send_loop answers bytes 0

-- `rcon_tcp_recv`; each answer is given the room that there is.
unfoldable pub tcp_recv : List (ℕ → Answer (List ℕ)) → ℕ → Looped (List ℕ)
unfolding is_benign_error
tcp_recv [] room = waiting []
tcp_recv (answer ∷ more) room =
    let rest = tcp_recv more room in
    elim (answer room) [
      | gave bytes ↦ returned (reply bytes) []
      | errno code ↦
          if is_benign_error code then rest else returned (refused (system_error code)) []
    ]

-- The loop over the slots from `idx` on: the first that is free.
unfoldable pub free_slot : Block → ℕ → Option ℕ
free_slot [] idx = none
free_slot (p ∷ ps) idx =
    let rest = free_slot ps (idx + 1) in elim p.fd [ none ↦ some idx | some fd ↦ rest ]

-- what a call returns, the block after it, and the descriptors that it closes
pub record Accepted : Type 0 where
  pub result : Reply ℕ
  pub block : Block
  pub closes : List ℕ

-- the slot of a new connection
abbrev pub fill_slot : ℕ → Poll → Poll
fill_slot fd p = record p { fd = some fd }

abbrev pub no_poll : Poll
no_poll = record { fd = none; readable = false }

unfoldable pub place : Block → ℕ → Option ℕ → Accepted
place block fd none = record {
  result = refused (box_error errsrc_proto 1);
  block = block;
  closes = fd ∷ [];
}
place block fd (some idx) = record {
  result = reply idx;
  block = set block idx (fill_slot fd (get_or block idx no_poll));
  closes = [];
}

-- `rcon_tcp_accept`
unfoldable pub tcp_accept : Answer ℕ → Block → Accepted
unfolding place free_slot is_benign_error
tcp_accept (errno code) block = record {
  result = if is_benign_error code then reply 0 else refused (system_error code);
  block = block;
  closes = [];
}
tcp_accept (gave fd) block = place block fd (free_slot (drop 1 block) 1)

-- the descriptors of the slots; -1 is `none`
abbrev pub descriptors : Block → List (Option ℕ)
descriptors block = map (λ p. p.fd) block

-- `rcon_tcp_close`: the block that is left, `none` once it is freed, and what `close` is called on
unfoldable pub tcp_close : ℕ → Block → Outcome (Option Block × List (Option ℕ))
tcp_close zero block = done (none, descriptors (drop 1 block) ++ descriptors (take 1 block))
tcp_close (suc i) block = elim (get_elem? block (suc i)) [
  | none ↦ fault
  | some p ↦ done (some (set block (suc i) (record p { fd = none })), p.fd ∷ [])
]

-- `rcon_tcp_waitany`, given what `poll` answers and which slots it marks
unfoldable pub tcp_waitany : Answer ℕ → List Bool → Block → Reply ℕ × Block
tcp_waitany (gave n) marks block = (reply n, marked marks block)
  where
    marked : List Bool → Block → Block
    marked (m ∷ ms) (p ∷ ps) = record p { readable = m } ∷ marked ms ps
    marked _ ps = ps
tcp_waitany (errno code) marks block = (refused (system_error code), block)

-- `rcon_tcp_hasdata`
unfoldable pub tcp_hasdata : Block → ℕ → Outcome Bool
tcp_hasdata block idx = elim (get_elem? block idx) [ none ↦ fault | some p ↦ done p.readable ]

-- an address that `getaddrinfo` gives: the socket for it, and whether `bind` and `listen` succeed
pub record Candidate : Type 0 where
  pub socket : Option ℕ
  pub binds : Bool
  pub listens : Bool

-- the block of a new server that listens at `fd`; `memory` is whether `calloc` gives any
unfoldable pub new_block : Bool → ℕ → ℕ → Outcome Block
new_block memory max_clients fd =
    if memory
    then done (record { fd = some fd; readable = false } ∷ replicate max_clients no_poll)
    else fault

-- the block or an error, and the descriptors that were closed
abbrev pub Opened : Type 0
Opened = Outcome (Reply Block × List ℕ)

abbrev pub opened : Outcome Block → Opened
opened (done block) = done (reply block, [])
opened fault = fault
opened out_of_fuel = out_of_fuel

abbrev pub also_closed : ℕ → Opened → Opened
also_closed fd (done (r, closes)) = done (r, fd ∷ closes)
also_closed fd fault = fault
also_closed fd out_of_fuel = out_of_fuel

-- one round of the loop over the addresses, with what the later rounds come to
unfoldable pub try_candidate : (ℕ → Opened) → Candidate → Opened → Opened
try_candidate listening c rest = elim c.socket [
  | none ↦ rest
  | some fd ↦ if c.binds && c.listens then listening fd else also_closed fd rest
]

-- the loop over the addresses
unfoldable pub open_first : (ℕ → Opened) → List Candidate → Opened
unfolding try_candidate
open_first listening [] = done (refused (box_error errsrc_proto 1), [])
open_first listening (c ∷ cs) = try_candidate listening c (open_first listening cs)

-- `rcon_tcp_open`; `getaddrinfo` is given the text of the port, and its error is a magnitude
unfoldable pub tcp_open : (List ℕ → Answer (List Candidate)) → ℕ → ℕ → Bool → Opened
unfolding open_first new_block port_to_string
tcp_open getaddrinfo port max_clients memory = elim (getaddrinfo (port_to_string (port % 2 ^ 16))) [
  | errno code ↦ done (refused (box_error errsrc_gai code), [])
  | gave candidates ↦ open_first (λ fd. opened (new_block memory max_clients fd)) candidates
]

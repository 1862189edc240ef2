-- ===== src/Rcon/Error.antt =====
-- The boxed error codes of tom_rcon.h. A boxed code is negative; it is named by its magnitude.
use Prim.Native.Nat.{bit_and, bit_or}
use tom_libs.Common.Bits.{bit_or-sum, bit_and_three}
use tom_libs.Common.{
  ◌==◌, if◌then◌else◌, ℕ, ◌+◌, ◌-◌, ◌*◌, ◌/◌, ◌%◌, ◌^◌, ◌<◌, ◌≡◌, ap, ◌∙◌, Option, none, some,
  arith,
}

-- `RCON_ERRSRC_PROTO`, `RCON_ERRSRC_SYSTEM`, `RCON_ERRSRC_GAI`
abbrev pub errsrc_proto : ℕ
errsrc_proto = 0

abbrev pub errsrc_system : ℕ
errsrc_system = 1

abbrev pub errsrc_gai : ℕ
errsrc_gai = 2

-- `RCON_BOX_ERROR`, less its sign; the shift is cut off at 32 bits
unfoldable pub box_error : ℕ → ℕ → ℕ
box_error src code = bit_or src (code * 2 ^ 2 % 2 ^ 32)

-- The source and the code that `rcon_strerror` and `rcon_tcp_strerror` take from `-err`.
unfoldable pub error_source : ℕ → ℕ
error_source e = bit_and e (2 ^ 2 - 1)

unfoldable pub error_code : ℕ → ℕ
error_code e = e / 2 ^ 2

-- Where `rcon_tcp_strerror` takes its text from.
pub data Message : Type 0 where
  from_system : ℕ → Message
  from_gai : ℕ → Message
  no_text : Message

-- `rcon_tcp_strerror`; `from_gai c` is `gai_strerror(-c)`
unfoldable pub tcp_strerror : ℕ → Message
tcp_strerror e =
    if error_source e == errsrc_system
    then from_system (error_code e)
    else if error_source e == errsrc_gai
    then from_gai (error_code e)
    else no_text

-- `rcon_strerror`: an error of the protocol writes nothing; any other goes to the callback.
unfoldable pub strerror : (ℕ → Message) → ℕ → Option Message
strerror callback e = if error_source e == errsrc_proto then none else some (callback e)

boxed_sum : (src code : ℕ) → src < 4 → code < 2 ^ 29 → box_error src code ≡ code * 4 + src
unfolding box_error
boxed_sum src code h small =
    ap (bit_or src) {x = code * 2 ^ 2 % 2 ^ 32} {y = code * 2 ^ 2} (omega arith)
    ∙ bit_or-sum 2 code src h

source_mod : (e : ℕ) → error_source e ≡ e % 4
unfolding error_source
source_mod e = bit_and_three e

-- Unboxing gives back the source and the code.
pub unbox-box_error :
    (src code : ℕ)
    → src < 4
    → code < 2 ^ 29
    → (error_source (box_error src code) ≡ src) × (error_code (box_error src code) ≡ code)
unfolding error_code
unbox-box_error src code h small =
    rw (source_mod, boxed_sum src code h small) (omega arith, omega arith)

-- With the callback of the TCP layer, a boxed error of the system or of `getaddrinfo` with a code
-- below 2^29, which the shift keeps within an int, gives the text of the code that was boxed, and one
-- of the protocol gives none.
pub strerror-box_error :
    (src code : ℕ)
    → src < 3
    → code < 2 ^ 29
    → strerror tcp_strerror (box_error src code) ≡ (
        if src == errsrc_proto
        then none
        else if src == errsrc_system
        then some (from_system code)
        else some (from_gai code))
unfolding strerror tcp_strerror
strerror-box_error src code h small =
    let s : error_source (box_error src code) ≡ src =
      (unbox-box_error src code (omega arith) small).0 in
    let c : error_code (box_error src code) ≡ code =
      (unbox-box_error src code (omega arith) small).1 in
    rw (s, c) (ground arith)

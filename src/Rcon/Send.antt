-- ===== src/Rcon/Send.antt =====
-- `rcon_send` of tom_rcon.h.
pub mod Laws
use tom_libs.Common.{
  ◌==◌, if◌then◌else◌, length, take, drop, ℕ, zero, suc, ◌+◌, ◌-◌, min, List, [], ◌∷◌, ◌++◌, map,
}
use tom_libs.Rcon.Bytes.{write_i32}
use tom_libs.Rcon.State.{Action, sent}

-- `RCON_MIN(4096 - 10, length)` at most
abbrev pub max_fragment : ℕ
max_fragment = 4096 - 10

-- one packet of the loop
unfoldable pub packet : ℕ → ℕ → List ℕ → List ℕ
unfolding write_i32
packet rid type frag =
    write_i32 (length frag + 10) ++ (write_i32 rid ++ (write_i32 type ++ (frag ++ (0 ∷ 0 ∷ []))))

-- The loop of `rcon_send`, which runs at least once: the fragments of the payload. As many rounds
-- as the payload has bytes, and one more, are enough.
unfoldable pub fragments : ℕ → List ℕ → List (List ℕ)
fragments zero payload = []
fragments (suc k) payload =
    let frag = take (min max_fragment (length payload)) payload in
    let left = drop (min max_fragment (length payload)) payload in
    let rest = fragments k left in if length left == 0 then frag ∷ [] else frag ∷ rest

-- `rcon_send` with a length that is not negative: its calls of `cb_send`
unfoldable pub send : ℕ → ℕ → ℕ → List ℕ → List Action
unfolding fragments packet
send cidx rid type payload =
    map (λ frag. sent cidx (packet rid type frag)) (fragments (suc (length payload)) payload)

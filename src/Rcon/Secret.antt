-- ===== src/Rcon/Secret.antt =====
-- `rcon_streq_consttime` of tom_rcon.h. A string is the list of its bytes from the pointer on; what
-- stands behind the list reads as NUL.
pub mod Laws
use Prim.Native.Nat.{bit_and, bit_or, bit_xor}
use tom_libs.Common.Ints.{u32_mod}
use tom_libs.Common.{
  ◌==◌, if◌then◌else◌, get_or, ℕ, ◌+◌, ◌/◌, ◌%◌, ◌^◌, Bool, false, Option, some, List, [], ◌∷◌,
}
use tom_libs.Rcon.Bytes.{sign_extend, shl}

-- `mask |= mask << k` and `mask |= mask >> k` on 32 bits
abbrev pub or_left : ℕ → ℕ → ℕ
or_left m k = bit_or m (shl m k)

abbrev pub or_right : ℕ → ℕ → ℕ
or_right m k = bit_or m (m / 2 ^ k)

-- The mask that is mixed from a byte of the secret.
unfoldable pub mix : ℕ → ℕ
unfolding sign_extend
mix b =
    let left = or_left (or_left (or_left (or_left (sign_extend b) 8) 4) 2) 1 in
    or_right (or_right (or_right left 4) 2) 1

-- `j = (j + 1) & mask`
abbrev pub next_index : ℕ → ℕ → ℕ
next_index j b = bit_and ((j + 1) % u32_mod) (mix b)

-- The loop: the list is `given + i`, and `r` collects the differences.
unfoldable pub compare_from : List ℕ → List ℕ → ℕ → ℕ → ℕ
unfolding mix
compare_from [] secret j r = bit_or r (bit_xor 0 (get_or secret j 0))
compare_from (c ∷ cs) secret j r =
    let d = bit_or r (bit_xor c (get_or secret j 0)) in
    let rest = compare_from cs secret (next_index j (get_or secret j 0)) d in
    if c == 0 then d else rest

-- `rcon_streq_consttime`; `none` is NULL
unfoldable pub streq_consttime : Option (List ℕ) → Option (List ℕ) → Bool
unfolding compare_from
streq_consttime (some given) (some secret) = compare_from given secret 0 0 == 0
streq_consttime _ _ = false

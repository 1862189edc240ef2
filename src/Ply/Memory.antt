-- ===== src/Ply/Memory.antt =====
-- `ply_parser_set_memory` and `ply_reserve` of tom_ply.h, with 8-byte pointers.
use tom_libs.Common.{
  ltb, if◌then◌else◌, Bool-cases, ℕ, ◌+◌, ◌-◌, ◌%◌, ◌≤◌, ◌≡◌, sym, ap, inl, inr, Option, none, some,
  arith,
}
use tom_libs.Ply.Types.{max_name, min_buffer_capacity, Parser}

-- `x &= ~(size_t)0xF`
abbrev pub align_down : ℕ → ℕ
align_down x = x - x % 16

-- `sizeof (struct ply_element)` and `sizeof (struct ply_property)`
abbrev pub element_size : ℕ
element_size = 8 + max_name + 8 + 8 + 8 + 8

abbrev pub property_size : ℕ
property_size = 8 + max_name + 4 + 4 + 8

-- `ply_parser_set_memory`
unfoldable pub set_memory : ℕ → ℕ → Parser → Parser
set_memory memory size p = record p {
  memory = memory;
  memory_size = size;
  memory_break = align_down size;
}

-- `ply_reserve`: the address of the space, and the parser after it; `none` is NULL
unfoldable pub reserve : ℕ → Parser → Option (ℕ × Parser)
reserve size p =
    if ltb p.memory_break (min_buffer_capacity + size)
    then none
    else some (
      p.memory + align_down (p.memory_break - size),
      record p { memory_break = align_down (p.memory_break - size) },
    )

-- If `ply_reserve` gives space, its address is that of the memory plus the new break, which is a
-- multiple of 16. It does not touch the buffer at the start of the memory, and ends at or before the
-- space that was in use. So the address is aligned to 16 bytes if that of the memory is.
pub reserve_lem :
    (size : ℕ) (p : Parser) {at : ℕ} {q : Parser}
    → reserve size p ≡ some (at, q)
    → (q.memory_break % 16 ≡ 0)
      × (at ≡ p.memory + q.memory_break)
      × (min_buffer_capacity ≤ q.memory_break)
      × (q.memory_break + size ≤ p.memory_break)
      × (p.memory % 16 ≡ 0 → at % 16 ≡ 0)
unfolding reserve
reserve_lem size p {at} {q} e =
    elim (Bool-cases (ltb p.memory_break (min_buffer_capacity + size))) [
      | inl few ↦ absurd (some_none (rw few at e))
      | inr room ↦
          let same = some_pair (rw room at e) in
          let address : p.memory + align_down (p.memory_break - size) ≡ at = same.0 in
          let moved : q.memory_break ≡ align_down (p.memory_break - size) =
            ap (λ (r : Parser). r.memory_break) (sym same.1) in
          (
            omega (arith, moved),
            omega (arith, moved, address),
            ground (arith, moved, room),
            ground (arith, moved, room),
            λ h. omega (arith, moved, address, h),
          )
    ]
  where
    some_none : ◌≡◌ {A = Option (ℕ × Parser)} none (some (at, q)) → ⊥
    some_none h = cc

    some_pair :
        {a : ℕ} {r : Parser}
        → ◌≡◌ {A = Option (ℕ × Parser)} (some (a, r)) (some (at, q))
        → (a ≡ at) × (r ≡ q)
    some_pair h = (cc, cc)

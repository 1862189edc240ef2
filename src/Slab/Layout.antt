-- ===== src/Slab/Layout.antt =====
-- The sizes and addresses of tom_slab.h with 4096-byte pages on a machine with 8-byte pointers and
-- 4-byte ints.
use tom_libs.Common.{ltb, if◌then◌else◌, ℕ, ◌+◌, ◌-◌, ◌*◌, ◌/◌, ◌%◌, ◌≤◌, ◌<◌, ◌≡◌, arith}

-- `SLAB_PAGE_SIZE`
abbrev pub page_size : ℕ
page_size = 4096

-- `SLAB_MIN_ALLOC`
abbrev pub min_alloc : ℕ
min_alloc = 16

-- `sizeof (struct slab_footer)`: 8 bytes of signature, 16 of list node, 32 of bit-field, 4 of
-- counter, 4 of padding
abbrev pub footer_size : ℕ
footer_size = 64

-- `offsetof(struct slab_footer, node)`
abbrev pub node_offset : ℕ
node_offset = 8

-- `SLAB_DIVIDE_ROUND_UP`
abbrev pub divide_round_up : ℕ → ℕ → ℕ
divide_round_up a b = (a + b - 1) / b

-- `SLAB_GET_BASE`: the low twelve bits are masked off
abbrev pub get_base : ℕ → ℕ
get_base p = p - p % page_size

-- `SLAB_GET_FOOTER`
abbrev pub get_footer : ℕ → ℕ
get_footer b = b + page_size - footer_size

-- `&footer->node` of the page at `b`
abbrev pub node_address : ℕ → ℕ
node_address b = get_footer b + node_offset

-- the element size that `slab_create` computes first, for a size whose sum with 15 is an int
unfoldable pub round_elemsz : ℕ → ℕ
round_elemsz n = let r = divide_round_up n 16 * 16 in if ltb r min_alloc then min_alloc else r

-- `slab->maxelems`
unfoldable pub max_elems : ℕ → ℕ
max_elems elemsz = (page_size - footer_size) / elemsz

-- address of element `i` of the page at `b`
abbrev pub element : ℕ → ℕ → ℕ → ℕ
element elemsz b i = b + i * elemsz

-- What `slab_free` recovers from an address.
abbrev pub index_of : ℕ → ℕ → ℕ
index_of elemsz p = (p - get_base p) / elemsz

pub get_base-node : (b : ℕ) → b % page_size ≡ 0 → get_base (node_address b) ≡ b
get_base-node b h = omega arith

module _ (elemsz maxelems b i : ℕ) (aligned : b % page_size ≡ 0) (pos : 0 < elemsz)
    (fits : maxelems * elemsz ≤ page_size - footer_size) (h : i < maxelems) where
  offset-lt : i * elemsz < page_size
  offset-lt = grind arith

  pub get_base-element : get_base (element elemsz b i) ≡ b
  get_base-element = omega (arith, offset-lt)

  pub offset-element : element elemsz b i - get_base (element elemsz b i) ≡ i * elemsz
  offset-element = omega (arith, get_base-element)

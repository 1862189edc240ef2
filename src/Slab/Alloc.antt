-- ===== src/Slab/Alloc.antt =====
-- `slab_create`, `slab_grow` and `slab_alloc` of tom_slab.h. What `SLAB_malloc` and
-- `SLAB_alloc_page` return is an argument. The lock makes each call one step.
pub mod Claim
pub mod Create
pub mod Grow
pub mod Laws
use tom_libs.Common.{
  ltb, leb, ◌==◌, if◌then◌else◌, ℕ, ◌+◌, ◌-◌, ◌^◌, Bool, true, false, Option, none, some, List, [],
  ◌∷◌, ◌++◌,
}
use tom_libs.Slab.Avail.{clr_bit, find_avail, no_avail, set_bits}
use tom_libs.Slab.Layout.{
  page_size, footer_size, get_base, node_address, round_elemsz, max_elems, element,
}
use tom_libs.Slab.State.{
  Run, ok, fault, ◌>>=◌, ◌>>◌, assert, or_fault, Footer, footer_signature, Hook, noop, user,
  call_all, State, store, remove_page, push_back, is_empty,
}

-- `ctor ? ctor : slab_noop_ctor_or_dtor`
abbrev pub hook_of : Option ℕ → Hook
hook_of none = noop
hook_of (some f) = user f

-- the fields that `slab_create` sets
unfoldable pub created : ℕ → Option ℕ → Option ℕ → State
unfolding max_elems
created elemsz ctor dtor = record {
  elemsz = elemsz;
  maxelems = max_elems elemsz;
  ctor = hook_of ctor;
  dtor = hook_of dtor;
  empty = [];
  partial = [];
  full = [];
  footer = λ _. none;
  calls = [];
}

-- `slab_create` of a size that is not negative; the flag says whether `SLAB_malloc` succeeds. The sum
-- in SLAB_DIVIDE_ROUND_UP is one of ints, whose overflow is undefined.
unfoldable pub create : Bool → ℕ → Option ℕ → Option ℕ → Run (Option State)
unfolding round_elemsz
create malloced n ctor dtor =
    let elemsz = round_elemsz n in
    if leb (2 ^ 31) (n + 15)
    then fault
    else if ltb (page_size - footer_size) elemsz
    then ok none
    else if malloced
    then ok (some (created elemsz ctor dtor))
    else ok none

-- the footer that `slab_grow` writes
unfoldable pub new_footer : ℕ → Footer
unfolding set_bits
new_footer n = record { signature = footer_signature; avail = set_bits n no_avail; numelems = 0 }

-- `slab_grow`; the argument is what `SLAB_alloc_page` returns
unfoldable pub grow : Option ℕ → State → Bool × State
unfolding new_footer
grow none s = (false, s)
grow (some base) s = (
  true,
  record s {
    footer = λ c. if c == base then some (new_footer s.maxelems) else s.footer c;
    calls = s.calls ++ call_all s.ctor base s.elemsz s.maxelems;
    empty = push_back base s.empty;
  },
)

-- `slab_list_push_back(&slab->partial, slab_list_pop_front(&slab->empty))`
unfoldable pub take_empty : State → Run State
take_empty s = elim s.empty [
  | [] ↦ fault
  | b ∷ bs ↦ ok (record s { empty = bs; partial = push_back b s.partial })
]

-- partial -> full
unfoldable pub fill : ℕ → State → Run State
fill b s = do
  ps ← remove_page b s.partial
  ok (record s { partial = ps; full = push_back b s.full })

-- the rest of `slab_alloc` once the first partial page is `b`
unfoldable pub claim : ℕ → State → Run (Option ℕ × State)
unfolding fill
claim b s = do
  f ← or_fault (s.footer b)
  assert (ltb f.numelems s.maxelems)
  idx ← or_fault (find_avail f.avail)
  let g = record f { avail = clr_bit f.avail idx; numelems = f.numelems + 1 }
  let t = store s b (some g)
  u ← (if g.numelems == s.maxelems then fill b t else ok t)
  ok (some (element s.elemsz (get_base (node_address b)) idx), u)

-- `slab->partial.head.next`; of an empty list it is no page
unfoldable pub claim_head : List ℕ → State → Run (Option ℕ × State)
unfolding claim
claim_head [] s = fault
claim_head (b ∷ _) s = claim b s

unfoldable pub claim_first : State → Run (Option ℕ × State)
unfolding claim_head
claim_first s = claim_head s.partial s

-- `slab_alloc`; `none` is NULL
unfoldable pub alloc : Option ℕ → State → Run (Option ℕ × State)
unfolding grow take_empty claim_first
alloc fresh s =
    if is_empty s.partial
    then (if is_empty s.empty
        then (let (grown, t) = grow fresh s in
            if grown then take_empty t >>= claim_first else ok (none, t))
        else take_empty s >>= claim_first)
    else claim_first s

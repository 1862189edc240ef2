-- ===== src/Slab/Free.antt =====
-- `slab_free` of tom_slab.h.
pub mod Settle
pub mod Laws
use tom_libs.Common.{
  ltb, ◌==◌, if◌then◌else◌, ℕ, zero, suc, ◌-◌, Bool, true, not, ◌&&◌, Option, none, some,
}
use tom_libs.Slab.Avail.{Avail, set_bit, get_bit}
use tom_libs.Slab.Layout.{get_base, index_of}
use tom_libs.Slab.State.{
  Run, ok, ◌>>=◌, ◌>>◌, assert, or_fault, Footer, footer_signature, same_bytes, State, store,
  remove_page, push_back,
}
use tom_libs.Slab.Release.{trim}

-- the consistency check: every bit below `n` is set
unfoldable pub all_avail : ℕ → Avail → Bool
all_avail zero b = true
all_avail (suc n) b = all_avail n b && get_bit b n

-- the branches on `numelems`; `f` is the footer with the element's bit set
unfoldable pub settle : ℕ → Footer → State → Run State
unfolding all_avail remove_page
settle b f s =
    if f.numelems == s.maxelems
    then (do
      xs ← remove_page b s.full
      let t = store s b (some (record f { numelems = f.numelems - 1 }))
      ok (record t { full = xs; partial = push_back b s.partial }))
    else if f.numelems == 1
    then (do
      assert (all_avail s.maxelems f.avail)
      xs ← remove_page b s.partial
      let t = store s b (some (record f { numelems = f.numelems - 1 }))
      ok (record t { partial = xs; empty = push_back b s.empty }))
    else ok (store s b (some f))

-- `slab_free` for a pointer that is not NULL
unfoldable pub free_element : ℕ → State → Run State
free_element p s = do
  let base = get_base p
  f ← or_fault (s.footer base)
  let idx = index_of s.elemsz p
  assert (same_bytes f.signature footer_signature)
  assert (not (get_bit f.avail idx))
  assert (ltb 0 f.numelems)
  t ← settle base (record f { avail = set_bit f.avail idx }) s
  trim t

-- `slab_free`: NULL is accepted
unfoldable pub free : Option ℕ → State → Run State
unfolding free_element
free none s = ok s
free (some p) s = free_element p s

-- ===== src/Slab/Release.antt =====
-- `slab_release`, `slab_release_list`, `slab_destroy` and `slab_trim` of tom_slab.h.
pub mod Laws
pub mod Trim
pub mod Destroy
use tom_libs.Common.{ltb, length, ℕ, zero, suc, ◌+◌, true, false, none, List, [], ◌∷◌, ◌++◌}
use tom_libs.Slab.Layout.{get_base, node_address}
use tom_libs.Slab.State.{
  Run, ok, fault, out_of_fuel, ◌>>=◌, ◌>>◌, assert, or_fault, footer_signature, same_bytes,
  page_freed, call_all, State, store, remove_page,
}

-- which of the three lists a `struct slab_list *` points to
pub data Which : Type 0 where
  on_empty on_partial on_full : Which

abbrev pub pages_on : Which → State → List ℕ
pages_on on_empty s = s.empty
pages_on on_partial s = s.partial
pages_on on_full s = s.full

abbrev pub with_pages : Which → List ℕ → State → State
with_pages on_empty xs s = record s { empty = xs }
with_pages on_partial xs s = record s { partial = xs }
with_pages on_full xs s = record s { full = xs }

-- `slab_release`; the page is gone afterwards
unfoldable pub release : Which → ℕ → State → Run State
unfolding same_bytes remove_page
release w b s = do
  f ← or_fault (s.footer b)
  assert (same_bytes f.signature footer_signature)
  xs ← remove_page b (pages_on w s)
  let base = get_base (node_address b)
  let t = store (with_pages w xs s) b none
  ok (record t {
    calls = s.calls ++ (call_all s.dtor base s.elemsz s.maxelems ++ page_freed base ∷ []);
  })

-- The loop of `slab_release_list`: `next` is read before the page goes.
unfoldable pub release_each : Which → List ℕ → State → Run State
release_each w [] s = ok s
release_each w (b ∷ bs) s = do t ← release w b s; release_each w bs t

abbrev pub release_list : Which → State → Run State
release_list w s = release_each w (pages_on w s) s

-- `slab_destroy`, less the lock and the `struct slab` itself
unfoldable pub destroy : State → Run State
unfolding release release_each
destroy s = do t ← release_list on_empty s; u ← release_list on_partial t; release_list on_full u

-- `slab_release` of `empty.head.next`; of an empty list it is no page
unfoldable pub release_front : List ℕ → State → Run State
release_front [] s = fault
release_front (b ∷ _) s = release on_empty b s

-- the loop of `slab_trim`
unfoldable pub trim_loop : ℕ → State → Run State
unfolding release_front
trim_loop zero s = out_of_fuel
trim_loop (suc k) s = elim (ltb (length s.full + length s.partial) (length s.empty)) [
  | true ↦ release_front s.empty s >>= trim_loop k
  | false ↦ ok s
]

-- `slab_trim`; one round more than there are empty pages is enough
unfoldable pub trim : State → Run State
unfolding trim_loop release
trim s = trim_loop (suc (length s.empty)) s

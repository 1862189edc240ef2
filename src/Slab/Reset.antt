-- ===== src/Slab/Reset.antt =====
-- `slab_reset_list` and `slab_reset` of tom_slab.h.
pub mod Laws
use tom_libs.Common.{ℕ, some, List, [], ◌∷◌}
use tom_libs.Slab.Avail.{set_bits}
use tom_libs.Slab.State.{Run, ok, ◌>>=◌, ◌>>◌, or_fault, State, store, remove_page, push_back}
use tom_libs.Slab.Release.{Which, on_partial, on_full, pages_on, with_pages}

-- one round of `slab_reset_list`
unfoldable pub reset_page : Which → ℕ → State → Run State
unfolding set_bits remove_page
reset_page w b s = do
  f ← or_fault (s.footer b)
  xs ← remove_page b (pages_on w s)
  let t = with_pages w xs s
  let g = record f { avail = set_bits s.maxelems f.avail; numelems = 0 }
  ok (record (store t b (some g)) { empty = push_back b t.empty })

-- The loop of `slab_reset_list`: `next` is read before the page moves.
unfoldable pub reset_each : Which → List ℕ → State → Run State
unfolding reset_page
reset_each w [] s = ok s
reset_each w (b ∷ bs) s = do t ← reset_page w b s; reset_each w bs t

abbrev pub reset_list : Which → State → Run State
reset_list w s = reset_each w (pages_on w s) s

-- `slab_reset`
unfoldable pub reset : State → Run State
unfolding reset_each
reset s = do t ← reset_list on_partial s; reset_list on_full t

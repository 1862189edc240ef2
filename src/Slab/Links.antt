-- ===== src/Slab/Links.antt =====
-- The page lists of tom_slab.h with their pointers: `slab_link_nodes` to `slab_list_is_empty`. A
-- list runs through the nodes of its pages and the node in the `struct slab_list`, its head.
pub mod Ring
pub mod Refines
pub mod Remove
pub mod Implements
use tom_libs.Common.{◌==◌, if◌then◌else◌, ℕ, ◌+◌, ◌-◌, Bool, ◌||◌, Option, none, some}
use tom_libs.Slab.State.{Run, ok, fault, ◌>>=◌, ◌>>◌, assert}

-- The pointers of the nodes. The address 0 is NULL, and at any other there is a node.
pub record Nodes : Type 0 where
  pub next : ℕ → ℕ
  pub prev : ℕ → ℕ

-- `struct slab_list`, by the address of its head
pub record PageList : Type 0 where
  pub head : ℕ
  pub count_of : ℕ

abbrev pub write : (ℕ → ℕ) → ℕ → ℕ → ℕ → ℕ
write f a v b = if b == a then v else f b

-- `slab_link_nodes`
unfoldable pub link_nodes : ℕ → ℕ → Nodes → Run Nodes
link_nodes a b m =
    if (a == 0) || (b == 0)
    then fault
    else ok (record { next = write m.next a b; prev = write m.prev b a })

-- `slab_list_create`, for a list at `head`
unfoldable pub list_create : ℕ → Nodes → PageList × Nodes
list_create head m = (
  record { head = head; count_of = 0 },
  record { next = write m.next head head; prev = write m.prev head head },
)

-- `slab_list_push_back`
unfoldable pub list_push_back : PageList → ℕ → Nodes → Run (PageList × Nodes)
unfolding link_nodes
list_push_back l node m = do
  m1 ← link_nodes (m.prev l.head) node m
  m2 ← link_nodes node l.head m1
  ok (record l { count_of = l.count_of + 1 }, m2)

-- `node->next = NULL; node->prev = NULL`
abbrev pub clear_node : ℕ → Nodes → Nodes
clear_node node m = record { next = write m.next node 0; prev = write m.prev node 0 }

-- the consistency check of `slab_list_remove`
unfoldable pub check_empty : PageList → Nodes → Run (Unit {0})
check_empty l m =
    if (l.count_of == 0) || (m.next l.head == l.head) || (m.prev l.head == l.head)
    then assert (l.count_of == 0)
      >> assert (m.next l.head == l.head)
      >> assert (m.prev l.head == l.head)
    else ok tt

-- `slab_list_remove`
unfoldable pub list_remove : PageList → ℕ → Nodes → Run (PageList × Nodes)
unfolding link_nodes check_empty
list_remove l node m = do
  m1 ← link_nodes (m.prev node) (m.next node) m
  let m2 = clear_node node m1
  let l2 : PageList = record l { count_of = l.count_of - 1 }
  check_empty l2 m2
  ok (l2, m2)

-- `slab_list_pop_front`: the node, or `none` for NULL
unfoldable pub list_pop_front : PageList → Nodes → Run (Option ℕ × PageList × Nodes)
unfolding list_remove
list_pop_front l m =
    if m.next l.head == l.head
    then ok (none, l, m)
    else list_remove l (m.next l.head) m >>= λ r. ok (some (m.next l.head), r.0, r.1)

-- `slab_list_is_empty`
unfoldable pub list_is_empty : PageList → Nodes → Bool
list_is_empty l m = m.next l.head == l.head

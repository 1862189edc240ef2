-- ===== src/Slab/Links/Implements.antt =====
-- The operations on a list with pointers against those on the list of its pages.
use tom_libs.Common.{ℕ, ◌<◌, ◌≡◌, subst, Option, none, some, List, [], ◌∷◌}
use tom_libs.Slab.State.{Run, ok, ◌>>=◌, remove_page, push_back}
use tom_libs.Slab.State.Lists.{count}
use tom_libs.Slab.Links.{Nodes, PageList, list_push_back, list_remove, list_pop_front}
use tom_libs.Slab.Links.Refines.{Represents, Updated, list_push_back-Updated}
use tom_libs.Slab.Links.Remove.{list_remove-Updated, list_pop_front-none, list_pop_front-Updated}

-- a call of an operation
pub data ListCall : Type 0 where
  push : ℕ → ListCall
  remove : ℕ → ListCall
  pop : ListCall

-- The operations on a list of pages: the list before, the call, the node that it returns and the
-- list after. A node that is pushed is not NULL, not the head and not on the list; one that is
-- removed is on it.
pub data Step (head : ℕ) : List ℕ → ListCall → Option ℕ → List ℕ → Type 0 where
  pushes :
      (node : ℕ) (xs : List ℕ)
      → 0 < node
      → count node (head ∷ xs) ≡ 0
      → Step head xs (push node) none (push_back node xs)
  removes :
      (node : ℕ) (xs rest : List ℕ)
      → 0 < count node xs
      → remove_page node xs ≡ ok rest
      → Step head xs (remove node) none rest
  pops : (node : ℕ) (xs : List ℕ) → Step head (node ∷ xs) pop (some node) xs
  pops_none : Step head [] pop none []

-- what a call does to the pointers, and what it returns
abbrev pub perform : ListCall → PageList → Nodes → Run (Option ℕ × PageList × Nodes)
perform (push node) l m = list_push_back l node m >>= λ r. ok (none, r.0, r.1)
perform (remove node) l m = list_remove l node m >>= λ r. ok (none, r.0, r.1)
perform pop l m = list_pop_front l m

-- the nodes that a call may write to
abbrev pub touched : ListCall → ℕ → List ℕ → List ℕ
touched (push node) head xs = node ∷ head ∷ xs
touched (remove node) head xs = head ∷ xs
touched pop head xs = head ∷ xs

-- a result of a call on the pointers that stands for the list `ys`
pub record Performed (l : PageList) (m : Nodes) (call : ListCall) (xs : List ℕ) (out : Option ℕ)
    (ys : List ℕ) : Type 0 where
  pub list_after : PageList
  pub nodes_after : Nodes
  pub performs : perform call l m ≡ ok (out, list_after, nodes_after)
  pub updated : Updated m nodes_after (touched call l.head xs) list_after ys

-- Where the pointers stand for a list of pages, `slab_list_push_back`, `slab_list_remove` and
-- `slab_list_pop_front` neither fault nor fail an assertion, and do to the pointers what the
-- operation does to the list: they return its result, NULL for none, the pointers and the counter
-- stand for the list after it, and those of a list that shares no node with it stay. A node that is
-- pushed is not NULL, not the head and not on the list; one that is removed is on it.
pub Step-Performed :
    {l : PageList} {m : Nodes} {call : ListCall} {xs ys : List ℕ} {out : Option ℕ}
    → Represents l m xs
    → Step l.head xs call out ys
    → Performed l m call xs out ys
Step-Performed r (pushes node xs p q) =
    let (l2, m2, e, u) = list_push_back-Updated xs r node p q in
    record { list_after = l2; nodes_after = m2; performs = rw e; updated = u }
Step-Performed {l} {m} r (removes node xs rest i e) =
    let (other, l2, m2, f, g, u) = list_remove-Updated node xs r i in
    let same : other ≡ rest = cc in
    record {
      list_after = l2;
      nodes_after = m2;
      performs = rw g;
      updated = subst (Updated m m2 (l.head ∷ xs) l2) same u;
    }
Step-Performed r (pops node xs) =
    let (l2, m2, e, u) = list_pop_front-Updated node xs r in
    record { list_after = l2; nodes_after = m2; performs = e; updated = u }
Step-Performed {l} {m} r pops_none = record {
  list_after = l;
  nodes_after = m;
  performs = list_pop_front-none r;
  updated = record { now = r; others = λ k zs s d. s };
}

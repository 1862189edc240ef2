-- ===== src/Slab/Links/Refines.antt =====
-- When the pointers of a page list stand for a list of Slab.State, and `slab_list_push_back`.
use tom_libs.Common.{length, length-append, ℕ, ◌+◌, ◌≤◌, ◌<◌, ◌≡◌, refl, List, [], ◌∷◌, arith}
use tom_libs.Slab.State.{ok, push_back, is_empty}
use tom_libs.Slab.State.Lists.{count, count-append, count-concat}
use tom_libs.Slab.Links.{
  Nodes, PageList, write, link_nodes, list_create, list_push_back, list_is_empty,
}
use tom_libs.Slab.Links.Ring.{
  Forward, Backward, Distinct, last_of, Backward-last, Forward-split, Backward-split, Forward-same,
  Backward-same, last_of-count, Forward-turn, Backward-end,
}

-- The pointers of a list lead from its head through the pages `xs` and back to it.
pub record Represents (l : PageList) (m : Nodes) (xs : List ℕ) : Type 0 where
  pub forward : Forward m.next l.head xs l.head
  pub backward : Backward m.prev l.head xs l.head
  pub apart : (c : ℕ) → count c (l.head ∷ xs) ≤ 1
  pub not_null : count 0 (l.head ∷ xs) ≡ 0
  pub counted : l.count_of ≡ length xs

-- No node stands on both lists.
abbrev pub Disjoint : List ℕ → List ℕ → Type 0
Disjoint xs ys = (c : ℕ) → 0 < count c xs → count c ys ≡ 0

-- A list stands for `ys` now, and the lists that share no node with `touched` stand for what they did.
pub record Updated (m m2 : Nodes) (touched : List ℕ) (l2 : PageList) (ys : List ℕ) : Type 0 where
  pub now : Represents l2 m2 ys
  pub others :
      (k : PageList) (zs : List ℕ)
      → Represents k m zs
      → Disjoint (k.head ∷ zs) touched
      → Represents k m2 zs

-- Distinct nodes, by their counts.
pub Distinct-counts : (xs : List ℕ) → ((c : ℕ) → count c xs ≤ 1) → Distinct xs
unfolding count
Distinct-counts [] h = tt
Distinct-counts (x ∷ xs) h = (ground (arith, h x), Distinct-counts xs (λ c. ground (arith, h c)))

-- A list keeps what it stands for where its pointers stay.
pub same_pointers :
    (m m2 : Nodes) (k : PageList) (zs : List ℕ)
    → ((c : ℕ) → 0 < count c (k.head ∷ zs) → (m.next c ≡ m2.next c) × (m.prev c ≡ m2.prev c))
    → Represents k m zs
    → Represents k m2 zs
unfolding count
same_pointers m m2 k zs same r = record {
  forward = Forward-same m.next m2.next k.head zs k.head (λ c i. (same c i).0) r.forward;
  backward =
      Backward-same m.prev m2.prev k.head zs k.head
        (λ c i. (same c (ground (arith, count-append c zs (k.head ∷ [])))).1) r.backward;
  apart = r.apart;
  not_null = r.not_null;
  counted = r.counted;
}

-- `slab_list_create`
pub list_create-Represents :
    (h : ℕ) (m : Nodes) → 0 < h → Represents (list_create h m).0 (list_create h m).1 []
unfolding list_create count
list_create-Represents h m p = record {
  forward = ground arith;
  backward = ground arith;
  apart = λ c. ground arith;
  not_null = ground arith;
  counted = refl;
}

-- `slab_list_is_empty`
pub list_is_empty-Represents :
    {l : PageList} {m : Nodes} (xs : List ℕ) → Represents l m xs → list_is_empty l m ≡ is_empty xs
unfolding list_is_empty count
list_is_empty-Represents {l = l} [] r = ground (arith, r.forward)
list_is_empty-Represents {l = l} (x ∷ xs) r = ground (arith, r.forward.0, r.apart l.head)

-- the memory after `slab_link_nodes`
abbrev pub linked : ℕ → ℕ → Nodes → Nodes
linked a b m = record { next = write m.next a b; prev = write m.prev b a }

pub link_nodes-ok : (a b : ℕ) (m : Nodes) → 0 < a → 0 < b → link_nodes a b m ≡ ok (linked a b m)
unfolding link_nodes
link_nodes-ok a b m p q = ground arith

-- the memory after `slab_list_push_back` on a list whose last node is `last`
abbrev pub pushed : ℕ → ℕ → ℕ → Nodes → Nodes
pushed last head node m = linked node head (linked last node m)

module _ {l : PageList} {m : Nodes} (xs : List ℕ) (r : Represents l m xs) where
  pub last-prev : m.prev l.head ≡ last_of l.head xs
  last-prev = Backward-last m.prev l.head xs l.head r.backward

  pub last-not_null : 0 < last_of l.head xs
  unfolding count
  last-not_null = ground (arith, last_of-count l.head xs, r.not_null)

  pub head-not_null : 0 < l.head
  unfolding count
  head-not_null = ground (arith, r.not_null)

  list_push_back-ok :
      (node : ℕ)
      → 0 < node
      → list_push_back l node m
        ≡ ok (record l { count_of = l.count_of + 1 }, pushed (last_of l.head xs) l.head node m)
  unfolding list_push_back
  list_push_back-ok node p = rw (
    last-prev,
    link_nodes-ok (last_of l.head xs) node m last-not_null p,
    link_nodes-ok node l.head (linked (last_of l.head xs) node m) p head-not_null,
  )

  pushed-Updated :
      (node : ℕ)
      → 0 < node
      → count node (l.head ∷ xs) ≡ 0
      → Updated m
          (pushed (last_of l.head xs) l.head node m)
          (node ∷ l.head ∷ xs)
          (record l { count_of = l.count_of + 1 })
          (push_back node xs)
  unfolding count
  pushed-Updated node p q =
      let turned =
        Forward-turn m.next l.head xs l.head node (Distinct-counts (l.head ∷ xs) r.apart)
          r.forward in
      let ended = Backward-end m.prev l.head xs l.head node (ground (arith, q)) r.backward in
      record {
        now = record {
          forward =
              (Forward-split (write (write m.next (last_of l.head xs) node) node l.head) l.head xs
                  node [] l.head).1
                (
                  Forward-same (write m.next (last_of l.head xs) node)
                      (write (write m.next (last_of l.head xs) node) node l.head) l.head xs node
                      (λ c i. ground (arith, q)) turned,
                  ground arith,
                );
          backward =
              (Backward-split (write (write m.prev node (last_of l.head xs)) l.head node) l.head xs
                  node [] l.head).1
                (
                  Backward-same (write m.prev node (last_of l.head xs))
                      (write (write m.prev node (last_of l.head xs)) l.head node) l.head xs node
                      (λ c i. ground (arith, q, r.apart l.head, count-concat c node xs)) ended,
                  ground arith,
                );
          apart = λ c. ground (arith, count-concat c node xs, r.apart c, q);
          not_null = ground (arith, count-concat 0 node xs, r.not_null);
          counted = omega (arith, r.counted, length-append xs (node ∷ []));
        };
        others = λ k zs s d.
            same_pointers m (pushed (last_of l.head xs) l.head node m) k zs
              (λ c i. ground (arith, d c i, last_of-count l.head xs)) s;
      }

  -- `slab_list_push_back` appends the node, which is a node (not NULL) and not yet on the list; any list apart from both keeps what it stands for.
  pub list_push_back-Updated :
      (node : ℕ)
      → 0 < node
      → count node (l.head ∷ xs) ≡ 0
      → (l2 : PageList) × (m2 : Nodes) × (list_push_back l node m ≡ ok (l2, m2))
        × Updated m m2 (node ∷ l.head ∷ xs) l2 (push_back node xs)
  list_push_back-Updated node p q = (_, _, list_push_back-ok node p, pushed-Updated node p q)

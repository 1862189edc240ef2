-- ===== src/Slab/Links/Remove.antt =====
-- What `slab_list_remove` and `slab_list_pop_front` make of the pointers of a list.
use tom_libs.Common.{
  ◌==◌, Bool-cases, length-append, ℕ, ◌+◌, ◌-◌, ◌<◌, ◌≡◌, sym, ap, subst, inl, inr, false, none,
  some, List, [], ◌∷◌, ◌++◌, arith,
}
use tom_libs.Slab.State.{ok, remove_page}
use tom_libs.Slab.State.Lists.{count, count-append, count-concat}
use tom_libs.Slab.Links.{Nodes, PageList, clear_node, check_empty, list_remove, list_pop_front}
use tom_libs.Slab.Links.Ring.{
  Distinct, last_of, first_of, Backward-last, Forward-first, Forward-split, Backward-split,
  Forward-same, Backward-same, last_of-count, first_of-count, Forward-skip, Backward-skip,
}
use tom_libs.Slab.Links.Refines.{
  Represents, Updated, Distinct-counts, same_pointers, linked, link_nodes-ok,
}

-- The list before and after the first `b`.
pub record SplitAt (b : ℕ) (xs : List ℕ) : Type 0 where
  pub before : List ℕ
  pub after : List ℕ
  pub split : xs ≡ before ++ b ∷ after
  pub removed : remove_page b xs ≡ ok (before ++ after)

split_at : (b : ℕ) (xs : List ℕ) → 0 < count b xs → SplitAt b xs
unfolding count remove_page
split_at b [] h = absurd (omega arith)
split_at b (x ∷ xs) h = elim (Bool-cases (x == b)) [
  | inl e ↦ record {
    before = [];
    after = xs;
    split = ap (λ c. c ∷ xs) (ground arith);
    removed = rw e;
  }
  | inr e ↦
      let s = split_at b xs (ground arith) in
      record {
        before = x ∷ s.before;
        after = s.after;
        split = ap (λ ys. x ∷ ys) s.split;
        removed = rw (e, s.removed);
      }
]

-- The consistency check of `slab_list_remove` passes on every list that is in order.
pub check_empty-ok :
    {l : PageList} {m : Nodes} (xs : List ℕ) → Represents l m xs → check_empty l m ≡ ok tt
unfolding check_empty count
check_empty-ok {l = l} [] r = ground (arith, r.forward, r.backward, r.counted)
check_empty-ok {l = l} {m = m} (x ∷ xs) r = ground (
  arith,
  r.forward.0,
  r.counted,
  r.apart l.head,
  Backward-last m.prev x xs l.head r.backward.1,
  last_of-count x xs,
)

-- the memory after `slab_list_remove` of a node between two others
abbrev pub unlinked : ℕ → ℕ → ℕ → Nodes → Nodes
unlinked before node after m = clear_node node (linked before after m)

module _ {l : PageList} {m : Nodes} (xs : List ℕ) (x : ℕ) (ys : List ℕ)
    (r : Represents l m (xs ++ x ∷ ys)) where
  count-middle : (c : ℕ) → count c (xs ++ x ∷ ys) ≡ count c (xs ++ ys) + count c (x ∷ [])
  unfolding count
  count-middle c = omega (arith, count-append c xs (x ∷ ys), count-append c xs ys)

  Distinct-next : Distinct (l.head ∷ xs ++ ys)
  unfolding count
  Distinct-next =
      Distinct-counts (l.head ∷ xs ++ ys) (λ c. ground (arith, count-middle c, r.apart c))

  Distinct-prev : Distinct (xs ++ (ys ++ l.head ∷ []))
  unfolding count
  Distinct-prev = Distinct-counts (xs ++ (ys ++ l.head ∷ [])) (λ c. ground (
    arith,
    count-middle c,
    r.apart c,
    count-append c xs (ys ++ l.head ∷ []),
    count-concat c l.head ys,
    count-append c xs ys,
  ))

  absent : (count x (xs ++ ys) ≡ 0) × ((x == l.head) ≡ false)
  unfolding count
  absent = (ground (arith, count-middle x, r.apart x), ground (arith, count-middle x, r.apart x))

  unlinked-Updated :
      Updated m
        (unlinked (last_of l.head xs) x (first_of ys l.head) m)
        (l.head ∷ xs ++ x ∷ ys)
        (record l { count_of = l.count_of - 1 })
        (xs ++ ys)
  unfolding count
  unlinked-Updated =
      let (p, q) = (Forward-split m.next l.head xs x ys l.head).0 r.forward in
      let (f, g) = (Backward-split m.prev l.head xs x ys l.head).0 r.backward in
      let skip = Forward-skip m.next l.head xs x ys l.head Distinct-next p q in
      let back = Backward-skip m.prev l.head xs x ys l.head Distinct-prev f g in
      record {
        now = record {
          forward =
              Forward-same (linked (last_of l.head xs) (first_of ys l.head) m).next
                (unlinked (last_of l.head xs) x (first_of ys l.head) m).next l.head (xs ++ ys)
                l.head (λ c i. ground (arith, absent)) skip;
          backward =
              Backward-same (linked (last_of l.head xs) (first_of ys l.head) m).prev
                (unlinked (last_of l.head xs) x (first_of ys l.head) m).prev l.head (xs ++ ys)
                l.head (λ c i. ground (arith, absent, count-concat c l.head (xs ++ ys))) back;
          apart = λ c. ground (arith, count-middle c, r.apart c);
          not_null = ground (arith, count-middle 0, r.not_null);
          counted = omega (arith, r.counted, length-append xs (x ∷ ys), length-append xs ys);
        };
        others = λ k zs s d.
            same_pointers m (unlinked (last_of l.head xs) x (first_of ys l.head) m) k zs
              (λ c i. ground (
                arith,
                d c i,
                last_of-count l.head xs,
                first_of-count ys l.head,
                count-middle c,
                count-append c xs ys,
                count-concat c l.head ys,
              ))
              s;
      }

  list_remove-ok :
      list_remove l x m
      ≡ ok (
        record l { count_of = l.count_of - 1 },
        unlinked (last_of l.head xs) x (first_of ys l.head) m,
      )
  unfolding list_remove count
  list_remove-ok =
      let n =
        Forward-first m.next x ys l.head
          ((Forward-split m.next l.head xs x ys l.head).0 r.forward).1 in
      let p =
        Backward-last m.prev l.head xs x
          ((Backward-split m.prev l.head xs x ys l.head).0 r.backward).0 in
      let a : 0 < last_of l.head xs =
        ground (arith, last_of-count l.head xs, r.not_null, count-middle 0, count-append 0 xs ys) in
      let b : 0 < first_of ys l.head = ground (
        arith,
        first_of-count ys l.head,
        r.not_null,
        count-middle 0,
        count-append 0 xs ys,
        count-concat 0 l.head ys,
      ) in
      rw (
        p,
        n,
        link_nodes-ok (last_of l.head xs) (first_of ys l.head) m a b,
        check_empty-ok (xs ++ ys) unlinked-Updated.now,
      )

-- `slab_list_remove` of a node that is on the list removes it, with no assertion failed, and the
-- list stands for what `remove_page` makes of its pages; any list that shares no node with it keeps
-- what it stands for.
pub list_remove-Updated :
    {l : PageList} {m : Nodes} (x : ℕ) (xs : List ℕ)
    → Represents l m xs
    → 0 < count x xs
    → (rest : List ℕ) × (l2 : PageList) × (m2 : Nodes) × (remove_page x xs ≡ ok rest)
      × (list_remove l x m ≡ ok (l2, m2))
      × Updated m m2 (l.head ∷ xs) l2 rest
list_remove-Updated {l = l} {m = m} x xs r i =
    let s = split_at x xs i in
    let r2 = subst (Represents l m) s.split r in
    (
      s.before ++ s.after,
      _,
      _,
      s.removed,
      list_remove-ok s.before x s.after r2,
      subst
          (λ zs.
            Updated m (unlinked (last_of l.head s.before) x (first_of s.after l.head) m)
              (l.head ∷ zs) (record l { count_of = l.count_of - 1 }) (s.before ++ s.after))
          (sym s.split) (unlinked-Updated s.before x s.after r2),
    )

-- The first node, or NULL.
pub list_pop_front-none :
    {l : PageList} {m : Nodes} → Represents l m [] → list_pop_front l m ≡ ok (none, l, m)
unfolding list_pop_front
list_pop_front-none {l = l} r = ground (arith, r.forward)

pub list_pop_front-Updated :
    {l : PageList} {m : Nodes} (x : ℕ) (xs : List ℕ)
    → Represents l m (x ∷ xs)
    → (l2 : PageList) × (m2 : Nodes) × (list_pop_front l m ≡ ok (some x, l2, m2))
      × Updated m m2 (l.head ∷ x ∷ xs) l2 xs
unfolding list_pop_front count
list_pop_front-Updated {l = l} {m = m} x xs r =
    let e : (x == l.head) ≡ false = ground (arith, r.apart l.head) in
    (_, _, rw (r.forward.0, e, list_remove-ok [] x xs r), unlinked-Updated [] x xs r)

-- ===== src/Slab/Alloc/Laws.antt =====
-- `slab_alloc` on every branch.
use tom_libs.Slab.Layout.{element}
use tom_libs.Slab.State.Lists.{count}
use tom_libs.Slab.Invariant.Update.{IsPage-of_listed}
use tom_libs.Common.{
  ◌==◌, ℕ, ◌+◌, ◌≡◌, refl, sym, ap, ◌∙◌, subst, false, ◌||◌, Option, none, some, List, [], ◌∷◌,
  arith,
}
use tom_libs.Slab.State.{Run, ok, ◌>>=◌, State, is_empty}
use tom_libs.Slab.Invariant.{Inv, live}
use tom_libs.Slab.Alloc.{grow, take_empty, claim, claim_head, claim_first, alloc}
use tom_libs.Slab.Alloc.Claim.{Claimed, claim_lem}
use tom_libs.Slab.Alloc.Grow.{
  IsFresh, Keeps, grow-Keeps, grow-partial, grow-empty, take_empty_runs, take_empty-Keeps,
  moved-partial,
}

-- A claim after a step that keeps all elements is a claim from the start.
Claimed-Keeps : {s t : State} {r : Run (Option ℕ × State)} → Keeps s t → Claimed t r → Claimed s r
Claimed-Keeps {s} {t} k c = record {
  base = c.base;
  idx = c.idx;
  after = c.after;
  aligned = c.aligned;
  bound = rw k.sizes.1 at c.bound;
  runs = rw k.sizes.0 at c.runs;
  inv = c.inv;
  sizes = (c.sizes.0 ∙ k.sizes.0, c.sizes.1 ∙ k.sizes.1);
  was_free =
      sym (k.lives _) ∙ subst (λ z. live t (element z c.base c.idx) ≡ false) k.sizes.0 c.was_free;
  lives = λ q.
      subst (λ z. live c.after q ≡ (live t q || (q == element z c.base c.idx))) k.sizes.0
        (c.lives q)
      ∙ rw (k.lives q);
}

claim_first_runs :
    (s : State) (b : ℕ) (bs : List ℕ) → s.partial ≡ b ∷ bs → claim_first s ≡ claim b s
unfolding claim_first
claim_first_runs s b bs e = ap (λ l. claim_head l s) e

-- The first page of the partial list is there once.
count_of_partial :
    {s : State} (b : ℕ) (bs : List ℕ) → Inv s → s.partial ≡ b ∷ bs → count b s.partial ≡ 1
unfolding count
count_of_partial {s} b bs inv e =
    let here : count b s.partial ≡ 1 + count b bs = ap (count b) e ∙ ground arith in
    let (f, eq, page) = IsPage-of_listed inv b (omega arith) in ground (arith, page.placed)

claim_first_lem :
    {s : State} (b : ℕ) (bs : List ℕ) → Inv s → s.partial ≡ b ∷ bs → Claimed s (claim_first s)
claim_first_lem {s} b bs inv e =
    subst (Claimed s) (sym (claim_first_runs s b bs e))
      (claim_lem b inv (count_of_partial b bs inv e))

-- The first empty page moves over, and gives an element.
from_empty :
    {s : State} (b : ℕ) (bs : List ℕ)
    → Inv s
    → s.partial ≡ []
    → s.empty ≡ b ∷ bs
    → Claimed s (take_empty s >>= claim_first)
from_empty {s} b bs inv p e = rw (take_empty_runs inv b bs e) (
    Claimed-Keeps (take_empty-Keeps inv b bs e)
      (claim_first_lem b [] (take_empty-Keeps inv b bs e).inv (moved-partial inv b bs e p)))

-- NULL, with the state unchanged, or an element that was free.
pub data Allocated (s : State) (fresh : Option ℕ) (r : Run (Option ℕ × State)) : Type 0 where
  null : fresh ≡ none → s.partial ≡ [] → s.empty ≡ [] → r ≡ ok (none, s) → Allocated s fresh r
  element_of : Claimed s r → Allocated s fresh r

alloc_partial :
    (fresh : Option ℕ) (s : State) (b : ℕ) (bs : List ℕ)
    → s.partial ≡ b ∷ bs
    → alloc fresh s ≡ claim_first s
unfolding alloc
alloc_partial fresh s b bs e = rw (e, is_empty)

alloc_empty :
    (fresh : Option ℕ) (s : State) (b : ℕ) (bs : List ℕ)
    → s.partial ≡ []
    → s.empty ≡ b ∷ bs
    → alloc fresh s ≡ (take_empty s >>= claim_first)
unfolding alloc
alloc_empty fresh s b bs p e = ground arith

alloc-grow :
    (b : ℕ) (s : State)
    → s.partial ≡ []
    → s.empty ≡ []
    → alloc (some b) s ≡ (take_empty (grow (some b) s).1 >>= claim_first)
unfolding alloc
alloc-grow b s p e = ground arith

alloc_null : (s : State) → s.partial ≡ [] → s.empty ≡ [] → alloc none s ≡ ok (none, s)
unfolding alloc
alloc_null s p e = ground arith

-- If the state is well formed, and a page that `SLAB_alloc_page` gives is aligned and not held,
-- `slab_alloc` neither aborts nor faults. Either it returns NULL, needing a page and being given
-- none, and the state stays as it is; or it returns an element that was free, and afterwards the
-- state is well formed and that element is allocated beside those that were.
pub alloc_lem :
    {s : State} (fresh : Option ℕ) → Inv s → IsFresh s fresh → Allocated s fresh (alloc fresh s)
alloc_lem {s} fresh inv new = by_lists s.partial s.empty fresh refl refl new
  where
    grown :
        (b : ℕ)
        → s.partial ≡ []
        → s.empty ≡ []
        → IsFresh s (some b)
        → Allocated s (some b) (alloc (some b) s)
    grown b p e n = rw (alloc-grow b s p e) (
        element_of (
          Claimed-Keeps (grow-Keeps inv b n)
            (from_empty b [] (grow-Keeps inv b n).inv (grow-partial b s p) (grow-empty b s e))))

    by_lists :
        (ps es : List ℕ) (o : Option ℕ)
        → s.partial ≡ ps
        → s.empty ≡ es
        → IsFresh s o
        → Allocated s o (alloc o s)
    by_lists (b ∷ bs) es o p e n =
        rw (alloc_partial o s b bs p) (element_of (claim_first_lem b bs inv p))
    by_lists [] (b ∷ bs) o p e n =
        rw (alloc_empty o s b bs p e) (element_of (from_empty b bs inv p e))
    by_lists [] [] none p e n = null refl p e (alloc_null s p e)
    by_lists [] [] (some b) p e n = grown b p e n

-- The invariant holds after `slab_alloc`.
pub alloc-Inv :
    {s t : State} {r : Option ℕ} (fresh : Option ℕ)
    → Inv s
    → IsFresh s fresh
    → alloc fresh s ≡ ok (r, t)
    → Inv t
alloc-Inv {s} {t} {r} fresh inv new e = by_result (alloc_lem fresh inv new)
  where
    by_result : Allocated s fresh (alloc fresh s) → Inv t
    by_result (null f p m run) =
        let same : ok (none, s) ≡ ok (r, t) = sym run ∙ e in subst Inv (cc same) inv
    by_result (element_of c) =
        let same : ok (some (element s.elemsz c.base c.idx), c.after) ≡ ok (r, t) =
          sym c.runs ∙ e in
        subst Inv (cc same) c.inv

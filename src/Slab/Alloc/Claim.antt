-- ===== src/Slab/Alloc/Claim.antt =====
-- `slab_alloc` from a partial page.
use tom_libs.Slab.Invariant.Element.{live-taken, live-element}
use tom_libs.Slab.Alloc.{fill, claim}
use tom_libs.Slab.Invariant.Update.{Touches, Inv-Touches, IsPage-of_listed, IsPage-of_footer}
use tom_libs.Common.{
  ltb, ◌==◌, if◌then◌else◌, ltb→lt, lt→ltb, Bool-cases, ℕ, ◌+◌, ◌%◌, ◌<◌, ◌≡◌, refl, ap, ◌∙◌, subst,
  inl, inr, true, false, not, ◌||◌, Option, some, List, arith,
}
use tom_libs.Slab.Avail.{clr_bit, get_bit, find_avail}
use tom_libs.Slab.Avail.Laws.{clr_bit-IsSized, get_bit-clr_bit}
use tom_libs.Slab.Avail.Count.{used-clr_bit, free_of_used-lt}
use tom_libs.Slab.Avail.Find.{IsFound, find_avail-IsLowest, find_avail_total}
use tom_libs.Slab.Layout.{page_size, element, get_base-node}
use tom_libs.Slab.State.{Run, ok, Footer, State, store, push_back}
use tom_libs.Slab.State.Lists.{count, count-concat, Removed, remove_page_total}
use tom_libs.Slab.Invariant.Update.{Touches, Inv-Touches, IsPage-of_listed, IsPage-of_footer}
use tom_libs.Slab.Invariant.{IsFooter, IsPlaced, Inv, live}

-- the footer once element `i` is taken
abbrev pub taken : Footer → ℕ → Footer
taken f i = record f { avail = clr_bit f.avail i; numelems = f.numelems + 1 }

module _ {maxelems : ℕ} {f : Footer} (ok_f : IsFooter maxelems f) (i : ℕ) (h : i < maxelems)
    (small : maxelems < 256) (bit : get_bit f.avail i ≡ true) where
  IsFooter-taken : IsFooter maxelems (taken f i)
  IsFooter-taken = record {
    signed = ok_f.signed;
    sized = clr_bit-IsSized f.avail i ok_f.sized (omega arith);
    beyond = λ j p.
        ground (arith, get_bit-clr_bit f.avail i ok_f.sized (omega arith) j, ok_f.beyond j p);
    counted =
        ground (arith, ok_f.counted, used-clr_bit f.avail i maxelems ok_f.sized (omega arith) bit);
  }

-- A claim of an element that was free: what was returned, and the state after it.
pub record Claimed (s : State) (r : Run (Option ℕ × State)) : Type 0 where
  pub base : ℕ
  pub idx : ℕ
  pub after : State
  pub aligned : base % page_size ≡ 0
  pub bound : idx < s.maxelems
  pub runs : r ≡ ok (some (element s.elemsz base idx), after)
  pub inv : Inv after
  pub sizes : (after.elemsz ≡ s.elemsz) × (after.maxelems ≡ s.maxelems)
  pub was_free : live s (element s.elemsz base idx) ≡ false
  pub lives : (q : ℕ) → live after q ≡ (live s q || (q == element s.elemsz base idx))

-- The element that the search finds.
record Found (maxelems : ℕ) (f : Footer) : Type 0 where
  idx : ℕ
  found : find_avail f.avail ≡ some idx
  bound : idx < maxelems
  bit : get_bit f.avail idx ≡ true

Found-of_room :
    {maxelems : ℕ} (f : Footer) → IsFooter maxelems f → f.numelems < maxelems → Found maxelems f
Found-of_room {maxelems} f ok_f h =
    let (i, p, q) = free_of_used-lt f.avail maxelems (omega (arith, ok_f.counted)) in
    let (j, e) = find_avail_total f.avail i ok_f.sized q in
    let low = subst (IsFound f.avail) e (find_avail-IsLowest f.avail ok_f.sized) in
    record {
      idx = j;
      found = e;
      bound = elim (Bool-cases (ltb j maxelems)) [
        | inl t ↦ ltb→lt j maxelems t
        | inr t ↦ absurd (ground (arith, ok_f.beyond j (ground arith), low.bit))
      ];
      bit = low.bit;
    }

-- Where the claim leaves the page: on the partial list, or moved to the full one.
claimed_state : ℕ → Footer → ℕ → List ℕ → State → State
claimed_state b f i rest s =
    let t = store s b (some (taken f i)) in
    if f.numelems + 1 == s.maxelems
    then record t { partial = rest; full = push_back b t.full }
    else t

module _ {s : State} (inv : Inv s) {b : ℕ} {f : Footer} (e : s.footer b ≡ some f) (i : ℕ)
    (h : i < s.maxelems) (bit : get_bit f.avail i ≡ true) (room : f.numelems < s.maxelems)
    (r : Removed b s.partial) (one : count b s.partial ≡ 1) where
  after : State
  after = claimed_state b f i r.rest s

  claimed-Touches : Touches b s after
  unfolding claimed_state after
  claimed-Touches = record {
    elemsz = ground arith;
    maxelems = ground arith;
    same = λ c n. record {
      footer = ground arith;
      empty = ground arith;
      partial = ground (arith, r.counts c);
      full = ground (arith, count-concat c b s.full);
    };
  }

  claimed_footer : after.footer b ≡ some (taken f i)
  unfolding claimed_state after
  claimed_footer = ground arith

  claimed-IsPlaced :
      IsPlaced s.maxelems
        (f.numelems + 1)
        (count b after.empty)
        (count b after.partial)
        (count b after.full)
  unfolding claimed_state after
  claimed-IsPlaced = ground (
    arith,
    r.counts b,
    count-concat b b s.full,
    (IsPage-of_footer inv e).placed,
    inv.sizes.maxelems_pos,
  )

  claimed-Inv : Inv after
  claimed-Inv = Inv-Touches claimed-Touches inv (
      rw (claimed_footer, claimed-Touches.maxelems)
        (record {
          aligned = (IsPage-of_footer inv e).aligned;
          footer = IsFooter-taken (IsPage-of_footer inv e).footer i h inv.sizes.maxelems_bits bit;
          placed = claimed-IsPlaced;
        }))

  -- The call ends in that state.
  claim_runs : find_avail f.avail ≡ some i → claim b s ≡ ok (some (element s.elemsz b i), after)
  unfolding claim fill claimed_state after
  claim_runs found =
      let base = get_base-node b (IsPage-of_footer inv e).aligned in
      rw (e, lt→ltb _ _ room, found, base) (ground (arith, r.removed))

  claim-Claimed : find_avail f.avail ≡ some i → Claimed s (claim b s)
  claim-Claimed found = record {
    base = b;
    idx = i;
    after = after;
    aligned = (IsPage-of_footer inv e).aligned;
    bound = h;
    runs = claim_runs found;
    inv = claimed-Inv;
    sizes = (claimed-Touches.elemsz, claimed-Touches.maxelems);
    was_free = live-element inv f e h ∙ ap not bit;
    lives = live-taken inv claimed-Touches f (taken f i) e claimed_footer h refl;
  }

-- A page on the partial list has a free element, and the claim of it succeeds.
pub claim_lem : {s : State} (b : ℕ) → Inv s → count b s.partial ≡ 1 → Claimed s (claim b s)
claim_lem {s} b inv one =
    let (f, e, page) = IsPage-of_listed inv b (omega arith) in
    let room : f.numelems < s.maxelems = ground (arith, page.placed) in
    let c = Found-of_room f page.footer room in
    claim-Claimed inv e c.idx c.bound c.bit room (remove_page_total b s.partial (omega arith)) one
      c.found

-- ===== src/Slab/Release/Laws.antt =====
-- `slab_release` of a page that is on the list it is released from.
use tom_libs.Slab.Layout.{page_size, get_base-node}
use tom_libs.Common.{
  ◌==◌, ℕ, ◌+◌, ◌%◌, ◌≤◌, ◌<◌, ◌≡◌, refl, false, none, some, List, [], ◌∷◌, ◌++◌, arith,
}
use tom_libs.Slab.State.{
  ok, Footer, footer_signature, Call, page_freed, call_all, State, store, remove_page,
}
use tom_libs.Slab.State.Lists.{count, Removed}
use tom_libs.Slab.Invariant.{IsListed, Inv}
use tom_libs.Slab.Invariant.Update.{SamePage, Touches, Inv-Touches, IsPage-of_listed}
use tom_libs.Slab.Release.{Which, on_empty, on_partial, on_full, pages_on, with_pages, release}

-- What `slab_release` adds to the calls: the destructor on each element, then the page goes back.
abbrev pub release_calls : State → ℕ → List Call
release_calls s b = call_all s.dtor b s.elemsz s.maxelems ++ page_freed b ∷ []

abbrev pub released_state : Which → ℕ → List ℕ → State → State
released_state w b rest s =
    let t = store (with_pages w rest s) b none in record t { calls = s.calls ++ release_calls s b }

pub count-pages_on-le :
    (w : Which) (b : ℕ) (s : State)
    → count b (pages_on w s) ≤ count b s.empty + count b s.partial + count b s.full
count-pages_on-le on_empty b s = omega arith
count-pages_on-le _ b s = omega arith

-- Page `b` was released, and `rest` is left of its list.
pub record Released (w : Which) (b : ℕ) (s : State) (rest : List ℕ) : Type 0 where
  pub runs : release w b s ≡ ok (released_state w b rest s)
  pub touch : Touches b s (released_state w b rest s)
  pub inv : Inv (released_state w b rest s)

release-SamePage :
    (w : Which) (b : ℕ) (s : State) (r : Removed b (pages_on w s)) (c : ℕ)
    → (c == b) ≡ false
    → SamePage s (released_state w b r.rest s) c
release-SamePage on_empty b s r c n = record {
  footer = ground arith;
  empty = ground (arith, r.counts c);
  partial = ground (arith, r.counts c);
  full = ground (arith, r.counts c);
}
release-SamePage _ b s r c n = record {
  footer = ground arith;
  empty = ground (arith, r.counts c);
  partial = ground (arith, r.counts c);
  full = ground (arith, r.counts c);
}

release-Touches :
    (w : Which) (b : ℕ) (s : State) (r : Removed b (pages_on w s))
    → Touches b s (released_state w b r.rest s)
release-Touches on_empty b s r = record {
  elemsz = refl;
  maxelems = refl;
  same = release-SamePage on_empty b s r;
}
release-Touches on_partial b s r = record {
  elemsz = refl;
  maxelems = refl;
  same = release-SamePage on_partial b s r;
}
release-Touches on_full b s r = record {
  elemsz = refl;
  maxelems = refl;
  same = release-SamePage on_full b s r;
}

-- The page stood on one list, once, so it stands on none.
release_unlisted :
    (w : Which) (b : ℕ) (s : State) (r : Removed b (pages_on w s))
    → count b s.empty + count b s.partial + count b s.full ≡ 1
    → IsListed s.maxelems b
        (count b (released_state w b r.rest s).empty)
        (count b (released_state w b r.rest s).partial)
        (count b (released_state w b r.rest s).full)
        none
release_unlisted on_empty b s r one = ground (arith, r.counts b)
release_unlisted _ b s r one = ground (arith, r.counts b)

release_gone :
    (w : Which) (b : ℕ) (s : State) (rest : List ℕ) → (released_state w b rest s).footer b ≡ none
release_gone on_empty b s rest = ground arith
release_gone _ b s rest = ground arith

release_runs :
    (w : Which) (b : ℕ) (s : State) {f : Footer} {rest : List ℕ}
    → s.footer b ≡ some f
    → f.signature ≡ footer_signature
    → b % page_size ≡ 0
    → remove_page b (pages_on w s) ≡ ok rest
    → release w b s ≡ ok (released_state w b rest s)
unfolding release
release_runs w b s e sig aligned removed =
    let base = get_base-node b aligned in rw (e, sig, removed, base)

pub release_lem :
    {s : State} (w : Which) (b : ℕ) → Inv s → (r : Removed b (pages_on w s)) → Released w b s r.rest
release_lem {s} w b inv r =
    let here : 0 < count b (pages_on w s) = ground (arith, r.counts b) in
    let (f, e, page) = IsPage-of_listed inv b (omega (arith, count-pages_on-le w b s)) in
    let one : count b s.empty + count b s.partial + count b s.full ≡ 1 =
      ground (arith, page.placed) in
    record {
      runs = release_runs w b s e page.footer.signed page.aligned r.removed;
      touch = release-Touches w b s r;
      inv =
          Inv-Touches (release-Touches w b s r) inv
            (rw (release_gone w b s r.rest) (release_unlisted w b s r one));
    }

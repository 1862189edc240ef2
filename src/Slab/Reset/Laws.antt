-- ===== src/Slab/Reset/Laws.antt =====
-- `slab_reset` leaves every page, and no element.
use tom_libs.Slab.Layout.{get_base}
use tom_libs.Slab.Release.Trim.{live-empty}
use tom_libs.Slab.Release.Laws.{count-pages_on-le}
use tom_libs.Common.{
  ◌==◌, if◌then◌else◌, length, length-append, ℕ, ◌+◌, ◌<◌, ◌≡◌, refl, ap, ◌∙◌, inl, false, Option,
  none, some, List, [], ◌∷◌, arith,
}
use tom_libs.Slab.Avail.{set_bits}
use tom_libs.Slab.Avail.Laws.{set_bits-IsSized, get_bit-set_bits}
use tom_libs.Slab.Avail.Count.{used_of_get_bit}
use tom_libs.Slab.State.{Run, ok, Footer, State, store, remove_page, push_back}
use tom_libs.Slab.State.Lists.{count, count-concat, count_head, Removed, removed_head}
use tom_libs.Slab.Invariant.{IsFooter, PageInv, Inv, live}
use tom_libs.Slab.Invariant.Update.{Touches, Inv-Touches, live_page, IsPage-of_listed}
use tom_libs.Slab.Release.{Which, on_empty, on_partial, on_full, pages_on, with_pages}
use tom_libs.Slab.Reset.{reset_page, reset_each, reset}

-- the footer that `slab_reset_list` leaves
abbrev reset_footer : ℕ → Footer → Footer
reset_footer n f = record f { avail = set_bits n f.avail; numelems = 0 }

IsFooter-reset : (n : ℕ) (f : Footer) → n < 256 → IsFooter n f → IsFooter n (reset_footer n f)
IsFooter-reset n f h ok_f =
    let bits = λ (i : ℕ). get_bit-set_bits n f.avail i ok_f.sized (omega arith) in
    record {
      signed = ok_f.signed;
      sized = set_bits-IsSized n f.avail ok_f.sized (omega arith);
      beyond = λ i p. ground (arith, bits i, ok_f.beyond i p);
      counted =
          omega (arith, used_of_get_bit (set_bits n f.avail) n (λ i p. ground (arith, bits i)));
    }

-- The list that is reset is not the empty list.
abbrev pub IsTaken : Which → Type 0
IsTaken on_empty = ⊥
IsTaken _ = Unit {0}

abbrev reset_state : Which → ℕ → List ℕ → Footer → State → State
reset_state w b rest f s =
    let t = with_pages w rest s in
    record (store t b (some (reset_footer s.maxelems f))) { empty = push_back b t.empty }

reset_runs :
    (w : Which) (b : ℕ) (s : State) {f : Footer} {rest : List ℕ}
    → s.footer b ≡ some f
    → remove_page b (pages_on w s) ≡ ok rest
    → reset_page w b s ≡ ok (reset_state w b rest f s)
unfolding reset_page
reset_runs on_empty b s e r = rw (e, r)
reset_runs on_partial b s e r = rw (e, r)
reset_runs on_full b s e r = rw (e, r)

reset-Touches :
    (w : Which) (b : ℕ) (s : State) (f : Footer) (r : Removed b (pages_on w s))
    → IsTaken w
    → Touches b s (reset_state w b r.rest f s)
reset-Touches on_empty b s f r h = absurd h
reset-Touches _ b s f r h = record {
  elemsz = refl;
  maxelems = refl;
  same = λ c n. record {
    footer = ground arith;
    empty = ground (arith, count-concat c b s.empty);
    partial = ground (arith, r.counts c);
    full = ground (arith, r.counts c);
  };
}

reset_placed :
    (w : Which) (b : ℕ) (s : State) (f : Footer) (r : Removed b (pages_on w s))
    → IsTaken w
    → count b s.empty + count b s.partial + count b s.full ≡ 1
    → (count b (reset_state w b r.rest f s).empty ≡ 1)
      × (count b (reset_state w b r.rest f s).partial ≡ 0)
      × (count b (reset_state w b r.rest f s).full ≡ 0)
reset_placed on_empty b s f r h one = absurd h
reset_placed _ b s f r h one = ground (arith, r.counts b, count-concat b b s.empty)

-- What the loop over the pages of one list leaves.
pub record ResetList (w : Which) (xs : List ℕ) (s : State) (r : Run State) : Type 0 where
  pub after : State
  pub runs : r ≡ ok after
  pub inv : Inv after
  pub partial : after.partial ≡ (with_pages w [] s).partial
  pub full : after.full ≡ (with_pages w [] s).full
  pub pages : length after.empty ≡ length s.empty + length xs
  pub counts : (c : ℕ) → count c after.empty ≡ count c s.empty + count c xs

record ResetPage (w : Which) (b : ℕ) (bs : List ℕ) (s : State) : Type 0 where
  after : State
  runs : reset_page w b s ≡ ok after
  inv : Inv after
  left : pages_on w after ≡ bs
  partial : (with_pages w [] after).partial ≡ (with_pages w [] s).partial
  full : (with_pages w [] after).full ≡ (with_pages w [] s).full
  pages : length after.empty ≡ length s.empty + 1
  counts : (c : ℕ) → count c after.empty ≡ count c s.empty + (if c == b then 1 else 0)

reset_left :
    (w : Which) (b : ℕ) (bs : List ℕ) (f : Footer) (s : State)
    → IsTaken w
    → (pages_on w (reset_state w b bs f s) ≡ bs)
      × ((with_pages w [] (reset_state w b bs f s)).partial ≡ (with_pages w [] s).partial)
      × ((with_pages w [] (reset_state w b bs f s)).full ≡ (with_pages w [] s).full)
      × (length (reset_state w b bs f s).empty ≡ length s.empty + 1)
      × ((c : ℕ)
          → count c (reset_state w b bs f s).empty ≡ count c s.empty + (if c == b then 1 else 0))
reset_left on_empty b bs f s h = absurd h
reset_left on_partial b bs f s h =
    (refl, refl, refl, length-append s.empty (b ∷ []), λ c. count-concat c b s.empty)
reset_left on_full b bs f s h =
    (refl, refl, refl, length-append s.empty (b ∷ []), λ c. count-concat c b s.empty)

reset_page_lem :
    (w : Which) (b : ℕ) (bs : List ℕ) {s : State}
    → Inv s
    → IsTaken w
    → pages_on w s ≡ b ∷ bs
    → ResetPage w b bs s
unfolding removed_head
reset_page_lem w b bs {s} inv h e =
    let here : 0 < count b (pages_on w s) = omega (arith, count_head b bs e) in
    let (f, eq, page) = IsPage-of_listed inv b (omega (arith, count-pages_on-le w b s)) in
    let r = removed_head b bs e in
    let placed = reset_placed w b s f r h (ground (arith, page.placed)) in
    let left = reset_left w b bs f s h in
    let touch = reset-Touches w b s f r h in
    let written : (reset_state w b bs f s).footer b ≡ some (reset_footer s.maxelems f) =
      ground arith in
    record {
      after = reset_state w b bs f s;
      runs = reset_runs w b s eq r.removed;
      inv = Inv-Touches touch inv (
          rw (written, touch.maxelems, placed.0, placed.1, placed.2)
            (record {
              aligned = page.aligned;
              footer = IsFooter-reset s.maxelems f inv.sizes.maxelems_bits page.footer;
              placed = inl (refl, refl, refl, refl);
            }));
      left = left.0;
      partial = left.1;
      full = left.2;
      pages = left.3;
      counts = left.4;
    }

left_nil :
    (w : Which) (s : State)
    → pages_on w s ≡ []
    → (s.partial ≡ (with_pages w [] s).partial) × (s.full ≡ (with_pages w [] s).full)
left_nil on_empty s e = (refl, refl)
left_nil on_partial s e = (e, refl)
left_nil on_full s e = (refl, e)

reset_each_lem :
    (w : Which) (xs : List ℕ) {s : State}
    → Inv s
    → IsTaken w
    → pages_on w s ≡ xs
    → ResetList w xs s (reset_each w xs s)
unfolding reset_each count
reset_each_lem w [] {s} inv h e = record {
  after = s;
  runs = refl;
  inv = inv;
  partial = (left_nil w s e).0;
  full = (left_nil w s e).1;
  pages = omega arith;
  counts = λ c. omega arith;
}
reset_each_lem w (b ∷ bs) {s} inv h e =
    let p = reset_page_lem w b bs inv h e in
    let t = reset_each_lem w bs p.inv h p.left in
    record {
      after = t.after;
      runs = rw (p.runs, t.runs);
      inv = t.inv;
      partial = t.partial ∙ p.partial;
      full = t.full ∙ p.full;
      pages = omega (arith, t.pages, p.pages);
      counts = λ c. omega (arith, t.counts c, p.counts c);
    }

-- With every page on the empty list no element is live.
live-idle : {s : State} (inv : Inv s) (q : ℕ) → s.partial ≡ [] → s.full ≡ [] → live s q ≡ false
unfolding count
live-idle {s} inv q p f = go (s.footer (get_base q)) refl (inv.pages (get_base q))
  where
    go :
        (o : Option Footer)
        → s.footer (get_base q) ≡ o
        → PageInv s (get_base q) o
        → live s q ≡ false
    go none e l = live_page s q refl e
    go (some g) e l =
        let np : count (get_base q) s.partial ≡ 0 = ap (count (get_base q)) p in
        let nf : count (get_base q) s.full ≡ 0 = ap (count (get_base q)) f in
        live-empty inv (get_base q) q (ground (arith, l.placed)) refl

-- What `slab_reset` leaves.
pub record Reset (s : State) (r : Run State) : Type 0 where
  pub after : State
  pub runs : r ≡ ok after
  pub inv : Inv after
  pub lives : (q : ℕ) → live after q ≡ false
  pub lists : (after.partial ≡ []) × (after.full ≡ [])
  pub pages : length after.empty ≡ length s.empty + length s.partial + length s.full
  pub same_pages :
      (c : ℕ) → count c after.empty ≡ count c s.empty + count c s.partial + count c s.full

-- From a well-formed state, `slab_reset` neither aborts nor faults. The state stays well formed, no
-- element is allocated, and the pages of the three lists are, page by page, those of the empty list
-- afterwards.
pub reset_lem : {s : State} → Inv s → Reset s (reset s)
unfolding reset
reset_lem {s} inv =
    let p = reset_each_lem on_partial s.partial inv tt refl in
    let f = reset_each_lem on_full p.after.full p.inv tt refl in
    record {
      after = f.after;
      runs = rw (p.runs, f.runs);
      inv = f.inv;
      lives = λ q. live-idle f.inv q (f.partial ∙ p.partial) f.full;
      lists = (f.partial ∙ p.partial, f.full);
      pages = omega (arith, f.pages, p.pages, ap length p.full);
      same_pages = λ c. omega (arith, f.counts c, p.counts c, ap (count c) p.full);
    }

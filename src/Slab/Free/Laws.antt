-- ===== src/Slab/Free/Laws.antt =====
-- `slab_free` of an element, of an element that is free already, and of a foreign pointer.
use tom_libs.Slab.Avail.Count.{used, used-set_bit}
use tom_libs.Slab.Invariant.Element.{live-given, live-element}
use tom_libs.Common.{
  ◌==◌, lt→ltb, length, ℕ, ◌+◌, ◌-◌, ◌≤◌, ◌<◌, ◌≡◌, refl, sym, ap, ◌∙◌, subst, true, false, not,
  ◌&&◌, Option, none, some, List, arith,
}
use tom_libs.Slab.Avail.{get_bit}
use tom_libs.Slab.Layout.{get_base, element, index_of}
use tom_libs.Slab.State.{Run, ok, aborted, Footer, footer_signature, same_bytes, State}
use tom_libs.Slab.Invariant.{Inv, live_at, live}
use tom_libs.Slab.Invariant.Update.{IsPage-of_footer}
use tom_libs.Slab.Invariant.Live.{mul_of_mod}
use tom_libs.Slab.Release.{trim}
use tom_libs.Slab.Release.Trim.{trim_lem}
use tom_libs.Slab.Free.{settle, free}
use tom_libs.Slab.Free.Settle.{given, numelems_pos, settle_lem}

-- What is known of an allocated address.
pub record IsElement (s : State) (p : ℕ) : Type 0 where
  pub footer : Footer
  pub written : s.footer (get_base p) ≡ some footer
  pub bound : index_of s.elemsz p < s.maxelems
  pub taken : get_bit footer.avail (index_of s.elemsz p) ≡ false
  pub address : p ≡ element s.elemsz (get_base p) (index_of s.elemsz p)

pub IsElement-of_live : {s : State} (p : ℕ) → Inv s → live s p ≡ true → IsElement s p
unfolding live
IsElement-of_live {s} p inv h = go (s.footer (get_base p)) refl h
  where
    go :
        (o : Option Footer)
        → s.footer (get_base p) ≡ o
        → live_at s.elemsz s.maxelems o (p - get_base p) ≡ true
        → IsElement s p
    go none e l = absurd (ground arith)
    go (some f) e l = record {
      footer = f;
      written = e;
      bound = ground arith;
      taken = ground arith;
      address =
          ground
            (arith, mul_of_mod s.elemsz (p - get_base p) (omega (arith, inv.sizes.elemsz_min)));
    }

signed_same : (xs : List ℕ) → xs ≡ footer_signature → same_bytes xs footer_signature ≡ true
unfolding same_bytes
signed_same xs e = rw e

-- The run of `slab_free` up to the call of `slab_trim`.
free_runs :
    (s : State) (p : ℕ) (f : Footer) {t : State}
    → s.footer (get_base p) ≡ some f
    → f.signature ≡ footer_signature
    → get_bit f.avail (index_of s.elemsz p) ≡ false
    → 0 < f.numelems
    → settle (get_base p) (given f (index_of s.elemsz p)) s ≡ ok t
    → free (some p) s ≡ trim t
unfolding free
free_runs s p f e sig bit pos run =
    rw (e, signed_same f.signature sig, bit, lt→ltb 0 f.numelems pos, run)

-- An element was freed.
pub record Freed (s : State) (p : ℕ) (r : Run State) : Type 0 where
  pub after : State
  pub runs : r ≡ ok after
  pub inv : Inv after
  pub lives : (q : ℕ) → live after q ≡ (live s q && not (q == p))
  pub bounded : length after.empty ≤ length after.full + length after.partial

-- Given a well-formed state and an allocated element, `slab_free` neither aborts nor faults. The
-- state stays well formed, exactly that element is free afterwards, and there are no more empty
-- pages than others.
pub free_lem : {s : State} (p : ℕ) → Inv s → live s p ≡ true → Freed s p (free (some p) s)
free_lem {s} p inv h =
    let el = IsElement-of_live p inv h in
    let f = el.footer in
    let page = IsPage-of_footer inv el.written in
    let st = settle_lem inv el.written (index_of s.elemsz p) el.bound el.taken in
    let t = trim_lem st.inv in
    let pos = numelems_pos inv el.written (index_of s.elemsz p) el.bound el.taken in
    record {
      after = t.after;
      runs = free_runs s p f el.written page.footer.signed el.taken pos st.runs ∙ t.runs;
      inv = t.inv;
      lives = λ q.
          t.lives q
          ∙ subst (λ z. live st.after q ≡ (live s q && not (q == z))) (sym el.address)
              (live-given inv st.touch f st.footer el.written st.written el.bound st.avail q);
      bounded = t.bounded;
    }

bit_of_dead :
    {s : State} (p : ℕ) {f : Footer}
    → Inv s
    → s.footer (get_base p) ≡ some f
    → p ≡ element s.elemsz (get_base p) (index_of s.elemsz p)
    → index_of s.elemsz p < s.maxelems
    → live s p ≡ false
    → get_bit f.avail (index_of s.elemsz p) ≡ true
bit_of_dead {s} p {f} inv e a h l =
    ground (arith, sym (live-element inv f e h) ∙ ap (live s) (sym a) ∙ l)

-- In a well-formed state, `slab_free` aborts on the address of an element of a page that is held if
-- the element is not allocated, such as one that was freed before.
pub free_double :
    {s : State} (p : ℕ) {f : Footer}
    → Inv s
    → s.footer (get_base p) ≡ some f
    → p ≡ element s.elemsz (get_base p) (index_of s.elemsz p)
    → index_of s.elemsz p < s.maxelems
    → live s p ≡ false
    → free (some p) s ≡ aborted
unfolding free
free_double {s} p inv e a h l =
    rw (e, signed_same _ (IsPage-of_footer inv e).footer.signed, bit_of_dead p inv e a h l)

-- In a well-formed state, let the page of an allocated element have a counter above 1 that is below
-- the number of elements of a page. `slab_free` of the element leaves the counter as it is, though
-- one element fewer is taken on the page.
pub free_counter :
    {s : State} (p : ℕ) {f : Footer}
    → Inv s
    → live s p ≡ true
    → s.footer (get_base p) ≡ some f
    → 1 < f.numelems
    → f.numelems < s.maxelems
    → (t : State) × (g : Footer) × (free (some p) s ≡ ok t)
      × (t.footer (get_base p) ≡ some g)
      × (g.numelems ≡ f.numelems)
      × (used f.avail s.maxelems ≡ used g.avail s.maxelems + 1)
free_counter {s} p {f} inv h e lo hi =
    let el = IsElement-of_live p inv h in
    let page = IsPage-of_footer inv e in
    let i = index_of s.elemsz p in
    let bit : get_bit f.avail i ≡ false =
      ground (arith, sym (live-element inv f e el.bound) ∙ ap (live s) (sym el.address) ∙ h) in
    let st = settle_lem inv e i el.bound bit in
    let t = trim_lem st.inv in
    let num : st.footer.numelems ≡ f.numelems = ground (arith, st.numelems) in
    let listed = (IsPage-of_footer st.inv st.written).placed in
    (
      t.after,
      st.footer,
      free_runs s p f e page.footer.signed bit (omega arith) st.runs ∙ t.runs,
      t.same (get_base p) (ground (arith, listed)) ∙ st.written,
      num,
      rw (st.avail) (
          ground (
            arith,
            used-set_bit f.avail i s.maxelems page.footer.sized
                (omega (arith, el.bound, inv.sizes.maxelems_bits)) bit,
            el.bound,
          )),
    )

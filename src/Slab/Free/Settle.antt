-- ===== src/Slab/Free/Settle.antt =====
-- The branches of `slab_free` on the element counter.
use tom_libs.Common.{
  ◌==◌, if◌then◌else◌, ℕ, zero, suc, ◌+◌, ◌-◌, ◌≤◌, ◌<◌, ◌≡◌, refl, ◌≢◌, true, false, ◌||◌, some,
  arith, ℕ_discrete,
}
use tom_libs.Slab.Avail.{Avail, set_bit, get_bit}
use tom_libs.Slab.Avail.Laws.{set_bit-IsSized, get_bit-set_bit}
use tom_libs.Slab.Avail.Count.{used, used-set_bit, get_bit_of_unused}
use tom_libs.Slab.State.{ok, Footer, State, store, push_back}
use tom_libs.Slab.State.Lists.{count, count-concat, remove_page_total}
use tom_libs.Slab.Invariant.{IsFooter, IsPlaced, IsPage, Inv}
use tom_libs.Slab.Invariant.Update.{Touches, Inv-Touches, IsPage-of_footer}
use tom_libs.Slab.Free.{all_avail, settle}

-- the footer once the bit of element `i` is set again
abbrev pub given : Footer → ℕ → Footer
given f i = record f { avail = set_bit f.avail i }

-- The consistency check passes on a page with nothing taken.
all_avail_of_unused :
    (n : ℕ) (b : Avail) → ((i : ℕ) → i < n → get_bit b i ≡ true) → all_avail n b ≡ true
unfolding all_avail
all_avail_of_unused zero b h = refl
all_avail_of_unused (suc n) b h =
    ground (arith, h n (omega arith), all_avail_of_unused n b (λ i p. h i (omega arith)))

-- Where a page is left: its footer has the given bits, and all else is as before.
pub record Settled (b : ℕ) (f : Footer) (s : State) : Type 0 where
  pub after : State
  pub footer : Footer
  pub runs : settle b f s ≡ ok after
  pub touch : Touches b s after
  pub inv : Inv after
  pub written : after.footer b ≡ some footer
  pub avail : footer.avail ≡ f.avail
  pub numelems :
      footer.numelems
      ≡ (if f.numelems == s.maxelems || f.numelems == 1 then f.numelems - 1 else f.numelems)

module _ {s : State} (inv : Inv s) {b : ℕ} {f : Footer} (e : s.footer b ≡ some f) (i : ℕ)
    (h : i < s.maxelems) (bit : get_bit f.avail i ≡ false) where
  page : IsPage s.maxelems b (count b s.empty) (count b s.partial) (count b s.full) f
  page = IsPage-of_footer inv e

  -- one element fewer is taken than before
  used-given : used f.avail s.maxelems ≡ used (given f i).avail s.maxelems + 1
  used-given = ground (
    arith,
    used-set_bit f.avail i s.maxelems page.footer.sized (omega (arith, inv.sizes.maxelems_bits))
        bit,
  )

  pub numelems_pos : 0 < f.numelems
  numelems_pos = omega (arith, used-given, page.footer.counted)

  IsFooter-given :
      (n : ℕ) → f.numelems ≤ n + 1 → IsFooter s.maxelems (record (given f i) { numelems = n })
  IsFooter-given n le = record {
    signed = page.footer.signed;
    sized = set_bit-IsSized f.avail i page.footer.sized (omega (arith, inv.sizes.maxelems_bits));
    beyond = λ j p. ground (
      arith,
      get_bit-set_bit f.avail i page.footer.sized (omega (arith, inv.sizes.maxelems_bits)) j,
      page.footer.beyond j p,
    );
    counted = omega (arith, used-given, page.footer.counted);
  }

  -- the footer with its counter at `n`
  counted_footer : ℕ → Footer
  counted_footer n = record (given f i) { numelems = n }

  settled :
      (n : ℕ) (t : State)
      → f.numelems ≤ n + 1
      → n ≡ (if f.numelems == s.maxelems || f.numelems == 1 then f.numelems - 1 else f.numelems)
      → settle b (given f i) s ≡ ok t
      → Touches b s t
      → t.footer b ≡ some (counted_footer n)
      → IsPlaced s.maxelems n (count b t.empty) (count b t.partial) (count b t.full)
      → Settled b (given f i) s
  unfolding counted_footer
  settled n t le num runs touch written placed = record {
    after = t;
    footer = counted_footer n;
    runs = runs;
    touch = touch;
    inv = Inv-Touches touch inv (
        rw (written, touch.maxelems)
          (record { aligned = page.aligned; footer = IsFooter-given n le; placed = placed }));
    written = written;
    avail = refl;
    numelems = num;
  }

  settle_full : f.numelems ≡ s.maxelems → Settled b (given f i) s
  unfolding counted_footer
  settle_full m =
      let r = remove_page_total b s.full (ground (arith, page.placed, numelems_pos)) in
      let t = store s b (some (counted_footer (f.numelems - 1))) in
      settled (f.numelems - 1) (record t { full = r.rest; partial = push_back b s.partial })
        (omega arith) (ground arith) (unfold settle in ground (arith, r.removed))
        (record {
          elemsz = refl;
          maxelems = refl;
          same = λ c n. record {
            footer = ground arith;
            empty = refl;
            partial = ground (arith, count-concat c b s.partial);
            full = ground (arith, r.counts c);
          };
        })
        (ground arith)
        (ground (arith, page.placed, numelems_pos, r.counts b, count-concat b b s.partial))

  settle_last : f.numelems ≢ s.maxelems → f.numelems ≡ 1 → Settled b (given f i) s
  unfolding counted_footer
  settle_last m one =
      let r = remove_page_total b s.partial (ground (arith, page.placed)) in
      let t = store s b (some (counted_footer 0)) in
      let unused : used (given f i).avail s.maxelems ≡ 0 =
        omega (arith, used-given, page.footer.counted) in
      let consistent : all_avail s.maxelems (given f i).avail ≡ true =
        all_avail_of_unused s.maxelems (given f i).avail
          (λ j p. get_bit_of_unused (given f i).avail s.maxelems j unused p) in
      settled 0 (record t { partial = r.rest; empty = push_back b s.empty }) (omega arith)
        (ground arith) (unfold settle in ground (arith, r.removed, consistent))
        (record {
          elemsz = refl;
          maxelems = refl;
          same = λ c n. record {
            footer = ground arith;
            empty = ground (arith, count-concat c b s.empty);
            partial = ground (arith, r.counts c);
            full = refl;
          };
        })
        (ground arith) (ground (arith, page.placed, r.counts b, count-concat b b s.empty))

  settle_other : f.numelems ≢ s.maxelems → f.numelems ≢ 1 → Settled b (given f i) s
  unfolding counted_footer
  settle_other m one =
      settled f.numelems (store s b (some (counted_footer f.numelems))) (omega arith) (ground arith)
        (unfold settle in ground arith)
        (record {
          elemsz = refl;
          maxelems = refl;
          same = λ c n. record { footer = ground arith; empty = refl; partial = refl; full = refl };
        })
        (ground arith) (ground (arith, page.placed))

  -- Whatever the counter says, the page ends on the list that its new counter calls for.
  pub settle_lem : Settled b (given f i) s
  settle_lem = elim (ℕ_discrete f.numelems s.maxelems) [
    | yes m ↦ settle_full m
    | no m ↦ elim (ℕ_discrete f.numelems 1) [
      | yes one ↦ settle_last m one
      | no other ↦ settle_other m other
    ]
  ]

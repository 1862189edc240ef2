-- ===== src/Slab/Alloc/Grow.antt =====
-- `slab_grow`, and the move of an empty page to the partial list.
use tom_libs.Common.{
  ◌==◌, if◌then◌else◌, ==_iff, Bool-cases, ℕ, ◌+◌, ◌-◌, ◌/◌, ◌%◌, ◌<◌, ◌≡◌, refl, sym, ap, ◌∙◌,
  subst, inl, inr, false, Option, none, some, List, [], ◌∷◌, arith,
}
use tom_libs.Slab.Avail.{no_avail, set_bits}
use tom_libs.Slab.Avail.Laws.{
  no_avail-IsSized, get_bit-no_avail, set_bits-IsSized, get_bit-set_bits,
}
use tom_libs.Slab.Avail.Count.{used_of_get_bit}
use tom_libs.Slab.Layout.{page_size, get_base}
use tom_libs.Slab.State.{ok, State, push_back}
use tom_libs.Slab.State.Lists.{count, count-concat}
use tom_libs.Slab.Invariant.{IsFooter, IsListed, PageInv, Inv, live_at, live}
use tom_libs.Slab.Invariant.Update.{Touches, Inv-Touches, live-Touches, live_page, IsPage-of_listed}
use tom_libs.Slab.Alloc.{new_footer, grow, take_empty}

-- What `SLAB_alloc_page` may return: NULL, or an aligned page that the allocator does not hold.
abbrev pub IsFresh : State → Option ℕ → Type 0
IsFresh s none = Unit {0}
IsFresh s (some b) = (b % page_size ≡ 0) × (s.footer b ≡ none)

-- A step that allocates and frees no element.
pub record Keeps (s t : State) : Type 0 where
  pub inv : Inv t
  pub sizes : (t.elemsz ≡ s.elemsz) × (t.maxelems ≡ s.maxelems)
  pub lives : (q : ℕ) → live t q ≡ live s q

pub IsFooter-new : (n : ℕ) → n < 256 → IsFooter n (new_footer n)
unfolding new_footer
IsFooter-new n h =
    let bits = λ (i : ℕ). get_bit-set_bits n no_avail i no_avail-IsSized (omega arith) in
    record {
      signed = refl;
      sized = set_bits-IsSized n no_avail no_avail-IsSized (omega arith);
      beyond = λ i p. ground (arith, bits i, get_bit-no_avail i);
      counted =
          omega (arith, used_of_get_bit (set_bits n no_avail) n (λ i p. ground (arith, bits i)));
    }

-- No element of the new page is live.
live_at-new : (e n off : ℕ) → n < 256 → live_at e n (some (new_footer n)) off ≡ false
unfolding new_footer
live_at-new e n off h =
    ground (arith, get_bit-set_bits n no_avail (off / e) no_avail-IsSized (omega arith))

module _ {s : State} (inv : Inv s) (b : ℕ) (new : IsFresh s (some b)) where
  grow-Touches : Touches b s (grow (some b) s).1
  unfolding grow
  grow-Touches = record {
    elemsz = refl;
    maxelems = refl;
    same = λ c n. record {
      footer = ground arith;
      empty = ground (arith, count-concat c b s.empty);
      partial = refl;
      full = refl;
    };
  }

  unlisted : IsListed s.maxelems b (count b s.empty) (count b s.partial) (count b s.full) none
  unlisted = subst (PageInv s b) new.1 (inv.pages b)

  grow_footer : (grow (some b) s).1.footer b ≡ some (new_footer s.maxelems)
  unfolding grow
  grow_footer = ground arith

  grow-PageInv : PageInv (grow (some b) s).1 b (some (new_footer s.maxelems))
  unfolding grow new_footer
  grow-PageInv = record {
    aligned = new.0;
    footer = IsFooter-new s.maxelems inv.sizes.maxelems_bits;
    placed = ground (arith, count-concat b b s.empty, unlisted);
  }

  pub grow-Keeps : Keeps s (grow (some b) s).1
  grow-Keeps = record {
    inv = Inv-Touches grow-Touches inv (rw grow_footer grow-PageInv);
    sizes = (grow-Touches.elemsz, grow-Touches.maxelems);
    lives = λ q. elim (Bool-cases (get_base q == b)) [
      | inl p ↦
          let p' : get_base q ≡ b = (==_iff _ _).0 p in
          live_page _ q p' grow_footer
          ∙ rw (grow-Touches.maxelems) (live_at-new _ s.maxelems (q - b) inv.sizes.maxelems_bits)
          ∙ sym (live_page s q p' new.1)
      | inr p ↦ live-Touches grow-Touches q p
    ];
  }

pub grow-partial : (b : ℕ) (s : State) → s.partial ≡ [] → (grow (some b) s).1.partial ≡ []
unfolding grow
grow-partial b s p = p

pub grow-empty : (b : ℕ) (s : State) → s.empty ≡ [] → (grow (some b) s).1.empty ≡ b ∷ []
unfolding grow
grow-empty b s e = rw e

-- The first empty page moves to the end of the partial list.
module _ {s : State} (inv : Inv s) (b : ℕ) (bs : List ℕ) (e : s.empty ≡ b ∷ bs) where
  pub moved : State
  moved = record s { empty = bs; partial = push_back b s.partial }

  count_of_empty : (c : ℕ) → count c s.empty ≡ (if c == b then 1 else 0) + count c bs
  unfolding count
  count_of_empty c = ap (count c) e

  moved-Touches : Touches b s moved
  unfolding moved
  moved-Touches = record {
    elemsz = refl;
    maxelems = refl;
    same = λ c n. record {
      footer = refl;
      empty = ground (arith, count_of_empty c);
      partial = ground (arith, count-concat c b s.partial);
      full = refl;
    };
  }

  moved-PageInv : PageInv moved b (moved.footer b)
  unfolding moved
  moved-PageInv =
      let (f, eq, page) = IsPage-of_listed inv b (ground (arith, count_of_empty b)) in
      rw eq (record {
        aligned = page.aligned;
        footer = page.footer;
        placed = ground (
          arith,
          page.placed,
          count_of_empty b,
          count-concat b b s.partial,
          inv.sizes.maxelems_pos,
        );
      })

  pub take_empty_runs : take_empty s ≡ ok moved
  unfolding take_empty moved
  take_empty_runs = rw (e, take_empty)

  moved-live : (q : ℕ) → live moved q ≡ live s q
  unfolding live moved
  moved-live q = refl

  pub take_empty-Keeps : Keeps s moved
  unfolding moved
  take_empty-Keeps = record {
    inv = Inv-Touches moved-Touches inv moved-PageInv;
    sizes = (refl, refl);
    lives = moved-live;
  }

  pub moved-partial : s.partial ≡ [] → moved.partial ≡ b ∷ []
  unfolding moved
  moved-partial p = rw p

-- ===== src/Slab/Invariant/Update.antt =====
-- An operation that touches one page keeps the invariant if it does so at that page.
use tom_libs.Common.{
  ◌==◌, ==_iff, Bool-cases, ℕ, ◌+◌, ◌-◌, ◌<◌, ◌≡◌, refl, sym, subst, inl, inr, false, Option, none,
  some, arith,
}
use tom_libs.Slab.Layout.{get_base}
use tom_libs.Slab.State.{Footer, State}
use tom_libs.Slab.State.Lists.{count}
use tom_libs.Slab.Invariant.{IsPage, PageInv, Inv, live_at, live}

-- Page `c` is as it was.
pub record SamePage (s t : State) (c : ℕ) : Type 0 where
  pub footer : t.footer c ≡ s.footer c
  pub empty : count c t.empty ≡ count c s.empty
  pub partial : count c t.partial ≡ count c s.partial
  pub full : count c t.full ≡ count c s.full

-- From `s` to `t` at most page `b` changes.
pub record Touches (b : ℕ) (s t : State) : Type 0 where
  pub elemsz : t.elemsz ≡ s.elemsz
  pub maxelems : t.maxelems ≡ s.maxelems
  pub same : (c : ℕ) → (c == b) ≡ false → SamePage s t c

module _ {b : ℕ} {s t : State} (touch : Touches b s t) (inv : Inv s) where
  SamePage-PageInv : (c : ℕ) → SamePage s t c → PageInv t c (t.footer c)
  SamePage-PageInv c k = rw (k.footer, k.empty, k.partial, k.full, touch.maxelems) (inv.pages c)

  pub Inv-Touches : PageInv t b (t.footer b) → Inv t
  Inv-Touches at_b = record {
    sizes = rw (touch.elemsz, touch.maxelems) inv.sizes;
    pages = λ c. elim (Bool-cases (c == b)) [
      | inl e ↦ subst (λ c. PageInv t c (t.footer c)) (sym ((==_iff c b).0 e)) at_b
      | inr e ↦ SamePage-PageInv c (touch.same c e)
    ];
  }

-- Elements of other pages stay as they were.
pub live-Touches :
    {b : ℕ} {s t : State} (touch : Touches b s t) (q : ℕ)
    → (get_base q == b) ≡ false
    → live t q ≡ live s q
unfolding live
live-Touches touch q e = rw ((touch.same (get_base q) e).footer, touch.elemsz, touch.maxelems)

-- The view of an address on page `b`.
pub live_page :
    (s : State) {b : ℕ} {o : Option Footer} (q : ℕ)
    → get_base q ≡ b
    → s.footer b ≡ o
    → live s q ≡ live_at s.elemsz s.maxelems o (q - b)
unfolding live
live_page s q e f = rw (e, f)

-- A page on a list has a footer.
pub IsPage-of_listed :
    {s : State} (inv : Inv s) (b : ℕ)
    → 0 < count b s.empty + count b s.partial + count b s.full
    → (f : Footer) × (s.footer b ≡ some f)
      × IsPage s.maxelems b (count b s.empty) (count b s.partial) (count b s.full) f
IsPage-of_listed {s} inv b h = go (s.footer b) refl (inv.pages b)
  where
    go :
        (o : Option Footer)
        → s.footer b ≡ o
        → PageInv s b o
        → (f : Footer) × (s.footer b ≡ some f)
          × IsPage s.maxelems b (count b s.empty) (count b s.partial) (count b s.full) f
    go none e p = absurd (omega arith)
    go (some f) e p = (f, e, p)

pub IsPage-of_footer :
    {s : State} (inv : Inv s) {b : ℕ} {f : Footer}
    → s.footer b ≡ some f
    → IsPage s.maxelems b (count b s.empty) (count b s.partial) (count b s.full) f
IsPage-of_footer {s} inv {b} e = subst (PageInv s b) e (inv.pages b)

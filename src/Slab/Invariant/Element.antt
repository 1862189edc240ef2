-- ===== src/Slab/Invariant/Element.antt =====
-- A change of one bit of one page, as a change of the set of allocated addresses.
use tom_libs.Common.{
  ◌==◌, ==_iff, Bool-cases, ℕ, ◌+◌, ◌-◌, ◌*◌, ◌<◌, ◌≡◌, ap, ◌∙◌, inl, inr, false, not, ◌&&◌, ◌||◌,
  some, arith,
}
use tom_libs.Slab.Avail.{set_bit, clr_bit, get_bit, IsSized}
use tom_libs.Slab.Layout.{get_base, element, get_base-element}
use tom_libs.Slab.State.{Footer, State}
use tom_libs.Slab.Invariant.{Inv, live_at, live}
use tom_libs.Slab.Invariant.Update.{Touches, live-Touches, IsPage-of_footer}
use tom_libs.Slab.Invariant.Live.{div_of_mul, mod_of_mul, live_at-clr_bit, live_at-set_bit}

module _ {s t : State} {b i : ℕ} (inv : Inv s) (touch : Touches b s t) (f g : Footer)
    (before : s.footer b ≡ some f) (after : t.footer b ≡ some g) (h : i < s.maxelems) where
  base_of_element : get_base (element s.elemsz b i) ≡ b
  base_of_element =
      get_base-element s.elemsz s.maxelems b i (IsPage-of_footer inv before).aligned
        (omega (arith, inv.sizes.elemsz_min)) inv.sizes.fits h

  other_base : (q : ℕ) → (get_base q == b) ≡ false → (q == element s.elemsz b i) ≡ false
  other_base q e = elim (Bool-cases (q == element s.elemsz b i)) [
    | inl t ↦
        let p : q ≡ element s.elemsz b i = (==_iff _ _).0 t in
        absurd (ground (arith, ap (λ x. get_base x) p ∙ base_of_element))
    | inr t ↦ t
  ]

  same_offset : (q : ℕ) → get_base q ≡ b → (q - b == i * s.elemsz) ≡ (q == element s.elemsz b i)
  same_offset q e = ground arith

  -- On the page itself the two views are of one offset.
  live_at_base :
      (q : ℕ)
      → get_base q ≡ b
      → (live s q ≡ live_at s.elemsz s.maxelems (some f) (q - b))
        × (live t q ≡ live_at s.elemsz s.maxelems (some g) (q - b))
  unfolding live
  live_at_base q e = (rw (e, before), rw (e, after, touch.elemsz, touch.maxelems))

  sized : IsSized f.avail
  sized = (IsPage-of_footer inv before).footer.sized

  pos : 0 < s.elemsz
  pos = omega (arith, inv.sizes.elemsz_min)

  pub live-taken :
      g.avail ≡ clr_bit f.avail i → (q : ℕ) → live t q ≡ (live s q || (q == element s.elemsz b i))
  live-taken e q = elim (Bool-cases (get_base q == b)) [
    | inl p ↦
        let p' : get_base q ≡ b = (==_iff _ _).0 p in
        rw ((live_at_base q p').0, (live_at_base q p').1, ← same_offset q p')
          (live_at-clr_bit f s.elemsz s.maxelems i sized pos h inv.sizes.maxelems_bits g (q - b) e)
    | inr p ↦ rw (live-Touches touch q p, other_base q p) (ground arith)
  ]

  pub live-given :
      g.avail ≡ set_bit f.avail i
      → (q : ℕ) → live t q ≡ (live s q && not (q == element s.elemsz b i))
  live-given e q = elim (Bool-cases (get_base q == b)) [
    | inl p ↦
        let p' : get_base q ≡ b = (==_iff _ _).0 p in
        rw ((live_at_base q p').0, (live_at_base q p').1, ← same_offset q p')
          (live_at-set_bit f s.elemsz s.maxelems i sized pos h inv.sizes.maxelems_bits g (q - b) e)
    | inr p ↦ rw (live-Touches touch q p, other_base q p) (ground arith)
  ]

-- An element is live exactly if its bit is clear.
pub live-element :
    {s : State} {b i : ℕ} (inv : Inv s) (f : Footer)
    → s.footer b ≡ some f
    → i < s.maxelems
    → live s (element s.elemsz b i) ≡ not (get_bit f.avail i)
unfolding live
live-element {s} {b} {i} inv f before h =
    let pos : 0 < s.elemsz = omega (arith, inv.sizes.elemsz_min) in
    let aligned = (IsPage-of_footer inv before).aligned in
    let q : get_base (b + i * s.elemsz) ≡ b =
      get_base-element s.elemsz s.maxelems b i aligned pos inv.sizes.fits h in
    let off : b + i * s.elemsz - b ≡ i * s.elemsz = omega arith in
    rw (q, before, off, mod_of_mul s.elemsz i pos, div_of_mul s.elemsz i pos) (ground arith)

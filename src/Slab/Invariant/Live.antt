-- ===== src/Slab/Invariant/Live.antt =====
-- How a change of one bit shows in the set of allocated addresses.
use tom_libs.Slab.Invariant.{live_at}
use tom_libs.Slab.State.{Footer}
use tom_libs.Slab.Avail.Laws.{get_bit-set_bit, get_bit-clr_bit}
use tom_libs.Slab.Avail.{set_bit, clr_bit, IsSized}
use tom_libs.Common.{◌==◌, ℕ, ◌*◌, ◌/◌, ◌%◌, ◌<◌, ◌≡◌, not, ◌&&◌, ◌||◌, some, arith}

pub div_of_mul : (e i : ℕ) → 0 < e → (i * e) / e ≡ i
div_of_mul e i h = grind arith

pub mod_of_mul : (e i : ℕ) → 0 < e → (i * e) % e ≡ 0
mod_of_mul e i h = grind arith

pub mul_of_mod : (e off : ℕ) → 0 < e → off % e ≡ 0 → off ≡ off / e * e
mul_of_mod e off h z = grind arith

pub offset_eq : (e i off : ℕ) → 0 < e → (off % e == 0 && off / e == i) ≡ (off == i * e)
offset_eq e i off h = ground (arith, div_of_mul e i, mod_of_mul e i, mul_of_mod e off)

module _ (f : Footer) (elemsz maxelems i : ℕ) (sized : IsSized f.avail) (pos : 0 < elemsz)
    (h : i < maxelems) (small : maxelems < 256) where
  -- The element whose bit is cleared becomes live, and no other changes.
  pub live_at-clr_bit :
      (g : Footer) (off : ℕ)
      → g.avail ≡ clr_bit f.avail i
      → live_at elemsz maxelems (some g) off
        ≡ (live_at elemsz maxelems (some f) off || (off == i * elemsz))
  live_at-clr_bit g off e =
      rw (e, ← offset_eq elemsz i off pos)
        (ground (arith, get_bit-clr_bit f.avail i sized (omega arith) (off / elemsz)))

  -- The element whose bit is set is live no longer, and no other changes.
  pub live_at-set_bit :
      (g : Footer) (off : ℕ)
      → g.avail ≡ set_bit f.avail i
      → live_at elemsz maxelems (some g) off
        ≡ (live_at elemsz maxelems (some f) off && not (off == i * elemsz))
  live_at-set_bit g off e =
      rw (e, ← offset_eq elemsz i off pos)
        (ground (arith, get_bit-set_bit f.avail i sized (omega arith) (off / elemsz)))

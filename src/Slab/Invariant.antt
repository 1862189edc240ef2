-- ===== src/Slab/Invariant.antt =====
-- What holds between the calls of tom_slab.h: sizes that fit, and each page on exactly one list,
-- which its counter agrees with.
pub mod Update
pub mod Element
pub mod Live
use tom_libs.Common.{
  ℕ, ◌+◌, ◌-◌, ◌*◌, ◌/◌, ◌%◌, ◌≤◌, ◌<◌, ◌≡◌, ◌⊎◌, Bool, false, not, ◌&&◌, Option, none, some, ltb,
  ◌==◌,
}
use tom_libs.Slab.Avail.{IsSized, get_bit}
use tom_libs.Slab.Avail.Count.{used}
use tom_libs.Slab.Layout.{page_size, footer_size, get_base}
use tom_libs.Slab.State.{Footer, footer_signature, State}
use tom_libs.Slab.State.Lists.{count}

-- `counted` is no equation: see `slab_free`.
pub record IsFooter (maxelems : ℕ) (f : Footer) : Type 0 where
  pub signed : f.signature ≡ footer_signature
  pub sized : IsSized f.avail
  pub beyond : (i : ℕ) → maxelems ≤ i → get_bit f.avail i ≡ false
  pub counted : used f.avail maxelems ≤ f.numelems

-- A page stands once on the list that its counter calls for: the numbers are its occurrences on
-- the empty, the partial and the full list.
abbrev pub IsPlaced : ℕ → ℕ → ℕ → ℕ → ℕ → Type 0
IsPlaced maxelems numelems e p f =
    ((e ≡ 1) × (p ≡ 0) × (f ≡ 0) × (numelems ≡ 0))
    ⊎ ((e ≡ 0) × (p ≡ 1) × (f ≡ 0) × (numelems < maxelems))
    ⊎ ((e ≡ 0) × (p ≡ 0) × (f ≡ 1) × (numelems ≡ maxelems))

pub record IsPage (maxelems b e p f : ℕ) (g : Footer) : Type 0 where
  pub aligned : b % page_size ≡ 0
  pub footer : IsFooter maxelems g
  pub placed : IsPlaced maxelems g.numelems e p f

abbrev pub IsListed : ℕ → ℕ → ℕ → ℕ → ℕ → Option Footer → Type 0
IsListed maxelems b e p f none = (e ≡ 0) × (p ≡ 0) × (f ≡ 0)
IsListed maxelems b e p f (some g) = IsPage maxelems b e p f g

pub record HasSizes (elemsz maxelems : ℕ) : Type 0 where
  pub elemsz_min : 16 ≤ elemsz
  pub elemsz_mult : elemsz % 16 ≡ 0
  pub maxelems_pos : 0 < maxelems
  pub maxelems_bits : maxelems < 256
  pub fits : maxelems * elemsz ≤ page_size - footer_size

abbrev pub PageInv : State → ℕ → Option Footer → Type 0
PageInv s b = IsListed s.maxelems b (count b s.empty) (count b s.partial) (count b s.full)

pub record Inv (s : State) : Type 0 where
  pub sizes : HasSizes s.elemsz s.maxelems
  pub pages : (b : ℕ) → PageInv s b (s.footer b)

-- Whether the element at `offset` of a page is allocated.
abbrev pub live_at : ℕ → ℕ → Option Footer → ℕ → Bool
live_at elemsz maxelems none offset = false
live_at elemsz maxelems (some f) offset =
    offset % elemsz == 0
    && ltb (offset / elemsz) maxelems
    && not (get_bit f.avail (offset / elemsz))

-- The abstract view of the allocator: the addresses that are allocated.
unfoldable pub live : State → ℕ → Bool
live s p = live_at s.elemsz s.maxelems (s.footer (get_base p)) (p - get_base p)

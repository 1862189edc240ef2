-- ===== src/Slab/Alloc/Create.antt =====
-- `slab_create`: when it fails, and the state that it sets up.
use native.Mathlib.Nat.{le-div_iff_mul-le, div-lt_iff_lt-mul, div-mul-le_self}
use tom_libs.Common.{ℕ, ◌*◌, ◌%◌, ◌≤◌, ◌<◌, ◌≡◌, refl, subst, Bool, false, Option, some, arith}
use tom_libs.Slab.Layout.{round_elemsz, max_elems}
use tom_libs.Slab.State.{ok, fault, State}
use tom_libs.Slab.Invariant.{Inv, live}
use tom_libs.Slab.State.{ok, fault, State}
use tom_libs.Slab.State.Lists.{count}
use tom_libs.Slab.Alloc.{created, create}

round_bounds : (n : ℕ) → (n ≤ round_elemsz n) × (16 ≤ round_elemsz n) × (round_elemsz n % 16 ≡ 0)
unfolding round_elemsz
round_bounds n = ground arith

round_fits : (n : ℕ) → n ≤ 4032 → round_elemsz n ≤ 4032
unfolding round_elemsz
round_fits n h = ground arith

max_elems_bounds :
    (e : ℕ) → 16 ≤ e → e ≤ 4032 → (0 < max_elems e) × (max_elems e < 256) × (max_elems e * e ≤ 4032)
unfolding max_elems
max_elems_bounds e lo hi =
    let pos : 0 < e = omega arith in
    (
      (le-div_iff_mul-le pos).1 (omega arith),
      (div-lt_iff_lt-mul pos).1 (omega arith),
      div-mul-le_self 4032 e,
    )

created-Inv : (e : ℕ) (c d : Option ℕ) → 16 ≤ e → e ≤ 4032 → e % 16 ≡ 0 → Inv (created e c d)
unfolding created count
created-Inv e c d lo hi mult =
    let (pos, bits, fits) = max_elems_bounds e lo hi in
    record {
      sizes = record {
        elemsz_min = lo;
        elemsz_mult = mult;
        maxelems_pos = pos;
        maxelems_bits = bits;
        fits = fits;
      };
      pages = λ b. (refl, refl, refl);
    }

created-live : (e : ℕ) (c d : Option ℕ) (q : ℕ) → live (created e c d) q ≡ false
unfolding created live
created-live e c d q = refl

created-elemsz : (e : ℕ) (c d : Option ℕ) → (created e c d).elemsz ≡ e
unfolding created
created-elemsz e c d = refl

create-eq-some :
    (m : Bool) (n : ℕ) (c d : Option ℕ) {s : State}
    → create m n c d ≡ ok (some s)
    → (created (round_elemsz n) c d ≡ s) × (round_elemsz n ≤ 4032)
unfolding create
create-eq-some m n c d h = ground arith

-- A state that `slab_create` returns is well formed. Its elements have at least the size asked for,
-- and none is allocated.
pub create-Inv :
    (m : Bool) (n : ℕ) (c d : Option ℕ) {s : State}
    → create m n c d ≡ ok (some s)
    → Inv s × (n ≤ s.elemsz) × ((q : ℕ) → live s q ≡ false)
create-Inv m n c d {s} h =
    let (e, le) = create-eq-some m n c d h in
    let (ge, lo, mult) = round_bounds n in
    subst (λ t. Inv t × (n ≤ t.elemsz) × ((q : ℕ) → live t q ≡ false)) e
      (
        created-Inv (round_elemsz n) c d lo le mult,
        rw created-elemsz ge,
        created-live (round_elemsz n) c d,
      )

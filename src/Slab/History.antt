-- ===== src/Slab/History.antt =====
-- What a caller of tom_slab.h sees: a set of addresses, to which slab_alloc adds and from which
-- slab_free removes. A history is a sequence of calls from slab_create on.
use tom_libs.Slab.Layout.{page_size, get_base, element, index_of}
use tom_libs.Slab.Alloc.Laws.{Allocated, null, element_of, alloc_lem}
use tom_libs.Common.{
  ◌==◌, ℕ, ◌+◌, ◌*◌, ◌%◌, ◌≤◌, ◌<◌, ◌≡◌, sym, ap, ◌∙◌, subst, ◌⊎◌, inl, inr, Bool, true, false, not,
  ◌&&◌, ◌||◌, Option, none, some, arith,
}
use tom_libs.Slab.State.{Run, ok, Footer, State}
use tom_libs.Slab.Invariant.{Inv, live}
use tom_libs.Slab.Alloc.{create, alloc}
use tom_libs.Slab.Alloc.Grow.{IsFresh}
use tom_libs.Slab.Alloc.Create.{create-Inv}
use tom_libs.Slab.Free.{free}
use tom_libs.Slab.Free.Laws.{IsElement, IsElement-of_live, free_lem}
use tom_libs.Slab.Reset.{reset}
use tom_libs.Slab.Reset.Laws.{reset_lem}
use tom_libs.Slab.Release.{trim}
use tom_libs.Slab.Release.Trim.{trim_lem}

-- A state after some calls, and the addresses that the caller holds then.
pub data History : State → (ℕ → Bool) → Type 0 where
  creates :
      {s : State} (n : ℕ) (c d : Option ℕ)
      → create true n c d ≡ ok (some s)
      → History s (λ q. false)
  gets :
      {s t : State} {held : ℕ → Bool} (fresh : Option ℕ) (p : ℕ)
      → History s held
      → IsFresh s fresh
      → alloc fresh s ≡ ok (some p, t)
      → History t (λ q. held q || (q == p))
  gets_none :
      {s t : State} {held : ℕ → Bool} (fresh : Option ℕ)
      → History s held
      → IsFresh s fresh
      → alloc fresh s ≡ ok (none, t)
      → History t held
  gives :
      {s t : State} {held : ℕ → Bool} (p : ℕ)
      → History s held
      → held p ≡ true
      → free (some p) s ≡ ok t
      → History t (λ q. held q && not (q == p))
  trims : {s t : State} {held : ℕ → Bool} → History s held → trim s ≡ ok t → History t held
  resets :
      {s t : State} {held : ℕ → Bool} → History s held → reset s ≡ ok t → History t (λ q. false)

-- The result of a call is the one that it has.
same_result : {A : Type 0} {r : Run A} {a b : A} → r ≡ ok a → r ≡ ok b → a ≡ b
same_result p q = cc

-- The state represents the addresses.
pub record Stands (s : State) (held : ℕ → Bool) : Type 0 where
  pub inv : Inv s
  pub lives : (q : ℕ) → live s q ≡ held q

Stands-moved :
    {s t : State} (held : ℕ → Bool) → s ≡ t → Inv s → ((q : ℕ) → live s q ≡ held q) → Stands t held
Stands-moved held e i l = subst (λ (z : State). Stands z held) e (record { inv = i; lives = l })

-- what the caller holds after slab_alloc
abbrev pub after_alloc : (ℕ → Bool) → Option ℕ → ℕ → Bool
after_alloc held none q = held q
after_alloc held (some p) q = held q || (q == p)

-- What slab_alloc returns is new, and NULL only where there is no fresh page.
abbrev pub IsNew : (ℕ → Bool) → Option ℕ → Option ℕ → Type 0
IsNew held fresh none = fresh ≡ none
IsNew held fresh (some p) = held p ≡ false

pub record Answered (s : State) (held : ℕ → Bool) (fresh : Option ℕ) : Type 0 where
  pub answer : Option ℕ
  pub after : State
  pub runs : alloc fresh s ≡ ok (answer, after)
  pub stands : Stands after (after_alloc held answer)
  pub new : IsNew held fresh answer

alloc-Answered :
    {s : State} {held : ℕ → Bool} (fresh : Option ℕ)
    → Stands s held
    → IsFresh s fresh
    → Answered s held fresh
alloc-Answered {s} {held} fresh st new = answered_by (alloc_lem fresh st.inv new)
  where
    answered_by : Allocated s fresh (alloc fresh s) → Answered s held fresh
    answered_by (null f p e runs) = record {
      answer = none;
      after = s;
      runs = runs;
      stands = st;
      new = f;
    }
    answered_by (element_of c) = record {
      answer = some (element s.elemsz c.base c.idx);
      after = c.after;
      runs = c.runs;
      stands = record {
        inv = c.inv;
        lives = λ q.
            c.lives q ∙ ap (λ (b : Bool). b || (q == element s.elemsz c.base c.idx)) (st.lives q);
      };
      new = sym (st.lives (element s.elemsz c.base c.idx)) ∙ c.was_free;
    }

alloc-Stands :
    {s t : State} {held : ℕ → Bool} (fresh r : Option ℕ)
    → Stands s held
    → IsFresh s fresh
    → alloc fresh s ≡ ok (r, t)
    → Stands t (after_alloc held r)
alloc-Stands {held = held} fresh r st new e =
    let a = alloc-Answered fresh st new in
    subst (λ (z : Option ℕ × State). Stands z.1 (after_alloc held z.0)) (same_result a.runs e)
      a.stands

pub History-Stands : {s : State} {held : ℕ → Bool} → History s held → Stands s held
History-Stands (creates n c d e) =
    let (i, size, l) = create-Inv true n c d e in record { inv = i; lives = l }
History-Stands (gets {held = held} fresh p h new e) =
    alloc-Stands fresh (some p) (History-Stands h) new e
History-Stands (gets_none fresh h new e) = alloc-Stands fresh none (History-Stands h) new e
History-Stands (gives {held = held} p h has e) =
    let st = History-Stands h in
    let f = free_lem p st.inv (st.lives p ∙ has) in
    Stands-moved (λ q. held q && not (q == p)) (same_result f.runs e) f.inv
      (λ q. f.lives q ∙ ap (λ (b : Bool). b && not (q == p)) (st.lives q))
History-Stands (trims {held = held} h e) =
    let st = History-Stands h in
    let f = trim_lem st.inv in
    Stands-moved held (same_result f.runs e) f.inv (λ q. f.lives q ∙ st.lives q)
History-Stands (resets h e) =
    let f = reset_lem (History-Stands h).inv in
    Stands-moved (λ q. false) (same_result f.runs e) f.inv f.lives

-- An element of a lower index ends before one of a higher.
index-apart : (elemsz i j : ℕ) → i < j → i * elemsz + elemsz ≤ j * elemsz
index-apart elemsz i j h = grind arith

-- Elements at different addresses of pages do not overlap.
addresses-apart :
    (elemsz b i c j : ℕ)
    → b % page_size ≡ 0
    → c % page_size ≡ 0
    → i * elemsz + elemsz ≤ page_size
    → j * elemsz + elemsz ≤ page_size
    → b + i * elemsz < c + j * elemsz
    → b + i * elemsz + elemsz ≤ c + j * elemsz
addresses-apart elemsz b i c j p q u v less = elim (order_of i j) [
  | inl l ↦ omega (arith, index-apart elemsz i j l)
  | inr g ↦ elim (order_of j i) [
    | inl l ↦ omega (arith, index-apart elemsz j i l)
    | inr h ↦
        let e : i * elemsz ≡ j * elemsz = ap (λ (k : ℕ). k * elemsz) (omega arith) in
        omega (arith, e)
  ]
]
  where
    order_of : (a b : ℕ) → (a < b) ⊎ (b ≤ a)
    order_of a b = ground arith

-- The state keeps what slab_alloc and slab_free promise to a caller who holds some addresses.
pub record Promises (s : State) (held : ℕ → Bool) : Type 0 where
  pub apart : (p q : ℕ) → held p ≡ true → held q ≡ true → p < q → p + s.elemsz ≤ q
  pub in_pages : (p : ℕ) → held p ≡ true → (footer : Footer) × (s.footer (get_base p) ≡ some footer)
  pub allocs : (fresh : Option ℕ) → IsFresh s fresh → Answered s held fresh
  pub frees : (p : ℕ) → held p ≡ true → (t : State) × (free (some p) s ≡ ok t)
  pub trims_and_resets : ((t : State) × (trim s ≡ ok t)) × ((t : State) × (reset s ≡ ok t))

module _ {s : State} (inv : Inv s) where
  element-within :
      (p : ℕ) → (el : IsElement s p) → index_of s.elemsz p * s.elemsz + s.elemsz ≤ page_size
  element-within p el =
      let fits = inv.sizes.fits in
      let bound = index-apart s.elemsz (index_of s.elemsz p) s.maxelems el.bound in
      omega (arith, fits, bound)

  live-apart : (p q : ℕ) → live s p ≡ true → live s q ≡ true → p < q → p + s.elemsz ≤ q
  live-apart p q hp hq less =
      let a = IsElement-of_live p inv hp in
      let b = IsElement-of_live q inv hq in
      let m =
        addresses-apart s.elemsz (get_base p) (index_of s.elemsz p) (get_base q)
          (index_of s.elemsz q) (omega arith) (omega arith) (element-within p a)
          (element-within q b) (omega (arith, a.address, b.address, less)) in
      omega (arith, a.address, b.address, m)

-- After any calls from `slab_create` on, where pages from `SLAB_alloc_page` are aligned and not held,
-- and where `slab_free` is given what the caller holds: elements that the caller holds do not
-- overlap; `slab_alloc` returns NULL only for want of a page, or else an element that the caller
-- does not hold and then does; `slab_free` of what the caller holds, `slab_trim` and `slab_reset`
-- succeed.
pub History-Promises : {s : State} {held : ℕ → Bool} → History s held → Promises s held
History-Promises {s} {held} h =
    let st = History-Stands h in
    record {
      apart = λ p q hp hq less. live-apart st.inv p q (st.lives p ∙ hp) (st.lives q ∙ hq) less;
      in_pages =
          λ p hp. let el = IsElement-of_live p st.inv (st.lives p ∙ hp) in (el.footer, el.written);
      allocs = λ fresh new. alloc-Answered fresh st new;
      frees = λ p hp. let f = free_lem p st.inv (st.lives p ∙ hp) in (f.after, f.runs);
      trims_and_resets = (
        let f = trim_lem st.inv in (f.after, f.runs),
        let f = reset_lem st.inv in (f.after, f.runs),
      );
    }

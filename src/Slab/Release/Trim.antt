-- ===== src/Slab/Release/Trim.antt =====
-- `slab_trim` gives back empty pages until they are no more than the others.
use tom_libs.Common.{
  ltb, ◌==◌, ==_iff, Bool-cases, length, ℕ, zero, suc, ◌+◌, ◌-◌, ◌/◌, ◌≤◌, ◌<◌, ◌≡◌, refl, sym, ap,
  ◌∙◌, inl, inr, true, false, none, some, List, [], ◌∷◌, arith,
}
use tom_libs.Slab.Avail.Count.{used, get_bit_of_unused}
use tom_libs.Slab.Layout.{get_base}
use tom_libs.Slab.State.{Run, ok, ◌>>=◌, Footer, State}
use tom_libs.Slab.State.Lists.{count, count_head, removed_head}
use tom_libs.Slab.Invariant.{Inv, live_at, live}
use tom_libs.Slab.Invariant.Update.{live-Touches, live_page, IsPage-of_listed}
use tom_libs.Slab.Release.{on_empty, release, release_front, trim_loop, trim}
use tom_libs.Slab.State.Lists.{count, count_head, removed_head}
use tom_libs.Slab.State.Lists.{count, count_head, removed_head}
use tom_libs.Slab.Release.Laws.{released_state, Released, release_lem}

-- On a page with nothing taken no element is live.
live_at_of_unused :
    (e n off : ℕ) (f : Footer) → used f.avail n ≡ 0 → live_at e n (some f) off ≡ false
live_at_of_unused e n off f h = ground (arith, get_bit_of_unused f.avail n (off / e) h)

-- No element of an empty page is live.
pub live-empty :
    {s : State} (inv : Inv s) (b q : ℕ) → 0 < count b s.empty → get_base q ≡ b → live s q ≡ false
live-empty {s} inv b q h e =
    let (f, eq, page) = IsPage-of_listed inv b (omega arith) in
    let idle : f.numelems ≡ 0 = ground (arith, page.placed, inv.sizes.maxelems_pos) in
    live_page s q e eq
    ∙ live_at_of_unused s.elemsz s.maxelems (q - b) f (omega (arith, page.footer.counted))

-- What `slab_trim` leaves.
pub record Trimmed (s : State) (r : Run State) : Type 0 where
  pub after : State
  pub runs : r ≡ ok after
  pub inv : Inv after
  pub sizes : (after.elemsz ≡ s.elemsz) × (after.maxelems ≡ s.maxelems)
  pub kept : (after.partial ≡ s.partial) × (after.full ≡ s.full)
  pub lives : (q : ℕ) → live after q ≡ live s q
  pub same : (c : ℕ) → count c s.empty ≡ 0 → after.footer c ≡ s.footer c
  pub bounded : length after.empty ≤ length after.full + length after.partial

-- Releasing an empty page changes no element.
release-live :
    {s : State} (inv : Inv s) (b : ℕ) {rest : List ℕ}
    → 0 < count b s.empty
    → Released on_empty b s rest
    → (q : ℕ) → live (released_state on_empty b rest s) q ≡ live s q
release-live {s} inv b {rest} h r q = elim (Bool-cases (get_base q == b)) [
  | inl p ↦
      let p' : get_base q ≡ b = (==_iff _ _).0 p in
      live_page (released_state on_empty b rest s) {o = none} q p' (ground arith)
      ∙ sym (live-empty inv b q h p')
  | inr p ↦ live-Touches r.touch q p
]

trim_stop :
    (k : ℕ) (s : State)
    → ltb (length s.full + length s.partial) (length s.empty) ≡ false
    → trim_loop (suc k) s ≡ ok s
unfolding trim_loop
trim_stop k s e = rw (e, trim_loop)

trim_round :
    (k : ℕ) (s : State) (b : ℕ) (bs : List ℕ)
    → s.empty ≡ b ∷ bs
    → ltb (length s.full + length s.partial) (length s.empty) ≡ true
    → trim_loop (suc k) s ≡ (release on_empty b s >>= trim_loop k)
unfolding trim_loop
trim_round k s b bs e t = rw (t, trim_loop) (ap (λ l. release_front l s >>= trim_loop k) e)

-- One round, and then what the rest of the loop leaves.
Trimmed-round :
    {s : State} (inv : Inv s) (b : ℕ) {rest : List ℕ} {run : Run State}
    → 0 < count b s.empty
    → Released on_empty b s rest
    → Trimmed (released_state on_empty b rest s) run
    → Trimmed s run
Trimmed-round inv b h r t = record {
  after = t.after;
  runs = t.runs;
  inv = t.inv;
  sizes = t.sizes;
  kept = t.kept;
  lives = λ q. t.lives q ∙ release-live inv b h r q;
  same = λ c z.
      let ne : (c == b) ≡ false = elim (Bool-cases (c == b)) [
        | inl p ↦ absurd (ground (arith, (==_iff c b).0 p))
        | inr p ↦ p
      ] in
      let k = r.touch.same c ne in t.same c (k.empty ∙ z) ∙ k.footer;
  bounded = t.bounded;
}

-- Fuel above the number of empty pages is enough.
trim_loop_lem : (k : ℕ) {s : State} → Inv s → length s.empty < k → Trimmed s (trim_loop k s)
trim_loop_lem zero inv h = absurd (omega arith)
trim_loop_lem (suc k) {s} inv h =
    elim (Bool-cases (ltb (length s.full + length s.partial) (length s.empty))) [
      | inl more ↦ go (λ t i. trim_loop_lem k {s = t} i) s.empty refl more
      | inr done ↦ rw (trim_stop k s done) (record {
        after = s;
        runs = refl;
        inv = inv;
        sizes = (refl, refl);
        kept = (refl, refl);
        lives = λ q. refl;
        same = λ c z. refl;
        bounded = ground arith;
      })
    ]
  where
    go :
        ((t : State) → Inv t → length t.empty < k → Trimmed t (trim_loop k t))
        → (xs : List ℕ) → s.empty ≡ xs
        → ltb (length s.full + length s.partial) (length s.empty) ≡ true
        → Trimmed s (trim_loop (suc k) s)
    go ih [] e more = absurd (ground arith)
    go ih (b ∷ bs) e more =
        let here : 0 < count b s.empty = omega (arith, count_head b bs e) in
        let rm = removed_head b bs e in
        let r = release_lem on_empty b inv rm in
        rw (trim_round k s b bs e more, r.runs)
          (Trimmed-round inv b here r
            (ih (released_state on_empty b rm.rest s) r.inv (omega (arith, rm.shorter))))

-- From a well-formed state, `slab_trim` ends and neither aborts nor faults. The state stays well
-- formed, the elements, the partial and the full pages are kept, and there are no more empty pages
-- than others.
pub trim_lem : {s : State} → Inv s → Trimmed s (trim s)
unfolding trim
trim_lem {s} inv = trim_loop_lem (suc (length s.empty)) inv (omega arith)

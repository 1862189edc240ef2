-- ===== src/Slab/Release/Destroy.antt =====
-- `slab_release_list` and `slab_destroy` give back every page.
use mathlib.Core.List.{append_assoc, append-nil}
use tom_libs.Slab.State.Lists.{count, removed_head}
use tom_libs.Common.{
  ℕ, zero, suc, ◌+◌, ◌*◌, ◌≡◌, refl, sym, ap, ◌∙◌, subst, Option, none, some, List, [], ◌∷◌, ◌++◌,
  map, arith,
}
use tom_libs.Slab.State.{
  Run, ok, Footer, Hook, noop, user, Call, called, page_freed, call_all, State,
}
use tom_libs.Slab.Invariant.{PageInv, Inv}
use tom_libs.Slab.Release.{
  Which, on_empty, on_partial, on_full, pages_on, with_pages, release_each, destroy,
}
use tom_libs.Slab.Release.Laws.{release_calls, released_state, release_lem}

-- The calls for a list of pages, in its order: for each page the destructor on every element, then
-- the page itself.
pub list_calls : State → List ℕ → List Call
list_calls s [] = []
list_calls s (b ∷ bs) = release_calls s b ++ list_calls s bs

-- The fields that a release leaves alone.
pub record SameSetup (s t : State) : Type 0 where
  pub elemsz : t.elemsz ≡ s.elemsz
  pub maxelems : t.maxelems ≡ s.maxelems
  pub dtor : t.dtor ≡ s.dtor

SameSetup-trans : {s t u : State} → SameSetup s t → SameSetup t u → SameSetup s u
SameSetup-trans a b = record {
  elemsz = b.elemsz ∙ a.elemsz;
  maxelems = b.maxelems ∙ a.maxelems;
  dtor = b.dtor ∙ a.dtor;
}

list_calls-SameSetup :
    {s t : State} → SameSetup s t → (xs : List ℕ) → list_calls t xs ≡ list_calls s xs
unfolding list_calls
list_calls-SameSetup k [] = refl
list_calls-SameSetup k (b ∷ bs) = rw (list_calls-SameSetup k bs, k.dtor, k.elemsz, k.maxelems)

list_calls-append :
    (s : State) (xs ys : List ℕ) → list_calls s (xs ++ ys) ≡ list_calls s xs ++ list_calls s ys
unfolding list_calls
list_calls-append s [] ys = refl
list_calls-append s (b ∷ bs) ys = simp (list_calls-append s bs ys, append_assoc)

-- What the loop over the pages of one list leaves.
record Drained (w : Which) (xs : List ℕ) (s : State) (r : Run State) : Type 0 where
  after : State
  runs : r ≡ ok after
  inv : Inv after
  setup : SameSetup s after
  empty : after.empty ≡ (with_pages w [] s).empty
  partial : after.partial ≡ (with_pages w [] s).partial
  full : after.full ≡ (with_pages w [] s).full
  calls : after.calls ≡ s.calls ++ list_calls s xs

-- One round: everything but the list itself and the calls is as before.
record Round (w : Which) (s : State) (bs : List ℕ) (t : State) : Type 0 where
  setup : SameSetup s t
  left : pages_on w t ≡ bs
  empty : (with_pages w [] t).empty ≡ (with_pages w [] s).empty
  partial : (with_pages w [] t).partial ≡ (with_pages w [] s).partial
  full : (with_pages w [] t).full ≡ (with_pages w [] s).full

round_lem : (w : Which) (s : State) (b : ℕ) (bs : List ℕ) → Round w s bs (released_state w b bs s)
round_lem on_empty s b bs = record {
  setup = record { elemsz = refl; maxelems = refl; dtor = refl };
  left = refl;
  empty = refl;
  partial = refl;
  full = refl;
}
round_lem _ s b bs = record {
  setup = record { elemsz = refl; maxelems = refl; dtor = refl };
  left = refl;
  empty = refl;
  partial = refl;
  full = refl;
}

nothing_left :
    (w : Which) (s : State)
    → pages_on w s ≡ []
    → (s.empty ≡ (with_pages w [] s).empty)
      × (s.partial ≡ (with_pages w [] s).partial)
      × (s.full ≡ (with_pages w [] s).full)
nothing_left on_empty s e = (e, refl, refl)
nothing_left on_partial s e = (refl, e, refl)
nothing_left on_full s e = (refl, refl, e)

release_each_lem :
    (w : Which) (xs : List ℕ) {s : State}
    → Inv s
    → pages_on w s ≡ xs
    → Drained w xs s (release_each w xs s)
unfolding release_each list_calls removed_head
release_each_lem w [] {s} inv e =
    let (em, pa, fu) = nothing_left w s e in
    record {
      after = s;
      runs = refl;
      inv = inv;
      setup = record { elemsz = refl; maxelems = refl; dtor = refl };
      empty = em;
      partial = pa;
      full = fu;
      calls = sym (append-nil s.calls);
    }
release_each_lem w (b ∷ bs) {s} inv e =
    let r = release_lem w b inv (removed_head b bs e) in
    let k = round_lem w s b bs in
    let d = release_each_lem w bs r.inv k.left in
    record {
      after = d.after;
      runs = rw (r.runs, d.runs);
      inv = d.inv;
      setup = SameSetup-trans k.setup d.setup;
      empty = d.empty ∙ k.empty;
      partial = d.partial ∙ k.partial;
      full = d.full ∙ k.full;
      calls = d.calls ∙ simp (list_calls-SameSetup k.setup bs, append_assoc);
    }

-- The calls for one list and then for another are those for both.
chain_calls :
    {s t : State} (xs ys : List ℕ) {cs : List Call}
    → SameSetup s t
    → t.calls ≡ s.calls ++ list_calls s xs
    → cs ≡ t.calls ++ list_calls t ys
    → cs ≡ s.calls ++ list_calls s (xs ++ ys)
chain_calls {s} xs ys k p q =
    q ∙ simp (p, list_calls-SameSetup k ys, list_calls-append s xs ys, append_assoc)

-- The numbers from `i` on, `n` of them
abbrev pub indices : ℕ → ℕ → List ℕ
indices i zero = []
indices i (suc n) = i ∷ indices (suc i) n

-- The calls of a caller's destructor on the elements of a page, in order; without one there are none.
abbrev pub destructions : Hook → ℕ → ℕ → ℕ → List Call
destructions noop b elemsz n = []
destructions (user f) b elemsz n = map (λ i. called f (b + i * elemsz) elemsz) (indices 0 n)

-- For each page the destructor on its elements, then the page
abbrev pub page_calls : State → List ℕ → List Call
page_calls s [] = []
page_calls s (b ∷ bs) =
    destructions s.dtor b s.elemsz s.maxelems ++ page_freed b ∷ [] ++ page_calls s bs

indices-last : (i n : ℕ) → indices i (suc n) ≡ indices i n ++ (i + n) ∷ []
indices-last i zero = ap (λ (k : ℕ). k ∷ []) (omega arith)
indices-last i (suc n) =
    ap (λ (l : List ℕ). i ∷ l)
      (indices-last (suc i) n ∙ ap (λ (k : ℕ). indices (suc i) n ++ k ∷ []) (omega arith))

map-last : (g : ℕ → Call) (xs : List ℕ) (x : ℕ) → map g (xs ++ x ∷ []) ≡ map g xs ++ g x ∷ []
map-last g [] x = refl
map-last g (y ∷ ys) x = ap (λ (l : List Call). g y ∷ l) (map-last g ys x)

call_all-destructions :
    (h : Hook) (b elemsz n : ℕ) → call_all h b elemsz n ≡ destructions h b elemsz n
unfolding call_all
call_all-destructions noop b elemsz zero = refl
call_all-destructions noop b elemsz (suc n) =
    ap (λ (l : List Call). l ++ []) (call_all-destructions noop b elemsz n)
call_all-destructions (user f) b elemsz zero = refl
call_all-destructions (user f) b elemsz (suc n) =
    let g = λ (i : ℕ). called f (b + i * elemsz) elemsz in
    ap (λ (l : List Call). l ++ g n ∷ []) (call_all-destructions (user f) b elemsz n)
    ∙ sym (
        ap (map g)
          (indices-last 0 n ∙ ap (λ (k : ℕ). indices 0 n ++ k ∷ []) {x = 0 + n} (omega arith))
        ∙ map-last g (indices 0 n) n)

list_calls-page_calls : (s : State) (xs : List ℕ) → list_calls s xs ≡ page_calls s xs
unfolding list_calls
list_calls-page_calls s [] = refl
list_calls-page_calls s (b ∷ bs) =
    ap (λ (l : List Call). l ++ page_freed b ∷ [] ++ list_calls s bs)
      (call_all-destructions s.dtor b s.elemsz s.maxelems)
    ∙ ap (λ (l : List Call). destructions s.dtor b s.elemsz s.maxelems ++ page_freed b ∷ [] ++ l)
        (list_calls-page_calls s bs)

-- What `slab_destroy` leaves.
pub record Destroyed (s : State) (r : Run State) : Type 0 where
  pub after : State
  pub runs : r ≡ ok after
  pub gone : (b : ℕ) → after.footer b ≡ none
  pub calls : after.calls ≡ s.calls ++ page_calls s (s.empty ++ s.partial ++ s.full)

-- A page is on some list, so with no list there is no page.
no_pages :
    {s : State} (inv : Inv s) (b : ℕ)
    → s.empty ≡ []
    → s.partial ≡ []
    → s.full ≡ []
    → s.footer b ≡ none
unfolding count
no_pages {s} inv b e p f = go (s.footer b) refl (inv.pages b)
  where
    go : (o : Option Footer) → s.footer b ≡ o → PageInv s b o → s.footer b ≡ none
    go none q l = q
    go (some g) q l =
        let ne : count b s.empty ≡ 0 = ap (count b) e in
        let np : count b s.partial ≡ 0 = ap (count b) p in
        let nf : count b s.full ≡ 0 = ap (count b) f in absurd (ground (arith, l.placed))

-- From a well-formed state, `slab_destroy` neither aborts nor faults. No page is held afterwards, and
-- the calls made are, for each page of the empty, the partial and the full list, the caller's
-- destructor, if there is one, on each of its elements in order and then the release of the page.
pub destroy_lem : {s : State} → Inv s → Destroyed s (destroy s)
unfolding destroy
destroy_lem {s} inv =
    let e = release_each_lem on_empty s.empty inv refl in
    let p = release_each_lem on_partial e.after.partial e.inv refl in
    let f = release_each_lem on_full p.after.full p.inv refl in
    let two =
      chain_calls s.empty s.partial e.setup e.calls
        (subst (λ l. p.after.calls ≡ e.after.calls ++ list_calls e.after l) e.partial p.calls) in
    let all = chain_calls (s.empty ++ s.partial) s.full (SameSetup-trans e.setup p.setup) two (
      subst (λ l. f.after.calls ≡ p.after.calls ++ list_calls p.after l) (p.full ∙ e.full)
        f.calls) in
    record {
      after = f.after;
      runs = rw (e.runs, p.runs, f.runs);
      gone = λ b. no_pages f.inv b (f.empty ∙ p.empty ∙ e.empty) (f.partial ∙ p.partial) f.full;
      calls =
          all
          ∙ ap (λ (l : List Call). s.calls ++ l)
              (list_calls-page_calls s (s.empty ++ s.partial ++ s.full));
    }

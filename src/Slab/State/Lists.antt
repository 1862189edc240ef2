-- ===== src/Slab/State/Lists.antt =====
-- How often a page stands on a list, and what the list operations do to that.
use tom_libs.Common.{
  ◌==◌, if◌then◌else◌, Bool-cases, length, ℕ, ◌+◌, ◌<◌, ◌≡◌, ap, ◌∙◌, inl, inr, List, [], ◌∷◌, ◌++◌,
  arith,
}
use tom_libs.Slab.State.{ok, remove_page}

unfoldable pub count : ℕ → List ℕ → ℕ
count b [] = 0
count b (x ∷ xs) = (if b == x then 1 else 0) + count b xs

pub count-append : (b : ℕ) (xs ys : List ℕ) → count b (xs ++ ys) ≡ count b xs + count b ys
unfolding count
count-append b [] ys = omega arith
count-append b (x ∷ xs) ys = omega (arith, count-append b xs ys)

pub count-concat :
    (b x : ℕ) (xs : List ℕ) → count b (xs ++ x ∷ []) ≡ count b xs + (if b == x then 1 else 0)
unfolding count
count-concat b x xs = omega (arith, count-append b xs (x ∷ []))

-- The first page of a list is on it.
pub count_head : {xs : List ℕ} (b : ℕ) (bs : List ℕ) → xs ≡ b ∷ bs → count b xs ≡ count b bs + 1
unfolding count
count_head b bs e = ap (count b) e ∙ ground arith

-- The list without one `b`, of which there is one.
pub record Removed (b : ℕ) (xs : List ℕ) : Type 0 where
  pub rest : List ℕ
  pub removed : remove_page b xs ≡ ok rest
  pub counts : (c : ℕ) → count c xs ≡ count c rest + (if c == b then 1 else 0)
  pub shorter : length xs ≡ length rest + 1

pub remove_page_total : (b : ℕ) (xs : List ℕ) → 0 < count b xs → Removed b xs
unfolding count remove_page
remove_page_total b [] h = absurd (omega arith)
remove_page_total b (x ∷ xs) h = elim (Bool-cases (x == b)) [
  | inl e ↦ record { rest = xs; removed = rw e; counts = λ c. ground arith; shorter = omega arith }
  | inr e ↦
      let r = remove_page_total b xs (ground arith) in
      record {
        rest = x ∷ r.rest;
        removed = rw (e, r.removed);
        counts = λ c. ground (arith, r.counts c);
        shorter = omega (arith, r.shorter);
      }
]

pub remove_head : {xs : List ℕ} (b : ℕ) (bs : List ℕ) → xs ≡ b ∷ bs → remove_page b xs ≡ ok bs
unfolding remove_page
remove_head b bs e = ap (remove_page b) e ∙ ground arith

head-counts :
    {xs : List ℕ} (b : ℕ) (bs : List ℕ)
    → xs ≡ b ∷ bs
    → (c : ℕ) → count c xs ≡ count c bs + (if c == b then 1 else 0)
unfolding count
head-counts b bs e c = ap (count c) e ∙ ground arith

head-length : {xs : List ℕ} (b : ℕ) (bs : List ℕ) → xs ≡ b ∷ bs → length xs ≡ length bs + 1
head-length b bs e = ap length e ∙ omega arith

-- The first page is the one removed.
unfoldable pub removed_head : {xs : List ℕ} (b : ℕ) (bs : List ℕ) → xs ≡ b ∷ bs → Removed b xs
unfolding head-counts head-length
removed_head b bs e = record {
  rest = bs;
  removed = remove_head b bs e;
  counts = head-counts b bs e;
  shorter = head-length b bs e;
}

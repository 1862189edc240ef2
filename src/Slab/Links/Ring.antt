-- ===== src/Slab/Links/Ring.antt =====
-- Chains of pointers, and what a write to a pointer makes of them.
use tom_libs.Common.{ℕ, ◌<◌, ◌≡◌, sym, ◌∙◌, ◌↔◌, List, [], ◌∷◌, ◌++◌, arith}
use tom_libs.Slab.State.Lists.{count, count-append}
use tom_libs.Slab.Links.{write}

-- From `a` the pointers lead through the nodes to `b`.
abbrev pub Forward : (ℕ → ℕ) → ℕ → List ℕ → ℕ → Type 0
Forward next a [] b = next a ≡ b
Forward next a (x ∷ xs) b = (next a ≡ x) × Forward next x xs b

-- From `b` the pointers lead back through the nodes to `a`.
abbrev pub Backward : (ℕ → ℕ) → ℕ → List ℕ → ℕ → Type 0
Backward prev a [] b = prev b ≡ a
Backward prev a (x ∷ xs) b = (prev x ≡ a) × Backward prev x xs b

-- The nodes are distinct.
abbrev pub Distinct : List ℕ → Type 0
Distinct [] = Unit
Distinct (x ∷ xs) = (count x xs ≡ 0) × Distinct xs

abbrev pub last_of : ℕ → List ℕ → ℕ
last_of a [] = a
last_of a (x ∷ xs) = last_of x xs

abbrev pub first_of : List ℕ → ℕ → ℕ
first_of [] b = b
first_of (x ∷ xs) b = x

pub Backward-last :
    (prev : ℕ → ℕ) (a : ℕ) (xs : List ℕ) (b : ℕ) → Backward prev a xs b → prev b ≡ last_of a xs
Backward-last prev a [] b h = h
Backward-last prev a (x ∷ xs) b (h, hs) = Backward-last prev x xs b hs

pub Forward-first :
    (next : ℕ → ℕ) (a : ℕ) (xs : List ℕ) (b : ℕ) → Forward next a xs b → next a ≡ first_of xs b
Forward-first next a [] b h = h
Forward-first next a (x ∷ xs) b (h, hs) = h

pub Forward-split :
    (next : ℕ → ℕ) (a : ℕ) (xs : List ℕ) (x : ℕ) (ys : List ℕ) (b : ℕ)
    → Forward next a (xs ++ x ∷ ys) b ↔ (Forward next a xs x × Forward next x ys b)
Forward-split next a [] x ys b = (λ h. h, λ h. h)
Forward-split next a (z ∷ zs) x ys b =
    let ih = Forward-split next z zs x ys b in
    (λ (h, hs). let (p, q) = ih.0 hs in ((h, p), q), λ ((h, p), q). (h, ih.1 (p, q)))

pub Backward-split :
    (prev : ℕ → ℕ) (a : ℕ) (xs : List ℕ) (x : ℕ) (ys : List ℕ) (b : ℕ)
    → Backward prev a (xs ++ x ∷ ys) b ↔ (Backward prev a xs x × Backward prev x ys b)
Backward-split prev a [] x ys b = (λ h. h, λ h. h)
Backward-split prev a (z ∷ zs) x ys b =
    let ih = Backward-split prev z zs x ys b in
    (λ (h, hs). let (p, q) = ih.0 hs in ((h, p), q), λ ((h, p), q). (h, ih.1 (p, q)))

-- Pointers that agree on the nodes that are left (`a` and the list) make the same chain.
pub Forward-same :
    (f g : ℕ → ℕ) (a : ℕ) (xs : List ℕ) (b : ℕ)
    → ((c : ℕ) → 0 < count c (a ∷ xs) → f c ≡ g c)
    → Forward f a xs b
    → Forward g a xs b
unfolding count
Forward-same f g a [] b same h = sym (same a (ground arith)) ∙ h
Forward-same f g a (x ∷ xs) b same (h, hs) =
    (sym (same a (ground arith)) ∙ h, Forward-same f g x xs b (λ c i. same c (ground arith)) hs)

pub Backward-same :
    (f g : ℕ → ℕ) (a : ℕ) (xs : List ℕ) (b : ℕ)
    → ((c : ℕ) → 0 < count c (xs ++ b ∷ []) → f c ≡ g c)
    → Backward f a xs b
    → Backward g a xs b
unfolding count
Backward-same f g a [] b same h = sym (same b (ground arith)) ∙ h
Backward-same f g a (x ∷ xs) b same (h, hs) =
    (sym (same x (ground arith)) ∙ h, Backward-same f g x xs b (λ c i. same c (ground arith)) hs)

pub last_of-count : (a : ℕ) (xs : List ℕ) → 0 < count (last_of a xs) (a ∷ xs)
unfolding count
last_of-count a [] = ground arith
last_of-count a (x ∷ xs) = ground (arith, last_of-count x xs)

pub first_of-count : (xs : List ℕ) (b : ℕ) → 0 < count (first_of xs b) (xs ++ b ∷ [])
unfolding count
first_of-count [] b = ground arith
first_of-count (x ∷ xs) b = ground arith

-- Turning the last pointer of a chain to another end.
pub Forward-turn :
    (next : ℕ → ℕ) (a : ℕ) (xs : List ℕ) (b c : ℕ)
    → Distinct (a ∷ xs)
    → Forward next a xs b
    → Forward (write next (last_of a xs) c) a xs c
unfolding count
Forward-turn next a [] b c d h = ground arith
Forward-turn next a (x ∷ xs) b c (d, ds) (h, hs) =
    (ground (arith, last_of-count x xs, d, h), Forward-turn next x xs b c ds hs)

-- The chain back from a new end.
pub Backward-end :
    (prev : ℕ → ℕ) (a : ℕ) (xs : List ℕ) (b c : ℕ)
    → count c xs ≡ 0
    → Backward prev a xs b
    → Backward (write prev c (last_of a xs)) a xs c
unfolding count
Backward-end prev a [] b c d h = ground arith
Backward-end prev a (x ∷ xs) b c d (h, hs) =
    (ground (arith, d, h), Backward-end prev x xs b c (ground (arith, d)) hs)

-- Leaving out the node between two chains.
pub Forward-skip :
    (next : ℕ → ℕ) (a : ℕ) (xs : List ℕ) (x : ℕ) (ys : List ℕ) (b : ℕ)
    → Distinct (a ∷ xs ++ ys)
    → Forward next a xs x
    → Forward next x ys b
    → Forward (write next (last_of a xs) (first_of ys b)) a (xs ++ ys) b
unfolding count
Forward-skip next a [] x [] b d h hs = ground arith
Forward-skip next a [] x (y ∷ ys) b (d, ds) h (e, es) =
    (ground arith, Forward-same next (write next a y) y ys b (λ c i. ground (arith, d)) es)
Forward-skip next a (z ∷ zs) x ys b (d, ds) (h, hs) k = (
  ground (arith, last_of-count z zs, count-append (last_of z zs) zs ys, count-append a zs ys, d, h),
  Forward-skip next z zs x ys b ds hs k,
)

pub Backward-skip :
    (prev : ℕ → ℕ) (a : ℕ) (xs : List ℕ) (x : ℕ) (ys : List ℕ) (b : ℕ)
    → Distinct (xs ++ (ys ++ b ∷ []))
    → Backward prev a xs x
    → Backward prev x ys b
    → Backward (write prev (first_of ys b) (last_of a xs)) a (xs ++ ys) b
unfolding count
Backward-skip prev a [] x [] b d h hs = ground arith
Backward-skip prev a [] x (y ∷ ys) b (d, ds) h (e, es) =
    (ground arith, Backward-same prev (write prev y a) y ys b (λ c i. ground (arith, d)) es)
Backward-skip prev a (z ∷ zs) x ys b (d, ds) (h, hs) k = (
  ground (arith, first_of-count ys b, count-append z zs (ys ++ b ∷ []), d, h),
  Backward-skip prev z zs x ys b ds hs k,
)

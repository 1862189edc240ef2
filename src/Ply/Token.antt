-- ===== src/Ply/Token.antt =====
-- `ply_next_token` of tom_ply.h.
use tom_libs.Common.{
  ◌==◌, if◌then◌else◌, ℕ, ◌≡◌, refl, ap, ◌∙◌, ◌≢◌, Option, none, some, List, [], ◌∷◌, ◌++◌, arith,
}

-- the first loop: delimiters are passed over
unfoldable pub skip : ℕ → List ℕ → List ℕ
skip delim [] = []
skip delim (c ∷ cs) = if c == delim then skip delim cs else c ∷ cs

-- the second loop: the token, and what follows the delimiter that ends it
unfoldable pub cut : ℕ → List ℕ → List ℕ × List ℕ
cut delim [] = ([], [])
cut delim (c ∷ cs) =
    let rest = cut delim cs in if c == delim then ([], cs) else (c ∷ rest.0, rest.1)

-- `return *start ? start : NULL`
unfoldable pub token_of : List ℕ × List ℕ → Option (List ℕ) × List ℕ
token_of ([], rest) = (none, rest)
token_of (c ∷ cs, rest) = (some (c ∷ cs), rest)

-- `ply_next_token`: the token, if there is one, and the rest of the string
unfoldable pub next_token : ℕ → List ℕ → Option (List ℕ) × List ℕ
unfolding skip cut token_of
next_token delim str = token_of (cut delim (skip delim str))

-- A token: not empty, and without the delimiter.
abbrev pub Without : ℕ → List ℕ → Type 0
Without delim [] = Unit
Without delim (c ∷ cs) = (c ≢ delim) × Without delim cs

pub cut-last : (delim : ℕ) (t : List ℕ) → Without delim t → cut delim t ≡ (t, [])
unfolding cut
cut-last delim [] w = refl
cut-last delim (c ∷ cs) (n, w) = rw (cut-last delim cs w) (ground arith)

pub cut-delim :
    (delim : ℕ) (t rest : List ℕ) → Without delim t → cut delim (t ++ delim ∷ rest) ≡ (t, rest)
unfolding cut
cut-delim delim [] rest w = ground arith
cut-delim delim (c ∷ cs) rest (n, w) = rw (cut-delim delim cs rest w) (ground arith)

skip-head : (delim c : ℕ) (xs : List ℕ) → c ≢ delim → skip delim (c ∷ xs) ≡ c ∷ xs
unfolding skip
skip-head delim c xs n = ground arith

-- The next token of a string that starts with one and a delimiter
pub next_token-delim :
    (delim c : ℕ) (cs rest : List ℕ)
    → Without delim (c ∷ cs)
    → next_token delim ((c ∷ cs) ++ delim ∷ rest) ≡ (some (c ∷ cs), rest)
unfolding next_token
next_token-delim delim c cs rest (n, w) =
    ap (λ (s : List ℕ). token_of (cut delim s)) (skip-head delim c (cs ++ delim ∷ rest) n)
    ∙ ap token_of (cut-delim delim (c ∷ cs) rest (n, w))

pub next_token-last :
    (delim c : ℕ) (cs : List ℕ)
    → Without delim (c ∷ cs)
    → next_token delim (c ∷ cs) ≡ (some (c ∷ cs), [])
unfolding next_token
next_token-last delim c cs (n, w) =
    ap (λ (s : List ℕ). token_of (cut delim s)) (skip-head delim c cs n)
    ∙ ap token_of (cut-last delim (c ∷ cs) (n, w))

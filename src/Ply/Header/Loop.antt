-- ===== src/Ply/Header/Loop.antt =====
-- The loop of `ply_process_header` ends.
use tom_libs.Common.{
  ◌==◌, Bool-cases, length, length-append, take, drop, length-drop, ℕ, zero, suc, ◌+◌, ◌≤◌, ◌<◌,
  ◌≡◌, refl, subst, inl, inr, Bool, true, false, Option, none, some, List, [], ◌∷◌, arith,
}
use tom_libs.Ply.Types.{Parse, ok, failed, fault, stale, out_of_fuel, ◌>>=◌, or_syntax, Parser}
use tom_libs.Ply.Header.Words.{newline, word_magic, str_eq}
use tom_libs.Ply.Header.{
  parse_header_line, Input, read_more, split_line, header_loop, reset_parser, check_magic,
  input_size, process_header,
}
use tom_libs.Ply.Header.Ends.{Ends, Ends-bind, Ends-parse_header_line}

-- The line that is cut off takes its newline with it.
abbrev Shorter : List ℕ → Parse (List ℕ × List ℕ) → Type 0
Shorter bytes (ok (line, left)) = length left < length bytes
Shorter bytes out_of_fuel = ⊥
Shorter bytes _ = Unit

split_line-Shorter : (bytes : List ℕ) → Shorter bytes (split_line bytes)
unfolding split_line
split_line-Shorter [] = tt
split_line-Shorter (c ∷ cs) = elim (Bool-cases (c == newline)) [
  | inl e ↦ rw e (omega arith)
  | inr n ↦ elim (Bool-cases (c == 0)) [
    | inl e ↦ rw (n, e) tt
    | inr e ↦ rw (n, e) (longer (split_line cs) (split_line-Shorter cs))
  ]
]
  where
    longer :
        (r : Parse (List ℕ × List ℕ))
        → Shorter cs r
        → Shorter (c ∷ cs) (r >>= λ s. ok (c ∷ s.0, s.1))
    longer (ok (line, left)) h = omega arith
    longer (failed s) h = tt
    longer fault h = tt
    longer stale h = tt
    longer out_of_fuel h = h

-- Reading moves bytes of the input into the buffer.
abbrev Moved : ℕ → Parse (Parser × Input) → Type 0
Moved n (ok (p, more)) = length p.buffer + input_size more ≡ n
Moved n out_of_fuel = ⊥
Moved n _ = Unit

read_more-Moved :
    (p : Parser) (input : Input) → Moved (length p.buffer + input_size input) (read_more p input)
unfolding read_more input_size
read_more-Moved p [] = refl
read_more-Moved p (none ∷ more) = tt
read_more-Moved p (some bytes ∷ more) = omega (arith, length-append p.buffer bytes)

-- a step of the loop after the line is cut off
Ends-line :
    (loop : Parser → Input → Parse (Parser × Input)) (strtoul : List ℕ → ℕ × List ℕ) (q : Parser)
    (more : Input) (r : Parse (List ℕ × List ℕ))
    → Shorter q.buffer r
    → ((p : Parser) → length p.buffer < length q.buffer → Ends (loop p more))
    → Ends {A = Parser × Input} (
        r >>= λ s. parse_header_line strtoul q s.0 >>= λ t. elim t.0 [
          | true ↦ loop (record t.1 { buffer = s.1 }) more
          | false ↦ ok (record t.1 { buffer = s.1 }, more)
        ])
Ends-line loop strtoul q more (ok (line, left)) short ih =
    Ends-bind (parse_header_line strtoul q line) _ (Ends-parse_header_line strtoul q line)
      (λ (going, p). step going p)
  where
    step :
        (going : Bool) (p : Parser)
        → Ends {A = Parser × Input} (elim going [
          | true ↦ loop (record p { buffer = left }) more
          | false ↦ ok (record p { buffer = left }, more)
        ])
    step true p = ih (record p { buffer = left }) short
    step false p = tt
Ends-line loop strtoul q more (failed s) short ih = tt
Ends-line loop strtoul q more fault short ih = tt
Ends-line loop strtoul q more stale short ih = tt
Ends-line loop strtoul q more out_of_fuel short ih = elim short [ ]

header_loop-Ends :
    (k : ℕ) (strtoul : List ℕ → ℕ × List ℕ) (p : Parser) (input : Input)
    → length p.buffer + input_size input < k
    → Ends (header_loop k strtoul p input)
unfolding header_loop
header_loop-Ends zero strtoul p input h = absurd (omega arith)
header_loop-Ends (suc k) strtoul p input h =
    step (read_more p input) (read_more-Moved p input)
      (λ q more lt. header_loop-Ends k strtoul q more lt)
  where
    step :
        (r : Parse (Parser × Input))
        → Moved (length p.buffer + input_size input) r
        → ((q : Parser) (more : Input)
            → length q.buffer + input_size more < k
            → Ends (header_loop k strtoul q more))
        → Ends {A = Parser × Input} (
            r >>= λ s. split_line s.0.buffer >>= λ l. parse_header_line strtoul s.0 l.0 >>= λ t.
            elim t.0 [
              | true ↦ header_loop k strtoul (record t.1 { buffer = l.1 }) s.1
              | false ↦ ok (record t.1 { buffer = l.1 }, s.1)
            ])
    step (ok (q, more)) moved ih =
        Ends-line (header_loop k strtoul) strtoul q more (split_line q.buffer)
          (split_line-Shorter q.buffer) (λ r lt. ih r more (omega (arith, moved)))
    step (failed s) moved ih = tt
    step fault moved ih = tt
    step stale moved ih = tt
    step out_of_fuel moved ih = elim moved [ ]

check_lem :
    (bytes : List ℕ) {rest : List ℕ} → check_magic bytes ≡ some rest → length rest ≤ length bytes
unfolding check_magic
check_lem bytes {rest} h = elim (Bool-cases (str_eq (take 4 bytes) word_magic)) [
  | inl e ↦
      let same : drop 4 bytes ≡ rest = some_same (simp e at h) in
      subst (λ (l : List ℕ). length l ≤ length bytes) same (omega (arith, length-drop 4 bytes))
  | inr e ↦ absurd (none_some (simp e at h))
]
  where
    some_same : {a b : List ℕ} → some a ≡ some b → a ≡ b
    some_same h = cc

    none_some : ◌≡◌ {A = Option (List ℕ)} none (some rest) → ⊥
    none_some h = cc

-- `ply_process_header` ends, for every sequence of answers of `readFunc` with an end to its bytes:
-- the rounds that its loop is given here are enough.
pub process_header-Ends :
    (strtoul : List ℕ → ℕ × List ℕ) (p : Parser) (input : Input)
    → Ends (process_header strtoul p input)
unfolding process_header reset_parser
process_header-Ends strtoul p input =
    start (read_more (reset_parser p) input) (read_more-Moved (reset_parser p) input)
  where
    checked :
        (q : Parser) (more : Input) (o : Option (List ℕ))
        → ((rest : List ℕ) → o ≡ some rest → length rest + input_size more ≤ input_size input)
        → Ends {A = Parser × Input} (
            or_syntax o >>= λ rest.
            header_loop (suc (input_size input)) strtoul (record q { buffer = rest }) more)
    checked q more none bound = tt
    checked q more (some rest) bound =
        header_loop-Ends (suc (input_size input)) strtoul (record q { buffer = rest }) more
          (omega (arith, bound rest refl))

    start :
        (r : Parse (Parser × Input))
        → Moved (0 + input_size input) r
        → Ends {A = Parser × Input} (
            r >>= λ s. or_syntax (check_magic s.0.buffer) >>= λ rest.
            header_loop (suc (input_size input)) strtoul (record s.0 { buffer = rest }) s.1)
    start (ok (q, more)) moved =
        checked q more (check_magic q.buffer) (λ rest e. omega (arith, moved, check_lem q.buffer e))
    start (failed s) moved = tt
    start fault moved = tt
    start stale moved = tt
    start out_of_fuel moved = elim moved [ ]

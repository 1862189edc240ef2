-- ===== src/Rcon/Port.antt =====
-- `rcon_port_to_string` of tom_rcon.h.
use native.Mathlib.Nat.{pow-suc}
use tom_libs.Common.{
  ◌==◌, if◌then◌else◌, Bool-cases, length, ℕ, zero, suc, ◌+◌, ◌-◌, ◌*◌, ◌/◌, ◌%◌, ◌^◌, ◌≤◌, ◌<◌,
  ◌≡◌, ap, ◌∙◌, inl, inr, List, [], ◌∷◌, arith,
}

-- The loop, which writes from the end of the buffer: the digits of the port before those that are
-- there. It runs at least once, and as many rounds as the port and one more are enough.
unfoldable pub digits_before : ℕ → ℕ → List ℕ → List ℕ
digits_before zero port text = text
digits_before (suc k) port text =
    let written = (port % 10 + b'0') ∷ text in
    let rest = digits_before k (port / 10) written in if port / 10 == 0 then written else rest

-- `rcon_port_to_string` of a port that is not negative, with room for its digits
unfoldable pub port_to_string : ℕ → List ℕ
unfolding digits_before
port_to_string port = digits_before (suc port) port []

-- the number that decimal digits stand for, after those that were read
abbrev pub value_from : ℕ → List ℕ → ℕ
value_from n [] = n
value_from n (c ∷ cs) = value_from (n * 10 + (c - b'0')) cs

value_from-digits_before :
    (k n : ℕ) (text : List ℕ) → n < k → value_from 0 (digits_before k n text) ≡ value_from n text
unfolding digits_before
value_from-digits_before zero n text h = absurd (omega arith)
value_from-digits_before (suc k) n text h = elim (Bool-cases (n / 10 == 0)) [
  | inl e ↦ rw e (ap (λ (m : ℕ). value_from m text) (ground (arith, e)))
  | inr e ↦ rw e (
      value_from-digits_before k (n / 10) ((n % 10 + b'0') ∷ text) (ground (arith, e))
      ∙ ap (λ (m : ℕ). value_from m text) (omega arith))
]

-- One bound for each digit.
length-digits_before :
    (bound : ℕ) (k n : ℕ) (text : List ℕ)
    → n < k
    → n < 10 ^ (bound + 1)
    → length (digits_before k n text) ≤ length text + (bound + 1)
unfolding digits_before
length-digits_before bound zero n text h lt = absurd (omega arith)
length-digits_before zero (suc k) n text h lt = elim (Bool-cases (n / 10 == 0)) [
  | inl e ↦ rw e (omega arith)
  | inr e ↦ absurd (ground (arith, e))
]
length-digits_before (suc bound) (suc k) n text h lt = elim (Bool-cases (n / 10 == 0)) [
  | inl e ↦ rw e (omega arith)
  | inr e ↦
      let small : n / 10 < 10 ^ (bound + 1) = omega (arith, lt, power bound) in
      let ih =
        length-digits_before bound k (n / 10) ((n % 10 + b'0') ∷ text) (ground (arith, e)) small in
      rw e (omega (arith, ih))
]
  where
    power : (b : ℕ) → 10 ^ (suc b + 1) ≡ 10 ^ (b + 1) * 10
    power b = ap (λ (m : ℕ). 10 ^ m) (omega arith) ∙ pow-suc 10 (b + 1)

-- The text that `rcon_port_to_string` writes for a port stands for that port, and a port of 16 bits
-- has at most five digits, as `rcon_tcp_open` leaves room for.
pub port_to_string_lem :
    (port : ℕ)
    → (value_from 0 (port_to_string port) ≡ port)
      × (port < 2 ^ 16 → length (port_to_string port) ≤ 5)
unfolding port_to_string
port_to_string_lem port = (
  value_from-digits_before (suc port) port [] (omega arith),
  λ small. length-digits_before 4 (suc port) port [] (omega arith) (omega arith),
)

-- ===== src/Rcon/Tcp/Laws.antt =====
-- What the TCP layer of tom_rcon.h does with bytes and connections.
use tom_libs.Common.{
  ltb, if_cases, length, take, drop, take-append-drop, length-drop, ℕ, zero, suc, ◌+◌, ◌-◌, ◌≤◌,
  ◌<◌, ◌≡◌, refl, sym, ap, ◌∙◌, true, false, List, [], ◌∷◌, ◌++◌, arith,
}
use tom_libs.Rcon.Wait.{reply, refused}
use tom_libs.Rcon.Tcp.{
  is_benign_error, Answer, gave, errno, Looped, returned, waiting, after_bytes, send_step,
  send_loop, tcp_send,
}

-- `send` takes no more than it is asked to send.
abbrev pub SendFits : List (ℕ → Answer ℕ) → Type 0
SendFits [] = Unit
SendFits (answer ∷ more) = ((asked n : ℕ) → answer asked ≡ gave n → n ≤ asked) × SendFits more

-- The bytes that went out are those of the message if the loop returns its length, and else its first ones.
abbrev pub IsSent : List ℕ → Looped ℕ → Type 0
IsSent bytes (returned (reply n) out) = (n ≡ length bytes) × (out ≡ bytes)
IsSent bytes (returned (refused e) out) = (k : ℕ) × (out ≡ take k bytes)
IsSent bytes (waiting out) = (k : ℕ) × (out ≡ take k bytes)

-- The same from byte `i` on.
abbrev IsSentFrom : List ℕ → ℕ → Looped ℕ → Type 0
IsSentFrom bytes i (returned (reply n) out) = (n ≡ length bytes) × (out ≡ drop i bytes)
IsSentFrom bytes i (returned (refused e) out) = (k : ℕ) × (out ≡ take k (drop i bytes))
IsSentFrom bytes i (waiting out) = (k : ℕ) × (out ≡ take k (drop i bytes))

-- What is read of the bytes from `i` on, in two parts.
take_sum :
    (n k : ℕ) (xs : List ℕ) → n ≤ length xs → take n xs ++ take k (drop n xs) ≡ take (n + k) xs
take_sum zero k xs h = ap (λ (m : ℕ). take m xs) (omega arith)
take_sum (suc n) k [] h = absurd (omega arith)
take_sum (suc n) k (x ∷ xs) h =
    let e : suc (n + k) ≡ suc n + k = omega arith in
    ap (λ (l : List ℕ). x ∷ l) (take_sum n k xs (omega arith)) ∙ ap (λ (m : ℕ). take m (x ∷ xs)) e

drop-empty : (n : ℕ) → drop {A = ℕ} n [] ≡ []
drop-empty zero = refl
drop-empty (suc n) = refl

drop-drop : (i n : ℕ) (xs : List ℕ) → drop n (drop i xs) ≡ drop (i + n) xs
drop-drop zero n xs = ap (λ (m : ℕ). drop m xs) (omega arith)
drop-drop (suc i) n [] = drop-empty n ∙ sym (drop-empty (suc i + n))
drop-drop (suc i) n (x ∷ xs) =
    let e : suc (i + n) ≡ suc i + n = omega arith in
    drop-drop i n xs ∙ ap (λ (m : ℕ). drop m (x ∷ xs)) e

drop-length : (xs : List ℕ) (n : ℕ) → length xs ≡ n → drop n xs ≡ []
drop-length [] zero h = refl
drop-length [] (suc n) h = refl
drop-length (x ∷ xs) zero h = absurd (omega (arith, h))
drop-length (x ∷ xs) (suc n) h = drop-length xs n (omega (arith, h))

IsSentFrom-after :
    (bytes : List ℕ) (i n : ℕ) (r : Looped ℕ)
    → i + n ≤ length bytes
    → IsSentFrom bytes (i + n) r
    → IsSentFrom bytes i (after_bytes (take n (drop i bytes)) r)
IsSentFrom-after bytes i n (returned (reply m) out) h (e, f) =
    (e, rw (f, sym (drop-drop i n bytes)) (take-append-drop n (drop i bytes)))
IsSentFrom-after bytes i n (returned (refused code) out) h (k, f) = (
  n + k,
  rw (f, sym (drop-drop i n bytes))
      (take_sum n k (drop i bytes) (omega (arith, length-drop i bytes, h))),
)
IsSentFrom-after bytes i n (waiting out) h (k, f) = (
  n + k,
  rw (f, sym (drop-drop i n bytes))
      (take_sum n k (drop i bytes) (omega (arith, length-drop i bytes, h))),
)

send_step-IsSentFrom :
    (bytes : List ℕ) (i : ℕ) (a : Answer ℕ) (again : Looped ℕ) (on : ℕ → Looped ℕ)
    → ((n : ℕ) → a ≡ gave n → IsSentFrom bytes i (on n))
    → IsSentFrom bytes i again
    → IsSentFrom bytes i (send_step a again on)
unfolding send_step
send_step-IsSentFrom bytes i (gave n) again on f g = f n refl
send_step-IsSentFrom bytes i (errno code) again on f g =
    if_cases (IsSentFrom bytes i) (is_benign_error code) (λ e. g) (λ e. (0, refl))

ended-IsSentFrom :
    (bytes : List ℕ) (i : ℕ)
    → i ≤ length bytes
    → ltb i (length bytes) ≡ false
    → IsSentFrom bytes i (returned (reply i) [])
ended-IsSentFrom bytes i h e =
    let same : i ≡ length bytes = ground (arith, e, h) in
    (same, sym (drop-length bytes i (sym same)))

send_loop-IsSentFrom :
    (answers : List (ℕ → Answer ℕ)) (bytes : List ℕ) (i : ℕ)
    → SendFits answers
    → i ≤ length bytes
    → IsSentFrom bytes i (send_loop answers bytes i)
unfolding send_loop
send_loop-IsSentFrom [] bytes i fits h =
    if_cases (IsSentFrom bytes i) (ltb i (length bytes)) (λ e. (0, refl))
      (λ e. ended-IsSentFrom bytes i h e)
send_loop-IsSentFrom (answer ∷ more) bytes i (fit, fits) h =
    if_cases (IsSentFrom bytes i) (ltb i (length bytes))
      (λ e.
        send_step-IsSentFrom bytes i (answer (length bytes - i)) _ _
          (λ n g.
            let room = fit (length bytes - i) n g in
            let within : i + n ≤ length bytes = omega (arith, room, h) in
            IsSentFrom-after bytes i n (send_loop more bytes (i + n)) within
              (send_loop-IsSentFrom more bytes (i + n) fits within))
          (send_loop-IsSentFrom more bytes i fits h))
      (λ e. ended-IsSentFrom bytes i h e)

IsSent-from : (bytes : List ℕ) (r : Looped ℕ) → IsSentFrom bytes 0 r → IsSent bytes r
IsSent-from bytes (returned (reply n) out) h = h
IsSent-from bytes (returned (refused e) out) h = h
IsSent-from bytes (waiting out) h = h

-- If `send` takes no more than it is asked to, `rcon_tcp_send` returns the length of the message
-- only with the whole message sent, in order; where it fails or still waits, what was sent is the
-- start of the message.
pub tcp_send-IsSent :
    (answers : List (ℕ → Answer ℕ)) (bytes : List ℕ)
    → SendFits answers
    → IsSent bytes (tcp_send answers bytes)
unfolding tcp_send
tcp_send-IsSent answers bytes fits =
    IsSent-from bytes (send_loop answers bytes 0)
      (send_loop-IsSentFrom answers bytes 0 fits (omega arith))

-- The answers suffice for `k` bytes: `k` of them take at least one byte when asked to take any, and
-- those between are benign errors.
pub data Suffice : List (ℕ → Answer ℕ) → ℕ → Type 0 where
  nothing_left : (answers : List (ℕ → Answer ℕ)) → Suffice answers 0
  takes :
      {more : List (ℕ → Answer ℕ)} {k : ℕ} (answer : ℕ → Answer ℕ)
      → ((asked : ℕ) → 0 < asked → (n : ℕ) × (answer asked ≡ gave n) × (0 < n))
      → Suffice more k
      → Suffice (answer ∷ more) (suc k)
  retries :
      {more : List (ℕ → Answer ℕ)} {k : ℕ} (code : ℕ)
      → is_benign_error code ≡ true
      → Suffice more k
      → Suffice ((λ asked. errno code) ∷ more) k

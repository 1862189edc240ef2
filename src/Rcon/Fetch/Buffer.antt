-- ===== src/Rcon/Fetch/Buffer.antt =====
-- The buffer of a client, and what taking a packet away makes of it.
use tom_libs.Common.{
  ltb, length, length-append, take, drop, length-take, length-drop, ℕ, ◌-◌, ◌≤◌, ◌≡◌, refl, sym, ap,
  ◌∙◌, true, false, List, [], ◌∷◌, ◌++◌, arith,
}
use tom_libs.Rcon.State.{buffer_size, Client, done, consume}

-- A client's buffer has its size, no more bytes are in use, and a command is there as a whole.
pub record BufferInv (c : Client) : Type 0 where
  pub whole : length c.buffer ≡ buffer_size
  pub within : c.recvd ≤ buffer_size
  pub held : c.in_cmd ≡ true → c.packet_length ≤ c.recvd

-- the buffer with `n` bytes taken away
abbrev pub shifted : ℕ → Client → Client
shifted n c = record c {
  recvd = c.recvd - n;
  buffer = take (c.recvd - n) (drop n c.buffer) ++ drop (c.recvd - n) c.buffer;
}

pub consume-done : (n : ℕ) (c : Client) → n ≤ c.recvd → consume n c ≡ done (shifted n c)
unfolding consume
consume-done n c h = let e : ltb c.recvd n ≡ false = ground arith in rw e

take-front : (xs ys : List ℕ) → take (length xs) (xs ++ ys) ≡ xs
take-front [] ys = refl
take-front (x ∷ xs) ys = ap (λ (l : List ℕ). x ∷ l) (take-front xs ys)

-- The bytes behind those that are taken away come to the front.
pub shifted-front :
    (n : ℕ) (c : Client)
    → BufferInv c
    → n ≤ c.recvd
    → take (c.recvd - n) (shifted n c).buffer ≡ take (c.recvd - n) (drop n c.buffer)
shifted-front n c inv h =
    let left = c.recvd - n in
    let moved = take left (drop n c.buffer) in
    let all : length moved ≡ left = omega (
      arith,
      h,
      inv.whole,
      inv.within,
      length-take left (drop n c.buffer),
      length-drop n c.buffer,
    ) in
    ap (λ (k : ℕ). take k (moved ++ drop left c.buffer)) (sym all)
    ∙ take-front moved (drop left c.buffer)

-- a client that is not in a command
pub shifted-BufferInv :
    (n : ℕ) (c : Client) → BufferInv c → c.in_cmd ≡ false → BufferInv (shifted n c)
shifted-BufferInv n c inv at_rest =
    let left = c.recvd - n in
    let moved = take left (drop n c.buffer) in
    record {
      whole = omega (
        arith,
        inv.whole,
        inv.within,
        length-append moved (drop left c.buffer),
        length-take left (drop n c.buffer),
        length-drop n c.buffer,
        length-drop left c.buffer,
      );
      within = omega (arith, inv.within);
      held = λ h. absurd cc;
    }

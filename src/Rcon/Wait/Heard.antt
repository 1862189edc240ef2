-- ===== src/Rcon/Wait/Heard.antt =====
-- What `rcon_wait_for_input` makes of one client.
use tom_libs.Common.{
  Bool-cases, length, length-append, take, drop, length-take, length-drop, ℕ, ◌+◌, ◌-◌, ◌≤◌, ◌≡◌,
  inl, inr, Bool, true, false, List, [], ◌∷◌, ◌++◌, arith,
}
use tom_libs.Rcon.State.{buffer_size, Client, drop_client}
use tom_libs.Rcon.Send.Laws.{All}
use tom_libs.Rcon.Fetch.Buffer.{BufferInv}
use tom_libs.Rcon.Fetch.Laws.{Pairwise}
use tom_libs.Rcon.Wait.{append_bytes}

-- What a call makes of a client
pub record Heard (c d : Client) : Type 0 where
  pub buffer_ok : BufferInv d
  pub not_gained : d.authd ≡ true → c.authd ≡ true
  pub fresh : c.in_use ≡ false → d.in_use ≡ true → d.authd ≡ false

trans_Heard : (c d e : Client) → Heard c d → Heard d e → Heard c e
trans_Heard c d e first second = record {
  buffer_ok = second.buffer_ok;
  not_gained = λ a. first.not_gained (second.not_gained a);
  fresh = λ unused used. elim (Bool-cases d.in_use) [
    | inl h ↦ elim (Bool-cases e.authd) [
      | inl a ↦ absurd (not_both d.authd (second.not_gained a) (first.fresh unused h))
      | inr a ↦ a
    ]
    | inr h ↦ second.fresh h used
  ];
}
  where
    not_both : (b : Bool) → b ≡ true → b ≡ false → ⊥
    not_both b p q = cc

pub trans_all :
    (cs ds es : List Client) → Pairwise Heard cs ds → Pairwise Heard ds es → Pairwise Heard cs es
trans_all [] [] [] p q = tt
trans_all (c ∷ cs) (d ∷ ds) (e ∷ es) (p, ps) (q, qs) =
    (trans_Heard c d e p q, trans_all cs ds es ps qs)
trans_all [] [] (e ∷ es) p q = elim q [ ]
trans_all [] (d ∷ ds) es p q = elim p [ ]
trans_all (c ∷ cs) [] es p q = elim p [ ]
trans_all (c ∷ cs) (d ∷ ds) [] p q = elim q [ ]

pub same-Heard : (c : Client) → BufferInv c → Heard c c
same-Heard c inv = record { buffer_ok = inv; not_gained = λ a. a; fresh = λ u v. cc }

pub All-same : (cs : List Client) → All BufferInv cs → Pairwise Heard cs cs
All-same [] inv = tt
All-same (c ∷ cs) (inv, invs) = (same-Heard c inv, All-same cs invs)

pub dropped : (c : Client) → BufferInv c → Heard c (drop_client c)
unfolding drop_client
dropped c inv = record {
  buffer_ok = record { whole = inv.whole; within = inv.within; held = inv.held };
  not_gained = λ a. a;
  fresh = λ u v. cc;
}

pub append_bytes-BufferInv :
    (bytes : List ℕ) (c : Client)
    → BufferInv c
    → length bytes ≤ buffer_size - c.recvd
    → BufferInv (append_bytes bytes c)
unfolding append_bytes
append_bytes-BufferInv bytes c inv fits =
    let kept = take c.recvd c.buffer in
    let behind = drop (c.recvd + length bytes) c.buffer in
    record {
      whole = omega (
        arith,
        inv.whole,
        inv.within,
        length-append kept (bytes ++ behind),
        length-append bytes behind,
        length-take c.recvd c.buffer,
        length-drop (c.recvd + length bytes) c.buffer,
      );
      within = omega (arith, inv.within);
      held = λ h. omega (arith, inv.held h);
    }

pub appended :
    (bytes : List ℕ) (c : Client)
    → BufferInv c
    → length bytes ≤ buffer_size - c.recvd
    → Heard c (append_bytes bytes c)
unfolding append_bytes
appended bytes c inv fits = record {
  buffer_ok = append_bytes-BufferInv bytes c inv fits;
  not_gained = λ a. a;
  fresh = λ u v. cc;
}

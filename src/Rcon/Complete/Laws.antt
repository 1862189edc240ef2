-- ===== src/Rcon/Complete/Laws.antt =====
-- What `rcon_complete_command` keeps of the clients.
use tom_libs.Rcon.Bytes.{is_negative}
use tom_libs.Rcon.Error.{errsrc_proto, box_error}
use tom_libs.Rcon.Send.{send}
use tom_libs.Common.{
  if◌then◌else◌, length, get_elem?, set, get_or, take, drop, length-replicate, ℕ, zero, suc, ◌+◌,
  ◌%◌, ◌^◌, ◌≤◌, ◌<◌, ◌≡◌, refl, sym, ap, ◌∙◌, subst, ◌⊎◌, inl, inr, Bool, true, false, not, Option,
  none, some, List, [], ◌∷◌, arith,
}
use tom_libs.Rcon.State.{buffer_size, Client, Rcon, no_client, consume}
use tom_libs.Common.Ints.{u32_mod}
use tom_libs.Rcon.Send.Laws.{All}
use tom_libs.Rcon.Fetch.Buffer.{BufferInv, shifted, consume-done, shifted-front, shifted-BufferInv}
use tom_libs.Rcon.Fetch.Laws.{ClientOk, Pairwise, same_client, same_clients}
use tom_libs.Rcon.Complete.{
  Completed, completed, overruns, leave_command, finish_client, finish, complete_command,
}

-- A client whose command is completed: it is not in a command, and the bytes of its packet are away,
-- with those behind it at the front of the buffer.
pub record Finished (c d : Client) : Type 0 where
  pub same : ClientOk none c d
  pub left : d.in_cmd ≡ false
  pub taken : d.recvd + c.packet_length ≡ c.recvd
  pub moved : take d.recvd d.buffer ≡ take d.recvd (drop c.packet_length c.buffer)

-- By the client with that index: one that is not in use is left alone, one that is not in a command
-- gives an error and is left alone too, and the command of any other is completed by a response to
-- the request, with the other clients left alone. Only an index beyond the array reads out of
-- bounds.
abbrev pub CompleteOk : ℕ → List ℕ → List Client → Completed → Type 0
CompleteOk i response cs (completed none ds acts) =
    ((get_or cs i no_client).in_use ≡ false) × (ds ≡ cs) × (acts ≡ [])
    ⊎ ((get_or cs i no_client).in_use ≡ true)
      × ((get_or cs i no_client).in_cmd ≡ true)
      × ((d : Client) × Finished (get_or cs i no_client) d × (ds ≡ set cs i d))
      × (acts ≡ send (i + 1) (get_or cs i no_client).request_id 0 response)
CompleteOk i response cs (completed (some e) ds acts) =
    ((get_or cs i no_client).in_use ≡ true)
    × ((get_or cs i no_client).in_cmd ≡ false)
    × (e ≡ box_error errsrc_proto 1)
    × (ds ≡ cs)
    × (acts ≡ [])
CompleteOk i response cs overruns = length cs ≤ i

pub set_ok :
    (cs : List Client) (i : ℕ) (d : Client)
    → All BufferInv cs
    → ClientOk none (get_or cs i no_client) d
    → Pairwise (ClientOk none) cs (set cs i d)
set_ok [] i d inv ok = tt
set_ok (c ∷ cs) zero d (inv, invs) ok = (ok, same_clients none cs invs)
set_ok (c ∷ cs) (suc i) d (inv, invs) ok = (same_client none c inv, set_ok cs i d invs ok)

BufferInv-at : (cs : List Client) (i : ℕ) → All BufferInv cs → BufferInv (get_or cs i no_client)
BufferInv-at [] i inv = record {
  whole = length-replicate {A = ℕ} buffer_size 0;
  within = omega arith;
  held = λ h. absurd cc;
}
BufferInv-at (c ∷ cs) zero (inv, invs) = inv
BufferInv-at (c ∷ cs) (suc i) (inv, invs) = BufferInv-at cs i invs

take_all : (xs : List ℕ) → take (length xs) xs ≡ xs
take_all [] = refl
take_all (x ∷ xs) = ap (λ (t : List ℕ). x ∷ t) (take_all xs)

leave_command-CompleteOk :
    (i : ℕ) (response : List ℕ) (cs : List Client)
    → All BufferInv cs
    → (get_or cs i no_client).in_use ≡ true
    → (get_or cs i no_client).in_cmd ≡ true
    → CompleteOk i response cs (
        leave_command i cs
          (send (i + 1) (get_or cs i no_client).request_id 0 response)
          (consume (get_or cs i no_client).packet_length (get_or cs i no_client)))
unfolding leave_command
leave_command-CompleteOk i response cs inv used busy =
    let c = get_or cs i no_client in
    let ok = BufferInv-at cs i inv in
    let bare : Client = record c { in_cmd = false } in
    let d : Client = record (shifted c.packet_length c) { in_cmd = false } in
    let whole : BufferInv d =
      shifted-BufferInv c.packet_length bare
        (record { whole = ok.whole; within = ok.within; held = λ h. absurd cc }) refl in
    let finished : Finished c d = record {
      same = record { buffer_ok = whole; use_kept = refl; auth_kept = λ n a. a };
      left = refl;
      taken = omega (arith, ok.held busy);
      moved = shifted-front c.packet_length c ok (ok.held busy);
    } in
    rw (consume-done c.packet_length c (ok.held busy)) (inr (used, busy, (d, finished, refl), refl))

four_ways :
    (P : Completed → Type 0) (used busy negative : Bool) (x y z w : Completed)
    → negative ≡ false
    → (used ≡ false → P x)
    → (used ≡ true → busy ≡ false → P y)
    → (used ≡ true → busy ≡ true → P w)
    → P (if not used then x else if not busy then y else if negative then z else w)
four_ways P false busy negative x y z w n a b c = a refl
four_ways P true false negative x y z w n a b c = b refl refl
four_ways P true true false x y z w n a b c = c refl refl
four_ways P true true true x y z w n a b c = absurd cc

finish_client-CompleteOk :
    (i : ℕ) (response : List ℕ) (cs : List Client)
    → All BufferInv cs
    → length response < 2 ^ 31
    → CompleteOk i response cs (finish_client i response cs (get_or cs i no_client))
unfolding finish_client
finish_client-CompleteOk i response cs inv short =
    let c = get_or cs i no_client in
    let n = length response % u32_mod in
    let small : n ≡ length response = omega (arith, short) in
    let whole : take n response ≡ response =
      ap (λ (k : ℕ). take k response) small ∙ take_all response in
    let answer : List ℕ → Completed =
      λ r. leave_command i cs (send (i + 1) c.request_id 0 r) (consume c.packet_length c) in
    four_ways (CompleteOk i response cs) c.in_use c.in_cmd (is_negative n) (completed none cs [])
      (completed (some (box_error errsrc_proto 1)) cs []) overruns (answer (take n response))
      (ground (arith, small, short)) (λ unused. inl (unused, refl, refl))
      (λ used free. (used, free, refl, refl, refl))
      (λ used busy.
        subst (λ r. CompleteOk i response cs (answer r)) (sym whole)
          (leave_command-CompleteOk i response cs inv used busy))

-- What is read at an index, and where nothing is.
read-none : (cs : List Client) (i : ℕ) → get_elem? cs i ≡ none → length cs ≤ i
read-none [] i h = omega arith
read-none (c ∷ cs) zero h = absurd cc
read-none (c ∷ cs) (suc i) h = omega (arith, read-none cs i h)

read-some :
    (cs : List Client) (i : ℕ) {c : Client} → get_elem? cs i ≡ some c → get_or cs i no_client ≡ c
read-some [] i h = absurd cc
read-some (d ∷ cs) zero h = cc
read-some (d ∷ cs) (suc i) h = read-some cs i h

finish-CompleteOk :
    (i : ℕ) (response : List ℕ) (cs : List Client) (o : Option Client)
    → All BufferInv cs
    → length response < 2 ^ 31
    → get_elem? cs i ≡ o
    → CompleteOk i response cs (finish i response cs o)
unfolding finish
finish-CompleteOk i response cs none inv short e = read-none cs i e
finish-CompleteOk i response cs (some c) inv short e =
    subst (λ (d : Client). CompleteOk i response cs (finish_client i response cs d))
      (read-some cs i e) (finish_client-CompleteOk i response cs inv short)

pub complete_command_lem :
    (rc : Rcon) (i : ℕ) (response : List ℕ)
    → All BufferInv rc.clients
    → length response < 2 ^ 31
    → CompleteOk i response rc.clients (complete_command rc (suc i) response)
unfolding complete_command
complete_command_lem rc i response inv short =
    finish-CompleteOk i response rc.clients (get_elem? rc.clients i) inv short refl

-- ===== src/Rcon/History.antt =====
-- A server of tom_rcon.h after any sequence of calls.
use tom_libs.Common.{
  ltb, Bool-cases, if_cases, length, replicate, length-replicate, ℕ, zero, suc, ◌^◌, ◌<◌, ◌≡◌, refl,
  sym, subst, ◌≢◌, inl, inr, Bool, true, false, Option, none, some, List, [], ◌∷◌, arith,
}
use tom_libs.Rcon.State.{
  buffer_size, Client, Action, Rcon, done, fault, out_of_fuel, no_client, set_password,
}
use tom_libs.Rcon.Send.Laws.{All}
use tom_libs.Rcon.Wait.{Io, waited, wait_for_input}
use tom_libs.Rcon.Wait.Laws.{RecvFits, AcceptFits, WaitOk, wait_for_input_lem}
use tom_libs.Rcon.Wait.Heard.{Heard}
use tom_libs.Rcon.Fetch.{Fetched, command, scanned, fetch_command}
use tom_libs.Rcon.Fetch.Buffer.{BufferInv}
use tom_libs.Rcon.Fetch.Laws.{ClientOk, Pairwise, HitsFrom, ScanOk, same_clients, fetch_command_lem}
use tom_libs.Rcon.Complete.{completed, complete_command, create}
use tom_libs.Rcon.Complete.Laws.{CompleteOk, set_ok, complete_command_lem}

-- A server after some calls from rcon_create on, in storage whose field `password` was NULL; the
-- flag tells if rcon_set_password was called.
pub data History : Bool → Rcon → Type 0 where
  starts :
      (storage : Rcon) {rc : Rcon} (n : ℕ)
      → create true n storage ≡ some rc
      → storage.password ≡ none
      → History false rc
  waits :
      {set_before : Bool} {rc : Rcon} {cs : List Client} (e : Option ℕ) (acts : List Action)
      (io : Io)
      → History set_before rc
      → RecvFits io
      → AcceptFits io rc.clients
      → wait_for_input io rc ≡ waited e cs acts
      → History set_before (record rc { clients = cs })
  fetches :
      {set_before : Bool} {rc : Rcon} {cs : List Client} (f : Fetched) (acts : List Action)
      → History set_before rc
      → fetch_command rc ≡ done (scanned f cs acts)
      → History set_before (record rc { clients = cs })
  completes :
      {set_before : Bool} {rc : Rcon} {cs : List Client} (e : Option ℕ) (acts : List Action) (i : ℕ)
      (response : List ℕ)
      → History set_before rc
      → length response < 2 ^ 31
      → complete_command rc i response ≡ completed e cs acts
      → History set_before (record rc { clients = cs })
  sets :
      {set_before : Bool} {rc : Rcon} (password : Option (List ℕ))
      → History set_before rc
      → History true (set_password password rc).1

-- No client is authenticated.
abbrev pub Locked : List Client → Type 0
Locked cs = All (λ (c : Client). c.authd ≡ false) cs

-- the buffers, and that a server without a password is locked
pub record Sound (set_before : Bool) (rc : Rcon) : Type 0 where
  pub buffers : All BufferInv rc.clients
  pub locked : set_before ≡ false → (rc.password ≡ none) × Locked rc.clients

-- A property that each client keeps
All-kept :
    (P Q : Client → Type 0) (R : Client → Client → Type 0)
    → ((c d : Client) → P c → R c d → Q d)
    → (cs ds : List Client) → All P cs
    → Pairwise R cs ds
    → All Q ds
All-kept P Q R step [] [] h r = tt
All-kept P Q R step (c ∷ cs) (d ∷ ds) (h, hs) (r, rs) =
    (step c d h r, All-kept P Q R step cs ds hs rs)
All-kept P Q R step [] (d ∷ ds) h r = elim r [ ]
All-kept P Q R step (c ∷ cs) [] h r = elim r [ ]

not_gained-false :
    (c d : Client) → c.authd ≡ false → (d.authd ≡ true → c.authd ≡ true) → d.authd ≡ false
not_gained-false c d h g = elim (Bool-cases d.authd) [
  | inl a ↦ let b : c.authd ≡ true = g a in absurd cc
  | inr a ↦ a
]

replicate-All : (P : Client → Type 0) (n : ℕ) (c : Client) → P c → All P (replicate n c)
replicate-All P zero c h = tt
replicate-All P (suc n) c h = (h, replicate-All P n c h)

-- What a completed command keeps of the clients
CompleteOk-kept :
    (i : ℕ) (response : List ℕ) (cs ds : List Client) (e : Option ℕ) (acts : List Action)
    → All BufferInv cs
    → CompleteOk i response cs (completed e ds acts)
    → Pairwise (ClientOk none) cs ds
CompleteOk-kept i response cs ds none acts inv (inl (unused, same, quiet)) =
    subst (Pairwise (ClientOk none) cs) (sym same) (same_clients none cs inv)
CompleteOk-kept i response cs ds none acts inv (inr (used, busy, (d, finished, same), answer)) =
    subst (Pairwise (ClientOk none) cs) (sym same) (set_ok cs i d inv finished.same)
CompleteOk-kept i response cs ds (some e) acts inv (used, free, code, same, quiet) =
    subst (Pairwise (ClientOk none) cs) (sym same) (same_clients none cs inv)

pub History-Sound : {set_before : Bool} {rc : Rcon} → History set_before rc → Sound set_before rc
unfolding create set_password complete_command
History-Sound (starts storage n e p) =
    subst (Sound false) {x = record storage { clients = replicate n no_client }} (cc) (record {
      buffers = replicate-All BufferInv n no_client (record {
        whole = length-replicate {A = ℕ} buffer_size 0;
        within = omega arith;
        held = λ h. absurd cc;
      });
      locked = λ h. (p, replicate-All _ n no_client refl);
    })
History-Sound (waits {rc = rc} {cs = cs} code acts io h fits slot e) =
    let s = History-Sound h in
    let ok = subst (WaitOk rc.clients) e (wait_for_input_lem io rc fits slot s.buffers).0 in
    record {
      buffers =
          All-kept BufferInv BufferInv Heard (λ c d i r. r.buffer_ok) rc.clients cs s.buffers ok;
      locked = λ f.
          let (p, l) = s.locked f in
          (
            p,
            All-kept _ _ Heard (λ c d i r. not_gained-false c d i r.not_gained) rc.clients cs l ok,
          );
    }
History-Sound (fetches {rc = rc} {cs = cs} got acts h e) =
    let s = History-Sound h in
    let ok = (subst (ScanOk rc.password 0 rc.clients) e (fetch_command_lem rc s.buffers)).0 in
    record {
      buffers =
          All-kept BufferInv BufferInv (ClientOk rc.password) (λ c d i r. r.buffer_ok) rc.clients cs
            s.buffers ok;
      locked = λ f.
          let (p, l) = s.locked f in
          (
            p,
            All-kept _ _ (ClientOk rc.password) (λ c d i r. not_gained-false c d i (r.auth_kept p))
                rc.clients cs l ok,
          );
    }
History-Sound
      (completes {set_before = flag} {rc = rc} {cs = cs} code acts zero response h short e) =
    let s = History-Sound h in
    subst (λ (l : List Client). Sound flag (record rc { clients = l })) {x = rc.clients} {y = cs}
      (cc) s
History-Sound (completes {rc = rc} {cs = cs} code acts (suc i) response h short e) =
    let s = History-Sound h in
    let ok = CompleteOk-kept i response rc.clients cs code acts s.buffers (
      subst (CompleteOk i response rc.clients) e
        (complete_command_lem rc i response s.buffers short)) in
    record {
      buffers =
          All-kept BufferInv BufferInv (ClientOk none) (λ c d i r. r.buffer_ok) rc.clients cs
            s.buffers ok;
      locked = λ f.
          let (p, l) = s.locked f in
          (
            p,
            All-kept _ _ (ClientOk none) (λ c d i r. not_gained-false c d i (r.auth_kept refl))
                rc.clients cs l ok,
          );
    }
History-Sound (sets none h) =
    let s = History-Sound h in record { buffers = s.buffers; locked = λ f. absurd cc }
History-Sound (sets (some p) h) =
    let s = History-Sound h in
    if_cases (λ (z : Bool × Rcon). Sound true z.1) (ltb 4086 (length p))
      (λ e. record { buffers = s.buffers; locked = λ f. absurd cc })
      (λ e. record { buffers = s.buffers; locked = λ f. absurd cc })

-- what a caller can rely on
pub record Guarded (set_before : Bool) (rc : Rcon) : Type 0 where
  pub buffers : All BufferInv rc.clients
  pub fetch_ends : fetch_command rc ≢ out_of_fuel
  pub hazards : fetch_command rc ≡ fault → HitsFrom rc.password 0 rc.clients
  pub no_command :
      set_before ≡ false
      → (n : ℕ) (text : List ℕ) (cs : List Client) (acts : List Action)
      → fetch_command rc ≢ done (scanned (command n text) cs acts)

-- ===== src/Rcon/Fetch/Laws.antt =====
-- The loops of `rcon_fetch_command`.
use tom_libs.Common.{
  if◌then◌else◌, get_or, drop, ℕ, zero, suc, ◌+◌, ◌<◌, ◌≡◌, refl, sym, ◌∙◌, subst, inl, inr, Bool,
  true, false, not, Option, none, List, [], ◌∷◌, arith,
}
use tom_libs.Rcon.Secret.{streq_consttime}
use tom_libs.Rcon.State.{Client, Action, Rcon, Outcome, done, fault, out_of_fuel, no_client}
use tom_libs.Rcon.Fetch.{
  Fetched, nothing, command, failed, Turn, again, breaks, returns, Drained, idle, returned, Scan,
  scanned, handle, prepend, resume, drain, scan_more, scan_next, scan, fetch_command,
}
use tom_libs.Rcon.Fetch.Packet.{Earned, parsed, IsHazard, TurnOk, handle-TurnOk}
use tom_libs.Rcon.Fetch.Buffer.{BufferInv}
use tom_libs.Rcon.Send.Laws.{All}

-- Without a password, no client comes to be authenticated.
abbrev pub Kept : Option (List ℕ) → Client → Client → Type 0
Kept password c d = password ≡ none → d.authd ≡ true → c.authd ≡ true

-- What a call makes of a client
pub record ClientOk (password : Option (List ℕ)) (c d : Client) : Type 0 where
  pub buffer_ok : BufferInv d
  pub use_kept : d.in_use ≡ c.in_use
  pub auth_kept : Kept password c d

-- A client whose command is handed out
pub record Commanded (text : List ℕ) (c : Client) : Type 0 where
  pub commanded : c.in_cmd ≡ true
  pub authenticated : c.authd ≡ true
  pub payload : text ≡ drop 12 c.buffer

-- The second client is the first after some rounds of the loop, each of which takes a packet away.
pub data Rounds (password : Option (List ℕ)) (cidx : ℕ) : Client → Client → Type 0 where
  none_yet : (c : Client) → Rounds password cidx c c
  round :
      (acts : List Action) {c d e : Client}
      → handle password cidx c ≡ done (again d acts)
      → Rounds password cidx d e
      → Rounds password cidx c e

-- The loop comes to a packet that leads to undefined behaviour.
abbrev pub Hits : Option (List ℕ) → ℕ → Client → Type 0
Hits password cidx c = (d : Client) × Rounds password cidx c d × IsHazard password (parsed d)

abbrev DrainOk : Option (List ℕ) → ℕ → Client → Outcome Drained → Type 0
DrainOk password cidx c (done (idle d acts)) = ClientOk password c d
DrainOk password cidx c (done (returned nothing d acts)) = ⊥
DrainOk password cidx c (done (returned (failed e) d acts)) = ClientOk password c d
DrainOk password cidx c (done (returned (command n text) d acts)) =
    ClientOk password c d × (n ≡ cidx) × Commanded text d
DrainOk password cidx c fault = Hits password cidx c
DrainOk password cidx c out_of_fuel = ⊥

Earned-Kept : (password : Option (List ℕ)) (c d : Client) → Earned password c d → Kept password c d
unfolding streq_consttime
Earned-Kept password c d earned e auth = elim (earned auth) [
  | inl before ↦ before
  | inr (_, right) ↦ absurd (cc)
]

trans_ok :
    (password : Option (List ℕ)) (c d e : Client)
    → d.in_use ≡ c.in_use
    → Kept password c d
    → ClientOk password d e
    → ClientOk password c e
trans_ok password c d e used kept ok = record {
  buffer_ok = ok.buffer_ok;
  use_kept = ok.use_kept ∙ used;
  auth_kept = λ n a. kept n (ok.auth_kept n a);
}

prepend-DrainOk :
    (password : Option (List ℕ)) (cidx : ℕ) (c d : Client) (acts : List Action)
    → d.in_use ≡ c.in_use
    → Kept password c d
    → handle password cidx c ≡ done (again d acts)
    → (o : Outcome Drained) → DrainOk password cidx d o
    → DrainOk password cidx c (prepend acts o)
unfolding prepend
prepend-DrainOk password cidx c d acts used kept step (done (idle e more)) ok =
    trans_ok password c d e used kept ok
prepend-DrainOk password cidx c d acts used kept step (done (returned (failed n) e more)) ok =
    trans_ok password c d e used kept ok
prepend-DrainOk password cidx c d acts used kept step (done (returned (command n text) e more))
      (ok, i, rest) =
    (trans_ok password c d e used kept ok, i, rest)
prepend-DrainOk password cidx c d acts used kept step fault (e, rounds, hazard) =
    (e, round acts step rounds, hazard)
prepend-DrainOk password cidx c d acts used kept step (done (returned nothing e more)) ok =
    elim ok [ ]
prepend-DrainOk password cidx c d acts used kept step out_of_fuel ok = elim ok [ ]

resume-DrainOk :
    (password : Option (List ℕ)) (cidx : ℕ) (c : Client) (next : Client → Outcome Drained)
    → c.in_cmd ≡ false
    → ((d : Client)
        → BufferInv d
        → d.in_cmd ≡ false
        → d.recvd < c.recvd
        → DrainOk password cidx d (next d))
    → (t : Outcome Turn) → handle password cidx c ≡ t
    → TurnOk password cidx c t
    → DrainOk password cidx c (resume next t)
unfolding resume
resume-DrainOk password cidx c next at_rest ih (done (again d acts)) step
      (inv, taken, moved, less, used, cmd, earned) =
    prepend-DrainOk password cidx c d acts used (Earned-Kept password c d earned) step (next d)
      (ih d inv (cmd ∙ at_rest) less)
resume-DrainOk password cidx c next at_rest ih (done (breaks d acts)) step (inv, used, cmd, auth) =
    record { buffer_ok = inv; use_kept = used; auth_kept = λ n a. sym auth ∙ a }
resume-DrainOk password cidx c next at_rest ih (done (returns (failed e) d acts)) step
      (inv, used, cmd, auth) =
    record { buffer_ok = inv; use_kept = used; auth_kept = λ n a. sym auth ∙ a }
resume-DrainOk password cidx c next at_rest ih (done (returns (command n text) d acts)) step
      (inv, used, cmd, auth, was, i, t) =
    (
      record { buffer_ok = inv; use_kept = used; auth_kept = λ n a. sym auth ∙ a },
      i,
      record { commanded = cmd; authenticated = auth ∙ was; payload = t },
    )
resume-DrainOk password cidx c next at_rest ih fault step ok = (c, none_yet c, ok)
resume-DrainOk password cidx c next at_rest ih (done (returns nothing d acts)) step ok = elim ok [ ]
resume-DrainOk password cidx c next at_rest ih out_of_fuel step ok = elim ok [ ]

drain-DrainOk :
    (k : ℕ) (password : Option (List ℕ)) (cidx : ℕ) (c : Client)
    → BufferInv c
    → c.in_cmd ≡ false
    → c.recvd < k
    → DrainOk password cidx c (drain k password cidx c)
unfolding drain
drain-DrainOk zero password cidx c inv at_rest h = absurd (omega arith)
drain-DrainOk (suc k) password cidx c inv at_rest h =
    resume-DrainOk password cidx c (drain k password cidx) at_rest
      (λ d i r less. drain-DrainOk k password cidx d i r (omega arith)) (handle password cidx c)
      refl (handle-TurnOk password cidx c inv at_rest)

-- The relation holds between the lists, place by place.
abbrev pub Pairwise {ℓ} : {A : Type ℓ} → (A → A → Type 0) → List A → List A → Type 0
Pairwise R [] [] = Unit
Pairwise R (x ∷ xs) (y ∷ ys) = R x y × Pairwise R xs ys
Pairwise R _ _ = ⊥

-- A command that is handed out comes from the client with its number, the first having number `i + 1`.
abbrev pub From : ℕ → List Client → Fetched → Type 0
From i cs (command n text) =
    (j : ℕ) × (n ≡ i + j + 1)
    × ((get_or cs j no_client).in_use ≡ true)
    × Commanded text (get_or cs j no_client)
From i cs _ = Unit

-- A client in use and not in a command comes to a packet that leads to undefined behaviour.
abbrev pub HitsFrom : Option (List ℕ) → ℕ → List Client → Type 0
HitsFrom password i cs =
    (j : ℕ) × ((get_or cs j no_client).in_use ≡ true)
    × ((get_or cs j no_client).in_cmd ≡ false)
    × Hits password (i + j + 1) (get_or cs j no_client)

abbrev pub ScanOk : Option (List ℕ) → ℕ → List Client → Outcome Scan → Type 0
ScanOk password i cs (done (scanned f ds acts)) = Pairwise (ClientOk password) cs ds × From i ds f
ScanOk password i cs fault = HitsFrom password i cs
ScanOk password i cs out_of_fuel = ⊥

From-next :
    (i : ℕ) (c : Client) (cs : List Client) (f : Fetched) → From (suc i) cs f → From i (c ∷ cs) f
From-next i c cs nothing h = tt
From-next i c cs (failed e) h = tt
From-next i c cs (command n text) (j, e, used, rest) = (suc j, omega arith, used, rest)

scan_more-ScanOk :
    (password : Option (List ℕ)) (i : ℕ) (c d : Client) (cs : List Client) (acts : List Action)
    (o : Outcome Scan)
    → ClientOk password c d
    → ScanOk password (suc i) cs o
    → ScanOk password i (c ∷ cs) (scan_more d acts o)
unfolding scan_more
scan_more-ScanOk password i c d cs acts (done (scanned f ds more)) ok (all, from) =
    ((ok, all), From-next i d ds f from)
scan_more-ScanOk password i c d cs acts fault ok (j, used, at_rest, hits) = (
  suc j,
  used,
  at_rest,
  subst (λ (n : ℕ). Hits password n (get_or cs j no_client)) {x = suc i + j + 1} (omega arith) hits,
)
scan_more-ScanOk password i c d cs acts out_of_fuel ok h = elim h [ ]

pub same_client : (password : Option (List ℕ)) (c : Client) → BufferInv c → ClientOk password c c
same_client password c inv = record { buffer_ok = inv; use_kept = refl; auth_kept = λ n a. a }

pub same_clients :
    (password : Option (List ℕ)) (cs : List Client)
    → All BufferInv cs
    → Pairwise (ClientOk password) cs cs
same_clients password [] inv = tt
same_clients password (c ∷ cs) (inv, invs) =
    (same_client password c inv, same_clients password cs invs)

scan_next-ScanOk :
    (password : Option (List ℕ)) (i : ℕ) (c : Client) (cs : List Client) (o : Outcome Drained)
    (rest : Outcome Scan)
    → c.in_use ≡ true
    → c.in_cmd ≡ false
    → All BufferInv cs
    → DrainOk password (i + 1) c o
    → ScanOk password (suc i) cs rest
    → ScanOk password i (c ∷ cs) (scan_next o cs rest)
unfolding scan_next
scan_next-ScanOk password i c cs (done (idle d acts)) rest used at_rest inv ok r =
    scan_more-ScanOk password i c d cs acts rest ok r
scan_next-ScanOk password i c cs (done (returned (failed e) d acts)) rest used at_rest inv ok r =
    ((ok, same_clients password cs inv), tt)
scan_next-ScanOk password i c cs (done (returned (command n text) d acts)) rest used at_rest inv
      (ok, e, from) r =
    ((ok, same_clients password cs inv), (0, omega arith, ok.use_kept ∙ used, from))
scan_next-ScanOk password i c cs fault rest used at_rest inv ok r =
    (0, used, at_rest, subst (λ (n : ℕ). Hits password n c) {x = i + 1} (omega arith) ok)
scan_next-ScanOk password i c cs (done (returned nothing d acts)) rest used at_rest inv ok r =
    elim ok [ ]
scan_next-ScanOk password i c cs out_of_fuel rest used at_rest inv ok r = elim ok [ ]

-- A client is passed over unless it is in use and not in a command.
passed_over :
    (P : Outcome Scan → Type 0) (used busy : Bool) (x y : Outcome Scan)
    → P x
    → (used ≡ true → busy ≡ false → P y)
    → P (if not used then x else if busy then x else y)
passed_over P false busy x y skip go = skip
passed_over P true true x y skip go = skip
passed_over P true false x y skip go = go refl refl

scan-ScanOk :
    (password : Option (List ℕ)) (i : ℕ) (cs : List Client)
    → All BufferInv cs
    → ScanOk password i cs (scan password i cs)
unfolding scan
scan-ScanOk password i [] inv = (tt, tt)
scan-ScanOk password i (c ∷ cs) (inv, invs) =
    let rest : ScanOk password (suc i) cs (scan password (suc i) cs) =
      scan-ScanOk password (suc i) cs invs in
    let after = scan password (suc i) cs in
    let drained = drain (suc c.recvd) password (i + 1) c in
    passed_over (ScanOk password i (c ∷ cs)) c.in_use c.in_cmd (scan_more c [] after)
      (scan_next drained cs after)
      (scan_more-ScanOk password i c c cs [] after (same_client password c inv) rest)
      (λ used at_rest.
        scan_next-ScanOk password i c cs drained after used at_rest invs
          (drain-DrainOk (suc c.recvd) password (i + 1) c inv at_rest (omega arith)) rest)

pub fetch_command_lem :
    (rc : Rcon) → All BufferInv rc.clients → ScanOk rc.password 0 rc.clients (fetch_command rc)
unfolding fetch_command
fetch_command_lem rc inv = scan-ScanOk rc.password 0 rc.clients inv

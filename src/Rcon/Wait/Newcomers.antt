-- ===== src/Rcon/Wait/Newcomers.antt =====
-- Which client comes into use in `rcon_wait_for_input`.
use tom_libs.Common.{
  ltb, ◌==◌, ==_iff, Bool-cases, if_cases, length, set, get_or, ℕ, zero, suc, ◌+◌, ◌-◌, ◌≡◌, refl,
  sym, ap, ◌∙◌, ◌≢◌, inl, inr, Bool, true, false, none, some, List, [], ◌∷◌, arith,
}
use tom_libs.Rcon.State.{buffer_size, Client, Action, closed, Rcon, no_client, drop_client}
use tom_libs.Rcon.Fetch.Laws.{Pairwise}
use tom_libs.Rcon.Wait.{
  Reply, reply, refused, Io, Waited, waited, overran, append_bytes, wait_more, take_input, receive,
  accept_client, after_receive, after_wait,
}

-- A client that comes into use is the one whose number `cb_accept` gave.
abbrev pub Newcomers : Reply ℕ → List Client → Waited → Type 0
Newcomers given cs (waited e ds acts) =
    (j : ℕ)
    → (get_or cs j no_client).in_use ≡ false
    → (get_or ds j no_client).in_use ≡ true
    → given ≡ reply (suc j)
Newcomers given cs overran = Unit

-- The client does not come into use.
abbrev Stays : Client → Client → Type 0
Stays c d = d.in_use ≡ true → c.in_use ≡ true

abbrev AllStay : List Client → Waited → Type 0
AllStay cs (waited e ds acts) = Pairwise Stays cs ds
AllStay cs overran = Unit

Stays-same : (cs : List Client) → Pairwise Stays cs cs
Stays-same [] = tt
Stays-same (c ∷ cs) = (λ h. h, Stays-same cs)

wait_more-AllStay :
    (c d : Client) (cs : List Client) (acts : List Action) (w : Waited)
    → Stays c d
    → AllStay cs w
    → AllStay (c ∷ cs) (wait_more d acts w)
unfolding wait_more
wait_more-AllStay c d cs acts (waited e ds more) h ok = (h, ok)
wait_more-AllStay c d cs acts overran h ok = tt

dropped-Stays : (c : Client) → Stays c (drop_client c)
unfolding drop_client
dropped-Stays c h = absurd cc

appended-Stays : (bytes : List ℕ) (c : Client) → Stays c (append_bytes bytes c)
unfolding append_bytes
appended-Stays bytes c h = h

take_input-AllStay :
    (i : ℕ) (c : Client) (r : Reply (List ℕ)) (cs : List Client) (rest : Waited)
    → AllStay cs rest
    → AllStay (c ∷ cs) (take_input i c r cs rest)
unfolding take_input
take_input-AllStay i c (refused e) cs rest ok = (dropped-Stays c, Stays-same cs)
take_input-AllStay i c (reply []) cs rest ok =
    wait_more-AllStay c (drop_client c) cs (closed (i + 1) ∷ []) rest (dropped-Stays c) ok
take_input-AllStay i c (reply (b ∷ bs)) cs rest ok =
    wait_more-AllStay c (append_bytes (b ∷ bs) c) cs [] rest (appended-Stays (b ∷ bs) c) ok

receive-AllStay : (io : Io) (i : ℕ) (cs : List Client) → AllStay cs (receive io i cs)
unfolding receive
receive-AllStay io i [] = tt
receive-AllStay io i (c ∷ cs) =
    let rest : AllStay cs (receive io (suc i) cs) = receive-AllStay io (suc i) cs in
    let skipped = wait_more-AllStay c c cs [] (receive io (suc i) cs) (λ h. h) rest in
    elim (Bool-cases c.in_use) [
      | inr e ↦ simp e skipped
      | inl used ↦ elim (Bool-cases (io.hasdata (i + 1))) [
        | inr e ↦ simp (used, e) skipped
        | inl e ↦
            simp (used, e)
              (take_input-AllStay i c (io.recv (i + 1) (buffer_size - c.recvd)) cs
                (receive io (suc i) cs) rest)
      ]
    ]

Stays-at :
    (cs ds : List Client)
    → Pairwise Stays cs ds
    → (j : ℕ) → Stays (get_or cs j no_client) (get_or ds j no_client)
Stays-at [] [] h j used = used
Stays-at (c ∷ cs) (d ∷ ds) (h, hs) zero used = h used
Stays-at (c ∷ cs) (d ∷ ds) (h, hs) (suc j) used = Stays-at cs ds hs j used
Stays-at [] (d ∷ ds) h j used = elim h [ ]
Stays-at (c ∷ cs) [] h j used = elim h [ ]

no_newcomer :
    (given : Reply ℕ) (cs ds : List Client)
    → Pairwise Stays cs ds
    → (j : ℕ) → (get_or cs j no_client).in_use ≡ false
    → (get_or ds j no_client).in_use ≡ true
    → given ≡ reply (suc j)
no_newcomer given cs ds h j unused used =
    let before = Stays-at cs ds h j used in
    absurd (not_both (get_or cs j no_client).in_use before unused)
  where
    not_both : (b : Bool) → b ≡ true → b ≡ false → ⊥
    not_both b p q = cc

get_or-set :
    (ds : List Client) (i j : ℕ) (d : Client)
    → i ≢ j
    → get_or (set ds i d) j no_client ≡ get_or ds j no_client
get_or-set [] i j d n = refl
get_or-set (c ∷ ds) zero zero d n = absurd (n refl)
get_or-set (c ∷ ds) zero (suc j) d n = refl
get_or-set (c ∷ ds) (suc i) zero d n = refl
get_or-set (c ∷ ds) (suc i) (suc j) d n = get_or-set ds i j d (λ e. n (ap (λ (k : ℕ). suc k) e))

accept_client-Newcomers :
    (r : Reply ℕ) (cs ds : List Client) (acts : List Action)
    → Pairwise Stays cs ds
    → Newcomers r cs (accept_client r ds acts)
unfolding accept_client
accept_client-Newcomers (refused e) cs ds acts h = no_newcomer (refused e) cs ds h
accept_client-Newcomers (reply zero) cs ds acts h = no_newcomer (reply zero) cs ds h
accept_client-Newcomers (reply (suc i)) cs ds acts h =
    if_cases (Newcomers (reply (suc i)) cs) (ltb i (length ds))
      (λ low j unused used. elim (Bool-cases (i == j)) [
        | inl e ↦ ap (λ (k : ℕ). reply (suc k)) ((==_iff i j).0 e)
        | inr n ↦ no_newcomer (reply (suc i)) cs ds h j unused (
            ap (λ (c : Client). c.in_use)
              (sym (get_or-set ds i j _ (λ e. absurd (ground (arith, n, e)))))
            ∙ used)
      ])
      (λ high. tt)

after_receive-Newcomers :
    (io : Io) (cs : List Client) (w : Waited)
    → AllStay cs w
    → Newcomers io.accept cs (after_receive io w)
unfolding after_receive
after_receive-Newcomers io cs overran h = tt
after_receive-Newcomers io cs (waited (some e) ds acts) h = no_newcomer io.accept cs ds h
after_receive-Newcomers io cs (waited none ds acts) h =
    if_cases (Newcomers io.accept cs) (io.hasdata 0)
      (λ e. accept_client-Newcomers io.accept cs ds acts h) (λ e. no_newcomer io.accept cs ds h)

pub after_wait-Newcomers :
    (io : Io) (r : Reply ℕ) (rc : Rcon) → Newcomers io.accept rc.clients (after_wait io r rc)
unfolding after_wait
after_wait-Newcomers io (refused e) rc =
    no_newcomer io.accept rc.clients rc.clients (Stays-same rc.clients)
after_wait-Newcomers io (reply zero) rc =
    no_newcomer io.accept rc.clients rc.clients (Stays-same rc.clients)
after_wait-Newcomers io (reply (suc s)) rc =
    after_receive-Newcomers io rc.clients (receive io 0 rc.clients)
      (receive-AllStay io 0 rc.clients)

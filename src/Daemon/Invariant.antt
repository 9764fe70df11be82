-- ===== src/Daemon/Invariant.antt =====
-- What holds of the server between the rounds of tn3270d/tn3270_daemon.c.
use linux_sna.Base.{
  ℕ, zero, suc, ◌+◌, ◌≤◌, ◌<◌, Option, none, some, Bool, true, false, not, leb, ◌==◌, Outcome, ok,
  exit, abort, fault, out_of_fuel, Cmd, pure, and_then, arith, Bool-cases, inl, inr,
}
use linux_sna.Daemon.{
  Client, Server, find_by_fd, Accept, accept_new_client, close_session, Selected, timer, failed,
  ready, client_event, serve_fd, serve, round, rounds,
}

-- If code returns, the server has the property; the loop is never out of fuel.
abbrev pub Lands : {A : Type 0} → (Server → Type 0) → Outcome Server A → Type 0
Lands P (ok a s) = P s
Lands P (exit n) = Unit
Lands P abort = Unit
Lands P fault = Unit
Lands P out_of_fuel = ⊥

pub Lands-then :
    {A B : Type 0} (P Q : Server → Type 0) (o : Outcome Server A) (k : Cmd Server B)
    → Lands P o
    → ((s : Server) → P s → Lands Q (k s))
    → Lands Q (and_then o (λ _. k))
Lands-then P Q (ok a s) k l step = step s l
Lands-then P Q (exit n) k l step = tt
Lands-then P Q abort k l step = tt
Lands-then P Q fault k l step = tt
Lands-then P Q out_of_fuel k l step = l

pub Lands-weaken :
    {A : Type 0} (P Q : Server → Type 0) (o : Outcome Server A)
    → ((s : Server) → P s → Q s)
    → Lands P o
    → Lands Q o
Lands-weaken P Q (ok a s) step l = step s l
Lands-weaken P Q (exit n) step l = tt
Lands-weaken P Q abort step l = tt
Lands-weaken P Q fault step l = tt
Lands-weaken P Q out_of_fuel step l = l

-- A property that the accepting and the closing of clients keep, and that bounds the highest
-- descriptor, is kept by the loop.
module _ (P : Server → Type 0) (bounded : (s : Server) → P s → s.highest_fd < 1024)
    (accepts : (a : Accept) (s : Server) → P s → Lands P (accept_new_client a s))
    (closes : (c : Client) (s : Server) → P s → P (close_session c s)) where
  client_event-Lands :
      (aborted : Bool) (found : Option Client) (s : Server) → P s → P (client_event aborted found s)
  unfolding client_event
  client_event-Lands aborted none s h = h
  client_event-Lands true (some client) s h = closes client s h
  client_event-Lands false (some client) s h = h

  serve_fd-Lands :
      (readable : ℕ → Bool) (a : Accept) (aborted : ℕ → Bool) (i : ℕ) (s : Server)
      → P s
      → Lands P (serve_fd readable a aborted i s)
  unfolding serve_fd
  serve_fd-Lands readable a aborted i s h = elim (Bool-cases (not (readable i))) [
    | inl y ↦ rw y h
    | inr n ↦ elim (Bool-cases (i == s.client_sock)) [
      | inl y ↦
          rw (n, y) (Lands-then P P (accept_new_client a s) (pure tt) (accepts a s h) (λ t l. l))
      | inr n' ↦ elim (Bool-cases (i == s.manage_sock)) [
        | inl y ↦ rw (n, n', y) h
        | inr n'' ↦
            rw (n, n', n'') (client_event-Lands (aborted i) (find_by_fd i s.client_list) s h)
      ]
    ]
  ]

  serve-Lands :
      (readable : ℕ → Bool) (a : Accept) (aborted : ℕ → Bool) (fuel i : ℕ) (s : Server)
      → i ≤ 1024
      → 1024 < i + fuel
      → P s
      → Lands P (serve readable a aborted fuel i s)
  unfolding serve
  serve-Lands readable a aborted zero i s low enough h = absurd (omega arith)
  serve-Lands readable a aborted (suc fuel) i s low enough h =
      let top = bounded s h in
      elim (Bool-cases (leb i s.highest_fd)) [
        | inl y ↦
            let below : i < 1024 = ground arith in
            rw y (
              Lands-then P P (serve_fd readable a aborted i s)
                (serve readable a aborted fuel (i + 1)) (serve_fd-Lands readable a aborted i s h)
                (λ t l.
                  serve-Lands readable a aborted fuel (i + 1) t (omega arith) (omega arith) l))
        | inr n ↦ rw n h
      ]

  round-Lands : (sel : Selected) (s : Server) → P s → Lands P (round sel s)
  unfolding round
  round-Lands timer s h = h
  round-Lands failed s h = h
  round-Lands (ready readable a aborted) s h =
      serve-Lands readable a aborted 1025 3 s (omega arith) (omega arith) h

  pub rounds-Lands :
      (select : ℕ → Server → Selected) (n : ℕ) (s : Server) → P s → Lands P (rounds select n s)
  unfolding rounds
  rounds-Lands select zero s h = h
  rounds-Lands select (suc n) s h =
      Lands-then P P (round (select n s) s) (rounds select n) (round-Lands (select n s) s h)
        (rounds-Lands select n)

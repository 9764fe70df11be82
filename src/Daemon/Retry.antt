-- ===== src/Daemon/Retry.antt =====
-- How often the verbs of tn3270d/tn3270_daemon.c are sent.
use mathlib.Core.List.{append_assoc, append-nil}
use linux_sna.Base.{
  ℕ, zero, suc, ◌+◌, List, [], ◌∷◌, ◌++◌, true, false, Bytes, ℤ, pos, ok, exit, ◌≡◌, refl, arith,
  ◌>>◌, and_then,
}
use linux_sna.Daemon.Verbs.{
  Verb, Lu, SendState, betb, send_ok, recv_only, blank_verb, reinit, send_write, send_writes,
  lu_write, send_reinit, reinit_done, fail_reinits,
}

abbrev pub copies : ℕ → Verb → List Verb
copies zero verb = []
copies (suc n) verb = verb ∷ copies n verb

-- The session after a REINIT was sent, with so many retries left.
abbrev pub retrying : Lu → ℤ → List Verb → Lu
retrying s left verbs = record s {
  lu_session = false;
  retry_reinit = left;
  sent_verbs = s.sent_verbs ++ verbs;
}

fail_reinits-retrying :
    (k left : ℕ) (s : Lu) (verbs : List Verb)
    → fail_reinits k (retrying s (pos (left + k)) verbs)
      ≡ ok tt (retrying s (pos left) (verbs ++ copies k (blank_verb reinit)))
unfolding fail_reinits reinit_done
fail_reinits-retrying zero left s verbs =
    let same : left + 0 ≡ left = omega arith in rw (same, append-nil) refl
fail_reinits-retrying (suc k) left s verbs =
    let next : left + suc k ≡ suc (left + k) = omega arith in
    rw next (
      rw
        (
          append_assoc s.sent_verbs verbs (blank_verb reinit ∷ []),
          ← append_assoc verbs (blank_verb reinit ∷ []) (copies k (blank_verb reinit)),
        )
        (fail_reinits-retrying k left s (verbs ++ blank_verb reinit ∷ [])))

fail_reinits-exit :
    (n : ℕ) (s : Lu) (verbs : List Verb) → fail_reinits (suc n) (retrying s (pos n) verbs) ≡ exit 1
unfolding fail_reinits reinit_done
fail_reinits-exit zero s verbs = refl
fail_reinits-exit (suc n) s verbs =
    rw (append_assoc s.sent_verbs verbs (blank_verb reinit ∷ []))
      (fail_reinits-exit n s (verbs ++ blank_verb reinit ∷ []))

-- With `left` + k retries: `send_reinit` and then k failures send k + 1 REINITs and nothing else
-- and leave `left` retries, and after `left` + k + 1 failures the process has exited with 1.
pub send_reinit-fail_reinits :
    (left k : ℕ) (s : Lu)
    → s.retry_reinit ≡ pos (left + k)
    → ((send_reinit >> fail_reinits k) s
        ≡ ok tt (retrying s (pos left) (copies (suc k) (blank_verb reinit))))
      × ((send_reinit >> fail_reinits (suc (left + k))) s ≡ exit 1)
unfolding send_reinit
send_reinit-fail_reinits left k s e = (
  rw e (fail_reinits-retrying k left s (blank_verb reinit ∷ [])),
  rw e (fail_reinits-exit (left + k) s (blank_verb reinit ∷ [])),
)

turn_over :
    (rest : List Bytes) (s : Lu)
    → s.lu_session ≡ true
    → s.send_state ≡ recv_only
    → send_writes rest s ≡ ok tt s
unfolding send_writes
turn_over [] s on e = refl
turn_over (d ∷ rest) s on e = simp (on, e) (turn_over rest s on e)

lu_write-then :
    (d : Bytes) (rest : List Bytes) (s : Lu) (state : SendState)
    → s.lu_session ≡ true
    → s.send_state ≡ state
    → and_then (lu_write d state s) (λ _. send_writes rest) ≡ lu_write d state s
unfolding lu_write
lu_write-then d rest s betb on e = turn_over rest _ on refl
lu_write-then d rest s send_ok on e = turn_over rest _ on refl
lu_write-then d rest s recv_only on e = turn_over rest s on e

-- In the session with the LU a sequence of `send_write` without a verb from the host does what
-- the first of them does: it sends one WRITE at most, and the data of the others is dropped.
pub send_writes-send_write :
    (data_bytes : Bytes) (rest : List Bytes) (s : Lu)
    → s.lu_session ≡ true
    → send_writes (data_bytes ∷ rest) s ≡ send_write false data_bytes s
unfolding send_writes send_write
send_writes-send_write data_bytes rest s on =
    simp on (lu_write-then data_bytes rest s s.send_state on refl)

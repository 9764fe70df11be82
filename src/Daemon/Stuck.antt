-- ===== src/Daemon/Stuck.antt =====
-- A client of tn3270d/tn3270_daemon.c whose set-up fails.
use linux_sna.Base.{
  ℕ, zero, suc, ◌+◌, ◌≤◌, ◌<◌, true, false, ltb, ◌==◌, if◌then◌else◌, ok, ◌≡◌, refl, arith,
}
use linux_sna.Daemon.{
  Server, count_and_set_fds, peer, Accepted, finish, accept_new_client, Selected, failed, round,
  rounds,
}

-- What `select` gives for a set with a descriptor that is not open: an error, EBADF.
abbrev pub ChecksFds : (ℕ → Server → Selected) → Type 0
ChecksFds select =
    (n : ℕ) (s : Server) (fd : ℕ)
    → fd ≤ s.highest_fd
    → s.all_fds fd ≡ true
    → s.opened fd ≡ false
    → select n s ≡ failed

failed-rounds :
    (select : ℕ → Server → Selected) (n : ℕ) (s : Server) (fd : ℕ)
    → ChecksFds select
    → fd ≤ s.highest_fd
    → s.all_fds fd ≡ true
    → s.opened fd ≡ false
    → rounds select n s ≡ ok tt s
unfolding rounds round
failed-rounds select zero s fd checks le set closed = refl
failed-rounds select (suc n) s fd checks le set closed =
    rw (checks n s fd le set closed) (failed-rounds select n s fd checks le set closed)

-- A client is accepted below the limit, with a descriptor below FD_SETSIZE, and its set-up fails:
-- the call returns with the descriptor closed and still in the set. With a `select` that fails for
-- such a set, every later round leaves the server as it is: no client is served or accepted again.
pub failed_setup_lem :
    (select : ℕ → Server → Selected) (n fd address : ℕ) (s : Server)
    → ChecksFds select
    → s.client_num < s.limit
    → fd < 1024
    → (s' : Server) × (accept_new_client (peer fd address false) s ≡ ok Accepted.zero_result s')
      × (s'.client_list ≡ s.client_list)
      × (s'.client_num ≡ s.client_num + 1)
      × (rounds select n s' ≡ ok tt s')
unfolding accept_new_client count_and_set_fds finish
failed_setup_lem select n fd address s checks room small =
    let allowed : ltb s.limit (s.client_num + 1) ≡ false = ground arith in
    let fits : ltb fd 1024 ≡ true = ground arith in
    let same : (fd == fd) ≡ true = ground arith in
    let top : fd ≤ (if ltb s.highest_fd fd then fd else s.highest_fd) = ground arith in
    rw (allowed, fits)
      (_, refl, refl, refl, failed-rounds select n _ fd checks top (rw same refl) (rw same refl))

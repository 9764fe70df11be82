-- ===== src/Tests/Gateway.antt =====
-- The daemon of the TN3270 server at concrete inputs.
use linux_sna.Base.{
  ℕ, ◌+◌, ◌≤◌, [], ◌∷◌, true, false, length, pos, ok, exit, ◌≡◌, refl, arith, ◌>>◌,
}
use linux_sna.Daemon.{
  Server, peer, Accepted, accept_new_client, Selected, failed, ready, rounds, started,
}
use linux_sna.Daemon.Invariant.{Lands}
use linux_sna.Daemon.Limit.{IsServer, rounds-IsServer}
use linux_sna.Daemon.Refusal.{rounds-full}
use linux_sna.Daemon.Stuck.{failed_setup_lem}
use linux_sna.Daemon.Verbs.{
  Lu, betb, blank_verb, reinit, send_write, send_writes, send_reinit, fail_reinits,
}
use linux_sna.Daemon.Retry.{copies, retrying, send_reinit-fail_reinits, send_writes-send_write}

-- A server of `info` with nothing open
abbrev idle : Server
idle = record {
  limit = 2;
  client_sock = 3;
  manage_sock = 4;
  client_list = [];
  client_num = 0;
  all_fds = λ i. false;
  open_fds = 0;
  wmark_fd = 0;
  highest_fd = 0;
  opened = λ i. false;
}

-- A client comes in each round, and each one that is there leaves.
abbrev busy : ℕ → Server → Selected
busy n s = ready (λ i. true) (peer (n + 5) 1 true) (λ i. true)

rounds-IsServer_example : Lands IsServer ((started 2 3 4 (λ i. false) >> rounds busy 3) idle)
rounds-IsServer_example = rounds-IsServer 2 3 4 (λ i. false) busy 3 idle (omega arith)

rounds-full_example :
    Lands
      (λ t. (t.client_num ≡ t.limit) × (length t.client_list ≤ 0))
      (rounds busy 3 (record idle { client_num = 2 }))
rounds-full_example = rounds-full busy 3 (record idle { client_num = 2 }) refl (omega arith)

-- `select` fails always.
abbrev broken : ℕ → Server → Selected
broken n s = failed

failed_setup_example :
    (s' : Server) × (accept_new_client (peer 5 1 false) idle ≡ ok Accepted.zero_result s')
    × (s'.client_list ≡ [])
    × (s'.client_num ≡ 0 + 1)
    × (rounds broken 9 s' ≡ ok tt s')
failed_setup_example =
    failed_setup_lem broken 9 5 1 idle (λ n s fd le set closed. refl) (omega arith) (omega arith)

-- A session with the LU, at the start of a bracket, with two retries
abbrev session : Lu
session = record {
  lu_session = true;
  send_state = betb;
  retry_reinit = pos 2;
  saved_retry_reinit = pos 2;
  sent_verbs = [];
}

send_reinit-fail_reinits_example :
    ((send_reinit >> fail_reinits 1) session
      ≡ ok tt (retrying session (pos 1) (copies 2 (blank_verb reinit))))
    × ((send_reinit >> fail_reinits 3) session ≡ exit 1)
send_reinit-fail_reinits_example = send_reinit-fail_reinits 1 1 session refl

send_writes-send_write_example :
    send_writes ((1 ∷ []) ∷ (2 ∷ []) ∷ []) session ≡ send_write false (1 ∷ []) session
send_writes-send_write_example = send_writes-send_write (1 ∷ []) ((2 ∷ []) ∷ []) session refl

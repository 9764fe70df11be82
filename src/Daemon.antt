-- ===== src/Daemon.antt =====
-- tn3270d/tn3270_daemon.c and tn3270.h: the server's clients and descriptors.
pub mod Verbs
pub mod Retry
pub mod Invariant
pub mod Limit
pub mod Refusal
pub mod Stuck
use linux_sna.Base.{
  ℕ, zero, suc, ◌+◌, ◌-◌, ◌≤◌, List, [], ◌∷◌, ◌++◌, Option, none, some, Bool, true, false, not,
  ◌&&◌, ltb, leb, ◌==◌, if◌then◌else◌, Outcome, ok, fault, out_of_fuel, Cmd, pure, get, modify,
  ◌>>=◌, ◌>>◌, and_then,
}

-- `client_t`, without its stream and its host
pub record Client : Type 0 where
  pub fd : ℕ
  pub address : ℕ
  pub terminated : Bool

-- `server_info`, as far as it changes, and the descriptors that the process has open. The list
-- of clients is from its head on.
pub record Server : Type 0 where
  pub limit : ℕ
  pub client_sock : ℕ
  pub manage_sock : ℕ
  pub client_list : List Client
  pub client_num : ℕ
  pub all_fds : ℕ → Bool
  pub open_fds : ℕ
  pub wmark_fd : ℕ
  pub highest_fd : ℕ
  pub opened : ℕ → Bool

-- FD_SETSIZE of the C library
abbrev pub fd_setsize : ℕ
fd_setsize = 1024

-- FD_SET and FD_CLR, and what `accept` and `close` do to the open descriptors
abbrev pub set_fd : (ℕ → Bool) → ℕ → Bool → ℕ → Bool
set_fd f fd b i = if fd == i then b else f i

-- `tn3270_server_count_and_set_fds`
unfoldable pub count_and_set_fds : ℕ → Cmd Server (Unit {0})
count_and_set_fds fd s =
    if ltb fd fd_setsize
    then ok tt (record s {
      open_fds = s.open_fds + 1;
      wmark_fd = if ltb s.wmark_fd (s.open_fds + 1) then s.open_fds + 1 else s.wmark_fd;
      all_fds = set_fd s.all_fds fd true;
      highest_fd = if ltb s.highest_fd fd then fd else s.highest_fd;
    })
    else fault

-- `tn3270_server_count_and_clear_fds`; the count is an `unsigned long`, of 32 bits here
abbrev pub count_and_clear_fds : ℕ → Server → Server
count_and_clear_fds fd s = record s {
  open_fds = if s.open_fds == 0 then 4294967295 else s.open_fds - 1;
  all_fds = set_fd s.all_fds fd false;
}

-- `tn3270_client_find_by_fd`
unfoldable pub find_by_fd : ℕ → List Client → Option Client
find_by_fd fd [] = none
find_by_fd fd (l ∷ clients) =
    let rest = find_by_fd fd clients in if l.fd == fd then some l else rest

-- `list_del` of the first client with the descriptor
unfoldable pub without_fd : ℕ → List Client → List Client
without_fd fd [] = []
without_fd fd (l ∷ clients) =
    let rest = without_fd fd clients in if l.fd == fd then clients else l ∷ rest

-- `tn3270_client_delete`: the first client with the same address, and whether there was one
unfoldable pub client_delete : Client → List Client → List Client × Bool
client_delete clt [] = ([], false)
client_delete clt (l ∷ clients) =
    let rest = client_delete clt clients in
    if clt.address == l.address then (clients, true) else (l ∷ rest.0, rest.1)

-- What `accept` gives, and whether the set-up of the client then succeeds.
pub data Accept : Type 0 where
  refused : Accept
  peer : (fd address : ℕ) → Bool → Accept

-- The results of `tn3270_accept_new_client`
pub data Accepted : Type 0 where
  einval eusers zero_result : Accepted

abbrev pub open_fd : ℕ → Server → Server
open_fd fd s = record s { opened = set_fd s.opened fd true }

abbrev pub close_fd : ℕ → Server → Server
close_fd fd s = record s { opened = set_fd s.opened fd false }

-- The new client is at the end of the list, and counted.
abbrev pub with_client : ℕ → ℕ → Server → Server
with_client fd address s = record s {
  client_list = s.client_list ++ record { fd = fd; address = address; terminated = false } ∷ [];
}

-- The end of `tn3270_accept_new_client`, with the list as it was before
finish : List Client → ℕ → Bool → Cmd Server Accepted
finish before fd true s = ok zero_result s
finish before fd false s = ok zero_result (close_fd fd (record s { client_list = before }))

-- `tn3270_accept_new_client`, with memory to be had
unfoldable pub accept_new_client : Accept → Cmd Server Accepted
unfolding count_and_set_fds finish
accept_new_client refused s = ok einval s
accept_new_client (peer fd address set_up) s =
    if ltb s.limit (s.client_num + 1)
    then ok eusers (close_fd fd (open_fd fd s))
    else (count_and_set_fds fd
          >> modify (λ t. record t { client_num = t.client_num + 1 })
          >> finish s.client_list fd set_up)
        (with_client fd address (open_fd fd s))

-- `tn3270_close_session`: the client leaves the list and the set of descriptors. The verbs that
-- it sends do not touch the server.
unfoldable pub close_session : Client → Server → Server
unfolding without_fd
close_session client s = record (count_and_clear_fds client.fd (close_fd client.fd s)) {
  client_list = without_fd client.fd s.client_list;
}

-- What `select` gives: no descriptor in time, an error, or those that are readable; what `accept`
-- gives then, and for which clients `readMDTfields_2` gives -ECONNABORTED.
pub data Selected : Type 0 where
  timer failed : Selected
  ready : (readable : ℕ → Bool) → Accept → (aborted : ℕ → Bool) → Selected

client_event : Bool → Option Client → Server → Server
unfolding close_session
client_event aborted none s = s
client_event aborted (some client) s = if aborted then close_session client s else s

-- One descriptor of the loop in `tn3270_server_doit`
unfoldable pub serve_fd : (ℕ → Bool) → Accept → (ℕ → Bool) → ℕ → Cmd Server (Unit {0})
unfolding accept_new_client client_event find_by_fd
serve_fd readable accepts aborted i s =
    if not (readable i)
    then ok tt s
    else if i == s.client_sock
    then (accept_new_client accepts >> pure tt) s
    else if i == s.manage_sock
    then ok tt s
    else ok tt (client_event (aborted i) (find_by_fd i s.client_list) s)

-- The loop over the descriptors from `i` up to `highest_fd`, which may grow on the way
unfoldable pub serve : (ℕ → Bool) → Accept → (ℕ → Bool) → ℕ → ℕ → Cmd Server (Unit {0})
unfolding serve_fd
serve readable accepts aborted zero i s = out_of_fuel
serve readable accepts aborted (suc fuel) i s =
    if leb i s.highest_fd
    then (serve_fd readable accepts aborted i >> serve readable accepts aborted fuel (i + 1)) s
    else ok tt s

-- One round of the loop in `tn3270_server_doit`; the table of users that the timer writes is
-- output only
unfoldable pub round : Selected → Cmd Server (Unit {0})
unfolding serve
round timer s = ok tt s
round failed s = ok tt s
round (ready readable accepts aborted) s = serve readable accepts aborted (fd_setsize + 1) 3 s

-- The first `n` rounds of the loop in `tn3270_server_doit`. `select`, with what else the system
-- gives in a round, is a parameter: by the rounds that are left and by the server.
unfoldable pub rounds : (ℕ → Server → Selected) → ℕ → Cmd Server (Unit {0})
unfolding round
rounds select zero = pure tt
rounds select (suc n) = (λ s. round (select n s) s) >> rounds select n

-- `tn3270_server_doit` before its loop, with the sockets that it opens
unfoldable pub started : ℕ → ℕ → ℕ → (ℕ → Bool) → Cmd Server (Unit {0})
unfolding count_and_set_fds
started limit client_sock manage_sock opened s =
    (count_and_set_fds client_sock >> count_and_set_fds manage_sock) (record s {
      limit = limit;
      client_sock = client_sock;
      manage_sock = manage_sock;
      client_list = [];
      all_fds = λ i. false;
      client_num = 0;
      opened = set_fd (set_fd opened client_sock true) manage_sock true;
    })

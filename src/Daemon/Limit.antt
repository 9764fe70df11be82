-- ===== src/Daemon/Limit.antt =====
-- How many clients a server of tn3270d/tn3270_daemon.c has, and how high their descriptors are.
use mathlib.Core.Bool.{false≢true}
use linux_sna.Base.{
  ℕ, ◌+◌, ◌≤◌, ◌<◌, List, [], ◌∷◌, ◌++◌, Bool, true, false, ltb, ◌==◌, if◌then◌else◌, length,
  length-append, All, ◌>>◌, ◌≡◌, arith, Bool-cases, inl, inr,
}
use linux_sna.Daemon.{
  Client, Server, set_fd, count_and_set_fds, without_fd, Accept, refused, peer, finish,
  accept_new_client, close_session, Selected, rounds, started,
}
use linux_sna.Daemon.Invariant.{Lands, rounds-Lands, Lands-then}

-- There are no more clients than were counted, nor more counted than the limit, and the loop
-- over the descriptors goes over each that is in the set and over each client's.
abbrev pub IsServer : Server → Type 0
IsServer s =
    (length s.client_list ≤ s.client_num)
    × (s.client_num ≤ s.limit)
    × (s.highest_fd < 1024)
    × ((i : ℕ) → s.all_fds i ≡ true → i ≤ s.highest_fd)
    × All (λ c. c.fd ≤ s.highest_fd) s.client_list

All-up :
    (m n : ℕ) (clients : List Client)
    → m ≤ n
    → All (λ c. c.fd ≤ m) clients
    → All (λ c. c.fd ≤ n) clients
All-up m n [] le h = tt
All-up m n (c ∷ clients) le h = (omega (arith, h.0), All-up m n clients le h.1)

All-snoc :
    (n : ℕ) (clients : List Client) (c : Client)
    → All (λ d. d.fd ≤ n) clients
    → c.fd ≤ n
    → All (λ d. d.fd ≤ n) (clients ++ c ∷ [])
All-snoc n [] c h le = (le, tt)
All-snoc n (d ∷ clients) c h le = (h.0, All-snoc n clients c h.1 le)

pub length-without_fd :
    (fd : ℕ) (clients : List Client) → length (without_fd fd clients) ≤ length clients
unfolding without_fd
length-without_fd fd [] = omega arith
length-without_fd fd (l ∷ clients) = ground (arith, length-without_fd fd clients)

All-without_fd :
    (n fd : ℕ) (clients : List Client)
    → All (λ c. c.fd ≤ n) clients
    → All (λ c. c.fd ≤ n) (without_fd fd clients)
unfolding without_fd
All-without_fd n fd [] h = tt
All-without_fd n fd (l ∷ clients) h = elim (Bool-cases (l.fd == fd)) [
  | inl y ↦ rw y h.1
  | inr n' ↦ rw n' (h.0, All-without_fd n fd clients h.1)
]

-- The set with a new descriptor is bounded by the new highest one.
set_fd-bounded :
    (f : ℕ → Bool) (fd top i : ℕ)
    → ((j : ℕ) → f j ≡ true → j ≤ top)
    → set_fd f fd true i ≡ true
    → i ≤ (if ltb top fd then fd else top)
set_fd-bounded f fd top i below e = elim (Bool-cases (fd == i)) [
  | inl y ↦ ground (arith, y)
  | inr n ↦ let old = below i (rw n at e) in ground (arith, old)
]

clear_fd-bounded :
    (f : ℕ → Bool) (fd top i : ℕ)
    → ((j : ℕ) → f j ≡ true → j ≤ top)
    → set_fd f fd false i ≡ true
    → i ≤ top
clear_fd-bounded f fd top i below e = elim (Bool-cases (fd == i)) [
  | inl y ↦ absurd (false≢true (rw y at e))
  | inr n ↦ below i (rw n at e)
]

close_session-IsServer : (c : Client) (s : Server) → IsServer s → IsServer (close_session c s)
unfolding close_session
close_session-IsServer c s h = (
  omega (arith, length-without_fd c.fd s.client_list, h.0),
  h.1,
  h.2,
  (λ i e. clear_fd-bounded s.all_fds c.fd s.highest_fd i h.3 e),
  All-without_fd s.highest_fd c.fd s.client_list h.4,
)

finish-IsServer :
    (before : List Client) (fd : ℕ) (set_up : Bool) (s : Server)
    → IsServer s
    → length before ≤ length s.client_list
    → All (λ c. c.fd ≤ s.highest_fd) before
    → Lands IsServer (finish before fd set_up s)
unfolding finish
finish-IsServer before fd true s h le all = h
finish-IsServer before fd false s h le all = (omega (arith, h.0), h.1, h.2, h.3, all)

accept-IsServer : (a : Accept) (s : Server) → IsServer s → Lands IsServer (accept_new_client a s)
unfolding accept_new_client count_and_set_fds
accept-IsServer refused s h = h
accept-IsServer (peer fd address set_up) s h = elim (Bool-cases (ltb s.limit (s.client_num + 1))) [
  | inl y ↦ rw y h
  | inr room ↦ elim (Bool-cases (ltb fd 1024)) [
    | inl y ↦
        let c : Client = record { fd = fd; address = address; terminated = false } in
        let top = if ltb s.highest_fd fd then fd else s.highest_fd in
        let above : s.highest_fd ≤ top = ground arith in
        let here : fd ≤ top = ground arith in
        let under : top < 1024 = ground (arith, h.2) in
        let more = length-append s.client_list (c ∷ []) in
        let counted : s.client_num + 1 ≤ s.limit = ground arith in
        let old = All-up s.highest_fd top s.client_list above h.4 in
        rw (room, y)
          (finish-IsServer s.client_list fd set_up _
            (
              omega (arith, h.0),
              counted,
              under,
              (λ i e. set_fd-bounded s.all_fds fd s.highest_fd i h.3 e),
              All-snoc top s.client_list c old here,
            )
            (omega arith) old)
    | inr n ↦ rw (room, n) tt
  ]
]

count_and_set_fds-IsServer :
    (fd : ℕ) (s : Server) → IsServer s → Lands IsServer (count_and_set_fds fd s)
unfolding count_and_set_fds
count_and_set_fds-IsServer fd s h = elim (Bool-cases (ltb fd 1024)) [
  | inl y ↦
      let top = if ltb s.highest_fd fd then fd else s.highest_fd in
      let above : s.highest_fd ≤ top = ground arith in
      let under : top < 1024 = ground (arith, h.2) in
      rw y (
        h.0,
        h.1,
        under,
        (λ i e. set_fd-bounded s.all_fds fd s.highest_fd i h.3 e),
        All-up s.highest_fd top s.client_list above h.4,
      )
  | inr n ↦ rw n tt
]

started-IsServer :
    (limit client_sock manage_sock : ℕ) (opened : ℕ → Bool) (s : Server)
    → s.highest_fd < 1024
    → Lands IsServer (started limit client_sock manage_sock opened s)
unfolding started
started-IsServer limit client_sock manage_sock opened s top =
    Lands-then IsServer IsServer (count_and_set_fds client_sock _) (count_and_set_fds manage_sock)
      (count_and_set_fds-IsServer client_sock _
        (omega arith, omega arith, top, (λ i e. absurd (false≢true e)), tt))
      (count_and_set_fds-IsServer manage_sock)

-- A server that was started with its two sockets, and whatever `select` and `accept` then give in
-- any number of rounds: if the rounds return, there are no more clients than the limit, each
-- descriptor in the set and of a client is at most `highest_fd`, and that is below FD_SETSIZE.
-- The loop over the descriptors always ends.
pub rounds-IsServer :
    (limit client_sock manage_sock : ℕ) (opened : ℕ → Bool) (select : ℕ → Server → Selected) (n : ℕ)
    (s : Server)
    → s.highest_fd < 1024
    → Lands IsServer ((started limit client_sock manage_sock opened >> rounds select n) s)
rounds-IsServer limit client_sock manage_sock opened select n s top =
    Lands-then IsServer IsServer (started limit client_sock manage_sock opened s) (rounds select n)
      (started-IsServer limit client_sock manage_sock opened s top)
      (λ t h.
        rounds-Lands IsServer (λ u k. k.2) accept-IsServer close_session-IsServer select n t h)

-- ===== src/Daemon/Refusal.antt =====
-- The count of clients in tn3270d/tn3270_daemon.c, which is never lowered.
use linux_sna.Base.{ℕ, ◌+◌, ◌≤◌, ◌<◌, true, ltb, length, ◌≡◌, refl, arith}
use linux_sna.Daemon.{
  Client, Server, Accept, refused, peer, accept_new_client, close_session, Selected, rounds,
}
use linux_sna.Daemon.Invariant.{Lands, Lands-weaken, rounds-Lands}
use linux_sna.Daemon.Limit.{length-without_fd}

-- The count has come up to the limit, and there are at most `most` clients.
IsFull : ℕ → ℕ → Server → Type 0
IsFull limit most s =
    (s.client_num ≡ limit)
    × (s.limit ≡ limit)
    × (s.highest_fd < 1024)
    × (length s.client_list ≤ most)

accept-IsFull :
    (limit most : ℕ) (a : Accept) (s : Server)
    → IsFull limit most s
    → Lands (IsFull limit most) (accept_new_client a s)
unfolding IsFull accept_new_client
accept-IsFull limit most refused s h = h
accept-IsFull limit most (peer fd address set_up) s h =
    let full : ltb s.limit (s.client_num + 1) ≡ true = ground (arith, h.0, h.1) in rw full h

close_session-IsFull :
    (limit most : ℕ) (c : Client) (s : Server)
    → IsFull limit most s
    → IsFull limit most (close_session c s)
unfolding IsFull close_session
close_session-IsFull limit most c s h =
    (h.0, h.1, h.2, omega (arith, length-without_fd c.fd s.client_list, h.3))

-- Once as many clients were counted as the limit says, no client is taken any more: after any
-- number of rounds that return, the count is the limit still, and there are no more clients
-- than before, also if all of them have left.
pub rounds-full :
    (select : ℕ → Server → Selected) (n : ℕ) (s : Server)
    → s.client_num ≡ s.limit
    → s.highest_fd < 1024
    → Lands
        (λ t. (t.client_num ≡ t.limit) × (length t.client_list ≤ length s.client_list))
        (rounds select n s)
unfolding IsFull
rounds-full select n s full top =
    Lands-weaken (IsFull s.limit (length s.client_list)) _ (rounds select n s)
      (λ t h. (omega (arith, h.0, h.1), h.3))
      (rounds-Lands (IsFull s.limit (length s.client_list)) (λ t h. h.2)
        (accept-IsFull s.limit (length s.client_list))
        (close_session-IsFull s.limit (length s.client_list)) select n s
        (full, refl, top, omega arith))

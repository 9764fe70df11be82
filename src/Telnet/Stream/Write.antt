-- ===== src/Telnet/Stream/Write.antt =====
-- `telnet_stream_write` against short writes, full buffers and interrupted waits.
use mathlib.Core.List.{append_assoc, append-nil}
use linux_sna.Base.{
  false, List, [], ◌∷◌, ◌++◌, ◌≡◌, refl, Bytes, Option, none, some, take, drop, take-append-drop,
  Outcome, ok,
}
use linux_sna.Config.{Config}
use linux_sna.Telnet.Stream.{
  Stream, SendResult, takes, busy, interrupted, failed, while_left, write_loop, stream_write,
  send_reply, sent, setenv, store_config,
}

-- The stream differs from `s` only in the results used up and in `bytes`, which have gone out; or
-- the process has ended with status 5.
abbrev pub Sent : Stream → Bytes → Outcome Stream (Unit {0}) → Type 0
Sent s bytes (ok _ t) = t ≡ record s { sends = t.sends; output = s.output ++ bytes }
Sent s bytes (Outcome.exit n) = n ≡ 5
Sent s bytes Outcome.abort = ⊥
Sent s bytes Outcome.fault = ⊥
Sent s bytes Outcome.out_of_fuel = ⊥

abbrev then_sent : Stream → List SendResult → Bytes → Stream
then_sent s rs xs = record s { sends = rs; output = s.output ++ xs }

Sent-append :
    (s : Stream) (rs : List SendResult) (xs ys : Bytes) (o : Outcome Stream (Unit {0}))
    → Sent (then_sent s rs xs) ys o
    → Sent s (xs ++ ys) o
Sent-append s rs xs ys (ok _ t) h = rw (← append_assoc s.output xs ys) h
Sent-append s rs xs ys _ h = h

while_left-Sent :
    (s : Stream) (rs : List SendResult) (xs ys : Bytes) (o : Outcome Stream (Unit {0}))
    → Sent (then_sent s rs xs) ys o
    → Sent s (xs ++ ys) (while_left ys (then_sent s rs xs) o)
unfolding while_left
while_left-Sent s rs xs [] o h = rw append-nil refl
while_left-Sent s rs xs (y ∷ ys) o h = Sent-append s rs xs (y ∷ ys) o h

retry-Sent :
    (s : Stream) (rs : List SendResult) (ys : Bytes) (o : Outcome Stream (Unit {0}))
    → Sent (record s { sends = rs }) ys o
    → Sent s ys (while_left ys (record s { sends = rs }) o)
unfolding while_left
retry-Sent s rs [] o h = rw append-nil refl
retry-Sent s rs (y ∷ ys) (ok _ t) h = h
retry-Sent s rs (y ∷ ys) _ h = h

write_loop-Sent :
    (rs : List SendResult) (bytes : Bytes) (s : Stream) → Sent s bytes (write_loop rs bytes s)
unfolding write_loop
write_loop-Sent [] bytes s = refl
write_loop-Sent (takes n ∷ rs) bytes s =
    let left = drop n bytes in
    rw take-append-drop at (
      while_left-Sent s rs (take n bytes) left (write_loop rs left (then_sent s rs (take n bytes)))
        (write_loop-Sent rs left (then_sent s rs (take n bytes))))
write_loop-Sent (busy ∷ rs) bytes s =
    retry-Sent s rs bytes _ (write_loop-Sent rs bytes (record s { sends = rs }))
write_loop-Sent (interrupted ∷ rs) bytes s =
    retry-Sent s rs bytes _ (write_loop-Sent rs bytes (record s { sends = rs }))
write_loop-Sent (failed ∷ rs) bytes s = refl

-- However the kernel splits, delays or interrupts the writes, `telnet_stream_write` either ends
-- the process with status 5, or has sent exactly the given bytes, in order, behind what was sent
-- before, and has changed nothing else of the stream than the results used up.
pub stream_write-Sent : (bytes : Bytes) (s : Stream) → Sent s bytes (stream_write bytes s)
unfolding stream_write
stream_write-Sent bytes s = write_loop-Sent s.sends bytes s

module _ {A : Type 0} where
  -- The step leaves the events ahead, the records and the state of the receiver alone.
  abbrev pub Spares : Stream → Outcome Stream A → Type 0
  Spares s (ok a t) =
      t ≡ record s { config = t.config; sends = t.sends; output = t.output; status = t.status }
  Spares s Outcome.out_of_fuel = ⊥
  Spares s _ = Unit

pub send_reply-Spares : (bytes : Bytes) (s : Stream) → Spares s (send_reply bytes s)
unfolding send_reply
send_reply-Spares bytes s = go s.sends
  where
    go : (rs : List SendResult) → Spares s (sent rs bytes s)
    go [] = refl
    go (takes n ∷ rs) = refl
    go _ = refl

pub setenv-Spares : (name v : Bytes) (s : Stream) → Spares s (setenv name v s)
unfolding setenv
setenv-Spares name v s = go _
  where
    go : (o : Option Config) → Spares s (store_config o s)
    go none = tt
    go (some c) = refl

-- With nothing in the kernel's way a reply goes out whole.
pub send_reply_open :
    (bytes : Bytes) (s : Stream)
    → s.sends ≡ []
    → send_reply bytes s ≡ ok false (record s { output = s.output ++ bytes })
unfolding send_reply
send_reply_open bytes s e = go s.sends e
  where
    go :
        (rs : List SendResult)
        → rs ≡ []
        → sent rs bytes s ≡ ok false (record s { output = s.output ++ bytes })
    go [] e = refl
    go (r ∷ rs) e = cc

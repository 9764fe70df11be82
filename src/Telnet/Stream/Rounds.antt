-- ===== src/Telnet/Stream/Rounds.antt =====
-- `telnet_stream_write` on a socket that answers without end. The list of results that the other
-- modules use is one such socket, which takes all behind the list.
use mathlib.Core.List.{append_assoc, append-nil}
use linux_sna.Base.{
  ℕ, zero, suc, ◌+◌, ◌-◌, ◌*◌, ◌≤◌, ◌<◌, List, [], ◌∷◌, ◌++◌, Bytes, length, take, drop,
  take-append-drop, length-drop, Outcome, ok, exit, abort, fault, out_of_fuel, Cmd, ◌≡◌, refl,
  arith, ◌∙◌,
}
use linux_sna.Telnet.Stream.{
  Stream, SendResult, takes, busy, interrupted, failed, while_left, write_loop,
}

-- One round, with what it meets and the rounds behind it
write_round : SendResult → (Bytes → Cmd Stream (Unit {0})) → Bytes → Cmd Stream (Unit {0})
unfolding while_left
write_round (takes n) next bytes s =
    let s' = record s { output = s.output ++ take n bytes } in
    while_left (drop n bytes) s' (next (drop n bytes) s')
write_round busy next bytes s = while_left bytes s (next bytes s)
write_round interrupted next bytes s = while_left bytes s (next bytes s)
write_round failed next bytes s = exit 5

-- The loop of `telnet_stream_write` with what each round meets, up to `fuel` rounds
unfoldable pub write_rounds : ℕ → (ℕ → SendResult) → Bytes → Cmd Stream (Unit {0})
unfolding write_round
write_rounds zero results bytes s = out_of_fuel
write_rounds (suc fuel) results bytes s =
    write_round (results 0) (write_rounds fuel (λ i. results (suc i))) bytes s

abbrev pub IsSoft : SendResult → Type 0
IsSoft failed = ⊥
IsSoft _ = Unit

-- From each round on, one of the next `gap` rounds takes a byte.
abbrev pub Steady : ℕ → (ℕ → SendResult) → Type 0
Steady gap results =
    (j : ℕ) → (i : ℕ) × (j ≤ i) × (i < j + gap) × (m : ℕ) × (results i ≡ takes (suc m))

-- The loop has returned, and these bytes went out behind the others.
abbrev pub Done : Stream → Bytes → Outcome Stream (Unit {0}) → Type 0
Done s bytes o = o ≡ ok tt (record s { output = s.output ++ bytes })

abbrev taken : SendResult → ℕ
taken (takes n) = n
taken _ = 0

while_left-Done :
    (ys : Bytes) (s : Stream) (o : Outcome Stream (Unit {0}))
    → (1 ≤ length ys → Done s ys o)
    → Done s ys (while_left ys s o)
unfolding while_left
while_left-Done [] s o h = rw append-nil refl
while_left-Done (y ∷ ys) s o h = h (omega arith)

write_round-Done :
    (r : SendResult) (next : Bytes → Cmd Stream (Unit {0})) (bytes : Bytes) (s : Stream)
    → IsSoft r
    → ((ys : Bytes) (s' : Stream)
        → length ys ≤ length bytes - taken r
        → 1 ≤ length ys
        → Done s' ys (next ys s'))
    → Done s bytes (write_round r next bytes s)
unfolding write_round
write_round-Done (takes n) next bytes s soft good =
    let s' = record s { output = s.output ++ take n bytes } in
    let fewer = length-drop n bytes in
    while_left-Done (drop n bytes) s' (next (drop n bytes) s')
      (good (drop n bytes) s' (omega (arith, fewer)))
    ∙ rw (append_assoc, take-append-drop) refl
write_round-Done busy next bytes s soft good =
    while_left-Done bytes s (next bytes s) (good bytes s (omega arith))
write_round-Done interrupted next bytes s soft good =
    while_left-Done bytes s (next bytes s) (good bytes s (omega arith))
write_round-Done failed next bytes s soft good = absurd soft

mul_suc : (a b : ℕ) → a * suc b ≡ a + a * b
mul_suc a b = grind arith

mul_le : (a b c : ℕ) → b ≤ c → a * b ≤ a * c
mul_le a b c h = grind arith

Steady-later :
    (gap : ℕ) (results : ℕ → SendResult) → Steady gap results → Steady gap (λ i. results (suc i))
Steady-later gap results steady j =
    let at = steady (suc j) in
    let low = at.1 in
    let high = at.2 in
    let same : suc (at.0 - 1) ≡ at.0 = omega (arith, low) in
    (at.0 - 1, omega (arith, low), omega (arith, low, high), at.3, rw same at.4)

write_rounds-Done :
    (gap fuel k : ℕ) (results : ℕ → SendResult) (bytes : Bytes) (s : Stream)
    → ((i : ℕ) → IsSoft (results i))
    → Steady gap results
    → (m : ℕ) → results k ≡ takes (suc m)
    → k + gap * (length bytes - 1) < fuel
    → Done s bytes (write_rounds fuel results bytes s)
unfolding write_rounds
write_rounds-Done gap zero k results bytes s soft steady m e enough = absurd (omega arith)
write_rounds-Done gap (suc fuel) zero results bytes s soft steady m e enough =
    let later = Steady-later gap results steady in
    let at = later 0 in
    let near = at.2 in
    let one : taken (results 0) ≡ suc m = rw e refl in
    write_round-Done (results 0) (write_rounds fuel (λ i. results (suc i))) bytes s (soft 0)
      (λ ys s' le full.
        let less =
          mul_le gap (suc (length ys - 1)) (length bytes - 1) (omega (arith, one, le, full)) in
        let one_more = mul_suc gap (length ys - 1) in
        write_rounds-Done gap fuel at.0 (λ i. results (suc i)) ys s' (λ i. soft (suc i)) later at.3
          at.4 (omega (arith, less, one_more, near, enough)))
write_rounds-Done gap (suc fuel) (suc k) results bytes s soft steady m e enough =
    let later = Steady-later gap results steady in
    write_round-Done (results 0) (write_rounds fuel (λ i. results (suc i))) bytes s (soft 0)
      (λ ys s' le full.
        let less = mul_le gap (length ys - 1) (length bytes - 1) (omega (arith, le)) in
        write_rounds-Done gap fuel k (λ i. results (suc i)) ys s' (λ i. soft (suc i)) later m e
          (omega (arith, less, enough)))

-- No round fails, and from each round on, one of the next `gap` rounds takes at least one byte:
-- `telnet_stream_write` ends within `gap` rounds for each byte (and `gap` more), and has sent
-- exactly the bytes given, behind those sent before. The socket goes on without end; the other
-- rounds may be EAGAIN or an interrupted wait.
pub write_rounds-ends :
    (gap fuel : ℕ) (results : ℕ → SendResult) (bytes : Bytes) (s : Stream)
    → ((i : ℕ) → IsSoft (results i))
    → Steady gap results
    → gap * suc (length bytes) ≤ fuel
    → write_rounds fuel results bytes s ≡ ok tt (record s { output = s.output ++ bytes })
write_rounds-ends gap fuel results bytes s soft steady enough =
    let at = steady 0 in
    let near = at.2 in
    let one_more = mul_suc gap (length bytes) in
    let less = mul_le gap (length bytes - 1) (length bytes) (omega arith) in
    write_rounds-Done gap fuel at.0 results bytes s soft steady at.3 at.4
      (omega (arith, near, one_more, less, enough))

-- If each `send` gives EAGAIN, `telnet_stream_write` with a byte to send goes round without end,
-- and sends nothing.
write_rounds-spins :
    (fuel : ℕ) (c : ℕ) (bytes : Bytes) (s : Stream)
    → write_rounds fuel (λ i. busy) (c ∷ bytes) s ≡ out_of_fuel
unfolding write_rounds while_left
write_rounds-spins zero c bytes s = refl
write_rounds-spins (suc fuel) c bytes s = write_rounds-spins fuel c bytes s

-- These results, and then each `send` takes up to `most` bytes.
abbrev pub or_all : ℕ → List SendResult → ℕ → SendResult
or_all most [] i = takes most
or_all most (r ∷ rs) zero = r
or_all most (r ∷ rs) (suc i) = or_all most rs i

abbrev pub with_sends : List SendResult → Outcome Stream (Unit {0}) → Outcome Stream (Unit {0})
with_sends sends (ok a s) = ok tt (record s { sends = sends })
with_sends sends (exit n) = exit n
with_sends sends abort = abort
with_sends sends fault = fault
with_sends sends out_of_fuel = out_of_fuel

take_all : (n : ℕ) (bytes : Bytes) → length bytes ≤ n → (take n bytes ≡ bytes) × (drop n bytes ≡ [])
take_all zero [] h = (refl, refl)
take_all zero (b ∷ bytes) h = absurd (omega arith)
take_all (suc n) [] h = (refl, refl)
take_all (suc n) (b ∷ bytes) h =
    let rest = take_all n bytes (omega arith) in (rw rest.0 refl, rest.1)

while_left-with_sends :
    (ys : Bytes) (sends : List SendResult) (s : Stream) (o o' : Outcome Stream (Unit {0}))
    → o ≡ with_sends sends o'
    → while_left ys (record s { sends = sends }) o ≡ with_sends sends (while_left ys s o')
unfolding while_left
while_left-with_sends [] sends s o o' e = refl
while_left-with_sends (y ∷ ys) sends s o o' e = e

-- With such a socket the two models of the loop agree, but for the results used up.
write_rounds-write_loop :
    (rs sends : List SendResult) (most fuel : ℕ) (bytes : Bytes) (s : Stream)
    → length bytes ≤ most
    → length rs < fuel
    → write_rounds fuel (or_all most rs) bytes (record s { sends = sends })
      ≡ with_sends sends (write_loop rs bytes s)
unfolding write_rounds write_loop while_left
write_rounds-write_loop rs sends most zero bytes s fits enough = absurd (omega arith)
write_rounds-write_loop [] sends most (suc fuel) bytes s fits enough =
    let all = take_all most bytes fits in rw (all.0, all.1) refl
write_rounds-write_loop (takes n ∷ rs) sends most (suc fuel) bytes s fits enough =
    let fewer = length-drop n bytes in
    let s' = record s { sends = rs; output = s.output ++ take n bytes } in
    while_left-with_sends (drop n bytes) sends s' _ _ (
      write_rounds-write_loop rs sends most fuel (drop n bytes) s' (omega (arith, fewer))
        (omega arith))
write_rounds-write_loop (busy ∷ rs) sends most (suc fuel) bytes s fits enough =
    while_left-with_sends bytes sends (record s { sends = rs }) _ _
      (write_rounds-write_loop rs sends most fuel bytes (record s { sends = rs }) fits
        (omega arith))
write_rounds-write_loop (interrupted ∷ rs) sends most (suc fuel) bytes s fits enough =
    while_left-with_sends bytes sends (record s { sends = rs }) _ _
      (write_rounds-write_loop rs sends most fuel bytes (record s { sends = rs }) fits
        (omega arith))
write_rounds-write_loop (failed ∷ rs) sends most (suc fuel) bytes s fits enough = refl

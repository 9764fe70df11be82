-- ===== src/Telnet/Receive/Empty.antt =====
-- The receiver at IAC EOR with no record begun.
use mathlib.Core.List.{append-nil}
use linux_sna.Base.{
  ℕ, suc, ◌+◌, ◌-◌, ◌≤◌, true, none, some, [], ◌∷◌, ◌++◌, ◌≡◌, sym, ap, ◌∙◌, arith, Bytes, All,
  length, length-append, ok,
}
use linux_sna.Record
use linux_sna.Telnet.Send.Wire.{wire}
use linux_sna.Telnet.Stream.{data_state, Stream}
use linux_sna.Telnet.Receive.{receive_loop, handle_receive}
use linux_sna.Telnet.Receive.Framing.{
  frame, arrive, filled, IsByte, delivered, receive_loop-nil, receive_loop-wire,
}
use linux_sna.Telnet.Receive.Packets.{
  HasReceived, delivered_all-HasReceived, frame_eq, length-arrive, length-wires,
}

receive_loop_empty :
    (s : Stream) (c : ℕ) (d : Bytes) (fuel : ℕ)
    → All IsByte (c ∷ d)
    → length d + 4 ≤ fuel
    → receive_loop fuel (frame s (arrive (wire [] ++ wire (c ∷ d))) none)
      ≡ ok true (frame (delivered s (filled Record.new (231 ∷ c ∷ d))) [] none)
unfolding receive_loop
receive_loop_empty s c d fuel h f =
    let left : ℕ = fuel - (length d + 4) in
    let split : fuel ≡ suc (suc (length d + suc (suc left))) = omega arith in
    let begun = some (Record.append Record.new 231) in
    rw (split, sym (append-nil (arrive (wire (c ∷ d)))))
      (receive_loop-wire c d (suc left) s begun [] h
        ∙ receive_loop-nil left (delivered s (filled Record.new (231 ∷ c ∷ d))) none)

-- IAC EOR with no record begun is not taken for an empty record: the receiver starts a record
-- with the byte 231, and the packet that follows is delivered with that byte in front.
pub receive_empty_packet :
    (c : ℕ) (d : Bytes) (b : Stream)
    → All IsByte (c ∷ d)
    → b.state ≡ data_state
    → b.current_record ≡ none
    → b.input ≡ arrive (wire [] ++ wire (c ∷ d))
    → (b' : Stream) × (handle_receive b ≡ ok true b') × HasReceived b b' ((231 ∷ c ∷ d) ∷ [])
unfolding handle_receive
receive_empty_packet c d b h p w q =
    let events = arrive (wire [] ++ wire (c ∷ d)) in
    let fuel = length b.input + 1 in
    let long = length-wires (c ∷ d) [] in
    let counted : length b.input ≡ length (wire [] ++ wire (c ∷ d)) =
      ap length q ∙ length-arrive (wire [] ++ wire (c ∷ d)) in
    (
      frame (delivered b (filled Record.new (231 ∷ c ∷ d))) [] none,
      ap (receive_loop fuel) (frame_eq b events none p q w)
          ∙ receive_loop_empty b c d fuel h (omega (arith, length-append (wire (c ∷ d)) [])),
      delivered_all-HasReceived ((231 ∷ c ∷ d) ∷ []) b,
    )

-- ===== src/Telnet/Receive/Packets.antt =====
-- Whole packets, from the sender's calls to the receiver's records.
use mathlib.Core.List.{append_assoc, append-nil, map-append}
use native.Mathlib.Nat.{add-zero}
use linux_sna.Base.{
  ℕ, zero, suc, ◌+◌, ◌-◌, ◌<◌, ◌≤◌, true, Option, none, List, [], ◌∷◌, ◌++◌, map, ◌≡◌, refl, sym,
  ap, ◌∙◌, arith, Bytes, All, length, length-append, Outcome, ok, Cmd, and_then,
}
use linux_sna.Buffer.{contents}
use linux_sna.Buffer.Contents.{Holds, init-Holds, append_byte-Holds}
use linux_sna.Record
use linux_sna.Record.{Rec}
use linux_sna.Telnet.Codes.{eor, iac}
use linux_sna.Telnet.Send.{send_packet}
use linux_sna.Telnet.Send.Wire.{stuff, wire, send_packet-Sent}
use linux_sna.Telnet.Stream.{Event, data_state, Stream}
use linux_sna.Telnet.Stream.Write.{Sent}
use linux_sna.Telnet.Receive.{receive_loop, handle_receive}
use linux_sna.Telnet.Receive.Framing.{
  frame, arrive, filled, IsByte, delivered, receive_loop-nil, receive_loop-wire, map-append_bytes,
}

-- A record as the bytes in it.
abbrev pub bytes_of : Rec → Bytes
bytes_of r = contents r.buffer

filled-Holds :
    (bytes : Bytes) (r : Rec) {xs : Bytes}
    → Holds r.buffer xs
    → Holds (filled r bytes).buffer (xs ++ bytes)
filled-Holds [] r h = rw append-nil h
filled-Holds (c ∷ bytes) r {xs} h =
    rw (← append_assoc xs (c ∷ []) bytes)
      (filled-Holds bytes (Record.append r c) (append_byte-Holds c h))

pub filled-bytes : (bytes : Bytes) → bytes_of (filled Record.new bytes) ≡ bytes
filled-bytes bytes = (filled-Holds bytes Record.new init-Holds).bytes

-- A packet that the receiver tells from none: some bytes, each below 256.
abbrev pub IsPacket : Bytes → Type 0
IsPacket [] = ⊥
IsPacket (c ∷ bytes) = All IsByte (c ∷ bytes)

abbrev pub wires : List Bytes → Bytes
wires [] = []
wires (d ∷ ds) = wire d ++ wires ds

abbrev pub delivered_all : Stream → List Bytes → Stream
delivered_all s [] = s
delivered_all s (d ∷ ds) = delivered_all (delivered s (filled Record.new d)) ds

length-stuff : (bytes : Bytes) → length bytes ≤ length (stuff bytes)
length-stuff [] = omega arith
length-stuff (c ∷ bytes) = ground (arith, length-stuff bytes)

pub length-wires :
    (d : Bytes) (ds : List Bytes) → length d + 2 + length (wires ds) ≤ length (wires (d ∷ ds))
length-wires d ds = omega (
  arith,
  length-append (wire d) (wires ds),
  length-append (stuff d) (iac ∷ eor ∷ []),
  length-stuff d,
)

receive_loop-wires :
    (ds : List Bytes) (fuel : ℕ) (s : Stream)
    → All IsPacket ds
    → length (wires ds) < fuel
    → receive_loop fuel (frame s (arrive (wires ds)) none)
      ≡ ok true (frame (delivered_all s ds) [] none)
receive_loop-wires [] zero s h f = absurd (omega arith)
receive_loop-wires [] (suc fuel) s h f = receive_loop-nil fuel s none
receive_loop-wires ([] ∷ ds) fuel s h f = absurd h.0
receive_loop-wires ((c ∷ bytes) ∷ ds) fuel s h f =
    let enough = length-wires (c ∷ bytes) ds in
    let left : ℕ = fuel - (length bytes + 2) in
    let split : fuel ≡ suc (length bytes + suc left) = omega arith in
    rw (split, map-append_bytes (wire (c ∷ bytes)) (wires ds))
      (receive_loop-wire c bytes left s none (arrive (wires ds)) h.0
        ∙ receive_loop-wires ds left (delivered s (filled Record.new (c ∷ bytes))) h.1
            (omega arith))

pub frame_eq :
    (s : Stream) (events : List Event) (r : Option Rec)
    → s.state ≡ data_state
    → s.input ≡ events
    → s.current_record ≡ r
    → s ≡ frame s events r
frame_eq s events r p q w = λ i. record s { state = p i; input = q i; current_record = w i }

pub length-arrive : (xs : Bytes) → length (arrive xs) ≡ length xs
length-arrive [] = refl
length-arrive (x ∷ xs) = ap suc (length-arrive xs)

handle_receive-wires :
    (ds : List Bytes) (s : Stream)
    → All IsPacket ds
    → s.state ≡ data_state
    → s.input ≡ arrive (wires ds)
    → s.current_record ≡ none
    → handle_receive s ≡ ok true (frame (delivered_all s ds) [] none)
unfolding handle_receive
handle_receive-wires ds s h p q w =
    ap (λ t. receive_loop (length s.input + 1) t) (frame_eq s (arrive (wires ds)) none p q w)
    ∙ receive_loop-wires ds (length s.input + 1) s h
        (rw q (omega (arith, length-arrive (wires ds))))

abbrev fresh : Bytes → Rec
fresh d = filled Record.new d

delivered_all_lem :
    (ds : List Bytes) (s : Stream)
    → delivered_all s ds
      ≡ record s { records = s.records ++ map fresh ds; record_count = s.record_count + length ds }
delivered_all_lem [] s = λ i. record s {
  records = sym (append-nil s.records) i;
  record_count = sym (add-zero s.record_count) i;
}
delivered_all_lem (d ∷ ds) s =
    let counted : s.record_count + 1 + length ds ≡ s.record_count + suc (length ds) = omega arith in
    delivered_all_lem ds (delivered s (fresh d)) ∙ (λ i. record s {
      records = append_assoc s.records (fresh d ∷ []) (map fresh ds) i;
      record_count = counted i;
    })

bytes_of-fresh : (ds : List Bytes) → map bytes_of (map fresh ds) ≡ ds
bytes_of-fresh [] = refl
bytes_of-fresh (d ∷ ds) = rw (filled-bytes d, bytes_of-fresh ds)

-- The receiver `t` after the packets `ds`, which found it as `s`.
pub record HasReceived (s t : Stream) (ds : List Bytes) : Type 0 where
  pub received : map bytes_of t.records ≡ map bytes_of s.records ++ ds
  pub counted : t.record_count ≡ s.record_count + length ds
  pub none_begun : t.current_record ≡ none
  pub at_data : t.state ≡ data_state
  pub all_read : t.input ≡ []
  pub none_sent : t.output ≡ s.output
  pub same_type : t.streamtype ≡ s.streamtype

pub delivered_all-HasReceived :
    (ds : List Bytes) (s : Stream) → HasReceived s (frame (delivered_all s ds) [] none) ds
delivered_all-HasReceived ds s = rw (delivered_all_lem ds s) (record {
  received =
      map-append bytes_of s.records (map fresh ds)
      ∙ ap (λ z. map bytes_of s.records ++ z) (bytes_of-fresh ds);
  counted = refl;
  none_begun = refl;
  at_data = refl;
  all_read = refl;
  none_sent = refl;
  same_type = refl;
})

-- A sender that calls `tn3270_stream_send_packet` for each packet in turn.
unfoldable pub send_all : List Bytes → Cmd Stream (Unit {0})
send_all [] s = ok tt s
send_all (d ∷ ds) s = and_then (send_packet d s) (λ _ t. send_all ds t)

abbrev Output : Stream → Bytes → Outcome Stream (Unit {0}) → Type 0
Output s bytes (ok _ t) = t.output ≡ s.output ++ bytes
Output s bytes _ = Unit

send_all-Output : (ds : List Bytes) (s : Stream) → Output s (wires ds) (send_all ds s)
unfolding send_all
send_all-Output [] s = sym (append-nil s.output)
send_all-Output (d ∷ ds) s = first (send_packet d s) (send_packet-Sent d s) (send_all-Output ds)
  where
    second :
        (t : Stream) (o : Outcome Stream (Unit {0}))
        → t.output ≡ s.output ++ wire d
        → Output t (wires ds) o
        → Output s (wire d ++ wires ds) o
    second t (ok _ u) e h =
        h ∙ ap (λ z. z ++ wires ds) e ∙ append_assoc s.output (wire d) (wires ds)
    second t _ e h = tt

    first :
        (o : Outcome Stream (Unit {0}))
        → Sent s (wire d) o
        → ((t : Stream) → Output t (wires ds) (send_all ds t))
        → Output s (wire d ++ wires ds) (and_then o (λ _ t. send_all ds t))
    first (ok _ t) e next = second t (send_all ds t) (ap (λ u. u.output) e) (next t)
    first _ e next = tt

-- Packets that one stream sends, each with some bytes, arrive at another that is between two
-- bytes of data with no record begun: `telnet_stream_handle_receive` returns true and has added
-- one record for each packet, in order and with the packet's bytes, and has answered nothing.
-- The kernel may split the sender's writes in any way.
pub receive-send :
    (ds : List Bytes) (a a' b : Stream)
    → All IsPacket ds
    → a.output ≡ []
    → send_all ds a ≡ ok tt a'
    → b.state ≡ data_state
    → b.current_record ≡ none
    → b.input ≡ arrive a'.output
    → (b' : Stream) × (handle_receive b ≡ ok true b') × HasReceived b b' ds
receive-send ds a a' b h clean done p w q =
    let sent : a'.output ≡ a.output ++ wires ds = rw done at (send_all-Output ds a) in
    let all : a'.output ≡ wires ds = rw clean at sent in
    (
      frame (delivered_all b ds) [] none,
      handle_receive-wires ds b h p (q ∙ ap arrive all) w,
      delivered_all-HasReceived ds b,
    )

-- ===== src/Telnet/Send/Wire.antt =====
-- What a packet is on the wire: its bytes with IAC doubled, and then IAC EOR.
use mathlib.Core.List.{append_assoc, append-nil}
use linux_sna.Base.{ℕ, [], ◌∷◌, ◌++◌, ◌==◌, ==_iff, if◌then◌else◌, Bool-cases, inl, inr, Bytes}
use linux_sna.Buffer.{Buffer}
use linux_sna.Buffer.Contents.{Holds, init-Holds, append_byte-Holds, append_data-Holds}
use linux_sna.Telnet.Codes.{eor, iac}
use linux_sna.Telnet.Stream.{Stream}
use linux_sna.Telnet.Stream.Write.{Sent, stream_write-Sent}
use linux_sna.Telnet.Send.{escape_byte, escape_onto, escape, packet, send_packet}

-- IAC doubled
abbrev pub stuff_byte : ℕ → Bytes
stuff_byte c = if c == iac then iac ∷ iac ∷ [] else c ∷ []

abbrev pub stuff : Bytes → Bytes
stuff [] = []
stuff (c ∷ bytes) = stuff_byte c ++ stuff bytes

abbrev pub wire : Bytes → Bytes
wire bytes = stuff bytes ++ iac ∷ eor ∷ []

escape_byte-Holds :
    (c : ℕ) {out : Buffer} {xs : Bytes}
    → Holds out xs
    → Holds (escape_byte out c) (xs ++ stuff_byte c)
unfolding escape_byte
escape_byte-Holds c {out} {xs} h = elim (Bool-cases (c == iac)) [
  | inl y ↦
      let e = (==_iff c iac).0 y in
      rw y (
        rw e (
          rw (← append_assoc xs (iac ∷ []) (iac ∷ []))
            (append_byte-Holds iac (append_byte-Holds iac h))))
  | inr n ↦ rw n (append_byte-Holds c h)
]

escape_onto-Holds :
    (bytes : Bytes) {out : Buffer} {xs : Bytes}
    → Holds out xs
    → Holds (escape_onto out bytes) (xs ++ stuff bytes)
unfolding escape_onto
escape_onto-Holds [] h = rw append-nil h
escape_onto-Holds (c ∷ bytes) {xs} h =
    rw (← append_assoc xs (stuff_byte c) (stuff bytes))
      (escape_onto-Holds bytes (escape_byte-Holds c h))

pub packet-Holds : (bytes : Bytes) → Holds (packet bytes) (wire bytes)
unfolding packet escape
packet-Holds bytes =
    let copied = append_data-Holds bytes init-Holds in
    rw (← append_assoc (stuff bytes) (iac ∷ []) (eor ∷ [])) (
      append_byte-Holds eor
        (append_byte-Holds iac (rw copied.bytes (escape_onto-Holds bytes init-Holds))))

-- `tn3270_stream_send_packet` sends the bytes with each IAC doubled and IAC EOR behind them,
-- however the kernel splits the writes; or it ends the process with status 5.
pub send_packet-Sent : (bytes : Bytes) (s : Stream) → Sent s (wire bytes) (send_packet bytes s)
unfolding send_packet
send_packet-Sent bytes s = rw (← (packet-Holds bytes).bytes) (stream_write-Sent _ s)

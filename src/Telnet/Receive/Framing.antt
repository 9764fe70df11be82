-- ===== src/Telnet/Receive/Framing.antt =====
-- Records through the receiver: what `tn3270_stream_send_packet` put on the wire comes out again.
use native.Mathlib.Nat.{zero-add, suc-add}
use mathlib.Core.List.{append_assoc}
use linux_sna.Base.{
  ℕ, suc, ◌+◌, ◌%◌, ◌<◌, true, false, Option, none, some, List, [], ◌∷◌, ◌++◌, map, ◌≡◌, refl, ◌∙◌,
  arith, ◌==◌, ==_iff, Bool-cases, inl, inr, pos, Bytes, All, length, ok,
}
use linux_sna.Record
use linux_sna.Record.{Rec}
use linux_sna.Telnet.Codes.{eor, iac}
use linux_sna.Telnet.Send.Wire.{stuff_byte, stuff, wire}
use linux_sna.Telnet.Stream.{Event, byte, data_state, Stream}
use linux_sna.Telnet.Receive.{on_byte, get_byte, receive_loop}

-- The stream `s` between two bytes of data, with these events ahead and this record begun.
abbrev pub frame : Stream → List Event → Option Rec → Stream
frame s events r = record s { state = data_state; input = events; current_record = r }

abbrev pub arrive : Bytes → List Event
arrive = map byte

module _ (s : Stream) (r : Option Rec) where
  get_byte-byte :
      (c : ℕ) (events : List Event)
      → (c == iac) ≡ false
      → get_byte (frame s (byte c ∷ events) r) ≡ ok (pos c) (frame s events r)
  unfolding get_byte on_byte
  get_byte-byte c events h = rw h

  get_byte-iac :
      (events : List Event)
      → get_byte (frame s (byte iac ∷ byte iac ∷ events) r) ≡ ok (pos iac) (frame s events r)
  unfolding get_byte on_byte
  get_byte-iac events = refl

  get_byte-stuff_byte :
      (c : ℕ) (events : List Event)
      → get_byte (frame s (arrive (stuff_byte c) ++ events) r) ≡ ok (pos c) (frame s events r)
  get_byte-stuff_byte c events = elim (Bool-cases (c == iac)) [
    | inl y ↦ rw y (rw ((==_iff c iac).0 y) (get_byte-iac events))
    | inr n ↦ rw n (get_byte-byte c events n)
  ]

-- The record that a byte of data is added to.
abbrev pub begun : Option Rec → Rec
begun none = Record.new
begun (some r) = r

abbrev pub filled : Rec → Bytes → Rec
filled r [] = r
filled r (c ∷ bytes) = filled (Record.append r c) bytes

mod_byte : (c : ℕ) → c < 256 → c % 256 ≡ c
mod_byte c h = omega arith

receive_loop-stuff_byte :
    (fuel c : ℕ) (s : Stream) (r : Option Rec) (events : List Event)
    → c < 256
    → receive_loop (suc fuel) (frame s (arrive (stuff_byte c) ++ events) r)
      ≡ receive_loop fuel (frame s events (some (Record.append (begun r) c)))
unfolding receive_loop
receive_loop-stuff_byte fuel c s none events h =
    rw (get_byte-stuff_byte s none c events) (rw (mod_byte c h))
receive_loop-stuff_byte fuel c s (some r) events h =
    rw (get_byte-stuff_byte s (some r) c events) (rw (mod_byte c h))

pub map-append_bytes : (xs ys : Bytes) → arrive (xs ++ ys) ≡ arrive xs ++ arrive ys
map-append_bytes [] ys = refl
map-append_bytes (x ∷ xs) ys = rw (map-append_bytes xs ys)

abbrev pub IsByte : ℕ → Type 0
IsByte c = c < 256

receive_loop-stuff :
    (bytes : Bytes) (fuel : ℕ) (s : Stream) (r : Rec) (events : List Event)
    → All IsByte bytes
    → receive_loop (length bytes + fuel) (frame s (arrive (stuff bytes) ++ events) (some r))
      ≡ receive_loop fuel (frame s events (some (filled r bytes)))
receive_loop-stuff [] fuel s r events h = rw zero-add
receive_loop-stuff (c ∷ bytes) fuel s r events h =
    rw (suc-add (length bytes) fuel, map-append_bytes (stuff_byte c) (stuff bytes), append_assoc)
      (receive_loop-stuff_byte (length bytes + fuel) c s (some r) _ h.0
        ∙ receive_loop-stuff bytes fuel s (Record.append r c) events h.1)

-- The stream when the record `r` is complete.
abbrev pub delivered : Stream → Rec → Stream
delivered s r = record s { records = s.records ++ r ∷ []; record_count = s.record_count + 1 }

receive_loop-eor :
    (fuel : ℕ) (s : Stream) (r : Rec) (events : List Event)
    → receive_loop (suc fuel) (frame s (byte iac ∷ byte eor ∷ events) (some r))
      ≡ receive_loop fuel (frame (delivered s r) events none)
unfolding receive_loop
receive_loop-eor fuel s r events = refl

pub receive_loop-nil :
    (fuel : ℕ) (s : Stream) (r : Option Rec)
    → receive_loop (suc fuel) (frame s [] r) ≡ ok true (frame s [] r)
unfolding receive_loop
receive_loop-nil fuel s r = refl

-- A packet that is not empty is delivered as one record.
pub receive_loop-wire :
    (c : ℕ) (bytes : Bytes) (fuel : ℕ) (s : Stream) (r : Option Rec) (events : List Event)
    → All IsByte (c ∷ bytes)
    → receive_loop (suc (length bytes + suc fuel)) (frame s (arrive (wire (c ∷ bytes)) ++ events) r)
      ≡ receive_loop fuel (frame (delivered s (filled (begun r) (c ∷ bytes))) events none)
receive_loop-wire c bytes fuel s r events h =
    rw
      (
        append_assoc (stuff_byte c) (stuff bytes) (iac ∷ eor ∷ []),
        map-append_bytes (stuff_byte c),
        map-append_bytes (stuff bytes),
        append_assoc,
        append_assoc,
      )
      (receive_loop-stuff_byte (length bytes + suc fuel) c s r _ h.0
        ∙ receive_loop-stuff bytes (suc fuel) s (Record.append (begun r) c) _ h.1
        ∙ receive_loop-eor fuel s _ events)

-- ===== src/Aftpd/Delivery.antt =====
-- A file that asuite/aftpd.c sends and `aftp_receive_file` of libasuite/libaftp.c receives.
use mathlib.Core.List.{append_assoc, append-nil}
use linux_sna.Base.{
  ℕ, zero, suc, ◌+◌, ◌-◌, ◌≤◌, ◌<◌, List, [], ◌∷◌, ◌++◌, Bytes, length, ℤ, pos, ok, ◌≡◌, refl,
  arith, ◌∙◌, ltb, false,
}
use linux_sna.Asuite.{max_buffer_size}
use linux_sna.Asuite.Codes.{
  file_data, file_complete, filespec, data_type_key, send_file_code, rc_ok,
}
use linux_sna.Asuite.Cpic.{Call, Cpic, cmrcv, cmsend, fill}
use linux_sna.Asuite.Emit.{Param, encode_param, encode}
use linux_sna.Aftp.Outcomes.{take_all}
use linux_sna.Aftp.Params.{HoldsAt, fill-HoldsAt}
use linux_sna.Aftp.Receive.{Receiver, more, finished, receive_loop, on_packet, write_data}
use linux_sna.Aftp.Received.{
  visit-ignore, heard, with_rc_ok, receive_loop-more, receive_loop-finished,
}
use linux_sna.Aftpd.{OsCall, Os}
use linux_sna.Aftpd.Download.{data_calls, room}
use linux_sna.Aftpd.Upload.{stored, cells-HoldsAt}
use linux_sna.Aftpd.Whole.{header}
use linux_sna.Aftpd

-- The records behind the header: one for each part, and the end
abbrev pub data_packets : List Bytes → List Bytes
data_packets [] = (0 ∷ file_complete ∷ []) ∷ []
data_packets (part ∷ parts) = (0 ∷ file_data ∷ part) ∷ data_packets parts

-- `cmrcv` gives these records, one after the other.
abbrev pub Delivers : Cpic → Bytes → List Call → List Bytes → Type 0
Delivers cpic conv_id calls [] = Unit
Delivers cpic conv_id calls (packet ∷ packets) =
    (cpic (cmrcv conv_id ∷ calls) ≡ record { cm_rc = 0; bytes = packet })
    × Delivers cpic conv_id (cmrcv conv_id ∷ calls) packets

-- One call of `cmsend` for each record, the latest first.
abbrev pub sends : Bytes → List Bytes → List Call → List Call
sends conv_id [] calls = calls
sends conv_id (packet ∷ packets) calls = sends conv_id packets (cmsend conv_id packet ∷ calls)

-- One call of `write` for each part, the latest first.
abbrev pub write_calls : ℤ → List Bytes → List OsCall → List OsCall
write_calls fd [] calls = calls
write_calls fd (part ∷ parts) calls = write_calls fd parts (Aftpd.write fd part ∷ calls)

abbrev pub contents : List Bytes → Bytes
contents [] = []
contents (part ∷ parts) = part ++ contents parts

-- Each part fits into a record.
abbrev pub Small : List Bytes → Type 0
Small [] = Unit
Small (part ∷ parts) = (length part ≤ room) × Small parts

-- `write` takes all bytes of what it is given.
abbrev pub WritesAll : Os → ℤ → Type 0
WritesAll os fd =
    (bytes : Bytes) (calls : List OsCall)
    → (os (Aftpd.write fd bytes ∷ calls)).result ≡ pos (length bytes)

pub sends-data_packets :
    (conv_id : Bytes) (file : List Bytes) (calls : List Call)
    → cmsend conv_id (0 ∷ file_complete ∷ []) ∷ data_calls conv_id file calls
      ≡ sends conv_id (data_packets file) calls
sends-data_packets conv_id [] calls = refl
sends-data_packets conv_id (part ∷ parts) calls =
    sends-data_packets conv_id parts (cmsend conv_id (0 ∷ file_data ∷ part) ∷ calls)

pub stored-write_calls :
    (os : Os) (fd : ℤ) (file : List Bytes) (calls : List OsCall)
    → WritesAll os fd
    → stored os (write_calls fd file calls) ≡ stored os calls ++ contents file
unfolding stored
stored-write_calls os fd [] calls all = rw (append-nil (stored os calls)) refl
stored-write_calls os fd (part ∷ parts) calls all =
    stored-write_calls os fd parts (Aftpd.write fd part ∷ calls) all
    ∙ rw (all part calls, take_all (length part) part (omega arith), append_assoc) refl

encode-two : (p q : Param) → encode (p ∷ q ∷ []) ≡ encode_param p ++ encode_param q
unfolding encode
encode-two p q = rw (append-nil (encode_param q)) refl

module _ (cpic : Cpic) (os : Os) (fd : ℤ) where
  -- The state with a part written.
  abbrev with_part : Receiver → Bytes → Receiver
  with_part e part = record e { os_calls = Aftpd.write fd part ∷ e.os_calls }

  on_packet_data :
      (part : Bytes) (e : Receiver)
      → on_packet cpic os fd (suc (suc (length part))) file_data (heard e (0 ∷ file_data ∷ part))
        ≡ ok more (with_part (heard e (0 ∷ file_data ∷ part)) part)
  unfolding on_packet write_data
  on_packet_data part e =
      let packet = 0 ∷ file_data ∷ part in
      let count : suc (suc (length part)) - 2 ≡ length part = omega arith in
      let same =
        cells-HoldsAt (fill packet e.conn.session.rec.buffer) 2 part
          ((fill-HoldsAt packet e.conn.session.rec.buffer).1.1) in
      let full : ltb (suc (suc (length part))) 2 ≡ false = ground arith in
      rw (full, count) (rw same refl)

  on_packet_complete :
      (e : Receiver)
      → on_packet cpic os fd 2 file_complete e
        ≡ ok finished (record e { os_calls = Aftpd.close fd ∷ e.os_calls })
  unfolding on_packet
  on_packet_complete e = refl

  on_packet-header :
      (name : Bytes) (data_type : ℕ) (e : Receiver)
      → length (header name data_type) ≤ max_buffer_size
      → on_packet cpic os fd
          (length (header name data_type))
          send_file_code
          (heard e (header name data_type))
        ≡ ok more (heard e (header name data_type))
  unfolding on_packet
  on_packet-header name data_type e fits =
      let packet = header name data_type in
      let p : Param = (filespec, name ++ 0 ∷ []) in
      let q : Param = (data_type_key, data_type ∷ []) in
      let same = encode-two p q in
      let holds : HoldsAt (fill packet e.conn.session.rec.buffer) 2 (encode (p ∷ q ∷ [])) =
        rw same ((fill-HoldsAt packet e.conn.session.rec.buffer).1.1) in
      let ends : 2 + length (encode (p ∷ q ∷ [])) ≡ length packet =
        let count : length (encode (p ∷ q ∷ [])) ≡ length (encode_param p ++ encode_param q) =
          rw same refl in
        omega (arith, count) in
      rw
        (visit-ignore p (q ∷ []) (length packet) (suc (length packet)) 2 (heard e packet).conn holds
          ends fits (omega (arith, ends)))
        refl

  -- The state with all of the file received.
  abbrev Delivered : Receiver → Receiver → List Bytes → Type 0
  Delivered e e' file =
      (e'.conn.rc ≡ rc_ok) × (e'.os_calls ≡ Aftpd.close fd ∷ write_calls fd file e.os_calls)

  receive_loop_data :
      (file : List Bytes) (fuel : ℕ) (e : Receiver)
      → Delivers cpic e.conn.session.conversation_id e.conn.calls (data_packets file)
      → Small file
      → length file < fuel
      → (e' : Receiver) × (receive_loop cpic os fd fuel e ≡ ok tt e') × Delivered e e' file
  receive_loop_data file zero e arrives small enough = absurd (omega arith)
  receive_loop_data [] (suc fuel) e arrives small enough =
      let packet = 0 ∷ file_complete ∷ [] in
      (
        _,
        receive_loop-finished cpic os fd fuel file_complete packet e _ (omega arith) refl arrives.0
            (on_packet_complete (heard e packet)),
        (refl, refl),
      )
  receive_loop_data (part ∷ parts) (suc fuel) e arrives small enough =
      let packet = 0 ∷ file_data ∷ part in
      let rest =
        receive_loop_data parts fuel (with_rc_ok (with_part (heard e packet) part)) arrives.1
          small.1 (omega arith) in
      let fits = small.0 in
      (
        rest.0,
        receive_loop-more cpic os fd fuel file_data packet e _ (omega arith) refl arrives.0
              (on_packet_data part e)
            ∙ rest.1,
        rest.2,
      )

  pub receive_loop-header :
      (name : Bytes) (data_type : ℕ) (file : List Bytes) (fuel : ℕ) (e : Receiver)
      → length (header name data_type) ≤ max_buffer_size
      → Delivers cpic e.conn.session.conversation_id e.conn.calls
          (header name data_type ∷ data_packets file)
      → Small file
      → length file + 1 < fuel
      → (e' : Receiver) × (receive_loop cpic os fd fuel e ≡ ok tt e') × Delivered e e' file
  receive_loop-header name data_type file zero e fits arrives small enough = absurd (omega arith)
  receive_loop-header name data_type file (suc fuel) e fits arrives small enough =
      let packet = header name data_type in
      let rest =
        receive_loop_data file fuel (with_rc_ok (heard e packet)) arrives.1 small (omega arith) in
      (
        rest.0,
        receive_loop-more cpic os fd fuel send_file_code packet e _ fits refl arrives.0
              (on_packet-header name data_type e fits)
            ∙ rest.1,
        rest.2,
      )

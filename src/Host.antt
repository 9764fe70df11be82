-- ===== src/Host.antt =====
-- tn3270d/tn3270_host.c: the screen that the TN3270 server builds for its client.
pub mod Address
pub mod Banner
pub mod Codes
pub mod Errors
pub mod Interrupt
pub mod Screen
pub mod Text
use Prim.Native.Nat.{bit_and, bit_or}
use linux_sna.Base.{
  ℕ, zero, suc, ◌+◌, ◌-◌, ◌*◌, ◌/◌, ◌%◌, ◌^◌, Bool, true, false, not, ◌&&◌, Option, none, some,
  List, [], ◌∷◌, leb, ltb, ◌==◌, if◌then◌else◌, ℤ, pos, negsuc, Bytes, codes, Outcome, ok, Cmd,
  pure, get, modify, ◌>>=◌, ◌>>◌, and_then,
}
use linux_sna.Buffer
use linux_sna.Buffer.{Buffer, append_byte, contents}
use linux_sna.CharMap.{CharMap, to_remote, find}
use linux_sna.Record
use linux_sna.Record.{Rec}
use linux_sna.Telnet.Stream.{Stream, Handlers, set_tn3270, set_tn5250, unset}
use linux_sna.Telnet.Send
use linux_sna.Telnet.Receive.{handle_receive}
use linux_sna.Telnet.Session.{get_record}
use linux_sna.Host.Codes.{
  keyboard_restore, reset_mdt, reset, cmd_write, cmd_erase_write, cmd_read_modified, order_sf,
  order_sba, order_ra,
}

-- `tnXhost`, with the stream it points to
pub record Host : Type 0 where
  pub stream : Stream
  pub map : Option CharMap
  pub current : Option Rec
  pub buffer : Buffer
  pub curattr : ℕ
  pub lastattr : ℕ
  pub cursor_pos : ℕ
  pub wtd_set : Bool
  pub clear_state : Bool
  pub input_inhibited : Bool
  pub disconnected : Bool
  pub in_sys_interrupt : Bool
  pub maxcol : ℕ

-- A command of the stream, run on the host's stream.
abbrev pub put_back : {A : Type 0} → Host → Outcome Stream A → Outcome Host A
put_back h (ok a s) = ok a (record h { stream = s })
put_back h (Outcome.exit n) = Outcome.exit n
put_back h Outcome.abort = Outcome.abort
put_back h Outcome.fault = Outcome.fault
put_back h Outcome.out_of_fuel = Outcome.out_of_fuel

abbrev pub on_stream : {A : Type 0} → Cmd Stream A → Cmd Host A
on_stream m h = put_back h (m h.stream)

-- `tnX_stream_send_packet`: the call through `This->send_packet`, which TN5250 leaves NULL
dispatch : Handlers → Bytes → Cmd Stream (Unit {0})
dispatch set_tn3270 bytes s = Send.send_packet bytes s
dispatch set_tn5250 bytes s = Outcome.fault
dispatch unset bytes s = Outcome.fault

unfoldable pub send_packet : Bytes → Cmd Stream (Unit {0})
unfolding dispatch
send_packet bytes s = dispatch s.handlers bytes s

-- `setXCharMap`, in the table of maps `maps`
char_map_found : Option CharMap → Cmd Host (Unit {0})
char_map_found none h = Outcome.abort
char_map_found (some m) h = ok tt (record h { map = some m })

unfoldable pub set_char_map : List CharMap → Bytes → Cmd Host (Unit {0})
unfolding char_map_found find
set_char_map maps name h = char_map_found (find maps name) h

-- `tnX_host_new`; MAP_DEFAULT is "37"
unfoldable pub host_new : List CharMap → Stream → Outcome Host (Unit {0})
unfolding set_char_map
host_new maps s =
    let h : Host = record {
      stream = s;
      map = none;
      current = none;
      buffer = Buffer.init;
      curattr = 0;
      lastattr = 0;
      cursor_pos = 0;
      wtd_set = false;
      clear_state = false;
      input_inhibited = false;
      disconnected = false;
      in_sys_interrupt = false;
      maxcol = 80;
    } in
    set_char_map maps (codes "37") h

abbrev pub put_byte : ℕ → Host → Host
put_byte b h = record h { buffer = append_byte h.buffer b }

-- `writeToDisplay`: a Write command and its control character, once
unfoldable pub write_to_display : Host → Host
write_to_display h =
    let restore = h.input_inhibited && not h.in_sys_interrupt in
    let ctrlchar = if restore then keyboard_restore else 0 in
    let inhibited = if restore then false else h.input_inhibited in
    if h.wtd_set then h else record h {
      input_inhibited = inhibited;
      buffer = append_byte (append_byte h.buffer cmd_write) ctrlchar;
      clear_state = false;
      wtd_set = true;
      lastattr = 65535;
    }

-- `isprint` of the C locale
abbrev pub is_print : ℕ → Bool
is_print c = leb 32 c && leb c 126

-- `appendBlock2Ebcdic`: the printable characters, translated
unfoldable pub append_block : Buffer → Bytes → CharMap → Buffer
append_block buff [] m = buff
append_block buff (c ∷ str) m =
    append_block (if is_print c then append_byte buff (to_remote m c) else buff) str m

-- `sendReadMDT`: the caller's buffer is started afresh and keeps the command
unfoldable pub send_read_mdt : Cmd Stream Buffer
unfolding send_packet
send_read_mdt s =
    let buff = append_byte Buffer.init cmd_read_modified in
    and_then (send_packet (contents buff) s) (λ _ t. ok buff t)

-- `StartField`, on the host's own buffer
unfoldable pub start_field : ℕ → Host → Host
start_field attr h = put_byte attr (put_byte order_sf h)

-- `EraseWrite`
unfoldable pub erase_write : Host → Host
erase_write h = record h {
  input_inhibited = false;
  buffer =
      append_byte (append_byte h.buffer cmd_erase_write)
        (bit_or (bit_or keyboard_restore reset_mdt) reset);
  clear_state = false;
  wtd_set = true;
  lastattr = 65535;
}

-- The `unsigned short` address of `setBufferAddr`, and its two bytes.
unfoldable pub address : ℕ → ℕ → ℕ
address row col = (row * 80 + (col + 65535)) % 65536

unfoldable pub addr1 : ℕ → ℕ
addr1 a = bit_or (a / 2 ^ 6) 0xC0 % 256

unfoldable pub addr2 : ℕ → ℕ
addr2 a = bit_and a 0x3F

-- `setBufferAddr`
unfoldable pub set_buffer_addr : ℕ → ℕ → Host → Host
unfolding write_to_display
set_buffer_addr row col h =
    put_byte (addr2 (address row col))
      (put_byte (addr1 (address row col)) (put_byte order_sba (write_to_display h)))

-- `repeat2Addr`
unfoldable pub repeat_to_addr : ℕ → ℕ → ℕ → Host → Host
unfolding write_to_display
repeat_to_addr row col uc h =
    put_byte uc
      (put_byte (col % 256) (put_byte (row % 256) (put_byte order_ra (write_to_display h))))

-- `setAttribute`
abbrev pub set_attribute : ℕ → Host → Host
set_attribute attr h = record h { curattr = attr }

-- `sendWrite`; the buffer is kept
unfoldable pub send_write : Cmd Host (Unit {0})
unfolding send_packet
send_write h = on_stream (send_packet (contents h.buffer)) h

-- `readMDTfields_1`
unfoldable pub read_mdt_fields_1 : Bool → Cmd Host ℤ
unfolding send_read_mdt
read_mdt_fields_1 false h = ok (pos 0) (record h { wtd_set = false })
read_mdt_fields_1 true h =
    and_then (on_stream send_read_mdt h)
      (λ buff g. ok (pos 0) (record g { buffer = buff; wtd_set = false }))

-- The three bytes at the head of an inbound record; a failed assertion aborts.
take_byte : Rec → Cmd Host (ℕ × Rec)
take_byte r h = elim (Record.get_byte r) [ none ↦ Outcome.abort | some p ↦ ok p h ]

-- `unsigned short` of `ver * maxcol + hor` for two bytes less one each
cursor : ℕ → ℕ → ℕ → ℕ
cursor maxcol ver hor = (ver * maxcol + hor + 65536 * maxcol - maxcol + 65535) % 65536

read_record : Cmd Host ℤ
unfolding take_byte cursor
read_record h = and_then (on_stream get_record h) (λ r g. and_then (take_byte r g) (λ (ver, r1) g1.
    and_then (take_byte r1 g1) (λ (hor, r2) g2.
      let at = record g2 { cursor_pos = cursor g2.maxcol ver hor } in
      and_then (take_byte r2 at) (λ (aid, r3) g3.
        ok (if aid == 0 then pos 0 else negsuc 102) (record g3 { current = some r3 })))))

-- `readMDTfields_2`; ECONNABORTED is 103
unfoldable pub read_mdt_fields_2 : Cmd Host ℤ
unfolding read_record
read_mdt_fields_2 h = and_then (on_stream handle_receive h) (λ alive g.
    let rest = read_record (record g { current = none }) in
    if not alive
    then ok (negsuc 102) (record g { disconnected = true })
    else if ltb 0 g.stream.record_count
    then rest
    else ok (pos 0) (record g { current = none }))

-- ===== src/Host/Screen.antt =====
-- Whole screens and messages: tn3270d/tn3270_host.c.
use linux_sna.Base.{
  ℕ, ◌+◌, Bool, true, false, none, some, List, [], ◌∷◌, ltb, if◌then◌else◌, ℤ, Bytes, codes,
  Outcome, ok, Cmd, and_then,
}
use linux_sna.Buffer
use linux_sna.Buffer.{Buffer, append_byte, contents}
use linux_sna.CharMap.{CharMap}
use linux_sna.Host.Banner.{ascii_banner}
use linux_sna.Host.Codes.{esc, cmd_clear_unit, cmd_write_error_code, attr_white, attr_normal}
use linux_sna.Host.{
  Host, on_stream, send_packet, put_byte, append_block, send_read_mdt, start_field, erase_write,
  set_buffer_addr, send_write, read_mdt_fields_1,
}

-- `hiliteString`
unfoldable pub hilite_string : Buffer → Bytes → CharMap → Buffer
unfolding append_block
hilite_string buff str m =
    append_byte (append_block (append_byte buff attr_white) str m) attr_normal

-- A host with no map would hand NULL to the translation.
with_map : Host → (CharMap → Outcome Host (Unit {0})) → Outcome Host (Unit {0})
with_map h k = elim h.map [ none ↦ Outcome.fault | some m ↦ k m ]

-- `sendWriteErrorCode`; the flag is `opcode == TN5250_RECORD_OPCODE_OUTPUT_ONLY`. Without it the
-- text that was built is thrown away by `sendReadMDT`.
unfoldable pub send_write_error_code : Bytes → Bool → Cmd Host (Unit {0})
unfolding hilite_string send_packet send_read_mdt with_map
send_write_error_code msg output_only h = with_map h (λ m.
    let tbuf = append_byte (append_byte Buffer.init esc) cmd_write_error_code in
    let sent =
      if output_only
      then on_stream (send_packet (contents (hilite_string tbuf msg m))) h
      else ok tt h in
    and_then sent (λ _ g. and_then (on_stream send_read_mdt g) (λ _ g'. ok tt g')))

-- `flushTN5250`
unfoldable pub flush : Cmd Host (Unit {0})
unfolding send_packet
flush h =
    if ltb 0 h.buffer.len
    then and_then (on_stream (send_packet (contents h.buffer)) h)
        (λ _ g. ok tt (record g { buffer = Buffer.free g.buffer; wtd_set = false }))
    else ok tt (record h { wtd_set = false })

-- `clearScreen`
unfoldable pub clear_screen : Cmd Host (Unit {0})
unfolding flush
clear_screen h =
    let flushed = if h.wtd_set then flush h else ok tt h in
    let cleared = and_then flushed (λ _ g.
      ok tt (record (put_byte cmd_clear_unit (put_byte esc g)) {
        input_inhibited = true;
        clear_state = true;
      })) in
    if h.clear_state then ok tt h else cleared

-- The loop of `SendTestScreen` over the rows of the banner.
unfoldable pub banner_rows : ℕ → List Bytes → CharMap → Host → Host
unfolding set_buffer_addr append_block
banner_rows row [] m h = h
banner_rows row (line ∷ lines) m h =
    let g = set_buffer_addr (row + 3) 1 h in
    banner_rows (row + 1) lines m (record g { buffer = append_block g.buffer line m })

-- The screen that `SendTestScreen` builds, up to its `sendWrite`.
unfoldable pub test_screen : CharMap → Host → Host
unfolding erase_write banner_rows start_field
test_screen m h =
    let g = banner_rows 0 ascii_banner m (erase_write h) in
    let g' =
      start_field 0
        (set_buffer_addr 1 1 (record g { input_inhibited = false; in_sys_interrupt = false })) in
    record g' { buffer = append_block g'.buffer (codes "Test") m }

-- `SendTestScreen`
unfoldable pub send_test_screen : Cmd Host ℤ
unfolding test_screen send_write read_mdt_fields_1
send_test_screen h = elim h.map [
  | none ↦ Outcome.fault
  | some m ↦ and_then (send_write (test_screen m h)) (λ _ g. read_mdt_fields_1 false g)
]

-- ===== src/Host/Interrupt.antt =====
-- System requests of the client: tn3270d/tn3270_host.c, `processFlags` and what it calls.
-- `raise(SIGINT)` is taken to come back with the host unchanged.
use linux_sna.Base.{
  ℕ, zero, suc, ◌+◌, ◌*◌, Bool, true, false, ◌&&◌, ◌||◌, Option, none, some, [], ◌∷◌, ltb, ◌==◌,
  if◌then◌else◌, ℤ, pos, negsuc, Bytes, length, get_or, drop, Outcome, ok, Cmd, and_then,
}
use linux_sna.Buffer
use linux_sna.Buffer.{contents}
use linux_sna.Record.{Rec}
use linux_sna.Telnet.Stream.{Stream}
use linux_sna.Telnet.Receive.{handle_receive}
use linux_sna.Telnet.Session.{get_record}
use linux_sna.Host.Codes.{esc, cmd_save_screen}
use linux_sna.Host.Errors.{get_err_msg, process_err}
use linux_sna.Host.Screen.{send_write_error_code, clear_screen}
use linux_sna.Host.{Host, on_stream, send_packet, send_read_mdt}

-- `do { statOK = handle_receive } while (statOK && !record_count)`, which goes round without end
-- when the client sends nothing more: then the fuel runs out.
wait_loop : ℕ → Cmd Stream Bool
wait_loop zero s = Outcome.out_of_fuel
wait_loop (suc fuel) s = and_then (handle_receive s) (λ alive t.
    let rest = wait_loop fuel t in if alive && t.record_count == 0 then rest else ok alive t)

-- Each round but the last uses an event up.
unfoldable pub wait_record : Cmd Stream Bool
unfolding wait_loop
wait_record s = wait_loop (length s.input + 1) s

-- `records = tnX_record_list_destroy(records)` with the count, if there are any
zap_records : Stream → Stream
zap_records s = if ltb 0 s.record_count then record s { records = []; record_count = 0 } else s

-- `cancelInvite`
unfoldable pub cancel_invite : Cmd Stream Bool
unfolding zap_records wait_record send_packet
cancel_invite s =
    and_then (send_packet [] s)
      (λ _ t. and_then (wait_record (zap_records t)) (λ alive u. ok alive (zap_records u)))

-- The loop of `saveScreen` that takes the records off one by one.
drop_records : ℕ → Cmd Stream (Unit {0})
drop_records zero s = ok tt s
drop_records (suc n) s = and_then (get_record s) (λ _ t. drop_records n t)

-- `saveScreen`; `none` is NULL
unfoldable pub save_screen : Cmd Stream (Option Rec)
unfolding drop_records wait_record send_packet get_record
save_screen s = and_then (send_packet (esc ∷ cmd_save_screen ∷ []) s) (λ _ t.
    and_then (drop_records t.record_count t) (λ _ u.
      and_then (wait_record u)
        (λ alive w. if alive then and_then (get_record w) (λ r w'. ok (some r) w') else ok none w)))

-- `restoreScreen`, which skips a header of ten bytes
unfoldable pub restore_screen : Bytes → Cmd Stream (Unit {0})
unfolding send_packet
restore_screen bytes s =
    if ltb 10 (length bytes) then send_packet (drop 10 bytes) s else Outcome.abort

restored : Option Rec → Cmd Stream ℤ
restored none s = ok (negsuc 0) s
restored (some r) s =
    and_then (restore_screen (contents r.buffer) s)
      (λ _ t. and_then (send_read_mdt t) (λ _ u. ok (pos 0) u))

-- `processSRQ`
unfoldable pub process_srq : Cmd Stream ℤ
unfolding save_screen restored restore_screen send_read_mdt
process_srq s = and_then (save_screen s) restored

-- TN5250_RECORD_H_*
abbrev pub h_hlp : ℕ
h_hlp = 0x01

abbrev pub h_trq : ℕ
h_trq = 0x02

abbrev pub h_srq : ℕ
h_srq = 0x04

abbrev pub h_atn : ℕ
h_atn = 0x40

abbrev pub h_err : ℕ
h_err = 0x80

-- `if (!cancelInvite(myStream)) return -1;` before the rest
after_cancel : Cmd Host ℤ → Cmd Host ℤ
after_cancel rest h =
    and_then (on_stream cancel_invite h) (λ alive g. if alive then rest g else ok (negsuc 0) g)

-- case TN5250_RECORD_H_ATN and TN5250_RECORD_H_SRQ, behind `cancelInvite`
on_interrupt : Cmd Host ℤ
on_interrupt h =
    let fresh = record h {
      in_sys_interrupt = true;
      wtd_set = false;
      clear_state = false;
      buffer = Buffer.free h.buffer;
    } in
    and_then (clear_screen fresh) (λ _ g. and_then (on_stream process_srq g) (λ _ g'.
      ok (pos 0) (record g' {
        wtd_set = false;
        clear_state = false;
        in_sys_interrupt = false;
        buffer = Buffer.free g'.buffer;
      })))

-- `processFlags`; `unknown` is the text of `sprintf`, see `Errors`
unfoldable pub process_flags : (unknown : ℕ → ℕ → ℕ → Bytes) → ℕ → Bytes → Cmd Host ℤ
unfolding after_cancel on_interrupt send_write_error_code get_err_msg process_err clear_screen
    process_srq cancel_invite
process_flags unknown flags buf h =
    if flags == h_hlp
    then after_cancel
        (λ g.
          and_then
            (send_write_error_code (get_err_msg (get_or buf 0 0 * 256 + get_or buf 1 0)) true g)
            (λ _ g'. ok (pos 0) g'))
        h
    else if flags == h_err
    then and_then (send_write_error_code (process_err unknown buf) true h) (λ _ g. ok (negsuc 0) g)
    else if flags == h_atn || flags == h_srq
    then (if h.in_sys_interrupt then ok (pos 0) h else after_cancel on_interrupt h)
    else ok (pos 0) h

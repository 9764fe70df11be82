-- ===== src/Aftp/Send.antt =====
-- `aftp_send_file` of libasuite/libaftp.c, over the calls of the system as a parameter.
use linux_sna.Base.{
  ℕ, zero, suc, ◌+◌, ◌%◌, ◌-◌, ltb, ◌==◌, if◌then◌else◌, Bytes, length, take, ℤ, pos, negsuc,
  Option, none, some, Cmd, fault, out_of_fuel, pure, get, modify, ◌>>=◌, ◌>>◌,
}
use linux_sna.Asuite.{
  AsuiteRecord, max_buffer_size, clear, settype, append, append_char, append_fourbyte,
  get_major_code,
}
use linux_sna.Asuite.Codes.{
  send_file_code, simple_response, file_data, file_complete, filespec, new_filespec, data_type_key,
  date_mode_key, allocation_size_key, rc_ok, fail_fatal,
}
use linux_sna.Asuite.Cpic.{Cpic, send_asuiterecord}
use linux_sna.Asuite.Emit.{written}
use linux_sna.Aftp.{Conn, Session, max_ftp_sessions, on_link, on_record, returns}
use linux_sna.Aftp.Request.{before_nul, visit, send_request, get_response, received_len}
use linux_sna.Aftp.Receive.{Receiver, Client, on_conn, os_call, append_block_size, on_slot, fail}
use linux_sna.Aftpd.{Os, OsReply, open_read, read, close, negative}

-- `asuiterecord_append_twobyte` for AFTP_RECORD_LENGTH has no count either.
abbrev pub append_record_length : ℕ → Cmd AsuiteRecord (Unit {0})
append_record_length = append_block_size

abbrev pub append_alloc_size : ℕ → Cmd AsuiteRecord (Unit {0})
append_alloc_size alloc_size =
    if ltb 0 alloc_size then append_fourbyte allocation_size_key alloc_size else pure tt

-- The parameters of the request, by the session
unfoldable pub file_params : Session → Bytes → ℕ → Bytes → ℕ → Cmd AsuiteRecord (Unit {0})
file_params s local_file local_file_length remote_file remote_file_length =
    append filespec local_file (local_file_length + 1)
    >> append new_filespec remote_file (remote_file_length + 1)
    >> append_char data_type_key (s.data_type % 256)
    >> append_alloc_size s.alloc_size
    >> append_block_size s.block_size
    >> append_record_length s.record_length
    >> append_char date_mode_key (s.date_mode % 256)

abbrev pub set_rec : (AsuiteRecord → AsuiteRecord) → Cmd Receiver (Unit {0})
set_rec f = on_conn (on_record (modify f))

-- `record->position = record->position + bytes_read` with what `read` stored
abbrev pub after_read : OsReply → AsuiteRecord → AsuiteRecord
after_read reply r = elim reply.result [
  | pos n ↦ written r (take (max_buffer_size - r.position) reply.bytes)
  | negsuc n ↦ record r { position = r.position - suc n }
]

-- `bytes_read`, the number of the bytes unless it is negative
abbrev pub bytes_read : ℕ → OsReply → ℤ
bytes_read room reply =
    if negative reply.result then reply.result else pos (length (take room reply.bytes))

module _ (cpic : Cpic) (os : Os) where
  -- `send_asuiterecord(sessions[index]->conversation_ID, sessions[index]->record)`
  unfoldable pub send_record : Cmd Conn ℕ
  send_record c = on_link (send_asuiterecord cpic c.session.conversation_id) c

  -- `bytes_read = read(...)` behind the record's position
  unfoldable pub read_part : ℤ → Cmd Receiver ℤ
  read_part fd = do
    e ← get
    let room = max_buffer_size - e.conn.session.rec.position
    reply ← os_call os (read fd room)
    set_rec (after_read reply)
    pure (bytes_read room reply)

  -- `while(bytes_read > 0)`, up to `fuel` rounds. The result is `ftp_rc`.
  unfoldable pub send_rounds : ℤ → ℕ → ℤ → Cmd Receiver ℕ
  send_rounds fd zero n = λ e. out_of_fuel
  send_rounds fd (suc fuel) (negsuc n) = pure rc_ok
  send_rounds fd (suc fuel) (pos zero) = pure rc_ok
  send_rounds fd (suc fuel) (pos (suc n)) = do
    ftp_rc ← on_conn send_record
    if ftp_rc == rc_ok
        then (do on_conn (on_record clear); n' ← read_part fd; send_rounds fd fuel n')
        else pure ftp_rc

  -- `switch(major_code)`: nothing in the response is looked at.
  unfoldable pub take_response : Cmd Conn (Unit {0})
  take_response = do
    receive_length ← received_len
    major_code ← on_record get_major_code
    returns rc_ok
    if major_code == simple_response
        then visit (λ key curpos. pure tt) receive_length (suc receive_length) 2
        else pure tt
    returns rc_ok

  -- Behind `close`
  unfoldable pub complete : Cmd Conn (Unit {0})
  complete = do
    on_record (settype file_complete >> clear)
    ftp_rc ← send_record
    if ftp_rc == rc_ok
        then get_response cpic >>= (λ got. if got == rc_ok then take_response else returns got)
        else returns ftp_rc

  -- Behind the request
  unfoldable pub send_parts : ℤ → ℕ → Cmd Receiver (Unit {0})
  send_parts fd fuel = do
    on_conn (on_record (clear >> settype file_data))
    n ← read_part fd
    ftp_rc ← send_rounds fd fuel n
    if ftp_rc == rc_ok
        then (os_call os (close fd) >> on_conn complete)
        else on_conn (returns ftp_rc)

  -- Behind `open`
  unfoldable pub send_from : ℤ → Bytes → ℕ → Bytes → ℕ → ℕ → Cmd Receiver (Unit {0})
  send_from fd local_file local_file_length remote_file remote_file_length fuel = do
    e ← get
    ftp_rc ← on_conn (
        send_request cpic send_file_code
          (file_params e.conn.session local_file local_file_length remote_file remote_file_length))
    if ftp_rc == rc_ok then send_parts fd fuel else on_conn (returns ftp_rc)

  abbrev pub open_source : Bytes → ℕ → Bytes → ℕ → ℕ → Option Bytes → Cmd Receiver (Unit {0})
  open_source local_file local_file_length remote_file remote_file_length fuel none = λ e. fault
  open_source local_file local_file_length remote_file remote_file_length fuel (some name) = do
    reply ← os_call os (open_read name)
    if negative reply.result
        then on_conn (returns fail_fatal)
        else send_from reply.result local_file local_file_length remote_file remote_file_length fuel

  -- `aftp_send_file`, up to `fuel` rounds
  unfoldable pub send_file : ℕ → Bytes → ℕ → Bytes → ℕ → ℕ → Cmd Client (Unit {0})
  send_file index local_file local_file_length remote_file remote_file_length fuel w =
      if ltb index max_ftp_sessions
      then on_slot cpic os index
          (open_source local_file local_file_length remote_file remote_file_length fuel
            (before_nul local_file))
          (w.library.sessions index) w
      else fail cpic os w

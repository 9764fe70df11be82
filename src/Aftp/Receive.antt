-- ===== src/Aftp/Receive.antt =====
-- `aftp_receive_file` of libasuite/libaftp.c, over the calls of the system as a parameter.
use linux_sna.Base.{
  ℕ, zero, suc, ◌+◌, ◌%◌, ◌-◌, List, ◌∷◌, ltb, ◌==◌, if◌then◌else◌, Bytes, ℤ, Option, none, some,
  Bool, true, false, Cmd, Outcome, ok, exit, abort, fault, out_of_fuel, pure, get, ◌>>=◌, ◌>>◌,
}
use linux_sna.Asuite.{
  AsuiteRecord, clear, append, append_char, cells, get_param_len, get_major_code, get_key,
}
use linux_sna.Asuite.Codes.{
  request_file_code, simple_response, send_file_code, file_data, file_complete, filespec,
  new_filespec, data_type_key, return_code, rc_ok, fail_fatal, fail_input_error,
}
use linux_sna.Asuite.Cpic.{Cpic}
use linux_sna.Aftp.{Slot, Library, Conn, conn_of, stored, max_ftp_sessions, on_record, returns}
use linux_sna.Aftp.Request.{before_nul, visit, send_request, get_response, received_len}
use linux_sna.Aftpd.{OsCall, OsReply, Os, open_write, write, close, negative}

-- What the function works on: its session, and the calls of the system so far
pub record Receiver : Type 0 where
  pub conn : Conn
  pub os_calls : List OsCall

-- The library with the calls of the system so far
pub record Client : Type 0 where
  pub library : Library
  pub os_calls : List OsCall

abbrev pub in_receiver : {A : Type 0} → Receiver → Outcome Conn A → Outcome Receiver A
in_receiver e (ok a c) = ok a (record e { conn = c })
in_receiver e (exit n) = exit n
in_receiver e abort = abort
in_receiver e fault = fault
in_receiver e out_of_fuel = out_of_fuel

abbrev pub on_conn : {A : Type 0} → Cmd Conn A → Cmd Receiver A
on_conn m e = in_receiver e (m e.conn)

abbrev pub os_call : Os → OsCall → Cmd Receiver OsReply
os_call os call e = let calls = call ∷ e.os_calls in ok (os calls) (record e { os_calls = calls })

-- How a round of the loop ends: the function has returned, or `more_data` is 1 or 0.
pub data Flow : Type 0 where
  returned more finished : Flow

-- The loop over the parameters of a simple response; the result is whether the function has
-- returned.
unfoldable pub status_loop : ℕ → ℕ → ℕ → Cmd Conn Bool
unfolding get_param_len
status_loop limit zero curpos = λ c. out_of_fuel
status_loop limit (suc fuel) curpos = do
  param_len ← on_record (get_param_len curpos)
  key ← on_record (get_key curpos)
  if key == return_code
      then (if ltb (curpos + param_len) limit
          then status_loop limit fuel (curpos + param_len)
          else pure false)
      else (returns fail_input_error >> pure true)

abbrev pub ended : Bool → Flow
ended true = returned
ended false = more

-- `append_twobyte` without its count takes the size of a block for the count, and then values that
-- were not passed.
abbrev pub append_block_size : ℕ → Cmd AsuiteRecord (Unit {0})
append_block_size block_size = if ltb 0 block_size then (λ r. fault) else pure tt

-- The parameters of the request, by the session; `asuiterecord_append_char` takes an
-- `unsigned char`.
unfoldable pub request_params : Conn → Bytes → ℕ → Bytes → ℕ → Cmd AsuiteRecord (Unit {0})
request_params c local_file local_file_length remote_file remote_file_length =
    append filespec remote_file (remote_file_length + 1)
    >> append new_filespec local_file (local_file_length + 1)
    >> append_char data_type_key (c.session.data_type % 256)
    >> append_block_size c.session.block_size

module _ (cpic : Cpic) (os : Os) where
  -- `case AFTP_FILE_DATA`: one call of `write`, whose result is not looked at
  unfoldable pub write_data : ℤ → ℕ → Cmd Receiver Flow
  unfolding cells
  write_data fd receive_length = do
    if ltb receive_length 2 then (λ e. fault) else pure tt
    e ← get
    os_call os (write fd (cells e.conn.session.rec.buffer 2 (receive_length - 2)))
    pure more

  -- `switch(major_code)`
  unfoldable pub on_packet : ℤ → ℕ → ℕ → Cmd Receiver Flow
  unfolding status_loop write_data
  on_packet fd receive_length major_code =
      if major_code == simple_response
      then on_conn (status_loop receive_length (suc receive_length) 2) >>= (λ r. pure (ended r))
      else if major_code == send_file_code
      then on_conn (visit (λ key pos. pure tt) receive_length (suc receive_length) 2) >> pure more
      else if major_code == file_data
      then write_data fd receive_length
      else if major_code == file_complete
      then os_call os (close fd) >> pure finished
      else pure more

  -- `do { ... } while(more_data);`, up to `fuel` records
  unfoldable pub receive_loop : ℤ → ℕ → Cmd Receiver (Unit {0})
  unfolding get_response
  receive_loop fd zero = λ e. out_of_fuel
  receive_loop fd (suc fuel) = do
    on_conn (on_record clear)
    ftp_rc ← on_conn (get_response cpic)
    if ftp_rc == rc_ok
        then (do
          receive_length ← on_conn received_len
          major_code ← on_conn (on_record get_major_code)
          on_conn (returns rc_ok)
          flow ← on_packet fd receive_length major_code
          elim flow [
            | returned ↦ pure tt
            | more ↦ on_conn (returns ftp_rc) >> receive_loop fd fuel
            | finished ↦ on_conn (returns ftp_rc)
          ])
        else on_conn (returns ftp_rc)

  -- Behind `open`
  unfoldable pub receive_into : ℤ → Bytes → ℕ → Bytes → ℕ → ℕ → Cmd Receiver (Unit {0})
  unfolding send_request
  receive_into fd local_file local_file_length remote_file remote_file_length fuel = do
    e ← get
    ftp_rc ← on_conn (
        send_request cpic request_file_code
          (request_params e.conn local_file local_file_length remote_file remote_file_length))
    if ftp_rc == rc_ok then receive_loop fd fuel else on_conn (returns ftp_rc)

  abbrev pub open_or_fail : Bytes → ℕ → Bytes → ℕ → ℕ → Option Bytes → Cmd Receiver (Unit {0})
  open_or_fail local_file local_file_length remote_file remote_file_length fuel none = λ e. fault
  open_or_fail local_file local_file_length remote_file remote_file_length fuel (some name) = do
    reply ← os_call os (open_write name)
    if negative reply.result
        then on_conn (returns fail_fatal)
        else receive_into reply.result local_file local_file_length remote_file remote_file_length
            fuel

  abbrev pub in_client : ℕ → Client → Outcome Receiver (Unit {0}) → Outcome Client (Unit {0})
  in_client index w (ok a e) =
      ok tt (record { library = stored index w.library e.conn; os_calls = e.os_calls })
  in_client index w (exit n) = exit n
  in_client index w abort = abort
  in_client index w fault = fault
  in_client index w out_of_fuel = out_of_fuel

  abbrev pub fail : Client → Outcome Client (Unit {0})
  fail w = ok tt (record w { library = record w.library { rc = fail_fatal } })

  abbrev pub on_slot : ℕ → Cmd Receiver (Unit {0}) → Slot → Cmd Client (Unit {0})
  on_slot index m Slot.null w = fail w
  on_slot index m Slot.freed w = fault
  on_slot index m (Slot.live s) w =
      in_client index w (m (record { conn = conn_of w.library s; os_calls = w.os_calls }))

  -- `aftp_receive_file`, up to `fuel` records
  unfoldable pub receive_file : ℕ → Bytes → ℕ → Bytes → ℕ → ℕ → Cmd Client (Unit {0})
  receive_file index local_file local_file_length remote_file remote_file_length fuel w =
      if ltb index max_ftp_sessions
      then on_slot index
          (open_or_fail local_file local_file_length remote_file remote_file_length fuel
            (before_nul local_file))
          (w.library.sessions index) w
      else fail w

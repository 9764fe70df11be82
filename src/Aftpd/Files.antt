-- ===== src/Aftpd/Files.antt =====
-- The files that asuite/aftpd.c sends and receives.
use linux_sna.Base.{
  ℕ, zero, suc, ◌+◌, ◌-◌, [], ◌∷◌, ◌++◌, ltb, ◌==◌, ◌||◌, if◌then◌else◌, Bytes, length, take, ℤ,
  pos, negsuc, Option, none, some, Bool, Cmd, exit, fault, out_of_fuel, pure, get, modify, ◌>>=◌,
  ◌>>◌,
}
use linux_sna.Asuite.{
  AsuiteRecord, clear, settype, append, append_char, cells, get_char, max_buffer_size,
}
use linux_sna.Asuite.Codes.{
  filespec, new_filespec, data_type_key, write_mode_key, date_mode_key, mod_time, record_length_key,
  record_format_key, block_size_key, allocation_size_key, send_file_code, file_data, file_complete,
  rc_ok, fail_input_error, file_not_found, access_denied, action_not_performed,
}
use linux_sna.Asuite.Cpic.{Cpic}
use linux_sna.Asuite.Emit.{written}
use linux_sna.Aftpd.{
  Errno, enoent, eacces, eperm, Os, OsReply, Globals, Locals, on_record, with_params, needs,
  negative, os_call, respond, send_record, unknown,
}
use linux_sna.Aftpd.Names.{set_filespec, set_newfilespec}
use linux_sna.Aftpd

-- The keys of a file that the source reads and leaves
abbrev pub ignored : ℕ → Bool
ignored key =
    key == write_mode_key
    || key == date_mode_key
    || key == mod_time
    || key == record_length_key
    || key == record_format_key
    || key == block_size_key
    || key == allocation_size_key

-- `switch(errno)` of `a_request_file`, whose default leaves `errorcode` unset
abbrev pub open_error : Errno → Option ℕ
open_error enoent = some file_not_found
open_error eacces = some access_denied
open_error _ = none

-- `switch(errno)` of `a_send_file`
abbrev pub create_error : Errno → ℕ
create_error eperm = access_denied
create_error eacces = access_denied
create_error _ = action_not_performed

-- The bytes that a call has moved
abbrev pub moved : ℤ → ℕ
moved (pos n) = n
moved (negsuc n) = 0

-- `case AFTP_DATA_TYPE` of `a_request_file` and of `a_send_file`
abbrev pub set_data_type : Locals → Cmd Globals (Option Locals)
set_data_type vars = do
  g ← get
  data_type ← on_record (get_char (g.curpos + 3))
  pure (some (record vars { data_type = data_type }))

abbrev pub skip_data_type : Locals → Cmd Globals (Option Locals)
skip_data_type vars = pure (some vars)

module _ (cpic : Cpic) (os : Os) (fresh : AsuiteRecord) where
  -- `switch(key)` of `a_request_file` and of `a_send_file`
  unfoldable pub file_key :
      (Locals → Cmd Globals (Option Locals)) → ℕ → Locals → Cmd Globals (Option Locals)
  unfolding set_filespec set_newfilespec unknown
  file_key on_type key vars =
      if key == filespec
      then set_filespec vars
      else if key == new_filespec
      then set_newfilespec vars
      else if key == data_type_key
      then on_type vars
      else if ignored key
      then pure (some vars)
      else unknown cpic fresh

  -- `bytes_read = read(...)` behind the record's position, which moves on. The result of `read`
  -- is the number of its bytes, unless it is negative.
  unfoldable pub read_file : ℤ → Cmd Globals ℤ
  unfolding os_call
  read_file fd = do
    g ← get
    reply ← os_call os (Aftpd.read fd (max_buffer_size - g.rec.position))
    let bytes = take (max_buffer_size - g.rec.position) reply.bytes
    if negative reply.result
        then pure reply.result
        else (modify (λ g'. record g' { rec = written g'.rec bytes }) >> pure (pos (length bytes)))

  -- `if(ftp_rc != AFTP_RC_OK) exit(1);`
  abbrev pub sent_or_exit : ℕ → Cmd Globals (Unit {0})
  sent_or_exit rc = if rc == rc_ok then pure tt else λ g. exit 1

  -- `while(bytes_read > 0)`
  unfoldable pub read_rounds : ℤ → ℕ → ℤ → Cmd Globals (Unit {0})
  unfolding send_record read_file
  read_rounds fd zero n = λ g. out_of_fuel
  read_rounds fd (suc fuel) n = elim (moved n) [
    | zero ↦ pure tt
    | suc m ↦ do
      rc ← send_record cpic fresh
      sent_or_exit rc
      on_record clear
      n' ← read_file fd
      read_rounds fd fuel n'
  ]

  -- `record->position = record->position + bytes_read` when `read` has failed
  abbrev pub after_first : ℤ → Cmd Globals (Unit {0})
  after_first (pos n) = pure tt
  after_first (negsuc n) =
      modify λ g. record g { rec = record g.rec { position = g.rec.position - suc n } }

  -- The bytes of the file, up to `rounds` reads
  unfoldable pub send_data : ℕ → ℤ → Cmd Globals (Unit {0})
  unfolding settype read_file read_rounds
  send_data rounds fd = do
    on_record (clear >> settype file_data)
    n ← read_file fd
    after_first n
    read_rounds fd rounds n

  -- What `a_request_file` sends of an open file
  unfoldable pub send_open : (Bytes → Bytes) → ℕ → Locals → Bytes → ℤ → Cmd Globals (Unit {0})
  unfolding settype append append_char send_record send_data os_call
  send_open basename rounds vars name fd = do
    on_record (
        clear
        >> settype send_file_code
        >> append filespec (basename name ++ 0 ∷ []) (length name + 1)
        >> append_char data_type_key vars.data_type)
    send_record cpic fresh
    send_data rounds fd
    os_call os (Aftpd.close fd)
    on_record (clear >> settype file_complete)
    rc ← send_record cpic fresh
    sent_or_exit rc

  abbrev pub refuse_open : Option ℕ → Cmd Globals (Unit {0})
  refuse_open none g = fault
  refuse_open (some index) g = respond cpic fresh fail_input_error index g

  -- `free` of a pointer, which is undefined if it was not set
  abbrev pub free : Option Bytes → Cmd Globals (Unit {0})
  free pointer = needs pointer (λ _. pure tt)

  -- `a_request_file`, with `g_basename`
  unfoldable pub a_request_file : (Bytes → Bytes) → ℕ → Cmd Globals (Unit {0})
  unfolding with_params file_key os_call respond send_open
  a_request_file basename rounds = with_params (file_key set_data_type) (λ vars.
      needs vars.filespec_ptr (λ name. do
        reply ← os_call os (Aftpd.open_read name)
        if negative reply.result
            then refuse_open (open_error reply.errno)
            else (send_open basename rounds vars name reply.result >> free vars.newfilespec_ptr)))

  -- `a_send_file`, which answers only if `open` fails
  unfoldable pub a_send_file : Cmd Globals (Unit {0})
  unfolding with_params file_key os_call respond
  a_send_file = with_params (file_key skip_data_type) (λ vars. needs vars.filespec_ptr (λ name. do
    reply ← os_call os (Aftpd.open_write name)
    modify (λ g. record g { dest_file = reply.result })
    if negative reply.result
        then respond cpic fresh fail_input_error (create_error reply.errno)
        else pure tt
    free vars.newfilespec_ptr))

  -- `a_file_data`, up to `rounds` writes
  unfoldable pub a_file_data : ℕ → Cmd Globals (Unit {0})
  unfolding cells os_call respond
  a_file_data zero = λ g. out_of_fuel
  a_file_data (suc rounds) = do
    g ← get
    if ltb g.rec.position g.curpos then (λ g'. fault) else pure tt
    let bytes = cells g.rec.buffer g.curpos (g.rec.position - g.curpos)
    reply ← os_call os (Aftpd.write g.dest_file bytes)
    if negative reply.result then respond cpic fresh fail_input_error action_not_performed else (do
      modify (λ g'. record g' { curpos = g'.curpos + moved reply.result })
      g'' ← get
      if ltb g''.curpos g''.rec.position then a_file_data rounds else pure tt)

  -- `a_file_complete`
  unfoldable pub a_file_complete : Cmd Globals (Unit {0})
  unfolding os_call respond
  a_file_complete = do
    g ← get
    reply ← os_call os (Aftpd.close g.dest_file)
    if negative reply.result
        then respond cpic fresh fail_input_error action_not_performed
        else respond cpic fresh rc_ok 0

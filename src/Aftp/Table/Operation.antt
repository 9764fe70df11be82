-- ===== src/Aftp/Table/Operation.antt =====
-- The calls of the functions of libasuite/libaftp.c by one program, with their arguments.
use linux_sna.Base.{
  ℕ, List, [], ◌∷◌, Bytes, Option, Cmd, Outcome, ok, exit, abort, fault, out_of_fuel, pure, ◌>>◌,
}
use linux_sna.Asuite.{AsuiteRecord}
use linux_sna.Asuite.Cpic.{Cpic}
use linux_sna.Aftp.{Session, Library}
use linux_sna.Aftp.Request.{
  change_dir, create_dir, delete, remove_dir, rename, query_current_dir, query_system_info,
}
use linux_sna.Aftp.Table.{Cwd, create, destroy, close, connect, dir_close}
use linux_sna.Aftp.Extract.{
  extract_allocation_size, extract_block_size, extract_data_type, extract_date_mode,
  extract_record_format, extract_record_length, extract_security_type, extract_write_mode,
  extract_destination, extract_mode_name, extract_tp_name, extract_password, extract_userid,
  extract_partner_lu_name, extract_connection_info, extract_trace_level, query_local_version,
}
use linux_sna.Aftp.Receive.{Client, receive_file}
use linux_sna.Aftp.Send.{send_file}
use linux_sna.Aftpd.{Os}
use linux_sna.Aftp.Attributes.{
  set_allocation_size, set_block_size, set_data_type, set_date_mode, set_record_format,
  set_record_length, set_security_type, set_write_mode, set_destination, set_mode_name, set_tp_name,
  set_password, set_userid, set_trace_level, set_connection_info,
}

-- The numbers and the names that a session is given.
pub data Number : Type 0 where
  allocation_size block_size data_type date_mode record_format record_length security_type
        write_mode :
      Number

pub data Name : Type 0 where
  destination mode_name tp_name password userid : Name

-- The names that are read, and the partner's, which is the destination.
pub data Extracted : Type 0 where
  the_name : Name → Extracted
  partner_lu_name : Extracted

-- A call of a function with its arguments; for `aftp_create` what `malloc` and `getcwd` give, and
-- for the transfer of a file the rounds of its loop.
pub data Operation : Type 0 where
  create_op : Option Session → Option AsuiteRecord → (ℕ → Cwd) → ℕ → Operation
  destroy_op close_op connect_op : ℕ → Operation
  change_dir_op create_dir_op remove_dir_op delete_op : ℕ → Bytes → ℕ → Operation
  rename_op : ℕ → Bytes → ℕ → Bytes → ℕ → Operation
  query_current_dir_op query_system_info_op : ℕ → ℕ → Operation
  set_number : Number → ℕ → ℕ → Operation
  set_name : Name → ℕ → Bytes → ℕ → Operation
  get_number : Number → ℕ → Operation
  get_name : Extracted → ℕ → ℕ → Operation
  receive_op send_op : ℕ → Bytes → ℕ → Bytes → ℕ → ℕ → Operation
  set_trace_level_op : ℕ → Operation
  extract_trace_level_op set_connection_info_op extract_connection_info_op dir_close_op
        query_local_version_op :
      Operation

unfoldable pub number_setter : Number → ℕ → ℕ → Cmd Library (Unit {0})
number_setter allocation_size = set_allocation_size
number_setter block_size = set_block_size
number_setter data_type = set_data_type
number_setter date_mode = set_date_mode
number_setter record_format = set_record_format
number_setter record_length = set_record_length
number_setter security_type = set_security_type
number_setter write_mode = set_write_mode

unfoldable pub name_setter : Name → ℕ → Bytes → ℕ → Cmd Library (Unit {0})
name_setter destination = set_destination
name_setter mode_name = set_mode_name
name_setter tp_name = set_tp_name
name_setter password = set_password
name_setter userid = set_userid

unfoldable pub number_getter : Number → ℕ → Cmd Library ℕ
number_getter allocation_size = extract_allocation_size
number_getter block_size = extract_block_size
number_getter data_type = extract_data_type
number_getter date_mode = extract_date_mode
number_getter record_format = extract_record_format
number_getter record_length = extract_record_length
number_getter security_type = extract_security_type
number_getter write_mode = extract_write_mode

unfoldable pub name_getter : Extracted → ℕ → ℕ → Cmd Library (Unit {0})
name_getter (the_name destination) = extract_destination
name_getter (the_name mode_name) = extract_mode_name
name_getter (the_name tp_name) = extract_tp_name
name_getter (the_name password) = extract_password
name_getter (the_name userid) = extract_userid
name_getter partner_lu_name = extract_partner_lu_name

-- A call that makes no call of the system
abbrev pub with_library : {A : Type 0} → Client → Outcome Library A → Outcome Client (Unit {0})
with_library w (ok a l) = ok tt (record w { library = l })
with_library w (exit n) = exit n
with_library w abort = abort
with_library w fault = fault
with_library w out_of_fuel = out_of_fuel

abbrev pub on_library : {A : Type 0} → Cmd Library A → Cmd Client (Unit {0})
on_library m w = with_library w (m w.library)

module _ (cpic : Cpic) (os : Os) where
  unfoldable pub perform : Operation → Cmd Client (Unit {0})
  unfolding number_setter name_setter number_getter name_getter
  perform (create_op fresh r getcwd fuel) = on_library (create fresh r getcwd fuel)
  perform (destroy_op handle) = on_library (destroy handle)
  perform (close_op handle) = on_library (close cpic handle)
  perform (connect_op handle) = on_library (connect cpic handle)
  perform (change_dir_op handle name n) = on_library (change_dir cpic handle name n)
  perform (create_dir_op handle name n) = on_library (create_dir cpic handle name n)
  perform (remove_dir_op handle name n) = on_library (remove_dir cpic handle name n)
  perform (delete_op handle name n) = on_library (delete cpic handle name n)
  perform (rename_op handle old m new n) = on_library (rename cpic handle old m new n)
  perform (query_current_dir_op handle n) = on_library (query_current_dir cpic handle n)
  perform (query_system_info_op handle n) = on_library (query_system_info cpic handle n)
  perform (set_number number handle n) = on_library (number_setter number handle n)
  perform (set_name name handle memory n) = on_library (name_setter name handle memory n)
  perform (get_number number handle) = on_library (number_getter number handle)
  perform (get_name name handle n) = on_library (name_getter name handle n)
  perform (receive_op handle name n other m fuel) = receive_file cpic os handle name n other m fuel
  perform (send_op handle name n other m fuel) = send_file cpic os handle name n other m fuel
  perform (set_trace_level_op n) = on_library (set_trace_level n)
  perform extract_trace_level_op = on_library extract_trace_level
  perform set_connection_info_op = on_library set_connection_info
  perform extract_connection_info_op = on_library extract_connection_info
  perform dir_close_op = on_library dir_close
  perform query_local_version_op = on_library query_local_version

  unfoldable pub run : List Operation → Cmd Client (Unit {0})
  unfolding perform
  run [] = pure tt
  run (op ∷ ops) = perform op >> run ops

-- ===== src/Aftp.antt =====
-- libasuite/libaftp.c and libaftp.h: the client's side of the file transfer, its sessions and
-- what each call finds by its handle.
pub mod Params
pub mod Request
pub mod Table
pub mod Attributes
pub mod Extract
pub mod Kept
pub mod Names
pub mod Outcomes
pub mod Replies
pub mod Simple
pub mod Hidden
pub mod Receive
pub mod Send
pub mod Received
use linux_sna.Base.{
  ℕ, ◌+◌, List, Option, none, some, ltb, ◌==◌, if◌then◌else◌, Bytes, codes, Bool, true, false, Cmd,
  Outcome, ok, exit, abort, fault, out_of_fuel, pure, modify, ◌>>=◌, ◌>>◌, and_then, [],
}
use linux_sna.Asuite
use linux_sna.Asuite.{AsuiteRecord}
use linux_sna.Asuite.Codes.{rc_ok, fail_fatal, handle_not_valid}
use linux_sna.Asuite.Cpic.{Call, Link, on_rec}

-- `ftpsession`; a name is the bytes before its NUL. `current_directory` is what `getcwd` gave.
pub record Session : Type 0 where
  pub symbolic : Bool
  pub destination : Bytes
  pub mode_name : Bytes
  pub tp_name : Bytes
  pub conversation_id : Bytes
  pub password : Bytes
  pub userid : Bytes
  pub sys_info : Bytes
  pub rec : AsuiteRecord
  pub alloc_size : ℕ
  pub block_size : ℕ
  pub data_type : ℕ
  pub date_mode : ℕ
  pub record_format : ℕ
  pub record_length : ℕ
  pub security_type : ℕ
  pub write_mode : ℕ
  pub status : ℕ
  pub primary_msg : Bytes
  pub msg_category : ℕ
  pub msg_index : ℕ
  pub current_directory : Bytes

-- An entry of `sessions`: NULL, a session, or a session that was released.
pub data Slot : Type 0 where
  null freed : Slot
  live : Session → Slot

-- The static variables, the calls of CPI-C so far, and the caller's variables that a function
-- was given pointers to: `*rc`, the buffer that it fills and `*returned_length`.
pub record Library : Type 0 where
  pub sessions : ℕ → Slot
  pub ftp_handle_counter : ℕ
  pub global_trace_level : ℕ
  pub global_trace_file : Bytes
  pub calls : List Call
  pub rc : ℕ
  pub answer : Bytes
  pub returned_length : ℕ

-- What a function that has found its session works on.
pub record Conn : Type 0 where
  pub session : Session
  pub calls : List Call
  pub rc : ℕ
  pub answer : Bytes
  pub returned_length : ℕ

-- MAX_FTP_SESSIONS
abbrev pub max_ftp_sessions : ℕ
max_ftp_sessions = 20

-- `sessions[i] = slot` without its bound
abbrev pub set_slot : (ℕ → Slot) → ℕ → Slot → ℕ → Slot
set_slot f i slot j = if i == j then slot else f j

abbrev pub set_rc : ℕ → Cmd Library (Unit {0})
set_rc rc = modify λ w. record w { rc = rc }

-- The library after a function has worked on the session at `index`.
abbrev pub stored : ℕ → Library → Conn → Library
stored index w c = record w {
  sessions = set_slot w.sessions index (Slot.live c.session);
  calls = c.calls;
  rc = c.rc;
  answer = c.answer;
  returned_length = c.returned_length;
}

abbrev pub conn_of : Library → Session → Conn
conn_of w s = record {
  session = s;
  calls = w.calls;
  rc = w.rc;
  answer = w.answer;
  returned_length = w.returned_length;
}

abbrev pub in_library : ℕ → Library → Outcome Conn (Unit {0}) → Outcome Library (Unit {0})
in_library index w (ok a c) = ok tt (stored index w c)
in_library index w (exit n) = exit n
in_library index w abort = abort
in_library index w fault = fault
in_library index w out_of_fuel = out_of_fuel

abbrev pub run_on : ℕ → Cmd Conn (Unit {0}) → Cmd Library (Unit {0}) → Slot → Cmd Library (Unit {0})
run_on index m other Slot.null w = other w
run_on index m other Slot.freed w = fault
run_on index m other (Slot.live s) w = in_library index w (m (conn_of w s))

-- `if ((index < MAX_FTP_SESSIONS) && (sessions[index] != NULL)) ... else *rc = invalid;`
unfoldable pub with_session : ℕ → ℕ → Cmd Conn (Unit {0}) → Cmd Library (Unit {0})
with_session index invalid m w =
    if ltb index max_ftp_sessions
    then run_on index m (set_rc invalid) (w.sessions index) w
    else set_rc invalid w

abbrev pub in_conn : {A : Type 0} → Conn → Outcome Link A → Outcome Conn A
in_conn c (ok a l) = ok a (record c { session = record c.session { rec = l.rec }; calls = l.calls })
in_conn c (exit n) = exit n
in_conn c abort = abort
in_conn c fault = fault
in_conn c out_of_fuel = out_of_fuel

abbrev pub on_link : {A : Type 0} → Cmd Link A → Cmd Conn A
on_link m c = in_conn c (m (record { rec = c.session.rec; calls = c.calls }))

abbrev pub on_record : {A : Type 0} → Cmd AsuiteRecord A → Cmd Conn A
on_record m = on_link (on_rec m)

abbrev pub returns : ℕ → Cmd Conn (Unit {0})
returns rc = modify λ c. record c { rc = rc }

abbrev pub change : (Session → Session) → Cmd Conn (Unit {0})
change f = modify λ c. record c { session = f c.session }

-- ===== src/Aftp/Table.antt =====
-- libasuite/libaftp.c: the table of sessions, and the start and the end of a session.
-- `safe_get_cwd` is in libasuite/asuitecommon.c.
pub mod Invariant
pub mod Transfers
pub mod Operation
pub mod Parts
pub mod Runs
pub mod Fresh
use mathlib.Core.Option
use linux_sna.Base.{
  ℕ, zero, suc, ◌+◌, ◌%◌, [], ◌∷◌, ◌++◌, ltb, ◌==◌, if◌then◌else◌, Bytes, codes, length, take,
  Option, none, some, Bool, true, false, Cmd, Outcome, ok, fault, out_of_fuel, pure, ◌>>=◌, ◌>>◌,
  and_then, not,
}
use linux_sna.Asuite
use linux_sna.Asuite.{AsuiteRecord, settype}
use linux_sna.Asuite.Codes.{
  rc_ok, fail_fatal, handle_not_valid, state_check, parameter_check, comm_config_local,
  comm_fail_no_retry, tower_request, close_code,
}
use linux_sna.Asuite.Cpic.{
  Call, cminit, cmspln, cmsmn, cmstpn, cmallc, cmdeal, Cpic, Reply, send_asuiterecord,
}
use linux_sna.Aftp.{
  Session, Slot, Library, Conn, set_slot, set_rc, max_ftp_sessions, with_session, returns, change,
  on_record, on_link,
}
use linux_sna.Aftp.Request.{send_request, get_response}

-- What `getcwd` gives for a buffer of some size: an error ERANGE, another error, or a path.
pub data Cwd : Type 0 where
  erange failed : Cwd
  path : Bytes → Cwd

-- CWD_CHUNK
abbrev pub cwd_chunk : ℕ
cwd_chunk = 64

-- `safe_get_cwd`. `count` stays 1, so each try is with the same size; it goes on for as long as
-- the path is too long for that, and then the fuel runs out. `malloc` is taken to succeed.
unfoldable pub safe_get_cwd : {S : Type 0} → (ℕ → Cwd) → ℕ → Cmd S (Option Bytes)
safe_get_cwd getcwd zero s = out_of_fuel
safe_get_cwd getcwd (suc fuel) s =
    let again = safe_get_cwd getcwd fuel s in
    elim (getcwd cwd_chunk) [
      | Cwd.erange ↦ again
      | Cwd.failed ↦ ok none s
      | Cwd.path p ↦ ok (some (p ++ codes "/")) s
    ]

-- The values that `aftp_create` gives to a session.
abbrev pub initial : Session → AsuiteRecord → Bytes → Session
initial fresh r cwd = record fresh {
  destination = [];
  mode_name = codes "#BATCH";
  tp_name = codes "AFTPD";
  sys_info = codes "Linux";
  symbolic = true;
  alloc_size = 0;
  block_size = 0;
  data_type = 0;
  date_mode = 0;
  record_format = 0;
  record_length = 0;
  security_type = 0;
  write_mode = 0;
  rec = record r { position = 2 };
  current_directory = cwd;
}

-- The end of `aftp_create`: without a directory the session is released, but stays in the table.
abbrev pub slot_of : Session → AsuiteRecord → Option Bytes → Slot
slot_of fresh r none = Slot.freed
slot_of fresh r (some cwd) = Slot.live (initial fresh r cwd)

created : Session → AsuiteRecord → Option Bytes → Cmd Library (Option ℕ)
created fresh r cwd w = ok (some w.ftp_handle_counter) (record w {
  sessions = set_slot w.sessions w.ftp_handle_counter (slot_of fresh r cwd);
  ftp_handle_counter = (w.ftp_handle_counter + 1) % 256;
  rc = rc_ok;
})

-- `aftp_create`, with what the two calls of `malloc` give; the result is what it stores as the
-- handle. Behind the end of the table, or if only the second `malloc` fails, it writes to memory
-- that is not its own.
unfoldable pub create :
    Option Session → Option AsuiteRecord → (ℕ → Cwd) → ℕ → Cmd Library (Option ℕ)
unfolding created safe_get_cwd
create none r getcwd fuel w = ok none (record w { rc = fail_fatal })
create (some fresh) none getcwd fuel w = fault
create (some fresh) (some r) getcwd fuel w =
    if ltb w.ftp_handle_counter max_ftp_sessions
    then (safe_get_cwd getcwd fuel >>= created fresh r) w
    else fault

destroy_slot : ℕ → Slot → Cmd Library (Unit {0})
destroy_slot index Slot.null w = set_rc handle_not_valid w
destroy_slot index Slot.freed w = fault
destroy_slot index (Slot.live s) w =
    ok tt (record w { sessions = set_slot w.sessions index Slot.freed; rc = rc_ok })

-- `aftp_destroy`; the table keeps the pointer
unfoldable pub destroy : ℕ → Cmd Library (Unit {0})
unfolding destroy_slot
destroy index w =
    if ltb index max_ftp_sessions
    then destroy_slot index (w.sessions index) w
    else set_rc handle_not_valid w

-- `aftp_dir_close`
abbrev pub dir_close : Cmd Library (Unit {0})
dir_close = set_rc rc_ok

module _ (cpic : Cpic) where
  make_call : Call → Cmd Conn Reply
  make_call call c = ok (cpic (call ∷ c.calls)) (record c { calls = call ∷ c.calls })

  -- `aftp_close`
  unfoldable pub close : ℕ → Cmd Library (Unit {0})
  unfolding send_request make_call
  close handle = with_session handle handle_not_valid (do
    ftp_rc ← send_request cpic close_code (pure tt)
    if ftp_rc == rc_ok
        then (λ c.
            (make_call (cmdeal c.session.conversation_id)
                >>= (λ reply. returns (if reply.cm_rc == 0 then rc_ok else fail_fatal)))
              c)
        else returns ftp_rc)

  -- A call that must succeed before the rest.
  abbrev needs : ℕ → Call → Cmd Conn (Unit {0}) → Cmd Conn (Unit {0})
  needs failure call rest =
      make_call call >>= (λ reply. if reply.cm_rc == 0 then rest else returns failure)

  -- From `cmallc` to the end of `aftp_connect`. The record's position is not reset.
  unfoldable pub allocate : Bytes → Cmd Conn (Unit {0})
  unfolding make_call settype send_asuiterecord get_response
  allocate conv_id = needs comm_fail_no_retry (cmallc conv_id) (do
    on_record (settype tower_request)
    ftp_rc ← on_link (send_asuiterecord cpic conv_id)
    if ftp_rc == rc_ok then get_response cpic >>= returns else returns ftp_rc)

  -- The names of the destination, the mode and the program, if the destination is an LU.
  unfoldable pub set_names : Bytes → Session → Cmd Conn (Unit {0})
  unfolding make_call allocate
  set_names conv_id s =
      if s.symbolic
      then allocate conv_id
      else needs parameter_check (cmspln conv_id s.destination) (
          needs parameter_check (cmsmn conv_id s.mode_name)
            (needs parameter_check (cmstpn conv_id s.tp_name) (allocate conv_id)))

  abbrev blanks : Bytes
  blanks = codes "        "

  on_init : Session → Reply → Cmd Conn (Unit {0})
  unfolding set_names
  on_init s reply =
      if reply.cm_rc == 0
      then (change λ t. record t { conversation_id = take 8 reply.bytes })
        >> set_names (take 8 reply.bytes) s
      else returns comm_config_local

  connect_session : Session → Cmd Conn (Unit {0})
  unfolding make_call on_init
  connect_session s =
      if length s.destination == 0
      then returns state_check
      else make_call (cminit (if s.symbolic then s.destination else blanks)) >>= on_init s

  -- `aftp_connect`
  unfoldable pub connect : ℕ → Cmd Library (Unit {0})
  unfolding connect_session
  connect handle = with_session handle handle_not_valid (λ c. connect_session c.session c)

-- ===== src/Tests/Transfer.antt =====
-- The transfer of files at concrete inputs.
use linux_sna.Base.{
  ℕ, ◌+◌, ◌≤◌, ◌<◌, List, [], ◌∷◌, ◌++◌, ◌==◌, if◌then◌else◌, codes, some, true, ok, ◌≡◌, refl,
  arith, negsuc, ◌≢◌,
}
use linux_sna.Asuite.{AsuiteRecord}
use linux_sna.Asuite.Codes.{rc_ok}
use linux_sna.Asuite.Cpic.{cmrcv, Cpic}
use linux_sna.Asuite.Respond.{status_bytes, simple_params}
use linux_sna.Aftp.{Session, Slot, Library, set_slot}
use linux_sna.Aftp.Request.{change_dir}
use linux_sna.Aftp.Hidden.{change_dir-misses}
use linux_sna.Aftp.Names.{get_code_string, numbered, date_modes}
use linux_sna.Aftp.Names.Lookup.{get_code_string_lem}
use linux_sna.Aftp.Table.{Cwd, create, destroy, initial}
use linux_sna.Aftp.Table.Invariant.{IsTable, Lands}
use linux_sna.Aftp.Table.Operation.{
  Operation, create_op, destroy_op, remove_dir_op, receive_op, perform, run,
}
use linux_sna.Aftp.Table.Runs.{ClientIsTable, run-IsTable}
use linux_sna.Aftp.Receive.{Client}
use linux_sna.Aftpd.{Os, enoent}
use linux_sna.Aftp.Table.Fresh.{create-run-create}

abbrev pub blank_record : AsuiteRecord
blank_record = record { position = 2; buffer = λ i. 0 }

abbrev pub fresh_session : Session
fresh_session = record {
  symbolic = true;
  destination = codes "AFTPD";
  mode_name = codes "#BATCH";
  tp_name = codes "AFTPD";
  conversation_id = codes "00000001";
  password = [];
  userid = [];
  sys_info = codes "Linux";
  rec = blank_record;
  alloc_size = 0;
  block_size = 0;
  data_type = 0;
  date_mode = 0;
  record_format = 0;
  record_length = 0;
  security_type = 0;
  write_mode = 0;
  status = 0;
  primary_msg = [];
  msg_category = 0;
  msg_index = 0;
  current_directory = codes "/";
}

-- One session at handle 0.
abbrev pub one_session : Library
one_session = record {
  sessions = λ i. if i == 0 then Slot.live fresh_session else Slot.null;
  ftp_handle_counter = 1;
  global_trace_level = 0;
  global_trace_file = [];
  calls = [];
  rc = 99;
  answer = [];
  returned_length = 0;
}

-- No session yet.
abbrev no_session : Library
no_session = record one_session { sessions = λ i. Slot.null; ftp_handle_counter = 0 }

-- Each call succeeds, and `cmrcv` gives the error 2 with the category 602 and the index 7.
abbrev refuses : Cpic
refuses (cmrcv conv_id ∷ calls) = record { cm_rc = 0; bytes = status_bytes (simple_params 2 602 7) }
refuses _ = record { cm_rc = 0; bytes = [] }

pub ab_free : (1 ≤ b'a') × ((1 ≤ b'b') × Unit {0})
ab_free = (omega arith, (omega arith, tt))

pub one_session_found : (0 < 20) × (one_session.sessions 0 ≡ Slot.live fresh_session)
one_session_found = (omega arith, refl)

change_dir-misses_example :
    (w' : Library) × (change_dir refuses 0 (codes "ab" ++ 0 ∷ []) 2 one_session ≡ ok tt w')
    × (w'.rc ≡ rc_ok)
change_dir-misses_example =
    change_dir-misses refuses 0 (codes "ab") one_session fresh_session 2 602 7 one_session_found
      ab_free (omega arith) (refl, refl)

get_code_string_example : get_code_string (numbered 0 date_modes) 1 8 ≡ some (rc_ok, codes "NEW")
get_code_string_example = get_code_string_lem date_modes 1 8 (omega arith)

no_session-IsTable : IsTable no_session
no_session-IsTable = (omega arith, (λ i lt. absurd (omega arith)), (λ i le. refl))

abbrev root : ℕ → Cwd
root size = Cwd.path (codes "/tmp")

abbrev some_calls : List Operation
some_calls =
    create_op (some fresh_session) (some blank_record) root 1
    ∷ remove_dir_op 0 (codes "ab" ++ 0 ∷ []) 2
    ∷ receive_op 0 (codes "ab" ++ 0 ∷ []) 2 (codes "ba" ++ 0 ∷ []) 2 9
    ∷ destroy_op 0
    ∷ create_op (some fresh_session) (some blank_record) root 1
    ∷ []

abbrev no_client : Client
no_client = record { library = no_session; os_calls = [] }

-- Each call of the system fails.
abbrev no_files : Os
no_files calls = record { result = negsuc 0; errno = enoent; bytes = [] }

run-IsTable_example : Lands ClientIsTable (run refuses no_files some_calls no_client)
run-IsTable_example = run-IsTable refuses no_files some_calls no_client no_session-IsTable

-- The library when `aftp_create` has given the handle `h`.
abbrev with_handle : ℕ → Library → Library
with_handle h l = record l {
  sessions = set_slot l.sessions h (Slot.live (initial fresh_session blank_record (codes "/tmp/")));
  ftp_handle_counter = h + 1;
  rc = rc_ok;
}

abbrev one_client : Client
one_client = record no_client { library = with_handle 0 no_session }

-- The first session was destroyed.
abbrev freed_client : Client
freed_client = record one_client {
  library = record one_client.library {
    sessions = set_slot one_client.library.sessions 0 Slot.freed;
    rc = rc_ok;
  };
}

create-run-create_example :
    (0 < 1)
    × (1 < 20)
    × (no_session.sessions 0 ≡ Slot.null)
    × (freed_client.library.sessions 1 ≡ Slot.null)
    × (freed_client.library.sessions 0 ≢ Slot.null)
unfolding create run perform destroy
create-run-create_example =
    create-run-create refuses no_files (destroy_op 0 ∷ []) (some fresh_session) (some fresh_session)
      (some blank_record) (some blank_record) root root 1 1 0 1 no_client freed_client
      (with_handle 0 no_session) (with_handle 1 freed_client.library) no_session-IsTable refl refl
      refl

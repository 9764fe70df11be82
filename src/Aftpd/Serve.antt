-- ===== src/Aftpd/Serve.antt =====
-- The queries of asuite/aftpd.c, the choice by the major code, and the two loops of `main`.
use linux_sna.Base.{
  ℕ, zero, suc, ◌+◌, [], ◌∷◌, ◌++◌, ◌==◌, if◌then◌else◌, Bytes, codes, length, Option, none, some,
  Bool, true, false, Cmd, ok, out_of_fuel, pure, get, modify, ◌>>=◌, ◌>>◌,
}
use linux_sna.Asuite.{
  AsuiteRecord, clear, settype, append, append_char, append_twobyte, get_major_code,
  get_received_len,
}
use linux_sna.Asuite.Codes.{
  simple_response, query_system, list_request_code, change_dir_code, query_dir, create_dir_code,
  remove_dir_code, delete_code, rename_code, send_file_code, request_file_code, file_data,
  file_complete, tower_request, tower_response, return_code, filespec, system_info, tower_list,
  rc_ok, program_internal_error, out_of_memory,
}
use linux_sna.Asuite.Cpic.{Call, Reply, cmaccp, cmepln, cmdeal, Cpic, get_asuiterecord}
use linux_sna.Aftp.Table.{Cwd, safe_get_cwd}
use linux_sna.Aftpd.{Os, Globals, on_link, on_record, respond, send_record}
use linux_sna.Aftpd.Names.{a_change_dir, a_delete, a_create_dir, a_remove_dir, a_rename}
use linux_sna.Aftpd.Files.{a_request_file, a_send_file, a_file_data, a_file_complete}

abbrev pub system_string : Bytes
system_string = codes "AFTPD version 0.01 for Linux-SNA\n"

-- What the server takes from elsewhere: the calls of CPI-C and of the system, what `malloc` leaves
-- in a new record, `g_basename`, `getcwd`, and `a_list_request`, which formats the entries of a
-- directory by the C library. `rounds` bounds each loop that is not bounded by a record.
pub record Outside : Type 0 where
  pub cpic : Cpic
  pub os : Os
  pub fresh : AsuiteRecord
  pub basename : Bytes → Bytes
  pub getcwd : ℕ → Cwd
  pub list_request : Cmd Globals (Unit {0})
  pub rounds : ℕ

module _ (o : Outside) where
  -- `a_tower_request`
  unfoldable pub a_tower_request : Cmd Globals (Unit {0})
  unfolding settype append_twobyte send_record
  a_tower_request = do
    on_record (clear >> settype tower_response >> append_twobyte tower_list 0 [])
    send_record o.cpic o.fresh
    pure tt

  -- `a_query_system`
  unfoldable pub a_query_system : Cmd Globals (Unit {0})
  unfolding settype append append_char send_record
  a_query_system = do
    on_record (
        clear
        >> settype simple_response
        >> append_char return_code 0
        >> append system_info (system_string ++ 0 ∷ []) (length system_string + 1))
    send_record o.cpic o.fresh
    pure tt

  answer_dir : Option Bytes → Cmd Globals (Unit {0})
  unfolding settype append append_char send_record respond
  answer_dir none = respond o.cpic o.fresh program_internal_error out_of_memory
  answer_dir (some curdir) = do
    on_record (
        clear
        >> settype simple_response
        >> append_char return_code rc_ok
        >> append filespec (curdir ++ 0 ∷ []) (length curdir + 1))
    send_record o.cpic o.fresh
    pure tt

  -- `a_query_dir`
  unfoldable pub a_query_dir : Cmd Globals (Unit {0})
  unfolding safe_get_cwd answer_dir
  a_query_dir = do curdir ← safe_get_cwd o.getcwd o.rounds; answer_dir curdir

  -- A case of `switch(major_code)` that goes on, and one that sets `done`
  abbrev pub goes_on : Cmd Globals (Unit {0}) → Cmd Globals Bool
  goes_on m = m >> pure false

  -- `switch(major_code)`; the result is `done`
  unfoldable pub dispatch : ℕ → Cmd Globals Bool
  unfolding a_tower_request a_query_system a_query_dir a_change_dir a_request_file a_send_file
      a_file_data a_file_complete a_delete a_create_dir a_remove_dir a_rename
  dispatch major_code =
      if major_code == tower_request
      then goes_on a_tower_request
      else if major_code == query_system
      then goes_on a_query_system
      else if major_code == query_dir
      then goes_on a_query_dir
      else if major_code == list_request_code
      then goes_on o.list_request
      else if major_code == change_dir_code
      then goes_on (a_change_dir o.cpic o.os o.fresh)
      else if major_code == request_file_code
      then goes_on (a_request_file o.cpic o.os o.fresh o.basename o.rounds)
      else if major_code == send_file_code
      then goes_on (a_send_file o.cpic o.os o.fresh)
      else if major_code == file_data
      then goes_on (a_file_data o.cpic o.os o.fresh o.rounds)
      else if major_code == file_complete
      then goes_on (a_file_complete o.cpic o.os o.fresh)
      else if major_code == delete_code
      then goes_on (a_delete o.cpic o.os o.fresh)
      else if major_code == create_dir_code
      then goes_on (a_create_dir o.cpic o.os o.fresh)
      else if major_code == remove_dir_code
      then goes_on (a_remove_dir o.cpic o.os o.fresh)
      else if major_code == rename_code
      then goes_on (a_rename o.cpic o.os o.fresh)
      else pure true

  -- One round of the inner loop: a record is received and served. The result is `done`.
  unfoldable pub serve_record : Cmd Globals Bool
  unfolding get_asuiterecord
  serve_record = do
    g ← get
    rc ← on_link (get_asuiterecord o.cpic g.conv_id)
    if rc == rc_ok
        then (do
          received ← on_record get_received_len
          major_code ← on_record get_major_code
          modify (λ g'. record g' { returned_length = received; curpos = 2 })
          dispatch major_code)
        else pure true

  -- `do { ... } while(!done);`, up to `fuel` records
  unfoldable pub converse : ℕ → Cmd Globals (Unit {0})
  unfolding serve_record
  converse zero = λ g. out_of_fuel
  converse (suc fuel) = do done ← serve_record; if done then pure tt else converse fuel

  -- A call that gives a return code and bytes
  abbrev pub cpic_call : Call → Cmd Globals Reply
  cpic_call call g = let calls = call ∷ g.calls in ok (o.cpic calls) (record g { calls = calls })

  -- `main` behind `asuiterecord_new`, up to `fuel` conversations of up to `o.rounds` records. The
  -- result of `cmepln` is not looked at.
  unfoldable pub main : ℕ → Cmd Globals (Unit {0})
  unfolding converse
  main zero = λ g. out_of_fuel
  main (suc fuel) = do
    on_record clear
    accepted ← cpic_call cmaccp
    if accepted.cm_rc == 0
        then (do
          modify (λ g. record g { conv_id = accepted.bytes })
          origin ← cpic_call (cmepln accepted.bytes)
          modify (λ g. record g { returned_length = length origin.bytes })
          converse o.rounds
          cpic_call (cmdeal accepted.bytes)
          main fuel)
        else pure tt

-- ===== src/Tests/Serving.antt =====
-- The server of the file transfer at concrete inputs: a directory that is not there, two names, and
-- a file of three bytes that is received.
use linux_sna.Base.{
  [], ◌∷◌, ◌++◌, Bytes, codes, pos, negsuc, false, ok, pure, out_of_fuel, ◌≡◌, refl, arith,
}
use linux_sna.Asuite.Codes.{change_dir_code, remove_dir_code, file_data}
use linux_sna.Asuite.Cpic.{Cpic, cmrcv}
use linux_sna.Aftp.{Library}
use linux_sna.Aftp.Request.{remove_dir}
use linux_sna.Aftp.Request
use linux_sna.Aftp.Replies.{name_request, rename_request}
use linux_sna.Aftp.Table.{Cwd}
use linux_sna.Aftpd.{Os, OsReply, Globals, enoent, other, rmdir, rename, parse, no_locals}
use linux_sna.Aftpd.Names.{remove_dir_error, rename_error, change_dir_key}
use linux_sna.Aftpd.Serve.{Outside, serve_record}
use linux_sna.Aftpd.Respond.{response}
use linux_sna.Aftpd.Exchange.{Served, Reports, received, remove_dir-a_remove_dir, rename-a_rename}
use linux_sna.Aftpd.Stuck.{change_dir-stuck}
use linux_sna.Aftpd.Upload.{stored, serve_record-file_data}
use linux_sna.Tests.Transfer.{blank_record, one_session, fresh_session, one_session_found, ab_free}

-- Each call succeeds, and `cmrcv` gives these bytes.
abbrev says : Bytes → Cpic
says bytes (cmrcv conv_id ∷ calls) = record { cm_rc = 0; bytes = bytes }
says bytes _ = record { cm_rc = 0; bytes = [] }

-- Each call of the system fails.
abbrev missing : Os
missing calls = record { result = negsuc 0; errno = enoent; bytes = [] }

abbrev pub server : Globals
server = record {
  conv_id = codes "00000002";
  rec = blank_record;
  returned_length = 0;
  curpos = 0;
  dest_file = pos 5;
  calls = [];
  os_calls = [];
}

abbrev pub outside : Bytes → Os → Outside
outside bytes os = record {
  cpic = says bytes;
  os = os;
  fresh = blank_record;
  basename = λ s. s;
  getcwd = λ n. Cwd.path (codes "/");
  list_request = pure tt;
  rounds = 9;
}

abbrev removal : Bytes
removal = name_request remove_dir_code (codes "ab")

abbrev no_directory : OsReply
no_directory = record { result = negsuc 0; errno = enoent; bytes = [] }

remove_dir-a_remove_dir_example :
    ((g' : Globals) × Served
        (outside removal missing)
        server
        g'
        (rmdir (codes "ab"))
        (response remove_dir_error no_directory))
    × ((w' : Library) × (remove_dir
            (says (response remove_dir_error no_directory))
            0
            (codes "ab" ++ 0 ∷ [])
            2
            one_session
          ≡ ok tt w')
        × Reports w' 0 remove_dir_error no_directory)
remove_dir-a_remove_dir_example =
    remove_dir-a_remove_dir (outside removal missing) server
      (says (response remove_dir_error no_directory)) 0 (codes "ab") one_session fresh_session
      one_session_found ab_free (omega arith) refl (refl, refl)

abbrev renaming : Bytes
renaming = rename_request (codes "ab") (codes "ba")

rename-a_rename_example :
    ((g' : Globals) × Served
        (outside renaming missing)
        server
        g'
        (rename (codes "ab") (codes "ba"))
        (response rename_error no_directory))
    × ((w' : Library) × (Request.rename
            (says (response rename_error no_directory))
            0
            (codes "ab" ++ 0 ∷ [])
            2
            (codes "ba" ++ 0 ∷ [])
            2
            one_session
          ≡ ok tt w')
        × Reports w' 0 rename_error no_directory)
rename-a_rename_example =
    rename-a_rename (outside renaming missing) server (says (response rename_error no_directory)) 0
      (codes "ab") (codes "ba") one_session fresh_session one_session_found ab_free
      (omega arith, (omega arith, tt)) (omega arith) refl (refl, refl)

abbrev endless : Bytes
endless = 0 ∷ change_dir_code ∷ 0 ∷ 0 ∷ 99 ∷ []

change_dir-stuck_example :
    (serve_record (outside endless missing) server ≡ out_of_fuel)
    × (parse
          (change_dir_key (says endless) missing blank_record)
          1000
          no_locals
          (received server endless)
        ≡ out_of_fuel)
change_dir-stuck_example =
    change_dir-stuck (outside endless missing) server 99 [] 1000 (omega arith) (omega arith) refl

-- `write` takes one byte each time.
abbrev slow_disk : Os
slow_disk calls = record { result = pos 1; errno = other; bytes = [] }

serve_record-file_data_example :
    (g' : Globals) × (serve_record (outside (0 ∷ file_data ∷ codes "abc") slow_disk) server
      ≡ ok false g')
    × (stored slow_disk g'.os_calls ≡ stored slow_disk [] ++ codes "abc")
    × (g'.calls ≡ cmrcv (codes "00000002") ∷ [])
serve_record-file_data_example =
    serve_record-file_data (outside (0 ∷ file_data ∷ codes "abc") slow_disk) server (codes "abc")
      (λ bytes calls full. (1, refl, omega arith, full)) (omega arith) (omega arith) (omega arith)
      refl

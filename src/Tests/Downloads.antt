-- ===== src/Tests/Downloads.antt =====
-- A file of two parts from the server to the client.
use linux_sna.Base.{List, [], ◌∷◌, ◌++◌, Bytes, codes, length, pos, ok, ◌≡◌, refl, arith}
use linux_sna.Asuite.Codes.{file_data, file_complete}
use linux_sna.Asuite.Cpic.{Cpic, cmrcv}
use linux_sna.Aftp.Receive.{Client, receive_file}
use linux_sna.Aftpd.{Os, Globals, read, write, open_read, other}
use linux_sna.Aftpd.Whole.{header}
use linux_sna.Aftpd.Fetch.{file_request, Received}
use linux_sna.Aftpd.Asked.{SentFile}
use linux_sna.Aftpd.Downloaded.{receive_file-request_file}
use linux_sna.Tests.Transfer.{fresh_session, one_session, one_session_found, ab_free}
use linux_sna.Tests.Serving.{server, outside}

-- The names of the file at the client and at the server, and the parts of the file.
abbrev copy : Bytes
copy = codes "ba"

abbrev original : Bytes
original = codes "ab"

abbrev two_parts : List Bytes
two_parts = codes "one" ∷ codes "two" ∷ []

-- The file is open as 4; `read` gives its parts.
abbrev source_disk : Os
source_disk (open_read name ∷ _) = record { result = pos 4; errno = other; bytes = [] }
source_disk (read fd n ∷ open_read name ∷ []) = record {
  result = pos 3;
  errno = other;
  bytes = codes "one";
}
source_disk (read fd n ∷ read fd' n' ∷ open_read name ∷ []) = record {
  result = pos 3;
  errno = other;
  bytes = codes "two";
}
source_disk _ = record { result = pos 0; errno = other; bytes = [] }

-- The file is open as 3; `write` takes all.
abbrev dest_disk : Os
dest_disk (write fd bytes ∷ _) = record { result = pos (length bytes); errno = other; bytes = [] }
dest_disk _ = record { result = pos 3; errno = other; bytes = [] }

-- `cmrcv` gives the records of the file.
abbrev sends_file : Cpic
sends_file (cmrcv c ∷ cmrcv c' ∷ cmrcv c'' ∷ cmrcv c''' ∷ _) = record {
  cm_rc = 0;
  bytes = 0 ∷ file_complete ∷ [];
}
sends_file (cmrcv c ∷ cmrcv c' ∷ cmrcv c'' ∷ _) = record {
  cm_rc = 0;
  bytes = 0 ∷ file_data ∷ codes "two";
}
sends_file (cmrcv c ∷ cmrcv c' ∷ _) = record { cm_rc = 0; bytes = 0 ∷ file_data ∷ codes "one" }
sends_file (cmrcv c ∷ _) = record { cm_rc = 0; bytes = header original 0 }
sends_file _ = record { cm_rc = 0; bytes = [] }

abbrev client : Client
client = record { library = one_session; os_calls = [] }

receive_file-request_file_example :
    ((g' : Globals) × SentFile
        (outside (file_request copy original 0) source_disk)
        server
        g'
        original
        0
        (pos 4)
        two_parts)
    × ((w' : Client) × (receive_file sends_file dest_disk 0
            (copy ++ 0 ∷ [])
            2
            (original ++ 0 ∷ [])
            2
            9
            client
          ≡ ok tt w')
        × Received dest_disk client w' copy (pos 3) two_parts)
receive_file-request_file_example =
    receive_file-request_file (outside (file_request copy original 0) source_disk) server sends_file
      dest_disk 0 copy original (pos 4) (pos 3) client fresh_session two_parts 9 one_session_found
      refl (omega arith, (omega arith, tt)) ab_free refl (omega arith) refl refl refl refl refl
      (λ bytes calls. refl) (λ bytes calls. refl) (refl, (refl, (refl, (refl, tt))))
      (
        (refl, refl),
        omega arith,
        omega arith,
        ((refl, refl), omega arith, omega arith, (refl, refl)),
      )
      (λ bytes calls. refl) (omega arith) (omega arith)

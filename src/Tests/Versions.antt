-- ===== src/Tests/Versions.antt =====
-- The exchange of versions and the start of a conversation at concrete inputs: version 1.2 against
-- version 3.4, an answer of 130 bytes, and names in small letters.
use linux_sna.Base.{
  ℕ, ◌-◌, [], ◌∷◌, Bytes, take, some, true, false, ok, fault, ◌≡◌, refl, arith, ltb, if◌then◌else◌,
  ◌&&◌,
}
use linux_sna.Asuite.{zeros}
use linux_sna.CpicSession.{CpicSession, program, cmsend, cmrcv, cmptr, send_received, Cpic}
use linux_sna.CpicSession.Version.{
  Exchange, own_version, local_os_name, get_server_version, get_client_version,
}
use linux_sna.CpicSession.Agree.{
  asked, asking_calls, prepared_calls, version_exchange, long_answer_faults,
}

-- Each call succeeds, and `cmrcv` gives these bytes.
abbrev says : Bytes → Cpic
says bytes (cmrcv ∷ calls) = record {
  cm_rc = 0;
  bytes = bytes;
  no_data = false;
  status = send_received;
}
says bytes _ = record { cm_rc = 0; bytes = []; no_data = true; status = send_received }

abbrev start : Exchange
start = record { buffer = λ i. 7; calls = []; rc = 9; major = 9; minor = 9; os_name = [] }

version_exchange_example :
    ((f : Exchange) × (get_server_version (says (own_version 3 4)) 1 2 (some 4) start ≡ ok 0 f)
      × (f.calls ≡ cmrcv ∷ asking_calls 1 2 [])
      × (f.major ≡ 3)
      × (f.minor ≡ 4)
      × (f.os_name ≡ take (4 - 1) local_os_name))
    × ((f' : Exchange) × (get_client_version (says (asked 1 2)) 3 4 (some 9) start ≡ ok 0 f')
        × (f'.calls ≡ cmptr ∷ cmsend (own_version 3 4) ∷ cmrcv ∷ prepared_calls [])
        × (f'.major ≡ 1)
        × (f'.minor ≡ 2))
version_exchange_example =
    version_exchange (says (own_version 3 4)) (says (asked 1 2)) 1 2 3 4 4 9 start start
      (omega arith) (refl, refl, refl, refl) (refl, refl, refl, refl)

long_answer_faults_example :
    get_server_version (says (1 ∷ 3 ∷ 4 ∷ 2 ∷ zeros 126)) 1 2 (some 16) start ≡ fault
long_answer_faults_example =
    long_answer_faults (says (1 ∷ 3 ∷ 4 ∷ 2 ∷ zeros 126)) 1 2 16 1 3 4 (zeros 126) start
      (omega arith) (omega arith) (refl, refl, refl, refl)

-- The letters of ASCII
abbrev upper : ℕ → ℕ
upper c = if ltb 96 c && ltb c 123 then c - 32 else c

abbrev blank_session : CpicSession
blank_session = record {
  symbolic = true;
  tp_name = [];
  mode_name = [];
  destination = [];
  sym_dest_name = [];
  userid = [];
  password = [];
  security_type = program;
}

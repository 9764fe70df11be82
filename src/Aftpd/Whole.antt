-- ===== src/Aftpd/Whole.antt =====
-- A whole file that asuite/aftpd.c sends to its client: the header, the data and the end.
use linux_sna.Base.{
  ℕ, ◌+◌, ◌≤◌, ◌<◌, List, [], ◌∷◌, ◌++◌, Bytes, length, ℤ, ok, ◌≡◌, refl, arith, ◌>>◌,
}
use linux_sna.Asuite.{AsuiteRecord, max_buffer_size, sent, cells, settype, append, append_char, put}
use linux_sna.Asuite.Codes.{send_file_code, file_complete, filespec, data_type_key}
use linux_sna.Asuite.Cpic.{Cpic, cmsend, send_asuiterecord}
use linux_sna.Asuite.Emit.{
  written, sent-written, Emits, then-Emits, then_put, put-Emits, append_name, encode_param, NulFree,
}
use linux_sna.Aftp.Outcomes.{typed}
use linux_sna.Aftpd.{OsCall, Os, Globals, Locals, os_call, on_record, send_record}
use linux_sna.Aftpd.Files.{send_open}
use linux_sna.Aftpd.Download.{FileReads, data_calls, read_calls, Succeeds, send_data_lem}
use linux_sna.Aftpd

pub append_char-Emits : (key ch : ℕ) → Emits (append_char key ch) (encode_param (key, ch ∷ []))
unfolding append_char
append_char-Emits key ch = then_put 0 (put 4 >> (put key >> put ch)) (4 ∷ key ∷ ch ∷ []) (
    then_put 4 (put key >> put ch) (key ∷ ch ∷ []) (then_put key (put ch) (ch ∷ []) (put-Emits ch)))

-- The record that announces the file
abbrev pub header : Bytes → ℕ → Bytes
header name data_type =
    0
    ∷ send_file_code
    ∷ (encode_param (filespec, name ++ 0 ∷ []) ++ encode_param (data_type_key, data_type ∷ []))

sent-typed : (code : ℕ) (r : AsuiteRecord) → sent (typed code r) ≡ 0 ∷ code ∷ []
unfolding sent cells
sent-typed code r = refl

header-params :
    (name : Bytes) (data_type : ℕ)
    → NulFree name
    → Emits
        (append filespec (name ++ 0 ∷ []) (length name + 1) >> append_char data_type_key data_type)
        (encode_param (filespec, name ++ 0 ∷ []) ++ encode_param (data_type_key, data_type ∷ []))
header-params name data_type free =
    then-Emits (append filespec (name ++ 0 ∷ []) (length name + 1))
      (append_char data_type_key data_type) (encode_param (filespec, name ++ 0 ∷ []))
      (encode_param (data_type_key, data_type ∷ [])) (append_name filespec name [] free)
      (append_char-Emits data_type_key data_type)

-- A file that is open, with a name that has no NUL and no directory and fits into a record, of
-- which `read` gives some parts, none of them empty, and then nothing, while each `cmsend` succeeds:
-- `a_request_file` sends the header with the name and the kind of data, then each part in a record
-- of AFTP_FILE_DATA, then AFTP_FILE_COMPLETE, in this order and nothing else, and closes the file
-- behind the last read.
pub send_open_lem :
    (cpic : Cpic) (os : Os) (fresh : AsuiteRecord) (basename : Bytes → Bytes) (rounds : ℕ)
    (vars : Locals) (name : Bytes) (fd : ℤ) (file : List Bytes) (g : Globals)
    → basename name ≡ name
    → NulFree name
    → length (header name vars.data_type) ≤ max_buffer_size
    → Succeeds cpic g.conv_id
    → FileReads os fd g.os_calls file
    → length file < rounds
    → (g' : Globals) × (send_open cpic os fresh basename rounds vars name fd g ≡ ok tt g')
      × (g'.calls
          ≡ cmsend g.conv_id (0 ∷ file_complete ∷ [])
            ∷ data_calls g.conv_id file (cmsend g.conv_id (header name vars.data_type) ∷ g.calls))
      × (g'.os_calls ≡ Aftpd.close fd ∷ read_calls fd file g.os_calls)
unfolding send_open settype send_record send_asuiterecord os_call
send_open_lem cpic os fresh basename rounds vars name fd file g base free fits succeeds reads
      enough =
    let bytes =
      encode_param (filespec, name ++ 0 ∷ [])
      ++ encode_param (data_type_key, vars.data_type ∷ []) in
    let r = typed send_file_code g.rec in
    let emits = header-params name vars.data_type free in
    let sends : sent (written r bytes) ≡ header name vars.data_type = sent-written r bytes in
    let g1 = record g {
      rec = written r bytes;
      calls = cmsend g.conv_id (header name vars.data_type) ∷ g.calls;
    } in
    let body = send_data_lem cpic os fresh fd file rounds g1 succeeds reads enough in
    let g2 = body.0 in
    let complete = cmsend g.conv_id (0 ∷ file_complete ∷ []) ∷ g2.calls in
    (
      record g2 {
        rec = typed file_complete g2.rec;
        os_calls = Aftpd.close fd ∷ g2.os_calls;
        calls = complete;
      },
      rw (base, emits r (omega arith), sends, body.1)
          (rw (body.4, sent-typed file_complete g2.rec, succeeds (0 ∷ file_complete ∷ []) g2.calls)
            refl),
      rw body.2 refl,
      rw body.3 refl,
    )

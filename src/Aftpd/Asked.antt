-- ===== src/Aftpd/Asked.antt =====
-- `a_request_file` of asuite/aftpd.c on the request that `aftp_receive_file` sends.
use linux_sna.Base.{
  ℕ, suc, ◌+◌, ◌-◌, ◌≤◌, ◌<◌, List, [], ◌∷◌, ◌++◌, Bytes, length, length-append, ℤ, some, Cmd, ok,
  ◌≡◌, refl, arith, false, ◌∙◌,
}
use linux_sna.Asuite.{AsuiteRecord, max_buffer_size, peek}
use linux_sna.Asuite.Codes.{filespec, new_filespec, data_type_key, request_file_code}
use linux_sna.Asuite.Cpic.{Cpic, cmrcv}
use linux_sna.Asuite.Emit.{Param, encode_param, NulFree}
use linux_sna.Aftp.Params.{HoldsAt, HoldsAt-append, fill-HoldsAt, peek_lem}
use linux_sna.Aftpd.{
  Os, Globals, Locals, no_locals, open_read, close, os_call, with_params, negative,
}
use linux_sna.Aftpd.Names.{set_filespec, set_newfilespec}
use linux_sna.Aftpd.Files.{file_key, set_data_type, send_open, a_request_file}
use linux_sna.Aftpd.Parse.{named, param_string-name, parse-more, parse-last}
use linux_sna.Aftpd.Fetch.{asked_params, file_request}
use linux_sna.Aftpd.Exchange.{received, serve_record-received}
use linux_sna.Aftpd.Serve.{Outside, serve_record, dispatch}
use linux_sna.Aftpd.Download.{FileReads, Succeeds, read_calls}
use linux_sna.Aftpd.Delivery.{data_packets, sends, sends-data_packets}
use linux_sna.Aftpd.Whole.{header, send_open_lem}

-- The variables behind the loop
abbrev asked_vars : Bytes → Bytes → ℕ → Locals
asked_vars local_file remote_file data_type = record {
  filespec_ptr = some remote_file;
  newfilespec_ptr = some local_file;
  data_type = data_type;
}

abbrev type_param : ℕ → Param
type_param data_type = (data_type_key, data_type ∷ [])

set_data_type_lem :
    (data_type : ℕ) (vars : Locals) (g : Globals)
    → HoldsAt g.rec.buffer g.curpos (encode_param (type_param data_type))
    → g.curpos + 4 ≤ max_buffer_size
    → set_data_type vars g ≡ ok (some (record vars { data_type = data_type })) g
set_data_type_lem data_type vars g h fits =
    let three : g.curpos + 3 ≡ suc (suc (suc g.curpos)) = omega arith in
    let byte : peek (g.curpos + 3) g.rec ≡ ok data_type g.rec =
      rw three (peek_lem (suc (suc (suc g.curpos))) data_type g.rec h.1.1.1.0 (omega arith)) in
    rw byte refl

-- Where the loop ends.
abbrev behind : Bytes → Bytes → ℕ → ℕ
behind local_file remote_file curpos =
    curpos + (length (remote_file ++ 0 ∷ []) + 3) + (length (local_file ++ 0 ∷ []) + 3) + 4

module _ (cpic : Cpic) (os : Os) (fresh : AsuiteRecord) where
  -- On the request the rest of the function has both names and the kind of data.
  file_params_lem :
      (local_file remote_file : Bytes) (data_type : ℕ) (g : Globals)
      (body : Locals → Cmd Globals (Unit {0}))
      → NulFree local_file
      → NulFree remote_file
      → HoldsAt g.rec.buffer g.curpos (asked_params local_file remote_file data_type)
      → g.curpos + length (asked_params local_file remote_file data_type) ≡ g.returned_length
      → g.returned_length ≤ max_buffer_size
      → with_params (file_key cpic os fresh set_data_type) body g
        ≡ body
            (asked_vars local_file remote_file data_type)
            (record g { curpos = behind local_file remote_file g.curpos })
  unfolding with_params file_key set_filespec set_newfilespec
  file_params_lem local_file remote_file data_type g body local_free remote_free h ends fits =
      let first = encode_param (named filespec remote_file) in
      let second = encode_param (named new_filespec local_file) in
      let third = encode_param (type_param data_type) in
      let lens1 = length-append first second in
      let lens2 = length-append (first ++ second) third in
      let halves = HoldsAt-append g.rec.buffer g.curpos (first ++ second) third h in
      let names = HoldsAt-append g.rec.buffer g.curpos first second halves.0 in
      let at1 : g.curpos + (length (remote_file ++ 0 ∷ []) + 3) ≡ g.curpos + length first =
        omega arith in
      let g1 = record g { curpos = g.curpos + (length (remote_file ++ 0 ∷ []) + 3) } in
      let there1 : HoldsAt g1.rec.buffer g1.curpos second = rw at1 names.1 in
      let at2 : g1.curpos + (length (local_file ++ 0 ∷ []) + 3)
          ≡ g.curpos + length (first ++ second) =
        omega arith in
      let g2 = record g { curpos = g1.curpos + (length (local_file ++ 0 ∷ []) + 3) } in
      let there2 : HoldsAt g2.rec.buffer g2.curpos third = rw at2 halves.1 in
      let vars1 = record no_locals { filespec_ptr = some remote_file } in
      let vars2 = record vars1 { newfilespec_ptr = some local_file } in
      let vars3 = asked_vars local_file remote_file data_type in
      let key = file_key cpic os fresh set_data_type in
      let taken1 : key filespec no_locals g ≡ ok (some vars1) g =
        rw (param_string-name filespec remote_file g remote_free names.0 (omega arith)) refl in
      let taken2 : key new_filespec vars1 g1 ≡ ok (some vars2) g1 =
        rw (param_string-name new_filespec local_file g1 local_free there1 (omega arith)) refl in
      let taken3 : key data_type_key vars2 g2 ≡ ok (some vars3) g2 =
        set_data_type_lem data_type vars2 g2 there2 (omega arith) in
      rw
        (
          parse-more key (named filespec remote_file) (suc g.returned_length) no_locals vars1 g
              names.0 (omega arith) taken1 (omega arith) (omega arith),
          parse-more key (named new_filespec local_file) (suc g.returned_length - 1) vars1 vars2 g1
              there1 (omega arith) taken2 (omega arith) (omega arith),
          parse-last key (type_param data_type) (suc g.returned_length - 1 - 1) vars2 vars3 g2
              there2 (omega arith) taken3 (omega arith) (omega arith),
        )
        refl

  -- The file is open, and all of it is sent.
  a_request_file_lem :
      (basename : Bytes → Bytes) (rounds : ℕ) (local_file remote_file : Bytes) (data_type : ℕ)
      (fd : ℤ) (g g' : Globals)
      → NulFree local_file
      → NulFree remote_file
      → HoldsAt g.rec.buffer g.curpos (asked_params local_file remote_file data_type)
      → g.curpos + length (asked_params local_file remote_file data_type) ≡ g.returned_length
      → g.returned_length ≤ max_buffer_size
      → (os (open_read remote_file ∷ g.os_calls)).result ≡ fd
      → negative fd ≡ false
      → send_open cpic os fresh basename rounds
          (asked_vars local_file remote_file data_type)
          remote_file
          fd
          (record g {
            curpos = behind local_file remote_file g.curpos;
            os_calls = open_read remote_file ∷ g.os_calls;
          })
        ≡ ok tt g'
      → a_request_file cpic os fresh basename rounds g ≡ ok tt g'
  unfolding a_request_file os_call
  a_request_file_lem basename rounds local_file remote_file data_type fd g g' local_free remote_free
        h ends fits opens is_open sent =
      file_params_lem local_file remote_file data_type g _ local_free remote_free h ends fits
      ∙ rw (opens, is_open) (rw sent refl)

-- The server after it has sent a file for a request.
abbrev pub SentFile : Outside → Globals → Globals → Bytes → ℕ → ℤ → List Bytes → Type 0
SentFile o g g' name data_type fd file =
    (serve_record o g ≡ ok false g')
    × (g'.calls
        ≡ sends g.conv_id (header name data_type ∷ data_packets file) (cmrcv g.conv_id ∷ g.calls))
    × (g'.os_calls ≡ close fd ∷ read_calls fd file (open_read name ∷ g.os_calls))

pub request_file-SentFile :
    (o : Outside) (g : Globals) (local_file remote_file : Bytes) (data_type : ℕ) (fd : ℤ)
    (file : List Bytes)
    → NulFree local_file
    → NulFree remote_file
    → o.basename remote_file ≡ remote_file
    → length (file_request local_file remote_file data_type) ≤ max_buffer_size
    → length (header remote_file data_type) ≤ max_buffer_size
    → o.cpic (cmrcv g.conv_id ∷ g.calls)
      ≡ record { cm_rc = 0; bytes = file_request local_file remote_file data_type }
    → Succeeds o.cpic g.conv_id
    → (o.os (open_read remote_file ∷ g.os_calls)).result ≡ fd
    → negative fd ≡ false
    → FileReads o.os fd (open_read remote_file ∷ g.os_calls) file
    → length file < o.rounds
    → (g' : Globals) × SentFile o g g' remote_file data_type fd file
unfolding dispatch
request_file-SentFile o g local_file remote_file data_type fd file local_free remote_free base fits
      room e succeeds opens is_open reads enough =
    let bytes = file_request local_file remote_file data_type in
    let g0 = received g bytes in
    let vars = asked_vars local_file remote_file data_type in
    let holds = (fill-HoldsAt bytes g.rec.buffer).1.1 in
    let g1 = record g0 {
      curpos = behind local_file remote_file 2;
      os_calls = open_read remote_file ∷ g.os_calls;
    } in
    let whole =
      send_open_lem o.cpic o.os o.fresh o.basename o.rounds vars remote_file fd file g1 base
        remote_free room succeeds reads enough in
    (
      whole.0,
      (
        rw
            (
              serve_record-received o g request_file_code bytes fits refl e,
              a_request_file_lem o.cpic o.os o.fresh o.basename o.rounds local_file remote_file
                  data_type fd g0 whole.0 local_free remote_free holds (omega arith) fits opens
                  is_open whole.1,
            )
            refl,
        whole.2 ∙ sends-data_packets g.conv_id file _,
        whole.3,
      ),
    )

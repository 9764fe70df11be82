-- ===== src/Aftpd/Fetch.antt =====
-- `aftp_receive_file` of libasuite/libaftp.c, from the call to its return, and the file that
-- asuite/aftpd.c sends.
use linux_sna.Base.{
  ℕ, ◌+◌, ◌%◌, ◌≤◌, ◌<◌, List, [], ◌∷◌, ◌++◌, Bytes, length, ℤ, ok, ◌≡◌, refl, arith, ◌>>◌, true,
  false, ltb, Cmd,
}
use linux_sna.Asuite.{AsuiteRecord, max_buffer_size, append, append_char}
use linux_sna.Asuite.Codes.{request_file_code, filespec, new_filespec, data_type_key, rc_ok}
use linux_sna.Asuite.Cpic.{Cpic, cmsend}
use linux_sna.Asuite.Emit.{Emits, then-Emits, append_name, encode_param, NulFree}
use linux_sna.Aftp.{Session, Conn, conn_of, max_ftp_sessions}
use linux_sna.Aftp
use linux_sna.Aftp.Kept.{before_nul-name}
use linux_sna.Aftp.Outcomes.{sent_conn, send_request_lem}
use linux_sna.Aftp.Replies.{Opens}
use linux_sna.Aftp.Receive.{
  Receiver, Client, receive_loop, receive_into, receive_file, request_params, append_block_size,
}
use linux_sna.Aftpd.{Os, open_write, close, negative}
use linux_sna.Aftpd.Upload
use linux_sna.Aftpd.Delivery.{
  data_packets, Delivers, write_calls, stored-write_calls, contents, Small, WritesAll,
  receive_loop-header,
}
use linux_sna.Aftpd.Whole.{header, append_char-Emits}

-- The parameters of the request, and the whole of it.
abbrev pub asked_params : Bytes → Bytes → ℕ → Bytes
asked_params local_file remote_file data_type =
    (encode_param (filespec, remote_file ++ 0 ∷ [])
      ++ encode_param (new_filespec, local_file ++ 0 ∷ []))
    ++ encode_param (data_type_key, data_type ∷ [])

abbrev pub file_request : Bytes → Bytes → ℕ → Bytes
file_request local_file remote_file data_type =
    0 ∷ request_file_code ∷ asked_params local_file remote_file data_type

then_no_blocks :
    (block_size : ℕ) (m : Cmd AsuiteRecord (Unit {0})) (bytes : Bytes)
    → block_size ≡ 0
    → Emits m bytes
    → Emits (m >> append_block_size block_size) bytes
then_no_blocks block_size m bytes none_set h r fits = rw none_set (rw (h r fits) refl)

request_params-Emits :
    (c : Conn) (local_file remote_file : Bytes)
    → c.session.block_size ≡ 0
    → NulFree local_file
    → NulFree remote_file
    → Emits
        (request_params c
          (local_file ++ 0 ∷ [])
          (length local_file)
          (remote_file ++ 0 ∷ [])
          (length remote_file))
        (asked_params local_file remote_file (c.session.data_type % 256))
unfolding request_params
request_params-Emits c local_file remote_file no_blocks local_free remote_free =
    let first = append filespec (remote_file ++ 0 ∷ []) (length remote_file + 1) in
    let second = append new_filespec (local_file ++ 0 ∷ []) (length local_file + 1) in
    let third = append_char data_type_key (c.session.data_type % 256) in
    let remote_bytes = encode_param (filespec, remote_file ++ 0 ∷ []) in
    let local_bytes = encode_param (new_filespec, local_file ++ 0 ∷ []) in
    let type_bytes = encode_param (data_type_key, c.session.data_type % 256 ∷ []) in
    then_no_blocks c.session.block_size (first >> second >> third)
      ((remote_bytes ++ local_bytes) ++ type_bytes) no_blocks
      (then-Emits (first >> second) third (remote_bytes ++ local_bytes) type_bytes
        (then-Emits first second remote_bytes local_bytes
          (append_name filespec remote_file [] remote_free)
          (append_name new_filespec local_file [] local_free))
        (append_char-Emits data_type_key (c.session.data_type % 256)))

-- The client that has received the file and has returned.
abbrev pub Received : Os → Client → Client → Bytes → ℤ → List Bytes → Type 0
Received os w w' local_file fd file =
    (w'.library.rc ≡ rc_ok)
    × (w'.os_calls ≡ close fd ∷ write_calls fd file (open_write local_file ∷ w.os_calls))
    × (Upload.stored os w'.os_calls ≡ Upload.stored os w.os_calls ++ contents file)

-- A client with a session, that can open its file and send the request.
module _ (cpic : Cpic) (os : Os) (handle : ℕ) (local_file remote_file : Bytes) (fd : ℤ) (w : Client)
    (s : Session) (fuel : ℕ) (found : Opens w.library handle s) (no_blocks : s.block_size ≡ 0)
    (local_free : NulFree local_file) (remote_free : NulFree remote_file)
    (room : length (file_request local_file remote_file (s.data_type % 256)) ≤ max_buffer_size)
    (opens : (os (open_write local_file ∷ w.os_calls)).result ≡ fd) (is_open : negative fd ≡ false)
    (accepted : (cpic (
        cmsend s.conversation_id (file_request local_file remote_file (s.data_type % 256))
        ∷ w.library.calls)).cm_rc
      ≡ 0) where
  abbrev params : Cmd AsuiteRecord (Unit {0})
  params =
      request_params (conn_of w.library s) (local_file ++ 0 ∷ []) (length local_file)
        (remote_file ++ 0 ∷ []) (length remote_file)

  abbrev bytes : Bytes
  bytes = asked_params local_file remote_file (s.data_type % 256)

  -- The client when it has sent the request.
  abbrev requested : Receiver
  requested = record {
    conn =
        sent_conn cpic request_file_code params bytes (omega arith)
          (request_params-Emits (conn_of w.library s) local_file remote_file no_blocks local_free
            remote_free)
          (omega arith) (conn_of w.library s);
    os_calls = open_write local_file ∷ w.os_calls;
  }

  receive_into_lem :
      receive_into cpic os fd
        (local_file ++ 0 ∷ [])
        (length local_file)
        (remote_file ++ 0 ∷ [])
        (length remote_file)
        fuel
        (record { conn = conn_of w.library s; os_calls = open_write local_file ∷ w.os_calls })
      ≡ receive_loop cpic os fd fuel requested
  unfolding receive_into
  receive_into_lem =
      rw
        (
          send_request_lem cpic request_file_code params bytes (omega arith)
              (request_params-Emits (conn_of w.library s) local_file remote_file no_blocks
                local_free remote_free)
              (omega arith) (conn_of w.library s),
          accepted,
        )
        refl

  receive_file_lem :
      (e : Receiver)
      → receive_loop cpic os fd fuel requested ≡ ok tt e
      → receive_file cpic os handle
          (local_file ++ 0 ∷ [])
          (length local_file)
          (remote_file ++ 0 ∷ [])
          (length remote_file)
          fuel
          w
        ≡ ok tt (record { library = Aftp.stored handle w.library e.conn; os_calls = e.os_calls })
  unfolding receive_file
  receive_file_lem e done =
      let small : ltb handle max_ftp_sessions ≡ true = let lt = found.0 in ground (arith, lt) in
      rw (small, found.1, before_nul-name local_file [] local_free)
        (rw (opens, is_open, receive_into_lem, done) refl)

  -- The client receives the records of a file and writes it.
  pub receive_file-Received :
      (name : Bytes) (data_type : ℕ) (file : List Bytes)
      → length (header name data_type) ≤ max_buffer_size
      → Delivers cpic s.conversation_id
          (cmsend s.conversation_id (file_request local_file remote_file (s.data_type % 256))
            ∷ w.library.calls)
          (header name data_type ∷ data_packets file)
      → Small file
      → WritesAll os fd
      → length file + 1 < fuel
      → (w' : Client) × (receive_file cpic os handle
            (local_file ++ 0 ∷ [])
            (length local_file)
            (remote_file ++ 0 ∷ [])
            (length remote_file)
            fuel
            w
          ≡ ok tt w')
        × Received os w w' local_file fd file
  unfolding Upload.stored
  receive_file-Received name data_type file fits arrives small all enough =
      let loop =
        receive_loop-header cpic os fd name data_type file fuel requested fits arrives small
          enough in
      let e = loop.0 in
      (
        _,
        receive_file_lem e loop.1,
        (
          loop.2.0,
          loop.2.1,
          rw loop.2.1 (stored-write_calls os fd file (open_write local_file ∷ w.os_calls) all),
        ),
      )

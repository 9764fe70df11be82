-- ===== src/Aftpd/Exchange.antt =====
-- The client of libasuite/libaftp.c and the server of asuite/aftpd.c on one conversation.
use linux_sna.Base.{
  ℕ, ◌+◌, ◌%◌, ◌≤◌, ◌<◌, [], ◌∷◌, ◌++◌, ◌==◌, if◌then◌else◌, Bytes, length, ok, ◌≡◌, refl, arith,
  true, false, Bool-cases, inl, inr, ◌⊎◌, ◌>>=◌, get_or,
}
use linux_sna.Asuite.{max_buffer_size}
use linux_sna.Asuite.Codes.{return_code, remove_dir_code, rename_code, rc_ok, fail_fatal}
use linux_sna.Asuite.Cpic.{Cpic, cmsend, cmrcv, fill, get_asuiterecord}
use linux_sna.Asuite.Emit.{NulFree, Param}
use linux_sna.Asuite.Respond.{simple_params, error_part}
use linux_sna.Aftp.{Session, Slot, Library, stored}
use linux_sna.Aftp.Params.{fill-HoldsAt, apply_params}
use linux_sna.Aftp.Outcomes.{take_all}
use linux_sna.Aftp.Request.{remove_dir, rename}
use linux_sna.Aftp.Replies.{Answers, Opens, name_request, rename_request, rename_lem}
use linux_sna.Aftp.Simple.{
  remove_dir-simple_response, simple_params-IsStatus, simple_params-apply, stored-live,
}
use linux_sna.Aftpd.{
  Errno, enoent, eacces, eperm, eexist, exdev, other, OsCall, OsReply, Globals, rmdir, negative,
  os_call, on_result, with_params, needs,
}
use linux_sna.Aftpd
use linux_sna.Aftpd.Names.{remove_dir_error, rename_error, a_remove_dir, a_rename}
use linux_sna.Aftpd.Respond.{
  errcode_of, index_of, response, on_result_lem, one_name_lem, two_names_lem,
}
use linux_sna.Aftpd.Serve.{Outside, serve_record, dispatch}

-- The server after it has received a record, before `switch(major_code)`
abbrev pub received : Globals → Bytes → Globals
received g bytes = record g {
  rec = record { position = length bytes; buffer = fill bytes g.rec.buffer };
  calls = cmrcv g.conv_id ∷ g.calls;
  returned_length = length bytes;
  curpos = 2;
}

pub serve_record-received :
    (o : Outside) (g : Globals) (code : ℕ) (bytes : Bytes)
    → length bytes ≤ max_buffer_size
    → get_or bytes 1 (g.rec.buffer 1) ≡ code
    → o.cpic (cmrcv g.conv_id ∷ g.calls) ≡ record { cm_rc = 0; bytes = bytes }
    → serve_record o g ≡ dispatch o code (received g bytes)
unfolding serve_record get_asuiterecord
serve_record-received o g code bytes fits is_code e =
    rw e (rw (take_all max_buffer_size bytes fits, is_code) refl)

-- The server after a call of the system for one request, of which it has sent the result.
abbrev pub Served : Outside → Globals → Globals → OsCall → Bytes → Type 0
Served o g g' call answer =
    (serve_record o g ≡ ok false g')
    × (g'.os_calls ≡ call ∷ g.os_calls)
    × (g'.calls ≡ cmsend g.conv_id answer ∷ cmrcv g.conv_id ∷ g.calls)

-- The server when it has called the system and has sent the answer.
abbrev answered : Globals → OsCall → Bytes → Globals
answered g call answer = record g {
  os_calls = call ∷ g.os_calls;
  calls = cmsend g.conv_id answer ∷ g.calls;
}

remove_dir-Served :
    (o : Outside) (g : Globals) (name : Bytes)
    → NulFree name
    → length (name_request remove_dir_code name) ≤ max_buffer_size
    → o.cpic (cmrcv g.conv_id ∷ g.calls)
      ≡ record { cm_rc = 0; bytes = name_request remove_dir_code name }
    → (g' : Globals) × Served o g g'
        (rmdir name)
        (response remove_dir_error (o.os (rmdir name ∷ g.os_calls)))
unfolding dispatch a_remove_dir os_call
remove_dir-Served o g name free fits e =
    let bytes = name_request remove_dir_code name in
    let g0 = received g bytes in
    let body =
      λ (n : Bytes). os_call o.os (rmdir n) >>= on_result o.cpic o.fresh remove_dir_error in
    let holds = (fill-HoldsAt bytes g.rec.buffer).1.1 in
    let g1 = record g0 { curpos = 2 + (length (name ++ 0 ∷ []) + 3) } in
    let reply = o.os (rmdir name ∷ g.os_calls) in
    (
      answered g1 (rmdir name) (response remove_dir_error reply),
      (
        rw
            (
              serve_record-received o g remove_dir_code bytes fits refl e,
              one_name_lem o.cpic o.fresh name g0 body free holds (omega arith) fits,
              on_result_lem o.cpic o.fresh remove_dir_error reply
                  (record g1 { os_calls = rmdir name ∷ g.os_calls }),
            )
            refl,
        refl,
        refl,
      ),
    )

rename-Served :
    (o : Outside) (g : Globals) (old new : Bytes)
    → NulFree old
    → NulFree new
    → length (rename_request old new) ≤ max_buffer_size
    → o.cpic (cmrcv g.conv_id ∷ g.calls) ≡ record { cm_rc = 0; bytes = rename_request old new }
    → (g' : Globals) × Served o g g'
        (Aftpd.rename old new)
        (response rename_error (o.os (Aftpd.rename old new ∷ g.os_calls)))
unfolding dispatch a_rename os_call
rename-Served o g old new free free' fits e =
    let bytes = rename_request old new in
    let g0 = received g bytes in
    let body =
      λ (a b : Bytes). os_call o.os (Aftpd.rename a b) >>= on_result o.cpic o.fresh rename_error in
    let holds = (fill-HoldsAt bytes g.rec.buffer).1.1 in
    let g1 = record g0 {
      curpos = 2 + (length (old ++ 0 ∷ []) + 3) + (length (new ++ 0 ∷ []) + 3);
    } in
    let reply = o.os (Aftpd.rename old new ∷ g.os_calls) in
    (
      answered g1 (Aftpd.rename old new) (response rename_error reply),
      (
        rw
            (
              serve_record-received o g rename_code bytes fits refl e,
              two_names_lem o.cpic o.fresh old new g0 body free free' holds (omega arith) fits,
              on_result_lem o.cpic o.fresh rename_error reply
                  (record g1 { os_calls = Aftpd.rename old new ∷ g.os_calls }),
            )
            refl,
        refl,
        refl,
      ),
    )

-- What the client reports of the server's call: `*rc`, the status, and for a failed call the index.
abbrev pub Reports : Library → ℕ → (Errno → ℕ) → OsReply → Type 0
Reports w handle index reply =
    (w.rc ≡ (if negative reply.result then fail_fatal else rc_ok))
    × ((s : Session) × (w.sessions handle ≡ Slot.live s)
        × (s.status ≡ errcode_of reply)
        × ((negative reply.result ≡ false) ⊎ (s.msg_index ≡ index reply.errno)))

abbrev Small : (Errno → ℕ) → Type 0
Small index = (e : Errno) → index e < 65536

remove_dir_error-Small : Small remove_dir_error
remove_dir_error-Small enoent = omega arith
remove_dir_error-Small eacces = omega arith
remove_dir_error-Small eperm = omega arith
remove_dir_error-Small eexist = omega arith
remove_dir_error-Small exdev = omega arith
remove_dir_error-Small other = omega arith

rename_error-Small : Small rename_error
rename_error-Small enoent = omega arith
rename_error-Small eacces = omega arith
rename_error-Small eperm = omega arith
rename_error-Small eexist = omega arith
rename_error-Small exdev = omega arith
rename_error-Small other = omega arith

-- The client's fields by the error code, read by the server's reply.
reported :
    (index : Errno → ℕ) (reply : OsReply) (rc status msg_category msg_index : ℕ)
    → Small index
    → rc ≡ (if errcode_of reply == 0 then rc_ok else fail_fatal)
    → status ≡ errcode_of reply % 256
    → (((errcode_of reply == 0) ≡ true)
        ⊎ ((msg_category ≡ 0 % 65536) × (msg_index ≡ index_of index reply % 65536)))
    → (rc ≡ (if negative reply.result then fail_fatal else rc_ok))
      × (status ≡ errcode_of reply)
      × ((negative reply.result ≡ false) ⊎ (msg_index ≡ index reply.errno))
reported index reply rc status msg_category msg_index small a b c =
    elim (Bool-cases (negative reply.result)) [
      | inl y ↦
          let bound = small reply.errno in
          rw y (
            rw y at a,
            rw y at b,
            inr (elim c [ inl z ↦ cc (rw y at z) | inr z ↦ let e = rw y at (z.1) in omega arith ]),
          )
      | inr n ↦ rw n (rw n at a, rw n at b, inl refl)
    ]

-- The client of `aftp_remove_dir` has an open session, the name has no NUL and fits into a record,
-- the server receives what the client sends, and the client what the server sends. Then the server
-- calls `rmdir` of that name once and sends one response, and the client returns: `*rc` is
-- AFTP_RC_OK if `rmdir` succeeded and AFTP_RC_FAIL_FATAL if not, and then the session has the
-- index that the server chose by `errno`.
pub remove_dir-a_remove_dir :
    (o : Outside) (g : Globals) (cpic : Cpic) (handle : ℕ) (name : Bytes) (w : Library)
    (s : Session)
    → Opens w handle s
    → NulFree name
    → length (name_request remove_dir_code name) ≤ max_buffer_size
    → o.cpic (cmrcv g.conv_id ∷ g.calls)
      ≡ record { cm_rc = 0; bytes = name_request remove_dir_code name }
    → Answers cpic s.conversation_id w.calls
        (name_request remove_dir_code name)
        (response remove_dir_error (o.os (rmdir name ∷ g.os_calls)))
    → ((g' : Globals) × Served o g g'
          (rmdir name)
          (response remove_dir_error (o.os (rmdir name ∷ g.os_calls))))
      × ((w' : Library) × (remove_dir cpic handle (name ++ 0 ∷ []) (length name) w ≡ ok tt w')
          × Reports w' handle remove_dir_error (o.os (rmdir name ∷ g.os_calls)))
remove_dir-a_remove_dir o g cpic handle name w s found free fits asked answers =
    let reply = o.os (rmdir name ∷ g.os_calls) in
    let client =
      remove_dir-simple_response cpic handle name w s (errcode_of reply) 0
        (index_of remove_dir_error reply) found free fits answers in
    let s' = client.1 in
    let report =
      reported remove_dir_error reply client.0.rc s'.status s'.msg_category s'.msg_index
        remove_dir_error-Small client.3 client.5 client.6 in
    (
      remove_dir-Served o g name free fits asked,
      (client.0, client.2, (report.0, (s', client.4, report.1, report.2))),
    )

-- The same for `aftp_rename` with two names, and `rename` of these.
pub rename-a_rename :
    (o : Outside) (g : Globals) (cpic : Cpic) (handle : ℕ) (old new : Bytes) (w : Library)
    (s : Session)
    → Opens w handle s
    → NulFree old
    → NulFree new
    → length (rename_request old new) ≤ max_buffer_size
    → o.cpic (cmrcv g.conv_id ∷ g.calls) ≡ record { cm_rc = 0; bytes = rename_request old new }
    → Answers cpic s.conversation_id w.calls
        (rename_request old new)
        (response rename_error (o.os (Aftpd.rename old new ∷ g.os_calls)))
    → ((g' : Globals) × Served o g g'
          (Aftpd.rename old new)
          (response rename_error (o.os (Aftpd.rename old new ∷ g.os_calls))))
      × ((w' : Library) × (rename cpic handle
              (old ++ 0 ∷ [])
              (length old)
              (new ++ 0 ∷ [])
              (length new)
              w
            ≡ ok tt w')
          × Reports w' handle rename_error (o.os (Aftpd.rename old new ∷ g.os_calls)))
rename-a_rename o g cpic handle old new w s found free free' fits asked answers =
    let reply = o.os (Aftpd.rename old new ∷ g.os_calls) in
    let code = errcode_of reply in
    let index = index_of rename_error reply in
    let p : Param = (return_code, code % 256 ∷ []) in
    let client =
      rename_lem cpic handle old new w s p (error_part code 0 index) found free free' fits
        (simple_params-IsStatus code 0 index) answers in
    let c' = apply_params (simple_params code 0 index) client.0 in
    let outcome = simple_params-apply code 0 index client.0 client.2 in
    let report =
      reported rename_error reply c'.rc c'.session.status c'.session.msg_category
        c'.session.msg_index rename_error-Small outcome.0 outcome.1 outcome.2 in
    (
      rename-Served o g old new free free' fits asked,
      (
        stored handle w c',
        client.1,
        (report.0, (c'.session, stored-live w handle c', report.1, report.2)),
      ),
    )

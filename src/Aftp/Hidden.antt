-- ===== src/Aftp/Hidden.antt =====
-- `aftp_change_dir` and `aftp_delete` of libasuite/libaftp.c, which miss errors of the server.

use linux_sna.Base.{
  ℕ, ◌+◌, ◌%◌, ◌≤◌, ◌<◌, [], ◌∷◌, ◌++◌, ltb, ◌==◌, Bytes, length, length-append, ok, ◌≡◌, refl,
  arith, Bool-cases, inl, inr, false, ◌>>=◌, ◌>>◌,
}
use linux_sna.Asuite.{max_buffer_size, append, get_param_len}
use linux_sna.Asuite.Cpic.{fill}
use linux_sna.Asuite.Codes.{
  simple_response, rc_ok, return_code, change_dir_code, delete_code, filespec, handle_not_valid,
}
use linux_sna.Asuite.Cpic.{Cpic}
use linux_sna.Asuite.Emit.{encode, Emits, append_name, NulFree, written}
use linux_sna.Asuite.Respond.{status_bytes, simple_params}
use linux_sna.Aftp.{returns, Session, Library, Conn, stored, conn_of}
use linux_sna.Aftp.Request.{request, on_response, received_len, change_dir, delete}
use linux_sna.Aftp.Params.{HoldsAt}
use linux_sna.Aftp.Outcomes.{request_lem}
use linux_sna.Aftp.Request.{visit, delete_param, change_dir_param}
use linux_sna.Aftp.Outcomes.{heard_conn, typed}
use linux_sna.Aftp.Replies.{Answers, Opens, name_param, name_request, with_session-live}

simple_length :
    (errcode category index : ℕ)
    → length (status_bytes (simple_params errcode category index)) ≤ max_buffer_size
unfolding encode
simple_length errcode category index = elim (Bool-cases (errcode == 0)) [
  | inl y ↦ rw y (omega arith)
  | inr n ↦ rw n (omega arith)
]

-- The cells hold a status whose first parameter is the return code `e`.
abbrev IsCoded : Conn → ℕ → Type 0
IsCoded c e = HoldsAt c.session.rec.buffer 0 (0 ∷ simple_response ∷ 0 ∷ 4 ∷ return_code ∷ e ∷ [])

change_dir_param-stops :
    (e n : ℕ) (c : Conn)
    → n ≤ 6
    → IsCoded c e
    → on_response change_dir_param n c ≡ ok tt (record c { rc = rc_ok })
unfolding on_response visit change_dir_param get_param_len
change_dir_param-stops e n c short h =
    let ends : ltb 6 n ≡ false = ground arith in
    rw (h.1.0, h.1.1.0, h.1.1.1.0, h.1.1.1.1.0, ends) refl

coded_lem :
    (errcode category index : ℕ) (f : ℕ → ℕ)
    → HoldsAt
        (fill (status_bytes (simple_params errcode category index)) f)
        0
        (0 ∷ simple_response ∷ 0 ∷ 4 ∷ return_code ∷ errcode % 256 ∷ [])
unfolding encode
coded_lem errcode category index f = (refl, (refl, (refl, (refl, (refl, (refl, tt))))))

-- A name of at most six bytes without a NUL, a session that is open, and a server that answers
-- with `send_simple_response` of any error: `aftp_change_dir` gives AFTP_RC_OK, since its loop
-- over the parameters ends where the name would.
pub change_dir-misses :
    (cpic : Cpic) (handle : ℕ) (name : Bytes) (w : Library) (s : Session)
    (errcode category index : ℕ)
    → Opens w handle s
    → NulFree name
    → length name ≤ 6
    → Answers cpic s.conversation_id w.calls
        (name_request change_dir_code name)
        (status_bytes (simple_params errcode category index))
    → (w' : Library) × (change_dir cpic handle (name ++ 0 ∷ []) (length name) w ≡ ok tt w')
      × (w'.rc ≡ rc_ok)
unfolding change_dir
change_dir-misses cpic handle name w s errcode category index found free short answers =
    let params = append filespec (name ++ 0 ∷ []) (length name + 1) in
    let bytes = name_param filespec name in
    let lens = length-append name (0 ∷ []) in
    let small : change_dir_code < 256 = omega arith in
    let room : 2 + length bytes ≤ max_buffer_size = omega arith in
    let emits : Emits params bytes = append_name filespec name [] free in
    let reply = status_bytes (simple_params errcode category index) in
    let heard = heard_conn cpic change_dir_code params bytes small emits room (conn_of w s) reply in
    let c = record heard { rc = rc_ok } in
    let respond = on_response change_dir_param (length name) in
    let coded =
      coded_lem errcode category index (written (typed change_dir_code s.rec) bytes).buffer in
    (
      stored handle w c,
      with_session-live w handle handle_not_valid s (request cpic change_dir_code params respond) c
          found
          (rw
            (request_lem cpic change_dir_code params bytes small emits room (conn_of w s) reply
              (simple_length errcode category index) answers.0 answers.1 respond)
            (change_dir_param-stops (errcode % 256) (length name) heard short coded)),
      refl,
    )

-- The session with a simple response received.
abbrev filled : ℕ → ℕ → ℕ → (ℕ → ℕ) → Conn → Conn
filled errcode category index f c =
    let reply = status_bytes (simple_params errcode category index) in
    record c {
      session = record c.session {
        rec = record { position = length reply; buffer = fill reply f };
      };
    }

delete_param-ends :
    (errcode category index : ℕ) (f : ℕ → ℕ) (c : Conn)
    → (received_len >>= on_response delete_param) (filled errcode category index f c)
      ≡ ok tt (record (filled errcode category index f c) { rc = rc_ok })
unfolding on_response visit get_param_len encode
delete_param-ends errcode category index f c = elim (Bool-cases (errcode == 0)) [
  | inl y ↦ rw y refl
  | inr n ↦ rw n refl
]

-- A name without a NUL that fits into a record, a session that is open, and a server that answers
-- with `send_simple_response` of any error: `aftp_delete` gives AFTP_RC_OK.
pub delete-misses :
    (cpic : Cpic) (handle : ℕ) (name : Bytes) (w : Library) (s : Session)
    (errcode category index : ℕ)
    → Opens w handle s
    → NulFree name
    → length (name_request delete_code name) ≤ max_buffer_size
    → Answers cpic s.conversation_id w.calls
        (name_request delete_code name)
        (status_bytes (simple_params errcode category index))
    → (w' : Library) × (delete cpic handle (name ++ 0 ∷ []) (length name) w ≡ ok tt w')
      × (w'.rc ≡ rc_ok)
unfolding delete
delete-misses cpic handle name w s errcode category index found free fits answers =
    let params = append filespec (name ++ 0 ∷ []) (length name + 1) in
    let bytes = name_param filespec name in
    let small : delete_code < 256 = omega arith in
    let room : 2 + length bytes ≤ max_buffer_size = omega arith in
    let emits : Emits params bytes = append_name filespec name [] free in
    let reply = status_bytes (simple_params errcode category index) in
    let heard = heard_conn cpic delete_code params bytes small emits room (conn_of w s) reply in
    let c = record heard { rc = rc_ok } in
    let respond = received_len >>= (λ n. on_response delete_param n >> returns rc_ok) in
    (
      stored handle w c,
      with_session-live w handle handle_not_valid s (request cpic delete_code params respond) c
          found
          (rw
            (request_lem cpic delete_code params bytes small emits room (conn_of w s) reply
              (simple_length errcode category index) answers.0 answers.1 respond)
            (rw
              (delete_param-ends errcode category index
                (written (typed delete_code s.rec) bytes).buffer heard)
              refl)),
      refl,
    )

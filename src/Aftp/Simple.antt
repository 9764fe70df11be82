-- ===== src/Aftp/Simple.antt =====
-- Requests of libasuite/libaftp.c to a server that answers with `send_simple_response` of
-- libasuite/asuitecommon.c.

use linux_sna.Base.{
  ℕ, ◌+◌, ◌%◌, ◌≤◌, ◌<◌, List, [], ◌∷◌, ◌++◌, ◌==◌, if◌then◌else◌, Bytes, length, ok, ◌≡◌, refl,
  arith, All, ◌⊎◌, Bool-cases, inl, inr, true, ◌>>=◌, codes,
}
use linux_sna.Asuite.{max_buffer_size, append, strncpy}
use linux_sna.Asuite.Codes.{
  rc_ok, fail_fatal, return_code, category_index, primary_msg_key, remove_dir_code, filespec,
}
use linux_sna.Asuite.Cpic.{Cpic}
use linux_sna.Asuite.Emit.{Param, encode, Emits, append_name, NulFree, big_endian}
use linux_sna.Asuite.Respond.{status_bytes, simple_params}
use linux_sna.Aftp.{Session, Slot, Library, Conn, stored, conn_of}
use linux_sna.Aftp.Request.{request, on_response, status_param, received_len, remove_dir}
use linux_sna.Aftp.Params.{IsParam, apply_params, apply_param}
use linux_sna.Aftp.Outcomes.{status_request_lem, status_conn}
use linux_sna.Aftp.Replies.{Answers, Opens, IsStatus, name_param, name_request, with_session-live}

return_code-IsParam : (b : ℕ) → IsParam (return_code, b ∷ [])
return_code-IsParam b =
    ((λ e. omega arith), (λ e. absurd (omega arith)), (λ e. absurd (omega arith)))

category-IsParam :
    (category index : ℕ) → IsParam (category_index, big_endian category ++ big_endian index)
category-IsParam category index =
    ((λ e. absurd (omega arith)), (λ e. omega arith), (λ e. absurd (omega arith)))

message-IsParam : IsParam (primary_msg_key, codes "ERROR" ++ 0 ∷ [])
unfolding strncpy
message-IsParam = ((λ e. absurd (omega arith)), (λ e. absurd (omega arith)), (λ e. (_, refl)))

four_bytes : (category index : ℕ) → All (λ b. b < 256) (big_endian category ++ big_endian index)
four_bytes category index = (omega arith, (omega arith, (omega arith, (omega arith, tt))))

six_bytes : All (λ b. b < 256) (codes "ERROR" ++ 0 ∷ [])
six_bytes =
    (omega arith, (omega arith, (omega arith, (omega arith, (omega arith, (omega arith, tt))))))

pub simple_params-IsStatus :
    (errcode category index : ℕ) → IsStatus (simple_params errcode category index)
unfolding encode
simple_params-IsStatus errcode category index = elim (Bool-cases (errcode == 0)) [
  | inl y ↦ rw y (omega arith, ((omega arith, tt), tt), (return_code-IsParam (errcode % 256), tt))
  | inr n ↦ rw n (
    omega arith,
    ((omega arith, tt), (four_bytes category index, (six_bytes, tt))),
    (return_code-IsParam (errcode % 256), (category-IsParam category index, (message-IsParam, tt))),
  )
]

pub stored-live :
    (w : Library) (handle : ℕ) (c : Conn)
    → (stored handle w c).sessions handle ≡ Slot.live c.session
stored-live w handle c = let same : (handle == handle) ≡ true = ground arith in rw same refl

-- What the parameters of a simple response make of a session.
pub simple_params-apply :
    (errcode category index : ℕ) (c : Conn)
    → c.rc ≡ rc_ok
    → let c' = apply_params (simple_params errcode category index) c in
      (c'.rc ≡ (if errcode == 0 then rc_ok else fail_fatal))
      × (c'.session.status ≡ errcode % 256)
      × (((errcode == 0) ≡ true)
          ⊎ ((c'.session.msg_category ≡ category % 65536) × (c'.session.msg_index ≡ index % 65536)))
unfolding apply_params apply_param
simple_params-apply errcode category index c e = elim (Bool-cases (errcode == 0)) [
  | inl y ↦ rw y (e, refl, inl refl)
  | inr n ↦ rw n (refl, refl, inr (omega arith, omega arith))
]

-- A name without a NUL that fits into a record, a session that is open, and a server that
-- answers with `send_simple_response`: `aftp_remove_dir` gives AFTP_RC_OK if the error code is 0
-- and AFTP_RC_FAIL_FATAL if not, keeps the code's low byte as the status, and with an error the
-- low 16 bits of the category and of the index.
pub remove_dir-simple_response :
    (cpic : Cpic) (handle : ℕ) (name : Bytes) (w : Library) (s : Session)
    (errcode category index : ℕ)
    → Opens w handle s
    → NulFree name
    → length (name_request remove_dir_code name) ≤ max_buffer_size
    → Answers cpic s.conversation_id w.calls
        (name_request remove_dir_code name)
        (status_bytes (simple_params errcode category index))
    → (w' : Library) × (s' : Session) × (remove_dir cpic handle (name ++ 0 ∷ []) (length name) w
        ≡ ok tt w')
      × (w'.rc ≡ (if errcode == 0 then rc_ok else fail_fatal))
      × (w'.sessions handle ≡ Slot.live s')
      × (s'.status ≡ errcode % 256)
      × (((errcode == 0) ≡ true)
          ⊎ ((s'.msg_category ≡ category % 65536) × (s'.msg_index ≡ index % 65536)))
unfolding remove_dir apply_params
remove_dir-simple_response cpic handle name w s errcode category index found free fits answers =
    let params = append filespec (name ++ 0 ∷ []) (length name + 1) in
    let bytes = name_param filespec name in
    let small : remove_dir_code < 256 = omega arith in
    let room : 2 + length bytes ≤ max_buffer_size = omega arith in
    let status = simple_params-IsStatus errcode category index in
    let p : Param = (return_code, errcode % 256 ∷ []) in
    let ps : List Param =
      (if errcode == 0
        then []
        else (category_index, big_endian category ++ big_endian index)
          ∷ (primary_msg_key, codes "ERROR" ++ 0 ∷ [])
          ∷ []) in
    let emits : Emits params bytes = append_name filespec name [] free in
    let c =
      status_conn cpic remove_dir_code params bytes small emits room (conn_of w s) p ps status.0
        status.1 status.2 answers.0 answers.1 in
    let c' = apply_params (p ∷ ps) c in
    let outcome = simple_params-apply errcode category index c refl in
    (
      stored handle w c',
      c'.session,
      with_session-live w handle fail_fatal s
          (request cpic remove_dir_code params (received_len >>= on_response status_param)) c' found
          (status_request_lem cpic remove_dir_code params bytes small emits room (conn_of w s) p ps
            status.0 status.1 status.2 answers.0 answers.1),
      outcome.0,
      stored-live w handle c',
      outcome.1,
      outcome.2,
    )

-- ===== src/Aftp/Replies.antt =====
-- `aftp_rename` of libasuite/libaftp.c, and the server's side of an exchange as a parameter.

use linux_sna.Base.{
  ℕ, ◌+◌, ◌≤◌, ◌<◌, List, [], ◌∷◌, ◌++◌, ltb, Bytes, length, Cmd, ok, ◌≡◌, refl, arith, All, true,
  ◌>>=◌, ◌>>◌,
}
use linux_sna.Asuite.{max_buffer_size, append}
use linux_sna.Asuite.Codes.{rc_ok, fail_fatal, rename_code, filespec, new_filespec}
use linux_sna.Asuite.Cpic.{Call, cmsend, cmrcv, Cpic}
use linux_sna.Asuite.Emit.{Param, encode_param, Emits, then-Emits, append_name, NulFree}
use linux_sna.Asuite.Respond.{status_bytes}
use linux_sna.Aftp.{Session, Slot, Library, Conn, with_session, stored, conn_of}
use linux_sna.Aftp.Request.{request, on_response, status_param, received_len, rename}
use linux_sna.Aftp.Params.{IsParam, apply_params}
use linux_sna.Aftp.Outcomes.{status_request_lem, status_conn}

-- After the earlier calls, `cmsend` of the request succeeds, and then `cmrcv` gives the reply.
abbrev pub Answers : Cpic → Bytes → List Call → Bytes → Bytes → Type 0
Answers cpic conv_id calls asked reply =
    ((cpic (cmsend conv_id asked ∷ calls)).cm_rc ≡ 0)
    × (cpic (cmrcv conv_id ∷ cmsend conv_id asked ∷ calls) ≡ record { cm_rc = 0; bytes = reply })

-- A handle of `aftp_create` whose session was not released.
abbrev pub Opens : Library → ℕ → Session → Type 0
Opens w handle s = (handle < 20) × (w.sessions handle ≡ Slot.live s)

-- The parameters fit into a record, and each is as its key asks for.
abbrev pub IsStatus : List Param → Type 0
IsStatus params =
    (length (status_bytes params) ≤ max_buffer_size)
    × All (λ p. All (λ b. b < 256) p.1) params
    × All IsParam params

abbrev pub name_param : ℕ → Bytes → Bytes
name_param key name = encode_param (key, name ++ 0 ∷ [])

-- The request with one name, and that with two.
abbrev pub name_request : ℕ → Bytes → Bytes
name_request code name = 0 ∷ code ∷ name_param filespec name

abbrev pub rename_request : Bytes → Bytes → Bytes
rename_request old new = 0 ∷ rename_code ∷ (name_param filespec old ++ name_param new_filespec new)

pub with_session-live :
    (w : Library) (handle invalid : ℕ) (s : Session) (m : Cmd Conn (Unit {0})) (c : Conn)
    → Opens w handle s
    → m (conn_of w s) ≡ ok tt c
    → with_session handle invalid m w ≡ ok tt (stored handle w c)
unfolding with_session
with_session-live w handle invalid s m c found e =
    let small : ltb handle 20 ≡ true = ground arith in rw (small, found.1, e) refl

-- Two names of files without NULs that fit into a record, a session that is open, and a server
-- that answers with a status of at least one parameter: `aftp_rename` sends the request with both
-- names, receives the response, and returns with the session and `*rc` as the parameters, one
-- after the other, change them from AFTP_RC_OK.
pub rename_lem :
    (cpic : Cpic) (handle : ℕ) (old new : Bytes) (w : Library) (s : Session) (p : Param)
    (ps : List Param)
    → Opens w handle s
    → NulFree old
    → NulFree new
    → length (rename_request old new) ≤ max_buffer_size
    → IsStatus (p ∷ ps)
    → Answers cpic s.conversation_id w.calls (rename_request old new) (status_bytes (p ∷ ps))
    → (c : Conn) × (rename cpic handle (old ++ 0 ∷ []) (length old) (new ++ 0 ∷ []) (length new) w
        ≡ ok tt (stored handle w (apply_params (p ∷ ps) c)))
      × (c.rc ≡ rc_ok)
      × (c.calls
          ≡ cmrcv s.conversation_id ∷ cmsend s.conversation_id (rename_request old new) ∷ w.calls)
unfolding rename
rename_lem cpic handle old new w s p ps found free_old free_new fits status answers =
    let params =
      append filespec (old ++ 0 ∷ []) (length old + 1)
      >> append new_filespec (new ++ 0 ∷ []) (length new + 1) in
    let bytes = name_param filespec old ++ name_param new_filespec new in
    let emits : Emits params bytes =
      then-Emits (append filespec (old ++ 0 ∷ []) (length old + 1))
        (append new_filespec (new ++ 0 ∷ []) (length new + 1)) (name_param filespec old)
        (name_param new_filespec new) (append_name filespec old [] free_old)
        (append_name new_filespec new [] free_new) in
    let small : rename_code < 256 = omega arith in
    let room : 2 + length bytes ≤ max_buffer_size = omega arith in
    let c =
      status_conn cpic rename_code params bytes small emits room (conn_of w s) p ps status.0
        status.1 status.2 answers.0 answers.1 in
    (
      c,
      with_session-live w handle fail_fatal s
          (request cpic rename_code params (received_len >>= on_response status_param))
          (apply_params (p ∷ ps) c) found
          (status_request_lem cpic rename_code params bytes small emits room (conn_of w s) p ps
            status.0 status.1 status.2 answers.0 answers.1),
      refl,
      refl,
    )

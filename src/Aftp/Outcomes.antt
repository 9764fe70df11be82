-- ===== src/Aftp/Outcomes.antt =====
-- What the requests of libasuite/libaftp.c report of the server's response.

use linux_sna.Base.{
  ℕ, zero, suc, ◌+◌, ◌*◌, ◌/◌, ◌%◌, ◌≤◌, ◌<◌, List, [], ◌∷◌, Bytes, length, take, Cmd, ok, ◌≡◌,
  refl, arith, All, ◌>>=◌,
}
use linux_sna.Asuite.{AsuiteRecord, max_buffer_size, sent, update}
use linux_sna.Asuite.Codes.{rc_ok}
use linux_sna.Asuite.Cpic.{Call, cmsend, cmrcv, Cpic, send_asuiterecord, fill}
use linux_sna.Asuite.Emit.{Param, Emits, written, sent-written}
use linux_sna.Asuite.Respond.{status_bytes}
use linux_sna.Aftp.{Conn}
use linux_sna.Aftp.Request.{request, send_request, on_response, status_param, received_len}
use linux_sna.Aftp.Params.{fill-HoldsAt, IsParam, apply_params, visit_lem}

pub take_all : (n : ℕ) (xs : Bytes) → length xs ≤ n → take n xs ≡ xs
take_all zero [] h = refl
take_all zero (x ∷ xs) h = absurd (omega arith)
take_all (suc n) [] h = refl
take_all (suc n) (x ∷ xs) h = rw (take_all n xs (omega arith)) refl

-- The record after `asuiterecord_clear` and `asuiterecord_settype`.
abbrev pub typed : ℕ → AsuiteRecord → AsuiteRecord
typed code r = record { position = 2; buffer = update (update r.buffer 0 0) 1 code }

swapped_halves :
    (code : ℕ)
    → code < 256
    → ((code % 256 * 256 + code % 65536 / 256) % 256 ≡ 0)
      × ((code % 256 * 256 + code % 65536 / 256) / 256 ≡ code)
swapped_halves code lt = (omega arith, omega arith)

module _ (cpic : Cpic) (code : ℕ) (params : Cmd AsuiteRecord (Unit {0})) (bytes : Bytes)
    (small : code < 256) (emits : Emits params bytes)
    (fits : 2 + length bytes ≤ max_buffer_size) where
  -- The call that sends the request, after the earlier ones.
  abbrev pub asked : Conn → List Call
  asked c = cmsend c.session.conversation_id (0 ∷ code ∷ bytes) ∷ c.calls

  abbrev pub heard : Conn → List Call
  heard c = cmrcv c.session.conversation_id ∷ asked c

  abbrev pub sent_conn : Conn → Conn
  sent_conn c = record c {
    session = record c.session { rec = written (typed code c.session.rec) bytes };
    calls = asked c;
  }

  pub send_request_lem :
      (c : Conn) → send_request cpic code params c ≡ ok (cpic (asked c)).cm_rc (sent_conn c)
  unfolding send_request send_asuiterecord sent
  send_request_lem c =
      let halves = swapped_halves code small in
      rw (halves.0, halves.1, emits (typed code c.session.rec) fits)
        (rw (sent-written (typed code c.session.rec) bytes) refl)

  -- The session with the response in its record.
  abbrev pub heard_conn : Conn → Bytes → Conn
  heard_conn c reply = record c {
    session = record c.session {
      rec = record {
        position = length reply;
        buffer = fill reply (written (typed code c.session.rec) bytes).buffer;
      };
    };
    calls = heard c;
  }

  module _ (c : Conn) (reply : Bytes) (short : length reply ≤ max_buffer_size)
      (sends : (cpic (asked c)).cm_rc ≡ 0)
      (receives : cpic (heard c) ≡ record { cm_rc = 0; bytes = reply }) where
    pub request_lem :
        (respond : Cmd Conn (Unit {0}))
        → request cpic code params respond c ≡ respond (heard_conn c reply)
    unfolding request
    request_lem respond =
        rw (send_request_lem c, sends) (rw (receives, take_all max_buffer_size reply short) refl)

  -- The response has parameters, each as its key asks for.
  module _ (c : Conn) (p : Param) (ps : List Param)
      (short : length (status_bytes (p ∷ ps)) ≤ max_buffer_size)
      (bytes_small : All (λ q. All (λ b. b < 256) q.1) (p ∷ ps)) (good : All IsParam (p ∷ ps))
      (sends : (cpic (asked c)).cm_rc ≡ 0)
      (receives : cpic (heard c) ≡ record { cm_rc = 0; bytes = status_bytes (p ∷ ps) }) where
    abbrev pub status_conn : Conn
    status_conn = record (heard_conn c (status_bytes (p ∷ ps))) { rc = rc_ok }

    status_lem :
        (received_len >>= on_response status_param) (heard_conn c (status_bytes (p ∷ ps)))
        ≡ ok tt (apply_params (p ∷ ps) status_conn)
    unfolding on_response
    status_lem =
        let holds =
          fill-HoldsAt (status_bytes (p ∷ ps)) (written (typed code c.session.rec) bytes).buffer in
        visit_lem p ps (length (status_bytes (p ∷ ps))) (suc (length (status_bytes (p ∷ ps)))) 2
          status_conn holds.1.1 bytes_small good (omega arith) short (omega arith)

    pub status_request_lem :
        request cpic code params (received_len >>= on_response status_param) c
        ≡ ok tt (apply_params (p ∷ ps) status_conn)
    status_request_lem =
        rw
          (request_lem c (status_bytes (p ∷ ps)) short sends receives
            (received_len >>= on_response status_param))
          status_lem

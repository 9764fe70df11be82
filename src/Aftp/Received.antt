-- ===== src/Aftp/Received.antt =====
-- The rounds of the loop of `aftp_receive_file`.
use linux_sna.Base.{
  ℕ, zero, suc, ◌+◌, ◌≤◌, List, [], ◌∷◌, ltb, if◌then◌else◌, Bytes, length, length-append, get_or,
  Cmd, ok, pure, ◌≡◌, refl, arith, false, ℤ, Bool-cases, inl, inr,
}
use linux_sna.Asuite.{AsuiteRecord, max_buffer_size, get_param_len, get_key, peek}
use linux_sna.Asuite.Codes.{rc_ok}
use linux_sna.Asuite.Cpic.{Cpic, cmrcv, fill, get_asuiterecord}
use linux_sna.Asuite.Emit.{Param, encode_param, encode}
use linux_sna.Aftp.{Conn, on_record}
use linux_sna.Aftp.Params.{HoldsAt, HoldsAt-append, get_param_len-encode, peek_lem, less}
use linux_sna.Aftp.Outcomes.{take_all}
use linux_sna.Aftp.Request.{visit, get_response}
use linux_sna.Aftp.Receive.{Receiver, more, finished, receive_loop, on_packet}
use linux_sna.Aftpd.{Os}

on_record-read :
    {A : Type 0} (m : Cmd AsuiteRecord A) (a : A) (c : Conn)
    → m c.session.rec ≡ ok a c.session.rec
    → on_record m c ≡ ok a c
on_record-read m a c e = rw e refl

abbrev pub ignore : ℕ → ℕ → Cmd Conn (Unit {0})
ignore key curpos = pure tt

ignore-step :
    (p : Param) (limit fuel i : ℕ) (c : Conn)
    → HoldsAt c.session.rec.buffer i (encode_param p)
    → i + length (encode_param p) ≤ max_buffer_size
    → visit ignore limit (suc fuel) i c ≡ (
        if ltb (i + (length p.1 + 3)) limit
        then visit ignore limit fuel (i + (length p.1 + 3)) c
        else ok tt c)
unfolding visit
ignore-step p limit fuel i c h fits =
    let two : i + 2 ≡ suc (suc i) = omega arith in
    let key : peek (i + 2) c.session.rec ≡ ok p.0 c.session.rec =
      rw two (peek_lem (suc (suc i)) p.0 c.session.rec h.1.1.0 (omega arith)) in
    rw
      (
        on_record-read (get_param_len i) (length p.1 + 3) c
            (get_param_len-encode i p c.session.rec h fits),
        on_record-read (get_key i) p.0 c key,
      )
      (elim (Bool-cases (ltb (i + (length p.1 + 3)) limit)) [
        | inl y ↦ rw y refl
        | inr n ↦ rw n refl
      ])

-- The loop over parameters of which none is looked at ends and changes nothing.
pub visit-ignore :
    (p : Param) (params : List Param) (limit fuel i : ℕ) (c : Conn)
    → HoldsAt c.session.rec.buffer i (encode (p ∷ params))
    → i + length (encode (p ∷ params)) ≡ limit
    → limit ≤ max_buffer_size
    → length (encode (p ∷ params)) ≤ fuel
    → visit ignore limit fuel i c ≡ ok tt c
unfolding encode
visit-ignore p params limit zero i c h ends fits enough = absurd (omega arith)
visit-ignore p [] limit (suc fuel) i c h ends fits enough =
    let lens = length-append (encode_param p) [] in
    let here = (HoldsAt-append c.session.rec.buffer i (encode_param p) [] h).0 in
    let last : ltb (i + (length p.1 + 3)) limit ≡ false = ground arith in
    rw (ignore-step p limit fuel i c here (omega arith), last) refl
visit-ignore p (q ∷ params) limit (suc fuel) i c h ends fits enough =
    let lens = length-append (encode_param p) (encode (q ∷ params)) in
    let both = HoldsAt-append c.session.rec.buffer i (encode_param p) (encode (q ∷ params)) h in
    let at : i + (length p.1 + 3) ≡ i + length (encode_param p) = omega arith in
    let there : HoldsAt c.session.rec.buffer (i + (length p.1 + 3)) (encode (q ∷ params)) =
      rw at both.1 in
    let more_left = length-append (encode_param q) (encode params) in
    rw
      (
        ignore-step p limit fuel i c both.0 (omega arith),
        less (i + (length p.1 + 3)) limit (omega arith),
      )
      (visit-ignore q params limit fuel (i + (length p.1 + 3)) c there (omega arith) fits
        (omega arith))

-- The session with a record that has arrived.
abbrev pub heard : Receiver → Bytes → Receiver
heard e bytes = record e {
  conn = record e.conn {
    session = record e.conn.session {
      rec = record { position = length bytes; buffer = fill bytes e.conn.session.rec.buffer };
    };
    calls = cmrcv e.conn.session.conversation_id ∷ e.conn.calls;
    rc = rc_ok;
  };
}

abbrev pub with_rc_ok : Receiver → Receiver
with_rc_ok e = record e { conn = record e.conn { rc = rc_ok } }

module _ (cpic : Cpic) (os : Os) (fd : ℤ) (fuel code : ℕ) (bytes : Bytes) (e e' : Receiver)
    (fits : length bytes ≤ max_buffer_size)
    (is_code : get_or bytes 1 (e.conn.session.rec.buffer 1) ≡ code)
    (arrives : cpic (cmrcv e.conn.session.conversation_id ∷ e.conn.calls)
      ≡ record { cm_rc = 0; bytes = bytes }) where
  pub receive_loop-more :
      on_packet cpic os fd (length bytes) code (heard e bytes) ≡ ok more e'
      → receive_loop cpic os fd (suc fuel) e ≡ receive_loop cpic os fd fuel (with_rc_ok e')
  unfolding receive_loop get_response get_asuiterecord
  receive_loop-more done =
      rw arrives (rw (take_all max_buffer_size bytes fits, is_code, done) (rw arrives refl))

  pub receive_loop-finished :
      on_packet cpic os fd (length bytes) code (heard e bytes) ≡ ok finished e'
      → receive_loop cpic os fd (suc fuel) e ≡ ok tt (with_rc_ok e')
  unfolding receive_loop get_response get_asuiterecord
  receive_loop-finished done =
      rw arrives (rw (take_all max_buffer_size bytes fits, is_code, done) (rw arrives refl))

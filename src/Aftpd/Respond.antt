-- ===== src/Aftpd/Respond.antt =====
-- What asuite/aftpd.c does with the names of a request and with the result of a call.
use linux_sna.Base.{
  ℕ, suc, ◌+◌, ◌≤◌, [], ◌∷◌, ◌++◌, ltb, if◌then◌else◌, Bytes, length, length-append, some, Cmd, ok,
  ◌≡◌, refl, arith, true, Bool-cases, inl, inr,
}
use linux_sna.Asuite.{AsuiteRecord, max_buffer_size}
use linux_sna.Asuite.Codes.{filespec, new_filespec, fail_input_error, rc_ok}
use linux_sna.Asuite.Cpic.{Cpic, cmsend}
use linux_sna.Asuite.Emit.{encode_param, NulFree}
use linux_sna.Asuite.Respond.{status_bytes, simple_params, send_simple_response_lem}
use linux_sna.Aftp.Params.{HoldsAt, HoldsAt-append, less}
use linux_sna.Aftpd.{
  Errno, OsReply, Globals, no_locals, with_params, needs, negative, respond, on_result,
}
use linux_sna.Aftpd.Names.{one_name, two_names, set_filespec, set_newfilespec}
use linux_sna.Aftpd.Parse.{named, param_string-name, parse-step, parse-last}

-- The error code and the index of the response to a call of the system
abbrev pub errcode_of : OsReply → ℕ
errcode_of reply = if negative reply.result then fail_input_error else rc_ok

abbrev pub index_of : (Errno → ℕ) → OsReply → ℕ
index_of index reply = if negative reply.result then index reply.errno else 0

abbrev pub response : (Errno → ℕ) → OsReply → Bytes
response index reply = status_bytes (simple_params (errcode_of reply) 0 (index_of index reply))

respond_lem :
    (cpic : Cpic) (fresh : AsuiteRecord) (errcode index : ℕ) (g : Globals)
    → respond cpic fresh errcode index g
      ≡ ok tt (record g {
        calls = cmsend g.conv_id (status_bytes (simple_params errcode 0 index)) ∷ g.calls;
      })
unfolding respond
respond_lem cpic fresh errcode index g =
    let done =
      send_simple_response_lem cpic g.conv_id errcode 0 index
        (record { rec = fresh; calls = g.calls }) in
    rw (done.1, done.2) refl

-- One call: the response to the system's answer is sent.
pub on_result_lem :
    (cpic : Cpic) (fresh : AsuiteRecord) (index : Errno → ℕ) (reply : OsReply) (g : Globals)
    → on_result cpic fresh index reply g
      ≡ ok tt (record g { calls = cmsend g.conv_id (response index reply) ∷ g.calls })
unfolding on_result
on_result_lem cpic fresh index reply g = elim (Bool-cases (negative reply.result)) [
  | inl y ↦ rw y (respond_lem cpic fresh fail_input_error (index reply.errno) g)
  | inr n ↦ rw n (respond_lem cpic fresh rc_ok 0 g)
]

-- On a request with one name the rest of the function has that name.
pub one_name_lem :
    (cpic : Cpic) (fresh : AsuiteRecord) (name : Bytes) (g : Globals)
    (body : Bytes → Cmd Globals (Unit {0}))
    → NulFree name
    → HoldsAt g.rec.buffer g.curpos (encode_param (named filespec name))
    → g.curpos + length (encode_param (named filespec name)) ≡ g.returned_length
    → g.returned_length ≤ max_buffer_size
    → with_params (one_name cpic fresh) (λ vars. needs vars.filespec_ptr body) g
      ≡ body name (record g { curpos = g.curpos + (length (name ++ 0 ∷ []) + 3) })
unfolding with_params one_name set_filespec
one_name_lem cpic fresh name g body free h ends fits =
    let taken : one_name cpic fresh filespec no_locals g
        ≡ ok (some (record no_locals { filespec_ptr = some name })) g =
      rw (param_string-name filespec name g free h (omega arith)) refl in
    rw
      (parse-last (one_name cpic fresh) (named filespec name) (suc g.returned_length) no_locals
        (record no_locals { filespec_ptr = some name }) g h (omega arith) taken (omega arith)
        (omega arith))
      refl

-- On a request with two names the rest of the function has both.
pub two_names_lem :
    (cpic : Cpic) (fresh : AsuiteRecord) (name new : Bytes) (g : Globals)
    (body : Bytes → Bytes → Cmd Globals (Unit {0}))
    → NulFree name
    → NulFree new
    → HoldsAt g.rec.buffer g.curpos
        (encode_param (named filespec name) ++ encode_param (named new_filespec new))
    → g.curpos
        + length (encode_param (named filespec name) ++ encode_param (named new_filespec new))
      ≡ g.returned_length
    → g.returned_length ≤ max_buffer_size
    → with_params
        (two_names cpic fresh)
        (λ vars. needs vars.filespec_ptr (λ a. needs vars.newfilespec_ptr (λ b. body a b)))
        g
      ≡ body name new (record g {
        curpos = g.curpos + (length (name ++ 0 ∷ []) + 3) + (length (new ++ 0 ∷ []) + 3);
      })
unfolding with_params two_names set_filespec set_newfilespec
two_names_lem cpic fresh name new g body free free' h ends fits =
    let first = encode_param (named filespec name) in
    let second = encode_param (named new_filespec new) in
    let lens = length-append first second in
    let both = HoldsAt-append g.rec.buffer g.curpos first second h in
    let at : g.curpos + (length (name ++ 0 ∷ []) + 3) ≡ g.curpos + length first = omega arith in
    let g1 = record g { curpos = g.curpos + (length (name ++ 0 ∷ []) + 3) } in
    let there : HoldsAt g1.rec.buffer g1.curpos second = rw at both.1 in
    let vars1 = record no_locals { filespec_ptr = some name } in
    let vars2 = record vars1 { newfilespec_ptr = some new } in
    let more : ltb (g.curpos + (length (name ++ 0 ∷ []) + 3)) g.returned_length ≡ true =
      less _ _ (omega arith) in
    let taken1 : two_names cpic fresh filespec no_locals g ≡ ok (some vars1) g =
      rw (param_string-name filespec name g free both.0 (omega arith)) refl in
    let taken2 : two_names cpic fresh new_filespec vars1 g1 ≡ ok (some vars2) g1 =
      rw (param_string-name new_filespec new g1 free' there (omega arith)) refl in
    rw
      (
        parse-step (two_names cpic fresh) (named filespec name) g.returned_length no_locals vars1 g
            both.0 (omega arith) taken1,
        more,
        parse-last (two_names cpic fresh) (named new_filespec new) g.returned_length vars1 vars2 g1
            there (omega arith) taken2 (omega arith) (omega arith),
      )
      refl

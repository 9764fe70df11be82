-- ===== src/Asuite/Cpic.antt =====
-- libasuite/asuitecommon.c over CPI-C. The calls of CPI-C are a parameter: what each answers, by
-- the calls made so far, the latest first.
use linux_sna.Base.{
  ℕ, List, [], ◌∷◌, ◌==◌, if◌then◌else◌, Bytes, length, take, get_or, codes, Cmd, Outcome, ok, exit,
  abort, fault, out_of_fuel, pure, ◌>>◌, ◌++◌, ◌%◌,
}
use linux_sna.Asuite.{
  AsuiteRecord, max_buffer_size, clear, settype, append, append_char, append_twobyte, sent,
}
use linux_sna.Asuite.Codes.{simple_response, return_code, category_index, primary_msg_key}

-- A call with the arguments that it reads. The first is the identifier of the conversation, but
-- for `cminit`, which has the symbolic destination.
pub data Call : Type 0 where
  cmaccp : Call
  cminit cmallc cmrcv cmdeal cmepln : Bytes → Call
  cmspln cmsmn cmstpn cmsend : Bytes → Bytes → Call

-- The return code, and the bytes that `cmrcv` receives, the identifier that `cminit` and `cmaccp`
-- give, or the name that `cmepln` gives.
pub record Reply : Type 0 where
  pub cm_rc : ℕ
  pub bytes : Bytes

abbrev pub Cpic : Type 0
Cpic = List Call → Reply

-- A record and the calls made so far.
pub record Link : Type 0 where
  pub rec : AsuiteRecord
  pub calls : List Call

abbrev pub in_link : {A : Type 0} → Link → Outcome AsuiteRecord A → Outcome Link A
in_link l (ok a r) = ok a (record l { rec = r })
in_link l (exit n) = exit n
in_link l abort = abort
in_link l fault = fault
in_link l out_of_fuel = out_of_fuel

abbrev pub on_rec : {A : Type 0} → Cmd AsuiteRecord A → Cmd Link A
on_rec m l = in_link l (m l.rec)

-- The cells with what `cmrcv` stores.
abbrev pub fill : Bytes → (ℕ → ℕ) → ℕ → ℕ
fill bytes f i = get_or bytes i (f i)

unfoldable pub error_params : ℕ → ℕ → ℕ → Cmd AsuiteRecord (Unit {0})
unfolding append_twobyte append
error_params errcode category index = if errcode == 0 then pure tt else do
  append_twobyte category_index 2 (category ∷ index ∷ [])
  append primary_msg_key (codes "ERROR" ++ 0 ∷ []) 6

-- What `send_simple_response` does with its record.
unfoldable pub simple_record : ℕ → ℕ → ℕ → Cmd AsuiteRecord (Unit {0})
unfolding settype append_char error_params
simple_record errcode category index = do
  clear
  settype simple_response
  append_char return_code (errcode % 256)
  error_params errcode category index

module _ (cpic : Cpic) where
  -- `send_asuiterecord`
  unfoldable pub send_asuiterecord : Bytes → Cmd Link ℕ
  unfolding sent
  send_asuiterecord conv_id l =
      let calls = cmsend conv_id (sent l.rec) ∷ l.calls in
      ok (cpic calls).cm_rc (record l { calls = calls })

  received : AsuiteRecord → Reply → AsuiteRecord
  received r reply =
      let bytes = take max_buffer_size reply.bytes in
      if reply.cm_rc == 0
      then record r { position = length bytes; buffer = fill bytes r.buffer }
      else r

  -- `get_asuiterecord`; nothing is received when the call fails
  unfoldable pub get_asuiterecord : Bytes → Cmd Link ℕ
  unfolding received
  get_asuiterecord conv_id l =
      let calls = cmrcv conv_id ∷ l.calls in
      ok (cpic calls).cm_rc (record { rec = received l.rec (cpic calls); calls = calls })

  -- `send_simple_response`, with what `malloc` leaves in the new record
  unfoldable pub send_simple_response : Bytes → ℕ → ℕ → ℕ → Cmd Link (Unit {0})
  unfolding simple_record send_asuiterecord
  send_simple_response conv_id errcode category index = do
    on_rec (simple_record errcode category index)
    send_asuiterecord conv_id
    pure tt

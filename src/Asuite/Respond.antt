-- ===== src/Asuite/Respond.antt =====
-- The bytes of a simple response, as `send_simple_response` sends it.
use linux_sna.Base.{
  ℕ, ◌%◌, List, [], ◌∷◌, ◌++◌, ◌==◌, if◌then◌else◌, Bytes, codes, ok, ◌≡◌, refl, Bool-cases, inl,
  inr,
}
use linux_sna.Asuite.{
  AsuiteRecord, settype, append, append_char, append_twobyte, put_twobytes, sent,
}
use linux_sna.Asuite.Codes.{return_code, category_index, primary_msg_key, simple_response}
use linux_sna.Asuite.Cpic.{
  cmsend, Cpic, Link, simple_record, error_params, send_simple_response, send_asuiterecord,
}
use linux_sna.Asuite.Emit.{Param, encode, big_endian, htons-bytes}

-- The parameters behind the return code
abbrev pub error_part : ℕ → ℕ → ℕ → List Param
error_part errcode category index =
    if errcode == 0
    then []
    else (category_index, big_endian category ++ big_endian index)
      ∷ (primary_msg_key, codes "ERROR" ++ 0 ∷ [])
      ∷ []

-- The parameters of the response to an error, or to none.
abbrev pub simple_params : ℕ → ℕ → ℕ → List Param
simple_params errcode category index =
    (return_code, errcode % 256 ∷ []) ∷ error_part errcode category index

-- A status record with these parameters.
abbrev pub status_bytes : List Param → Bytes
status_bytes params = 0 ∷ simple_response ∷ encode params

pub simple_record_lem :
    (errcode category index : ℕ) (r : AsuiteRecord)
    → (r' : AsuiteRecord) × (simple_record errcode category index r ≡ ok tt r')
      × (sent r' ≡ status_bytes (simple_params errcode category index))
unfolding simple_record error_params settype append_char append append_twobyte put_twobytes sent
    encode
simple_record_lem errcode category index r = elim (Bool-cases (errcode == 0)) [
  | inl y ↦ rw y (_, refl, refl)
  | inr n ↦
      let c = htons-bytes category in
      let i = htons-bytes index in rw n (_, refl, rw (c.0, c.1, i.0, i.1) refl)
]

-- `send_simple_response` makes one call, which sends a status record: the return code, and
-- unless it is 0 the category and the index, each two bytes, and the message ERROR.
pub send_simple_response_lem :
    (cpic : Cpic) (conv_id : Bytes) (errcode category index : ℕ) (l : Link)
    → (l' : Link) × (send_simple_response cpic conv_id errcode category index l ≡ ok tt l')
      × (l'.calls ≡ cmsend conv_id (status_bytes (simple_params errcode category index)) ∷ l.calls)
unfolding send_simple_response send_asuiterecord
send_simple_response_lem cpic conv_id errcode category index l =
    let done = simple_record_lem errcode category index l.rec in rw done.1 (_, refl, rw done.2 refl)

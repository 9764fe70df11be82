-- ===== src/Aftp/Request.antt =====
-- libasuite/libaftp.c: a request, the response to it, and the loop over the response's parameters.
use mathlib.Core.Option
use linux_sna.Base.{
  ℕ, zero, suc, ◌+◌, [], ◌∷◌, ltb, ◌==◌, if◌then◌else◌, Bytes, Cmd, ok, fault, out_of_fuel, pure,
  ◌>>=◌, ◌>>◌, Option, none, some, length,
}
use linux_sna.Asuite.{
  AsuiteRecord, peek, clear, settype, append, get_cat_index, get_param_len, get_major_code,
  get_received_len, get_key, zeros,
}
use linux_sna.Asuite.Codes.{
  simple_response, query_system, change_dir_code, query_dir, create_dir_code, remove_dir_code,
  delete_code, rename_code, return_code, category_index, primary_msg_key, filespec, new_filespec,
  system_info, rc_ok, fail_fatal, handle_not_valid,
}
use linux_sna.Asuite.Cpic.{Cpic, on_rec, send_asuiterecord, get_asuiterecord}
use linux_sna.Aftp.{Conn, Library, on_link, on_record, returns, change, with_session}

-- `strncpy` of `n` bytes from the record's buffer at `i`: what it writes.
unfoldable pub copy_from : ℕ → ℕ → Cmd AsuiteRecord Bytes
copy_from zero i = pure []
copy_from (suc n) i = do
  c ← peek i
  if c == 0 then pure (zeros (suc n)) else do rest ← copy_from n (suc i); pure (c ∷ rest)

-- The bytes before the first NUL, if there is one.
unfoldable pub before_nul : Bytes → Option Bytes
before_nul [] = none
before_nul (c ∷ bytes) =
    let rest = before_nul bytes in
    if c == 0 then some [] else Option.map (λ (s : Bytes). c ∷ s) rest

-- MSG_BUFFER_LENGTH
abbrev pub msg_buffer_length : ℕ
msg_buffer_length = 512

-- `set_primary_msg`, the 512 bytes that it writes
unfoldable pub set_primary_msg : ℕ → Cmd Conn (Unit {0})
unfolding copy_from
set_primary_msg curpos = do
  msg ← on_record (copy_from msg_buffer_length (curpos + 3))
  change λ s. record s { primary_msg = msg }

-- The loop over the parameters up to `limit`, with what is done for a key at a position. A
-- parameter of length 0 is never left, and then the fuel runs out.
unfoldable pub visit : (ℕ → ℕ → Cmd Conn (Unit {0})) → ℕ → ℕ → ℕ → Cmd Conn (Unit {0})
unfolding get_param_len
visit param limit zero curpos = λ c. out_of_fuel
visit param limit (suc fuel) curpos = do
  param_len ← on_record (get_param_len curpos)
  key ← on_record (get_key curpos)
  param key curpos
  if ltb (curpos + param_len) limit then visit param limit fuel (curpos + param_len) else pure tt

-- `switch(major_code)`
unfoldable pub on_response : (ℕ → ℕ → Cmd Conn (Unit {0})) → ℕ → Cmd Conn (Unit {0})
unfolding visit
on_response param limit = do
  major_code ← on_record get_major_code
  returns rc_ok
  if major_code == simple_response then visit param limit (suc limit) 2 else pure tt

-- *rc = AFTP_RC_FAIL_FATAL with the category and the index
unfoldable pub store_category : ℕ → Cmd Conn (Unit {0})
unfolding get_cat_index
store_category curpos = do
  returns fail_fatal
  category ← on_record (get_cat_index (curpos + 3))
  change λ s. record s { msg_category = category }
  index ← on_record (get_cat_index (curpos + 5))
  change λ s. record s { msg_index = index }

unfoldable pub store_status : ℕ → Cmd Conn (Unit {0})
store_status curpos = do
  status ← on_record (peek (curpos + 3))
  change λ s. record s { status = status }

-- `switch(key)` of `aftp_change_dir`, whose second case falls through to the third
unfoldable pub change_dir_param : ℕ → ℕ → Cmd Conn (Unit {0})
unfolding store_category set_primary_msg
change_dir_param key curpos =
    if key == category_index
    then store_category curpos >> set_primary_msg curpos
    else if key == primary_msg_key
    then set_primary_msg curpos
    else pure tt

-- `switch(key)` of `aftp_create_dir`
unfoldable pub create_dir_param : ℕ → ℕ → Cmd Conn (Unit {0})
unfolding store_category set_primary_msg
create_dir_param key curpos =
    if key == category_index
    then store_category curpos
    else if key == primary_msg_key
    then set_primary_msg curpos
    else pure tt

-- `switch(key)` of `aftp_delete`
abbrev pub delete_param : ℕ → ℕ → Cmd Conn (Unit {0})
delete_param key curpos = pure tt

-- `switch(key)` of `aftp_remove_dir` and `aftp_rename`
unfoldable pub status_param : ℕ → ℕ → Cmd Conn (Unit {0})
unfolding store_category set_primary_msg store_status
status_param key curpos =
    if key == return_code
    then store_status curpos
    else if key == category_index
    then store_category curpos
    else if key == primary_msg_key
    then set_primary_msg curpos
    else pure tt

store_answer : Bytes → Option Bytes → Cmd Conn (Unit {0})
store_answer bytes none c = fault
store_answer bytes (some s) c = ok tt (record c { answer = bytes; returned_length = length s })

-- `switch(key)` of the queries: the caller's buffer has `size` bytes, and `strlen` of it would
-- read behind them if no NUL was copied.
unfoldable pub answer_param : ℕ → ℕ → ℕ → ℕ → Cmd Conn (Unit {0})
unfolding copy_from store_answer before_nul
answer_param wanted size key curpos =
    if key == wanted
    then on_record (copy_from size (curpos + 3))
      >>= (λ bytes. store_answer bytes (before_nul bytes))
    else pure tt

abbrev pub received_len : Cmd Conn ℕ
received_len = on_record get_received_len

module _ (cpic : Cpic) where
  unfoldable pub send_request : ℕ → Cmd AsuiteRecord (Unit {0}) → Cmd Conn ℕ
  unfolding settype send_asuiterecord
  send_request code params c =
      on_link
        (on_rec (clear >> settype code >> params)
          >> send_asuiterecord cpic c.session.conversation_id)
        c

  unfoldable pub get_response : Cmd Conn ℕ
  unfolding get_asuiterecord
  get_response c = on_link (get_asuiterecord cpic c.session.conversation_id) c

  -- The record that a function sends, and what it does with the response, if both calls succeed.
  unfoldable pub request :
      ℕ → Cmd AsuiteRecord (Unit {0}) → Cmd Conn (Unit {0}) → Cmd Conn (Unit {0})
  unfolding send_request get_response
  request code params respond = do
    ftp_rc ← send_request code params
    if ftp_rc == rc_ok
        then get_response >>= (λ got. if got == rc_ok then respond else returns got)
        else returns ftp_rc

  -- `aftp_change_dir`; the loop ends at the length of the directory's name
  unfoldable pub change_dir : ℕ → Bytes → ℕ → Cmd Library (Unit {0})
  unfolding request append on_response change_dir_param
  change_dir handle directory length = with_session handle handle_not_valid (
      request change_dir_code (append filespec directory (length + 1))
        (on_response change_dir_param length))

  -- `aftp_create_dir`
  unfoldable pub create_dir : ℕ → Bytes → ℕ → Cmd Library (Unit {0})
  unfolding request append on_response create_dir_param
  create_dir handle directory length = with_session handle handle_not_valid (
      request create_dir_code (append filespec directory (length + 1))
        (on_response create_dir_param length))

  -- `aftp_delete`, which ends with `*rc = ftp_rc`
  unfoldable pub delete : ℕ → Bytes → ℕ → Cmd Library (Unit {0})
  unfolding request append on_response
  delete handle filename length = with_session handle handle_not_valid (
      request delete_code (append filespec filename (length + 1))
        (do receive_length ← received_len; on_response delete_param receive_length; returns rc_ok))

  -- `aftp_remove_dir`
  unfoldable pub remove_dir : ℕ → Bytes → ℕ → Cmd Library (Unit {0})
  unfolding request append on_response status_param
  remove_dir handle directory length = with_session handle fail_fatal (
      request remove_dir_code (append filespec directory (length + 1))
        (received_len >>= on_response status_param))

  -- `aftp_rename`
  unfoldable pub rename : ℕ → Bytes → ℕ → Bytes → ℕ → Cmd Library (Unit {0})
  unfolding request append on_response status_param
  rename handle oldfile oldlength newfile newlength = with_session handle fail_fatal (
      request rename_code
        (append filespec oldfile (oldlength + 1) >> append new_filespec newfile (newlength + 1))
        (received_len >>= on_response status_param))

  -- `aftp_query_current_dir` and `aftp_query_system_info`: the request, the key of the answer
  -- and the size of the caller's buffer
  query : ℕ → ℕ → ℕ → Cmd Conn (Unit {0})
  unfolding request on_response answer_param
  query code wanted size = request code (pure tt) (do
    receive_length ← received_len
    on_response (answer_param wanted size) receive_length
    returns rc_ok)

  -- `aftp_query_current_dir`
  unfoldable pub query_current_dir : ℕ → ℕ → Cmd Library (Unit {0})
  unfolding query
  query_current_dir handle directory_size =
      with_session handle handle_not_valid (query query_dir filespec directory_size)

  -- `aftp_query_system_info`
  unfoldable pub query_system_info : ℕ → ℕ → Cmd Library (Unit {0})
  unfolding query
  query_system_info handle size =
      with_session handle handle_not_valid (query query_system system_info size)

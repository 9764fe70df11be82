-- ===== src/Aftp/Extract.antt =====
-- libasuite/libaftp.c: `aftp_extract_*`.
use linux_sna.Base.{
  ℕ, [], ◌∷◌, ◌++◌, ltb, leb, if◌then◌else◌, Bytes, length, Option, none, some, Cmd, ok, fault,
}
use linux_sna.Asuite.{strncpy}
use linux_sna.Asuite.Codes.{rc_ok, fail_fatal, state_check, parameter_check}
use linux_sna.Aftp.{Session, Slot, Library, max_ftp_sessions, set_rc}
use linux_sna.Aftp.Request.{before_nul}

-- `sessions[index]` without a check of the handle
unfoldable pub extract : {A : Type 0} → Slot → (Session → Cmd Library A) → Cmd Library A
extract Slot.null f w = fault
extract Slot.freed f w = fault
extract (Slot.live s) f w = f s w

unfoldable pub at_handle : {A : Type 0} → ℕ → (Session → Cmd Library A) → Cmd Library A
unfolding extract
at_handle index f w = if ltb index max_ftp_sessions then extract (w.sessions index) f w else fault

-- The extraction of a number, which is the result.
unfoldable pub extract_field : (Session → ℕ) → ℕ → Cmd Library ℕ
unfolding at_handle
extract_field field handle = at_handle handle (λ s w. ok (field s) (record w { rc = rc_ok }))

-- `aftp_extract_allocation_size`
unfoldable pub extract_allocation_size : ℕ → Cmd Library ℕ
unfolding extract_field
extract_allocation_size = extract_field λ s. s.alloc_size

-- `aftp_extract_block_size`
unfoldable pub extract_block_size : ℕ → Cmd Library ℕ
unfolding extract_field
extract_block_size = extract_field λ s. s.block_size

-- `aftp_extract_data_type`
unfoldable pub extract_data_type : ℕ → Cmd Library ℕ
unfolding extract_field
extract_data_type = extract_field λ s. s.data_type

-- `aftp_extract_date_mode`
unfoldable pub extract_date_mode : ℕ → Cmd Library ℕ
unfolding extract_field
extract_date_mode = extract_field λ s. s.date_mode

-- `aftp_extract_record_format`
unfoldable pub extract_record_format : ℕ → Cmd Library ℕ
unfolding extract_field
extract_record_format = extract_field λ s. s.record_format

-- `aftp_extract_record_length`
unfoldable pub extract_record_length : ℕ → Cmd Library ℕ
unfolding extract_field
extract_record_length = extract_field λ s. s.record_length

-- `aftp_extract_security_type`
unfoldable pub extract_security_type : ℕ → Cmd Library ℕ
unfolding extract_field
extract_security_type = extract_field λ s. s.security_type

-- `aftp_extract_write_mode`
unfoldable pub extract_write_mode : ℕ → Cmd Library ℕ
unfolding extract_field
extract_write_mode = extract_field λ s. s.write_mode

-- `aftp_extract_connection_info`
abbrev pub extract_connection_info : Cmd Library (Unit {0})
extract_connection_info = set_rc fail_fatal

-- `aftp_extract_trace_level`
abbrev pub extract_trace_level : Cmd Library ℕ
extract_trace_level w = ok w.global_trace_level (record w { rc = rc_ok })

unfoldable pub store_answer : Option Bytes → Option Bytes → Cmd Library (Unit {0})
store_answer (some bytes) (some s) w =
    ok tt (record w { answer = bytes; returned_length = length s; rc = rc_ok })
store_answer _ _ w = fault

-- `strncpy` into the caller's buffer of `size` bytes, and `strlen` of the buffer: without a NUL
-- in it that reads behind its end.
unfoldable pub answer_name : Bytes → ℕ → Cmd Library (Unit {0})
unfolding strncpy store_answer before_nul
answer_name name size =
    let copy = strncpy size (name ++ 0 ∷ []) in
    store_answer copy (before_nul (elim copy [ none ↦ [] | some bytes ↦ bytes ]))

unfoldable pub extract_name : (Session → Bytes) → ℕ → ℕ → Cmd Library (Unit {0})
unfolding at_handle answer_name
extract_name field handle size = at_handle handle (λ s.
    if ltb 0 (length (field s))
    then if leb (length (field s)) size then answer_name (field s) size else set_rc parameter_check
    else set_rc state_check)

-- `aftp_extract_destination`
unfoldable pub extract_destination : ℕ → ℕ → Cmd Library (Unit {0})
unfolding extract_name
extract_destination = extract_name λ s. s.destination

-- `aftp_extract_mode_name`
unfoldable pub extract_mode_name : ℕ → ℕ → Cmd Library (Unit {0})
unfolding extract_name
extract_mode_name = extract_name λ s. s.mode_name

-- `aftp_extract_partner_LU_name`
unfoldable pub extract_partner_lu_name : ℕ → ℕ → Cmd Library (Unit {0})
unfolding extract_name
extract_partner_lu_name = extract_name λ s. s.destination

-- `aftp_extract_password`
unfoldable pub extract_password : ℕ → ℕ → Cmd Library (Unit {0})
unfolding extract_name
extract_password = extract_name λ s. s.password

-- `aftp_extract_tp_name`
unfoldable pub extract_tp_name : ℕ → ℕ → Cmd Library (Unit {0})
unfolding extract_name
extract_tp_name = extract_name λ s. s.tp_name

-- `aftp_extract_userid`
unfoldable pub extract_userid : ℕ → ℕ → Cmd Library (Unit {0})
unfolding extract_name
extract_userid = extract_name λ s. s.userid

-- `aftp_query_local_version`: the major and the minor version
abbrev pub query_local_version : Cmd Library (ℕ × ℕ)
query_local_version w = ok (0, 1) (record w { rc = rc_ok })

-- ===== src/Aftp/Attributes.antt =====
-- libasuite/libaftp.c: `aftp_set_*`.
use linux_sna.Base.{
  ℕ, zero, suc, ◌+◌, ◌-◌, [], ◌∷◌, ◌++◌, ltb, leb, ◌==◌, if◌then◌else◌, Bytes, length, take, Option,
  none, some, Bool, true, false, Cmd, fault, modify, ◌>>◌,
}
use linux_sna.Asuite.Codes.{
  rc_ok, fail_fatal, handle_not_valid, parameter_check, program_internal_error,
}
use linux_sna.Aftp.{Session, Library, Conn, with_session, returns, change, set_rc}
use linux_sna.Aftp.Request.{before_nul}

abbrev set_field : ℕ → ℕ → (Session → Session) → Cmd Library (Unit {0})
set_field handle invalid f = with_session handle invalid (change f >> returns rc_ok)

-- `aftp_set_allocation_size`
unfoldable pub set_allocation_size : ℕ → ℕ → Cmd Library (Unit {0})
set_allocation_size handle n = set_field handle handle_not_valid λ s. record s { alloc_size = n }

-- `aftp_set_block_size`
unfoldable pub set_block_size : ℕ → ℕ → Cmd Library (Unit {0})
set_block_size handle n = set_field handle handle_not_valid λ s. record s { block_size = n }

-- `aftp_set_data_type`
unfoldable pub set_data_type : ℕ → ℕ → Cmd Library (Unit {0})
set_data_type handle n = set_field handle fail_fatal λ s. record s { data_type = n }

-- `aftp_set_date_mode`
unfoldable pub set_date_mode : ℕ → ℕ → Cmd Library (Unit {0})
set_date_mode handle n = set_field handle fail_fatal λ s. record s { date_mode = n }

-- `aftp_set_record_format`
unfoldable pub set_record_format : ℕ → ℕ → Cmd Library (Unit {0})
set_record_format handle n = set_field handle handle_not_valid λ s. record s { record_format = n }

-- `aftp_set_record_length`
unfoldable pub set_record_length : ℕ → ℕ → Cmd Library (Unit {0})
set_record_length handle n = set_field handle handle_not_valid λ s. record s { record_length = n }

-- `aftp_set_security_type`, which leaves `*rc` as it was
unfoldable pub set_security_type : ℕ → ℕ → Cmd Library (Unit {0})
set_security_type handle n =
    with_session handle handle_not_valid (change λ s. record s { security_type = n })

-- `aftp_set_write_mode`, which leaves `*rc` as it was
unfoldable pub set_write_mode : ℕ → ℕ → Cmd Library (Unit {0})
set_write_mode handle n =
    with_session handle handle_not_valid (change λ s. record s { write_mode = n })

-- `aftp_set_connection_info`
abbrev pub set_connection_info : Cmd Library (Unit {0})
set_connection_info = set_rc program_internal_error

-- `aftp_set_trace_level`
abbrev pub set_trace_level : ℕ → Cmd Library (Unit {0})
set_trace_level n = modify λ w. record w { global_trace_level = n; rc = rc_ok }

-- `strcpy` of the memory into an array of `size` bytes: the string, if it and its NUL fit.
copied : ℕ → Option Bytes → Option Bytes
copied size none = none
copied size (some s) = if ltb (length s) size then some s else none

store_name : (Bytes → Session → Session) → Option Bytes → Cmd Conn (Unit {0})
store_name put none c = fault
store_name put (some s) c = (change (put s) >> returns rc_ok) c

-- `strcpy` if the caller's length is allowed. It copies up to the NUL, whatever the length.
set_name : ℕ → (Bytes → Session → Session) → Bytes → ℕ → Cmd Conn (Unit {0})
unfolding copied store_name before_nul
set_name limit put memory length =
    if leb length limit
    then store_name put (copied (limit + 1) (before_nul memory))
    else returns parameter_check

-- `aftp_set_mode_name`
unfoldable pub set_mode_name : ℕ → Bytes → ℕ → Cmd Library (Unit {0})
unfolding set_name
set_mode_name handle mode_name length =
    with_session handle handle_not_valid
      (set_name 8 (λ name s. record s { mode_name = name }) mode_name length)

-- `aftp_set_password`
unfoldable pub set_password : ℕ → Bytes → ℕ → Cmd Library (Unit {0})
unfolding set_name
set_password handle password length =
    with_session handle handle_not_valid
      (set_name 10 (λ name s. record s { password = name }) password length)

-- `aftp_set_tp_name`
unfoldable pub set_tp_name : ℕ → Bytes → ℕ → Cmd Library (Unit {0})
unfolding set_name
set_tp_name handle tp_name length =
    with_session handle handle_not_valid
      (set_name 64 (λ name s. record s { tp_name = name }) tp_name length)

-- `aftp_set_userid`
unfoldable pub set_userid : ℕ → Bytes → ℕ → Cmd Library (Unit {0})
unfolding set_name
set_userid handle userid length =
    with_session handle handle_not_valid
      (set_name 10 (λ name s. record s { userid = name }) userid length)

-- `strchr(destination, '.')`; `none` if it reads behind the memory
unfoldable pub has_dot : Bytes → Option Bool
has_dot [] = none
has_dot (c ∷ memory) =
    let rest = has_dot memory in
    if c == b'.' then some true else if c == 0 then some false else rest

-- The name that the first `n` bytes of the memory and a NUL make; `none` if there are fewer.
named : ℕ → Bytes → Bytes → Option Bytes
unfolding before_nul
named n memory behind =
    if leb n (length memory) then before_nul (take n memory ++ behind ++ 0 ∷ []) else none

store_destination : Bool → Option Bytes → Cmd Conn (Unit {0})
store_destination symbolic none c = fault
store_destination symbolic (some name) c =
    (change (λ s. record s { destination = name; symbolic = symbolic }) >> returns rc_ok) c

abbrev blank : ℕ → Bytes
blank zero = []
blank (suc n) = b' ' ∷ blank n

destination_of : Bytes → ℕ → Option Bool → Cmd Conn (Unit {0})
unfolding named store_destination
destination_of memory n none = λ c. fault
destination_of memory n (some true) =
    if leb n 17 then store_destination false (named n memory []) else returns parameter_check
destination_of memory n (some false) =
    if leb n 8
    then store_destination true (named n memory (blank (8 - n)))
    else returns parameter_check

-- `aftp_set_destination`
unfoldable pub set_destination : ℕ → Bytes → ℕ → Cmd Library (Unit {0})
unfolding destination_of has_dot
set_destination handle destination length =
    with_session handle handle_not_valid (destination_of destination length (has_dot destination))

-- ===== src/CpicSession.antt =====
-- libasuite/cpicsession.c and cpicsession.h: what a program says of its partner, the start of a
-- conversation, and the exchange of versions. The calls of CPI-C on the one conversation are a
-- parameter: what each answers, by the calls made so far, the latest first.
pub mod Version
pub mod Agree
pub mod Setup
use linux_sna.Base.{
  ℕ, zero, suc, ◌+◌, ◌-◌, List, [], ◌∷◌, ◌++◌, ltb, ◌==◌, if◌then◌else◌, Bytes, length, take, drop,
  Option, none, some, Bool, true, false, Cmd, ok, fault, pure, get, modify, ◌>>=◌, ◌>>◌,
}
use linux_sna.Aftp.Request.{before_nul}

-- `status_received` of `cmrcv`
pub data Status : Type 0 where
  confirm_received send_received other_status : Status

-- A call with the bytes that it reads. `cmsptr` and `cmsst` set CM_PREP_TO_RECEIVE_FLUSH and
-- CM_BUFFER_DATA.
pub data Call : Type 0 where
  cminit cmspln cmstpn cmsmn cmsend : Bytes → Call
  cmsptr cmsst cmrcv cmcfmd cmptr : Call

-- The return code, and what `cmrcv` receives; `no_data` is CM_NO_DATA_RECEIVED.
pub record Reply : Type 0 where
  pub cm_rc : ℕ
  pub bytes : Bytes
  pub no_data : Bool
  pub status : Status

abbrev pub Cpic : Type 0
Cpic = List Call → Reply

-- CM_SECURITY_PROGRAM, and any other value
pub data Security : Type 0 where
  program : Security
  other : ℕ → Security

-- `cpic_session`, its arrays as lists of their bytes
pub record CpicSession : Type 0 where
  pub symbolic : Bool
  pub tp_name : Bytes
  pub mode_name : Bytes
  pub destination : Bytes
  pub sym_dest_name : Bytes
  pub userid : Bytes
  pub password : Bytes
  pub security_type : Security

-- MAX_TP_NAME, MAX_MODE_NAME, MAX_SYM_DEST_NAME and MAX_FQPLU_NAME, with the NUL
abbrev pub max_tp_name : ℕ
max_tp_name = 65

abbrev pub max_name : ℕ
max_name = 9

abbrev pub max_sym_dest_name : ℕ
max_sym_dest_name = 9

abbrev pub max_fqplu_name : ℕ
max_fqplu_name = 18

-- `memcpy(to, from, length); to[length] = '\0';`
unfoldable pub copy_name : Bytes → Bytes → Bytes
copy_name from to = from ++ 0 ∷ drop (length from + 1) to

abbrev pub blanks : ℕ → Bytes
blanks zero = []
blanks (suc n) = 32 ∷ blanks n

-- `strupr`, with `toupper`
unfoldable pub strupr : (ℕ → ℕ) → Bytes → Bytes
strupr toupper [] = []
strupr toupper (c ∷ string) =
    let rest = strupr toupper string in if c == 0 then c ∷ string else toupper c ∷ rest

-- A setter of a name: the result is 0, or 1 for a name that does not fit
abbrev pub if_fits : ℕ → Bytes → Cmd CpicSession (Unit {0}) → Cmd CpicSession ℕ
if_fits size name m = if ltb (length name) size then m >> pure 0 else pure 1

-- `cpic_session_set_tp_name`
unfoldable pub set_tp_name : Bytes → Cmd CpicSession ℕ
unfolding copy_name
set_tp_name name =
    if_fits max_tp_name name (modify λ s. record s { tp_name = copy_name name s.tp_name })

-- `cpic_session_set_mode_name`
unfoldable pub set_mode_name : (ℕ → ℕ) → Bytes → Cmd CpicSession ℕ
unfolding copy_name strupr
set_mode_name toupper name =
    if_fits max_name name
      (modify λ s. record s { mode_name = strupr toupper (copy_name name s.mode_name) })

-- `This->sym_dest_name[index] = '\0'` in an array of `max_sym_dest_name` bytes
unfoldable pub end_sym_dest_name : ℕ → Cmd CpicSession (Unit {0})
end_sym_dest_name index s =
    if ltb index max_sym_dest_name
    then ok tt (record s {
      sym_dest_name = take index s.sym_dest_name ++ 0 ∷ drop (index + 1) s.sym_dest_name;
    })
    else fault

-- `cpic_session_set_symbolic_name`
unfoldable pub set_symbolic_name : (ℕ → ℕ) → Bytes → Cmd CpicSession ℕ
unfolding strupr end_sym_dest_name
set_symbolic_name toupper name = do
  modify (λ s. record s { symbolic = true })
  if_fits max_sym_dest_name name (do
    modify (λ s. record s { sym_dest_name = name ++ blanks (max_sym_dest_name - length name) })
    end_sym_dest_name max_sym_dest_name
    modify (λ s. record s { sym_dest_name = strupr toupper s.sym_dest_name }))

-- `cpic_session_set_destination`
unfoldable pub set_destination : (ℕ → ℕ) → Bytes → Cmd CpicSession ℕ
unfolding copy_name strupr
set_destination toupper name = do
  modify (λ s. record s { symbolic = false })
  if_fits max_fqplu_name name (
      modify
        λ s. record s { destination = strupr toupper (copy_name name (blanks max_fqplu_name)) })

-- `cpic_session_set_userid`
unfoldable pub set_userid : Bytes → Cmd CpicSession ℕ
unfolding copy_name
set_userid name =
    if_fits max_name name
      (modify λ s. record s { userid = copy_name name s.userid; security_type = program })

-- `cpic_session_set_password`
unfoldable pub set_password : Bytes → Cmd CpicSession ℕ
unfolding copy_name
set_password name =
    if_fits max_name name
      (modify λ s. record s { password = copy_name name s.password; security_type = program })

-- `cpic_session_set_security_type`
abbrev pub set_security_type : Security → Cmd CpicSession (Unit {0})
set_security_type kind = modify λ s. record s { security_type = kind }

module _ (cpic : Cpic) where
  -- A call, and its return code
  unfoldable pub call : Call → Cmd (List Call) ℕ
  call c calls = ok (cpic (c ∷ calls)).cm_rc (c ∷ calls)

  -- A call with a string and its `strlen`, which reads behind an array with no NUL
  unfoldable pub call_name : (Bytes → Call) → Option Bytes → Cmd (List Call) ℕ
  unfolding call
  call_name c none = λ calls. fault
  call_name c (some name) = call (c name)

  -- `if(cm_rc != CM_OK) goto errout;`
  abbrev pub unless_failed : Cmd (List Call) ℕ → ℕ → Cmd (List Call) ℕ
  unless_failed next rc = if rc == 0 then next else pure rc

  -- `cpic_session_init`; the result is `*cpicrc`
  unfoldable pub init : CpicSession → Cmd (List Call) ℕ
  unfolding call call_name before_nul
  init s =
      if s.symbolic
      then call (cminit s.sym_dest_name)
      else call (cminit (blanks max_name))
        >>= unless_failed (
            call_name cmspln (before_nul s.destination)
            >>= unless_failed (
                call_name cmstpn (before_nul s.tp_name)
                >>= unless_failed (call_name cmsmn (before_nul s.mode_name))))

-- ===== src/Telnet/Codes.antt =====
-- The numbers of libtnX/tnX_stream.c, lines 38 to 129.
use linux_sna.Base.{ℕ, List, [], ◌∷◌, ◌++◌, Bytes, codes}

-- telnet commands
abbrev pub eor : ℕ
eor = 239

abbrev pub se : ℕ
se = 240

abbrev pub sb : ℕ
sb = 250

abbrev pub will : ℕ
will = 251

abbrev pub wont : ℕ
wont = 252

abbrev pub do_it : ℕ
do_it = 253

abbrev pub dont : ℕ
dont = 254

abbrev pub iac : ℕ
iac = 255

-- telnet options
abbrev pub transmit_binary : ℕ
transmit_binary = 0

abbrev pub timing_mark : ℕ
timing_mark = 6

abbrev pub terminal_type : ℕ
terminal_type = 24

abbrev pub end_of_record : ℕ
end_of_record = 25

abbrev pub new_environ : ℕ
new_environ = 39

-- inside sub-options
abbrev pub send : ℕ
send = 1

abbrev pub is : ℕ
is = 0

abbrev pub var : ℕ
var = 0

abbrev pub value : ℕ
value = 1

abbrev pub uservar : ℕ
uservar = 3

-- bits of `status`
abbrev pub terminal : ℕ
terminal = 1

abbrev pub host : ℕ
host = 8

-- bits for the negotiated options
abbrev pub recv_binary : ℕ
recv_binary = 1

abbrev pub send_binary : ℕ
send_binary = 2

abbrev pub recv_eor : ℕ
recv_eor = 4

abbrev pub send_eor : ℕ
send_eor = 8

-- SB_Str_NewEnv
abbrev pub sb_str_new_env : Bytes
sb_str_new_env =
    iac
    ∷ sb
    ∷ new_environ
    ∷ send
    ∷ uservar
    ∷ (codes "IBMRSEED" ++ (0 ∷ 1 ∷ 2 ∷ 3 ∷ 4 ∷ 5 ∷ 6 ∷ 7 ∷ var ∷ uservar ∷ iac ∷ se ∷ []))

-- SB_Str_TermType
abbrev pub sb_str_term_type : Bytes
sb_str_term_type = iac ∷ sb ∷ terminal_type ∷ send ∷ iac ∷ se ∷ []

-- hostDoTable: what the host asks for, one write for each
abbrev pub host_do_table : List Bytes
host_do_table =
    (iac ∷ do_it ∷ new_environ ∷ iac ∷ do_it ∷ terminal_type ∷ [])
    ∷ (iac ∷ do_it ∷ end_of_record ∷ [])
    ∷ (iac ∷ do_it ∷ transmit_binary ∷ [])
    ∷ []

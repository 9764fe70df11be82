-- ===== src/Telnet/Negotiate.antt =====
-- Telnet option negotiation: verbs and sub-options, on the host's and on the client's side.
pub mod Answer
pub mod Keeps
use Prim.Native.Nat.{bit_or}
use linux_sna.Base.{
  ℕ, suc, ◌+◌, ◌<◌, Bool, true, false, not, ◌&&◌, ◌||◌, Option, none, some, List, [], ◌∷◌, ◌++◌,
  ltb, ◌==◌, if◌then◌else◌, ℤ, pos, negsuc, Bytes, codes, equal, length, get_or, take, drop,
  Outcome, ok, exit, Cmd, pure, get, ◌>>=◌, ◌>>◌, modify, and_then,
}
use linux_sna.Buffer.{Buffer, init, append_byte, append_data, contents}
use linux_sna.Config.{Config, Var, Value, text, items}
use linux_sna.Telnet.Codes.{
  se, sb, will, wont, do_it, dont, iac, transmit_binary, terminal_type, end_of_record, new_environ,
  send, is, var, value, terminal, recv_binary, send_binary, recv_eor, send_eor, sb_str_new_env,
  sb_str_term_type,
}
use linux_sna.Telnet.Stream.{Stream, setenv, getenv, send_reply}

-- A reply of `telnet_stream_host_verb`: a failed write gives -1, another the option bits.
replied : ℕ → Bytes → Cmd Stream ℤ
replied bits bytes = do bad ← send_reply bytes; pure (if bad then negsuc 0 else pos bits)

-- `sendWill`
send_will : ℕ → ℕ → Cmd Stream ℤ
unfolding replied
send_will bits what = replied bits (iac ∷ will ∷ what ∷ [])

-- the case WILL of `telnet_stream_host_verb`
host_will : ℕ → Cmd Stream ℤ
unfolding send_will replied
host_will what =
    if what == new_environ
    then replied 0 sb_str_new_env
    else if what == terminal_type
    then replied 0 sb_str_term_type
    else if what == end_of_record
    then send_will recv_eor what
    else if what == transmit_binary
    then send_will recv_binary what
    else pure (pos 0)

-- `telnet_stream_host_verb`
unfoldable pub host_verb : ℕ → ℕ → Cmd Stream ℤ
unfolding host_will
host_verb verb what =
    if verb == do_it
    then pure (
        pos (
          if what == end_of_record
          then send_eor
          else if what == transmit_binary
          then send_binary
          else 0))
    else if verb == dont || verb == wont
    then pure (pos 0)
    else if verb == will
    then host_will what
    else pure (pos 0)

-- the options that both sides want
abbrev pub is_wanted : ℕ → Bool
is_wanted what =
    what == terminal_type || what == end_of_record || what == transmit_binary || what == new_environ

-- `reply[1]` of `telnet_stream_do_verb`, which DONT and WONT leave as the stack has it
unfoldable pub reply_verb : ℕ → ℕ → ℕ → ℕ
reply_verb junk verb what =
    if verb == do_it
    then (if is_wanted what then will else wont)
    else if verb == will
    then (if is_wanted what then do_it else dont)
    else junk

-- `telnet_stream_do_verb`
unfoldable pub do_verb : ℕ → ℕ → Cmd Stream (Unit {0})
unfolding reply_verb
do_verb verb what = do
  s ← get
  bad ← send_reply (iac ∷ reply_verb s.junk verb what ∷ what ∷ [])
  if bad then (λ _. exit 5) else pure tt

-- The loop of `telnet_stream_host_sb` over the bytes behind the option and IS.
unfoldable pub append_until_iac : Buffer → Bytes → Buffer
append_until_iac buff [] = buff
append_until_iac buff (c ∷ bytes) =
    let rest = append_until_iac (append_byte buff c) bytes in if c == iac then buff else rest

-- A `char *` as a C string: the bytes before the first NUL.
unfoldable pub c_string : Bytes → Bytes
c_string [] = []
c_string (c ∷ bytes) = let rest = c ∷ c_string bytes in if c == 0 then [] else rest

-- `telnet_stream_host_sb`
unfoldable pub host_sb : Bytes → Cmd Stream (Unit {0})
unfolding append_until_iac c_string setenv
host_sb [] = pure tt
host_sb (sb_type ∷ bytes) =
    if sb_type == terminal_type
    then setenv (codes "TERM")
        (c_string (contents (append_byte (append_until_iac init (drop 1 bytes)) 0)))
    else pure tt

-- `telnet_stream_sb_var_value`
unfoldable pub sb_var_value : Buffer → Bytes → Bytes → Buffer
sb_var_value buff name v =
    append_data (append_byte (append_data (append_byte buff var) name) value) v

-- `strlen(data->name) > 4 && !memcmp(data->name, "env.", 4)`
abbrev pub is_env : Bytes → Bool
is_env name = ltb 4 (length name) && equal (take 4 name) (codes "env.")

-- A variable of the environment in the reply; `none` is `strlen` of a list.
append_var : Var → Value → Option Buffer → Option Buffer
append_var v (text val) (some buff) = some (sb_var_value buff (drop 4 v.name) val)
append_var v (items xs) (some buff) = none
append_var v val none = none

unfoldable pub append_env : List Var → Option Buffer → Option Buffer
unfolding append_var sb_var_value
append_env [] buff = buff
append_env (v ∷ vars) buff =
    append_env vars (if is_env v.name then append_var v v.value buff else buff)

sent_or_exit : Bool → Cmd Stream (Unit {0})
sent_or_exit bad = if bad then (λ _. exit 5) else pure tt

-- IAC SB option IS, and then IAC SE
abbrev sb_head : ℕ → Buffer
sb_head option = append_byte (append_byte (append_byte (append_byte init iac) sb) option) is

abbrev sb_tail : Buffer → Buffer
sb_tail buff = append_byte (append_byte buff iac) se

-- The answer of `telnet_stream_sb` to TERMINAL-TYPE SEND; with no `TERM` it is `strlen(NULL)`.
send_term_type : Option Value → Cmd Stream (Unit {0})
unfolding sent_or_exit
send_term_type none s = Outcome.fault
send_term_type (some (items xs)) s = Outcome.fault
send_term_type (some (text v)) s =
    (do
      bad ← send_reply (contents (sb_tail (append_data (sb_head terminal_type) v)))
      sent_or_exit bad
      modify (λ t. record t { status = bit_or t.status terminal }))
      s

abbrev vars_of : Option Config → List Var
vars_of none = []
vars_of (some c) = c.vars

send_new_env : Option Buffer → Cmd Stream (Unit {0})
unfolding sent_or_exit
send_new_env none s = Outcome.fault
send_new_env (some buff) s = (do bad ← send_reply (contents (sb_tail buff)); sent_or_exit bad) s

-- `telnet_stream_sb`
unfoldable pub client_sb : Bytes → Cmd Stream (Unit {0})
unfolding send_term_type send_new_env append_env getenv
client_sb [] s = ok tt s
client_sb (option ∷ bytes) s =
    if option == terminal_type
    then (if not (get_or bytes 0 s.junk == send)
        then ok tt s
        else send_term_type (getenv s (codes "TERM")) s)
    else if option == new_environ
    then send_new_env (append_env (vars_of s.config) (some (sb_head new_environ))) s
    else ok tt s

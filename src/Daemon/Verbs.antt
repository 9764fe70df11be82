-- ===== src/Daemon/Verbs.antt =====
-- tn3270d/tn3270_daemon.c: the verbs that go to the host through `RUI`. What a verb carries is
-- what the code sets of it beside the kind, the length and the callback.
use linux_sna.Base.{
  ℕ, zero, suc, ◌/◌, ◌%◌, List, [], ◌∷◌, ◌++◌, Bool, true, false, ◌&&◌, ◌||◌, ltb, ◌==◌,
  if◌then◌else◌, Bytes, length, drop, ℤ, pos, negsuc, exit, fault, Cmd, pure, modify, ◌>>◌,
}

-- LUA_OPCODE_RUI_*
pub data Opcode : Type 0 where
  init term purge reinit read write bid : Opcode

-- The flows of a verb that is sent: the set bits of `lua_flag1`
pub record Flows : Type 0 where
  pub lu_norm : Bool
  pub lu_exp : Bool
  pub sscp_norm : Bool
  pub sscp_exp : Bool

-- `LUA_VERB_RECORD`: its data, the bits of the request header, the sequence number's two bytes
pub record Verb : Type 0 where
  pub opcode : Opcode
  pub payload : Bytes
  pub flag1 : Flows
  pub bbi : Bool
  pub cdi : Bool
  pub bci : Bool
  pub eci : Bool
  pub dr1i : Bool
  pub dr2i : Bool
  pub ri : Bool
  pub rri : Bool
  pub snf : ℕ × ℕ

-- BETB, SEND and RECV
pub data SendState : Type 0 where
  betb send_ok recv_only : SendState

-- The variables of the session, and the verbs sent so far, the first one first.
pub record Lu : Type 0 where
  pub lu_session : Bool
  pub send_state : SendState
  pub retry_reinit : ℤ
  pub saved_retry_reinit : ℤ
  pub sent_verbs : List Verb

abbrev no_flows : Flows
no_flows = record { lu_norm = false; lu_exp = false; sscp_norm = false; sscp_exp = false }

-- A verb after `memset`, with its kind
abbrev pub blank_verb : Opcode → Verb
blank_verb opcode = record {
  opcode = opcode;
  payload = [];
  flag1 = no_flows;
  bbi = false;
  cdi = false;
  bci = false;
  eci = false;
  dr1i = false;
  dr2i = false;
  ri = false;
  rri = false;
  snf = (0, 0);
}

-- `RUI`
abbrev pub rui : Verb → Cmd Lu (Unit {0})
rui verb = modify λ s. record s { sent_verbs = s.sent_verbs ++ verb ∷ [] }

-- `response_type`: 0 for none, 1 for the exception response, 2 for the definite one
abbrev pub response_type : Verb → ℕ
response_type verb =
    if (verb.dr1i || verb.dr2i) && verb.ri then 1 else if verb.dr1i || verb.dr2i then 2 else 0

-- `send_read`
abbrev pub send_read : Cmd Lu (Unit {0})
send_read = rui (record (blank_verb read) {
  flag1 = record { lu_norm = true; lu_exp = true; sscp_norm = true; sscp_exp = true };
})

-- The flow that `send_response` answers on: the first of those that the verb came on
abbrev pub answer_flow : Flows → Flows
answer_flow flag2 =
    if flag2.lu_norm
    then record no_flows { lu_norm = true }
    else if flag2.lu_exp
    then record no_flows { lu_exp = true }
    else if flag2.sscp_norm
    then record no_flows { sscp_norm = true }
    else record no_flows { sscp_exp = flag2.sscp_exp }

-- The four bytes of an `unsigned long` of 32 bits, the low one first
abbrev pub sense_bytes : ℕ → Bytes
sense_bytes sense =
    sense % 256 ∷ sense / 256 % 256 ∷ sense / 65536 % 256 ∷ sense / 16777216 % 256 ∷ []

-- `send_response` for a verb that came on the flows `flag2`
unfoldable pub send_response : ℕ → Flows → Verb → Cmd Lu (Unit {0})
send_response sense flag2 verb = rui (record verb {
  opcode = write;
  rri = true;
  flag1 = answer_flow flag2;
  payload = if sense == 0 then [] else sense_bytes sense;
  ri = if sense == 0 then false else true;
})

-- The verb of `send_write` before the flow is chosen
abbrev pub write_verb : Bytes → Verb
write_verb data_bytes = record (blank_verb write) {
  payload = data_bytes;
  bci = true;
  eci = true;
  dr1i = true;
}

-- The part of `send_write` for the session with the LU
unfoldable pub lu_write : Bytes → SendState → Cmd Lu (Unit {0})
lu_write data_bytes betb =
    (modify λ s. record s { send_state = recv_only })
    >> rui (record (write_verb data_bytes) {
      flag1 = record no_flows { lu_norm = true };
      ri = true;
      bbi = true;
      cdi = true;
    })
lu_write data_bytes send_ok =
    (modify λ s. record s { send_state = recv_only })
    >> rui (record (write_verb data_bytes) {
      flag1 = record no_flows { lu_norm = true };
      ri = true;
      cdi = true;
    })
lu_write data_bytes recv_only = pure tt

plain_write : Bytes → Cmd Lu (Unit {0})
unfolding lu_write
plain_write data_bytes s =
    if s.lu_session
    then lu_write data_bytes s.send_state s
    else rui (record (write_verb data_bytes) { flag1 = record no_flows { sscp_norm = true } }) s

-- `send_write`, for a stream of TN3270E or not; of fewer than five bytes TN3270E would send
-- memory behind them
unfoldable pub send_write : Bool → Bytes → Cmd Lu (Unit {0})
unfolding plain_write
send_write false data_bytes s = plain_write data_bytes s
send_write true data_bytes s =
    if ltb (length data_bytes) 5 then fault else plain_write (drop 5 data_bytes) s

-- One `send_write` after the other.
unfoldable pub send_writes : List Bytes → Cmd Lu (Unit {0})
unfolding send_write
send_writes [] = pure tt
send_writes (data_bytes ∷ rest) = send_write false data_bytes >> send_writes rest

-- `send_reinit`, without the callback
unfoldable pub send_reinit : Cmd Lu (Unit {0})
send_reinit = (modify λ s. record s { lu_session = false }) >> rui (blank_verb reinit)

reinit_failed : ℤ → Cmd Lu (Unit {0})
unfolding send_reinit
reinit_failed (pos zero) s = exit 1
reinit_failed (pos (suc n)) s = send_reinit (record s { retry_reinit = pos n })
reinit_failed (negsuc n) s = send_reinit s

-- `reinit_done`, for a verb that was successful or not
unfoldable pub reinit_done : Bool → Cmd Lu (Unit {0})
unfolding reinit_failed
reinit_done true s = send_read (record s { retry_reinit = s.saved_retry_reinit })
reinit_done false s = reinit_failed s.retry_reinit s

-- The callback for so many REINITs that fail, each of which sends the next.
unfoldable pub fail_reinits : ℕ → Cmd Lu (Unit {0})
unfolding reinit_done
fail_reinits zero = pure tt
fail_reinits (suc n) = reinit_done false >> fail_reinits n

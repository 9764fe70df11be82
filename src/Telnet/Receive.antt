-- ===== src/Telnet/Receive.antt =====
-- The receiving side: bytes to records.
pub mod Ends
pub mod Empty
pub mod Framing
pub mod Packets
pub mod SubOption
pub mod Verb
pub mod Exchange
use linux_sna.Base.{
  ℕ, zero, suc, ◌+◌, Bool, true, false, not, ◌&&◌, ◌||◌, Option, none, some, List, [], ◌∷◌, ◌++◌,
  ◌==◌, if◌then◌else◌, ℤ, pos, negsuc, to_byte, Bytes, length, Outcome, ok, out_of_fuel, Cmd, pure,
  get, modify, ◌>>=◌, ◌>>◌, and_then,
}
use linux_sna.Buffer.{Buffer, append_byte, contents}
use linux_sna.Buffer
use linux_sna.Record
use linux_sna.Record.{Rec}
use linux_sna.Telnet.Codes.{eor, se, sb, will, wont, do_it, dont, iac}
use linux_sna.Telnet.Negotiate.{host_verb, do_verb, host_sb, client_sb}
use linux_sna.Telnet.Stream.{
  Event, State, no_data, data_state, have_iac, have_verb, have_sb, have_sb_iac, Stream, is_host,
  got,
}

-- The end of a round of the loop: `return`, or on to the loop's test with the local `verb`,
-- which is `none` while nothing is assigned to it.
pub data Round : Type 0 where
  returns : ℤ → Round
  falls : Option ℕ → Round

abbrev pub goto : State → Cmd Stream (Unit {0})
goto st = modify (λ s. record s { state = st })

abbrev pub append_sb : ℕ → Cmd Stream (Unit {0})
append_sb c = modify (λ s. record s { sb_buf = append_byte s.sb_buf c })

abbrev pub free_sb : Cmd Stream (Unit {0})
free_sb = modify (λ s. record s { sb_buf = Buffer.free s.sb_buf })

-- case TN5250_STREAM_STATE_HAVE_IAC
on_iac : Option ℕ → ℕ → Cmd Stream Round
on_iac verb c =
    if c == iac
    then (do goto data_state; pure (falls verb))
    else if c == do_it || c == dont || c == will || c == wont
    then (do goto have_verb; pure (falls (some c)))
    else if c == sb
    then (do goto have_sb; free_sb; pure (falls verb))
    else if c == eor
    then (do goto data_state; pure (returns (negsuc 24)))
    else (do goto no_data; pure (falls verb))

-- An assigned `verb`, or what the stack holds.
abbrev pub verb_or : ℕ → Option ℕ → ℕ
verb_or junk none = junk
verb_or junk (some v) = v

-- The host's answer to a verb: -2 is returned if the reply could not be written.
after_host_verb : Option ℕ → ℤ → Cmd Stream Round
after_host_verb verb (pos n) = do goto no_data; pure (falls verb)
after_host_verb verb (negsuc n) = pure (returns (negsuc 1))

-- case TN5250_STREAM_STATE_HAVE_VERB
on_verb : Option ℕ → ℕ → Cmd Stream Round
unfolding after_host_verb
on_verb verb c = do
  s ← get
  if is_host s
      then host_verb (verb_or s.junk verb) c >>= after_host_verb verb
      else (do do_verb (verb_or s.junk verb) c; goto no_data; pure (falls verb))

-- case TN5250_STREAM_STATE_HAVE_SB_IAC
on_sb_iac : Option ℕ → ℕ → Cmd Stream Round
on_sb_iac verb c =
    if c == iac
    then (do append_sb iac; pure (falls verb))
    else if c == se
    then (do
      s ← get
      if is_host s then host_sb (contents s.sb_buf) else client_sb (contents s.sb_buf)
      free_sb
      goto no_data
      pure (falls verb))
    else (do goto have_sb; pure (falls verb))

-- The `switch` of `telnet_stream_get_byte` in each state.
unfoldable pub on_byte : State → Option ℕ → ℕ → Cmd Stream Round
unfolding on_iac on_verb on_sb_iac
on_byte no_data verb c = pure (falls verb)
on_byte data_state verb c =
    if c == iac then (do goto have_iac; pure (falls verb)) else pure (falls verb)
on_byte have_iac verb c = on_iac verb c
on_byte have_verb verb c = on_verb verb c
on_byte have_sb verb c =
    if c == iac
    then (do goto have_sb_iac; pure (falls verb))
    else (do append_sb c; pure (falls verb))
on_byte have_sb_iac verb c = on_sb_iac verb c

-- The first lines of the loop's body: NO_DATA becomes DATA.
abbrev pub leave_no_data : State → State
leave_no_data no_data = data_state
leave_no_data st = st

abbrev pub is_data : State → Bool
is_data data_state = true
is_data st = false

-- Behind the `switch`: a `return`, the end of the loop with the byte as its value, or more rounds.
abbrev pub conclude : ℕ → (Option ℕ → Cmd Stream ℤ) → Outcome Stream Round → Outcome Stream ℤ
conclude c more (ok (returns r) s) = ok r s
conclude c more (ok (falls verb) s) = elim (is_data s.state) [
  | true ↦ ok (pos c) s
  | false ↦ more verb s
]
conclude c more (Outcome.exit n) = Outcome.exit n
conclude c more Outcome.abort = Outcome.abort
conclude c more Outcome.fault = Outcome.fault
conclude c more out_of_fuel = out_of_fuel

abbrev pub begin : List Event → Stream → Stream
begin events s = record s { state = leave_no_data s.state; input = events }

-- The loop of `telnet_stream_get_byte` over the events ahead.
unfoldable pub get_byte_from : List Event → Option ℕ → Cmd Stream ℤ
unfolding on_byte
get_byte_from [] verb s = ok (negsuc 0) (begin [] s)
get_byte_from (Event.byte c ∷ events) verb s =
    conclude c (get_byte_from events) (on_byte (leave_no_data s.state) verb c (begin events s))
get_byte_from (Event.idle ∷ events) verb s = ok (got Event.idle) (begin events s)
get_byte_from (Event.again ∷ events) verb s = ok (got Event.again) (begin events s)
get_byte_from (Event.broken ∷ events) verb s = ok (got Event.broken) (begin events s)
get_byte_from (Event.closed ∷ events) verb s = ok (got Event.closed) (begin events s)

-- `telnet_stream_get_byte`
unfoldable pub get_byte : Cmd Stream ℤ
unfolding get_byte_from
get_byte s = get_byte_from s.input none s

abbrev pub is_no_data : ℤ → Bool
is_no_data (pos n) = false
is_no_data (negsuc n) = n == 0

abbrev pub is_disconnect : ℤ → Bool
is_disconnect (pos n) = false
is_disconnect (negsuc n) = n == 1

abbrev pub is_end : ℤ → Bool
is_end (pos n) = false
is_end (negsuc n) = n == 24

-- The loop's body behind its test: the record is closed, or the byte is added to a record.
abbrev pub add_byte : ℤ → Option Rec → Stream → Stream
add_byte c none s = record s { current_record = some (Record.append Record.new (to_byte c)) }
add_byte c (some r) s =
    if is_end c
    then record s {
      records = s.records ++ r ∷ [];
      current_record = none;
      record_count = s.record_count + 1;
    }
    else record s { current_record = some (Record.append r (to_byte c)) }

-- A round of the loop of `telnet_stream_handle_receive` behind its call of `get_byte`.
abbrev pub received : Cmd Stream Bool → ℤ → Cmd Stream Bool
received more c s = elim (is_no_data c || is_disconnect c) [
  | true ↦ ok (not (is_disconnect c)) s
  | false ↦ more (add_byte c s.current_record s)
]

-- The loop of `telnet_stream_handle_receive`.
unfoldable pub receive_loop : ℕ → Cmd Stream Bool
unfolding get_byte
receive_loop zero s = out_of_fuel
receive_loop (suc fuel) s = and_then (get_byte s) (received (receive_loop fuel))

-- `telnet_stream_handle_receive`: each round uses an event up, so these rounds are enough.
unfoldable pub handle_receive : Cmd Stream Bool
unfolding receive_loop
handle_receive s = receive_loop (length s.input + 1) s

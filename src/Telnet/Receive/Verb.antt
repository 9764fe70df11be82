-- ===== src/Telnet/Receive/Verb.antt =====
-- Verbs that the receiver reads in two parts, or has no answer to.
use linux_sna.Base.{ℕ, Bool, true, false, List, [], ◌∷◌, ◌++◌, ◌||◌, ◌≡◌, arith, ◌==◌, negsuc, ok}
use linux_sna.Telnet.Codes.{will, wont, do_it, dont, iac}
use linux_sna.Telnet.Stream.{Event, byte, idle, data_state, have_verb, Stream, is_host}
use linux_sna.Telnet.Stream.Write.{send_reply_open}
use linux_sna.Telnet.Negotiate.{reply_verb, do_verb}
use linux_sna.Telnet.Receive.Framing.{frame}
use linux_sna.Telnet.Receive.{on_byte, get_byte}

abbrev pub is_verb : ℕ → Bool
is_verb v = v == do_it || v == dont || v == will || v == wont

-- The stream with a verb read and its option still to come, which may be in these events.
abbrev pub waiting : Stream → List Event → Stream
waiting s events = record s { state = have_verb; input = events }

do_verb_open :
    (verb what : ℕ) (s : Stream)
    → s.sends ≡ []
    → do_verb verb what s
      ≡ ok tt (record s { output = s.output ++ iac ∷ reply_verb s.junk verb what ∷ what ∷ [] })
unfolding do_verb
do_verb_open verb what s clear = rw (send_reply_open _ s clear)

pub get_byte-verb :
    (v : ℕ) (s : Stream) (events : List Event)
    → is_verb v ≡ true
    → get_byte (frame s (byte iac ∷ byte v ∷ idle ∷ events) s.current_record)
      ≡ ok (negsuc 0) (waiting s events)
unfolding get_byte on_byte
get_byte-verb v s events h = rw (verb_not_iac, h)
  where
    verb_not_iac : (v == iac) ≡ false
    verb_not_iac = ground arith

get_byte-waiting :
    (what : ℕ) (s : Stream)
    → is_host s ≡ false
    → s.sends ≡ []
    → get_byte (waiting s (byte what ∷ []))
      ≡ ok (negsuc 0) (record s {
        state = data_state;
        input = [];
        output = s.output ++ iac ∷ reply_verb s.junk s.junk what ∷ what ∷ [];
      })
unfolding get_byte on_byte
get_byte-waiting what s client clear =
    rw (client, do_verb_open s.junk what (record s { state = have_verb; input = [] }) clear)

-- The verb is a local variable of `telnet_stream_get_byte`. If a client's call returns between
-- a verb and its option byte, the next call replies with what its own uninitialised variable
-- holds, whichever verb the peer sent, when the kernel takes the reply whole.
pub split_verb_lost :
    (v what : ℕ) (s : Stream)
    → is_verb v ≡ true
    → is_host s ≡ false
    → s.sends ≡ []
    → (get_byte (frame s (byte iac ∷ byte v ∷ idle ∷ byte what ∷ []) s.current_record)
        ≡ ok (negsuc 0) (waiting s (byte what ∷ [])))
      × (get_byte (waiting s (byte what ∷ []))
          ≡ ok (negsuc 0) (record s {
            state = data_state;
            input = [];
            output = s.output ++ iac ∷ reply_verb s.junk s.junk what ∷ what ∷ [];
          }))
split_verb_lost v what s h client clear =
    (get_byte-verb v s (byte what ∷ []) h, get_byte-waiting what s client clear)

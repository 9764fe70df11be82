-- ===== src/Telnet/Receive/Ends.antt =====
-- The rounds of `telnet_stream_handle_receive` are enough for every input.
use linux_sna.Base.{
  ℕ, zero, suc, ◌+◌, ◌<◌, ◌≤◌, Bool, true, false, not, ◌||◌, Option, none, some, List, [], ◌∷◌, ◌≡◌,
  ◌≢◌, refl, arith, ◌==◌, ℤ, pos, negsuc, length, Outcome, ok, out_of_fuel, Cmd, and_then,
}
use linux_sna.Buffer.{contents}
use linux_sna.Record.{Rec}
use linux_sna.Telnet.Codes.{eor, se, sb, will, wont, do_it, dont, iac}
use linux_sna.Telnet.Stream.{
  Event, State, no_data, data_state, have_iac, have_verb, have_sb, have_sb_iac, Stream, is_host,
}
use linux_sna.Telnet.Negotiate.Keeps.{
  Keeps, goes, exits, aborts, faults, if-Keeps, and_then-Keeps, host_verb-Keeps, do_verb-Keeps,
  host_sb-Keeps, client_sb-Keeps,
}
use linux_sna.Telnet.Receive.{
  Round, returns, falls, on_iac, after_host_verb, on_verb, on_sb_iac, on_byte, leave_no_data,
  is_data, conclude, begin, get_byte_from, get_byte, is_no_data, is_disconnect, add_byte, received,
  receive_loop, handle_receive,
}

module _ {events : List Event} where
  on_iac-Keeps :
      (verb : Option ℕ) (c : ℕ) (s : Stream) → s.input ≡ events → Keeps events (on_iac verb c s)
  unfolding on_iac
  on_iac-Keeps verb c s e = if-Keeps (c == iac) _ _ (goes e) (
      if-Keeps (c == do_it || c == dont || c == will || c == wont) _ _ (goes e)
        (if-Keeps (c == sb) _ _ (goes e) (if-Keeps (c == eor) _ _ (goes e) (goes e))))

  after_host_verb-Keeps :
      (verb : Option ℕ) (r : ℤ) (s : Stream)
      → s.input ≡ events
      → Keeps events (after_host_verb verb r s)
  unfolding after_host_verb
  after_host_verb-Keeps verb (pos n) s e = goes e
  after_host_verb-Keeps verb (negsuc n) s e = goes e

  on_verb-Keeps :
      (verb : Option ℕ) (c : ℕ) (s : Stream) → s.input ≡ events → Keeps events (on_verb verb c s)
  unfolding on_verb
  on_verb-Keeps verb c s e =
      if-Keeps (is_host s) _ _
        (and_then-Keeps _ (host_verb-Keeps _ c s e) (λ r t h. after_host_verb-Keeps verb r t h))
        (and_then-Keeps _ (do_verb-Keeps _ c s e) (λ r t h. goes h))

  on_sb_iac-Keeps :
      (verb : Option ℕ) (c : ℕ) (s : Stream) → s.input ≡ events → Keeps events (on_sb_iac verb c s)
  unfolding on_sb_iac
  on_sb_iac-Keeps verb c s e = if-Keeps (c == iac) _ _ (goes e) (
      if-Keeps (c == se) _ _
        (and_then-Keeps _
          (if-Keeps (is_host s) _ _ (host_sb-Keeps (contents s.sb_buf) s e)
            (client_sb-Keeps (contents s.sb_buf) s e))
          (λ r t h. goes h))
        (goes e))

  on_byte-Keeps :
      (st : State) (verb : Option ℕ) (c : ℕ) (s : Stream)
      → s.input ≡ events
      → Keeps events (on_byte st verb c s)
  unfolding on_byte
  on_byte-Keeps no_data verb c s e = goes e
  on_byte-Keeps data_state verb c s e = if-Keeps (c == iac) _ _ (goes e) (goes e)
  on_byte-Keeps have_iac verb c s e = on_iac-Keeps verb c s e
  on_byte-Keeps have_verb verb c s e = on_verb-Keeps verb c s e
  on_byte-Keeps have_sb verb c s e = if-Keeps (c == iac) _ _ (goes e) (goes e)
  on_byte-Keeps have_sb_iac verb c s e = on_sb_iac-Keeps verb c s e

-- The call ends, and if it returns something else than no data or a lost connection it has used
-- an event up.
abbrev Uses : ℕ → Outcome Stream ℤ → Type 0
Uses n (ok r t) = (is_no_data r || is_disconnect r) ≡ false → length t.input < n
Uses n out_of_fuel = ⊥
Uses n _ = Unit

Uses-mono : (m n : ℕ) (o : Outcome Stream ℤ) → m ≤ n → Uses m o → Uses n o
Uses-mono m n (ok r t) le h = λ e. omega (arith, h e)
Uses-mono m n out_of_fuel le h = h
Uses-mono m n _ le h = tt

module _ (c : ℕ) (events : List Event) (more : Option ℕ → Cmd Stream ℤ)
    (next : (verb : Option ℕ) (t : Stream) → Uses (length events) (more verb t)) where
  conclude-Uses :
      {o : Outcome Stream Round} → Keeps events o → Uses (suc (length events)) (conclude c more o)
  conclude-Uses (goes {a = returns r} {t} e) = λ _. rw e (omega arith)
  conclude-Uses (goes {a = falls verb} {t} e) = at_data (is_data t.state)
    where
      at_data :
          (b : Bool)
          → Uses (suc (length events)) (elim b [ true ↦ ok (pos c) t | false ↦ more verb t ])
      at_data true = λ _. rw e (omega arith)
      at_data false = Uses-mono (length events) _ _ (omega arith) (next verb t)
  conclude-Uses exits = tt
  conclude-Uses aborts = tt
  conclude-Uses faults = tt

get_byte_from-Uses :
    (events : List Event) (verb : Option ℕ) (s : Stream)
    → Uses (length events) (get_byte_from events verb s)
unfolding get_byte_from
get_byte_from-Uses [] verb s = λ e. cc
get_byte_from-Uses (Event.byte c ∷ events) verb s =
    conclude-Uses c events (get_byte_from events) (get_byte_from-Uses events)
      (on_byte-Keeps (leave_no_data s.state) verb c (begin events s) refl)
get_byte_from-Uses (Event.idle ∷ events) verb s = λ e. cc
get_byte_from-Uses (Event.again ∷ events) verb s = λ e. cc
get_byte_from-Uses (Event.broken ∷ events) verb s = λ e. cc
get_byte_from-Uses (Event.closed ∷ events) verb s = λ e. cc

add_byte-input : (c : ℤ) (r : Option Rec) (s : Stream) → (add_byte c r s).input ≡ s.input
add_byte-input c none s = refl
add_byte-input c (some r) s = ground arith

get_byte-Uses : (s : Stream) → Uses (length s.input) (get_byte s)
unfolding get_byte
get_byte-Uses s = get_byte_from-Uses s.input none s

module _ (n : ℕ) (more : Cmd Stream Bool)
    (next : (t : Stream) → length t.input < n → more t ≢ out_of_fuel) where
  received-ends : (o : Outcome Stream ℤ) → Uses n o → and_then o (received more) ≢ out_of_fuel
  received-ends (ok c t) h = at_test (is_no_data c || is_disconnect c) h
    where
      at_test :
          (b : Bool)
          → (b ≡ false → length t.input < n)
          → elim b [
            | true ↦ ok (not (is_disconnect c)) t
            | false ↦ more (add_byte c t.current_record t)
          ]
            ≢ out_of_fuel
      at_test true k = cc
      at_test false k = next _ (rw (add_byte-input c t.current_record t) (k refl))
  received-ends out_of_fuel h = absurd h
  received-ends (Outcome.exit k) h = cc
  received-ends Outcome.abort h = cc
  received-ends Outcome.fault h = cc

receive_loop-ends :
    (fuel : ℕ) (s : Stream) → length s.input < fuel → receive_loop fuel s ≢ out_of_fuel
unfolding receive_loop
receive_loop-ends zero s h = absurd (omega arith)
receive_loop-ends (suc fuel) s h =
    received-ends (length s.input) (receive_loop fuel)
      (λ t k. receive_loop-ends fuel t (omega arith)) (get_byte s) (get_byte-Uses s)

-- `telnet_stream_handle_receive` ends on every stream, whatever arrives and whatever the replies
-- meet, in one round more than the socket has events.
pub handle_receive-ends : (s : Stream) → handle_receive s ≢ out_of_fuel
unfolding handle_receive
handle_receive-ends s = receive_loop-ends (length s.input + 1) s (omega arith)

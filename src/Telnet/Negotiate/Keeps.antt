-- ===== src/Telnet/Negotiate/Keeps.antt =====
-- Negotiation reads nothing from the socket and needs no rounds of its own.
use linux_sna.Base.{
  ℕ, Bool, true, false, not, ◌||◌, Option, none, some, List, [], ◌∷◌, ◌≡◌, ap, ◌∙◌, ◌==◌,
  if◌then◌else◌, Bytes, get_or, Outcome, ok, out_of_fuel, Cmd, and_then,
}
use linux_sna.Buffer.{Buffer}
use linux_sna.Config.{Value, text, items}
use linux_sna.Telnet.Codes.{
  new_environ, terminal_type, end_of_record, transmit_binary, do_it, dont, wont, will, send,
}
use linux_sna.Telnet.Stream.{Event, Stream, send_reply, setenv}
use linux_sna.Telnet.Stream.Write.{Spares, send_reply-Spares, setenv-Spares}
use linux_sna.Telnet.Negotiate.{
  replied, host_will, host_verb, do_verb, sent_or_exit, host_sb, send_term_type, send_new_env,
  client_sb,
}

-- The outcome, if the step returns, has `events` ahead; no rounds were missing.
pub data Keeps {A : Type 0} (events : List Event) : Outcome Stream A → Type 0 where
  goes : {a : A} {t : Stream} → t.input ≡ events → Keeps events (ok a t)
  exits : {n : ℕ} → Keeps events (Outcome.exit n)
  aborts : Keeps events Outcome.abort
  faults : Keeps events Outcome.fault

module _ {A : Type 0} {events : List Event} where
  pub if-Keeps :
      (b : Bool) {s : Stream} (f g : Cmd Stream A)
      → Keeps events (f s)
      → Keeps events (g s)
      → Keeps events ((if b then f else g) s)
  if-Keeps true f g h k = h
  if-Keeps false f g h k = k

  if_outcome-Keeps :
      (b : Bool) {o p : Outcome Stream A}
      → Keeps events o
      → Keeps events p
      → Keeps events (if b then o else p)
  if_outcome-Keeps true h k = h
  if_outcome-Keeps false h k = k

  Spares-Keeps :
      (s : Stream) (o : Outcome Stream A) → Spares s o → s.input ≡ events → Keeps events o
  Spares-Keeps s (ok a t) h e = goes (ap (λ u. u.input) h ∙ e)
  Spares-Keeps s (Outcome.exit n) h e = exits
  Spares-Keeps s Outcome.abort h e = aborts
  Spares-Keeps s Outcome.fault h e = faults
  Spares-Keeps s out_of_fuel h e = absurd h

module _ {A B : Type 0} {events : List Event} where
  pub and_then-Keeps :
      {o : Outcome Stream A} (k : A → Cmd Stream B)
      → Keeps events o
      → ((a : A) (t : Stream) → t.input ≡ events → Keeps events (k a t))
      → Keeps events (and_then o k)
  and_then-Keeps k (goes h) next = next _ _ h
  and_then-Keeps k exits next = exits
  and_then-Keeps k aborts next = aborts
  and_then-Keeps k faults next = faults

module _ {events : List Event} where
  send_reply-Keeps :
      (bytes : Bytes) (s : Stream) → s.input ≡ events → Keeps events (send_reply bytes s)
  send_reply-Keeps bytes s e = Spares-Keeps s _ (send_reply-Spares bytes s) e

  replied-Keeps :
      (bits : ℕ) (bytes : Bytes) (s : Stream)
      → s.input ≡ events
      → Keeps events (replied bits bytes s)
  unfolding replied
  replied-Keeps bits bytes s e = and_then-Keeps _ (send_reply-Keeps bytes s e) (λ bad t h. goes h)

  host_will-Keeps : (what : ℕ) (s : Stream) → s.input ≡ events → Keeps events (host_will what s)
  unfolding host_will
  host_will-Keeps what s e = if-Keeps (what == new_environ) _ _ (replied-Keeps _ _ s e) (
      if-Keeps (what == terminal_type) _ _ (replied-Keeps _ _ s e) (
        if-Keeps (what == end_of_record) _ _ (replied-Keeps _ _ s e)
          (if-Keeps (what == transmit_binary) _ _ (replied-Keeps _ _ s e) (goes e))))

  pub host_verb-Keeps :
      (verb what : ℕ) (s : Stream) → s.input ≡ events → Keeps events (host_verb verb what s)
  unfolding host_verb
  host_verb-Keeps verb what s e = if-Keeps (verb == do_it) _ _ (goes e) (
      if-Keeps (verb == dont || verb == wont) _ _ (goes e)
        (if-Keeps (verb == will) _ _ (host_will-Keeps what s e) (goes e)))

  sent_or_exit-Keeps :
      (bad : Bool) (s : Stream) → s.input ≡ events → Keeps events (sent_or_exit bad s)
  unfolding sent_or_exit
  sent_or_exit-Keeps true s e = exits
  sent_or_exit-Keeps false s e = goes e

  pub do_verb-Keeps :
      (verb what : ℕ) (s : Stream) → s.input ≡ events → Keeps events (do_verb verb what s)
  unfolding do_verb
  do_verb-Keeps verb what s e =
      and_then-Keeps _ (send_reply-Keeps _ s e) (λ bad t h. if-Keeps bad _ _ exits (goes h))

  setenv-Keeps : (name v : Bytes) (s : Stream) → s.input ≡ events → Keeps events (setenv name v s)
  setenv-Keeps name v s e = Spares-Keeps s _ (setenv-Spares name v s) e

  pub host_sb-Keeps :
      (bytes : Bytes) (s : Stream) → s.input ≡ events → Keeps events (host_sb bytes s)
  unfolding host_sb
  host_sb-Keeps [] s e = goes e
  host_sb-Keeps (option ∷ bytes) s e =
      if-Keeps (option == terminal_type) _ _ (setenv-Keeps _ _ s e) (goes e)

  send_term_type-Keeps :
      (o : Option Value) (s : Stream) → s.input ≡ events → Keeps events (send_term_type o s)
  unfolding send_term_type
  send_term_type-Keeps none s e = faults
  send_term_type-Keeps (some (items xs)) s e = faults
  send_term_type-Keeps (some (text v)) s e =
      and_then-Keeps _ (send_reply-Keeps _ s e)
        (λ bad t h. and_then-Keeps _ (sent_or_exit-Keeps bad t h) (λ _ u k. goes k))

  send_new_env-Keeps :
      (o : Option Buffer) (s : Stream) → s.input ≡ events → Keeps events (send_new_env o s)
  unfolding send_new_env
  send_new_env-Keeps none s e = faults
  send_new_env-Keeps (some buff) s e =
      and_then-Keeps _ (send_reply-Keeps _ s e) (λ bad t h. sent_or_exit-Keeps bad t h)

  pub client_sb-Keeps :
      (bytes : Bytes) (s : Stream) → s.input ≡ events → Keeps events (client_sb bytes s)
  unfolding client_sb
  client_sb-Keeps [] s e = goes e
  client_sb-Keeps (option ∷ bytes) s e =
      if_outcome-Keeps (option == terminal_type)
        (if_outcome-Keeps (not (get_or bytes 0 s.junk == send)) (goes e)
          (send_term_type-Keeps _ s e))
        (if_outcome-Keeps (option == new_environ) (send_new_env-Keeps _ s e) (goes e))

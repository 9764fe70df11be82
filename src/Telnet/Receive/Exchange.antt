-- ===== src/Telnet/Receive/Exchange.antt =====
-- The exchange of the terminal type between a client and a host.
use linux_sna.Base.{
  true, some, [], ◌∷◌, ◌++◌, ◌≡◌, refl, sym, ap, ◌∙◌, Bytes, All, codes, length, Outcome, ok,
  and_then,
}
use native.Mathlib.Numerals.{add-one}
use linux_sna.Buffer.{init, append_data}
use linux_sna.Config
use linux_sna.Config.{Config, text}
use linux_sna.Telnet.Codes.{terminal_type, send}
use linux_sna.Telnet.Stream.{data_state, Stream, is_host, getenv, env_name}
use linux_sna.Telnet.Stream.Environment.{IsPlain, setenv-getenv}
use linux_sna.Telnet.Negotiate.{client_sb}
use linux_sna.Telnet.Negotiate.Answer.{term_type_answer, client_sb_answer}
use linux_sna.Telnet.Receive.Framing.{arrive}
use linux_sna.Telnet.Receive.Packets.{frame_eq}
use linux_sna.Telnet.Receive.SubOption.{
  IsNoIac, IsNoNul, option_bytes, closing, answered, get_byte-answer,
}
use linux_sna.Telnet.Receive.{get_byte, receive_loop, received, handle_receive}

output_of : Outcome Stream (Unit {0}) → Bytes
output_of (ok _ t) = t.output
output_of _ = []

client-output :
    (name : Bytes) (c c' : Stream)
    → getenv c (codes "TERM") ≡ some (text name)
    → c.sends ≡ []
    → c.output ≡ []
    → client_sb (terminal_type ∷ send ∷ []) c ≡ ok tt c'
    → c'.output ≡ term_type_answer name
unfolding output_of
client-output name c c' e clear clean done =
    ap output_of (sym done ∙ client_sb_answer name c e clear)
    ∙ ap (λ z. z ++ term_type_answer name) clean

-- The host `h'` has taken the terminal type from its client, and nothing else came of it.
pub record HasTerm (h h' : Stream) (name : Bytes) : Type 0 where
  pub term : getenv h' (codes "TERM") ≡ some (text name)
  pub records : h'.records ≡ h.records
  pub current : h'.current_record ≡ h.current_record
  pub state : h'.state ≡ data_state
  pub freed : h'.sb_buf ≡ init

answered-HasTerm :
    (h : Stream) (d : Config) (name : Bytes)
    → Config.get d (env_name (codes "TERM")) ≡ some (text name)
    → HasTerm h (answered h d) name
unfolding getenv
answered-HasTerm h d name found = record {
  term = found;
  records = refl;
  current = refl;
  state = refl;
  freed = refl;
}

-- A client that is asked for its terminal type answers with its TERM, and a host between two
-- bytes of data that reads this answer has the name as its TERM, with no record begun or added.
-- The name holds neither NUL nor 255, the client's write is taken whole, and no list stands under
-- the host's TERM.
pub term_type_exchange :
    (name : Bytes) (c c' h : Stream)
    → All IsNoIac name
    → All IsNoNul name
    → getenv c (codes "TERM") ≡ some (text name)
    → c.sends ≡ []
    → c.output ≡ []
    → client_sb (terminal_type ∷ send ∷ []) c ≡ ok tt c'
    → is_host h ≡ true
    → IsPlain h.config (codes "TERM")
    → h.state ≡ data_state
    → h.input ≡ arrive c'.output
    → (h' : Stream) × (handle_receive h ≡ ok true h') × HasTerm h h' name
unfolding handle_receive receive_loop
term_type_exchange name c c' h ni nn e clear clean done hosting plain p q =
    let u = closing h (append_data init (option_bytes name)) in
    let (d, stored, found) = setenv-getenv (codes "TERM") name u plain in
    let input = q ∙ ap arrive (client-output name c c' e clear clean done) in
    let same = frame_eq h (arrive (term_type_answer name)) h.current_record p input refl in
    let read = ap get_byte same ∙ get_byte-answer name h d ni nn hosting stored in
    (
      answered h d,
      ap (λ fuel. receive_loop fuel h) (add-one (length h.input))
          ∙ ap (λ o. and_then o (received (receive_loop (length h.input)))) read,
      answered-HasTerm h d name found,
    )

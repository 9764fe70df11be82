-- ===== src/Telnet/Receive/SubOption.antt =====
-- Sub-options: the terminal type from the client's answer to the host's configuration, and what
-- becomes of a doubled IAC.
use mathlib.Core.List.{append_assoc, append-nil}
use linux_sna.Base.{
  ℕ, true, false, Option, none, some, List, [], ◌∷◌, ◌++◌, ◌≡◌, refl, ap, ◌∙◌, ◌==◌, negsuc, Bytes,
  All, codes, ok,
}
use linux_sna.Buffer.{Buffer, init, append_byte, append_data, contents}
use linux_sna.Buffer.Contents.{Holds, init-Holds, append_byte-Holds, append_data-Holds}
use linux_sna.Config.{Config}
use linux_sna.Telnet.Codes.{se, iac, terminal_type, is}
use linux_sna.Telnet.Stream.{Event, byte, data_state, have_sb, have_sb_iac, Stream, is_host, setenv}
use linux_sna.Telnet.Negotiate.Answer.{term_type_answer}
use linux_sna.Telnet.Negotiate.{append_until_iac, c_string, host_sb}
use linux_sna.Telnet.Receive.Framing.{arrive, frame, map-append_bytes}
use linux_sna.Telnet.Receive.{on_byte, get_byte_from, get_byte}

-- The stream `s` inside a sub-option, with these bytes of it read.
abbrev pub inside : Stream → List Event → Buffer → Stream
inside s events b = record s { state = have_sb; input = events; sb_buf = b }

abbrev pub IsNoIac : ℕ → Type 0
IsNoIac c = (c == iac) ≡ false

abbrev pub IsNoNul : ℕ → Type 0
IsNoNul c = (c == 0) ≡ false

module _ (s : Stream) (verb : Option ℕ) where
  get_byte_from-inside :
      (bytes : Bytes) (events : List Event) (b : Buffer)
      → All IsNoIac bytes
      → get_byte_from (arrive bytes ++ events) verb (inside s (arrive bytes ++ events) b)
        ≡ get_byte_from events verb (inside s events (append_data b bytes))
  unfolding append_data
  get_byte_from-inside [] events b h = refl
  get_byte_from-inside (c ∷ bytes) events b h =
      one c (arrive bytes ++ events) h.0 ∙ get_byte_from-inside bytes events (append_byte b c) h.1
    where
      one :
          (c : ℕ) (later : List Event)
          → IsNoIac c
          → get_byte_from (byte c ∷ later) verb (inside s (byte c ∷ later) b)
            ≡ get_byte_from later verb (inside s later (append_byte b c))
      one c later e = unfold get_byte_from on_byte in rw e

  -- Inside a sub-option a doubled IAC puts one IAC into the sub-option, but the next byte is taken for what follows
  -- an IAC: unless it is IAC or SE it is dropped.
  pub doubled_iac_drops :
      (c : ℕ) (events : List Event) (b : Buffer)
      → IsNoIac c
      → (c == se) ≡ false
      → get_byte_from
          (byte iac ∷ byte iac ∷ byte c ∷ events)
          verb
          (inside s (byte iac ∷ byte iac ∷ byte c ∷ events) b)
        ≡ get_byte_from events verb (inside s events (append_byte b iac))
  unfolding get_byte_from on_byte
  doubled_iac_drops c events b h k = rw (h, k)

append_until_iac-Holds :
    (bytes : Bytes) {b : Buffer} {xs : Bytes}
    → All IsNoIac bytes
    → Holds b xs
    → Holds (append_until_iac b bytes) (xs ++ bytes)
unfolding append_until_iac
append_until_iac-Holds [] h k = rw append-nil k
append_until_iac-Holds (c ∷ bytes) {xs} h k =
    rw (h.0, ← append_assoc xs (c ∷ []) bytes)
      (append_until_iac-Holds bytes h.1 (append_byte-Holds c k))

c_string-name : (name : Bytes) → All IsNoNul name → c_string (name ++ 0 ∷ []) ≡ name
unfolding c_string
c_string-name [] h = refl
c_string-name (c ∷ name) h = rw h.0 (ap (◌∷◌ c) (c_string-name name h.1))

-- The bytes of a terminal type in a sub-option.
abbrev pub option_bytes : Bytes → Bytes
option_bytes name = terminal_type ∷ is ∷ name

abbrev pub term : Bytes
term = codes "TERM"

host_sb-name :
    (name : Bytes) (s : Stream)
    → All IsNoIac name
    → All IsNoNul name
    → host_sb (option_bytes name) s ≡ setenv term name s
unfolding host_sb
host_sb-name name s h k =
    let read = append_byte-Holds 0 (append_until_iac-Holds name h init-Holds) in
    ap (λ v. setenv term v s) (ap c_string read.bytes ∙ c_string-name name k)

-- The stream when the sub-option is at its end.
abbrev pub closing : Stream → Buffer → Stream
closing s b = record s { state = have_sb_iac; input = []; sb_buf = b }

-- What is left of the stream behind the answer, with nothing more to read.
abbrev pub answered : Stream → Config → Stream
answered s d = record s { config = some d; sb_buf = init; state = data_state; input = [] }

module _ (name : Bytes) (s : Stream) (d : Config) (h : All IsNoIac name) (k : All IsNoNul name)
    (hosting : is_host s ≡ true) where
  get_byte_from-end :
      (b : Buffer)
      → contents b ≡ option_bytes name
      → setenv term name (closing s b) ≡ ok tt (record (closing s b) { config = some d })
      → get_byte_from (byte iac ∷ byte se ∷ []) none (inside s (byte iac ∷ byte se ∷ []) b)
        ≡ ok (negsuc 0) (answered s d)
  unfolding get_byte_from on_byte
  get_byte_from-end b e stored = rw (hosting, e, host_sb-name name (closing s b) h k, stored)

  pub get_byte-answer :
      setenv term name (closing s (append_data init (option_bytes name)))
        ≡ ok tt (record (closing s (append_data init (option_bytes name))) { config = some d })
      → get_byte (frame s (arrive (term_type_answer name)) s.current_record)
        ≡ ok (negsuc 0) (answered s d)
  unfolding get_byte on_byte append_data
  get_byte-answer stored =
      let b = append_data init (option_bytes name) in
      rw (map-append_bytes name (iac ∷ se ∷ [])) (
        get_byte_from-inside s none name (byte iac ∷ byte se ∷ [])
          (append_byte (append_byte init terminal_type) is) h
        ∙ get_byte_from-end b (append_data-Holds (option_bytes name) init-Holds).bytes stored)

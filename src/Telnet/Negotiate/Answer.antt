-- ===== src/Telnet/Negotiate/Answer.antt =====
-- The client's answer to SB TERMINAL-TYPE SEND.
use mathlib.Core.List.{append_assoc}
use Prim.Native.Nat.{bit_or}
use linux_sna.Base.{some, [], ◌∷◌, ◌++◌, ◌≡◌, Bytes, codes, ok}
use linux_sna.Buffer.{append_data}
use linux_sna.Buffer.Contents.{Holds, init-Holds, append_byte-Holds, append_data-Holds}
use linux_sna.Config.{text}
use linux_sna.Telnet.Codes.{se, sb, iac, terminal_type, is, send, terminal}
use linux_sna.Telnet.Stream.{Stream, getenv}
use linux_sna.Telnet.Stream.Write.{send_reply_open}
use linux_sna.Telnet.Negotiate.{client_sb, sent_or_exit, sb_head, sb_tail}

-- IAC SB TERMINAL-TYPE IS, the name, IAC SE
abbrev pub term_type_answer : Bytes → Bytes
term_type_answer name = iac ∷ sb ∷ terminal_type ∷ is ∷ (name ++ iac ∷ se ∷ [])

answer-Holds :
    (name : Bytes)
    → Holds (sb_tail (append_data (sb_head terminal_type) name)) (term_type_answer name)
answer-Holds name =
    let head =
      append_byte-Holds is (
        append_byte-Holds terminal_type
          (append_byte-Holds sb (append_byte-Holds iac init-Holds))) in
    rw (← append_assoc name (iac ∷ []) (se ∷ []))
      (append_byte-Holds se (append_byte-Holds iac (append_data-Holds name head)))

-- Asked for its terminal type, a client with the name in TERM sends it, if the kernel takes it.
pub client_sb_answer :
    (name : Bytes) (s : Stream)
    → getenv s (codes "TERM") ≡ some (text name)
    → s.sends ≡ []
    → client_sb (terminal_type ∷ send ∷ []) s
      ≡ ok tt (record s {
        output = s.output ++ term_type_answer name;
        status = bit_or s.status terminal;
      })
unfolding client_sb sent_or_exit
client_sb_answer name s e clear =
    rw (e, ← (answer-Holds name).bytes) (rw (send_reply_open _ s clear))
